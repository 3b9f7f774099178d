-- ===== src/Session/Service/Publish.antt =====
-- What a heartbeat's message or its fallback leaves in Kafka and in PostgreSQL.
use mathlib.Core.Path.{subst₂}
use playback_service.Prelude.{
  ℕ, String, ◌≡◌, sym, ap, refl, ◌⊎◌, true, Option, none, some, Option-cases, inl, inr, fits, ℤ,
  pos, arith,
}
use playback_service.Apperror.{Fault, wrapped}
use playback_service.Json.{Json}
use playback_service.Session.Model.{PlaybackSession, encode_session}
use playback_service.Session.Roundtrip.{encode_session-is_json, decode-encode_session}
use playback_service.External.{External, ok, err}
use playback_service.External.Laws.{IsReadable}
use playback_service.World.{World}
use playback_service.World.Calls.{read_clock, writer_write}
use playback_service.World.Frame.{yield-Undisturbed}
use playback_service.Kafka.Event.{new_envelope}
use playback_service.Kafka.Event.Roundtrip.{parse-new_envelope}
use playback_service.Kafka.Producer.{publish, publish_reply}
use playback_service.Session.Repository.{upsert_reply}
use playback_service.Session.Repository.Effects.{upsert_lem, upsert-Writes}
use playback_service.Session.Consumer.Delivery.{carried}
use playback_service.Session.Consumer.{unmarshal_payload}
use playback_service.Session.Service.{heartbeat_topic, send_heartbeat, published, persisted}

module _ (x : External) where
  -- What the writer answers to a heartbeat's message.
  abbrev pub sent : String → x.Bytes → World x → Option Fault
  sent uid b w = (x.write_message heartbeat_topic uid b w.broker).0

  -- The world after a message that Kafka took, and after one that it refused and PostgreSQL took.
  pub record Sent (uid : String) (b : x.Bytes) (before : x.Broker) (after : World x) : Type 0 where
    pub taken : (x.write_message heartbeat_topic uid b before).0 ≡ none
    pub broker : after.broker ≡ (x.write_message heartbeat_topic uid b before).1

  pub record Saved (s : PlaybackSession) (before : x.Db) (after : World x) : Type 0 where
    pub saved : (x.exec_upsert s before).0 ≡ none
    pub db : after.db ≡ (x.exec_upsert s before).1

  pub Saved-of :
      {s t : PlaybackSession} {c d : x.Db} (after : World x)
      → s ≡ t
      → c ≡ d
      → Saved s c after
      → Saved t d after
  Saved-of after same_session same_db = subst₂ (λ s d. Saved s d after) same_session same_db

  publish-broker :
      (uid : String) (b : x.Bytes) (w : World x)
      → (publish x heartbeat_topic uid b w).1.broker
        ≡ (x.write_message heartbeat_topic uid b w.broker).1
  unfolding publish writer_write
  publish-broker uid b w = ground (arith, yield-Undisturbed w)

  publish_lem :
      (uid : String) (b : x.Bytes) (w : World x)
      → (publish x heartbeat_topic uid b w).0 ≡ publish_reply x heartbeat_topic (sent uid b w)
  unfolding publish writer_write
  publish_lem uid b w = ground (arith, yield-Undisturbed w)

  pub publish-kept :
      (uid : String) (b : x.Bytes) (w : World x)
      → ((publish x heartbeat_topic uid b w).1.db ≡ w.db)
        × ((publish x heartbeat_topic uid b w).1.objects ≡ w.objects)
  unfolding publish writer_write
  publish-kept uid b w = ground (arith, yield-Undisturbed w)

  persisted-Saved :
      (p : ℕ) (r : Option Fault) (v w : World x) (s : PlaybackSession)
      → r ≡ upsert_reply x (x.exec_upsert s w.db).0
      → v.db ≡ (x.exec_upsert s w.db).1
      → (persisted x r v).0 ≡ none
      → Saved s w.db (persisted x r v).1
  persisted-Saved p none v w s reply db done = elim (Option-cases (x.exec_upsert s w.db).0) [
    | inl saved ↦ record { saved = saved; db = db }
    | inr (e, failed) ↦ absurd (ground arith)
  ]
  persisted-Saved p (some e) v w s reply db done = cc

  published-Saved :
      (uid : String) (p : ℕ) (e : Fault) (w : World x)
      → (published x uid p (some e) w).0 ≡ none
      → Saved (w.objects p) w.db (published x uid p (some e) w).1
  published-Saved uid p e w done =
      persisted-Saved p _ _ w (w.objects p) (upsert_lem x p _) (upsert-Writes x p _).db done

  module _ (uid : String) (p : ℕ) (b : x.Bytes) where
    published-kept :
        (r : Option Fault) (v w : World x)
        → r ≡ sent uid b w
        → v.broker ≡ (x.write_message heartbeat_topic uid b w.broker).1
        → v.db ≡ w.db
        → v.objects ≡ w.objects
        → (published x uid p (publish_reply x heartbeat_topic r) v).0 ≡ none
        → Sent uid b w.broker (published x uid p (publish_reply x heartbeat_topic r) v).1
          ⊎ Saved (w.objects p) w.db (published x uid p (publish_reply x heartbeat_topic r) v).1
    published-kept none v w reply broker db objects done =
        inl (record { taken = sym reply; broker = broker })
    published-kept (some e) v w reply broker db objects done =
        let k = published-Saved uid p _ v done in inr (Saved-of _ (ap (λ o. o p) objects) db k)

    pub send_heartbeat-kept :
        (w : World x)
        → (send_heartbeat x uid p (ok b) w).0 ≡ none
        → Sent uid b w.broker (send_heartbeat x uid p (ok b) w).1
          ⊎ Saved (w.objects p) w.db (send_heartbeat x uid p (ok b) w).1
    unfolding send_heartbeat
    send_heartbeat-kept w done =
        let k = publish-kept uid b w in
        rw (publish_lem uid b w) (
          published-kept (sent uid b w) (publish x heartbeat_topic uid b w).1 w refl
            (publish-broker uid b w) k.0 k.1 (rw (publish_lem uid b w) at done))

  pub new_envelope-stores :
      (event_type : String) (version : ℤ) (payload : Option Json) (w : World x)
      → ((new_envelope x event_type version payload w).1.db ≡ w.db)
        × ((new_envelope x event_type version payload w).1.broker ≡ w.broker)
        × ((new_envelope x event_type version payload w).1.objects ≡ w.objects)
  unfolding new_envelope read_clock
  new_envelope-stores event_type version none w = ground arith
  new_envelope-stores event_type version (some v) w = ground arith

  new_envelope-err :
      (w : World x)
      → (new_envelope x heartbeat_topic (pos 1) none w).0
        ≡ err (wrapped "marshal event payload" x.marshal_error)
  unfolding new_envelope
  new_envelope-err w = refl

  -- A message's bytes from which the consumer reads the session.
  pub carried-new_envelope :
      (s : PlaybackSession) (w : World x) (b : x.Bytes)
      → IsReadable x
      → fits 64 s.position ≡ true
      → (new_envelope x heartbeat_topic (pos 1) (encode_session x.format_time x.parse_time s) w).0
        ≡ ok b
      → carried x b ≡ some s
  carried-new_envelope s w b readable small made =
      elim (Option-cases (encode_session x.format_time x.parse_time s)) [
        | inl beyond ↦ cc (new_envelope-err w, rw beyond at made)
        | inr (v, encoded) ↦
            let read =
              parse-new_envelope x heartbeat_topic (pos 1) v w b readable
                (encode_session-is_json x.format_time x.parse_time s v encoded) (ground arith)
                (rw encoded at made) in
            let back =
              decode-encode_session x.format_time x.parse_time s v readable.parse-format small
                encoded in
            rw read (rw (back, unmarshal_payload))
      ]
