-- ===== src/Session/Service/Heartbeat.antt =====
-- Where the position of an acknowledged heartbeat is kept.
use mathlib.Core.Path.{subst}
use playback_service.Prelude.{
  ℕ, String, ◌≡◌, ◌∙◌, sym, ap, refl, ◌⊎◌, true, none, some, [], ◌∷◌, ◌++◌, inl, inr, fits, pos,
  arith,
}
use playback_service.Apperror.{Fault, app, new_internal}
use playback_service.Session.Model.{PlaybackSession, HeartbeatRequest, encode_session}
use playback_service.External.{External, Outcome, ok, err}
use playback_service.External.Laws.{IsReadable, IsPostgres, IsKafka}
use playback_service.World.{World, allocate}
use playback_service.World.Calls.{read_clock}
use playback_service.Kafka.Event.{new_envelope}
use playback_service.Session.Repository.{set_cache}
use playback_service.Session.Repository.Effects.{set_cache-Undisturbed}
use playback_service.Session.Repository.Rows.{Persists, exec-Persists}
use playback_service.Session.Consumer.Delivery.{carried}
use playback_service.Session.Service.{
  heartbeat_topic, heartbeat_session, heartbeat, send_heartbeat, warn_cache,
}
use playback_service.Session.Service.Publish.{
  Sent, Saved, Saved-of, send_heartbeat-kept, new_envelope-stores, carried-new_envelope,
}
use playback_service.Session.Service.Saves.{warn_cache-Undisturbed}

send_heartbeat-err :
    (x : External) (uid : String) (p : ℕ) (e : Fault) (w : World x)
    → (send_heartbeat x uid p (err e) w).0
      ≡ some (app (new_internal "failed to encode heartbeat event" e))
unfolding send_heartbeat
send_heartbeat-err x uid p e w = refl

module _ (x : External) (uid : String) (req : HeartbeatRequest) (w : World x) where
  -- The session of the heartbeat.
  abbrev pub beat : PlaybackSession
  beat = heartbeat_session uid req (x.now w.clock).0

  -- Where a heartbeat is kept: a message with its user as the key, from which the consumer reads
  -- its session, at the end of the topic; or the row of its user.
  abbrev pub Queued : IsKafka x → World x → Type 0
  Queued k after =
      (b : x.Bytes) × (carried x b ≡ some beat)
      × (k.messages heartbeat_topic after.broker
          ≡ k.messages heartbeat_topic w.broker ++ ((uid, b) ∷ []))

  record Kept (after : World x) : Type 0 where
    kept :
        ((b : x.Bytes) × (carried x b ≡ some beat) × Sent x uid b w.broker after)
        ⊎ Saved x beat w.db after

  envelope-Kept :
      (p : ℕ) (r : Outcome x.Bytes) (v : World x)
      → ((b : x.Bytes) → r ≡ ok b → carried x b ≡ some beat)
      → v.objects p ≡ beat
      → v.db ≡ w.db
      → v.broker ≡ w.broker
      → (send_heartbeat x uid p r v).0 ≡ none
      → Kept (send_heartbeat x uid p r v).1
  envelope-Kept p (ok b) v carries object db broker done =
      elim (send_heartbeat-kept x uid p b v done) [
        | inl k ↦ record {
          kept = inl (
            b,
            carries b refl,
            subst (λ c. Sent x uid b c (send_heartbeat x uid p (ok b) v).1) broker k,
          );
        }
        | inr k ↦ record { kept = inr (Saved-of x _ object db k) }
      ]
  envelope-Kept p (err e) v carries object db broker done = cc (send_heartbeat-err x uid p e v)

  -- The world at the call of `NewEnvelope`.
  fresh : World x
  fresh = (allocate beat (read_clock x w).1).1

  cached : World x
  cached =
      let c = set_cache x w.next fresh in
      (warn_cache x "redis cache miss on heartbeat" uid c.0 c.1).1

  cached-object : cached.objects w.next ≡ beat
  unfolding cached fresh read_clock
  cached-object =
      let c = set_cache x w.next fresh in
      let allocated : fresh.objects w.next ≡ beat = ground arith in
      ap (λ o. o w.next)
        (warn_cache-Undisturbed x "redis cache miss on heartbeat" uid c.0 c.1).objects
      ∙ ap (λ o. o w.next) (set_cache-Undisturbed x w.next fresh).objects
      ∙ allocated

  cached-stores : (cached.db ≡ w.db) × (cached.broker ≡ w.broker)
  unfolding cached fresh read_clock
  cached-stores =
      let c = set_cache x w.next fresh in
      let a = warn_cache-Undisturbed x "redis cache miss on heartbeat" uid c.0 c.1 in
      let b = set_cache-Undisturbed x w.next fresh in (a.db ∙ b.db, a.broker ∙ b.broker)

  heartbeat-Kept :
      IsReadable x
      → fits 64 req.position ≡ true
      → (heartbeat x uid req w).0 ≡ none
      → Kept (heartbeat x uid req w).1
  unfolding heartbeat cached fresh read_clock
  heartbeat-Kept readable small done =
      let s = cached.objects w.next in
      let m = encode_session x.format_time x.parse_time s in
      let e = new_envelope x heartbeat_topic (pos 1) m cached in
      let same = new_envelope-stores x heartbeat_topic (pos 1) m cached in
      envelope-Kept w.next e.0 e.1
        (λ b made. carried-new_envelope x beat cached b readable small (
          ap
            (λ (t : PlaybackSession).
              (new_envelope x heartbeat_topic (pos 1) (encode_session x.format_time x.parse_time t)
                cached).0)
            (sym cached-object)
          ∙ made))
        (ap (λ o. o w.next) same.2 ∙ cached-object) (same.0 ∙ cached-stores.0)
        (same.1 ∙ cached-stores.1) done

-- An acknowledged heartbeat is not lost: its session is in a message with the user as key at the
-- end of the heartbeat topic, from which the consumer reads exactly that session, or it is the
-- row of its user as far as the columns keep it, with no other row changed. This holds whatever
-- Redis answers and other goroutines do, for a position that is a Go integer. It relies on the
-- laws of Kafka with a synchronous writer, which is the default, PostgreSQL and the text forms.
pub heartbeat_durable :
    {x : External} (readable : IsReadable x) (pg : IsPostgres x) (kafka : IsKafka x) (uid : String)
    (req : HeartbeatRequest) (w : World x)
    → fits 64 req.position ≡ true
    → (heartbeat x uid req w).0 ≡ none
    → Queued x uid req w kafka (heartbeat x uid req w).1
      ⊎ Persists pg (beat x uid req w) w.db (heartbeat x uid req w).1.db
heartbeat_durable {x} readable pg kafka uid req w small done =
    elim (heartbeat-Kept x uid req w readable small done).kept [
      | inl (b, carries, k) ↦ inl (
        b,
        carries,
        ap (kafka.messages heartbeat_topic) k.broker
            ∙ kafka.write_done heartbeat_topic heartbeat_topic uid b w.broker k.taken,
      )
      | inr k ↦ inr (rw k.db (exec-Persists pg (beat x uid req w) w.db k.saved))
    ]
