-- ===== src/Session/Settled/Heartbeats.antt =====
-- What a heartbeat of another user leaves of a user's session: all of it.
use playback_service.Prelude.{ℕ, String, ◌≡◌, ◌≢◌, sym, ap, ◌∙◌, Option, none, some, pos, ℤ, arith}
use playback_service.Apperror.{Fault}
use playback_service.Json.{Json}
use playback_service.Session.Model.{PlaybackSession, HeartbeatRequest, encode_session}
use playback_service.External.{External, Outcome, ok, err}
use playback_service.External.Laws.{IsReadable, IsRedis, IsPostgres}
use playback_service.World.{World, allocate}
use playback_service.World.Calls.{read_clock, writer_write}
use playback_service.Kafka.Event.{new_envelope}
use playback_service.Kafka.Producer.{publish}
use playback_service.Session.Repository.{set_cache}
use playback_service.Session.Repository.Effects.{set_cache-Undisturbed}
use playback_service.Session.Service.{
  heartbeat_topic, heartbeat_session, warn_cache, persisted, published, send_heartbeat, heartbeat,
}
use playback_service.Session.Service.Publish.{publish-kept, new_envelope-stores}
use playback_service.Session.Service.Saves.{warn_cache-Undisturbed}
use playback_service.Session.Settled.{Settled, yield-Settled, allocate-Settled}
use playback_service.Session.Settled.Others.{
  Elsewhere, upsert-Settled, set_cache-Settled, warn_cache-Settled,
}

module _ {x : External} (redis : IsRedis x) (readable : IsReadable x) (pg : IsPostgres x)
    (s : PlaybackSession) where
  publish-Settled :
      (uid : String) (b : x.Bytes) (w : World x)
      → Settled pg s redis w
      → Settled pg s redis (publish x heartbeat_topic uid b w).1
  unfolding publish writer_write
  publish-Settled uid b w k =
      let y = yield-Settled redis readable pg s w k in record { row = y.row; held = y.held }

  persisted-Settled :
      (r : Option Fault) (w : World x)
      → Settled pg s redis w
      → Settled pg s redis (persisted x r w).1
  persisted-Settled none w k = k
  persisted-Settled (some e) w k = k

  published-Settled :
      (uid : String) (p : ℕ) (r : Option Fault) (w : World x)
      → Elsewhere s p w
      → Settled pg s redis w
      → Settled pg s redis (published x uid p r w).1
  published-Settled uid p none w other k = k
  published-Settled uid p (some e) w other k =
      persisted-Settled _ _
        (upsert-Settled redis readable pg s p _ other (record { row = k.row; held = k.held }))

  send_heartbeat-Settled :
      (uid : String) (p : ℕ) (r : Outcome x.Bytes) (w : World x)
      → Elsewhere s p w
      → Settled pg s redis w
      → Settled pg s redis (send_heartbeat x uid p r w).1
  unfolding send_heartbeat
  send_heartbeat-Settled uid p (err e) w other k = k
  send_heartbeat-Settled uid p (ok b) w other k =
      let kept = (publish-kept x uid b w).1 in
      published-Settled uid p _ _ (λ own. other (ap (λ o. (o p).user_id) (sym kept) ∙ own))
        (publish-Settled uid b w k)

  new_envelope-Settled :
      (topic : String) (version : ℤ) (payload : Option Json) (w : World x)
      → Settled pg s redis w
      → Settled pg s redis (new_envelope x topic version payload w).1
  unfolding new_envelope read_clock
  new_envelope-Settled topic version none w k = k
  new_envelope-Settled topic version (some v) w k = record { row = k.row; held = k.held }

  pub heartbeat-Settled :
      (uid : String) (req : HeartbeatRequest) (w : World x)
      → uid ≢ s.user_id
      → Settled pg s redis w
      → Settled pg s redis (heartbeat x uid req w).1
  unfolding heartbeat read_clock
  heartbeat-Settled uid req w other k =
      let (t, c) = x.now w.clock in
      let v = record w { clock = c } in
      let beat = heartbeat_session uid req t in
      let a = (allocate beat v).1 in
      let fresh : a.objects w.next ≡ beat = ground arith in
      let (reply, b) = set_cache x w.next a in
      let warned = (warn_cache x "redis cache miss on heartbeat" uid reply b).1 in
      let cached : warned.objects ≡ a.objects =
        (warn_cache-Undisturbed x "redis cache miss on heartbeat" uid reply b).objects
        ∙ (set_cache-Undisturbed x w.next a).objects in
      let m = encode_session x.format_time x.parse_time (warned.objects w.next) in
      let sent = new_envelope x heartbeat_topic (pos 1) m warned in
      let stays = (new_envelope-stores x heartbeat_topic (pos 1) m warned).2 in
      let owner : (sent.1.objects w.next).user_id ≡ uid =
        ap (λ o. (o w.next).user_id) (stays ∙ cached)
        ∙ ap (λ (q : PlaybackSession). q.user_id) fresh in
      send_heartbeat-Settled uid w.next sent.0 sent.1 (λ own. other (sym owner ∙ own))
        (new_envelope-Settled heartbeat_topic (pos 1) m warned (
          warn_cache-Settled redis readable pg s _ uid reply b (
            set_cache-Settled redis readable pg s w.next a (rw fresh other) (
              allocate-Settled redis readable pg s beat v
                (record { row = k.row; held = k.held })))))
