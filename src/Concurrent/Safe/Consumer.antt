-- ===== src/Concurrent/Safe/Consumer.antt =====
-- internal/session/consumer.go: a round of the loop keeps to the rules.
use playback_service.Prelude.{◌≡◌, refl, Option, none, some}
use playback_service.Apperror.{Fault}
use playback_service.Session.Model.{PlaybackSession}
use playback_service.Session.Consumer.{unmarshal_payload}
use playback_service.Session.Consumer.Delivery.{of_payload, of_envelope, carried}
use playback_service.Kafka.Event.{Envelope, parse_envelope}
use playback_service.External.{External, Outcome, ok, err, Message}
use playback_service.World.{World, log_line, allocate}
use playback_service.World.Calls.{reader_commit}
use playback_service.Concurrent.{ret, ◌>>=◌, ◌>>◌}
use playback_service.Concurrent.Repository
use playback_service.Concurrent.Consumer.{
  upsert_answered, with_session, with_envelope, handle, handler_answered, commit_answered, process,
}
use playback_service.Concurrent.Safe.Rules.{Rules, Obeys, Any, Obeys-ret, Obeys-call, Obeys-bind}
use playback_service.Concurrent.Safe.Repository.{allocate-Writable, upsert-Obeys}

module _ {x : External} (rules : Rules x) where
  upsert_answered-Obeys :
      (s : PlaybackSession) (r : Option Fault) (w : World x)
      → Obeys rules (Any rules) (upsert_answered x s r) w
  unfolding ◌>>=◌ ◌>>◌
  upsert_answered-Obeys s none w =
      Obeys-call rules (Any rules) (log_line _ _ _) _ w (λ v r. rules.log _ _ _ v)
        λ v g k l. Obeys-ret rules (Any rules) none _ tt
  upsert_answered-Obeys s (some e) w = Obeys-ret rules (Any rules) _ w tt

  with_session-Obeys :
      (msg : Message x.Bytes) (r : Outcome PlaybackSession) (w : World x)
      → ((s : PlaybackSession) → of_payload x r ≡ some s → rules.Writes s.user_id)
      → Obeys rules (Any rules) (with_session x msg r) w
  unfolding ◌>>=◌ ◌>>◌
  with_session-Obeys msg (err e) w may =
      Obeys-call rules (Any rules) (log_line _ _ _) _ w (λ v r. rules.log _ _ _ v)
        λ v g k l. Obeys-ret rules (Any rules) none _ tt
  with_session-Obeys msg (ok s) w may =
      Obeys-call rules (Any rules) (allocate s) _ w (λ v r. rules.allocated s v)
        λ v g k l.
          Obeys-bind rules (Any rules) (Any rules) (Repository.upsert x v.next)
            (upsert_answered x s) _
            (upsert-Obeys rules v.next _ (allocate-Writable rules s v (may s refl)))
            λ r u h any. upsert_answered-Obeys s r u

  with_envelope-Obeys :
      (msg : Message x.Bytes) (r : Outcome Envelope) (w : World x)
      → ((s : PlaybackSession) → of_envelope x r ≡ some s → rules.Writes s.user_id)
      → Obeys rules (Any rules) (with_envelope x msg r) w
  unfolding ◌>>=◌ ◌>>◌
  with_envelope-Obeys msg (err e) w may =
      Obeys-call rules (Any rules) (log_line _ _ _) _ w (λ v r. rules.log _ _ _ v)
        λ v g k l. Obeys-ret rules (Any rules) none _ tt
  with_envelope-Obeys msg (ok env) w may =
      with_session-Obeys msg (unmarshal_payload x env.payload) w may

  handler_answered-Obeys :
      (msg : Message x.Bytes) (r : Option Fault) (w : World x)
      → Obeys rules (Any rules) (handler_answered x msg r) w
  handler_answered-Obeys msg none w = Obeys-ret rules (Any rules) _ w tt
  handler_answered-Obeys msg (some e) w =
      Obeys-call rules (Any rules) (log_line _ _ _) ret w (λ v r. rules.log _ _ _ v)
        λ v g k l. Obeys-ret rules (Any rules) _ _ tt

  commit_answered-Obeys :
      (r : Option Fault) (w : World x) → Obeys rules (Any rules) (commit_answered x r) w
  commit_answered-Obeys none w = Obeys-ret rules (Any rules) _ w tt
  commit_answered-Obeys (some e) w =
      Obeys-call rules (Any rules) (log_line _ _ _) ret w (λ v r. rules.log _ _ _ v)
        λ v g k l. Obeys-ret rules (Any rules) _ _ tt

  pub process-Obeys :
      (msg : Message x.Bytes) (w : World x)
      → ((s : PlaybackSession) → carried x msg.value ≡ some s → rules.Writes s.user_id)
      → Obeys rules (Any rules) (process x msg) w
  unfolding process handle ◌>>=◌ ◌>>◌
  process-Obeys msg w may =
      Obeys-bind rules (Any rules) (Any rules) (with_envelope x msg (parse_envelope x msg.value)) _
        w (with_envelope-Obeys msg (parse_envelope x msg.value) w may)
        λ failed v g any.
          Obeys-bind rules (Any rules) (Any rules) (handler_answered x msg failed) _ v
            (handler_answered-Obeys msg failed v)
            λ u z h any.
              Obeys-call rules (Any rules) (reader_commit x msg) _ z (λ v r. rules.commit msg v)
                λ a g k l. commit_answered-Obeys _ _
