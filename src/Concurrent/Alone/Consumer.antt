-- ===== src/Concurrent/Alone/Consumer.antt =====
-- internal/session/consumer.go: the calls in a row are the round of the loop.
use playback_service.Prelude.{refl, Option, none, some}
use playback_service.Apperror.{Fault}
use playback_service.Session.Model.{PlaybackSession}
use playback_service.Session.Repository as WholeRepository
use playback_service.Session.Consumer as Whole
use playback_service.Kafka.Consumer as WholeLoop
use playback_service.Kafka.Event.{Envelope, parse_envelope}
use playback_service.External.{External, Outcome, ok, err, Message}
use playback_service.World.{allocate}
use playback_service.World.Calls.{reader_commit}
use playback_service.Concurrent.{run, ◌>>=◌, ◌>>◌}
use playback_service.Concurrent.Repository
use playback_service.Concurrent.Consumer.{
  upsert_answered, with_session, with_envelope, handle, handler_answered, commit_answered, process,
}
use playback_service.Concurrent.Alone.{Runs, Runs-bind}
use playback_service.Concurrent.Alone.Repository.{upsert-Runs}

module _ (x : External) where
  upsert_answered-Runs :
      (s : PlaybackSession) (r : Option Fault)
      → Runs (upsert_answered x s r) (Whole.persist_reply x s r)
  unfolding run ◌>>=◌ ◌>>◌
  upsert_answered-Runs s none w = refl
  upsert_answered-Runs s (some e) w = refl

  with_session-Runs :
      (msg : Message x.Bytes) (r : Outcome PlaybackSession)
      → Runs (with_session x msg r) (Whole.persist x msg r)
  unfolding run ◌>>=◌ ◌>>◌
  with_session-Runs msg (err e) w = refl
  with_session-Runs msg (ok s) w =
      let p = allocate s w in
      Runs-bind (Repository.upsert x p.0) (WholeRepository.upsert x p.0) (upsert_answered x s)
        (Whole.persist_reply x s) (upsert-Runs x p.0) (upsert_answered-Runs s) p.1

  with_envelope-Runs :
      (msg : Message x.Bytes) (r : Outcome Envelope)
      → Runs (with_envelope x msg r) (Whole.handle_envelope x msg r)
  unfolding run ◌>>=◌ ◌>>◌
  with_envelope-Runs msg (err e) w = refl
  with_envelope-Runs msg (ok env) w =
      with_session-Runs msg (Whole.unmarshal_payload x env.payload) w

  handle-Runs : (msg : Message x.Bytes) → Runs (handle x msg) (Whole.handle x msg)
  unfolding handle Whole.handle
  handle-Runs msg = with_envelope-Runs msg (parse_envelope x msg.value)

  handler_answered-Runs :
      (msg : Message x.Bytes) (r : Option Fault)
      → Runs (handler_answered x msg r) (WholeLoop.handled x msg r)
  unfolding run
  handler_answered-Runs msg none w = refl
  handler_answered-Runs msg (some e) w = refl

  commit_answered-Runs : (r : Option Fault) → Runs (commit_answered x r) (WholeLoop.committed x r)
  unfolding run
  commit_answered-Runs none w = refl
  commit_answered-Runs (some e) w = refl

  pub process-Runs :
      (msg : Message x.Bytes) → Runs (process x msg) (WholeLoop.process x (Whole.handle x) msg)
  unfolding run ◌>>=◌ ◌>>◌ process WholeLoop.process
  process-Runs msg w =
      Runs-bind (handle x msg) (Whole.handle x msg) _ _ (handle-Runs msg)
        (λ failed v.
          Runs-bind (handler_answered x msg failed) (WholeLoop.handled x msg failed) _ _
            (handler_answered-Runs msg failed)
            (λ u z. let reply = reader_commit x msg z in commit_answered-Runs reply.0 reply.1) v)
        w
