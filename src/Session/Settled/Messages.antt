-- ===== src/Session/Settled/Messages.antt =====
-- What a message about another user leaves of a user's session: all of it.
use playback_service.Prelude.{◌≡◌, ◌≢◌, refl, Option, none, some, arith}
use playback_service.Apperror.{Fault}
use playback_service.Session.Model.{PlaybackSession}
use playback_service.External.{External, Message, Outcome, ok, err}
use playback_service.External.Laws.{IsReadable, IsRedis, IsPostgres}
use playback_service.World.{World, allocate}
use playback_service.World.Calls.{reader_commit}
use playback_service.Kafka.Event.{Envelope, parse_envelope}
use playback_service.Kafka.Consumer.{handled, committed, process}
use playback_service.Session.Consumer.{
  unmarshal_payload, persist_reply, persist, handle_envelope, handle,
}
use playback_service.Session.Consumer.Delivery.{of_payload, of_envelope, carried}
use playback_service.Session.Settled.{Settled, yield-Settled, allocate-Settled}
use playback_service.Session.Settled.Others.{upsert-Settled}

module _ {x : External} (redis : IsRedis x) (readable : IsReadable x) (pg : IsPostgres x)
    (s : PlaybackSession) where
  persist_reply-Settled :
      (t : PlaybackSession) (r : Option Fault) (w : World x)
      → Settled pg s redis w
      → Settled pg s redis (persist_reply x t r w).1
  persist_reply-Settled t none w k = record { row = k.row; held = k.held }
  persist_reply-Settled t (some e) w k = k

  persist-Settled :
      (msg : Message x.Bytes) (r : Outcome PlaybackSession) (w : World x)
      → ((t : PlaybackSession) → of_payload x r ≡ some t → t.user_id ≢ s.user_id)
      → Settled pg s redis w
      → Settled pg s redis (persist x msg r w).1
  persist-Settled msg (err e) w other k = record { row = k.row; held = k.held }
  persist-Settled msg (ok t) w other k =
      let a = (allocate t w).1 in
      let fresh : a.objects w.next ≡ t = ground arith in
      persist_reply-Settled t _ _ (
        upsert-Settled redis readable pg s w.next a (rw fresh (other t refl))
          (allocate-Settled redis readable pg s t w k))

  handle_envelope-Settled :
      (msg : Message x.Bytes) (r : Outcome Envelope) (w : World x)
      → ((t : PlaybackSession) → of_envelope x r ≡ some t → t.user_id ≢ s.user_id)
      → Settled pg s redis w
      → Settled pg s redis (handle_envelope x msg r w).1
  handle_envelope-Settled msg (err e) w other k = record { row = k.row; held = k.held }
  handle_envelope-Settled msg (ok env) w other k =
      persist-Settled msg (unmarshal_payload x env.payload) w other k

  handled-Settled :
      (msg : Message x.Bytes) (r : Option Fault) (w : World x)
      → Settled pg s redis w
      → Settled pg s redis (handled x msg r w).1
  handled-Settled msg none w k = k
  handled-Settled msg (some e) w k = record { row = k.row; held = k.held }

  committed-Settled :
      (r : Option Fault) (w : World x)
      → Settled pg s redis w
      → Settled pg s redis (committed x r w).1
  committed-Settled none w k = k
  committed-Settled (some e) w k = record { row = k.row; held = k.held }

  commit-Settled :
      (msg : Message x.Bytes) (w : World x)
      → Settled pg s redis w
      → Settled pg s redis (reader_commit x msg w).1
  unfolding reader_commit
  commit-Settled msg w k =
      let y = yield-Settled redis readable pg s w k in record { row = y.row; held = y.held }

  pub process-Settled :
      (msg : Message x.Bytes) (w : World x)
      → ((t : PlaybackSession) → carried x msg.value ≡ some t → t.user_id ≢ s.user_id)
      → Settled pg s redis w
      → Settled pg s redis (process x (handle x) msg w).1
  unfolding process handle
  process-Settled msg w other k = committed-Settled _ _ (
      commit-Settled msg _ (
        handled-Settled msg _ _
          (handle_envelope-Settled msg (parse_envelope x msg.value) w other k)))
