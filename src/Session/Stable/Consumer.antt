-- ===== src/Session/Stable/Consumer.antt =====
-- internal/session/consumer.go and the loop of internal/kafka/consumer.go: what every primitive step
-- keeps, the consumer keeps.
use playback_service.Prelude.{String, Bool-cases, inl, inr, Option, none, some, List, [], ◌∷◌}
use playback_service.Apperror.{Fault, context_canceled, is}
use playback_service.Session.Model.{PlaybackSession}
use playback_service.External.{External, Message, Outcome, ok, err}
use playback_service.World.{World, allocate}
use playback_service.World.Calls.{reader_commit}
use playback_service.World.Stable.{Keeps, IsStable}
use playback_service.Kafka.Event.{Envelope, parse_envelope}
use playback_service.Kafka.Consumer.{HandlerFunc, handled, committed, process, rounds, run}
use playback_service.Session.Repository.{upsert}
use playback_service.Session.Consumer.{
  unmarshal_payload, persist_reply, persist, handle_envelope, handle,
}
use playback_service.Session.Stable.Repository.{upsert-Keeps}

module _ {x : External} (I : World x → Type 0) (stable : IsStable I) where
  persist_reply-Keeps : (s : PlaybackSession) (r : Option Fault) → Keeps I (persist_reply x s r)
  persist_reply-Keeps s none w i = stable.log _ _ _ w i
  persist_reply-Keeps s (some e) w i = i

  persist-Keeps : (msg : Message x.Bytes) (r : Outcome PlaybackSession) → Keeps I (persist x msg r)
  persist-Keeps msg (err e) w i = stable.log _ _ _ w i
  persist-Keeps msg (ok s) w i =
      let r = upsert x w.next (allocate s w).1 in
      persist_reply-Keeps s r.0 r.1
        (upsert-Keeps I stable w.next (allocate s w).1 (stable.allocated s w i))

  handle_envelope-Keeps :
      (msg : Message x.Bytes) (r : Outcome Envelope) → Keeps I (handle_envelope x msg r)
  handle_envelope-Keeps msg (err e) w i = stable.log _ _ _ w i
  handle_envelope-Keeps msg (ok env) w i = persist-Keeps msg (unmarshal_payload x env.payload) w i

  pub handle-Keeps : (msg : Message x.Bytes) → Keeps I (handle x msg)
  unfolding handle
  handle-Keeps msg w i = handle_envelope-Keeps msg (parse_envelope x msg.value) w i

  module _ (handler : HandlerFunc x) (kept : (msg : Message x.Bytes) → Keeps I (handler msg)) where
    handled-Keeps : (msg : Message x.Bytes) (r : Option Fault) → Keeps I (handled x msg r)
    handled-Keeps msg none w i = i
    handled-Keeps msg (some e) w i = stable.log _ _ _ w i

    committed-Keeps : (r : Option Fault) → Keeps I (committed x r)
    committed-Keeps none w i = i
    committed-Keeps (some e) w i = stable.log _ _ _ w i

    pub process-Keeps : (msg : Message x.Bytes) → Keeps I (process x handler msg)
    unfolding process
    process-Keeps msg w i =
        let r = handler msg w in
        let c = reader_commit x msg (handled x msg r.0 r.1).1 in
        committed-Keeps c.0 c.1 (stable.commit msg _ (handled-Keeps msg r.0 r.1 (kept msg w i)))

    rounds-Keeps : (answers : List (Outcome (Message x.Bytes))) → Keeps I (rounds x handler answers)
    unfolding rounds
    rounds-Keeps [] w i = i
    rounds-Keeps (ok msg ∷ answers) w i = rounds-Keeps answers _ (process-Keeps msg w i)
    rounds-Keeps (err e ∷ answers) w i = elim (Bool-cases (is e context_canceled)) [
      | inl canceled ↦ rw canceled (stable.log _ _ _ w i)
      | inr other ↦ rw other (rounds-Keeps answers _ (stable.log _ _ _ w i))
    ]

    pub run-Keeps :
        (topic group : String) (answers : List (Outcome (Message x.Bytes)))
        → Keeps I (run x topic group handler answers)
    unfolding run
    run-Keeps topic group answers w i = rounds-Keeps answers _ (stable.log _ _ _ w i)
