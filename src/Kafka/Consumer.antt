-- ===== src/Kafka/Consumer.antt =====
-- internal/kafka/consumer.go: the loop of the consumer. What `FetchMessage` returns, call by call,
-- is a list; the loop waits where the list ends. The trace context of a message is in Kafka.Trace, apart.
pub mod Shutdown
use playback_service.Prelude.{String, Option, none, some, List, [], ◌∷◌, pos, if◌then◌else◌}
use playback_service.Apperror.{Fault, context_canceled, is}
use playback_service.External.{External, Outcome, ok, err, Message}
use playback_service.World.{M, pure, ◌>>=◌, ◌>>◌, info, error, text, number, fault, log_line}
use playback_service.World.Calls.{reader_commit}

-- Whether the loop has returned, or still waits for a message.
pub data Loop : Type 0 where
  stopped waiting : Loop

module _ (x : External) where
  -- A `HandlerFunc`.
  abbrev pub HandlerFunc : Type 0
  HandlerFunc = Message x.Bytes → M x (Option Fault)

  abbrev pub handled : Message x.Bytes → Option Fault → M x (Unit {0})
  handled msg none = pure tt
  handled msg (some e) = log_line error "message processing failed" (
      ("topic", text msg.topic)
      ∷ ("partition", number (pos msg.partition))
      ∷ ("offset", number (pos msg.offset))
      ∷ ("error", fault e)
      ∷ [])

  abbrev pub committed : Option Fault → M x (Unit {0})
  committed none = pure tt
  committed (some e) = log_line error "kafka commit error" (("error", fault e) ∷ [])

  -- The body of the loop after a successful fetch.
  unfoldable pub process : HandlerFunc → Message x.Bytes → M x (Unit {0})
  process handler msg = do
    failed ← handler msg
    handled msg failed
    reply ← reader_commit x msg
    committed reply

  -- The rounds of the loop, one for each answer of `FetchMessage`.
  unfoldable pub rounds : HandlerFunc → List (Outcome (Message x.Bytes)) → M x Loop
  rounds handler [] w = (waiting, w)
  rounds handler (ok msg ∷ answers) w = rounds handler answers (process handler msg w).1
  rounds handler (err e ∷ answers) w =
      let go_on =
        rounds handler answers (log_line error "kafka fetch error" (("error", fault e) ∷ []) w).1 in
      if is e context_canceled
      then (stopped, (log_line info "kafka consumer stopped" [] w).1)
      else go_on

  unfoldable pub run :
      (topic group : String) → HandlerFunc → List (Outcome (Message x.Bytes)) → M x Loop
  run topic group handler answers = do
    log_line info "kafka consumer started" (("topic", text topic) ∷ ("group", text group) ∷ [])
    rounds handler answers
