-- ===== src/Kafka/Consumer/Shutdown.antt =====
-- When the loop of the consumer returns.
use playback_service.Prelude.{
  String, ◌≡◌, refl, true, false, Bool-cases, inl, inr, List, [], ◌∷◌, ◌++◌,
}
use playback_service.Apperror.{Fault, context_canceled, is}
use playback_service.External.{External, Message, Outcome, ok, err}
use playback_service.World.{World}
use playback_service.Kafka.Consumer.{stopped, waiting, HandlerFunc, rounds, run}

module _ (x : External) (handler : HandlerFunc x) where
  rounds-stopped :
      (before after : List (Outcome (Message x.Bytes))) (e : Fault) (w : World x)
      → is e context_canceled ≡ true
      → ((rounds x handler (before ++ (err e ∷ after)) w).0 ≡ stopped)
        × (rounds x handler (before ++ (err e ∷ after)) w
            ≡ rounds x handler (before ++ (err e ∷ [])) w)
  unfolding rounds
  rounds-stopped [] after e w canceled = (rw canceled, rw canceled)
  rounds-stopped (ok msg ∷ before) after e w canceled = rounds-stopped before after e _ canceled
  rounds-stopped (err f ∷ before) after e w canceled = elim (Bool-cases (is f context_canceled)) [
    | inl first ↦ (rw first, rw first)
    | inr other ↦ rw other (rounds-stopped before after e _ canceled)
  ]

  -- No answer is the cancellation of the context.
  abbrev pub NoneCanceled : List (Outcome (Message x.Bytes)) → Type 0
  NoneCanceled [] = Unit
  NoneCanceled (ok msg ∷ answers) = NoneCanceled answers
  NoneCanceled (err e ∷ answers) = (is e context_canceled ≡ false) × NoneCanceled answers

  rounds-waiting :
      (answers more : List (Outcome (Message x.Bytes))) (w : World x)
      → NoneCanceled answers
      → ((rounds x handler answers w).0 ≡ waiting)
        × (rounds x handler (answers ++ more) w
            ≡ rounds x handler more (rounds x handler answers w).1)
  unfolding rounds
  rounds-waiting [] more w calm = (refl, refl)
  rounds-waiting (ok msg ∷ answers) more w calm = rounds-waiting answers more _ calm
  rounds-waiting (err e ∷ answers) more w calm = rw calm.0 (rounds-waiting answers more _ calm.1)

-- The loop ends with the context: at the first answer that wraps the cancellation it returns, and
-- what would be fetched later has no effect, whatever the handler does.
pub run_shutdown :
    (x : External) (topic group : String) (handler : HandlerFunc x)
    (before after : List (Outcome (Message x.Bytes))) (e : Fault) (w : World x)
    → is e context_canceled ≡ true
    → ((run x topic group handler (before ++ (err e ∷ after)) w).0 ≡ stopped)
      × (run x topic group handler (before ++ (err e ∷ after)) w
          ≡ run x topic group handler (before ++ (err e ∷ [])) w)
unfolding run
run_shutdown x topic group handler before after e w canceled =
    rounds-stopped x handler before after e _ canceled

-- Nothing else ends the loop: after any answers without a cancellation, with messages that fail and
-- fetches that fail, it waits for the next, and goes on with whatever comes as if it had begun then.
pub run_survives :
    (x : External) (topic group : String) (handler : HandlerFunc x)
    (answers more : List (Outcome (Message x.Bytes))) (w : World x)
    → NoneCanceled x handler answers
    → ((run x topic group handler answers w).0 ≡ waiting)
      × (run x topic group handler (answers ++ more) w
          ≡ rounds x handler more (run x topic group handler answers w).1)
unfolding run
run_survives x topic group handler answers more w calm =
    rounds-waiting x handler answers more _ calm
