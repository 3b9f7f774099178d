-- ===== src/Session/Consumer/Delivery.antt =====
-- What the consumer does with a message, by the session that the message carries.
use mathlib.Core.List.{foldl}
use playback_service.Prelude.{
  String, ◌<>◌, ◌≡◌, ◌⊎◌, ◌∙◌, sym, ap, refl, Bool-cases, Option-cases, Option, none, some, List,
  [], ◌∷◌, inl, inr, arith, if◌then◌else◌,
}
use playback_service.Apperror.{Fault, wrapped, is, context_canceled}
use playback_service.Session.Model.{PlaybackSession}
use playback_service.External.{External, Outcome, ok, err, Message}
use playback_service.World.{World, allocate}
use playback_service.World.Calls.{reader_commit}
use playback_service.World.Frame.{Undisturbed, yield-Undisturbed}
use playback_service.Kafka.Event.{Envelope, parse_envelope}
use playback_service.Kafka.Consumer.{process, rounds, run, handled, committed}
use playback_service.Session.Repository.{upsert, upsert_reply}
use playback_service.Session.Repository.Effects.{upsert_lem, upsert-Writes}
use playback_service.External.Laws.{IsPostgres}
use playback_service.Session.Repository.Rows.{Persists, exec-Persists, exec-Persists_or_kept}
use playback_service.Session.Consumer.{
  unmarshal_payload, persist_reply, persist, handle_envelope, handle,
}

module _ (x : External) where
  abbrev pub of_payload : Outcome PlaybackSession → Option PlaybackSession
  of_payload (ok s) = some s
  of_payload (err e) = none

  abbrev pub of_envelope : Outcome Envelope → Option PlaybackSession
  of_envelope (ok env) = of_payload (unmarshal_payload x env.payload)
  of_envelope (err e) = none

  -- The session that a message's value carries, if it is well formed.
  abbrev pub carried : x.Bytes → Option PlaybackSession
  carried value = of_envelope (parse_envelope x value)

  -- The database after a message.
  abbrev pub delivered : Option PlaybackSession → x.Db → x.Db
  delivered none d = d
  delivered (some s) d = (x.exec_upsert s d).1

  -- The error that a message ends with.
  abbrev pub delivery_error : Option PlaybackSession → x.Db → Option Fault
  delivery_error none d = none
  delivery_error (some s) d = elim (x.exec_upsert s d).0 [
    | none ↦ none
    | some e ↦
        some (
          wrapped ("persist heartbeat for user " <> s.user_id)
            (wrapped "upsert playback session" e))
  ]

  pub delivery_error-none :
      (s : PlaybackSession) (d : x.Db)
      → delivery_error (some s) d ≡ none
      → (x.exec_upsert s d).0 ≡ none
  delivery_error-none s d h = ground arith

  pub record Delivers (s : Option PlaybackSession) (before : World x)
      (after : Option Fault × World x) : Type 0 where
    pub result : after.0 ≡ delivery_error s before.db
    pub db : after.1.db ≡ delivered s before.db
    pub broker : after.1.broker ≡ before.broker

  persist-Delivers_saved :
      (s : PlaybackSession) (r : Option Fault × World x) (w : World x)
      → r.0 ≡ upsert_reply x (x.exec_upsert s w.db).0
      → r.1.db ≡ (x.exec_upsert s w.db).1
      → r.1.broker ≡ w.broker
      → Delivers (some s) w (persist_reply x s r.0 r.1)
  persist-Delivers_saved s r w reply db broker = elim (Option-cases (x.exec_upsert s w.db).0) [
    | inl done ↦ ground arith
    | inr (e, failed) ↦ ground arith
  ]

  persist-Delivers :
      (msg : Message x.Bytes) (r : Outcome PlaybackSession) (w : World x)
      → Delivers (of_payload r) w (persist x msg r w)
  persist-Delivers msg (err e) w = ground arith
  persist-Delivers msg (ok s) w =
      let v = (allocate s w).1 in
      let kept : v.objects w.next ≡ s = ground arith in
      persist-Delivers_saved s (upsert x w.next v) w
        (upsert_lem x w.next v
          ∙ ap (λ (s : PlaybackSession). upsert_reply x (x.exec_upsert s w.db).0) kept)
        ((upsert-Writes x w.next v).db
          ∙ ap (λ (s : PlaybackSession). (x.exec_upsert s w.db).1) kept)
        (upsert-Writes x w.next v).broker

  handle_envelope-Delivers :
      (msg : Message x.Bytes) (r : Outcome Envelope) (w : World x)
      → Delivers (of_envelope r) w (handle_envelope x msg r w)
  handle_envelope-Delivers msg (err e) w = ground arith
  handle_envelope-Delivers msg (ok env) w = persist-Delivers msg (unmarshal_payload x env.payload) w

  pub handle-Delivers :
      (msg : Message x.Bytes) (w : World x) → Delivers (carried msg.value) w (handle x msg w)
  unfolding handle
  handle-Delivers msg w = handle_envelope-Delivers msg (parse_envelope x msg.value) w

  -- The messages that the loop gets before it is cancelled.
  unfoldable pub fetched : List (Outcome (Message x.Bytes)) → List (Message x.Bytes)
  fetched [] = []
  fetched (ok msg ∷ answers) = msg ∷ fetched answers
  fetched (err e ∷ answers) = if is e context_canceled then [] else fetched answers

  abbrev pub deliver : x.Db → Message x.Bytes → x.Db
  deliver d msg = delivered (carried msg.value) d

  abbrev pub commit : x.Broker → Message x.Bytes → x.Broker
  commit b msg = (x.commit_message msg b).1

  handled-Undisturbed :
      (msg : Message x.Bytes) (r : Option Fault) (w : World x) → Undisturbed w (handled x msg r w).1
  handled-Undisturbed msg none w = ground arith
  handled-Undisturbed msg (some e) w = ground arith

  committed-Undisturbed : (r : Option Fault) (w : World x) → Undisturbed w (committed x r w).1
  committed-Undisturbed none w = ground arith
  committed-Undisturbed (some e) w = ground arith

  reader_commit-stores :
      (msg : Message x.Bytes) (w : World x)
      → ((reader_commit x msg w).1.db ≡ w.db)
        × ((reader_commit x msg w).1.broker ≡ commit w.broker msg)
  unfolding reader_commit
  reader_commit-stores msg w = ground (arith, yield-Undisturbed w)

  process-stores :
      (msg : Message x.Bytes) (w : World x)
      → ((process x (handle x) msg w).1.db ≡ deliver w.db msg)
        × ((process x (handle x) msg w).1.broker ≡ commit w.broker msg)
  unfolding process
  process-stores msg w =
      let h = handle x msg w in
      let v = (handled x msg h.0 h.1).1 in
      let c = reader_commit x msg v in
      ground (
        arith,
        handle-Delivers msg w,
        handled-Undisturbed msg h.0 h.1,
        reader_commit-stores msg v,
        committed-Undisturbed c.0 c.1,
      )

  rounds-stores :
      (answers : List (Outcome (Message x.Bytes))) (w : World x)
      → ((rounds x (handle x) answers w).1.db ≡ foldl deliver w.db (fetched answers))
        × ((rounds x (handle x) answers w).1.broker ≡ foldl commit w.broker (fetched answers))
  unfolding rounds fetched
  rounds-stores [] w = (refl, refl)
  rounds-stores (ok msg ∷ answers) w =
      let (db, broker) = rounds-stores answers (process x (handle x) msg w).1 in
      let (d, b) = process-stores msg w in
      (
        db ∙ ap (λ (d : x.Db). foldl deliver d (fetched answers)) d,
        broker ∙ ap (λ (b : x.Broker). foldl commit b (fetched answers)) b,
      )
  rounds-stores (err e ∷ answers) w = elim (Bool-cases (is e context_canceled)) [
    | inl cancelled ↦ rw cancelled (refl, refl)
    | inr failed ↦ rw failed (rounds-stores answers _)
  ]

  -- The loop hands each message that it got to the database once, in the order in which they
  -- came, passes over those that carry no session, and calls the commit for every one, also where
  -- the database refused its session.
  pub run-stores :
      (topic group : String) (answers : List (Outcome (Message x.Bytes))) (w : World x)
      → ((run x topic group (handle x) answers w).1.db ≡ foldl deliver w.db (fetched answers))
        × ((run x topic group (handle x) answers w).1.broker
            ≡ foldl commit w.broker (fetched answers))
  unfolding run
  run-stores topic group answers w = rounds-stores answers _

-- What a message leaves, by the session that it carries and the error that it ends with: no change
-- for a message without a session; the row of the session's user, where there is no error; and
-- where there is one, that row or no change.
abbrev pub Handled :
    {x : External} (pg : IsPostgres x)
    → Option PlaybackSession
    → x.Db
    → Option Fault × World x
    → Type 0
Handled pg none before (e, after) = (e ≡ none) × (after.db ≡ before)
Handled pg (some s) before (none, after) = Persists pg s before after.db
Handled pg (some s) before (some e, after) =
    ((u : String) → pg.row u after.db ≡ pg.row u before) ⊎ Persists pg s before after.db

Handled-of :
    {x : External} (pg : IsPostgres x) (o : Option PlaybackSession) (w : World x)
    (r : Option Fault × World x)
    → Delivers x o w r
    → Handled pg o w.db r
Handled-of pg none w (e, v) d = (d.result, d.db)
Handled-of {x} pg (some s) w (none, v) d =
    rw d.db (exec-Persists pg s w.db (delivery_error-none x s w.db (sym d.result)))
Handled-of {x} pg (some s) w (some e, v) d = rw d.db (exec-Persists_or_kept pg s w.db)

-- A message that carries a session and is handled with no error makes it the row of its user, as
-- far as the columns keep it, and changes no other row; with an error it does the same or changes
-- nothing. A message that carries none ends with no error and leaves the database as it is. This
-- relies on the laws of PostgreSQL.
pub handle-Persists :
    {x : External} (pg : IsPostgres x) (msg : Message x.Bytes) (w : World x)
    → Handled pg (carried x msg.value) w.db (handle x msg w)
handle-Persists {x} pg msg w = Handled-of pg _ w _ (handle-Delivers x msg w)
