-- ===== src/Session/Consumer/Latest.antt =====
-- Which session the loop of the consumer leaves in a row.
use mathlib.Core.List.{foldl}
use mathlib.Core.Path.{subst}
use playback_service.Prelude.{
  String, ◌≡◌, refl, ap, ◌∙◌, Bool-cases, Option, none, some, List, [], ◌∷◌, ◌==◌, eq_iff, inl, inr,
  if◌then◌else◌,
}
use playback_service.Session.Model.{PlaybackSession}
use playback_service.External.{External, Outcome, Message}
use playback_service.External.Laws.{IsPostgres}
use playback_service.World.{World}
use playback_service.Kafka.Consumer.{run}
use playback_service.Session.Repository.Rows.{exec-row, exec-row_other}
use playback_service.Session.Consumer.{handle}
use playback_service.Session.Consumer.Delivery.{
  carried, delivered, delivery_error, delivery_error-none, fetched, deliver, run-stores,
}

-- The database takes the session of every message.
abbrev pub AllSaved : (x : External) → x.Db → List (Message x.Bytes) → Type 0
AllSaved x d [] = Unit
AllSaved x d (msg ∷ msgs) =
    (delivery_error x (carried x msg.value) d ≡ none) × AllSaved x (deliver x d msg) msgs

module _ {x : External} (pg : IsPostgres x) (u : String) where
  -- The row of the user `u` after a session was delivered.
  abbrev pub replaced : Option PlaybackSession → Option PlaybackSession → Option PlaybackSession
  replaced row none = row
  replaced row (some s) = if s.user_id == u then some (pg.stored s) else row

  -- The row of `u` after a message, from the row before it.
  abbrev pub latest : Option PlaybackSession → Message x.Bytes → Option PlaybackSession
  latest row msg = replaced row (carried x msg.value)

  delivered-row :
      (o : Option PlaybackSession) (d : x.Db)
      → delivery_error x o d ≡ none
      → pg.row u (delivered x o d) ≡ replaced (pg.row u d) o
  delivered-row none d done = refl
  delivered-row (some s) d done =
      let saved = delivery_error-none x s d done in
      elim (Bool-cases (s.user_id == u)) [
        | inl same ↦ rw same (
            subst (λ v. pg.row v (x.exec_upsert s d).1 ≡ some (pg.stored s))
              ((eq_iff s.user_id u).0 same) (exec-row pg s d saved))
        | inr other ↦ rw other (exec-row_other pg s d u (λ e. cc ((eq_iff s.user_id u).1 e, other)))
      ]

  foldl-latest :
      (msgs : List (Message x.Bytes)) (d : x.Db)
      → AllSaved x d msgs
      → pg.row u (foldl (deliver x) d msgs) ≡ foldl latest (pg.row u d) msgs
  foldl-latest [] d saved = refl
  foldl-latest (msg ∷ msgs) d (first, rest) =
      foldl-latest msgs (deliver x d msg) rest
      ∙ ap (λ row. foldl latest row msgs) (delivered-row (carried x msg.value) d first)

-- The last message of a user wins. Where the database takes the session of every message, the
-- loop leaves in the row of a user the session of the user's last message that carries one, as
-- far as the columns keep it, and the row as it was if there is none. This relies on the laws of
-- PostgreSQL.
pub run-latest :
    {x : External} (pg : IsPostgres x) (u topic group : String)
    (answers : List (Outcome (Message x.Bytes))) (w : World x)
    → AllSaved x w.db (fetched x answers)
    → pg.row u (run x topic group (handle x) answers w).1.db
      ≡ foldl (latest pg u) (pg.row u w.db) (fetched x answers)
run-latest {x} pg u topic group answers w saved =
    ap (pg.row u) (run-stores x topic group answers w).0
    ∙ foldl-latest pg u (fetched x answers) w.db saved
