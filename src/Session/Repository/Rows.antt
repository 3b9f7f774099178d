-- ===== src/Session/Repository/Rows.antt =====
-- What an upsert leaves in the table, read through the laws of PostgreSQL.
use playback_service.Prelude.{
  String, ◌≡◌, ◌≢◌, ◌⊎◌, refl, sym, ◌∙◌, ap, inl, inr, eq_iff, Option-cases, Option, none, some,
  arith,
}
use playback_service.Session.Model.{PlaybackSession}
use playback_service.External.{External}
use playback_service.External.Laws.{IsPostgres}
use playback_service.Session.Repository.{conflict_update, upserted}

-- An update of a row with the same key replaces all of it.
conflict_update_same :
    (s : PlaybackSession) (o : Option PlaybackSession)
    → ((r : PlaybackSession) → o ≡ some r → r.user_id ≡ s.user_id)
    → conflict_update s o ≡ s
conflict_update_same s none keyed = refl
conflict_update_same s (some r) keyed = ground (arith, keyed r refl)

upserted_self :
    (s : PlaybackSession) (rows : String → Option PlaybackSession) (u : String)
    → s.user_id ≡ u
    → ((r : PlaybackSession) → rows s.user_id ≡ some r → r.user_id ≡ s.user_id)
    → upserted s rows u ≡ some s
upserted_self s rows u same keyed =
    rw ((eq_iff s.user_id u).1 same) (ap some (conflict_update_same s (rows s.user_id) keyed))

upserted_other :
    (s : PlaybackSession) (rows : String → Option PlaybackSession) (v : String)
    → s.user_id ≢ v
    → upserted s rows v ≡ rows v
upserted_other s rows v other = ground (arith, eq_iff s.user_id v)

module _ {x : External} (pg : IsPostgres x) where
  stored_user : (s : PlaybackSession) → (pg.stored s).user_id ≡ s.user_id
  stored_user s = ap (λ (r : PlaybackSession). r.user_id) (pg.stored_keeps s)

  own :
      (s : PlaybackSession) (d : x.Db)
      → upserted (pg.stored s) (λ u. pg.row u d) s.user_id ≡ some (pg.stored s)
  own s d =
      upserted_self (pg.stored s) (λ u. pg.row u d) s.user_id (stored_user s)
        (λ r found. pg.row_keyed (pg.stored s).user_id d r found)

  -- A successful upsert leaves the session as the row of its user.
  pub exec-row :
      (s : PlaybackSession) (d : x.Db)
      → (x.exec_upsert s d).0 ≡ none
      → pg.row s.user_id (x.exec_upsert s d).1 ≡ some (pg.stored s)
  exec-row s d done = pg.exec_done s d s.user_id done ∙ own s d

  -- Every upsert, also a failing one, leaves the rows of the other users alone.
  pub exec-row_other :
      (s : PlaybackSession) (d : x.Db) (v : String)
      → s.user_id ≢ v
      → pg.row v (x.exec_upsert s d).1 ≡ pg.row v d
  exec-row_other s d v other = elim (Option-cases (x.exec_upsert s d).0) [
    | inl done ↦ pg.exec_done s d v done ∙ kept
    | inr (e, failed) ↦ elim (pg.exec_failed s d e failed) [
      | inl nothing ↦ nothing v
      | inr whole ↦ whole v ∙ kept
    ]
  ]
    where
      kept : upserted (pg.stored s) (λ u. pg.row u d) v ≡ pg.row v d
      kept = upserted_other (pg.stored s) (λ u. pg.row u d) v (λ e. other (sym (stored_user s) ∙ e))

  -- The table after a step: the row of the session's user is the session, as far as the columns
  -- keep it, and no other row has changed.
  abbrev pub Persists : PlaybackSession → x.Db → x.Db → Type 0
  Persists s before after =
      (pg.row s.user_id after ≡ some (pg.stored s))
      × ((v : String) → s.user_id ≢ v → pg.row v after ≡ pg.row v before)

  pub exec-Persists :
      (s : PlaybackSession) (d : x.Db)
      → (x.exec_upsert s d).0 ≡ none
      → Persists s d (x.exec_upsert s d).1
  exec-Persists s d done = (exec-row s d done, exec-row_other s d)

  -- A failing upsert changes no row, or does what a successful one does.
  pub exec-Persists_or_kept :
      (s : PlaybackSession) (d : x.Db)
      → ((u : String) → pg.row u (x.exec_upsert s d).1 ≡ pg.row u d)
        ⊎ Persists s d (x.exec_upsert s d).1
  exec-Persists_or_kept s d = elim (Option-cases (x.exec_upsert s d).0) [
    | inl done ↦ inr (exec-Persists s d done)
    | inr (e, failed) ↦ elim (pg.exec_failed s d e failed) [
      | inl nothing ↦ inl nothing
      | inr whole ↦ inr (whole s.user_id ∙ own s d, exec-row_other s d)
    ]
  ]
