-- ===== src/Session/Service/Absent.antt =====
-- Where the operations of the service fail for want of a session, and where for another reason.
use playback_service.Prelude.{
  ℕ, String, ◌<>◌, ◌≡◌, ◌⊎◌, refl, true, Bool-cases, Option, none, some, inl, inr,
}
use playback_service.Apperror.{Fault, no_rows, is, as_app}
use playback_service.Session.Model.{PlaybackSession}
use playback_service.External.{External, Outcome, ok, err}
use playback_service.World.{World}
use playback_service.World.Tasks.{yield, cache_key_prefix}
use playback_service.Session.Repository.{get}
use playback_service.Session.Repository.Answers.{seen, usable, get_answer, get-seen}
use playback_service.Session.Service.{change_status, pause, resume}
use playback_service.Session.Service.Saves.{save_answer}
use playback_service.Session.Service.Change.{change_status_lem, change_status-err}
use playback_service.Session.Service.Faults.{fault_status}

module _ (missing : Type 0) where
  -- An error of the kind not found where the session is missing, and of the kind internal elsewhere.
  abbrev pub Fails : Fault → Type 0
  Fails e = ((fault_status e ≡ 404) × missing) ⊎ ((fault_status e ≡ 500) × (missing → ⊥))

  abbrev pub Ends : {A : Type 0} → Outcome A → Type 0
  Ends (ok a) = missing → ⊥
  Ends (err e) = Fails e

  seen-Ends :
      {x : External} (r : Outcome ℕ) (w : World x) (a : Outcome PlaybackSession)
      → seen (r, w) ≡ a
      → Ends a
      → Ends r
  seen-Ends (ok p) w (ok s) e h = h
  seen-Ends (ok p) w (err f) e h = cc
  seen-Ends (err f) w (ok s) e h = cc
  seen-Ends (err f) w (err g) e h = let same : f ≡ g = cc in rw same h

  save_answer-Ends :
      (failed : String) (p : ℕ) (r : Option Fault) → (missing → ⊥) → Ends (save_answer failed p r)
  unfolding as_app
  save_answer-Ends failed p none there = there
  save_answer-Ends failed p (some f) there = inr (refl, there)

module _ (x : External) where
  -- Redis has no usable session of the user, and PostgreSQL answers that there is no row.
  abbrev pub Missing : String → World x → Type 0
  Missing uid w =
      (usable x (x.cache_get (cache_key_prefix <> uid) (yield x w).1.cache).0 ≡ none)
      × ((e : Fault) × ((x.query_row uid w.db).0 ≡ err e) × (is e no_rows ≡ true))

  get_answer-Ends :
      (o : Option PlaybackSession) (r : Outcome PlaybackSession)
      → Ends ((o ≡ none) × ((e : Fault) × (r ≡ err e) × (is e no_rows ≡ true))) (get_answer x o r)
  unfolding as_app
  get_answer-Ends (some s) r = λ (nothing, _). cc
  get_answer-Ends none (ok s) = λ (_, (e, failed, _)). cc
  get_answer-Ends none (err f) = elim (Bool-cases (is f no_rows)) [
    | inl gone ↦ rw gone (inl (refl, (refl, (f, refl, gone))))
    | inr other ↦ rw other (inr (refl, λ (_, (e, failed, gone)). cc))
  ]

  pub get-Ends : (uid : String) (w : World x) → Ends (Missing uid w) (get x uid w).0
  get-Ends uid w =
      seen-Ends (Missing uid w) (get x uid w).0 (get x uid w).1 _ (get-seen x uid w)
        (get_answer-Ends _ _)

  change_status-Ends :
      (missing : Type 0) (status failed warned uid device : String) (found : Outcome ℕ)
      (v : World x)
      → Ends missing found
      → Ends missing (change_status x status failed warned uid device found v).0
  change_status-Ends missing status failed warned uid device (ok p) v there =
      rw (change_status_lem x status failed warned uid device p v)
        (save_answer-Ends missing failed p _ there)
  change_status-Ends missing status failed warned uid device (err e) v kind =
      rw (change_status-err x status failed warned uid device e v) kind

  pub pause-Ends :
      (uid device : String) (w : World x) → Ends (Missing uid w) (pause x uid device w).0
  unfolding pause
  pause-Ends uid device w =
      change_status-Ends (Missing uid w) _ _ _ uid device (get x uid w).0 (get x uid w).1
        (get-Ends uid w)

  pub resume-Ends :
      (uid device : String) (w : World x) → Ends (Missing uid w) (resume x uid device w).0
  unfolding resume
  resume-Ends uid device w =
      change_status-Ends (Missing uid w) _ _ _ uid device (get x uid w).0 (get x uid w).1
        (get-Ends uid w)
