-- ===== src/Session/Settled/Changes.antt =====
-- What a Pause and a Resume of another user leave of a user's session: all of it.
use playback_service.Prelude.{
  ℕ, String, ◌≡◌, ◌≢◌, refl, sym, ap, ◌∙◌, eqb, Bool-cases, inl, inr, if◌then◌else◌,
}
use playback_service.Session.Model.{PlaybackSession, status_paused, status_playing}
use playback_service.External.{External, Outcome, ok, err}
use playback_service.External.Laws.{IsReadable, IsRedis, IsPostgres}
use playback_service.World.{World}
use playback_service.World.Calls.{read_clock, assign}
use playback_service.World.Held.{TasksHold-map}
use playback_service.Session.Repository.{get}
use playback_service.Session.Repository.Answers.{seen}
use playback_service.Session.Service.{set_status, change_status, pause, resume}
use playback_service.Session.Service.Saves.{assign-Assigned, set_status-StatusSet}
use playback_service.Session.Isolation.{get-user_id}
use playback_service.Session.Isolation.Keyed.{IsKeyed}
use playback_service.Session.Settled.{IsEntry, IsPointer, Settled, yield-Settled, get-Settled}
use playback_service.Session.Settled.Others.{Elsewhere, save-Settled}

module _ {x : External} (redis : IsRedis x) (readable : IsReadable x) (pg : IsPostgres x)
    (s : PlaybackSession) where
  assign-IsPointer :
      (p : ℕ) (f : PlaybackSession → PlaybackSession) (w : World x)
      → ((t : PlaybackSession) → (f t).user_id ≡ t.user_id)
      → Elsewhere s p w
      → (q : ℕ) → IsPointer pg s w.objects w.next q
      → IsPointer pg s (λ r. if eqb p r then f (w.objects p) else w.objects r) w.next q
  assign-IsPointer p f w same other q (below, version) = elim (Bool-cases (eqb p q)) [
    | inl here ↦ (below, rw here (λ own. absurd (other (sym (same (w.objects p)) ∙ own))))
    | inr there ↦ (below, rw there version)
  ]

  pub assign-Settled :
      (p : ℕ) (f : PlaybackSession → PlaybackSession) (w : World x)
      → ((t : PlaybackSession) → (f t).user_id ≡ t.user_id)
      → Elsewhere s p w
      → Settled pg s redis w
      → Settled pg s redis (assign x p f w).1
  unfolding assign
  assign-Settled p f w same other k =
      let objects = λ (r : ℕ). if eqb p r then f (w.objects p) else w.objects r in
      yield-Settled redis readable pg s (record w { objects = objects })
        (record {
          row = k.row;
          held = (
            k.held.0,
            TasksHold-map redis (IsEntry pg s) (IsPointer pg s) w.objects objects w.next w.next
                (assign-IsPointer p f w same other) w.tasks k.held.1,
          );
        })

  assign-Elsewhere :
      (p : ℕ) (f : PlaybackSession → PlaybackSession) (w : World x)
      → ((t : PlaybackSession) → (f t).user_id ≡ t.user_id)
      → Elsewhere s p w
      → Elsewhere s p (assign x p f w).1
  assign-Elsewhere p f w same other own = other (
      sym (same (w.objects p))
      ∙ ap (λ (t : PlaybackSession). t.user_id) (sym (assign-Assigned x p f w).object)
      ∙ own)

  set_status-Settled :
      (status device : String) (p : ℕ) (w : World x)
      → Elsewhere s p w
      → Settled pg s redis w
      → Settled pg s redis (set_status x status device p w).1
  unfolding set_status read_clock
  set_status-Settled status device p w other k =
      let f = λ (t : PlaybackSession). record t { status = status } in
      let g = λ (t : PlaybackSession). record t { device_id = device } in
      let a = (assign x p f w).1 in
      let b = (assign x p g a).1 in
      let first = assign-Elsewhere p f w (λ t. refl) other in
      let second =
        assign-Settled p g a (λ t. refl) first (assign-Settled p f w (λ t. refl) other k) in
      assign-Settled p _ _ (λ t. refl) (assign-Elsewhere p g a (λ t. refl) first)
        (record { row = second.row; held = second.held })

  change_status-Settled :
      (status failed warned uid device : String) (r : Outcome ℕ) (w : World x)
      → ((p : ℕ) → r ≡ ok p → Elsewhere s p w)
      → Settled pg s redis w
      → Settled pg s redis (change_status x status failed warned uid device r w).1
  unfolding change_status
  change_status-Settled status failed warned uid device (err e) w other k = k
  change_status-Settled status failed warned uid device (ok p) w other k =
      let set = set_status-StatusSet x status device p w in
      save-Settled redis readable pg s failed warned uid p _
        (λ own. other p refl (ap (λ (t : PlaybackSession). t.user_id) (sym set.object) ∙ own))
        (set_status-Settled status device p w (other p refl) k)

  -- What `Get` returns to another user is elsewhere.
  seen-Elsewhere :
      (uid : String) (r : Outcome ℕ × World x)
      → uid ≢ s.user_id
      → ((t : PlaybackSession) → seen r ≡ ok t → t.user_id ≡ uid)
      → (p : ℕ) → r.0 ≡ ok p
      → Elsewhere s p r.1
  seen-Elsewhere uid (ok q, v) other owned p is own =
      let same : q ≡ p = cc is in
      other (sym (owned (v.objects q) refl) ∙ ap (λ i. (v.objects i).user_id) same ∙ own)
  seen-Elsewhere uid (err e, v) other owned p is own = cc

  module _ (uid device : String) (w : World x) (other : uid ≢ s.user_id) (keyed : IsKeyed redis w)
      (k : Settled pg s redis w) where
    get-Elsewhere : (p : ℕ) → (get x uid w).0 ≡ ok p → Elsewhere s p (get x uid w).1
    get-Elsewhere =
        seen-Elsewhere uid (get x uid w) other λ t e. get-user_id redis pg uid readable w t keyed e

    pub pause-Settled : Settled pg s redis (pause x uid device w).1
    unfolding pause
    pause-Settled =
        change_status-Settled status_paused _ _ uid device (get x uid w).0 (get x uid w).1
          get-Elsewhere (get-Settled redis readable pg s uid w k)

    pub resume-Settled : Settled pg s redis (resume x uid device w).1
    unfolding resume
    resume-Settled =
        change_status-Settled status_playing _ _ uid device (get x uid w).0 (get x uid w).1
          get-Elsewhere (get-Settled redis readable pg s uid w k)
