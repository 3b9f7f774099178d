-- ===== src/Session/Service/Saves.antt =====
-- What the writing half of `Start`, `Pause` and `Resume` answers and changes.
use playback_service.Prelude.{
  ℕ, String, ◌≡◌, refl, ◌∙◌, ap, Option, none, some, arith, if◌then◌else◌, eqb,
}
use playback_service.Apperror.{Fault, app, wrapped, new_internal}
use playback_service.Session.Model.{PlaybackSession}
use playback_service.External.{External, Outcome, ok, err}
use playback_service.World.{World}
use playback_service.World.Calls.{assign, read_clock}
use playback_service.World.Frame.{Undisturbed, yield-Undisturbed}
use playback_service.Session.Repository.{upsert, upsert_reply, set_cache}
use playback_service.Session.Repository.Effects.{
  Writes, upsert_lem, upsert-Writes, set_cache-Undisturbed,
}
use playback_service.Session.Service.{warn_cache, cache_saved, save, set_status}

-- The answer of a write, by what PostgreSQL said.
abbrev pub save_answer : String → ℕ → Option Fault → Outcome ℕ
save_answer failed p none = ok p
save_answer failed p (some e) =
    err (app (new_internal failed (wrapped "upsert playback session" e)))

pub save_answer-eq-ok :
    (failed : String) (p : ℕ) (r : Option Fault) {q : ℕ}
    → save_answer failed p r ≡ ok q
    → (r ≡ none) × (p ≡ q)
save_answer-eq-ok failed p none e = ground arith
save_answer-eq-ok failed p (some f) e = cc

module _ (x : External) where
  pub warn_cache-Undisturbed :
      (message uid : String) (r : Option Fault) (w : World x)
      → Undisturbed w (warn_cache x message uid r w).1
  warn_cache-Undisturbed message uid none w = ground arith
  warn_cache-Undisturbed message uid (some e) w = ground arith

  cache_saved_lem :
      (warned uid failed : String) (p : ℕ) (r : Option Fault) (w : World x)
      → ((cache_saved x warned uid p (upsert_reply x r) failed w).0 ≡ save_answer failed p r)
        × Undisturbed w (cache_saved x warned uid p (upsert_reply x r) failed w).1
  cache_saved_lem warned uid failed p none w =
      let c = set_cache x p w in
      (refl, ground (arith, set_cache-Undisturbed x p w, warn_cache-Undisturbed warned uid c.0 c.1))
  cache_saved_lem warned uid failed p (some e) w = (refl, ground arith)

  pub save_lem :
      (failed warned uid : String) (p : ℕ) (w : World x)
      → (save x failed warned uid p w).0 ≡ save_answer failed p (x.exec_upsert (w.objects p) w.db).0
  unfolding save
  save_lem failed warned uid p w =
      rw (upsert_lem x p w)
        (cache_saved_lem warned uid failed p (x.exec_upsert (w.objects p) w.db).0 _).0

  pub save-Writes :
      (failed warned uid : String) (p : ℕ) (w : World x)
      → Writes (x.exec_upsert (w.objects p) w.db).1 w (save x failed warned uid p w).1
  unfolding save
  save-Writes failed warned uid p w = rw (upsert_lem x p w) (
      ground (
        arith,
        upsert-Writes x p w,
        (cache_saved_lem warned uid failed p (x.exec_upsert (w.objects p) w.db).0
            (upsert x p w).1).1,
      ))

  -- `after` has the session `s` at the pointer `p`, and the stores and the clock of `before`.
  pub record Assigned (p : ℕ) (s : PlaybackSession) (before after : World x) : Type 0 where
    pub object : after.objects p ≡ s
    db : after.db ≡ before.db
    broker : after.broker ≡ before.broker
    clock : after.clock ≡ before.clock

  pub assign-Assigned :
      (p : ℕ) (f : PlaybackSession → PlaybackSession) (w : World x)
      → Assigned p (f (w.objects p)) w (assign x p f w).1
  unfolding assign
  assign-Assigned p f w =
      let w' = record w { objects = λ q. if eqb p q then f (w.objects p) else w.objects q } in
      let y = yield-Undisturbed w' in
      record {
        object = ap (λ o. o p) y.objects ∙ ground arith;
        db = y.db;
        broker = y.broker;
        clock = y.clock;
      }

  -- After the three assignments, with the time that the clock gives.
  pub record StatusSet (status device : String) (p : ℕ) (before after : World x) : Type 0 where
    pub object : after.objects p ≡ record (before.objects p) {
      status = status;
      device_id = device;
      updated_at = (x.now before.clock).0;
    }
    pub db : after.db ≡ before.db
    pub broker : after.broker ≡ before.broker

  pub set_status-StatusSet :
      (status device : String) (p : ℕ) (w : World x)
      → StatusSet status device p w (set_status x status device p w).1
  unfolding set_status read_clock
  set_status-StatusSet status device p w =
      let a = assign-Assigned p (λ s. record s { status = status }) w in
      let v = (assign x p (λ s. record s { status = status }) w).1 in
      let b = assign-Assigned p (λ s. record s { device_id = device }) v in
      let u = (assign x p (λ s. record s { device_id = device }) v).1 in
      let r = x.now u.clock in
      let c = assign-Assigned p (λ s. record s { updated_at = r.0 }) (record u { clock = r.1 }) in
      record {
        object =
            c.object
            ∙ ap (λ (s : PlaybackSession). record s { updated_at = r.0 })
                (b.object ∙ ap (λ (s : PlaybackSession). record s { device_id = device }) a.object)
            ∙ ap
                (λ (k : x.Clock). record (w.objects p) {
                  status = status;
                  device_id = device;
                  updated_at = (x.now k).0;
                })
                (b.clock ∙ a.clock);
        db = c.db ∙ b.db ∙ a.db;
        broker = c.broker ∙ b.broker ∙ a.broker;
      }
