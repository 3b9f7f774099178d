-- ===== src/Session/Service/Faults.antt =====
-- The kinds of error that the operations of the service return, as the status that the handler
-- makes of them.
use playback_service.Prelude.{ℕ, String, ◌≡◌, ◌⊎◌, ◌∙◌, sym, ap, Option, none, some, inr, arith}
use playback_service.Apperror.{Fault, http_status, as_app}
use playback_service.Session.Model.{PlaybackSession, StartRequest, HeartbeatRequest}
use playback_service.External.{External, Outcome, ok, err}
use playback_service.World.{World}
use playback_service.Session.Repository.{get}
use playback_service.Session.Repository.Answers.{seen, row_answer, get_answer, get-seen}
use playback_service.Session.Service.{
  start, heartbeat, change_status, pause, resume, send_heartbeat, published, persisted,
}
use playback_service.Session.Service.Saves.{save_answer}
use playback_service.Session.Service.Start.{start_lem}
use playback_service.Session.Service.Change.{change_status_lem, change_status-err}

-- The status that an error of the service becomes.
abbrev pub fault_status : Fault → ℕ
fault_status e = elim (as_app e) [ some a ↦ http_status a | none ↦ 500 ]

save_answer-fault :
    (failed : String) (p : ℕ) (r : Option Fault) (e : Fault)
    → save_answer failed p r ≡ err e
    → fault_status e ≡ 500
unfolding as_app
save_answer-fault failed p none e h = cc
save_answer-fault failed p (some f) e h = ground arith

row_answer-fault :
    (x : External) (r : Outcome PlaybackSession) (e : Fault)
    → row_answer x r ≡ err e
    → (fault_status e ≡ 404) ⊎ (fault_status e ≡ 500)
unfolding as_app
row_answer-fault x (ok s) e h = cc
row_answer-fault x (err f) e h = ground arith

get_answer-fault :
    (x : External) (o : Option PlaybackSession) (r : Outcome PlaybackSession) (e : Fault)
    → get_answer x o r ≡ err e
    → (fault_status e ≡ 404) ⊎ (fault_status e ≡ 500)
get_answer-fault x none r e h = row_answer-fault x r e h
get_answer-fault x (some s) r e h = cc

seen-err :
    {x : External} (r : Outcome ℕ) (w : World x) (e : Fault) → r ≡ err e → seen (r, w) ≡ err e
seen-err (ok p) w e h = cc
seen-err (err f) w e h = cc

module _ (x : External) where
  pub start-fault :
      (uid : String) (req : StartRequest) (w : World x) (e : Fault)
      → (start x uid req w).0 ≡ err e
      → fault_status e ≡ 500
  start-fault uid req w e h = save_answer-fault _ _ _ e (sym (start_lem x uid req w) ∙ h)

  pub get-fault :
      (uid : String) (w : World x) (e : Fault)
      → (get x uid w).0 ≡ err e
      → (fault_status e ≡ 404) ⊎ (fault_status e ≡ 500)
  get-fault uid w e h =
      get_answer-fault x _ _ e (sym (get-seen x uid w) ∙ seen-err _ (get x uid w).1 e h)

  change_status-fault :
      (status failed warned uid device : String) (found : Outcome ℕ) (v : World x) (e : Fault)
      → ((f : Fault) → found ≡ err f → (fault_status f ≡ 404) ⊎ (fault_status f ≡ 500))
      → (change_status x status failed warned uid device found v).0 ≡ err e
      → (fault_status e ≡ 404) ⊎ (fault_status e ≡ 500)
  change_status-fault status failed warned uid device (ok p) v e kinds h = inr (
      save_answer-fault _ _ _ e (sym (change_status_lem x status failed warned uid device p v) ∙ h))
  change_status-fault status failed warned uid device (err f) v e kinds h =
      kinds e (sym (ap (λ r. r.0) (change_status-err x status failed warned uid device f v)) ∙ h)

  pub pause-fault :
      (uid device : String) (w : World x) (e : Fault)
      → (pause x uid device w).0 ≡ err e
      → (fault_status e ≡ 404) ⊎ (fault_status e ≡ 500)
  unfolding pause
  pause-fault uid device w e h =
      change_status-fault _ _ _ uid device (get x uid w).0 (get x uid w).1 e (get-fault uid w) h

  pub resume-fault :
      (uid device : String) (w : World x) (e : Fault)
      → (resume x uid device w).0 ≡ err e
      → (fault_status e ≡ 404) ⊎ (fault_status e ≡ 500)
  unfolding resume
  resume-fault uid device w e h =
      change_status-fault _ _ _ uid device (get x uid w).0 (get x uid w).1 e (get-fault uid w) h

  persisted-fault :
      (r : Option Fault) (w : World x) (e : Fault)
      → (persisted x r w).0 ≡ some e
      → fault_status e ≡ 500
  unfolding as_app
  persisted-fault none w e h = cc
  persisted-fault (some f) w e h = ground arith

  published-fault :
      (uid : String) (p : ℕ) (r : Option Fault) (w : World x) (e : Fault)
      → (published x uid p r w).0 ≡ some e
      → fault_status e ≡ 500
  published-fault uid p none w e h = cc
  published-fault uid p (some f) w e h = persisted-fault _ _ e h

  send_heartbeat-fault :
      (uid : String) (p : ℕ) (r : Outcome x.Bytes) (w : World x) (e : Fault)
      → (send_heartbeat x uid p r w).0 ≡ some e
      → fault_status e ≡ 500
  unfolding send_heartbeat as_app
  send_heartbeat-fault uid p (err f) w e h = ground arith
  send_heartbeat-fault uid p (ok b) w e h = published-fault uid p _ _ e h

  pub heartbeat-fault :
      (uid : String) (req : HeartbeatRequest) (w : World x) (e : Fault)
      → (heartbeat x uid req w).0 ≡ some e
      → fault_status e ≡ 500
  unfolding heartbeat
  heartbeat-fault uid req w e h = send_heartbeat-fault uid _ _ _ e h
