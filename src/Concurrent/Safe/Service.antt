-- ===== src/Concurrent/Safe/Service.antt =====
-- internal/session/service.go: `Start`, `Pause` and `Resume` answer with a session of the user.
use playback_service.Prelude.{ℕ, String, ◌≡◌, refl, Option, none, some, ℤ}
use playback_service.Apperror.{Fault}
use playback_service.Json.{Json}
use playback_service.Session.Model.{
  PlaybackSession, StartRequest, HeartbeatRequest, status_playing, status_paused,
}
use playback_service.Session.Service.{heartbeat_topic, start_session, heartbeat_session}
use playback_service.External.{External, Outcome, ok, err}
use playback_service.World.{World, log_line, allocate, deref}
use playback_service.World.Calls.{read_clock, assign, writer_write}
use playback_service.Concurrent.{Prog, ret, call, ◌>>=◌, ◌>>◌}
use playback_service.Concurrent.Repository
use playback_service.Concurrent.Service.{
  warned, after_upsert, saving, start, get_current, publish, new_envelope, fallen_back,
  after_publish, sending, heartbeat, assigning, changing, pause, resume,
}
use playback_service.Concurrent.Safe.Rules.{
  Rules, Mine, Mine-later, Mine-error, Mine-Writable, Writable, Writable-later, Obeys, Any,
  Obeys-ret, Obeys-call, Obeys-bind,
}
use playback_service.Concurrent.Safe.Repository.{
  allocate-Mine, allocate-Writable, set_cache-Obeys, upsert-Obeys, get-Obeys,
}

module _ {x : External} (rules : Rules x) where
  warned-Obeys :
      (message uid : String) (r : Option Fault) (w : World x)
      → Obeys rules (Any rules) (warned x message uid r) w
  warned-Obeys message uid none w = Obeys-ret rules (Any rules) _ w tt
  warned-Obeys message uid (some e) w =
      Obeys-call rules (Any rules) (log_line _ _ _) ret w (λ v r. rules.log _ _ _ v)
        λ v g k l. Obeys-ret rules (Any rules) _ _ tt

  assign-Obeys :
      {A : Type 0} (Q : A → World x → Type 0) (p : ℕ) (f : PlaybackSession → PlaybackSession)
      (k : Unit {0} → Prog x A) (w : World x)
      → ((s : PlaybackSession) → (f s).user_id ≡ s.user_id)
      → Writable rules p w
      → ((v : World x) → rules.Rely w v → Writable rules p v → Obeys rules Q (k tt) v)
      → Obeys rules Q (call (assign x p f) k) w
  assign-Obeys Q p f k w same may next =
      Obeys-call rules Q (assign x p f) k w
        (λ v r. rules.assigned p f v same (Writable-later rules p r may).1)
        λ v r i l. next _ l (Writable-later rules p l may)

  assigning-Obeys :
      (status device : String) (p : ℕ) (w : World x)
      → Writable rules p w
      → Obeys rules (Any rules) (assigning x status device p) w
  unfolding assigning ◌>>=◌ ◌>>◌
  assigning-Obeys status device p w may =
      assign-Obeys (Any rules) p _ _ w (λ s. refl) may
        λ a r may.
          assign-Obeys (Any rules) p _ _ a (λ s. refl) may
            λ b r may.
              Obeys-call rules (Any rules) (read_clock x) _ b (λ v r. rules.clock v)
                λ c r i l.
                  assign-Obeys (Any rules) p _ ret _ (λ s. refl) (Writable-later rules p l may)
                    λ d r may. Obeys-ret rules (Any rules) _ _ tt

  module _ (uid : String) (may : rules.Writes uid) where
    after_upsert-Obeys :
        (warning : String) (p : ℕ) (r : Option Fault) (failed : String) (w : World x)
        → Mine rules uid (ok p) w
        → Obeys rules (Mine rules uid) (after_upsert x warning uid p r failed) w
    unfolding ◌>>◌
    after_upsert-Obeys warning p (some e) failed w own =
        Obeys-ret rules (Mine rules uid) _ w (Mine-error rules uid _ w may)
    after_upsert-Obeys warning p none failed w own =
        Obeys-bind rules (Any rules) (Mine rules uid) (Repository.set_cache x p) _ w
          (set_cache-Obeys rules p w (Mine-Writable rules uid p w may own))
          λ cached v g any.
            Obeys-bind rules (Any rules) (Mine rules uid) (warned x warning uid cached) _ v
              (warned-Obeys warning uid cached v)
              λ u z h any.
                Obeys-ret rules (Mine rules uid) _ z
                  (Mine-later rules uid (ok p) h (Mine-later rules uid (ok p) g own))

    saving-Obeys :
        (failed warning : String) (p : ℕ) (w : World x)
        → Mine rules uid (ok p) w
        → Obeys rules (Mine rules uid) (saving x failed warning uid p) w
    unfolding saving
    saving-Obeys failed warning p w own =
        Obeys-bind rules (Any rules) (Mine rules uid) (Repository.upsert x p) _ w
          (upsert-Obeys rules p w (Mine-Writable rules uid p w may own))
          λ r v g any. after_upsert-Obeys warning p r failed v (Mine-later rules uid (ok p) g own)

    pub start-Obeys :
        (req : StartRequest) (w : World x) → Obeys rules (Mine rules uid) (start x uid req) w
    unfolding start ◌>>=◌
    start-Obeys req w =
        Obeys-call rules (Mine rules uid) (read_clock x) _ w (λ v r. rules.clock v)
          λ v g k l.
            let s = start_session uid req (read_clock x v).0 in
            Obeys-call rules (Mine rules uid) (allocate s) _ _ (λ v r. rules.allocated s v)
              λ u h j l.
                saving-Obeys _ _ _ _ (allocate-Mine rules uid s u refl (rules.fine_own s may))

    changing-Obeys :
        (status failed warning device : String) (r : Outcome ℕ) (w : World x)
        → Mine rules uid r w
        → Obeys rules (Mine rules uid) (changing x status failed warning uid device r) w
    unfolding changing ◌>>◌
    changing-Obeys status failed warning device (err e) w own =
        Obeys-ret rules (Mine rules uid) _ w own
    changing-Obeys status failed warning device (ok p) w own =
        Obeys-bind rules (Any rules) (Mine rules uid) (assigning x status device p) _ w
          (assigning-Obeys status device p w (Mine-Writable rules uid p w may own))
          λ u v g any. saving-Obeys failed warning p v (Mine-later rules uid (ok p) g own)

    changed-Obeys :
        (status failed warning device : String) (w : World x)
        → Obeys rules
            (Mine rules uid)
            (Repository.get x uid >>= changing x status failed warning uid device)
            w
    changed-Obeys status failed warning device w =
        Obeys-bind rules (Mine rules uid) (Mine rules uid) (Repository.get x uid) _ w
          (get-Obeys rules uid w) λ r v g own. changing-Obeys status failed warning device r v own

    pub pause-Obeys :
        (device : String) (w : World x) → Obeys rules (Mine rules uid) (pause x uid device) w
    unfolding pause
    pause-Obeys device w = changed-Obeys status_paused _ _ device w

    pub resume-Obeys :
        (device : String) (w : World x) → Obeys rules (Mine rules uid) (resume x uid device) w
    unfolding resume
    resume-Obeys device w = changed-Obeys status_playing _ _ device w

  pub get_current-Obeys :
      (uid : String) (w : World x) → Obeys rules (Mine rules uid) (get_current x uid) w
  unfolding get_current
  get_current-Obeys uid w = get-Obeys rules uid w

  new_envelope-Obeys :
      (topic : String) (version : ℤ) (payload : Option Json) (w : World x)
      → Obeys rules (Any rules) (new_envelope x topic version payload) w
  unfolding new_envelope ◌>>=◌
  new_envelope-Obeys topic version none w = Obeys-ret rules (Any rules) _ w tt
  new_envelope-Obeys topic version (some v) w =
      Obeys-call rules (Any rules) (read_clock x) _ w (λ v r. rules.clock v)
        λ v g k l. Obeys-ret rules (Any rules) _ _ tt

  fallen_back-Obeys : (r : Option Fault) (w : World x) → Obeys rules (Any rules) (fallen_back x r) w
  fallen_back-Obeys none w = Obeys-ret rules (Any rules) _ w tt
  fallen_back-Obeys (some e) w = Obeys-ret rules (Any rules) _ w tt

  after_publish-Obeys :
      (uid : String) (p : ℕ) (r : Option Fault) (w : World x)
      → Writable rules p w
      → Obeys rules (Any rules) (after_publish x uid p r) w
  unfolding ◌>>=◌ ◌>>◌
  after_publish-Obeys uid p none w may = Obeys-ret rules (Any rules) _ w tt
  after_publish-Obeys uid p (some e) w may =
      Obeys-call rules (Any rules) (log_line _ _ _) _ w (λ v r. rules.log _ _ _ v)
        λ v g k l.
          Obeys-bind rules (Any rules) (Any rules) (Repository.upsert x p) (fallen_back x) _
            (upsert-Obeys rules p _ (Writable-later rules p l may))
            λ r u h any. fallen_back-Obeys r u

  sending-Obeys :
      (uid : String) (p : ℕ) (r : Outcome x.Bytes) (w : World x)
      → Writable rules p w
      → Obeys rules (Any rules) (sending x uid p r) w
  unfolding sending publish ◌>>=◌
  sending-Obeys uid p (err e) w may = Obeys-ret rules (Any rules) _ w tt
  sending-Obeys uid p (ok b) w may =
      Obeys-call rules (Any rules) (writer_write x heartbeat_topic uid b) _ w
        (λ v r. rules.write heartbeat_topic uid b v)
        λ v g k l. after_publish-Obeys uid p _ _ (Writable-later rules p l may)

  pub heartbeat-Obeys :
      (uid : String) (req : HeartbeatRequest) (w : World x)
      → rules.Writes uid
      → Obeys rules (Any rules) (heartbeat x uid req) w
  unfolding heartbeat ◌>>=◌ ◌>>◌
  heartbeat-Obeys uid req w may =
      Obeys-call rules (Any rules) (read_clock x) _ w (λ v r. rules.clock v)
        λ v r i l.
          let s = heartbeat_session uid req (read_clock x v).0 in
          Obeys-call rules (Any rules) (allocate s) _ _ (λ v r. rules.allocated s v)
            λ u h j l.
              let p = u.next in
              let fresh = allocate-Writable rules s u may in
              Obeys-bind rules (Any rules) (Any rules) (Repository.set_cache x p) _ _
                (set_cache-Obeys rules p _ fresh)
                λ cached a g any.
                  Obeys-bind rules (Any rules) (Any rules)
                    (warned x "redis cache miss on heartbeat" uid cached) _ a
                    (warned-Obeys _ uid cached a)
                    λ t b h any.
                      let writable = Writable-later rules p h (Writable-later rules p g fresh) in
                      Obeys-call rules (Any rules) (deref p) _ b (λ v r i. (i, rules.stays v))
                        λ c r i l.
                          Obeys-bind rules (Any rules) (Any rules)
                            (new_envelope x heartbeat_topic _ _) _ c
                            (new_envelope-Obeys heartbeat_topic _ _ c)
                            λ reply d h any.
                              sending-Obeys uid p reply d
                                (Writable-later rules p h (Writable-later rules p l writable))
