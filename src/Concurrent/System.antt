-- ===== src/Concurrent/System.antt =====
-- Any number of requests, messages and goroutines that warm the cache, at the same time. Each step is
-- one call of one of them.
pub mod Equivalence
use playback_service.Prelude.{ℕ, List, [], ◌∷◌, ◌++◌, Option, none, some, get_elem?, set}
use playback_service.External.{External, Message}
use playback_service.World.{World}
use playback_service.World.Tasks.{advance}
use playback_service.Validator.{Field, Verdict}
use playback_service.Session.Handler.{Ctx}
use playback_service.Concurrent.{Prog, ret, call}
use playback_service.Concurrent.Consumer.{process}
use playback_service.Concurrent.Handler

pub data Endpoint : Type 0 where
  start get_current heartbeat pause resume : Endpoint

module _ {x : External} where
  -- The next call of a run.
  unfoldable pub move : {A : Type 0} → Prog x A → World x → Prog x A × World x
  move (ret a) w = (ret a, w)
  move (call m k) w = (k (m w).0, (m w).1)

module _ (x : External) (struct : List Field → Verdict) where
  unfoldable pub calls : Endpoint → Ctx x struct → Prog x (Ctx x struct)
  calls start ctx = Handler.start x struct ctx
  calls get_current ctx = Handler.get_current x struct ctx
  calls heartbeat ctx = Handler.heartbeat x struct ctx
  calls pause ctx = Handler.pause x struct ctx
  calls resume ctx = Handler.resume x struct ctx

  -- A request, with the context that it came with and what is left of its run, which is its response
  -- at the end; or a message that the consumer has fetched.
  pub data Thread : Type 1 where
    request : Ctx x struct → Prog x (Ctx x struct) → Thread
    message : Prog x (Unit {0}) → Thread

  pub record System : Type 1 where
    pub threads : List Thread
    pub world : World x

  unfoldable pub move_thread : Thread → World x → Thread × World x
  unfolding move
  move_thread (request ctx p) w = let (q, v) = move p w in (request ctx q, v)
  move_thread (message p) w = let (q, v) = move p w in (message q, v)

  unfoldable pub moved : ℕ → System → System
  unfolding move_thread
  moved i s = elim (get_elem? s.threads i) [
    | none ↦ s
    | some t ↦
        let (u, w) = move_thread t s.world in record { threads = set s.threads i u; world = w }
  ]

  pub data Step : System → System → Type 1 where
    asks :
        (e : Endpoint) (ctx : Ctx x struct) (s : System)
        → Step s (record s { threads = s.threads ++ (request ctx (calls e ctx) ∷ []) })
    fetches :
        (msg : Message x.Bytes) (s : System)
        → Step s (record s { threads = s.threads ++ (message (process x msg) ∷ []) })
    moves : (i : ℕ) (s : System) → Step s (moved i s)
    turns : (i : ℕ) (s : System) → Step s (record s { world = advance x i s.world })

  pub data Reach (s : System) : System → Type 1 where
    here : Reach s s
    next : {t u : System} → Reach s t → Step t u → Reach s u
