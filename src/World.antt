-- ===== src/World.antt =====
-- The state that the requests, the consumer and the background tasks of the service share, and the
-- monad of the code that runs on it.
pub mod Tasks
pub mod Calls
pub mod Frame
pub mod Quiet
pub mod Stable
pub mod Held
use playback_service.Prelude.{
  ℕ, ◌+◌, String, Bool, Option, List, [], ◌∷◌, ◌++◌, ℤ, eqb, if◌then◌else◌,
}
use playback_service.Apperror.{Fault}
use playback_service.Session.Model.{PlaybackSession}
use playback_service.External.{External}

-- A line of the structured log: its level, its message and its attributes.
pub data Level : Type 0 where
  debug info warn error : Level

pub data Attr : Type 0 where
  text : String → Attr
  number : ℤ → Attr
  fault : Fault → Attr
  flag : Bool → Attr

pub record LogLine : Type 0 where
  pub level : Level
  pub message : String
  pub attrs : List (String × Attr)

module _ (x : External) where
  -- A goroutine of `Repository.Get` that warms the cache: it holds the user's id and a pointer to
  -- the session, then the key and the bytes that it has marshalled and is about to send.
  pub data Task : Type 0 where
    started : String → ℕ → Task
    marshalled : String → String → x.Bytes → Task
    finished : Task

  pub record World : Type 0 where
    pub cache : x.Cache
    pub db : x.Db
    pub broker : x.Broker
    pub clock : x.Clock
    -- The heap of sessions: a `*PlaybackSession` is a number, and `next` is the first free one.
    pub objects : ℕ → PlaybackSession
    pub next : ℕ
    pub tasks : List Task
    -- Which tasks the scheduler lets run at the next point where another goroutine may.
    pub schedule : List (List ℕ)
    pub log : List LogLine

  abbrev pub M {ℓ} : Type ℓ → Type ℓ
  M A = World → A × World

module _ {x : External} where
  abbrev pub pure {ℓ} : {A : Type ℓ} → A → M x A
  pure a w = (a, w)

  infixl 5 ◌>>=◌ ◌>>◌
  abbrev pub ◌>>=◌ {ℓ κ} : {A : Type ℓ} {B : Type κ} → M x A → (A → M x B) → M x B
  ◌>>=◌ m f w = let (a, w') = m w in f a w'

  abbrev pub ◌>>◌ {ℓ} : {B : Type ℓ} → M x (Unit {0}) → M x B → M x B
  m >> k = m >>= λ _. k

  abbrev pub log_line : Level → String → List (String × Attr) → M x (Unit {0})
  log_line level message attrs w = (
    tt,
    record w { log = w.log ++ (record { level = level; message = message; attrs = attrs } ∷ []) },
  )

  -- &PlaybackSession{...}
  abbrev pub allocate : PlaybackSession → M x ℕ
  allocate s w = (
    w.next,
    record w { objects = λ q. if eqb w.next q then s else w.objects q; next = w.next + 1 },
  )

  -- What a pointer points at.
  abbrev pub deref : ℕ → M x PlaybackSession
  deref p w = (w.objects p, w)
