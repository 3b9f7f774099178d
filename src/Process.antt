-- ===== src/Process.antt =====
-- The process at start-up: what it has done, its log, and the hooks that it gave to the life cycle.
use playback_service.Prelude.{
  String, Option, List, [], ◌∷◌, ◌++◌, ℤ, pos, negsuc, Bool, false, true, zero, suc, if◌then◌else◌,
}
use playback_service.Apperror.{Fault}
use playback_service.World.{Level, Attr, LogLine}
use playback_service.Platform.{Act}

pub record Env : Type 0 where
  pub acts : List Act
  pub log : List LogLine

-- fx.Hook, with a function that is nil left out.
pub record Hook : Type 0 where
  pub on_start : Option (Env → Option Fault × Env)
  pub on_stop : Option (Env → Option Fault × Env)

-- With the hooks of fx.Lifecycle, in the order in which they were appended.
pub record Boot : Type 0 where
  pub env : Env
  pub hooks : List Hook

abbrev pub pure : {S A : Type 0} → A → S → A × S
pure a s = (a, s)

infixl 5 ◌>>=◌ ◌>>◌
abbrev pub ◌>>=◌ : {S A B : Type 0} → (S → A × S) → (A → S → B × S) → S → B × S
◌>>=◌ m f s = let (a, s') = m s in f a s'

abbrev pub ◌>>◌ : {S B : Type 0} → (S → Unit {0} × S) → (S → B × S) → S → B × S
m >> k = m >>= λ _. k

abbrev pub do_act : Act → Env → Unit {0} × Env
do_act a e = (tt, record e { acts = e.acts ++ (a ∷ []) })

-- The answer of a library.
abbrev pub ask : {A : Type 0} → (List Act → A) → Env → A × Env
ask answer e = (answer e.acts, e)

abbrev pub log_line : Level → String → List (String × Attr) → Env → Unit {0} × Env
log_line level message attrs e = (
  tt,
  record e { log = e.log ++ (record { level = level; message = message; attrs = attrs } ∷ []) },
)

abbrev pub lift : {A : Type 0} → (Env → A × Env) → Boot → A × Boot
lift m b = let (a, e) = m b.env in (a, record b { env = e })

-- lc.Append
abbrev pub append : Hook → Boot → Unit {0} × Boot
append h b = (tt, record b { hooks = b.hooks ++ (h ∷ []) })

-- n > 0
abbrev pub is_positive : ℤ → Bool
is_positive (pos n) = elim n [ zero ↦ false | suc m ↦ true ]
is_positive (negsuc n) = false

-- `if n > 0 { field = n }`
abbrev pub override : ℤ → ℤ → ℤ
override n old = if is_positive n then n else old
