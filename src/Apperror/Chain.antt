-- ===== src/Apperror/Chain.antt =====
-- The chain of an error: what `errors.As` and `errors.Is` find through wrapping.
use playback_service.Prelude.{String, ◌≡◌, refl, List, [], ◌∷◌}
use playback_service.Apperror.{Fault, wrapped, Sentinel, as_app, is}

-- An error wrapped by a row of prefixes, the first outermost.
abbrev pub wrap_all : List String → Fault → Fault
wrap_all [] e = e
wrap_all (p ∷ ps) e = wrapped p (wrap_all ps e)

pub as_app-wrap_all : (ps : List String) (e : Fault) → as_app (wrap_all ps e) ≡ as_app e
unfolding as_app
as_app-wrap_all [] e = refl
as_app-wrap_all (p ∷ ps) e = as_app-wrap_all ps e

pub is-wrap_all : (ps : List String) (e : Fault) (t : Sentinel) → is (wrap_all ps e) t ≡ is e t
unfolding is
is-wrap_all [] e t = refl
is-wrap_all (p ∷ ps) e t = is-wrap_all ps e t
