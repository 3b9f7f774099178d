-- ===== src/Middleware/Laws.antt =====
-- The order of a chain of middlewares.
use mathlib.Core.List.{foldl, foldl-append, reverse, reverse-append, reverse-cons}
use playback_service.Prelude.{◌≡◌, ◌∙◌, ap, List, [], ◌∷◌, ◌++◌}
use playback_service.Middleware.{Middleware, RequestHandler, chain}

module _ {Bytes W : Type 0} where
  apply : RequestHandler Bytes W → Middleware Bytes W → RequestHandler Bytes W
  apply h m = m h

  chain-cons :
      (m : Middleware Bytes W) (ms : List (Middleware Bytes W)) (next : RequestHandler Bytes W)
      → chain (m ∷ ms) next ≡ m (chain ms next)
  unfolding chain apply
  chain-cons m ms next =
      ap (foldl apply next) (reverse-cons m ms) ∙ foldl-append apply next (reverse ms) (m ∷ [])

  -- The first middleware of a chain is the outermost, and a chain of two lists is the chain of the
  -- first around the chain of the second.
  pub chain_order :
      (m : Middleware Bytes W) (ms ns : List (Middleware Bytes W)) (next : RequestHandler Bytes W)
      → (chain (m ∷ ms) next ≡ m (chain ms next))
        × (chain (ms ++ ns) next ≡ chain ms (chain ns next))
  unfolding chain apply
  chain_order m ms ns next = (
    chain-cons m ms next,
    ap (foldl apply next) (reverse-append ms ns)
        ∙ foldl-append apply next (reverse ns) (reverse ms),
  )
