-- ===== src/Prelude/Elements.antt =====
-- A predicate on every element of a list, and and the reads and writes of the list.
use Prim.Native.Nat.{ℕ, zero, suc}
use mathlib.Core.Path.{◌≡◌, refl, ap, subst}
use mathlib.Core.List.{List, [], ◌∷◌, ◌++◌}
use mathlib.Core.Option.{some}
use playback_service.Prelude.Lists.{get_elem?, set}

module _ {ℓ} {A : Type ℓ} where
  abbrev pub Every : (A → Type 0) → List A → Type 0
  Every P [] = Unit
  Every P (a ∷ bs) = P a × Every P bs

  pub get_elem?-Every :
      (P : A → Type 0) (bs : List A) (i : ℕ) (a : A) → Every P bs → get_elem? bs i ≡ some a → P a
  get_elem?-Every P [] i a all e = cc
  get_elem?-Every P (b ∷ bs) zero a all e = let same : b ≡ a = cc in subst P same all.0
  get_elem?-Every P (b ∷ bs) (suc i) a all e = get_elem?-Every P bs i a all.1 e

  pub set-Every :
      (P : A → Type 0) (bs : List A) (i : ℕ) (a : A) → Every P bs → P a → Every P (set bs i a)
  set-Every P [] i a all new = tt
  set-Every P (b ∷ bs) zero a all new = (new, all.1)
  set-Every P (b ∷ bs) (suc i) a all new = (all.0, set-Every P bs i a all.1 new)

  pub append-Every :
      (P : A → Type 0) (bs : List A) (a : A) → Every P bs → P a → Every P (bs ++ (a ∷ []))
  append-Every P [] a all new = (new, tt)
  append-Every P (b ∷ bs) a all new = (all.0, append-Every P bs a all.1 new)

  pub Every-map :
      (P Q : A → Type 0) → ((a : A) → P a → Q a) → (bs : List A) → Every P bs → Every Q bs
  Every-map P Q f [] all = tt
  Every-map P Q f (a ∷ bs) all = (f a all.0, Every-map P Q f bs all.1)

  -- A new last element leaves the others, and so does a write at another index.
  pub get_elem?-append :
      (bs cs : List A) (i : ℕ) (a : A) → get_elem? bs i ≡ some a → get_elem? (bs ++ cs) i ≡ some a
  get_elem?-append [] cs i a e = cc
  get_elem?-append (b ∷ bs) cs zero a e = e
  get_elem?-append (b ∷ bs) cs (suc i) a e = get_elem?-append bs cs i a e

  pub get_elem?-set :
      (bs : List A) (i : ℕ) (a b : A) → get_elem? bs i ≡ some b → get_elem? (set bs i a) i ≡ some a
  get_elem?-set [] i a b e = cc
  get_elem?-set (c ∷ bs) zero a b e = refl
  get_elem?-set (c ∷ bs) (suc i) a b e = get_elem?-set bs i a b e

  pub get_elem?-set_other :
      (bs : List A) (i j : ℕ) (a : A) → (j ≡ i → ⊥) → get_elem? (set bs j a) i ≡ get_elem? bs i
  get_elem?-set_other [] i j a other = refl
  get_elem?-set_other (c ∷ bs) zero zero a other = absurd (other refl)
  get_elem?-set_other (c ∷ bs) (suc i) zero a other = refl
  get_elem?-set_other (c ∷ bs) zero (suc j) a other = refl
  get_elem?-set_other (c ∷ bs) (suc i) (suc j) a other =
      get_elem?-set_other bs i j a λ same. other (ap suc same)
