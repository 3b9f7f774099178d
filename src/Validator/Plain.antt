-- ===== src/Validator/Plain.antt =====
-- A validator that meets the laws, for examples.
use Prim.Native.String.{count}
use playback_service.Prelude.{
  ◌≡◌, ◌↔◌, refl, eq_iff, ◌==◌, leb, eqb, Bool, true, false, not, ◌&&◌, List, [], ◌∷◌, pos, negsuc,
  arith, if◌then◌else◌,
}
use mathlib.Core.Bool.{and-eq-true_iff}
use playback_service.Validator.{
  Tag, required, min, Value, text, number, Field, FieldError, Verdict, valid, violations,
}
use playback_service.Validator.Laws.{Satisfies, AllTags, AllFields, IsValidator}

satisfied : Value → Tag → Bool
satisfied (text s) required = not (s == "")
satisfied (text s) (min n) = leb n (count s)
satisfied (number (pos m)) required = not (eqb m 0)
satisfied (number (negsuc m)) required = true
satisfied (number (pos m)) (min n) = leb n m
satisfied (number (negsuc m)) (min n) = false

all_tags : Value → List Tag → Bool
all_tags v [] = true
all_tags v (t ∷ ts) = satisfied v t && all_tags v ts

all_fields : List Field → Bool
all_fields [] = true
all_fields (f ∷ fs) = all_tags f.value f.tags && all_fields fs

failures : List Field → List FieldError
failures [] = []
failures (f ∷ fs) =
    if all_tags f.value f.tags
    then failures fs
    else record { field = f.name; tag = "required" } ∷ failures fs

unfoldable pub plain : List Field → Verdict
unfolding satisfied all_tags all_fields failures
plain fs = if all_fields fs then valid else violations (failures fs)

satisfied_iff : (v : Value) (t : Tag) → (satisfied v t ≡ true) ↔ Satisfies v t
unfolding satisfied
satisfied_iff (text s) required = ground (arith, eq_iff s "")
satisfied_iff (text s) (min n) = ground arith
satisfied_iff (number (pos m)) required = ground arith
satisfied_iff (number (negsuc m)) required = ground arith
satisfied_iff (number (pos m)) (min n) = ground arith
satisfied_iff (number (negsuc m)) (min n) = ground arith

all_tags_iff : (v : Value) (ts : List Tag) → (all_tags v ts ≡ true) ↔ AllTags v ts
unfolding all_tags
all_tags_iff v [] = (λ h. tt, λ h. refl)
all_tags_iff v (t ∷ ts) =
    let one = satisfied_iff v t in
    let rest = all_tags_iff v ts in
    (
      λ h. let (a, b) = (and-eq-true_iff _ _).0 h in (one.0 a, rest.0 b),
      λ h. (and-eq-true_iff _ _).1 (one.1 h.0, rest.1 h.1),
    )

all_fields_iff : (fs : List Field) → (all_fields fs ≡ true) ↔ AllFields fs
unfolding all_fields
all_fields_iff [] = (λ h. tt, λ h. refl)
all_fields_iff (f ∷ fs) =
    let one = all_tags_iff f.value f.tags in
    let rest = all_fields_iff fs in
    (
      λ h. let (a, b) = (and-eq-true_iff _ _).0 h in (one.0 a, rest.0 b),
      λ h. (and-eq-true_iff _ _).1 (one.1 h.0, rest.1 h.1),
    )

plain-valid :
    (b : Bool) (e : List FieldError) → (if b then valid else violations e) ≡ valid → b ≡ true
plain-valid b e h = ground arith

pub plain-IsValidator : IsValidator plain
unfolding plain
plain-IsValidator = record {
  accepts = λ fs h. (all_fields_iff fs).0 (plain-valid (all_fields fs) (failures fs) h);
  accepted = λ fs h. rw ((all_fields_iff fs).1 h);
}
