-- ===== src/Validator/Laws.antt =====
-- What the source relies on of go-playground/validator: the documented meaning of its tags.
use Prim.Native.String.{count}
use playback_service.Prelude.{
  ◌≤◌, String, ◌≡◌, ◌≢◌, inl, inr, refl, ap, Bool-cases, Option, none, some, List, [], ◌∷◌, pos,
  negsuc, Option-cases,
}
use playback_service.Json.{Json}
use playback_service.External.{External, unmarshal}
use playback_service.Validator.{
  Tag, required, min, Value, text, number, Field, Verdict, valid, violations, invalid, bound, check,
  checked, bind_json,
}

-- `required` asks for a value other than the zero value, `min` for a length or a value of at least
-- its parameter.
abbrev pub Satisfies : Value → Tag → Type 0
Satisfies (text s) required = ◌≢◌ {A = String} s ""
Satisfies (text s) (min n) = n ≤ count s
Satisfies (number z) required = z ≢ pos 0
Satisfies (number (pos m)) (min n) = n ≤ m
Satisfies (number (negsuc m)) (min n) = ⊥

abbrev pub AllTags : Value → List Tag → Type 0
AllTags v [] = Unit
AllTags v (t ∷ ts) = Satisfies v t × AllTags v ts

abbrev pub AllFields : List Field → Type 0
AllFields [] = Unit
AllFields (f ∷ fs) = AllTags f.value f.tags × AllFields fs

-- `Struct` returns nil just for a struct whose fields satisfy their tags.
pub record IsValidator (struct : List Field → Verdict) : Type 0 where
  pub accepts : (fs : List Field) → struct fs ≡ valid → AllFields fs
  pub accepted : (fs : List Field) → AllFields fs → struct fs ≡ valid

module _ (x : External) (struct : List Field → Verdict) where
  check-bound :
      {A : Type 0} (v : Verdict) (dst req : A) → check v dst ≡ bound req → (v ≡ valid) × (dst ≡ req)
  check-bound valid dst req h = (refl, cc)
  check-bound (violations ve) dst req h = cc
  check-bound (invalid e) dst req h = cc

  checked-bound :
      {A : Type 0} (fields : A → List Field) (body : x.Bytes) (o : Option A) (req : A)
      → checked x struct fields body o ≡ bound req
      → (o ≡ some req) × (struct (fields req) ≡ valid)
  checked-bound fields body none req h = cc
  checked-bound fields body (some dst) req h =
      let (good, same) = check-bound (struct (fields dst)) dst req h in
      (ap some same, rw same at good)

  unmarshal-some :
      {A : Type 0} (decode : Json → Option A) (body : x.Bytes) (a : A)
      → unmarshal x decode body ≡ some a
      → (v : Json) × (x.parse body ≡ some v) × (decode v ≡ some a)
  unmarshal-some decode body a h = elim (Option-cases (x.parse body)) [
    | inl bad ↦ cc (rw (bad, unmarshal) at h)
    | inr (v, parsed) ↦ (v, parsed, rw (parsed, unmarshal) at h)
  ]

  -- A bound request is the decoded body, and its fields satisfy their tags.
  pub bind_json-bound :
      {A : Type 0} (decode : Json → Option A) (fields : A → List Field) (body : x.Bytes) (req : A)
      → IsValidator struct
      → bind_json x struct decode fields body ≡ bound req
      → ((v : Json) × (x.parse body ≡ some v) × (decode v ≡ some req)) × AllFields (fields req)
  unfolding bind_json
  bind_json-bound decode fields body req lawful h = elim (Bool-cases (x.is_empty body)) [
    | inl none_given ↦ cc (rw none_given at h)
    | inr given ↦
        let (decoded, good) =
          checked-bound fields body (unmarshal x decode body) req (rw given at h) in
        (unmarshal-some decode body req decoded, lawful.accepts (fields req) good)
  ]
