-- ===== src/Validator.antt =====
-- internal/validator/validator.go: the binding of a request body. The checks of the library
-- go-playground/validator are a parameter.
pub mod Laws
pub mod Plain
use playback_service.Prelude.{
  ℕ, String, ◌<>◌, Bool, Option, none, some, List, [], ◌∷◌, map, ℤ, if◌then◌else◌,
}
use playback_service.Apperror.{Fault, Error, new_validation, fault_text}
use playback_service.Json.{Json}
use playback_service.External.{External, unmarshal}

-- The tags of the source, and the value and the tags of a field of a struct.
pub data Tag : Type 0 where
  required : Tag
  min : ℕ → Tag

pub data Value : Type 0 where
  text : String → Value
  number : ℤ → Value

pub record Field : Type 0 where
  pub name : String
  pub value : Value
  pub tags : List Tag

-- What a `FieldError` says: the field, and the name of the tag that failed.
pub record FieldError : Type 0 where
  pub field : String
  pub tag : String

-- The result of `Struct`: nil, `ValidationErrors`, or another error.
pub data Verdict : Type 0 where
  valid : Verdict
  violations : List FieldError → Verdict
  invalid : Fault → Verdict

-- strings.Join(msgs, "; ")
join : List String → String
join [] = ""
join (m ∷ []) = m
join (m ∷ n ∷ ms) = m <> ("; " <> join (n ∷ ms))

abbrev field_message : FieldError → String
field_message fe = "field '" <> (fe.field <> ("' failed on '" <> (fe.tag <> "' tag")))

unfoldable pub format_validation_errors : List FieldError → String
unfolding join
format_validation_errors ve = join (map field_message ve)

pub data Bound {ℓ} (A : Type ℓ) : Type ℓ where
  bound : A → Bound A
  refused : Error → Bound A

abbrev pub check {ℓ} : {A : Type ℓ} → Verdict → A → Bound A
check valid dst = bound dst
check (violations ve) dst = refused (new_validation (format_validation_errors ve))
check (invalid e) dst = refused (new_validation (fault_text e))

module _ (x : External) (struct : List Field → Verdict) where
  abbrev pub checked {ℓ} : {A : Type ℓ} → (A → List Field) → x.Bytes → Option A → Bound A
  checked fields body none =
      refused (new_validation ("invalid JSON: " <> fault_text (x.unmarshal_error body)))
  checked fields body (some dst) = check (struct (fields dst)) dst

  unfoldable pub bind_json {ℓ} :
      {A : Type ℓ} → (Json → Option A) → (A → List Field) → x.Bytes → Bound A
  bind_json decode fields body =
      if x.is_empty body
      then refused (new_validation "request body is empty")
      else checked fields body (unmarshal x decode body)
