-- ===== src/Json.antt =====
-- What the source uses of Go's `encoding/json`: the values of JSON texts, and how `Unmarshal` fills
-- the fields of a struct by their tags. The step between bytes and values is in External.antt.
use Prim.Native.Char.{code}
use playback_service.Prelude.{
  ℕ, ◌-◌, String, Bool, true, false, ◌&&◌, ◌||◌, Option, none, some, List, [], ◌∷◌, leb, eqb, ℤ,
  if◌then◌else◌, fits,
}

mutual
  pub data Json : Type 0 where
    null : Json
    boolean : Bool → Json
    -- A number literal without fraction and exponent.
    int : ℤ → Json
    -- Any other number literal.
    real : String → Json
    str : String → Json
    arr : Items → Json
    obj : Members → Json

  pub data Items : Type 0 where
    nil : Items
    item : Json → Items → Items

  -- The members of an object in the order of the text; a key may stand twice.
  pub data Members : Type 0 where
    end : Members
    member : String → Json → Members → Members

unfoldable pub codes : String → List ℕ
codes String.[] = []
codes (String.◌∷◌ c s) = code c ∷ codes s

-- Where the reading of a number literal stands.
pub data Scan : Type 0 where
  begins signed zeroed whole pointed fraction exponential exponent_signed exponent failed : Scan

unfoldable pub is_digit : ℕ → Bool
is_digit c = leb b'0' c && leb c b'9'

unfoldable pub is_e : ℕ → Bool
is_e c = eqb c b'e' || eqb c b'E'

-- What may follow the integer part.
unfoldable pub after_whole : ℕ → Scan
after_whole c = if eqb c b'.' then pointed else if is_e c then exponential else failed

unfoldable pub scan : Scan → ℕ → Scan
scan begins c =
    if eqb c b'-'
    then signed
    else if eqb c b'0'
    then zeroed
    else if is_digit c
    then whole
    else failed
scan signed c = if eqb c b'0' then zeroed else if is_digit c then whole else failed
scan zeroed c = after_whole c
scan whole c = if is_digit c then whole else after_whole c
scan pointed c = if is_digit c then fraction else failed
scan fraction c = if is_digit c then fraction else if is_e c then exponential else failed
scan exponential c =
    if eqb c b'+' || eqb c b'-' then exponent_signed else if is_digit c then exponent else failed
scan exponent_signed c = if is_digit c then exponent else failed
scan exponent c = if is_digit c then exponent else failed
scan failed c = failed

unfoldable pub scanned : Scan → List ℕ → Bool
scanned fraction [] = true
scanned exponent [] = true
scanned _ [] = false
scanned at (c ∷ cs) = scanned (scan at c) cs

-- Whether a text is a number literal with a fraction or an exponent.
unfoldable pub is_literal : String → Bool
is_literal s = scanned begins (codes s)

abbrev mutual
  -- Whether each text of a number in the value is a literal with a fraction or an exponent.
  pub is_json : Json → Bool
  is_json (real s) = is_literal s
  is_json (arr is) = items_json is
  is_json (obj ms) = members_json ms
  is_json _ = true

  pub items_json : Items → Bool
  items_json nil = true
  items_json (item v is) = is_json v && items_json is

  pub members_json : Members → Bool
  members_json end = true
  members_json (member k v ms) = is_json v && members_json ms

-- foldRune on what can fold to an ASCII letter: the letters, U+017F and U+212A.
unfoldable pub fold_rune : ℕ → ℕ
fold_rune c =
    if leb b'a' c && leb c b'z'
    then c - 32
    else if eqb c 0x17f
    then b'S'
    else if eqb c 0x212a
    then b'K'
    else c

unfoldable pub same_folded : List ℕ → List ℕ → Bool
same_folded [] [] = true
same_folded (a ∷ as') (b ∷ bs) = eqb (fold_rune a) (fold_rune b) && same_folded as' bs
same_folded _ _ = false

-- Whether an object's key names the field with the tag. No two tags of a struct of the source fold
-- alike, so an exact match and a match up to case are the same field.
unfoldable pub names_field : (tag key : String) → Bool
unfolding codes same_folded fold_rune
names_field tag key = same_folded (codes tag) (codes key)

-- One value into a field. `none` is an `UnmarshalTypeError`; null leaves the field as it is.
unfoldable pub into_text : Json → String → Option String
into_text null old = some old
into_text (str s) old = some s
into_text _ old = none

-- A field of type `int`: 64 bits on the platforms of the service.
unfoldable pub into_int : Json → ℤ → Option ℤ
into_int null old = some old
into_int (int n) old = if fits 64 n then some n else none
into_int _ old = none

-- The loop over the members of an object. `set` writes one member into the struct; the first
-- mismatch fails the whole call, since every caller in the source drops the struct on an error.
unfoldable pub into_fields {ℓ} :
    {A : Type ℓ} → (String → Json → A → Option A) → Members → A → Option A
into_fields set end a = some a
into_fields set (member k v ms) a = elim (set k v a) [
  | none ↦ none
  | some a' ↦ into_fields set ms a'
]

-- A value into a struct: an object by its members, null as no change, anything else refused.
unfoldable pub into_struct {ℓ} : {A : Type ℓ} → (String → Json → A → Option A) → Json → A → Option A
unfolding into_fields
into_struct set null a = some a
into_struct set (obj ms) a = into_fields set ms a
into_struct set _ a = none
