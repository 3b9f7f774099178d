-- ===== src/Middleware/Ids.antt =====
-- internal/middleware/middleware.go: generateID, the request ids that the service makes up.
use Prim.Native.Nat.{◌/◌, ◌%◌}
use Prim.Native.Char.{Char, code}
use Prim.Native.String.{String, count, char_at, [] as []ˢ, ◌∷◌ as ◌∷ˢ◌}
use text.Mathlib.TextLemmas.{
  head-eq_of_cons-eq, tail-eq_of_cons-eq, length-cons, length-nil, nil≢cons, cons≢nil,
}
use playback_service.Prelude.{
  ℕ, zero, suc, ◌-◌, ◌*◌, ◌<◌, ◌≡◌, ◌∙◌, sym, ap, refl, Bool, true, false, ◌&&◌, ◌||◌, List, [],
  ◌∷◌, length, Every, eqb, leb, ltb, Bool-cases, inl, inr, if◌then◌else◌, arith,
}

-- A digit of %x.
abbrev pub hex_digit : ℕ → Char
hex_digit n = char_at "0123456789abcdef" n

-- fmt.Sprintf("%x", b)
abbrev pub hex_text : List ℕ → String
hex_text [] = ""
hex_text (b ∷ bs) = hex_digit (b / 16) ∷ˢ (hex_digit (b % 16) ∷ˢ hex_text bs)

-- A slice of n bytes once `rand.Read` has filled it; `read i` is the byte that it gives for index i.
abbrev pub filled : ℕ → (ℕ → ℕ) → List ℕ
filled zero read = []
filled (suc n) read = read 0 ∷ filled n λ i. read (suc i)

abbrev pub generate_id : (ℕ → ℕ) → String
generate_id read = hex_text (filled 16 read)

abbrev hex_value : Char → ℕ
hex_value c = if ltb (code c) 58 then code c - 48 else code c - 87

abbrev pub is_hex : Char → Bool
is_hex c = leb 48 (code c) && ltb (code c) 58 || leb 97 (code c) && ltb (code c) 103

abbrev pub is_hex_text : String → Bool
is_hex_text []ˢ = true
is_hex_text (c ∷ˢ s) = is_hex c && is_hex_text s

abbrev pub IsByte : ℕ → Type 0
IsByte b = b < 256

abbrev all_below : ℕ → (ℕ → Bool) → Bool
all_below zero t = true
all_below (suc n) t = t n && all_below n t

and_true : (a b : Bool) → (a && b) ≡ true → (a ≡ true) × (b ≡ true)
and_true true b e = (refl, e)
and_true false b e = cc

all_below-lt : (n : ℕ) (t : ℕ → Bool) (m : ℕ) → all_below n t ≡ true → m < n → t m ≡ true
all_below-lt zero t m all lt = absurd (omega (arith, lt))
all_below-lt (suc n) t m all lt = elim (Bool-cases (eqb m n)) [
  | inl last ↦
      let same : m ≡ n = ground (arith, last) in rw same (and_true (t n) (all_below n t) all).0
  | inr other ↦
      let below : m < n = ground (arith, lt, other) in
      all_below-lt n t m (and_true (t n) (all_below n t) all).1 below
]

abbrev good_digit : ℕ → Bool
good_digit n = eqb (hex_value (hex_digit n)) n && is_hex (hex_digit n)

hex_digit-good : (n : ℕ) → n < 16 → good_digit n ≡ true
hex_digit-good n lt = all_below-lt 16 good_digit n refl lt

hex_value-digit : (n : ℕ) → n < 16 → hex_value (hex_digit n) ≡ n
hex_value-digit n lt =
    let good =
      (and_true (eqb (hex_value (hex_digit n)) n) (is_hex (hex_digit n)) (hex_digit-good n lt)).0 in
    ground (arith, good)

hex_digit-is_hex : (n : ℕ) → n < 16 → is_hex (hex_digit n) ≡ true
hex_digit-is_hex n lt = (and_true _ _ (hex_digit-good n lt)).1

hex_digit_inj : (m n : ℕ) → m < 16 → n < 16 → hex_digit m ≡ hex_digit n → m ≡ n
hex_digit_inj m n lm ln same =
    sym (hex_value-digit m lm) ∙ ap (λ c. hex_value c) same ∙ hex_value-digit n ln

high : (b : ℕ) → IsByte b → b / 16 < 16
high b lt = omega arith

low : (b : ℕ) → b % 16 < 16
low b = omega arith

hex_text-is_hex_text : (bs : List ℕ) → Every IsByte bs → is_hex_text (hex_text bs) ≡ true
hex_text-is_hex_text [] bytes = refl
hex_text-is_hex_text (b ∷ bs) (byte, bytes) =
    rw
      (
        hex_digit-is_hex (b / 16) (high b byte),
        hex_digit-is_hex (b % 16) (low b),
        hex_text-is_hex_text bs bytes,
      )
      refl

count-hex_text : (bs : List ℕ) → count (hex_text bs) ≡ 2 * length bs
count-hex_text [] = length-nil
count-hex_text (b ∷ bs) =
    let first = length-cons (hex_digit (b / 16)) (hex_digit (b % 16) ∷ˢ hex_text bs) in
    let second = length-cons (hex_digit (b % 16)) (hex_text bs) in
    let rest = count-hex_text bs in omega (arith, first, second, rest)

hex_text_inj :
    (bs cs : List ℕ) → Every IsByte bs → Every IsByte cs → hex_text bs ≡ hex_text cs → bs ≡ cs
hex_text_inj [] [] all others same = refl
hex_text_inj [] (c ∷ cs) all others same = absurd (nil≢cons same)
hex_text_inj (b ∷ bs) [] all others same = absurd (cons≢nil same)
hex_text_inj (b ∷ bs) (c ∷ cs) (byte, all) (other, others) same =
    let tail = tail-eq_of_cons-eq same in
    let highs =
      hex_digit_inj (b / 16) (c / 16) (high b byte) (high c other) (head-eq_of_cons-eq same) in
    let lows = hex_digit_inj (b % 16) (c % 16) (low b) (low c) (head-eq_of_cons-eq tail) in
    let here : b ≡ c = omega (arith, highs, lows) in
    let there = hex_text_inj bs cs all others (tail-eq_of_cons-eq tail) in cc (here, there)

filled-bytes : (n : ℕ) (r : ℕ → ℕ) → ((i : ℕ) → IsByte (r i)) → Every IsByte (filled n r)
filled-bytes zero r bytes = tt
filled-bytes (suc n) r bytes = (bytes 0, filled-bytes n (λ i. r (suc i)) λ i. bytes (suc i))

length-filled : (n : ℕ) (r : ℕ → ℕ) → length (filled n r) ≡ n
length-filled zero r = refl
length-filled (suc n) r = ap (λ m. suc m) (length-filled n λ i. r (suc i))

first_of : List ℕ → ℕ
first_of [] = 0
first_of (b ∷ bs) = b

rest_of : List ℕ → List ℕ
rest_of [] = []
rest_of (b ∷ bs) = bs

filled_at : (n : ℕ) (r q : ℕ → ℕ) (i : ℕ) → i < n → filled n r ≡ filled n q → r i ≡ q i
unfolding first_of rest_of
filled_at zero r q i lt same = absurd (omega (arith, lt))
filled_at (suc n) r q zero lt same = ap (λ l. first_of l) same
filled_at (suc n) r q (suc i) lt same =
    filled_at n (λ j. r (suc j)) (λ j. q (suc j)) i (omega (arith, lt)) (ap (λ l. rest_of l) same)

pub generate_id-is_hex_text :
    (r : ℕ → ℕ) → ((i : ℕ) → IsByte (r i)) → is_hex_text (generate_id r) ≡ true
generate_id-is_hex_text r bytes = hex_text-is_hex_text (filled 16 r) (filled-bytes 16 r bytes)

pub count-generate_id : (r : ℕ → ℕ) → count (generate_id r) ≡ 32
count-generate_id r = count-hex_text (filled 16 r) ∙ ap (λ n. 2 * n) (length-filled 16 r)

pub generate_id_inj :
    (r q : ℕ → ℕ)
    → ((i : ℕ) → IsByte (r i))
    → ((i : ℕ) → IsByte (q i))
    → generate_id r ≡ generate_id q
    → (i : ℕ) → i < 16
    → r i ≡ q i
generate_id_inj r q bytes others same i lt = filled_at 16 r q i lt (
    hex_text_inj (filled 16 r) (filled 16 q) (filled-bytes 16 r bytes) (filled-bytes 16 q others)
      same)
