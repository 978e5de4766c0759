-- ===== src/Config/Text.antt =====
-- The functions on texts that the parsers of the configuration use. A text is the list of its
-- code points.
use tunlet.Prelude.{
  ℕ, ◌+◌, ◌*◌, ◌-◌, ◌==◌, leb, ltb, if◌then◌else◌, Bool, true, false, ◌&&◌, ◌||◌, Option, none,
  some, List, [], ◌∷◌, reverse, ◌≡◌, ◌<◌, arith, Bool-cases, inl, inr,
}
use tunlet.Prelude.Bytes.{bytes_discrete}

abbrev pub Text : Type 0
Text = List ℕ

unfoldable pub text_eq : Text → Text → Bool
unfolding bytes_discrete
text_eq a b = elim (bytes_discrete a b) [ yes _ ↦ true | no _ ↦ false ]

unfoldable pub contains : ℕ → Text → Bool
contains c [] = false
contains c (x ∷ xs) = x == c || contains c xs

-- `split_once`, at the first occurrence.
unfoldable pub split_once : ℕ → Text → Option (Text × Text)
split_once c [] = none
split_once c (x ∷ xs) =
    let rest = split_once c xs in
    if x == c
    then some ([], xs)
    else elim rest [ none ↦ none | some (before, after) ↦ some (x ∷ before, after) ]

-- `rsplit_once`, at the last occurrence.
unfoldable pub rsplit_once : ℕ → Text → Option (Text × Text)
rsplit_once c [] = none
rsplit_once c (x ∷ xs) = elim (rsplit_once c xs) [
  | some (before, after) ↦ some (x ∷ before, after)
  | none ↦ if x == c then some ([], xs) else none
]

unfoldable pub strip_prefix : ℕ → Text → Option Text
strip_prefix c [] = none
strip_prefix c (x ∷ xs) = if x == c then some xs else none

unfoldable pub starts_with : ℕ → Text → Bool
starts_with c [] = false
starts_with c (x ∷ xs) = x == c

-- `char::is_whitespace`, the property White_Space of Unicode.
unfoldable pub is_whitespace : ℕ → Bool
is_whitespace c =
    (leb 9 c && leb c 13)
    || c == 32
    || c == 133
    || c == 160
    || c == 5760
    || (leb 8192 c && leb c 8202)
    || c == 8232
    || c == 8233
    || c == 8239
    || c == 8287
    || c == 12288

unfoldable pub trim_start : Text → Text
trim_start [] = []
trim_start (x ∷ xs) = let rest = trim_start xs in if is_whitespace x then rest else x ∷ xs

unfoldable pub trim : Text → Text
trim text = reverse (trim_start (reverse (trim_start text)))

-- The value of decimal digits behind those read, `none` at another character.
unfoldable pub digits : ℕ → Text → Option ℕ
digits value [] = some value
digits value (x ∷ xs) =
    let rest = digits (value * 10 + (x - b'0')) xs in
    if leb b'0' x && leb x b'9' then rest else none

abbrev below : ℕ → Option ℕ → Option ℕ
below bound none = none
below bound (some n) = if ltb n bound then some n else none

abbrev unsigned_digits : ℕ → Text → Option ℕ
unsigned_digits bound [] = none
unsigned_digits bound (x ∷ xs) = below bound (digits 0 (x ∷ xs))

-- `str::parse` at an unsigned integer type with `bound` values: digits, which a plus sign may
-- precede.
unfoldable pub parse_unsigned : ℕ → Text → Option ℕ
parse_unsigned bound [] = none
parse_unsigned bound (x ∷ xs) =
    if x == b'+' then unsigned_digits bound xs else unsigned_digits bound (x ∷ xs)

below-lt : (bound : ℕ) (o : Option ℕ) (n : ℕ) → below bound o ≡ some n → n < bound
below-lt bound none n e = absurd (cc)
below-lt bound (some m) n e = ground arith

digits-lt : (bound : ℕ) (text : Text) (n : ℕ) → unsigned_digits bound text ≡ some n → n < bound
digits-lt bound [] n e = absurd (cc)
digits-lt bound (x ∷ xs) n e = below-lt bound (digits 0 (x ∷ xs)) n e

-- What is parsed fits the type.
pub parse_unsigned-lt :
    (bound : ℕ) (text : Text) (n : ℕ) → parse_unsigned bound text ≡ some n → n < bound
unfolding parse_unsigned
parse_unsigned-lt bound [] n = λ e. absurd (cc)
parse_unsigned-lt bound (x ∷ xs) n = elim (Bool-cases (x == b'+')) [
  | inl e ↦ rw e (digits-lt bound xs n)
  | inr e ↦ rw e (digits-lt bound (x ∷ xs) n)
]
