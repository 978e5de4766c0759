-- ===== src/Prelude/Bytes.antt =====
-- Bytes as numbers below 256, big-endian integers, and slices of a byte array.
use Prim.Native.Nat.{ℕ, zero, suc, ◌+◌, ◌*◌, ◌/◌, ◌%◌, ◌^◌, ◌≤◌, ◌<◌}
use Prim.Native.Char.{code}
use Prim.Native.String.{String}
use mathlib.Core.Path.{◌≡◌, refl, sym, ap, ◌∙◌}
use mathlib.Core.List.{List, [], ◌∷◌, ◌++◌, reverse, reverse-reverse, append-nil}
use mathlib.Core.Bool.{Bool, true, ◌&&◌}
use native.Mathlib.Omega.{arith}
use tunlet.Prelude.Tests.{ltb}
use native.Mathlib.Nat.{pow-suc}
use native.Mathlib.Decide.{ℕ_discrete}
use tunlet.Prelude.Lists.{
  length, length-reverse, take, drop, get_or, All, All-reverse, All-take, All-drop, length-take,
  length-drop, take-append_self, take-append-drop, drop-append, drop_past, drop_cons, drop-drop,
}

-- The bytes of an ASCII text.
abbrev pub ascii : String → List ℕ
ascii String.[] = []
ascii (String.◌∷◌ c s) = code c ∷ ascii s

abbrev pub IsByte : ℕ → Type 0
IsByte b = b < 256

abbrev pub IsBytes : List ℕ → Type 0
IsBytes = All IsByte

-- `to_le_bytes` and `from_le_bytes` at a width of `n` bytes.
to_le : ℕ → ℕ → List ℕ
to_le zero v = []
to_le (suc n) v = (v % 256) ∷ to_le n (v / 256)

from_le : List ℕ → ℕ
from_le [] = 0
from_le (b ∷ bs) = b + 256 * from_le bs

from_le-lt : (bs : List ℕ) → IsBytes bs → from_le bs < 256 ^ length bs
unfolding from_le
from_le-lt [] h = omega arith
from_le-lt (b ∷ bs) (hb, h) = omega (arith, from_le-lt bs h, pow-suc 256 (length bs))

-- `to_be_bytes` and `from_be_bytes`.
unfoldable pub to_be : ℕ → ℕ → List ℕ
unfolding to_le
to_be n v = reverse (to_le n v)

unfoldable pub from_be : List ℕ → ℕ
unfolding from_le
from_be bs = from_le (reverse bs)

length-to_le : (n v : ℕ) → length (to_le n v) ≡ n
unfolding to_le
length-to_le zero v = refl
length-to_le (suc n) v = ap suc (length-to_le n (v / 256))

to_le-IsBytes : (n v : ℕ) → IsBytes (to_le n v)
unfolding to_le
to_le-IsBytes zero v = tt
to_le-IsBytes (suc n) v = (omega arith, to_le-IsBytes n (v / 256))

from_le-to_le : (n v : ℕ) → v < 256 ^ n → from_le (to_le n v) ≡ v
unfolding to_le from_le
from_le-to_le zero v h = omega arith
from_le-to_le (suc n) v h = omega (arith, from_le-to_le n (v / 256) (omega arith))

to_le-from_le : (bs : List ℕ) → IsBytes bs → to_le (length bs) (from_le bs) ≡ bs
unfolding to_le from_le
to_le-from_le [] h = refl
to_le-from_le (b ∷ bs) (hb, h) = ground (arith, to_le-from_le bs h)

pub to_be-IsBytes : (n v : ℕ) → IsBytes (to_be n v)
unfolding to_be
to_be-IsBytes n v = All-reverse IsByte (to_le n v) (to_le-IsBytes n v)

pub to_be-from_be : (bs : List ℕ) → IsBytes bs → to_be (length bs) (from_be bs) ≡ bs
unfolding to_be from_be
to_be-from_be bs h =
    rw (← length-reverse bs, to_le-from_le (reverse bs) (All-reverse IsByte bs h))
      (reverse-reverse bs)

-- The number that `n` bytes spell has `n` bytes.
pub from_be-lt : (bs : List ℕ) → IsBytes bs → from_be bs < 256 ^ length bs
unfolding from_be
from_be-lt bs h = rw (← length-reverse bs) (from_le-lt (reverse bs) (All-reverse IsByte bs h))

pub length-to_be : (n v : ℕ) → length (to_be n v) ≡ n
unfolding to_be
length-to_be n v = length-reverse (to_le n v) ∙ length-to_le n v

pub from_be-to_be : (n v : ℕ) → v < 256 ^ n → from_be (to_be n v) ≡ v
unfolding to_be from_be
from_be-to_be n v h = rw (reverse-reverse (to_le n v)) (from_le-to_le n v h)

-- The `N` bytes from `at` on: `take::<N>(bytes, at)`. The callers check the length first, so that
-- the slice never ends early.
unfoldable pub slice : ℕ → ℕ → List ℕ → List ℕ
slice n at bytes = take n (drop at bytes)

-- `bytes[i]`, again where the length was checked.
abbrev pub byte_at : List ℕ → ℕ → ℕ
byte_at bytes i = get_or bytes i 0

pub length-slice : (n at : ℕ) (xs : List ℕ) → at + n ≤ length xs → length (slice n at xs) ≡ n
unfolding slice
length-slice n at xs h = omega (arith, length-take n (drop at xs), length-drop at xs)

pub slice_front : (n : ℕ) (xs ys : List ℕ) → length xs ≡ n → slice n 0 (xs ++ ys) ≡ xs
unfolding slice
slice_front n xs ys e = take-append_self n xs ys e

pub slice_whole : (n : ℕ) (xs : List ℕ) → length xs ≡ n → slice n 0 xs ≡ xs
slice_whole n xs e = rw (append-nil) at (slice_front n xs [] e)

pub slice_skip :
    (k n at : ℕ) (xs ys : List ℕ) → length xs ≡ k → slice n (k + at) (xs ++ ys) ≡ slice n at ys
unfolding slice
slice_skip k n at xs ys e = ap (take n) (drop-append k at xs ys e)

-- A slice followed by what lies behind it.
pub slice_join : (n at : ℕ) (xs : List ℕ) → slice n at xs ++ drop (at + n) xs ≡ drop at xs
unfolding slice
slice_join n at xs = rw (← drop-drop at n xs) (take-append-drop n (drop at xs))

pub slice-IsBytes : (n at : ℕ) (xs : List ℕ) → IsBytes xs → IsBytes (slice n at xs)
unfolding slice
slice-IsBytes n at xs h = All-take IsByte n (drop at xs) (All-drop IsByte at xs h)

-- `==` on byte arrays and slices.
unfoldable pub bytes_discrete : Discrete (List ℕ)
unfolding ℕ_discrete
bytes_discrete = hlevel ℕ_discrete

-- The `k` bytes from `at` on, one by one.
abbrev pub bytes_from : ℕ → ℕ → List ℕ → List ℕ
bytes_from at zero xs = []
bytes_from at (suc k) xs = byte_at xs at ∷ bytes_from (suc at) k xs

pub drop-eq-bytes_from :
    (at k : ℕ) (xs : List ℕ) → length xs ≡ at + k → drop at xs ≡ bytes_from at k xs
drop-eq-bytes_from at zero xs h = drop_past at xs (omega arith)
drop-eq-bytes_from at (suc k) xs h =
    drop_cons at xs 0 (omega arith)
    ∙ ap (◌∷◌ (byte_at xs at)) (drop-eq-bytes_from (suc at) k xs (omega arith))

pub byte_at-lt : (xs : List ℕ) (i : ℕ) → IsBytes xs → byte_at xs i < 256
byte_at-lt [] i h = omega arith
byte_at-lt (x ∷ xs) zero (hx, h) = hx
byte_at-lt (x ∷ xs) (suc i) (hx, h) = byte_at-lt xs i h

-- The fields of a payload that are integers: what is read from a slice is written back as the slice.
pub slice_be :
    (n at : ℕ) (xs : List ℕ)
    → IsBytes xs
    → at + n ≤ length xs
    → (to_be n (from_be (slice n at xs)) ≡ slice n at xs) × (from_be (slice n at xs) < 256 ^ n)
slice_be n at xs bytes h =
    let small = slice-IsBytes n at xs bytes in
    let size = length-slice n at xs h in
    (
      rw size at (to_be-from_be (slice n at xs) small),
      rw size at (from_be-lt (slice n at xs) small),
    )

take-eq-bytes_from :
    (n at : ℕ) (xs : List ℕ) → at + n ≤ length xs → take n (drop at xs) ≡ bytes_from at n xs
take-eq-bytes_from zero at xs h = refl
take-eq-bytes_from (suc n) at xs h =
    ap (take (suc n)) (drop_cons at xs 0 (omega arith))
    ∙ ap (◌∷◌ (byte_at xs at)) (take-eq-bytes_from n (suc at) xs (omega arith))

pub slice-eq-bytes_from :
    (n at : ℕ) (xs : List ℕ) → at + n ≤ length xs → slice n at xs ≡ bytes_from at n xs
unfolding slice
slice-eq-bytes_from n at xs h = take-eq-bytes_from n at xs h

-- The last field of a payload.
pub slice_last : (n at : ℕ) (xs : List ℕ) → length xs ≡ at + n → slice n at xs ≡ drop at xs
unfolding slice
slice_last n at xs h =
    sym (append-nil (take n (drop at xs)))
    ∙ ap (◌++◌ (take n (drop at xs)))
        (sym (drop_past n (drop at xs) (omega (arith, length-drop at xs))))
    ∙ take-append-drop n (drop at xs)

-- The test whether all numbers of a list are bytes.
abbrev pub small : List ℕ → Bool
small [] = true
small (b ∷ bs) = ltb b 256 && small bs

pub IsBytes-of_small : (bs : List ℕ) → small bs ≡ true → IsBytes bs
IsBytes-of_small [] h = tt
IsBytes-of_small (b ∷ bs) h = (ground arith, IsBytes-of_small bs (ground arith))
