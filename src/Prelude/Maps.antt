-- ===== src/Prelude/Maps.antt =====
-- Association lists with at most one entry for a key: the hash maps of the program, and its map
-- ordered by port number. The laws are equations between lookups.
use Prim.Native.Nat.{ℕ, ◌+◌, ◌≤◌}
use mathlib.Core.Path.{◌≡◌, refl}
use mathlib.Core.Logic.{◌≢◌, ite}
use mathlib.Core.Bool.{Bool}
use mathlib.Core.Option.{Option, none, some}
use mathlib.Core.List.{List, [], ◌∷◌}
use native.Mathlib.Omega.{arith}
use native.Mathlib.Decide.{dec_lt, ℕ_discrete}
use tunlet.Prelude.Tests.{if◌then◌else◌}
use tunlet.Prelude.Lists.{length}

-- What `retain` leaves of the value found at one key.
abbrev pub keep_if {ℓ} : {K V : Type ℓ} → (K → V → Bool) → K → Option V → Option V
keep_if p k none = none
keep_if p k (some v) = if p k v then some v else none

module _ {ℓ} {K V : Type ℓ} where
  unfoldable pub retain : (K → V → Bool) → List (K × V) → List (K × V)
  retain p [] = []
  retain p ((j, w) ∷ m) = if p j w then (j, w) ∷ retain p m else retain p m

  pub length-retain : (p : K → V → Bool) (m : List (K × V)) → length (retain p m) ≤ length m
  unfolding retain
  length-retain p [] = omega arith
  length-retain p ((j, w) ∷ m) = ground (arith, length-retain p m)

module _ {ℓ} {K V : Type ℓ} (dec : Discrete K) where
  unfoldable pub lookup : K → List (K × V) → Option V
  lookup k [] = none
  lookup k ((j, w) ∷ m) = ite (dec k j) (some w) (lookup k m)

  -- `HashMap::insert`, and a write through `get_mut`.
  unfoldable pub insert : K → V → List (K × V) → List (K × V)
  insert k v [] = (k, v) ∷ []
  insert k v ((j, w) ∷ m) = ite (dec k j) ((k, v) ∷ m) ((j, w) ∷ insert k v m)

  unfoldable pub remove : K → List (K × V) → List (K × V)
  remove k [] = []
  remove k ((j, w) ∷ m) = ite (dec k j) (remove k m) ((j, w) ∷ remove k m)

  pub lookup-insert :
      (j k : K) (v : V) (m : List (K × V))
      → lookup j (insert k v m) ≡ ite (dec j k) (some v) (lookup j m)
  unfolding lookup insert
  lookup-insert j k v [] = refl
  lookup-insert j k v ((i, w) ∷ m) = ground (arith, lookup-insert j k v m)

  pub lookup-remove :
      (j k : K) (m : List (K × V)) → lookup j (remove k m) ≡ ite (dec j k) none (lookup j m)
  unfolding lookup remove
  lookup-remove j k [] = ground arith
  lookup-remove j k ((i, w) ∷ m) = ground (arith, lookup-remove j k m)

  pub length-remove : (k : K) (m : List (K × V)) → length (remove k m) ≤ length m
  unfolding remove
  length-remove k [] = omega arith
  length-remove k ((j, w) ∷ m) = ground (arith, length-remove k m)

  pub length-insert_found :
      (k : K) (v : V) (m : List (K × V)) → lookup k m ≢ none → length (insert k v m) ≡ length m
  unfolding lookup insert
  length-insert_found k v [] h = absurd (h refl)
  length-insert_found k v ((j, w) ∷ m) h = ground (arith, length-insert_found k v m)

  -- No key has two entries.
  abbrev pub Distinct : List (K × V) → Type ℓ
  Distinct [] = Unit {ℓ}
  Distinct ((j, w) ∷ m) = (lookup j m ≡ none) × Distinct m

  pub insert-Distinct : (k : K) (v : V) (m : List (K × V)) → Distinct m → Distinct (insert k v m)
  unfolding insert
  insert-Distinct k v [] d = (unfold lookup in refl, d)
  insert-Distinct k v ((j, w) ∷ m) d = ground (arith, insert-Distinct k v m, lookup-insert j k v m)

  pub remove-Distinct : (k : K) (m : List (K × V)) → Distinct m → Distinct (remove k m)
  unfolding remove
  remove-Distinct k [] d = d
  remove-Distinct k ((j, w) ∷ m) d = ground (arith, remove-Distinct k m, lookup-remove j k m)

  pub lookup-retain :
      (p : K → V → Bool) (k : K) (m : List (K × V))
      → Distinct m
      → lookup k (retain p m) ≡ keep_if p k (lookup k m)
  unfolding lookup retain
  lookup-retain p k [] d = refl
  lookup-retain p k ((j, w) ∷ m) d = ground (arith, lookup-retain p k m d.1)

  pub retain-Distinct : (p : K → V → Bool) (m : List (K × V)) → Distinct m → Distinct (retain p m)
  unfolding retain
  retain-Distinct p [] d = d
  retain-Distinct p ((j, w) ∷ m) d = ground (arith, retain-Distinct p m, lookup-retain p j m d.1)

-- `BTreeMap::insert`: the entries stay in the order of their keys.
module _ {V : Type 0} where
  unfoldable pub insert_ordered : ℕ → V → List (ℕ × V) → List (ℕ × V)
  unfolding ℕ_discrete dec_lt
  insert_ordered k v [] = (k, v) ∷ []
  insert_ordered k v ((j, w) ∷ m) =
      ite (dec_lt k j) ((k, v) ∷ (j, w) ∷ m)
        (ite (ℕ_discrete k j) ((k, v) ∷ m) ((j, w) ∷ insert_ordered k v m))

  pub lookup-insert_ordered :
      (j k : ℕ) (v : V) (m : List (ℕ × V))
      → lookup ℕ_discrete j (insert_ordered k v m)
        ≡ ite (ℕ_discrete j k) (some v) (lookup ℕ_discrete j m)
  unfolding lookup insert_ordered
  lookup-insert_ordered j k v [] = refl
  lookup-insert_ordered j k v ((i, w) ∷ m) = ground (arith, lookup-insert_ordered j k v m)

  pub length-insert_ordered :
      (k : ℕ) (v : V) (m : List (ℕ × V)) → length (insert_ordered k v m) ≤ length m + 1
  unfolding insert_ordered
  length-insert_ordered k v [] = omega arith
  length-insert_ordered k v ((i, w) ∷ m) = ground (arith, length-insert_ordered k v m)

  pub insert_ordered-Distinct :
      (k : ℕ) (v : V) (m : List (ℕ × V))
      → lookup ℕ_discrete k m ≡ none
      → Distinct ℕ_discrete m
      → Distinct ℕ_discrete (insert_ordered k v m)
  unfolding lookup insert_ordered
  insert_ordered-Distinct k v [] h d = (refl, d)
  insert_ordered-Distinct k v ((i, w) ∷ m) h d =
      ground (arith, insert_ordered-Distinct k v m, lookup-insert_ordered i k v m)
