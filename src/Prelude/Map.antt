-- ===== src/Prelude/Map.antt =====
-- A `HashMap` as an association list with one entry a key. No operation of the program that is
-- modelled over it depends on the order of the entries, which the program leaves open.
use Prim.Native.Nat.{ℕ, ◌+◌}
use mathlib.Core.Path.{◌≡◌, refl, sym, ap, ◌∙◌}
use mathlib.Core.Bool.{Bool}
use mathlib.Core.List.{List, [], ◌∷◌}
use mathlib.Core.Option.{Option, none, some}
use native.Mathlib.Omega.{arith}
use tortillas.Prelude.Tests.{if◌then◌else◌, Bool-cases}
use tortillas.Prelude.Equality.{PartialEq, ◌==◌, is_same_refl}
use mathlib.Core.Logic.{inl, inr}

abbrev pub Map {ℓ κ} : Type ℓ → Type κ → Type (ℓ ⊔ κ)
Map K V = List (K × V)

abbrev pub weight {κ} : {V : Type κ} → (V → ℕ) → Option V → ℕ
weight f none = 0
weight f (some v) = f v

abbrev pub keep {κ} : {V : Type κ} → (V → Bool) → Option V → Option V
keep test none = none
keep test (some v) = if test v then some v else none

-- A measure of the values, summed over the map.
unfoldable pub total {ℓ κ} : {K : Type ℓ} {V : Type κ} → (V → ℕ) → Map K V → ℕ
total f [] = 0
total f ((k, v) ∷ m) = f v + total f m

module _ {ℓ κ} {K : Type ℓ} {V : Type κ} ⦃e : PartialEq K⦄ where
  -- `get`.
  unfoldable pub lookup : K → Map K V → Option V
  lookup k [] = none
  lookup k ((j, v) ∷ m) = if j == k then some v else lookup k m

  -- `remove`.
  unfoldable pub remove : K → Map K V → Map K V
  remove k [] = []
  remove k ((j, v) ∷ m) = let rest = remove k m in if j == k then rest else (j, v) ∷ rest

  -- `insert`.
  unfoldable pub insert : K → V → Map K V → Map K V
  insert k v m = (k, v) ∷ remove k m

  pub lookup-remove :
      (k j : K) (m : Map K V) → lookup j (remove k m) ≡ (if k == j then none else lookup j m)
  unfolding lookup remove
  lookup-remove k j [] = ground arith
  lookup-remove k j ((i, v) ∷ m) =
      ground (arith, lookup-remove k j m, e.is_same_iff i k, e.is_same_iff i j, e.is_same_iff k j)

  pub lookup-insert :
      (k j : K) (v : V) (m : Map K V)
      → lookup j (insert k v m) ≡ (if k == j then some v else lookup j m)
  unfolding lookup insert
  lookup-insert k j v m = ground (arith, lookup-remove k j m)

  -- No key stands twice.
  abbrev pub Unique : Map K V → Type κ
  Unique [] = Unit {κ}
  Unique ((k, v) ∷ m) = (lookup k m ≡ none) × Unique m

  pub remove-Unique : (k : K) (m : Map K V) → Unique m → Unique (remove k m)
  unfolding remove
  remove-Unique k [] u = tt
  remove-Unique k ((j, v) ∷ m) (fresh, u) = elim (Bool-cases (j == k)) [
    | inl same ↦ rw same (remove-Unique k m u)
    | inr other ↦ rw other (ground (arith, lookup-remove k j m), remove-Unique k m u)
  ]

  pub insert-Unique : (k : K) (v : V) (m : Map K V) → Unique m → Unique (insert k v m)
  unfolding insert
  insert-Unique k v m u = (rw (lookup-remove k k m, is_same_refl k), remove-Unique k m u)

  remove_fresh : (k : K) (m : Map K V) → lookup k m ≡ none → remove k m ≡ m
  unfolding lookup remove
  remove_fresh k [] h = refl
  remove_fresh k ((j, v) ∷ m) h = ground (arith, remove_fresh k m)

  pub total-remove :
      (f : V → ℕ) (k : K) (m : Map K V)
      → Unique m
      → total f (remove k m) + weight f (lookup k m) ≡ total f m
  unfolding total remove lookup
  total-remove f k [] u = omega arith
  total-remove f k ((j, v) ∷ m) (fresh, u) =
      ground (arith, e.is_same_iff j k, remove_fresh k m, total-remove f k m)

  pub total-insert :
      (f : V → ℕ) (k : K) (v : V) (m : Map K V)
      → Unique m
      → total f (insert k v m) + weight f (lookup k m) ≡ total f m + f v
  unfolding total insert
  total-insert f k v m u = omega (arith, total-remove f k m u)

  -- `retain` by the values.
  unfoldable pub retain : (V → Bool) → Map K V → Map K V
  retain test [] = []
  retain test ((k, v) ∷ m) = let rest = retain test m in if test v then (k, v) ∷ rest else rest

  pub lookup-retain :
      (test : V → Bool) (k : K) (m : Map K V)
      → Unique m
      → lookup k (retain test m) ≡ keep test (lookup k m)
  unfolding lookup retain
  lookup-retain test k [] u = refl
  lookup-retain test k ((j, v) ∷ m) (fresh, u) = elim (Bool-cases (test v)) [
    | inl kept ↦ rw kept (elim (Bool-cases (j == k)) [
      | inl same ↦ rw same (rw kept refl)
      | inr other ↦ rw other (lookup-retain test k m u)
    ])
    | inr gone ↦ rw gone (elim (Bool-cases (j == k)) [
      | inl same ↦ rw same (
          rw gone (
            lookup-retain test k m u
            ∙ ap (keep test) (ap (λ i. lookup i m) (sym ((e.is_same_iff j k).0 same)) ∙ fresh)))
      | inr other ↦ rw other (lookup-retain test k m u)
    ])
  ]

  pub retain-Unique : (test : V → Bool) (m : Map K V) → Unique m → Unique (retain test m)
  unfolding retain
  retain-Unique test [] u = tt
  retain-Unique test ((k, v) ∷ m) (fresh, u) = elim (Bool-cases (test v)) [
    | inl kept ↦ rw kept (lookup-retain test k m u ∙ ap (keep test) fresh, retain-Unique test m u)
    | inr gone ↦ rw gone (retain-Unique test m u)
  ]
