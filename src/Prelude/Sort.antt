-- ===== src/Prelude/Sort.antt =====
-- The standard library's sort of a slice by a comparison, `lt a b` where `a` comes before `b`. It is
-- stable, and a slice that has no ties has one sorted order, so that it stands for the unstable sort
-- there too.
use Prim.Native.Nat.{ℕ, zero, suc, ◌+◌}
use mathlib.Core.Path.{◌≡◌, refl}
use mathlib.Core.Logic.{inl, inr}
use mathlib.Core.Bool.{Bool, true, false}
use mathlib.Core.List.{List, [], ◌∷◌, Perm}
use mathlib.Core.List.Perm
use native.Mathlib.Omega.{arith}
use tortillas.Prelude.Tests.{if◌then◌else◌, Bool-cases, ltb, eqb}
use tortillas.Prelude.Lists.{All, All-map, length, take, drop}

module _ {ℓ} {A : Type ℓ} (lt : A → A → Bool) where
  unfoldable pub insert_by : A → List A → List A
  insert_by x [] = x ∷ []
  insert_by x (y ∷ ys) = let rest = insert_by x ys in if lt y x then y ∷ rest else x ∷ y ∷ ys

  unfoldable pub sort_by : List A → List A
  unfolding insert_by
  sort_by [] = []
  sort_by (x ∷ xs) = insert_by x (sort_by xs)

  -- Nothing in the list comes before `x`.
  abbrev pub Precedes : A → List A → Type 0
  Precedes x = All (λ y. lt y x ≡ false)

  -- No element comes before one that stands to its left.
  abbrev pub IsSorted : List A → Type 0
  IsSorted [] = Unit {0}
  IsSorted (x ∷ xs) = Precedes x xs × IsSorted xs

  -- What a comparison owes: what comes before is not also after, and not to come before is an order.
  pub record IsOrder : Type ℓ where
    pub asym : (x y : A) → lt x y ≡ true → lt y x ≡ false
    pub trans : (x y z : A) → lt y x ≡ false → lt z y ≡ false → lt z x ≡ false

  insert_by-All {κ} :
      (P : A → Type κ) (x : A) (ys : List A) → P x → All P ys → All P (insert_by x ys)
  unfolding insert_by
  insert_by-All P x [] h hs = (h, tt)
  insert_by-All P x (y ∷ ys) h (hy, hs) = elim (Bool-cases (lt y x)) [
    | inl before ↦ rw before (hy, insert_by-All P x ys h hs)
    | inr after ↦ rw after (h, (hy, hs))
  ]

  pub sort_by-All {κ} : (P : A → Type κ) (xs : List A) → All P xs → All P (sort_by xs)
  unfolding sort_by
  sort_by-All P [] h = tt
  sort_by-All P (x ∷ xs) (h, hs) = insert_by-All P x (sort_by xs) h (sort_by-All P xs hs)

  insert_by-perm : (x : A) (ys : List A) → Perm (insert_by x ys) (x ∷ ys)
  unfolding insert_by
  insert_by-perm x [] = Perm.refl (x ∷ [])
  insert_by-perm x (y ∷ ys) = elim (Bool-cases (lt y x)) [
    | inl before ↦ rw before (Perm.trans (Perm.cons y (insert_by-perm x ys)) (Perm.swap x y ys))
    | inr after ↦ rw after (Perm.refl (x ∷ y ∷ ys))
  ]

  pub sort_by-perm : (xs : List A) → Perm (sort_by xs) xs
  unfolding sort_by
  sort_by-perm [] = Perm.refl []
  sort_by-perm (x ∷ xs) = Perm.trans (insert_by-perm x (sort_by xs)) (Perm.cons x (sort_by-perm xs))

  length-insert_by : (x : A) (ys : List A) → length (insert_by x ys) ≡ length ys + 1
  unfolding insert_by
  length-insert_by x [] = omega arith
  length-insert_by x (y ∷ ys) = ground (arith, length-insert_by x ys)

  pub length-sort_by : (xs : List A) → length (sort_by xs) ≡ length xs
  unfolding sort_by
  length-sort_by [] = refl
  length-sort_by (x ∷ xs) = omega (arith, length-insert_by x (sort_by xs), length-sort_by xs)

  module _ (o : IsOrder) where
    insert_by-IsSorted : (x : A) (ys : List A) → IsSorted ys → IsSorted (insert_by x ys)
    unfolding insert_by
    insert_by-IsSorted x [] s = (tt, tt)
    insert_by-IsSorted x (y ∷ ys) (first, s) = elim (Bool-cases (lt y x)) [
      | inl before ↦ rw before (
        insert_by-All (λ z. lt z y ≡ false) x ys (o.asym y x before) first,
        insert_by-IsSorted x ys s,
      )
      | inr after ↦
          rw after ((after, All-map _ _ ys (λ z h. o.trans x y z after h) first), (first, s))
    ]

    pub sort_by-IsSorted : (xs : List A) → IsSorted (sort_by xs)
    unfolding sort_by
    sort_by-IsSorted [] = tt
    sort_by-IsSorted (x ∷ xs) = insert_by-IsSorted x (sort_by xs) (sort_by-IsSorted xs)

  All-drop {κ} : (P : A → Type κ) (n : ℕ) (xs : List A) → All P xs → All P (drop n xs)
  All-drop P zero xs h = h
  All-drop P (suc n) [] h = tt
  All-drop P (suc n) (x ∷ xs) h = All-drop P n xs h.1

  -- What a sorted list's prefix leaves out comes before nothing in it.
  pub take-drop-IsSorted :
      (n : ℕ) (xs : List A) → IsSorted xs → All (λ x. Precedes x (drop n xs)) (take n xs)
  take-drop-IsSorted zero xs s = tt
  take-drop-IsSorted (suc n) [] s = tt
  take-drop-IsSorted (suc n) (x ∷ xs) (first, s) =
      (All-drop (λ y. lt y x ≡ false) n xs first, take-drop-IsSorted n xs s)

  pub All-take {κ} : (P : A → Type κ) (n : ℕ) (xs : List A) → All P xs → All P (take n xs)
  All-take P zero xs h = tt
  All-take P (suc n) [] h = tt
  All-take P (suc n) (x ∷ xs) h = (h.0, All-take P n xs h.1)

  pub take-IsSorted : (n : ℕ) (xs : List A) → IsSorted xs → IsSorted (take n xs)
  take-IsSorted zero xs s = tt
  take-IsSorted (suc n) [] s = tt
  take-IsSorted (suc n) (x ∷ xs) (first, s) = (All-take _ n xs first, take-IsSorted n xs s)

-- The order of byte arrays and slices, byte by byte: whether `a < b`.
unfoldable pub lex_lt : List ℕ → List ℕ → Bool
lex_lt [] [] = false
lex_lt [] (b ∷ bs) = true
lex_lt (a ∷ as') [] = false
lex_lt (a ∷ as') (b ∷ bs) = if ltb a b then true else if eqb a b then lex_lt as' bs else false

pub lex_lt-asym : (a b : List ℕ) → lex_lt a b ≡ true → lex_lt b a ≡ false
unfolding lex_lt
lex_lt-asym [] [] h = cc
lex_lt-asym [] (b ∷ bs) h = refl
lex_lt-asym (a ∷ as') [] h = cc
lex_lt-asym (a ∷ as') (b ∷ bs) h = ground (arith, h, lex_lt-asym as' bs)

lex_lt-total : (a b : List ℕ) → lex_lt a b ≡ false → lex_lt b a ≡ false → a ≡ b
unfolding lex_lt
lex_lt-total [] [] h k = refl
lex_lt-total [] (b ∷ bs) h k = cc
lex_lt-total (a ∷ as') [] h k = cc
lex_lt-total (a ∷ as') (b ∷ bs) h k = ground (arith, h, k, lex_lt-total as' bs)

pub lex_lt_trans : (a b c : List ℕ) → lex_lt b a ≡ false → lex_lt c b ≡ false → lex_lt c a ≡ false
unfolding lex_lt
lex_lt_trans [] [] c h k = k
lex_lt_trans [] (b ∷ bs) [] h k = cc
lex_lt_trans [] (b ∷ bs) (c ∷ cs) h k = refl
lex_lt_trans (a ∷ as') [] c h k = cc
lex_lt_trans (a ∷ as') (b ∷ bs) [] h k = cc
lex_lt_trans (a ∷ as') (b ∷ bs) (c ∷ cs) h k = ground (arith, h, k, lex_lt_trans as' bs cs)
