-- ===== src/Prelude/Equality.antt =====
-- Decidable equality by a Boolean test (`PartialEq` and `Eq`), as an instance argument.
use Prim.Native.Nat.{ℕ}
use Prim.Native.String.{String}
use mathlib.Core.Path.{◌≡◌, refl}
use mathlib.Core.Logic.{◌↔◌}
use mathlib.Core.Bool.{Bool, true, false, not, ◌&&◌}
use mathlib.Core.List.{List, [], ◌∷◌}
use native.Mathlib.Omega.{arith}
use text.Mathlib.Text.{◌==◌ as str_eq}
use text.Mathlib.TextEquality.{eq_iff}
use tortillas.Prelude.Tests.{eqb, eqb_iff}

-- A type whose values a program can compare.
pub record PartialEq {κ} (T : Type κ) : Type κ where
  pub is_same : T → T → Bool
  pub is_same_iff : (x y : T) → (is_same x y ≡ true) ↔ (x ≡ y)

abbrev pub ◌==◌ {κ} : {T : Type κ} ⦃p : PartialEq T⦄ → T → T → Bool
◌==◌ ⦃p⦄ = p.is_same

infix 50 ◌==◌
instance abbrev pub string_eq : PartialEq String
string_eq = record { is_same_iff = eq_iff; is_same = str_eq }

instance abbrev pub nat_eq : PartialEq ℕ
nat_eq = record { is_same_iff = eqb_iff; is_same = eqb }

abbrev pub bool_eqb : Bool → Bool → Bool
bool_eqb true b = b
bool_eqb false b = not b

pub bool_eqb_iff : (a b : Bool) → (bool_eqb a b ≡ true) ↔ (a ≡ b)
bool_eqb_iff a b = ground arith

instance abbrev pub bool_eq : PartialEq Bool
bool_eq = record { is_same = bool_eqb; is_same_iff = bool_eqb_iff }

abbrev pub list_eqb {ℓ} : {A : Type ℓ} ⦃e : PartialEq A⦄ → List A → List A → Bool
list_eqb [] [] = true
list_eqb [] (y ∷ ys) = false
list_eqb (x ∷ xs) [] = false
list_eqb (x ∷ xs) (y ∷ ys) = x == y && list_eqb xs ys

pub list_eqb_iff {ℓ} :
    {A : Type ℓ} ⦃e : PartialEq A⦄ (xs ys : List A) → (list_eqb xs ys ≡ true) ↔ (xs ≡ ys)
list_eqb_iff [] [] = (λ _. refl, λ _. refl)
list_eqb_iff [] (y ∷ ys) = (λ h. cc, λ h. cc)
list_eqb_iff (x ∷ xs) [] = (λ h. cc, λ h. cc)
list_eqb_iff ⦃e⦄ (x ∷ xs) (y ∷ ys) = ground (arith, e.is_same_iff x y, list_eqb_iff xs ys)

instance abbrev pub list_eq {ℓ} : {A : Type ℓ} ⦃e : PartialEq A⦄ → PartialEq (List A)
list_eq = record { is_same = list_eqb; is_same_iff = list_eqb_iff }

abbrev pub pair_eqb {ℓ κ} :
    {A : Type ℓ} {B : Type κ} ⦃d : PartialEq A⦄ ⦃e : PartialEq B⦄ → A × B → A × B → Bool
pair_eqb p q = p.0 == q.0 && p.1 == q.1

pub pair_eqb_iff {ℓ κ} :
    {A : Type ℓ} {B : Type κ} ⦃d : PartialEq A⦄ ⦃e : PartialEq B⦄ (p q : A × B)
    → (pair_eqb p q ≡ true) ↔ (p ≡ q)
pair_eqb_iff ⦃d⦄ ⦃e⦄ (a, b) (c, f) = ground (arith, d.is_same_iff a c, e.is_same_iff b f)

instance abbrev pub pair_eq {ℓ κ} :
    {A : Type ℓ} {B : Type κ} ⦃d : PartialEq A⦄ ⦃e : PartialEq B⦄ → PartialEq (A × B)
pair_eq = record { is_same = pair_eqb; is_same_iff = pair_eqb_iff }

pub is_same_refl {ℓ} : {A : Type ℓ} ⦃e : PartialEq A⦄ (a : A) → (a == a) ≡ true
is_same_refl ⦃e⦄ a = (e.is_same_iff a a).1 refl
