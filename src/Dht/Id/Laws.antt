-- ===== src/Dht/Id/Laws.antt =====
-- The laws of distances and buckets.
use Prim.Native.Nat.{bit_xor}
use tortillas.Prelude.{
  ℕ, zero, suc, ◌+◌, ◌≤◌, ◌<◌, ◌≡◌, ◌↔◌, refl, arith, Bool, true, false, if◌then◌else◌, none, some,
  [], ◌∷◌, length, All, eqb, eqb_iff, bool_eqb, bool_eqb_iff,
}
use tortillas.Bytes.{IsByte}
use tortillas.Prelude.Sort.{lex_lt-asym, lex_lt_trans}
use tortillas.Dht.Id.{
  NodeId, Distance, distance, significant_bit, bucket_loop, bucket_index, distance_lt,
}

-- A test of the numbers under a bound, run by computation.
abbrev passes : (ℕ → Bool) → ℕ → Bool
passes test zero = true
passes test (suc bound) = let lower = passes test bound in if test bound then lower else false

passes-lt : (test : ℕ → Bool) (bound i : ℕ) → i < bound → passes test bound ≡ true → test i ≡ true
passes-lt test zero i l h = absurd (omega arith)
passes-lt test (suc bound) i l h = ground (arith, passes-lt test bound i)

-- Two bytes differ where their exclusive or is not zero.
abbrev agrees : ℕ → ℕ → Bool
agrees left right = bool_eqb (eqb (bit_xor left right) 0) (eqb left right)

bytes_agree : passes (λ left. passes (agrees left) 256) 256 ≡ true
bytes_agree = refl

xor-zero : (a b : ℕ) → IsByte a → IsByte b → eqb (bit_xor a b) 0 ≡ eqb a b
xor-zero a b ha hb =
    let row = passes-lt (λ left. passes (agrees left) 256) 256 a ha bytes_agree in
    (bool_eqb_iff _ _).0 (passes-lt (agrees a) 256 b hb row)

-- Distances are zero only between equal ids, so only the own id has no bucket.
bucket_loop-none :
    (i : ℕ) (a b : NodeId)
    → length a ≡ length b
    → All IsByte a
    → All IsByte b
    → (bucket_loop i (distance a b) ≡ none) ↔ (a ≡ b)
unfolding bucket_loop distance
bucket_loop-none i [] [] l ha hb = (λ h. refl, λ h. refl)
bucket_loop-none i [] (b ∷ bs) l ha hb = absurd (omega arith)
bucket_loop-none i (a ∷ as') [] l ha hb = absurd (omega arith)
bucket_loop-none i (a ∷ as') (b ∷ bs) l (ha, has) (hb, hbs) =
    ground (
      arith,
      xor-zero a b ha hb,
      eqb_iff a b,
      bucket_loop-none (i + 1) as' bs (omega arith) has hbs,
    )

bucket_index-none :
    (a b : NodeId)
    → length a ≡ length b
    → All IsByte a
    → All IsByte b
    → (bucket_index (distance a b) ≡ none) ↔ (a ≡ b)
unfolding bucket_index
bucket_index-none a b l ha hb = bucket_loop-none 0 a b l ha hb

pub length-distance : (a b : NodeId) → length a ≡ length b → length (distance a b) ≡ length a
unfolding distance
length-distance [] [] l = refl
length-distance [] (b ∷ bs) l = refl
length-distance (a ∷ as') [] l = absurd (omega arith)
length-distance (a ∷ as') (b ∷ bs) l = omega (arith, length-distance as' bs (omega arith))

significant_bit-lt : (byte : ℕ) → significant_bit byte < 8
unfolding significant_bit
significant_bit-lt byte = ground arith

bucket_loop-lt :
    (i : ℕ) (d : Distance) (k : ℕ) → i + length d ≤ 20 → bucket_loop i d ≡ some k → k < 160
unfolding bucket_loop
bucket_loop-lt i [] k l h = cc
bucket_loop-lt i (byte ∷ d) k l h =
    ground (arith, h, significant_bit-lt byte, bucket_loop-lt (i + 1) d k)

-- A distance of twenty bytes falls into one of 160 buckets.
pub bucket_index-lt : (d : Distance) (k : ℕ) → length d ≤ 20 → bucket_index d ≡ some k → k < 160
unfolding bucket_index
bucket_index-lt d k l h = bucket_loop-lt 0 d k (omega arith) h

pub distance_lt-asym : (a b : Distance) → distance_lt a b ≡ true → distance_lt b a ≡ false
unfolding distance_lt
distance_lt-asym = lex_lt-asym

pub distance_lt_trans :
    (a b c : Distance) → distance_lt b a ≡ false → distance_lt c b ≡ false → distance_lt c a ≡ false
unfolding distance_lt
distance_lt_trans = lex_lt_trans
