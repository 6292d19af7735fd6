-- ===== src/Bytes/RoundTrip.antt =====
-- Reading a big-endian number back, and when a read has enough bytes.
use tortillas.Prelude.{ℕ, ◌+◌, ◌≤◌, ◌≡◌, refl, arith}
use tortillas.Prelude.{some, List, [], ◌∷◌, ◌++◌, length, All}
use tortillas.Bytes.{
  IsByte, IsU16, IsU32, IsU64, u16_be, u32_be, u64_be, get_u8, get_u16, get_u32, get_u64,
}

pub get_u16-u16_be : (v : ℕ) (rest : List ℕ) → IsU16 v → get_u16 (u16_be v ++ rest) ≡ some (v, rest)
unfolding get_u16
get_u16-u16_be v rest h = ground arith

pub get_u32-u32_be : (v : ℕ) (rest : List ℕ) → IsU32 v → get_u32 (u32_be v ++ rest) ≡ some (v, rest)
unfolding get_u32
get_u32-u32_be v rest h = ground arith

pub get_u64-u64_be : (v : ℕ) (rest : List ℕ) → IsU64 v → get_u64 (u64_be v ++ rest) ≡ some (v, rest)
unfolding get_u64
get_u64-u64_be v rest h = ground arith

pub u16_be-IsByte : (v : ℕ) → All IsByte (u16_be v)
u16_be-IsByte v = omega arith

pub u32_be-IsByte : (v : ℕ) → All IsByte (u32_be v)
u32_be-IsByte v = omega arith

-- A read with enough bytes succeeds, and takes its width.
pub get_u8_enough :
    (bytes : List ℕ)
    → 1 ≤ length bytes
    → (v : ℕ) × (rest : List ℕ) × (get_u8 bytes ≡ some (v, rest)) × (length bytes ≡ length rest + 1)
unfolding get_u8
get_u8_enough [] h = absurd (omega arith)
get_u8_enough (a ∷ rest) h = (a, rest, refl, omega arith)

pub get_u32_enough :
    (bytes : List ℕ)
    → 4 ≤ length bytes
    → (v : ℕ) × (rest : List ℕ) × (get_u32 bytes ≡ some (v, rest))
      × (length bytes ≡ length rest + 4)
unfolding get_u32
get_u32_enough [] h = absurd (omega arith)
get_u32_enough (a ∷ []) h = absurd (omega arith)
get_u32_enough (a ∷ b ∷ []) h = absurd (omega arith)
get_u32_enough (a ∷ b ∷ c ∷ []) h = absurd (omega arith)
get_u32_enough (a ∷ b ∷ c ∷ d ∷ rest) h = (_, rest, refl, omega arith)

pub get_u64_enough :
    (bytes : List ℕ)
    → 8 ≤ length bytes
    → (v : ℕ) × (rest : List ℕ) × (get_u64 bytes ≡ some (v, rest))
      × (length bytes ≡ length rest + 8)
unfolding get_u64
get_u64_enough (a ∷ b ∷ c ∷ d ∷ e ∷ f ∷ g ∷ h ∷ rest) _ = (_, rest, refl, omega arith)
get_u64_enough bytes h = absurd (ground (arith, h))
