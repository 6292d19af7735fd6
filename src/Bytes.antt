-- ===== src/Bytes.antt =====
-- Byte strings. `Bytes`, `BytesMut` and `&[u8]` are lists of numbers below 256; reading past the
-- end, where `Buf::get_u8` and its kin panic, is `none`.
pub mod RoundTrip
use tortillas.Prelude.{
  ℕ, ◌+◌, ◌-◌, ◌*◌, ◌/◌, ◌%◌, ◌^◌, ◌<◌, Option, none, some, List, [], ◌∷◌, ◌++◌,
}
use tortillas.Prelude.{Bool, take, drop, list_eqb, nat_eq}

abbrev pub IsByte : ℕ → Type 0
IsByte b = b < 256

abbrev pub IsU16 : ℕ → Type 0
IsU16 v = v < 2 ^ 16

abbrev pub IsU32 : ℕ → Type 0
IsU32 v = v < 2 ^ 32

abbrev pub IsU64 : ℕ → Type 0
IsU64 v = v < 2 ^ 64

-- `to_be_bytes`, `put_u16`, `put_u32`, `put_u64`.
abbrev pub u16_be : ℕ → List ℕ
u16_be v = (v / 2 ^ 8 % 256) ∷ (v % 256) ∷ []

abbrev pub u32_be : ℕ → List ℕ
u32_be v = (v / 2 ^ 24 % 256) ∷ (v / 2 ^ 16 % 256) ∷ (v / 2 ^ 8 % 256) ∷ (v % 256) ∷ []

abbrev pub u64_be : ℕ → List ℕ
u64_be v =
    (v / 2 ^ 56 % 256)
    ∷ (v / 2 ^ 48 % 256)
    ∷ (v / 2 ^ 40 % 256)
    ∷ (v / 2 ^ 32 % 256)
    ∷ (v / 2 ^ 24 % 256)
    ∷ (v / 2 ^ 16 % 256)
    ∷ (v / 2 ^ 8 % 256)
    ∷ (v % 256)
    ∷ []

-- `Buf::get_u8`, `get_u16`, `get_u32`, `get_u64`: the number and what follows it.
unfoldable pub get_u8 : List ℕ → Option (ℕ × List ℕ)
get_u8 (a ∷ rest) = some (a, rest)
get_u8 _ = none

unfoldable pub get_u16 : List ℕ → Option (ℕ × List ℕ)
get_u16 (a ∷ b ∷ rest) = some (a * 2 ^ 8 + b, rest)
get_u16 _ = none

unfoldable pub get_u32 : List ℕ → Option (ℕ × List ℕ)
get_u32 (a ∷ b ∷ c ∷ d ∷ rest) = some (a * 2 ^ 24 + b * 2 ^ 16 + c * 2 ^ 8 + d, rest)
get_u32 _ = none

unfoldable pub get_u64 : List ℕ → Option (ℕ × List ℕ)
get_u64 (a ∷ b ∷ c ∷ d ∷ e ∷ f ∷ g ∷ h ∷ rest) = some (
  a * 2 ^ 56 + b * 2 ^ 48 + c * 2 ^ 40 + d * 2 ^ 32 + e * 2 ^ 24 + f * 2 ^ 16 + g * 2 ^ 8 + h,
  rest,
)
get_u64 _ = none

-- `bytes[a..b]`, where `b` is in range.
abbrev pub slice : ℕ → ℕ → List ℕ → List ℕ
slice a b bytes = take (b - a) (drop a bytes)

-- `&bytes[a..b] == literal`.
abbrev pub slice_is : ℕ → ℕ → List ℕ → List ℕ → Bool
slice_is a b bytes literal = list_eqb (slice a b bytes) literal
