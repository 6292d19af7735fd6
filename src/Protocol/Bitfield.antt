-- ===== src/Protocol/Bitfield.antt =====
-- protocol/messages.rs: `encode_bitfield` and `decode_bitfield`. A `BitVec` is a list of Booleans.
pub mod RoundTrip
use Prim.Native.Nat.{bit_and, bit_or}
use tortillas.Prelude.{
  ℕ, zero, suc, ◌+◌, ◌-◌, ◌/◌, ◌%◌, ◌^◌, Bool, not, List, [], ◌∷◌, ◌++◌, map, length, replicate,
  eqb, if◌then◌else◌,
}

-- `payload[k] |= mask`.
or_at : List ℕ → ℕ → ℕ → List ℕ
or_at [] k mask = []
or_at (b ∷ bs) zero mask = bit_or b mask ∷ bs
or_at (b ∷ bs) (suc k) mask = b ∷ or_at bs k mask

-- The loop over the bits, at `piece_index`.
encode_bits : ℕ → List Bool → List ℕ → List ℕ
encode_bits piece_index [] payload = payload
encode_bits piece_index (available ∷ bits) payload =
    encode_bits (piece_index + 1) bits
      (if available then or_at payload (piece_index / 8) (2 ^ (7 - piece_index % 8)) else payload)

-- `len.div_ceil(8)`.
abbrev pub byte_count : ℕ → ℕ
byte_count n = (n + 7) / 8

pub encode_bitfield : List Bool → List ℕ
unfolding encode_bits or_at
encode_bitfield bits = encode_bits 0 bits (replicate (byte_count (length bits)) 0)

-- `for shift in (0..8).rev()`.
byte_bits : ℕ → List Bool
byte_bits byte =
    map (λ shift. not (eqb (bit_and byte (2 ^ shift)) 0)) (7 ∷ 6 ∷ 5 ∷ 4 ∷ 3 ∷ 2 ∷ 1 ∷ 0 ∷ [])

pub decode_bitfield : List ℕ → List Bool
decode_bitfield [] = []
decode_bitfield (byte ∷ payload) = byte_bits byte ++ decode_bitfield payload
