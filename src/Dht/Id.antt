-- ===== src/Dht/Id.antt =====
-- dht/id.rs: node ids, their XOR distance and the bucket that a distance falls into.
pub mod Laws
use Prim.Native.Nat.{bit_xor}
use tortillas.Prelude.{
  ℕ, ◌+◌, ◌-◌, ◌*◌, Bool, true, false, Option, none, some, List, [], ◌∷◌, ltb, eqb, if◌then◌else◌,
}
use tortillas.Prelude.Sort.{lex_lt}

-- A `NodeId` is its bytes, twenty of them.
abbrev pub NodeId : Type 0
NodeId = List ℕ

abbrev pub dht_id_len : ℕ
dht_id_len = 20

-- A `Distance` is its bytes.
abbrev pub Distance : Type 0
Distance = List ℕ

unfoldable pub distance : NodeId → NodeId → Distance
distance (left ∷ xs) (right ∷ ys) = bit_xor left right ∷ distance xs ys
distance _ _ = []

-- `7 - byte.leading_zeros()` of a byte that is not zero.
unfoldable pub significant_bit : ℕ → ℕ
significant_bit byte =
    if ltb byte 2
    then 0
    else if ltb byte 4
    then 1
    else if ltb byte 8
    then 2
    else if ltb byte 16
    then 3
    else if ltb byte 32
    then 4
    else if ltb byte 64
    then 5
    else if ltb byte 128
    then 6
    else 7

-- The loop of `bucket_index`, from `byte_index` on.
unfoldable pub bucket_loop : ℕ → Distance → Option ℕ
bucket_loop byte_index [] = none
bucket_loop byte_index (byte ∷ bytes) =
    if eqb byte 0
    then bucket_loop (byte_index + 1) bytes
    else some ((dht_id_len - 1 - byte_index) * 8 + significant_bit byte)

unfoldable pub bucket_index : Distance → Option ℕ
bucket_index bytes = bucket_loop 0 bytes

-- The derived order of `Distance`: whether `a < b`, byte by byte.
unfoldable pub distance_lt : Distance → Distance → Bool
distance_lt = lex_lt
