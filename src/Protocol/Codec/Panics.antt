-- ===== src/Protocol/Codec/Panics.antt =====
-- When `from_bytes` panics.
use tortillas.Prelude.{
  ℕ, ◌+◌, ◌-◌, ◌*◌, ◌^◌, ◌≤◌, ◌≡◌, ◌≢◌, ◌↔◌, refl, ap, arith, false, List, [], ◌∷◌, length,
  length-take, take, All,
}
use tortillas.Prelude.Outcome.{panicked}
use tortillas.Bytes.{IsByte, get_u8, get_u32}
use tortillas.Protocol.Message.{PeerMessages, request, cancel}
use tortillas.Protocol.Bencode.{Bencode, message_length_loop, get_extended_message_length}
use tortillas.Protocol.Bencode.Length.{events_length, message_length_loop-le}
use tortillas.Protocol.Handshake as Shake
use tortillas.Protocol.Codec.{
  from_bytes, decode_payload, decode_frame, decode_have, decode_piece, decode_triplet,
  parse_triplet, decode_extended, is_handshake,
}

-- What the decoder relies on: the parser returns, and its events stand for bytes of its input.
pub record IsParser (b : Bencode) : Type 0 where
  pub returns : (bytes : List ℕ) → b.from_bytes bytes ≢ panicked
  pub within : (bytes : List ℕ) → events_length (b.events bytes) ≤ length bytes

parse_triplet-ne-panicked : (payload : List ℕ) → parse_triplet payload ≢ panicked
unfolding parse_triplet get_u32
parse_triplet-ne-panicked payload h = ground arith

decode_triplet-ne-panicked :
    (name : _) (build : ℕ → ℕ → ℕ → PeerMessages) (payload : List ℕ)
    → decode_triplet name build payload ≢ panicked
unfolding decode_triplet
decode_triplet-ne-panicked name build payload h = ground (arith, parse_triplet-ne-panicked payload)

decode_have-ne-panicked : (payload : List ℕ) → decode_have payload ≢ panicked
unfolding decode_have get_u32
decode_have-ne-panicked payload h = ground arith

decode_piece-ne-panicked : (payload : List ℕ) → decode_piece payload ≢ panicked
unfolding decode_piece get_u32
decode_piece-ne-panicked payload h = ground arith

-- The branch of id 20 panics only where the extended id is missing.
decode_extended-panicked :
    (b : Bencode) (payload : List ℕ)
    → IsParser b
    → decode_extended b payload ≡ panicked
    → payload ≡ []
unfolding decode_extended get_u8 get_extended_message_length
decode_extended-panicked b [] w h = refl
decode_extended-panicked b (id ∷ rest) w h = absurd (
    ground (
      arith,
      h,
      message_length_loop-le (b.events rest) 0 0,
      w.within rest,
      w.returns rest,
      w.returns (take (message_length_loop 0 0 (b.events rest)) rest),
    ))

decode_payload-panicked :
    (b : Bencode) (id : ℕ) (payload : List ℕ)
    → IsParser b
    → decode_payload b id payload ≡ panicked
    → (id ≡ 20) × (payload ≡ [])
unfolding decode_payload
decode_payload-panicked b id payload w h = ground (
  arith,
  decode_extended-panicked b payload w,
  decode_have-ne-panicked payload,
  decode_piece-ne-panicked payload,
  decode_triplet-ne-panicked "Request" request payload,
  decode_triplet-ne-panicked "Cancel" cancel payload,
)

handshake-ne-panicked : (bytes : List ℕ) → Shake.from_bytes bytes ≢ panicked
unfolding Shake.from_bytes
handshake-ne-panicked [] h = cc
handshake-ne-panicked (n ∷ bytes) h = ground arith

decode_frame-panicked :
    (b : Bencode) (bytes : List ℕ)
    → IsParser b
    → All IsByte bytes
    → decode_frame b bytes ≡ panicked
    → (rest : List ℕ) × (bytes ≡ 0 ∷ 0 ∷ 0 ∷ 1 ∷ 20 ∷ rest)
unfolding decode_frame get_u32 get_u8
decode_frame-panicked b [] w bs h = absurd (ground (arith, h))
decode_frame-panicked b (x ∷ []) w bs h = absurd (ground (arith, h))
decode_frame-panicked b (x ∷ y ∷ []) w bs h = absurd (ground (arith, h))
decode_frame-panicked b (x ∷ y ∷ z ∷ []) w bs h = absurd (ground (arith, h))
decode_frame-panicked b (x ∷ y ∷ z ∷ v ∷ []) w bs h = absurd (ground (arith, h))
decode_frame-panicked b (x ∷ y ∷ z ∷ v ∷ id ∷ rest) w bs h =
    let len = x * 2 ^ 24 + y * 2 ^ 16 + z * 2 ^ 8 + v in
    let payload = take (len - 1) rest in
    let fact : (len ≢ 0) × (len ≤ 1 + length rest) × (id ≡ 20) × (payload ≡ []) = (
      ground (arith, h),
      ground (arith, h),
      ground (arith, h, decode_payload-panicked b id payload w),
      ground (arith, h, decode_payload-panicked b id payload w),
    ) in
    let one : len ≡ 1 =
      omega (arith, length-take (len - 1) rest, ap (λ (l : List ℕ). length l) fact.3) in
    (rest, ground (arith, one, fact.2))

-- `from_bytes` panics on an extended message that ends before its extended id, whatever follows it,
-- and, over a parser that returns and counts no more bytes than it is given, on no other input.
pub from_bytes-panicked :
    (b : Bencode) (bytes : List ℕ)
    → IsParser b
    → All IsByte bytes
    → (from_bytes b bytes ≡ panicked) ↔ ((rest : List ℕ) × (bytes ≡ 0 ∷ 0 ∷ 0 ∷ 1 ∷ 20 ∷ rest))
unfolding from_bytes
from_bytes-panicked b bytes w bs = (only, panics)
  where
    not_handshake : from_bytes b bytes ≡ panicked → is_handshake bytes ≡ false
    not_handshake h = ground (arith, h, handshake-ne-panicked bytes)

    only : from_bytes b bytes ≡ panicked → (rest : List ℕ) × (bytes ≡ 0 ∷ 0 ∷ 0 ∷ 1 ∷ 20 ∷ rest)
    only h = decode_frame-panicked b bytes w bs (rw (not_handshake h) at h)

    panics : (rest : List ℕ) × (bytes ≡ 0 ∷ 0 ∷ 0 ∷ 1 ∷ 20 ∷ rest) → from_bytes b bytes ≡ panicked
    panics (rest, e) =
        rw e (unfold decode_frame get_u32 get_u8 decode_payload decode_extended in ground arith)
