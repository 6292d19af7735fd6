-- ===== src/Protocol/Codec/Frame.antt =====
-- Reading back one frame: a length prefix, an id and a payload.
use tortillas.Prelude.{
  ℕ, ◌+◌, ◌*◌, ◌^◌, ◌<◌, ◌≡◌, refl, arith, false, List, [], ◌∷◌, ◌++◌, length, length-append,
  take-append,
}
use tortillas.Bytes.{u32_be, get_u8, get_u32}
use tortillas.Bytes.RoundTrip.{get_u32-u32_be}
use tortillas.Prelude.Outcome.{ok}
use tortillas.Protocol.Message.{keep_alive}
use tortillas.Protocol.Bencode.{Bencode}
use tortillas.Protocol.Codec.{from_bytes, decode_frame, decode_payload, is_handshake}

-- The largest frame that cannot be taken for a handshake, whose first byte is 19.
abbrev pub frame_limit : ℕ
frame_limit = 19 * 2 ^ 24

abbrev pub frame : ℕ → List ℕ → List ℕ
frame id payload = u32_be (1 + length payload) ++ id ∷ payload

pub is_handshake-u32_be :
    (len : ℕ) (rest : List ℕ) → len < frame_limit → is_handshake (u32_be len ++ rest) ≡ false
is_handshake-u32_be len rest h = ground arith

module _ (bencode : Bencode) where
  pub decode_frame-frame :
      (id : ℕ) (payload rest : List ℕ)
      → 1 + length payload < frame_limit
      → decode_frame bencode (frame id payload ++ rest) ≡ decode_payload bencode id payload
  unfolding decode_frame get_u8
  decode_frame-frame id payload rest h = ground (
    arith,
    get_u32-u32_be (1 + length payload) ((id ∷ payload) ++ rest),
    take-append payload rest,
    length-append payload rest,
  )

  pub from_bytes-keep_alive : from_bytes bencode (0 ∷ 0 ∷ 0 ∷ 0 ∷ []) ≡ ok keep_alive
  unfolding from_bytes decode_frame get_u32
  from_bytes-keep_alive = refl
