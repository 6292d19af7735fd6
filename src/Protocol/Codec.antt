-- ===== src/Protocol/Codec.antt =====
-- protocol/messages.rs: `PeerMessages::encode`, `to_bytes` and `from_bytes`.
pub mod Frame
pub mod RoundTrip
pub mod Panics
use Prim.Native.String.{String}
use tortillas.Prelude.{
  ℕ, zero, suc, ◌+◌, ◌-◌, ◌%◌, ◌^◌, Bool, true, false, ◌&&◌, Option, none, some, List, [], ◌∷◌,
  ◌++◌, length, take, drop, ltb, leb, eqb, list_eqb, nat_eq, if◌then◌else◌,
}
use tortillas.Prelude.Outcome.{Outcome, ok, err, panicked, ensure, unwrap, map_err, ◌>>=◌, ◌>>◌}
use tortillas.Bytes.{u32_be, get_u8, get_u32, slice, slice_is}
use tortillas.Protocol.Message.{
  ExtendedMessage, Handshake, PeerMessages, choke, unchoke, interested, not_interested, have,
  bitfield, request, piece, cancel, extended, handshake, keep_alive, PeerActorError,
  handshake_failed, message_parsing_failed, message_too_short, invalid_message_payload,
  magic_string,
}
use tortillas.Protocol.Bitfield.{encode_bitfield, decode_bitfield}
use tortillas.Protocol.Bencode.{Bencode, get_extended_message_length}
use tortillas.Protocol.Handshake

abbrev pub Decoded : Type 0 → Type 0
Decoded A = Outcome PeerActorError A

pub data EncodedPeerMessage : Type 0 where
  contiguous : List ℕ → EncodedPeerMessage
  split : List ℕ → List ℕ → EncodedPeerMessage

unfoldable pub into_bytes : EncodedPeerMessage → List ℕ
into_bytes (contiguous bytes) = bytes
into_bytes (split header block) = header ++ block

-- `length as u32` wraps.
unfoldable pub create_message_with_id : ℕ → List ℕ → List ℕ
create_message_with_id id payload = u32_be ((1 + length payload) % 2 ^ 32) ++ id ∷ payload

unfoldable pub create_message_with_triplet : ℕ → ℕ → ℕ → ℕ → List ℕ
create_message_with_triplet id first second third =
    u32_be 13 ++ id ∷ (u32_be first ++ (u32_be second ++ u32_be third))

-- `checked_add` on a 64-bit `usize`, then `u32::try_from`.
unfoldable pub create_piece_header : ℕ → ℕ → ℕ → Decoded (List ℕ)
create_piece_header index begin block_length =
    if ltb (block_length + 9) (2 ^ 64) && ltb (block_length + 9) (2 ^ 32)
    then ok (u32_be (block_length + 9) ++ 7 ∷ (u32_be index ++ u32_be begin))
    else err (invalid_message_payload "Piece length exceeds the protocol limit")

abbrev pub option_bytes : Option (List ℕ) → List ℕ
option_bytes none = []
option_bytes (some bytes) = bytes

parse_triplet : List ℕ → Decoded (ℕ × ℕ × ℕ)
parse_triplet payload =
    if eqb (length payload) 12
    then (do
      (first, rest) ← unwrap (get_u32 payload)
      (second, rest) ← unwrap (get_u32 rest)
      (third, rest) ← unwrap (get_u32 rest)
      ok (first, second, third))
    else err (invalid_message_payload "triplet")

decode_have : List ℕ → Decoded PeerMessages
decode_have payload =
    if eqb (length payload) 4
    then (do (index, _) ← unwrap (get_u32 payload); ok (have index))
    else err (invalid_message_payload "Have")

decode_piece : List ℕ → Decoded PeerMessages
decode_piece payload = if ltb (length payload) 8 then err (invalid_message_payload "Piece") else (do
  (index, rest) ← unwrap (get_u32 payload)
  (begin, block) ← unwrap (get_u32 rest)
  ok (piece index begin block))

decode_triplet : String → (ℕ → ℕ → ℕ → PeerMessages) → List ℕ → Decoded PeerMessages
decode_triplet name build payload =
    if eqb (length payload) 12
    then (do (index, begin, len) ← parse_triplet payload; ok (build index begin len))
    else err (invalid_message_payload name)

-- `bytes[0] as usize == MAGIC_STRING.len() && &bytes[1..20] == MAGIC_STRING`, past 68 bytes.
abbrev pub is_handshake : List ℕ → Bool
is_handshake bytes =
    leb 68 (length bytes) && (slice_is 0 1 bytes (19 ∷ []) && slice_is 1 20 bytes magic_string)

module _ (bencode : Bencode) where
  -- `serde_bencode::to_bytes(inner).unwrap()`.
  abbrev pub extended_bytes : Option ExtendedMessage → Decoded (List ℕ)
  extended_bytes none = ok []
  extended_bytes (some inner) = unwrap (bencode.to_bytes inner)

  unfoldable pub encode : PeerMessages → Decoded EncodedPeerMessage
  encode (handshake h) = ok (contiguous (Handshake.to_bytes h))
  encode choke = ok (contiguous (create_message_with_id 0 []))
  encode unchoke = ok (contiguous (create_message_with_id 1 []))
  encode interested = ok (contiguous (create_message_with_id 2 []))
  encode not_interested = ok (contiguous (create_message_with_id 3 []))
  encode (have index) = ok (contiguous (create_message_with_id 4 (u32_be index)))
  encode (bitfield bits) = ok (contiguous (create_message_with_id 5 (encode_bitfield bits)))
  encode (request index begin len) = ok (contiguous (create_message_with_triplet 6 index begin len))
  encode (cancel index begin len) = ok (contiguous (create_message_with_triplet 8 index begin len))
  encode (piece index begin block) = do
    header ← create_piece_header index begin (length block)
    ok (split header block)
  encode (extended extended_id message metadata) = do
    inner ← extended_bytes message
    ok (contiguous (create_message_with_id 20 (extended_id ∷ (inner ++ option_bytes metadata))))
  encode keep_alive = ok (contiguous (0 ∷ 0 ∷ 0 ∷ 0 ∷ []))

  unfoldable pub to_bytes : PeerMessages → Decoded (List ℕ)
  unfolding encode into_bytes
  to_bytes m = do encoded ← encode m; ok (into_bytes encoded)

  -- The branch of id 20. `slice` panics where the counted length passes the payload.
  decode_extended : List ℕ → Decoded PeerMessages
  decode_extended payload = do
    (extended_id, rest) ← unwrap (get_u8 payload)
    let len = get_extended_message_length bencode rest
    if eqb (length rest) 0
        then ok (extended extended_id none none)
        else if eqb len (length rest)
        then (do
          message ← map_err message_parsing_failed (bencode.from_bytes rest)
          ok (extended extended_id (some message) none))
        else if ltb (length rest) len
        then panicked
        else (do
          message ← map_err message_parsing_failed (bencode.from_bytes (take len rest))
          ok (extended extended_id (some message) (some (drop len rest))))

  -- `match id`.
  pub decode_payload : ℕ → List ℕ → Decoded PeerMessages
  decode_payload id payload =
      if eqb id 0
      then ok choke
      else if eqb id 1
      then ok unchoke
      else if eqb id 2
      then ok interested
      else if eqb id 3
      then ok not_interested
      else if eqb id 4
      then decode_have payload
      else if eqb id 5
      then ok (bitfield (decode_bitfield payload))
      else if eqb id 6
      then decode_triplet "Request" request payload
      else if eqb id 7
      then decode_piece payload
      else if eqb id 8
      then decode_triplet "Cancel" cancel payload
      else if eqb id 20
      then decode_extended payload
      else err (message_parsing_failed "Unknown message type")

  -- The length prefix, the id and the payload.
  pub decode_frame : List ℕ → Decoded PeerMessages
  decode_frame bytes =
      let bytes_len = length bytes in
      do
        ensure (leb 4 bytes_len) (message_too_short 4 bytes_len)
        (len, bytes) ← unwrap (get_u32 bytes)
        ensure (leb (4 + len) bytes_len) (message_too_short (4 + len) bytes_len)
        if eqb len 0 then ok keep_alive else do
          ensure (leb 1 len) (invalid_message_payload "Unknown")
          (id, bytes) ← unwrap (get_u8 bytes)
          decode_payload id (take (len - 1) bytes)

  pub from_bytes : List ℕ → Decoded PeerMessages
  from_bytes bytes =
      if is_handshake bytes
      then (do h ← map_err handshake_failed (Handshake.from_bytes bytes); ok (handshake h))
      else decode_frame bytes
