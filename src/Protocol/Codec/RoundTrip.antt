-- ===== src/Protocol/Codec/RoundTrip.antt =====
-- `from_bytes` on what `to_bytes` writes.
use mathlib.Core.List.{append-nil}
use tortillas.Prelude.{
  ℕ, ◌+◌, ◌%◌, ◌^◌, ◌<◌, ◌≡◌, refl, ◌∙◌, arith, true, false, Option, none, some, List, [], ◌∷◌,
  ◌++◌, length, length-append, replicate, take-append, drop-append, nat_eq,
}
use tortillas.Prelude.Outcome.{ok}
use tortillas.Bytes.{u32_be, get_u8, get_u32, IsU32}
use tortillas.Bytes.RoundTrip.{get_u32-u32_be}
use tortillas.Protocol.Message.{
  ExtendedMessage, Handshake, PeerMessages, choke, unchoke, interested, not_interested, have,
  bitfield, request, piece, cancel, extended, handshake, keep_alive, magic_string,
}
use tortillas.Protocol.Bitfield.{encode_bitfield}
use tortillas.Protocol.Bitfield.RoundTrip.{
  decode_bitfield-encode_bitfield, length-encode_bitfield, padding,
}
use tortillas.Protocol.Bencode.{Bencode}
use tortillas.Protocol.Bencode.Length.{
  IsEncoding-length, IsEncoding, get_extended_message_length-IsEncoding,
}
use tortillas.Protocol.Handshake as Shake
use tortillas.Protocol.Handshake.RoundTrip.{
  IsWellFormed, from_bytes-to_bytes, to_bytes-append, length-layout,
}
use tortillas.Protocol.Codec.{
  encode, into_bytes, to_bytes, from_bytes, create_message_with_id, create_message_with_triplet,
  create_piece_header, decode_payload, decode_frame, decode_have, decode_piece, decode_triplet,
  parse_triplet, decode_extended, is_handshake,
}
use tortillas.Protocol.Codec.Frame.{frame_limit, frame, is_handshake-u32_be, decode_frame-frame}

-- The messages whose fields have their types' ranges, and whose frames are short of 16 MiB.
abbrev pub IsEncodable : Bencode → PeerMessages → Type 0
IsEncodable b (have index) = IsU32 index
IsEncodable b (bitfield bits) = length bits < 2 ^ 24
IsEncodable b (request index begin len) = IsU32 index × IsU32 begin × IsU32 len
IsEncodable b (cancel index begin len) = IsU32 index × IsU32 begin × IsU32 len
IsEncodable b (piece index begin block) = IsU32 index × IsU32 begin × (length block < 2 ^ 24)
IsEncodable b (extended id none none) = Unit
IsEncodable b (extended id none (some metadata)) = ⊥
IsEncodable b (extended id (some message) none) =
    (bytes : List ℕ) × IsEncoding b message bytes [] × (length bytes < 2 ^ 24)
IsEncodable b (extended id (some message) (some metadata)) =
    (bytes : List ℕ) × IsEncoding b message bytes metadata
    × (length bytes + length metadata < 2 ^ 24)
    × (0 < length metadata)
IsEncodable b (handshake h) = IsWellFormed h × (h.protocol ≡ magic_string)
IsEncodable b _ = Unit

-- A bitfield arrives with the padding of its last byte; every other message as it was sent.
abbrev pub received : PeerMessages → PeerMessages
received (bitfield bits) = bitfield (bits ++ replicate (padding (length bits)) false)
received m = m

module _ (b : Bencode) where
  from_bytes-frame :
      (id : ℕ) (payload rest : List ℕ)
      → 1 + length payload < frame_limit
      → from_bytes b (frame id payload ++ rest) ≡ decode_payload b id payload
  unfolding from_bytes
  from_bytes-frame id payload rest h = rw (unframed) (decode_frame-frame b id payload rest h)
    where
      unframed : is_handshake (frame id payload ++ rest) ≡ false
      unframed = is_handshake-u32_be (1 + length payload) (id ∷ payload ++ rest) h

  pub create_message_with_id-eq-frame :
      (id : ℕ) (payload : List ℕ)
      → 1 + length payload < frame_limit
      → create_message_with_id id payload ≡ frame id payload
  unfolding create_message_with_id
  create_message_with_id-eq-frame id payload h =
      let e : (1 + length payload) % 2 ^ 32 ≡ 1 + length payload = omega arith in rw e

  -- A message that is written as one short frame is read as that frame's payload.
  from_bytes-create :
      (id : ℕ) (payload rest : List ℕ)
      → 1 + length payload < frame_limit
      → from_bytes b (create_message_with_id id payload ++ rest) ≡ decode_payload b id payload
  from_bytes-create id payload rest h =
      rw (create_message_with_id-eq-frame id payload h) (from_bytes-frame id payload rest h)

  abbrev triplet : ℕ → ℕ → ℕ → List ℕ
  triplet first second third = u32_be first ++ (u32_be second ++ u32_be third)

  create_message_with_triplet-eq-frame :
      (id first second third : ℕ)
      → create_message_with_triplet id first second third ≡ frame id (triplet first second third)
  unfolding create_message_with_triplet
  create_message_with_triplet-eq-frame id first second third = refl

  parse_triplet-triplet :
      (first second third : ℕ)
      → IsU32 first
      → IsU32 second
      → IsU32 third
      → parse_triplet (triplet first second third) ≡ ok (first, second, third)
  unfolding parse_triplet
  parse_triplet-triplet first second third hf hs ht =
      rw (get_u32-u32_be first (u32_be second ++ u32_be third) hf)
        (rw (get_u32-u32_be second (u32_be third) hs) (rw (get_u32-u32_be third [] ht)))

  from_bytes-triplet :
      (id first second third : ℕ) (rest : List ℕ)
      → from_bytes b (create_message_with_triplet id first second third ++ rest)
        ≡ decode_payload b id (triplet first second third)
  from_bytes-triplet id first second third rest =
      rw (create_message_with_triplet-eq-frame id first second third)
        (from_bytes-frame id (triplet first second third) rest (omega arith))

  decode_piece-append :
      (index begin : ℕ) (block : List ℕ)
      → IsU32 index
      → IsU32 begin
      → decode_piece (u32_be index ++ (u32_be begin ++ block)) ≡ ok (piece index begin block)
  unfolding decode_piece
  decode_piece-append index begin block hi hb =
      rw (get_u32-u32_be index (u32_be begin ++ block) hi)
        (rw (get_u32-u32_be begin block hb) (ground arith))

  decode_extended-append :
      (id : ℕ) (message : ExtendedMessage) (bytes metadata : List ℕ)
      → IsEncoding b message bytes metadata
      → 0 < length metadata
      → decode_extended b (id ∷ (bytes ++ metadata))
        ≡ ok (extended id (some message) (some metadata))
  unfolding decode_extended get_u8
  decode_extended-append id message bytes metadata e h =
      rw (get_extended_message_length-IsEncoding b message bytes metadata e) (
        rw (take-append bytes metadata) (
          rw (drop-append bytes metadata)
            (rw e.parses (ground (arith, length-append bytes metadata, IsEncoding-length e)))))

  decode_extended-alone :
      (id : ℕ) (message : ExtendedMessage) (bytes : List ℕ)
      → IsEncoding b message bytes []
      → decode_extended b (id ∷ (bytes ++ [])) ≡ ok (extended id (some message) none)
  unfolding decode_extended get_u8
  decode_extended-alone id message bytes e =
      rw (get_extended_message_length-IsEncoding b message bytes [] e)
        (rw (append-nil bytes) (rw e.parses (ground (arith, IsEncoding-length e))))

  -- What it takes for `m` to arrive.
  abbrev Arrives : PeerMessages → List ℕ → Type 0
  Arrives m rest =
      (bytes : List ℕ) × (to_bytes b m ≡ ok bytes)
      × (from_bytes b (bytes ++ rest) ≡ ok (received m))

  Arrives-piece :
      (index begin : ℕ) (block rest : List ℕ)
      → IsEncodable b (piece index begin block)
      → Arrives (piece index begin block) rest
  unfolding to_bytes encode into_bytes create_piece_header
  Arrives-piece index begin block rest (hi, hb, hl) = (
    u32_be (length block + 9) ++ 7 ∷ (u32_be index ++ u32_be begin) ++ block,
    ground arith,
    rw (swap) (
        from_bytes-frame 7 (u32_be index ++ (u32_be begin ++ block)) rest (omega arith)
        ∙ (unfold decode_payload in decode_piece-append index begin block hi hb)),
  )
    where
      swap : length block + 9 ≡ 1 + length (u32_be index ++ (u32_be begin ++ block))
      swap = omega arith

  Arrives-extended :
      (id : ℕ) (message : Option ExtendedMessage) (metadata : Option (List ℕ)) (rest : List ℕ)
      → IsEncodable b (extended id message metadata)
      → Arrives (extended id message metadata) rest
  unfolding to_bytes encode into_bytes
  Arrives-extended id none none rest h = (
    _,
    refl,
    from_bytes-create 20 (id ∷ []) rest (omega arith)
        ∙ (unfold decode_payload decode_extended get_u8 in refl),
  )
  Arrives-extended id none (some metadata) rest h = absurd h
  Arrives-extended id (some message) none rest (bytes, e, h) = (
    create_message_with_id 20 (id ∷ (bytes ++ [])),
    rw e.encodes,
    from_bytes-create 20 (id ∷ (bytes ++ [])) rest (omega (arith, length-append bytes []))
        ∙ (unfold decode_payload in decode_extended-alone id message bytes e),
  )
  Arrives-extended id (some message) (some metadata) rest (bytes, e, h, more) = (
    create_message_with_id 20 (id ∷ (bytes ++ metadata)),
    rw e.encodes,
    from_bytes-create 20 (id ∷ (bytes ++ metadata)) rest
          (omega (arith, length-append bytes metadata))
        ∙ (unfold decode_payload in decode_extended-append id message bytes metadata e more),
  )

  Arrives-handshake :
      (h : Handshake) (rest : List ℕ) → IsEncodable b (handshake h) → Arrives (handshake h) rest
  unfolding to_bytes encode into_bytes from_bytes
  Arrives-handshake h rest (w, magic) =
      (Shake.to_bytes h, refl, rw (recognised) (rw (from_bytes-to_bytes h rest w)))
    where
      recognised : is_handshake (Shake.to_bytes h ++ rest) ≡ true
      recognised = rw (to_bytes-append h rest) (ground (arith, length-layout h rest w))

-- Encoding a message whose fields are in their types' ranges and whose frame is short succeeds, and
-- decoding the bytes, whatever follows them, gives the message back, a bitfield with its padding. An
-- extended message must be one that the bencode crates encode in canonical form and parse back, metadata
-- must not be empty nor stand without a message, and a handshake must name the protocol.
pub from_bytes-to_bytes_received :
    (b : Bencode) (m : PeerMessages) (rest : List ℕ)
    → IsEncodable b m
    → (bytes : List ℕ) × (to_bytes b m ≡ ok bytes)
      × (from_bytes b (bytes ++ rest) ≡ ok (received m))
unfolding to_bytes encode into_bytes
from_bytes-to_bytes_received b choke rest h =
    (_, refl, from_bytes-create b 0 [] rest (omega arith) ∙ (unfold decode_payload in refl))
from_bytes-to_bytes_received b unchoke rest h =
    (_, refl, from_bytes-create b 1 [] rest (omega arith) ∙ (unfold decode_payload in refl))
from_bytes-to_bytes_received b interested rest h =
    (_, refl, from_bytes-create b 2 [] rest (omega arith) ∙ (unfold decode_payload in refl))
from_bytes-to_bytes_received b not_interested rest h =
    (_, refl, from_bytes-create b 3 [] rest (omega arith) ∙ (unfold decode_payload in refl))
from_bytes-to_bytes_received b (have index) rest h = (
  _,
  refl,
  from_bytes-create b 4 (u32_be index) rest (omega arith)
      ∙ (unfold decode_payload decode_have in rw (get_u32-u32_be index [] h)),
)
from_bytes-to_bytes_received b (bitfield bits) rest h = (
  _,
  refl,
  from_bytes-create b 5 (encode_bitfield bits) rest (omega (arith, length-encode_bitfield bits))
      ∙ (unfold decode_payload in rw (decode_bitfield-encode_bitfield bits).0),
)
from_bytes-to_bytes_received b (request index begin len) rest (hi, hb, hl) = (
  _,
  refl,
  from_bytes-triplet b 6 index begin len rest
      ∙ (unfold decode_payload decode_triplet in
          rw (parse_triplet-triplet b index begin len hi hb hl)),
)
from_bytes-to_bytes_received b (cancel index begin len) rest (hi, hb, hl) = (
  _,
  refl,
  from_bytes-triplet b 8 index begin len rest
      ∙ (unfold decode_payload decode_triplet in
          rw (parse_triplet-triplet b index begin len hi hb hl)),
)
from_bytes-to_bytes_received b (piece index begin block) rest h =
    Arrives-piece b index begin block rest h
from_bytes-to_bytes_received b (extended id message metadata) rest h =
    Arrives-extended b id message metadata rest h
from_bytes-to_bytes_received b (handshake s) rest h = Arrives-handshake b s rest h
from_bytes-to_bytes_received b keep_alive rest h =
    (_, refl, (unfold from_bytes decode_frame get_u32 in ground arith))
