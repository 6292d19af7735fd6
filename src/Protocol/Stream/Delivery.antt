-- ===== src/Protocol/Stream/Delivery.antt =====
-- From `send` to `recv`: messages that are sent arrive.
use tortillas.Prelude.{
  ℕ, suc, ◌+◌, ◌≤◌, ◌<◌, ◌≡◌, refl, sym, ap, ◌∙◌, arith, Option, none, some, List, [], ◌∷◌, ◌++◌,
  map, length, length-append, All,
}
use mathlib.Core.List.{append-nil, append_assoc}
use tortillas.Prelude.Outcome.{Outcome, ok, ok_inj}
use tortillas.Bytes.{u32_be}
use tortillas.Protocol.Message.{
  ExtendedMessage, PeerMessages, PeerActorError, choke, unchoke, interested, not_interested, have,
  bitfield, request, piece, cancel, extended, handshake, keep_alive,
}
use tortillas.Protocol.Bitfield.{encode_bitfield}
use tortillas.Protocol.Bitfield.RoundTrip.{length-encode_bitfield}
use tortillas.Protocol.Bencode.{Bencode}
use tortillas.Protocol.Codec.{
  to_bytes, from_bytes, encode, into_bytes, create_message_with_id, create_message_with_triplet,
  create_piece_header,
}
use tortillas.Protocol.Codec.Frame.{frame_limit}
use tortillas.Protocol.Codec.RoundTrip.{
  IsEncodable, received, from_bytes-to_bytes_received, create_message_with_id-eq-frame,
}
use tortillas.Protocol.Stream.{PeerStream, max_frame_payload_length}
use tortillas.Protocol.Stream.Framing.{frame_of, IsBody, IsOpen, bytes_of}
use tortillas.Protocol.Stream.Receiving.{Receives, frames_of, messages_of, recv-Receives}
use tortillas.Protocol.Stream.Reader.{Polled}
use tortillas.Protocol.Stream.Writer.{PeerWriter, IsWriteAll, slice, chain, send}
use tortillas.Protocol.Stream.Sending.{IsSend, waits, sent, fails, send-IsSend}

-- A message that is sent in a frame: any but a handshake.
abbrev pub IsFramed : PeerMessages → Type 0
IsFramed (handshake h) = ⊥
IsFramed _ = Unit

append_inj : (xs ys zs : List ℕ) → xs ++ ys ≡ xs ++ zs → ys ≡ zs
append_inj [] ys zs e = e
append_inj (x ∷ xs) ys zs e = append_inj xs ys zs cc

module _ (b : Bencode) where
  abbrev Body : PeerMessages → Type 0
  Body m = (body : List ℕ) × (to_bytes b m ≡ ok (frame_of body))

  create_message_with_id-frame_of :
      (id : ℕ) (payload : List ℕ)
      → 1 + length payload < frame_limit
      → create_message_with_id id payload ≡ frame_of (id ∷ payload)
  create_message_with_id-frame_of id payload h =
      let n : 1 + length payload ≡ suc (length payload) = omega arith in
      create_message_with_id-eq-frame b id payload h ∙ ap (λ n. u32_be n ++ id ∷ payload) n

  to_bytes-extended :
      (id : ℕ) (message : Option ExtendedMessage) (metadata : Option (List ℕ))
      → IsEncodable b (extended id message metadata)
      → Body (extended id message metadata)
  unfolding to_bytes encode into_bytes
  to_bytes-extended id none none h = (20 ∷ id ∷ [], unfold create_message_with_id in refl)
  to_bytes-extended id none (some metadata) h = absurd h
  to_bytes-extended id (some message) none (bytes, e, h) = (
    20 ∷ id ∷ (bytes ++ []),
    rw e.encodes (
        ap ok (
          create_message_with_id-frame_of 20 (id ∷ (bytes ++ []))
            (omega (arith, length-append bytes [])))),
  )
  to_bytes-extended id (some message) (some metadata) (bytes, e, h, more) = (
    20 ∷ id ∷ (bytes ++ metadata),
    rw e.encodes (
        ap ok (
          create_message_with_id-frame_of 20 (id ∷ (bytes ++ metadata))
            (omega (arith, length-append bytes metadata)))),
  )

  to_bytes-frame_of : (m : PeerMessages) → IsEncodable b m → IsFramed m → Body m
  unfolding to_bytes encode into_bytes create_message_with_id create_message_with_triplet
      create_piece_header
  to_bytes-frame_of choke h f = (0 ∷ [], refl)
  to_bytes-frame_of unchoke h f = (1 ∷ [], refl)
  to_bytes-frame_of interested h f = (2 ∷ [], refl)
  to_bytes-frame_of not_interested h f = (3 ∷ [], refl)
  to_bytes-frame_of (have index) h f = (4 ∷ u32_be index, refl)
  to_bytes-frame_of (bitfield bits) h f = (
    5 ∷ encode_bitfield bits,
    ap ok (
        create_message_with_id-frame_of 5 (encode_bitfield bits)
          (omega (arith, length-encode_bitfield bits))),
  )
  to_bytes-frame_of (request index begin len) h f =
      (6 ∷ (u32_be index ++ (u32_be begin ++ u32_be len)), refl)
  to_bytes-frame_of (cancel index begin len) h f =
      (8 ∷ (u32_be index ++ (u32_be begin ++ u32_be len)), refl)
  to_bytes-frame_of (piece index begin block) (hi, hb, hl) f =
      (7 ∷ (u32_be index ++ (u32_be begin ++ block)), ground (arith, swap))
    where
      swap : length block + 9 ≡ suc (length (u32_be index ++ (u32_be begin ++ block)))
      swap = omega arith
  to_bytes-frame_of (extended id message metadata) h f = to_bytes-extended id message metadata h
  to_bytes-frame_of (handshake h) _ f = absurd f
  to_bytes-frame_of keep_alive h f = ([], refl)

  abbrev HasSize : Outcome PeerActorError (List ℕ) → Type 0
  HasSize (ok bytes) = length bytes ≤ 4 + max_frame_payload_length
  HasSize _ = Unit

  -- A message in a frame that the receiver takes.
  abbrev pub IsSendable : PeerMessages → Type 0
  IsSendable m = IsEncodable b m × IsFramed m × HasSize (to_bytes b m)

module _ (b : Bencode) (write_all : List ℕ → PeerWriter → Polled PeerWriter (Unit {0}))
    (write_all_buf : List ℕ × List ℕ → PeerWriter → Polled PeerWriter (Unit {0})) where
  -- Calls of `send` that all succeed, one after the other.
  pub data Sends : PeerWriter → List PeerMessages → PeerWriter → Type 0 where
    rests : (w : PeerWriter) → Sends w [] w
    sends :
        (w v u : PeerWriter) (m : PeerMessages) (ms : List PeerMessages)
        → send b write_all write_all_buf m w ≡ some (ok tt, v)
        → Sends v ms u
        → Sends w (m ∷ ms) u

  module _ (all : IsWriteAll slice write_all) (all_buf : IsWriteAll chain write_all_buf) where
    -- What was written is the frames of some bodies that the receiver takes and decodes as the messages.
    record IsWritten (w : PeerWriter) (ms : List PeerMessages) (after : PeerWriter) : Type 0 where
      bodies : List (List ℕ)
      are_bodies : All IsBody bodies
      written : after.written ≡ w.written ++ frames_of b bodies
      decoded : messages_of b bodies ≡ map (λ m. ok (received m)) ms

    from_bytes-frame_of :
        (m : PeerMessages)
        → IsSendable b m
        → (body : List ℕ) × (to_bytes b m ≡ ok (frame_of body))
          × IsBody body
          × (from_bytes b (frame_of body) ≡ ok (received m))
    from_bytes-frame_of m (h, f, size) =
        let (body, e) = to_bytes-frame_of b m h f in
        let (bytes, e', parsed) = from_bytes-to_bytes_received b m [] h in
        let same : bytes ≡ frame_of body = ok_inj (sym e' ∙ e) in
        (
          body,
          e,
          omega (arith, rw e at size),
          ap (from_bytes b) (sym (append-nil (frame_of body)) ∙ ap (λ l. l ++ []) (sym same))
              ∙ parsed,
        )

    abbrev written_in : Polled PeerWriter (Unit {0}) → List ℕ
    written_in none = []
    written_in (some (_, w)) = w.written

    written_of :
        {bytes : List ℕ} {w : PeerWriter} {result : Polled PeerWriter (Unit {0})}
        {after : PeerWriter}
        → IsSend bytes w result
        → result ≡ some (ok tt, after)
        → after.written ≡ w.written ++ bytes
    written_of waits h = cc
    written_of (sent after e count) h = sym (ap written_in h) ∙ e
    written_of (fails after front back e written count) h = cc

    Sends-IsWritten :
        (w after : PeerWriter) (ms : List PeerMessages)
        → All (IsSendable b) ms
        → Sends w ms after
        → IsWritten w ms after
    Sends-IsWritten w _ [] h (rests _) = record {
      bodies = [];
      are_bodies = tt;
      written = sym (append-nil w.written);
      decoded = refl;
    }
    Sends-IsWritten w _ (m ∷ ms) (h, hs) (sends _ v u _ _ done next) =
        let (body, e, small, parsed) = from_bytes-frame_of m h in
        let rest = Sends-IsWritten v u ms hs next in
        let first =
          written_of (send-IsSend b write_all write_all_buf all all_buf m (frame_of body) w e)
            done in
        record {
          bodies = body ∷ rest.bodies;
          are_bodies = (small, rest.are_bodies);
          written =
              rest.written
              ∙ ap (λ l. l ++ frames_of b rest.bodies) first
              ∙ append_assoc w.written (frame_of body) (frames_of b rest.bodies);
          decoded = rw parsed (ap (λ l. ok (received m) ∷ l) rest.decoded);
        }

    -- Messages that are sent in frames, each by a `send` that succeeds, arrive if their frames are within
    -- the receiver's limit: where the transport neither fails nor ends, and brings what was written, in
    -- reads of any size, calls of `recv` give the messages in their order, bitfields with their padding,
    -- and then nothing is left to be read. The messages are no handshakes, their encodings are of at most
    -- 1 MiB and the four bytes of the prefix, and their fields are in their types' ranges; an
    -- extended one has neither message nor metadata, or a message that the bencode crates encode in
    -- canonical form and parse back, with metadata that is not empty if it has any.
    pub Sends-Receives :
        (ms : List PeerMessages) (w after : PeerWriter) (s : PeerStream)
        → All (IsSendable b) ms
        → Sends w ms after
        → IsOpen s.reads
        → after.written ≡ w.written ++ (s.read_buffer ++ bytes_of s.reads)
        → (t : PeerStream) × Receives b s (map (λ m. ok (received m)) ms) t
          × IsOpen t.reads
          × (t.read_buffer ++ bytes_of t.reads ≡ [])
    Sends-Receives ms w after s h sent_ o e =
        let written = Sends-IsWritten w after ms h sent_ in
        let same : s.read_buffer ++ bytes_of s.reads ≡ frames_of b written.bodies =
          append_inj w.written _ _ (sym e ∙ written.written) in
        let (t, got, open_, left) =
          recv-Receives b written.bodies [] s written.are_bodies o
            (same ∙ sym (append-nil (frames_of b written.bodies))) in
        (t, rw written.decoded at got, open_, left)
