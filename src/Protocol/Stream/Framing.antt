-- ===== src/Protocol/Stream/Framing.antt =====
-- Frames, whole and in part, at the front of the buffer.
use tortillas.Prelude.{
  ℕ, ◌+◌, ◌≤◌, ◌<◌, ◌≡◌, refl, ap, ◌∙◌, arith, true, false, none, some, inl, inr, List, [], ◌∷◌,
  ◌++◌, length, length-append, take, drop, take-append_of_eq, drop-append_of_eq, ltb, eqb,
  Bool-cases, All,
}
use mathlib.Core.List.{append_assoc}
use tortillas.Prelude.Outcome.{map_err}
use tortillas.Bytes.{u32_be, get_u32}
use tortillas.Bytes.RoundTrip.{get_u32-u32_be}
use tortillas.Protocol.Bencode.{Bencode}
use tortillas.Protocol.Codec.{from_bytes}
use tortillas.Protocol.Codec.Frame.{from_bytes-keep_alive}
use tortillas.Protocol.Stream.{
  max_frame_payload_length, decoding_failed, Read, bytes_read, failed, prefixed_message,
  buffered_message,
}

-- The bytes of a frame.
abbrev pub frame_of : List ℕ → List ℕ
frame_of body = u32_be (length body) ++ body

-- A frame's body is no longer than the limit; the empty one is a keep-alive's.
abbrev pub IsBody : List ℕ → Type 0
IsBody body = length body ≤ max_frame_payload_length

-- The reads of a transport that neither fails nor ends, and their bytes.
abbrev pub IsOpen : List Read → Type 0
IsOpen reads = All is_bytes reads
  where
    is_bytes : Read → Type 0
    is_bytes failed = ⊥
    is_bytes (bytes_read bytes) = 0 < length bytes

abbrev pub bytes_of : List Read → List ℕ
bytes_of [] = []
bytes_of (failed ∷ reads) = bytes_of reads
bytes_of (bytes_read bytes ∷ reads) = bytes ++ bytes_of reads

-- Of two ways to cut a list, the longer front starts with the shorter.
pub front_of :
    (xs ys front back : List ℕ)
    → xs ++ ys ≡ front ++ back
    → length front ≤ length xs
    → (more : List ℕ) × (xs ≡ front ++ more) × (more ++ ys ≡ back)
front_of xs ys [] back e h = (xs, refl, e)
front_of [] ys (f ∷ front) back e h = absurd (omega arith)
front_of (x ∷ xs) ys (f ∷ front) back e h =
    let tails : xs ++ ys ≡ front ++ back = cc in
    let heads : x ≡ f = cc in
    let (more, split, rest) = front_of xs ys front back tails (omega arith) in
    (more, rw heads (ap (λ l. f ∷ l) split), rest)

pub get_u32-short : (bytes : List ℕ) → length bytes < 4 → get_u32 bytes ≡ none
unfolding get_u32
get_u32-short [] h = refl
get_u32-short (a ∷ []) h = refl
get_u32-short (a ∷ b ∷ []) h = refl
get_u32-short (a ∷ b ∷ c ∷ []) h = refl
get_u32-short (a ∷ b ∷ c ∷ d ∷ rest) h = absurd (omega arith)

module _ (bencode : Bencode) where
  pub prefixed_message-whole :
      (buffer rest : List ℕ) (len : ℕ)
      → 0 < len
      → len ≤ max_frame_payload_length
      → 4 + len ≤ length buffer
      → prefixed_message bencode buffer len rest ≡ (
        some (map_err decoding_failed (from_bytes bencode (take (4 + len) buffer))),
        drop (4 + len) buffer,
      )
  unfolding prefixed_message
  prefixed_message-whole buffer rest len pos small whole =
      let some_ : eqb len 0 ≡ false = ground arith in
      let fits : ltb max_frame_payload_length len ≡ false = ground arith in
      let there : ltb (length buffer) (4 + len) ≡ false = ground arith in
      rw some_ (rw fits (rw there refl))

  pub prefixed_message-part :
      (buffer rest : List ℕ) (len : ℕ)
      → 0 < len
      → len ≤ max_frame_payload_length
      → length buffer < 4 + len
      → prefixed_message bencode buffer len rest ≡ (none, buffer)
  unfolding prefixed_message
  prefixed_message-part buffer rest len pos small part =
      let some_ : eqb len 0 ≡ false = ground arith in
      let fits : ltb max_frame_payload_length len ≡ false = ground arith in
      let missing : ltb (length buffer) (4 + len) ≡ true = ground arith in
      rw some_ (rw fits (rw missing refl))

  pub buffered_message-some :
      (buffer rest : List ℕ) (len : ℕ)
      → get_u32 buffer ≡ some (len, rest)
      → buffered_message bencode buffer ≡ prefixed_message bencode buffer len rest
  unfolding buffered_message
  buffered_message-some buffer rest len h = rw h refl

  pub buffered_message-none :
      (buffer : List ℕ) → get_u32 buffer ≡ none → buffered_message bencode buffer ≡ (none, buffer)
  unfolding buffered_message
  buffered_message-none buffer h = rw h refl

  -- A whole frame at the front of the buffer is decoded.
  pub buffered_message-whole :
      (body rest : List ℕ)
      → IsBody body
      → buffered_message bencode (frame_of body ++ rest)
        ≡ (some (map_err decoding_failed (from_bytes bencode (frame_of body))), rest)
  unfolding buffered_message prefixed_message get_u32
  buffered_message-whole [] rest small = rw (from_bytes-keep_alive bencode) refl
  buffered_message-whole (id ∷ payload) rest small =
      let body = id ∷ payload in
      let buffer = frame_of body ++ rest in
      let l : length buffer ≡ 4 + length body + length rest =
        omega (arith, length-append body rest) in
      buffered_message-some buffer (body ++ rest) (length body)
        (get_u32-u32_be (length body) (body ++ rest) (omega arith))
      ∙ prefixed_message-whole buffer (body ++ rest) (length body) (omega arith) small (omega arith)
      ∙ rw (take-append_of_eq (4 + length body) (frame_of body) rest (omega arith))
          (rw (drop-append_of_eq (4 + length body) (frame_of body) rest (omega arith)) refl)

  -- A part of a frame is left in the buffer.
  pub buffered_message-part :
      (body buffer more tail : List ℕ)
      → IsBody body
      → buffer ++ more ≡ frame_of body ++ tail
      → length buffer < 4 + length body
      → buffered_message bencode buffer ≡ (none, buffer)
  buffered_message-part body buffer more tail small e part =
      elim (Bool-cases (ltb (length buffer) 4)) [
        | inl short ↦ buffered_message-none buffer (get_u32-short buffer (ground arith))
        | inr long ↦
            let (begun, split, _) =
              front_of buffer more (u32_be (length body)) (body ++ tail)
                (e ∙ append_assoc (u32_be (length body)) body tail) (ground arith) in
            let prefix : get_u32 buffer ≡ some (length body, begun) =
              ap get_u32 split ∙ get_u32-u32_be (length body) begun (omega arith) in
            buffered_message-some buffer begun (length body) prefix
            ∙ prefixed_message-part buffer begun (length body) (ground arith) small part
      ]
