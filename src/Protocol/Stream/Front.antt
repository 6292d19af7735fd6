-- ===== src/Protocol/Stream/Front.antt =====
-- What stands at the front of the bytes that are still to be read.
use tortillas.Prelude.{
  ℕ, ◌+◌, ◌*◌, ◌^◌, ◌≤◌, ◌<◌, ◌≡◌, refl, sym, ◌∙◌, arith, true, false, Option, none, some, inl, inr,
  List, [], ◌∷◌, ◌++◌, length, length-append, length-take, take, drop, take-append_of_eq,
  drop-append_of_eq, ltb, eqb, Bool-cases,
}
use mathlib.Core.List.{append_assoc}
use tortillas.Prelude.Cuts.{take-append-drop}
use tortillas.Prelude.Outcome.{Outcome, ok, err, map_err}
use tortillas.Bytes.{get_u32}
use tortillas.Protocol.Message.{PeerMessages, keep_alive}
use tortillas.Protocol.Bencode.{Bencode}
use tortillas.Protocol.Codec.{from_bytes}
use tortillas.Protocol.Stream.{
  StreamError, protocol_violation, decoding_failed, max_frame_payload_length, buffered_message,
  prefixed_message,
}
use tortillas.Protocol.Stream.Framing.{
  IsOpen, buffered_message-some, prefixed_message-whole, prefixed_message-part,
}
use tortillas.Protocol.Stream.Reader.{PeerReader, Polled}
use tortillas.Protocol.Stream.Reading.{pending}

-- A length prefix: what reading it gives, whatever follows it.
pub record IsPrefix (prefix : List ℕ) (len : ℕ) : Type 0 where
  pub width : length prefix ≡ 4
  pub value : (more : List ℕ) → get_u32 (prefix ++ more) ≡ some (len, more)

-- What follows a prefix.
pub data Follows (len : ℕ) : List ℕ → Type 0 where
  nothing : (rest : List ℕ) → len ≡ 0 → Follows len rest
  too_long : (rest : List ℕ) → max_frame_payload_length < len → Follows len rest
  part :
      (rest : List ℕ)
      → 0 < len
      → len ≤ max_frame_payload_length
      → length rest < len
      → Follows len rest
  whole :
      (body rest : List ℕ)
      → 0 < len
      → len ≤ max_frame_payload_length
      → length body ≡ len
      → Follows len (body ++ rest)

pub data Front : List ℕ → Type 0 where
  short : (bytes : List ℕ) → length bytes < 4 → Front bytes
  prefixed :
      (prefix rest : List ℕ) (len : ℕ)
      → IsPrefix prefix len
      → Follows len rest
      → Front (prefix ++ rest)

follows : (len : ℕ) (rest : List ℕ) → Follows len rest
follows len rest = elim (Bool-cases (eqb len 0)) [
  | inl none_ ↦ nothing rest (ground arith)
  | inr some_ ↦ elim (Bool-cases (ltb max_frame_payload_length len)) [
    | inl over ↦ too_long rest (ground arith)
    | inr fits ↦ elim (Bool-cases (ltb (length rest) len)) [
      | inl missing ↦ part rest (ground arith) (ground arith) (ground arith)
      | inr there ↦ coe 0 1 (i. Follows len (take-append-drop len rest i)) (
          whole (take len rest) (drop len rest) (ground arith) (ground arith)
            (ground (arith, length-take len rest)))
    ]
  ]
]

pub front : (bytes : List ℕ) → Front bytes
unfolding get_u32
front [] = short [] (omega arith)
front (a ∷ []) = short _ (omega arith)
front (a ∷ b ∷ []) = short _ (omega arith)
front (a ∷ b ∷ c ∷ []) = short _ (omega arith)
front (a ∷ b ∷ c ∷ d ∷ rest) =
    let len = a * 2 ^ 24 + b * 2 ^ 16 + c * 2 ^ 8 + d in
    prefixed (a ∷ b ∷ c ∷ d ∷ []) rest len (record { width = refl; value = λ more. refl })
      (follows len rest)

abbrev pub IsViolation : Outcome StreamError PeerMessages → Type 0
IsViolation m = (len : ℕ) × (m ≡ err (protocol_violation len))

-- A call's result is that of the pending bytes, and leaves what follows them.
pub data Agrees {ℓ} {S : Type ℓ} (reader_of : S → PeerReader)
    : Option (Outcome StreamError PeerMessages) × List ℕ → Polled S PeerMessages → Type ℓ where
  waits : (rest : List ℕ) → Agrees reader_of (none, rest) none
  gives :
      (m : Outcome StreamError PeerMessages) (rest : List ℕ) (after : S)
      → IsOpen (reader_of after).reads
      → (¬ IsViolation m → pending (reader_of after) ≡ rest)
      → Agrees reader_of (some m, rest) (some (m, after))

module _ (bencode : Bencode) where
  -- The buffer's message, by its front.
  abbrev pub found :
      (prefix rest : List ℕ) (len : ℕ)
      → Follows len rest
      → Option (Outcome StreamError PeerMessages) × List ℕ
  found prefix _ len (nothing rest _) = (some (ok keep_alive), rest)
  found prefix _ len (too_long rest _) = (some (err (protocol_violation len)), prefix ++ rest)
  found prefix _ len (part rest _ _ _) = (none, prefix ++ rest)
  found prefix _ len (whole body rest _ _ _) =
      (some (map_err decoding_failed (from_bytes bencode (prefix ++ body))), rest)

  pub buffered_message-prefixed :
      (prefix rest : List ℕ) (len : ℕ) (p : IsPrefix prefix len) (f : Follows len rest)
      → buffered_message bencode (prefix ++ rest) ≡ found prefix rest len f
  unfolding prefixed_message
  buffered_message-prefixed prefix _ len p (nothing rest e) =
      buffered_message-some bencode (prefix ++ rest) rest len (p.value rest)
      ∙ (let test : eqb len 0 ≡ true = ground arith in rw test refl)
  buffered_message-prefixed prefix _ len p (too_long rest over) =
      buffered_message-some bencode (prefix ++ rest) rest len (p.value rest)
      ∙ (let test : eqb len 0 ≡ false = ground arith in
          let limit : ltb max_frame_payload_length len ≡ true = ground arith in
          rw test (rw limit refl))
  buffered_message-prefixed prefix _ len p (part rest pos small less) =
      buffered_message-some bencode (prefix ++ rest) rest len (p.value rest)
      ∙ prefixed_message-part bencode (prefix ++ rest) rest len pos small
          (omega (arith, length-append prefix rest, p.width))
  buffered_message-prefixed prefix _ len p (whole body tail pos small l) =
      let buffer = prefix ++ (body ++ tail) in
      let n : 4 + len ≡ length (prefix ++ body) =
        omega (arith, length-append prefix body, p.width) in
      let e : buffer ≡ (prefix ++ body) ++ tail = sym (append_assoc prefix body tail) in
      buffered_message-some bencode buffer (body ++ tail) len (p.value (body ++ tail))
      ∙ prefixed_message-whole bencode buffer (body ++ tail) len pos small
          (omega (arith, length-append prefix (body ++ tail), length-append body tail, p.width))
      ∙ rw e (
          rw (take-append_of_eq (4 + len) (prefix ++ body) tail n)
            (rw (drop-append_of_eq (4 + len) (prefix ++ body) tail n) refl))
