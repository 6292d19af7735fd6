-- ===== src/Protocol/Stream/Same.antt =====
-- The two implementations of `recv`: over the stream's buffer, and over `read_exact`.
use tortillas.Prelude.{
  ℕ, ◌+◌, ◌-◌, ◌≡◌, ◌⊎◌, refl, sym, ap, ◌∙◌, arith, true, false, Option, none, some, inl, inr, List,
  [], ◌∷◌, ◌++◌, length, ltb, eqb,
}
use mathlib.Core.List.{append_assoc, append-nil}
use tortillas.Prelude.Outcome.{Outcome, ok, err}
use tortillas.Bytes.{get_u32}
use tortillas.Protocol.Message.{PeerMessages, keep_alive}
use tortillas.Protocol.Bencode.{Bencode}
use tortillas.Protocol.Stream.{
  StreamError, protocol_violation, Read, bytes_read, failed, PeerStream, max_frame_payload_length,
  buffered_message, recv_loop, recv,
}
use tortillas.Protocol.Stream.Framing.{IsOpen, bytes_of, get_u32-short, buffered_message-none}
use tortillas.Protocol.Stream.Receiving.{recv_loop-some, recv_loop-none}
use tortillas.Protocol.Stream.Front.{
  IsPrefix, Follows, nothing, too_long, part, whole, Front, short, prefixed, front, IsViolation,
  Agrees, waits, gives, buffered_message-prefixed,
}
use tortillas.Protocol.Stream.Reader.{
  PeerReader, Polled, poll_read, and_then, IsReadExact, recv_rest, split,
}
use tortillas.Protocol.Stream.Reader as Reader
use tortillas.Protocol.Stream.Reading.{pending, read_exact-Gives, read_exact-waits}

-- Two calls that both wait, or give the same and leave the same bytes to be read; after a frame that is
-- too long what they leave may differ.
pub data IsSame : Polled PeerStream PeerMessages → Polled PeerReader PeerMessages → Type 0 where
  both_wait : IsSame none none
  both_give :
      (m : Outcome StreamError PeerMessages) (s : PeerStream) (r : PeerReader)
      → IsOpen s.reads
      → IsOpen r.reads
      → (¬ IsViolation m → pending (split s) ≡ pending r)
      → IsSame (some (m, s)) (some (m, r))

module _ (bencode : Bencode) where
  -- A message that is found in the buffer is returned; the rest is found behind it.
  recv_loop-found :
      (prefix rest more : List ℕ) (len : ℕ) (p : IsPrefix prefix len) (f : Follows len rest)
      (reads : List Read) (downloaded : ℕ)
      → IsOpen reads
      → bytes_of reads ≡ more
      → (Agrees split
          (buffered_message bencode ((prefix ++ rest) ++ more))
          (recv_loop bencode (prefix ++ rest) reads downloaded))
        ⊎ (buffered_message bencode (prefix ++ rest) ≡ (none, prefix ++ rest))
  unfolding split
  recv_loop-found prefix _ more len p (part rest pos small less) reads n o e =
      inr (buffered_message-prefixed bencode prefix rest len p (part rest pos small less))
  recv_loop-found prefix _ more len p (nothing rest z) reads n o e = inl (
      rw (append_assoc prefix rest more) (
        rw
          (buffered_message-prefixed bencode prefix (rest ++ more) len p (nothing (rest ++ more) z))
          (rw
            (recv_loop-some bencode (prefix ++ rest) rest reads n (ok keep_alive)
              (buffered_message-prefixed bencode prefix rest len p (nothing rest z)))
            (gives _ _ _ o (λ _. ap (λ l. rest ++ l) e)))))
  recv_loop-found prefix _ more len p (too_long rest over) reads n o e = inl (
      rw (append_assoc prefix rest more) (
        rw
          (buffered_message-prefixed bencode prefix (rest ++ more) len p
            (too_long (rest ++ more) over))
          (rw
            (recv_loop-some bencode (prefix ++ rest) (prefix ++ rest) reads n
              (err (protocol_violation len))
              (buffered_message-prefixed bencode prefix rest len p (too_long rest over)))
            (gives _ _ _ o (λ other. absurd (other (len, refl)))))))
  recv_loop-found prefix _ more len p (whole body rest pos small l) reads n o e = inl (
      rw (append_assoc prefix (body ++ rest) more) (
        rw (append_assoc body rest more) (
          rw
            (buffered_message-prefixed bencode prefix (body ++ (rest ++ more)) len p
              (whole body (rest ++ more) pos small l))
            (rw
              (recv_loop-some bencode (prefix ++ (body ++ rest)) rest reads n _ (
                buffered_message-prefixed bencode prefix (body ++ rest) len p
                  (whole body rest pos small l)))
              (gives _ _ _ o (λ _. ap (λ l. rest ++ l) e))))))

  recv_loop-now :
      (buffer : List ℕ) (reads : List Read) (downloaded : ℕ)
      → IsOpen reads
      → (Agrees split
          (buffered_message bencode (buffer ++ bytes_of reads))
          (recv_loop bencode buffer reads downloaded))
        ⊎ (buffered_message bencode buffer ≡ (none, buffer))
  recv_loop-now buffer reads downloaded o = go buffer (front buffer)
    where
      go :
          (buffer : List ℕ)
          → Front buffer
          → (Agrees split
              (buffered_message bencode (buffer ++ bytes_of reads))
              (recv_loop bencode buffer reads downloaded))
            ⊎ (buffered_message bencode buffer ≡ (none, buffer))
      go buffer (short _ l) = inr (buffered_message-none bencode buffer (get_u32-short buffer l))
      go _ (prefixed prefix rest len p f) =
          recv_loop-found prefix rest (bytes_of reads) len p f reads downloaded o refl

  recv_loop-Agrees :
      (reads : List Read) (buffer : List ℕ) (downloaded : ℕ)
      → IsOpen reads
      → Agrees split
          (buffered_message bencode (buffer ++ bytes_of reads))
          (recv_loop bencode buffer reads downloaded)
  unfolding recv_loop
  recv_loop-Agrees [] buffer n o = elim (recv_loop-now buffer [] n o) [
    | inl now ↦ now
    | inr none_ ↦ rw (append-nil buffer) (rw none_ (waits buffer))
  ]
  recv_loop-Agrees (failed ∷ reads) buffer n (o, os) = absurd o
  recv_loop-Agrees (bytes_read [] ∷ reads) buffer n (o, os) = absurd (omega arith)
  recv_loop-Agrees (bytes_read (b ∷ bytes) ∷ reads) buffer n (o, os) =
      elim (recv_loop-now buffer (bytes_read (b ∷ bytes) ∷ reads) n (o, os)) [
        | inl now ↦ now
        | inr none_ ↦ rw (recv_loop-none bencode buffer bytes b reads n none_) (
            rw (← append_assoc buffer (b ∷ bytes) (bytes_of reads))
              (recv_loop-Agrees reads (buffer ++ b ∷ bytes) (n + length (b ∷ bytes)) os))
      ]

  recv-Agrees :
      (s : PeerStream)
      → IsOpen s.reads
      → Agrees split (buffered_message bencode (pending (split s))) (recv bencode s)
  unfolding recv split
  recv-Agrees s o = recv_loop-Agrees s.reads s.read_buffer s.bytes_downloaded o

module _ (bencode : Bencode) (read_exact : ℕ → PeerReader → Polled PeerReader (List ℕ))
    (exact : IsReadExact poll_read read_exact) where
  -- What follows the prefix that was read is read to its end, or waited for.
  recv_rest-Agrees :
      (prefix rest : List ℕ) (len : ℕ) (p : IsPrefix prefix len) (f : Follows len rest)
      (r : PeerReader)
      → IsOpen r.reads
      → pending r ≡ rest
      → Agrees
          (λ r. r)
          (buffered_message bencode (prefix ++ rest))
          (recv_rest bencode read_exact prefix (some (len, [])) r)
  unfolding recv_rest
  recv_rest-Agrees prefix _ len p (nothing rest z) r o e =
      let test : eqb len 0 ≡ true = ground arith in
      rw (buffered_message-prefixed bencode prefix rest len p (nothing rest z))
        (rw test (gives _ _ r o (λ _. e)))
  recv_rest-Agrees prefix _ len p (too_long rest over) r o e =
      let test : eqb len 0 ≡ false = ground arith in
      let limit : ltb max_frame_payload_length len ≡ true = ground arith in
      rw (buffered_message-prefixed bencode prefix rest len p (too_long rest over))
        (rw test (rw limit (gives _ _ r o (λ other. absurd (other (len, refl))))))
  recv_rest-Agrees prefix _ len p (part [] pos small less) r o e =
      let test : eqb len 0 ≡ false = ground arith in
      let limit : ltb max_frame_payload_length len ≡ false = ground arith in
      let kind = read_exact-waits read_exact exact 1 r o (omega (arith, ap length e)) in
      rw (buffered_message-prefixed bencode prefix [] len p (part [] pos small less))
        (rw test (rw limit (rw kind (waits _))))
  recv_rest-Agrees prefix _ len p (part (id ∷ payload) pos small less) r o e =
      let test : eqb len 0 ≡ false = ground arith in
      let limit : ltb max_frame_payload_length len ≡ false = ground arith in
      let kind = read_exact-Gives read_exact exact 1 (id ∷ []) payload r refl o e in
      let others =
        read_exact-waits read_exact exact (len - 1) kind.after kind.still_open
          (omega (arith, ap length kind.left)) in
      rw
        (buffered_message-prefixed bencode prefix (id ∷ payload) len p
          (part (id ∷ payload) pos small less))
        (rw test (rw limit (rw kind.done (rw others (waits _)))))
  recv_rest-Agrees prefix _ len p (whole (id ∷ payload) rest pos small l) r o e =
      let body = id ∷ payload in
      let test : eqb len 0 ≡ false = ground arith in
      let limit : ltb max_frame_payload_length len ≡ false = ground arith in
      let kind = read_exact-Gives read_exact exact 1 (id ∷ []) (payload ++ rest) r refl o e in
      let others =
        read_exact-Gives read_exact exact (len - 1) payload rest kind.after (omega arith)
          kind.still_open kind.left in
      rw
        (buffered_message-prefixed bencode prefix (body ++ rest) len p
          (whole body rest pos small l))
        (rw test (
          rw limit (
            rw kind.done
              (rw others.done (gives _ _ others.after others.still_open (λ _. others.left))))))
  recv_rest-Agrees prefix _ len p (whole [] rest pos small l) r o e = absurd (omega arith)

  recv-reads-Agrees :
      (r : PeerReader)
      → IsOpen r.reads
      → Agrees (λ r. r) (buffered_message bencode (pending r)) (Reader.recv bencode read_exact r)
  unfolding Reader.recv
  recv-reads-Agrees r o = go (pending r) (front (pending r)) refl
    where
      go :
          (bytes : List ℕ)
          → Front bytes
          → pending r ≡ bytes
          → Agrees (λ r. r) (buffered_message bencode bytes) (Reader.recv bencode read_exact r)
      go bytes (short _ less) e =
          rw (buffered_message-none bencode bytes (get_u32-short bytes less)) (
            rw (read_exact-waits read_exact exact 4 r o (omega (arith, ap length e))) (waits bytes))
      go _ (prefixed prefix rest len p f) e =
          let g = read_exact-Gives read_exact exact 4 prefix rest r p.width o e in
          let value : get_u32 prefix ≡ some (len, []) =
            ap get_u32 (sym (append-nil prefix)) ∙ p.value [] in
          rw g.done (rw value (recv_rest-Agrees prefix rest len p f g.after g.still_open g.left))

  -- While the transports neither fail nor end: where the same bytes are still to be read, the `recv` of
  -- a stream, which decodes from its buffer, and the `recv` of a reader half, which asks `read_exact`
  -- for the parts of a frame, both wait or return the same message or error; after it the same bytes are
  -- still to be read, unless it was that a frame is too long.
  pub recv-IsSame :
      (s : PeerStream) (r : PeerReader)
      → IsOpen s.reads
      → IsOpen r.reads
      → pending (split s) ≡ pending r
      → IsSame (recv bencode s) (Reader.recv bencode read_exact r)
  unfolding split
  recv-IsSame s r so ro e =
      both (recv bencode s) (Reader.recv bencode read_exact r) (recv-Agrees bencode s so)
        (rw e (recv-reads-Agrees r ro))
    where
      both :
          {x : Option (Outcome StreamError PeerMessages) × List ℕ}
          (a : Polled PeerStream PeerMessages) (b : Polled PeerReader PeerMessages)
          → Agrees split x a
          → Agrees (λ r. r) x b
          → IsSame a b
      both _ _ (waits _) (waits _) = both_wait
      both _ _ (gives m rest s so sl) (gives _ _ r ro rl) =
          both_give m s r so ro (λ other. sl other ∙ sym (rl other))
