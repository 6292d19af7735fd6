-- ===== src/Protocol/Stream/Receiving.antt =====
-- Frames that come in reads of any size are received one by one.
use tortillas.Prelude.{
  ℕ, ◌+◌, ◌≤◌, ◌≡◌, refl, ap, ◌∙◌, arith, Option, none, some, inl, inr, List, [], ◌∷◌, ◌++◌, length,
  length-append, leb, Bool-cases, All,
}
use mathlib.Core.List.{append_assoc}
use tortillas.Prelude.Outcome.{Outcome, map_err}
use tortillas.Protocol.Message.{PeerMessages}
use tortillas.Protocol.Bencode.{Bencode}
use tortillas.Protocol.Codec.{from_bytes}
use tortillas.Protocol.Stream.{
  StreamError, decoding_failed, Read, bytes_read, failed, PeerStream, buffered_message, recv_loop,
  recv,
}
use tortillas.Protocol.Stream.Framing.{
  frame_of, IsBody, IsOpen, bytes_of, front_of, buffered_message-whole, buffered_message-part,
}

module _ (bencode : Bencode) where
  -- A call that received the frame, decoded as a whole, and left what follows it.
  pub record IsReceived (body tail : List ℕ)
      (result : Option (Outcome StreamError PeerMessages × PeerStream)) : Type 0 where
    pub after : PeerStream
    pub done : result ≡ some (map_err decoding_failed (from_bytes bencode (frame_of body)), after)
    pub still_open : IsOpen after.reads
    pub left : after.read_buffer ++ bytes_of after.reads ≡ tail

  pub recv_loop-some :
      (buffer rest : List ℕ) (reads : List Read) (downloaded : ℕ)
      (m : Outcome StreamError PeerMessages)
      → buffered_message bencode buffer ≡ (some m, rest)
      → recv_loop bencode buffer reads downloaded
        ≡ some (m, record { read_buffer = rest; reads = reads; bytes_downloaded = downloaded })
  unfolding recv_loop
  recv_loop-some buffer rest [] downloaded m h = rw h refl
  recv_loop-some buffer rest (failed ∷ reads) downloaded m h = rw h refl
  recv_loop-some buffer rest (bytes_read [] ∷ reads) downloaded m h = rw h refl
  recv_loop-some buffer rest (bytes_read (b ∷ bytes) ∷ reads) downloaded m h = rw h refl

  pub recv_loop-none :
      (buffer bytes : List ℕ) (b : ℕ) (reads : List Read) (downloaded : ℕ)
      → buffered_message bencode buffer ≡ (none, buffer)
      → recv_loop bencode buffer (bytes_read (b ∷ bytes) ∷ reads) downloaded
        ≡ recv_loop bencode (buffer ++ b ∷ bytes) reads (downloaded + length (b ∷ bytes))
  unfolding recv_loop
  recv_loop-none buffer bytes b reads downloaded h = rw h refl

  recv_loop-whole :
      (body tail buffer : List ℕ) (reads : List Read) (downloaded : ℕ)
      → IsBody body
      → IsOpen reads
      → buffer ++ bytes_of reads ≡ frame_of body ++ tail
      → 4 + length body ≤ length buffer
      → IsReceived body tail (recv_loop bencode buffer reads downloaded)
  recv_loop-whole body tail buffer reads downloaded b o e whole =
      let (rest, split, left) =
        front_of buffer (bytes_of reads) (frame_of body) tail e (omega arith) in
      record {
        after = record { read_buffer = rest; reads = reads; bytes_downloaded = downloaded };
        done =
            recv_loop-some buffer rest reads downloaded
              (map_err decoding_failed (from_bytes bencode (frame_of body)))
              (ap (buffered_message bencode) split ∙ buffered_message-whole bencode body rest b);
        still_open = o;
        left = left;
      }

  recv_loop-IsReceived :
      (reads : List Read) (body tail buffer : List ℕ) (downloaded : ℕ)
      → IsBody body
      → IsOpen reads
      → buffer ++ bytes_of reads ≡ frame_of body ++ tail
      → IsReceived body tail (recv_loop bencode buffer reads downloaded)
  recv_loop-IsReceived [] body tail buffer downloaded b o e =
      let l : length (buffer ++ []) ≡ length (frame_of body ++ tail) = ap length e in
      recv_loop-whole body tail buffer [] downloaded b o e
        (omega (arith, l, length-append buffer [], length-append body tail))
  recv_loop-IsReceived (failed ∷ reads) body tail buffer downloaded b (o, os) e = absurd o
  recv_loop-IsReceived (bytes_read [] ∷ reads) body tail buffer downloaded b (o, os) e =
      absurd (omega arith)
  recv_loop-IsReceived (bytes_read (c ∷ bytes) ∷ reads) body tail buffer downloaded b (o, os) e =
      elim (Bool-cases (leb (4 + length body) (length buffer))) [
        | inl whole ↦
            recv_loop-whole body tail buffer (bytes_read (c ∷ bytes) ∷ reads) downloaded b (o, os) e
              (ground arith)
        | inr part ↦
            let first =
              buffered_message-part bencode body buffer (c ∷ bytes ++ bytes_of reads) tail b e
                (ground arith) in
            let next =
              recv_loop-IsReceived reads body tail (buffer ++ c ∷ bytes)
                (downloaded + length (c ∷ bytes)) b os
                (append_assoc buffer (c ∷ bytes) (bytes_of reads) ∙ e) in
            rw (recv_loop-none buffer bytes c reads downloaded first) next
      ]

  -- The messages that calls of `recv` give, one after the other, from a stream to another.
  pub data Receives
      : PeerStream → List (Outcome StreamError PeerMessages) → PeerStream → Type 0 where
    waits : (s : PeerStream) → Receives s [] s
    receives :
        (s t u : PeerStream) (m : Outcome StreamError PeerMessages)
        (ms : List (Outcome StreamError PeerMessages))
        → recv bencode s ≡ some (m, t)
        → Receives t ms u
        → Receives s (m ∷ ms) u

  abbrev pub frames_of : List (List ℕ) → List ℕ
  frames_of [] = []
  frames_of (body ∷ bodies) = frame_of body ++ frames_of bodies

  abbrev pub messages_of : List (List ℕ) → List (Outcome StreamError PeerMessages)
  messages_of [] = []
  messages_of (body ∷ bodies) =
      map_err decoding_failed (from_bytes bencode (frame_of body)) ∷ messages_of bodies

  -- While the transport neither fails nor ends, calls of `recv` give the decoding of each frame that is
  -- sent, in order, however the bytes are cut into reads, and leave what follows the frames. What follows
  -- a frame's prefix is of at most 1 MiB.
  pub recv-Receives :
      (bodies : List (List ℕ)) (tail : List ℕ) (s : PeerStream)
      → All IsBody bodies
      → IsOpen s.reads
      → s.read_buffer ++ bytes_of s.reads ≡ frames_of bodies ++ tail
      → (after : PeerStream) × Receives s (messages_of bodies) after
        × IsOpen after.reads
        × (after.read_buffer ++ bytes_of after.reads ≡ tail)
  unfolding recv
  recv-Receives [] tail s b o e = (s, waits s, o, e)
  recv-Receives (body ∷ bodies) tail s (b, bs) o e =
      let first =
        recv_loop-IsReceived s.reads body (frames_of bodies ++ tail) s.read_buffer
          s.bytes_downloaded b o (e ∙ append_assoc (frame_of body) (frames_of bodies) tail) in
      let (after, rest, o', left) =
        recv-Receives bodies tail first.after bs first.still_open first.left in
      (after, receives s first.after after _ (messages_of bodies) first.done rest, o', left)
