-- ===== src/Protocol/Stream/Reader.antt =====
-- protocol/stream.rs: `split`, the reader half and the `recv` that the trait `PeerRecv` gives it, which
-- reads a frame by tokio's `read_exact`.
use tortillas.Prelude.{
  ℕ, suc, ◌+◌, ◌-◌, ◌≡◌, Option, none, some, List, [], ◌∷◌, ◌++◌, length, take, drop, ltb, eqb,
  if◌then◌else◌,
}
use tortillas.Prelude.Outcome.{Outcome, ok, err, panicked, map_err}
use tortillas.Bytes.{get_u32}
use tortillas.Protocol.Message.{PeerMessages, keep_alive}
use tortillas.Protocol.Bencode.{Bencode}
use tortillas.Protocol.Codec.{from_bytes}
use tortillas.Protocol.Stream.{
  StreamError, receive_failed, end_of_stream, protocol_violation, decoding_failed, Read, bytes_read,
  failed, PeerStream, max_frame_payload_length,
}

pub record PeerReader : Type 0 where
  pub read_buffer : List ℕ
  pub reads : List Read
  pub bytes_downloaded : ℕ

-- The result of an `async fn` on a state; `none` waits.
abbrev pub Polled {ℓ κ} : Type ℓ → Type κ → Type (ℓ ⊔ κ)
Polled S A = Option (Outcome StreamError A × S)

-- `.await?`
abbrev pub and_then {ℓ κ μ} :
    {S : Type ℓ} {A : Type κ} {B : Type μ} → Polled S A → (A → S → Polled S B) → Polled S B
and_then none next = none
and_then (some (ok a, s)) next = next a s
and_then (some (err e, s)) next = some (err e, s)
and_then (some (panicked, s)) next = some (panicked, s)

-- The reader of `split`: what the stream has buffered is passed on.
unfoldable pub split : PeerStream → PeerReader
split s = record {
  read_buffer = s.read_buffer;
  reads = s.reads;
  bytes_downloaded = s.bytes_downloaded;
}

-- The transport's `poll_read` into a buffer with `room`: what does not fit is there for the next one.
unfoldable pub poll_transport : ℕ → List Read → Option (Outcome StreamError (List ℕ) × List Read)
poll_transport room [] = none
poll_transport room (failed ∷ reads) = some (err receive_failed, reads)
poll_transport room (bytes_read bytes ∷ reads) =
    if ltb room (length bytes)
    then some (ok (take room bytes), bytes_read (drop room bytes) ∷ reads)
    else some (ok bytes, reads)

-- The end of `poll_read`: the bytes of the transport are counted.
abbrev pub counted :
    PeerReader → Option (Outcome StreamError (List ℕ) × List Read) → Polled PeerReader (List ℕ)
counted r none = none
counted r (some (ok bytes, reads)) = some (
  ok bytes,
  record {
    read_buffer = r.read_buffer;
    reads = reads;
    bytes_downloaded = r.bytes_downloaded + length bytes;
  },
)
counted r (some (err e, reads)) = some (
  err e,
  record { read_buffer = r.read_buffer; reads = reads; bytes_downloaded = r.bytes_downloaded },
)
counted r (some (panicked, reads)) = some (
  panicked,
  record { read_buffer = r.read_buffer; reads = reads; bytes_downloaded = r.bytes_downloaded },
)

-- `PeerReader::poll_read`: what is buffered comes first, and is not counted again.
unfoldable pub poll_read : ℕ → PeerReader → Polled PeerReader (List ℕ)
unfolding poll_transport
poll_read room r =
    if eqb (length r.read_buffer) 0
    then counted r (poll_transport room r.reads)
    else some (
      ok (take room r.read_buffer),
      record {
        read_buffer = drop room r.read_buffer;
        reads = r.reads;
        bytes_downloaded = r.bytes_downloaded;
      },
    )

-- tokio's `read_exact` over a `poll_read`: it reads until it has all it was asked for; a read of no
-- bytes is the end of the stream, an error is passed on.
module _ {ℓ} {S : Type ℓ} (poll : ℕ → S → Polled S (List ℕ))
    (read_exact : ℕ → S → Polled S (List ℕ)) where
  abbrev pub read_on : ℕ → Polled S (List ℕ) → Polled S (List ℕ)
  read_on n none = none
  read_on n (some (err e, s)) = some (err e, s)
  read_on n (some (panicked, s)) = some (panicked, s)
  read_on n (some (ok [], s)) = some (err end_of_stream, s)
  read_on n (some (ok (b ∷ bytes), s)) =
      and_then (read_exact (n - length (b ∷ bytes)) s) (λ more s. some (ok (b ∷ bytes ++ more), s))

  pub record IsReadExact : Type ℓ where
    pub all_read : (s : S) → read_exact 0 s ≡ some (ok [], s)
    pub reads_on : (n : ℕ) (s : S) → read_exact (suc n) s ≡ read_on (suc n) (poll (suc n) s)

module _ {ℓ} {S : Type ℓ} (bencode : Bencode) (read_exact : ℕ → S → Polled S (List ℕ)) where
  -- What follows the length prefix, whose bytes are `length_buf`.
  unfoldable pub recv_rest : List ℕ → Option (ℕ × List ℕ) → S → Polled S PeerMessages
  recv_rest length_buf none s = some (panicked, s)
  recv_rest length_buf (some (len, _)) s =
      if eqb len 0
      then some (ok keep_alive, s)
      else if ltb max_frame_payload_length len
      then some (err (protocol_violation len), s)
      else and_then (read_exact 1 s) λ message_type s.
        and_then (read_exact (len - 1) s) λ payload s. some (
          map_err decoding_failed (from_bytes bencode (length_buf ++ (message_type ++ payload))),
          s,
        )

  -- The trait's own `recv`. The prefix that `read_exact` gives has four bytes.
  unfoldable pub recv : S → Polled S PeerMessages
  recv s = and_then (read_exact 4 s) λ length_buf s. recv_rest length_buf (get_u32 length_buf) s
