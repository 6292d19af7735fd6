-- ===== src/Protocol/Stream.antt =====
-- protocol/stream.rs: `recv`, which reads messages off a peer's stream; its halves are in Reader and
-- Writer. The transport is the script of its reads; a read that gives no bytes is the end of the stream.
pub mod Framing
pub mod Receiving
pub mod Reader
pub mod Reading
pub mod Front
pub mod Same
pub mod Writer
pub mod Sending
pub mod Delivery
use tortillas.Prelude.{
  ℕ, ◌+◌, ◌*◌, ◌^◌, Bool, Option, none, some, List, [], ◌∷◌, ◌++◌, length, take, drop, ltb, eqb,
  if◌then◌else◌,
}
use tortillas.Prelude.Outcome.{Outcome, ok, err, map_err}
use tortillas.Bytes.{get_u32}
use tortillas.Protocol.Message.{PeerMessages, PeerActorError, keep_alive}
use tortillas.Protocol.Bencode.{Bencode}
use tortillas.Protocol.Codec.{from_bytes}

abbrev pub max_frame_payload_length : ℕ
max_frame_payload_length = 1024 * 1024

pub data StreamError : Type 0 where
  receive_failed send_failed end_of_stream : StreamError
  protocol_violation : ℕ → StreamError
  encoding_failed decoding_failed : PeerActorError → StreamError

pub data Read : Type 0 where
  bytes_read : List ℕ → Read
  failed : Read

pub record PeerStream : Type 0 where
  pub read_buffer : List ℕ
  pub reads : List Read
  pub bytes_downloaded : ℕ

module _ (bencode : Bencode) where
  abbrev pub Received : Type 0
  Received = Outcome StreamError PeerMessages

  -- After the prefix: `rest` is the buffer without it.
  unfoldable pub prefixed_message : List ℕ → ℕ → List ℕ → Option Received × List ℕ
  prefixed_message read_buffer len rest =
      if eqb len 0
      then (some (ok keep_alive), rest)
      else if ltb max_frame_payload_length len
      then (some (err (protocol_violation len)), read_buffer)
      else if ltb (length read_buffer) (4 + len)
      then (none, read_buffer)
      else (
        some (map_err decoding_failed (from_bytes bencode (take (4 + len) read_buffer))),
        drop (4 + len) read_buffer,
      )

  abbrev pub after_prefix : List ℕ → Option (ℕ × List ℕ) → Option Received × List ℕ
  after_prefix read_buffer none = (none, read_buffer)
  after_prefix read_buffer (some (len, rest)) = prefixed_message read_buffer len rest

  -- The message at the front of the buffer, if it is there, and the buffer after it.
  unfoldable pub buffered_message : List ℕ → Option Received × List ℕ
  buffered_message read_buffer = after_prefix read_buffer (get_u32 read_buffer)

  abbrev pub or_read :
      Option Received × List ℕ
      → List Read
      → ℕ
      → Option (Received × PeerStream)
      → Option (Received × PeerStream)
  or_read (some message, buffer) reads downloaded next =
      some (message, record { read_buffer = buffer; reads = reads; bytes_downloaded = downloaded })
  or_read (none, buffer) reads downloaded next = next

  -- The loop of `recv`; `none` waits for a read that is not there yet.
  unfoldable pub recv_loop : List ℕ → List Read → ℕ → Option (Received × PeerStream)
  recv_loop buffer [] downloaded = or_read (buffered_message buffer) [] downloaded none
  recv_loop buffer (failed ∷ reads) downloaded =
      or_read (buffered_message buffer) (failed ∷ reads) downloaded (
        some (
          err receive_failed,
          record { read_buffer = buffer; reads = reads; bytes_downloaded = downloaded },
        ))
  recv_loop buffer (bytes_read [] ∷ reads) downloaded =
      or_read (buffered_message buffer) (bytes_read [] ∷ reads) downloaded (
        some (
          err end_of_stream,
          record { read_buffer = buffer; reads = reads; bytes_downloaded = downloaded },
        ))
  recv_loop buffer (bytes_read (b ∷ bytes) ∷ reads) downloaded =
      or_read (buffered_message buffer) (bytes_read (b ∷ bytes) ∷ reads) downloaded
        (recv_loop (buffer ++ b ∷ bytes) reads (downloaded + length (b ∷ bytes)))

  unfoldable pub recv : PeerStream → Option (Received × PeerStream)
  recv s = recv_loop s.read_buffer s.reads s.bytes_downloaded
