-- ===== src/Tests/Stream.antt =====
-- protocol/stream.rs at a concrete stream.
use tortillas.Prelude.{ℕ, ◌+◌, ◌≤◌, length, ◌≡◌, refl, arith, some, List, [], ◌∷◌, ◌++◌, map, All}
use tortillas.Prelude.Outcome.{ok}
use tortillas.Protocol.Message.{new_extended, PeerMessages, have, piece}
use tortillas.Protocol.Bencode.{Bencode}
use tortillas.Protocol.Codec.{
  encode, into_bytes, to_bytes, create_message_with_id, create_piece_header,
}
use tortillas.Protocol.Codec.RoundTrip.{received}
use tortillas.Protocol.Stream.{PeerStream, bytes_read, recv}
use tortillas.Protocol.Stream.Framing.{IsOpen, bytes_of}
use tortillas.Protocol.Stream.Receiving.{Receives, messages_of, recv-Receives}
use tortillas.Protocol.Stream.Reader.{split}
use tortillas.Protocol.Stream.Reader as Reader
use tortillas.Protocol.Stream.Same.{IsSame, recv-IsSame}
use tortillas.Protocol.Stream.Writer.{
  accepts, PeerWriter, slice, chain, poll_write, send, send_encoded,
}
use tortillas.Protocol.Stream.Sending.{IsSend, IsTaking, send-IsSend, send-sent}
use tortillas.Protocol.Stream.Delivery.{IsSendable, Sends, rests, sends, Sends-Receives}
use tortillas.Tests.Io.{
  read_exact, read_exact-IsReadExact, write_loop, write_all, slice-IsWriteAll, chain-IsWriteAll,
}

abbrev bencode : Bencode
bencode = record {
  to_bytes = λ message. some [];
  from_bytes = λ bytes. ok new_extended;
  events = λ bytes. [];
}

-- A keep-alive and a have, cut within their prefixes and within the have, and the start of another
-- frame.
abbrev stream : PeerStream
stream = record {
  read_buffer = 0 ∷ 0 ∷ 0 ∷ [];
  reads =
      bytes_read (0 ∷ 0 ∷ [])
      ∷ bytes_read (0 ∷ 0 ∷ 5 ∷ 4 ∷ 0 ∷ [])
      ∷ bytes_read (0 ∷ 0 ∷ 7 ∷ 0 ∷ [])
      ∷ [];
  bytes_downloaded = 3;
}

abbrev bodies : List (List ℕ)
bodies = [] ∷ (4 ∷ 0 ∷ 0 ∷ 0 ∷ 7 ∷ []) ∷ []

recv-Receives_example :
    (after : PeerStream) × Receives bencode stream (messages_of bencode bodies) after
    × IsOpen after.reads
    × (after.read_buffer ++ bytes_of after.reads ≡ 0 ∷ [])
recv-Receives_example =
    recv-Receives bencode bodies (0 ∷ []) stream (omega arith, (omega arith, tt))
      (omega arith, (omega arith, (omega arith, tt))) refl

recv-IsSame_example : IsSame (recv bencode stream) (Reader.recv bencode read_exact (split stream))
unfolding split
recv-IsSame_example =
    recv-IsSame bencode read_exact read_exact-IsReadExact stream (split stream)
      (omega arith, (omega arith, (omega arith, tt)))
      (omega arith, (omega arith, (omega arith, tt))) refl

-- A transport that takes two, then nine bytes.
abbrev writer : PeerWriter
writer = record {
  writes = accepts 2 ∷ accepts 9 ∷ accepts 1 ∷ accepts 20 ∷ [];
  written = [];
  bytes_uploaded = 0;
}

abbrev sent_first : PeerWriter
sent_first = record {
  writes = accepts 1 ∷ accepts 20 ∷ [];
  written = 0 ∷ 0 ∷ 0 ∷ 5 ∷ 4 ∷ 0 ∷ 0 ∷ 0 ∷ 7 ∷ [];
  bytes_uploaded = 9;
}

abbrev sent_second : PeerWriter
sent_second = record {
  writes = [];
  written =
      0 ∷ 0 ∷ 0 ∷ 5 ∷ 4 ∷ 0 ∷ 0 ∷ 0 ∷ 7 ∷ 0 ∷ 0 ∷ 0 ∷ 11 ∷ 7 ∷ 0 ∷ 0 ∷ 0 ∷ 1 ∷ 0 ∷ 0 ∷ 0 ∷ 0 ∷ 65
      ∷ 66 ∷ [];
  bytes_uploaded = 24;
}

abbrev messages : List PeerMessages
messages = have 7 ∷ piece 1 0 (65 ∷ 66 ∷ []) ∷ []

messages-Sends : Sends bencode (write_all slice) (write_all chain) writer messages sent_second
unfolding send send_encoded encode into_bytes create_message_with_id create_piece_header write_all
    write_loop poll_write
messages-Sends = sends writer sent_first sent_second (have 7) (piece 1 0 (65 ∷ 66 ∷ []) ∷ []) refl (
    sends sent_first sent_second sent_second (piece 1 0 (65 ∷ 66 ∷ [])) [] refl (rests sent_second))

messages-IsSendable : All (IsSendable bencode) messages
unfolding to_bytes encode into_bytes create_message_with_id create_piece_header
messages-IsSendable = (
  (omega arith, tt, omega arith),
  (((omega arith, omega arith, omega arith), tt, omega arith), tt),
)

abbrev arriving : PeerStream
arriving = record {
  read_buffer = 0 ∷ 0 ∷ [];
  reads =
      bytes_read (0 ∷ 5 ∷ 4 ∷ 0 ∷ 0 ∷ 0 ∷ 7 ∷ 0 ∷ 0 ∷ 0 ∷ [])
      ∷ bytes_read (11 ∷ 7 ∷ 0 ∷ 0 ∷ 0 ∷ 1 ∷ 0 ∷ 0 ∷ 0 ∷ 0 ∷ 65 ∷ 66 ∷ [])
      ∷ [];
  bytes_downloaded = 2;
}

Sends-Receives_example :
    (t : PeerStream) × Receives bencode arriving (map (λ m. ok (received m)) messages) t
    × IsOpen t.reads
    × (t.read_buffer ++ bytes_of t.reads ≡ [])
Sends-Receives_example =
    Sends-Receives bencode (write_all slice) (write_all chain) slice-IsWriteAll chain-IsWriteAll
      messages writer sent_second arriving messages-IsSendable messages-Sends
      (omega arith, (omega arith, tt)) refl

send-IsSend_example :
    IsSend
      (0 ∷ 0 ∷ 0 ∷ 5 ∷ 4 ∷ 0 ∷ 0 ∷ 0 ∷ 7 ∷ [])
      writer
      (send bencode (write_all slice) (write_all chain) (have 7) writer)
unfolding to_bytes encode into_bytes create_message_with_id
send-IsSend_example =
    send-IsSend bencode (write_all slice) (write_all chain) slice-IsWriteAll chain-IsWriteAll
      (have 7) (0 ∷ 0 ∷ 0 ∷ 5 ∷ 4 ∷ 0 ∷ 0 ∷ 0 ∷ 7 ∷ []) writer refl

abbrev slow : PeerWriter
slow = record {
  writes =
      accepts 3
      ∷ accepts 1
      ∷ accepts 9
      ∷ accepts 1
      ∷ accepts 1
      ∷ accepts 1
      ∷ accepts 1
      ∷ accepts 1
      ∷ accepts 1
      ∷ [];
  written = 1 ∷ [];
  bytes_uploaded = 1;
}

slow-IsTaking : IsTaking slow.writes
slow-IsTaking = (
  omega arith,
  (
    omega arith,
    (
      omega arith,
      (omega arith, (omega arith, (omega arith, (omega arith, (omega arith, (omega arith, tt)))))),
    ),
  ),
)

send-sent_example :
    (after : PeerWriter) × (send bencode (write_all slice) (write_all chain) (have 7) slow
      ≡ some (ok tt, after))
    × (after.written ≡ 1 ∷ 0 ∷ 0 ∷ 0 ∷ 5 ∷ 4 ∷ 0 ∷ 0 ∷ 0 ∷ 7 ∷ [])
    × IsTaking after.writes
    × (9 ≤ length after.writes + 9)
unfolding to_bytes encode into_bytes create_message_with_id
send-sent_example =
    send-sent bencode (write_all slice) (write_all chain) slice-IsWriteAll chain-IsWriteAll (have 7)
      (0 ∷ 0 ∷ 0 ∷ 5 ∷ 4 ∷ 0 ∷ 0 ∷ 0 ∷ 7 ∷ []) slow refl slow-IsTaking (omega arith)
