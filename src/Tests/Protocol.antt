-- ===== src/Tests/Protocol.antt =====
-- protocol/messages.rs at concrete inputs.
use tortillas.Prelude.{
  ℕ, ◌≤◌, ◌≡◌, ◌↔◌, refl, arith, true, some, List, [], ◌∷◌, ◌++◌, length, replicate,
}
use tortillas.Prelude.Outcome.{ok, panicked}
use tortillas.Protocol.Message.{new_extended, Handshake, PeerMessages, extended, magic_string}
use tortillas.Protocol.Bencode.{
  Bencode, BencodeEvent, dict_start, dict_end, dict_key, byte_string_value, number_value,
  event_length, get_extended_message_length,
}
use tortillas.Protocol.Bencode.Length.{
  IsEncoding, events_length, events_bytes, event_bytes, digits, digits_loop,
  get_extended_message_length-IsEncoding,
}
use tortillas.Protocol.Handshake as Shake
use tortillas.Protocol.Handshake.RoundTrip.{IsWellFormed, from_bytes-to_bytes}
use tortillas.Protocol.Codec.{to_bytes, from_bytes}
use tortillas.Protocol.Codec.RoundTrip.{received, from_bytes-to_bytes_received}
use tortillas.Protocol.Codec.Panics.{IsParser, from_bytes-panicked}

abbrev empty_dictionary : List ℕ
empty_dictionary = b'd' ∷ b'e' ∷ []

abbrev events_of : List ℕ → List BencodeEvent
events_of (a ∷ b ∷ rest) = dict_start ∷ dict_end ∷ []
events_of _ = []

-- A parser that knows the empty dictionary alone.
abbrev bencode : Bencode
bencode = record {
  to_bytes = λ message. some empty_dictionary;
  from_bytes = λ bytes. ok new_extended;
  events = events_of;
}

events_of-le : (bytes : List ℕ) → events_length (events_of bytes) ≤ length bytes
unfolding events_length event_length
events_of-le [] = omega arith
events_of-le (a ∷ []) = omega arith
events_of-le (a ∷ b ∷ rest) = omega arith

bencode-IsParser : IsParser bencode
bencode-IsParser = record { returns = λ bytes h. cc; within = events_of-le }

empty_dictionary-IsEncoding :
    (rest : List ℕ) → IsEncoding bencode new_extended empty_dictionary rest
unfolding events_bytes
empty_dictionary-IsEncoding rest = record {
  encodes = refl;
  parses = refl;
  body = [];
  more = [];
  dictionary = refl;
  closes = refl;
  canonical = refl;
}

abbrev metadata_message : PeerMessages
metadata_message = extended 3 (some new_extended) (some (1 ∷ 2 ∷ []))

from_bytes-to_bytes_received_example :
    (bytes : List ℕ) × (to_bytes bencode metadata_message ≡ ok bytes)
    × (from_bytes bencode (bytes ++ 7 ∷ []) ≡ ok (received metadata_message))
from_bytes-to_bytes_received_example =
    from_bytes-to_bytes_received bencode metadata_message (7 ∷ [])
      (empty_dictionary, empty_dictionary-IsEncoding (1 ∷ 2 ∷ []), omega arith, omega arith)

abbrev short_extended : List ℕ
short_extended = 0 ∷ 0 ∷ 0 ∷ 1 ∷ 20 ∷ []

from_bytes-panicked_example :
    (from_bytes bencode short_extended ≡ panicked)
    ↔ ((rest : List ℕ) × (short_extended ≡ 0 ∷ 0 ∷ 0 ∷ 1 ∷ 20 ∷ rest))
from_bytes-panicked_example =
    from_bytes-panicked bencode short_extended bencode-IsParser (omega arith)

abbrev greeting : Handshake
greeting = record {
  protocol = magic_string;
  reserved = replicate 8 0;
  info_hash = replicate 20 1;
  peer_id = replicate 20 2;
}

greeting-IsWellFormed : IsWellFormed greeting
greeting-IsWellFormed = record {
  protocol_fits = omega arith;
  reserved_width = refl;
  info_hash_width = refl;
  peer_id_width = refl;
}

from_bytes-to_bytes_example : Shake.from_bytes (Shake.to_bytes greeting ++ 9 ∷ []) ≡ ok greeting
from_bytes-to_bytes_example = from_bytes-to_bytes greeting (9 ∷ []) greeting-IsWellFormed

-- `d1:m3:abc1:ni-12ee`, with its events, whatever follows.
abbrev dictionary : List ℕ
dictionary =
    b'd' ∷ b'1' ∷ b':' ∷ b'm' ∷ b'3' ∷ b':' ∷ b'a' ∷ b'b' ∷ b'c' ∷ b'1' ∷ b':' ∷ b'n' ∷ b'i' ∷ b'-'
    ∷ b'1' ∷ b'2' ∷ b'e' ∷ b'e' ∷ []

abbrev dictionary_body : List BencodeEvent
dictionary_body =
    dict_key (b'm' ∷ [])
    ∷ byte_string_value (b'a' ∷ b'b' ∷ b'c' ∷ [])
    ∷ dict_key (b'n' ∷ [])
    ∷ number_value true 12
    ∷ []

abbrev dictionary_bencode : Bencode
dictionary_bencode = record {
  to_bytes = λ message. some dictionary;
  from_bytes = λ bytes. ok new_extended;
  events = λ bytes. dict_start ∷ (dictionary_body ++ dict_end ∷ []);
}

get_extended_message_length-IsEncoding_example :
    get_extended_message_length dictionary_bencode (dictionary ++ 5 ∷ []) ≡ 18
unfolding events_bytes event_bytes digits digits_loop
get_extended_message_length-IsEncoding_example =
    get_extended_message_length-IsEncoding dictionary_bencode new_extended dictionary (5 ∷ [])
      (record {
        encodes = refl;
        parses = refl;
        body = dictionary_body;
        more = [];
        dictionary = refl;
        closes = refl;
        canonical = refl;
      })
