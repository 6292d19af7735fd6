-- ===== src/Protocol/Bencode.antt =====
-- protocol/messages.rs: what the codec takes from the bencode crates, and
-- `get_extended_message_length`.
pub mod Length
use Prim.Native.String.{String}
use tortillas.Prelude.{
  ℕ, zero, suc, ◌+◌, ◌-◌, ◌/◌, ◌<◌, ◌≡◌, Option, none, some, List, [], ◌∷◌, ◌++◌, length, ltb, eqb,
  Bool, true, false, if◌then◌else◌,
}
use tortillas.Prelude.Outcome.{Outcome}
use tortillas.Protocol.Message.{ExtendedMessage}

-- `NumberValue` carries a sign and a magnitude.
pub data BencodeEvent : Type 0 where
  number_value : Bool → ℕ → BencodeEvent
  byte_string_value : List ℕ → BencodeEvent
  list_start list_end dict_start dict_end : BencodeEvent
  dict_key : List ℕ → BencodeEvent
  parse_error : BencodeEvent

-- `serde_bencode::to_bytes`, `serde_bencode::from_bytes` and `StreamingParser`, which the
-- repository does not hold. `to_bytes` is `none` where serialisation fails.
pub record Bencode : Type 0 where
  pub to_bytes : ExtendedMessage → Option (List ℕ)
  pub from_bytes : List ℕ → Outcome String ExtendedMessage
  pub events : List ℕ → List BencodeEvent

-- `n.to_string().len()`, by division.
unfoldable decimal_loop : ℕ → ℕ → ℕ
decimal_loop zero n = 1
decimal_loop (suc fuel) n =
    let rest = decimal_loop fuel (n / 10) in if ltb n 10 then 1 else rest + 1

unfoldable pub decimal_length : ℕ → ℕ
unfolding decimal_loop
decimal_length n = decimal_loop n n

-- What one event adds to `extended_message_length`.
unfoldable pub event_length : BencodeEvent → ℕ
unfolding decimal_length
event_length (number_value negative n) = decimal_length n + (if negative then 1 else 0) + 2
event_length (byte_string_value bytes) = decimal_length (length bytes) + 1 + length bytes
event_length (dict_key bytes) = decimal_length (length bytes) + 1 + length bytes
event_length list_start = 1
event_length list_end = 1
event_length dict_start = 1
event_length dict_end = 1
event_length parse_error = 0

-- The loop over the events: `depth` is the height of `stack`, and `len` what has been counted.
unfoldable pub message_length_loop : ℕ → ℕ → List BencodeEvent → ℕ
message_length_loop depth len [] = len
message_length_loop depth len (dict_start ∷ events) =
    message_length_loop (depth + 1) (len + 1) events
message_length_loop depth len (dict_end ∷ events) =
    let rest = message_length_loop (depth - 1) (len + 1) events in
    if eqb (depth - 1) 0 then len + 1 else rest
message_length_loop depth len (parse_error ∷ events) = len
message_length_loop depth len (event ∷ events) =
    message_length_loop depth (len + event_length event) events

unfoldable pub get_extended_message_length : Bencode → List ℕ → ℕ
get_extended_message_length bencode payload = message_length_loop 0 0 (bencode.events payload)
