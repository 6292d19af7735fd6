-- ===== src/Protocol/Message.antt =====
-- protocol/messages.rs: the messages, the handshake and the extended message as data.
use Prim.Native.String.{String}
use tortillas.Prelude.{ℕ, Option, none, some, List, [], ◌∷◌, Bool, string_eq}
use tortillas.Prelude.Map.{Map, lookup}
use tortillas.Prelude.Outcome.{Outcome, ok, err}

-- BEP 9 message types.
pub data ExtendedMessageType : Type 0 where
  request data_type reject : ExtendedMessageType

-- An IP address by its octets.
pub data IpAddr : Type 0 where
  v4 : List ℕ → IpAddr
  v6 : List ℕ → IpAddr

pub record ExtendedMessage : Type 0 where
  pub supported_extensions : Option (Map String ℕ)
  pub local_port : Option ℕ
  pub version : Option String
  pub your_ip : Option IpAddr
  pub ipv6 : Option (List ℕ)
  pub ipv4 : Option (List ℕ)
  pub outstanding_requests : Option ℕ
  pub metadata_size : Option ℕ
  pub msg_type : Option ExtendedMessageType
  pub piece : Option ℕ
  pub total_size : Option ℕ

-- `ExtendedMessage::default()`.
abbrev pub new_extended : ExtendedMessage
new_extended = record {
  supported_extensions = none;
  local_port = none;
  version = none;
  your_ip = none;
  ipv6 = none;
  ipv4 = none;
  outstanding_requests = none;
  metadata_size = none;
  msg_type = none;
  piece = none;
  total_size = none;
}

-- `m.get("ut_metadata")`; an error is its message.
unfoldable pub supports_bep_0009 : ExtendedMessage → Outcome String ℕ
unfolding lookup
supports_bep_0009 e = check e.supported_extensions
  where
    found : Option ℕ → Outcome String ℕ
    found (some id) = ok id
    found none = err "Peer does not support BEP 0009"

    check : Option (Map String ℕ) → Outcome String ℕ
    check (some m) = found (lookup "ut_metadata" m)
    check none = err "Peer did not send an m dict with the given Extended message"

pub record Handshake : Type 0 where
  pub protocol : List ℕ
  pub reserved : List ℕ
  pub info_hash : List ℕ
  pub peer_id : List ℕ

pub data PeerMessages : Type 0 where
  choke unchoke interested not_interested : PeerMessages
  have : ℕ → PeerMessages
  bitfield : List Bool → PeerMessages
  request : ℕ → ℕ → ℕ → PeerMessages
  piece : ℕ → ℕ → List ℕ → PeerMessages
  cancel : ℕ → ℕ → ℕ → PeerMessages
  extended : ℕ → Option ExtendedMessage → Option (List ℕ) → PeerMessages
  handshake : Handshake → PeerMessages
  keep_alive : PeerMessages

-- errors.rs: the errors that encoding and decoding return.
pub data PeerActorError : Type 0 where
  handshake_failed : String → PeerActorError
  message_parsing_failed : String → PeerActorError
  message_too_short : ℕ → ℕ → PeerActorError
  invalid_message_payload : String → PeerActorError

-- b"BitTorrent protocol".
abbrev pub magic_string : List ℕ
magic_string =
    b'B' ∷ b'i' ∷ b't' ∷ b'T' ∷ b'o' ∷ b'r' ∷ b'r' ∷ b'e' ∷ b'n' ∷ b't' ∷ b' ' ∷ b'p' ∷ b'r' ∷ b'o'
    ∷ b't' ∷ b'o' ∷ b'c' ∷ b'o' ∷ b'l' ∷ []
