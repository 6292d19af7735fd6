-- ===== src/Protocol/Handshake.antt =====
-- protocol/messages.rs: `Handshake`. A peer id is its 20 bytes: the client that the enum `PeerId`
-- names is computed from them.
pub mod RoundTrip
use Prim.Native.String.{String}
use tortillas.Prelude.{
  ℕ, zero, suc, ◌+◌, ◌-◌, ◌%◌, Bool, true, false, not, List, [], ◌∷◌, ◌++◌, length, take, drop, leb,
  replicate, list_eqb, nat_eq, if◌then◌else◌,
}
use tortillas.Prelude.Outcome.{Outcome, ok, err, ensure, ◌>>=◌, ◌>>◌, unwrap}
use tortillas.Bytes.{slice, get_u8}
use tortillas.Protocol.Message.{Handshake, magic_string}

-- BEP 10 support is bit 0x10 of reserved byte 5.
unfoldable pub new : List ℕ → List ℕ → Handshake
new info_hash peer_id = record {
  protocol = magic_string;
  reserved = 0 ∷ 0 ∷ 0 ∷ 0 ∷ 0 ∷ 0x10 ∷ 0 ∷ 0 ∷ [];
  info_hash = info_hash;
  peer_id = peer_id;
}

-- `protocol.len() as u8` wraps.
unfoldable pub to_bytes : Handshake → List ℕ
to_bytes h = (length h.protocol % 256) ∷ (h.protocol ++ (h.reserved ++ (h.info_hash ++ h.peer_id)))

unfoldable pub from_bytes : List ℕ → Outcome String Handshake
unfolding get_u8
from_bytes [] = err "handshake too short"
from_bytes (protocol_len ∷ rest) =
    let bytes = protocol_len ∷ rest in
    let total_expected_len = 1 + protocol_len + 8 + 40 in
    do
      ensure (leb total_expected_len (length bytes)) "handshake too short"
      let protocol_bytes = slice 1 (1 + protocol_len) bytes
      ok (record {
        protocol = if list_eqb protocol_bytes magic_string then magic_string else protocol_bytes;
        reserved = slice (1 + protocol_len) (1 + protocol_len + 8) bytes;
        info_hash = slice (1 + protocol_len + 8) (1 + protocol_len + 8 + 20) bytes;
        peer_id = slice (1 + protocol_len + 8 + 20) (1 + protocol_len + 8 + 40) bytes;
      })
