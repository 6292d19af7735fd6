-- ===== src/Dht/Compact.antt =====
-- dht/compact.rs: contacts and peers in BEP 5's compact form.
pub mod RoundTrip
use Prim.Native.String.{String}
use tortillas.Prelude.{
  ℕ, zero, suc, ◌+◌, ◌*◌, ◌/◌, ◌%◌, ◌≡◌, ◌↔◌, refl, arith, Bool, true, false, ◌&&◌, Option, none,
  some, List, [], ◌∷◌, ◌++◌, length, take, drop, eqb, eqb_iff, if◌then◌else◌, PartialEq, list_eqb,
  list_eqb_iff, nat_eq,
}
use tortillas.Prelude.Outcome.{Outcome, ok, err, ◌>>=◌}
use tortillas.Bytes.{u16_be}
use tortillas.Protocol.Message.{IpAddr, v4, v6}
use tortillas.Dht.Id.{NodeId, dht_id_len}

pub record SocketAddr : Type 0 where
  pub ip : IpAddr
  pub port : ℕ

abbrev ip_same : IpAddr → IpAddr → Bool
ip_same (v4 a) (v4 b) = list_eqb a b
ip_same (v6 a) (v6 b) = list_eqb a b
ip_same _ _ = false

ip_same_iff : (a b : IpAddr) → (ip_same a b ≡ true) ↔ (a ≡ b)
ip_same_iff (v4 a) (v4 b) = ground (arith, list_eqb_iff a b)
ip_same_iff (v4 a) (v6 b) = ground arith
ip_same_iff (v6 a) (v4 b) = ground arith
ip_same_iff (v6 a) (v6 b) = ground (arith, list_eqb_iff a b)

abbrev addr_same : SocketAddr → SocketAddr → Bool
addr_same a b = ip_same a.ip b.ip && eqb a.port b.port

pub addr_same_iff : (a b : SocketAddr) → (addr_same a b ≡ true) ↔ (a ≡ b)
addr_same_iff a b = ground (arith, ip_same_iff a.ip b.ip, eqb_iff a.port b.port)

instance abbrev pub addr_eq : PartialEq SocketAddr
addr_eq = record { is_same = addr_same; is_same_iff = addr_same_iff }

pub record Contact : Type 0 where
  pub id : NodeId
  pub addr : SocketAddr

abbrev pub compact_node_len : ℕ
compact_node_len = 26

abbrev pub compact_peer_len : ℕ
compact_peer_len = 6

-- The address's octets and port, of an IPv4 address.
unfoldable pub compact_addr : SocketAddr → Option (List ℕ)
compact_addr a = octets_of a.ip
  where
    octets_of : IpAddr → Option (List ℕ)
    octets_of (v4 octets) = some (octets ++ u16_be a.port)
    octets_of (v6 octets) = none

-- One round of the loop of `encode_nodes`; `continue` adds nothing.
unfoldable pub compact_node : NodeId → Option (List ℕ) → List ℕ
compact_node id none = []
compact_node id (some addr) = id ++ addr

unfoldable pub encode_nodes : List Contact → List ℕ
encode_nodes [] = []
encode_nodes (contact ∷ contacts) =
    compact_node contact.id (compact_addr contact.addr) ++ encode_nodes contacts

-- `Ipv4Addr::new` and `u16::from_be_bytes` on six bytes; a chunk has them, so that the last case
-- does not arise.
unfoldable pub addr_of : List ℕ → SocketAddr
addr_of (a ∷ b ∷ c ∷ d ∷ p ∷ q ∷ []) = record { ip = v4 (a ∷ b ∷ c ∷ d ∷ []); port = p * 256 + q }
addr_of _ = record { ip = v4 []; port = 0 }

-- `as_chunks`, for a number of whole chunks.
unfoldable pub decode_chunks : ℕ → List ℕ → List Contact
decode_chunks zero bytes = []
decode_chunks (suc chunks) bytes =
    record {
      id = take dht_id_len bytes;
      addr = addr_of (drop dht_id_len (take compact_node_len bytes));
    }
    ∷ decode_chunks chunks (drop compact_node_len bytes)

unfoldable pub decode_nodes : List ℕ → Outcome String (List Contact)
decode_nodes bytes =
    if eqb (length bytes % compact_node_len) 0
    then ok (decode_chunks (length bytes / compact_node_len) bytes)
    else err "compact DHT nodes must be a multiple of 26 bytes"

unfoldable pub encode_peer : Option (List ℕ) → List (List ℕ) → List (List ℕ)
encode_peer none rest = rest
encode_peer (some bytes) rest = bytes ∷ rest

unfoldable pub encode_peers : List SocketAddr → List (List ℕ)
encode_peers [] = []
encode_peers (peer ∷ peers) = encode_peer (compact_addr peer) (encode_peers peers)

-- The first value of a wrong length is the error.
unfoldable pub decode_peers : List (List ℕ) → Outcome String (List SocketAddr)
decode_peers [] = ok []
decode_peers (peer ∷ values) =
    let rest = decode_peers values in
    if eqb (length peer) compact_peer_len
    then (rest >>= λ peers. ok (addr_of peer ∷ peers))
    else err "compact DHT peers must contain exactly 6 bytes"
