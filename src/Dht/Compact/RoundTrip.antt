-- ===== src/Dht/Compact/RoundTrip.antt =====
-- Decoding compact contacts and peers.
use tortillas.Prelude.{
  ℕ, ◌*◌, ◌/◌, ◌%◌, ◌≡◌, refl, sym, ◌∙◌, arith, some, List, [], ◌∷◌, ◌++◌, length, length-append,
  take, drop, take-append_of_eq, drop-append_of_eq, All,
}
use mathlib.Core.List.{append_assoc}
use tortillas.Prelude.Outcome.{ok}
use tortillas.Bytes.{u16_be, IsU16}
use tortillas.Protocol.Message.{v4}
use tortillas.Dht.Compact.{
  SocketAddr, Contact, compact_addr, compact_node, encode_nodes, addr_of, decode_chunks,
  decode_nodes, encode_peer, encode_peers, decode_peers,
}

-- An IPv4 endpoint as the program can hold one.
abbrev pub IsIpv4 : SocketAddr → Type 0
IsIpv4 a = (octets : List ℕ) × (a.ip ≡ v4 octets) × (length octets ≡ 4) × IsU16 a.port

abbrev pub IsIpv4Contact : Contact → Type 0
IsIpv4Contact c = (length c.id ≡ 20) × IsIpv4 c.addr

addr_of-octets :
    (octets : List ℕ) (p : ℕ)
    → length octets ≡ 4
    → IsU16 p
    → addr_of (octets ++ u16_be p) ≡ record { ip = v4 octets; port = p }
unfolding addr_of
addr_of-octets (a ∷ b ∷ c ∷ d ∷ []) p l h = ground (arith, h)
addr_of-octets [] p l h = absurd (omega arith)
addr_of-octets (a ∷ []) p l h = absurd (omega arith)
addr_of-octets (a ∷ b ∷ []) p l h = absurd (omega arith)
addr_of-octets (a ∷ b ∷ c ∷ []) p l h = absurd (omega arith)
addr_of-octets (a ∷ b ∷ c ∷ d ∷ e ∷ rest) p l h = absurd (omega arith)

-- The bytes of an IPv4 endpoint, and the endpoint that they are read as.
compact_addr-ipv4 :
    (a : SocketAddr)
    → IsIpv4 a
    → (bytes : List ℕ) × (compact_addr a ≡ some bytes) × (length bytes ≡ 6) × (addr_of bytes ≡ a)
unfolding compact_addr
compact_addr-ipv4 a (octets, e, l, h) = (
  octets ++ u16_be a.port,
  rw e refl,
  omega (arith, l, length-append octets (u16_be a.port)),
  addr_of-octets octets a.port l h ∙ ground (arith, e),
)

-- IPv4 peers come back as they were encoded.
decode_peers-encode_peers :
    (peers : List SocketAddr) → All IsIpv4 peers → decode_peers (encode_peers peers) ≡ ok peers
unfolding decode_peers encode_peers encode_peer
decode_peers-encode_peers [] h = refl
decode_peers-encode_peers (a ∷ peers) (h, hs) =
    let (bytes, e, l, back) = compact_addr-ipv4 a h in
    rw (e, l, decode_peers-encode_peers peers hs, back) refl

-- A chunk of 26 bytes in front of others.
chunk :
    (id bytes rest : List ℕ)
    → length id ≡ 20
    → length bytes ≡ 6
    → (take 20 ((id ++ bytes) ++ rest) ≡ id)
      × (drop 20 (take 26 ((id ++ bytes) ++ rest)) ≡ bytes)
      × (drop 26 ((id ++ bytes) ++ rest) ≡ rest)
chunk id bytes rest l m =
    let size : 26 ≡ length (id ++ bytes) = omega (arith, l, m, length-append id bytes) in
    (
      rw (append_assoc id bytes rest) (take-append_of_eq 20 id (bytes ++ rest) (sym l)),
      rw (take-append_of_eq 26 (id ++ bytes) rest size) (drop-append_of_eq 20 id bytes (sym l)),
      drop-append_of_eq 26 (id ++ bytes) rest size,
    )

encode_chunks :
    (contacts : List Contact)
    → All IsIpv4Contact contacts
    → (length (encode_nodes contacts) ≡ 26 * length contacts)
      × (decode_chunks (length contacts) (encode_nodes contacts) ≡ contacts)
unfolding encode_nodes compact_node decode_chunks
encode_chunks [] h = (omega arith, refl)
encode_chunks (c ∷ contacts) ((l, h), hs) =
    let (bytes, e, m, back) = compact_addr-ipv4 c.addr h in
    let rest = encode_nodes contacts in
    let (size, decoded) = encode_chunks contacts hs in
    let (first, second, third) = chunk c.id bytes rest l m in
    (
      rw e
          (omega (arith, l, m, size, length-append (c.id ++ bytes) rest, length-append c.id bytes)),
      rw (e, first, second, third, back, decoded) refl,
    )

-- IPv4 contacts come back as they were encoded.
decode_nodes-encode_nodes :
    (contacts : List Contact)
    → All IsIpv4Contact contacts
    → decode_nodes (encode_nodes contacts) ≡ ok contacts
unfolding decode_nodes
decode_nodes-encode_nodes contacts h =
    let (size, decoded) = encode_chunks contacts h in
    let whole : length (encode_nodes contacts) % 26 ≡ 0 = omega (arith, size) in
    let chunks : length (encode_nodes contacts) / 26 ≡ length contacts = omega (arith, size) in
    rw (whole, chunks, decoded) refl
