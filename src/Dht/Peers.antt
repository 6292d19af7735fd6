-- ===== src/Dht/Peers.antt =====
-- dht/peers.rs: the peers that were announced, for as long as they live. The readings of the clock in
-- one call are one reading here. `arrange` is the order in which a map's entries come.
pub mod Expiry
pub mod Found
use tortillas.Prelude.{
  ℕ, ◌-◌, ◌/◌, Bool, true, false, not, ◌&&◌, ◌||◌, Option, none, some, List, [], ◌∷◌, map, take,
  all, ltb, leb, eqb, if◌then◌else◌, list_eq, nat_eq,
}
use tortillas.Prelude.Map.{Map, lookup, remove, insert, retain}
use tortillas.Protocol.Message.{IpAddr, v4, v6}
use tortillas.Dht.Id.{NodeId}
use tortillas.Dht.Compact.{SocketAddr, addr_eq}

abbrev pub prune_interval_divisor : ℕ
prune_interval_divisor = 4

-- When each peer was last announced.
abbrev pub Announced : Type 0
Announced = Map SocketAddr ℕ

pub record PeerStore : Type 0 where
  pub peers : Map NodeId Announced
  pub ttl : ℕ
  pub prune_interval : ℕ
  pub last_pruned : ℕ

unfoldable pub new : ℕ → ℕ → PeerStore
new ttl now = record {
  peers = [];
  ttl = ttl;
  prune_interval = ttl / prune_interval_divisor;
  last_pruned = now;
}

-- `is_unspecified`: all octets are zero.
abbrev pub is_unspecified : IpAddr → Bool
is_unspecified (v4 octets) = all (λ b. eqb b 0) octets
is_unspecified (v6 octets) = all (λ b. eqb b 0) octets

-- An instant before the clock's origin cannot be had, and is now.
unfoldable pub expiration_cutoff : PeerStore → ℕ → ℕ
expiration_cutoff s now = if leb s.ttl now then now - s.ttl else now

-- `retain` of what was announced no earlier than the cutoff.
abbrev pub retain_announced : ℕ → Announced → Announced
retain_announced cutoff peers = retain (λ announced_at. leb cutoff announced_at) peers

abbrev pub is_empty {ℓ} : {A : Type ℓ} → List A → Bool
is_empty [] = true
is_empty (x ∷ xs) = false

unfoldable pub prune_peers : ℕ → Map NodeId Announced → Map NodeId Announced
prune_peers cutoff [] = []
prune_peers cutoff ((info_hash, peers) ∷ m) =
    let rest = prune_peers cutoff m in
    let kept = retain_announced cutoff peers in
    if is_empty kept then rest else (info_hash, kept) ∷ rest

unfoldable pub prune : PeerStore → ℕ → PeerStore
prune s now = record s { last_pruned = now; peers = prune_peers (expiration_cutoff s now) s.peers }

unfoldable pub prune_if_due : PeerStore → ℕ → PeerStore
prune_if_due s now = if leb s.prune_interval (now - s.last_pruned) then prune s now else s

-- `entry(..).or_default()`.
abbrev pub or_default : Option Announced → Announced
or_default none = []
or_default (some peers) = peers

unfoldable pub announce : PeerStore → NodeId → SocketAddr → ℕ → Bool × PeerStore
announce s info_hash peer now =
    if eqb peer.port 0 || is_unspecified peer.ip
    then (false, s)
    else (let pruned = prune_if_due s now in
        (
          true,
          record pruned {
            peers =
                insert info_hash (insert peer now (or_default (lookup info_hash pruned.peers)))
                  pruned.peers;
          },
        ))

module _ (arrange : Announced → Announced) where
  -- The rest of `get`, of the peers found.
  unfoldable pub get_of :
      PeerStore → NodeId → ℕ → ℕ → Option Announced → List SocketAddr × PeerStore
  get_of s info_hash limit cutoff none = ([], s)
  get_of s info_hash limit cutoff (some peers) =
      let kept = retain_announced cutoff peers in
      (
        take limit (map (λ e. e.0) (arrange kept)),
        record s {
          peers = if is_empty kept then remove info_hash s.peers else insert info_hash kept s.peers;
        },
      )

  unfoldable pub get : PeerStore → NodeId → ℕ → ℕ → List SocketAddr × PeerStore
  get s info_hash limit now =
      let pruned = prune_if_due s now in
      get_of pruned info_hash limit (expiration_cutoff pruned now) (lookup info_hash pruned.peers)
