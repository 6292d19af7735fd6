-- ===== src/Tests/Lookup.antt =====
-- dht/lookup.rs and dht/actor.rs at concrete inputs.
use mathlib.Core.List.Permᴰ
use tortillas.Prelude.{
  ℕ, ◌+◌, ◌≤◌, ◌≡◌, ◌++◌, refl, arith, false, some, List, [], ◌∷◌, replicate, All, length, map,
  list_eq, nat_eq,
}
use tortillas.Prelude.Map.{lookup}
use tortillas.Prelude.Sort.{IsSorted}
use tortillas.Protocol.Message.{v4}
use tortillas.Dht.Id.{NodeId}
use tortillas.Dht.Compact.{SocketAddr, addr_eq, Contact, addr_of, decode_chunks, decode_nodes}
use tortillas.Dht.Routing.{new}
use tortillas.Dht.Routing.Tables.{new-IsTable}
use tortillas.Dht.Peers as Peers
use tortillas.Dht.Lookup.{Answer, LookupResult, nodes_of, discovered, closer_entry, lookup_peers}
use tortillas.Dht.Lookup.Rounds.{Finds}
use tortillas.Dht.Lookup.Ends.{IsAt, IsWithin}
use tortillas.Dht.Lookup.Found.{Gave, IsNamed, lookup_peers-found}
use tortillas.Dht.Actor.{DhtActor, sleeps, lookup_finished, handle}
use tortillas.Dht.Actor.Tasks.{IsScheduled, IsHandled, handle-IsScheduled}

abbrev id_of : ℕ → NodeId
id_of n = n ∷ replicate 19 0

abbrev addr : ℕ → SocketAddr
addr n = record { ip = v4 (192 ∷ 0 ∷ 2 ∷ n ∷ []); port = 6881 }

abbrev seed : Contact
seed = record { id = id_of 1; addr = addr 1 }

-- Every node knows the node 2, at 192.0.2.2:6881, and a peer at 192.0.2.9:6881, and gives a token.
abbrev answer : Contact → Answer
answer c = (
  c,
  some (record {
    id = c.id;
    nodes = some (id_of 2 ++ 192 ∷ 0 ∷ 2 ∷ 2 ∷ 26 ∷ 225 ∷ []);
    token = some (7 ∷ 7 ∷ []);
    values = some ((192 ∷ 0 ∷ 2 ∷ 9 ∷ 26 ∷ 225 ∷ []) ∷ []);
  }),
)

abbrev network : List SocketAddr → List Contact → List Answer
network queried batch = map answer batch

abbrev addrs : List SocketAddr
addrs = addr 1 ∷ addr 2 ∷ []

network-IsWithin : IsWithin addrs network
network-IsWithin queried [] = tt
network-IsWithin queried (c ∷ batch) = (found, network-IsWithin queried batch)
  where
    found : Finds (IsAt addrs) (answer c)
    found = unfold nodes_of decode_nodes decode_chunks addr_of discovered in (refl, tt)

lookup_peers-found_example :
    (result : LookupResult) × (lookup_peers network
        (λ xs. xs)
        (id_of 3)
        2
        5
        8
        (length addrs + 1)
        (seed ∷ [])
      ≡ some result)
    × (length result.peers ≤ 5)
    × All (IsNamed network) result.peers
    × IsSorted (closer_entry (id_of 3)) result.announce_candidates
    × All (Gave network) result.announce_candidates
lookup_peers-found_example =
    lookup_peers-found network (λ xs. xs) (λ xs. Permᴰ.refl xs) (id_of 3) 2 5 8 addrs (seed ∷ [])
      network-IsWithin (refl, tt)

-- One torrent is registered, and its lookup runs.
abbrev actor : DhtActor
actor = record {
  state = record {
    routing = new (id_of 0) 8;
    tokens = record {
      current_secret = [];
      previous_secret = [];
      rotated_at = 0;
      rotation_interval = 300;
    };
    peers = Peers.new 100 0;
    peer_limit = 10;
    bucket_size = 8;
  };
  bucket_size = 8;
  torrents = (id_of 3, 6881) ∷ [];
  lookup_tasks = (id_of 3, sleeps) ∷ [];
  untracked = [];
  announce_tasks = [];
  forwarded = [];
  sent = [];
}

actor-IsScheduled : IsScheduled actor
unfolding lookup
actor-IsScheduled h = ground arith

-- Its lookup found a peer, and a node failed; the torrent has gone.
abbrev finished : LookupResult
finished = record { peers = addr 9 ∷ []; announce_candidates = []; failed_nodes = id_of 1 ∷ [] }

-- A hash that keeps the bytes, and the order of a map's entries as it is.
abbrev same_bytes : List ℕ → List ℕ
same_bytes bytes = bytes

abbrev as_it_is : Peers.Announced → Peers.Announced
as_it_is m = m

handle-IsScheduled_example :
    IsHandled same_bytes as_it_is
      (lookup_finished (id_of 3) finished false)
      actor
      (handle same_bytes as_it_is (lookup_finished (id_of 3) finished false) actor)
handle-IsScheduled_example =
    handle-IsScheduled same_bytes as_it_is (lookup_finished (id_of 3) finished false) actor
      (new-IsTable (id_of 0) 8 refl) (refl, tt) actor-IsScheduled
