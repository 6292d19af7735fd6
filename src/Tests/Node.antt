-- ===== src/Tests/Node.antt =====
-- dht/: tokens, announced peers, transactions, messages and queries at concrete inputs.
use tortillas.Prelude.{
  ℕ, ◌+◌, ◌≡◌, ◌<◌, refl, arith, true, false, some, none, List, [], ◌∷◌, replicate, map, take,
  if◌then◌else◌, ◌==◌, list_eq, nat_eq,
}
use mathlib.Core.List.{Perm}
use mathlib.Core.List.Perm
use tortillas.Prelude.Map.{Unique, lookup, insert as insert_key, keep, total}
use tortillas.Prelude.Outcome.{ok}
use tortillas.Protocol.Message.{v4}
use tortillas.Dht.Id.{NodeId}
use tortillas.Dht.Compact.{SocketAddr, addr_eq}
use tortillas.Dht.Routing.{new as new_table}
use tortillas.Dht.Routing.Tables.{new-IsTable}
use tortillas.Dht.Token.{TokenManager, Reading, generate, verify}
use tortillas.Dht.Token.Lifetime.{Call, generated, verified, after_calls, generate-verify}
use tortillas.Dht.Peers.{Announced, PeerStore, get, expiration_cutoff}
use tortillas.Dht.Peers.Expiry.{IsStore, announced_at, young}
use tortillas.Dht.Peers.Found.{get_lem}
use tortillas.Dht.Transaction.{TransactionTable, begin, complete}
use tortillas.Dht.Transaction.Allocation.{waiting, begin_lem, count}
use tortillas.Dht.Transaction.Completion.{begin-complete}
use tortillas.Dht.Message.{get_peers, announce_peer, Response, pong, Message, query}
use tortillas.Dht.Message.Wire.{wire_of, message_of}
use tortillas.Dht.Message.Wire.RoundTrip.{message_of-wire_of}
use tortillas.Dht.State.{DhtState, id_of_state, announced_peer, handle_query}
use tortillas.Dht.State.Answers.{get_peers-announce_peer}

abbrev addr : SocketAddr
addr = record { ip = v4 (192 ∷ 0 ∷ 2 ∷ 1 ∷ []); port = 6881 }

abbrev other_addr : SocketAddr
other_addr = record { ip = v4 (192 ∷ 0 ∷ 2 ∷ 2 ∷ []); port = 6881 }

-- A hash that keeps the bytes.
abbrev same_bytes : List ℕ → List ℕ
same_bytes bytes = bytes

abbrev reading : ℕ → Reading
reading now = record {
  now = now;
  later = now + 1;
  random_previous = 1 ∷ [];
  random_current = now ∷ [];
}

abbrev manager : TokenManager
manager = record {
  current_secret = 7 ∷ [];
  previous_secret = 8 ∷ [];
  rotated_at = 10;
  rotation_interval = 60;
}

abbrev calls : List (Call × Reading)
calls = (generated (v4 []), reading 75) ∷ (verified [] (v4 []), reading 90) ∷ []

generate-verify_example :
    (verify same_bytes
      (after_calls same_bytes calls (generate same_bytes manager (reading 65) addr.ip).1)
      (reading 120)
      (generate same_bytes manager (reading 65) addr.ip).0
      addr.ip).0
    ≡ true
generate-verify_example =
    generate-verify same_bytes manager (reading 65) (reading 120) addr.ip calls (omega arith)
      (omega arith) (omega arith)
      (omega arith, omega arith, omega arith, (omega arith, omega arith, omega arith, tt))
      (omega arith) (omega arith) (omega arith)

abbrev hash : NodeId
hash = replicate 20 5

abbrev store : PeerStore
store = record {
  peers = (hash, (addr, 10) ∷ (other_addr, 40) ∷ []) ∷ [];
  ttl = 60;
  prune_interval = 15;
  last_pruned = 40;
}

store-IsStore : IsStore store
unfolding lookup
store-IsStore = record { hashes = (refl, tt); each = ((refl, (refl, tt)), tt) }

abbrev as_it_is : Announced → Announced
as_it_is m = m

get_lem_example :
    (found order : Announced) × Perm order found
    × Unique found
    × ((peer : SocketAddr)
        → lookup peer found
          ≡ keep (young (expiration_cutoff store 80)) (announced_at store hash peer))
    × ((get as_it_is store hash 5 80).0 ≡ take 5 (map (λ e. e.0) order))
    × IsStore (get as_it_is store hash 5 80).1
get_lem_example = get_lem as_it_is (λ m. Perm.refl m) store hash 5 80 store-IsStore

-- The first id is taken.
abbrev transactions : TransactionTable
transactions = record {
  next_id = 65535;
  pending = ((255 ∷ 255 ∷ []), record { addr = other_addr; reply = 4 }) ∷ [];
}

begin_lem_example :
    (id : List ℕ) × (after : TransactionTable) × (begin addr 9 transactions ≡ some (id, after))
    × (lookup id transactions.pending ≡ none)
    × (after.pending ≡ insert_key id (waiting addr 9) transactions.pending)
    × Unique after.pending
    × (after.next_id < 65536)
unfolding lookup count total
begin_lem_example = begin_lem addr 9 transactions (omega arith) (refl, tt) (omega arith)

begin-complete_example :
    (id : List ℕ) × (after : TransactionTable) × (begin addr 9 transactions ≡ some (id, after))
    × ((complete {R = ℕ} (λ n. true) id other_addr 3 after).1
        ≡ (if addr == other_addr then some (9, 3) else none))
    × ((j : List ℕ)
        → lookup j (complete {R = ℕ} (λ n. true) id other_addr 3 after).2.pending
          ≡ lookup j (if addr == other_addr then transactions.pending else after.pending))
unfolding lookup count total
begin-complete_example =
    begin-complete {R = ℕ} (λ n. true) addr other_addr 9 3 transactions (omega arith) (refl, tt)
      (omega arith)

abbrev announcement : Message
announcement = query (1 ∷ 2 ∷ []) (announce_peer hash hash 6881 (7 ∷ []) true)

message_of-wire_of_example : message_of (wire_of announcement) ≡ ok announcement
message_of-wire_of_example = message_of-wire_of announcement (refl, refl)

abbrev state : DhtState
state = record {
  routing = new_table (replicate 20 0) 8;
  tokens = manager;
  peers = store;
  peer_limit = 50;
  bucket_size = 8;
}

get_peers-announce_peer_example :
    (response : Response) × (token : List ℕ) × (asked after : DhtState) × (handle_query same_bytes
        as_it_is state
        (get_peers hash hash)
        addr
        (reading 65)
      ≡ some (ok response, asked))
    × (response.token ≡ some token)
    × (handle_query same_bytes as_it_is asked
          (announce_peer hash hash 51413 token false)
          addr
          (reading 120)
        ≡ some (ok (pong (id_of_state after)), after))
    × (announced_at after.peers hash (announced_peer addr 51413 false) ≡ some 120)
get_peers-announce_peer_example =
    get_peers-announce_peer same_bytes as_it_is (λ m. Perm.refl m) state hash hash 51413 false addr
      (reading 65) (reading 120)
      (record { table = new-IsTable (replicate 20 0) 8 refl; store = store-IsStore }) refl
      (omega arith) (omega arith) (omega arith) (omega arith) (omega arith) (omega arith) refl
