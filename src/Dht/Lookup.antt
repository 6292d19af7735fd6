-- ===== src/Dht/Lookup.antt =====
-- dht/lookup.rs and dht/announce.rs: the iterative `get_peers` lookup, and announcing to the nodes that
-- gave tokens. The network is a parameter: for a batch of contacts, and what was queried before it, it
-- gives their responses in the order in which they arrive. `arrange` is the order in which a set's
-- elements come.
pub mod Rounds
pub mod Ends
pub mod Found
use tortillas.Prelude.{
  ℕ, zero, suc, ◌+◌, Bool, true, false, not, ◌&&◌, ◌||◌, Option, none, some, List, [], ◌∷◌, ◌++◌,
  map, length, take, any, leb, eqb, if◌then◌else◌, max, PartialEq, ◌==◌, pair_eq, list_eq, nat_eq,
  list_eqb, list_eqb_iff, ◌≡◌, ◌↔◌, arith,
}
use tortillas.Prelude.Map.{Map, insert}
use tortillas.Prelude.Outcome.{Outcome, ok, err, panicked}
use tortillas.Prelude.Sort.{sort_by}
use tortillas.Dht.Id.{NodeId}
use tortillas.Dht.Compact.{SocketAddr, addr_eq, Contact, decode_nodes, decode_peers}
use tortillas.Dht.Routing.{closer}
use tortillas.Dht.Message.{Response}

pub contact_same_iff : (a b : Contact) → ((list_eqb a.id b.id && a.addr == b.addr) ≡ true) ↔ (a ≡ b)
contact_same_iff a b = ground (arith, list_eqb_iff a.id b.id, addr_eq.is_same_iff a.addr b.addr)

instance abbrev pub contact_eq : PartialEq Contact
contact_eq = record {
  is_same = λ a b. list_eqb a.id b.id && a.addr == b.addr;
  is_same_iff = contact_same_iff;
}

-- A `HashSet`: what it has, and `insert` and `extend`.
abbrev pub contains {ℓ} : {A : Type ℓ} ⦃e : PartialEq A⦄ → A → List A → Bool
contains x [] = false
contains x (y ∷ ys) = y == x || contains x ys

abbrev pub include {ℓ} : {A : Type ℓ} ⦃e : PartialEq A⦄ → A → List A → List A
include x set = if contains x set then set else x ∷ set

abbrev pub extend {ℓ} : {A : Type ℓ} ⦃e : PartialEq A⦄ → List A → List A → List A
extend [] set = set
extend (x ∷ xs) set = extend xs (include x set)

pub record LookupResult : Type 0 where
  pub peers : List SocketAddr
  pub announce_candidates : List (Contact × List ℕ)
  pub failed_nodes : List NodeId

-- The variables of the loop.
pub record Lookup : Type 0 where
  pub candidates : List Contact
  pub queried : List SocketAddr
  pub peers : List SocketAddr
  pub tokens : Map Contact (List ℕ)
  pub failed_nodes : List NodeId

-- A response, or `none` where the query failed.
abbrev pub Answer : Type 0
Answer = Contact × Option Response

-- `retain(|contact| unique_addresses.insert(contact.addr))`.
unfoldable pub retain_unique : List SocketAddr → List Contact → List Contact
retain_unique unique_addresses [] = []
retain_unique unique_addresses (contact ∷ contacts) =
    let rest = retain_unique unique_addresses contacts in
    let others = retain_unique (contact.addr ∷ unique_addresses) contacts in
    if contains contact.addr unique_addresses then rest else contact ∷ others

-- `filter(|contact| !queried.contains(&contact.addr))`.
unfoldable pub unqueried : List SocketAddr → List Contact → List Contact
unqueried queried [] = []
unqueried queried (contact ∷ contacts) =
    let rest = unqueried queried contacts in
    if contains contact.addr queried then rest else contact ∷ rest

-- The first lines of a round: the candidates that are kept, and those to query. The sort need not keep
-- the order of contacts with one id; here they stay as they came.
unfoldable pub keep_closest : NodeId → ℕ → List Contact → List Contact
unfolding retain_unique
keep_closest info_hash bucket_size candidates =
    take bucket_size (retain_unique [] (sort_by (closer info_hash) candidates))

unfoldable pub batch_of : ℕ → List SocketAddr → List Contact → List Contact
unfolding unqueried
batch_of concurrency queried candidates = take concurrency (unqueried queried candidates)

-- The parts of a response: its token, its peers and its nodes. What does not decode is left out.
unfoldable pub take_token : Contact → Option (List ℕ) → Map Contact (List ℕ) → Map Contact (List ℕ)
take_token contact none tokens = tokens
take_token contact (some token) tokens = insert contact token tokens

unfoldable pub discovered {ℓ κ} : {E : Type ℓ} {A : Type κ} → Outcome E (List A) → List A
discovered (ok values) = values
discovered (err e) = []
discovered panicked = []

unfoldable pub peers_of : Option (List (List ℕ)) → List SocketAddr
unfolding discovered
peers_of none = []
peers_of (some values) = discovered (decode_peers values)

unfoldable pub nodes_of : Option (List ℕ) → List Contact
unfolding discovered
nodes_of none = []
nodes_of (some nodes) = discovered (decode_nodes nodes)

-- One round of the loop over the responses.
unfoldable pub take_answer : Answer → Lookup → Lookup
unfolding take_token peers_of nodes_of
take_answer (contact, none) s = record s { failed_nodes = include contact.id s.failed_nodes }
take_answer (contact, some response) s = record s {
  tokens = take_token contact response.token s.tokens;
  peers = extend (peers_of response.values) s.peers;
  candidates = s.candidates ++ nodes_of response.nodes;
}

unfoldable pub take_answers : List Answer → Lookup → Lookup
take_answers [] s = s
take_answers (answer ∷ answers) s = take_answers answers (take_answer answer s)

abbrev pub is_empty {ℓ} : {A : Type ℓ} → List A → Bool
is_empty [] = true
is_empty (x ∷ xs) = false

-- `(contact, token)` by the distance of the contact.
unfoldable pub closer_entry : NodeId → Contact × List ℕ → Contact × List ℕ → Bool
closer_entry info_hash a b = closer info_hash a.0 b.0

module _ (network : List SocketAddr → List Contact → List Answer)
    (arrange : List SocketAddr → List SocketAddr) (info_hash : NodeId)
    (concurrency peer_limit bucket_size : ℕ) where
  -- The state after a batch was queried.
  unfoldable pub query_batch : List Contact → Lookup → Lookup
  query_batch batch s =
      take_answers (network s.queried batch)
        (record s { queried = extend (map (λ contact. contact.addr) batch) s.queried })

  -- The loop: `none` is a loop that has not returned.
  unfoldable pub lookup_loop : ℕ → Lookup → Option Lookup
  lookup_loop zero s = none
  lookup_loop (suc fuel) s =
      let candidates = keep_closest info_hash bucket_size s.candidates in
      let batch = batch_of (max concurrency 1) s.queried candidates in
      elim (is_empty batch || leb peer_limit (length s.peers)) [
        | true ↦ some (record s { candidates = candidates })
        | false ↦ lookup_loop fuel (query_batch batch (record s { candidates = candidates }))
      ]

  unfoldable pub result_of : Lookup → LookupResult
  result_of s = record {
    peers = take peer_limit (arrange s.peers);
    announce_candidates = sort_by (closer_entry info_hash) s.tokens;
    failed_nodes = s.failed_nodes;
  }

  abbrev pub start : List Contact → Lookup
  start seeds = record {
    candidates = seeds;
    queried = [];
    peers = [];
    tokens = [];
    failed_nodes = [];
  }

  unfoldable pub lookup_peers : ℕ → List Contact → Option LookupResult
  lookup_peers fuel seeds = finish (lookup_loop fuel (start seeds))
    where
      finish : Option Lookup → Option LookupResult
      finish none = none
      finish (some s) = some (result_of s)

-- `announce_peer`: how many of the candidates took the announcement; `announce` asks one of them.
unfoldable pub announce_peer : (Contact → List ℕ → Bool) → ℕ → List (Contact × List ℕ) → ℕ
announce_peer announce port candidates = if eqb port 0 then 0 else count candidates
  where
    count : List (Contact × List ℕ) → ℕ
    count [] = 0
    count ((contact, token) ∷ candidates) =
        let rest = count candidates in if announce contact token then suc rest else rest
