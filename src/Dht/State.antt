-- ===== src/Dht/State.antt =====
-- dht/state.rs: the state of the DHT node, and its answers to queries. A call whose result is `none`
-- panics. `sha1` is the hash, and `arrange` the order in which the entries of a map of peers come.
pub mod Answers
use tortillas.Prelude.{ℕ, Bool, true, false, Option, none, some, List, [], ◌∷◌, if◌then◌else◌}
use tortillas.Prelude.Outcome.{Outcome, ok, err, panicked}
use Prim.Native.String.{String}
use tortillas.Dht.Id.{NodeId}
use tortillas.Dht.Compact.{SocketAddr, Contact, encode_nodes, encode_peers, decode_nodes}
use tortillas.Dht.Routing.{RoutingTable, insert, closest}
use tortillas.Dht.Token.{TokenManager, Reading, generate, verify}
use tortillas.Dht.Peers.{PeerStore, Announced, is_empty, announce, get}
use tortillas.Dht.Message.{
  Query, ping, find_node, get_peers, announce_peer, id_of, Response, pong, DhtError, protocol,
}

pub record DhtState : Type 0 where
  pub routing : RoutingTable
  pub tokens : TokenManager
  pub peers : PeerStore
  pub peer_limit : ℕ
  pub bucket_size : ℕ

-- `self.id()`.
abbrev pub id_of_state : DhtState → NodeId
id_of_state s = s.routing.local_id

-- `self.routing.insert(..)`, whose result is ignored.
abbrev pub with_routing : DhtState → Option (Bool × RoutingTable) → Option DhtState
with_routing s none = none
with_routing s (some (added, routing)) = some (record s { routing = routing })

unfoldable pub insert_contact : DhtState → Contact → Option DhtState
insert_contact s contact = with_routing s (insert s.routing contact)

unfoldable pub insert_contacts : Option DhtState → List Contact → Option DhtState
insert_contacts none contacts = none
insert_contacts (some s) [] = some s
insert_contacts (some s) (contact ∷ contacts) = insert_contacts (insert_contact s contact) contacts

abbrev pub learn_nodes :
    DhtState → Outcome String (List Contact) → Option (Outcome DhtError (Unit {0}) × DhtState)
learn_nodes s (err e) = some (err (protocol e), s)
learn_nodes s panicked = none
learn_nodes s (ok contacts) = learnt (insert_contacts (some s) contacts)
  where
    learnt : Option DhtState → Option (Outcome DhtError (Unit {0}) × DhtState)
    learnt none = none
    learnt (some after) = some (ok tt, after)

abbrev pub learn_from :
    Option (List ℕ) → Option DhtState → Option (Outcome DhtError (Unit {0}) × DhtState)
learn_from nodes none = none
learn_from none (some s) = some (ok tt, s)
learn_from (some nodes) (some s) = learn_nodes s (decode_nodes nodes)

unfoldable pub learn_response :
    DhtState → Response → SocketAddr → Option (Outcome DhtError (Unit {0}) × DhtState)
learn_response s response source =
    learn_from response.nodes (insert_contact s (record { id = response.id; addr = source }))

abbrev pub then_some {ℓ} : {A : Type ℓ} → Bool → A → Option A
then_some true a = some a
then_some false a = none

-- The endpoint that is announced.
abbrev pub announced_peer : SocketAddr → ℕ → Bool → SocketAddr
announced_peer source port implied_port = record {
  ip = source.ip;
  port = if implied_port then source.port else port;
}

module _ (sha1 : List ℕ → List ℕ) (arrange : Announced → Announced) where
  unfoldable pub answer_get_peers :
      DhtState → NodeId → SocketAddr → Reading → Outcome DhtError Response × DhtState
  answer_get_peers s info_hash source r =
      let found = get arrange s.peers info_hash s.peer_limit r.now in
      let made = generate sha1 s.tokens r source.ip in
      (
        ok (record {
          id = id_of_state s;
          nodes =
              then_some (is_empty found.0)
                (encode_nodes (closest s.routing info_hash s.bucket_size));
          token = some made.0;
          values = if is_empty found.0 then none else some (encode_peers found.0);
        }),
        record s { peers = found.1; tokens = made.1 },
      )

  abbrev pub announced_to : DhtState → Bool × PeerStore → Outcome DhtError Response × DhtState
  announced_to s (false, peers) =
      (err (protocol "invalid announced peer endpoint"), record s { peers = peers })
  announced_to s (true, peers) = (ok (pong (id_of_state s)), record s { peers = peers })

  abbrev pub announce_verified :
      NodeId → SocketAddr → Reading → Bool → DhtState → Outcome DhtError Response × DhtState
  announce_verified info_hash peer r false s = (err (protocol "invalid announce token"), s)
  announce_verified info_hash peer r true s = announced_to s (announce s.peers info_hash peer r.now)

  unfoldable pub answer :
      DhtState → Query → SocketAddr → Reading → Outcome DhtError Response × DhtState
  answer s (ping id) source r = (ok (pong (id_of_state s)), s)
  answer s (find_node id target) source r = (
    ok (record {
      id = id_of_state s;
      nodes = some (encode_nodes (closest s.routing target s.bucket_size));
      token = none;
      values = none;
    }),
    s,
  )
  answer s (get_peers id info_hash) source r = answer_get_peers s info_hash source r
  answer s (announce_peer id info_hash port token implied_port) source r =
      let verified = verify sha1 s.tokens r token source.ip in
      announce_verified info_hash (announced_peer source port implied_port) r verified.0
        (record s { tokens = verified.1 })

  abbrev pub answered :
      Option DhtState → Query → SocketAddr → Reading → Option (Outcome DhtError Response × DhtState)
  answered none query source r = none
  answered (some s) query source r = some (answer s query source r)

  unfoldable pub handle_query :
      DhtState → Query → SocketAddr → Reading → Option (Outcome DhtError Response × DhtState)
  handle_query s query source r =
      answered (insert_contact s (record { id = id_of query; addr = source })) query source r
