-- ===== src/Dht/Actor.antt =====
-- dht/actor.rs and dht/messages.rs: the messages of the DHT actor, the torrents that are registered with
-- it, and their lookup and announcement tasks. The actor has a handle of a task that runs or sleeps, here
-- what the task was spawned with. A handle is taken away to abort its task, or dropped, and then the task
-- runs on: those of lookups are in `untracked`. Handles of announcements are never dropped. `none` is a
-- panic. The answers of torrent actors, and whether the transport had a transaction for a datagram, come
-- with the messages; what is sent is recorded.
pub mod Datagrams
pub mod Handles
pub mod Tasks
use tortillas.Prelude.{
  ℕ, Bool, true, false, Option, none, some, List, [], ◌∷◌, ◌++◌, if◌then◌else◌, list_eq, nat_eq,
}
use tortillas.Prelude.Map.{Map, lookup, insert, remove}
use tortillas.Dht.Id.{NodeId}
use tortillas.Dht.Compact.{SocketAddr, Contact}
use tortillas.Dht.Routing.{RoutingTable, closest, record_failure}
use tortillas.Prelude.Outcome.{Outcome, ok, err, panicked}
use tortillas.Dht.Token.{Reading}
use tortillas.Dht.Peers.{Announced}
use tortillas.Dht.Message.{Message, query, response, error, Response, DhtError}
use tortillas.Dht.State.{DhtState, handle_query, learn_response}
use tortillas.Dht.Lookup.{LookupResult}

-- What a lookup task was spawned to do.
pub data LookupTask : Type 0 where
  looks_up : (seeds : List Contact) → LookupTask
  sleeps : LookupTask

pub record AnnounceTask : Type 0 where
  pub port : ℕ
  pub candidates : List (Contact × List ℕ)

-- A torrent is its port.
pub record DhtActor : Type 0 where
  pub state : DhtState
  pub bucket_size : ℕ
  pub torrents : Map NodeId ℕ
  pub lookup_tasks : Map NodeId LookupTask
  pub untracked : List (NodeId × LookupTask)
  pub announce_tasks : Map NodeId AnnounceTask
  pub forwarded : List (NodeId × List SocketAddr)
  pub sent : List (Message × SocketAddr)

-- What a torrent says when it is asked for its info dictionary.
pub data InfoReply : Type 0 where
  is_private may_look_up unavailable : InfoReply

pub data DhtMessage : Type 0 where
  incoming_datagram :
      (message : Message) (source : SocketAddr) (r : Reading) (completed : Bool) → DhtMessage
  register_torrent : (info_hash : NodeId) (port : ℕ) → DhtMessage
  unregister_torrent : (info_hash : NodeId) → DhtMessage
  lookup_torrent : (info_hash : NodeId) (reply : InfoReply) → DhtMessage
  refresh_torrents : DhtMessage
  lookup_finished : (info_hash : NodeId) (result : LookupResult) (taken : Bool) → DhtMessage

abbrev pub is_some {ℓ} : {A : Type ℓ} → Option A → Bool
is_some none = false
is_some (some a) = true

abbrev pub is_empty {ℓ} : {A : Type ℓ} → List A → Bool
is_empty [] = true
is_empty (x ∷ xs) = false

-- A handle that is dropped, where there is one.
abbrev pub dropped : NodeId → Option LookupTask → List (NodeId × LookupTask)
dropped info_hash none = []
dropped info_hash (some task) = (info_hash, task) ∷ []

-- The insertion drops a handle that is there.
unfoldable pub schedule_lookup : DhtActor → NodeId → DhtActor
schedule_lookup d info_hash = record d {
  lookup_tasks = insert info_hash sleeps d.lookup_tasks;
  untracked = dropped info_hash (lookup info_hash d.lookup_tasks) ++ d.untracked;
}

unfoldable pub start_lookup : DhtActor → NodeId → DhtActor
unfolding schedule_lookup
start_lookup d info_hash =
    let d' : DhtActor = record d { lookup_tasks = remove info_hash d.lookup_tasks } in
    let seeds = closest d.state.routing info_hash d.bucket_size in
    if is_some (lookup info_hash d.torrents)
    then if is_empty seeds
      then schedule_lookup d' info_hash
      else record d' { lookup_tasks = insert info_hash (looks_up seeds) d'.lookup_tasks }
    else d

unfoldable pub remove_torrent_registration : DhtActor → NodeId → DhtActor
remove_torrent_registration d info_hash = record d {
  torrents = remove info_hash d.torrents;
  lookup_tasks = remove info_hash d.lookup_tasks;
  announce_tasks = remove info_hash d.announce_tasks;
}

abbrev pub failed :
    Option (Unit {0} × RoutingTable) → (RoutingTable → Option RoutingTable) → Option RoutingTable
failed none next = none
failed (some (_, after)) next = next after

unfoldable pub record_failures : RoutingTable → List NodeId → Option RoutingTable
record_failures t [] = some t
record_failures t (node ∷ nodes) =
    failed (record_failure t node) (λ after. record_failures after nodes)

-- The end of `lookup_finished`: the peers go to the torrent, which may be gone; then the announcement is
-- spawned and the next lookup scheduled.
unfoldable pub forward_peers : DhtActor → NodeId → LookupResult → Bool → Option ℕ → DhtActor
unfolding schedule_lookup
forward_peers d info_hash result taken none = d
forward_peers d info_hash result taken (some port) =
    let announced : DhtActor = record d {
      forwarded =
          if is_empty result.peers then d.forwarded else (info_hash, result.peers) ∷ d.forwarded;
      announce_tasks =
          insert info_hash (record { port = port; candidates = result.announce_candidates })
            d.announce_tasks;
    } in
    if is_empty result.peers
    then schedule_lookup announced info_hash
    else if taken
    then schedule_lookup announced info_hash
    else record d { torrents = remove info_hash d.torrents }

abbrev pub after_failures :
    DhtActor → NodeId → LookupResult → Bool → Option RoutingTable → Option DhtActor
after_failures d info_hash result taken none = none
after_failures d info_hash result taken (some routing) = some (
    forward_peers (record d { state = record d.state { routing = routing } }) info_hash result taken
      (lookup info_hash d.torrents))

unfoldable pub refresh : List NodeId → DhtActor → DhtActor
unfolding start_lookup
refresh [] d = d
refresh (info_hash ∷ info_hashes) d = refresh info_hashes (start_lookup d info_hash)

abbrev pub keys : Map NodeId ℕ → List NodeId
keys [] = []
keys ((info_hash, port) ∷ m) = info_hash ∷ keys m

abbrev pub looked_up : DhtActor → NodeId → InfoReply → Option ℕ → DhtActor
looked_up d info_hash reply none = d
looked_up d info_hash is_private (some port) = remove_torrent_registration d info_hash
looked_up d info_hash may_look_up (some port) = start_lookup d info_hash
looked_up d info_hash unavailable (some port) = remove_torrent_registration d info_hash

-- The reply to a query.
abbrev pub replied :
    DhtActor → List ℕ → SocketAddr → Option (Outcome DhtError Response × DhtState) → Option DhtActor
replied d transaction_id source none = none
replied d transaction_id source (some (panicked, state)) = none
replied d transaction_id source (some (ok answer, state)) =
    some
      (record d { state = state; sent = d.sent ++ (response transaction_id answer, source) ∷ [] })
replied d transaction_id source (some (err e, state)) =
    some (record d { state = state; sent = d.sent ++ (error transaction_id e, source) ∷ [] })

abbrev pub learnt : DhtActor → Option (Outcome DhtError (Unit {0}) × DhtState) → Option DhtActor
learnt d none = none
learnt d (some (result, state)) = some (record d { state = state })

module _ (sha1 : List ℕ → List ℕ) (arrange : Announced → Announced) where
  unfoldable pub datagram : DhtActor → Message → SocketAddr → Reading → Bool → Option DhtActor
  datagram d (query transaction_id q) source r completed =
      replied d transaction_id source (handle_query sha1 arrange d.state q source r)
  datagram d (response transaction_id answer) source r completed =
      if completed then learnt d (learn_response d.state answer source) else some d
  datagram d (error transaction_id e) source r completed = some d

  -- The handlers of the messages. `lookup_finished` drops the handle that it removes.
  unfoldable pub handle : DhtMessage → DhtActor → Option DhtActor
  unfolding datagram start_lookup remove_torrent_registration record_failures forward_peers refresh
  handle (incoming_datagram message source r completed) d = datagram d message source r completed
  handle (register_torrent info_hash port) d =
      some (start_lookup (record d { torrents = insert info_hash port d.torrents }) info_hash)
  handle (unregister_torrent info_hash) d = some (remove_torrent_registration d info_hash)
  handle (lookup_torrent info_hash reply) d =
      some (looked_up d info_hash reply (lookup info_hash d.torrents))
  handle refresh_torrents d = some (refresh (keys d.torrents) d)
  handle (lookup_finished info_hash result taken) d =
      after_failures
        (record d {
          lookup_tasks = remove info_hash d.lookup_tasks;
          untracked = dropped info_hash (lookup info_hash d.lookup_tasks) ++ d.untracked;
        })
        info_hash result taken (record_failures d.state.routing result.failed_nodes)
