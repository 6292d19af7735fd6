-- ===== src/Dht/Actor/Datagrams.antt =====
-- Datagrams that come in: the node answers queries and learns from responses, and does not panic.
use tortillas.Prelude.{
  ℕ, zero, suc, ◌*◌, ◌/◌, ◌%◌, ◌≤◌, ◌≡◌, ◌≢◌, refl, ap, ◌∙◌, arith, Bool, true, false, Option, none,
  some, inl, inr, List, [], ◌∷◌, length, length-take, length-drop, drop, eqb, All, Bool-cases,
}
use tortillas.Prelude.Outcome.{Outcome, ok, err, panicked}
use tortillas.Dht.Id.{NodeId, dht_id_len}
use tortillas.Dht.Compact.{SocketAddr, Contact, compact_node_len, decode_chunks, decode_nodes}
use tortillas.Dht.Routing.Tables.{IsTable}
use tortillas.Dht.Routing.Tables.Changes.{insert-IsTable}
use tortillas.Dht.Token.{Reading, verify}
use tortillas.Dht.Peers.{Announced, PeerStore, announce}
use tortillas.Dht.Message.{
  Message, query, response, error, Query, ping, find_node, get_peers, announce_peer, id_of,
  Response, DhtError, protocol,
}
use tortillas.Dht.State.{
  DhtState, insert_contact, insert_contacts, learn_from, learn_response, announced_peer,
  announced_to, announce_verified, answer, answer_get_peers, handle_query,
}
use tortillas.Dht.Actor.{DhtActor, replied, datagram}

-- The ids in a message have the length of node ids.
abbrev pub HasIdsInMessage : Message → Type 0
HasIdsInMessage (query transaction_id q) = length (id_of q) ≡ dht_id_len
HasIdsInMessage (response transaction_id answer) = length answer.id ≡ dht_id_len
HasIdsInMessage (error transaction_id e) = Unit

insert_contact-IsTable :
    (s : DhtState) (contact : Contact)
    → IsTable s.routing
    → length contact.id ≡ dht_id_len
    → (after : DhtState) × (insert_contact s contact ≡ some after) × IsTable after.routing
unfolding insert_contact
insert_contact-IsTable s contact w l =
    let (added, routing, done, w') = insert-IsTable s.routing contact w l in
    (record s { routing = routing }, rw done refl, w')

insert_contacts-IsTable :
    (s : DhtState) (contacts : List Contact)
    → IsTable s.routing
    → All (λ c. length c.id ≡ dht_id_len) contacts
    → (after : DhtState) × (insert_contacts (some s) contacts ≡ some after) × IsTable after.routing
unfolding insert_contacts
insert_contacts-IsTable s [] w h = (s, refl, w)
insert_contacts-IsTable s (contact ∷ contacts) w (h, hs) =
    let (next, first, w') = insert_contact-IsTable s contact w h in
    let (after, rest, w'') = insert_contacts-IsTable next contacts w' hs in
    (after, ap (λ o. insert_contacts o contacts) first ∙ rest, w'')

decode_chunks-All :
    (chunks : ℕ) (bytes : List ℕ)
    → chunks * compact_node_len ≤ length bytes
    → All (λ c. length c.id ≡ dht_id_len) (decode_chunks chunks bytes)
unfolding decode_chunks
decode_chunks-All zero bytes h = tt
decode_chunks-All (suc chunks) bytes h = (
  omega (arith, h, length-take dht_id_len bytes),
  decode_chunks-All chunks (drop compact_node_len bytes)
      (omega (arith, h, length-drop compact_node_len bytes)),
)

learn_response-IsTable :
    (s : DhtState) (r : Response) (source : SocketAddr)
    → IsTable s.routing
    → length r.id ≡ dht_id_len
    → (result : Outcome DhtError (Unit {0})) × (after : DhtState) × (learn_response s r source
        ≡ some (result, after))
      × IsTable after.routing
unfolding learn_response decode_nodes
learn_response-IsTable s r source w l =
    let (next, first, w') = insert_contact-IsTable s (record { id = r.id; addr = source }) w l in
    rw first (learns next w' r.nodes)
  where
    learns :
        (next : DhtState)
        → IsTable next.routing
        → (nodes : Option (List ℕ))
        → (result : Outcome DhtError (Unit {0})) × (after : DhtState) × (learn_from nodes
              (some next)
            ≡ some (result, after))
          × IsTable after.routing
    learns next w none = (_, _, refl, w)
    learns next w (some nodes) = elim (Bool-cases (eqb (length nodes % compact_node_len) 0)) [
      | inl whole ↦
          let (after, done, w') =
            insert_contacts-IsTable next (decode_chunks (length nodes / compact_node_len) nodes) w
              (decode_chunks-All (length nodes / compact_node_len) nodes (omega arith)) in
          (ok tt, after, rw whole (rw done refl), w')
      | inr other ↦ (
        err (protocol "compact DHT nodes must be a multiple of 26 bytes"),
        next,
        rw other refl,
        w,
      )
    ]

module _ (sha1 : List ℕ → List ℕ) (arrange : Announced → Announced) where
  -- An answer that is no panic, and a state with the same routing table.
  abbrev IsAnswer : DhtState → Outcome DhtError Response × DhtState → Type 0
  IsAnswer s a = (a.0 ≢ panicked) × (a.1.routing ≡ s.routing)

  answer-IsAnswer :
      (s : DhtState) (q : Query) (source : SocketAddr) (r : Reading)
      → IsAnswer s (answer sha1 arrange s q source r)
  unfolding answer answer_get_peers
  answer-IsAnswer s (ping id) source r = (λ h. cc, refl)
  answer-IsAnswer s (find_node id target) source r = (λ h. cc, refl)
  answer-IsAnswer s (get_peers id info_hash) source r = (λ h. cc, refl)
  answer-IsAnswer s (announce_peer id info_hash port token implied_port) source r =
      let verified = verify sha1 s.tokens r token source.ip in
      verified_case (announced_peer source port implied_port) info_hash verified.0
        (record s { tokens = verified.1 }) refl
    where
      announced_case :
          (u : DhtState) (a : Bool × PeerStore)
          → u.routing ≡ s.routing
          → IsAnswer s (announced_to sha1 arrange u a)
      announced_case u (false, peers) e = (λ h. cc, e)
      announced_case u (true, peers) e = (λ h. cc, e)

      verified_case :
          (peer : SocketAddr) (info_hash : NodeId) (b : Bool) (u : DhtState)
          → u.routing ≡ s.routing
          → IsAnswer s (announce_verified sha1 arrange info_hash peer r b u)
      verified_case peer info_hash false u e = (λ h. cc, e)
      verified_case peer info_hash true u e =
          announced_case u (announce u.peers info_hash peer r.now) e

  -- The tasks, the torrents and the parameters stay as they are.
  pub record IsBeside (d after : DhtActor) : Type 0 where
    pub same_torrents : after.torrents ≡ d.torrents
    pub same_tasks : after.lookup_tasks ≡ d.lookup_tasks
    pub same_untracked : after.untracked ≡ d.untracked
    pub table : IsTable after.state.routing

  replied-IsBeside :
      (d : DhtActor) (transaction_id : List ℕ) (source : SocketAddr)
      (a : Outcome DhtError Response × DhtState)
      → a.0 ≢ panicked
      → IsTable a.1.routing
      → (after : DhtActor) × (replied d transaction_id source (some a) ≡ some after)
        × IsBeside d after
  replied-IsBeside d tid source (ok r, state) h w = (
    _,
    refl,
    record { same_torrents = refl; same_tasks = refl; same_untracked = refl; table = w },
  )
  replied-IsBeside d tid source (err e, state) h w = (
    _,
    refl,
    record { same_torrents = refl; same_tasks = refl; same_untracked = refl; table = w },
  )
  replied-IsBeside d tid source (panicked, state) h w = absurd (h refl)

  pub datagram-IsBeside :
      (d : DhtActor) (m : Message) (source : SocketAddr) (r : Reading) (completed : Bool)
      → IsTable d.state.routing
      → HasIdsInMessage m
      → (after : DhtActor) × (datagram sha1 arrange d m source r completed ≡ some after)
        × IsBeside d after
  unfolding datagram handle_query
  datagram-IsBeside d (query tid q) source r completed w l =
      let (next, first, w') =
        insert_contact-IsTable d.state (record { id = id_of q; addr = source }) w l in
      let (fine, same) = answer-IsAnswer next q source r in
      rw first
        (replied-IsBeside d tid source (answer sha1 arrange next q source r) fine (rw same w'))
  datagram-IsBeside d (response tid a) source r true w l =
      let (result, after, done, w') = learn_response-IsTable d.state a source w l in
      (
        record d { state = after },
        rw done refl,
        record { same_torrents = refl; same_tasks = refl; same_untracked = refl; table = w' },
      )
  datagram-IsBeside d (response tid a) source r false w l = (
    d,
    refl,
    record { same_torrents = refl; same_tasks = refl; same_untracked = refl; table = w },
  )
  datagram-IsBeside d (error tid e) source r completed w l = (
    d,
    refl,
    record { same_torrents = refl; same_tasks = refl; same_untracked = refl; table = w },
  )
