-- ===== src/Dht/State/Answers.antt =====
-- The answers to queries, one after another.
use tortillas.Prelude.{
  ℕ, ◌+◌, ◌*◌, ◌≤◌, ◌<◌, ◌≡◌, refl, ap, ◌∙◌, Bool, true, false, ◌||◌, some, List, [], length, eqb,
}
use mathlib.Core.List.{Perm}
use tortillas.Prelude.Outcome.{ok}
use tortillas.Dht.Id.{NodeId, dht_id_len}
use tortillas.Dht.Compact.{SocketAddr, Contact}
use tortillas.Dht.Routing.Tables.{IsTable}
use tortillas.Dht.Routing.Tables.Changes.{insert-IsTable}
use tortillas.Dht.Token.{Reading, duration_max, generate, verify}
use tortillas.Dht.Token.Lifetime.{after_calls, generate-verify}
use tortillas.Dht.Peers.{Announced, is_unspecified}
use tortillas.Dht.Peers.Expiry.{IsStore, announced_at}
use tortillas.Dht.Peers.Found.{announce_lem, get_lem}
use tortillas.Dht.Message.{get_peers, announce_peer, id_of, Response, pong}
use tortillas.Dht.State.{
  DhtState, id_of_state, insert_contact, answer_get_peers, announced_peer, answer, handle_query,
}

-- A state whose routing table and peer store are well formed.
pub record IsState (s : DhtState) : Type 0 where
  pub table : IsTable s.routing
  pub store : IsStore s.peers

insert_contact-IsState :
    (s : DhtState) (contact : Contact)
    → IsState s
    → length contact.id ≡ dht_id_len
    → (after : DhtState) × (insert_contact s contact ≡ some after)
      × IsState after
      × (after.tokens ≡ s.tokens)
      × (after.peers ≡ s.peers)
      × (after.peer_limit ≡ s.peer_limit)
unfolding insert_contact
insert_contact-IsState s contact w l =
    let (added, routing, done, w') = insert-IsTable s.routing contact w.table l in
    (
      record s { routing = routing },
      rw done refl,
      record { table = w'; store = w.store },
      refl,
      refl,
      refl,
    )

module _ (sha1 : List ℕ → List ℕ) (arrange : Announced → Announced)
    (same : (m : Announced) → Perm (arrange m) m) where
  answer_get_peers-IsState :
      (s : DhtState) (info_hash : NodeId) (source : SocketAddr) (r : Reading)
      → IsState s
      → (response : Response) × (after : DhtState) × (answer_get_peers sha1 arrange s info_hash
            source r
          ≡ (ok response, after))
        × IsState after
        × (response.token ≡ some (generate sha1 s.tokens r source.ip).0)
        × (after.tokens ≡ (generate sha1 s.tokens r source.ip).1)
  unfolding answer_get_peers
  answer_get_peers-IsState s info_hash source r w =
      let (found, order, _, _, _, _, store) =
        get_lem arrange same s.peers info_hash s.peer_limit r.now w.store in
      (_, _, refl, record { table = w.table; store = store }, refl, refl)

  -- The token of the answer, and the state after it.
  get_peers-IsState :
      (s : DhtState) (id info_hash : NodeId) (source : SocketAddr) (r : Reading)
      → IsState s
      → length id ≡ dht_id_len
      → (response : Response) × (after : DhtState) × (handle_query sha1 arrange s
            (get_peers id info_hash)
            source
            r
          ≡ some (ok response, after))
        × IsState after
        × (response.token ≡ some (generate sha1 s.tokens r source.ip).0)
        × (after.tokens ≡ (generate sha1 s.tokens r source.ip).1)
  unfolding handle_query answer id_of
  get_peers-IsState s id info_hash source r w l =
      let (s', done, w', tokens, _, _) =
        insert_contact-IsState s (record { id = id; addr = source }) w l in
      let (response, after, answered, w'', issued, kept) =
        answer_get_peers-IsState s' info_hash source r w' in
      (
        response,
        after,
        rw done (ap some answered),
        w'',
        issued ∙ rw tokens refl,
        kept ∙ rw tokens refl,
      )

  -- An announcement with a token that is accepted.
  announce_peer-IsState :
      (s : DhtState) (id info_hash : NodeId) (port : ℕ) (token : List ℕ) (implied_port : Bool)
      (source : SocketAddr) (r : Reading)
      → IsState s
      → length id ≡ dht_id_len
      → (verify sha1 s.tokens r token source.ip).0 ≡ true
      → (eqb (announced_peer source port implied_port).port 0 || is_unspecified source.ip) ≡ false
      → (after : DhtState) × (handle_query sha1 arrange s
            (announce_peer id info_hash port token implied_port)
            source
            r
          ≡ some (ok (pong (id_of_state after)), after))
        × IsState after
        × (announced_at after.peers info_hash (announced_peer source port implied_port)
            ≡ some r.now)
  unfolding handle_query answer id_of
  announce_peer-IsState s id info_hash port token implied_port source r w l accepted valid =
      let (s', done, w', tokens, peers, _) =
        insert_contact-IsState s (record { id = id; addr = source }) w l in
      let (store, announced, w'', stored, _) =
        announce_lem s'.peers info_hash (announced_peer source port implied_port) r.now w'.store
          valid in
      let verified = verify sha1 s'.tokens r token source.ip in
      let accepted' : verified.0 ≡ true = rw tokens accepted in
      (
        record s' { tokens = verified.1; peers = store },
        rw done (rw accepted' (rw announced refl)),
        record { table = w'.table; store = w'' },
        stored,
      )

  -- A node with an id of 20 bytes that asks for peers and announces itself with the token of the answer,
  -- from the same address, is stored as a peer, announced at that time, and gets no error. It must do so
  -- before a rotation interval has passed, and announce a port other than 0, from an address that is not
  -- the unspecified one. The state is well formed, its clock does not run backwards, and twice the
  -- rotation interval is a duration that the clock can hold.
  pub get_peers-announce_peer :
      (s : DhtState) (id info_hash : NodeId) (port : ℕ) (implied_port : Bool) (source : SocketAddr)
      (r v : Reading)
      → IsState s
      → length id ≡ dht_id_len
      → s.tokens.rotation_interval * 2 ≤ duration_max
      → s.tokens.rotated_at ≤ r.now
      → r.now ≤ r.later
      → r.later ≤ v.now
      → v.now ≤ v.later
      → v.now < r.now + s.tokens.rotation_interval
      → (eqb (announced_peer source port implied_port).port 0 || is_unspecified source.ip) ≡ false
      → (response : Response) × (token : List ℕ) × (asked after : DhtState) × (handle_query sha1
            arrange s
            (get_peers id info_hash)
            source
            r
          ≡ some (ok response, asked))
        × (response.token ≡ some token)
        × (handle_query sha1 arrange asked
              (announce_peer id info_hash port token implied_port)
              source
              v
            ≡ some (ok (pong (id_of_state after)), after))
        × (announced_at after.peers info_hash (announced_peer source port implied_port)
            ≡ some v.now)
  unfolding after_calls
  get_peers-announce_peer s id info_hash port implied_port source r v w l fits rotated forward
        between forward' soon valid =
      let (response, asked, answered, w', issued, kept) =
        get_peers-IsState s id info_hash source r w l in
      let token = (generate sha1 s.tokens r source.ip).0 in
      let accepted : (verify sha1 asked.tokens v token source.ip).0 ≡ true = rw kept (
        generate-verify sha1 s.tokens r v source.ip [] fits rotated forward tt between forward'
          soon) in
      let (after, announced, _, stored) =
        announce_peer-IsState asked id info_hash port token implied_port source v w' l accepted
          valid in
      (response, token, asked, after, answered, issued, announced, stored)
