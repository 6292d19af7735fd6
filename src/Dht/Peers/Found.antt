-- ===== src/Dht/Peers/Found.antt =====
-- `announce`, and what `get` finds.
use tortillas.Prelude.{
  ℕ, ◌+◌, ◌≤◌, ◌≡◌, refl, sym, ◌∙◌, arith, true, false, ◌||◌, Option, none, some, inl, inr, [], map,
  take, eqb, list_eq, nat_eq, Bool-cases, Option-cases, is_same_refl,
}
use mathlib.Core.List.{Perm}
use mathlib.Core.List.Perm
use tortillas.Prelude.Cuts.{take_nil}
use tortillas.Prelude.Map.{
  Map, Unique, lookup, insert, lookup-insert, remove-Unique, insert-Unique, keep, lookup-retain,
  retain-Unique,
}
use tortillas.Dht.Id.{NodeId}
use tortillas.Dht.Compact.{SocketAddr, addr_eq}
use tortillas.Dht.Peers.{
  Announced, PeerStore, expiration_cutoff, retain_announced, is_empty, prune_if_due, or_default,
  is_unspecified, announce, get_of, get,
}
use tortillas.Dht.Peers.Expiry.{
  announced_at, young, IsEach, IsStore, each-lookup, insert-IsEach, remove-IsEach,
  prune_if_due-IsStore, announced_at-prune_if_due, cutoff-prune_if_due, ttl-prune_if_due,
}

or_default-Unique :
    (m : Map NodeId Announced) (info_hash : NodeId)
    → IsEach m
    → Unique (or_default (lookup info_hash m))
or_default-Unique m info_hash each = elim (Option-cases (lookup info_hash m)) [
  | inl missing ↦ rw missing tt
  | inr (peers, h) ↦ rw h (each-lookup m info_hash peers each h)
]

-- What has not lived for longer than its time is kept.
keep-young :
    (s : PeerStore) (at now : ℕ)
    → now ≤ at + s.ttl
    → s.ttl ≤ now
    → keep (young (expiration_cutoff s now)) (some at) ≡ some at
unfolding expiration_cutoff
keep-young s at now h k = ground arith

-- What the pruned store has at the cutoff is what the store has.
found_now :
    (s : PeerStore) (info_hash : NodeId) (now : ℕ) (peer : SocketAddr) (o : Option Announced)
    → IsStore s
    → lookup info_hash (prune_if_due s now).peers ≡ o
    → keep (young (expiration_cutoff (prune_if_due s now) now)) (lookup peer (or_default o))
      ≡ keep (young (expiration_cutoff s now)) (announced_at s info_hash peer)
unfolding announced_at
found_now s info_hash now peer o w h =
    rw (cutoff-prune_if_due s now) (rw (← h) (announced_at-prune_if_due s now info_hash peer w))

found_none :
    (s : PeerStore) (info_hash : NodeId) (now : ℕ) (peer : SocketAddr)
    → IsStore s
    → lookup info_hash (prune_if_due s now).peers ≡ none
    → lookup peer [] ≡ keep (young (expiration_cutoff s now)) (announced_at s info_hash peer)
unfolding lookup
found_none s info_hash now peer w h = found_now s info_hash now peer none w h

-- A peer that is announced with a port and an address is stored as of now, in a store that stays well
-- formed.
pub announce_lem :
    (s : PeerStore) (info_hash : NodeId) (peer : SocketAddr) (now : ℕ)
    → IsStore s
    → (eqb peer.port 0 || is_unspecified peer.ip) ≡ false
    → (after : PeerStore) × (announce s info_hash peer now ≡ (true, after))
      × IsStore after
      × (announced_at after info_hash peer ≡ some now)
      × (after.ttl ≡ s.ttl)
unfolding announce announced_at
announce_lem s info_hash peer now w valid =
    let pruned = prune_if_due s now in
    let w' = prune_if_due-IsStore s now w in
    let peers = insert peer now (or_default (lookup info_hash pruned.peers)) in
    let unique =
      insert-Unique peer now (or_default (lookup info_hash pruned.peers))
        (or_default-Unique pruned.peers info_hash w'.each) in
    (
      record pruned { peers = insert info_hash peers pruned.peers },
      rw valid refl,
      record {
        hashes = insert-Unique info_hash peers pruned.peers w'.hashes;
        each = insert-IsEach pruned.peers info_hash peers unique w'.each;
      },
      rw (lookup-insert info_hash info_hash peers pruned.peers) (
          rw (is_same_refl info_hash) (
            rw (lookup-insert peer peer now (or_default (lookup info_hash pruned.peers)))
              (rw (is_same_refl peer) refl))),
      ttl-prune_if_due s now,
    )

module _ (arrange : Announced → Announced) (same : (m : Announced) → Perm (arrange m) m) where
  get_of-IsStore :
      (s : PeerStore) (info_hash : NodeId) (limit cutoff : ℕ) (peers : Announced)
      → IsStore s
      → Unique peers
      → IsStore (get_of arrange s info_hash limit cutoff (some peers)).1
  unfolding get_of
  get_of-IsStore s info_hash limit cutoff peers w u =
      elim (Bool-cases (is_empty (retain_announced cutoff peers))) [
        | inl empty ↦ rw empty (record {
          hashes = remove-Unique info_hash s.peers w.hashes;
          each = remove-IsEach s.peers info_hash w.each;
        })
        | inr full ↦ rw full (record {
          hashes = insert-Unique info_hash (retain_announced cutoff peers) s.peers w.hashes;
          each =
              insert-IsEach s.peers info_hash (retain_announced cutoff peers)
                (retain-Unique (young cutoff) peers u) w.each;
        })
      ]

  -- A lookup returns up to its limit of the peers that were announced for the hash no earlier than the
  -- cutoff, each of them once and in some order, and leaves a well-formed store.
  pub get_lem :
      (s : PeerStore) (info_hash : NodeId) (limit now : ℕ)
      → IsStore s
      → (found order : Announced) × Perm order found
        × Unique found
        × ((peer : SocketAddr)
            → lookup peer found
              ≡ keep (young (expiration_cutoff s now)) (announced_at s info_hash peer))
        × ((get arrange s info_hash limit now).0 ≡ take limit (map (λ e. e.0) order))
        × IsStore (get arrange s info_hash limit now).1
  unfolding get get_of announced_at
  get_lem s info_hash limit now w =
      let pruned = prune_if_due s now in
      let w' = prune_if_due-IsStore s now w in
      elim (Option-cases (lookup info_hash pruned.peers)) [
        | inl missing ↦ (
          [],
          [],
          Perm.refl [],
          tt,
          (λ peer. found_none s info_hash now peer w missing),
          rw missing (sym (take_nil limit)),
          rw missing w',
        )
        | inr (peers, h) ↦
            let u = each-lookup pruned.peers info_hash peers w'.each h in
            let cutoff = expiration_cutoff pruned now in
            let found = retain_announced cutoff peers in
            (
              found,
              arrange found,
              same found,
              retain-Unique (young cutoff) peers u,
              (λ peer.
                  lookup-retain (young cutoff) peer peers u
                  ∙ found_now s info_hash now peer (some peers) w h),
              rw h refl,
              rw h (get_of-IsStore pruned info_hash limit cutoff peers w' u),
            )
      ]

  -- A peer that was announced with a port and an address is found while its time to live has not
  -- passed: the lookup returns up to its limit of the peers of a map that has it.
  announce-get :
      (s : PeerStore) (info_hash : NodeId) (peer : SocketAddr) (limit at now : ℕ)
      → IsStore s
      → (eqb peer.port 0 || is_unspecified peer.ip) ≡ false
      → now ≤ at + s.ttl
      → s.ttl ≤ now
      → (found order : Announced) × Perm order found
        × (lookup peer found ≡ some at)
        × ((get arrange (announce s info_hash peer at).1 info_hash limit now).0
            ≡ take limit (map (λ e. e.0) order))
  announce-get s info_hash peer limit at now w valid soon old =
      let (after, done, w', stored, ttl) = announce_lem s info_hash peer at w valid in
      let (found, order, perm, _, has, result, _) = get_lem after info_hash limit now w' in
      (
        found,
        order,
        perm,
        has peer ∙ rw stored (keep-young after at now (omega (arith, ttl)) (omega (arith, ttl))),
        rw done result,
      )
