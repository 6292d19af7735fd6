-- ===== src/Dht/Peers/Expiry.antt =====
-- What `get` finds: the peers that were announced and have not expired.
use tortillas.Prelude.{
  ℕ, ◌-◌, ◌≡◌, refl, sym, ap, ◌∙◌, arith, Bool, true, Option, none, some, inl, inr, [], ◌∷◌, leb,
  ◌==◌, list_eq, list_eqb_iff, nat_eq, Bool-cases,
}
use tortillas.Prelude.Map.{Map, Unique, lookup, remove, insert, keep, lookup-retain, retain-Unique}
use tortillas.Dht.Id.{NodeId}
use tortillas.Dht.Compact.{SocketAddr, addr_eq}
use tortillas.Dht.Peers.{
  Announced, PeerStore, expiration_cutoff, retain_announced, is_empty, prune_peers, prune,
  prune_if_due, or_default,
}

-- When a peer was announced for a hash.
unfoldable pub announced_at : PeerStore → NodeId → SocketAddr → Option ℕ
announced_at s info_hash peer = lookup peer (or_default (lookup info_hash s.peers))

-- No hash and no peer of a hash stands twice.
abbrev pub IsEach : Map NodeId Announced → Type 0
IsEach [] = Unit {0}
IsEach ((info_hash, peers) ∷ m) = Unique peers × IsEach m

pub record IsStore (s : PeerStore) : Type 0 where
  pub hashes : Unique s.peers
  pub each : IsEach s.peers

abbrev pub young : ℕ → ℕ → Bool
young cutoff announced = leb cutoff announced

keep-keep :
    (cutoff : ℕ) (o : Option ℕ)
    → keep (young cutoff) (keep (young cutoff) o) ≡ keep (young cutoff) o
keep-keep cutoff none = refl
keep-keep cutoff (some at) = ground arith

-- What a map of hashes has of a peer.
abbrev found_in : Map NodeId Announced → NodeId → SocketAddr → Option ℕ
found_in m info_hash peer = lookup peer (or_default (lookup info_hash m))

pub each-lookup :
    (m : Map NodeId Announced) (info_hash : NodeId) (peers : Announced)
    → IsEach m
    → lookup info_hash m ≡ some peers
    → Unique peers
unfolding lookup
each-lookup [] info_hash peers each h = cc
each-lookup ((j, p) ∷ m) info_hash peers (u, each) h = elim (Bool-cases (j == info_hash)) [
  | inl same ↦ let e : p ≡ peers = ground arith in rw (← e) u
  | inr other ↦ each-lookup m info_hash peers each (ground arith)
]

lookup-prune :
    (cutoff : ℕ) (m : Map NodeId Announced) (info_hash : NodeId)
    → Unique m
    → lookup info_hash m ≡ none
    → lookup info_hash (prune_peers cutoff m) ≡ none
unfolding lookup prune_peers
lookup-prune cutoff [] info_hash u h = refl
lookup-prune cutoff ((j, p) ∷ m) info_hash (fresh, u) h =
    ground (arith, lookup-prune cutoff m info_hash u)

lookup_empty : (m : Announced) (peer : SocketAddr) → is_empty m ≡ true → lookup peer m ≡ none
unfolding lookup
lookup_empty [] peer h = refl
lookup_empty (e ∷ m) peer h = cc

found_in-prune :
    (cutoff : ℕ) (m : Map NodeId Announced) (info_hash : NodeId) (peer : SocketAddr)
    → Unique m
    → IsEach m
    → found_in (prune_peers cutoff m) info_hash peer
      ≡ keep (young cutoff) (found_in m info_hash peer)
unfolding lookup prune_peers
found_in-prune cutoff [] info_hash peer u each = refl
found_in-prune cutoff ((j, p) ∷ m) info_hash peer (fresh, u) (up, each) =
    elim (Bool-cases (j == info_hash)) [
      | inl same ↦ elim (Bool-cases (is_empty (retain_announced cutoff p))) [
        | inl empty ↦ rw same (
            rw empty
              let gone : lookup info_hash (prune_peers cutoff m) ≡ none =
                  lookup-prune cutoff m info_hash u
                    (ap (λ i. lookup i m) (sym ((list_eqb_iff j info_hash).0 same)) ∙ fresh) in
                rw gone (
                  sym (lookup_empty (retain_announced cutoff p) peer empty)
                  ∙ lookup-retain (young cutoff) peer p up))
        | inr full ↦ rw same (rw (full, same) (lookup-retain (young cutoff) peer p up))
      ]
      | inr other ↦ elim (Bool-cases (is_empty (retain_announced cutoff p))) [
        | inl empty ↦ rw other (rw empty (found_in-prune cutoff m info_hash peer u each))
        | inr full ↦ rw other (rw (full, other) (found_in-prune cutoff m info_hash peer u each))
      ]
    ]

prune-Unique : (cutoff : ℕ) (m : Map NodeId Announced) → Unique m → Unique (prune_peers cutoff m)
unfolding prune_peers
prune-Unique cutoff [] u = tt
prune-Unique cutoff ((j, p) ∷ m) (fresh, u) =
    elim (Bool-cases (is_empty (retain_announced cutoff p))) [
      | inl empty ↦ rw empty (prune-Unique cutoff m u)
      | inr full ↦ rw full (lookup-prune cutoff m j u fresh, prune-Unique cutoff m u)
    ]

prune-IsEach : (cutoff : ℕ) (m : Map NodeId Announced) → IsEach m → IsEach (prune_peers cutoff m)
unfolding prune_peers
prune-IsEach cutoff [] each = tt
prune-IsEach cutoff ((j, p) ∷ m) (up, each) =
    elim (Bool-cases (is_empty (retain_announced cutoff p))) [
      | inl empty ↦ rw empty (prune-IsEach cutoff m each)
      | inr full ↦ rw full (retain-Unique (young cutoff) p up, prune-IsEach cutoff m each)
    ]

pub remove-IsEach :
    (m : Map NodeId Announced) (info_hash : NodeId) → IsEach m → IsEach (remove info_hash m)
unfolding remove
remove-IsEach [] info_hash each = tt
remove-IsEach ((j, p) ∷ m) info_hash (up, each) = elim (Bool-cases (j == info_hash)) [
  | inl same ↦ rw same (remove-IsEach m info_hash each)
  | inr other ↦ rw other (up, remove-IsEach m info_hash each)
]

pub insert-IsEach :
    (m : Map NodeId Announced) (info_hash : NodeId) (peers : Announced)
    → Unique peers
    → IsEach m
    → IsEach (insert info_hash peers m)
unfolding insert
insert-IsEach m info_hash peers u each = (u, remove-IsEach m info_hash each)

pub prune_if_due-IsStore : (s : PeerStore) (now : ℕ) → IsStore s → IsStore (prune_if_due s now)
unfolding prune_if_due prune
prune_if_due-IsStore s now w = elim (Bool-cases (leb s.prune_interval (now - s.last_pruned))) [
  | inl due ↦ rw due (record {
    hashes = prune-Unique (expiration_cutoff s now) s.peers w.hashes;
    each = prune-IsEach (expiration_cutoff s now) s.peers w.each;
  })
  | inr early ↦ rw early w
]

-- Whether or not it prunes, what has not expired is as before.
pub announced_at-prune_if_due :
    (s : PeerStore) (now : ℕ) (info_hash : NodeId) (peer : SocketAddr)
    → IsStore s
    → keep (young (expiration_cutoff s now)) (announced_at (prune_if_due s now) info_hash peer)
      ≡ keep (young (expiration_cutoff s now)) (announced_at s info_hash peer)
unfolding prune_if_due prune announced_at
announced_at-prune_if_due s now info_hash peer w =
    elim (Bool-cases (leb s.prune_interval (now - s.last_pruned))) [
      | inl due ↦
          let cutoff = expiration_cutoff s now in
          rw due (
            ap (keep (young cutoff)) (found_in-prune cutoff s.peers info_hash peer w.hashes w.each)
            ∙ keep-keep cutoff (found_in s.peers info_hash peer))
      | inr early ↦ rw early refl
    ]

pub cutoff-prune_if_due :
    (s : PeerStore) (now : ℕ) → expiration_cutoff (prune_if_due s now) now ≡ expiration_cutoff s now
unfolding prune_if_due prune expiration_cutoff
cutoff-prune_if_due s now = elim (Bool-cases (leb s.prune_interval (now - s.last_pruned))) [
  | inl due ↦ rw due refl
  | inr early ↦ rw early refl
]

pub ttl-prune_if_due : (s : PeerStore) (now : ℕ) → (prune_if_due s now).ttl ≡ s.ttl
unfolding prune_if_due prune
ttl-prune_if_due s now = ground arith
