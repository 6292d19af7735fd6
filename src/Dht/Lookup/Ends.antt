-- ===== src/Dht/Lookup/Ends.antt =====
-- The lookup ends: each round queries an address that was not queried before.
use tortillas.Prelude.{
  ℕ, zero, suc, ◌+◌, ◌≤◌, ◌<◌, ◌≡◌, refl, sym, arith, true, false, ◌||◌, some, inl, inr, Bool, List,
  [], ◌∷◌, map, length, leb, max, Bool-cases, All, PartialEq, ◌==◌, if◌then◌else◌,
}
use tortillas.Dht.Id.{NodeId}
use tortillas.Dht.Compact.{SocketAddr, addr_eq, Contact}
use tortillas.Dht.Lookup.{
  Answer, Lookup, contains, extend, is_empty, keep_closest, batch_of, query_batch, lookup_loop,
}
use tortillas.Dht.Lookup.Rounds.{
  Finds, keep_closest-All, batch_of-All, batch_of-new, take_answers-queried, query_batch-All,
}

module _ {ℓ} {A : Type ℓ} ⦃e : PartialEq A⦄ where
  -- How many of the elements a set lacks.
  abbrev pub missing : List A → List A → ℕ
  missing [] set = 0
  missing (x ∷ xs) set = (if contains x set then 0 else 1) + missing xs set

  missing-cons : (xs set : List A) (a : A) → missing xs (a ∷ set) ≤ missing xs set
  missing-cons [] set a = omega arith
  missing-cons (x ∷ xs) set a = ground (arith, missing-cons xs set a)

  missing-cons-lt :
      (xs set : List A) (a : A)
      → contains a xs ≡ true
      → contains a set ≡ false
      → missing xs (a ∷ set) < missing xs set
  missing-cons-lt [] set a h new = cc
  missing-cons-lt (x ∷ xs) set a h new = elim (Bool-cases (x == a)) [
    | inl same ↦
        let eq : x ≡ a = (e.is_same_iff x a).0 same in
        let first : contains x set ≡ false = rw eq new in
        let self : (a == x) ≡ true = (e.is_same_iff a x).1 (sym eq) in
        rw first (rw self (omega (arith, missing-cons xs set a)))
    | inr other ↦
        let inside : contains a xs ≡ true = rw other at h in
        ground (arith, missing-cons-lt xs set a inside new)
  ]

  missing-extend : (xs more set : List A) → missing xs (extend more set) ≤ missing xs set
  missing-extend xs [] set = omega arith
  missing-extend xs (a ∷ more) set = elim (Bool-cases (contains a set)) [
    | inl old ↦ rw old (missing-extend xs more set)
    | inr new ↦ rw new (omega (arith, missing-extend xs more (a ∷ set), missing-cons xs set a))
  ]

  missing-extend-lt :
      (xs more set : List A) (a : A)
      → contains a xs ≡ true
      → contains a set ≡ false
      → missing xs (extend (a ∷ more) set) < missing xs set
  missing-extend-lt xs more set a h new =
      rw new (omega (arith, missing-extend xs more (a ∷ set), missing-cons-lt xs set a h new))

  pub missing-le : (xs set : List A) → missing xs set ≤ length xs
  missing-le [] set = omega arith
  missing-le (x ∷ xs) set = ground (arith, missing-le xs set)

-- Contacts at the addresses of a list.
abbrev pub IsAt : List SocketAddr → Contact → Type 0
IsAt addrs c = contains c.addr addrs ≡ true

-- A network whose responses name no other addresses.
abbrev pub IsWithin : List SocketAddr → (List SocketAddr → List Contact → List Answer) → Type 0
IsWithin addrs network =
    (queried : List SocketAddr) (batch : List Contact)
    → All (Finds (IsAt addrs)) (network queried batch)

module _ (network : List SocketAddr → List Contact → List Answer)
    (arrange : List SocketAddr → List SocketAddr) (info_hash : NodeId)
    (concurrency peer_limit bucket_size : ℕ) where
  abbrev round : List Contact → Lookup → Lookup
  round = query_batch network arrange info_hash concurrency peer_limit bucket_size

  query_batch-lt :
      (addrs : List SocketAddr) (c : Contact) (batch : List Contact) (s : Lookup)
      → IsAt addrs c
      → contains c.addr s.queried ≡ false
      → missing addrs (round (c ∷ batch) s).queried < missing addrs s.queried
  unfolding query_batch
  query_batch-lt addrs c batch s at_ new =
      rw (take_answers-queried (network s.queried (c ∷ batch)) _)
        (missing-extend-lt addrs (map (λ c. c.addr) batch) s.queried c.addr at_ new)

  query_batch-fewer :
      (addrs : List SocketAddr) (batch : List Contact) (s : Lookup) (enough : Bool)
      → (is_empty batch || enough) ≡ false
      → All (IsAt addrs) batch
      → All (λ c. contains c.addr s.queried ≡ false) batch
      → missing addrs (round batch s).queried < missing addrs s.queried
  query_batch-fewer addrs [] s enough h at_ new = cc
  query_batch-fewer addrs (c ∷ batch) s enough h (at_, _) (new, _) =
      query_batch-lt addrs c batch s at_ new

  pub lookup_loop-ends :
      (addrs : List SocketAddr) (fuel : ℕ) (s : Lookup)
      → IsWithin addrs network
      → All (IsAt addrs) s.candidates
      → missing addrs s.queried < fuel
      → (after : Lookup) × (lookup_loop network arrange info_hash concurrency peer_limit bucket_size
            fuel s
          ≡ some after)
  unfolding lookup_loop
  lookup_loop-ends addrs zero s within inside h = absurd (omega arith)
  lookup_loop-ends addrs (suc fuel) s within inside h =
      let cs = keep_closest info_hash bucket_size s.candidates in
      let kept = keep_closest-All (IsAt addrs) info_hash bucket_size s.candidates inside in
      let batch = batch_of (max concurrency 1) s.queried cs in
      let now : Lookup = record s { candidates = cs } in
      elim (Bool-cases (is_empty batch || leb peer_limit (length s.peers))) [
        | inl stop ↦ (now, rw (stop, lookup_loop) refl)
        | inr more ↦
            let fewer =
              query_batch-fewer addrs batch now (leb peer_limit (length s.peers)) more
                (batch_of-All (IsAt addrs) (max concurrency 1) s.queried cs kept)
                (batch_of-new (max concurrency 1) s.queried cs) in
            let next =
              query_batch-All (IsAt addrs) network arrange info_hash concurrency peer_limit
                bucket_size batch now (within s.queried batch) kept in
            let (after, done) =
              lookup_loop-ends addrs fuel (round batch now) within next (omega (arith, fewer)) in
            (after, rw (more, lookup_loop) done)
      ]
