-- ===== src/Dht/Lookup/Found.antt =====
-- What a lookup that returns has found.
use mathlib.Core.List.{Memᴰ, Permᴰ}
use tortillas.Prelude.{
  ℕ, zero, suc, ◌+◌, ◌≤◌, ◌≡◌, refl, arith, ◌||◌, Option, none, some, inl, inr, List, [], ◌∷◌,
  length, length-take, leb, max, Bool-cases, All, PartialEq,
}
use tortillas.Prelude.Map.{Map, remove, insert}
use tortillas.Prelude.Sort.{IsSorted, IsOrder, sort_by-All, sort_by-IsSorted}
use tortillas.Dht.Id.{NodeId}
use tortillas.Dht.Compact.{SocketAddr, addr_eq, Contact}
use tortillas.Dht.Routing.Closest.{closer-IsOrder}
use tortillas.Dht.Message.{Response}
use tortillas.Dht.Lookup.{
  contact_eq, Answer, Lookup, LookupResult, contains, extend, is_empty, keep_closest, batch_of,
  take_token, peers_of, take_answer, take_answers, closer_entry, query_batch, lookup_loop,
  lookup_peers, result_of, start,
}
use tortillas.Dht.Lookup.Rounds.{take-All}
use tortillas.Dht.Lookup.Ends.{IsAt, IsWithin, missing-le, lookup_loop-ends}

remove-All {ℓ κ μ} :
    {K : Type ℓ} {V : Type κ} ⦃e : PartialEq K⦄ (P : K × V → Type μ) (k : K) (m : Map K V)
    → All P m
    → All P (remove k m)
unfolding remove
remove-All P k [] h = tt
remove-All ⦃e⦄ P k ((j, v) ∷ m) (h, hs) = elim (Bool-cases (e.is_same j k)) [
  | inl same ↦ rw same (remove-All P k m hs)
  | inr other ↦ rw other (h, remove-All P k m hs)
]

All-Permᴰ {ℓ μ} : {A : Type ℓ} (P : A → Type μ) {xs ys : List A} → Permᴰ xs ys → All P xs → All P ys
All-Permᴰ P Permᴰ.nil h = tt
All-Permᴰ P (Permᴰ.cons same p) (h, hs) = (rw same at h, All-Permᴰ P p hs)
All-Permᴰ P (Permᴰ.swap same other) (h, (k, hs)) = (rw other at k, (rw same at h, hs))
All-Permᴰ P (Permᴰ.trans p q) h = All-Permᴰ P q (All-Permᴰ P p h)

extend-All {ℓ μ} :
    {A : Type ℓ} ⦃e : PartialEq A⦄ (P : A → Type μ) (xs set : List A)
    → All P xs
    → All P set
    → All P (extend xs set)
extend-All P [] set h hs = hs
extend-All P (x ∷ xs) set (h, more) hs = elim (Bool-cases (contains x set)) [
  | inl old ↦ rw old (extend-All P xs set more hs)
  | inr new ↦ rw new (extend-All P xs (x ∷ set) more (h, hs))
]

All-Memᴰ {ℓ μ} :
    {A : Type ℓ} (P : A → Type μ) (xs : List A) → ((x : A) → Memᴰ x xs → P x) → All P xs
All-Memᴰ P [] f = tt
All-Memᴰ P (x ∷ xs) f = (f x (Memᴰ.head refl), All-Memᴰ P xs (λ y h. f y (Memᴰ.tail h)))

module _ (network : List SocketAddr → List Contact → List Answer) where
  -- The contact answered a query with the response.
  abbrev pub Answered : Contact → Response → Type 0
  Answered c response =
      (queried : List SocketAddr) × (batch : List Contact) × Memᴰ (c, some response)
        (network queried batch)

  -- The contact gave the token.
  abbrev pub Gave : Contact × List ℕ → Type 0
  Gave (c, token) = (response : Response) × Answered c response × (response.token ≡ some token)

  -- A response named the peer.
  abbrev pub IsNamed : SocketAddr → Type 0
  IsNamed addr =
      (c : Contact) × (response : Response) × Answered c response
      × Memᴰ addr (peers_of response.values)

  record IsFound (s : Lookup) : Type 0 where
    tokens : All Gave s.tokens
    peers : All IsNamed s.peers

  take_token-Gave :
      (c : Contact) (response : Response) (token : Option (List ℕ)) (tokens : Map Contact (List ℕ))
      → Answered c response
      → response.token ≡ token
      → All Gave tokens
      → All Gave (take_token c token tokens)
  unfolding take_token insert
  take_token-Gave c response none tokens a e h = h
  take_token-Gave c response (some token) tokens a e h =
      ((response, a, e), remove-All Gave c tokens h)

  take_answer-IsFound :
      (a : Answer) (queried : List SocketAddr) (batch : List Contact) (s : Lookup)
      → Memᴰ a (network queried batch)
      → IsFound s
      → IsFound (take_answer a s)
  unfolding take_answer
  take_answer-IsFound (c, none) queried batch s m f = record { tokens = f.tokens; peers = f.peers }
  take_answer-IsFound (c, some response) queried batch s m f = record {
    tokens = take_token-Gave c response response.token s.tokens (queried, batch, m) refl f.tokens;
    peers =
        extend-All IsNamed (peers_of response.values) s.peers
          (All-Memᴰ IsNamed (peers_of response.values)
            (λ addr h. (c, response, (queried, batch, m), h)))
          f.peers;
  }

  take_answers-IsFound :
      (answers : List Answer) (queried : List SocketAddr) (batch : List Contact) (s : Lookup)
      → ((a : Answer) → Memᴰ a answers → Memᴰ a (network queried batch))
      → IsFound s
      → IsFound (take_answers answers s)
  unfolding take_answers
  take_answers-IsFound [] queried batch s inside f = f
  take_answers-IsFound (a ∷ answers) queried batch s inside f =
      take_answers-IsFound answers queried batch (take_answer a s) (λ b h. inside b (Memᴰ.tail h))
        (take_answer-IsFound a queried batch s (inside a (Memᴰ.head refl)) f)

closer_entry-IsOrder : (info_hash : NodeId) → IsOrder (closer_entry info_hash)
unfolding closer_entry
closer_entry-IsOrder info_hash =
    let o = closer-IsOrder info_hash in
    record { asym = λ x y. o.asym x.0 y.0; trans = λ x y z. o.trans x.0 y.0 z.0 }

module _ (network : List SocketAddr → List Contact → List Answer)
    (arrange : List SocketAddr → List SocketAddr)
    (arranged : (xs : List SocketAddr) → Permᴰ xs (arrange xs)) (info_hash : NodeId)
    (concurrency peer_limit bucket_size : ℕ) where
  query_batch-IsFound :
      (batch : List Contact) (s : Lookup)
      → IsFound network s
      → IsFound network
          (query_batch network arrange info_hash concurrency peer_limit bucket_size batch s)
  unfolding query_batch
  query_batch-IsFound batch s f =
      take_answers-IsFound network (network s.queried batch) s.queried batch _ (λ a h. h)
        (record { tokens = f.tokens; peers = f.peers })

  lookup_loop-IsFound :
      (fuel : ℕ) (s after : Lookup)
      → IsFound network s
      → lookup_loop network arrange info_hash concurrency peer_limit bucket_size fuel s ≡ some after
      → IsFound network after
  unfolding lookup_loop
  lookup_loop-IsFound zero s after f e = cc
  lookup_loop-IsFound (suc fuel) s after f e =
      let cs = keep_closest info_hash bucket_size s.candidates in
      let batch = batch_of (max concurrency 1) s.queried cs in
      let now : Lookup = record s { candidates = cs } in
      let found : IsFound network now = record { tokens = f.tokens; peers = f.peers } in
      elim (Bool-cases (is_empty batch || leb peer_limit (length s.peers))) [
        | inl stop ↦
            let stopped : some now ≡ some after = rw (stop, lookup_loop) at e in
            let same : now ≡ after = cc in rw same at found
        | inr more ↦
            lookup_loop-IsFound fuel _ after (query_batch-IsFound batch now found)
              (rw (more, lookup_loop) at e)
      ]

  -- Where the addresses of the seeds and of all nodes in responses are among finitely many, the lookup
  -- returns, after at most one more round than there are addresses. It gives no more peers than its
  -- limit, each named by a response of the network, and the contacts to announce to in order of their
  -- distance to the info hash, each with a token that it gave in a response of its own.
  pub lookup_peers-found :
      (addrs : List SocketAddr) (seeds : List Contact)
      → IsWithin addrs network
      → All (IsAt addrs) seeds
      → (result : LookupResult) × (lookup_peers network arrange info_hash concurrency peer_limit
            bucket_size
            (length addrs + 1)
            seeds
          ≡ some result)
        × (length result.peers ≤ peer_limit)
        × All (IsNamed network) result.peers
        × IsSorted (closer_entry info_hash) result.announce_candidates
        × All (Gave network) result.announce_candidates
  unfolding lookup_peers result_of
  lookup_peers-found addrs seeds within inside =
      let begin : Lookup =
        start network arrange info_hash concurrency peer_limit bucket_size seeds in
      let (after, done) =
        lookup_loop-ends network arrange info_hash concurrency peer_limit bucket_size addrs
          (length addrs + 1) begin within inside (omega (arith, missing-le addrs [])) in
      let f =
        lookup_loop-IsFound (length addrs + 1) begin after (record { tokens = tt; peers = tt })
          done in
      (
        result_of network arrange info_hash concurrency peer_limit bucket_size after,
        rw done refl,
        omega (arith, length-take peer_limit (arrange after.peers)),
        take-All (IsNamed network) peer_limit (arrange after.peers)
            (All-Permᴰ (IsNamed network) (arranged after.peers) f.peers),
        sort_by-IsSorted (closer_entry info_hash) (closer_entry-IsOrder info_hash) after.tokens,
        sort_by-All (closer_entry info_hash) (Gave network) after.tokens f.tokens,
      )
