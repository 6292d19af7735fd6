-- ===== src/Dht/Lookup/Rounds.antt =====
-- What a round of the lookup keeps: whatever holds of the candidates and of the nodes in the responses.
use tortillas.Prelude.{
  ℕ, zero, suc, ◌≡◌, refl, false, none, some, inl, inr, List, [], ◌∷◌, take, Bool-cases, All,
  All-append,
}
use tortillas.Prelude.Sort.{sort_by-All}
use tortillas.Dht.Id.{NodeId}
use tortillas.Dht.Compact.{SocketAddr, addr_eq, Contact}
use tortillas.Dht.Routing.{closer}
use tortillas.Dht.Lookup.{
  Answer, Lookup, contains, retain_unique, unqueried, keep_closest, batch_of, nodes_of, take_answer,
  take_answers, query_batch,
}

pub take-All {ℓ κ} :
    {A : Type ℓ} (P : A → Type κ) (n : ℕ) (xs : List A) → All P xs → All P (take n xs)
take-All P zero xs h = tt
take-All P (suc n) [] h = tt
take-All P (suc n) (x ∷ xs) (h, hs) = (h, take-All P n xs hs)

module _ {κ} (P : Contact → Type κ) where
  retain_unique-All :
      (seen : List SocketAddr) (cs : List Contact) → All P cs → All P (retain_unique seen cs)
  unfolding retain_unique
  retain_unique-All seen [] h = tt
  retain_unique-All seen (c ∷ cs) (h, hs) = elim (Bool-cases (contains c.addr seen)) [
    | inl old ↦ rw old (retain_unique-All seen cs hs)
    | inr new ↦ rw new (h, retain_unique-All (c.addr ∷ seen) cs hs)
  ]

  unqueried-All :
      (queried : List SocketAddr) (cs : List Contact) → All P cs → All P (unqueried queried cs)
  unfolding unqueried
  unqueried-All queried [] h = tt
  unqueried-All queried (c ∷ cs) (h, hs) = elim (Bool-cases (contains c.addr queried)) [
    | inl old ↦ rw old (unqueried-All queried cs hs)
    | inr new ↦ rw new (h, unqueried-All queried cs hs)
  ]

  pub keep_closest-All :
      (info_hash : NodeId) (size : ℕ) (cs : List Contact)
      → All P cs
      → All P (keep_closest info_hash size cs)
  unfolding keep_closest
  keep_closest-All info_hash size cs h =
      take-All P size _ (retain_unique-All [] _ (sort_by-All (closer info_hash) P cs h))

  pub batch_of-All :
      (n : ℕ) (queried : List SocketAddr) (cs : List Contact)
      → All P cs
      → All P (batch_of n queried cs)
  unfolding batch_of
  batch_of-All n queried cs h = take-All P n _ (unqueried-All queried cs h)

  -- What an answer adds to the candidates.
  abbrev pub Finds : Answer → Type κ
  Finds (c, none) = Unit {κ}
  Finds (c, some response) = All P (nodes_of response.nodes)

  take_answers-All :
      (answers : List Answer) (s : Lookup)
      → All Finds answers
      → All P s.candidates
      → All P (take_answers answers s).candidates
  unfolding take_answers take_answer
  take_answers-All [] s f h = h
  take_answers-All ((c, none) ∷ answers) s (f, fs) h = take_answers-All answers _ fs h
  take_answers-All ((c, some response) ∷ answers) s (f, fs) h =
      take_answers-All answers _ fs (All-append P s.candidates (nodes_of response.nodes) h f)

unqueried-new :
    (queried : List SocketAddr) (cs : List Contact)
    → All (λ c. contains c.addr queried ≡ false) (unqueried queried cs)
unfolding unqueried
unqueried-new queried [] = tt
unqueried-new queried (c ∷ cs) = elim (Bool-cases (contains c.addr queried)) [
  | inl old ↦ rw old (unqueried-new queried cs)
  | inr new ↦ rw new (new, unqueried-new queried cs)
]

-- A batch has no contact whose address was queried before.
pub batch_of-new :
    (n : ℕ) (queried : List SocketAddr) (cs : List Contact)
    → All (λ c. contains c.addr queried ≡ false) (batch_of n queried cs)
unfolding batch_of
batch_of-new n queried cs =
    take-All (λ c. contains c.addr queried ≡ false) n _ (unqueried-new queried cs)

pub take_answers-queried :
    (answers : List Answer) (s : Lookup) → (take_answers answers s).queried ≡ s.queried
unfolding take_answers take_answer
take_answers-queried [] s = refl
take_answers-queried ((c, none) ∷ answers) s = take_answers-queried answers _
take_answers-queried ((c, some response) ∷ answers) s = take_answers-queried answers _

pub query_batch-All {κ} :
    (P : Contact → Type κ) (network : List SocketAddr → List Contact → List Answer)
    (arrange : List SocketAddr → List SocketAddr) (info_hash : NodeId)
    (concurrency peer_limit bucket_size : ℕ) (batch : List Contact) (s : Lookup)
    → All (Finds P) (network s.queried batch)
    → All P s.candidates
    → All P
        (query_batch network arrange info_hash concurrency peer_limit bucket_size batch
          s).candidates
unfolding query_batch
query_batch-All P network arrange info_hash concurrency peer_limit bucket_size batch s f h =
    take_answers-All P (network s.queried batch) _ f h
