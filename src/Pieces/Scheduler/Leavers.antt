-- ===== src/Pieces/Scheduler/Leavers.antt =====
-- `peer_disconnected` and `release_stale_requests`: what is left in flight, and the counts.
use tortillas.Prelude.{
  ℕ, ◌+◌, ◌≡◌, refl, ap, ◌∙◌, arith, false, none, some, [], ◌∷◌, any, if◌then◌else◌, PartialEq,
  ◌==◌, nat_eq, Bool-cases, inl, inr,
}
use tortillas.Prelude.Map.{Map, lookup, Unique, total, lookup-remove}
use tortillas.Pieces.Scheduler.{PieceScheduler, Blocks, is_some, in_flight_for_peer}
use tortillas.Pieces.Scheduler.Release.{retain, clear_peer, peer_disconnected}
use tortillas.Pieces.Scheduler.Blocks.{one_if, count_peer, count_peer-none_left}
use tortillas.Pieces.Scheduler.Counts.{IsCounted, in_flight_count}

pub lookup-retain :
    {P : Type 0} (f : Blocks P → Blocks P) (k : ℕ) (m : Map ℕ (Blocks P))
    → lookup k m ≡ none
    → lookup k (retain f m) ≡ none
unfolding lookup retain
lookup-retain f k [] h = refl
lookup-retain f k ((j, blocks) ∷ m) h = ground (arith, lookup-retain f k m)

pub retain-Unique :
    {P : Type 0} (f : Blocks P → Blocks P) (m : Map ℕ (Blocks P)) → Unique m → Unique (retain f m)
unfolding retain
retain-Unique f [] u = tt
retain-Unique f ((k, blocks) ∷ m) u = elim (Bool-cases (any is_some (f blocks))) [
  | inl left ↦ rw left (lookup-retain f k m u.0, retain-Unique f m u.1)
  | inr gone ↦ rw gone (retain-Unique f m u.1)
]

pub total-retain :
    {P : Type 0} (g : Blocks P → ℕ) (f : Blocks P → Blocks P) (m : Map ℕ (Blocks P))
    → ((blocks : Blocks P) → any is_some blocks ≡ false → g blocks ≡ 0)
    → total g (retain f m) ≡ total (λ blocks. g (f blocks)) m
unfolding total retain
total-retain g f [] h = refl
total-retain g f ((k, blocks) ∷ m) h = elim (Bool-cases (any is_some (f blocks))) [
  | inl left ↦ rw left (ap (λ n. g (f blocks) + n) (total-retain g f m h))
  | inr gone ↦ rw gone (omega (arith, total-retain g f m h, h (f blocks) gone))
]

-- The number of blocks in flight, of all peers.
unfoldable pub busy : {P : Type 0} → Blocks P → ℕ
busy [] = 0
busy (block ∷ blocks) = one_if (is_some block) + busy blocks

pub busy-none_left : {P : Type 0} (blocks : Blocks P) → any is_some blocks ≡ false → busy blocks ≡ 0
unfolding busy
busy-none_left [] h = refl
busy-none_left (none ∷ blocks) h = omega (arith, busy-none_left blocks h)
busy-none_left (some r ∷ blocks) h = absurd (ground (arith, h))

module _ {P : Type 0} ⦃e : PartialEq P⦄ where
  count_peer-clear_peer :
      (p q : P) (blocks : Blocks P)
      → count_peer q (clear_peer p blocks) ≡ (if p == q then 0 else count_peer q blocks)
  unfolding count_peer clear_peer
  count_peer-clear_peer p q [] = ground arith
  count_peer-clear_peer p q (none ∷ blocks) = ground (arith, count_peer-clear_peer p q blocks)
  count_peer-clear_peer p q (some r ∷ blocks) = ground (
    arith,
    count_peer-clear_peer p q blocks,
    e.is_same_iff p q,
    e.is_same_iff r.peer_id p,
    e.is_same_iff r.peer_id q,
  )

  total-clear_peer :
      (p q : P) (m : Map ℕ (Blocks P))
      → total (λ blocks. count_peer q (clear_peer p blocks)) m
        ≡ (if p == q then 0 else total (count_peer q) m)
  unfolding total
  total-clear_peer p q [] = ground arith
  total-clear_peer p q ((k, blocks) ∷ m) =
      ground (arith, total-clear_peer p q m, count_peer-clear_peer p q blocks)

  -- Where the counts are right, after a disconnection the peer has no block in flight, every other
  -- peer has what it had, and the counts stay right.
  pub peer_disconnected_counts :
      (s : PieceScheduler P) (p : P)
      → IsCounted s
      → IsCounted (peer_disconnected s p)
        × ((q : P)
            → in_flight_count (peer_disconnected s p) q
              ≡ (if p == q then 0 else in_flight_count s q))
  unfolding peer_disconnected in_flight_for_peer
  peer_disconnected_counts s p c = (
    record {
      unique = retain-Unique (clear_peer p) s.in_flight c.unique;
      counts = λ q. ground (arith, c.counts q, left q, lookup-remove p q s.in_flight_per_peer);
    },
    left,
  )
    where
      left :
          (q : P)
          → total (count_peer q) (retain (clear_peer p) s.in_flight)
            ≡ (if p == q then 0 else total (count_peer q) s.in_flight)
      left q =
          total-retain (count_peer q) (clear_peer p) s.in_flight (count_peer-none_left q)
          ∙ total-clear_peer p q s.in_flight
