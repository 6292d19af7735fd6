-- ===== src/Pieces/Scheduler/Stale.antt =====
-- `release_stale_requests`: which blocks it drops, and what it counts.
use tortillas.Prelude.{
  ℕ, zero, suc, ◌+◌, ◌≡◌, refl, sym, ap, ◌∙◌, arith, false, Option, none, some, [], ◌∷◌, map, any,
  if◌then◌else◌, PartialEq, ◌==◌, nat_eq, Bool-cases, inl, inr,
}
use tortillas.Prelude.Map.{Map, lookup, Unique, total, lookup-insert}
use tortillas.Pieces.Scheduler.{
  PieceScheduler, InFlightBlock, Blocks, is_some, unwrap_or, block_at, blocks_or_empty,
  in_flight_for_peer,
}
use tortillas.Pieces.Scheduler.Release.{
  retain, bump, is_stale, release_blocks, release_pieces, release_stale_requests,
}
use tortillas.Pieces.Scheduler.Blocks.{one_if, count_peer, count_peer-none_left}
use tortillas.Pieces.Scheduler.Counts.{IsCounted}
use tortillas.Pieces.Scheduler.Holders.{holder}
use tortillas.Pieces.Scheduler.Leavers.{
  lookup-retain, retain-Unique, total-retain, busy, busy-none_left,
}

-- A request that is younger than the timeout stays.
abbrev pub fresh : {P : Type 0} → ℕ → ℕ → Option (InFlightBlock P) → Option (InFlightBlock P)
fresh now timeout none = none
fresh now timeout (some request) = if is_stale now timeout request then none else some request

pub block_at-none_left :
    {P : Type 0} (blocks : Blocks P) (i : ℕ) → any is_some blocks ≡ false → block_at blocks i ≡ none
block_at-none_left [] i h = refl
block_at-none_left (none ∷ blocks) zero h = refl
block_at-none_left (none ∷ blocks) (suc i) h = block_at-none_left blocks i h
block_at-none_left (some r ∷ blocks) i h = absurd (ground (arith, h))

block_at-fresh :
    {P : Type 0} (now timeout : ℕ) (blocks : Blocks P) (i : ℕ)
    → block_at (map (fresh now timeout) blocks) i ≡ fresh now timeout (block_at blocks i)
block_at-fresh now timeout [] i = refl
block_at-fresh now timeout (b ∷ blocks) zero = refl
block_at-fresh now timeout (b ∷ blocks) (suc i) = block_at-fresh now timeout blocks i

holder-retain :
    {P : Type 0} (now timeout k i : ℕ) (m : Map ℕ (Blocks P))
    → Unique m
    → block_at (blocks_or_empty (lookup k (retain (map (fresh now timeout)) m))) i
      ≡ fresh now timeout (block_at (blocks_or_empty (lookup k m)) i)
unfolding lookup retain
holder-retain now timeout k i [] u = refl
holder-retain now timeout k i ((j, blocks) ∷ m) u = ground (
  arith,
  lookup-retain (map (fresh now timeout)) j m u.0,
  holder-retain now timeout k i m u.1,
  block_at-fresh now timeout blocks i,
  block_at-none_left (map (fresh now timeout) blocks) i,
)

module _ {P : Type 0} ⦃e : PartialEq P⦄ (now timeout : ℕ) where
  abbrev count_in : Map P ℕ → P → ℕ
  count_in m p = unwrap_or (lookup p m) 0

  bump_lem : (p q : P) (m : Map P ℕ) → count_in (bump p m) q ≡ count_in m q + one_if (p == q)
  unfolding bump
  bump_lem p q m = ground (arith, e.is_same_iff p q, lookup-insert p q (count_in m p + 1) m)

  -- One piece: the fresh blocks stay, and the counters grow by what stays and what goes.
  release_blocks_lem :
      (blocks : Blocks P) (count : ℕ) (per_peer : Map P ℕ)
      → ((release_blocks now timeout blocks count per_peer).0 ≡ map (fresh now timeout) blocks)
        × ((release_blocks now timeout blocks count per_peer).1
              + busy (map (fresh now timeout) blocks)
            ≡ count + busy blocks)
        × ((p : P)
            → count_in (release_blocks now timeout blocks count per_peer).2 p
              ≡ count_in per_peer p + count_peer p (map (fresh now timeout) blocks))
  unfolding release_blocks busy count_peer
  release_blocks_lem [] count per_peer = (refl, refl, λ p. omega arith)
  release_blocks_lem (none ∷ blocks) count per_peer =
      let (a, b, c) = release_blocks_lem blocks count per_peer in
      (ap (λ l. none ∷ l) a, omega (arith, b), λ p. omega (arith, c p))
  release_blocks_lem (some r ∷ blocks) count per_peer = elim (Bool-cases (is_stale now timeout r)) [
    | inl stale ↦
        let (a, b, c) = release_blocks_lem blocks (count + 1) per_peer in
        rw stale (ap (λ l. none ∷ l) a, omega (arith, b), λ p. omega (arith, c p))
    | inr young ↦
        let (a, b, c) = release_blocks_lem blocks count (bump r.peer_id per_peer) in
        rw young (
          ap (λ l. some r ∷ l) a,
          omega (arith, b),
          λ p. omega (arith, c p, bump_lem r.peer_id p per_peer),
        )
  ]

  release_pieces_lem :
      (m : Map ℕ (Blocks P)) (count : ℕ) (per_peer : Map P ℕ)
      → ((release_pieces now timeout m count per_peer).0 ≡ retain (map (fresh now timeout)) m)
        × ((release_pieces now timeout m count per_peer).1
              + total (λ blocks. busy (map (fresh now timeout) blocks)) m
            ≡ count + total busy m)
        × ((p : P)
            → count_in (release_pieces now timeout m count per_peer).2 p
              ≡ count_in per_peer p
                + total (λ blocks. count_peer p (map (fresh now timeout) blocks)) m)
  unfolding release_pieces retain total
  release_pieces_lem [] count per_peer = (refl, refl, λ p. omega arith)
  release_pieces_lem ((k, blocks) ∷ m) count per_peer =
      let (a, b, c) = release_blocks_lem blocks count per_peer in
      let r = release_blocks now timeout blocks count per_peer in
      let (d, f, g) = release_pieces_lem m r.1 r.2 in
      (rw (a, d), omega (arith, b, f), λ p. omega (arith, c p, g p))

  from_empty : (p : P) (n : ℕ) → count_in [] p + n ≡ n
  unfolding lookup
  from_empty p n = omega arith

  -- Where no piece has two entries, a block stays in flight, with its peer, exactly if its request
  -- is younger than the timeout; the result is the number of blocks that went; and the counts are
  -- right afterwards, whatever they were before.
  pub release_stale_requests_exact :
      (s : PieceScheduler P)
      → Unique s.in_flight
      → IsCounted (release_stale_requests s now timeout).1
        × ((piece block : ℕ)
            → holder (release_stale_requests s now timeout).1 piece block
              ≡ fresh now timeout (holder s piece block))
        × ((release_stale_requests s now timeout).0
              + total busy (release_stale_requests s now timeout).1.in_flight
            ≡ total busy s.in_flight)
  unfolding release_stale_requests in_flight_for_peer
  release_stale_requests_exact s u =
      let (a, b, c) = release_pieces_lem s.in_flight 0 [] in
      let keep = map (fresh now timeout) in
      (
        record {
          unique = rw a (retain-Unique keep s.in_flight u);
          counts = λ p.
              c p
              ∙ from_empty p (total (λ blocks. count_peer p (keep blocks)) s.in_flight)
              ∙ sym (total-retain (count_peer p) keep s.in_flight (count_peer-none_left p))
              ∙ ap (total (count_peer p)) (sym a);
        },
        λ piece block. rw a (holder-retain now timeout piece block s.in_flight u),
        rw a (omega (arith, b, total-retain busy keep s.in_flight busy-none_left)),
      )
