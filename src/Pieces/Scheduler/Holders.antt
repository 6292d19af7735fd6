-- ===== src/Pieces/Scheduler/Holders.antt =====
-- Who holds a block in flight, and how a claim changes it.
use tortillas.Prelude.{
  ℕ, zero, suc, ◌+◌, ◌-◌, ◌/◌, ◌%◌, ◌≤◌, ◌≡◌, refl, ap, ◌∙◌, arith, ◌&&◌, Option, none, some, [],
  ◌∷◌, ◌++◌, length, length-append, length-replicate, get_elem?-set_self, get_elem?-set_ne, set,
  replicate, eqb, eqb_iff, if◌then◌else◌, PartialEq, ◌==◌, nat_eq, Bool-cases, inl, inr,
}
use tortillas.Prelude.Map.{lookup, lookup-insert, insert-Unique, total-insert}
use tortillas.Pieces.Scheduler.{
  PieceScheduler, InFlightBlock, Blocks, block_at, blocks_or_empty, flatten, in_flight_for_peer,
}
use tortillas.Pieces.Scheduler.Requests.{Plan, resize_to, claim}
use tortillas.Pieces.Scheduler.Blocks.{
  one_if, count_peer, count_peer-set-some, count_peer-replicate, weight-count_peer,
}
use tortillas.Pieces.Scheduler.Counts.{IsCounted}

module _ {P : Type 0} where
  abbrev pub holder : PieceScheduler P → ℕ → ℕ → Option (InFlightBlock P)
  holder s piece block = block_at (blocks_or_empty (lookup piece s.in_flight)) block

  abbrev pub mine : Plan P → InFlightBlock P
  mine plan = record { peer_id = plan.peer_id; requested_at = plan.now }

  block_at-replicate :
      (blocks : Blocks P) (n i : ℕ) → block_at (blocks ++ replicate n none) i ≡ block_at blocks i
  block_at-replicate [] zero i = refl
  block_at-replicate [] (suc n) zero = refl
  block_at-replicate [] (suc n) (suc i) = block_at-replicate [] n i
  block_at-replicate (b ∷ blocks) n zero = refl
  block_at-replicate (b ∷ blocks) n (suc i) = block_at-replicate blocks n i

  resized : (blocks : Blocks P) (n : ℕ) → n ≤ length (resize_to blocks n)
  unfolding resize_to
  resized blocks n = omega (
    arith,
    length-append blocks (replicate (n - length blocks) none),
    length-replicate {A = Option (InFlightBlock P)} (n - length blocks) none,
  )

  block_at-set :
      (blocks : Blocks P) (i j : ℕ) (r : InFlightBlock P)
      → block_at (set (resize_to blocks (i + 1)) i (some r)) j
        ≡ (if eqb i j then some r else block_at blocks j)
  block_at-set blocks i j r = elim (Bool-cases (eqb i j)) [
    | inl same ↦
        rw (same, ← (eqb_iff i j).0 same)
          (ap flatten (
            get_elem?-set_self (resize_to blocks (i + 1)) i (some r)
              (omega (arith, resized blocks (i + 1)))))
    | inr other ↦ rw other (
        ap flatten (get_elem?-set_ne (resize_to blocks (i + 1)) (some r) (λ p. ground (arith, p)))
        ∙ (unfold resize_to in block_at-replicate blocks _ j))
  ]

count_peer-claim :
    {P : Type 0} ⦃e : PartialEq P⦄ (plan : Plan P) (p : P) (blocks : Blocks P) (i : ℕ)
    → block_at blocks i ≡ none
    → count_peer p (set (resize_to blocks (i + 1)) i (some (mine plan)))
      ≡ count_peer p blocks + one_if (plan.peer_id == p)
count_peer-claim plan p blocks i idle =
    count_peer-set-some p (resize_to blocks (i + 1)) i (mine plan)
      (omega (arith, resized blocks (i + 1)))
      (unfold resize_to in block_at-replicate blocks _ i ∙ idle)
    ∙ ap (λ n. n + one_if (plan.peer_id == p)) (unfold resize_to in count_peer-replicate p blocks _)

module _ {P : Type 0} ⦃e : PartialEq P⦄ (plan : Plan P) (s : PieceScheduler P) (slot : ℕ) where
  abbrev slot_piece : ℕ
  slot_piece = slot / plan.blocks_per_piece

  abbrev slot_block : ℕ
  slot_block = slot % plan.blocks_per_piece

  -- After a claim the slot's block is the peer's, and every other block is held as before.
  pub holder-claim :
      (piece block : ℕ)
      → holder (claim plan s slot) piece block ≡ (
          if eqb slot_piece piece && eqb slot_block block
          then some (mine plan)
          else holder s piece block)
  unfolding claim
  holder-claim piece block =
      let old = blocks_or_empty (lookup slot_piece s.in_flight) in
      let new = set (resize_to old (slot_block + 1)) slot_block (some (mine plan)) in
      ground (
        arith,
        lookup-insert slot_piece piece new s.in_flight,
        block_at-set old slot_block block (mine plan),
      )

  -- A claim of a block that nobody holds keeps the counts.
  pub claim-IsCounted :
      holder s slot_piece slot_block ≡ none → IsCounted s → IsCounted (claim plan s slot)
  unfolding claim in_flight_for_peer
  claim-IsCounted idle c =
      let old = blocks_or_empty (lookup slot_piece s.in_flight) in
      let big = resize_to old (slot_block + 1) in
      let new = set big slot_block (some (mine plan)) in
      record {
        unique = insert-Unique slot_piece new s.in_flight c.unique;
        counts = λ p. ground (
          arith,
          c.counts p,
          c.counts plan.peer_id,
          e.is_same_iff plan.peer_id p,
          lookup-insert plan.peer_id p (in_flight_for_peer s plan.peer_id + 1) s.in_flight_per_peer,
          total-insert (count_peer p) slot_piece new s.in_flight c.unique,
          weight-count_peer p (lookup slot_piece s.in_flight),
          count_peer-claim plan p old slot_block idle,
        );
      }
