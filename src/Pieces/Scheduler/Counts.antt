-- ===== src/Pieces/Scheduler/Counts.antt =====
-- `in_flight_per_peer` beside the blocks in flight of each peer.
use tortillas.Prelude.{
  ℕ, ◌+◌, ◌-◌, ◌/◌, ◌≡◌, refl, sym, ap, ◌∙◌, arith, Option, none, some, set, any, if◌then◌else◌,
  PartialEq, ◌==◌, nat_eq, Bool-cases, inl, inr,
}
use tortillas.Prelude.Map.{
  lookup, Unique, total, lookup-remove, lookup-insert, remove-Unique, insert-Unique, total-remove,
  total-insert,
}
use tortillas.Pieces.Scheduler.{
  PieceScheduler, InFlightBlock, Blocks, is_some, unwrap_or, block_at, blocks_or_empty, held_by,
  take_block, remove_in_flight, in_flight_for_peer, decrement_map, decrement_in_flight, released,
  mark_block_complete, release_peer_request, block_size,
}
use tortillas.Pieces.Scheduler.Blocks.{
  one_if, count_peer, count_peer-set-none, count_peer-none_left, weight-count_peer,
}

module _ {P : Type 0} ⦃e : PartialEq P⦄ where
  abbrev pub in_flight_count : PieceScheduler P → P → ℕ
  in_flight_count s p = total (count_peer p) s.in_flight

  pub record IsCounted (s : PieceScheduler P) : Type 0 where
    pub unique : Unique s.in_flight
    pub counts : (p : P) → in_flight_for_peer s p ≡ in_flight_count s p

  pub decrement_in_flight_lem :
      (s : PieceScheduler P) (q p : P)
      → in_flight_for_peer (decrement_in_flight s q) p ≡ in_flight_for_peer s p - one_if (q == p)
  unfolding decrement_in_flight decrement_map in_flight_for_peer
  decrement_in_flight_lem s q p = ground (
    arith,
    e.is_same_iff q p,
    lookup-remove q p s.in_flight_per_peer,
    lookup-insert q p (unwrap_or (lookup q s.in_flight_per_peer) 0 - 1) s.in_flight_per_peer,
  )

  -- Taking a block out leaves one less of its peer.
  take_block-total :
      (s : PieceScheduler P) (piece block : ℕ) (p : P) {r : InFlightBlock P}
      → Unique s.in_flight
      → block_at (blocks_or_empty (lookup piece s.in_flight)) block ≡ some r
      → in_flight_count (take_block s piece block (blocks_or_empty (lookup piece s.in_flight))) p
          + one_if (r.peer_id == p)
        ≡ in_flight_count s p
  unfolding take_block
  take_block-total s piece block p u h =
      let blocks = blocks_or_empty (lookup piece s.in_flight) in
      ground (
        arith,
        count_peer-set-none p blocks block h,
        count_peer-none_left p (set blocks block none),
        weight-count_peer p (lookup piece s.in_flight),
        total-remove (count_peer p) piece s.in_flight u,
        total-insert (count_peer p) piece (set blocks block none) s.in_flight u,
      )

  take_block-Unique :
      (s : PieceScheduler P) (piece block : ℕ) (blocks : Blocks P)
      → Unique s.in_flight
      → Unique (take_block s piece block blocks).in_flight
  unfolding take_block
  take_block-Unique s piece block blocks u =
      elim (Bool-cases (any is_some (set blocks block none))) [
        | inl some_left ↦ rw some_left (insert-Unique piece (set blocks block none) s.in_flight u)
        | inr none_left ↦ rw none_left (remove-Unique piece s.in_flight u)
      ]

  in_flight_for_peer-take_block :
      (s : PieceScheduler P) (piece block : ℕ) (blocks : Blocks P) (p : P)
      → in_flight_for_peer (take_block s piece block blocks) p ≡ in_flight_for_peer s p
  unfolding take_block in_flight_for_peer
  in_flight_for_peer-take_block s piece block blocks p = refl

  in_flight-decrement :
      (s : PieceScheduler P) (q : P) → (decrement_in_flight s q).in_flight ≡ s.in_flight
  unfolding decrement_in_flight
  in_flight-decrement s q = refl

  -- A block that leaves takes one from the count of its peer.
  settle :
      (s : PieceScheduler P) (piece block : ℕ) {r : InFlightBlock P}
      → IsCounted s
      → block_at (blocks_or_empty (lookup piece s.in_flight)) block ≡ some r
      → IsCounted (
          decrement_in_flight
            (take_block s piece block (blocks_or_empty (lookup piece s.in_flight)))
            r.peer_id)
  settle s piece block {r} c h =
      let t = take_block s piece block (blocks_or_empty (lookup piece s.in_flight)) in
      record {
        unique = rw (in_flight-decrement t r.peer_id) (take_block-Unique s piece block _ c.unique);
        counts = λ p.
            decrement_in_flight_lem t r.peer_id p
            ∙ omega (
              arith,
              take_block-total s piece block p c.unique h,
              c.counts p,
              in_flight_for_peer-take_block s piece block _ p,
            )
            ∙ ap (total (count_peer p)) (sym (in_flight-decrement t r.peer_id));
      }

  abbrev take_if : PieceScheduler P → ℕ → ℕ → Option (InFlightBlock P) → PieceScheduler P
  take_if s piece block request =
      if is_some request
      then take_block s piece block (blocks_or_empty (lookup piece s.in_flight))
      else s

  released-IsCounted :
      (s : PieceScheduler P) (piece block : ℕ) (request : Option (InFlightBlock P))
      → IsCounted s
      → block_at (blocks_or_empty (lookup piece s.in_flight)) block ≡ request
      → IsCounted (released (request, take_if s piece block request)).1
  unfolding released
  released-IsCounted s piece block none c h = c
  released-IsCounted s piece block (some r) c h = settle s piece block c h

  remove_in_flight-released :
      (s : PieceScheduler P) (piece block : ℕ)
      → IsCounted s
      → IsCounted (released (remove_in_flight s piece block)).1
  unfolding remove_in_flight
  remove_in_flight-released s piece block c = released-IsCounted s piece block _ c refl

  -- An operation that leaves the requests alone keeps the counts.
  pub IsCounted-same :
      (s t : PieceScheduler P)
      → t.in_flight ≡ s.in_flight
      → t.in_flight_per_peer ≡ s.in_flight_per_peer
      → IsCounted s
      → IsCounted t
  unfolding in_flight_for_peer
  IsCounted-same s t same same_counts c = record {
    unique = rw same c.unique;
    counts = λ p. cc (same, same_counts, c.counts p);
  }

  -- If each peer's counter is its number of blocks in flight, it is so after a block has arrived.
  pub mark_block_complete-IsCounted :
      (s : PieceScheduler P) (piece block total_blocks : ℕ)
      → IsCounted s
      → IsCounted (mark_block_complete s piece block total_blocks).1
  unfolding mark_block_complete
  mark_block_complete-IsCounted s piece block total_blocks c =
      remove_in_flight-released _ piece block (IsCounted-same s _ refl refl c)

  release_held :
      (s : PieceScheduler P) (p : P) (piece block : ℕ) (request : Option (InFlightBlock P))
      → block_at (blocks_or_empty (lookup piece s.in_flight)) block ≡ request
      → IsCounted s
      → IsCounted
          (if held_by p request then decrement_in_flight (take_if s piece block request) p else s)
  release_held s p piece block none h c = c
  release_held s p piece block (some r) h c = elim (Bool-cases (r.peer_id == p)) [
    | inl same ↦ rw same (rw (← (e.is_same_iff r.peer_id p).0 same) (settle s piece block c h))
    | inr other ↦ rw other c
  ]

  -- If each peer's counter is its number of blocks in flight, it is so after a rejected request.
  pub release_peer_request-IsCounted :
      (s : PieceScheduler P) (p : P) (piece off : ℕ)
      → IsCounted s
      → IsCounted (release_peer_request s p piece off)
  unfolding release_peer_request remove_in_flight
  release_peer_request-IsCounted s p piece off c =
      release_held s p piece (off / block_size) _ refl c
