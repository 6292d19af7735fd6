-- ===== src/Pieces/Scheduler/Release.antt =====
-- pieces/piece_scheduler.rs: `peer_disconnected` and `release_stale_requests`, which walk over every
-- block in flight.
use tortillas.Prelude.{
  ℕ, ◌+◌, ◌-◌, Bool, none, some, [], ◌∷◌, any, leb, if◌then◌else◌, PartialEq, nat_eq,
}
use tortillas.Prelude.Map.{Map, lookup, insert, remove}
use tortillas.Pieces.Scheduler.{PieceScheduler, InFlightBlock, Blocks, is_some, unwrap_or, held_by}

-- `retain`, with a closure that rewrites the blocks and keeps a piece that still has one.
unfoldable pub retain : {P : Type 0} → (Blocks P → Blocks P) → Map ℕ (Blocks P) → Map ℕ (Blocks P)
retain f [] = []
retain f ((k, blocks) ∷ m) =
    let rest = retain f m in
    let kept = f blocks in if any is_some kept then (k, kept) ∷ rest else rest

-- `saturating_duration_since` stops at zero, as `-` does.
abbrev pub is_stale : {P : Type 0} → ℕ → ℕ → InFlightBlock P → Bool
is_stale now timeout request = leb timeout (now - request.requested_at)

module _ {P : Type 0} ⦃e : PartialEq P⦄ where
  unfoldable pub clear_peer : P → Blocks P → Blocks P
  clear_peer p [] = []
  clear_peer p (block ∷ blocks) = (if held_by p block then none else block) ∷ clear_peer p blocks

  unfoldable pub peer_disconnected : PieceScheduler P → P → PieceScheduler P
  peer_disconnected s p = record s {
    in_flight = retain (clear_peer p) s.in_flight;
    in_flight_per_peer = remove p s.in_flight_per_peer;
    peer_availability = remove p s.peer_availability;
    request_cursors = remove p s.request_cursors;
  }

  -- `*entry(peer).or_default() += 1`.
  unfoldable pub bump : P → Map P ℕ → Map P ℕ
  bump p m = insert p (unwrap_or (lookup p m) 0 + 1) m

  -- The closure on one piece, with the two counters that it captures.
  unfoldable pub release_blocks : ℕ → ℕ → Blocks P → ℕ → Map P ℕ → Blocks P × ℕ × Map P ℕ
  release_blocks now timeout [] count per_peer = ([], count, per_peer)
  release_blocks now timeout (none ∷ blocks) count per_peer =
      let (kept, count', per_peer') = release_blocks now timeout blocks count per_peer in
      (none ∷ kept, count', per_peer')
  release_blocks now timeout (some request ∷ blocks) count per_peer =
      let stale = is_stale now timeout request in
      let (kept, count', per_peer') =
        release_blocks now timeout blocks (if stale then count + 1 else count)
          (if stale then per_peer else bump request.peer_id per_peer) in
      ((if stale then none else some request) ∷ kept, count', per_peer')

  unfoldable pub release_pieces :
      ℕ → ℕ → Map ℕ (Blocks P) → ℕ → Map P ℕ → Map ℕ (Blocks P) × ℕ × Map P ℕ
  release_pieces now timeout [] count per_peer = ([], count, per_peer)
  release_pieces now timeout ((k, blocks) ∷ m) count per_peer =
      let (kept, count', per_peer') = release_blocks now timeout blocks count per_peer in
      let (rest, count'', per_peer'') = release_pieces now timeout m count' per_peer' in
      (if any is_some kept then (k, kept) ∷ rest else rest, count'', per_peer'')

  unfoldable pub release_stale_requests : PieceScheduler P → ℕ → ℕ → ℕ × PieceScheduler P
  release_stale_requests s now timeout =
      let (kept, count, per_peer) = release_pieces now timeout s.in_flight 0 [] in
      (count, record s { in_flight = kept; in_flight_per_peer = per_peer })
