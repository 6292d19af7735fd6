-- ===== src/Tests/Scheduler.antt =====
-- pieces/piece_scheduler.rs at concrete inputs.
use tortillas.Prelude.{
  ℕ, ◌+◌, ◌-◌, ◌⊎◌, ◌/◌, ◌<◌, ◌≡◌, refl, arith, true, false, some, none, ◌&&◌, [], ◌∷◌, get_elem?,
  eqb, nat_eq, if◌then◌else◌, ◌==◌, inr,
}
use tortillas.Prelude.Map.{lookup, total}
use tortillas.Pieces.Scheduler.{
  PieceScheduler, block_size, unwrap_or, mark_piece_complete, mark_block_complete,
  release_peer_request, is_duplicate_block, in_flight_for_peer, held_by,
}
use tortillas.Pieces.Scheduler.Requests.{plan_for, requests_for_peer}
use tortillas.Pieces.Scheduler.Release.{peer_disconnected, release_stale_requests}
use tortillas.Pieces.Scheduler.Blocks.{count_peer}
use tortillas.Pieces.Scheduler.Counts.{IsCounted, in_flight_count}
use tortillas.Pieces.Scheduler.Holders.{holder}
use tortillas.Pieces.Scheduler.Serve.{Serves}
use tortillas.Pieces.Scheduler.Call.{requests_for_peer-Serves}
use tortillas.Pieces.Scheduler.Leavers.{busy, peer_disconnected_counts}
use tortillas.Pieces.Scheduler.Stale.{fresh, release_stale_requests_exact}
use tortillas.Pieces.Scheduler.Progress.{IsFront, mark_piece_complete-IsFront}
use tortillas.Pieces.Scheduler.Completion.{
  owner, mark_block_complete_lem, release_peer_request_exact,
}

-- Two pieces of two blocks; the first block of the first piece is asked of peer 7, at time 10.
abbrev busy_scheduler : PieceScheduler ℕ
busy_scheduler = record {
  completed_pieces = false ∷ false ∷ [];
  completed_blocks = [];
  in_flight = (0, some (record { peer_id = 7; requested_at = 10 }) ∷ none ∷ []) ∷ [];
  in_flight_per_peer = (7, 1) ∷ [];
  peer_availability = (7, true ∷ true ∷ []) ∷ [];
  request_cursors = [];
  next_piece = 0;
}

busy_scheduler-IsCounted : IsCounted busy_scheduler
unfolding in_flight_for_peer lookup total count_peer
busy_scheduler-IsCounted = record { unique = (refl, tt); counts = λ p. ground arith }

requests_for_peer-Serves_example :
    Serves
      (plan_for busy_scheduler 7
        (unwrap_or (lookup 7 busy_scheduler.peer_availability) [])
        20
        2
        32768
        65536)
      busy_scheduler
      (requests_for_peer busy_scheduler 7 20 2 32768 65536)
requests_for_peer-Serves_example =
    requests_for_peer-Serves busy_scheduler 7 20 2 32768 65536 busy_scheduler-IsCounted
      (omega arith)

peer_disconnected_counts_example :
    IsCounted (peer_disconnected busy_scheduler 7)
    × ((q : ℕ)
        → in_flight_count (peer_disconnected busy_scheduler 7) q
          ≡ (if 7 == q then 0 else in_flight_count busy_scheduler q))
peer_disconnected_counts_example =
    peer_disconnected_counts busy_scheduler 7 busy_scheduler-IsCounted

release_stale_requests_exact_example :
    IsCounted (release_stale_requests busy_scheduler 100 30).1
    × ((piece block : ℕ)
        → holder (release_stale_requests busy_scheduler 100 30).1 piece block
          ≡ fresh 100 30 (holder busy_scheduler piece block))
    × ((release_stale_requests busy_scheduler 100 30).0
          + total busy (release_stale_requests busy_scheduler 100 30).1.in_flight
        ≡ total busy busy_scheduler.in_flight)
release_stale_requests_exact_example =
    release_stale_requests_exact 100 30 busy_scheduler busy_scheduler-IsCounted.unique

mark_block_complete_lem_example :
    ((mark_block_complete busy_scheduler 0 0 2).0 ≡ owner (holder busy_scheduler 0 0))
    × (is_duplicate_block (mark_block_complete busy_scheduler 0 0 2).1 0 0 ≡ true)
    × ((i j : ℕ)
        → holder (mark_block_complete busy_scheduler 0 0 2).1 i j
          ≡ (if eqb 0 i && eqb 0 j then none else holder busy_scheduler i j))
unfolding lookup
mark_block_complete_lem_example = mark_block_complete_lem busy_scheduler 0 0 2 (omega arith)

release_peer_request_exact_example :
    ((i j : ℕ)
      → holder (release_peer_request busy_scheduler 7 0 0) i j ≡ (
          if held_by 7 (holder busy_scheduler 0 (0 / block_size))
            && (eqb 0 i && eqb (0 / block_size) j)
          then none
          else holder busy_scheduler i j))
    × ((q : ℕ)
        → in_flight_for_peer (release_peer_request busy_scheduler 7 0 0) q ≡ (
            if held_by 7 (holder busy_scheduler 0 (0 / block_size)) && 7 == q
            then in_flight_for_peer busy_scheduler q - 1
            else in_flight_for_peer busy_scheduler q))
    × ((release_peer_request busy_scheduler 7 0 0).completed_blocks
        ≡ busy_scheduler.completed_blocks)
    × ((held_by 7 (holder busy_scheduler 0 (0 / block_size)) ≡ true)
        ⊎ (release_peer_request busy_scheduler 7 0 0 ≡ busy_scheduler))
release_peer_request_exact_example = release_peer_request_exact busy_scheduler 7 0 0

busy_scheduler-IsFront : IsFront busy_scheduler.completed_pieces busy_scheduler.next_piece
busy_scheduler-IsFront = record {
  in_range = omega arith;
  below = λ i h. absurd (omega arith);
  stops = inr refl;
}

mark_piece_complete-IsFront_example :
    IsFront
      (mark_piece_complete busy_scheduler 0).completed_pieces
      (mark_piece_complete busy_scheduler 0).next_piece
    × ((i : ℕ)
        → i < 2
        → get_elem? (mark_piece_complete busy_scheduler 0).completed_pieces i
          ≡ (if eqb 0 i then some true else get_elem? busy_scheduler.completed_pieces i))
mark_piece_complete-IsFront_example =
    mark_piece_complete-IsFront busy_scheduler 0 busy_scheduler-IsFront
