-- ===== src/Pieces/Scheduler/Call.antt =====
-- `requests_for_peer` as a whole: its plan, its early returns and its loop.
use native.Mathlib.Nat.{div-lt_iff_lt-mul}
use tortillas.Prelude.{
  ℕ, zero, suc, ◌-◌, ◌*◌, ◌/◌, ◌%◌, ◌≤◌, ◌<◌, ◌≡◌, refl, arith, Bool, false, some, List, [], length,
  eqb, leb, ltb, if◌then◌else◌, PartialEq, nat_eq, Bool-cases, Option-cases, inl, inr, All,
  All-append, All-map,
}
use tortillas.Prelude.Map.{lookup}
use tortillas.Pieces.Scheduler.{
  PieceScheduler, block_size, div_ceil, saturating_mul, saturating_add, unwrap_or, range,
  range_from,
}
use tortillas.Pieces.Scheduler.Requests.{
  Plan, plan_for, cursor_for, run_plan, with_available, requests_for_peer,
}
use tortillas.Pieces.Scheduler.Counts.{IsCounted}
use tortillas.Pieces.Scheduler.Grants.{Loop-start}
use tortillas.Pieces.Scheduler.Serve.{Serves, Served-of_Loop, request_loop-Serves, range_from-All}

saturated-le : (n b c : ℕ) → 0 < n → c ≤ b → saturating_add (saturating_mul (n - 1) b) c ≤ n * b
saturated-le zero b c h k = elim h [ ]
saturated-le (suc n) b c h k = let e : suc n - 1 ≡ n = omega arith in rw e (grind arith)

saturated_mono : (m n b c : ℕ) → m ≤ n → saturating_mul m b ≤ saturating_add (saturating_mul n b) c
saturated_mono m n b c h = let p : m * b ≤ n * b = grind arith in omega (arith, p)

last_blocks-le :
    (piece_length total_length : ℕ)
    → 0 < div_ceil piece_length block_size
    → div_ceil
        (if eqb (total_length % piece_length) 0 then piece_length else total_length % piece_length)
        block_size
      ≤ div_ceil piece_length block_size
last_blocks-le piece_length total_length h = ground arith

module _ {P : Type 0} ⦃e : PartialEq P⦄ where
  module _ (s : PieceScheduler P) (p : P) (available : List Bool)
      (now limit piece_length total_length : ℕ) where
    abbrev the_plan : Plan P
    the_plan = plan_for s p available now limit piece_length total_length

    -- Every slot of a non-empty plan lies in a piece.
    total_slots-le :
        0 < length s.completed_pieces
        → 0 < the_plan.blocks_per_piece
        → the_plan.total_slots ≤ length s.completed_pieces * the_plan.blocks_per_piece
    unfolding plan_for
    total_slots-le n b =
        saturated-le (length s.completed_pieces) (div_ceil piece_length block_size) _ n
          (last_blocks-le piece_length total_length b)

    first_slot-le :
        0 < length s.completed_pieces
        → s.next_piece < length s.completed_pieces
        → the_plan.first_slot ≤ the_plan.total_slots
    unfolding plan_for
    first_slot-le n h =
        saturated_mono s.next_piece (length s.completed_pieces - 1)
          (div_ceil piece_length block_size) _ (omega arith)

    cursor_for-le :
        0 < length s.completed_pieces
        → s.next_piece ≤ length s.completed_pieces
        → (cursor : ℕ) × (cursor_for s the_plan ≡ some cursor) × (cursor ≤ the_plan.total_slots)
    unfolding cursor_for
    cursor_for-le n h = elim (Bool-cases (eqb s.next_piece (length s.completed_pieces))) [
      | inl all_done ↦ rw all_done (the_plan.total_slots, refl, omega arith)
      | inr some_left ↦
          let below : s.next_piece < length s.completed_pieces = ground (arith, some_left) in
          let apart : ltb the_plan.total_slots the_plan.first_slot ≡ false =
            ground (arith, first_slot-le n below) in
          rw (some_left, apart) (_, refl, omega (arith, first_slot-le n below))
    ]

    slots-All :
        (a b : ℕ)
        → 0 < length s.completed_pieces
        → 0 < the_plan.blocks_per_piece
        → b ≤ the_plan.total_slots
        → All (λ slot. slot / the_plan.blocks_per_piece < length s.completed_pieces) (range a b)
    slots-All a b n h k = elim (Bool-cases (leb a b)) [
      | inl up ↦
          All-map (λ slot. slot < b) _ (range a b)
            (λ slot lt. (div-lt_iff_lt-mul h).1 (omega (arith, total_slots-le n h)))
            (range_from-All (b - a) a b (ground (arith, up)))
      | inr down ↦ let e : b - a ≡ 0 = ground (arith, down) in rw e (unfold range_from in tt)
    ]

    run_plan-Serves :
        (cursor : ℕ)
        → cursor ≤ the_plan.total_slots
        → 0 < limit
        → 0 < length s.completed_pieces
        → 0 < the_plan.blocks_per_piece
        → IsCounted s
        → Serves the_plan s (run_plan s the_plan (some cursor))
    unfolding run_plan
    run_plan-Serves cursor k l n h c =
        request_loop-Serves the_plan s _ s []
          (All-append _ (range cursor the_plan.total_slots) (range the_plan.first_slot cursor)
            (slots-All cursor the_plan.total_slots n h (omega arith))
            (slots-All the_plan.first_slot cursor n h k))
          (Loop-start the_plan s) (unfold plan_for in l) c

    nothing-Serves : IsCounted s → Serves the_plan s (some ([], s))
    nothing-Serves c =
        ([], s, refl, Served-of_Loop the_plan s s [] (Loop-start the_plan s) (omega arith) c)

    with_available-Serves :
        0 < limit
        → 0 < length s.completed_pieces
        → s.next_piece ≤ length s.completed_pieces
        → IsCounted s
        → Serves the_plan s
            (with_available s p now limit piece_length total_length (some available))
    unfolding with_available
    with_available-Serves l n h c =
        let (cursor, found, k) = cursor_for-le n h in
        elim (Bool-cases (eqb (div_ceil piece_length block_size) 0)) [
          | inl empty ↦ rw empty (nothing-Serves c)
          | inr full ↦
              rw (full, found)
                (run_plan-Serves cursor k l n (unfold plan_for in ground (arith, full)) c)
        ]

  -- For a scheduler whose counts are right and whose next piece is in range, a call does not panic:
  -- it returns at most `limit` requests, each for a different block that is neither complete nor in
  -- flight, of a piece that the peer has, with an offset inside the piece and the length that is left
  -- of it up to a block; every requested block is then in flight for the peer, the blocks that were
  -- in flight stay with their peers, and the counts stay right.
  pub requests_for_peer-Serves :
      (s : PieceScheduler P) (p : P) (now limit piece_length total_length : ℕ)
      → IsCounted s
      → s.next_piece ≤ length s.completed_pieces
      → Serves
          (plan_for s p
            (unwrap_or (lookup p s.peer_availability) [])
            now
            limit
            piece_length
            total_length)
          s
          (requests_for_peer s p now limit piece_length total_length)
  unfolding requests_for_peer
  requests_for_peer-Serves s p now limit piece_length total_length c h =
      let nothing =
        nothing-Serves s p (unwrap_or (lookup p s.peer_availability) []) now limit piece_length
          total_length c in
      elim (Bool-cases (eqb limit 0)) [
        | inl none_wanted ↦ rw none_wanted nothing
        | inr wanted ↦ elim (Bool-cases (eqb (length s.completed_pieces) 0)) [
          | inl no_pieces ↦ rw (wanted, no_pieces) nothing
          | inr pieces ↦
              rw (wanted, pieces)
                (elim (Option-cases (lookup p s.peer_availability)) [
                  | inl unknown ↦ rw unknown (
                      unfold with_available in
                      nothing-Serves s p [] now limit piece_length total_length c)
                  | inr (available, known) ↦ rw known (
                      with_available-Serves s p available now limit piece_length total_length
                        (ground (arith, wanted)) (ground (arith, pieces)) h c)
                ])
        ]
      ]
