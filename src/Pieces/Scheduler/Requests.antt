-- ===== src/Pieces/Scheduler/Requests.antt =====
-- pieces/piece_scheduler.rs: `requests_for_peer`. `none` is a panic: an index out of range, a
-- `clamp` between crossed bounds.
use tortillas.Prelude.{
  ℕ, ◌+◌, ◌-◌, ◌/◌, ◌%◌, min, max, Bool, not, ◌||◌, Option, none, some, List, [], ◌∷◌, ◌++◌, length,
  get_elem?, set, replicate, ltb, leb, eqb, if◌then◌else◌, PartialEq, nat_eq,
}
use tortillas.Prelude.Map.{lookup, insert}
use tortillas.Pieces.Scheduler.{
  PieceScheduler, BlockRequest, block_size, saturating_mul, saturating_add, div_ceil, unwrap_or,
  blocks_or_empty, bit_or_false, range, is_in_flight, is_duplicate_block, in_flight_for_peer,
  block_request,
}

-- What stays fixed during one call.
pub record Plan (P : Type 0) : Type 0 where
  pub peer_id : P
  pub available : List Bool
  pub now : ℕ
  pub limit : ℕ
  pub piece_length : ℕ
  pub blocks_per_piece : ℕ
  pub last_piece_index : ℕ
  pub last_piece_len : ℕ
  pub first_slot : ℕ
  pub total_slots : ℕ

-- `resize_with(i + 1, || None)` where the vector is too short.
unfoldable pub resize_to : {A : Type 0} → List (Option A) → ℕ → List (Option A)
resize_to blocks n = blocks ++ replicate (n - length blocks) none

module _ {P : Type 0} where
  unfoldable pub piece_len : Plan P → ℕ → ℕ
  piece_len plan piece_index =
      if eqb piece_index plan.last_piece_index then plan.last_piece_len else plan.piece_length

  -- The tests of the loop that end in `continue`; `none` is an index out of range.
  unfoldable pub skips : Plan P → PieceScheduler P → ℕ → Option Bool
  skips plan s slot =
      let piece_index = slot / plan.blocks_per_piece in
      let block_index = slot % plan.blocks_per_piece in
      elim (get_elem? s.completed_pieces piece_index) [
        | none ↦ none
        | some completed ↦ some (
            completed
            || not (bit_or_false (some plan.available) piece_index)
            || leb (div_ceil (piece_len plan piece_index) block_size) block_index
            || is_in_flight s piece_index block_index
            || is_duplicate_block s piece_index block_index)
      ]

  abbrev pub request_at : Plan P → ℕ → BlockRequest
  request_at plan slot =
      let piece_index = slot / plan.blocks_per_piece in
      block_request piece_index (slot % plan.blocks_per_piece) (piece_len plan piece_index)

module _ {P : Type 0} ⦃e : PartialEq P⦄ where
  -- The block is put in flight for the peer, and its cursor moves past the slot.
  unfoldable pub claim : Plan P → PieceScheduler P → ℕ → PieceScheduler P
  claim plan s slot =
      let piece_index = slot / plan.blocks_per_piece in
      let block_index = slot % plan.blocks_per_piece in
      let blocks = resize_to (blocks_or_empty (lookup piece_index s.in_flight)) (block_index + 1) in
      let next_cursor = saturating_add slot 1 in
      record s {
        in_flight =
            insert piece_index
              (set blocks block_index
                (some (record { peer_id = plan.peer_id; requested_at = plan.now })))
              s.in_flight;
        in_flight_per_peer =
            insert plan.peer_id (in_flight_for_peer s plan.peer_id + 1) s.in_flight_per_peer;
        request_cursors =
            insert plan.peer_id
              (if ltb next_cursor plan.total_slots then next_cursor else plan.first_slot)
              s.request_cursors;
      }

  -- The loop over the slots, with the requests made so far.
  unfoldable pub request_loop :
      Plan P
      → List ℕ
      → PieceScheduler P
      → List BlockRequest
      → Option (List BlockRequest × PieceScheduler P)
  request_loop plan [] s requests = some (requests, s)
  request_loop plan (slot ∷ slots) s requests =
      let requests' = requests ++ request_at plan slot ∷ [] in
      let s' = claim plan s slot in
      let skipped = request_loop plan slots s requests in
      let more = request_loop plan slots s' requests' in
      elim (skips plan s slot) [
        | none ↦ none
        | some skip ↦
            if skip
            then skipped
            else if leb plan.limit (length requests')
            then some (requests', s')
            else more
      ]

  -- The quantities that the function computes before the loop.
  unfoldable pub plan_for : PieceScheduler P → P → List Bool → ℕ → ℕ → ℕ → ℕ → Plan P
  plan_for s p available now limit piece_length total_length =
      let bpp = div_ceil piece_length block_size in
      let last = length s.completed_pieces - 1 in
      let last_len =
        if eqb (total_length % piece_length) 0 then piece_length else total_length % piece_length in
      record {
        peer_id = p;
        available = available;
        now = now;
        limit = limit;
        piece_length = piece_length;
        blocks_per_piece = bpp;
        last_piece_index = last;
        last_piece_len = last_len;
        first_slot = saturating_mul s.next_piece bpp;
        total_slots = saturating_add (saturating_mul last bpp) (div_ceil last_len block_size);
      }

  -- `clamp` panics where its lower bound is above its upper one.
  unfoldable pub cursor_for : PieceScheduler P → Plan P → Option ℕ
  cursor_for s plan =
      if eqb s.next_piece (length s.completed_pieces)
      then some plan.total_slots
      else if ltb plan.total_slots plan.first_slot
      then none
      else some (
          max plan.first_slot (
            min plan.total_slots
              (unwrap_or (lookup plan.peer_id s.request_cursors) plan.first_slot)))

  unfoldable pub run_plan :
      PieceScheduler P → Plan P → Option ℕ → Option (List BlockRequest × PieceScheduler P)
  run_plan s plan none = none
  run_plan s plan (some cursor) =
      request_loop plan (range cursor plan.total_slots ++ range plan.first_slot cursor) s []

  unfoldable pub with_available :
      PieceScheduler P
      → P
      → ℕ
      → ℕ
      → ℕ
      → ℕ
      → Option (List Bool)
      → Option (List BlockRequest × PieceScheduler P)
  with_available s p now limit piece_length total_length none = some ([], s)
  with_available s p now limit piece_length total_length (some available) =
      let plan = plan_for s p available now limit piece_length total_length in
      if eqb (div_ceil piece_length block_size) 0
      then some ([], s)
      else run_plan s plan (cursor_for s plan)

  unfoldable pub requests_for_peer :
      PieceScheduler P → P → ℕ → ℕ → ℕ → ℕ → Option (List BlockRequest × PieceScheduler P)
  requests_for_peer s p now limit piece_length total_length =
      if eqb limit 0
      then some ([], s)
      else if eqb (length s.completed_pieces) 0
      then some ([], s)
      else with_available s p now limit piece_length total_length (lookup p s.peer_availability)
