-- ===== src/Pieces/Scheduler.antt =====
-- pieces/piece_scheduler.rs: which peer is asked for which block. A peer id is any type with
-- equality; an `Instant` and a `Duration` are numbers of one unit; a `BitVec` is a list of Booleans.
-- Counts of requests stay far below 2 ^ 64, and are left unbounded.
pub mod Requests
pub mod Release
pub mod Blocks
pub mod Counts
pub mod Holders
pub mod Grants
pub mod Serve
pub mod Call
pub mod Leavers
pub mod Stale
pub mod Progress
pub mod Completion
pub mod Steady
use tortillas.Prelude.{
  ℕ, zero, suc, ◌+◌, ◌-◌, ◌*◌, ◌/◌, ◌%◌, ◌^◌, min, max, Bool, true, false, not, ◌&&◌, ◌||◌, Option,
  none, some, List, [], ◌∷◌, ◌++◌, length, get_elem?, set, replicate, any, all, ltb, leb, eqb,
  if◌then◌else◌, PartialEq, ◌==◌, nat_eq,
}
use tortillas.Prelude.Map.{Map, lookup, insert, remove}

-- torrent/block.rs.
abbrev pub block_size : ℕ
block_size = 16 * 1024

abbrev pub usize_max : ℕ
usize_max = 2 ^ 64 - 1

abbrev pub saturating_mul : ℕ → ℕ → ℕ
saturating_mul a b = min (a * b) usize_max

abbrev pub saturating_add : ℕ → ℕ → ℕ
saturating_add a b = min (a + b) usize_max

abbrev pub div_ceil : ℕ → ℕ → ℕ
div_ceil a b = (a + (b - 1)) / b

pub record BlockRequest : Type 0 where
  pub piece_index : ℕ
  pub block_index : ℕ
  pub length : ℕ

unfoldable pub offset : BlockRequest → ℕ
offset r = r.block_index * block_size

pub record InFlightBlock (P : Type 0) : Type 0 where
  pub peer_id : P
  pub requested_at : ℕ

abbrev pub Blocks : Type 0 → Type 0
Blocks P = List (Option (InFlightBlock P))

pub record PieceScheduler (P : Type 0) : Type 0 where
  pub completed_pieces : List Bool
  pub completed_blocks : Map ℕ (List Bool)
  pub in_flight : Map ℕ (Blocks P)
  pub in_flight_per_peer : Map P ℕ
  pub peer_availability : Map P (List Bool)
  pub request_cursors : Map P ℕ
  pub next_piece : ℕ

abbrev pub is_some : {A : Type 0} → Option A → Bool
is_some none = false
is_some (some a) = true

abbrev pub unwrap_or {ℓ} : {A : Type ℓ} → Option A → A → A
unwrap_or none d = d
unwrap_or (some a) d = a

-- `blocks.get(i)` and then `Option::as_ref`.
abbrev pub flatten {ℓ} : {A : Type ℓ} → Option (Option A) → Option A
flatten none = none
flatten (some o) = o

abbrev pub block_at : {P : Type 0} → Blocks P → ℕ → Option (InFlightBlock P)
block_at blocks i = flatten (get_elem? blocks i)

abbrev pub blocks_or_empty {ℓ} : {A : Type ℓ} → Option (List A) → List A
blocks_or_empty o = unwrap_or o []

-- `blocks.get(i).unwrap_or(false)` on an optional bit vector.
abbrev pub bit_or_false : Option (List Bool) → ℕ → Bool
bit_or_false none i = false
bit_or_false (some bits) i = unwrap_or (get_elem? bits i) false

-- The `while` loop of `mark_piece_complete`, with fuel for every piece.
unfoldable pub advance : ℕ → List Bool → ℕ → ℕ
advance zero completed n = n
advance (suc fuel) completed n =
    let rest = advance fuel completed (n + 1) in
    if ltb n (length completed) && unwrap_or (get_elem? completed n) false then rest else n

-- `a..b`.
unfoldable pub range_from : ℕ → ℕ → List ℕ
range_from zero a = []
range_from (suc n) a = a ∷ range_from n (a + 1)

abbrev pub range : ℕ → ℕ → List ℕ
range a b = range_from (b - a) a

abbrev all_set : Option (List Bool) → Bool
all_set none = false
all_set (some bits) = all (λ b. b) bits

unfoldable pub block_request : ℕ → ℕ → ℕ → BlockRequest
block_request piece_index block_index piece_length =
    let off = block_index * block_size in
    record {
      piece_index = piece_index;
      block_index = block_index;
      length = if ltb piece_length (off + block_size) then piece_length - off else block_size;
    }

module _ {P : Type 0} where
  unfoldable pub new : ℕ → PieceScheduler P
  new piece_count = record {
    completed_pieces = replicate piece_count false;
    completed_blocks = [];
    in_flight = [];
    in_flight_per_peer = [];
    peer_availability = [];
    request_cursors = [];
    next_piece = 0;
  }

  unfoldable pub mark_piece_complete : PieceScheduler P → ℕ → PieceScheduler P
  mark_piece_complete s index =
      let completed = set s.completed_pieces index true in
      record s {
        completed_blocks = remove index s.completed_blocks;
        completed_pieces = completed;
        next_piece = advance (length completed) completed s.next_piece;
      }

  unfoldable pub restore_piece_blocks : PieceScheduler P → ℕ → List Bool → PieceScheduler P
  restore_piece_blocks s index blocks = record s {
    completed_blocks = insert index blocks s.completed_blocks;
  }

  unfoldable pub remove_piece_blocks : PieceScheduler P → ℕ → Option (List Bool) × PieceScheduler P
  remove_piece_blocks s index = (
    lookup index s.completed_blocks,
    record s { completed_blocks = remove index s.completed_blocks },
  )

  unfoldable pub is_duplicate_block : PieceScheduler P → ℕ → ℕ → Bool
  is_duplicate_block s piece_index block_index =
      bit_or_false (lookup piece_index s.completed_blocks) block_index

  unfoldable pub is_piece_complete : PieceScheduler P → ℕ → Bool
  is_piece_complete s piece_index = all_set (lookup piece_index s.completed_blocks)

  unfoldable pub is_in_flight : PieceScheduler P → ℕ → ℕ → Bool
  is_in_flight s piece_index block_index =
      is_some (block_at (blocks_or_empty (lookup piece_index s.in_flight)) block_index)

  -- The last step of `remove_in_flight`: take the block out, and drop a piece with none left.
  take_block : PieceScheduler P → ℕ → ℕ → Blocks P → PieceScheduler P
  take_block s piece_index block_index blocks =
      let blocks' = set blocks block_index none in
      record s {
        in_flight =
            if any is_some blocks'
            then insert piece_index blocks' s.in_flight
            else remove piece_index s.in_flight;
      }

  pub remove_in_flight : PieceScheduler P → ℕ → ℕ → Option (InFlightBlock P) × PieceScheduler P
  remove_in_flight s piece_index block_index =
      let blocks = blocks_or_empty (lookup piece_index s.in_flight) in
      let request = block_at blocks block_index in
      (request, if is_some request then take_block s piece_index block_index blocks else s)

module _ {P : Type 0} ⦃e : PartialEq P⦄ where
  unfoldable pub in_flight_for_peer : PieceScheduler P → P → ℕ
  in_flight_for_peer s p = unwrap_or (lookup p s.in_flight_per_peer) 0

  unfoldable pub update_peer_availability : PieceScheduler P → P → List Bool → PieceScheduler P
  update_peer_availability s p available = record s {
    peer_availability = insert p available s.peer_availability;
  }

  decrement_map : Map P ℕ → P → Option ℕ → Map P ℕ
  decrement_map m p none = m
  decrement_map m p (some count) = if eqb (count - 1) 0 then remove p m else insert p (count - 1) m

  pub decrement_in_flight : PieceScheduler P → P → PieceScheduler P
  decrement_in_flight s p = record s {
    in_flight_per_peer = decrement_map s.in_flight_per_peer p (lookup p s.in_flight_per_peer);
  }

  pub released : Option (InFlightBlock P) × PieceScheduler P → Option P × PieceScheduler P
  released (none, s) = (none, s)
  released (some request, s) = (some request.peer_id, decrement_in_flight s request.peer_id)

  -- `entry(..).or_insert_with(..)`, then the bit, then the request's release.
  pub mark_block_complete : PieceScheduler P → ℕ → ℕ → ℕ → Option P × PieceScheduler P
  mark_block_complete s piece_index block_index total_blocks =
      let blocks =
        unwrap_or (lookup piece_index s.completed_blocks) (replicate total_blocks false) in
      let s' = record s {
        completed_blocks = insert piece_index (set blocks block_index true) s.completed_blocks;
      } in
      released (remove_in_flight s' piece_index block_index)

  abbrev pub held_by : P → Option (InFlightBlock P) → Bool
  held_by p none = false
  held_by p (some request) = request.peer_id == p

  pub release_peer_request : PieceScheduler P → P → ℕ → ℕ → PieceScheduler P
  release_peer_request s p piece_index off =
      if held_by p (block_at (blocks_or_empty (lookup piece_index s.in_flight)) (off / block_size))
      then decrement_in_flight (remove_in_flight s piece_index (off / block_size)).1 p
      else s
