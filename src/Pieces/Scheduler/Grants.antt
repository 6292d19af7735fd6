-- ===== src/Pieces/Scheduler/Grants.antt =====
-- What the loop of `requests_for_peer` hands out, by its invariant.
use tortillas.Prelude.{
  ℕ, ◌-◌, ◌/◌, ◌%◌, ◌<◌, ◌≡◌, refl, ◌∙◌, arith, true, false, ◌&&◌, none, some, List, [], ◌∷◌, ◌++◌,
  get_elem?, min, eqb, PartialEq, nat_eq, Bool-cases, Option-cases, inl, inr, All, All-append,
  All-map,
}
use tortillas.Pieces.Scheduler.{
  PieceScheduler, BlockRequest, InFlightBlock, block_size, offset, is_in_flight, is_duplicate_block,
  bit_or_false, block_request,
}
use tortillas.Pieces.Scheduler.Requests.{Plan, piece_len, skips, claim, request_at}
use tortillas.Pieces.Scheduler.Holders.{holder, mine, holder-claim}

-- No two requests are for one block.
abbrev pub DiffersFrom : BlockRequest → BlockRequest → Type 0
DiffersFrom r q = (r.piece_index ≡ q.piece_index) × (r.block_index ≡ q.block_index) → ⊥

abbrev pub Distinct : List BlockRequest → Type 0
Distinct [] = Unit
Distinct (r ∷ requests) = All (DiffersFrom r) requests × Distinct requests

Distinct-append :
    (requests : List BlockRequest) (r : BlockRequest)
    → Distinct requests
    → All (λ q. DiffersFrom q r) requests
    → Distinct (requests ++ r ∷ [])
Distinct-append [] r d f = (tt, tt)
Distinct-append (q ∷ requests) r d f =
    (All-append (DiffersFrom q) requests (r ∷ []) d.0 (f.0, tt), Distinct-append requests r d.1 f.1)

module _ {P : Type 0} where
  -- A request that the peer can serve and that is still worth making in the state `s`.
  pub record IsGranted (plan : Plan P) (s : PieceScheduler P) (r : BlockRequest) : Type 0 where
    pub incomplete : get_elem? s.completed_pieces r.piece_index ≡ some false
    pub offered : bit_or_false (some plan.available) r.piece_index ≡ true
    pub idle : holder s r.piece_index r.block_index ≡ none
    pub missing : is_duplicate_block s r.piece_index r.block_index ≡ false
    pub starts : offset r < piece_len plan r.piece_index
    pub sized : r.length ≡ min block_size (piece_len plan r.piece_index - offset r)

  -- `r` is in flight in `s`, asked of the plan's peer at the plan's time.
  abbrev pub IsHeld : Plan P → PieceScheduler P → BlockRequest → Type 0
  IsHeld plan s r = holder s r.piece_index r.block_index ≡ some (mine plan)

  pub record Loop (plan : Plan P) (s0 s : PieceScheduler P) (requests : List BlockRequest)
      : Type 0 where
    pub same_pieces : s.completed_pieces ≡ s0.completed_pieces
    pub same_blocks : s.completed_blocks ≡ s0.completed_blocks
    pub same_next : s.next_piece ≡ s0.next_piece
    pub kept :
        (piece block : ℕ) (r : InFlightBlock P)
        → holder s0 piece block ≡ some r
        → holder s piece block ≡ some r
    pub granted : All (IsGranted plan s0) requests
    pub held : All (IsHeld plan s) requests
    pub distinct : Distinct requests

  pub Loop-start : (plan : Plan P) (s : PieceScheduler P) → Loop plan s s []
  Loop-start plan s = record {
    same_pieces = refl;
    same_blocks = refl;
    same_next = refl;
    kept = λ piece block r h. h;
    granted = tt;
    held = tt;
    distinct = tt;
  }

  -- What the tests of the loop found where they let a slot through.
  pub skips-IsGranted :
      (plan : Plan P) (s : PieceScheduler P) (slot : ℕ)
      → skips plan s slot ≡ some false
      → IsGranted plan s (request_at plan slot)
  unfolding skips block_request is_in_flight
  skips-IsGranted plan s slot h = record {
    incomplete = ground (arith, h);
    offered = ground (arith, h);
    idle = ground (arith, h);
    missing = ground (arith, h);
    starts = unfold offset in ground (arith, h);
    sized = unfold offset in ground (arith, h);
  }

  pub skips-idle :
      (plan : Plan P) (s : PieceScheduler P) (slot : ℕ)
      → skips plan s slot ≡ some false
      → holder s (slot / plan.blocks_per_piece) (slot % plan.blocks_per_piece) ≡ none
  unfolding block_request
  skips-idle plan s slot h = (skips-IsGranted plan s slot h).idle

module _ {P : Type 0} ⦃e : PartialEq P⦄ (plan : Plan P) (s0 s : PieceScheduler P) where
  -- A grant in a later state is one in the first.
  IsGranted-Loop :
      (requests : List BlockRequest) (r : BlockRequest)
      → Loop plan s0 s requests
      → IsGranted plan s r
      → IsGranted plan s0 r
  unfolding is_duplicate_block
  IsGranted-Loop requests r l g = record {
    incomplete = rw (← l.same_pieces) g.incomplete;
    offered = g.offered;
    idle = elim (Option-cases (holder s0 r.piece_index r.block_index)) [
      | inl free ↦ free
      | inr (b, taken) ↦ absurd (ground (arith, g.idle, l.kept r.piece_index r.block_index b taken))
    ];
    missing = rw (← l.same_blocks) g.missing;
    starts = g.starts;
    sized = g.sized;
  }

  IsHeld-claim : (slot : ℕ) (r : BlockRequest) → IsHeld plan s r → IsHeld plan (claim plan s slot) r
  IsHeld-claim slot r h = ground (arith, h, holder-claim plan s slot r.piece_index r.block_index)

  kept-claim :
      (slot piece block : ℕ) (r : InFlightBlock P)
      → holder s (slot / plan.blocks_per_piece) (slot % plan.blocks_per_piece) ≡ none
      → holder s piece block ≡ some r
      → holder (claim plan s slot) piece block ≡ some r
  kept-claim slot piece block r idle h =
      elim (Bool-cases
        (eqb (slot / plan.blocks_per_piece) piece && eqb (slot % plan.blocks_per_piece) block)) [
          | inl same ↦ absurd (differ same)
          | inr other ↦ holder-claim plan s slot piece block ∙ rw other h
        ]
    where
      differ :
          (eqb (slot / plan.blocks_per_piece) piece && eqb (slot % plan.blocks_per_piece) block)
            ≡ true
          → ⊥
      differ same =
          let p : slot / plan.blocks_per_piece ≡ piece = ground (arith, same) in
          let q : slot % plan.blocks_per_piece ≡ block = ground (arith, same) in cc (idle, h, p, q)

  DiffersFrom-held :
      (slot : ℕ) (q : BlockRequest)
      → holder s (slot / plan.blocks_per_piece) (slot % plan.blocks_per_piece) ≡ none
      → IsHeld plan s q
      → DiffersFrom q (request_at plan slot)
  unfolding block_request
  DiffersFrom-held slot q idle h same = cc (idle, h, same.0, same.1)

  completed-claim : (slot : ℕ) → (claim plan s slot).completed_pieces ≡ s.completed_pieces
  unfolding claim
  completed-claim slot = refl

  blocks-claim : (slot : ℕ) → (claim plan s slot).completed_blocks ≡ s.completed_blocks
  unfolding claim
  blocks-claim slot = refl

  next-claim : (slot : ℕ) → (claim plan s slot).next_piece ≡ s.next_piece
  unfolding claim
  next-claim slot = refl

  pub Loop-claim :
      (slot : ℕ) (requests : List BlockRequest)
      → Loop plan s0 s requests
      → skips plan s slot ≡ some false
      → Loop plan s0 (claim plan s slot) (requests ++ request_at plan slot ∷ [])
  unfolding block_request
  Loop-claim slot requests l h =
      let r = request_at plan slot in
      let g = skips-IsGranted plan s slot h in
      let idle : holder s (slot / plan.blocks_per_piece) (slot % plan.blocks_per_piece) ≡ none =
        g.idle in
      record {
        same_pieces = completed-claim slot ∙ l.same_pieces;
        same_blocks = blocks-claim slot ∙ l.same_blocks;
        same_next = next-claim slot ∙ l.same_next;
        kept = λ piece block b t. kept-claim slot piece block b idle (l.kept piece block b t);
        granted =
            All-append (IsGranted plan s0) requests (r ∷ []) l.granted
              (IsGranted-Loop requests r l g, tt);
        held =
            All-append (IsHeld plan (claim plan s slot)) requests (r ∷ [])
              (All-map (IsHeld plan s) (IsHeld plan (claim plan s slot)) requests
                (IsHeld-claim slot) l.held)
              (ground (arith, holder-claim plan s slot r.piece_index r.block_index), tt);
        distinct = Distinct-append requests r l.distinct (
            All-map (IsHeld plan s) (λ q. DiffersFrom q r) requests
              (λ q. DiffersFrom-held slot q idle) l.held);
      }
