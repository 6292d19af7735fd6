-- ===== src/Pieces/Scheduler/Steady.antt =====
-- What the operations on blocks leave as it is: which pieces are complete, and the next piece.
use tortillas.Prelude.{
  ℕ, ◌/◌, ◌≡◌, refl, Option, none, some, inl, inr, PartialEq, nat_eq, Bool-cases,
}
use tortillas.Prelude.Map.{lookup}
use tortillas.Pieces.Scheduler.{
  PieceScheduler, InFlightBlock, is_some, block_at, blocks_or_empty, block_size, held_by,
  take_block, remove_in_flight, decrement_in_flight, released, mark_block_complete,
  mark_piece_complete, remove_piece_blocks, release_peer_request,
}
use tortillas.Pieces.Scheduler.Release.{peer_disconnected}
use tortillas.Pieces.Scheduler.Counts.{IsCounted, IsCounted-same}

module _ {P : Type 0} where
  -- The same pieces are complete.
  pub record IsSteady (s t : PieceScheduler P) : Type 0 where
    pub pieces : t.completed_pieces ≡ s.completed_pieces
    pub next : t.next_piece ≡ s.next_piece

  remove_in_flight-IsSteady :
      (s : PieceScheduler P) (piece block : ℕ) → IsSteady s (remove_in_flight s piece block).1
  unfolding remove_in_flight take_block
  remove_in_flight-IsSteady s piece block =
      elim (Bool-cases (is_some (block_at (blocks_or_empty (lookup piece s.in_flight)) block))) [
        | inl held ↦ rw held (record { pieces = refl; next = refl })
        | inr free ↦ rw free (record { pieces = refl; next = refl })
      ]

module _ {P : Type 0} ⦃e : PartialEq P⦄ where
  pub peer_disconnected-IsSteady :
      (s : PieceScheduler P) (p : P) → IsSteady s (peer_disconnected s p)
  unfolding peer_disconnected
  peer_disconnected-IsSteady s p = record { pieces = refl; next = refl }

  pub remove_piece_blocks-IsSteady :
      (s : PieceScheduler P) (piece : ℕ) → IsSteady s (remove_piece_blocks s piece).1
  unfolding remove_piece_blocks
  remove_piece_blocks-IsSteady s piece = record { pieces = refl; next = refl }

  pub remove_piece_blocks-IsCounted :
      (s : PieceScheduler P) (piece : ℕ) → IsCounted s → IsCounted (remove_piece_blocks s piece).1
  unfolding remove_piece_blocks
  remove_piece_blocks-IsCounted s piece c = IsCounted-same s _ refl refl c

  pub mark_piece_complete-IsCounted :
      (s : PieceScheduler P) (piece : ℕ) → IsCounted s → IsCounted (mark_piece_complete s piece)
  unfolding mark_piece_complete
  mark_piece_complete-IsCounted s piece c = IsCounted-same s _ refl refl c

  decrement_in_flight-IsSteady :
      (s t : PieceScheduler P) (p : P) → IsSteady s t → IsSteady s (decrement_in_flight t p)
  unfolding decrement_in_flight
  decrement_in_flight-IsSteady s t p h = record { pieces = h.pieces; next = h.next }

  released-IsSteady :
      (s : PieceScheduler P) (r : Option (InFlightBlock P) × PieceScheduler P)
      → IsSteady s r.1
      → IsSteady s (released r).1
  unfolding released
  released-IsSteady s (none, t) h = h
  released-IsSteady s (some request, t) h = decrement_in_flight-IsSteady s t request.peer_id h

  pub mark_block_complete-IsSteady :
      (s : PieceScheduler P) (piece block total_blocks : ℕ)
      → IsSteady s (mark_block_complete s piece block total_blocks).1
  unfolding mark_block_complete
  mark_block_complete-IsSteady s piece block total_blocks =
      let steady = remove_in_flight-IsSteady _ piece block in
      released-IsSteady s _ (record { pieces = steady.pieces; next = steady.next })

  pub release_peer_request-IsSteady :
      (s : PieceScheduler P) (p : P) (piece off : ℕ)
      → IsSteady s (release_peer_request s p piece off)
  unfolding release_peer_request
  release_peer_request-IsSteady s p piece off =
      elim (Bool-cases
        (held_by p (block_at (blocks_or_empty (lookup piece s.in_flight)) (off / block_size)))) [
          | inl held ↦ rw held (
              decrement_in_flight-IsSteady s _ p
                (remove_in_flight-IsSteady s piece (off / block_size)))
          | inr other ↦ rw other (record { pieces = refl; next = refl })
        ]
