-- ===== src/Torrent/PieceFlow/Guards.antt =====
-- The early returns of `handle_incoming_piece`.
use tortillas.Prelude.{ℕ, ◌-◌, ◌^◌, ◌<◌, ◌≡◌, ◌↔◌, arith, min, false, List, [], ◌∷◌, length}
use tortillas.Pieces.Scheduler.{block_size}
use tortillas.Torrent.PieceFlow.{is_refused}

-- A block is let through the early returns just where it starts inside its piece, anywhere in it, and
-- is as long as what is left of the piece, up to a block.
pub is_refused_iff :
    (piece_len off : ℕ) (block : List ℕ)
    → piece_len < 2 ^ 64
    → (is_refused piece_len off block ≡ false)
      ↔ ((off < piece_len) × (length block ≡ min (piece_len - off) block_size))
unfolding is_refused
is_refused_iff piece_len off [] h = (λ e. ground (arith, e), λ e. ground (arith, e))
is_refused_iff piece_len off (b ∷ block) h = (λ e. ground (arith, e), λ e. ground (arith, e))
