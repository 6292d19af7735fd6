-- ===== src/Pieces/Scheduler/Blocks.antt =====
-- The blocks in flight of one peer, counted in a list of blocks and over the whole map.
use tortillas.Prelude.{
  ℕ, zero, suc, ◌+◌, ◌<◌, ◌≡◌, refl, arith, Bool, false, Option, none, some, [], ◌∷◌, ◌++◌, length,
  set, replicate, any, if◌then◌else◌, PartialEq, ◌==◌, nat_eq,
}
use tortillas.Prelude.Map.{weight}
use tortillas.Pieces.Scheduler.{InFlightBlock, Blocks, is_some, block_at, blocks_or_empty, held_by}

abbrev pub one_if : Bool → ℕ
one_if b = if b then 1 else 0

module _ {P : Type 0} ⦃e : PartialEq P⦄ where
  unfoldable pub count_peer : P → Blocks P → ℕ
  count_peer p [] = 0
  count_peer p (block ∷ blocks) = one_if (held_by p block) + count_peer p blocks

  pub count_peer-set-none :
      (p : P) (blocks : Blocks P) (i : ℕ) {r : InFlightBlock P}
      → block_at blocks i ≡ some r
      → count_peer p (set blocks i none) + one_if (r.peer_id == p) ≡ count_peer p blocks
  unfolding count_peer
  count_peer-set-none p [] i h = absurd (ground (arith, h))
  count_peer-set-none p (none ∷ blocks) zero h = absurd (ground (arith, h))
  count_peer-set-none p (some q ∷ blocks) zero h = ground arith
  count_peer-set-none p (block ∷ blocks) (suc i) h = omega (arith, count_peer-set-none p blocks i h)

  pub count_peer-set-some :
      (p : P) (blocks : Blocks P) (i : ℕ) (r : InFlightBlock P)
      → i < length blocks
      → block_at blocks i ≡ none
      → count_peer p (set blocks i (some r)) ≡ count_peer p blocks + one_if (r.peer_id == p)
  unfolding count_peer
  count_peer-set-some p [] i r l h = absurd (omega arith)
  count_peer-set-some p (none ∷ blocks) zero r l h = omega arith
  count_peer-set-some p (some q ∷ blocks) zero r l h = absurd (ground (arith, h))
  count_peer-set-some p (block ∷ blocks) (suc i) r l h =
      omega (arith, count_peer-set-some p blocks i r (omega arith) h)

  pub count_peer-replicate :
      (p : P) (blocks : Blocks P) (n : ℕ)
      → count_peer p (blocks ++ replicate n none) ≡ count_peer p blocks
  unfolding count_peer
  count_peer-replicate p [] zero = refl
  count_peer-replicate p [] (suc n) = omega (arith, count_peer-replicate p [] n)
  count_peer-replicate p (block ∷ blocks) n = omega (arith, count_peer-replicate p blocks n)

  pub count_peer-none_left :
      (p : P) (blocks : Blocks P) → any is_some blocks ≡ false → count_peer p blocks ≡ 0
  unfolding count_peer
  count_peer-none_left p [] h = refl
  count_peer-none_left p (none ∷ blocks) h = omega (arith, count_peer-none_left p blocks h)
  count_peer-none_left p (some r ∷ blocks) h = absurd (ground (arith, h))

  pub weight-count_peer :
      (p : P) (o : Option (Blocks P)) → weight (count_peer p) o ≡ count_peer p (blocks_or_empty o)
  unfolding count_peer
  weight-count_peer p none = refl
  weight-count_peer p (some blocks) = refl
