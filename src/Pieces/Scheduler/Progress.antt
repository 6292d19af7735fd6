-- ===== src/Pieces/Scheduler/Progress.antt =====
-- `next_piece` beside the first piece that is not complete.
use tortillas.Prelude.{
  ℕ, zero, suc, ◌+◌, ◌≤◌, ◌<◌, ◌≡◌, refl, ap, ◌∙◌, arith, Bool, true, false, some, ◌⊎◌, inl, inr,
  List, [], ◌∷◌, length, length-set, get_elem?, get_elem?-set_self, get_elem?-set_ne, set, eqb,
  eqb_iff, ltb, if◌then◌else◌, Bool-cases,
}
use tortillas.Pieces.Scheduler.{PieceScheduler, advance, new, mark_piece_complete}

-- Every piece below `n` is complete, and the piece `n`, if there is one, is not.
pub record IsFront (completed : List Bool) (n : ℕ) : Type 0 where
  pub in_range : n ≤ length completed
  pub below : (i : ℕ) → i < n → get_elem? completed i ≡ some true
  pub stops : (n ≡ length completed) ⊎ (get_elem? completed n ≡ some false)

get_elem?-cases :
    (bits : List Bool) (i : ℕ)
    → i < length bits
    → (get_elem? bits i ≡ some true) ⊎ (get_elem? bits i ≡ some false)
get_elem?-cases [] i h = absurd (omega arith)
get_elem?-cases (true ∷ bits) zero h = inl refl
get_elem?-cases (false ∷ bits) zero h = inr refl
get_elem?-cases (b ∷ bits) (suc i) h = get_elem?-cases bits i (omega arith)

abbrev Below : List Bool → ℕ → Type 0
Below completed n = (i : ℕ) → i < n → get_elem? completed i ≡ some true

Below-suc :
    (completed : List Bool) (n : ℕ)
    → Below completed n
    → get_elem? completed n ≡ some true
    → Below completed (n + 1)
Below-suc completed n h now i lt = elim (Bool-cases (eqb i n)) [
  | inl same ↦ ap (get_elem? completed) ((eqb_iff i n).0 same) ∙ now
  | inr other ↦ h i (ground (arith, other))
]

advance-IsFront :
    (fuel : ℕ) (completed : List Bool) (n : ℕ)
    → n ≤ length completed
    → length completed ≤ n + fuel
    → Below completed n
    → IsFront completed (advance fuel completed n)
unfolding advance
advance-IsFront zero completed n le enough h = record {
  in_range = le;
  below = h;
  stops = inl (omega arith);
}
advance-IsFront (suc fuel) completed n le enough h = elim (Bool-cases (ltb n (length completed))) [
  | inl more ↦ elim (get_elem?-cases completed n (ground (arith, more))) [
    | inl set ↦
        rw (more, set)
          (advance-IsFront fuel completed (n + 1) (ground (arith, more)) (omega arith)
            (Below-suc completed n h set))
    | inr clear ↦ rw (more, clear) (record { in_range = le; below = h; stops = inr clear })
  ]
  | inr last ↦ rw last (record { in_range = le; below = h; stops = inl (ground (arith, last)) })
]

set-Below :
    (completed : List Bool) (n index : ℕ)
    → n ≤ length completed
    → Below completed n
    → Below (set completed index true) n
set-Below completed n index le h i lt = elim (Bool-cases (eqb index i)) [
  | inl same ↦
      let e : index ≡ i = (eqb_iff index i).0 same in
      rw e (get_elem?-set_self completed i true (omega arith))
  | inr other ↦ get_elem?-set_ne completed true (λ p. ground (arith, other, p)) ∙ h i lt
]

-- In a new scheduler, of any number of pieces, `next_piece` is the first incomplete piece.
pub new-IsFront :
    (P : Type 0) (piece_count : ℕ)
    → IsFront (new {P = P} piece_count).completed_pieces (new {P = P} piece_count).next_piece
unfolding new
new-IsFront P zero = record {
  in_range = omega arith;
  below = λ i h. absurd (omega arith);
  stops = inl refl;
}
new-IsFront P (suc n) = record {
  in_range = omega arith;
  below = λ i h. absurd (omega arith);
  stops = inr refl;
}

module _ {P : Type 0} where
  -- Where `next_piece` is the first incomplete piece, marking a piece complete sets that piece and no
  -- other, and moves `next_piece` to the first piece that is still incomplete.
  pub mark_piece_complete-IsFront :
      (s : PieceScheduler P) (index : ℕ)
      → IsFront s.completed_pieces s.next_piece
      → IsFront
          (mark_piece_complete s index).completed_pieces
          (mark_piece_complete s index).next_piece
        × ((i : ℕ)
            → i < length s.completed_pieces
            → get_elem? (mark_piece_complete s index).completed_pieces i
              ≡ (if eqb index i then some true else get_elem? s.completed_pieces i))
  unfolding mark_piece_complete
  mark_piece_complete-IsFront s index f = (
    advance-IsFront _ (set s.completed_pieces index true) s.next_piece
        (omega (arith, length-set s.completed_pieces index true, f.in_range)) (omega arith)
        (set-Below s.completed_pieces s.next_piece index f.in_range f.below),
    λ i lt. elim (Bool-cases (eqb index i)) [
      | inl same ↦
          let e : index ≡ i = (eqb_iff index i).0 same in
          rw same (rw e (get_elem?-set_self s.completed_pieces i true lt))
      | inr other ↦
          rw other (get_elem?-set_ne s.completed_pieces true (λ p. ground (arith, other, p)))
    ],
  )
