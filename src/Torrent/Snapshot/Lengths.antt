-- ===== src/Torrent/Snapshot/Lengths.antt =====
-- The length of a piece, as the piece flow and as the snapshot compute it.
use tortillas.Prelude.{
  ℕ, zero, suc, sym, ap, ◌∙◌, ◌+◌, ◌-◌, ◌*◌, ◌%◌, ◌^◌, ◌≤◌, ◌<◌, ◌≡◌, refl, arith, some, true,
  false, eqb, Bool-cases, inl, inr,
}
use native.Mathlib.Nat.{add-mod_left, mod_self, mod-eq_of_lt, mul_comm}
use tortillas.Prelude.Outcome.{ok}
use tortillas.Pieces.Scheduler.{saturating_mul}
use tortillas.Torrent.PieceFlow.{InfoDict, concrete_piece_len}
use tortillas.Torrent.Snapshot.{piece_length}

-- An info dictionary whose pieces cover its files, the last one in part or whole.
pub record IsCovered (info : InfoDict) : Type 0 where
  pub some_length : 0 < info.piece_length
  pub not_less : info.total_length ≤ info.piece_count * info.piece_length
  pub not_more : info.piece_count * info.piece_length < info.total_length + info.piece_length
  pub fits : info.total_length < 2 ^ 64

mod-shift : (k len r : ℕ) → (k * len + r) % len ≡ r % len
mod-shift zero len r = let e : zero * len + r ≡ r = omega arith in rw e refl
mod-shift (suc k) len r =
    let e : suc k * len + r ≡ len + (k * len + r) = omega arith in
    rw e (add-mod_left len (k * len + r) ∙ mod-shift k len r)

-- The last piece, of `r` bytes behind `k` whole ones.
last_len :
    (info : InfoDict) (k r : ℕ)
    → info.piece_count ≡ suc k
    → info.total_length ≡ k * info.piece_length + r
    → 0 < r
    → r ≤ info.piece_length
    → info.total_length < 2 ^ 64
    → (concrete_piece_len info k ≡ some r) × (piece_length info k ≡ ok r)
unfolding concrete_piece_len piece_length
last_len info k r count total pos le fits =
    let len = info.piece_length in
    let last : eqb k (info.piece_count - 1) ≡ true = ground (arith, count) in
    let divides : eqb len 0 ≡ false = ground (arith, pos, le) in
    let m : info.total_length % len ≡ r % len = ap (λ n. n % len) total ∙ mod-shift k len r in
    let swap : len * (info.piece_count - 1) ≡ k * len =
      ap (λ n. len * n) (let e : info.piece_count - 1 ≡ k = omega (arith, count) in e)
      ∙ mul_comm len k in
    let left : info.total_length - saturating_mul len (info.piece_count - 1) ≡ r =
      omega (arith, swap, total, fits) in
    (
      elim (Bool-cases (eqb r len)) [
        | inl whole ↦
            let e : r ≡ len = ground (arith, whole) in
            let none_ : eqb (info.total_length % len) 0 ≡ true =
              ground (arith, m ∙ ap (λ n. n % len) e ∙ mod_self len) in
            rw (last, divides, none_) (ap some (sym e))
        | inr part ↦
            let small : r % len ≡ r = mod-eq_of_lt (ground (arith, part, le)) in
            let some_ : eqb (info.total_length % len) 0 ≡ false = ground (arith, m, small, pos) in
            rw (last, divides, some_) (ap some (m ∙ small))
      ],
      rw (divides, last) (ap ok left),
    )

-- Where the pieces cover the files, the length of a piece that the piece flow checks blocks against is
-- the one that the snapshot counts blocks by, and it is not zero.
pub concrete_piece_len-piece_length :
    (info : InfoDict) (index : ℕ)
    → IsCovered info
    → index < info.piece_count
    → (n : ℕ) × (concrete_piece_len info index ≡ some n)
      × (piece_length info index ≡ ok n)
      × (0 < n)
concrete_piece_len-piece_length info index c inside =
    elim (Bool-cases (eqb index (info.piece_count - 1))) [
      | inl last ↦
          let at_ : index ≡ info.piece_count - 1 = ground (arith, last) in
          let count : info.piece_count ≡ suc index = omega (arith, at_, inside) in
          let high : info.total_length ≤ index * info.piece_length + info.piece_length =
            omega (arith, rw count at c.not_less) in
          let low : index * info.piece_length < info.total_length =
            omega (arith, rw count at c.not_more) in
          let r = info.total_length - index * info.piece_length in
          let (flow, saved) =
            last_len info index r count (omega (arith, low)) (omega (arith, low))
              (omega (arith, high)) c.fits in
          (r, flow, saved, omega (arith, low))
      | inr inner ↦ (
        info.piece_length,
        unfold concrete_piece_len in rw inner refl,
        unfold piece_length in
            (let divides : eqb info.piece_length 0 ≡ false = ground (arith, c.some_length) in
              rw (divides, inner) refl),
        c.some_length,
      )
    ]
