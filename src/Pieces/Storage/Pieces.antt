-- ===== src/Pieces/Storage/Pieces.antt =====
-- A range of a piece, written to the files that it lies in and read from them.
use tortillas.Prelude.{
  ℕ, ◌+◌, ◌-◌, ◌≤◌, ◌<◌, ◌≡◌, refl, sym, ap, ◌∙◌, arith, min, Bool, true, false, Option, some, inl,
  inr, List, [], ◌∷◌, ◌++◌, length, take, leb, eqb, list_eq, nat_eq, ◌==◌, Bool-cases, All,
}
use tortillas.Prelude.Map.{lookup}
use tortillas.Prelude.Outcome.{ok}
use tortillas.Pieces.Files.{
  Segment, PathBuf, Component, Info, FileRange, segment_loop, piece_to_paths, piece_range_segments,
}
use tortillas.Pieces.Storage.{
  Files, FilePieceManager, sum_lengths, write_piece_range, read_piece_range, recv, read_piece,
}
use tortillas.Pieces.Storage.Ranges.{IsDistinct}
use tortillas.Pieces.Storage.RoundTrip.{Works, write_loop_lem}

-- The segments of a range that lies within the piece: as long as the range, in files of the piece's.
record IsCut (ranges : List FileRange) (remaining : ℕ) (segments : List FileRange) : Type 1 where
  sum : sum_lengths segments ≡ remaining
  distinct : IsDistinct segments
  within : (P : PathBuf → Type 0) → All (λ r. P r.0) ranges → All (λ r. P r.0) segments

segment_loop-IsCut :
    (ranges : List FileRange) (skipped remaining : ℕ)
    → 0 < remaining
    → skipped + remaining ≤ sum_lengths ranges
    → IsDistinct ranges
    → (segments : List FileRange) × (segment_loop ranges skipped remaining ≡ ok segments)
      × IsCut ranges remaining segments
unfolding segment_loop
segment_loop-IsCut [] skipped remaining pos fits d = absurd (omega arith)
segment_loop-IsCut ((path, offset, len) ∷ ranges) skipped remaining pos fits (apart, d) =
    let part = min remaining (len - skipped) in
    elim (Bool-cases (leb len skipped)) [
      | inl pass ↦
          let (segments, done, c) =
            segment_loop-IsCut ranges (skipped - len) remaining pos (ground arith) d in
          (
            segments,
            rw pass done,
            record { sum = c.sum; distinct = c.distinct; within = λ P h. c.within P h.1 },
          )
      | inr use_ ↦ elim (Bool-cases (eqb (remaining - part) 0)) [
        | inl last ↦ (
          (path, offset + skipped, part) ∷ [],
          rw use_ (rw last refl),
          record { sum = ground arith; distinct = (tt, tt); within = λ P h. (h.0, tt) },
        )
        | inr more ↦
            let (segments, done, c) =
              segment_loop-IsCut ranges 0 (remaining - part) (ground arith) (ground arith) d in
            (
              (path, offset + skipped, part) ∷ segments,
              rw use_ (rw more (rw done refl)),
              record {
                sum = ground (arith, c.sum);
                distinct = (c.within (λ p. (path == p) ≡ false) apart, c.distinct);
                within = λ P h. (h.0, c.within P h.1);
              },
            )
      ]
    ]

abbrev pub manager : PathBuf → Info → FilePieceManager
manager base info = record { path = some base; info = some info }

module _ (components : Segment → List Component) where
  piece_range_segments-IsCut :
      (info : Option Info) (index offset len : ℕ) (ranges : List FileRange)
      → piece_to_paths components info index ≡ ok ranges
      → IsDistinct ranges
      → offset + len ≤ sum_lengths ranges
      → (segments : List FileRange) × (piece_range_segments components info index offset len
          ≡ ok segments)
        × IsCut ranges len segments
  unfolding piece_range_segments
  piece_range_segments-IsCut info index offset len ranges paths d fits =
      elim (Bool-cases (eqb len 0)) [
        | inl nothing ↦
            ([], rw nothing refl, record { sum = ground arith; distinct = tt; within = λ P h. tt })
        | inr something ↦
            let (segments, done, c) = segment_loop-IsCut ranges offset len (ground arith) fits d in
            (segments, rw something (rw paths done), c)
      ]

  -- Bytes written to a range within a piece, whose ranges lie in different files that can be opened,
  -- are the bytes read from it, and no other file changes.
  pub write_piece_range-read_piece_range :
      (works : PathBuf → Bool) (m : FilePieceManager) (base : PathBuf) (index offset : ℕ)
      (bytes : List ℕ) (files : Files) (ranges : List FileRange)
      → m.path ≡ some base
      → piece_to_paths components m.info index ≡ ok ranges
      → IsDistinct ranges
      → Works works base ranges
      → offset + length bytes ≤ sum_lengths ranges
      → (after : Files) × (write_piece_range works components m index offset bytes files
          ≡ (ok tt, after))
        × (read_piece_range works components m index offset (length bytes) after ≡ ok bytes)
        × ((path : PathBuf)
            → All (λ r. (path == r.0) ≡ false) ranges
            → lookup (base ++ path) after ≡ lookup (base ++ path) files)
  unfolding write_piece_range read_piece_range
  write_piece_range-read_piece_range works m base index offset bytes files ranges at paths d opens
        fits =
      let (segments, cut, c) =
        piece_range_segments-IsCut m.info index offset (length bytes) ranges paths d fits in
      let (after, done, kept, back) =
        write_loop_lem works base segments bytes 0 files c.distinct
          (c.within (λ p. works (base ++ p) ≡ true) opens) (omega (arith, c.sum)) in
      (
        after,
        rw at (rw cut done),
        rw at (rw cut (back [] ∙ rw c.sum (ap ok (take_all bytes)))),
        (λ path h. kept path (c.within (λ p. (path == p) ≡ false) h)),
      )
    where
      take_all : (xs : List ℕ) → take (length xs) xs ≡ xs
      take_all [] = refl
      take_all (x ∷ xs) = ap (λ l. x ∷ l) (take_all xs)

  -- A whole piece that a manager with a path and an info receives is the piece that it reads, where the
  -- piece's ranges lie in different files that can be opened.
  recv-read_piece :
      (works : PathBuf → Bool) (base : PathBuf) (info : Info) (index : ℕ) (bytes : List ℕ)
      (files : Files) (ranges : List FileRange)
      → piece_to_paths components (some info) index ≡ ok ranges
      → IsDistinct ranges
      → Works works base ranges
      → length bytes ≡ sum_lengths ranges
      → (after : Files) × (recv works components (manager base info) index bytes files
          ≡ (ok tt, after))
        × (read_piece works components (manager base info) index after ≡ ok bytes)
  unfolding recv read_piece
  recv-read_piece works base info index bytes files ranges paths d opens whole =
      let (after, done, back, _) =
        write_piece_range-read_piece_range works (manager base info) base index 0 bytes files ranges
          refl paths d opens (omega (arith, whole)) in
      (
        after,
        done,
        rw paths (
            ap (λ n. read_piece_range works components (manager base info) index 0 n after)
              (sym whole)
            ∙ back),
      )
