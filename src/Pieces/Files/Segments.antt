-- ===== src/Pieces/Files/Segments.antt =====
-- pieces/piece_manager.rs: reading file ranges, and cutting them.
use tortillas.Prelude.{
  ℕ, ◌+◌, ◌-◌, ◌≤◌, ◌<◌, ◌≡◌, sym, ap, ◌∙◌, arith, inl, inr, List, [], ◌∷◌, ◌++◌, length,
  length-drop, take, drop, min, leb, eqb, eqb_iff, All, Bool-cases,
}
use tortillas.Prelude.Outcome.{ok, ok_inj, bind_ok}
use tortillas.Prelude.Cuts.{
  drop-append_ge, drop-append_le, take-append_split, take-take, drop-take, drop-drop,
}
use tortillas.Pieces.Files.{PathBuf, FileRange, segment_loop}

-- The bytes that the files hold at some ranges, one range after the other. `read` is the whole
-- content of a file.
module _ (read : PathBuf → List ℕ) where
  abbrev pub read_range : FileRange → List ℕ
  read_range (path, offset, len) = take len (drop offset (read path))

  abbrev pub read_ranges : List FileRange → List ℕ
  read_ranges [] = []
  read_ranges (r ∷ ranges) = read_range r ++ read_ranges ranges

  -- A range that lies within its file.
  abbrev pub IsFull : FileRange → Type 0
  IsFull (path, offset, len) = length (read_range (path, offset, len)) ≡ len

module _ (read : PathBuf → List ℕ) where
  -- A range cut at `skipped`, as a range of its own.
  cut_range :
      (path : PathBuf) (off len skipped remaining : ℕ)
      → read_range read (path, off + skipped, min remaining (len - skipped))
        ≡ take remaining (drop skipped (read_range read (path, off, len)))
  cut_range path off len skipped remaining =
      let file = read path in
      rw (
        drop-take skipped len (drop off file),
        drop-drop skipped off file,
        take-take remaining (len - skipped) (drop (off + skipped) file),
      )

  -- What a cut of the first range leaves to read in the others.
  cut_rest :
      (path : PathBuf) (off len skipped remaining : ℕ) (rest : List ℕ)
      → IsFull read (path, off, len)
      → skipped < len
      → take remaining (drop skipped (read_range read (path, off, len) ++ rest))
        ≡ read_range read (path, off + skipped, min remaining (len - skipped))
          ++ take (remaining - min remaining (len - skipped)) rest
  cut_rest path off len skipped remaining rest full h =
      let first = read_range read (path, off, len) in
      let count : remaining - length (drop skipped first)
          ≡ remaining - min remaining (len - skipped) =
        omega (arith, full, length-drop skipped first) in
      rw (
        drop-append_le skipped first rest (omega (arith, full, h)),
        take-append_split remaining (drop skipped first) rest,
        count,
        cut_range path off len skipped remaining,
      )

  pub segment_loop-reads :
      (ranges : List FileRange) (skipped remaining : ℕ) (segments : List FileRange)
      → All (IsFull read) ranges
      → segment_loop ranges skipped remaining ≡ ok segments
      → read_ranges read segments ≡ take remaining (drop skipped (read_ranges read ranges))
  unfolding segment_loop
  segment_loop-reads [] skipped remaining segments h e = absurd (ground (arith, e))
  segment_loop-reads ((path, off, len) ∷ ranges) skipped remaining segments (full, h) e =
      elim (Bool-cases (leb len skipped)) [
        | inl passed ↦
            let there : length first ≤ skipped = ground (arith, full, passed) in
            let e1 = rw passed at e in
            rw (drop-append_ge skipped first rest there, full)
              (segment_loop-reads ranges (skipped - len) remaining segments h e1)
        | inr cut ↦
            let split = cut_rest path off len skipped remaining rest full (ground (arith, cut)) in
            elim (Bool-cases (eqb left 0)) [
              | inl last ↦
                  let same : x ∷ [] ≡ segments = ok_inj (rw (cut, last) at e) in
                  let none_left : left ≡ 0 = (eqb_iff left 0).0 last in
                  ap (read_ranges read) (sym same) ∙ sym (split ∙ (rw none_left))
              | inr more ↦
                  let (segments1, e1, e2) =
                    bind_ok (segment_loop ranges 0 left) _ segments (rw (cut, more) at e) in
                  ap (read_ranges read) (sym (ok_inj e2))
                  ∙ ap (λ l. read_range read x ++ l)
                      (segment_loop-reads ranges 0 left segments1 h e1)
                  ∙ sym split
            ]
      ]
    where
      first : List ℕ
      first = read_range read (path, off, len)

      rest : List ℕ
      rest = read_ranges read ranges

      left : ℕ
      left = remaining - min remaining (len - skipped)

      x : FileRange
      x = (path, off + skipped, min remaining (len - skipped))
