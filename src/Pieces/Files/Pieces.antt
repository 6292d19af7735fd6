-- ===== src/Pieces/Files/Pieces.antt =====
-- pieces/piece_manager.rs: files stored under their paths, and the loop over the files of a piece.
use tortillas.Prelude.{
  ℕ, ◌+◌, ◌-◌, ◌%◌, ◌^◌, ◌≤◌, ◌<◌, ◌≡◌, refl, sym, ap, ◌∙◌, arith, true, inl, inr, List, [], ◌∷◌,
  ◌++◌, length, length-append, length-take, length-drop, take, drop, min, ltb, leb, eqb, eqb_iff,
  leb→le, All, Bool-cases, if◌then◌else◌,
}
use tortillas.Prelude.Cuts.{
  drop-append_ge, drop-append_le, take-append_split, take-min_length, take_nil, drop_nil,
}
use tortillas.Prelude.Outcome.{ok, ◌>>=◌, ok_inj, bind_ok}
use tortillas.Pieces.Files.{
  Segment, PathBuf, Component, InfoFile, InfoKeys, single, multi, Info, FileRange, fold_lengths,
  total_length, file_path, file_loop, file_ranges, Fallible, push_torrent_path_segment, push_all,
}
use tortillas.Pieces.Files.Segments.{read_range, read_ranges, IsFull}

-- The files of a torrent; a single file stands under the torrent's name.
abbrev pub files_of : InfoKeys → List InfoFile
files_of (single n) = record { length = n; path = [] } ∷ []
files_of (multi files) = files

abbrev pub sum_lengths : List InfoFile → ℕ
sum_lengths [] = 0
sum_lengths (f ∷ files) = f.length + sum_lengths files

-- The torrent's data: the files, end to end.
abbrev pub data_of : (InfoFile → List ℕ) → List InfoFile → List ℕ
data_of content [] = []
data_of content (f ∷ files) = content f ++ data_of content files

-- A file is stored when it has its length, and its path, if that is safe, reads as the file.
abbrev pub IsStored :
    (Segment → List Component)
    → (PathBuf → List ℕ)
    → (InfoFile → List ℕ)
    → Segment
    → InfoFile
    → Type 0
IsStored components read content name f =
    (length (content f) ≡ f.length)
    × ((path : PathBuf) → file_path components name f.path ≡ ok path → read path ≡ content f)

-- A file cut at `off`: what is taken of it, and what is left for the next files.
cut_content :
    (c rest : List ℕ) (off remaining : ℕ)
    → off ≤ length c
    → take remaining (drop off (c ++ rest))
      ≡ take (min remaining (length c - off)) (drop off c)
        ++ take (remaining - min remaining (length c - off)) rest
cut_content c rest off remaining h =
    let count : remaining - length (drop off c) ≡ remaining - min remaining (length c - off) =
      omega (arith, length-drop off c) in
    rw (
      drop-append_le off c rest h,
      take-append_split remaining (drop off c) rest,
      count,
      (sym (take-min_length remaining (drop off c))),
      length-drop off c,
    )

-- A stored file's range reads whole, and what is wanted past it lies in the next files.
stored_range :
    (read : PathBuf → List ℕ) (path : PathBuf) (c rest : List ℕ) (len off remaining : ℕ)
    → read path ≡ c
    → length c ≡ len
    → off ≤ len
    → IsFull read (path, off, min remaining (len - off))
      × (take remaining (drop off (c ++ rest))
          ≡ read_range read (path, off, min remaining (len - off))
            ++ take (remaining - min remaining (len - off)) rest)
stored_range read path c rest len off remaining same size h =
    let tl = min remaining (len - off) in
    let first : read_range read (path, off, tl) ≡ take tl (drop off c) = rw same in
    let near : off ≤ length c = omega (arith, size, h) in
    let cut = cut_content c rest off remaining near in
    let full : length (take tl (drop off c)) ≡ tl =
      omega (arith, size, length-take tl (drop off c), length-drop off c) in
    (rw first full, rw first (rw size at cut))

fold_lengths_lem :
    (files : List InfoFile) (acc : ℕ)
    → acc + sum_lengths files < 2 ^ 64
    → fold_lengths acc files ≡ acc + sum_lengths files
fold_lengths_lem [] acc h = omega arith
fold_lengths_lem (f ∷ files) acc h =
    let e : min (acc + f.length) (2 ^ 64 - 1) ≡ acc + f.length = omega (arith, h) in
    rw e (fold_lengths_lem files (acc + f.length) (omega (arith, h)) ∙ omega arith)

pub total_length_lem :
    (k : InfoKeys) → sum_lengths (files_of k) < 2 ^ 64 → total_length k ≡ sum_lengths (files_of k)
unfolding total_length
total_length_lem (single n) h = omega arith
total_length_lem (multi files) h = fold_lengths_lem files 0 (omega (arith, h)) ∙ omega arith

module _ (components : Segment → List Component) (read : PathBuf → List ℕ)
    (content : InfoFile → List ℕ) (name : Segment) where
  -- What the ranges read, and that each lies within its file.
  abbrev pub Reads : List FileRange → List ℕ → Type 0
  Reads ranges bytes = (read_ranges read ranges ≡ bytes) × All (IsFull read) ranges

  file_loop-Reads :
      (start : ℕ) (files : List InfoFile) (remaining acc left : ℕ) (ranges : List FileRange)
      → acc + sum_lengths files < 2 ^ 64
      → All (IsStored components read content name) files
      → file_loop components name start files remaining acc ≡ ok (ranges, left)
      → Reads ranges (take remaining (drop (start - acc) (data_of content files)))
  unfolding file_loop
  file_loop-Reads start [] remaining acc left ranges h stored e =
      let none_read : [] ≡ ranges = ap (λ r. r.0) (ok_inj e) in
      rw (sym none_read, drop_nil (start - acc), take_nil remaining) (refl, tt)
  file_loop-Reads start (f ∷ files) remaining acc left ranges h (stored, others) e =
      elim (Bool-cases (leb next start)) [
        | inl skipped ↦
            let (reads, full) =
              file_loop-Reads start files remaining next left ranges fits others
                (rw skipped at e) in
            let far : length (content f) ≤ start - acc =
              omega (arith, stored.0, wrap, leb→le next start skipped) in
            let same : start - acc - length (content f) ≡ start - next =
              omega (arith, stored.0, wrap) in
            (rw (drop-append_ge (start - acc) (content f) rest far, same) reads, full)
        | inr here ↦
            let (path, e1, e2) =
              bind_ok (file_path components name f.path) _ (ranges, left) (rw here at e) in
            after path (stored.1 path e1) (ground (arith, stored.0, wrap, here)) e2
              (ground (arith, here))
              λ r. file_loop-Reads start files (remaining - tl) next r.1 r.0 fits others
      ]
    where
      next : ℕ
      next = (acc + f.length) % 2 ^ 64

      off : ℕ
      off = start - acc

      tl : ℕ
      tl = min remaining (f.length - off)

      rest : List ℕ
      rest = data_of content files

      wrap : next ≡ acc + f.length
      wrap = omega (arith, h)

      fits : next + sum_lengths files < 2 ^ 64
      fits = omega (arith, wrap, h)

      x : PathBuf → FileRange
      x path = (path, off, tl)

      step : PathBuf → Fallible (List FileRange × ℕ)
      step path =
          if eqb (remaining - tl) 0
          then ok (x path ∷ [], 0)
          else file_loop components name start files (remaining - tl) next >>= λ r.
              ok (x path ∷ r.0, r.1)

      after :
          (path : PathBuf)
          → read path ≡ content f
          → off ≤ f.length
          → step path ≡ ok (ranges, left)
          → start < next
          → ((r : List FileRange × ℕ)
              → file_loop components name start files (remaining - tl) next ≡ ok r
              → Reads r.0 (take (remaining - tl) (drop (start - next) rest)))
          → Reads ranges (take remaining (drop (start - acc) (data_of content (f ∷ files))))
      after path same near e l ih =
          let (full, cut) =
            stored_range read path (content f) rest f.length off remaining same stored.0 near in
          elim (Bool-cases (eqb (remaining - tl) 0)) [
            | inl last ↦
                let only : x path ∷ [] ≡ ranges = ap (λ r. r.0) (ok_inj (rw last at e)) in
                let none_left : remaining - tl ≡ 0 = (eqb_iff (remaining - tl) 0).0 last in
                rw (sym only, cut, none_left) (refl, (full, tt))
            | inr more ↦
                let (r, e1, e2) =
                  bind_ok (file_loop components name start files (remaining - tl) next) _
                    (ranges, left) (rw more at e) in
                let whole : x path ∷ r.0 ≡ ranges = ap (λ r. r.0) (ok_inj e2) in
                let start_of_next : start - next ≡ 0 = omega (arith, l) in
                let (reads, fulls) = ih r e1 in
                rw (sym whole, cut)
                  (
                    ap (λ l. read_range read (x path) ++ l) (rw start_of_next at reads),
                    (full, fulls),
                  )
          ]

  -- A single file stands under the torrent's name.
  file_path-single :
      (path : PathBuf)
      → push_torrent_path_segment components [] name ≡ ok path
      → file_path components name [] ≡ ok path
  unfolding file_path push_all
  file_path-single path h = rw h refl

  pub file_ranges-Reads :
      (info : Info) (start remaining left : ℕ) (k : InfoKeys) (ranges : List FileRange)
      → info.name ≡ name
      → sum_lengths (files_of k) < 2 ^ 64
      → All (IsStored components read content name) (files_of k)
      → file_ranges components info start remaining k ≡ ok (ranges, left)
      → start < sum_lengths (files_of k)
      → Reads ranges (take remaining (drop start (data_of content (files_of k))))
  unfolding file_ranges
  file_ranges-Reads info start remaining left (multi files) ranges named h stored e within =
      let from_zero : start - 0 ≡ start = omega arith in
      rw from_zero at (
        file_loop-Reads start files remaining 0 left ranges (omega (arith, h)) stored
          (rw named at e))
  file_ranges-Reads info start remaining left (single n) ranges named h (stored, _) e within =
      let inside : ltb start n ≡ true = ground (arith, within) in
      let (path, e1, e2) =
        bind_ok (push_torrent_path_segment components [] name) _ (ranges, left)
          (rw (inside, named) at e) in
      let only = ap (λ r. r.0) (ok_inj e2) in
      let (full, cut) =
        stored_range read path (content (record { length = n; path = [] })) [] n start remaining
          (stored.1 path (file_path-single path e1)) stored.0 (omega (arith, within)) in
      rw (sym only, cut, take_nil (remaining - min remaining (n - start))) (refl, (full, tt))

  pub length-data_of :
      (files : List InfoFile)
      → All (IsStored components read content name) files
      → length (data_of content files) ≡ sum_lengths files
  length-data_of [] h = refl
  length-data_of (f ∷ files) (h, others) =
      omega
        (arith, length-append (content f) (data_of content files), h.0, length-data_of files others)
