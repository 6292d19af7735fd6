-- ===== src/Pieces/Storage/Panics.antt =====
-- Writing and reading ranges does not panic: a slice of the data is within it.
use tortillas.Prelude.{
  ℕ, ◌+◌, ◌-◌, ◌%◌, ◌^◌, ◌++◌, if◌then◌else◌, ◌≤◌, ◌≡◌, ◌≢◌, refl, arith, Bool, true, false, Option,
  none, some, inl, inr, List, [], ◌∷◌, length, min, leb, ltb, eqb, Bool-cases,
}
use tortillas.Prelude.Outcome.{Outcome, ok, err, panicked, ◌>>=◌, ensure, ok_inj, bind_ok, map_err}
use tortillas.Pieces.Files.{
  Segment, PathBuf, Component, FileRange, PieceError, Info, InfoFile, InfoKeys, single, multi,
  segment_loop, push_torrent_path_segment, push_all, starts_with_name, file_path, file_loop,
  file_ranges, checked_mul, checked_end, total_length, exceeds_lengths, ranges_between,
  ranges_of_piece, piece_to_paths, piece_range_segments,
}
use tortillas.Pieces.Storage.{
  Files, piece_error, FilePieceManager, sum_lengths, write_loop, read_loop, or_io, write_segments,
  write_piece_range, read_piece_range, write_block, read_piece,
}

bind-ne-panicked {ℓ κ μ} :
    {E : Type ℓ} {A : Type κ} {B : Type μ} (m : Outcome E A) (f : A → Outcome E B)
    → m ≢ panicked
    → ((a : A) → f a ≢ panicked)
    → (m >>= f) ≢ panicked
bind-ne-panicked (ok a) f h k = k a
bind-ne-panicked (err e) f h k = λ e. cc
bind-ne-panicked panicked f h k = λ e. h refl

segment_loop-ne-panicked :
    (ranges : List FileRange) (skipped remaining : ℕ)
    → segment_loop ranges skipped remaining ≢ panicked
unfolding segment_loop
segment_loop-ne-panicked [] skipped remaining h = cc
segment_loop-ne-panicked ((path, off, len) ∷ ranges) skipped remaining h =
    let passed = segment_loop-ne-panicked ranges (skipped - len) remaining in
    let further =
      bind-ne-panicked (segment_loop ranges 0 (remaining - min remaining (len - skipped)))
        (λ segments. ok ((path, off + skipped, min remaining (len - skipped)) ∷ segments))
        (segment_loop-ne-panicked ranges 0 (remaining - min remaining (len - skipped)))
        (λ a e. cc) in
    ground (arith, passed, further, h)

-- The segments hold no more than was asked for.
segment_loop-le :
    (ranges : List FileRange) (skipped remaining : ℕ) (segments : List FileRange)
    → segment_loop ranges skipped remaining ≡ ok segments
    → sum_lengths segments ≤ remaining
unfolding segment_loop
segment_loop-le [] skipped remaining segments e = cc
segment_loop-le ((path, off, len) ∷ ranges) skipped remaining segments e =
    let taken = min remaining (len - skipped) in
    elim (Bool-cases (leb len skipped)) [
      | inl passed ↦ segment_loop-le ranges (skipped - len) remaining segments (rw passed at e)
      | inr cut ↦ elim (Bool-cases (eqb (remaining - taken) 0)) [
        | inl last ↦
            let same : (path, off + skipped, taken) ∷ [] ≡ segments =
              ok_inj (rw (cut, last) at e) in
            rw (← same) (omega arith)
        | inr more ↦
            let (rest, done, same) =
              bind_ok (segment_loop ranges 0 (remaining - taken)) _ segments
                (rw (cut, more) at e) in
            let e' = ok_inj same in
            rw (← e') (omega (arith, segment_loop-le ranges 0 (remaining - taken) rest done))
      ]
    ]

module _ (components : Segment → List Component) where
  push_segment-ne-panicked :
      (path : PathBuf) (s : Segment) → push_torrent_path_segment components path s ≢ panicked
  unfolding push_torrent_path_segment
  push_segment-ne-panicked path s h = ground (arith, h)

  push_all-ne-panicked :
      (path : PathBuf) (segments : List Segment) → push_all components path segments ≢ panicked
  unfolding push_all
  push_all-ne-panicked path [] = λ h. cc
  push_all-ne-panicked path (s ∷ segments) =
      bind-ne-panicked (push_torrent_path_segment components path s) _
        (push_segment-ne-panicked path s) (λ path. push_all-ne-panicked path segments)

  file_path-ne-panicked :
      (name : Segment) (segments : List Segment) → file_path components name segments ≢ panicked
  unfolding file_path
  file_path-ne-panicked name segments =
      bind-ne-panicked
        (if starts_with_name components segments name
          then ok []
          else push_torrent_path_segment components [] name)
        _ (λ h. ground (arith, h, push_segment-ne-panicked [] name))
        (λ base. push_all-ne-panicked base segments)

  file_loop-ne-panicked :
      (name : Segment) (start : ℕ) (files : List InfoFile) (remaining acc : ℕ)
      → file_loop components name start files remaining acc ≢ panicked
  unfolding file_loop
  file_loop-ne-panicked name start [] remaining acc = λ h. cc
  file_loop-ne-panicked name start (f ∷ files) remaining acc =
      let next = (acc + f.length) % 2 ^ 64 in
      let taken = min remaining (f.length - (start - acc)) in
      elim (Bool-cases (leb next start)) [
        | inl before ↦ rw before (file_loop-ne-panicked name start files remaining next)
        | inr here ↦ rw here (
            bind-ne-panicked (file_path components name f.path) _
              (file_path-ne-panicked name f.path)
              λ path. elim (Bool-cases (eqb (remaining - taken) 0)) [
                | inl last ↦ rw last (λ h. cc)
                | inr more ↦ rw more (
                    bind-ne-panicked
                      (file_loop components name start files (remaining - taken) next) _
                      (file_loop-ne-panicked name start files (remaining - taken) next) (λ r h. cc))
              ])
      ]

  file_ranges-ne-panicked :
      (info : Info) (start remaining : ℕ) (k : InfoKeys)
      → file_ranges components info start remaining k ≢ panicked
  unfolding file_ranges
  file_ranges-ne-panicked info start remaining (single file_len) =
      elim (Bool-cases (ltb start file_len)) [
        | inl within ↦ rw within (
            bind-ne-panicked (push_torrent_path_segment components [] info.name) _
              (push_segment-ne-panicked [] info.name) (λ path h. cc))
        | inr outside ↦ rw outside (λ h. cc)
      ]
  file_ranges-ne-panicked info start remaining (multi files) =
      file_loop-ne-panicked info.name start files remaining 0

  ensure-ne-panicked {ℓ} : {E : Type ℓ} (test : Bool) (e : E) → ensure test e ≢ panicked
  ensure-ne-panicked true e h = cc
  ensure-ne-panicked false e h = cc

  ranges_between-ne-panicked :
      (info : Info) (index start end : ℕ)
      → ranges_between components info index start end ≢ panicked
  unfolding ranges_between
  ranges_between-ne-panicked info index start end =
      bind-ne-panicked (ensure (ltb start (total_length info.file)) (exceeds_lengths index)) _
        (ensure-ne-panicked _ _)
        λ u.
          bind-ne-panicked (file_ranges components info start (end - start) info.file) _
            (file_ranges-ne-panicked info start (end - start) info.file)
            λ r.
              bind-ne-panicked (ensure (eqb r.1 0) (exceeds_lengths index)) _
                (ensure-ne-panicked _ _) (λ u h. cc)

  piece_to_paths-ne-panicked :
      (info : Option Info) (index : ℕ) → piece_to_paths components info index ≢ panicked
  unfolding piece_to_paths ranges_of_piece
  piece_to_paths-ne-panicked none index = λ h. cc
  piece_to_paths-ne-panicked (some info) index =
      bind-ne-panicked (checked_mul index index info.piece_length) _ (λ h. ground (arith, h))
        λ start.
          bind-ne-panicked (checked_end index info.piece_length) _ (λ h. ground (arith, h))
            λ end. ranges_between-ne-panicked info index start (min end (total_length info.file))

  piece_range_segments-ne-panicked :
      (info : Option Info) (index offset len : ℕ)
      → piece_range_segments components info index offset len ≢ panicked
  unfolding piece_range_segments
  piece_range_segments-ne-panicked info index offset len = elim (Bool-cases (eqb len 0)) [
    | inl nothing ↦ rw nothing (λ h. cc)
    | inr some_ ↦ rw some_ (
        bind-ne-panicked (piece_to_paths components info index) _
          (piece_to_paths-ne-panicked info index)
          (λ ranges. segment_loop-ne-panicked ranges offset len))
  ]

  piece_range_segments-le :
      (info : Option Info) (index offset len : ℕ) (segments : List FileRange)
      → piece_range_segments components info index offset len ≡ ok segments
      → sum_lengths segments ≤ len
  unfolding piece_range_segments
  piece_range_segments-le info index offset len segments e = elim (Bool-cases (eqb len 0)) [
    | inl nothing ↦ let same : [] ≡ segments = ok_inj (rw nothing at e) in rw (← same) (omega arith)
    | inr some_ ↦
        let (ranges, done, cut) =
          bind_ok (piece_to_paths components info index) _ segments (rw some_ at e) in
        segment_loop-le ranges offset len segments cut
  ]

  module _ (works : PathBuf → Bool) where
    write_loop-ne-panicked :
        (base : PathBuf) (segments : List FileRange) (bytes : List ℕ) (data_offset : ℕ)
        (files : Files)
        → data_offset + sum_lengths segments ≤ length bytes
        → (write_loop works base segments bytes data_offset files).0 ≢ panicked
    unfolding write_loop
    write_loop-ne-panicked base [] bytes data_offset files fits = λ h. cc
    write_loop-ne-panicked base ((path, off, len) ∷ segments) bytes data_offset files fits =
        let within : leb (data_offset + len) (length bytes) ≡ true = ground (arith, fits) in
        elim (Bool-cases (works (base ++ path))) [
          | inl opens ↦
              rw (opens, within)
                (write_loop-ne-panicked base segments bytes (data_offset + len) _
                  (omega (arith, fits)))
          | inr fails ↦ rw fails (λ h. cc)
        ]

    -- Writing a block returns, or fails with an error.
    pub write_block-ne-panicked :
        (m : FilePieceManager) (index offset : ℕ) (block : List ℕ) (files : Files)
        → (write_block works components m index offset block files).0 ≢ panicked
    unfolding write_block write_piece_range
    write_block-ne-panicked m index offset block files = at_base m.path
      where
        written :
            (base : PathBuf) (found : Outcome PieceError (List FileRange))
            → found ≢ panicked
            → ((segments : List FileRange)
                → found ≡ ok segments
                → sum_lengths segments ≤ length block)
            → (write_segments works components base found block files).0 ≢ panicked
        written base (ok segments) h fits =
            write_loop-ne-panicked base segments block 0 files (omega (arith, fits segments refl))
        written base (err e) h fits = λ e. cc
        written base panicked h fits = λ e. h refl

        at_base :
            (path : Option PathBuf)
            → (write_block works components (record m { path = path }) index offset block files).0
              ≢ panicked
        at_base none = λ h. cc
        at_base (some base) =
            written base (piece_range_segments components m.info index offset (length block))
              (piece_range_segments-ne-panicked m.info index offset (length block))
              (piece_range_segments-le m.info index offset (length block))

    or_io-ne-panicked : (o : Option (List ℕ)) (at : PathBuf) → or_io o at ≢ panicked
    or_io-ne-panicked none at h = cc
    or_io-ne-panicked (some bytes) at h = cc

    read_loop-ne-panicked :
        (base : PathBuf) (segments : List FileRange) (files : Files) (bytes : List ℕ)
        → read_loop works base segments files bytes ≢ panicked
    unfolding read_loop
    read_loop-ne-panicked base [] files bytes = λ h. cc
    read_loop-ne-panicked base ((path, off, len) ∷ segments) files bytes =
        bind-ne-panicked _ _ (or_io-ne-panicked _ (base ++ path))
          (λ chunk. read_loop-ne-panicked base segments files (bytes ++ chunk))

    map_err-ne-panicked {ℓ κ μ} :
        {E : Type ℓ} {E' : Type κ} {A : Type μ} (f : E → E') (m : Outcome E A)
        → m ≢ panicked
        → map_err f m ≢ panicked
    map_err-ne-panicked f (ok a) h e = cc
    map_err-ne-panicked f (err x) h e = cc
    map_err-ne-panicked f panicked h e = h refl

    read_piece_range-ne-panicked :
        (m : FilePieceManager) (index offset len : ℕ) (files : Files)
        → read_piece_range works components m index offset len files ≢ panicked
    unfolding read_piece_range
    read_piece_range-ne-panicked m index offset len files = at_base m.path
      where
        at_base :
            (path : Option PathBuf)
            → read_piece_range works components (record m { path = path }) index offset len files
              ≢ panicked
        at_base none = λ h. cc
        at_base (some base) =
            bind-ne-panicked
              (map_err piece_error (piece_range_segments components m.info index offset len)) _
              (map_err-ne-panicked piece_error _
                (piece_range_segments-ne-panicked m.info index offset len))
              (λ segments. read_loop-ne-panicked base segments files [])

    -- Reading a piece returns, or fails with an error.
    pub read_piece-ne-panicked :
        (m : FilePieceManager) (index : ℕ) (files : Files)
        → read_piece works components m index files ≢ panicked
    unfolding read_piece
    read_piece-ne-panicked m index files =
        bind-ne-panicked (map_err piece_error (piece_to_paths components m.info index)) _
          (map_err-ne-panicked piece_error _ (piece_to_paths-ne-panicked m.info index))
          (λ bounds. read_piece_range-ne-panicked m index 0 (sum_lengths bounds) files)
