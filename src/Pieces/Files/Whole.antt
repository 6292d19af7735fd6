-- ===== src/Pieces/Files/Whole.antt =====
-- `piece_to_paths` and `piece_range_segments`: what their ranges read.
use tortillas.Prelude.{
  ℕ, ◌+◌, ◌-◌, ◌*◌, ◌^◌, ◌≤◌, ◌<◌, ◌≡◌, refl, sym, ap, ◌∙◌, arith, false, some, List, length,
  length-drop, take, drop, min, ltb, eqb, All,
}
use tortillas.Prelude.Cuts.{take-min_length}
use tortillas.Prelude.Outcome.{ok, ensure, bind_ok}
use tortillas.Pieces.Files.{
  Segment, PathBuf, Component, InfoFile, Info, FileRange, total_length, file_ranges, ranges_between,
  ranges_of_piece, piece_to_paths, piece_range_segments, exceeds_lengths, checked_mul, checked_end,
}
use tortillas.Pieces.Files.Segments.{read_ranges, segment_loop-reads}
use tortillas.Pieces.Files.Pieces.{
  files_of, sum_lengths, data_of, IsStored, Reads, file_ranges-Reads, length-data_of,
  total_length_lem,
}

checked_mul_lem : (i a b v : ℕ) → checked_mul i a b ≡ ok v → v ≡ a * b
checked_mul_lem i a b v h = ground (arith, h)

checked_end_lem : (i a v : ℕ) → checked_end i a ≡ ok v → v ≡ (i + 1) * a
checked_end_lem i a v h = ground (arith, h)

module _ (components : Segment → List Component) (read : PathBuf → List ℕ)
    (content : InfoFile → List ℕ) (info : Info) (index : ℕ) where
  abbrev pub torrent_data : List ℕ
  torrent_data = data_of content (files_of info.file)

  abbrev pub piece_data : List ℕ
  piece_data = take info.piece_length (drop (index * info.piece_length) torrent_data)

  abbrev pub IsLaidOut : Type 0
  IsLaidOut =
      (sum_lengths (files_of info.file) < 2 ^ 64)
      × All (IsStored components read content info.name) (files_of info.file)

  ranges_between-Reads :
      (start end : ℕ) (ranges : List FileRange)
      → IsLaidOut
      → ranges_between components info index start end ≡ ok ranges
      → Reads components read content info.name ranges
          (take (end - start) (drop start torrent_data))
  unfolding ranges_between
  ranges_between-Reads start end ranges (h, stored) e =
      let (u, e1, e2) =
        bind_ok (ensure (ltb start (total_length info.file)) (exceeds_lengths index)) _ ranges e in
      let (r, e3, e4) =
        bind_ok (file_ranges components info start (end - start) info.file) _ ranges e2 in
      let within : start < sum_lengths (files_of info.file) =
        ground (arith, e1, total_length_lem info.file h) in
      let same : r.0 ≡ ranges = ground (arith, e4) in
      rw (sym same) (
        file_ranges-Reads components read content info.name info start (end - start) r.1 info.file
          r.0 refl h stored e3 within)

  -- The ranges of a piece read as the piece: the bytes of the torrent's data from its start on, as
  -- many as a piece has or, in the last piece, as are left; and each range lies within its file.
  -- The files, of lengths whose sum fits a `usize`, are stored under the paths that the metadata
  -- gives them.
  pub piece_to_paths-Reads :
      (ranges : List FileRange)
      → IsLaidOut
      → piece_to_paths components (some info) index ≡ ok ranges
      → Reads components read content info.name ranges piece_data
  unfolding piece_to_paths ranges_of_piece
  piece_to_paths-Reads ranges laid e =
      let (start, e1, e2) = bind_ok (checked_mul index index info.piece_length) _ ranges e in
      let (end, e3, e4) = bind_ok (checked_end index info.piece_length) _ ranges e2 in
      let from : start ≡ index * info.piece_length =
        checked_mul_lem index index info.piece_length start e1 in
      let to : end ≡ (index + 1) * info.piece_length =
        checked_end_lem index info.piece_length end e3 in
      let rest = drop start torrent_data in
      let size : length rest ≡ sum_lengths (files_of info.file) - start =
        length-drop start torrent_data
        ∙ ap (λ n. n - start)
            (length-data_of components read content info.name (files_of info.file) laid.1) in
      let count : min end (total_length info.file) - start ≡ min info.piece_length (length rest) =
        omega (arith, size, from, to, total_length_lem info.file laid.0) in
      rw (sym from, sym (take-min_length info.piece_length rest), sym count)
        (ranges_between-Reads start (min end (total_length info.file)) ranges laid e4)

  -- A range of a piece, of at least one byte, reads as that part of the piece.
  pub piece_range_segments-reads :
      (offset len : ℕ) (segments : List FileRange)
      → IsLaidOut
      → 1 ≤ len
      → piece_range_segments components (some info) index offset len ≡ ok segments
      → read_ranges read segments ≡ take len (drop offset piece_data)
  unfolding piece_range_segments
  piece_range_segments-reads offset len segments laid h e =
      let something : eqb len 0 ≡ false = ground (arith, h) in
      let (ranges, e1, e2) =
        bind_ok (piece_to_paths components (some info) index) _ segments (rw something at e) in
      let (reads, full) = piece_to_paths-Reads ranges laid e1 in
      segment_loop-reads read ranges offset len segments full e2
      ∙ ap (λ l. take len (drop offset l)) reads
