-- ===== src/Pieces/Files.antt =====
-- pieces/piece_manager.rs: where the bytes of a piece lie in the torrent's files. A `usize` has 64
-- bits, so the conversions from `u64` do not fail. A string is its list of characters, by number,
-- and a relative path the list of the segments pushed onto it.
pub mod Segments
pub mod Pieces
pub mod Whole
pub mod Success
use tortillas.Prelude.{
  ℕ, zero, suc, ◌+◌, ◌-◌, ◌*◌, ◌%◌, ◌^◌, Bool, true, false, not, ◌&&◌, ◌||◌, Option, none, some,
  List, [], ◌∷◌, ◌++◌, min, ltb, leb, eqb, any, list_eqb, nat_eq, if◌then◌else◌,
}
use tortillas.Prelude.Outcome.{Outcome, ok, err, panicked, ensure, ◌>>=◌, ◌>>◌}

abbrev pub Segment : Type 0
Segment = List ℕ

abbrev pub PathBuf : Type 0
PathBuf = List Segment

-- `std::path::Component`, as far as the code looks at it.
pub data Component : Type 0 where
  normal : Segment → Component
  special : Component

pub record InfoFile : Type 0 where
  pub length : ℕ
  pub path : List Segment

pub data InfoKeys : Type 0 where
  single : ℕ → InfoKeys
  multi : List InfoFile → InfoKeys

pub record Info : Type 0 where
  pub name : Segment
  pub piece_length : ℕ
  pub file : InfoKeys

pub data PieceError : Type 0 where
  info_not_set : PieceError
  overflows : ℕ → PieceError
  exceeds_lengths : ℕ → PieceError
  range_exceeds_lengths : PieceError
  unsafe_output_path : Segment → PieceError

abbrev pub Fallible : Type 0 → Type 0
Fallible A = Outcome PieceError A

-- `saturating_add` on `usize`.
abbrev pub saturating_add : ℕ → ℕ → ℕ
saturating_add a b = min (a + b) (2 ^ 64 - 1)

abbrev pub fold_lengths : ℕ → List InfoFile → ℕ
fold_lengths acc [] = acc
fold_lengths acc (f ∷ files) = fold_lengths (saturating_add acc f.length) files

unfoldable pub total_length : InfoKeys → ℕ
total_length (single n) = n
total_length (multi files) = fold_lengths 0 files

-- `matches!(character, '/' | '\\' | ':')`.
abbrev pub is_separator : ℕ → Bool
is_separator c = eqb c 47 || (eqb c 92 || eqb c 58)

abbrev pub first_component : List Component → Segment → Bool
first_component (normal name ∷ []) segment = list_eqb name segment
first_component _ segment = false

abbrev pub is_empty : Segment → Bool
is_empty [] = true
is_empty (c ∷ cs) = false

-- A piece of a file: its path, where the piece starts in it and how long it is there.
abbrev pub FileRange : Type 0
FileRange = PathBuf × ℕ × ℕ

-- `a.checked_mul(b)` on `usize`.
abbrev pub checked_mul : ℕ → ℕ → ℕ → Fallible ℕ
checked_mul index a b = if ltb (a * b) (2 ^ 64) then ok (a * b) else err (overflows index)

-- `checked_add` before it: the sum must fit too.
abbrev pub checked_end : ℕ → ℕ → Fallible ℕ
checked_end index piece_len =
    if ltb (index + 1) (2 ^ 64)
    then checked_mul index (index + 1) piece_len
    else err (overflows index)

-- The loop of `piece_range_segments`, with `bail!` after the last range.
unfoldable pub segment_loop : List FileRange → ℕ → ℕ → Fallible (List FileRange)
segment_loop [] skipped remaining = err range_exceeds_lengths
segment_loop ((path, file_offset, len) ∷ ranges) skipped remaining =
    let segment_len = min remaining (len - skipped) in
    let passed = segment_loop ranges (skipped - len) remaining in
    let further = segment_loop ranges 0 (remaining - segment_len) in
    if leb len skipped
    then passed
    else if eqb (remaining - segment_len) 0
    then ok ((path, file_offset + skipped, segment_len) ∷ [])
    else further >>= λ segments. ok ((path, file_offset + skipped, segment_len) ∷ segments)

-- `components` is the standard library's `Path::components`.
module _ (components : Segment → List Component) where
  unfoldable pub is_safe_segment : Segment → Bool
  is_safe_segment segment =
      first_component (components segment) segment
      && (not (is_empty segment) && not (any is_separator segment))

  unfoldable pub push_torrent_path_segment : PathBuf → Segment → Fallible PathBuf
  push_torrent_path_segment path segment =
      if is_safe_segment segment
      then ok (path ++ segment ∷ [])
      else err (unsafe_output_path segment)

  unfoldable pub push_all : PathBuf → List Segment → Fallible PathBuf
  push_all path [] = ok path
  push_all path (s ∷ segments) = push_torrent_path_segment path s >>= λ path. push_all path segments

  -- Whether the file's path already starts with the torrent's name.
  abbrev pub starts_with_name : List Segment → Segment → Bool
  starts_with_name [] name = false
  starts_with_name (s ∷ segments) name = list_eqb s name

  unfoldable pub file_path : Segment → List Segment → Fallible PathBuf
  file_path name segments = (do
    base ← if starts_with_name segments name then ok [] else push_torrent_path_segment [] name
    push_all base segments)

  -- The loop over `files`: the segments, and what is left of the piece. `acc + file_len` wraps.
  unfoldable pub file_loop : Segment → ℕ → List InfoFile → ℕ → ℕ → Fallible (List FileRange × ℕ)
  file_loop name piece_start [] remaining acc = ok ([], remaining)
  file_loop name piece_start (f ∷ files) remaining acc =
      let next = (acc + f.length) % 2 ^ 64 in
      let offset_in_file = piece_start - acc in
      let take_len = min remaining (f.length - offset_in_file) in
      let skipped = file_loop name piece_start files remaining next in
      let further = file_loop name piece_start files (remaining - take_len) next in
      if leb next piece_start
      then skipped
      else file_path name f.path >>= λ path.
          if eqb (remaining - take_len) 0
          then ok ((path, offset_in_file, take_len) ∷ [], 0)
          else further >>= λ r. ok ((path, offset_in_file, take_len) ∷ r.0, r.1)

  unfoldable pub file_ranges : Info → ℕ → ℕ → InfoKeys → Fallible (List FileRange × ℕ)
  file_ranges info piece_start remaining (single file_len) =
      if ltb piece_start file_len
      then (do
        path ← push_torrent_path_segment [] info.name
        let take_len = min remaining (file_len - piece_start)
        ok ((path, piece_start, take_len) ∷ [], remaining - take_len))
      else ok ([], remaining)
  file_ranges info piece_start remaining (multi files) =
      file_loop info.name piece_start files remaining 0

  -- The body of `piece_to_paths` once the bounds are known.
  unfoldable pub ranges_between : Info → ℕ → ℕ → ℕ → Fallible (List FileRange)
  ranges_between info index piece_start piece_end =
      ensure (ltb piece_start (total_length info.file)) (exceeds_lengths index)
      >> (file_ranges info piece_start (piece_end - piece_start) info.file >>= λ r.
          ensure (eqb r.1 0) (exceeds_lengths index) >> ok r.0)

  unfoldable pub ranges_of_piece : Info → ℕ → Fallible (List FileRange)
  ranges_of_piece info index = checked_mul index index info.piece_length >>= λ piece_start.
      checked_end index info.piece_length >>= λ end.
      ranges_between info index piece_start (min end (total_length info.file))

  unfoldable pub piece_to_paths : Option Info → ℕ → Fallible (List FileRange)
  piece_to_paths none index = err info_not_set
  piece_to_paths (some info) index = ranges_of_piece info index

  unfoldable pub piece_range_segments : Option Info → ℕ → ℕ → ℕ → Fallible (List FileRange)
  piece_range_segments info index offset len =
      if eqb len 0
      then ok []
      else piece_to_paths info index >>= λ ranges. segment_loop ranges offset len
