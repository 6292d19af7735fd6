-- ===== src/Pieces/Storage.antt =====
-- pieces/piece_manager.rs: `FilePieceManager`, which writes pieces to the torrent's files and reads
-- them back. The files are a map of what each path holds; `works` says at which paths the system lets
-- the program create and open a file. An open file is written and read whole.
pub mod Ranges
pub mod RoundTrip
pub mod Pieces
pub mod Panics
use tortillas.Prelude.{
  ℕ, ◌+◌, ◌-◌, Bool, true, false, Option, none, some, List, [], ◌∷◌, ◌++◌, length, take, drop,
  replicate, leb, if◌then◌else◌, list_eq, nat_eq,
}
use tortillas.Prelude.Map.{Map, lookup, insert}
use tortillas.Prelude.Outcome.{Outcome, ok, err, panicked, ◌>>=◌, map_err}
use tortillas.Pieces.Files.{
  Segment, PathBuf, Component, Info, PieceError, FileRange, piece_to_paths, piece_range_segments,
}

abbrev pub Files : Type 0
Files = Map PathBuf (List ℕ)

pub data StorageError : Type 0 where
  path_not_set path_must_be_set info_not_set unhashable_info : StorageError
  piece_error : PieceError → StorageError
  io : PathBuf → StorageError

pub record FilePieceManager : Type 0 where
  pub path : Option PathBuf
  pub info : Option Info

unfoldable pub set_path : FilePieceManager → PathBuf → FilePieceManager
set_path m path = record m { path = some path }

-- `pre_start`, where `hashes` says whether the info has a hash.
unfoldable pub pre_start :
    (Info → Bool) → FilePieceManager → Info → Outcome StorageError (Unit {0}) × FilePieceManager
pre_start hashes m info_dict = at_base m.path
  where
    at_base : Option PathBuf → Outcome StorageError (Unit {0}) × FilePieceManager
    at_base none = (err path_must_be_set, m)
    at_base (some base) =
        if hashes info_dict
        then (ok tt, record m { info = some info_dict })
        else (err unhashable_info, m)

-- `seek` and `write_all`: a gap before the offset holds zeros.
unfoldable pub write_at : List ℕ → ℕ → List ℕ → List ℕ
write_at contents offset bytes =
    take offset (contents ++ replicate (offset - length contents) 0)
    ++ (bytes ++ drop (offset + length bytes) contents)

-- `seek` and `read_exact`.
unfoldable pub read_at : List ℕ → ℕ → ℕ → Option (List ℕ)
read_at contents offset len =
    if leb (offset + len) (length contents) then some (take len (drop offset contents)) else none

abbrev pub contents_or_new : Option (List ℕ) → List ℕ
contents_or_new none = []
contents_or_new (some contents) = contents

abbrev pub read_opened : Option (List ℕ) → ℕ → ℕ → Option (List ℕ)
read_opened none offset len = none
read_opened (some contents) offset len = read_at contents offset len

abbrev pub or_io : Option (List ℕ) → PathBuf → Outcome StorageError (List ℕ)
or_io none path = err (io path)
or_io (some bytes) path = ok bytes

-- `iter().map(|(_, _, len)| len).sum()`.
abbrev pub sum_lengths : List FileRange → ℕ
sum_lengths [] = 0
sum_lengths ((path, offset, len) ∷ ranges) = len + sum_lengths ranges

module _ (works : PathBuf → Bool) where
  -- The loop of `write_piece_range`, from `data_offset` on; what is written stays when it fails.
  unfoldable pub write_loop :
      PathBuf → List FileRange → List ℕ → ℕ → Files → Outcome StorageError (Unit {0}) × Files
  write_loop base [] bytes data_offset files = (ok tt, files)
  write_loop base ((path, file_offset, len) ∷ segments) bytes data_offset files =
      let full_path = base ++ path in
      let chunk = take len (drop data_offset bytes) in
      let written =
        insert full_path (write_at (contents_or_new (lookup full_path files)) file_offset chunk)
          files in
      let rest = write_loop base segments bytes (data_offset + len) written in
      if works full_path
      then (if leb (data_offset + len) (length bytes) then rest else (panicked, files))
      else (err (io full_path), files)

  -- The loop of `read_piece_range`, with the data that is read already.
  unfoldable pub read_loop :
      PathBuf → List FileRange → Files → List ℕ → Outcome StorageError (List ℕ)
  read_loop base [] files bytes = ok bytes
  read_loop base ((path, file_offset, len) ∷ segments) files bytes =
      let full_path = base ++ path in
      let opened = if works full_path then lookup full_path files else none in
      or_io (read_opened opened file_offset len) full_path
      >>= (λ chunk. read_loop base segments files (bytes ++ chunk))

  module _ (components : Segment → List Component) where
    abbrev pub write_segments :
        PathBuf
        → Outcome PieceError (List FileRange)
        → List ℕ
        → Files
        → Outcome StorageError (Unit {0}) × Files
    write_segments base (err e) bytes files = (err (piece_error e), files)
    write_segments base panicked bytes files = (panicked, files)
    write_segments base (ok segments) bytes files = write_loop base segments bytes 0 files

    unfoldable pub write_piece_range :
        FilePieceManager → ℕ → ℕ → List ℕ → Files → Outcome StorageError (Unit {0}) × Files
    write_piece_range m index offset bytes files = at_base m.path
      where
        at_base : Option PathBuf → Outcome StorageError (Unit {0}) × Files
        at_base none = (err path_not_set, files)
        at_base (some base) =
            write_segments base (piece_range_segments components m.info index offset (length bytes))
              bytes files

    unfoldable pub read_piece_range :
        FilePieceManager → ℕ → ℕ → ℕ → Files → Outcome StorageError (List ℕ)
    read_piece_range m index offset len files = at_base m.path
      where
        at_base : Option PathBuf → Outcome StorageError (List ℕ)
        at_base none = err path_not_set
        at_base (some base) =
            map_err piece_error (piece_range_segments components m.info index offset len)
            >>= (λ segments. read_loop base segments files [])

    unfoldable pub write_block :
        FilePieceManager → ℕ → ℕ → List ℕ → Files → Outcome StorageError (Unit {0}) × Files
    write_block m index offset block files = write_piece_range m index offset block files

    unfoldable pub read_piece : FilePieceManager → ℕ → Files → Outcome StorageError (List ℕ)
    read_piece m index files =
        map_err piece_error (piece_to_paths components m.info index)
        >>= (λ piece_bounds. read_piece_range m index 0 (sum_lengths piece_bounds) files)

    unfoldable pub read_piece_block :
        FilePieceManager → ℕ → ℕ → ℕ → Files → Outcome StorageError (List ℕ)
    read_piece_block m index offset len files = read_piece_range m index offset len files

    unfoldable pub recv :
        FilePieceManager → ℕ → List ℕ → Files → Outcome StorageError (Unit {0}) × Files
    recv m index bytes files = with_info m.info
      where
        with_info : Option Info → Outcome StorageError (Unit {0}) × Files
        with_info none = (err info_not_set, files)
        with_info (some info) = write_piece_range m index 0 bytes files
