-- ===== src/Pieces/Files/Success.antt =====
-- pieces/piece_manager.rs: which pieces, and which ranges of a piece, are found.
use tortillas.Prelude.{ℕ, ◌+◌, ◌≡◌, List, [], ◌∷◌}
use tortillas.Prelude.Outcome.{ok}
use tortillas.Pieces.Files.{Segment, PathBuf, Component, InfoFile, FileRange, file_path}

module _ (components : Segment → List Component) (name : Segment) where
  -- A file whose path is safe.
  abbrev pub HasPath : InfoFile → Type 0
  HasPath f = (path : PathBuf) × (file_path components name f.path ≡ ok path)

abbrev range_total : List FileRange → ℕ
range_total [] = 0
range_total ((path, off, len) ∷ ranges) = len + range_total ranges
