-- ===== src/Tests/Files.antt =====
-- pieces/piece_manager.rs at a concrete torrent.
use tortillas.Prelude.{
  All, ℕ, ◌≡◌, refl, sym, ap, arith, List, [], ◌∷◌, list_eqb, list_eq, nat_eq, ◌==◌, Bool, true,
  false, some, if◌then◌else◌,
}
use tortillas.Prelude.Outcome.{ok, ok_inj}
use tortillas.Pieces.Files.{
  Segment, PathBuf, Component, normal, InfoFile, Info, multi, FileRange, piece_to_paths, file_path,
  push_all, push_torrent_path_segment, is_safe_segment, ranges_of_piece, ranges_between,
  file_ranges, file_loop, total_length,
}
use tortillas.Prelude.Map.{lookup}
use tortillas.Pieces.Storage.{Files, FilePieceManager, write_piece_range, read_piece_range}
use tortillas.Pieces.Storage.Pieces.{manager, write_piece_range-read_piece_range}
use tortillas.Pieces.Files.Pieces.{Reads}
use tortillas.Pieces.Files.Whole.{IsLaidOut, piece_data, piece_to_paths-Reads}

abbrev components : Segment → List Component
components segment = normal segment ∷ []

-- Two files of three and two bytes, in the directory "t".
abbrev torrent : Info
torrent = record {
  name = b't' ∷ [];
  piece_length = 4;
  file = multi (
      record { length = 3; path = (b'a' ∷ []) ∷ [] }
      ∷ record { length = 2; path = (b'b' ∷ []) ∷ [] }
      ∷ []);
}

abbrev contents : Segment → List ℕ
contents segment = if list_eqb segment (b'a' ∷ []) then 1 ∷ 2 ∷ 3 ∷ [] else 4 ∷ 5 ∷ []

abbrev read_path : PathBuf → List ℕ
read_path (directory ∷ file ∷ []) = contents file
read_path _ = []

abbrev content : InfoFile → List ℕ
content f = content_at f.path
  where
    content_at : List Segment → List ℕ
    content_at (file ∷ []) = contents file
    content_at _ = []

torrent-IsLaidOut : IsLaidOut components read_path content torrent 0
unfolding file_path push_all push_torrent_path_segment is_safe_segment
torrent-IsLaidOut = (
  omega arith,
  (
    (refl, λ path h. ap read_path (sym (ok_inj h))),
    ((refl, λ path h. ap read_path (sym (ok_inj h))), tt),
  ),
)

abbrev first_piece : List FileRange
first_piece = ((b't' ∷ []) ∷ (b'a' ∷ []) ∷ [], 0, 3) ∷ ((b't' ∷ []) ∷ (b'b' ∷ []) ∷ [], 0, 1) ∷ []

first_piece_found : piece_to_paths components (some torrent) 0 ≡ ok first_piece
unfolding piece_to_paths ranges_of_piece ranges_between file_ranges file_loop total_length file_path
    push_all push_torrent_path_segment is_safe_segment
first_piece_found = refl

piece_to_paths-Reads_example :
    Reads components read_path content
      (b't' ∷ [])
      first_piece
      (piece_data components read_path content torrent 0)
piece_to_paths-Reads_example =
    piece_to_paths-Reads components read_path content torrent 0 first_piece torrent-IsLaidOut
      first_piece_found

-- Files that exist at other lengths, and one beside them.
abbrev disk : Files
disk =
    ((b'd' ∷ []) ∷ (b't' ∷ []) ∷ (b'a' ∷ []) ∷ [], 9 ∷ [])
    ∷ ((b'd' ∷ []) ∷ (b'x' ∷ []) ∷ [], 8 ∷ [])
    ∷ []

abbrev opens : PathBuf → Bool
opens path = true

abbrev download : FilePieceManager
download = manager ((b'd' ∷ []) ∷ []) torrent

write_piece_range-read_piece_range_example :
    (after : Files) × (write_piece_range opens components download 0 2 (6 ∷ 7 ∷ []) disk
      ≡ (ok tt, after))
    × (read_piece_range opens components download 0 2 2 after ≡ ok (6 ∷ 7 ∷ []))
    × ((path : PathBuf)
        → All (λ r. (path == r.0) ≡ false) first_piece
        → lookup ((b'd' ∷ []) ∷ path) after ≡ lookup ((b'd' ∷ []) ∷ path) disk)
write_piece_range-read_piece_range_example =
    write_piece_range-read_piece_range components opens download ((b'd' ∷ []) ∷ []) 0 2 (6 ∷ 7 ∷ [])
      disk first_piece refl first_piece_found ((refl, tt), (tt, tt)) (refl, (refl, tt))
      (omega arith)
