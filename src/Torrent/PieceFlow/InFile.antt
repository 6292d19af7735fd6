-- ===== src/Torrent/PieceFlow/InFile.antt =====
-- The in-file storage strategy: a block goes to its place in the output files, and a piece is validated
-- by hashing what is read back from there. SHA-1 is a parameter.
use tortillas.Prelude.{
  ℕ, ◌≡◌, ◌≢◌, ◌<◌, arith, length, get_elem?-lt, ◌⊎◌, refl, Bool, true, false, Option, none, some,
  inl, inr, List, set, get_elem?, list_eqb, list_eqb_iff, nat_eq, PartialEq,
}
use tortillas.Prelude.Outcome.{Outcome, ok, err, panicked}
use tortillas.Pieces.Files.{Segment, PathBuf, Component}
use tortillas.Pieces.Storage.{Files, StorageError, FilePieceManager, write_block, read_piece}
use tortillas.Pieces.Storage.Panics.{write_block-ne-panicked, read_piece-ne-panicked}
use tortillas.Torrent.PieceFlow.{
  InfoDict, Command, TorrentActor, PieceStorage, handle_incoming_piece,
}
use tortillas.Torrent.PieceFlow.Filling.{IsFlow}
use tortillas.Torrent.PieceFlow.Completing.{IsReturning, IsVerified}
use tortillas.Torrent.PieceFlow.Handling.{handle_incoming_piece-Steps}

module _ (works : PathBuf → Bool) (components : Segment → List Component) (sha1 : List ℕ → List ℕ)
    (pieces : List (List ℕ)) (manager : FilePieceManager) where
  -- `write_block_to_storage`: an error is a refusal, a panic stays one.
  abbrev pub written : Outcome StorageError (Unit {0}) × Files → Option (Bool × Files)
  written (ok u, files) = some (true, files)
  written (err e, files) = some (false, files)
  written (panicked, files) = none

  -- `validate_piece_bytes` of torrent/util.rs: whether it succeeds.
  unfoldable pub validate_piece_bytes : List ℕ → List ℕ → Bool
  validate_piece_bytes bytes hash = list_eqb (sha1 bytes) hash

  -- The in-file branch of `validate_and_commit_piece`, on what was read and `pieces[index]`.
  abbrev pub validated :
      Outcome StorageError (List ℕ) → Option (List ℕ) → Files → Option (Bool × Files)
  validated (ok bytes) (some hash) files = some (validate_piece_bytes bytes hash, files)
  validated (ok bytes) none files = none
  validated (err e) hash files = some (false, files)
  validated panicked hash files = none

  unfoldable pub in_file : PieceStorage Files
  unfolding validate_piece_bytes
  in_file = record {
    write_block = λ index off block files.
        written (write_block works components manager index off block files);
    validate_and_commit = λ index files.
        validated (read_piece works components manager index files) (get_elem? pieces index) files;
  }

  -- The piece that is read from the files has the hash of the info dictionary.
  abbrev pub IsHashed : ℕ → Files → Type 0
  IsHashed index files =
      (bytes hash : List ℕ) × (read_piece works components manager index files ≡ ok bytes)
      × (get_elem? pieces index ≡ some hash)
      × (sha1 bytes ≡ hash)

  validated-IsHashed :
      (bytes : Outcome StorageError (List ℕ)) (hash : Option (List ℕ)) (files g : Files)
      → validated bytes hash files ≡ some (true, g)
      → (b h : List ℕ) × (bytes ≡ ok b) × (hash ≡ some h) × (sha1 b ≡ h)
  unfolding validate_piece_bytes
  validated-IsHashed (ok bytes) (some hash) files g e =
      let same : list_eqb (sha1 bytes) hash ≡ true = cc in
      (bytes, hash, refl, refl, (list_eqb_iff (sha1 bytes) hash).0 same)
  validated-IsHashed (ok bytes) none files g e = cc
  validated-IsHashed (err x) hash files g e = cc
  validated-IsHashed panicked hash files g e = cc

  written-left :
      (result : Outcome StorageError (Unit {0}) × Files) (g : Files)
      → written result ≡ some (true, g)
      → result.1 ≡ g
  written-left (ok u, files) g e = cc
  written-left (err x, files) g e = cc
  written-left (panicked, files) g e = cc

  written-returns :
      (result : Outcome StorageError (Unit {0}) × Files)
      → result.0 ≢ panicked
      → (x : Bool × Files) × (written result ≡ some x)
  written-returns (ok u, files) h = (_, refl)
  written-returns (err x, files) h = (_, refl)
  written-returns (panicked, files) h = absurd (h refl)

  validated-returns :
      (bytes : Outcome StorageError (List ℕ)) (hash : List ℕ) (files : Files)
      → bytes ≢ panicked
      → (x : Bool × Files) × (validated bytes (some hash) files ≡ some x)
  validated-returns (ok bytes) hash files h = (_, refl)
  validated-returns (err e) hash files h = (_, refl)
  validated-returns panicked hash files h = absurd (h refl)

  -- No write or read of files panics, and a piece in range has a hash.
  in_file-IsReturning : (index : ℕ) → index < length pieces → IsReturning in_file index
  unfolding in_file
  in_file-IsReturning index inside =
      let (hash, there) = get_elem?-lt pieces index inside in
      record {
        writes = λ off block files.
            written-returns (write_block works components manager index off block files)
              (write_block-ne-panicked components works manager index off block files);
        validates = λ files. rw there (
            validated-returns (read_piece works components manager index files) hash files
              (read_piece-ne-panicked components works manager index files));
      }

  -- With in-file storage, and as many hashes as the info dictionary has pieces: a block from a peer does
  -- not panic, keeps the torrent in order, and changes the bitfield at most at its piece, which it sets
  -- only where the output files, as the block's write left them, hold the piece with the hash of the info
  -- dictionary. In order means that request counts are right, the next piece is the first incomplete one,
  -- the bitfield is the scheduler's, and pieces have a length above 0 and are as many as its bits.
  pub handle_incoming_piece-IsHashed :
      {P : Type 0} ⦃e : PartialEq P⦄ (accepts : P → Command → Bool) (alive : P → Bool) (now : ℕ)
      (p : P) (index off : ℕ) (block : List ℕ) (t : TorrentActor P Files)
      → ((info : InfoDict) → t.info_dict ≡ some info → info.piece_count ≡ length pieces)
      → IsFlow t
      → (after : TorrentActor P Files) × (handle_incoming_piece in_file accepts alive now p index
            off block t
          ≡ some after)
        × IsFlow after
        × ((after.bitfield ≡ t.bitfield)
            ⊎ (IsHashed index (write_block works components manager index off block t.storage).1
                × (after.bitfield ≡ set t.bitfield index true)))
  unfolding in_file
  handle_incoming_piece-IsHashed accepts alive now p index off block t sized f =
      let s =
        handle_incoming_piece-Steps in_file accepts alive now p index off block t
          (λ info known inside. in_file-IsReturning index (omega (arith, inside, sized info known)))
          f in
      (
        s.after,
        s.returns,
        s.flow,
        elim s.bits [ inl same ↦ inl same | inr (valid, new) ↦ inr (verified valid, new) ],
      )
    where
      verified :
          IsVerified in_file index off block t.storage
          → IsHashed index (write_block works components manager index off block t.storage).1
      verified (g, wrote, (g', valid)) =
          rw (written-left (write_block works components manager index off block t.storage) g wrote)
            (validated-IsHashed (read_piece works components manager index g)
              (get_elem? pieces index) g g' valid)
