-- ===== src/Tests/Flow.antt =====
-- torrent/piece_flow.rs and torrent/snapshot.rs at concrete inputs.
use tortillas.Prelude.{
  ℕ, ◌+◌, ◌-◌, ◌≡◌, ◌<◌, ◌⊎◌, ◌↔◌, refl, arith, min, Bool, true, false, none, some, List, [], ◌∷◌,
  length, set, nat_eq,
}
use tortillas.Prelude.Outcome.{ok}
use tortillas.Prelude.Map.{total, lookup}
use tortillas.Pieces.Files.{Segment, PathBuf, Component, normal, single}
use tortillas.Pieces.Storage.{Files, FilePieceManager, write_block}
use tortillas.Pieces.Scheduler.{PieceScheduler, new, block_size, in_flight_for_peer}
use tortillas.Pieces.Scheduler.Counts.{IsCounted}
use tortillas.Pieces.Scheduler.Progress.{new-IsFront}
use tortillas.Torrent.State.{downloading, paused}
use tortillas.Torrent.PieceFlow.{
  InfoDict, TorrentActor, PieceStorage, is_refused, concrete_piece_len, handle_incoming_piece,
}
use tortillas.Torrent.PieceFlow.Guards.{is_refused_iff}
use tortillas.Torrent.PieceFlow.Filling.{IsFlow}
use tortillas.Torrent.PieceFlow.Completing.{Steps, IsVerified}
use tortillas.Torrent.PieceFlow.Handling.{handle_incoming_piece-Steps}
use tortillas.Torrent.PieceFlow.InFile.{in_file, IsHashed, handle_incoming_piece-IsHashed}
use tortillas.Torrent.Snapshot.{TorrentSnapshot, torrent, piece_length, validate}
use tortillas.Torrent.Snapshot.Valid.{IsValid, validate_iff}
use tortillas.Torrent.Snapshot.Lengths.{IsCovered, concrete_piece_len-piece_length}

abbrev three : List ℕ
three = 1 ∷ 2 ∷ 3 ∷ []

is_refused_iff_example :
    (is_refused 3 0 three ≡ false) ↔ ((0 < 3) × (length three ≡ min (3 - 0) block_size))
is_refused_iff_example = is_refused_iff 3 0 three (omega arith)

-- Two pieces, of four bytes and of two.
abbrev info : InfoDict
info = record { piece_length = 4; total_length = 6; piece_count = 2 }

info-IsCovered : IsCovered info
info-IsCovered = record {
  some_length = omega arith;
  not_less = omega arith;
  not_more = omega arith;
  fits = omega arith;
}

concrete_piece_len-piece_length_example :
    (n : ℕ) × (concrete_piece_len info 1 ≡ some n) × (piece_length info 1 ≡ ok n) × (0 < n)
concrete_piece_len-piece_length_example =
    concrete_piece_len-piece_length info 1 info-IsCovered (omega arith)

abbrev scheduler : PieceScheduler ℕ
scheduler = new 2

scheduler-IsCounted : IsCounted scheduler
unfolding new in_flight_for_peer total lookup
scheduler-IsCounted = record { unique = tt; counts = λ p. refl }

-- A torrent that has nothing yet, with the peers 7 and 8.
abbrev downloader : {F : Type 0} → F → TorrentActor ℕ F
downloader storage = record {
  info_dict = some info;
  state = downloading;
  sufficient_peers = 1;
  max_in_flight_per_peer = 4;
  peers = 7 ∷ 8 ∷ [];
  piece_scheduler = scheduler;
  bitfield = false ∷ false ∷ [];
  storage = storage;
  sent = [];
}

downloader-IsFlow : {F : Type 0} (storage : F) → IsFlow (downloader storage)
unfolding new
downloader-IsFlow storage = record {
  counted = scheduler-IsCounted;
  front = new-IsFront ℕ 2;
  synced = refl;
  sized = λ i h. (ground (arith, h), ground (arith, h));
}

-- A storage that counts its blocks, and takes every piece for valid.
abbrev counter : PieceStorage ℕ
counter = record {
  write_block = λ index off block n. some (true, n + 1);
  validate_and_commit = λ index n. some (true, n);
}

handle_incoming_piece-Steps_example :
    Steps
      (IsVerified counter 1 0 (5 ∷ 6 ∷ []) 0)
      1
      (downloader 0)
      (handle_incoming_piece counter (λ p c. true) (λ p. true) 0 7 1 0 (5 ∷ 6 ∷ []) (downloader 0))
handle_incoming_piece-Steps_example =
    handle_incoming_piece-Steps counter (λ p c. true) (λ p. true) 0 7 1 0 (5 ∷ 6 ∷ [])
      (downloader 0)
      (λ info known inside. record {
        writes = λ off block n. (_, refl);
        validates = λ n. (_, refl);
      })
      (downloader-IsFlow 0)

abbrev components : Segment → List Component
components segment = normal segment ∷ []

-- One file of six bytes.
abbrev manager : FilePieceManager
manager = record {
  path = some ((b'o' ∷ []) ∷ []);
  info = some (record { name = b't' ∷ []; piece_length = 4; file = single 6 });
}

abbrev works : PathBuf → Bool
works path = true

abbrev no_files : Files
no_files = []

-- A hash that keeps the bytes.
abbrev same_bytes : List ℕ → List ℕ
same_bytes bytes = bytes

abbrev pieces : List (List ℕ)
pieces = (1 ∷ 2 ∷ 3 ∷ 4 ∷ []) ∷ (5 ∷ 6 ∷ []) ∷ []

handle_incoming_piece-IsHashed_example :
    (after : TorrentActor ℕ Files) × (handle_incoming_piece
        (in_file works components same_bytes pieces manager)
        (λ p c. true)
        (λ p. true)
        0
        7
        1
        0
        (5 ∷ 6 ∷ [])
        (downloader no_files)
      ≡ some after)
    × IsFlow after
    × ((after.bitfield ≡ false ∷ false ∷ [])
        ⊎ (IsHashed works components same_bytes pieces manager 1
              (write_block works components manager 1 0 (5 ∷ 6 ∷ []) no_files).1
            × (after.bitfield ≡ set (false ∷ false ∷ []) 1 true)))
handle_incoming_piece-IsHashed_example =
    handle_incoming_piece-IsHashed works components same_bytes pieces manager (λ p c. true)
      (λ p. true) 0 7 1 0 (5 ∷ 6 ∷ []) (downloader no_files) (λ info known. ground (arith, known))
      (downloader-IsFlow no_files)

-- The first piece is there, and a part of the second.
abbrev saved : TorrentSnapshot InfoDict
saved = record {
  version = 2;
  info_hash = 9 ∷ [];
  state = paused;
  auto_start = true;
  sufficient_peers = 1;
  output_path = some "out";
  metainfo = torrent info;
  resolved_magnet_info = none;
  bitfield = true ∷ false ∷ [];
  block_map = record { piece_index = 1; blocks = false ∷ [] } ∷ [];
}

validate_iff_example :
    (validate (λ i. i) (λ i. some (9 ∷ [])) (λ uri. none) saved ≡ ok tt)
    ↔ IsValid (λ i. i) (λ i. some (9 ∷ [])) (λ uri. none) saved
validate_iff_example = validate_iff (λ i. i) (λ i. some (9 ∷ [])) (λ uri. none) saved
