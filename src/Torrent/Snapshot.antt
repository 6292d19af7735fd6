-- ===== src/Torrent/Snapshot.antt =====
-- torrent/snapshot.rs: the saved state of a torrent and `validate`. An info dictionary is of any type,
-- with its part that matters here and its hash, where it has one, as parameters; so is the hash in a
-- magnet URI. A `usize` has 64 bits, so that each saved index is one.
pub mod Valid
pub mod Lengths
use Prim.Native.String.{String}
use tortillas.Prelude.{
  ℕ, ◌+◌, ◌-◌, ◌*◌, Bool, true, false, not, ◌&&◌, ◌||◌, Option, none, some, List, [], ◌∷◌, length,
  get_elem?, ltb, leb, eqb, if◌then◌else◌, list_eqb, nat_eq,
}
use tortillas.Prelude.Outcome.{Outcome, ok, err, panicked, ensure, unwrap, ◌>>=◌, ◌>>◌}
use tortillas.Pieces.Scheduler.{block_size, div_ceil, saturating_mul}
use tortillas.Torrent.State.{TorrentState}
use tortillas.Torrent.PieceFlow.{InfoDict, is_some}

abbrev pub torrent_snapshot_version : ℕ
torrent_snapshot_version = 2

pub record PieceBlockSnapshot : Type 0 where
  pub piece_index : ℕ
  pub blocks : List Bool

pub data MetaInfo (I : Type 0) : Type 0 where
  torrent : I → MetaInfo I
  magnet_uri : String → MetaInfo I

pub record TorrentSnapshot (I : Type 0) : Type 0 where
  pub version : ℕ
  pub info_hash : List ℕ
  pub state : TorrentState
  pub auto_start : Bool
  pub sufficient_peers : ℕ
  pub output_path : Option String
  pub metainfo : MetaInfo I
  pub resolved_magnet_info : Option I
  pub bitfield : List Bool
  pub block_map : List PieceBlockSnapshot

-- The function `piece_length`.
unfoldable pub piece_length : InfoDict → ℕ → Outcome String ℕ
piece_length info index =
    let last_piece = info.piece_count - 1 in
    if eqb info.piece_length 0
    then err "piece length must be greater than zero"
    else if eqb index last_piece
    then ok (info.total_length - saturating_mul info.piece_length last_piece)
    else ok info.piece_length

-- The set of the indices that were seen.
abbrev pub seen_before : ℕ → List ℕ → Bool
seen_before index [] = false
seen_before index (seen ∷ others) = eqb seen index || seen_before index others

unfoldable pub resolved_info : {I : Type 0} → TorrentSnapshot I → Option I
resolved_info {I} s = of s.metainfo
  where
    of : MetaInfo I → Option I
    of (torrent info) = some info
    of (magnet_uri uri) = s.resolved_magnet_info

abbrev pub is_torrent : {I : Type 0} → MetaInfo I → Bool
is_torrent (torrent info) = true
is_torrent (magnet_uri uri) = false

abbrev pub same_hash : Option (List ℕ) → List ℕ → Bool
same_hash none expected = false
same_hash (some found) expected = list_eqb found expected

-- `map_or(0, Info::piece_count)`.
abbrev pub piece_count_of : {I : Type 0} → (I → InfoDict) → Option I → ℕ
piece_count_of dict none = 0
piece_count_of dict (some info) = (dict info).piece_count

module _ {I : Type 0} (dict : I → InfoDict) (hash : I → Option (List ℕ))
    (magnet_hash : String → Option (List ℕ)) where
  -- `metainfo.info_hash()`.
  unfoldable pub metainfo_hash : MetaInfo I → Option (List ℕ)
  metainfo_hash (torrent info) = hash info
  metainfo_hash (magnet_uri uri) = magnet_hash uri

  -- The checks of the restored info dictionary: it has a hash, and that is the torrent's.
  unfoldable pub validate_info : Option I → List ℕ → Outcome String (Unit {0})
  validate_info none info_hash = ok tt
  validate_info (some info) info_hash = do
    ensure (is_some (hash info)) "failed to hash info dictionary"
    ensure (same_hash (hash info) info_hash) "restored info dictionary does not match the info hash"

  unfoldable pub validate_blocks : Option I → PieceBlockSnapshot → Outcome String (Unit {0})
  validate_blocks none entry = err "partial block state requires resolved metadata"
  validate_blocks (some info) entry = do
    len ← piece_length (dict info) entry.piece_index
    ensure (eqb (length entry.blocks) (div_ceil len block_size)) "partial piece has other blocks"

  -- The loop over the partial pieces, with the indices seen so far.
  unfoldable pub validate_entries :
      Option I → List Bool → List ℕ → List PieceBlockSnapshot → Outcome String (Unit {0})
  unfolding validate_blocks
  validate_entries info bitfield seen [] = ok tt
  validate_entries info bitfield seen (entry ∷ entries) = do
    let index = entry.piece_index
    ensure (not (seen_before index seen)) "partial piece index appears more than once"
    ensure (ltb index (piece_count_of dict info))
        "partial piece index is outside the metadata piece range"
    complete ← unwrap (get_elem? bitfield index)
    ensure (not complete) "completed piece also contains partial block state"
    validate_blocks info entry
    validate_entries info bitfield (index ∷ seen) entries

  unfoldable pub validate : TorrentSnapshot I → Outcome String (Unit {0})
  unfolding validate_info validate_entries resolved_info metainfo_hash
  validate s = do
    let info = resolved_info s
    ensure (eqb s.version torrent_snapshot_version) "unsupported version"
    ensure (is_some (metainfo_hash s.metainfo)) "failed to hash metainfo"
    ensure (same_hash (metainfo_hash s.metainfo) s.info_hash) "info hash does not match metainfo"
    ensure (not (is_torrent s.metainfo && is_some s.resolved_magnet_info))
        "torrent metainfo must not duplicate its info dictionary"
    ensure (is_some s.output_path) "snapshot does not contain an output path"
    validate_info s.resolved_magnet_info s.info_hash
    ensure (eqb (length s.bitfield) (piece_count_of dict info))
        "bitfield has other pieces than metadata"
    validate_entries info s.bitfield [] s.block_map
