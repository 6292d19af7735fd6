-- ===== src/Torrent/Snapshot/Valid.antt =====
-- What `validate` accepts.
use Prim.Native.String.{String}
use tortillas.Prelude.{
  ℕ, ◌≡◌, ◌↔◌, ◌<◌, refl, arith, Bool, true, false, not, ◌&&◌, Option, none, some, List, [], ◌∷◌,
  length, get_elem?, ltb, eqb, list_eqb_iff, nat_eq,
}
use tortillas.Prelude.Outcome.{Outcome, ok, ensure, unwrap, bind_ok, ◌>>◌}
use tortillas.Pieces.Scheduler.{block_size, div_ceil}
use tortillas.Torrent.PieceFlow.{InfoDict, is_some}
use tortillas.Torrent.Snapshot.{
  torrent_snapshot_version, PieceBlockSnapshot, TorrentSnapshot, piece_length, seen_before,
  resolved_info, metainfo_hash, is_torrent, same_hash, piece_count_of, validate_info,
  validate_blocks, validate_entries, validate,
}

ensure_ok :
    {E : Type 0} {k : Outcome E (Unit {0})} (b : Bool) (e : E)
    → (ensure b e >> k) ≡ ok tt
    → (b ≡ true) × (k ≡ ok tt)
ensure_ok true e h = (refl, h)
ensure_ok false e h = cc

ensure_last : {E : Type 0} (b : Bool) (e : E) → ensure b e ≡ ok tt → b ≡ true
ensure_last true e h = refl
ensure_last false e h = cc

ensure_then :
    {E : Type 0} {k : Outcome E (Unit {0})} (b : Bool) (e : E)
    → b ≡ true
    → k ≡ ok tt
    → (ensure b e >> k) ≡ ok tt
ensure_then true e b h = h
ensure_then false e b h = cc

module _ {I : Type 0} (dict : I → InfoDict) (hash : I → Option (List ℕ))
    (magnet_hash : String → Option (List ℕ)) where
  -- A partial piece of known metadata that is not complete, with a flag for each of its blocks.
  pub record IsPartial (info : Option I) (bitfield : List Bool) (entry : PieceBlockSnapshot)
      : Type 0 where
    pub metadata : I
    pub known : info ≡ some metadata
    pub inside : entry.piece_index < (dict metadata).piece_count
    pub incomplete : get_elem? bitfield entry.piece_index ≡ some false
    pub len : ℕ
    pub has_length : piece_length (dict metadata) entry.piece_index ≡ ok len
    pub flags : length entry.blocks ≡ div_ceil len block_size

  -- Partial pieces, none of them twice, nor among those seen.
  abbrev pub IsBlockMap : Option I → List Bool → List ℕ → List PieceBlockSnapshot → Type 0
  IsBlockMap info bitfield seen [] = Unit
  IsBlockMap info bitfield seen (entry ∷ entries) =
      (seen_before entry.piece_index seen ≡ false)
      × IsPartial info bitfield entry
      × IsBlockMap info bitfield (entry.piece_index ∷ seen) entries

  -- The hash of a restored info dictionary is the torrent's.
  abbrev pub IsRestored : Option I → List ℕ → Type 0
  IsRestored none info_hash = Unit
  IsRestored (some info) info_hash = hash info ≡ some info_hash

  pub record IsValid (s : TorrentSnapshot I) : Type 0 where
    pub current : s.version ≡ torrent_snapshot_version
    pub identified : metainfo_hash dict hash magnet_hash s.metainfo ≡ some s.info_hash
    pub not_doubled : (is_torrent s.metainfo && is_some s.resolved_magnet_info) ≡ false
    pub placed : is_some s.output_path ≡ true
    pub restored : IsRestored s.resolved_magnet_info s.info_hash
    pub sized : length s.bitfield ≡ piece_count_of dict (resolved_info s)
    pub partial : IsBlockMap (resolved_info s) s.bitfield [] s.block_map

  same_hash-some :
      (found : Option (List ℕ)) (expected : List ℕ)
      → same_hash found expected ≡ true
      → found ≡ some expected
  same_hash-some none expected h = cc
  same_hash-some (some found) expected h =
      let e : found ≡ expected = (list_eqb_iff found expected).0 h in rw e refl

  validate_info-IsRestored :
      (info : Option I) (info_hash : List ℕ)
      → validate_info dict hash magnet_hash info info_hash ≡ ok tt
      → IsRestored info info_hash
  unfolding validate_info
  validate_info-IsRestored none info_hash h = tt
  validate_info-IsRestored (some info) info_hash h =
      let (_, same) = ensure_ok (is_some (hash info)) _ h in
      same_hash-some (hash info) info_hash (ensure_last _ _ same)

  validate_blocks-IsPartial :
      (info : Option I) (bitfield : List Bool) (entry : PieceBlockSnapshot) (complete : Bool)
      → ltb entry.piece_index (piece_count_of dict info) ≡ true
      → unwrap {E = String} (get_elem? bitfield entry.piece_index) ≡ ok complete
      → not complete ≡ true
      → validate_blocks dict hash magnet_hash info entry ≡ ok tt
      → IsPartial info bitfield entry
  unfolding validate_blocks
  validate_blocks-IsPartial none bitfield entry complete inside found open_ h = cc
  validate_blocks-IsPartial (some info) bitfield entry complete inside found open_ h =
      let (len, has, h1) = bind_ok (piece_length (dict info) entry.piece_index) _ tt h in
      record {
        metadata = info;
        known = refl;
        inside = ground (arith, inside);
        incomplete = got (get_elem? bitfield entry.piece_index) complete found open_;
        len = len;
        has_length = has;
        flags = (let e = ensure_last _ _ h1 in ground (arith, e));
      }
    where
      got :
          (bit : Option Bool) (complete : Bool)
          → unwrap {E = String} bit ≡ ok complete
          → not complete ≡ true
          → bit ≡ some false
      got none complete found open_ = cc
      got (some true) complete found open_ = absurd (ground (arith, found, open_))
      got (some false) complete found open_ = refl

  validate_entries-IsBlockMap :
      (info : Option I) (bitfield : List Bool) (seen : List ℕ) (entries : List PieceBlockSnapshot)
      → validate_entries dict hash magnet_hash info bitfield seen entries ≡ ok tt
      → IsBlockMap info bitfield seen entries
  unfolding validate_entries validate_blocks
  validate_entries-IsBlockMap info bitfield seen [] h = tt
  validate_entries-IsBlockMap info bitfield seen (entry ∷ entries) h =
      let (fresh, h1) = ensure_ok (not (seen_before entry.piece_index seen)) _ h in
      let (inside, h2) = ensure_ok (ltb entry.piece_index (piece_count_of dict info)) _ h1 in
      let (complete, found, h3) = bind_ok (unwrap (get_elem? bitfield entry.piece_index)) _ tt h2 in
      let (open_, h4) = ensure_ok (not complete) _ h3 in
      let (_, blocks, rest) = bind_ok (validate_blocks dict hash magnet_hash info entry) _ tt h4 in
      (
        ground (arith, fresh),
        validate_blocks-IsPartial info bitfield entry complete inside found open_ blocks,
        validate_entries-IsBlockMap info bitfield (entry.piece_index ∷ seen) entries rest,
      )

  validate-IsValid : (s : TorrentSnapshot I) → validate dict hash magnet_hash s ≡ ok tt → IsValid s
  unfolding validate
  validate-IsValid s h =
      let (version, h1) = ensure_ok (eqb s.version torrent_snapshot_version) _ h in
      let (_, h2) = ensure_ok (is_some (metainfo_hash dict hash magnet_hash s.metainfo)) _ h1 in
      let (same, h3) =
        ensure_ok (same_hash (metainfo_hash dict hash magnet_hash s.metainfo) s.info_hash) _ h2 in
      let (single, h4) =
        ensure_ok (not (is_torrent s.metainfo && is_some s.resolved_magnet_info)) _ h3 in
      let (placed, h5) = ensure_ok (is_some s.output_path) _ h4 in
      let (_, info, h6) =
        bind_ok (validate_info dict hash magnet_hash s.resolved_magnet_info s.info_hash) _ tt h5 in
      let (sized, h7) =
        ensure_ok (eqb (length s.bitfield) (piece_count_of dict (resolved_info s))) _ h6 in
      record {
        current = ground (arith, version);
        identified = same_hash-some _ _ same;
        not_doubled = ground (arith, single);
        placed = placed;
        restored = validate_info-IsRestored s.resolved_magnet_info s.info_hash info;
        sized = ground (arith, sized);
        partial = validate_entries-IsBlockMap (resolved_info s) s.bitfield [] s.block_map h7;
      }

  has_hash :
      (found : Option (List ℕ)) (expected : List ℕ)
      → found ≡ some expected
      → (is_some found ≡ true) × (same_hash found expected ≡ true)
  has_hash none expected h = cc
  has_hash (some found) expected h =
      let e : found ≡ expected = cc in (refl, (list_eqb_iff found expected).1 e)

  IsRestored-validate_info :
      (info : Option I) (info_hash : List ℕ)
      → IsRestored info info_hash
      → validate_info dict hash magnet_hash info info_hash ≡ ok tt
  unfolding validate_info
  IsRestored-validate_info none info_hash h = refl
  IsRestored-validate_info (some info) info_hash h =
      let (has, same) = has_hash (hash info) info_hash h in rw (has, same) refl

  IsPartial-validate_blocks :
      (info : Option I) (bitfield : List Bool) (entry : PieceBlockSnapshot)
      → IsPartial info bitfield entry
      → (ltb entry.piece_index (piece_count_of dict info) ≡ true)
        × (validate_blocks dict hash magnet_hash info entry ≡ ok tt)
  unfolding validate_blocks
  IsPartial-validate_blocks info bitfield entry p =
      let inside : ltb entry.piece_index (dict p.metadata).piece_count ≡ true =
        ground (arith, p.inside) in
      let flags : eqb (length entry.blocks) (div_ceil p.len block_size) ≡ true =
        ground (arith, p.flags) in
      (rw p.known inside, rw p.known (rw p.has_length (rw flags refl)))

  IsBlockMap-validate_entries :
      (info : Option I) (bitfield : List Bool) (seen : List ℕ) (entries : List PieceBlockSnapshot)
      → IsBlockMap info bitfield seen entries
      → validate_entries dict hash magnet_hash info bitfield seen entries ≡ ok tt
  unfolding validate_entries
  IsBlockMap-validate_entries info bitfield seen [] h = refl
  IsBlockMap-validate_entries info bitfield seen (entry ∷ entries) (fresh, p, rest) =
      let (inside, blocks) = IsPartial-validate_blocks info bitfield entry p in
      let next =
        IsBlockMap-validate_entries info bitfield (entry.piece_index ∷ seen) entries rest in
      ensure_then (not (seen_before entry.piece_index seen)) _ (ground (arith, fresh)) (
        ensure_then (ltb entry.piece_index (piece_count_of dict info)) _ inside
          (rw p.incomplete (rw blocks next)))

  IsValid-validate : (s : TorrentSnapshot I) → IsValid s → validate dict hash magnet_hash s ≡ ok tt
  unfolding validate
  IsValid-validate s v =
      let (has, same) =
        has_hash (metainfo_hash dict hash magnet_hash s.metainfo) s.info_hash v.identified in
      ensure_then (eqb s.version torrent_snapshot_version) _ (ground (arith, v.current)) (
        ensure_then (is_some (metainfo_hash dict hash magnet_hash s.metainfo)) _ has (
          ensure_then (same_hash (metainfo_hash dict hash magnet_hash s.metainfo) s.info_hash) _
            same
            (ensure_then (not (is_torrent s.metainfo && is_some s.resolved_magnet_info)) _
              (ground (arith, v.not_doubled))
              (ensure_then (is_some s.output_path) _ v.placed (
                rw (IsRestored-validate_info s.resolved_magnet_info s.info_hash v.restored) (
                  ensure_then (eqb (length s.bitfield) (piece_count_of dict (resolved_info s))) _
                    (ground (arith, v.sized))
                    (IsBlockMap-validate_entries (resolved_info s) s.bitfield [] s.block_map
                      v.partial)))))))

  -- A snapshot validates just where it is of the current version and of the torrent that its metadata
  -- has the hash of, does not repeat the info dictionary of a torrent file, and one that it has restored
  -- has that hash too, has an output path, flags for as many pieces as the metadata, and partial blocks
  -- only of different pieces that are not complete, with as many flags as the piece has blocks.
  pub validate_iff :
      (s : TorrentSnapshot I) → (validate dict hash magnet_hash s ≡ ok tt) ↔ IsValid s
  validate_iff s = (validate-IsValid s, IsValid-validate s)
