-- ===== src/Torrent/PieceFlow.antt =====
-- torrent/piece_flow.rs: from a block that a peer sent to a verified piece, and the requests that follow.
-- `none` is a panic. The messages to peers, and the calls of the tracker and choking parts when the
-- torrent is complete, are recorded in the order in which they are made; whether a peer's mailbox takes
-- a message, and whether its actor is alive, are parameters. Reports to metrics are left out.
pub mod Guards
pub mod Filling
pub mod Completing
pub mod Handling
pub mod InFile
use tortillas.Prelude.{
  ℕ, ◌+◌, ◌-◌, ◌/◌, ◌%◌, ◌^◌, min, Bool, true, false, not, ◌&&◌, ◌||◌, Option, none, some, List, [],
  ◌∷◌, ◌++◌, length, set, ltb, leb, eqb, if◌then◌else◌, PartialEq, ◌==◌, nat_eq,
}
use tortillas.Pieces.Scheduler.{
  PieceScheduler, BlockRequest, offset, block_size, div_ceil, in_flight_for_peer,
  is_duplicate_block, is_piece_complete, mark_block_complete, mark_piece_complete,
  remove_piece_blocks, release_peer_request,
}
use tortillas.Pieces.Scheduler.Requests.{requests_for_peer}
use tortillas.Pieces.Scheduler.Release.{peer_disconnected}
use tortillas.Torrent.State.{TorrentState, downloading, seeding}

-- The info dictionary's part in this.
pub record InfoDict : Type 0 where
  pub piece_length : ℕ
  pub total_length : ℕ
  pub piece_count : ℕ

pub data Command : Type 0 where
  need_piece : (index begin len : ℕ) → Command
  cancel_piece : (index begin len : ℕ) → Command
  have : (piece : ℕ) → Command

pub data Sent (P : Type 0) : Type 0 where
  told : P → Command → Sent P
  update_tracker_progress announce_completed rechoke_peers schedule_next_rechoke : Sent P

pub record TorrentActor (P F : Type 0) : Type 0 where
  pub info_dict : Option InfoDict
  pub state : TorrentState
  pub sufficient_peers : ℕ
  pub max_in_flight_per_peer : ℕ
  pub peers : List P
  pub piece_scheduler : PieceScheduler P
  pub bitfield : List Bool
  pub storage : F
  pub sent : List (Sent P)

-- The storage strategy: `write_block_to_storage` and `validate_and_commit_piece`; `none` is a panic.
pub record PieceStorage (F : Type 0) : Type 0 where
  pub write_block : ℕ → ℕ → List ℕ → F → Option (Bool × F)
  pub validate_and_commit : ℕ → F → Option (Bool × F)

abbrev pub is_some : {A : Type 0} → Option A → Bool
is_some none = false
is_some (some a) = true

abbrev pub is_downloading : TorrentState → Bool
is_downloading downloading = true
is_downloading _ = false

abbrev pub is_empty : List ℕ → Bool
is_empty [] = true
is_empty (x ∷ xs) = false

-- The length of the piece; `none` is a remainder by zero.
unfoldable pub concrete_piece_len : InfoDict → ℕ → Option ℕ
concrete_piece_len info index =
    if eqb index (info.piece_count - 1)
    then if eqb info.piece_length 0
      then none
      else if eqb (info.total_length % info.piece_length) 0
      then some info.piece_length
      else some (info.total_length % info.piece_length)
    else some info.piece_length

-- The early returns on the block's place and length.
unfoldable pub is_refused : ℕ → ℕ → List ℕ → Bool
is_refused piece_len off block =
    leb piece_len off
    || is_empty block
    || not (ltb (off + length block) (2 ^ 64))
    || ltb piece_len (off + length block)
    || leb (div_ceil piece_len block_size) (off / block_size)
    || not (eqb (length block) (min (piece_len - off) block_size))

module _ {P : Type 0} ⦃e : PartialEq P⦄ where
  abbrev pub has_peer : P → List P → Bool
  has_peer p [] = false
  has_peer p (q ∷ peers) = q == p || has_peer p peers

  abbrev pub without : P → List P → List P
  without p [] = []
  without p (q ∷ peers) = let rest = without p peers in if q == p then rest else q ∷ rest

unfoldable pub is_ready : {P F : Type 0} → TorrentActor P F → Bool
is_ready t = is_some t.info_dict && leb t.sufficient_peers (length t.peers)

module _ {P F : Type 0} ⦃e : PartialEq P⦄ where
  module _ (storage : PieceStorage F) (accepts : P → Command → Bool) (alive : P → Bool)
      (now : ℕ) where
    -- `tell(..).try_send()`, where it does not matter whether the message is taken.
    abbrev pub tell : P → Command → TorrentActor P F → TorrentActor P F
    tell p c t = if accepts p c then record t { sent = t.sent ++ told p c ∷ [] } else t

    -- The loop over the requests: one that cannot be told is released.
    unfoldable pub tell_requests : P → List BlockRequest → TorrentActor P F → TorrentActor P F
    tell_requests p [] t = t
    tell_requests p (r ∷ requests) t =
        let c = need_piece r.piece_index (offset r) r.length in
        tell_requests p requests (
          if accepts p c then record t { sent = t.sent ++ told p c ∷ [] } else record t {
            piece_scheduler = release_peer_request t.piece_scheduler p r.piece_index (offset r);
          })

    abbrev pub requested :
        P
        → TorrentActor P F
        → Option (List BlockRequest × PieceScheduler P)
        → Option (TorrentActor P F)
    requested p t none = none
    requested p t (some (requests, scheduler)) =
        some (tell_requests p requests (record t { piece_scheduler = scheduler }))

    abbrev pub fill_with : P → ℕ → TorrentActor P F → Option InfoDict → Option (TorrentActor P F)
    fill_with p target_size t none = some t
    fill_with p target_size t (some info) =
        let slots = target_size - in_flight_for_peer t.piece_scheduler p in
        if not (has_peer p t.peers)
        then some t
        else if eqb slots 0
        then some t
        else requested p t
            (requests_for_peer t.piece_scheduler p now slots info.piece_length info.total_length)

    unfoldable pub fill_peer_request_window_to :
        P → ℕ → TorrentActor P F → Option (TorrentActor P F)
    fill_peer_request_window_to p target_size t =
        if not (is_downloading t.state) || not (is_ready t)
        then some t
        else fill_with p target_size t t.info_dict

    unfoldable pub fill_peer_request_window : P → TorrentActor P F → Option (TorrentActor P F)
    unfolding fill_peer_request_window_to
    fill_peer_request_window p t = fill_peer_request_window_to p t.max_in_flight_per_peer t

    -- `broadcast_to_peers_best_effort` of torrent/swarm.rs: the first loop, then the second.
    unfoldable pub broadcast : Command → List P → TorrentActor P F → TorrentActor P F
    broadcast c [] t = t
    broadcast c (p ∷ peers) t = broadcast c peers (if alive p then tell p c t else t)

    unfoldable pub remove_dead : List P → TorrentActor P F → TorrentActor P F
    remove_dead [] t = t
    remove_dead (p ∷ peers) t = remove_dead peers (
        if alive p then t else record t {
          peers = without p t.peers;
          piece_scheduler = peer_disconnected t.piece_scheduler p;
        })

    unfoldable pub broadcast_to_peers_best_effort : Command → TorrentActor P F → TorrentActor P F
    broadcast_to_peers_best_effort c t = remove_dead t.peers (broadcast c t.peers t)

    -- The end of `piece_completed`, for a piece that is valid.
    unfoldable pub piece_verified : P → ℕ → ℕ → TorrentActor P F → Option (TorrentActor P F)
    unfolding broadcast_to_peers_best_effort
    piece_verified p index piece_count t =
        let t' = broadcast_to_peers_best_effort (have index) (record t {
          piece_scheduler = mark_piece_complete t.piece_scheduler index;
          bitfield = set t.bitfield index true;
        }) in
        if not (ltb index (length t.bitfield))
        then none
        else if leb piece_count t'.piece_scheduler.next_piece
        then some (record t' {
          state = seeding;
          sent =
              t'.sent
              ++ update_tracker_progress ∷ announce_completed ∷ rechoke_peers
                ∷ schedule_next_rechoke ∷ [];
        })
        else fill_peer_request_window p t'

    abbrev pub committed :
        P → ℕ → ℕ → TorrentActor P F → Option (Bool × F) → Option (TorrentActor P F)
    committed p index piece_count t none = none
    committed p index piece_count t (some (false, f)) =
        fill_peer_request_window p (record t { storage = f })
    committed p index piece_count t (some (true, f)) =
        piece_verified p index piece_count (record t { storage = f })

    unfoldable pub piece_completed : P → ℕ → ℕ → TorrentActor P F → Option (TorrentActor P F)
    unfolding piece_verified
    piece_completed p index piece_count t =
        committed p index piece_count
          (record t { piece_scheduler = (remove_piece_blocks t.piece_scheduler index).1 })
          (storage.validate_and_commit index t.storage)

    -- `CancelPiece` to the peer that the block was asked of, if it is another.
    abbrev pub cancel_for : P → Option P → Command → TorrentActor P F → TorrentActor P F
    cancel_for p none c t = t
    cancel_for p (some assigned) c t =
        if not (assigned == p) && has_peer assigned t.peers then tell assigned c t else t

    -- After the block is written.
    unfoldable pub block_written :
        P → ℕ → ℕ → ℕ → ℕ → ℕ → TorrentActor P F → Option (TorrentActor P F)
    unfolding piece_completed fill_peer_request_window
    block_written p index off len piece_len piece_count t =
        let (assigned, scheduler) =
          mark_block_complete t.piece_scheduler index (off / block_size)
            (div_ceil piece_len block_size) in
        let t' =
          cancel_for p assigned (cancel_piece index off len)
            (record t { piece_scheduler = scheduler }) in
        if is_piece_complete t'.piece_scheduler index
        then piece_completed p index piece_count t'
        else fill_peer_request_window p t'

    abbrev pub stored :
        P → ℕ → ℕ → ℕ → ℕ → ℕ → TorrentActor P F → Option (Bool × F) → Option (TorrentActor P F)
    stored p index off len piece_len piece_count t none = none
    stored p index off len piece_len piece_count t (some (false, f)) =
        some (record t { storage = f })
    stored p index off len piece_len piece_count t (some (true, f)) =
        block_written p index off len piece_len piece_count (record t { storage = f })

    abbrev pub with_length :
        P → ℕ → ℕ → List ℕ → ℕ → TorrentActor P F → Option ℕ → Option (TorrentActor P F)
    with_length p index off block piece_count t none = none
    with_length p index off block piece_count t (some piece_len) =
        if is_refused piece_len off block
        then some t
        else if is_duplicate_block t.piece_scheduler index (off / block_size)
        then some t
        else stored p index off (min (piece_len - off) block_size) piece_len piece_count t
            (storage.write_block index off block t.storage)

    abbrev pub with_info :
        P → ℕ → ℕ → List ℕ → TorrentActor P F → Option InfoDict → Option (TorrentActor P F)
    with_info p index off block t none = some t
    with_info p index off block t (some info) =
        if leb info.piece_count index
        then some t
        else with_length p index off block info.piece_count t (concrete_piece_len info index)

    unfoldable pub handle_incoming_piece :
        P → ℕ → ℕ → List ℕ → TorrentActor P F → Option (TorrentActor P F)
    unfolding block_written
    handle_incoming_piece p index off block t = with_info p index off block t t.info_dict
