-- ===== src/Torrent/Choking.antt =====
-- torrent/choking.rs: which peers are unchoked, and the `rechoke_peers` of torrent/choking_flow.rs
-- that tells them. A selection whose result is `none` panics.
pub mod Slots
pub mod Rotation
pub mod Flow
use Prim.Native.String.{String}
use tortillas.Prelude.{
  ℕ, ◌+◌, ◌-◌, ◌%◌, ◌^◌, Bool, true, false, not, ◌&&◌, ◌||◌, Option, none, some, List, [], ◌∷◌,
  ◌++◌, map, length, take, drop, get_elem?, any, ltb, leb, eqb, bool_eqb, if◌then◌else◌, list_eqb,
  nat_eq, string_eq, ◌==◌, max,
}
use tortillas.Prelude.Sort.{sort_by, lex_lt}
use tortillas.Torrent.State.{TorrentState, downloading, seeding, is_transfer_active}

-- A variant for each known client, by its name, all of them around the id's bytes.
pub record PeerId : Type 0 where
  pub client : String
  pub id : List ℕ

pub record PeerStats : Type 0 where
  pub id : PeerId
  pub interested : Bool
  pub client_choking : Bool
  pub download_rate : ℕ
  pub upload_rate : ℕ

pub record ChokingScheduler : Type 0 where
  pub upload_slots : ℕ
  pub optimistic_unchoke_rounds : ℕ
  pub optimistic_index : ℕ
  pub rounds_since_optimistic_rotation : ℕ

pub record ChokingDecision : Type 0 where
  pub unchoked : List PeerId
  pub optimistic : Option PeerId

unfoldable pub new : ℕ → ℕ → ChokingScheduler
new upload_slots optimistic_unchoke_rounds = record {
  upload_slots = upload_slots;
  optimistic_unchoke_rounds = max optimistic_unchoke_rounds 1;
  optimistic_index = 0;
  rounds_since_optimistic_rotation = 0;
}

unfoldable pub rate_for : PeerStats → TorrentState → ℕ
rate_for peer downloading = peer.download_rate
rate_for peer seeding = peer.upload_rate
rate_for peer _ = 0

-- The comparison that `candidates` are sorted by: whether `left` comes before `right`.
unfoldable pub comes_before : TorrentState → PeerStats → PeerStats → Bool
comes_before state left right =
    if ltb (rate_for right state) (rate_for left state)
    then true
    else if eqb (rate_for right state) (rate_for left state)
    then lex_lt left.id.id right.id.id
    else false

unfoldable pub interested_of : List PeerStats → List PeerStats
interested_of [] = []
interested_of (peer ∷ peers) =
    let rest = interested_of peers in if peer.interested then peer ∷ rest else rest

unfoldable pub candidates_of : List PeerStats → TorrentState → List PeerStats
candidates_of peers state = sort_by (comes_before state) (interested_of peers)

-- `optimistic_candidates[optimistic_index % optimistic_candidates.len()]`, pushed.
unfoldable pub with_optimistic : List PeerStats → Option PeerStats → Option ChokingDecision
with_optimistic regular none = none
with_optimistic regular (some peer) =
    some (record { unchoked = map (λ p. p.id) regular ++ peer.id ∷ []; optimistic = some peer.id })

unfoldable pub fill_slots : List PeerStats → ℕ → ℕ → Option ChokingDecision
fill_slots candidates upload_slots optimistic_index =
    if ltb upload_slots (length candidates)
    then (let regular_slots = upload_slots - 1 in
        let optimistic_candidates = drop regular_slots candidates in
        with_optimistic (take regular_slots candidates)
          (get_elem? optimistic_candidates (optimistic_index % length optimistic_candidates)))
    else some
        (record { unchoked = map (λ p. p.id) (take upload_slots candidates); optimistic = none })

unfoldable pub select_unchoked_peers :
    List PeerStats → TorrentState → ℕ → ℕ → Option ChokingDecision
select_unchoked_peers peers torrent_state upload_slots optimistic_index =
    if eqb upload_slots 0
    then some (record { unchoked = []; optimistic = none })
    else fill_slots (candidates_of peers torrent_state) upload_slots optimistic_index

-- What `decide` makes of its counters, after a decision with that optimistic peer.
unfoldable pub rotate : ChokingScheduler → Option PeerId → ChokingScheduler
rotate s none = record s { rounds_since_optimistic_rotation = 0; optimistic_index = 0 }
rotate s (some peer) =
    let rounds = s.rounds_since_optimistic_rotation + 1 in
    if leb s.optimistic_unchoke_rounds rounds
    then record s {
      rounds_since_optimistic_rotation = 0;
      optimistic_index = (s.optimistic_index + 1) % 2 ^ 64;
    }
    else record s { rounds_since_optimistic_rotation = rounds }

abbrev pub decided :
    ChokingScheduler → Option ChokingDecision → Option (ChokingDecision × ChokingScheduler)
decided s none = none
decided s (some decision) = some (decision, rotate s decision.optimistic)

unfoldable pub decide :
    ChokingScheduler → List PeerStats → TorrentState → Option (ChokingDecision × ChokingScheduler)
decide s peers torrent_state =
    decided s (select_unchoked_peers peers torrent_state s.upload_slots s.optimistic_index)

abbrev pub same_peer : PeerId → PeerId → Bool
same_peer a b = a.client == b.client && list_eqb a.id b.id

-- Whether the set or the map's keys contain the peer.
abbrev pub contains : List PeerId → PeerId → Bool
contains peers peer = any (same_peer peer) peers

-- The `SetChoked` messages of the loop of `rechoke_peers`, to the peers that are still there.
unfoldable pub set_choked : List PeerId → List PeerId → List PeerStats → List (PeerId × Bool)
set_choked present unchoked [] = []
set_choked present unchoked (stats ∷ peers) =
    let rest = set_choked present unchoked peers in
    let choked = not (contains unchoked stats.id) in
    if bool_eqb stats.client_choking choked
    then rest
    else if contains present stats.id
    then (stats.id, choked) ∷ rest
    else rest

abbrev pub messages_of :
    List PeerId
    → List PeerStats
    → Option (ChokingDecision × ChokingScheduler)
    → Option (List (PeerId × Bool) × ChokingScheduler)
messages_of present peers none = none
messages_of present peers (some (decision, s)) =
    some (set_choked present decision.unchoked peers, s)

-- `rechoke_peers`, as far as it chokes: the messages it sends and the scheduler.
unfoldable pub rechoke_peers :
    ChokingScheduler
    → List PeerId
    → List PeerStats
    → TorrentState
    → Option (List (PeerId × Bool) × ChokingScheduler)
rechoke_peers s present peers torrent_state =
    if is_transfer_active torrent_state
    then messages_of present peers (decide s peers torrent_state)
    else some ([], s)
