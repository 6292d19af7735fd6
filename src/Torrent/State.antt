-- ===== src/Torrent/State.antt =====
-- torrent/state.rs: the lifecycle states of a torrent and what each allows.
use tortillas.Prelude.{Bool, true, false}

pub data TorrentState : Type 0 where
  added : TorrentState
  resolving_metadata : TorrentState
  ready : TorrentState
  downloading : TorrentState
  paused : TorrentState
  seeding : TorrentState
  restarting : TorrentState
  stopping : TorrentState
  stopped : TorrentState
  failed : TorrentState

unfoldable pub is_transfer_active : TorrentState → Bool
is_transfer_active downloading = true
is_transfer_active seeding = true
is_transfer_active _ = false

unfoldable pub can_become_ready : TorrentState → Bool
can_become_ready added = true
can_become_ready resolving_metadata = true
can_become_ready ready = true
can_become_ready _ = false

unfoldable pub can_start : TorrentState → Bool
can_start added = true
can_start resolving_metadata = true
can_start ready = true
can_start paused = true
can_start _ = false
