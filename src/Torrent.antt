-- ===== src/Torrent.antt =====
-- torrent/: the parts of a torrent: choking, the flow of its pieces, and its snapshot.
pub mod State
pub mod Choking
pub mod PieceFlow
pub mod Snapshot
