-- ===== src/Pieces.antt =====
-- pieces/: which blocks to ask of which peer, and where a piece lies in the files.
pub mod Scheduler
pub mod Files
pub mod Storage
