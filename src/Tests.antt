-- ===== src/Tests.antt =====
-- The theorems at concrete inputs.
pub mod Protocol
pub mod Scheduler
pub mod Files
pub mod Tracker
pub mod Dht
pub mod Torrent
pub mod Node
pub mod Io
pub mod Stream
pub mod Lookup
pub mod Flow
