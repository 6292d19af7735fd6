-- ===== src/Tracker.antt =====
-- tracker/: the UDP tracker protocol.
pub mod Udp
