-- ===== src/Dht.antt =====
-- dht/: the distributed hash table of BEP 5.
pub mod Id
pub mod Compact
pub mod Routing
pub mod Message
pub mod Transaction
pub mod Token
pub mod Peers
pub mod State
pub mod Lookup
pub mod Actor
