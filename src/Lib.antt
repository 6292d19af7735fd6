-- ===== src/Lib.antt =====
-- The BitTorrent library `crates/libtortillas`: the codecs that read what peers and trackers
-- send, the scheduler that decides which blocks to ask for, the layout of pieces in files, the
-- client of a UDP tracker, the node of the distributed hash table, and the choking of peers.
--
-- How the parts interact. A peer's stream (Protocol/Stream) cuts frames for
-- `PeerMessages::from_bytes` (Protocol/Codec); bitfields and pieces that it decodes reach the
-- torrent, which asks the `PieceScheduler` (Pieces/Scheduler) what to request, and writes a piece
-- that has arrived to the ranges of files that `piece_to_paths` names (Pieces/Files). Peers come
-- from trackers: the `UdpTracker` (Tracker/Udp) connects, announces and hands over addresses; the
-- DHT node (Dht/State) answers the queries of other nodes from its routing table, its tokens and
-- the peers announced to it, and looks up peers for registered torrents (Dht/Lookup, Dht/Actor).
-- A block that a peer sends goes through `handle_incoming_piece` (Torrent/PieceFlow), which
-- writes it, marks it in the scheduler, checks the piece when it is complete and asks for more.
-- While a torrent transfers, `rechoke_peers` (Torrent/Choking) selects the peers that it uploads
-- to. What a torrent was doing is saved in a snapshot, which is validated when it is read
-- (Torrent/Snapshot).
--
-- Prelude: tests, lists, maps, equality, and `Outcome`, the result of a call that may return an
--   error or panic. Bytes: big-endian numbers, `Buf::get_*`.
-- Protocol/Message, Bitfield, Bencode, Handshake, Codec:
--   crates/libtortillas/src/protocol/messages.rs. `encode`, `to_bytes`, `from_bytes` and
--   `Handshake.to_bytes`, `Handshake.from_bytes` are the methods of these names; the arms of
--   `from_bytes` are `decode_have`, `decode_piece`, `decode_triplet` and `decode_extended`.
-- Protocol/Stream: `recv` of a whole stream in crates/libtortillas/src/protocol/stream.rs, over a
--   script of reads. Stream/Reader: `split` and the `recv` of the reader half. Stream/Writer:
--   `send`, over a script of writes.
-- Pieces/Scheduler, Requests, Release: crates/libtortillas/src/pieces/piece_scheduler.rs. A
--   method that takes `&mut self` gives back its result with the new scheduler.
--   `requests_for_peer` is a `Plan` of what the call computes first and a loop over its slots.
-- Pieces/Files: crates/libtortillas/src/pieces/piece_manager.rs and `Info::total_length` of
--   crates/libtortillas/src/metainfo/file.rs.
-- Pieces/Storage: `FilePieceManager` of piece_manager.rs, over a map of what each file holds.
-- Tracker/Udp, Udp/Client, Udp/Announce: crates/libtortillas/src/tracker/udp.rs, with the
--   counters of stats.rs beside it. The state of the shared server and the statistics are a
--   `Network`, which also holds what the socket will do, exchange by exchange, and the random
--   numbers to come.
-- Dht/Id, Compact, Routing, Transaction, Token, Peers, Message, State: the files of these names
--   in crates/libtortillas/src/dht. `message_of` and `wire_of` are the `try_from` and `from`
--   between a message and the record that is bencoded. A call that can panic returns an option.
-- Dht/Lookup: `lookup_peers` of lookup.rs and `announce_peer` of announce.rs. Dht/Actor: the
--   actor's messages of actor.rs and messages.rs, with the tasks that it spawns, aborts and drops.
-- Torrent/State, Choking: crates/libtortillas/src/torrent/state.rs, choking.rs and
--   `rechoke_peers` of choking_flow.rs.
-- Torrent/PieceFlow: crates/libtortillas/src/torrent/piece_flow.rs, with the broadcast of
--   swarm.rs; PieceFlow/InFile is the storage strategy that writes blocks to the output files.
-- Torrent/Snapshot: `validate` of crates/libtortillas/src/torrent/snapshot.rs.
-- Tests: the theorems at concrete inputs.
--
-- A `usize` has 64 bits. A `HashMap` is an association list with one entry a key, whose order no
-- modelled operation shows, but for those that give peers, which take it as a parameter.
-- Loops over ranges and slots are recursion on lists or on the number of rounds, so no fuel can
-- run out; `decimal_length` counts digits on fuel equal to the number, which has at most as many
-- digits. The loop of the DHT's `begin` has 65536 rounds, as many as there are ids. The loop of
-- `lookup_peers` has fuel: each round asks an address that was not asked, so that one round more
-- than there are addresses is enough.
--
-- Parameters, for code that the repository does not hold: the bencode crates (`Bencode`), the
-- standard library's `from_utf8_lossy` and `Path::components`, and tokio's retry and time-out
-- (`Runtime`), its `read_exact` and `write_all` (`IsReadExact`, `IsWriteAll`); for the DHT,
-- SHA-1, the order of a map's or a set's entries, which receivers wait, and what the network
-- answers to a batch of queries; for the piece flow, the storage, and which peers' mailboxes take
-- a message. Time and random values are arguments.
--
-- Not modelled: the actors but for the parts above, sockets, DNS, the HTTP tracker, the transport
-- and the bootstrapping of the DHT, the disk cache of pieces, how a snapshot is written and
-- restored, live updates, settings and the command line. Logging is left out everywhere.
pub mod Prelude
pub mod Bytes
pub mod Protocol
pub mod Pieces
pub mod Tracker
pub mod Dht
pub mod Torrent
pub mod Tests
