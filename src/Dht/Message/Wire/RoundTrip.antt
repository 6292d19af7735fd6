-- ===== src/Dht/Message/Wire/RoundTrip.antt =====
-- A message put on the wire and read again.
use tortillas.Prelude.{◌≡◌, refl, arith, true, false, length}
use tortillas.Prelude.Outcome.{ok}
use tortillas.Dht.Id.{NodeId, dht_id_len}
use tortillas.Dht.Message.{
  Query, ping, find_node, get_peers, announce_peer, Message, query, response, error,
}
use tortillas.Dht.Message.Wire.{
  with_id, arguments_of, wire_response_of, wire_of, node_id, node_argument, announcement, query_of,
  query_message, response_message, error_message, message_of,
}

abbrev pub IsNodeId : NodeId → Type 0
IsNodeId id = length id ≡ dht_id_len

-- The ids in a query have twenty bytes.
abbrev pub IsQuery : Query → Type 0
IsQuery (ping id) = IsNodeId id
IsQuery (find_node id target) = IsNodeId id × IsNodeId target
IsQuery (get_peers id info_hash) = IsNodeId id × IsNodeId info_hash
IsQuery (announce_peer id info_hash port token implied_port) = IsNodeId id × IsNodeId info_hash

-- The ids in a message have twenty bytes.
abbrev pub IsMessage : Message → Type 0
IsMessage (query transaction_id q) = IsQuery q
IsMessage (response transaction_id r) = IsNodeId r.id
IsMessage (error transaction_id e) = Unit {0}

node_id_ok : (id : NodeId) → IsNodeId id → node_id id ≡ ok id
unfolding node_id
node_id_ok id h = ground arith

-- A message put on the wire is the message that is read from it.
pub message_of-wire_of : (m : Message) → IsMessage m → message_of (wire_of m) ≡ ok m
unfolding message_of wire_of query_message response_message error_message query_of arguments_of
    with_id wire_response_of node_argument announcement
message_of-wire_of (query transaction_id (ping id)) h = rw (node_id_ok id h) refl
message_of-wire_of (query transaction_id (find_node id target)) (h, k) =
    rw (node_id_ok id h) (rw (node_id_ok target k) refl)
message_of-wire_of (query transaction_id (get_peers id info_hash)) (h, k) =
    rw (node_id_ok id h) (rw (node_id_ok info_hash k) refl)
message_of-wire_of (query transaction_id (announce_peer id info_hash port token true)) (h, k) =
    rw (node_id_ok id h) (rw (node_id_ok info_hash k) refl)
message_of-wire_of (query transaction_id (announce_peer id info_hash port token false)) (h, k) =
    rw (node_id_ok id h) (rw (node_id_ok info_hash k) refl)
message_of-wire_of (response transaction_id r) h = rw (node_id_ok r.id h) refl
message_of-wire_of (error transaction_id e) h = refl
