-- ===== src/Dht/Message/Wire.antt =====
-- dht/message.rs: the record on the wire, to and from a message.
pub mod RoundTrip
use Prim.Native.String.{String}
use tortillas.Prelude.{
  ℕ, Bool, true, false, not, Option, none, some, List, [], ◌∷◌, length, eqb, if◌then◌else◌, ◌==◌,
  string_eq,
}
use tortillas.Prelude.Outcome.{Outcome, ok, err, ◌>>=◌}
use tortillas.Dht.Id.{NodeId, dht_id_len}
use tortillas.Dht.Message.{
  ℤ, client_version, Query, ping, find_node, get_peers, announce_peer, Response, DhtError, Message,
  query, response, error,
}

pub record WireArguments : Type 0 where
  pub id : List ℕ
  pub target : Option (List ℕ)
  pub info_hash : Option (List ℕ)
  pub port : Option ℕ
  pub token : Option (List ℕ)
  pub implied_port : Option ℕ

pub record WireResponse : Type 0 where
  pub id : List ℕ
  pub nodes : Option (List ℕ)
  pub token : Option (List ℕ)
  pub values : Option (List (List ℕ))

pub record WireMessage : Type 0 where
  pub transaction_id : List ℕ
  pub kind : String
  pub query : Option String
  pub arguments : Option WireArguments
  pub response : Option WireResponse
  pub error : Option (ℤ × String)
  pub version : Option (List ℕ)

-- The errors of `try_from`, by what their texts tell.
pub data WireError : Type 0 where
  query_is_missing : String → WireError
  announce_peer_is_missing : String → WireError
  response_is_missing_r error_is_missing_e : WireError
  unknown_query unknown_type : String → WireError
  unexpected_length : ℕ → WireError

unfoldable pub with_id : NodeId → WireArguments
with_id id = record {
  id = id;
  target = none;
  info_hash = none;
  port = none;
  token = none;
  implied_port = none;
}

abbrev pub u8_of : Bool → ℕ
u8_of true = 1
u8_of false = 0

-- The name and the arguments of a query.
unfoldable pub arguments_of : Query → String × WireArguments
arguments_of (ping id) = ("ping", with_id id)
arguments_of (find_node id target) = ("find_node", record (with_id id) { target = some target })
arguments_of (get_peers id info_hash) =
    ("get_peers", record (with_id id) { info_hash = some info_hash })
arguments_of (announce_peer id info_hash port token implied_port) = (
  "announce_peer",
  record (with_id id) {
    info_hash = some info_hash;
    port = some port;
    token = some token;
    implied_port = some (u8_of implied_port);
  },
)

unfoldable pub wire_response_of : Response → WireResponse
wire_response_of r = record { id = r.id; nodes = r.nodes; token = r.token; values = r.values }

-- `From<&Message> for WireMessage`.
unfoldable pub wire_of : Message → WireMessage
wire_of (query transaction_id q) = record {
  transaction_id = transaction_id;
  kind = "q";
  query = some (arguments_of q).0;
  arguments = some (arguments_of q).1;
  response = none;
  error = none;
  version = some client_version;
}
wire_of (response transaction_id r) = record {
  transaction_id = transaction_id;
  kind = "r";
  query = none;
  arguments = none;
  response = some (wire_response_of r);
  error = none;
  version = some client_version;
}
wire_of (error transaction_id e) = record {
  transaction_id = transaction_id;
  kind = "e";
  query = none;
  arguments = none;
  response = none;
  error = some (e.code, e.message);
  version = some client_version;
}

abbrev pub ok_or {ℓ} : {A : Type ℓ} → Option A → WireError → Outcome WireError A
ok_or none e = err e
ok_or (some a) e = ok a

-- `NodeId::try_from`.
unfoldable pub node_id : List ℕ → Outcome WireError NodeId
node_id bytes =
    if eqb (length bytes) dht_id_len then ok bytes else err (unexpected_length (length bytes))

unfoldable pub node_argument : Option (List ℕ) → String → Outcome WireError NodeId
node_argument value name = ok_or value (query_is_missing name) >>= node_id

abbrev pub is_set : Option ℕ → Bool
is_set none = false
is_set (some n) = not (eqb n 0)

unfoldable pub announcement : NodeId → WireArguments → Outcome WireError Query
announcement id arguments = node_argument arguments.info_hash "info_hash" >>= (λ info_hash.
    ok_or arguments.port (announce_peer_is_missing "port") >>= (λ port.
      ok_or arguments.token (announce_peer_is_missing "token")
      >>= (λ token. ok (announce_peer id info_hash port token (is_set arguments.implied_port)))))

unfoldable pub query_of : String → WireArguments → NodeId → Outcome WireError Query
query_of name arguments id =
    if name == "ping"
    then ok (ping id)
    else if name == "find_node"
    then (node_argument arguments.target "target" >>= (λ target. ok (find_node id target)))
    else if name == "get_peers"
    then (node_argument arguments.info_hash "info_hash"
        >>= (λ info_hash. ok (get_peers id info_hash)))
    else if name == "announce_peer"
    then announcement id arguments
    else err (unknown_query name)

unfoldable pub query_message : WireMessage → Outcome WireError Message
query_message wire = ok_or wire.query (query_is_missing "q") >>= (λ name.
    ok_or wire.arguments (query_is_missing "a") >>= (λ arguments.
      node_id arguments.id
      >>= (λ id. query_of name arguments id >>= (λ q. ok (query wire.transaction_id q)))))

unfoldable pub response_message : WireMessage → Outcome WireError Message
response_message wire = ok_or wire.response response_is_missing_r >>= (λ r. node_id r.id >>= (λ id.
    ok (
      response wire.transaction_id
        (record { id = id; nodes = r.nodes; token = r.token; values = r.values }))))

unfoldable pub error_message : WireMessage → Outcome WireError Message
error_message wire =
    ok_or wire.error error_is_missing_e
    >>= (λ e. ok (error wire.transaction_id (record { code = e.0; message = e.1 })))

-- `TryFrom<WireMessage> for Message`.
unfoldable pub message_of : WireMessage → Outcome WireError Message
message_of wire =
    if wire.kind == "q"
    then query_message wire
    else if wire.kind == "r"
    then response_message wire
    else if wire.kind == "e"
    then error_message wire
    else err (unknown_type wire.kind)
