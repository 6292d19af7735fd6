-- ===== src/Dht/Message.antt =====
-- dht/message.rs: KRPC messages and the record that is bencoded for them. The bencoding itself is the
-- `serde_bencode` crate's.
pub mod Wire
use Prim.Native.String.{String}
use tortillas.Prelude.{ℕ, Bool, true, false, Option, none, some, List, [], ◌∷◌}
use tortillas.Dht.Id.{NodeId}

-- `i64`.
pub data ℤ : Type 0 where
  pos : ℕ → ℤ
  negsuc : ℕ → ℤ

abbrev pub krpc_protocol_error : ℤ
krpc_protocol_error = pos 203

-- The bytes of "TO00".
abbrev pub client_version : List ℕ
client_version = 84 ∷ 79 ∷ 48 ∷ 48 ∷ []

pub data Query : Type 0 where
  ping : (id : NodeId) → Query
  find_node : (id target : NodeId) → Query
  get_peers : (id info_hash : NodeId) → Query
  announce_peer : (id info_hash : NodeId) (port : ℕ) (token : List ℕ) (implied_port : Bool) → Query

-- `Query::id`.
unfoldable pub id_of : Query → NodeId
id_of (ping id) = id
id_of (find_node id target) = id
id_of (get_peers id info_hash) = id
id_of (announce_peer id info_hash port token implied_port) = id

pub record Response : Type 0 where
  pub id : NodeId
  pub nodes : Option (List ℕ)
  pub token : Option (List ℕ)
  pub values : Option (List (List ℕ))

unfoldable pub pong : NodeId → Response
pong id = record { id = id; nodes = none; token = none; values = none }

pub record DhtError : Type 0 where
  pub code : ℤ
  pub message : String

unfoldable pub protocol : String → DhtError
protocol message = record { code = krpc_protocol_error; message = message }

pub data Message : Type 0 where
  query : (transaction_id : List ℕ) (query : Query) → Message
  response : (transaction_id : List ℕ) (response : Response) → Message
  error : (transaction_id : List ℕ) (error : DhtError) → Message
