-- ===== src/Tracker/Udp.antt =====
-- tracker/udp.rs: requests and responses as data and as bytes.
pub mod Wire
pub mod Client
pub mod Announce
use Prim.Native.String.{String}
use tortillas.Prelude.{
  ℕ, zero, suc, ◌+◌, ◌-◌, ◌*◌, ◌/◌, ◌%◌, ◌^◌, Bool, true, false, Option, none, some, List, [], ◌∷◌,
  ◌++◌, length, ltb, eqb, if◌then◌else◌,
}
use tortillas.Prelude.Outcome.{Outcome, ok, err, panicked, unwrap, ◌>>=◌}
use tortillas.Bytes.{u16_be, u32_be, u64_be, get_u16, get_u32, get_u64}
use tortillas.Protocol.Message.{IpAddr, v4}

abbrev pub magic_constant : ℕ
magic_constant = 4497486125440

abbrev pub min_connect_response_size : ℕ
min_connect_response_size = 16

abbrev pub min_announce_response_size : ℕ
min_announce_response_size = 20

abbrev pub min_error_response_size : ℕ
min_error_response_size = 8

abbrev pub peer_size : ℕ
peer_size = 6

pub data Action : Type 0 where
  connect announce scrape error : Action

-- `*action as u32`.
abbrev pub action_code : Action → ℕ
action_code connect = 0
action_code announce = 1
action_code scrape = 2
action_code error = 3

-- `Action::try_from`, which the derive writes.
abbrev pub action_of : ℕ → Option Action
action_of code =
    if eqb code 0
    then some connect
    else if eqb code 1
    then some announce
    else if eqb code 2
    then some scrape
    else if eqb code 3
    then some error
    else none

pub data Event : Type 0 where
  empty started completed stopped : Event

-- `*event as u32`.
abbrev pub event_code : Event → ℕ
event_code empty = 0
event_code started = 1
event_code completed = 2
event_code stopped = 3

pub record WirePeer : Type 0 where
  pub ip : IpAddr
  pub port : ℕ
  pub id : Option (List ℕ)

abbrev pub from_ipv4 : List ℕ → ℕ → WirePeer
from_ipv4 octets p = record { ip = v4 octets; port = p; id = none }

-- The fields of an announce request. `num_want` is an `i32` by its two's complement.
pub record AnnounceRequest : Type 0 where
  pub connection_id : ℕ
  pub transaction : ℕ
  pub info_hash : List ℕ
  pub peer_id : List ℕ
  pub downloaded : ℕ
  pub left : ℕ
  pub uploaded : ℕ
  pub event : Event
  pub ip_address : ℕ
  pub key : ℕ
  pub num_want : ℕ
  pub port : ℕ

pub data TrackerRequest : Type 0 where
  connect_request : ℕ → Action → ℕ → TrackerRequest
  announce_request : AnnounceRequest → TrackerRequest

pub data TrackerResponse : Type 0 where
  -- The action, the connection id and the transaction id.
  connect_response : Action → ℕ → ℕ → TrackerResponse
  -- The action, the transaction id, the interval, the leechers, the seeders and the peers.
  announce_response : Action → ℕ → ℕ → ℕ → ℕ → List WirePeer → TrackerResponse
  -- The action, the transaction id and the message, by its UTF-8 bytes.
  error_response : Action → ℕ → List ℕ → TrackerResponse

-- errors.rs: the errors of a tracker that this file returns. `invalid_response` carries its reason.
pub data TrackerActorError : Type 0 where
  response_too_short : ℕ → ℕ → TrackerActorError
  invalid_action : ℕ → TrackerActorError
  invalid_response : String → TrackerActorError
  request_timeout : ℕ → TrackerActorError
  transaction_mismatch : ℕ → ℕ → TrackerActorError
  tracker_error : List ℕ → TrackerActorError

unfoldable pub request_transaction_id : TrackerRequest → ℕ
request_transaction_id (connect_request id action transaction_id) = transaction_id
request_transaction_id (announce_request r) = r.transaction

unfoldable pub to_bytes : TrackerRequest → List ℕ
to_bytes (connect_request id action transaction_id) =
    u64_be id ++ (u32_be (action_code action) ++ u32_be transaction_id)
to_bytes (announce_request r) =
    u64_be r.connection_id
    ++ (u32_be (action_code announce)
        ++ (u32_be r.transaction
            ++ (r.info_hash
                ++ (r.peer_id
                    ++ (u64_be r.downloaded
                        ++ (u64_be r.left
                            ++ (u64_be r.uploaded
                                ++ (u32_be (event_code r.event)
                                    ++ (u32_be r.ip_address
                                        ++ (u32_be r.key
                                            ++ (u32_be r.num_want ++ u16_be r.port)))))))))))

unfoldable pub transaction_id : TrackerResponse → ℕ
transaction_id (connect_response action connection_id tid) = tid
transaction_id (announce_response action tid interval leechers seeders peers) = tid
transaction_id (error_response action tid message) = tid

abbrev pub Parsed : Type 0 → Type 0
Parsed A = Outcome TrackerActorError A

-- The loop over `0..num_peers`. `Ipv4Addr::from` gives the four octets of the number.
unfoldable pub parse_peers : ℕ → List ℕ → Parsed (List WirePeer)
parse_peers zero buf = ok []
parse_peers (suc n) buf = if ltb (length buf) peer_size then ok [] else (do
  (ip, buf) ← unwrap (get_u32 buf)
  (port, buf) ← unwrap (get_u16 buf)
  peers ← parse_peers n buf
  ok (from_ipv4 (u32_be ip) port ∷ peers))

unfoldable pub parse_connect : Action → ℕ → List ℕ → Parsed TrackerResponse
parse_connect action size buf =
    if ltb size min_connect_response_size
    then err (response_too_short min_connect_response_size size)
    else (do
      (tid, buf) ← unwrap (get_u32 buf)
      (connection_id, buf) ← unwrap (get_u64 buf)
      ok (connect_response action connection_id tid))

unfoldable pub parse_announce : Action → ℕ → List ℕ → Parsed TrackerResponse
parse_announce action size buf =
    if ltb size min_announce_response_size
    then err (response_too_short min_announce_response_size size)
    else (do
      (tid, buf) ← unwrap (get_u32 buf)
      (interval, buf) ← unwrap (get_u32 buf)
      (leechers, buf) ← unwrap (get_u32 buf)
      (seeders, buf) ← unwrap (get_u32 buf)
      peers ← parse_peers (length buf / peer_size) buf
      ok (announce_response action tid interval leechers seeders peers))

-- `from_utf8_lossy` is the standard library's: the bytes of the `String` that it makes of others.
module _ (from_utf8_lossy : List ℕ → List ℕ) where
  unfoldable pub parse_error : Action → ℕ → List ℕ → Parsed TrackerResponse
  parse_error action size buf =
      if ltb size min_error_response_size
      then err (response_too_short min_error_response_size size)
      else (do
        (tid, buf) ← unwrap (get_u32 buf)
        ok (error_response action tid (from_utf8_lossy buf)))

  unfoldable pub parse_response : ℕ → List ℕ → Option Action → ℕ → Parsed TrackerResponse
  parse_response code buf none size = err (invalid_action code)
  parse_response code buf (some connect) size = parse_connect connect size buf
  parse_response code buf (some announce) size = parse_announce announce size buf
  parse_response code buf (some error) size = parse_error error size buf
  parse_response code buf (some scrape) size = err (invalid_response "Unsupported action: Scrape")

  unfoldable pub from_bytes : List ℕ → Parsed TrackerResponse
  from_bytes bytes = if ltb (length bytes) 4 then err (response_too_short 4 (length bytes)) else (do
    (code, buf) ← unwrap (get_u32 bytes)
    parse_response code buf (action_of code) (length bytes))
