-- ===== src/Tracker/Udp/Client.antt =====
-- tracker/udp.rs: `UdpServer`'s registry of transactions, and `UdpTracker`. The network is what the
-- socket does, attempt by attempt: whether the datagram leaves, and what arrives before the time
-- runs out.
use Prim.Native.String.{String}
use tortillas.Prelude.{
  ℕ, ◌+◌, ◌%◌, ◌^◌, ◌≡◌, ◌⊎◌, Bool, true, false, ◌&&◌, Option, none, some, List, [], ◌∷◌, length,
  max, eqb, nat_eq, if◌then◌else◌,
}
use tortillas.Prelude.Map.{Map, lookup, insert, remove}
use tortillas.Prelude.Outcome.{Outcome, ok, err, panicked, map_err}
use tortillas.Tracker.Udp.{
  Event, TrackerRequest, TrackerResponse, TrackerActorError, invalid_response, request_timeout,
  request_transaction_id, transaction_id, from_bytes,
}

-- One attempt, as the socket sees it: the bytes sent, if any, and the datagrams received in time.
pub record Exchange : Type 0 where
  pub sent : Option ℕ
  pub received : List (List ℕ)

-- stats.rs: the counters. A `usize` counter wraps.
pub record TrackerStats : Type 0 where
  pub announce_attempts : ℕ
  pub announce_successes : ℕ
  pub total_peers_received : ℕ
  pub bytes_sent : ℕ
  pub bytes_received : ℕ

abbrev pub counted : ℕ → ℕ → ℕ
counted counter value = (counter + value) % 2 ^ 64

-- The server's registry and the tracker's statistics, with what the socket and the random numbers
-- have in store.
pub record Network : Type 0 where
  pub response_channels : Map ℕ (Unit {0})
  pub stats : TrackerStats
  pub exchanges : List Exchange
  pub randoms : List ℕ

pub data ReadyState : Type 0 where
  ready disconnected : ReadyState

abbrev pub is_ready : ReadyState → Bool
is_ready ready = true
is_ready disconnected = false

pub record AnnounceParams : Type 0 where
  pub left : ℕ
  pub downloaded : ℕ
  pub uploaded : ℕ
  pub event : Event

pub record TrackerSettings : Type 0 where
  pub udp_connect_timeout : ℕ
  pub udp_message_timeout : ℕ
  pub udp_retry_delays : List ℕ
  pub udp_connection_id_retry_attempts : ℕ
  pub udp_announce_ip_address : ℕ
  pub udp_announce_key : ℕ
  pub udp_num_want : ℕ

pub record UdpTracker : Type 0 where
  pub connection_id : ℕ
  pub ready_state : ReadyState
  pub interval : ℕ
  pub announce_params : AnnounceParams
  pub peer_id : List ℕ
  pub info_hash : List ℕ
  pub peer_port : ℕ
  pub settings : TrackerSettings
  pub network : Network

pub data RetryError : Type 0 where
  transient permanent : TrackerActorError → RetryError

abbrev pub cause : RetryError → TrackerActorError
cause (transient e) = e
cause (permanent e) = e

-- What the methods of `TrackerBase` return when they fail: an `ensure!` message or a tracker error.
pub data Failure : Type 0 where
  message : String → Failure
  of_tracker : TrackerActorError → Failure

abbrev pub Attempt : Type 0
Attempt = Network → Outcome RetryError TrackerResponse × Network

abbrev pub Parsed : Type 0
Parsed = Outcome TrackerActorError TrackerResponse

-- tokio_retry2 and tokio::time: `spawn_notify` runs the action until it returns what some run of it
-- gives, and `timeout` gives up or passes on what its action gives.
pub record Runtime : Type 0 where
  pub spawn_notify : List ℕ → Attempt → Network → Parsed × Network
  pub timeout : ℕ → (Network → Parsed × Network) → Network → Option Parsed × Network

pub record IsRuntime (run : Runtime) : Type 0 where
  pub spawn_notify-returns :
      (delays : List ℕ) (action : Attempt) (n : Network)
      → (m : Network) × ((run.spawn_notify delays action n).0 ≡ map_err cause (action m).0)
  pub timeout-returns :
      (seconds : ℕ) (action : Network → Parsed × Network) (n : Network)
      → ((run.timeout seconds action n).0 ≡ none)
        ⊎ ((m : Network) × ((run.timeout seconds action n).0 ≡ some (action m).0))

unfoldable pub register_transaction : ℕ → Network → Network
register_transaction tid n = record n { response_channels = insert tid tt n.response_channels }

unfoldable pub unregister_transaction : ℕ → Network → Network
unregister_transaction tid n = record n { response_channels = remove tid n.response_channels }

abbrev pub next_random : Network → ℕ × Network
next_random n = pick n.randoms
  where
    pick : List ℕ → ℕ × Network
    pick [] = (0, n)
    pick (r ∷ rs) = (r % 2 ^ 32, record n { randoms = rs })

abbrev pub is_registered : Option (Unit {0}) → Bool
is_registered none = false
is_registered (some u) = true

-- The listener's message, if the response is for a registered transaction and that is its own.
unfoldable pub deliver : Map ℕ (Unit {0}) → ℕ → ℕ → Parsed → Option (ℕ × TrackerResponse)
deliver channels tid size (ok response) =
    if is_registered (lookup (transaction_id response) channels)
      && eqb (transaction_id response) tid
    then some (size, response)
    else none
deliver channels tid size (err e) = none
deliver channels tid size panicked = none

abbrev pub Tried : Type 0
Tried = Outcome RetryError TrackerResponse × Network

unfoldable pub take_response : ℕ → Network → Option (ℕ × TrackerResponse) → Tried
take_response seconds n (some (size, response)) = (
  ok response,
  record n { stats = record n.stats { bytes_received = counted n.stats.bytes_received size } },
)
take_response seconds n none = (err (transient (request_timeout (max seconds 1))), n)

-- `TransactionRegistration::drop`, with the result of the attempt.
unfoldable pub drop_registration : ℕ → Tried → Tried
drop_registration tid (result, n) = (result, unregister_transaction tid n)

abbrev pub first_of :
    Option (ℕ × TrackerResponse) → Option (ℕ × TrackerResponse) → Option (ℕ × TrackerResponse)
first_of (some r) later = some r
first_of none later = later

-- `from_utf8_lossy` as in the parent.
module _ (from_utf8_lossy : List ℕ → List ℕ) where
  -- `response_rx.recv()`: the first response that the receiver task routes to this channel.
  unfoldable pub recv : Map ℕ (Unit {0}) → ℕ → List (List ℕ) → Option (ℕ × TrackerResponse)
  recv channels tid [] = none
  recv channels tid (datagram ∷ rest) =
      first_of (deliver channels tid (length datagram) (from_bytes from_utf8_lossy datagram))
        (recv channels tid rest)

  unfoldable pub recv_registered_response : ℕ → ℕ → List (List ℕ) → Attempt
  recv_registered_response seconds tid received n =
      take_response seconds n (recv n.response_channels tid received)

  -- The socket's part of an attempt: nothing sent is a permanent error. A script that has run out is
  -- a socket that no longer sends.
  unfoldable pub exchange : ℕ → ℕ → Option ℕ → List (List ℕ) → Attempt
  exchange seconds tid none received n = (err (permanent (invalid_response "send failed")), n)
  exchange seconds tid (some bytes) received n =
      recv_registered_response seconds tid received
        (record n { stats = record n.stats { bytes_sent = counted n.stats.bytes_sent bytes } })

  unfoldable pub next_exchange : ℕ → ℕ → List Exchange → Attempt
  next_exchange seconds tid [] n = exchange seconds tid none [] n
  next_exchange seconds tid (e ∷ rest) n =
      exchange seconds tid e.sent e.received (record n { exchanges = rest })

  -- The registration is dropped at the end on every path.
  unfoldable pub send_and_recv_retry : ℕ → TrackerRequest → Attempt
  send_and_recv_retry seconds request n =
      let tid = request_transaction_id request in
      drop_registration tid (next_exchange seconds tid n.exchanges (register_transaction tid n))
