-- ===== src/Tests/Tracker.antt =====
-- tracker/udp.rs at concrete inputs.
use tortillas.Prelude.{
  ℕ, ◌≡◌, ◌≢◌, refl, arith, inr, some, none, List, [], ◌∷◌, ◌++◌, map, replicate, eqb, nat_eq,
  if◌then◌else◌,
}
use tortillas.Prelude.Map.{lookup}
use tortillas.Prelude.Outcome.{ok, err, panicked, map_err}
use tortillas.Tracker.Udp.{
  connect, announce as announce_action, error, empty, AnnounceRequest, announce_request,
  connect_response, announce_response, error_response, from_bytes, request_transaction_id,
}
use tortillas.Tracker.Udp.Wire.{
  connect_bytes, announce_bytes, error_bytes, peers_bytes, wire_peer, from_bytes-ne-panicked,
  from_bytes-response,
}
use tortillas.Tracker.Udp.Client.{
  Network, ready, UdpTracker, transient, permanent, cause, Attempt, Tried, Runtime, IsRuntime,
  Parsed, send_and_recv_retry,
}
use tortillas.Tracker.Udp.Announce.{announce}
use tortillas.Tracker.Udp.Announce.Outcomes.{
  IsSettled, announce-IsSettled, send_and_recv_retry-unregisters,
}

-- A decoder for text that is UTF-8 already.
abbrev same_text : List ℕ → List ℕ
same_text bytes = bytes

from_bytes-ne-panicked_example : from_bytes same_text (0 ∷ 0 ∷ 0 ∷ 1 ∷ 5 ∷ []) ≢ panicked
from_bytes-ne-panicked_example = from_bytes-ne-panicked same_text (0 ∷ 0 ∷ 0 ∷ 1 ∷ 5 ∷ [])

abbrev peers : List (ℕ × ℕ)
peers = (3232235521, 6881) ∷ []

from_bytes-response_example :
    (from_bytes same_text (connect_bytes 9 77) ≡ ok (connect_response connect 77 9))
    × (from_bytes same_text (announce_bytes 9 1800 2 3 (peers_bytes peers ++ 1 ∷ []))
        ≡ ok (announce_response announce_action 9 1800 2 3 (map wire_peer peers)))
    × (from_bytes same_text (error_bytes 9 (b'n' ∷ b'o' ∷ []))
        ≡ ok (error_response error 9 (b'n' ∷ b'o' ∷ [])))
from_bytes-response_example =
    from_bytes-response same_text 9 77 1800 2 3 peers (1 ∷ []) (b'n' ∷ b'o' ∷ []) (omega arith)
      (omega arith) (omega arith) (omega arith) (omega arith) ((omega arith, omega arith), tt)
      (omega arith)

abbrev request : AnnounceRequest
request = record {
  connection_id = 77;
  transaction = 9;
  info_hash = replicate 20 1;
  peer_id = replicate 20 2;
  downloaded = 0;
  left = 100;
  uploaded = 0;
  event = empty;
  ip_address = 0;
  key = 0;
  num_want = 4294967295;
  port = 6881;
}

-- The datagram leaves, and the answer to the transaction 9 comes after one to another.
abbrev network : Network
network = record {
  response_channels = [];
  stats = record {
    announce_attempts = 0;
    announce_successes = 0;
    total_peers_received = 0;
    bytes_sent = 0;
    bytes_received = 0;
  };
  exchanges =
      record {
        sent = some 98;
        received = announce_bytes 8 1 0 0 [] ∷ announce_bytes 9 1800 2 3 (peers_bytes peers) ∷ [];
      }
      ∷ [];
  randoms = 9 ∷ [];
}

abbrev tracker : UdpTracker
tracker = record {
  connection_id = 77;
  ready_state = ready;
  interval = 4294967295;
  announce_params = record { left = 100; downloaded = 0; uploaded = 0; event = empty };
  peer_id = replicate 20 2;
  info_hash = replicate 20 1;
  peer_port = 6881;
  settings = record {
    udp_connect_timeout = 5;
    udp_message_timeout = 2;
    udp_retry_delays = [];
    udp_connection_id_retry_attempts = 2;
    udp_announce_ip_address = 0;
    udp_announce_key = 0;
    udp_num_want = 50;
  };
  network = network;
}

abbrev again : Tried → (Network → Parsed × Network) → Parsed × Network
again (ok r, m) retry = (ok r, m)
again (err (permanent e), m) retry = (err e, m)
again (err (transient e), m) retry = retry m
again (panicked, m) retry = (panicked, m)

-- Try, and try again after a transient error, as often as there are delays.
abbrev retried : List ℕ → Attempt → Network → Parsed × Network
retried [] action n = (map_err cause (action n).0, (action n).1)
retried (delay ∷ delays) action n = again (action n) (retried delays action)

abbrev runtime : Runtime
runtime = record {
  spawn_notify = retried;
  timeout = λ seconds action n. (some (action n).0, (action n).1);
}

again-returns :
    (action : Attempt) (n : Network) (t : Tried) (retry : Network → Parsed × Network)
    → (action n).0 ≡ t.0
    → ((m : Network) → (k : Network) × ((retry m).0 ≡ map_err cause (action k).0))
    → (k : Network) × ((again t retry).0 ≡ map_err cause (action k).0)
again-returns action n (ok r, m) retry e h = (n, rw e)
again-returns action n (err (permanent x), m) retry e h = (n, rw e)
again-returns action n (err (transient x), m) retry e h = h m
again-returns action n (panicked, m) retry e h = (n, rw e)

retried-returns :
    (delays : List ℕ) (action : Attempt) (n : Network)
    → (m : Network) × ((retried delays action n).0 ≡ map_err cause (action m).0)
retried-returns [] action n = (n, refl)
retried-returns (delay ∷ delays) action n =
    again-returns action n (action n) (retried delays action) refl (retried-returns delays action)

runtime-IsRuntime : IsRuntime runtime
runtime-IsRuntime = record {
  spawn_notify-returns = retried-returns;
  timeout-returns = λ seconds action n. inr (n, refl);
}

announce-IsSettled_example : IsSettled (announce same_text runtime tracker)
announce-IsSettled_example = announce-IsSettled same_text runtime runtime-IsRuntime tracker

send_and_recv_retry-unregisters_example :
    lookup 9
      (send_and_recv_retry same_text 2 (announce_request request) network).1.response_channels
    ≡ (if eqb (request_transaction_id (announce_request request)) 9
        then none
        else lookup 9 network.response_channels)
send_and_recv_retry-unregisters_example =
    send_and_recv_retry-unregisters same_text 2 (announce_request request) network 9
