-- ===== src/Tracker/Udp/Announce.antt =====
-- tracker/udp.rs: `connect`, `announce`, `update` and `stop` of `UdpTracker`.
pub mod Outcomes
use tortillas.Prelude.{
  ℕ, zero, suc, ◌+◌, ◌%◌, ◌^◌, ◌≡◌, Bool, true, false, not, ◌&&◌, ◌||◌, Option, none, some, List,
  [], ◌∷◌, length, max, ltb, leb, eqb, list_eqb, take, nat_eq, map, if◌then◌else◌,
}
use tortillas.Prelude.Outcome.{Outcome, ok, err, panicked, map_err, ◌>>=◌}
use tortillas.Tracker.Udp.{
  connect as connect_action, Event, stopped, WirePeer, TrackerRequest, connect_request,
  announce_request, TrackerResponse, connect_response, announce_response, error_response,
  TrackerActorError, invalid_response, request_timeout, transaction_mismatch, tracker_error,
  request_transaction_id, magic_constant,
}
use tortillas.Tracker.Udp.Client.{
  Network, ReadyState, ready, disconnected, is_ready, AnnounceParams, UdpTracker, Failure, message,
  of_tracker, Runtime, Parsed, counted, next_random, send_and_recv_retry,
}

-- `message.to_ascii_lowercase().contains("connection id")`.
abbrev pub ascii_lowercase : ℕ → ℕ
ascii_lowercase b = if leb 65 b && leb b 90 then b + 32 else b

abbrev pub contains : List ℕ → List ℕ → Bool
contains needle [] = list_eqb needle []
contains needle (b ∷ bytes) =
    list_eqb needle (take (length needle) (b ∷ bytes)) || contains needle bytes

abbrev pub connection_id_phrase : List ℕ
connection_id_phrase =
    b'c' ∷ b'o' ∷ b'n' ∷ b'n' ∷ b'e' ∷ b'c' ∷ b't' ∷ b'i' ∷ b'o' ∷ b'n' ∷ b' ' ∷ b'i' ∷ b'd' ∷ []

unfoldable pub names_connection_id : List ℕ → Bool
names_connection_id text = contains connection_id_phrase (map ascii_lowercase text)

pub data TrackerUpdate : Type 0 where
  uploaded downloaded left : ℕ → TrackerUpdate
  event : Event → TrackerUpdate

-- `update`.
unfoldable pub update : TrackerUpdate → UdpTracker → UdpTracker
update (uploaded bytes) t = record t {
  announce_params = record t.announce_params { uploaded = bytes };
}
update (downloaded bytes) t = record t {
  announce_params = record t.announce_params { downloaded = bytes };
}
update (left bytes) t = record t { announce_params = record t.announce_params { left = bytes } }
update (event e) t = record t { announce_params = record t.announce_params { event = e } }

unfoldable pub connected : UdpTracker → Option Parsed → Outcome TrackerActorError ℕ × UdpTracker
connected t none = (err (request_timeout (max t.settings.udp_connect_timeout 1)), t)
connected t (some (err e)) = (err e, t)
connected t (some panicked) = (panicked, t)
connected t (some (ok (connect_response action id tid))) =
    (ok id, record t { connection_id = id; ready_state = ready })
connected t (some (ok (error_response action tid text))) = (err (tracker_error text), t)
connected t (some (ok (announce_response action tid interval leechers seeders peers))) =
    (err (invalid_response "Expected connect response"), t)

abbrev pub Announced : Type 0
Announced = Outcome Failure (List WirePeer) × UdpTracker

-- The request of one attempt.
unfoldable pub request_for : UdpTracker → ℕ → TrackerRequest
request_for t tid = announce_request (record {
  connection_id = t.connection_id;
  transaction = tid;
  info_hash = t.info_hash;
  peer_id = t.peer_id;
  downloaded = t.announce_params.downloaded;
  left = t.announce_params.left;
  uploaded = t.announce_params.uploaded;
  event = t.announce_params.event;
  ip_address = t.settings.udp_announce_ip_address;
  key = t.settings.udp_announce_key;
  num_want = t.settings.udp_num_want;
  port = t.peer_port;
})

-- `connect().await?` and the next attempt.
unfoldable pub reconnected :
    (UdpTracker → Announced) → Outcome TrackerActorError ℕ × UdpTracker → Announced
reconnected retry (ok id, t) = retry t
reconnected retry (err e, t) = (err (of_tracker e), t)
reconnected retry (panicked, t) = (panicked, t)

unfoldable pub accept_peers : UdpTracker → ℕ → List WirePeer → UdpTracker
accept_peers t interval peers = record t {
  interval = interval;
  network = record t.network {
    stats = record t.network.stats {
      announce_successes = counted t.network.stats.announce_successes 1;
      total_peers_received = counted t.network.stats.total_peers_received (length peers);
    };
  };
}

-- A tracker with its attempt counted.
abbrev pub attempted : UdpTracker → UdpTracker
attempted t = record t {
  network = record t.network {
    stats = record t.network.stats {
      announce_attempts = counted t.network.stats.announce_attempts 1;
    };
  };
}

unfoldable pub discard : Announced → Outcome Failure (Unit {0}) × UdpTracker
discard (ok peers, t) = (ok tt, t)
discard (err e, t) = (err e, t)
discard (panicked, t) = (panicked, t)

module _ (from_utf8_lossy : List ℕ → List ℕ) (run : Runtime) where
  -- `send_and_wait`.
  unfoldable pub send_and_wait : UdpTracker → TrackerRequest → Network → Parsed × Network
  send_and_wait t request n =
      run.spawn_notify t.settings.udp_retry_delays
        (send_and_recv_retry from_utf8_lossy t.settings.udp_message_timeout request) n

  unfoldable pub connect : UdpTracker → Outcome TrackerActorError ℕ × UdpTracker
  connect t =
      let (tid, n) = next_random t.network in
      let request = connect_request magic_constant connect_action tid in
      let (response, m) = run.timeout t.settings.udp_connect_timeout (send_and_wait t request) n in
      connected (record t { network = m }) response

  -- The `match` on the response of one attempt; `more` is whether another attempt is left.
  unfoldable pub handle_response :
      ℕ → Bool → (UdpTracker → Announced) → Parsed → UdpTracker → Announced
  handle_response tid more retry (err e) t = (err (of_tracker e), t)
  handle_response tid more retry panicked t = (panicked, t)
  handle_response tid more retry (ok (connect_response action id resp_tid)) t =
      (err (of_tracker (invalid_response "Expected announce response")), t)
  handle_response tid more retry
        (ok (announce_response action resp_tid interval leechers seeders peers)) t =
      if eqb resp_tid tid
      then (ok peers, accept_peers t interval peers)
      else (err (of_tracker (transaction_mismatch tid resp_tid)), t)
  handle_response tid more retry (ok (error_response action resp_tid text)) t =
      if more && names_connection_id text
      then reconnected retry (connect (record t { ready_state = disconnected }))
      else (err (of_tracker (tracker_error text)), t)

  -- `for attempt in 0..attempts`, with `remaining` rounds to go and `unreachable!` after the last.
  unfoldable pub announce_loop : ℕ → ℕ → ℕ → UdpTracker → Announced
  announce_loop attempts zero attempt t = (panicked, t)
  announce_loop attempts (suc remaining) attempt t =
      let (tid, n) = next_random t.network in
      let (response, m) = send_and_wait t (request_for t tid) n in
      handle_response tid (ltb (attempt + 1) attempts)
        (λ t. announce_loop attempts remaining (attempt + 1) t) response (record t { network = m })

  unfoldable pub announce : UdpTracker → Announced
  announce t =
      let attempts = max t.settings.udp_connection_id_retry_attempts 1 in
      if is_ready t.ready_state
      then announce_loop attempts attempts 0 (attempted t)
      else (err (message "Tracker not ready for announce request"), t)

  unfoldable pub stop : UdpTracker → Outcome Failure (Unit {0}) × UdpTracker
  stop t =
      if is_ready t.ready_state
      then discard
          (announce (record t { announce_params = record t.announce_params { event = stopped } }))
      else (err (message "Tracker not ready for a stop request"), t)
