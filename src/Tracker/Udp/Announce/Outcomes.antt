-- ===== src/Tracker/Udp/Announce/Outcomes.antt =====
-- What one attempt leaves behind, and what an announce may come to.
use tortillas.Prelude.{
  ℕ, zero, suc, ◌+◌, ◌≤◌, ◌≡◌, refl, ap, ◌∙◌, arith, Bool, true, ◌&&◌, Option, none, some, inl, inr,
  List, [], ◌∷◌, length, ltb, eqb, eqb_iff, nat_eq, Bool-cases, if◌then◌else◌,
}
use tortillas.Prelude.Map.{Map, lookup, insert, remove, lookup-remove, lookup-insert}
use tortillas.Prelude.Outcome.{Outcome, ok, err, panicked, map_err}
use tortillas.Tracker.Udp.{
  TrackerRequest, TrackerResponse, connect_response, announce_response, error_response,
  TrackerActorError, transaction_mismatch, request_transaction_id, transaction_id, from_bytes,
  magic_constant, connect_request, connect as connect_action,
}
use tortillas.Tracker.Udp.Client.{
  Exchange, Network, ReadyState, ready, disconnected, UdpTracker, cause, message, of_tracker,
  Runtime, IsRuntime, Parsed, next_random, deliver, recv, take_response, exchange, next_exchange,
  drop_registration, recv_registered_response, send_and_recv_retry, register_transaction,
  unregister_transaction,
}
use tortillas.Tracker.Udp.Announce.{
  send_and_wait, connected, connect, Announced, request_for, reconnected, handle_response,
  announce_loop, announce, names_connection_id, accept_peers,
}

-- An error other than a transaction mismatch.
abbrev pub IsNoMismatch : TrackerActorError → Type 0
IsNoMismatch (transaction_mismatch expected received) = ⊥
IsNoMismatch _ = Unit {0}

-- A response to the transaction, or an error other than a mismatch.
abbrev pub IsReply : ℕ → Parsed → Type 0
IsReply tid (ok response) = transaction_id response ≡ tid
IsReply tid (err e) = IsNoMismatch e
IsReply tid panicked = ⊥

deliver-tid :
    (channels : Map ℕ (Unit {0})) (tid size n : ℕ) (o : Parsed) (r : TrackerResponse)
    → deliver channels tid n o ≡ some (size, r)
    → transaction_id r ≡ tid
unfolding deliver
deliver-tid channels tid size n (ok response) r h = ground (arith, h)
deliver-tid channels tid size n (err e) r h = absurd (ground (arith, h))
deliver-tid channels tid size n panicked r h = absurd (ground (arith, h))

module _ (lossy : List ℕ → List ℕ) where
  recv-tid :
      (channels : Map ℕ (Unit {0})) (tid size : ℕ) (received : List (List ℕ)) (r : TrackerResponse)
      → recv lossy channels tid received ≡ some (size, r)
      → transaction_id r ≡ tid
  unfolding recv
  recv-tid channels tid size [] r h = absurd (ground (arith, h))
  recv-tid channels tid size (d ∷ received) r h = ground (
    arith,
    h,
    recv-tid channels tid size received r,
    deliver-tid channels tid size (length d) (from_bytes lossy d) r,
  )

  take_response-IsReply :
      (seconds tid : ℕ) (n : Network) (o : Option (ℕ × TrackerResponse))
      → ((size : ℕ) (r : TrackerResponse) → o ≡ some (size, r) → transaction_id r ≡ tid)
      → IsReply tid (map_err cause (take_response seconds n o).0)
  unfolding take_response
  take_response-IsReply seconds tid n none h = tt
  take_response-IsReply seconds tid n (some (size, r)) h = h size r refl

  exchange-IsReply :
      (seconds tid : ℕ) (sent : Option ℕ) (received : List (List ℕ)) (n : Network)
      → IsReply tid (map_err cause (exchange lossy seconds tid sent received n).0)
  unfolding exchange recv_registered_response
  exchange-IsReply seconds tid none received n = tt
  exchange-IsReply seconds tid (some bytes) received n =
      take_response-IsReply seconds tid _ _
        λ size r. recv-tid n.response_channels tid size received r

  next_exchange-IsReply :
      (seconds tid : ℕ) (exchanges : List Exchange) (n : Network)
      → IsReply tid (map_err cause (next_exchange lossy seconds tid exchanges n).0)
  unfolding next_exchange
  next_exchange-IsReply seconds tid [] n = exchange-IsReply seconds tid none [] n
  next_exchange-IsReply seconds tid (e ∷ rest) n = exchange-IsReply seconds tid e.sent e.received _

  send_and_recv_retry-IsReply :
      (seconds : ℕ) (request : TrackerRequest) (n : Network)
      → IsReply
          (request_transaction_id request)
          (map_err cause (send_and_recv_retry lossy seconds request n).0)
  unfolding send_and_recv_retry drop_registration
  send_and_recv_retry-IsReply seconds request n =
      next_exchange-IsReply seconds (request_transaction_id request) n.exchanges _

channels-take_response :
    (seconds : ℕ) (n : Network) (o : Option (ℕ × TrackerResponse))
    → (take_response seconds n o).1.response_channels ≡ n.response_channels
unfolding take_response
channels-take_response seconds n none = refl
channels-take_response seconds n (some (size, r)) = refl

channels-exchange :
    (lossy : List ℕ → List ℕ) (seconds tid : ℕ) (sent : Option ℕ) (received : List (List ℕ))
    (n : Network)
    → (exchange lossy seconds tid sent received n).1.response_channels ≡ n.response_channels
unfolding exchange recv_registered_response
channels-exchange lossy seconds tid none received n = refl
channels-exchange lossy seconds tid (some bytes) received n = channels-take_response seconds _ _

channels-next_exchange :
    (lossy : List ℕ → List ℕ) (seconds tid : ℕ) (exchanges : List Exchange) (n : Network)
    → (next_exchange lossy seconds tid exchanges n).1.response_channels ≡ n.response_channels
unfolding next_exchange exchange
channels-next_exchange lossy seconds tid [] n = refl
channels-next_exchange lossy seconds tid (e ∷ rest) n =
    channels-exchange lossy seconds tid e.sent e.received _

-- However an attempt ends, its own transaction is registered no more, and every other transaction is
-- registered as before.
pub send_and_recv_retry-unregisters :
    (lossy : List ℕ → List ℕ) (seconds : ℕ) (request : TrackerRequest) (n : Network) (tid : ℕ)
    → lookup tid (send_and_recv_retry lossy seconds request n).1.response_channels
      ≡ (if eqb (request_transaction_id request) tid then none else lookup tid n.response_channels)
unfolding send_and_recv_retry drop_registration register_transaction unregister_transaction
send_and_recv_retry-unregisters lossy seconds request n tid =
    let own = request_transaction_id request in
    let channels = insert own tt n.response_channels in
    let same = channels-next_exchange lossy seconds own n.exchanges (register_transaction own n) in
    ap (λ m. lookup tid (remove own m)) same
    ∙ ground (arith, lookup-remove own tid channels, lookup-insert own tid tt n.response_channels)

-- An error of an announce is not a transaction mismatch, it does not panic, and it ends with peers
-- only on a tracker that is ready.
abbrev pub IsSettled : Announced → Type 0
IsSettled (ok peers, t) = t.ready_state ≡ ready
IsSettled (err (message text), t) = Unit {0}
IsSettled (err (of_tracker e), t) = IsNoMismatch e
IsSettled (panicked, t) = ⊥

-- Connecting ends ready, or with an error other than a mismatch.
abbrev IsConnected : Outcome TrackerActorError ℕ × UdpTracker → Type 0
IsConnected (ok id, t) = t.ready_state ≡ ready
IsConnected (err e, t) = IsNoMismatch e
IsConnected (panicked, t) = ⊥

abbrev IsAnswer : ℕ → Option Parsed → Type 0
IsAnswer tid none = Unit {0}
IsAnswer tid (some p) = IsReply tid p

connected-IsConnected :
    (t : UdpTracker) (tid : ℕ) (o : Option Parsed) → IsAnswer tid o → IsConnected (connected t o)
unfolding connected
connected-IsConnected t tid none h = tt
connected-IsConnected t tid (some (err e)) h = h
connected-IsConnected t tid (some panicked) h = h
connected-IsConnected t tid (some (ok (connect_response a i n))) h = refl
connected-IsConnected t tid (some (ok (announce_response a n i l s ps))) h = tt
connected-IsConnected t tid (some (ok (error_response a n text))) h = tt

module _ (lossy : List ℕ → List ℕ) (run : Runtime) (w : IsRuntime run) where
  send_and_wait-IsReply :
      (t : UdpTracker) (request : TrackerRequest) (n : Network)
      → IsReply (request_transaction_id request) (send_and_wait lossy run t request n).0
  unfolding send_and_wait
  send_and_wait-IsReply t request n =
      let (m, e) =
        w.spawn_notify-returns t.settings.udp_retry_delays
          (send_and_recv_retry lossy t.settings.udp_message_timeout request) n in
      rw e (send_and_recv_retry-IsReply lossy t.settings.udp_message_timeout request m)

  connect-IsConnected : (t : UdpTracker) → IsConnected (connect lossy run t)
  unfolding connect
  connect-IsConnected t =
      let (tid, n) = next_random t.network in
      let request = connect_request magic_constant connect_action tid in
      let r = run.timeout t.settings.udp_connect_timeout (send_and_wait lossy run t request) n in
      connected-IsConnected (record t { network = r.1 }) (request_transaction_id request) r.0
        (elim (w.timeout-returns t.settings.udp_connect_timeout (send_and_wait lossy run t request)
          n) [ inl e ↦ rw e tt | inr (m, e) ↦ rw e (send_and_wait-IsReply t request m) ])

  reconnected-IsSettled :
      (retry : UdpTracker → Announced) (a : Outcome TrackerActorError ℕ × UdpTracker)
      → IsConnected a
      → ((t : UdpTracker) → t.ready_state ≡ ready → IsSettled (retry t))
      → IsSettled (reconnected retry a)
  unfolding reconnected
  reconnected-IsSettled retry (ok id, t) c h = h t c
  reconnected-IsSettled retry (err e, t) c h = c
  reconnected-IsSettled retry (panicked, t) c h = c

  handle_response-IsSettled :
      (tid : ℕ) (more : Bool) (retry : UdpTracker → Announced) (p : Parsed) (t : UdpTracker)
      → IsReply tid p
      → t.ready_state ≡ ready
      → (more ≡ true → (t : UdpTracker) → t.ready_state ≡ ready → IsSettled (retry t))
      → IsSettled (handle_response lossy run tid more retry p t)
  unfolding handle_response accept_peers transaction_id
  handle_response-IsSettled tid more retry (err e) t p r h = p
  handle_response-IsSettled tid more retry panicked t p r h = p
  handle_response-IsSettled tid more retry (ok (connect_response a i n)) t p r h = tt
  handle_response-IsSettled tid more retry (ok (announce_response a resp_tid i l s ps)) t p r h =
      rw ((eqb_iff resp_tid tid).1 p) r
  handle_response-IsSettled tid more retry (ok (error_response a n text)) t p r h =
      elim (Bool-cases (more && names_connection_id text)) [
        | inl named ↦
            rw named
              (reconnected-IsSettled retry _ (connect-IsConnected _) (h (ground (arith, named))))
        | inr other ↦ rw other tt
      ]

  announce_loop-IsSettled :
      (attempts remaining attempt : ℕ) (t : UdpTracker)
      → remaining + attempt ≡ attempts
      → 1 ≤ remaining
      → t.ready_state ≡ ready
      → IsSettled (announce_loop lossy run attempts remaining attempt t)
  unfolding announce_loop request_for request_transaction_id
  announce_loop-IsSettled attempts zero attempt t e l r = absurd (omega arith)
  announce_loop-IsSettled attempts (suc remaining) attempt t e l r =
      let (tid, n) = next_random t.network in
      let request = request_for t tid in
      handle_response-IsSettled tid (ltb (attempt + 1) attempts) _
        (send_and_wait lossy run t request n).0 _ (send_and_wait-IsReply t request n) r
        λ more t r1.
          announce_loop-IsSettled attempts remaining (attempt + 1) t (omega arith)
            (ground (arith, more, e)) r1

  -- Over a runtime that returns what its actions return, an announce never panics, so
  -- `unreachable!` is never reached; it never ends in the transaction mismatch that it tests for,
  -- since the server routes responses by their transaction; and it gives peers only while the
  -- tracker is ready, also where it has reconnected in between.
  pub announce-IsSettled : (t : UdpTracker) → IsSettled (announce lossy run t)
  unfolding announce
  announce-IsSettled t = settled t.ready_state refl
    where
      settled : (s : ReadyState) → t.ready_state ≡ s → IsSettled (announce lossy run t)
      settled ready e = rw e (announce_loop-IsSettled _ _ 0 _ (omega arith) (omega arith) refl)
      settled disconnected e = rw e tt
