-- ===== src/Tracker/Udp/Wire.antt =====
-- The datagrams of tracker/udp.rs: their widths, and reading a response back.
use tortillas.Prelude.{
  ℕ, zero, suc, ◌+◌, ◌*◌, ◌/◌, ◌≤◌, ◌<◌, ◌≡◌, ◌≢◌, refl, arith, Option, none, some, List, [], ◌∷◌,
  ◌++◌, length, length-append, All, ltb, map, if◌then◌else◌,
}
use tortillas.Prelude.Outcome.{ok, err, panicked, unwrap, ◌>>=◌}
use tortillas.Bytes.{u16_be, u32_be, u64_be, get_u16, get_u32, get_u64, IsU16, IsU32, IsU64}
use tortillas.Bytes.RoundTrip.{
  get_u16-u16_be, get_u32-u32_be, get_u64-u64_be, get_u32_enough, get_u64_enough,
}
use tortillas.Tracker.Udp.{
  Action, connect, announce, scrape, error, event_code, action_of, WirePeer, from_ipv4,
  AnnounceRequest, connect_request, announce_request, connect_response, announce_response,
  error_response, to_bytes, parse_peers, parse_connect, parse_announce, parse_error, parse_response,
  from_bytes, Parsed, TrackerActorError,
}

-- What follows the two identifiers in an announce request.
abbrev after_ids : AnnounceRequest → List ℕ
after_ids r =
    u64_be r.downloaded
    ++ (u64_be r.left
        ++ (u64_be r.uploaded
            ++ (u32_be (event_code r.event)
                ++ (u32_be r.ip_address
                    ++ (u32_be r.key ++ (u32_be r.num_want ++ u16_be r.port))))))

-- BEP 15 fixes the width of each request: 16 bytes to connect, and 98 to announce a torrent with a
-- 20-byte hash and peer id.
length-to_bytes :
    (id tid : ℕ) (action : Action) (r : AnnounceRequest)
    → length r.info_hash ≡ 20
    → length r.peer_id ≡ 20
    → (length (to_bytes (connect_request id action tid)) ≡ 16)
      × (length (to_bytes (announce_request r)) ≡ 98)
unfolding to_bytes
length-to_bytes id tid action r h k =
    let outer = length-append r.info_hash (r.peer_id ++ after_ids r) in
    let inner = length-append r.peer_id (after_ids r) in (refl, omega (arith, h, k, outer, inner))

parse_peers-ne-panicked : (n : ℕ) (buf : List ℕ) → parse_peers n buf ≢ panicked
unfolding parse_peers get_u32 get_u16
parse_peers-ne-panicked zero buf h = cc
parse_peers-ne-panicked (suc n) (a ∷ b ∷ c ∷ d ∷ e ∷ f ∷ buf) h =
    ground (arith, h, parse_peers-ne-panicked n buf)
parse_peers-ne-panicked (suc n) buf h = ground (arith, h)

module _ {B : Type 0} (buf : List ℕ) (k : ℕ × List ℕ → Parsed B) where
  after_u32 :
      4 ≤ length buf
      → ((v : ℕ) (rest : List ℕ) → length buf ≡ length rest + 4 → k (v, rest) ≢ panicked)
      → (unwrap (get_u32 buf) >>= k) ≢ panicked
  after_u32 h f = let (v, rest, e, l) = get_u32_enough buf h in rw e (f v rest l)

  after_u64 :
      8 ≤ length buf
      → ((v : ℕ) (rest : List ℕ) → length buf ≡ length rest + 8 → k (v, rest) ≢ panicked)
      → (unwrap (get_u64 buf) >>= k) ≢ panicked
  after_u64 h f = let (v, rest, e, l) = get_u64_enough buf h in rw e (f v rest l)

-- A test of the length, and what comes after it.
guarded :
    {B : Type 0} (size least : ℕ) (e : TrackerActorError) (o : Parsed B)
    → (least ≤ size → o ≢ panicked)
    → (if ltb size least then err e else o) ≢ panicked
guarded size least e o f h = ground (arith, f, h)

parse_connect-ne-panicked :
    (action : Action) (size : ℕ) (buf : List ℕ)
    → size ≡ length buf + 4
    → parse_connect action size buf ≢ panicked
unfolding parse_connect
parse_connect-ne-panicked action size buf e = guarded size 16 _ _ λ least.
    after_u32 buf _ (omega arith) λ tid buf1 l1. after_u64 buf1 _ (omega arith) λ id buf2 l2 h. cc

parse_announce-ne-panicked :
    (action : Action) (size : ℕ) (buf : List ℕ)
    → size ≡ length buf + 4
    → parse_announce action size buf ≢ panicked
unfolding parse_announce
parse_announce-ne-panicked action size buf e = guarded size 20 _ _ λ least.
    after_u32 buf _ (omega arith) λ tid buf1 l1. after_u32 buf1 _ (omega arith) λ interval buf2 l2.
      after_u32 buf2 _ (omega arith) λ leechers buf3 l3.
        after_u32 buf3 _ (omega arith)
          λ seeders buf4 l4 h. ground (arith, h, parse_peers-ne-panicked (length buf4 / 6) buf4)

parse_response-ne-panicked :
    (lossy : List ℕ → List ℕ) (code size : ℕ) (buf : List ℕ) (o : Option Action)
    → size ≡ length buf + 4
    → parse_response lossy code buf o size ≢ panicked
unfolding parse_response parse_error
parse_response-ne-panicked lossy code size buf none e = λ h. cc
parse_response-ne-panicked lossy code size buf (some connect) e =
    parse_connect-ne-panicked connect size buf e
parse_response-ne-panicked lossy code size buf (some announce) e =
    parse_announce-ne-panicked announce size buf e
parse_response-ne-panicked lossy code size buf (some scrape) e = λ h. cc
parse_response-ne-panicked lossy code size buf (some error) e =
    guarded size 8 _ _ λ least. after_u32 buf _ (omega arith) λ tid buf1 l1 h. cc

-- No datagram makes the receiver panic: each read is behind a test of the length.
pub from_bytes-ne-panicked :
    (lossy : List ℕ → List ℕ) (bytes : List ℕ) → from_bytes lossy bytes ≢ panicked
unfolding from_bytes
from_bytes-ne-panicked lossy bytes = guarded (length bytes) 4 _ _ λ least.
    after_u32 bytes _ least
      λ code buf l. parse_response-ne-panicked lossy code (length bytes) buf (action_of code) l

-- A peer as a tracker writes it.
abbrev pub peer_bytes : ℕ × ℕ → List ℕ
peer_bytes (ip, port) = u32_be ip ++ u16_be port

abbrev pub peers_bytes : List (ℕ × ℕ) → List ℕ
peers_bytes [] = []
peers_bytes (p ∷ ps) = peer_bytes p ++ peers_bytes ps

abbrev pub IsEndpoint : ℕ × ℕ → Type 0
IsEndpoint (ip, port) = IsU32 ip × IsU16 port

abbrev pub wire_peer : ℕ × ℕ → WirePeer
wire_peer (ip, port) = from_ipv4 (u32_be ip) port

parse_peers-peers_bytes :
    (ps : List (ℕ × ℕ)) (rest : List ℕ)
    → All IsEndpoint ps
    → parse_peers (length ps) (peers_bytes ps ++ rest) ≡ ok (map wire_peer ps)
unfolding parse_peers
parse_peers-peers_bytes [] rest h = refl
parse_peers-peers_bytes ((ip, port) ∷ ps) rest ((hi, hp), h) = ground (
  arith,
  get_u32-u32_be ip (u16_be port ++ (peers_bytes ps ++ rest)) hi,
  get_u16-u16_be port (peers_bytes ps ++ rest) hp,
  parse_peers-peers_bytes ps rest h,
)

-- A response as a tracker writes it.
abbrev pub connect_bytes : ℕ → ℕ → List ℕ
connect_bytes tid id = u32_be 0 ++ (u32_be tid ++ u64_be id)

abbrev pub announce_fields : ℕ → ℕ → ℕ → ℕ → List ℕ → List ℕ
announce_fields tid interval leechers seeders peers =
    u32_be tid ++ (u32_be interval ++ (u32_be leechers ++ (u32_be seeders ++ peers)))

abbrev pub announce_bytes : ℕ → ℕ → ℕ → ℕ → List ℕ → List ℕ
announce_bytes tid interval leechers seeders peers =
    u32_be 1 ++ announce_fields tid interval leechers seeders peers

abbrev pub error_bytes : ℕ → List ℕ → List ℕ
error_bytes tid message = u32_be 3 ++ (u32_be tid ++ message)

length-peers_bytes : (ps : List (ℕ × ℕ)) → length (peers_bytes ps) ≡ 6 * length ps
length-peers_bytes [] = omega arith
length-peers_bytes (p ∷ ps) = omega (arith, length-peers_bytes ps)

-- A connect response is read back.
from_bytes-connect_bytes :
    (lossy : List ℕ → List ℕ) (tid id : ℕ)
    → IsU32 tid
    → IsU64 id
    → from_bytes lossy (connect_bytes tid id) ≡ ok (connect_response connect id tid)
unfolding from_bytes parse_response parse_connect
from_bytes-connect_bytes lossy tid id h k = ground (
  arith,
  get_u32-u32_be 0 (u32_be tid ++ u64_be id),
  get_u32-u32_be tid (u64_be id) h,
  get_u64-u64_be id [] k,
)

from_bytes-error_bytes :
    (lossy : List ℕ → List ℕ) (tid : ℕ) (message : List ℕ)
    → IsU32 tid
    → from_bytes lossy (error_bytes tid message) ≡ ok (error_response error tid (lossy message))
unfolding from_bytes parse_response parse_error
from_bytes-error_bytes lossy tid message h =
    ground (arith, get_u32-u32_be 3 (u32_be tid ++ message), get_u32-u32_be tid message h)

parse_announce-bytes :
    (tid interval leechers seeders size : ℕ) (ps : List (ℕ × ℕ)) (rest : List ℕ)
    → IsU32 tid
    → IsU32 interval
    → IsU32 leechers
    → IsU32 seeders
    → All IsEndpoint ps
    → length rest < 6
    → 20 ≤ size
    → parse_announce announce size
        (announce_fields tid interval leechers seeders (peers_bytes ps ++ rest))
      ≡ ok (announce_response announce tid interval leechers seeders (map wire_peer ps))
unfolding parse_announce
parse_announce-bytes tid interval leechers seeders size ps rest ht hi hl hs hp hr hz =
    let body = peers_bytes ps ++ rest in
    let count : length body / 6 ≡ length ps =
      omega (arith, length-append (peers_bytes ps) rest, length-peers_bytes ps, hr) in
    ground (
      arith,
      count,
      get_u32-u32_be tid (u32_be interval ++ (u32_be leechers ++ (u32_be seeders ++ body))) ht,
      get_u32-u32_be interval (u32_be leechers ++ (u32_be seeders ++ body)) hi,
      get_u32-u32_be leechers (u32_be seeders ++ body) hl,
      get_u32-u32_be seeders body hs,
      parse_peers-peers_bytes ps rest hp,
    )

-- Each response that a tracker may send, its numbers in their types' ranges, is read back as it was
-- meant: to connect, to announce with any number of peers and fewer than six bytes after the last
-- of them, and an error with its message.
pub from_bytes-response :
    (lossy : List ℕ → List ℕ) (tid id interval leechers seeders : ℕ) (ps : List (ℕ × ℕ))
    (rest message : List ℕ)
    → IsU32 tid
    → IsU64 id
    → IsU32 interval
    → IsU32 leechers
    → IsU32 seeders
    → All IsEndpoint ps
    → length rest < 6
    → (from_bytes lossy (connect_bytes tid id) ≡ ok (connect_response connect id tid))
      × (from_bytes lossy (announce_bytes tid interval leechers seeders (peers_bytes ps ++ rest))
          ≡ ok (announce_response announce tid interval leechers seeders (map wire_peer ps)))
      × (from_bytes lossy (error_bytes tid message) ≡ ok (error_response error tid (lossy message)))
unfolding from_bytes parse_response
from_bytes-response lossy tid id interval leechers seeders ps rest message ht hd hi hl hs hp hr = (
  from_bytes-connect_bytes lossy tid id ht hd,
  ground (
    arith,
    get_u32-u32_be 1 (announce_fields tid interval leechers seeders (peers_bytes ps ++ rest)),
    parse_announce-bytes tid interval leechers seeders
        (length (announce_bytes tid interval leechers seeders (peers_bytes ps ++ rest))) ps rest ht
        hi hl hs hp hr (omega arith),
  ),
  from_bytes-error_bytes lossy tid message ht,
)
