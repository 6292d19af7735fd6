-- ===== src/Protocol/Bencode/Length.antt =====
-- `get_extended_message_length` on a dictionary and what follows it.
use tortillas.Prelude.{
  ℕ, zero, suc, ◌+◌, ◌-◌, ◌/◌, ◌%◌, ◌≤◌, ◌≡◌, refl, arith, true, false, some, List, [], ◌∷◌, ◌++◌,
  length, length-append, ap, ◌∙◌, ltb, if◌then◌else◌,
}
use tortillas.Prelude.Outcome.{ok}
use tortillas.Protocol.Message.{ExtendedMessage}
use tortillas.Protocol.Bencode.{
  Bencode, BencodeEvent, number_value, byte_string_value, list_start, list_end, dict_start,
  dict_end, dict_key, parse_error, decimal_loop, decimal_length, event_length, message_length_loop,
  get_extended_message_length,
}

unfoldable pub events_length : List BencodeEvent → ℕ
events_length [] = 0
events_length (event ∷ events) = event_length event + events_length events

-- The dictionaries that the events open are closed, `depth` of them opened before.
abbrev pub Closes : ℕ → List BencodeEvent → Type 0
Closes depth [] = depth ≡ 0
Closes depth (dict_start ∷ events) = Closes (suc depth) events
Closes zero (dict_end ∷ events) = ⊥
Closes (suc depth) (dict_end ∷ events) = Closes depth events
Closes depth (parse_error ∷ events) = ⊥
Closes depth (_ ∷ events) = Closes depth events

message_length_loop-Closes :
    (body : List BencodeEvent) (depth len : ℕ) (more : List BencodeEvent)
    → Closes depth body
    → message_length_loop (suc depth) len (body ++ dict_end ∷ more) ≡ len + events_length body + 1
unfolding message_length_loop events_length event_length
message_length_loop-Closes [] zero len more h = ground arith
message_length_loop-Closes [] (suc depth) len more h = absurd (omega arith)
message_length_loop-Closes (dict_start ∷ body) depth len more h =
    ground (arith, message_length_loop-Closes body (suc depth) (len + 1) more h)
message_length_loop-Closes (dict_end ∷ body) zero len more h = absurd h
message_length_loop-Closes (dict_end ∷ body) (suc depth) len more h =
    ground (arith, message_length_loop-Closes body depth (len + 1) more h)
message_length_loop-Closes (parse_error ∷ body) depth len more h = absurd h
message_length_loop-Closes (number_value s n ∷ body) depth len more h =
    message_length_loop-Closes body depth (len + event_length (number_value s n)) more h
    ∙ omega arith
message_length_loop-Closes (byte_string_value b ∷ body) depth len more h =
    message_length_loop-Closes body depth (len + event_length (byte_string_value b)) more h
    ∙ omega arith
message_length_loop-Closes (dict_key b ∷ body) depth len more h =
    message_length_loop-Closes body depth (len + event_length (dict_key b)) more h ∙ omega arith
message_length_loop-Closes (list_start ∷ body) depth len more h =
    ground (arith, message_length_loop-Closes body depth (len + 1) more h)
message_length_loop-Closes (list_end ∷ body) depth len more h =
    ground (arith, message_length_loop-Closes body depth (len + 1) more h)

-- A number in decimal digits.
unfoldable pub digits_loop : ℕ → ℕ → List ℕ
digits_loop zero n = (b'0' + n) ∷ []
digits_loop (suc fuel) n =
    let rest = digits_loop fuel (n / 10) ++ (b'0' + n % 10) ∷ [] in
    if ltb n 10 then (b'0' + n) ∷ [] else rest

unfoldable pub digits : ℕ → List ℕ
unfolding digits_loop
digits n = digits_loop n n

length-digits_loop : (fuel n : ℕ) → length (digits_loop fuel n) ≡ decimal_loop fuel n
unfolding digits_loop decimal_loop
length-digits_loop zero n = refl
length-digits_loop (suc fuel) n = ground (
  arith,
  length-digits_loop fuel (n / 10),
  length-append (digits_loop fuel (n / 10)) ((b'0' + n % 10) ∷ []),
)

length-digits : (n : ℕ) → length (digits n) ≡ decimal_length n
unfolding digits decimal_length
length-digits n = length-digits_loop n n

-- The bytes that an event stands for in bencode.
unfoldable pub event_bytes : BencodeEvent → List ℕ
event_bytes (number_value negative n) =
    b'i' ∷ ((if negative then b'-' ∷ [] else []) ++ (digits n ++ b'e' ∷ []))
event_bytes (byte_string_value bytes) = digits (length bytes) ++ b':' ∷ bytes
event_bytes (dict_key bytes) = digits (length bytes) ++ b':' ∷ bytes
event_bytes list_start = b'l' ∷ []
event_bytes list_end = b'e' ∷ []
event_bytes dict_start = b'd' ∷ []
event_bytes dict_end = b'e' ∷ []
event_bytes parse_error = []

unfoldable pub events_bytes : List BencodeEvent → List ℕ
events_bytes [] = []
events_bytes (event ∷ events) = event_bytes event ++ events_bytes events

length-event_bytes : (event : BencodeEvent) → length (event_bytes event) ≡ event_length event
unfolding event_bytes event_length
length-event_bytes (number_value true n) =
    omega (arith, length-append (digits n) (b'e' ∷ []), length-digits n)
length-event_bytes (number_value false n) =
    omega (arith, length-append (digits n) (b'e' ∷ []), length-digits n)
length-event_bytes (byte_string_value bytes) =
    omega
      (arith, length-append (digits (length bytes)) (b':' ∷ bytes), length-digits (length bytes))
length-event_bytes (dict_key bytes) =
    omega
      (arith, length-append (digits (length bytes)) (b':' ∷ bytes), length-digits (length bytes))
length-event_bytes list_start = refl
length-event_bytes list_end = refl
length-event_bytes dict_start = refl
length-event_bytes dict_end = refl
length-event_bytes parse_error = refl

length-events_bytes :
    (events : List BencodeEvent) → length (events_bytes events) ≡ events_length events
unfolding events_bytes events_length
length-events_bytes [] = refl
length-events_bytes (event ∷ events) = omega (
  arith,
  length-append (event_bytes event) (events_bytes events),
  length-event_bytes event,
  length-events_bytes events,
)

-- What the bencode crates say of one message that was encoded: it is a dictionary in bencode, of which
-- the streaming parser gives the events, and it parses back.
pub record IsEncoding (bencode : Bencode) (message : ExtendedMessage) (bytes rest : List ℕ)
    : Type 0 where
  pub encodes : bencode.to_bytes message ≡ some bytes
  pub parses : bencode.from_bytes bytes ≡ ok message
  pub body : List BencodeEvent
  pub more : List BencodeEvent
  pub dictionary : bencode.events (bytes ++ rest) ≡ dict_start ∷ (body ++ dict_end ∷ more)
  pub closes : Closes 0 body
  pub canonical : bytes ≡ b'd' ∷ (events_bytes body ++ b'e' ∷ [])

pub IsEncoding-length :
    {bencode : Bencode} {message : ExtendedMessage} {bytes rest : List ℕ}
    (h : IsEncoding bencode message bytes rest)
    → length bytes ≡ 1 + events_length h.body + 1
IsEncoding-length h =
    ap length h.canonical
    ∙ omega (arith, length-append (events_bytes h.body) (b'e' ∷ []), length-events_bytes h.body)

-- For an extended message that is encoded as a dictionary in bencode, numbers and lengths in decimal
-- without leading zeros, the counted length is that of the encoding, whatever follows it.
pub get_extended_message_length-IsEncoding :
    (bencode : Bencode) (message : ExtendedMessage) (bytes rest : List ℕ)
    → IsEncoding bencode message bytes rest
    → get_extended_message_length bencode (bytes ++ rest) ≡ length bytes
unfolding get_extended_message_length
get_extended_message_length-IsEncoding bencode message bytes rest h =
    ap (message_length_loop 0 0) h.dictionary
    ∙ unfold message_length_loop in
      message_length_loop-Closes h.body 0 1 h.more h.closes ∙ omega (arith, IsEncoding-length h)

-- No prefix of the events counts more than all of them.
pub message_length_loop-le :
    (events : List BencodeEvent) (depth len : ℕ)
    → message_length_loop depth len events ≤ len + events_length events
unfolding message_length_loop events_length event_length
message_length_loop-le [] depth len = omega arith
message_length_loop-le (dict_start ∷ events) depth len =
    omega (arith, message_length_loop-le events (depth + 1) (len + 1))
message_length_loop-le (dict_end ∷ events) depth len =
    ground (arith, message_length_loop-le events (depth - 1) (len + 1))
message_length_loop-le (parse_error ∷ events) depth len = omega arith
message_length_loop-le (number_value s n ∷ events) depth len =
    omega (arith, message_length_loop-le events depth (len + event_length (number_value s n)))
message_length_loop-le (byte_string_value b ∷ events) depth len =
    omega (arith, message_length_loop-le events depth (len + event_length (byte_string_value b)))
message_length_loop-le (dict_key b ∷ events) depth len =
    omega (arith, message_length_loop-le events depth (len + event_length (dict_key b)))
message_length_loop-le (list_start ∷ events) depth len =
    omega (arith, message_length_loop-le events depth (len + event_length list_start))
message_length_loop-le (list_end ∷ events) depth len =
    omega (arith, message_length_loop-le events depth (len + event_length list_end))
