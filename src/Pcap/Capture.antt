-- ===== src/Pcap/Capture.antt =====
-- The first half of `analyze_capture` of analyze-pcap.py: the connections, the Kafka messages and
-- the network counters of the rows of a capture, and which connections are selected.
--
-- A row has the columns as `integers`, `boolean` and `bytes_field` read them, and whether "tls" is
-- one of its protocols.
pub mod Roles
use coroutines_kafka_consume.Prelude.{
  ℕ, ◌+◌, ◌*◌, Bool, true, false, not, ◌&&◌, ◌||◌, Option, none, some, String, List, [], ◌∷◌, ◌++◌,
  HasEq, ◌==◌, string_eq, nat_eq, pair_eq, if◌then◌else◌, map, length,
}
use coroutines_kafka_consume.Prelude.Int.{
  ℤ, pos, negsuc, ◌+ℤ◌, ◌-ℤ◌, ltb_ℤ, leb_ℤ, max_ℤ, int_eq, clip,
}
use coroutines_kafka_consume.Dict.{Dict, lookup, insert}
use coroutines_kafka_consume.Pcap.Bytes.{Bytes}

pub record Row : Type 0 where
  pub stream : List ℤ
  pub frame_len : List ℤ
  pub frame_cap_len : List ℤ
  pub ip_len : List ℤ
  pub ip_hdr_len : List ℤ
  pub ipv6_plen : List ℤ
  pub dstport : List ℤ
  pub tcp_len : List ℤ
  pub tcp_hdr_len : List ℤ
  pub syn : Bool
  pub ack : Bool
  pub fin : Bool
  pub reset : Bool
  pub retransmission : Bool
  pub has_tls : Bool
  pub kafka_len : List ℤ
  pub request_key : List ℤ
  pub response_key : List ℤ
  pub api_version : List ℤ
  pub correlation_id : List ℤ
  pub tls_record_length : List ℤ
  pub reassembled : Bytes
  pub payload : Bytes

-- integer(value, default) of a column that `integers` has read
abbrev pub integer : List ℤ → ℤ → ℤ
integer [] default = default
integer (n ∷ ns) default = n

abbrev pub minus_one : ℤ
minus_one = negsuc 0

abbrev pub is_negative : ℤ → Bool
is_negative n = ltb_ℤ n (pos 0)

pub record Connection : Type 0 where
  pub request_apis : List ℤ
  pub opened : Bool
  pub finished : Bool
  pub was_reset : Bool

abbrev pub new_connection : Connection
new_connection = record { request_apis = []; opened = false; finished = false; was_reset = false }

pub data Direction : Type 0 where
  request response : Direction

pub record Message : Type 0 where
  pub stream : ℤ
  pub direction : Direction
  pub api_key : ℤ
  pub api_version : ℤ
  pub correlation : ℤ
  pub bytes : ℤ
  pub raw : Bytes

pub record Capture : Type 0 where
  pub connections : Dict ℤ Connection
  pub request_by_correlation : Dict (ℤ × ℤ) (ℤ × ℤ)
  pub messages : List Message
  pub tls_detected : Bool

abbrev pub no_rows : Capture
no_rows = record {
  connections = [];
  request_by_correlation = [];
  messages = [];
  tls_detected = false;
}

abbrev pub or_new : Option Connection → Connection
or_new none = new_connection
or_new (some connection) = connection

-- request_apis.add(request_api) of a set
abbrev pub is_member : ℤ → List ℤ → Bool
is_member n [] = false
is_member n (m ∷ ns) = m == n || is_member n ns

abbrev pub add_api : ℤ → List ℤ → List ℤ
add_api api apis = if is_member api apis then apis else apis ++ (api ∷ [])

abbrev pub request_api_of : Row → ℤ
request_api_of row = integer row.request_key minus_one

abbrev pub correlation_of : Row → ℤ
correlation_of row = integer row.correlation_id minus_one

abbrev pub api_version_of : Row → ℤ
api_version_of row = integer row.api_version minus_one

unfoldable pub see_connection : Row → Connection → Connection
see_connection row connection = record {
  request_apis =
      if is_negative (request_api_of row)
      then connection.request_apis
      else add_api (request_api_of row) connection.request_apis;
  opened = connection.opened || (row.syn && not row.ack);
  finished = connection.finished || row.fin;
  was_reset = connection.was_reset || row.reset;
}

-- The request that a response with the same correlation on the same stream answers.
unfoldable pub see_request : ℤ → Row → Dict (ℤ × ℤ) (ℤ × ℤ) → Dict (ℤ × ℤ) (ℤ × ℤ)
unfolding insert
see_request stream row requests =
    if is_negative (request_api_of row) || is_negative (correlation_of row)
    then requests
    else insert (stream, correlation_of row) (request_api_of row, api_version_of row) requests

abbrev pub direction_of : Row → Direction
direction_of row =
    if not (is_negative (request_api_of row)) || integer row.dstport minus_one == pos 9092
    then Direction.request
    else Direction.response

abbrev pub api_key_of : Direction → Row → ℤ
api_key_of Direction.request row = request_api_of row
api_key_of Direction.response row = integer row.response_key minus_one

-- sum(length + extra for length in lengths)
abbrev pub sum_with : ℤ → List ℤ → ℤ
sum_with extra [] = pos 0
sum_with extra (n ∷ ns) = (n +ℤ extra) +ℤ sum_with extra ns

-- a or b, of byte strings
abbrev pub first_of : Bytes → Bytes → Bytes
first_of [] b = b
first_of (x ∷ a) b = x ∷ a

unfoldable pub message_of : ℤ → Row → Message
unfolding ◌+ℤ◌
message_of stream row = record {
  stream = stream;
  direction = direction_of row;
  api_key = api_key_of (direction_of row) row;
  api_version = api_version_of row;
  correlation = correlation_of row;
  bytes = sum_with (pos 4) row.kafka_len;
  raw = first_of row.reassembled row.payload;
}

abbrev pub messages_of : ℤ → Row → List ℤ → List Message
messages_of stream row [] = []
messages_of stream row (n ∷ ns) = message_of stream row ∷ []

unfoldable pub scan_row : Row → Capture → Capture
unfolding lookup insert see_connection see_request message_of
scan_row row s =
    let stream = integer row.stream minus_one in
    if is_negative stream then s else record {
      connections =
          insert stream (see_connection row (or_new (lookup stream s.connections))) s.connections;
      request_by_correlation = see_request stream row s.request_by_correlation;
      messages = s.messages ++ messages_of stream row row.kafka_len;
      tls_detected = s.tls_detected || row.has_tls;
    }

unfoldable pub scan_rows : List Row → Capture → Capture
unfolding scan_row
scan_rows [] s = s
scan_rows (row ∷ rows) s = scan_rows rows (scan_row row s)

abbrev pub or_unknown : Option (ℤ × ℤ) → ℤ × ℤ
or_unknown none = (minus_one, minus_one)
or_unknown (some found) = found

-- What a response does not say of its API is taken from its request.
abbrev pub known_or : ℤ → ℤ → ℤ
known_or n other = if is_negative n then other else n

unfoldable pub answer : Dict (ℤ × ℤ) (ℤ × ℤ) → Message → Message
unfolding lookup
answer requests message = elim message.direction [
  | Direction.request ↦ message
  | Direction.response ↦
      let found = or_unknown (lookup (message.stream, message.correlation) requests) in
      record message {
        api_key = known_or message.api_key found.0;
        api_version = known_or message.api_version found.1;
      }
]

abbrev pub answered_messages : Capture → List Message
answered_messages s = map (answer s.request_by_correlation) s.messages
