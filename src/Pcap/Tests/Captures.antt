-- ===== src/Pcap/Tests/Captures.antt =====
-- A small capture: what `analyze_capture` adds up for it, and the theorems at it.
use coroutines_kafka_consume.Prelude.{
  ℕ, ◌+◌, ◌*◌, ◌≤◌, ◌≡◌, refl, true, false, Option, none, some, String, List, [], ◌∷◌, string_eq,
  pair_eq, nat_eq, map, count_if, Every,
}
use coroutines_kafka_consume.Prelude.Int.{ℤ, pos, int_eq}
use coroutines_kafka_consume.Pcap.Result.{Error, Yields}
use coroutines_kafka_consume.Pcap.Tests.{batch_bytes, no_libraries}
use coroutines_kafka_consume.Pcap.Batches.{Batch, Status}
use coroutines_kafka_consume.Pcap.Totals.{no_capture_batches, add_batches}
use coroutines_kafka_consume.Pcap.Totals.Split.{
  values_in, batches_for, IsSplit, unnamed_wire_bytes, add_batches-IsSplit,
}
use coroutines_kafka_consume.Pcap.Totals.Sum.{
  Number, amounts, SumsUp, all_batches, add_batches-SumsUp,
}
use coroutines_kafka_consume.Dict.{lookup}
use coroutines_kafka_consume.Pcap.Capture.{
  Row, Direction, Message, no_rows, scan_rows, is_member, answer, answered_messages,
}
use coroutines_kafka_consume.Pcap.Capture.Roles.{Role, select}
use coroutines_kafka_consume.Pcap.Capture.Roles.Selected.{apis_of, select-requests}
use coroutines_kafka_consume.Pcap.Network.{no_frames, add_frames}
use coroutines_kafka_consume.Pcap.Network.Conserved.{
  Frame, AllFrames, IsConserved, add_frames-IsConserved,
}
use coroutines_kafka_consume.Pcap.Allocation.{
  captured_wire_bytes, sum_shares, captured_wire_bytes-sum,
}
use coroutines_kafka_consume.Pcap.Topics.{RecordSets, count_apis, add_record_sets}
use coroutines_kafka_consume.Pcap.Topics.Bounded.{set_bytes, add_record_sets-le}
use coroutines_kafka_consume.Pcap.Topics.Counted.{
  counted_apis, counted_topics, no_counts, is_in, has_topic_in, count_apis-counted,
}

-- An uncompressed batch whose records were not parsed, and the same without a topic.
abbrev some_batch : Batch
some_batch = record {
  codec = 3;
  records = 2;
  batch_wire_bytes = 100;
  batch_header_bytes = 61;
  compressed_record_bytes = 39;
  details = none;
  status = Status.unavailable Error.library_error;
}

abbrev some_events : List (Batch × Option String)
some_events = (some_batch, some "a") ∷ (some_batch, none) ∷ (some_batch, some "a") ∷ []

-- A batch whose records were parsed, with two keys of 3 bytes together and values of 20.
abbrev parsed_batch : Batch
parsed_batch = record some_batch {
  codec = 0;
  details = some (record {
    sizes = record {
      parsed_records = 2;
      key_bytes = 3;
      value_bytes = 20;
      header_bytes = 0;
      record_overhead_bytes = 16;
    };
    uncompressed_record_bytes = 39;
    compression_savings_bytes = pos 0;
  });
  status = Status.success;
}

abbrev more_events : List (Batch × Option String)
more_events = (parsed_batch, some "a") ∷ (parsed_batch, some "") ∷ some_events

-- Of the batches of "a", one was parsed; the one with the empty name is in the totals.
add_batches_run :
    ((values_in "a" (add_batches more_events no_capture_batches)).totals.key_bytes ≡ 3)
    × ((add_batches more_events no_capture_batches).batch_totals.key_bytes ≡ 6)
    × (batches_for "" more_events ≡ [])
unfolding add_batches lookup
add_batches_run = (refl, refl, refl)

add_batches-SumsUp_example :
    let after = add_batches more_events no_capture_batches in
    SumsUp (batches_for "a" more_events) (values_in "a" after).totals
    × ((values_in "a" after).wire_bytes
        ≡ amounts Number.batch_wire_bytes (batches_for "a" more_events))
    × SumsUp (all_batches more_events) after.batch_totals
add_batches-SumsUp_example = add_batches-SumsUp "a" more_events

add_batches-IsSplit_example :
    IsSplit (unnamed_wire_bytes some_events) (add_batches some_events no_capture_batches)
add_batches-IsSplit_example = add_batches-IsSplit some_events

-- A Produce request and its response, on stream 4.
abbrev request_row : Row
request_row = record {
  stream = pos 4 ∷ [];
  frame_len = pos 90 ∷ [];
  frame_cap_len = pos 80 ∷ [];
  ip_len = pos 76 ∷ [];
  ip_hdr_len = pos 20 ∷ [];
  ipv6_plen = [];
  dstport = pos 9092 ∷ [];
  tcp_len = pos 36 ∷ [];
  tcp_hdr_len = pos 20 ∷ [];
  syn = false;
  ack = true;
  fin = false;
  reset = false;
  retransmission = false;
  has_tls = false;
  kafka_len = pos 32 ∷ [];
  request_key = pos 0 ∷ [];
  response_key = [];
  api_version = pos 9 ∷ [];
  correlation_id = pos 7 ∷ [];
  tls_record_length = [];
  reassembled = [];
  payload = 1 ∷ 2 ∷ [];
}

abbrev response_row : Row
response_row = record request_row { dstport = pos 50000 ∷ []; request_key = []; api_version = [] }

abbrev some_rows : List Row
some_rows = request_row ∷ response_row ∷ []

-- The response takes its version from the request.
answered_run :
    map (λ (m : Message). m.api_version) (answered_messages (scan_rows some_rows no_rows))
    ≡ pos 9 ∷ pos 9 ∷ []
unfolding scan_rows answer
answered_run = refl

select-requests_example :
    Every
      (λ (m : Message).
        m.direction ≡ Direction.request
        → is_member m.api_key (apis_of Role.producer) ≡ true
        → is_member m.stream (select Role.producer false (scan_rows some_rows no_rows)).0 ≡ true)
      (scan_rows some_rows no_rows).messages
select-requests_example = select-requests Role.producer false some_rows

-- A frame of IPv6, of which the length of the packet is the column without its header.
abbrev ipv6_row : Row
ipv6_row = record request_row {
  frame_len = pos 110 ∷ [];
  ip_len = [];
  ip_hdr_len = [];
  ipv6_plen = pos 56 ∷ [];
}

abbrev some_frames : AllFrames (pos 4 ∷ []) (ipv6_row ∷ some_rows)
some_frames = (
  λ chosen. (
    Frame.ipv6 14 20 36,
    record {
      frame_len_column = refl;
      tcp_hdr_len_column = refl;
      tcp_len_column = refl;
      ip_len_column = refl;
      ip_hdr_len_column = refl;
      ipv6_plen_column = refl;
    },
  ),
  (
    λ chosen. (
      Frame.ipv4 14 0 20 36,
      record {
        frame_len_column = refl;
        tcp_hdr_len_column = refl;
        tcp_len_column = refl;
        ip_len_column = refl;
        ip_hdr_len_column = refl;
        ipv6_plen_column = refl;
      },
    ),
    (
      λ chosen. (
        Frame.ipv4 14 0 20 36,
        record {
          frame_len_column = refl;
          tcp_hdr_len_column = refl;
          tcp_len_column = refl;
          ip_len_column = refl;
          ip_hdr_len_column = refl;
          ipv6_plen_column = refl;
        },
      ),
      tt,
    ),
  ),
)

add_frames-IsConserved_example :
    IsConserved (add_frames (pos 4 ∷ []) (ipv6_row ∷ some_rows) no_frames)
add_frames-IsConserved_example =
    add_frames-IsConserved (pos 4 ∷ []) (ipv6_row ∷ some_rows) some_frames

-- Rounds everything to 5.
abbrev five : ℤ → ℕ → ℕ → ℤ
five captured wire total = pos 5

abbrev two_topics : List (String × ℕ)
two_topics = ("a", 30) ∷ ("b", 70) ∷ []

captured_wire_bytes_run :
    captured_wire_bytes five (pos 12) two_topics ≡ ("a", pos 5) ∷ ("b", pos 7) ∷ []
unfolding captured_wire_bytes
captured_wire_bytes_run = refl

captured_wire_bytes-sum_example :
    sum_shares (pos 0) (captured_wire_bytes five (pos 12) two_topics) ≡ pos 12
captured_wire_bytes-sum_example = captured_wire_bytes-sum five (pos 12) two_topics refl

abbrev some_sets : RecordSets
some_sets = (some "a", batch_bytes) ∷ (none, batch_bytes) ∷ []

add_record_sets-le_example :
    Yields
      (λ s.
        (45 * s.batch_totals.batches ≤ set_bytes some_sets)
        × (s.batch_totals.batch_wire_bytes ≤ set_bytes some_sets + 16 * s.batch_totals.batches))
      (add_record_sets no_libraries some_sets no_capture_batches)
add_record_sets-le_example = add_record_sets-le no_libraries some_sets

abbrev some_messages : List (Message × RecordSets)
some_messages =
    (
      record {
        stream = pos 4;
        direction = Direction.request;
        api_key = pos 0;
        api_version = pos 9;
        correlation = pos 7;
        bytes = pos 36;
        raw = 1 ∷ 2 ∷ [];
      },
      some_sets,
    )
    ∷ []

count_apis-counted_example :
    (counted_apis Direction.request (count_apis [] [] some_messages no_counts)
      ≡ count_if (is_in Direction.request) some_messages)
    × (counted_topics Direction.request (count_apis [] [] some_messages no_counts)
        ≡ count_if (has_topic_in Direction.request) some_messages)
count_apis-counted_example = count_apis-counted [] [] Direction.request some_messages
