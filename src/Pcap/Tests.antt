-- ===== src/Pcap/Tests.antt =====
-- Small inputs: what the readers of analyze-pcap.py make of them, and the theorems at them.
mod Captures
use coroutines_kafka_consume.Prelude.{
  ℕ, zero, suc, ◌+◌, ◌^◌, ◌<◌, ◌≤◌, ◌≡◌, refl, arith, Bool, true, Option, none, some, String, List,
  [], ◌∷◌, ◌++◌, length, map,
}
use coroutines_kafka_consume.Prelude.Int.{ℤ, pos, negsuc}
use coroutines_kafka_consume.Pcap.Result.{Result, ok, err, stuck, Error, Ensures, Yields}
use coroutines_kafka_consume.Pcap.Bytes.{Bytes}
use coroutines_kafka_consume.Pcap.Varint.{signed_varint, unsigned_varint}
use coroutines_kafka_consume.Pcap.Varint.RoundTrip.{
  encode, zigzag, signed_varint-encode, unsigned_varint-encode,
}
use coroutines_kafka_consume.Pcap.Messages.{
  ProduceRecords, FetchRecords, skip_request_header, produce_topics, produce_partitions,
  parse_produce_request_v9, fetch_topics, fetch_partitions, fetch_records, parse_fetch_response_v17,
}
use coroutines_kafka_consume.Pcap.Messages.Within.{
  produce_size, fetch_size, parse_produce_request_v9-le, parse_fetch_response_v17-le,
}
use coroutines_kafka_consume.Pcap.Records.{RecordSizes, record_sizes}
use coroutines_kafka_consume.Pcap.Records.Account.{AccountsFor, record_sizes-AccountsFor}
use coroutines_kafka_consume.Pcap.Compression.{Libraries}
use coroutines_kafka_consume.Pcap.Batches.{Batch, Details, Status, find_record_batches}
use coroutines_kafka_consume.Pcap.Batches.Sound.{Covers, wire_bytes, find_record_batches-Covers}

abbrev pub zeros : ℕ → Bytes
zeros zero = []
zeros (suc n) = 0 ∷ zeros n

-- A key of two bytes, a value of three and no header.
abbrev pub record_bytes : Bytes
record_bytes = 22 ∷ 0 ∷ 0 ∷ 0 ∷ 4 ∷ 107 ∷ 107 ∷ 6 ∷ 118 ∷ 118 ∷ 118 ∷ 0 ∷ []

-- The batch of it: the offset, the length, the epoch, the magic byte, the checksum, the attributes,
-- the offset delta, what the analysis does not look at, and the count.
abbrev pub batch_bytes : Bytes
batch_bytes =
    zeros 11
    ++ (61 ∷ zeros 4)
    ++ (2 ∷ zeros 4)
    ++ (0 ∷ 0 ∷ zeros 4)
    ++ zeros 33
    ++ (1 ∷ record_bytes)

-- No library is there.
abbrev pub no_libraries : Libraries
no_libraries = record {
  gzip = λ bytes. none;
  lz4 = λ bytes. none;
  zstd = λ bytes. none;
  snappy_block = λ bytes. none;
}

-- Text is taken as a constant, and so is the identity of a topic.
abbrev some_text : Bytes → Option String
some_text bytes = some "text"

abbrev some_id : Bytes → String
some_id bytes = "id"

abbrev produce_bytes : Bytes
produce_bytes =
    (0 ∷ 0 ∷ 0 ∷ 39 ∷ [])
    ++ (0 ∷ 0 ∷ 0 ∷ 9 ∷ [])
    ++ zeros 4
    ++ (255 ∷ 255 ∷ [])
    ++ (0 ∷ 0 ∷ [])
    ++ zeros 6
    ++ (2 ∷ 2 ∷ 116 ∷ 2 ∷ [])
    ++ zeros 4
    ++ (4 ∷ 7 ∷ 8 ∷ 9 ∷ [])
    ++ zeros 9

abbrev fetch_bytes : Bytes
fetch_bytes =
    (0 ∷ 0 ∷ 0 ∷ 75 ∷ [])
    ++ zeros 4
    ++ zeros 11
    ++ (2 ∷ [])
    ++ zeros 16
    ++ (2 ∷ [])
    ++ zeros 30
    ++ zeros 5
    ++ (4 ∷ 7 ∷ 8 ∷ 9 ∷ [])
    ++ zeros 3

parse_produce_request_v9_run :
    parse_produce_request_v9 some_text produce_bytes
    ≡ ok (record { topic = some "text"; records = 7 ∷ 8 ∷ 9 ∷ [] } ∷ [])
unfolding parse_produce_request_v9 skip_request_header produce_topics produce_partitions
parse_produce_request_v9_run = refl

parse_fetch_response_v17_run :
    parse_fetch_response_v17 some_id fetch_bytes
    ≡ ok (record { topic_id = "id"; records = 7 ∷ 8 ∷ 9 ∷ [] } ∷ [])
unfolding parse_fetch_response_v17 fetch_topics fetch_partitions fetch_records
parse_fetch_response_v17_run = refl

record_sizes_run :
    record_sizes record_bytes
    ≡ ok (record {
      parsed_records = 1;
      key_bytes = 2;
      value_bytes = 3;
      header_bytes = 0;
      record_overhead_bytes = 7;
    })
unfolding record_sizes
record_sizes_run = refl

-- The batch behind two bytes of something else.
find_record_batches_run :
    find_record_batches no_libraries (1 ∷ 2 ∷ batch_bytes)
    ≡ ok (
        record {
          codec = 0;
          records = 1;
          batch_wire_bytes = 73;
          batch_header_bytes = 61;
          compressed_record_bytes = 12;
          details = some (record {
            sizes = record {
              parsed_records = 1;
              key_bytes = 2;
              value_bytes = 3;
              header_bytes = 0;
              record_overhead_bytes = 7;
            };
            uncompressed_record_bytes = 12;
            compression_savings_bytes = pos 0;
          });
          status = Status.success;
        }
        ∷ [])
unfolding find_record_batches
find_record_batches_run = refl

-- An empty batch, whose base sequence is read again as the length of a batch that starts within it.
abbrev overlapping_bytes : Bytes
overlapping_bytes = zeros 11 ++ (49 ∷ zeros 4) ++ (2 ∷ zeros 39) ++ (60 ∷ zeros 4) ++ (2 ∷ zeros 55)

abbrev wire_bytes_of : Result (List Batch) → List ℕ
wire_bytes_of (ok batches) = map (λ (batch : Batch). batch.batch_wire_bytes) batches
wire_bytes_of (err e) = []
wire_bytes_of stuck = []

-- 61 and 72 bytes, of 117.
find_record_batches_overlap :
    (length overlapping_bytes ≡ 117)
    × (wire_bytes_of (find_record_batches no_libraries overlapping_bytes) ≡ 61 ∷ 72 ∷ [])
unfolding find_record_batches
find_record_batches_overlap = (refl, refl)

parse_produce_request_v9-le_example :
    Ensures
      (λ result. produce_size result ≤ length produce_bytes)
      (parse_produce_request_v9 some_text produce_bytes)
parse_produce_request_v9-le_example = parse_produce_request_v9-le some_text produce_bytes

parse_fetch_response_v17-le_example :
    Ensures
      (λ result. fetch_size result ≤ length fetch_bytes)
      (parse_fetch_response_v17 some_id fetch_bytes)
parse_fetch_response_v17-le_example = parse_fetch_response_v17-le some_id fetch_bytes

record_sizes-AccountsFor_example : Ensures (AccountsFor record_bytes) (record_sizes record_bytes)
record_sizes-AccountsFor_example = record_sizes-AccountsFor record_bytes

find_record_batches-Covers_example :
    Yields (Covers batch_bytes) (find_record_batches no_libraries batch_bytes)
find_record_batches-Covers_example = find_record_batches-Covers no_libraries batch_bytes

unsigned_varint-encode_example :
    unsigned_varint ((9 ∷ []) ++ (encode 5 300 ++ (8 ∷ []))) 1 ≡ ok (300, 3)
unsigned_varint-encode_example = unsigned_varint-encode (9 ∷ []) (8 ∷ []) 300 (omega arith)

signed_varint-encode_example :
    signed_varint ((9 ∷ []) ++ (encode 10 (zigzag (negsuc 99)) ++ (8 ∷ []))) 1 ≡ ok (negsuc 99, 3)
signed_varint-encode_example = signed_varint-encode (9 ∷ []) (8 ∷ []) (negsuc 99) (omega arith)
