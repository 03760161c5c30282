-- ===== src/Pcap/Records.antt =====
-- `record_sizes` of analyze-pcap.py: what the bytes of a decompressed record batch are used for.
pub mod Account
use coroutines_kafka_consume.Prelude.{
  ℕ, zero, suc, ◌+◌, ◌-◌, ◌≤◌, ◌<◌, ◌≡◌, Bool, true, false, List, [], ltb, leb, nat_beq, length,
  if◌then◌else◌,
}
use coroutines_kafka_consume.Prelude.Int.{ℤ, pos, negsuc, clip}
use coroutines_kafka_consume.Pcap.Result.{Result, ok, err, stuck, Error, ◌>>=◌, ◌>>◌, guard}
use coroutines_kafka_consume.Pcap.Bytes.{Bytes}
use coroutines_kafka_consume.Pcap.Varint.{signed_varint}

pub record RecordSizes : Type 0 where
  pub parsed_records : ℕ
  pub key_bytes : ℕ
  pub value_bytes : ℕ
  pub header_bytes : ℕ
  pub record_overhead_bytes : ℕ

abbrev pub no_records : RecordSizes
no_records = record {
  parsed_records = 0;
  key_bytes = 0;
  value_bytes = 0;
  header_bytes = 0;
  record_overhead_bytes = 0;
}

-- A count or a length that must not be negative.
abbrev pub natural : Error → ℤ → Result ℕ
natural e (negsuc n) = err e
natural e (pos n) = ok n

-- The headers of a record: the bytes of their keys and values are added to `header_bytes`. A value
-- may be null, with a length of -1.
unfoldable pub header_sizes : ℕ → Bytes → ℕ → ℕ → Result (ℕ × ℕ)
unfolding signed_varint
header_sizes zero bytes position header_bytes = ok (header_bytes, position)
header_sizes (suc n) bytes position header_bytes = do
  (key_length, position₁) ← signed_varint bytes position
  key_size ← natural Error.invalid_header_key key_length
  (value_length, position₂) ← signed_varint bytes (position₁ + key_size)
  let value_size = clip value_length
  header_sizes n bytes (position₂ + value_size) (header_bytes + key_size + value_size)

-- One round of the loop. A null key or value has a negative length and no bytes.
unfoldable pub record_size : Bytes → ℕ → RecordSizes → Result (RecordSizes × ℕ)
unfolding signed_varint header_sizes
record_size bytes start result = do
  (declared, position₁) ← signed_varint bytes start
  size ← natural Error.invalid_length declared
  let end = position₁ + size
  guard (leb end (length bytes)) Error.invalid_length
  (_, position₂) ← signed_varint bytes (position₁ + 1)
  (_, position₃) ← signed_varint bytes position₂
  (key_length, position₄) ← signed_varint bytes position₃
  let key_size = clip key_length
  (value_length, position₅) ← signed_varint bytes (position₄ + key_size)
  let value_size = clip value_length
  (header_count, position₆) ← signed_varint bytes (position₅ + value_size)
  count ← natural Error.invalid_header_count header_count
  (header_bytes, position₇) ← header_sizes count bytes position₆ result.header_bytes
  guard (nat_beq position₇ end) Error.wrong_length
  ok (
    record {
      parsed_records = result.parsed_records + 1;
      key_bytes = result.key_bytes + key_size;
      value_bytes = result.value_bytes + value_size;
      header_bytes = header_bytes;
      record_overhead_bytes =
          result.record_overhead_bytes
          + (end - start - key_size - value_size - (header_bytes - result.header_bytes));
    },
    position₇,
  )

-- while position < len(data): ...
unfoldable pub record_sizes_loop : ℕ → Bytes → ℕ → RecordSizes → Result RecordSizes
unfolding record_size
record_sizes_loop zero bytes position result =
    if ltb position (length bytes) then stuck else ok result
record_sizes_loop (suc fuel) bytes position result =
    let more = record_size bytes position result >>= λ r. record_sizes_loop fuel bytes r.1 r.0 in
    if ltb position (length bytes) then more else ok result

-- Each round takes a byte at least, so that the number of the bytes is enough for the rounds.
unfoldable pub record_sizes : Bytes → Result RecordSizes
unfolding record_sizes_loop
record_sizes bytes = record_sizes_loop (length bytes) bytes 0 no_records
