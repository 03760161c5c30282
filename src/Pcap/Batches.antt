-- ===== src/Pcap/Batches.antt =====
-- `find_record_batches` of analyze-pcap.py: the record batches of magic 2 that some bytes contain.
pub mod Sound
use coroutines_kafka_consume.Prelude.{
  ℕ, zero, suc, ◌+◌, ◌-◌, ◌*◌, ◌^◌, ◌≤◌, ◌<◌, ◌≡◌, Bool, true, false, not, ◌&&◌, ◌||◌, Option, none,
  some, List, [], ◌∷◌, ◌++◌, ltb, leb, nat_beq, length, get_elem?, if◌then◌else◌,
}
use coroutines_kafka_consume.Prelude.Int.{ℤ, pos, negsuc, sub_ℕ, ltb_ℤ, floor_mod}
use coroutines_kafka_consume.Pcap.Result.{Result, ok, err, stuck, Error, ◌>>=◌, ◌>>◌, guard}
use coroutines_kafka_consume.Pcap.Bytes.{Bytes, slice, byte_at, unpack_short, unpack_int}
use coroutines_kafka_consume.Pcap.Compression.{Libraries, decompress}
use coroutines_kafka_consume.Pcap.Records.{RecordSizes, record_sizes}

pub data Status : Type 0 where
  success record_count_mismatch : Status
  unavailable : Error → Status

-- What is known of a batch whose records were decompressed and parsed.
pub record Details : Type 0 where
  pub sizes : RecordSizes
  pub uncompressed_record_bytes : ℕ
  pub compression_savings_bytes : ℤ

pub record Batch : Type 0 where
  pub codec : ℕ
  pub records : ℕ
  pub batch_wire_bytes : ℕ
  pub batch_header_bytes : ℕ
  pub compressed_record_bytes : ℕ
  pub details : Option Details
  pub status : Status

-- The length and the fields of a batch header that are looked at.
pub record Header : Type 0 where
  pub attributes : ℤ
  pub last_offset_delta : ℤ
  pub record_count : ℤ

unfoldable pub read_header : Bytes → ℕ → Result Header
unfolding unpack_short unpack_int
read_header bytes start = do
  attributes ← unpack_short bytes (start + 21)
  last_offset_delta ← unpack_int bytes (start + 23)
  record_count ← unpack_int bytes (start + 57)
  ok (record {
    attributes = attributes;
    last_offset_delta = last_offset_delta;
    record_count = record_count;
  })

-- attributes & 0x07, which is the remainder of a negative number too.
abbrev pub codec_of : Header → ℕ
codec_of h = floor_mod h.attributes 8

-- The header is taken for one: `CODEC_NAMES` has the codecs 0 to 4.
abbrev pub is_plausible : Header → Bool
is_plausible h =
    leb (codec_of h) 4
    && (not (ltb_ℤ h.record_count (pos 0))
        && (not (ltb_ℤ (pos 10_000_000) h.record_count)
            && not (ltb_ℤ h.last_offset_delta (negsuc 0))))

abbrev pub natural_or_zero : ℤ → ℕ
natural_or_zero (pos n) = n
natural_or_zero (negsuc n) = 0

abbrev pub described : ℕ → Result Details → Result (Option Details × Status)
described record_count (ok details) = ok (
  some details,
  if nat_beq details.sizes.parsed_records record_count
      then Status.success
      else Status.record_count_mismatch,
)
described record_count (err e) = ok (none, Status.unavailable e)
described record_count stuck = stuck

-- position += 1; continue, or batches.append(batch); position = end
abbrev pub next : ℕ → List Batch → Option (Batch × ℕ) → ℕ × List Batch
next position batches none = (position + 1, batches)
next position batches (some (batch, end)) = (end, batches ++ (batch ∷ []))

module _ (libraries : Libraries) where
  -- The `try` block, and what its `except` stores.
  unfoldable pub describe : ℕ → ℕ → Bytes → Result (Option Details × Status)
  unfolding decompress record_sizes
  describe codec record_count compressed = described record_count (do
    uncompressed ← decompress libraries codec compressed
    sizes ← record_sizes uncompressed
    ok (record {
      sizes = sizes;
      uncompressed_record_bytes = length uncompressed;
      compression_savings_bytes = sub_ℕ (length uncompressed) (length compressed);
    }))

  unfoldable pub read_batch : Header → Bytes → ℕ → ℕ → Result Batch
  unfolding describe slice
  read_batch h bytes start end = do
    let compressed = slice bytes (start + 61) end
    let record_count = natural_or_zero h.record_count
    (details, status) ← describe (codec_of h) record_count compressed
    ok (record {
      codec = codec_of h;
      records = record_count;
      batch_wire_bytes = end - start;
      batch_header_bytes = 61;
      compressed_record_bytes = length compressed;
      details = details;
      status = status;
    })

  unfoldable pub batch_from : Bytes → ℕ → ℤ → Result (Option (Batch × ℕ))
  unfolding read_header read_batch
  batch_from bytes start (negsuc n) = ok none
  batch_from bytes start (pos batch_length) =
      let end = start + 12 + batch_length in
      if ltb batch_length 49 || ltb (length bytes) end then ok none else (do
        h ← read_header bytes start
        if is_plausible h
            then (do batch ← read_batch h bytes start end; ok (some (batch, end)))
            else ok none)

  -- The part of a round behind the magic byte: the batch that starts 16 bytes before the position,
  -- with its end, if there is one.
  unfoldable pub batch_at : Bytes → ℕ → Result (Option (Batch × ℕ))
  unfolding unpack_int batch_from
  batch_at bytes position = do
    let start = position - 16
    batch_length ← unpack_int bytes (start + 8)
    batch_from bytes start batch_length

  -- One round: the magic byte, and then the batch.
  unfoldable pub find_at : Bytes → ℕ → Result (Option (Batch × ℕ))
  unfolding batch_at
  find_at bytes position = do
    magic ← byte_at bytes position
    if nat_beq magic 2 then batch_at bytes position else ok none

  -- while position + 45 <= len(data): ...
  unfoldable pub find_loop : ℕ → Bytes → ℕ → List Batch → Result (List Batch)
  unfolding find_at
  find_loop zero bytes position batches =
      if leb (position + 45) (length bytes) then stuck else ok batches
  find_loop (suc fuel) bytes position batches =
      let more = find_at bytes position >>= λ found.
      let (position', batches') = next position batches found in
      find_loop fuel bytes position' batches' in
      if leb (position + 45) (length bytes) then more else ok batches

  unfoldable pub find_record_batches : Bytes → Result (List Batch)
  unfolding find_loop
  find_record_batches bytes = find_loop (length bytes) bytes 16 []
