-- ===== src/Pcap/Batches/Sound.antt =====
-- `find_record_batches` always returns, and what it says of a batch is right.
use coroutines_kafka_consume.Prelude.{
  ℕ, zero, suc, ◌+◌, ◌-◌, ◌*◌, ◌≤◌, ◌<◌, ◌≡◌, refl, Bool, true, ◌&&◌, ◌||◌, Option, none, some,
  List, [], ◌∷◌, ◌++◌, arith, ltb, leb, leb→le, nat_beq, nat_beq_iff, length, sum_by, sum_by-append,
  length-append, if_by, if_ind, Bool-cases, inl, inr,
}
use coroutines_kafka_consume.Prelude.Int.{ℤ, pos, negsuc, sub_ℕ}
use coroutines_kafka_consume.Pcap.Result.{
  Result, ok, err, stuck, Error, ◌>>=◌, Ensures, Ensures-bind, Yields, Yields-bind,
}
use coroutines_kafka_consume.Pcap.Bytes.{
  Bytes, slice, length-slice, byte_at-Yields, unpack_short-Yields, unpack_int-Yields,
}
use coroutines_kafka_consume.Pcap.Compression.{Libraries}
use coroutines_kafka_consume.Pcap.Compression.Ends.{decompress-Ensures}
use coroutines_kafka_consume.Pcap.Records.Account.{total, AccountsFor, record_sizes-AccountsFor}
use coroutines_kafka_consume.Pcap.Batches.{
  Status, Details, Batch, Header, codec_of, is_plausible, natural_or_zero, read_header, described,
  describe, read_batch, batch_from, batch_at, find_at, next, find_loop, find_record_batches,
}

-- The details are those of `uncompressed` bytes that were parsed.
abbrev IsMeasured : ℕ → ℕ → Option Details → Status → Type 0
IsMeasured records compressed none status = (e : Error) × (status ≡ Status.unavailable e)
IsMeasured records compressed (some details) status =
    (total details.sizes ≡ details.uncompressed_record_bytes)
    × (7 * details.sizes.parsed_records ≤ details.sizes.record_overhead_bytes)
    × (details.compression_savings_bytes ≡ sub_ℕ details.uncompressed_record_bytes compressed)
    × (status ≡ Status.success → details.sizes.parsed_records ≡ records)

-- What holds of a batch that was found.
pub record IsSound (batch : Batch) : Type 0 where
  pub codec : batch.codec ≤ 4
  pub records : batch.records ≤ 10_000_000
  pub header : batch.batch_header_bytes ≡ 61
  pub wire : batch.batch_wire_bytes ≡ batch.batch_header_bytes + batch.compressed_record_bytes
  pub measured : IsMeasured batch.records batch.compressed_record_bytes batch.details batch.status

abbrev pub AllSound : List Batch → Type 0
AllSound [] = Unit
AllSound (batch ∷ batches) = IsSound batch × AllSound batches

AllSound-append :
    (batches : List Batch) (batch : Batch)
    → AllSound batches
    → IsSound batch
    → AllSound (batches ++ (batch ∷ []))
AllSound-append [] batch all sound = (sound, tt)
AllSound-append (b ∷ batches) batch all sound = (all.0, AllSound-append batches batch all.1 sound)

abbrev IsParsed : ℕ → Details → Type 0
IsParsed compressed details =
    (total details.sizes ≡ details.uncompressed_record_bytes)
    × (7 * details.sizes.parsed_records ≤ details.sizes.record_overhead_bytes)
    × (details.compression_savings_bytes ≡ sub_ℕ details.uncompressed_record_bytes compressed)

described-IsMeasured :
    (records compressed : ℕ) (parsed : Result Details)
    → Ensures (IsParsed compressed) parsed
    → Yields (λ r. IsMeasured records compressed r.0 r.1) (described records parsed)
described-IsMeasured records compressed (ok details) p =
    elim (Bool-cases (nat_beq details.sizes.parsed_records records)) [
      | inl same ↦ (p.0, p.1, p.2, λ e. (nat_beq_iff details.sizes.parsed_records records).0 same)
      | inr other ↦ (p.0, p.1, p.2, λ e. ground (arith, other, e))
    ]
described-IsMeasured records compressed (err e) p = (e, refl)
described-IsMeasured records compressed stuck p = p

module _ (libraries : Libraries) where
  describe-IsMeasured :
      (codec records : ℕ) (compressed : Bytes)
      → Yields
          (λ r. IsMeasured records (length compressed) r.0 r.1)
          (describe libraries codec records compressed)
  unfolding describe
  describe-IsMeasured codec records compressed =
      described-IsMeasured records (length compressed) _ (
        Ensures-bind (λ b. Unit) (IsParsed (length compressed)) _ _
          (decompress-Ensures libraries compressed codec)
          (λ uncompressed u.
            Ensures-bind (AccountsFor uncompressed) (IsParsed (length compressed)) _ _
              (record_sizes-AccountsFor uncompressed) (λ sizes a. (a.0, a.1, refl))))

-- A batch that was found lies from `start` on within the data, and has 61 bytes at least.
abbrev Found : Bytes → ℕ → Option (Batch × ℕ) → Type 0
Found bytes start none = Unit
Found bytes start (some (batch, end)) =
    IsSound batch
    × (batch.batch_wire_bytes + start ≡ end)
    × (start + 61 ≤ end)
    × (end ≤ length bytes)

plausible_bounds :
    (h : Header)
    → is_plausible h ≡ true
    → (codec_of h ≤ 4) × (natural_or_zero h.record_count ≤ 10_000_000)
plausible_bounds h p = (leb→le (codec_of h) 4 (and_left _ _ p), bounded h.record_count p)
  where
    and_left : (a b : Bool) → (a && b) ≡ true → a ≡ true
    and_left a b e = ground arith

    bounded :
        (count : ℤ)
        → is_plausible (record h { record_count = count }) ≡ true
        → natural_or_zero count ≤ 10_000_000
    bounded (pos n) e = ground (arith, e)
    bounded (negsuc n) e = omega arith

read_header-Yields :
    (bytes : Bytes) (start : ℕ)
    → start + 61 ≤ length bytes
    → Yields (λ h. Unit) (read_header bytes start)
unfolding read_header
read_header-Yields bytes start h =
    Yields-bind (λ x. Unit) (λ h. Unit) _ _
      (unpack_short-Yields bytes (start + 21) (omega (arith, h)))
      (λ a u.
        Yields-bind (λ x. Unit) (λ h. Unit) _ _
          (unpack_int-Yields bytes (start + 23) (omega (arith, h)))
          (λ b v.
            Yields-bind (λ x. Unit) (λ h. Unit) _ _
              (unpack_int-Yields bytes (start + 57) (omega (arith, h))) (λ c w. tt)))

module _ (libraries : Libraries) (bytes : Bytes) where
  read_batch-IsSound :
      (h : Header) (start end : ℕ)
      → is_plausible h ≡ true
      → start + 61 ≤ end
      → end ≤ length bytes
      → Yields
          (λ batch. IsSound batch × (batch.batch_wire_bytes + start ≡ end))
          (read_batch libraries h bytes start end)
  unfolding read_batch
  read_batch-IsSound h start end plausible long inside =
      let compressed = slice bytes (start + 61) end in
      let records = natural_or_zero h.record_count in
      Yields-bind (λ (r : Option Details × Status). IsMeasured records (length compressed) r.0 r.1)
        _ _ _ (describe-IsMeasured libraries (codec_of h) records compressed)
        (λ r m. (
          record {
            codec = (plausible_bounds h plausible).0;
            records = (plausible_bounds h plausible).1;
            header = refl;
            wire = omega (arith, long, length-slice bytes (start + 61) end long inside);
            measured = m;
          },
          omega (arith, long),
        ))

  batch_from-Found :
      (start : ℕ) (batch_length : ℤ)
      → start + 61 ≤ length bytes
      → Yields (Found bytes start) (batch_from libraries bytes start batch_length)
  unfolding batch_from
  batch_from-Found start (negsuc n) h = tt
  batch_from-Found start (pos n) h =
      let end = start + 12 + n in
      if_by (Yields (Found bytes start)) (ltb n 49 || ltb (length bytes) end) {x = ok none}
        (λ outside. tt)
        (λ inside.
          Yields-bind (λ h. Unit) (Found bytes start) _ _ (read_header-Yields bytes start h)
            (λ hd u.
              if_by (Yields (Found bytes start)) (is_plausible hd)
                {x = read_batch libraries hd bytes start end >>= λ batch. ok (some (batch, end))}
                {y = ok none}
                (λ plausible.
                  Yields-bind (λ batch. IsSound batch × (batch.batch_wire_bytes + start ≡ end))
                    (Found bytes start) _ _
                    (read_batch-IsSound hd start end plausible (ground (arith, inside))
                      (ground (arith, inside)))
                    (λ batch b. (b.0, b.1, ground (arith, inside), ground (arith, inside))))
                (λ other. tt)))

  find_at-Found :
      (position : ℕ)
      → 16 ≤ position
      → position + 45 ≤ length bytes
      → Yields (Found bytes (position - 16)) (find_at libraries bytes position)
  unfolding find_at batch_at
  find_at-Found position low h =
      let start = position - 16 in
      Yields-bind (λ x. Unit) (Found bytes start) _ _
        (byte_at-Yields bytes position (omega (arith, h)))
        (λ magic u.
          if_ind (Yields (Found bytes start)) (nat_beq magic 2) {y = ok none}
            (Yields-bind (λ x. Unit) (Found bytes start) _ _
              (unpack_int-Yields bytes (start + 8) (omega (arith, low, h)))
              (λ n v. batch_from-Found start n (omega (arith, low, h))))
            tt)

abbrev pub wire_bytes : List Batch → ℕ
wire_bytes = sum_by (λ (batch : Batch). batch.batch_wire_bytes)

-- The state of the loop: the batches so far lie before the position but for 16 bytes each, and each
-- has moved it by 45 at least.
record Scanned (bytes : Bytes) (position : ℕ) (batches : List Batch) : Type 0 where
  low : 16 ≤ position
  high : position ≤ length bytes + 16
  wire : wire_bytes batches + 16 ≤ position + 16 * length batches
  moved : 45 * length batches + 16 ≤ position
  sound : AllSound batches

abbrev pub Covers : Bytes → List Batch → Type 0
Covers bytes batches =
    AllSound batches
    × (wire_bytes batches ≤ length bytes + 16 * length batches)
    × (45 * length batches ≤ length bytes)

next-Scanned :
    (bytes : Bytes) (position : ℕ) (batches : List Batch) (found : Option (Batch × ℕ))
    → position + 45 ≤ length bytes
    → Scanned bytes position batches
    → Found bytes (position - 16) found
    → Scanned bytes (next position batches found).0 (next position batches found).1
      × (position < (next position batches found).0)
next-Scanned bytes position batches none h s f = (
  record {
    low = omega (arith, s.low);
    high = omega (arith, h);
    wire = omega (arith, s.wire);
    moved = omega (arith, s.moved);
    sound = s.sound;
  },
  omega arith,
)
next-Scanned bytes position batches (some (batch, end)) h s f =
    let more = sum_by-append (λ (batch : Batch). batch.batch_wire_bytes) batches (batch ∷ []) in
    let longer = length-append batches (batch ∷ []) in
    (
      record {
        low = omega (arith, s.low, f.2);
        high = omega (arith, f.3);
        wire = omega (arith, s.wire, s.low, f.1, f.2, more, longer);
        moved = omega (arith, s.moved, s.low, f.2, longer);
        sound = AllSound-append batches batch s.sound f.0;
      },
      omega (arith, s.low, f.2),
    )

module _ (libraries : Libraries) (bytes : Bytes) where
  find_loop-Covers :
      (fuel position : ℕ) (batches : List Batch)
      → length bytes ≤ position + fuel
      → Scanned bytes position batches
      → Yields (Covers bytes) (find_loop libraries fuel bytes position batches)
  unfolding find_loop
  find_loop-Covers zero position batches enough s =
      if_by (Yields (Covers bytes)) (leb (position + 45) (length bytes)) {x = stuck}
        {y = ok batches} (λ more. absurd (ground (arith, more, enough)))
        (λ done. (s.sound, omega (arith, s.wire, s.high), omega (arith, s.moved, s.high)))
  find_loop-Covers (suc fuel) position batches enough s =
      if_by (Yields (Covers bytes)) (leb (position + 45) (length bytes)) {y = ok batches}
        (λ more.
          let inside = leb→le (position + 45) (length bytes) more in
          Yields-bind (Found bytes (position - 16)) (Covers bytes) _ _
            (find_at-Found libraries bytes position s.low inside)
            (λ found f.
              let n = next-Scanned bytes position batches found inside s f in
              find_loop-Covers fuel (next position batches found).0 (next position batches found).1
                (omega (arith, n.1, enough)) n.0))
        (λ done. (s.sound, omega (arith, s.wire, s.high), omega (arith, s.moved, s.high)))

-- `find_record_batches` returns on any bytes, whatever the compression libraries do. Each batch has
-- a codec from 0 to 4, at most 10,000,000 records, and as wire bytes its header of 61 bytes and its
-- compressed bytes; if its records were parsed, then the bytes of keys, values, headers and overhead
-- are together the uncompressed bytes, with seven bytes of overhead for each record at least, the
-- savings are the difference to the compressed bytes, and the status is only `success` if the number
-- of records is the declared one. There is at most one batch for 45 bytes, and the wire bytes of all
-- batches exceed the bytes by at most 16 for each batch.
pub find_record_batches-Covers :
    (libraries : Libraries) (bytes : Bytes)
    → Yields (Covers bytes) (find_record_batches libraries bytes)
unfolding find_record_batches
find_record_batches-Covers libraries bytes =
    find_loop-Covers libraries bytes (length bytes) 16 [] (omega arith) (record {
      low = omega arith;
      high = omega arith;
      wire = omega arith;
      moved = omega arith;
      sound = tt;
    })
