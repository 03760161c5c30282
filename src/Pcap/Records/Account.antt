-- ===== src/Pcap/Records/Account.antt =====
-- Every byte of a decompressed batch is accounted for once: as part of a key, a value, a header, or
-- as overhead.
use coroutines_kafka_consume.Prelude.{
  ℕ, zero, suc, ◌+◌, ◌*◌, ◌≤◌, ◌<◌, ◌≡◌, arith, ltb, leb, leb→le, nat_beq, nat_beq_iff, length,
  if_by,
}
use coroutines_kafka_consume.Prelude.Int.{ℤ, pos, negsuc, clip}
use coroutines_kafka_consume.Pcap.Result.{
  Result, stuck, Error, ◌>>=◌, Ensures, Ensures-imp, Ensures-bind, Ensures-guard,
}
use coroutines_kafka_consume.Pcap.Bytes.{Bytes}
use coroutines_kafka_consume.Pcap.Varint.{Advances, signed_varint-Advances}
use coroutines_kafka_consume.Pcap.Records.{
  RecordSizes, no_records, natural, header_sizes, record_size, record_sizes_loop, record_sizes,
}

-- All the bytes that the sizes count.
abbrev pub total : RecordSizes → ℕ
total sizes = sizes.key_bytes + sizes.value_bytes + sizes.header_bytes + sizes.record_overhead_bytes

natural-Ensures :
    {A : Type 0} (Q : A → Type 0) (e : Error) (n : ℤ) (f : ℕ → Result A)
    → ((k : ℕ) → Ensures Q (f k))
    → Ensures Q (natural e n >>= f)
natural-Ensures Q e (negsuc n) f h = tt
natural-Ensures Q e (pos n) f h = h n

-- What the headers add is no more than they take.
abbrev Grows : ℕ → ℕ → ℕ × ℕ → Type 0
Grows position header_bytes r = (header_bytes ≤ r.0) × (r.0 + position ≤ header_bytes + r.1)

header_sizes-Grows :
    (n : ℕ) (bytes : Bytes) (position header_bytes : ℕ)
    → Ensures (Grows position header_bytes) (header_sizes n bytes position header_bytes)
unfolding header_sizes
header_sizes-Grows zero bytes position header_bytes = omega arith
header_sizes-Grows (suc n) bytes position header_bytes =
    Ensures-bind (Advances bytes position) _ _ _ (signed_varint-Advances bytes position) (λ r₁ a₁.
      natural-Ensures (Grows position header_bytes) _ r₁.0 _ (λ key_size.
        Ensures-bind (Advances bytes (r₁.1 + key_size)) _ _ _
          (signed_varint-Advances bytes (r₁.1 + key_size))
          (λ r₂ a₂.
            let value_size = clip r₂.0 in
            Ensures-imp (Grows (r₂.1 + value_size) (header_bytes + key_size + value_size)) _ _
              (header_sizes-Grows n bytes (r₂.1 + value_size)
                (header_bytes + key_size + value_size))
              (λ r g. omega (arith, a₁.0, a₂.0, g.0, g.1)))))

-- A record takes seven bytes of overhead at least: six varints and the attributes.
abbrev Accounts : Bytes → ℕ → RecordSizes → RecordSizes × ℕ → Type 0
Accounts bytes start result r =
    (start < r.1)
    × (r.1 ≤ length bytes)
    × (total r.0 + start ≡ total result + r.1)
    × (r.0.parsed_records ≡ result.parsed_records + 1)
    × (result.record_overhead_bytes + 7 ≤ r.0.record_overhead_bytes)

record_size-Accounts :
    (bytes : Bytes) (start : ℕ) (result : RecordSizes)
    → Ensures (Accounts bytes start result) (record_size bytes start result)
unfolding record_size
record_size-Accounts bytes start result =
    Ensures-bind (Advances bytes start) _ _ _ (signed_varint-Advances bytes start) (λ r₁ a₁.
      natural-Ensures (Accounts bytes start result) _ r₁.0 _ (λ size.
        Ensures-guard _ (leb (r₁.1 + size) (length bytes)) _ _ (λ inside.
          Ensures-bind (Advances bytes (r₁.1 + 1)) _ _ _ (signed_varint-Advances bytes (r₁.1 + 1))
            (λ r₂ a₂.
              Ensures-bind (Advances bytes r₂.1) _ _ _ (signed_varint-Advances bytes r₂.1) (λ r₃ a₃.
                Ensures-bind (Advances bytes r₃.1) _ _ _ (signed_varint-Advances bytes r₃.1)
                  (λ r₄ a₄.
                    Ensures-bind (Advances bytes (r₄.1 + clip r₄.0)) _ _ _
                      (signed_varint-Advances bytes (r₄.1 + clip r₄.0))
                      (λ r₅ a₅.
                        Ensures-bind (Advances bytes (r₅.1 + clip r₅.0)) _ _ _
                          (signed_varint-Advances bytes (r₅.1 + clip r₅.0))
                          (λ r₆ a₆. natural-Ensures (Accounts bytes start result) _ r₆.0 _ (λ count.
                            Ensures-bind (Grows r₆.1 result.header_bytes) _ _ _
                              (header_sizes-Grows count bytes r₆.1 result.header_bytes)
                              (λ r₇ g. Ensures-guard _ (nat_beq r₇.1 (r₁.1 + size)) _ _ (λ exact.
                                let same = (nat_beq_iff r₇.1 (r₁.1 + size)).0 exact in
                                let below = leb→le (r₁.1 + size) (length bytes) inside in
                                omega (
                                  arith, a₁.0, a₂.0, a₃.0, a₄.0, a₅.0, a₆.0, g.0, g.1, same, below,
                                ))))))))))))

-- From a position on, the rest of the data is accounted for.
abbrev Rest : Bytes → ℕ → RecordSizes → RecordSizes → Type 0
Rest bytes position result sizes =
    (total sizes + position ≡ total result + length bytes)
    × (result.record_overhead_bytes + 7 * sizes.parsed_records
        ≤ sizes.record_overhead_bytes + 7 * result.parsed_records)

record_sizes_loop-Rest :
    (fuel : ℕ) (bytes : Bytes) (position : ℕ) (result : RecordSizes)
    → position ≤ length bytes
    → length bytes ≤ position + fuel
    → Ensures (Rest bytes position result) (record_sizes_loop fuel bytes position result)
unfolding record_sizes_loop
record_sizes_loop-Rest zero bytes position result inside enough =
    if_by (Ensures (Rest bytes position result)) (ltb position (length bytes)) {x = stuck}
      (λ more. absurd (ground (arith, more, enough))) (λ done. ground (arith, done, inside))
record_sizes_loop-Rest (suc fuel) bytes position result inside enough =
    if_by (Ensures (Rest bytes position result)) (ltb position (length bytes))
      {x = record_size bytes position result >>= λ r. record_sizes_loop fuel bytes r.1 r.0}
      (λ more.
        Ensures-bind (Accounts bytes position result) _ _ _
          (record_size-Accounts bytes position result)
          (λ r a.
            Ensures-imp (Rest bytes r.1 r.0) _ _
              (record_sizes_loop-Rest fuel bytes r.1 r.0 a.1 (omega (arith, a.0, enough)))
              (λ sizes rest. omega (arith, a.0, a.1, a.2, a.3, a.4, rest.0, rest.1))))
      (λ done. ground (arith, done, inside))

-- What the sizes of a batch say of its bytes.
abbrev pub AccountsFor : Bytes → RecordSizes → Type 0
AccountsFor bytes sizes =
    (total sizes ≡ length bytes) × (7 * sizes.parsed_records ≤ sizes.record_overhead_bytes)

-- `record_sizes` returns or raises on any bytes. If it returns, the bytes of the keys, of the values
-- and of the headers and the overhead are together all the bytes, and the overhead is at least seven
-- bytes for each record.
pub record_sizes-AccountsFor : (bytes : Bytes) → Ensures (AccountsFor bytes) (record_sizes bytes)
unfolding record_sizes
record_sizes-AccountsFor bytes =
    Ensures-imp (Rest bytes 0 no_records) (AccountsFor bytes) _
      (record_sizes_loop-Rest (length bytes) bytes 0 no_records (omega arith) (omega arith))
      (λ sizes r. omega (arith, r.0, r.1))
