-- ===== src/Pcap/Fields/Within.antt =====
-- Every reader advances, and stays within the data; what it returns lies between the two positions.
use coroutines_kafka_consume.Prelude.{
  ℕ, zero, suc, ◌+◌, ◌≤◌, ◌<◌, Bool, true, false, ◌&&◌, Option, none, some, String, [], arith, leb,
  length, leb→le, if_ind,
}
use coroutines_kafka_consume.Prelude.Int.{ℤ, pos, negsuc, int_beq}
use coroutines_kafka_consume.Pcap.Result.{
  Result, ok, err, Error, ◌>>=◌, ◌>>◌, guard, Ensures, Ensures-imp, Ensures-bind, Ensures-guard,
}
use coroutines_kafka_consume.Pcap.Bytes.{
  Bytes, length-slice, unpack_short-ne-stuck, unpack_int-ne-stuck,
}
use coroutines_kafka_consume.Pcap.Varint.{Advances, unsigned_varint-Advances}
use coroutines_kafka_consume.Pcap.Fields.{
  signed_short, signed_int, skip_fields, skip_tagged_fields, message_limit, sized, sized_int,
  kafka_bytes, count_of, compact_count, bytes_or_empty, string_or_none, compact_bytes, text_of,
  decoded, kafka_string, compact_string,
}

-- The position does not go back, and stays within the data.
abbrev pub Stays : Bytes → ℕ → ℕ → Type 0
Stays bytes position p = (position ≤ p) × (p ≤ length bytes)

-- A byte string that was cut out lies between the two positions.
abbrev pub Cuts : Bytes → ℕ → Bytes × ℕ → Type 0
Cuts bytes position r = (position + length r.0 ≤ r.1) × (r.1 ≤ length bytes)

-- The same, at least a byte further.
abbrev pub CutsPast : Bytes → ℕ → Bytes × ℕ → Type 0
CutsPast bytes position r = (position + length r.0 ≤ r.1) × (r.1 ≤ length bytes) × (position < r.1)

pub message_limit-le :
    (bytes : Bytes) → Ensures (λ limit. (4 ≤ limit) × (limit ≤ length bytes)) (message_limit bytes)
unfolding message_limit
message_limit-le bytes = Ensures-guard _ (leb 4 (length bytes)) Error.truncated_message _ (λ long.
    Ensures-bind (λ size. Unit) _ _ _ (unpack_int-ne-stuck bytes 0)
      (λ size u.
        elim size
          as (λ size.
            Ensures (λ limit. (4 ≤ limit) × (limit ≤ length bytes))
              (elim size [
                | negsuc n ↦ err Error.truncated_payload
                | pos size ↦
                    guard (leb (size + 4) (length bytes)) Error.truncated_payload >> ok (size + 4)
              ])) [
                | negsuc n ↦ tt
                | pos size ↦
                    Ensures-guard _ (leb (size + 4) (length bytes)) _ (ok (size + 4))
                      (λ fits. omega (arith, leb→le (size + 4) (length bytes) fits))
              ]))

module _ (bytes : Bytes) (limit : ℕ) (limited : limit ≤ length bytes) where
  pub signed_short-Advances :
      (position : ℕ) → Ensures (Advances bytes position) (signed_short bytes position limit)
  unfolding signed_short
  signed_short-Advances position =
      Ensures-guard (Advances bytes position) (leb (position + 2) limit) _ _ (λ fits.
        Ensures-bind (λ v. Unit) (Advances bytes position) _ _
          (unpack_short-ne-stuck bytes position)
          (λ v u. omega (arith, limited, leb→le (position + 2) limit fits)))

  pub signed_int-Advances :
      (position : ℕ) → Ensures (Advances bytes position) (signed_int bytes position limit)
  unfolding signed_int
  signed_int-Advances position =
      Ensures-guard (Advances bytes position) (leb (position + 4) limit) _ _ (λ fits.
        Ensures-bind (λ v. Unit) (Advances bytes position) _ _ (unpack_int-ne-stuck bytes position)
          (λ v u. omega (arith, limited, leb→le (position + 4) limit fits)))

  skip_fields-Stays :
      (count position : ℕ)
      → position ≤ length bytes
      → Ensures (Stays bytes position) (skip_fields count bytes position limit)
  unfolding skip_fields
  skip_fields-Stays zero position h = omega (arith, h)
  skip_fields-Stays (suc count) position h =
      Ensures-bind (Advances bytes position) (Stays bytes position) _ _
        (unsigned_varint-Advances bytes position)
        (λ r₁ a₁.
          Ensures-bind (Advances bytes r₁.1) (Stays bytes position) _ _
            (unsigned_varint-Advances bytes r₁.1)
            (λ r₂ a₂. Ensures-guard (Stays bytes position) (leb (r₂.1 + r₂.0) limit) _ _ (λ fits.
              let below = leb→le (r₂.1 + r₂.0) limit fits in
              Ensures-imp (Stays bytes (r₂.1 + r₂.0)) (Stays bytes position) _
                (skip_fields-Stays count (r₂.1 + r₂.0) (omega (arith, below, limited)))
                (λ p s. omega (arith, s.0, s.1, a₁.0, a₂.0)))))

  pub skip_tagged_fields-Stays :
      (position : ℕ) → Ensures (Stays bytes position) (skip_tagged_fields bytes position limit)
  unfolding skip_tagged_fields
  skip_tagged_fields-Stays position =
      Ensures-bind (Advances bytes position) (Stays bytes position) _ _
        (unsigned_varint-Advances bytes position)
        (λ r a.
          Ensures-imp (Stays bytes r.1) (Stays bytes position) _ (skip_fields-Stays r.0 r.1 a.1)
            (λ p s. omega (arith, s.0, s.1, a.0)))

  pub sized-Cuts :
      (position size : ℕ) (e : Error)
      → Ensures (Cuts bytes position) (sized bytes position limit size e)
  sized-Cuts position size e =
      Ensures-guard (Cuts bytes position) (leb (position + size) limit) e _ (λ fits.
        let below = leb→le (position + size) limit fits in
        omega (
          arith,
          below,
          limited,
          length-slice bytes position (position + size) (omega arith)
              (omega (arith, below, limited)),
        ))

  count_of-Advances :
      (position p encoded : ℕ) (nullable : Bool)
      → (position < p) × (p ≤ length bytes)
      → Ensures (Advances bytes position) (count_of nullable p encoded)
  count_of-Advances position p zero true a = a
  count_of-Advances position p zero false a = tt
  count_of-Advances position p (suc n) nullable a = a

  pub compact_count-Advances :
      (position : ℕ) (nullable : Bool)
      → Ensures (Advances bytes position) (compact_count bytes position nullable)
  unfolding compact_count
  compact_count-Advances position nullable =
      Ensures-bind (Advances bytes position) (Advances bytes position) _ _
        (unsigned_varint-Advances bytes position)
        (λ r a. count_of-Advances position r.1 r.0 nullable a)

  bytes_or_empty-Cuts :
      (position p : ℕ) (size : Option ℕ)
      → (position < p) × (p ≤ length bytes)
      → Ensures (CutsPast bytes position) (bytes_or_empty bytes p limit size)
  bytes_or_empty-Cuts position p none a = omega (arith, a.0, a.1)
  bytes_or_empty-Cuts position p (some size) a =
      Ensures-imp (Cuts bytes p) _ _ (sized-Cuts p size Error.truncated_compact_bytes)
        (λ r c. omega (arith, c.0, c.1, a.0))

  pub compact_bytes-Cuts :
      (position : ℕ) (nullable : Bool)
      → Ensures (CutsPast bytes position) (compact_bytes bytes position limit nullable)
  unfolding compact_bytes
  compact_bytes-Cuts position nullable =
      Ensures-bind (Advances bytes position) _ _ _ (compact_count-Advances position nullable)
        (λ r a. bytes_or_empty-Cuts position r.1 r.0 a)

  sized_int-Cuts :
      (position : ℕ) (size : ℤ) (e : Error)
      → Ensures (Cuts bytes position) (sized_int bytes position limit size e)
  sized_int-Cuts position (negsuc n) e = tt
  sized_int-Cuts position (pos size) e = sized-Cuts position size e

  pub kafka_bytes-Cuts :
      (position : ℕ) → Ensures (Cuts bytes position) (kafka_bytes bytes position limit)
  unfolding kafka_bytes
  kafka_bytes-Cuts position =
      Ensures-bind (Advances bytes position) (Cuts bytes position) _ _
        (signed_int-Advances position)
        (λ r a.
          if_ind (Ensures (Cuts bytes position)) (int_beq r.0 (negsuc 0)) {x = ok ([], r.1)}
            (omega (arith, a.0, a.1))
            (Ensures-imp (Cuts bytes r.1) (Cuts bytes position) _
              (sized_int-Cuts r.1 r.0 Error.invalid_bytes) (λ t c. omega (arith, c.0, c.1, a.0))))

  module _ (decode : Bytes → Option String) where
    text_of-Advances :
        (position p : ℕ) (text : Option String)
        → (position < p) × (p ≤ length bytes)
        → Ensures (Advances bytes position) (text_of text p)
    text_of-Advances position p none a = tt
    text_of-Advances position p (some s) a = a

    decoded-Advances :
        (position p : ℕ) (m : Result (Bytes × ℕ))
        → position < p
        → Ensures (Cuts bytes p) m
        → Ensures (Advances bytes position) (m >>= decoded decode)
    decoded-Advances position p m a cut =
        Ensures-bind (Cuts bytes p) (Advances bytes position) m (decoded decode) cut
          (λ r c. text_of-Advances position r.1 (decode r.0) (omega (arith, a, c.0, c.1)))

    pub kafka_string-Advances :
        (position : ℕ) (nullable : Bool)
        → Ensures (Advances bytes position) (kafka_string decode bytes position limit nullable)
    unfolding kafka_string
    kafka_string-Advances position nullable =
        Ensures-bind (Advances bytes position) (Advances bytes position) _ _
          (signed_short-Advances position)
          (λ r a.
            if_ind (Ensures (Advances bytes position)) (int_beq r.0 (negsuc 0) && nullable)
              {x = ok (none, r.1)} a
              (decoded-Advances position r.1 _ a.0 (sized_int-Cuts r.1 r.0 Error.invalid_string)))

    string_or_none-Advances :
        (position p : ℕ) (size : Option ℕ)
        → (position < p) × (p ≤ length bytes)
        → Ensures (Advances bytes position) (string_or_none decode bytes p limit size)
    string_or_none-Advances position p none a = a
    string_or_none-Advances position p (some size) a =
        decoded-Advances position p _ a.0 (sized-Cuts p size Error.truncated_compact_string)

    pub compact_string-Advances :
        (position : ℕ) (nullable : Bool)
        → Ensures (Advances bytes position) (compact_string decode bytes position limit nullable)
    unfolding compact_string
    compact_string-Advances position nullable =
        Ensures-bind (Advances bytes position) (Advances bytes position) _ _
          (compact_count-Advances position nullable)
          (λ r a. string_or_none-Advances position r.1 r.0 a)
