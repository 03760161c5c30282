-- ===== src/Pcap/Varint/RoundTrip.antt =====
-- The varints of the Kafka protocol as an encoder writes them, and what `signed_varint` and
-- `unsigned_varint` of analyze-pcap.py make of them.
use Prim.Native.Nat.{bit_and}
use coroutines_kafka_consume.Prelude.{
  ℕ, zero, suc, ◌+◌, ◌*◌, ◌/◌, ◌%◌, ◌^◌, ◌≤◌, ◌<◌, ◌≡◌, refl, ap, ◌∙◌, [], ◌∷◌, ◌++◌, some, arith,
  ltb, length, drop, drop-append, get_elem?, if◌then◌else◌, Bool-cases, inl, inr,
}
use coroutines_kafka_consume.Prelude.Bits.{bit_and-one, bit_and_127, bit_and_128, bit_or-add}
use coroutines_kafka_consume.Prelude.Int.{ℤ, pos, negsuc}
use coroutines_kafka_consume.Pcap.Result.{ok, Error}
use coroutines_kafka_consume.Pcap.Bytes.{Bytes}
use coroutines_kafka_consume.Pcap.Varint.{groups, unzigzag, signed_varint, unsigned_varint}

-- Seven bits a byte, the lowest first; all bytes but the last have the top bit. The first argument
-- is the most bytes there may be.
abbrev pub encode : ℕ → ℕ → Bytes
encode zero n = []
encode (suc rounds) n = if ltb n 128 then n ∷ [] else (n % 128 + 128) ∷ encode rounds (n / 128)

abbrev pub zigzag : ℤ → ℕ
zigzag (pos n) = n * 2
zigzag (negsuc n) = n * 2 + 1

first_of :
    (bytes rest : Bytes) (position x : ℕ)
    → drop position bytes ≡ x ∷ rest
    → (get_elem? bytes position ≡ some x) × (drop (suc position) bytes ≡ rest)
first_of [] rest zero x h = cc h
first_of [] rest (suc position) x h = cc h
first_of (y ∷ bytes) rest zero x h = (cc h, cc h)
first_of (y ∷ bytes) rest (suc position) x h = first_of bytes rest position x h

groups-last :
    (rounds : ℕ) (t o : Error) (bytes : Bytes) (position value s n : ℕ)
    → get_elem? bytes position ≡ some n
    → n < 128
    → value < 2 ^ s
    → groups (suc rounds) t o bytes position value s ≡ ok (value + n * 2 ^ s, position + 1)
unfolding groups
groups-last rounds t o bytes position value s n at small low =
    let low_bits : bit_and n 127 ≡ n = omega (arith, bit_and_127 n, small) in
    let top_bit : bit_and n 128 ≡ 0 = omega (arith, bit_and_128 n, small) in
    rw (at, groups, low_bits, top_bit, bit_or-add s value n low) refl

groups-more :
    (rounds : ℕ) (t o : Error) (bytes : Bytes) (position value s n : ℕ)
    → get_elem? bytes position ≡ some (n + 128)
    → n < 128
    → value < 2 ^ s
    → groups (suc rounds) t o bytes position value s
      ≡ groups rounds t o bytes (position + 1) (value + n * 2 ^ s) (s + 7)
unfolding groups
groups-more rounds t o bytes position value s n at small low =
    let low_bits : bit_and (n + 128) 127 ≡ n = omega (arith, bit_and_127 (n + 128), small) in
    let top_bit : bit_and (n + 128) 128 ≡ 128 = omega (arith, bit_and_128 (n + 128), small) in
    rw (at, groups, low_bits, top_bit, bit_or-add s value n low) refl

-- Seven more bits.
shifted :
    (s value low high n : ℕ)
    → value < 2 ^ s
    → low < 128
    → n ≡ low + 128 * high
    → (value + low * 2 ^ s < 2 ^ (s + 7))
      × (value + low * 2 ^ s + high * 2 ^ (s + 7) ≡ value + n * 2 ^ s)
shifted s value low high n h small split =
    let seven : s + 7 ≡ suc (suc (suc (suc (suc (suc (suc s)))))) = omega arith in
    let wide : 2 ^ (s + 7) ≡ 128 * 2 ^ s = rw seven (omega arith) in
    rw (wide, split) (grind (arith, h, small), grind arith)

groups-encode :
    (rounds : ℕ) (t o : Error) (bytes back : Bytes) (position value s n : ℕ)
    → drop position bytes ≡ encode rounds n ++ back
    → n < 128 ^ rounds
    → 1 ≤ n + rounds
    → value < 2 ^ s
    → groups rounds t o bytes position value s
      ≡ ok (value + n * 2 ^ s, position + length (encode rounds n))
unfolding groups
groups-encode zero t o bytes back position value s n at small some_round low =
    absurd (omega (arith, small, some_round))
groups-encode (suc rounds) t o bytes back position value s n at small some_round low =
    elim (Bool-cases (ltb n 128)) [
      | inl last ↦
          let found = (first_of bytes back position n (at ∙ rw last refl)).0 in
          rw last (groups-last rounds t o bytes position value s n found (ground (arith, last)) low)
      | inr more ↦
          let (found, rest) =
            first_of bytes (encode rounds (n / 128) ++ back) position (n % 128 + 128)
              (at ∙ rw more refl) in
          let wide : 128 ^ suc rounds ≡ 128 * 128 ^ rounds = omega arith in
          let long : 128 ≤ n = ground (arith, more) in
          let (low', same) =
            shifted s value (n % 128) (n / 128) n low (omega arith) (omega arith) in
          let later : drop (position + 1) bytes ≡ encode rounds (n / 128) ++ back =
            ap (λ (p : ℕ). drop p bytes) {y = suc position} (omega arith) ∙ rest in
          rw
            (
              more,
              groups-more rounds t o bytes position value s (n % 128) found (omega arith) low,
              groups-encode rounds t o bytes back (position + 1) (value + n % 128 * 2 ^ s) (s + 7)
                  (n / 128) later (omega (arith, small, wide)) (omega (arith, long)) low',
              same,
            )
            (ap (λ (p : ℕ). ok (value + n * 2 ^ s, p)) (omega arith))
    ]

-- `unsigned_varint` at the place of an encoded number of at most five groups returns the number and
-- the place behind it, whatever stands before and behind.
pub unsigned_varint-encode :
    (front back : Bytes) (n : ℕ)
    → n < 128 ^ 5
    → unsigned_varint (front ++ (encode 5 n ++ back)) (length front)
      ≡ ok (n, length front + length (encode 5 n))
unfolding unsigned_varint
unsigned_varint-encode front back n small =
    groups-encode 5 _ _ (front ++ (encode 5 n ++ back)) back (length front) 0 0 n
      (drop-append front (encode 5 n ++ back)) small (omega arith) (omega arith)
    ∙ ap (λ (v : ℕ). ok (v, length front + length (encode 5 n))) (omega arith)

pub unzigzag-zigzag : (z : ℤ) → unzigzag (zigzag z) ≡ z
unzigzag-zigzag (pos n) =
    let even : bit_and (n * 2) 1 ≡ 0 = omega (arith, bit_and-one (n * 2)) in
    rw even (ap pos (omega arith))
unzigzag-zigzag (negsuc n) =
    let odd : bit_and (n * 2 + 1) 1 ≡ 1 = omega (arith, bit_and-one (n * 2 + 1)) in
    rw odd (ap negsuc (omega arith))

-- `signed_varint` at the place of the zigzag code of an integer of at most ten groups returns the
-- integer and the place behind it, whatever stands before and behind.
pub signed_varint-encode :
    (front back : Bytes) (z : ℤ)
    → zigzag z < 128 ^ 10
    → signed_varint (front ++ (encode 10 (zigzag z) ++ back)) (length front)
      ≡ ok (z, length front + length (encode 10 (zigzag z)))
unfolding signed_varint
signed_varint-encode front back z small =
    let n = zigzag z in
    let read =
      groups-encode 10 Error.truncated_varint Error.oversized_varint
        (front ++ (encode 10 n ++ back)) back (length front) 0 0 n
        (drop-append front (encode 10 n ++ back)) small (omega arith) (omega arith) in
    rw read (
      ap (λ (v : ℤ). ok (v, length front + length (encode 10 n)))
        (ap unzigzag (omega arith) ∙ unzigzag-zigzag z))
