-- ===== src/Pcap/Varint.antt =====
-- `signed_varint` and `unsigned_varint` of analyze-pcap.py.
pub mod RoundTrip
use Prim.Native.Nat.{bit_and, bit_or}
use coroutines_kafka_consume.Prelude.{
  ℕ, zero, suc, ◌+◌, ◌*◌, ◌/◌, ◌^◌, ◌≤◌, ◌<◌, ◌≡◌, refl, Option, none, some, List, [], ◌∷◌, arith,
  nat_beq, length, get_elem?, get_elem?-some-lt, if◌then◌else◌, if_ind, Option-cases, inl, inr,
}
use coroutines_kafka_consume.Prelude.Int.{ℤ, pos, negsuc}
use coroutines_kafka_consume.Pcap.Result.{
  Result, ok, err, stuck, Error, ◌>>=◌, Ensures, Ensures-imp, Ensures-bind,
}
use coroutines_kafka_consume.Pcap.Bytes.{Bytes}

-- The loop of both: `rounds` are left, and the exceptions are those for the end of the data and for
-- the end of the rounds.
unfoldable pub groups : ℕ → Error → Error → Bytes → ℕ → ℕ → ℕ → Result (ℕ × ℕ)
groups zero truncated oversized bytes position value shift = err oversized
groups (suc rounds) truncated oversized bytes position value shift =
    elim (get_elem? bytes position) [
      | none ↦ err truncated
      | some byte ↦
          let value' = bit_or value (bit_and byte 0x7f * 2 ^ shift) in
          let more = groups rounds truncated oversized bytes (position + 1) value' (shift + 7) in
          if nat_beq (bit_and byte 0x80) 0 then ok (value', position + 1) else more
    ]

-- (value >> 1) ^ -(value & 1): `x ^ 0` is x, and `x ^ -1` is -x - 1.
abbrev pub unzigzag : ℕ → ℤ
unzigzag value = if nat_beq (bit_and value 1) 0 then pos (value / 2) else negsuc (value / 2)

unfoldable pub signed_varint : Bytes → ℕ → Result (ℤ × ℕ)
unfolding groups
signed_varint bytes position = do
  (value, position') ← groups 10 Error.truncated_varint Error.oversized_varint bytes position 0 0
  ok (unzigzag value, position')

unfoldable pub unsigned_varint : Bytes → ℕ → Result (ℕ × ℕ)
unfolding groups
unsigned_varint bytes position =
    groups 5 Error.truncated_unsigned_varint Error.oversized_unsigned_varint bytes position 0 0

-- A value that is read takes a byte at least, and ends within the data.
abbrev pub Advances {ℓ} : {A : Type ℓ} → Bytes → ℕ → A × ℕ → Type 0
Advances bytes position r = (position < r.1) × (r.1 ≤ length bytes)

groups-Advances :
    (rounds : ℕ) (truncated oversized : Error) (bytes : Bytes) (position value shift : ℕ)
    → Ensures
        (Advances bytes position)
        (groups rounds truncated oversized bytes position value shift)
unfolding groups
groups-Advances zero t o bytes position value shift = tt
groups-Advances (suc rounds) t o bytes position value shift =
    elim (Option-cases (get_elem? bytes position)) [
      | inl end ↦ rw (end, groups) tt
      | inr (byte, found) ↦
          let value' = bit_or value (bit_and byte 0x7f * 2 ^ shift) in
          rw (found, groups)
            (if_ind (Ensures (Advances bytes position)) (nat_beq (bit_and byte 0x80) 0)
              {x = ok (value', position + 1)}
              (omega (arith, get_elem?-some-lt bytes position byte found))
              (Ensures-imp (Advances bytes (position + 1)) (Advances bytes position) _
                (groups-Advances rounds t o bytes (position + 1) value' (shift + 7))
                (λ r h. omega (arith, h.0, h.1))))
    ]

pub signed_varint-Advances :
    (bytes : Bytes) (position : ℕ)
    → Ensures (Advances bytes position) (signed_varint bytes position)
unfolding signed_varint
signed_varint-Advances bytes position =
    Ensures-bind (Advances bytes position) (Advances bytes position) _ _
      (groups-Advances 10 _ _ bytes position 0 0) (λ r h. h)

pub unsigned_varint-Advances :
    (bytes : Bytes) (position : ℕ)
    → Ensures (Advances bytes position) (unsigned_varint bytes position)
unfolding unsigned_varint
unsigned_varint-Advances bytes position = groups-Advances 5 _ _ bytes position 0 0
