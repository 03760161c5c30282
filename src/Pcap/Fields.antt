-- ===== src/Pcap/Fields.antt =====
-- The readers of the fields of a message in analyze-pcap.py, each with the limit of the message.
--
-- `bytes.decode("utf-8")` is a parameter: none for bytes that are not UTF-8.
pub mod Within
use coroutines_kafka_consume.Prelude.{
  ℕ, zero, suc, ◌+◌, ◌-◌, ◌*◌, ◌^◌, ◌≤◌, ◌<◌, ◌≡◌, refl, Bool, true, false, ◌&&◌, Option, none,
  some, String, List, [], ◌∷◌, arith, nat_beq, ltb, leb, length, if◌then◌else◌, if_ind, if_by,
}
use coroutines_kafka_consume.Prelude.Int.{ℤ, pos, negsuc, ltb_ℤ, int_beq}
use coroutines_kafka_consume.Pcap.Result.{
  Result, ok, err, stuck, Error, ◌>>=◌, ◌>>◌, guard, Ensures, Ensures-imp, Ensures-bind,
  Ensures-guard,
}
use coroutines_kafka_consume.Pcap.Bytes.{Bytes, slice, unpack_short, unpack_int}
use coroutines_kafka_consume.Pcap.Varint.{Advances, unsigned_varint, unsigned_varint-Advances}

unfoldable pub signed_short : Bytes → ℕ → ℕ → Result (ℤ × ℕ)
unfolding unpack_short
signed_short bytes position limit = do
  guard (leb (position + 2) limit) Error.truncated_short
  value ← unpack_short bytes position
  ok (value, position + 2)

unfoldable pub signed_int : Bytes → ℕ → ℕ → Result (ℤ × ℕ)
unfolding unpack_int
signed_int bytes position limit = do
  guard (leb (position + 4) limit) Error.truncated_integer
  value ← unpack_int bytes position
  ok (value, position + 4)

-- The loop of `skip_tagged_fields`.
unfoldable pub skip_fields : ℕ → Bytes → ℕ → ℕ → Result ℕ
unfolding unsigned_varint
skip_fields zero bytes position limit = ok position
skip_fields (suc count) bytes position limit = do
  (_, position₁) ← unsigned_varint bytes position
  (size, position₂) ← unsigned_varint bytes position₁
  guard (leb (position₂ + size) limit) Error.truncated_tagged_fields
  skip_fields count bytes (position₂ + size) limit

unfoldable pub skip_tagged_fields : Bytes → ℕ → ℕ → Result ℕ
unfolding unsigned_varint skip_fields
skip_tagged_fields bytes position limit = do
  (count, position') ← unsigned_varint bytes position
  skip_fields count bytes position' limit

-- size < 0 or size + 4 > len(data)
unfoldable pub message_limit : Bytes → Result ℕ
unfolding unpack_int
message_limit bytes = do
  guard (leb 4 (length bytes)) Error.truncated_message
  size ← unpack_int bytes 0
  elim size [
    | negsuc n ↦ err Error.truncated_payload
    | pos size ↦ guard (leb (size + 4) (length bytes)) Error.truncated_payload >> ok (size + 4)
  ]

-- data[position : position + length], which must end within the limit
abbrev pub sized : Bytes → ℕ → ℕ → ℕ → Error → Result (Bytes × ℕ)
sized bytes position limit size e =
    guard (leb (position + size) limit) e
    >> ok (slice bytes position (position + size), position + size)

-- The same for a length that may be negative.
abbrev pub sized_int : Bytes → ℕ → ℕ → ℤ → Error → Result (Bytes × ℕ)
sized_int bytes position limit (negsuc n) e = err e
sized_int bytes position limit (pos size) e = sized bytes position limit size e

unfoldable pub kafka_bytes : Bytes → ℕ → ℕ → Result (Bytes × ℕ)
unfolding signed_int slice
kafka_bytes bytes position limit = do
  (size, position') ← signed_int bytes position limit
  if int_beq size (negsuc 0)
      then ok ([], position')
      else sized_int bytes position' limit size Error.invalid_bytes

abbrev pub count_of : Bool → ℕ → ℕ → Result (Option ℕ × ℕ)
count_of nullable position zero = if nullable then ok (none, position) else err Error.null_compact
count_of nullable position (suc n) = ok (some n, position)

-- `none` is Python's None, which only a nullable value may be.
unfoldable pub compact_count : Bytes → ℕ → Bool → Result (Option ℕ × ℕ)
unfolding unsigned_varint
compact_count bytes position nullable = do
  (encoded, position') ← unsigned_varint bytes position
  count_of nullable position' encoded

abbrev pub bytes_or_empty : Bytes → ℕ → ℕ → Option ℕ → Result (Bytes × ℕ)
bytes_or_empty bytes position limit none = ok ([], position)
bytes_or_empty bytes position limit (some size) =
    sized bytes position limit size Error.truncated_compact_bytes

unfoldable pub compact_bytes : Bytes → ℕ → ℕ → Bool → Result (Bytes × ℕ)
unfolding compact_count slice
compact_bytes bytes position limit nullable = do
  (size, position') ← compact_count bytes position nullable
  bytes_or_empty bytes position' limit size

abbrev pub text_of : Option String → ℕ → Result (Option String × ℕ)
text_of none position = err Error.unicode_error
text_of (some s) position = ok (some s, position)

module _ (decode : Bytes → Option String) where
  -- .decode("utf-8")
  abbrev pub decoded : Bytes × ℕ → Result (Option String × ℕ)
  decoded (text, position) = text_of (decode text) position

  unfoldable pub kafka_string : Bytes → ℕ → ℕ → Bool → Result (Option String × ℕ)
  unfolding signed_short slice
  kafka_string bytes position limit nullable = do
    (size, position') ← signed_short bytes position limit
    if int_beq size (negsuc 0) && nullable
        then ok (none, position')
        else sized_int bytes position' limit size Error.invalid_string >>= decoded

  abbrev pub string_or_none : Bytes → ℕ → ℕ → Option ℕ → Result (Option String × ℕ)
  string_or_none bytes position limit none = ok (none, position)
  string_or_none bytes position limit (some size) =
      sized bytes position limit size Error.truncated_compact_string >>= decoded

  unfoldable pub compact_string : Bytes → ℕ → ℕ → Bool → Result (Option String × ℕ)
  unfolding compact_count slice
  compact_string bytes position limit nullable = do
    (size, position') ← compact_count bytes position nullable
    string_or_none bytes position' limit size
