-- ===== src/Pcap/Bytes.antt =====
-- Byte strings, and the big-endian words that `struct.unpack_from` reads.
use coroutines_kafka_consume.Prelude.{
  ℕ, zero, suc, ◌+◌, ◌-◌, ◌*◌, ◌/◌, ◌^◌, ◌≤◌, ◌<◌, ◌≡◌, List, [], ◌∷◌, none, some, arith, ltb,
  length, get_elem?, take, drop, length-take, length-drop, if◌then◌else◌,
}
use coroutines_kafka_consume.Prelude.Int.{ℤ, pos, negsuc}
use coroutines_kafka_consume.Pcap.Result.{
  Result, ok, err, Error, ◌>>=◌, Ensures, Ensures-bind, Yields, Yields-bind,
}

abbrev pub Bytes : Type 0
Bytes = List ℕ

-- data[start:end]
unfoldable pub slice : Bytes → ℕ → ℕ → Bytes
slice bytes start end = take (end - start) (drop start bytes)

pub length-slice :
    (bytes : Bytes) (start end : ℕ)
    → start ≤ end
    → end ≤ length bytes
    → length (slice bytes start end) ≡ end - start
unfolding slice
length-slice bytes start end lo hi =
    length-take (end - start) (drop start bytes) (omega (arith, length-drop start bytes, lo, hi))

-- A byte that `struct.unpack_from` needs.
abbrev pub byte_at : Bytes → ℕ → Result ℕ
byte_at bytes position = elim (get_elem? bytes position) [
  | none ↦ err Error.struct_error
  | some byte ↦ ok byte
]

-- The number that a word of the given modulus stands for, in two's complement.
abbrev pub signed : ℕ → ℕ → ℤ
signed modulus word = if ltb word (modulus / 2) then pos word else negsuc (modulus - word - 1)

-- struct.unpack_from(">h", data, position)[0]
unfoldable pub unpack_short : Bytes → ℕ → Result ℤ
unpack_short bytes position = do
  a ← byte_at bytes position
  b ← byte_at bytes (position + 1)
  ok (signed (2 ^ 16) (a * 256 + b))

abbrev pub word : ℕ → ℕ → ℕ → ℕ → ℕ
word a b c d = ((a * 256 + b) * 256 + c) * 256 + d

-- The four bytes of ">i" and ">I".
unfoldable pub unpack_word : Bytes → ℕ → Result ℕ
unpack_word bytes position = do
  a ← byte_at bytes position
  b ← byte_at bytes (position + 1)
  c ← byte_at bytes (position + 2)
  d ← byte_at bytes (position + 3)
  ok (word a b c d)

-- struct.unpack_from(">i", data, position)[0]
unfoldable pub unpack_int : Bytes → ℕ → Result ℤ
unfolding unpack_word
unpack_int bytes position = do w ← unpack_word bytes position; ok (signed (2 ^ 32) w)

-- Within the data, the words are there.
pub byte_at-Yields :
    (bytes : Bytes) (i : ℕ) → i < length bytes → Yields (λ b. Unit) (byte_at bytes i)
byte_at-Yields [] i h = absurd (omega (arith, h))
byte_at-Yields (x ∷ bytes) zero h = tt
byte_at-Yields (x ∷ bytes) (suc i) h = byte_at-Yields bytes i (omega (arith, h))

pub unpack_short-Yields :
    (bytes : Bytes) (i : ℕ) → i + 2 ≤ length bytes → Yields (λ b. Unit) (unpack_short bytes i)
unfolding unpack_short
unpack_short-Yields bytes i h =
    Yields-bind (λ b. Unit) (λ b. Unit) _ _ (byte_at-Yields bytes i (omega (arith, h)))
      (λ a u.
        Yields-bind (λ b. Unit) (λ b. Unit) _ _ (byte_at-Yields bytes (i + 1) (omega (arith, h)))
          (λ b v. tt))

unpack_word-Yields :
    (bytes : Bytes) (i : ℕ) → i + 4 ≤ length bytes → Yields (λ b. Unit) (unpack_word bytes i)
unfolding unpack_word
unpack_word-Yields bytes i h =
    Yields-bind (λ b. Unit) (λ b. Unit) _ _ (byte_at-Yields bytes i (omega (arith, h)))
      (λ a u.
        Yields-bind (λ b. Unit) (λ b. Unit) _ _ (byte_at-Yields bytes (i + 1) (omega (arith, h)))
          (λ b v.
            Yields-bind (λ b. Unit) (λ b. Unit) _ _
              (byte_at-Yields bytes (i + 2) (omega (arith, h)))
              (λ c w.
                Yields-bind (λ b. Unit) (λ b. Unit) _ _
                  (byte_at-Yields bytes (i + 3) (omega (arith, h))) (λ d x. tt))))

pub unpack_int-Yields :
    (bytes : Bytes) (i : ℕ) → i + 4 ≤ length bytes → Yields (λ b. Unit) (unpack_int bytes i)
unfolding unpack_int
unpack_int-Yields bytes i h =
    Yields-bind (λ b. Unit) (λ b. Unit) _ _ (unpack_word-Yields bytes i h) (λ w u. tt)

byte_at-ne-stuck : (bytes : Bytes) (i : ℕ) → Ensures (λ b. Unit) (byte_at bytes i)
byte_at-ne-stuck bytes i =
    elim (get_elem? bytes i)
      as (λ o.
        Ensures (λ b. Unit) (elim o [ none ↦ err Error.struct_error | some byte ↦ ok byte ])) [
          | none ↦ tt
          | some byte ↦ tt
        ]

pub unpack_short-ne-stuck : (bytes : Bytes) (i : ℕ) → Ensures (λ b. Unit) (unpack_short bytes i)
unfolding unpack_short
unpack_short-ne-stuck bytes i =
    Ensures-bind (λ b. Unit) (λ b. Unit) _ _ (byte_at-ne-stuck bytes i)
      (λ a u. Ensures-bind (λ b. Unit) (λ b. Unit) _ _ (byte_at-ne-stuck bytes (i + 1)) (λ b v. tt))

pub unpack_word-ne-stuck : (bytes : Bytes) (i : ℕ) → Ensures (λ b. Unit) (unpack_word bytes i)
unfolding unpack_word
unpack_word-ne-stuck bytes i =
    Ensures-bind (λ b. Unit) (λ b. Unit) _ _ (byte_at-ne-stuck bytes i)
      (λ a u.
        Ensures-bind (λ b. Unit) (λ b. Unit) _ _ (byte_at-ne-stuck bytes (i + 1))
          (λ b v.
            Ensures-bind (λ b. Unit) (λ b. Unit) _ _ (byte_at-ne-stuck bytes (i + 2))
              (λ c w.
                Ensures-bind (λ b. Unit) (λ b. Unit) _ _ (byte_at-ne-stuck bytes (i + 3))
                  (λ d x. tt))))

pub unpack_int-ne-stuck : (bytes : Bytes) (i : ℕ) → Ensures (λ b. Unit) (unpack_int bytes i)
unfolding unpack_int
unpack_int-ne-stuck bytes i =
    Ensures-bind (λ b. Unit) (λ b. Unit) _ _ (unpack_word-ne-stuck bytes i) (λ w u. tt)
