-- ===== src/Audit/Flags.antt =====
-- The outcome flags of analyze-audit.py, one byte for each closed record: PUBLISHED_FLAG = 1,
-- PROCESSED_FLAG = 2, FAILED_FLAG = 4, DROPPED_FLAG = 8, LIFECYCLE_DROPPED_FLAG = 16 and
-- HANDED_OFF_FLAG = 32. The program tests them by `&` and adds them by `|`; the model reads a byte
-- as a record of six bits, and the tables below tie the two together.
use Prim.Native.Nat.{bit_and, bit_or}
use coroutines_kafka_consume.Prelude.{
  ℕ, zero, suc, ◌+◌, ◌*◌, ◌/◌, ◌%◌, ◌<◌, ◌≡◌, refl, Bool, true, false, not, ◌&&◌, ◌||◌, arith,
  nat_beq, nat_beq_iff,
}

pub record Flags : Type 0 where
  pub published : Bool
  pub processed : Bool
  pub failed : Bool
  pub dropped : Bool
  pub lifecycle_dropped : Bool
  pub handed_off : Bool

abbrev bit : Bool → ℕ
bit true = 1
bit false = 0

unfoldable pub to_byte : Flags → ℕ
to_byte f =
    bit f.published
    + 2 * bit f.processed
    + 4 * bit f.failed
    + 8 * bit f.dropped
    + 16 * bit f.lifecycle_dropped
    + 32 * bit f.handed_off

unfoldable pub of_byte : ℕ → Flags
of_byte n = record {
  published = nat_beq (n % 2) 1;
  processed = nat_beq (n / 2 % 2) 1;
  failed = nat_beq (n / 4 % 2) 1;
  dropped = nat_beq (n / 8 % 2) 1;
  lifecycle_dropped = nat_beq (n / 16 % 2) 1;
  handed_off = nat_beq (n / 32 % 2) 1;
}

-- `if closed_flags:`, a byte that is not zero.
unfoldable pub is_closed : Flags → Bool
is_closed f =
    f.published
    || (f.processed || (f.failed || (f.dropped || (f.lifecycle_dropped || f.handed_off))))

-- flags & TERMINAL_FLAGS
unfoldable pub has_terminal : Flags → Bool
has_terminal f = f.processed || (f.failed || f.dropped)

pub of_byte-to_byte : (f : Flags) → of_byte (to_byte f) ≡ f
unfolding of_byte to_byte
of_byte-to_byte f = ground arith

to_byte-lt : (f : Flags) → to_byte f < 64
unfolding to_byte
to_byte-lt f = ground arith

-- The six constants.
pub data Flag : Type 0 where
  published_flag processed_flag failed_flag dropped_flag : Flag
  lifecycle_dropped_flag handed_off_flag : Flag

unfoldable pub mask : Flag → ℕ
mask Flag.published_flag = 1
mask Flag.processed_flag = 2
mask Flag.failed_flag = 4
mask Flag.dropped_flag = 8
mask Flag.lifecycle_dropped_flag = 16
mask Flag.handed_off_flag = 32

-- flags & FLAG, as a test
abbrev pub has : Flag → Flags → Bool
has Flag.published_flag f = f.published
has Flag.processed_flag f = f.processed
has Flag.failed_flag f = f.failed
has Flag.dropped_flag f = f.dropped
has Flag.lifecycle_dropped_flag f = f.lifecycle_dropped
has Flag.handed_off_flag f = f.handed_off

-- flags | FLAG
abbrev pub add : Flag → Flags → Flags
add Flag.published_flag f = record f { published = true }
add Flag.processed_flag f = record f { processed = true }
add Flag.failed_flag f = record f { failed = true }
add Flag.dropped_flag f = record f { dropped = true }
add Flag.lifecycle_dropped_flag f = record f { lifecycle_dropped = true }
add Flag.handed_off_flag f = record f { handed_off = true }

-- A test passes on the bytes under `n`.
passes_under : (ℕ → Bool) → ℕ → Bool
passes_under test zero = true
passes_under test (suc n) = passes_under test n && test n

test_byte :
    (test : ℕ → Bool) (n byte : ℕ) → passes_under test n ≡ true → byte < n → test byte ≡ true
unfolding passes_under
test_byte test zero byte passed under = elim under [ ]
test_byte test (suc n) byte passed under = ground (arith, test_byte test n byte)

abbrev or_agrees : Flag → ℕ → Bool
or_agrees x n = nat_beq (bit_or n (mask x)) (to_byte (add x (of_byte n)))

bool_eq : Bool → Bool → Bool
bool_eq true b = b
bool_eq false b = not b

bool_eq_sound : (a b : Bool) → bool_eq a b ≡ true → a ≡ b
unfolding bool_eq
bool_eq_sound a b h = ground arith

abbrev and_agrees : Flag → ℕ → Bool
and_agrees x n = bool_eq (not (nat_beq (bit_and n (mask x)) 0)) (has x (of_byte n))

abbrev terminal_agrees : ℕ → Bool
terminal_agrees n = bool_eq (not (nat_beq (bit_and n 14) 0)) (has_terminal (of_byte n))

or_table : (x : Flag) → passes_under (or_agrees x) 64 ≡ true
unfolding passes_under to_byte of_byte mask
or_table Flag.published_flag = refl
or_table Flag.processed_flag = refl
or_table Flag.failed_flag = refl
or_table Flag.dropped_flag = refl
or_table Flag.lifecycle_dropped_flag = refl
or_table Flag.handed_off_flag = refl

and_table : (x : Flag) → passes_under (and_agrees x) 64 ≡ true
unfolding passes_under bool_eq of_byte mask
and_table Flag.published_flag = refl
and_table Flag.processed_flag = refl
and_table Flag.failed_flag = refl
and_table Flag.dropped_flag = refl
and_table Flag.lifecycle_dropped_flag = refl
and_table Flag.handed_off_flag = refl

terminal_table : passes_under terminal_agrees 64 ≡ true
unfolding passes_under bool_eq of_byte has_terminal
terminal_table = refl

or_byte : (x : Flag) (f : Flags) → bit_or (to_byte f) (mask x) ≡ to_byte (add x f)
or_byte x f =
    let e = test_byte (or_agrees x) 64 (to_byte f) (or_table x) (to_byte-lt f) in
    (nat_beq_iff _ _).0 (rw of_byte-to_byte at e)

and_byte : (x : Flag) (f : Flags) → not (nat_beq (bit_and (to_byte f) (mask x)) 0) ≡ has x f
and_byte x f =
    let e = test_byte (and_agrees x) 64 (to_byte f) (and_table x) (to_byte-lt f) in
    bool_eq_sound _ _ (rw of_byte-to_byte at e)

terminal_byte : (f : Flags) → not (nat_beq (bit_and (to_byte f) 14) 0) ≡ has_terminal f
terminal_byte f =
    let e = test_byte terminal_agrees 64 (to_byte f) terminal_table (to_byte-lt f) in
    bool_eq_sound _ _ (rw of_byte-to_byte at e)

-- On the byte of any outcomes, `| FLAG` adds exactly that outcome, `& FLAG` tests exactly that
-- outcome, for each of the six flags, and `& TERMINAL_FLAGS` tests for a terminal outcome.
pub flag_bytes :
    (x : Flag) (f : Flags)
    → (bit_or (to_byte f) (mask x) ≡ to_byte (add x f))
      × (not (nat_beq (bit_and (to_byte f) (mask x)) 0) ≡ has x f)
      × (not (nat_beq (bit_and (to_byte f) 14) 0) ≡ has_terminal f)
flag_bytes x f = (or_byte x f, and_byte x f, terminal_byte f)
