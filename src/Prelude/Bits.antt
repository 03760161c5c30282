-- ===== src/Prelude/Bits.antt =====
-- The bit operations on variables: masks as remainders, and `|` of numbers with no bit in common as
-- their sum.
use Prim.Native.Nat.{
  ℕ, zero, suc, ◌+◌, ◌*◌, ◌/◌, ◌%◌, ◌^◌, ◌≤◌, ◌<◌, min, max, bit_and, bit_or, digits,
  bit_and-bitwise, bit_or-bitwise,
}
use mathlib.Core.Path.{◌≡◌, refl, ap}
use native.Mathlib.Omega.{arith}

-- The digits from the lowest on: with any number of rounds that is enough, they are the same.
module _ (last : ℕ → ℕ) (join : ℕ → ℕ → ℕ) where
  same_digits :
      (x y rounds others : ℕ)
      → x ≤ others
      → x ≤ rounds
      → digits last join others x y ≡ digits last join rounds x y
  same_digits (suc x) y zero others enough short = absurd (omega (arith, short))
  same_digits (suc x) y (suc rounds) zero short enough = absurd (omega (arith, short))
  same_digits (suc x) y (suc rounds) (suc others) h k =
      let half = suc x / 2 in
      let rest = same_digits half (y / 2) rounds others (omega (arith, h)) (omega (arith, k)) in
      omega (arith, rest)
  same_digits zero y zero zero h k = refl
  same_digits zero y zero (suc others) h k = refl
  same_digits zero y (suc rounds) zero h k = refl
  same_digits zero y (suc rounds) (suc others) h k = refl

none_and : (y : ℕ) → bit_and 0 y ≡ 0
none_and y = bit_and-bitwise 0 y

pub zero-bit_or : (y : ℕ) → bit_or 0 y ≡ y
zero-bit_or y = bit_or-bitwise 0 y

bit_and_halves : (x y : ℕ) → bit_and x y ≡ min (x % 2) (y % 2) + 2 * bit_and (x / 2) (y / 2)
bit_and_halves zero y = omega (arith, none_and (y / 2), none_and y)
bit_and_halves (suc x) y =
    let half = suc x / 2 in
    let rest = same_digits (λ y. zero) min half (y / 2) half x (omega arith) (omega arith) in
    omega (arith, rest, bit_and-bitwise half (y / 2), bit_and-bitwise (suc x) y)

bit_or_halves : (x y : ℕ) → bit_or x y ≡ max (x % 2) (y % 2) + 2 * bit_or (x / 2) (y / 2)
bit_or_halves zero y = omega (arith, zero-bit_or (y / 2), zero-bit_or y)
bit_or_halves (suc x) y =
    let half = suc x / 2 in
    let rest = same_digits (λ y. y) max half (y / 2) half x (omega arith) (omega arith) in
    omega (arith, rest, bit_or-bitwise half (y / 2), bit_or-bitwise (suc x) y)

no_mask_within : (x bound : ℕ) → x ≤ bound → bit_and x 0 ≡ 0
no_mask_within x (suc bound) h =
    omega (arith, no_mask_within (x / 2) bound (omega (arith, h)), bit_and_halves x 0)
no_mask_within x zero h = let none : x ≡ 0 = omega (arith, h) in rw none (none_and 0)

no_mask : (x : ℕ) → bit_and x 0 ≡ 0
no_mask x = no_mask_within x x (omega arith)

-- The lowest bit.
pub bit_and-one : (x : ℕ) → bit_and x 1 ≡ x % 2
bit_and-one x = omega (arith, no_mask (x / 2), bit_and_halves x 1)

-- A mask of one more bit, and one bit further up.
mask_step : (a m : ℕ) → bit_and a (m * 2 + 1) ≡ bit_and (a / 2) m * 2 + a % 2
mask_step a m =
    let half : (m * 2 + 1) / 2 ≡ m = omega arith in
    omega (arith, bit_and_halves a (m * 2 + 1), ap (bit_and (a / 2)) half)

bit_step : (a m : ℕ) → bit_and a (m * 2) ≡ bit_and (a / 2) m * 2
bit_step a m =
    let half : m * 2 / 2 ≡ m = omega arith in
    omega (arith, bit_and_halves a (m * 2), ap (bit_and (a / 2)) half)

pub bit_and_127 : (a : ℕ) → bit_and a 127 ≡ a % 128
bit_and_127 a = omega (
  arith,
  mask_step a 63,
  mask_step (a / 2) 31,
  mask_step (a / 2 / 2) 15,
  mask_step (a / 2 / 2 / 2) 7,
  mask_step (a / 2 / 2 / 2 / 2) 3,
  mask_step (a / 2 / 2 / 2 / 2 / 2) 1,
  bit_and-one (a / 2 / 2 / 2 / 2 / 2 / 2),
)

pub bit_and_128 : (a : ℕ) → bit_and a 128 ≡ a / 128 % 2 * 128
bit_and_128 a = omega (
  arith,
  bit_step a 64,
  bit_step (a / 2) 32,
  bit_step (a / 2 / 2) 16,
  bit_step (a / 2 / 2 / 2) 8,
  bit_step (a / 2 / 2 / 2 / 2) 4,
  bit_step (a / 2 / 2 / 2 / 2 / 2) 2,
  bit_step (a / 2 / 2 / 2 / 2 / 2 / 2) 1,
  bit_and-one (a / 2 / 2 / 2 / 2 / 2 / 2 / 2),
)

-- `a | b << s` where `a` has no bit from `s` on.
pub bit_or-add : (s a b : ℕ) → a < 2 ^ s → bit_or a (b * 2 ^ s) ≡ a + b * 2 ^ s
bit_or-add zero a b h =
    let a_zero : a ≡ 0 = omega arith in rw a_zero (omega (arith, zero-bit_or (b * 2 ^ 0)))
bit_or-add (suc s) a b h =
    let wide : 2 ^ suc s ≡ 2 * 2 ^ s = omega arith in
    let half : b * 2 ^ suc s / 2 ≡ b * 2 ^ s = omega (arith, ap (λ (t : ℕ). b * t) wide) in
    omega (
      arith,
      bit_or_halves a (b * 2 ^ suc s),
      ap (bit_or (a / 2)) half,
      ap (λ (t : ℕ). b * t) wide,
      wide,
      bit_or-add s (a / 2) b (omega (arith, wide)),
    )
