-- ===== src/Common/Bits.antt =====
-- Laws of `bit_and` and `bit_or`, the C++ operators & and |, at masks and at disjoint fields.
use Prim.Native.Nat.{
  ℕ, zero, suc, ◌+◌, ◌*◌, ◌/◌, ◌%◌, ◌^◌, ◌≤◌, ◌<◌, min, max, bit_and, bit_or, digits,
  bit_and-bitwise, bit_or-bitwise,
}
use mathlib.Core.Path.{◌≡◌, refl, ◌∙◌}
use mathlib.Core.Logic.{inl, inr}
use native.Mathlib.Omega.{arith}
use native.Mathlib.Nat.{pow-suc}
use my_taskflow_system.Common.Tests.{leb, Bool-cases}

-- Any operator on digits: what it does at 0, and on one digit.
module _ (last : ℕ → ℕ) (bit : ℕ → ℕ → ℕ) where
  -- One unit of fuel more than is needed changes nothing.
  digits_more :
      (fuel a b : ℕ) → a ≤ fuel → digits last bit (suc fuel) a b ≡ digits last bit fuel a b
  digits_more zero a b h = let none_left : a ≡ 0 = omega arith in rw none_left refl
  digits_more (suc fuel) zero b h = refl
  digits_more (suc fuel) (suc a) b h =
      omega (arith, digits_more fuel (suc a / 2) (b / 2) (omega arith))

  digits_enough : (fuel a b : ℕ) → a ≤ fuel → digits last bit fuel a b ≡ digits last bit a a b
  digits_enough zero a b h = let none_left : a ≡ 0 = omega arith in rw none_left refl
  digits_enough (suc fuel) a b h = elim (Bool-cases (leb a fuel)) [
    | inl fits ↦ digits_more fuel a b (ground arith) ∙ digits_enough fuel a b (ground arith)
    | inr tight ↦ let all : a ≡ suc fuel = ground arith in rw all refl
  ]

  digits-suc :
      (a b : ℕ)
      → digits last bit (suc a) (suc a) b
        ≡ digits last bit (suc a / 2) (suc a / 2) (b / 2) * 2 + bit (suc a % 2) (b % 2)
  digits-suc a b = omega (arith, digits_enough a (suc a / 2) (b / 2) (omega arith))

-- The lowest digit of a & b, and the others.
and_halves : (a b : ℕ) → bit_and a b ≡ bit_and (a / 2) (b / 2) * 2 + min (a % 2) (b % 2)
and_halves zero b = omega (arith, bit_and-bitwise 0 b, bit_and-bitwise 0 (b / 2))
and_halves (suc a) b =
    let law = digits-suc (λ _. zero) min a b in
    omega (arith, law, bit_and-bitwise (suc a / 2) (b / 2), bit_and-bitwise (suc a) b)

or_halves : (a b : ℕ) → bit_or a b ≡ bit_or (a / 2) (b / 2) * 2 + max (a % 2) (b % 2)
or_halves zero b = omega (arith, bit_or-bitwise 0 b, bit_or-bitwise 0 (b / 2))
or_halves (suc a) b =
    let law = digits-suc (λ d. d) max a b in
    omega (arith, law, bit_or-bitwise (suc a / 2) (b / 2), bit_or-bitwise (suc a) b)

-- Zero on the right, by the number of digits.
zeros_right : (k a : ℕ) → a < 2 ^ k → (bit_and a 0 ≡ 0) × (bit_or a 0 ≡ a)
zeros_right zero a h = let none_left : a ≡ 0 = omega arith in rw none_left (refl, refl)
zeros_right (suc k) a h =
    let double : 2 ^ suc k ≡ 2 ^ k * 2 = rw pow-suc in
    let ih = zeros_right k (a / 2) (omega (arith, double)) in
    (omega (arith, ih.0, and_halves a 0), omega (arith, ih.1, or_halves a 0))

below_power : (a : ℕ) → a < 2 ^ a
below_power zero = omega arith
below_power (suc a) =
    let double : 2 ^ suc a ≡ 2 ^ a * 2 = rw pow-suc in omega (arith, double, below_power a)

mask_three : (a : ℕ) → bit_and a 7 ≡ a % 8
mask_three a =
    let low = and_halves a 7 in
    let middle = and_halves (a / 2) 3 in
    let high = and_halves (a / 2 / 2) 1 in
    let rest = zeros_right (a / 2 / 2 / 2) (a / 2 / 2 / 2) (below_power (a / 2 / 2 / 2)) in
    omega (arith, low, middle, high, rest.0)

mask_six : (a : ℕ) → bit_and a 63 ≡ a % 64
mask_six a =
    let low = and_halves a 63 in
    let middle = and_halves (a / 2) 31 in
    let high = and_halves (a / 2 / 2) 15 in
    omega (arith, low, middle, high, mask_three (a / 2 / 2 / 2))

mask_nine : (a : ℕ) → bit_and a 511 ≡ a % 512
mask_nine a =
    let low = and_halves a 511 in
    let middle = and_halves (a / 2) 255 in
    let high = and_halves (a / 2 / 2) 127 in
    omega (arith, low, middle, high, mask_six (a / 2 / 2 / 2))

pub bit_and-mask12 : (a : ℕ) → bit_and a 4095 ≡ a % 4096
bit_and-mask12 a =
    let low = and_halves a 4095 in
    let middle = and_halves (a / 2) 2047 in
    let high = and_halves (a / 2 / 2) 1023 in
    omega (arith, low, middle, high, mask_nine (a / 2 / 2 / 2))

shifted : (p q b : ℕ) → q ≡ p * 2 → bit_or p (b / 2) ≡ p + b / 2 → bit_or q b ≡ q + b
shifted p q b e ih =
    let half : q / 2 ≡ p = omega arith in
    let high : bit_or (q / 2) (b / 2) ≡ p + b / 2 = rw half ih in omega (arith, high, or_halves q b)

-- Two fields that share no bit are added by |.
pub bit_or-fields : (k a b : ℕ) → b < 2 ^ k → bit_or (a * 2 ^ k) b ≡ a * 2 ^ k + b
bit_or-fields zero a b h =
    let none_left : b ≡ 0 = omega arith in
    rw none_left (omega (arith, (zeros_right (a * 1) (a * 1) (below_power (a * 1))).1))
bit_or-fields (suc k) a b h =
    let double : 2 ^ suc k ≡ 2 ^ k * 2 = rw pow-suc in
    shifted (a * 2 ^ k) (a * 2 ^ suc k) b (rw double (omega arith))
      (bit_or-fields k a (b / 2) (omega (arith, double)))
