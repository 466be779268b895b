-- ===== src/Settlement/Rounding.antt =====
-- `_money`: rounding to the cent.
use native.Mathlib.Nat.{
  le-div_iff_mul-le, pow-suc, le_of_mul-le-mul_left, mul-le-mul_right, div-mul-le_self,
  lt-div-mul-add,
}
use give_exit.Prelude.{ℕ, zero, suc, ◌+◌, ◌*◌, ◌^◌, ◌≤◌, ◌<◌, arith}
use give_exit.Settlement.{Decimal, money}

-- a <= b of two decimals.
abbrev pub IsAtMost : Decimal → Decimal → Type 0
IsAtMost a b = a.coefficient * 10 ^ b.places ≤ b.coefficient * 10 ^ a.places

ten_pow_pos : (n : ℕ) → 1 ≤ 10 ^ n
ten_pow_pos zero = omega arith
ten_pow_pos (suc n) = rw pow-suc (omega (arith, ten_pow_pos n))

half_up : (q c p : ℕ) → q * (2 * p) ≤ 2 * (c * 100) + p → 2 * (q * p) ≤ 2 * (c * 100) + p
half_up q c p h = omega arith

half_down : (q c p : ℕ) → 2 * (c * 100) + p < q * (2 * p) + 2 * p → 2 * (c * 100) < 2 * (q * p) + p
half_down q c p h = omega arith

-- Rounding moves a value by half a cent at most, upward when it stands in the middle: in units of
-- `10 ** -places`, the result is above the value by at most half a cent and below it by less.
pub money_lem :
    (d : Decimal)
    → (2 * (money d * 10 ^ d.places) ≤ 2 * (d.coefficient * 100) + 10 ^ d.places)
      × (2 * (d.coefficient * 100) < 2 * (money d * 10 ^ d.places) + 10 ^ d.places)
unfolding money
money_lem d =
    let p = 10 ^ d.places in
    let double_pos : 0 < 2 * p = omega (arith, ten_pow_pos d.places) in
    (
      half_up (money d) d.coefficient p (div-mul-le_self (2 * (d.coefficient * 100) + p) (2 * p)),
      half_down (money d) d.coefficient p (lt-div-mul-add double_pos),
    )

scaled :
    (q c e p r : ℕ)
    → q * (2 * p) ≤ 2 * (c * 100) + p
    → c * r ≤ e * p
    → p * (q * (2 * r)) ≤ p * (2 * (e * 100) + r)
scaled q c e p r h k = omega (arith, mul-le-mul_right r h, k)

-- A larger amount is not rounded to a smaller one.
pub money_mono : (a b : Decimal) → IsAtMost a b → money a ≤ money b
unfolding money
money_mono a b h =
    let p = 10 ^ a.places in
    let r = 10 ^ b.places in
    let double_pos : 0 < 2 * r = omega (arith, ten_pow_pos b.places) in
    (le-div_iff_mul-le {k = 2 * r} double_pos).1 (
      le_of_mul-le-mul_left
        (scaled (money a) a.coefficient b.coefficient p r
          (div-mul-le_self (2 * (a.coefficient * 100) + p) (2 * p)) h)
        (ten_pow_pos a.places))
