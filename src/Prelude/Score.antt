-- ===== src/Prelude/Score.antt =====
-- Scores and weights: Python floats that are neither infinite nor NaN, known only by their
-- order and by the monotonicity of the operations the program uses, which IEEE 754 rounding keeps.
use Prim.Native.Nat.{ℕ, ◌+◌, ◌/◌, ◌≤◌}
use mathlib.Core.Path.{◌≡◌}
use mathlib.Core.Logic.{◌⊎◌}
use mathlib.Core.Bool.{Bool, true}
use native.Mathlib.Nat.{le-div_iff_mul-le, le_trans, mul-le-mul_left, div-mul-le_self}
use native.Mathlib.Omega.{arith}
use give_exit.Prelude.Tests.{leb}

pub record Score (N : Type 0) : Type 0 where
  pub zero_score : N
  pub one_score : N
  pub add : N → N → N
  -- weight / n for an integer n
  pub share : N → ℕ → N
  pub score_leb : N → N → Bool
  pub total : (a b : N) → (score_leb a b ≡ true) ⊎ (score_leb b a ≡ true)
  pub trans : (a b c : N) → score_leb a b ≡ true → score_leb b c ≡ true → score_leb a c ≡ true
  pub add_mono :
      (a b c d : N)
      → score_leb a b ≡ true
      → score_leb c d ≡ true
      → score_leb (add a c) (add b d) ≡ true
  pub share_anti : (w : N) (m n : ℕ) → 1 ≤ m → m ≤ n → score_leb (share w n) (share w m) ≡ true

nat_share_le : (w m n : ℕ) → 1 ≤ m → m ≤ n → w / n ≤ w / m
nat_share_le w m n h k =
    (le-div_iff_mul-le {k = m} h).1 (le_trans (mul-le-mul_left (w / n) k) (div-mul-le_self w n))

pub nat_share_anti : (w m n : ℕ) → 1 ≤ m → m ≤ n → leb (w / n) (w / m) ≡ true
nat_share_anti w m n h k = ground (arith, nat_share_le w m n h k)

pub nat_total : (a b : ℕ) → (leb a b ≡ true) ⊎ (leb b a ≡ true)
nat_total a b = ground arith

pub nat_trans : (a b c : ℕ) → leb a b ≡ true → leb b c ≡ true → leb a c ≡ true
nat_trans a b c h k = ground arith

pub nat_add_mono : (a b c d : ℕ) → leb a b ≡ true → leb c d ≡ true → leb (a + c) (b + d) ≡ true
nat_add_mono a b c d h k = ground arith

-- Whole units: the instance that the examples run on.
abbrev pub nat_score : Score ℕ
nat_score = record {
  zero_score = 0;
  one_score = 1;
  add = λ a b. a + b;
  share = λ w n. w / n;
  score_leb = leb;
  total = nat_total;
  trans = nat_trans;
  add_mono = nat_add_mono;
  share_anti = nat_share_anti;
}
