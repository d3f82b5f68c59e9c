-- ===== src/Base/Bits.antt =====
-- The binary digits of the native numbers, and statements over a small range checked one by one.
use Prim.Native.Nat.{
  ℕ, zero, suc, ◌+◌, ◌*◌, ◌/◌, ◌%◌, ◌≤◌, ◌<◌, min, bit_and, digits, bit_and-bitwise,
}
use mathlib.Core.Path.{◌≡◌, refl, ap}
use mathlib.Core.Bool.{Bool, true, ◌&&◌}
use native.Mathlib.Decide.{ℕ_discrete}
use native.Mathlib.Omega.{arith}

-- A count of digits that is larger than the number changes nothing.
digits-count : (k c a b : ℕ) → a ≤ k → a ≤ c → digits (λ _. 0) min k a b ≡ digits (λ _. 0) min c a b
digits-count zero zero a b hk hc = refl
digits-count zero (suc c) zero b hk hc = refl
digits-count zero (suc c) (suc a) b hk hc = absurd (omega arith)
digits-count (suc k) zero zero b hk hc = refl
digits-count (suc k) zero (suc a) b hk hc = absurd (omega arith)
digits-count (suc k) (suc c) zero b hk hc = refl
digits-count (suc k) (suc c) (suc a) b hk hc =
    let half = digits-count k c (suc a / 2) (b / 2) (omega arith) (omega arith) in
    omega (arith, half)

-- The lowest digit, and the others.
pub bit_and-halves : (a b : ℕ) → bit_and a b ≡ 2 * bit_and (a / 2) (b / 2) + min (a % 2) (b % 2)
bit_and-halves zero b = omega (arith, bit_and-bitwise 0 b, bit_and-bitwise 0 (b / 2))
bit_and-halves (suc a) b =
    let half = digits-count a (suc a / 2) (suc a / 2) (b / 2) (omega arith) (omega arith) in
    omega (arith, half, bit_and-bitwise (suc a) b, bit_and-bitwise (suc a / 2) (b / 2))

pub bit_and-zero : (n a : ℕ) → a ≤ n → bit_and a 0 ≡ 0
bit_and-zero zero a le =
    omega (arith, bit_and-bitwise 0 0, ap (λ x. bit_and x 0) {x = a} {y = 0} (omega arith))
bit_and-zero (suc n) a le = elim (ℕ_discrete a 0) [
  | yes e ↦ omega (arith, bit_and-bitwise 0 0, ap (λ x. bit_and x 0) e)
  | no ne ↦ omega (arith, bit_and-halves a 0, bit_and-zero n (a / 2) (omega arith))
]

unfoldable pub every_below : ℕ → (ℕ → Bool) → Bool
every_below zero test = true
every_below (suc n) test = test n && every_below n test

pub every_below_lem :
    (n : ℕ) (test : ℕ → Bool) → every_below n test ≡ true → (i : ℕ) → i < n → test i ≡ true
unfolding every_below
every_below_lem zero test h i lt = absurd (omega arith)
every_below_lem (suc n) test h i lt = elim (ℕ_discrete i n) [
  | yes e ↦ let same : test i ≡ test n = ap test e in ground (arith, same)
  | no ne ↦ every_below_lem n test (ground arith) i (omega arith)
]
