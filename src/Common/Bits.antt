-- ===== src/Common/Bits.antt =====
-- The `or` of fields that do not meet is their sum.
use Prim.Native.Nat.{
  ℕ, zero, suc, ◌+◌, ◌*◌, ◌/◌, ◌^◌, ◌<◌, ◌≤◌, bit_or, bit_or-bitwise, digits, max,
}
use mathlib.Core.Path.{◌≡◌, refl, ap, ◌∙◌}
use native.Mathlib.Omega.{arith}
use native.Mathlib.Nat.{pow-suc}

abbrev or_digits : ℕ → ℕ → ℕ → ℕ
or_digits n a b = digits (λ b. b) max n a b

or_digits-zero : (n a : ℕ) → a ≤ n → or_digits n a 0 ≡ a
or_digits-zero zero zero h = refl
or_digits-zero zero (suc a) h = absurd (omega arith)
or_digits-zero (suc n) zero h = refl
or_digits-zero (suc n) (suc a) h = omega (arith, or_digits-zero n (suc a / 2) (omega arith))

or_digits-fields : (n x k q r : ℕ) → x ≤ n → x ≡ q * 2 ^ k → r < 2 ^ k → or_digits n x r ≡ x + r
or_digits-fields zero zero k q r h e s = omega arith
or_digits-fields zero (suc x) k q r h e s = absurd (omega arith)
or_digits-fields (suc n) zero k q r h e s = omega arith
or_digits-fields (suc n) (suc x) zero q zero h e s = or_digits-zero (suc n) (suc x) h ∙ omega arith
or_digits-fields (suc n) (suc x) zero q (suc r) h e s = absurd (omega arith)
or_digits-fields (suc n) (suc x) (suc k) q r h e s =
    let power : 2 ^ suc k ≡ 2 * 2 ^ k = omega (arith, pow-suc 2 k) in
    let twice : suc x ≡ 2 * (q * 2 ^ k) = omega (arith, ap (λ (t : ℕ). q * t) power) in
    omega
      (arith, or_digits-fields n (suc x / 2) k q (r / 2) (omega arith) (omega arith) (omega arith))

-- A field shifted left by `k`, and one of `k` bits.
pub bit_or-fields : (k q r : ℕ) → r < 2 ^ k → bit_or (q * 2 ^ k) r ≡ q * 2 ^ k + r
bit_or-fields k q r h =
    (λ i. bit_or-bitwise (q * 2 ^ k) r i)
    ∙ or_digits-fields (q * 2 ^ k) (q * 2 ^ k) k q r (omega arith) refl h
