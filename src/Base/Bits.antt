-- ===== src/Base/Bits.antt =====
-- `|` of values whose binary digits do not overlap is a sum.
use Prim.Native.Nat.{
  ℕ, zero, suc, ◌+◌, ◌*◌, ◌/◌, ◌%◌, ◌^◌, ◌≤◌, ◌<◌, max, bit_or, digits, bit_or-bitwise,
}
use mathlib.Core.Path.{◌≡◌, refl, ◌∙◌, ap, sym}
use native.Mathlib.Omega.{arith}
use native.Mathlib.Nat.{pow-suc}

-- The digits of `a | b` with `n` digits to go.
abbrev digitwise : ℕ → ℕ → ℕ → ℕ
digitwise n a b = digits (λ y. y) max n a b

digitwise_enough : (n a b : ℕ) → a ≤ n → digitwise n a b ≡ bit_or a b
digitwise_enough n a b le = more n a a b le (omega arith) ∙ sym (bit_or-bitwise a b)
  where
    more : (n m a b : ℕ) → a ≤ n → a ≤ m → digitwise n a b ≡ digitwise m a b
    more zero zero zero b p q = refl
    more zero zero (suc a) b p q = absurd (omega arith)
    more zero (suc m) zero b p q = refl
    more zero (suc m) (suc a) b p q = absurd (omega arith)
    more (suc n) zero zero b p q = refl
    more (suc n) zero (suc a) b p q = absurd (omega arith)
    more (suc n) (suc m) zero b p q = refl
    more (suc n) (suc m) (suc a) b p q =
        ap (λ (t : ℕ). t * 2 + max (suc a % 2) (b % 2))
          (more n m (suc a / 2) (b / 2) (omega arith) (omega arith))

zero-bit_or : (b : ℕ) → bit_or 0 b ≡ b
zero-bit_or b = bit_or-bitwise 0 b

last_digit : (a b : ℕ) → bit_or a b ≡ bit_or (a / 2) (b / 2) * 2 + max (a % 2) (b % 2)
last_digit zero b = omega (arith, zero-bit_or b, zero-bit_or (b / 2))
last_digit (suc a) b =
    bit_or-bitwise (suc a) b
    ∙ ap (λ (t : ℕ). t * 2 + max (suc a % 2) (b % 2))
        (digitwise_enough a (suc a / 2) (b / 2) (omega arith))

bit_or-zero : (n a : ℕ) → a ≤ n → bit_or a 0 ≡ a
bit_or-zero zero zero le = refl
bit_or-zero zero (suc a) le = absurd (omega arith)
bit_or-zero (suc n) a le = omega (arith, last_digit a 0, bit_or-zero n (a / 2) (omega arith))

-- A value shifted left by `k` digits, joined with one of fewer than `k` digits.
pub bit_or-shifted : (k a b : ℕ) → b < 2 ^ k → bit_or (a * 2 ^ k) b ≡ a * 2 ^ k + b
bit_or-shifted zero a b lt =
    let e : b ≡ 0 = omega arith in
    ap (bit_or (a * 2 ^ 0)) e ∙ bit_or-zero (a * 2 ^ 0) (a * 2 ^ 0) (omega arith) ∙ omega arith
bit_or-shifted (suc k) a b lt =
    let double : a * 2 ^ suc k ≡ 2 * (a * 2 ^ k) =
      ap (λ (t : ℕ). a * t) (pow-suc 2 k) ∙ swap a (2 ^ k) in
    let half : b / 2 < 2 ^ k = halve b (2 ^ k) (subst_bound b (pow-suc 2 k) lt) in
    let quotient : a * 2 ^ suc k / 2 ≡ a * 2 ^ k = omega arith in
    last_digit (a * 2 ^ suc k) b
    ∙ ap (λ (t : ℕ). bit_or t (b / 2) * 2 + max (a * 2 ^ suc k % 2) (b % 2)) quotient
    ∙ omega (arith, bit_or-shifted k a (b / 2) half)
  where
    swap : (a p : ℕ) → a * (p * 2) ≡ 2 * (a * p)
    swap a p = omega arith

    halve : (b p : ℕ) → b < p * 2 → b / 2 < p
    halve b p h = omega arith

    subst_bound : (b : ℕ) {p q : ℕ} → p ≡ q → b < p → b < q
    subst_bound b e h = omega arith
