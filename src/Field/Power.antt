-- ===== src/Field/Power.antt =====
-- `pow_mod` computes a power: the square-and-multiply loop against repeated multiplication.
use did_vc.Base.{
  ℕ, zero, suc, ◌+◌, ◌*◌, ◌/◌, ◌%◌, ◌^◌, ◌<◌, ◌≡◌, ◌∙◌, sym, refl, ap, arith, ◌==◌, Bool-cases, inl,
  inr, ◌⊎◌, true, false,
}
use native.Mathlib.Nat.{pow-suc}
use did_vc.Field.Ops.{mul_mod, pow_loop, pow_mod}
use did_vc.Field.Congr.{◌≈◌, ≈-mul, ≈-mul_right, mul_mod-≈}

-- Repeated multiplication, the meaning of a power.
pub power : ℕ → ℕ → ℕ
power b zero = 1
power b (suc n) = b * power b n

pub power-zero : (b : ℕ) → power b 0 ≡ 1
unfolding power
power-zero b = refl

pub power-suc : (b n : ℕ) → power b (suc n) ≡ b * power b n
unfolding power
power-suc b n = refl

regroup : (a b c d : ℕ) → (a * b) * (c * d) ≡ (a * c) * (b * d)
regroup a b c d = omega arith

pub power-mul : (a b n : ℕ) → power (a * b) n ≡ power a n * power b n
unfolding power
power-mul a b zero = refl
power-mul a b (suc n) =
    ap (λ (t : ℕ). a * b * t) (power-mul a b n) ∙ regroup a b (power a n) (power b n)

power-double : (b n : ℕ) → power b (n + n) ≡ power (b * b) n
unfolding power
power-double b zero = refl
power-double b (suc n) =
    let two : suc n + suc n ≡ suc (suc (n + n)) = omega arith in
    ap (power b) two
    ∙ ap (λ (t : ℕ). b * (b * t)) (power-double b n)
    ∙ square_out b (power (b * b) n)
  where
    square_out : (b t : ℕ) → b * (b * t) ≡ b * b * t
    square_out b t = omega arith

pub power-≈ : (a b n : ℕ) → a ≈ b → power a n ≈ power b n
unfolding power
power-≈ a b zero h = refl
power-≈ a b (suc n) h = ≈-mul a b (power a n) (power b n) h (power-≈ a b n h)

parity : (e : ℕ) → (e ≡ e / 2 + e / 2) ⊎ (e ≡ suc (e / 2 + e / 2))
parity e = omega arith

halve : (e m : ℕ) → e < m * 2 → e / 2 < m
halve e m h = omega arith

square_step : (base h : ℕ) → power (mul_mod base base) h ≈ power base (h + h)
square_step base h =
    power-≈ (mul_mod base base) (base * base) h (mul_mod-≈ base base)
    ∙ ap (λ (t : ℕ). t % 65537) (sym (power-double base h))

-- One round at an even and at an odd exponent.
round_even : (base h out : ℕ) → out * power (mul_mod base base) h ≈ out * power base (h + h)
round_even base h out = ≈-mul_right _ _ out (square_step base h)

round_odd :
    (base h out : ℕ)
    → mul_mod out base * power (mul_mod base base) h ≈ out * power base (suc (h + h))
unfolding power
round_odd base h out =
    ≈-mul _ _ _ _ (mul_mod-≈ out base) (square_step base h)
    ∙ ap (λ (t : ℕ). t % 65537) (assoc out base (power base (h + h)))
  where
    assoc : (a b c : ℕ) → a * b * c ≡ a * (b * c)
    assoc a b c = omega arith

-- With a unit of fuel for each bit of the exponent, the loop multiplies `out` by the power.
pow_loop-≈ :
    (fuel base exp out : ℕ) → exp < 2 ^ fuel → pow_loop fuel base exp out ≈ out * power base exp
unfolding pow_loop
pow_loop-≈ zero base exp out h = let e : exp ≡ 0 = omega arith in rw (e, power-zero) (omega arith)
pow_loop-≈ (suc fuel) base exp out h = elim (Bool-cases (exp == 0)) [
  | inl done ↦ let e : exp ≡ 0 = ground arith in rw (e, power-zero) (omega arith)
  | inr more ↦ rw more (elim (parity exp) [
    | inl even ↦ rw (not_odd exp even) (
        pow_loop-≈ fuel (mul_mod base base) (exp / 2) out (halve exp (2 ^ fuel) (rw pow-suc at h))
        ∙ round_even base (exp / 2) out
        ∙ ap (λ (t : ℕ). (out * power base t) % 65537) (sym even))
    | inr odd ↦ rw (is_odd exp odd) (
        pow_loop-≈ fuel (mul_mod base base) (exp / 2) (mul_mod out base)
          (halve exp (2 ^ fuel) (rw pow-suc at h))
        ∙ round_odd base (exp / 2) out
        ∙ ap (λ (t : ℕ). (out * power base t) % 65537) (sym odd))
  ])
]
  where
    not_odd : (e : ℕ) → e ≡ e / 2 + e / 2 → (e % 2 == 1) ≡ false
    not_odd e h = ground arith

    is_odd : (e : ℕ) → e ≡ suc (e / 2 + e / 2) → (e % 2 == 1) ≡ true
    is_odd e h = ground arith

-- Fast exponentiation agrees with the power modulo the prime, for every 64-bit exponent.
pub pow_mod-≈ : (base exp : ℕ) → exp < 2 ^ 64 → pow_mod base exp ≈ power base exp
unfolding pow_mod
pow_mod-≈ base exp h = pow_loop-≈ 64 base exp 1 h ∙ ap (λ (t : ℕ). t % 65537) (one (power base exp))
  where
    one : (n : ℕ) → 1 * n ≡ n
    one n = omega arith
