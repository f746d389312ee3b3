-- ===== src/Field/Fermat.antt =====
-- Fermat's little theorem for 65537, and the inverse that `inv_mod` computes.
use native.Mathlib.Nat.{mul-mod_right, div-add-mod', mod-lt}
use mathlib.Core.WellFounded
use mathlib.Core.WellFounded.{Acc, WellFounded}
use did_vc.Base.{
  ℕ, zero, suc, ◌+◌, ◌*◌, ◌/◌, ◌%◌, ◌≤◌, ◌<◌, ◌≡◌, ◌∙◌, sym, refl, ap, arith, ◌==◌, ==_iff, ◌⊎◌,
  inl, inr, true, Bool, ◌&&◌, ◌||◌, ok, ltb, leb,
}
use did_vc.Field.Ops.{mul_mod, pow_mod, inv_mod}
use did_vc.Field.Congr.{◌≈◌, ≈-mul, ≈-mul_right}
use did_vc.Field.Power.{power, power-mul, power-≈, power-suc, pow_mod-≈}

Acc-below : (k n : ℕ) → n < k → Acc ◌<◌ n
Acc-below zero n h = elim h [ ]
Acc-below (suc k) n h = Acc.intro n (λ m hm. Acc-below k m (omega arith))

lt_wf : WellFounded ◌<◌
lt_wf = record { apply = λ n. Acc-below (suc n) n (omega arith) }

-- Every positive number up to `n` passes the test.
all_to : ℕ → (ℕ → Bool) → Bool
all_to zero p = true
all_to (suc n) p = p (suc n) && all_to n p

all_to_sound : (n : ℕ) (p : ℕ → Bool) (x : ℕ) → all_to n p ≡ true → 0 < x → x ≤ n → p x ≡ true
unfolding all_to
all_to_sound zero p x h pos le = absurd (omega arith)
all_to_sound (suc n) p x h pos le = ground (arith, all_to_sound n p x)

-- The theorem at the small bases and at -1, and that no small number divides the prime.
small_powers : all_to 256 (λ x. pow_mod x 65536 == 1) ≡ true
unfolding all_to pow_mod
small_powers = refl

minus_one_power : pow_mod 65536 65536 ≡ 1
unfolding pow_mod
minus_one_power = refl

small_divisors : all_to 255 (λ q. leb q 1 || ltb 0 (65537 % q)) ≡ true
unfolding all_to
small_divisors = refl

fermat_small : (x : ℕ) → 0 < x → x ≤ 256 → power x 65536 ≈ 1
fermat_small x pos le =
    sym (pow_mod-≈ x 65536 (omega arith))
    ∙ ap (λ (t : ℕ). t % 65537) ((==_iff _ 1).0 (all_to_sound 256 _ x small_powers pos le))

fermat_minus_one : power 65536 65536 ≈ 1
fermat_minus_one =
    sym (pow_mod-≈ 65536 65536 (omega arith)) ∙ ap (λ (t : ℕ). t % 65537) minus_one_power

quotient_small : (x q : ℕ) → 256 < x → q * x ≡ 65537 → q ≤ 255
quotient_small x q lo e = grind arith

divisor_test : (q : ℕ) → (leb q 1 || ltb 0 (65537 % q)) ≡ true → (q ≤ 1) ⊎ (0 < 65537 % q)
divisor_test q h = ground arith

no_large_divisor : (x q : ℕ) → 256 < x → x < 65537 → q * x ≡ 65537 → ⊥
no_large_divisor x zero lo hi e = absurd (omega arith)
no_large_divisor x (suc zero) lo hi e = absurd (omega arith)
no_large_divisor x (suc (suc k)) lo hi e =
    let q : ℕ = suc (suc k) in
    let small : q ≤ 255 = quotient_small x q lo e in
    let divides : 65537 % q ≡ 0 = ap (λ (t : ℕ). t % q) (sym e) ∙ mul-mod_right q x in
    elim (divisor_test q (all_to_sound 255 _ q small_divisors (omega arith) small)) [
      | inl le ↦ absurd (omega arith)
      | inr pos ↦ absurd (omega arith)
    ]

remainder_pos : (x : ℕ) → 256 < x → x < 65537 → 0 < 65537 % x
remainder_pos x lo hi = elim (zero_or_pos (65537 % x)) [
  | inl none_left ↦
      absurd (no_large_divisor x (65537 / x) lo hi (omega (arith, div-add-mod' 65537 x)))
  | inr pos ↦ pos
]
  where
    zero_or_pos : (n : ℕ) → (n ≡ 0) ⊎ (0 < n)
    zero_or_pos n = omega arith

negate : (r t : ℕ) → t + r ≡ 65537 → r ≈ 65536 * t
negate r t h = omega arith

-- `65537 % x` is minus the quotient times `x`.
remainder_as_product : (x : ℕ) → 65537 % x ≈ 65536 * (65537 / x * x)
remainder_as_product x = negate (65537 % x) (65537 / x * x) (div-add-mod' 65537 x)

-- The remainder and the quotient are smaller than `x`, so the theorem at them gives it at `x`.
fermat_step :
    (x : ℕ) → power (65537 % x) 65536 ≈ 1 → power (65537 / x) 65536 ≈ 1 → power x 65536 ≈ 1
fermat_step x hr hq =
    unit (power x 65536)
    ∙ sym (≈-mul _ 1 _ _ fermat_minus_one (≈-mul _ 1 (power x 65536) _ hq refl))
    ∙ ap (λ (t : ℕ). t % 65537)
        (ap (λ (t : ℕ). power 65536 65536 * t) (sym (power-mul (65537 / x) x 65536))
          ∙ sym (power-mul 65536 (65537 / x * x) 65536))
    ∙ sym (power-≈ (65537 % x) (65536 * (65537 / x * x)) 65536 (remainder_as_product x))
    ∙ hr
  where
    unit : (n : ℕ) → n ≈ 1 * (1 * n)
    unit n = omega arith

quotient_bounds : (x : ℕ) → 256 < x → x < 65537 → (0 < 65537 / x) × (65537 / x < x)
quotient_bounds x lo hi =
    (quotient_pos (65537 / x) (65537 % x) x sum bound hi, quotient_lt _ _ x sum lo)
  where
    sum : 65537 / x * x + 65537 % x ≡ 65537
    sum = div-add-mod' 65537 x

    bound : 65537 % x < x
    bound = mod-lt 65537 (omega arith)

    quotient_pos : (q r x : ℕ) → q * x + r ≡ 65537 → r < x → x < 65537 → 0 < q
    quotient_pos zero r x e b h = absurd (omega arith)
    quotient_pos (suc q) r x e b h = omega arith

    quotient_lt : (q r x : ℕ) → q * x + r ≡ 65537 → 256 < x → q < x
    quotient_lt q r x e h = grind arith

-- Fermat's little theorem: the 65536th power of every non-zero element is 1.
pub fermat : (x : ℕ) → 0 < x → x < 65537 → power x 65536 ≈ 1
fermat x =
    WellFounded.induction lt_wf {C = λ n. 0 < n → n < 65537 → power n 65536 ≈ 1} x λ n ih pos hi.
      elim (small_or_large n) [
        | inl small ↦ fermat_small n pos small
        | inr large ↦
            let (q_pos, q_lt) = quotient_bounds n large hi in
            let r_lt : 65537 % n < n = mod-lt 65537 pos in
            fermat_step n (ih (65537 % n) r_lt (remainder_pos n large hi) (omega arith))
              (ih (65537 / n) q_lt q_pos (omega arith))
      ]
  where
    small_or_large : (n : ℕ) → (n ≤ 256) ⊎ (256 < n)
    small_or_large n = omega arith

-- `inv_mod` returns the inverse of every non-zero field element.
pub inv_mod-inverse : (x : ℕ) → 0 < x → x < 65537 → (y : ℕ) × (inv_mod x ≡ ok y) × (mul_mod x y ≡ 1)
unfolding inv_mod
inv_mod-inverse x pos hi = (pow_mod x 65535, ground arith, reduced)
  where
    product : x * pow_mod x 65535 ≈ 1
    product =
        ≈-mul_right _ _ x (pow_mod-≈ x 65535 (omega arith))
        ∙ ap (λ (t : ℕ). t % 65537) (sym (power-suc x 65535))
        ∙ fermat x pos hi

    reduced : mul_mod x (pow_mod x 65535) ≡ 1
    reduced = unfold mul_mod in product
