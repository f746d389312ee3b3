-- ===== src/Shamir/Poly.antt =====
-- Polynomial functions over the field, as functions on numbers up to congruence.
use did_vc.Base.{ℕ, zero, suc, ◌+◌, ◌*◌, ◌%◌, ◌≡◌, ◌∙◌, refl, ap, arith, List, [], ◌∷◌, length}
use did_vc.Field.Congr.{◌≈◌, ≈-mul_left, ≈-mul_right, add_mod-≈, mul_mod-≈}
use did_vc.Field.{add_mod, mul_mod}
use did_vc.Shamir.Ops.{poly_loop, poly_eval}

-- The value of a polynomial by Horner's rule, with no reduction.
unfoldable pub horner : List ℕ → ℕ → ℕ
horner [] x = 0
horner (a ∷ coeffs) x = a + x * horner coeffs x

poly_loop-≈ :
    (coeffs : List ℕ) (x acc pow_x : ℕ)
    → poly_loop coeffs x acc pow_x ≈ acc + pow_x * horner coeffs x
unfolding poly_loop horner
poly_loop-≈ [] x acc pow_x = omega arith
poly_loop-≈ (a ∷ coeffs) x acc pow_x =
    poly_loop-≈ coeffs x (add_mod acc (mul_mod a pow_x)) (mul_mod pow_x x)
    ∙ combine (horner coeffs x) (add_mod-≈ acc (mul_mod a pow_x)) (mul_mod-≈ a pow_x)
        (≈-mul_left _ _ (horner coeffs x) (mul_mod-≈ pow_x x))
  where
    combine :
        (h : ℕ)
        → add_mod acc (mul_mod a pow_x) ≈ acc + mul_mod a pow_x
        → mul_mod a pow_x ≈ a * pow_x
        → mul_mod pow_x x * h ≈ pow_x * x * h
        → add_mod acc (mul_mod a pow_x) + mul_mod pow_x x * h ≈ acc + pow_x * (a + x * h)
    combine h p q r = omega arith

-- `poly_eval` is evaluation modulo the prime.
pub poly_eval-≈ : (coeffs : List ℕ) (x : ℕ) → poly_eval coeffs x ≈ horner coeffs x
unfolding poly_eval
poly_eval-≈ coeffs x = poly_loop-≈ coeffs x 0 1 ∙ ap (λ (t : ℕ). t % 65537) (one (horner coeffs x))
  where
    one : (n : ℕ) → 0 + 1 * n ≡ n
    one n = omega arith

-- `f` is a polynomial function with at most `n` coefficients.
abbrev pub IsPoly : ℕ → (ℕ → ℕ) → Type 0
IsPoly zero f = (x : ℕ) → f x ≈ 0
IsPoly (suc n) f = (c : ℕ) × (g : ℕ → ℕ) × IsPoly n g × ((x : ℕ) → f x ≈ c + x * g x)

pub horner-IsPoly : (coeffs : List ℕ) → IsPoly (length coeffs) (horner coeffs)
unfolding horner
horner-IsPoly [] = λ x. refl
horner-IsPoly (a ∷ coeffs) = (a, horner coeffs, horner-IsPoly coeffs, λ x. refl)

pub IsPoly-ext : (n : ℕ) (f g : ℕ → ℕ) → ((x : ℕ) → g x ≈ f x) → IsPoly n f → IsPoly n g
IsPoly-ext zero f g e p = λ x. e x ∙ p x
IsPoly-ext (suc n) f g e (c, h, ph, eh) = (c, h, ph, λ x. e x ∙ eh x)

pub IsPoly-suc : (n : ℕ) (f : ℕ → ℕ) → IsPoly n f → IsPoly (suc n) f
IsPoly-suc zero f p = (0, f, p, λ x. vanish (f x) x (p x))
  where
    vanish : (t x : ℕ) → t ≈ 0 → t ≈ 0 + x * t
    vanish t x h = let k : t * x ≈ 0 * x = ≈-mul_left t 0 x h in omega arith
IsPoly-suc (suc n) f (c, g, pg, e) = (c, g, IsPoly-suc n g pg, e)

pub IsPoly-add : (n : ℕ) (f g : ℕ → ℕ) → IsPoly n f → IsPoly n g → IsPoly n (λ x. f x + g x)
IsPoly-add zero f g p q = λ x. let p' = p x in let q' = q x in omega arith
IsPoly-add (suc n) f g (c, h, ph, eh) (d, k, pk, ek) = (
  c + d,
  λ x. h x + k x,
  IsPoly-add n h k ph pk,
  λ x. let p' = eh x in let q' = ek x in omega arith,
)

pub IsPoly-scale : (n : ℕ) (k : ℕ) (f : ℕ → ℕ) → IsPoly n f → IsPoly n (λ x. k * f x)
IsPoly-scale zero k f p = λ x. let q = ≈-mul_right (f x) 0 k (p x) in omega arith
IsPoly-scale (suc n) k f (c, g, pg, e) = (
  k * c,
  λ x. k * g x,
  IsPoly-scale n k g pg,
  λ x. let q = ≈-mul_right (f x) (c + x * g x) k (e x) in omega arith,
)

-- Multiplication by the monic linear factor with constant term `a`.
pub IsPoly-linear : (n : ℕ) (a : ℕ) (f : ℕ → ℕ) → IsPoly n f → IsPoly (suc n) (λ x. (x + a) * f x)
IsPoly-linear n a f p =
    IsPoly-ext (suc n) (λ x. (0 + x * f x) + a * f x) _ (λ x. expand x (f x))
      (IsPoly-add (suc n) (λ x. 0 + x * f x) (λ x. a * f x) (0, f, p, λ x. refl)
        (IsPoly-suc n (λ x. a * f x) (IsPoly-scale n a f p)))
  where
    expand : (x t : ℕ) → (x + a) * t ≈ 0 + x * t + a * t
    expand x t = omega arith

-- Division by `x - a` leaves the value at `a`.
pub IsPoly-divide :
    (n a : ℕ) (f : ℕ → ℕ)
    → IsPoly (suc n) f
    → (q : ℕ → ℕ) × IsPoly n q × ((x : ℕ) → f x + a * q x ≈ f a + x * q x)
IsPoly-divide zero a f (c, g, pg, e) = (
  λ x. 0,
  λ x. refl,
  λ x.
      let k = ≈-mul_right (g x) 0 x (pg x) in
      let l = ≈-mul_right (g a) 0 a (pg a) in let u = e x in let v = e a in omega arith,
)
IsPoly-divide (suc n) a f (c, g, pg, e) =
    let (h, ph, eh) = IsPoly-divide n a g pg in
    (
      λ x. g x + a * h x,
      IsPoly-add (suc n) g (λ x. a * h x) pg (IsPoly-suc n (λ x. a * h x) (IsPoly-scale n a h ph)),
      λ x.
          let k = ≈-mul_right (g x + a * h x) (g a + x * h x) a (eh x) in
          let u = e x in let v = e a in omega arith,
    )
