-- ===== src/Shamir/Correct.antt =====
-- Interpolation at zero gives the secret back from enough shares of a polynomial.
use did_vc.Base.{
  ℕ, zero, suc, ◌+◌, ◌*◌, ◌≤◌, ◌<◌, ◌≡◌, ◌∙◌, refl, ap, arith, List, [], ◌∷◌, length, All, ok,
  get_or,
}
use did_vc.Field.Congr.{◌≈◌}
use did_vc.Shamir.Ops.{lagrange_interpolate_at_zero, poly_eval, secret_loop}
use did_vc.Shamir.Poly.{
  IsPoly, IsPoly-scale, IsPoly-add, horner, horner-IsPoly, poly_eval-≈, IsPoly-suc,
}
use did_vc.Shamir.Roots.{IsDistinct, IsPoly-roots}
use did_vc.Shamir.Lagrange.{sample}
use did_vc.Shamir.Interpolate.{secret_loop-Interpolates}

-- A statement at every index holds all through the list.
All-get_or :
    (P : ℕ → Type 0) (xs : List ℕ) → ((k : ℕ) → k < length xs → P (get_or xs k 0)) → All P xs
All-get_or P [] h = tt
All-get_or P (x ∷ xs) h = (h 0 (omega arith), All-get_or P xs (λ k lt. h (suc k) (omega arith)))

IsPoly-le : (n m : ℕ) (f : ℕ → ℕ) → n ≤ m → IsPoly n f → IsPoly m f
IsPoly-le zero zero f le p = p
IsPoly-le zero (suc m) f le p = IsPoly-suc m f (IsPoly-le zero m f (omega arith) p)
IsPoly-le (suc n) zero f le p = absurd (omega arith)
IsPoly-le (suc n) (suc m) f le (c, g, pg, e) = (c, g, IsPoly-le n m g (omega arith) pg, e)

-- Two polynomial functions that agree at enough places agree at 0.
agree_at_zero :
    (n : ℕ) (f g : ℕ → ℕ) (xs : List ℕ)
    → IsPoly n f
    → IsPoly n g
    → n ≤ length xs
    → IsDistinct xs
    → ((k : ℕ) → k < length xs → f (get_or xs k 0) ≈ g (get_or xs k 0))
    → f 0 ≈ g 0
agree_at_zero n f g xs pf pg le ds same =
    let z =
      IsPoly-roots n (λ x. f x + 65536 * g x) xs
        (IsPoly-add n f (λ x. 65536 * g x) pf (IsPoly-scale n 65536 g pg)) le ds
        (All-get_or _ xs (λ k lt. let e = same k lt in omega arith)) 0 in
    omega arith

horner-zero : (c : ℕ) (coeffs : List ℕ) → horner (c ∷ coeffs) 0 ≈ c
unfolding horner
horner-zero c coeffs = omega arith

lagrange-loop :
    (f : ℕ → ℕ) (xs : List ℕ)
    → 0 < length xs
    → lagrange_interpolate_at_zero (sample f xs) ≡ secret_loop (sample f xs) 0 (sample f xs) 0
unfolding lagrange_interpolate_at_zero
lagrange-loop f [] h = absurd (omega arith)
lagrange-loop f (x ∷ xs) h = refl

-- At least as many shares as coefficients, at distinct places of the field, give the constant
-- coefficient back.
pub lagrange_interpolate_at_zero-poly_eval :
    (c : ℕ) (coeffs xs : List ℕ)
    → c < 65537
    → IsDistinct xs
    → length (c ∷ coeffs) ≤ length xs
    → lagrange_interpolate_at_zero (sample (poly_eval (c ∷ coeffs)) xs) ≡ ok c
lagrange_interpolate_at_zero-poly_eval c coeffs xs hc ds le =
    let f = poly_eval (c ∷ coeffs) in
    let loop = secret_loop-Interpolates f xs ds xs 0 0 (omega arith) refl in
    let at_zero =
      agree_at_zero (length xs) loop.lag (horner (c ∷ coeffs)) xs loop.poly
        (IsPoly-le _ _ _ le (horner-IsPoly (c ∷ coeffs))) (omega arith) ds
        (λ k lt. loop.later k (omega arith) lt ∙ poly_eval-≈ (c ∷ coeffs) (get_or xs k 0)) in
    lagrange-loop f xs (omega arith)
    ∙ loop.returns
    ∙ ap ok (
        reduced loop.value (loop.lag 0) loop.value_lt loop.value_≈ (at_zero ∙ horner-zero c coeffs))
  where
    reduced : (v l : ℕ) → v < 65537 → v ≈ 0 + l → l ≈ c → v ≡ c
    reduced v l lt e h = omega arith
