-- ===== src/Shamir/Fit.antt =====
-- Interpolation of any points at different places, by `lagrange_interpolate_at_zero` of
-- cpp/ttss_nits_shamir.cpp: the value at 0 of a polynomial through the points.
use did_vc.Base.{
  ℕ, zero, suc, ◌+◌, ◌*◌, ◌%◌, ◌<◌, ◌==◌, if◌then◌else◌, true, false, List, [], ◌∷◌, length, map,
  get_or, All, Result, ok, ◌≡◌, ◌≢◌, ◌∙◌, refl, sym, subst, ap, ap₂, arith,
}
use did_vc.Field.Congr.{◌≈◌, ≈-mul_right}
use did_vc.Shamir.Ops.{lagrange_interpolate_at_zero}
use did_vc.Shamir.Poly.{IsPoly, horner}
use did_vc.Shamir.Roots.{IsDistinct}
use did_vc.Shamir.Lagrange.{sample}
use did_vc.Shamir.Interpolate.{secret_loop-Interpolates}

-- The polynomial with the coefficients takes the points' values at their places.
abbrev pub Fits : List ℕ → List (ℕ × ℕ) → Type 0
Fits coeffs points = All (λ (p : ℕ × ℕ). horner coeffs p.0 ≈ p.1) points

-- `v` is the value at 0 of a polynomial through the points with as many coefficients as there are
-- points.
abbrev pub FitsAtZero : List (ℕ × ℕ) → ℕ → Type 0
FitsAtZero points v =
    (coeffs : List ℕ) × (length coeffs ≡ length points)
    × Fits coeffs points
    × (v ≡ horner coeffs 0 % 65537)

-- The places of the points.
abbrev pub xs_of : List (ℕ × ℕ) → List ℕ
xs_of points = map (λ (p : ℕ × ℕ). p.0) points

-- The value of the first point at the place.
value_at : List (ℕ × ℕ) → ℕ → ℕ
value_at [] x = 0
value_at ((a, y) ∷ points) x = if a == x then y else value_at points x

sample-ext : (f g : ℕ → ℕ) (xs : List ℕ) → All (λ x. f x ≡ g x) xs → sample f xs ≡ sample g xs
sample-ext f g [] h = refl
sample-ext f g (x ∷ xs) h =
    ap₂ (λ (v : ℕ) (ps : List (ℕ × ℕ)). (x, v) ∷ ps) h.0 (sample-ext f g xs h.1)

length-xs_of : (points : List (ℕ × ℕ)) → length (xs_of points) ≡ length points
length-xs_of [] = refl
length-xs_of (p ∷ points) = ap suc (length-xs_of points)

sample-value_at :
    (points : List (ℕ × ℕ))
    → IsDistinct (xs_of points)
    → sample (value_at points) (xs_of points) ≡ points
unfolding value_at
sample-value_at [] d = refl
sample-value_at ((a, y) ∷ points) d =
    ap₂ (λ (v : ℕ) (ps : List (ℕ × ℕ)). (a, v) ∷ ps) (rw (self a) refl)
      (sample-ext _ (value_at points) (xs_of points) (others (xs_of points) d.1)
        ∙ sample-value_at points d.2)
  where
    self : (b : ℕ) → (b == b) ≡ true
    self b = ground arith

    differs : (b x : ℕ) → b ≢ x → (b == x) ≡ false
    differs b x ne = ground arith

    others :
        (xs : List ℕ)
        → All (λ x. a ≢ x) xs
        → All (λ x. (if a == x then y else value_at points x) ≡ value_at points x) xs
    others [] h = tt
    others (x ∷ xs) h = (rw (differs a x h.0) refl, others xs h.1)

-- A polynomial function has coefficients.
IsPoly-horner :
    (n : ℕ) (f : ℕ → ℕ)
    → IsPoly n f
    → (coeffs : List ℕ) × (length coeffs ≡ n) × ((x : ℕ) → f x ≈ horner coeffs x)
unfolding horner
IsPoly-horner zero f p = ([], refl, p)
IsPoly-horner (suc n) f (c, g, pg, e) =
    let (coeffs, len, same) = IsPoly-horner n g pg in
    (c ∷ coeffs, ap suc len, λ x. e x ∙ step c x (g x) (horner coeffs x) (same x))
  where
    step : (c x a b : ℕ) → a ≈ b → c + x * a ≈ c + x * b
    step c x a b h = let e = ≈-mul_right a b x h in omega arith

samples-Fits :
    (coeffs : List ℕ) (f : ℕ → ℕ) (xs : List ℕ)
    → ((k : ℕ) → k < length xs → horner coeffs (get_or xs k 0) ≈ f (get_or xs k 0))
    → Fits coeffs (sample f xs)
samples-Fits coeffs f [] h = tt
samples-Fits coeffs f (x ∷ xs) h =
    (h 0 (omega arith), samples-Fits coeffs f xs (λ k lt. h (suc k) (omega arith)))

-- Interpolation of samples.
interpolate-sample :
    (f : ℕ → ℕ) (xs : List ℕ) (v : ℕ)
    → IsDistinct xs
    → lagrange_interpolate_at_zero (sample f xs) ≡ ok v
    → FitsAtZero (sample f xs) v
unfolding lagrange_interpolate_at_zero
interpolate-sample f [] v d h = absurd (cc)
interpolate-sample f (x ∷ xs) v d h =
    let loop = secret_loop-Interpolates f (x ∷ xs) d (x ∷ xs) 0 0 (omega arith) refl in
    let (coeffs, len, same) = IsPoly-horner (length (x ∷ xs)) loop.lag loop.poly in
    let value = value_of loop.returns h in
    (
      coeffs,
      len ∙ sym (length-sample (x ∷ xs)),
      samples-Fits coeffs f (x ∷ xs)
          (λ k lt. sym (same (get_or (x ∷ xs) k 0)) ∙ loop.later k (omega arith) lt),
      sym value
          ∙ reduced loop.value (loop.lag 0) (horner coeffs 0) loop.value_lt loop.value_≈ (same 0),
    )
  where
    value_of : {r : Result ℕ} {u w : ℕ} → r ≡ ok u → r ≡ ok w → u ≡ w
    value_of p q = let e = sym p ∙ q in cc

    length-sample : (xs : List ℕ) → length (sample f xs) ≡ length xs
    length-sample [] = refl
    length-sample (x ∷ xs) = ap suc (length-sample xs)

    reduced : (v l a : ℕ) → v < 65537 → v ≈ 0 + l → l ≈ a → v ≡ a % 65537
    reduced v l a lt e h = omega arith

-- What the interpolation returns is the value at 0 of a polynomial through the points.
pub lagrange_interpolate_at_zero-FitsAtZero :
    (points : List (ℕ × ℕ)) (v : ℕ)
    → IsDistinct (xs_of points)
    → lagrange_interpolate_at_zero points ≡ ok v
    → FitsAtZero points v
lagrange_interpolate_at_zero-FitsAtZero points v d h =
    let same = sample-value_at points d in
    subst (λ ps. FitsAtZero ps v) same
      (interpolate-sample (value_at points) (xs_of points) v d
        (ap lagrange_interpolate_at_zero same ∙ h))
