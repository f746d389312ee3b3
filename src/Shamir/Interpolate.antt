-- ===== src/Shamir/Interpolate.antt =====
-- The outer loop: the sum of the weighted basis products takes the samples' values.
use did_vc.Base.{
  ℕ, zero, suc, ◌+◌, ◌*◌, ◌%◌, ◌≤◌, ◌<◌, ◌≡◌, ◌≢◌, ◌∙◌, ◌⊎◌, inl, inr, sym, refl, ap, arith, List,
  [], ◌∷◌, length, All, ok, Result, get_or, drop,
}
use did_vc.Field.Congr.{◌≈◌, ≈-mul_left, ≈-mul_right, add_mod-≈, mul_mod-≈, add_mod-lt}
use did_vc.Field.Fermat.{inv_mod-inverse}
use did_vc.Field.{mul_mod, add_mod}
use did_vc.Shamir.Ops.{secret_loop}
use did_vc.Shamir.Poly.{IsPoly, IsPoly-scale, IsPoly-add}
use did_vc.Shamir.Roots.{IsDistinct}
use did_vc.Shamir.Lagrange.{
  sample, others, linear_product, linear_product-IsPoly, Basis, basis_loop-Basis, others_root,
  length-others, get_or-All, others_differ,
}

IsPoly-zero : (n : ℕ) → IsPoly n (λ z. 0)
IsPoly-zero zero = λ z. refl
IsPoly-zero (suc n) = (0, λ z. 0, IsPoly-zero n, λ z. omega arith)

pub IsDistinct-lt : (xs : List ℕ) → IsDistinct xs → All (λ x. x < 65537) xs
IsDistinct-lt [] d = tt
IsDistinct-lt (x ∷ xs) d = (d.0, IsDistinct-lt xs d.2)

record Uncons (i x : ℕ) (xs ys : List ℕ) : Type 0 where
  head : get_or xs i 0 ≡ x
  tail : drop (suc i) xs ≡ ys
  inside : i < length xs

drop-cons : (i x : ℕ) (xs ys : List ℕ) → drop i xs ≡ x ∷ ys → Uncons i x xs ys
drop-cons zero x [] ys e = absurd (cc)
drop-cons zero x (y ∷ xs) ys e = record { head = cc; tail = cc; inside = omega arith }
drop-cons (suc i) x [] ys e = absurd (cc)
drop-cons (suc i) x (y ∷ xs) ys e =
    let u = drop-cons i x xs ys e in
    record { head = u.head; tail = u.tail; inside = omega (arith, u.inside) }

drop-nil : (i : ℕ) (xs : List ℕ) → drop i xs ≡ [] → length xs ≤ i
drop-nil zero [] e = omega arith
drop-nil zero (x ∷ xs) e = absurd (cc)
drop-nil (suc i) [] e = omega arith
drop-nil (suc i) (x ∷ xs) e = omega (arith, drop-nil i xs e)

-- The loop from index `i` on returns, and adds the value at 0 of a polynomial function that takes
-- the samples' values from `i` on and vanishes before.
pub record Interpolates (f : ℕ → ℕ) (xs : List ℕ) (i secret : ℕ) (r : Result ℕ) : Type 0 where
  pub value : ℕ
  pub lag : ℕ → ℕ
  pub returns : r ≡ ok value
  pub value_lt : value < 65537
  pub value_≈ : value ≈ secret + lag 0
  pub poly : IsPoly (length xs) lag
  pub later : (k : ℕ) → i ≤ k → k < length xs → lag (get_or xs k 0) ≈ f (get_or xs k 0)
  pub earlier : (k : ℕ) → k < i → k < length xs → lag (get_or xs k 0) ≈ 0

-- The arithmetic of one round, over the weight `w` of the basis product `lp`.
weight_at : (y w den lp : ℕ) → den ≈ 1 * lp → mul_mod den w ≡ 1 → y * w * lp ≈ y
weight_at y w den lp e one =
    let a = ≈-mul_right den (1 * lp) (y * w) e in
    let b = ≈-mul_right (den * w) 1 y (sym (mul_mod-≈ den w) ∙ ap (λ (t : ℕ). t % 65537) one) in
    omega arith

weight_zero : (y w lp : ℕ) → lp ≈ 0 → y * w * lp ≈ 0
weight_zero y w lp e = let a = ≈-mul_right lp 0 (y * w) e in omega arith

round_value :
    (secret y num w lp0 rest v : ℕ)
    → num ≈ 1 * lp0
    → v ≈ add_mod secret (mul_mod y (mul_mod num w)) + rest
    → v ≈ secret + (y * w * lp0 + rest)
round_value secret y num w lp0 rest v e h =
    let a = add_mod-≈ secret (mul_mod y (mul_mod num w)) in
    let b = mul_mod-≈ y (mul_mod num w) in
    let c = ≈-mul_right (mul_mod num w) (num * w) y (mul_mod-≈ num w) in
    let d = ≈-mul_left num (1 * lp0) (y * w) e in omega arith

add_zero_right : (a b c : ℕ) → a ≈ c → b ≈ 0 → a + b ≈ c
add_zero_right a b c h k = omega arith

add_zero_left : (a b c : ℕ) → a ≈ 0 → b ≈ c → a + b ≈ c
add_zero_left a b c h k = omega arith

module _ (f : ℕ → ℕ) (xs : List ℕ) (distinct : IsDistinct xs) where
  round :
      (i w : ℕ) (r : ℕ × ℕ) (secret : ℕ) (out : Result ℕ)
      → i < length xs
      → Basis (others i 0 xs) (get_or xs i 0) 1 1 r
      → mul_mod r.1 w ≡ 1
      → Interpolates f xs (suc i) (add_mod secret (mul_mod (f (get_or xs i 0)) (mul_mod r.0 w))) out
      → Interpolates f xs i secret out
  round i w r secret out inside b one n = record {
    value = n.value;
    lag = λ z. f (get_or xs i 0) * w * linear_product (others i 0 xs) z + n.lag z;
    returns = n.returns;
    value_lt = n.value_lt;
    value_≈ = round_value secret (f (get_or xs i 0)) r.0 w _ (n.lag 0) n.value b.num_≈ n.value_≈;
    poly =
        IsPoly-add (length xs) _ n.lag
          (IsPoly-scale (length xs) (f (get_or xs i 0) * w) (linear_product (others i 0 xs)) (
            rw (← length-others i 0 xs (omega arith) (omega arith))
              (linear_product-IsPoly (others i 0 xs))))
          n.poly;
    later = λ k le lt. elim (split k le) [
      | inl e ↦ rw (← e) (
          add_zero_right _ _ _ (weight_at (f (get_or xs i 0)) w r.1 _ b.den_≈ one)
            (n.earlier i (omega arith) inside))
      | inr above ↦ add_zero_left _ _ _ (missing k lt (omega arith)) (n.later k above lt)
    ];
    earlier = λ k lt len.
        add_zero_left _ _ 0 (missing k len (omega arith)) (n.earlier k (omega arith) len);
  }
    where
      split : (k : ℕ) → i ≤ k → (i ≡ k) ⊎ (suc i ≤ k)
      split k le = omega arith

      missing :
          (k : ℕ)
          → k < length xs
          → k ≢ i
          → f (get_or xs i 0) * w * linear_product (others i 0 xs) (get_or xs k 0) ≈ 0
      missing k lt ne = weight_zero (f (get_or xs i 0)) w _ (
          others_root i 0 xs k lt (λ e. ne (omega arith))
            (get_or-All (λ x. x < 65537) xs k lt (IsDistinct-lt xs distinct)))

  pub secret_loop-Interpolates :
      (ys : List ℕ) (i secret : ℕ)
      → secret < 65537
      → drop i xs ≡ ys
      → Interpolates f xs i secret (secret_loop (sample f xs) i (sample f ys) secret)
  unfolding secret_loop
  secret_loop-Interpolates [] i secret lt e = record {
    value = secret;
    lag = λ z. 0;
    returns = refl;
    value_lt = lt;
    value_≈ = omega arith;
    poly = IsPoly-zero (length xs);
    later = λ k le len. absurd (omega (arith, drop-nil i xs e));
    earlier = λ k le len. refl;
  }
  secret_loop-Interpolates (x ∷ ys) i secret lt e =
      let u = drop-cons i x xs ys e in
      let hx : get_or xs i 0 < 65537 =
        get_or-All (λ x. x < 65537) xs i u.inside (IsDistinct-lt xs distinct) in
      let b =
        basis_loop-Basis f i (get_or xs i 0) hx 0 xs 1 1 (IsDistinct-lt xs distinct)
          (others_differ i 0 i xs (omega arith) u.inside distinct) (omega arith) (omega arith) in
      let (w, returned, one) = inv_mod-inverse _ b.den_pos b.den_lt in
      rw (← u.head, returned)
        (round i w _ secret _ u.inside b one
          (secret_loop-Interpolates ys (suc i) _ (add_mod-lt _ _) u.tail))
