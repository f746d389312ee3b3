-- ===== src/Shamir/Lagrange.antt =====
-- The loops of `lagrange_interpolate_at_zero` build the value at 0 of a polynomial function that
-- takes the samples' values at the samples' places.
use did_vc.Base.{
  ℕ, zero, suc, ◌+◌, ◌-◌, ◌*◌, ◌≤◌, ◌<◌, ◌≡◌, ◌≢◌, ◌∙◌, inl, inr, sym, refl, ap, arith, List, [],
  ◌∷◌, length, All, get_or, ◌==◌, if◌then◌else◌, Bool-cases, true, false,
}
use did_vc.Field.Congr.{
  ◌≈◌, ≈-mul_left, ≈-mul_right, mul_mod-≈, mul_mod-lt, sub_mod-≈, sub_mod-lt, sub_mod-pos,
}
use did_vc.Field.{mul_mod, sub_mod}
use did_vc.Shamir.Ops.{basis_loop}
use did_vc.Shamir.Poly.{IsPoly, IsPoly-linear}
use did_vc.Shamir.Roots.{IsDistinct, mul_mod-pos}

-- The shares of the function `f` at the places `xs`.
abbrev pub sample : (ℕ → ℕ) → List ℕ → List (ℕ × ℕ)
sample f [] = []
sample f (x ∷ xs) = (x, f x) ∷ sample f xs

-- The places but the one at index `i`, counted from `j`.
pub others : ℕ → ℕ → List ℕ → List ℕ
others i j [] = []
others i j (x ∷ xs) = if j == i then others i (suc j) xs else x ∷ others i (suc j) xs

-- The product of the linear factors that vanish at `xs`.
pub linear_product : List ℕ → ℕ → ℕ
linear_product [] z = 1
linear_product (x ∷ xs) z = (z + (65537 - x)) * linear_product xs z

pub linear_product-IsPoly : (xs : List ℕ) → IsPoly (suc (length xs)) (linear_product xs)
unfolding linear_product
linear_product-IsPoly [] = (1, λ z. 0, λ z. refl, λ z. omega arith)
linear_product-IsPoly (x ∷ xs) =
    IsPoly-linear (suc (length xs)) (65537 - x) (linear_product xs) (linear_product-IsPoly xs)

sub_mod-factor : (z x : ℕ) → z < 65537 → x < 65537 → sub_mod z x ≈ z + (65537 - x)
sub_mod-factor z x hz hx = let e = sub_mod-≈ z x hz hx in omega arith

-- What the inner loop returns: the two products over the other places, the second not zero.
pub record Basis (others : List ℕ) (xi num den : ℕ) (r : ℕ × ℕ) : Type 0 where
  pub num_≈ : r.0 ≈ num * linear_product others 0
  pub den_≈ : r.1 ≈ den * linear_product others xi
  pub den_pos : 0 < r.1
  pub den_lt : r.1 < 65537

extend :
    (z x acc rest : ℕ)
    → z < 65537
    → x < 65537
    → mul_mod acc (sub_mod z x) * rest ≈ acc * ((z + (65537 - x)) * rest)
extend z x acc rest hz hx =
    ≈-mul_left _ _ rest
      (mul_mod-≈ acc (sub_mod z x) ∙ ≈-mul_right _ _ acc (sub_mod-factor z x hz hx))
    ∙ regroup acc (z + (65537 - x)) rest
  where
    regroup : (a b c : ℕ) → a * b * c ≈ a * (b * c)
    regroup a b c = omega arith

Basis-cons :
    (xs : List ℕ) (xi x num den : ℕ) (r : ℕ × ℕ)
    → xi < 65537
    → x < 65537
    → Basis xs xi (mul_mod num (sub_mod 0 x)) (mul_mod den (sub_mod xi x)) r
    → Basis (x ∷ xs) xi num den r
unfolding linear_product
Basis-cons xs xi x num den r hxi hx b = record {
  num_≈ = b.num_≈ ∙ extend 0 x num (linear_product xs 0) (omega arith) hx;
  den_≈ = b.den_≈ ∙ extend xi x den (linear_product xs xi) hxi hx;
  den_pos = b.den_pos;
  den_lt = b.den_lt;
}

module _ (f : ℕ → ℕ) (i xi : ℕ) (hxi : xi < 65537) where
  pub basis_loop-Basis :
      (j : ℕ) (xs : List ℕ) (num den : ℕ)
      → All (λ x. x < 65537) xs
      → All (λ x. xi ≢ x) (others i j xs)
      → 0 < den
      → den < 65537
      → Basis (others i j xs) xi num den (basis_loop i xi j (sample f xs) num den)
  unfolding basis_loop others linear_product
  basis_loop-Basis j [] num den lt ne pos hi = record {
    num_≈ = omega arith;
    den_≈ = omega arith;
    den_pos = pos;
    den_lt = hi;
  }
  basis_loop-Basis j (x ∷ xs) num den lt ne pos hi = elim (Bool-cases (j == i)) [
    | inl e ↦ rw (e, basis_loop) (basis_loop-Basis (suc j) xs num den lt.1 (rw e at ne) pos hi)
    | inr e ↦
        let ne' : All (λ x. xi ≢ x) (x ∷ others i (suc j) xs) = rw e at ne in
        rw (e, basis_loop)
          (Basis-cons (others i (suc j) xs) xi x num den _ hxi lt.0 (
            basis_loop-Basis (suc j) xs (mul_mod num (sub_mod 0 x)) (mul_mod den (sub_mod xi x))
              lt.1 ne'.1
              (mul_mod-pos den (sub_mod xi x) pos hi (sub_mod-pos xi x hxi lt.0 ne'.0)
                (sub_mod-lt xi x))
              (mul_mod-lt den (sub_mod xi x))))
  ]

-- Which places are among the others.
pub others_root :
    (i j : ℕ) (xs : List ℕ) (k : ℕ)
    → k < length xs
    → j + k ≢ i
    → get_or xs k 0 < 65537
    → linear_product (others i j xs) (get_or xs k 0) ≈ 0
unfolding others linear_product
others_root i j [] k lt ne hx = absurd (omega arith)
others_root i j (x ∷ xs) zero lt ne hx =
    let e : (j == i) ≡ false = ground arith in
    rw e (vanish (x + (65537 - x)) (linear_product (others i (suc j) xs) x) (omega arith))
  where
    vanish : (t u : ℕ) → t ≈ 0 → t * u ≈ 0
    vanish t u h = ≈-mul_left t 0 u h ∙ zero_left u
      where
        zero_left : (u : ℕ) → 0 * u ≈ 0
        zero_left u = omega arith
others_root i j (x ∷ xs) (suc k) lt ne hx =
    let ih = others_root i (suc j) xs k (omega arith) (λ e. ne (omega arith)) hx in
    elim (Bool-cases (j == i)) [
      | inl e ↦ rw e ih
      | inr e ↦ rw e (absorb (get_or xs k 0 + (65537 - x)) _ ih)
    ]
  where
    absorb : (t u : ℕ) → u ≈ 0 → t * u ≈ 0
    absorb t u h = ≈-mul_right u 0 t h ∙ zero_right t
      where
        zero_right : (t : ℕ) → t * 0 ≈ 0
        zero_right t = omega arith

length-others_past : (i j : ℕ) (xs : List ℕ) → i < j → length (others i j xs) ≡ length xs
unfolding others
length-others_past i j [] h = refl
length-others_past i j (x ∷ xs) h =
    let e : (j == i) ≡ false = ground arith in
    rw e (ap suc (length-others_past i (suc j) xs (omega arith)))

pub length-others :
    (i j : ℕ) (xs : List ℕ) → j ≤ i → i < j + length xs → suc (length (others i j xs)) ≡ length xs
unfolding others
length-others i j [] le lt = absurd (omega arith)
length-others i j (x ∷ xs) le lt = elim (Bool-cases (j == i)) [
  | inl e ↦ rw e (ap suc (length-others_past i (suc j) xs (ground arith)))
  | inr e ↦ rw e (ap suc (length-others i (suc j) xs (ground arith) (omega arith)))
]

-- Every place but the one at `i` differs from it.
All-others_past :
    (P : ℕ → Type 0) (i j : ℕ) (xs : List ℕ) → i < j → All P xs → All P (others i j xs)
unfolding others
All-others_past P i j [] h a = tt
All-others_past P i j (x ∷ xs) h a =
    let e : (j == i) ≡ false = ground arith in
    rw e (a.0, All-others_past P i (suc j) xs (omega arith) a.1)

pub get_or-All :
    (P : ℕ → Type 0) (xs : List ℕ) (k : ℕ) → k < length xs → All P xs → P (get_or xs k 0)
get_or-All P [] k h a = absurd (omega arith)
get_or-All P (x ∷ xs) zero h a = a.0
get_or-All P (x ∷ xs) (suc k) h a = get_or-All P xs k (omega arith) a.1

pub others_differ :
    (i j k : ℕ) (xs : List ℕ)
    → j + k ≡ i
    → k < length xs
    → IsDistinct xs
    → All (λ y. get_or xs k 0 ≢ y) (others i j xs)
unfolding others
others_differ i j k [] e lt ds = absurd (omega arith)
others_differ i j zero (x ∷ xs) e lt ds =
    let t : (j == i) ≡ true = ground arith in
    rw t (All-others_past (λ y. x ≢ y) i (suc j) xs (omega arith) ds.1)
others_differ i j (suc k) (x ∷ xs) e lt ds =
    let t : (j == i) ≡ false = ground arith in
    rw t (
      λ p. get_or-All (λ y. x ≢ y) xs k (omega arith) ds.1 (sym p),
      others_differ i (suc j) k xs (omega arith) (omega arith) ds.2,
    )
