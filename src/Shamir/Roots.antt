-- ===== src/Shamir/Roots.antt =====
-- A polynomial function with more distinct roots than its degree vanishes.
use did_vc.Base.{
  ℕ, zero, suc, ◌+◌, ◌-◌, ◌*◌, ◌%◌, ◌≤◌, ◌<◌, ◌≡◌, ◌≢◌, ◌∙◌, ◌⊎◌, inl, inr, sym, refl, ap, arith,
  List, [], ◌∷◌, length, All,
}
use did_vc.Field.Congr.{◌≈◌, ≈-mul_left, ≈-mul_right, mul_mod-≈}
use did_vc.Field.Fermat.{inv_mod-inverse}
use did_vc.Field.{mul_mod}
use did_vc.Shamir.Poly.{IsPoly, IsPoly-divide}

-- A non-zero factor cancels.
pub cancel : (d q : ℕ) → 0 < d → d < 65537 → d * q ≈ 0 → q ≈ 0
cancel d q pos hi h =
    let (y, _, one) = inv_mod-inverse d pos hi in
    unit q
    ∙ sym (≈-mul_left (d * y) 1 q (sym (mul_mod-≈ d y) ∙ ap (λ (t : ℕ). t % 65537) one))
    ∙ regroup y
    ∙ ≈-mul_right (d * q) 0 y h
    ∙ absorb y
  where
    unit : (n : ℕ) → n ≈ 1 * n
    unit n = omega arith

    regroup : (y : ℕ) → d * y * q ≈ y * (d * q)
    regroup y = omega arith

    absorb : (y : ℕ) → y * 0 ≈ 0
    absorb y = omega arith

pub mul_mod-pos : (a b : ℕ) → 0 < a → a < 65537 → 0 < b → b < 65537 → 0 < mul_mod a b
mul_mod-pos a b pa ha pb hb = go (mul_mod a b) refl
  where
    go : (m : ℕ) → mul_mod a b ≡ m → 0 < m
    go zero e =
        let z : b ≈ 0 = cancel a b pa ha (sym (mul_mod-≈ a b) ∙ ap (λ (t : ℕ). t % 65537) e) in
        absurd (omega arith)
    go (suc m) e = omega arith

-- Distinct multipliers with one product have a zero factor.
cancel_distinct : (a b q : ℕ) → a < 65537 → b < 65537 → a ≢ b → a * q ≈ b * q → q ≈ 0
cancel_distinct a b q ha hb ne h = elim (order a b ne) [
  | inl lt ↦ cancel (b - a) q (omega arith) (omega arith) (minus a b lt h)
  | inr gt ↦ cancel (a - b) q (omega arith) (omega arith) (minus b a gt (sym h))
]
  where
    order : (a b : ℕ) → a ≢ b → (a < b) ⊎ (b < a)
    order a b ne = omega arith

    minus : (a b : ℕ) → a < b → a * q ≈ b * q → (b - a) * q ≈ 0
    minus a b lt h =
        let e : a * q + (b - a) * q ≡ b * q =
          sym (add-mul_right a (b - a)) ∙ ap (λ (t : ℕ). t * q) (omega arith) in
        omega arith
      where
        add-mul_right : (x y : ℕ) → (x + y) * q ≡ x * q + y * q
        add-mul_right x y = omega arith

-- The entries are field elements, each different from those behind it.
abbrev pub IsDistinct : List ℕ → Type 0
IsDistinct [] = Unit
IsDistinct (x ∷ xs) = (x < 65537) × All (λ y. x ≢ y) xs × IsDistinct xs

-- Roots of `f` other than `a` are roots of its quotient by `x - a`.
divide_roots :
    (f q : ℕ → ℕ) (a : ℕ) (rs : List ℕ)
    → a < 65537
    → f a ≈ 0
    → ((x : ℕ) → f x + a * q x ≈ f a + x * q x)
    → All (λ y. a ≢ y) rs
    → IsDistinct rs
    → All (λ r. f r ≈ 0) rs
    → All (λ r. q r ≈ 0) rs
divide_roots f q a [] ha fa e ne ds z = tt
divide_roots f q a (r ∷ rs) ha fa e ne ds z = (
  cancel_distinct a r (q r) ha ds.0 ne.0 (same (e r) z.0),
  divide_roots f q a rs ha fa e ne.1 ds.2 z.1,
)
  where
    same : f r + a * q r ≈ f a + r * q r → f r ≈ 0 → a * q r ≈ r * q r
    same u v = omega arith

pub IsPoly-roots :
    (n : ℕ) (f : ℕ → ℕ) (rs : List ℕ)
    → IsPoly n f
    → n ≤ length rs
    → IsDistinct rs
    → All (λ r. f r ≈ 0) rs
    → (x : ℕ) → f x ≈ 0
IsPoly-roots zero f rs p le ds z = p
IsPoly-roots (suc n) f [] p le ds z = absurd (omega arith)
IsPoly-roots (suc n) f (a ∷ rs) p le ds z =
    let (q, pq, e) = IsPoly-divide n a f p in
    let vanish =
      IsPoly-roots n q rs pq (omega arith) ds.2 (divide_roots f q a rs ds.0 z.0 e ds.1 ds.2 z.1) in
    λ x. finish x (q x) (e x) (vanish x)
  where
    finish : (x t : ℕ) → f x + a * t ≈ f a + x * t → t ≈ 0 → f x ≈ 0
    finish x t u v =
        let k = ≈-mul_right t 0 a v in
        let l = ≈-mul_right t 0 x v in let w : f a ≈ 0 = z.0 in omega arith
