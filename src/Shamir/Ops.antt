-- ===== src/Shamir/Ops.antt =====
-- `poly_eval` and `lagrange_interpolate_at_zero` of cpp/ttss_nits_shamir.cpp.
use did_vc.Base.{ℕ, suc, codes, Result, ok, err, ◌>>=◌, ◌==◌, if◌then◌else◌, List, [], ◌∷◌}
use did_vc.Field.{add_mod, sub_mod, mul_mod, inv_mod}

-- The loop over the coefficients, with `acc` and `pow_x`.
unfoldable pub poly_loop : List ℕ → ℕ → ℕ → ℕ → ℕ
poly_loop [] x acc pow_x = acc
poly_loop (a ∷ coeffs) x acc pow_x =
    poly_loop coeffs x (add_mod acc (mul_mod a pow_x)) (mul_mod pow_x x)

unfoldable pub poly_eval : List ℕ → ℕ → ℕ
unfolding poly_loop
poly_eval coeffs x = poly_loop coeffs x 0 1

-- The inner loop at index `j`, with `num` and `den` so far.
unfoldable pub basis_loop : ℕ → ℕ → ℕ → List (ℕ × ℕ) → ℕ → ℕ → ℕ × ℕ
basis_loop i xi j [] num den = (num, den)
basis_loop i xi j ((xj, yj) ∷ points) num den =
    basis_loop i xi (suc j) points (if j == i then num else mul_mod num (sub_mod 0 xj))
      (if j == i then den else mul_mod den (sub_mod xi xj))

-- The outer loop at index `i` over the points that are left; `points` is the whole vector.
unfoldable pub secret_loop : List (ℕ × ℕ) → ℕ → List (ℕ × ℕ) → ℕ → Result ℕ
secret_loop points i [] secret = ok secret
secret_loop points i ((xi, yi) ∷ rest) secret =
    let (num, den) = basis_loop i xi 0 points 1 1 in
    inv_mod den >>= λ inv.
    secret_loop points (suc i) rest (add_mod secret (mul_mod yi (mul_mod num inv)))

unfoldable pub lagrange_interpolate_at_zero : List (ℕ × ℕ) → Result ℕ
unfolding secret_loop basis_loop
lagrange_interpolate_at_zero [] = err (codes "no_points")
lagrange_interpolate_at_zero (p ∷ points) = secret_loop (p ∷ points) 0 (p ∷ points) 0
