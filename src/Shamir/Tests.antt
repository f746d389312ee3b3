-- ===== src/Shamir/Tests.antt =====
-- A line through two shares.
use did_vc.Base.{ok, ◌≡◌, [], ◌∷◌, arith}
use did_vc.Field.Congr.{◌≈◌}
use did_vc.Shamir.Ops.{lagrange_interpolate_at_zero, poly_eval}
use did_vc.Shamir.Poly.{horner, poly_eval-≈}
use did_vc.Shamir.Lagrange.{sample}
use did_vc.Shamir.Roots.{IsDistinct}
use did_vc.Shamir.Correct.{lagrange_interpolate_at_zero-poly_eval}

one_two-IsDistinct : IsDistinct (1 ∷ 2 ∷ [])
one_two-IsDistinct = (omega arith, ((λ e. absurd (omega arith)), tt), (omega arith, tt, tt))

lagrange_interpolate_at_zero-poly_eval_example :
    lagrange_interpolate_at_zero (sample (poly_eval (5 ∷ 7 ∷ [])) (1 ∷ 2 ∷ [])) ≡ ok 5
lagrange_interpolate_at_zero-poly_eval_example =
    lagrange_interpolate_at_zero-poly_eval 5 (7 ∷ []) (1 ∷ 2 ∷ []) (omega arith) one_two-IsDistinct
      (omega arith)

poly_eval-≈_example : poly_eval (5 ∷ 7 ∷ []) 3 ≈ horner (5 ∷ 7 ∷ []) 3
poly_eval-≈_example = poly_eval-≈ (5 ∷ 7 ∷ []) 3
