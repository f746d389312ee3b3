-- ===== src/Field/Tests.antt =====
-- An inverse and a power.
use did_vc.Base.{ℕ, ok, ◌≡◌, arith}
use did_vc.Field.{inv_mod, mul_mod, pow_mod}
use did_vc.Field.Congr.{◌≈◌}
use did_vc.Field.Power.{power, pow_mod-≈}
use did_vc.Field.Fermat.{inv_mod-inverse}

inv_mod-inverse_example : (y : ℕ) × (inv_mod 3 ≡ ok y) × (mul_mod 3 y ≡ 1)
inv_mod-inverse_example = inv_mod-inverse 3 (omega arith) (omega arith)

pow_mod-≈_example : pow_mod 3 100 ≈ power 3 100
pow_mod-≈_example = pow_mod-≈ 3 100 (omega arith)
