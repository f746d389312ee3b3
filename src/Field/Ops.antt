-- ===== src/Field/Ops.antt =====
-- The field operations of cpp/ttss_nits_shamir.cpp (`add_mod` to `inv_mod`).
use did_vc.Base.{
  ℕ, zero, suc, ◌+◌, ◌-◌, ◌*◌, ◌/◌, ◌%◌, ◌^◌, codes, Result, ok, err, ◌==◌, if◌then◌else◌,
}

-- `kFieldMod`, a Fermat prime.
abbrev pub field_mod : ℕ
field_mod = 65537

-- Operands are `uint32_t`, so the 64-bit sum and product never wrap.
unfoldable pub add_mod : ℕ → ℕ → ℕ
add_mod a b = (a + b) % field_mod

-- The difference is taken in `uint64_t`, where it may wrap.
unfoldable pub sub_mod : ℕ → ℕ → ℕ
sub_mod a b = (a + field_mod + 2 ^ 64 - b) % 2 ^ 64 % field_mod

unfoldable pub mul_mod : ℕ → ℕ → ℕ
mul_mod a b = (a * b) % field_mod

-- The `while (exp > 0)` loop. Each round halves a 64-bit exponent, so 64 rounds are enough.
unfoldable pub pow_loop : ℕ → ℕ → ℕ → ℕ → ℕ
pow_loop zero base exp out = out
pow_loop (suc fuel) base exp out =
    let rest =
      pow_loop fuel (mul_mod base base) (exp / 2)
        (if exp % 2 == 1 then mul_mod out base else out) in
    if exp == 0 then out else rest

unfoldable pub pow_mod : ℕ → ℕ → ℕ
unfolding pow_loop mul_mod
pow_mod base exp = pow_loop 64 base exp 1

unfoldable pub inv_mod : ℕ → Result ℕ
unfolding pow_mod
inv_mod x = if x == 0 then err (codes "inverse_of_zero") else ok (pow_mod x (field_mod - 2))
