-- ===== src/Field/Congr.antt =====
-- Congruence modulo the field's prime, and the operations of the field up to it.
use did_vc.Base.{ℕ, ◌+◌, ◌*◌, ◌/◌, ◌%◌, ◌<◌, ◌≡◌, ◌∙◌, sym, arith, ap}
use native.Mathlib.Nat.{mul-add-mod_self_left, mul_comm}
use did_vc.Field.Ops.{add_mod, sub_mod, mul_mod}

infix 4 ◌≈◌
abbrev pub ◌≈◌ : ℕ → ℕ → Type 0
a ≈ b = a % 65537 ≡ b % 65537

mod-mul : (a c : ℕ) → (a * c) % 65537 ≡ (a % 65537 * c) % 65537
mod-mul a c =
    ap (λ (t : ℕ). t % 65537) (split a c)
    ∙ mul-add-mod_self_left 65537 (a / 65537 * c) (a % 65537 * c)
  where
    split : (a c : ℕ) → a * c ≡ 65537 * (a / 65537 * c) + a % 65537 * c
    split a c = ap (λ (t : ℕ). t * c) (divides a) ∙ expand (a / 65537) (a % 65537) c
      where
        divides : (a : ℕ) → a ≡ 65537 * (a / 65537) + a % 65537
        divides a = omega arith

        expand : (q r c : ℕ) → (65537 * q + r) * c ≡ 65537 * (q * c) + r * c
        expand q r c = omega arith

pub ≈-mul_left : (a b c : ℕ) → a ≈ b → a * c ≈ b * c
≈-mul_left a b c h = mod-mul a c ∙ ap (λ (t : ℕ). (t * c) % 65537) h ∙ sym (mod-mul b c)

pub ≈-mul_right : (a b c : ℕ) → a ≈ b → c * a ≈ c * b
≈-mul_right a b c h =
    ap (λ (t : ℕ). t % 65537) (mul_comm c a)
    ∙ ≈-mul_left a b c h
    ∙ ap (λ (t : ℕ). t % 65537) (mul_comm b c)

pub ≈-mul : (a a' b b' : ℕ) → a ≈ a' → b ≈ b' → a * b ≈ a' * b'
≈-mul a a' b b' h k = ≈-mul_left a a' b h ∙ ≈-mul_right b b' a' k

pub add_mod-≈ : (a b : ℕ) → add_mod a b ≈ a + b
unfolding add_mod
add_mod-≈ a b = omega arith

pub mul_mod-≈ : (a b : ℕ) → mul_mod a b ≈ a * b
unfolding mul_mod
mul_mod-≈ a b = omega arith

pub sub_mod-≈ : (a b : ℕ) → a < 65537 → b < 65537 → sub_mod a b + b ≈ a
unfolding sub_mod
sub_mod-≈ a b h k = omega arith

pub add_mod-lt : (a b : ℕ) → add_mod a b < 65537
unfolding add_mod
add_mod-lt a b = omega arith

pub mul_mod-lt : (a b : ℕ) → mul_mod a b < 65537
unfolding mul_mod
mul_mod-lt a b = omega arith

pub sub_mod-lt : (a b : ℕ) → sub_mod a b < 65537
unfolding sub_mod
sub_mod-lt a b = omega arith

-- Distinct reduced values have a non-zero difference.
pub sub_mod-pos : (a b : ℕ) → a < 65537 → b < 65537 → (a ≡ b → ⊥) → 0 < sub_mod a b
unfolding sub_mod
sub_mod-pos a b h k ne = omega arith
