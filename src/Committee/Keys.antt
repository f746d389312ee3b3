-- ===== src/Committee/Keys.antt =====
-- Different guardians of one version have different share keys in cpp/committee_node.cpp.
use did_vc.Base.{
  ℕ, zero, suc, ◌+◌, ◌-◌, ◌*◌, ◌/◌, ◌%◌, ◌^◌, ◌<◌, Str, ltb, [], ◌∷◌, ◌++◌, ◌≡◌, ◌≢◌, refl, sym, ap,
  ◌∙◌, arith, decimal_digits, to_decimal, Bool-cases, inl, inr,
}
use native.Mathlib.Nat.{pow-suc}
use did_vc.Envelope.{ShareEnvelope, share_key}

-- The number that some digits write, behind `v`.
abbrev decimal_value : Str → ℕ → ℕ
decimal_value [] v = v
decimal_value (c ∷ cs) v = decimal_value cs (v * 10 + (c - 48))

decimal_value-append :
    (cs : Str) (c v : ℕ) → decimal_value (cs ++ c ∷ []) v ≡ decimal_value cs v * 10 + (c - 48)
decimal_value-append [] c v = refl
decimal_value-append (d ∷ cs) c v = decimal_value-append cs c (v * 10 + (d - 48))

decimal_value-decimal_digits :
    (fuel n : ℕ) → n < 10 ^ fuel → decimal_value (decimal_digits fuel n) 0 ≡ n
unfolding decimal_digits
decimal_value-decimal_digits zero n h = omega arith
decimal_value-decimal_digits (suc fuel) n h = elim (Bool-cases (ltb n 10)) [
  | inl small ↦ rw small (omega arith)
  | inr large ↦
      let ih =
        decimal_value-decimal_digits fuel (n / 10)
          (tenth n (10 ^ fuel) (subst_bound (pow-suc 10 fuel) h)) in
      rw large
        (decimal_value-append (decimal_digits fuel (n / 10)) (48 + n % 10) 0 ∙ omega (arith, ih))
]
  where
    subst_bound : {n p q : ℕ} → p ≡ q → n < p → n < q
    subst_bound e h = omega arith

    tenth : (n p : ℕ) → n < p * 10 → n / 10 < p
    tenth n p h = omega arith

-- Decimal texts of 64-bit numbers determine them.
pub to_decimal-injective : (a b : ℕ) → a < 2 ^ 64 → b < 2 ^ 64 → to_decimal a ≡ to_decimal b → a ≡ b
unfolding to_decimal
to_decimal-injective a b ha hb e =
    sym (decimal_value-decimal_digits 20 a (omega arith))
    ∙ ap (λ (s : Str). decimal_value s 0) e
    ∙ decimal_value-decimal_digits 20 b (omega arith)

append_cancel : (p s t : Str) → p ++ s ≡ p ++ t → s ≡ t
append_cancel [] s t e = e
append_cancel (c ∷ p) s t e = append_cancel p s t (cc)

-- Envelopes of one version with different guardian indices have different keys.
pub share_key-apart :
    (e f : ShareEnvelope)
    → e.id_hash ≡ f.id_hash
    → e.ver ≡ f.ver
    → e.epoch ≡ f.epoch
    → e.guardian_index < 2 ^ 64
    → f.guardian_index < 2 ^ 64
    → e.guardian_index ≢ f.guardian_index
    → share_key e ≢ share_key f
unfolding share_key
share_key-apart e f ids vers epochs he hf ne same =
    let p : share_key e
        ≡ e.id_hash
          ++ b':'
            ∷ (to_decimal e.ver
                ++ b':' ∷ (to_decimal e.epoch ++ b':' ∷ to_decimal f.guardian_index)) =
      same ∙ rw (ids, vers, epochs) refl in
    let q = append_cancel e.id_hash _ _ p in
    let r : to_decimal e.ver ++ b':' ∷ (to_decimal e.epoch ++ b':' ∷ to_decimal e.guardian_index)
        ≡ to_decimal e.ver ++ b':' ∷ (to_decimal e.epoch ++ b':' ∷ to_decimal f.guardian_index) =
      cc in
    let s = append_cancel (to_decimal e.ver) _ _ r in
    let t : to_decimal e.epoch ++ b':' ∷ to_decimal e.guardian_index
        ≡ to_decimal e.epoch ++ b':' ∷ to_decimal f.guardian_index =
      cc in
    let u = append_cancel (to_decimal e.epoch) _ _ t in
    ne (to_decimal-injective e.guardian_index f.guardian_index he hf (cc))
