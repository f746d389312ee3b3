-- ===== src/Committee/KeyText.antt =====
-- The share key of cpp/committee_node.cpp determines the version of its envelope.
use did_vc.Base.{
  ℕ, zero, suc, ◌+◌, ◌/◌, ◌%◌, ◌<◌, Str, ltb, [], ◌∷◌, ◌++◌, All, ◌≡◌, ◌≢◌, refl, sym, ap, ◌∙◌,
  arith, decimal_digits, to_decimal, Bool-cases, inl, inr,
}
use did_vc.Envelope.{ShareEnvelope, share_key}
use did_vc.Committee.Handlers.{version_key}

-- Without a colon.
abbrev Plain : Str → Type 0
Plain s = All (λ c. c ≢ b':') s

Plain-append : (s : Str) (c : ℕ) → Plain s → c ≢ b':' → Plain (s ++ c ∷ [])
Plain-append [] c h k = (k, tt)
Plain-append (d ∷ s) c h k = (h.0, Plain-append s c h.1 k)

Plain-decimal_digits : (fuel n : ℕ) → Plain (decimal_digits fuel n)
unfolding decimal_digits
Plain-decimal_digits zero n = tt
Plain-decimal_digits (suc fuel) n = elim (Bool-cases (ltb n 10)) [
  | inl small ↦ let lt : n < 10 = ground arith in rw small ((λ e. absurd (omega arith)), tt)
  | inr large ↦ rw large (
      Plain-append (decimal_digits fuel (n / 10)) (48 + n % 10) (Plain-decimal_digits fuel (n / 10))
        (λ e. absurd (omega arith)))
]

Plain-to_decimal : (n : ℕ) → Plain (to_decimal n)
unfolding to_decimal
Plain-to_decimal n = Plain-decimal_digits 20 n

-- A plain text has no colon in it.
Plain-split : (a : Str) (d e : Str) → Plain d → d ≡ a ++ b':' ∷ e → ⊥
Plain-split [] [] e h p = absurd (cc)
Plain-split [] (c ∷ d) e h p = h.0 (cc)
Plain-split (b ∷ a) [] e h p = absurd (cc)
Plain-split (b ∷ a) (c ∷ d) e h p = Plain-split a d e h.1 (cc)

-- The last colon of two equal texts is at the same place.
last_colon : (a b d e : Str) → Plain d → Plain e → a ++ b':' ∷ d ≡ b ++ b':' ∷ e → (a ≡ b) × (d ≡ e)
last_colon [] [] d e hd he p = (refl, cc)
last_colon [] (c ∷ b) d e hd he p = absurd (Plain-split b d e hd (cc))
last_colon (c ∷ a) [] d e hd he p = absurd (Plain-split a e d he (cc))
last_colon (c ∷ a) (x ∷ b) d e hd he p =
    let (q, r) = last_colon a b d e hd he (cc) in let same : c ≡ x = cc in (rw (same, q) refl, r)

append_assoc3 :
    (a : Str) (b c d : Str)
    → a ++ b':' ∷ (b ++ b':' ∷ (c ++ b':' ∷ d)) ≡ ((a ++ b':' ∷ b) ++ b':' ∷ c) ++ b':' ∷ d
append_assoc3 [] b c d = ap (λ (s : Str). b':' ∷ s) (two b c d)
  where
    two : (b c d : Str) → b ++ b':' ∷ (c ++ b':' ∷ d) ≡ (b ++ b':' ∷ c) ++ b':' ∷ d
    two [] c d = refl
    two (x ∷ b) c d = ap (λ (s : Str). x ∷ s) (two b c d)
append_assoc3 (x ∷ a) b c d = ap (λ (s : Str). x ∷ s) (append_assoc3 a b c d)

-- Envelopes with one share key have one version.
pub version_key-share_key :
    (e f : ShareEnvelope)
    → share_key e ≡ share_key f
    → version_key e.id_hash e.ver e.epoch ≡ version_key f.id_hash f.ver f.epoch
unfolding share_key version_key
version_key-share_key e f same =
    let p =
      sym (
        append_assoc3 e.id_hash (to_decimal e.ver) (to_decimal e.epoch)
          (to_decimal e.guardian_index))
      ∙ same
      ∙ append_assoc3 f.id_hash (to_decimal f.ver) (to_decimal f.epoch)
          (to_decimal f.guardian_index) in
    let (q, _) =
      last_colon _ _ _ _ (Plain-to_decimal e.guardian_index) (Plain-to_decimal f.guardian_index)
        p in
    let (r, epochs) = last_colon _ _ _ _ (Plain-to_decimal e.epoch) (Plain-to_decimal f.epoch) q in
    let (ids, vers) = last_colon _ _ _ _ (Plain-to_decimal e.ver) (Plain-to_decimal f.ver) r in
    rw (ids, vers, epochs) refl
