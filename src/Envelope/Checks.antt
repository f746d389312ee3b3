-- ===== src/Envelope/Checks.antt =====
-- Which envelopes pass `basic_validate_share_envelope`.
use did_vc.Base.{
  ℕ, ◌<◌, ◌≤◌, Str, str_eq_iff, is_empty, Bool, true, false, not, ◌&&◌, ◌||◌, ◌⊎◌, inl, inr, ltb,
  ◌==◌, List, [], ◌∷◌, All, ◌≡◌, refl, arith,
}
use did_vc.Text.{trim_copy, trim_front, trim_back}
use did_vc.Hex.{is_hex_string, starts_with_0x}
use did_vc.Hex.Shape.{IsHexText, is_hex_string-IsHexText, IsHexText-is_hex_string}
use did_vc.Envelope.{
  ShareEnvelope, valid, first_failure, basic_checks, basic_validate_share_envelope,
  scheme_nits_shamir_v1, secret_type_srec_seed, bad_optional_hex,
}

-- No test of the list holds.
abbrev pub NoneHolds : List (Bool × Str) → Type 0
NoneHolds checks = All (λ (c : Bool × Str). c.0 ≡ false) checks

pub first_failure-valid :
    (checks : List (Bool × Str)) → NoneHolds checks → first_failure checks ≡ valid
unfolding first_failure
first_failure-valid [] h = refl
first_failure-valid ((b, e) ∷ checks) h = rw h.0 (first_failure-valid checks h.1)

pub first_failure-NoneHolds :
    (checks : List (Bool × Str)) → first_failure checks ≡ valid → NoneHolds checks
unfolding first_failure
first_failure-NoneHolds [] h = tt
first_failure-NoneHolds ((true, e) ∷ checks) h = absurd (cc)
first_failure-NoneHolds ((false, e) ∷ checks) h = (refl, first_failure-NoneHolds checks h)

-- Nothing, or hexadecimal text.
abbrev pub OptionalHex : Str → Type 0
OptionalHex s = (s ≡ []) ⊎ IsHexText s

-- No text is both empty and hexadecimal.
IsHexText-is_empty : (s : Str) → IsHexText s → is_empty s ≡ false
unfolding is_hex_string trim_copy trim_front trim_back starts_with_0x
IsHexText-is_empty [] t = let p : false ≡ true = IsHexText-is_hex_string [] t in absurd (cc)
IsHexText-is_empty (c ∷ s) t = refl

bad_optional_hex-OptionalHex : (s : Str) → OptionalHex s → bad_optional_hex s ≡ false
bad_optional_hex-OptionalHex s (inl nothing) = rw nothing refl
bad_optional_hex-OptionalHex s (inr text) =
    guard_false (is_empty s) (is_hex_string s false) (IsHexText-is_hex_string s text)
  where
    guard_false : (a b : Bool) → b ≡ true → (not a && not b) ≡ false
    guard_false a b h = ground arith

OptionalHex-bad_optional_hex : (s : Str) → bad_optional_hex s ≡ false → OptionalHex s
OptionalHex-bad_optional_hex [] h = inl refl
OptionalHex-bad_optional_hex (c ∷ s) h =
    inr (is_hex_string-IsHexText (c ∷ s) (accepted (is_hex_string (c ∷ s) false) h))
  where
    accepted : (b : Bool) → (not false && not b) ≡ false → b ≡ true
    accepted b h = ground arith

-- What a well-formed envelope has: the scheme and the type of the secret, an index of a guardian from
-- 1 on, a threshold from 2 to the number of guardians, hexadecimal texts in six fields, and such texts
-- or nothing in four others.
pub record IsWellFormed (env : ShareEnvelope) : Type 0 where
  pub scheme : env.scheme ≡ scheme_nits_shamir_v1
  pub id_hex : IsHexText env.id_hash
  pub index_pos : 0 < env.guardian_index
  pub n_two : 2 ≤ env.n
  pub t_two : 2 ≤ env.t
  pub t_le_n : env.t ≤ env.n
  pub secret : env.secret_type ≡ secret_type_srec_seed
  pub xi_hex : IsHexText env.share.xi_hex
  pub yi_hex : IsHexText env.share.yi_hex
  pub ui_hex : IsHexText env.ui_hex
  pub tag_hex : IsHexText env.tag_hex
  pub sigma_hex : IsHexText env.dealer_proof.sigma_hex
  pub vk_set : OptionalHex env.meta.vk_set_hash
  pub guardian_set : OptionalHex env.meta.guardian_set_hash
  pub dealer_pk : OptionalHex env.meta.dealer_pk_hex
  pub rho_commit : OptionalHex env.meta.rho_commit_hex

not-false : (b : Bool) → b ≡ true → not b ≡ false
not-false b h = ground arith

or_false : (a b : Bool) → a ≡ false → b ≡ false → (a || b) ≡ false
or_false a b h k = ground arith

threshold_false : (n t : ℕ) → 2 ≤ n → 2 ≤ t → t ≤ n → (ltb n 2 || ltb t 2 || ltb n t) ≡ false
threshold_false n t h k l = ground arith

index_false : (i : ℕ) → 0 < i → (i == 0) ≡ false
index_false i h = ground arith

-- An envelope passes the basic checks when it is well-formed, that is, when it has the scheme and
-- the type of the secret, an index from 1 on, a threshold from 2 to the number of guardians, and
-- in each text field hexadecimal digits between blanks, behind 0x or not, where the last four
-- fields may also be empty.
pub basic_validate-IsWellFormed :
    (env : ShareEnvelope) → IsWellFormed env → basic_validate_share_envelope env ≡ valid
unfolding basic_validate_share_envelope
basic_validate-IsWellFormed env w = first_failure-valid (basic_checks env) (
  not-false _ ((str_eq_iff _ _).1 w.scheme),
  (
    or_false _ _ (IsHexText-is_empty _ w.id_hex) (refuted _ w.id_hex),
    (
      index_false _ w.index_pos,
      (
        threshold_false env.n env.t w.n_two w.t_two w.t_le_n,
        (
          not-false _ ((str_eq_iff _ _).1 w.secret),
          (
            or_false _ _ (IsHexText-is_empty _ w.xi_hex) (IsHexText-is_empty _ w.yi_hex),
            (
              or_false _ _ (refuted _ w.xi_hex) (refuted _ w.yi_hex),
              (
                refuted _ w.ui_hex,
                (
                  refuted _ w.tag_hex,
                  (
                    refuted _ w.sigma_hex,
                    (
                      optional _ w.vk_set,
                      (
                        optional _ w.guardian_set,
                        (optional _ w.dealer_pk, (optional _ w.rho_commit, tt)),
                      ),
                    ),
                  ),
                ),
              ),
            ),
          ),
        ),
      ),
    ),
  ),
)
  where
    refuted : (s : Str) → IsHexText s → not (is_hex_string s false) ≡ false
    refuted s t = not-false _ (IsHexText-is_hex_string s t)

    optional : (s : Str) → OptionalHex s → bad_optional_hex s ≡ false
    optional s o = bad_optional_hex-OptionalHex s o

not-true : (b : Bool) → not b ≡ false → b ≡ true
not-true b h = ground arith

or_left : (a b : Bool) → (a || b) ≡ false → a ≡ false
or_left a b h = ground arith

or_right : (a b : Bool) → (a || b) ≡ false → b ≡ false
or_right a b h = ground arith

threshold_bounds : (n t : ℕ) → (ltb n 2 || ltb t 2 || ltb n t) ≡ false → (2 ≤ n) × (2 ≤ t) × (t ≤ n)
threshold_bounds n t h = ground arith

index_bound : (i : ℕ) → (i == 0) ≡ false → 0 < i
index_bound i h = ground arith

-- An envelope that passes the basic checks is well-formed: it has the scheme and the type of the
-- secret, an index from 1 on, a threshold from 2 to the number of guardians, and in each text
-- field hexadecimal digits between blanks, behind 0x or not, where the last four fields may also
-- be empty.
pub IsWellFormed-basic_validate :
    (env : ShareEnvelope) → basic_validate_share_envelope env ≡ valid → IsWellFormed env
unfolding basic_validate_share_envelope
IsWellFormed-basic_validate env h =
    let (c1, (c2, (c3, (c4, (c5, (c6, (c7, (c8, (c9, (c10, (c11, (c12, (c13, (c14, _)))))))))))))) =
      first_failure-NoneHolds (basic_checks env) h in
    let bounds = threshold_bounds env.n env.t c4 in
    record {
      scheme = (str_eq_iff _ _).0 (not-true _ c1);
      id_hex = hex_text _ (or_right _ _ c2);
      index_pos = index_bound _ c3;
      n_two = bounds.0;
      t_two = bounds.1;
      t_le_n = bounds.2;
      secret = (str_eq_iff _ _).0 (not-true _ c5);
      xi_hex = hex_text _ (or_left _ _ c7);
      yi_hex = hex_text _ (or_right _ _ c7);
      ui_hex = hex_text _ c8;
      tag_hex = hex_text _ c9;
      sigma_hex = hex_text _ c10;
      vk_set = OptionalHex-bad_optional_hex _ c11;
      guardian_set = OptionalHex-bad_optional_hex _ c12;
      dealer_pk = OptionalHex-bad_optional_hex _ c13;
      rho_commit = OptionalHex-bad_optional_hex _ c14;
    }
  where
    hex_text : (s : Str) → not (is_hex_string s false) ≡ false → IsHexText s
    hex_text s h = is_hex_string-IsHexText s (not-true _ h)
