-- ===== src/Envelope/Sign.antt =====
-- Signing and verification fit together.
use did_vc.Base.{
  Str, codes, str_eq, str_eq_iff, is_empty, true, false, [], ◌∷◌, ◌≡◌, refl, if◌then◌else◌, Result,
  ok, err, ◌>>=◌, ap, ◌∙◌, subst,
}
use did_vc.Text.{lower_copy}
use did_vc.Hex.{normalize_digest_hex32}
use did_vc.Hex.Digest.{IsDigest, normalize_digest_hex32-IsDigest}
use did_vc.Sha256.{sha256_joined_hex}
use did_vc.Sha256.Bounds.{sha256_joined_hex-IsDigest}
use did_vc.Envelope.{
  ShareEnvelope, DealerProof, Verdict, valid, basic_validate_share_envelope,
  canonical_share_envelope_payload, share_envelope_digest_hex, compute_demo_sigma_hex,
  sign_share_envelope_demo, verify_signature, verify_share_envelope_demo, after_basic, demo_sig_alg,
}

-- The signature is no part of what is signed.
pub compute_demo_sigma_hex-proof :
    (env : ShareEnvelope) (p : DealerProof) (key : Str)
    → compute_demo_sigma_hex (record env { dealer_proof = p }) key ≡ compute_demo_sigma_hex env key
unfolding compute_demo_sigma_hex share_envelope_digest_hex canonical_share_envelope_payload
compute_demo_sigma_hex-proof env p key = refl

-- A signature is a digest in normal form.
pub compute_demo_sigma_hex-IsDigest :
    (env : ShareEnvelope) (key sigma : Str)
    → compute_demo_sigma_hex env key ≡ ok sigma
    → IsDigest sigma
unfolding compute_demo_sigma_hex
compute_demo_sigma_hex-IsDigest env key sigma h =
    go (normalize_digest_hex32 key) (share_envelope_digest_hex env) h
  where
    go :
        (k d : Result Str)
        → (k >>= λ key_hex.
            d >>= λ digest. ok (sha256_joined_hex (codes "TTSS-SIG" ∷ key_hex ∷ digest ∷ [])))
          ≡ ok sigma
        → IsDigest sigma
    go (err e) d h = absurd (cc)
    go (ok k) (err e) h = absurd (cc)
    go (ok k) (ok d) h =
        let e : sha256_joined_hex (codes "TTSS-SIG" ∷ k ∷ d ∷ []) ≡ sigma = cc in
        subst IsDigest e (sha256_joined_hex-IsDigest (codes "TTSS-SIG" ∷ k ∷ d ∷ []))

-- What `sign_share_envelope_demo` returns.
pub record IsSigned (env : ShareEnvelope) (key : Str) (out : ShareEnvelope) : Type 0 where
  pub sigma : Str
  pub computed : compute_demo_sigma_hex env key ≡ ok sigma
  pub shape : out ≡ record env {
    dealer_proof = record {
      sig_alg =
          if is_empty env.dealer_proof.sig_alg then demo_sig_alg else env.dealer_proof.sig_alg;
      sigma_hex = sigma;
    };
  }

pub sign-IsSigned :
    (env : ShareEnvelope) (key : Str) (out : ShareEnvelope)
    → sign_share_envelope_demo env key ≡ ok out
    → IsSigned env key out
unfolding sign_share_envelope_demo
sign-IsSigned env key out h = go (compute_demo_sigma_hex env key) refl h
  where
    go :
        (r : Result Str)
        → compute_demo_sigma_hex env key ≡ r
        → (r >>= λ sigma. ok (record env {
          dealer_proof = record {
            sig_alg =
                if is_empty env.dealer_proof.sig_alg
                then demo_sig_alg
                else env.dealer_proof.sig_alg;
            sigma_hex = sigma;
          };
        }))
          ≡ ok out
        → IsSigned env key out
    go (err e) p h = absurd (cc)
    go (ok sigma) p h = record { sigma = sigma; computed = p; shape = cc }

pub verify-signature :
    (env : ShareEnvelope)
    → basic_validate_share_envelope env ≡ valid
    → verify_share_envelope_demo env ≡ verify_signature env
unfolding verify_share_envelope_demo
verify-signature env basic = ap (λ (v : Verdict). after_basic v env) basic

-- An envelope whose signature is the one that its own key gives is accepted.
pub verify_signature-valid :
    (env : ShareEnvelope) (sigma : Str)
    → env.dealer_proof.sig_alg ≡ demo_sig_alg
    → is_empty env.meta.dealer_pk_hex ≡ false
    → compute_demo_sigma_hex env env.meta.dealer_pk_hex ≡ ok sigma
    → env.dealer_proof.sigma_hex ≡ sigma
    → verify_signature env ≡ ok valid
unfolding verify_signature
verify_signature-valid env sigma alg pk computed same =
    let digest =
      normalize_digest_hex32-IsDigest sigma
        (compute_demo_sigma_hex-IsDigest env env.meta.dealer_pk_hex sigma computed) in
    let alg_test : str_eq env.dealer_proof.sig_alg demo_sig_alg ≡ true = (str_eq_iff _ _).1 alg in
    rw (
      computed,
      pk,
      alg_test,
      same,
      digest,
      (str_eq_iff (lower_copy sigma) (lower_copy sigma)).1 refl,
    )

-- An envelope that names the demo algorithm and a dealer key, is signed with that key and then passes
-- the basic checks, verifies.
pub verify-sign :
    (env out : ShareEnvelope)
    → env.dealer_proof.sig_alg ≡ demo_sig_alg
    → is_empty env.meta.dealer_pk_hex ≡ false
    → sign_share_envelope_demo env env.meta.dealer_pk_hex ≡ ok out
    → basic_validate_share_envelope out ≡ valid
    → verify_share_envelope_demo out ≡ ok valid
verify-sign env out alg pk signed basic =
    let s = sign-IsSigned env env.meta.dealer_pk_hex out signed in
    let pk_kept : out.meta.dealer_pk_hex ≡ env.meta.dealer_pk_hex =
      ap (λ (o : ShareEnvelope). o.meta.dealer_pk_hex) s.shape in
    let same : compute_demo_sigma_hex out out.meta.dealer_pk_hex ≡ ok s.sigma =
      ap (compute_demo_sigma_hex out) pk_kept
      ∙ ap (λ (o : ShareEnvelope). compute_demo_sigma_hex o env.meta.dealer_pk_hex) s.shape
      ∙ compute_demo_sigma_hex-proof env _ env.meta.dealer_pk_hex
      ∙ s.computed in
    verify-signature out basic
    ∙ verify_signature-valid out s.sigma
        (ap (λ (o : ShareEnvelope). o.dealer_proof.sig_alg) s.shape
          ∙ keep env.dealer_proof.sig_alg alg)
        (ap is_empty pk_kept ∙ pk) same
        (ap (λ (o : ShareEnvelope). o.dealer_proof.sigma_hex) s.shape)
  where
    keep : (a : Str) → a ≡ demo_sig_alg → (if is_empty a then demo_sig_alg else a) ≡ demo_sig_alg
    keep [] h = refl
    keep (c ∷ a) h = h
