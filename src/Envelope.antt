-- ===== src/Envelope.antt =====
-- Share envelopes: the types of cpp/share_envelope.hpp, and validation, signing and verification of
-- cpp/share_envelope.cpp.
pub mod Checks
pub mod Sign
pub mod Normal
pub mod Sample
mod Tests
use did_vc.Base.{
  ℕ, ◌%◌, Str, codes, str_eq, is_empty, Bool, true, false, not, ◌&&◌, ◌||◌, ltb, ◌==◌,
  if◌then◌else◌, List, [], ◌∷◌, ◌++◌, length, take, drop, Result, ok, err, ◌>>=◌, to_decimal, map,
}
use did_vc.Text.{trim_copy, lower_copy, starts_with}
use did_vc.Hex.{is_hex_string, normalize_digest_hex32, ensure_0x_hex}
use did_vc.Sha256.{sha256_hex, sha256_joined_hex}

-- `kTTSSSchemeNitsShamirV1`, `kTTSSSecretTypeSrecSeed`, `kTTSSDemoSigAlg`.
abbrev pub scheme_nits_shamir_v1 : Str
scheme_nits_shamir_v1 = codes "NITS-Shamir-v1"

abbrev pub secret_type_srec_seed : Str
secret_type_srec_seed = codes "srec_seed"

abbrev pub demo_sig_alg : Str
demo_sig_alg = codes "digest-attestation-v1"

pub record ShareCore : Type 0 where
  pub xi_hex : Str
  pub yi_hex : Str

pub record DealerProof : Type 0 where
  pub sig_alg : Str
  pub sigma_hex : Str

pub record ShareMeta : Type 0 where
  pub vk_set_hash : Str
  pub guardian_set_hash : Str
  pub dealer_pk_hex : Str
  pub rho_commit_hex : Str
  pub issued_at : ℕ
  pub expires_at : ℕ

-- `traceBinding.uiHex` and `tag.tagHex` are the fields `ui_hex` and `tag_hex`.
pub record ShareEnvelope : Type 0 where
  pub scheme : Str
  pub id : Str
  pub id_hash : Str
  pub guardian_index : ℕ
  pub guardian_id : Str
  pub n : ℕ
  pub t : ℕ
  pub ver : ℕ
  pub epoch : ℕ
  pub secret_type : Str
  pub share : ShareCore
  pub ui_hex : Str
  pub tag_hex : Str
  pub dealer_proof : DealerProof
  pub meta : ShareMeta
  pub active : Bool

-- A check that returns a flag and, if it fails, writes a reason.
pub data Verdict : Type 0 where
  valid : Verdict
  invalid : Str → Verdict

-- `if (test) return fail(reason);`, one after another.
unfoldable pub first_failure : List (Bool × Str) → Verdict
first_failure [] = valid
first_failure ((test, reason) ∷ rest) = if test then invalid reason else first_failure rest

unfoldable pub share_key : ShareEnvelope → Str
share_key env =
    env.id_hash
    ++ b':'
      ∷ (to_decimal env.ver
          ++ b':' ∷ (to_decimal env.epoch ++ b':' ∷ to_decimal env.guardian_index))

-- Not hexadecimal, and not empty.
abbrev pub bad_optional_hex : Str → Bool
bad_optional_hex s = not (is_empty s) && not (is_hex_string s false)

abbrev pub basic_checks : ShareEnvelope → List (Bool × Str)
basic_checks env =
    (not (str_eq env.scheme scheme_nits_shamir_v1), codes "bad_scheme")
    ∷ (is_empty env.id_hash || not (is_hex_string env.id_hash false), codes "bad_id_hash")
    ∷ (env.guardian_index == 0, codes "bad_guardian_index")
    ∷ (ltb env.n 2 || ltb env.t 2 || ltb env.n env.t, codes "bad_threshold")
    ∷ (not (str_eq env.secret_type secret_type_srec_seed), codes "bad_secret_type")
    ∷ (is_empty env.share.xi_hex || is_empty env.share.yi_hex, codes "missing_share_core")
    ∷ (
      not (is_hex_string env.share.xi_hex false) || not (is_hex_string env.share.yi_hex false),
      codes "bad_share_hex",
    )
    ∷ (not (is_hex_string env.ui_hex false), codes "bad_ui_hex")
    ∷ (not (is_hex_string env.tag_hex false), codes "bad_tag_hex")
    ∷ (not (is_hex_string env.dealer_proof.sigma_hex false), codes "bad_sigma_hex")
    ∷ (bad_optional_hex env.meta.vk_set_hash, codes "bad_vk_set_hash")
    ∷ (bad_optional_hex env.meta.guardian_set_hash, codes "bad_guardian_set_hash")
    ∷ (bad_optional_hex env.meta.dealer_pk_hex, codes "bad_dealer_pk_hex")
    ∷ (bad_optional_hex env.meta.rho_commit_hex, codes "bad_rho_commit_hex")
    ∷ []

unfoldable pub basic_validate_share_envelope : ShareEnvelope → Verdict
basic_validate_share_envelope env = first_failure (basic_checks env)

-- The local `normalize_any_hex`.
unfoldable pub normalize_any_hex : Str → Str
normalize_any_hex s =
    let v = lower_copy (trim_copy s) in
    let w = if starts_with v (codes "0x") then v else codes "0x" ++ v in
    let body = if is_empty (drop 2 w) then codes "00" else drop 2 w in
    let even = if length body % 2 == 0 then body else b'0' ∷ body in
    if is_empty v then [] else codes "0x" ++ even

unfoldable pub normalized_optional_digest : Str → Result Str
normalized_optional_digest v = if is_empty v then ok [] else normalize_digest_hex32 v

abbrev pub flag : Bool → Str
flag b = if b then codes "1" else codes "0"

unfoldable pub canonical_share_envelope_payload : ShareEnvelope → Result Str
canonical_share_envelope_payload env = do
  id_hash ← normalize_digest_hex32 env.id_hash
  ui ← normalize_digest_hex32 env.ui_hex
  tag ← normalize_digest_hex32 env.tag_hex
  vk_set ← normalized_optional_digest env.meta.vk_set_hash
  guardian_set ← normalized_optional_digest env.meta.guardian_set_hash
  dealer_pk ← normalized_optional_digest env.meta.dealer_pk_hex
  rho_commit ← normalized_optional_digest env.meta.rho_commit_hex
  ok (
      codes "scheme="
      ++ (env.scheme
          ++ (codes "|id="
              ++ (env.id
                  ++ (codes "|idHash="
                      ++ (id_hash
                          ++ (codes "|guardianIndex="
                              ++ (to_decimal env.guardian_index
                                  ++ (codes "|guardianId="
                                      ++ (env.guardian_id
                                          ++ (codes "|n="
                                              ++ (to_decimal env.n
                                                  ++ (codes "|t="
                                                      ++ (to_decimal env.t
                                                          ++ (codes "|ver="
                                                            ++ (to_decimal env.ver
                                                            ++ (codes "|epoch="
                                                            ++ (to_decimal env.epoch
                                                            ++ (codes "|secretType="
                                                            ++ (env.secret_type
                                                            ++ (codes "|xiHex="
                                                            ++ (normalize_any_hex env.share.xi_hex
                                                            ++ (codes "|yiHex="
                                                            ++ (normalize_any_hex env.share.yi_hex
                                                            ++ (codes "|uiHex="
                                                            ++ (ui
                                                            ++ (codes "|tagHex="
                                                            ++ (tag
                                                            ++ (codes "|vkSetHash="
                                                            ++ (vk_set
                                                            ++ (codes "|guardianSetHash="
                                                            ++ (guardian_set
                                                            ++ (codes "|dealerPkHex="
                                                            ++ (dealer_pk
                                                            ++ (codes "|rhoCommitHex="
                                                            ++ (rho_commit
                                                            ++ (codes "|issuedAt="
                                                            ++ (to_decimal env.meta.issued_at
                                                            ++ (codes "|expiresAt="
                                                            ++ (to_decimal env.meta.expires_at
                                                            ++ (codes "|active=" ++ flag env.active)
                                                            ))))))))))))))))))))))))))))))))))))))))

unfoldable pub share_envelope_digest_hex : ShareEnvelope → Result Str
share_envelope_digest_hex env = do
  payload ← canonical_share_envelope_payload env
  ok (sha256_hex payload true)

unfoldable pub compute_demo_sigma_hex : ShareEnvelope → Str → Result Str
compute_demo_sigma_hex env dealer_attestation_key_hex = do
  key_hex ← normalize_digest_hex32 dealer_attestation_key_hex
  digest ← share_envelope_digest_hex env
  ok (sha256_joined_hex (codes "TTSS-SIG" ∷ key_hex ∷ digest ∷ []))

-- The caller's pointer is never null.
unfoldable pub sign_share_envelope_demo : ShareEnvelope → Str → Result ShareEnvelope
sign_share_envelope_demo env dealer_attestation_key_hex = do
  let alg = if is_empty env.dealer_proof.sig_alg then demo_sig_alg else env.dealer_proof.sig_alg
  sigma ← compute_demo_sigma_hex env dealer_attestation_key_hex
  ok (record env { dealer_proof = record { sig_alg = alg; sigma_hex = sigma } })

-- Verification after the basic checks have passed.
unfoldable pub verify_signature : ShareEnvelope → Result Verdict
verify_signature env =
    if not (str_eq env.dealer_proof.sig_alg demo_sig_alg)
    then ok (invalid (codes "unsupported_sig_alg"))
    else if is_empty env.meta.dealer_pk_hex
    then ok (invalid (codes "missing_dealer_pk_hex"))
    else do
      expected ← compute_demo_sigma_hex env env.meta.dealer_pk_hex
      sigma ← normalize_digest_hex32 env.dealer_proof.sigma_hex
      ok (
          if str_eq (lower_copy expected) (lower_copy sigma)
          then valid
          else invalid (codes "sigma_mismatch"))

-- The rest of the verification, behind the basic checks.
abbrev pub after_basic : Verdict → ShareEnvelope → Result Verdict
after_basic (invalid e) env = ok (invalid e)
after_basic valid env = verify_signature env

unfoldable pub verify_share_envelope_demo : ShareEnvelope → Result Verdict
verify_share_envelope_demo env = after_basic (basic_validate_share_envelope env) env

-- The fields of the object that `share_envelope_to_njson` makes, as an envelope.
unfoldable pub normalized_fields : ShareEnvelope → Result ShareEnvelope
normalized_fields env = do
  id_hash ← normalize_digest_hex32 env.id_hash
  xi ← normalize_digest_hex32 env.share.xi_hex
  yi ← ensure_0x_hex env.share.yi_hex
  ui ← normalize_digest_hex32 env.ui_hex
  tag ← normalize_digest_hex32 env.tag_hex
  sigma ← normalize_digest_hex32 env.dealer_proof.sigma_hex
  vk_set ← normalized_optional_digest env.meta.vk_set_hash
  guardian_set ← normalized_optional_digest env.meta.guardian_set_hash
  dealer_pk ← normalized_optional_digest env.meta.dealer_pk_hex
  rho_commit ← normalized_optional_digest env.meta.rho_commit_hex
  ok (record env {
    id_hash = id_hash;
    share = record { xi_hex = xi; yi_hex = yi };
    ui_hex = ui;
    tag_hex = tag;
    dealer_proof = record { sig_alg = env.dealer_proof.sig_alg; sigma_hex = sigma };
    meta = record {
      vk_set_hash = vk_set;
      guardian_set_hash = guardian_set;
      dealer_pk_hex = dealer_pk;
      rho_commit_hex = rho_commit;
      issued_at = env.meta.issued_at;
      expires_at = env.meta.expires_at;
    };
  })
