-- ===== src/Envelope/Normal.antt =====
-- Envelopes whose hexadecimal fields are in normal form; their JSON form has the same fields.
use did_vc.Base.{Str, is_empty, false, ok, ◌≡◌, refl}
use did_vc.Hex.Digest.{IsDigest, HexForm, ensure_0x_hex-HexForm, normalize_digest_hex32-IsDigest}
use did_vc.Envelope.{ShareEnvelope, normalized_optional_digest, normalized_fields}

pub record IsNormal (env : ShareEnvelope) : Type 0 where
  pub id_hash : IsDigest env.id_hash
  pub xi : IsDigest env.share.xi_hex
  pub yi : HexForm env.share.yi_hex
  pub ui : IsDigest env.ui_hex
  pub tag : IsDigest env.tag_hex
  pub sigma : IsDigest env.dealer_proof.sigma_hex
  pub vk_set : IsDigest env.meta.vk_set_hash
  pub guardian_set : IsDigest env.meta.guardian_set_hash
  pub dealer_pk : IsDigest env.meta.dealer_pk_hex
  pub rho_commit : IsDigest env.meta.rho_commit_hex

pub normalized_optional_digest-IsDigest :
    (s : Str) → IsDigest s → normalized_optional_digest s ≡ ok s
unfolding normalized_optional_digest
normalized_optional_digest-IsDigest s d =
    let some_digit : is_empty s ≡ false = rw d.form refl in
    rw some_digit (normalize_digest_hex32-IsDigest s d)

-- Normalising the fields of an envelope in normal form changes nothing.
pub normalized_fields-IsNormal :
    (env : ShareEnvelope) → IsNormal env → normalized_fields env ≡ ok env
unfolding normalized_fields
normalized_fields-IsNormal env d =
    rw
      (
        normalize_digest_hex32-IsDigest _ d.id_hash,
        normalize_digest_hex32-IsDigest _ d.xi,
        ensure_0x_hex-HexForm _ d.yi,
        normalize_digest_hex32-IsDigest _ d.ui,
        normalize_digest_hex32-IsDigest _ d.tag,
        normalize_digest_hex32-IsDigest _ d.sigma,
        normalized_optional_digest-IsDigest _ d.vk_set,
        normalized_optional_digest-IsDigest _ d.guardian_set,
        normalized_optional_digest-IsDigest _ d.dealer_pk,
        normalized_optional_digest-IsDigest _ d.rho_commit,
      )
      refl
