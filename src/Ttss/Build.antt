-- ===== src/Ttss/Build.antt =====
-- One envelope of the setup: what `build_envelope` puts into it, and that it verifies once it is
-- signed.
use did_vc.Base.{
  ℕ, ◌+◌, ◌≤◌, Str, codes, is_empty, Bool, true, false, if◌then◌else◌, List, [], ◌∷◌, ok, ◌>>=◌,
  ◌≡◌, refl, sym, subst, arith, bind-ok, inr, to_decimal,
}
use did_vc.Hex.{normalize_digest_hex32}
use did_vc.Hex.Shape.{IsHexText, is_hex_string-IsHexText}
use did_vc.Hex.Digest.{
  IsDigest, HexForm, IsDigest-is_hex_string, HexForm-is_hex_string, normalize_digest_hex32-ok,
}
use did_vc.Sha256.{sha256_joined_hex}
use did_vc.Sha256.Bounds.{sha256_joined_hex-IsDigest}
use did_vc.Encode.{pack_y_chunks_hex, field_to_hex32, normalize_field_hex_bn254}
use did_vc.Encode.Element.{field_to_hex32-IsDigest}
use did_vc.Envelope.{
  ShareEnvelope, valid, demo_sig_alg, scheme_nits_shamir_v1, secret_type_srec_seed,
  sign_share_envelope_demo, basic_validate_share_envelope, verify_share_envelope_demo,
}
use did_vc.Envelope.Normal.{IsNormal}
use did_vc.Envelope.Checks.{IsWellFormed, OptionalHex, basic_validate-IsWellFormed}
use did_vc.Envelope.Sign.{sign-IsSigned, verify-sign, compute_demo_sigma_hex-IsDigest}
use did_vc.Ttss.{SetupArgs, compute_ui_hex_from_x, compute_tag_hex, build_envelope, guardian_name}
use did_vc.Ttss.Collect.{values_at}

-- What `build_envelope` puts into the envelope of the guardian `i + 1` at the place `x`.
pub record IsBuilt (a : SetupArgs) (coeffs : List (List ℕ)) (i x : ℕ) (env : ShareEnvelope)
    : Type 0 where
  pub packed : pack_y_chunks_hex (values_at coeffs x) ≡ ok env.share.yi_hex
  pub place : env.share.xi_hex ≡ field_to_hex32 x
  pub scheme : env.scheme ≡ scheme_nits_shamir_v1
  pub id_hash : normalize_digest_hex32 a.id_hash ≡ ok env.id_hash
  pub index : env.guardian_index ≡ i + 1
  pub n : env.n ≡ a.n
  pub t : env.t ≡ a.t
  pub ver : env.ver ≡ a.ver
  pub epoch : env.epoch ≡ a.epoch
  pub secret : env.secret_type ≡ secret_type_srec_seed
  pub is_active : env.active ≡ true
  pub alg : env.dealer_proof.sig_alg ≡ demo_sig_alg
  pub ui : IsDigest env.ui_hex
  pub tag : IsDigest env.tag_hex
  pub guardian_set : IsDigest env.meta.guardian_set_hash
  pub dealer_pk : IsDigest env.meta.dealer_pk_hex
  pub rho : IsDigest env.meta.rho_commit_hex

pub compute_ui-IsDigest : (xi ui : Str) → compute_ui_hex_from_x xi ≡ ok ui → IsDigest ui
unfolding compute_ui_hex_from_x
compute_ui-IsDigest xi ui h =
    let (norm, _, e) =
      bind-ok (normalize_field_hex_bn254 xi)
        (λ norm. ok (sha256_joined_hex (codes "NITS-UI" ∷ norm ∷ []))) h in
    let same : sha256_joined_hex (codes "NITS-UI" ∷ norm ∷ []) ≡ ui = cc in
    subst IsDigest same (sha256_joined_hex-IsDigest (codes "NITS-UI" ∷ norm ∷ []))

compute_tag-IsDigest :
    (idh : Str) (ver epoch i : ℕ) (ui tag : Str)
    → compute_tag_hex idh ver epoch i ui ≡ ok tag
    → IsDigest tag
unfolding compute_tag_hex
compute_tag-IsDigest idh ver epoch i ui tag h =
    let parts = λ (a : Str) (b : Str).
      codes "TTSS-TAG" ∷ a ∷ to_decimal ver ∷ to_decimal epoch ∷ to_decimal i ∷ b ∷ [] in
    let (a, _, e) =
      bind-ok (normalize_digest_hex32 idh)
        (λ a. normalize_digest_hex32 ui >>= λ b. ok (sha256_joined_hex (parts a b))) h in
    let (b, _, k) =
      bind-ok (normalize_digest_hex32 ui) (λ b. ok (sha256_joined_hex (parts a b))) e in
    let same : sha256_joined_hex (parts a b) ≡ tag = cc in
    subst IsDigest same (sha256_joined_hex-IsDigest (parts a b))

optional_IsDigest :
    (b : Bool) (parts : List Str) (s out : Str)
    → (if b then ok (sha256_joined_hex parts) else normalize_digest_hex32 s) ≡ ok out
    → IsDigest out
optional_IsDigest true parts s out h =
    let same : sha256_joined_hex parts ≡ out = cc in
    subst IsDigest same (sha256_joined_hex-IsDigest parts)
optional_IsDigest false parts s out h = normalize_digest_hex32-ok s out h

either_IsDigest :
    (b : Bool) (s t out : Str)
    → (if b then normalize_digest_hex32 s else normalize_digest_hex32 t) ≡ ok out
    → IsDigest out
either_IsDigest true s t out h = normalize_digest_hex32-ok s out h
either_IsDigest false s t out h = normalize_digest_hex32-ok t out h

pub build_envelope-IsBuilt :
    (a : SetupArgs) (rho : Str) (coeffs : List (List ℕ)) (i x : ℕ) (env : ShareEnvelope)
    → IsDigest rho
    → build_envelope a rho coeffs i x ≡ ok env
    → IsBuilt a coeffs i x env
unfolding build_envelope
build_envelope-IsBuilt a rho coeffs i x env hr h =
    let (yi, packed, h1) = bind-ok (pack_y_chunks_hex (values_at coeffs x)) _ h in
    let (ui, got_ui, h2) = bind-ok (compute_ui_hex_from_x (field_to_hex32 x)) _ h1 in
    let (idh, got_id, h3) = bind-ok (normalize_digest_hex32 a.id_hash) _ h2 in
    let (tag, got_tag, h4) = bind-ok (compute_tag_hex a.id_hash a.ver a.epoch (i + 1) ui) _ h3 in
    let (gset, got_set, h5) =
      bind-ok
        (if is_empty a.guardian_set_hash
          then ok (sha256_joined_hex (codes "TTSS-GSET" ∷ to_decimal a.n ∷ a.id ∷ []))
          else normalize_digest_hex32 a.guardian_set_hash)
        _ h4 in
    let (pk, got_pk, h6) =
      bind-ok
        (if is_empty a.dealer_pk_hex
          then normalize_digest_hex32 a.dealer_attestation_key_hex
          else normalize_digest_hex32 a.dealer_pk_hex)
        _ h5 in
    let made : ShareEnvelope = record {
      scheme = scheme_nits_shamir_v1;
      id = a.id;
      id_hash = idh;
      guardian_index = i + 1;
      guardian_id = guardian_name a i;
      n = a.n;
      t = a.t;
      ver = a.ver;
      epoch = a.epoch;
      secret_type = secret_type_srec_seed;
      share = record { xi_hex = field_to_hex32 x; yi_hex = yi };
      ui_hex = ui;
      tag_hex = tag;
      dealer_proof = record { sig_alg = demo_sig_alg; sigma_hex = [] };
      meta = record {
        vk_set_hash = [];
        guardian_set_hash = gset;
        dealer_pk_hex = pk;
        rho_commit_hex = rho;
        issued_at = a.issued_at;
        expires_at = a.expires_at;
      };
      active = true;
    } in
    let same : made ≡ env = cc in
    subst (IsBuilt a coeffs i x) same (record {
      packed = packed;
      place = refl;
      scheme = refl;
      id_hash = got_id;
      index = refl;
      n = refl;
      t = refl;
      ver = refl;
      epoch = refl;
      secret = refl;
      is_active = refl;
      alg = refl;
      ui = compute_ui-IsDigest (field_to_hex32 x) ui got_ui;
      tag = compute_tag-IsDigest a.id_hash a.ver a.epoch (i + 1) ui tag got_tag;
      guardian_set = optional_IsDigest (is_empty a.guardian_set_hash) _ _ gset got_set;
      dealer_pk = either_IsDigest (is_empty a.dealer_pk_hex) _ _ pk got_pk;
      rho = hr;
    })

digest_text : (s : Str) → IsDigest s → IsHexText s
digest_text s d = is_hex_string-IsHexText s (IsDigest-is_hex_string s d).0

digest_optional : (s : Str) → IsDigest s → OptionalHex s
digest_optional s d = inr (digest_text s d)

-- The set hash is filled in before the envelope is signed.
abbrev pub filled : Str → ShareEnvelope → ShareEnvelope
filled vk_set_hash env = record env { meta = record env.meta { vk_set_hash = vk_set_hash } }

-- An envelope as the setup hands it out.
pub record IsIssued (a : SetupArgs) (coeffs : List (List ℕ)) (i x : ℕ) (out : ShareEnvelope)
    : Type 0 where
  pub verified : verify_share_envelope_demo out ≡ ok valid
  pub packed : pack_y_chunks_hex (values_at coeffs x) ≡ ok out.share.yi_hex
  pub place : out.share.xi_hex ≡ field_to_hex32 x
  pub scheme : out.scheme ≡ scheme_nits_shamir_v1
  pub id_hash : normalize_digest_hex32 a.id_hash ≡ ok out.id_hash
  pub index : out.guardian_index ≡ i + 1
  pub n : out.n ≡ a.n
  pub t : out.t ≡ a.t
  pub ver : out.ver ≡ a.ver
  pub epoch : out.epoch ≡ a.epoch
  pub secret : out.secret_type ≡ secret_type_srec_seed
  pub is_active : out.active ≡ true
  pub checks : basic_validate_share_envelope out ≡ valid
  pub normal : IsNormal out

module _ (a : SetupArgs) (hn : 2 ≤ a.n) (ht : 2 ≤ a.t) (hle : a.t ≤ a.n) where
  -- With its signature in place a built envelope is well-formed.
  signed-IsWellFormed :
      (coeffs : List (List ℕ)) (i x : ℕ) (env : ShareEnvelope) (vk alg sigma : Str)
      → IsBuilt a coeffs i x env
      → HexForm env.share.yi_hex
      → IsDigest vk
      → IsDigest sigma
      → IsWellFormed
          (record (filled vk env) { dealer_proof = record { sig_alg = alg; sigma_hex = sigma } })
  signed-IsWellFormed coeffs i x env vk alg sigma b yi hvk hs =
      let idh = normalize_digest_hex32-ok a.id_hash env.id_hash b.id_hash in
      let xi : IsDigest env.share.xi_hex = rw b.place (field_to_hex32-IsDigest x) in
      record {
        scheme = b.scheme;
        id_hex = digest_text _ idh;
        index_pos = omega (arith, b.index);
        n_two = omega (arith, b.n);
        t_two = omega (arith, b.t);
        t_le_n = omega (arith, b.n, b.t);
        secret = b.secret;
        xi_hex = digest_text _ xi;
        yi_hex = is_hex_string-IsHexText _ (HexForm-is_hex_string _ yi).0;
        ui_hex = digest_text _ b.ui;
        tag_hex = digest_text _ b.tag;
        sigma_hex = digest_text _ hs;
        vk_set = digest_optional _ hvk;
        guardian_set = digest_optional _ b.guardian_set;
        dealer_pk = digest_optional _ b.dealer_pk;
        rho_commit = digest_optional _ b.rho;
      }

  -- The fields of a signed envelope are in normal form.
  signed-IsNormal :
      (coeffs : List (List ℕ)) (i x : ℕ) (env : ShareEnvelope) (vk alg sigma : Str)
      → IsBuilt a coeffs i x env
      → HexForm env.share.yi_hex
      → IsDigest vk
      → IsDigest sigma
      → IsNormal
          (record (filled vk env) { dealer_proof = record { sig_alg = alg; sigma_hex = sigma } })
  signed-IsNormal coeffs i x env vk alg sigma b yi hvk hs = record {
    id_hash = normalize_digest_hex32-ok a.id_hash env.id_hash b.id_hash;
    xi = rw b.place (field_to_hex32-IsDigest x);
    yi = yi;
    ui = b.ui;
    tag = b.tag;
    sigma = hs;
    vk_set = hvk;
    guardian_set = b.guardian_set;
    dealer_pk = b.dealer_pk;
    rho_commit = b.rho;
  }

  -- A built envelope that is signed is one that the setup may hand out.
  pub sign-IsIssued :
      (coeffs : List (List ℕ)) (i x : ℕ) (env : ShareEnvelope) (vk : Str) (out : ShareEnvelope)
      → IsBuilt a coeffs i x env
      → HexForm env.share.yi_hex
      → IsDigest vk
      → sign_share_envelope_demo (filled vk env) env.meta.dealer_pk_hex ≡ ok out
      → IsIssued a coeffs i x out
  sign-IsIssued coeffs i x env vk out b yi hvk signed =
      let s = sign-IsSigned (filled vk env) env.meta.dealer_pk_hex out signed in
      let sigma =
        compute_demo_sigma_hex-IsDigest (filled vk env) env.meta.dealer_pk_hex s.sigma s.computed in
      let formed : IsWellFormed out =
        subst IsWellFormed (sym s.shape)
          (signed-IsWellFormed coeffs i x env vk _ s.sigma b yi hvk sigma) in
      record {
        verified =
            verify-sign (filled vk env) out b.alg (IsDigest-is_hex_string _ b.dealer_pk).1 signed
              (basic_validate-IsWellFormed out formed);
        packed = rw s.shape b.packed;
        place = rw s.shape b.place;
        scheme = rw s.shape b.scheme;
        id_hash = rw s.shape b.id_hash;
        index = rw s.shape b.index;
        n = rw s.shape b.n;
        t = rw s.shape b.t;
        ver = rw s.shape b.ver;
        epoch = rw s.shape b.epoch;
        secret = rw s.shape b.secret;
        is_active = rw s.shape b.is_active;
        checks = basic_validate-IsWellFormed out formed;
        normal =
            subst IsNormal (sym s.shape)
              (signed-IsNormal coeffs i x env vk _ s.sigma b yi hvk sigma);
      }
