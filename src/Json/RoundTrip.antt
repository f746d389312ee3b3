-- ===== src/Json/RoundTrip.antt =====
-- An envelope survives its way through JSON.
use did_vc.Base.{
  ℕ, Str, codes, str_eq, Bool, true, ltb, ◌≤◌, List, [], ◌∷◌, some, ok, ◌≡◌, refl, ◌∙◌, arith,
  if◌then◌else◌, ◌>>=◌,
}
use did_vc.Envelope.{
  ShareEnvelope, valid, scheme_nits_shamir_v1, secret_type_srec_seed, demo_sig_alg,
  basic_validate_share_envelope, normalized_fields,
}
use did_vc.Json.Interface.{JsonLib, lookup}
use did_vc.Json.{
  json_object_field, json_string_field, json_u64_field, json_u32_field, json_bool_field,
  read_envelope, parse_share_envelope_from_njson, share_envelope_from_njson,
  share_envelope_to_njson, envelope_members, share_members, proof_members, meta_members,
}

-- The 32-bit fields are in range.
pub record FitsU32 (env : ShareEnvelope) : Type 0 where
  pub guardian_index : env.guardian_index ≤ 0xFFFFFFFF
  pub n : env.n ≤ 0xFFFFFFFF
  pub t : env.t ≤ 0xFFFFFFFF

module _ (lib : JsonLib) where
  open lib use {
    Value, member, make_object, make_string, make_number, make_boolean, kind-make_object,
    member-make_object, kind-make_string, kind-make_number, kind-make_boolean,
  }

  json_object_field-make_object :
      (members : List (Str × Value)) (key : Str) (v : Value)
      → lookup key members ≡ some v
      → json_object_field lib (make_object members) key ≡ some v
  unfolding json_object_field
  json_object_field-make_object members key v h =
      rw (kind-make_object members) (member-make_object members key ∙ h)

  json_string_field-make_object :
      (members : List (Str × Value)) (key s def : Str)
      → lookup key members ≡ some (make_string s)
      → json_string_field lib (make_object members) key def ≡ s
  unfolding json_string_field
  json_string_field-make_object members key s def h =
      rw (json_object_field-make_object members key (make_string s) h, kind-make_string s) refl

  json_u64_field-make_object :
      (members : List (Str × Value)) (key : Str) (n def : ℕ)
      → lookup key members ≡ some (make_number n)
      → json_u64_field lib (make_object members) key def ≡ n
  unfolding json_u64_field
  json_u64_field-make_object members key n def h =
      rw (json_object_field-make_object members key (make_number n) h, kind-make_number n) refl

  json_u32_field-make_object :
      (members : List (Str × Value)) (key : Str) (n def : ℕ)
      → lookup key members ≡ some (make_number n)
      → n ≤ 0xFFFFFFFF
      → json_u32_field lib (make_object members) key def ≡ n
  unfolding json_u32_field
  json_u32_field-make_object members key n def h le =
      rw (json_u64_field-make_object members key n def h) (fits n def le)
    where
      fits : (n def : ℕ) → n ≤ 0xFFFFFFFF → (if ltb 0xFFFFFFFF n then def else n) ≡ n
      fits n def le = ground arith

  json_bool_field-make_object :
      (members : List (Str × Value)) (key : Str) (b def : Bool)
      → lookup key members ≡ some (make_boolean b)
      → json_bool_field lib (make_object members) key def ≡ b
  unfolding json_bool_field
  json_bool_field-make_object members key b def h =
      rw (json_object_field-make_object members key (make_boolean b) h, kind-make_boolean b) refl

  -- The object of an envelope is read as that envelope.
  read_envelope-make_object :
      (env : ShareEnvelope)
      → FitsU32 env
      → read_envelope lib (make_object (envelope_members lib env)) ≡ env
  unfolding read_envelope str_eq
  read_envelope-make_object env fits =
      let m = envelope_members lib env in
      let share =
        json_object_field-make_object m (codes "share") (make_object (share_members lib env))
          refl in
      let trace =
        json_object_field-make_object m (codes "traceBinding")
          (make_object ((codes "uiHex", make_string env.ui_hex) ∷ [])) refl in
      let tag =
        json_object_field-make_object m (codes "tag")
          (make_object ((codes "tagHex", make_string env.tag_hex) ∷ [])) refl in
      let proof =
        json_object_field-make_object m (codes "dealerProof") (make_object (proof_members lib env))
          refl in
      let meta =
        json_object_field-make_object m (codes "meta") (make_object (meta_members lib env)) refl in
      rw
        (
          json_string_field-make_object m (codes "scheme") env.scheme scheme_nits_shamir_v1 refl,
          json_string_field-make_object m (codes "id") env.id [] refl,
          json_string_field-make_object m (codes "idHash") env.id_hash [] refl,
          json_u32_field-make_object m (codes "guardianIndex") env.guardian_index 0 refl
              fits.guardian_index,
          json_string_field-make_object m (codes "guardianId") env.guardian_id [] refl,
          json_u32_field-make_object m (codes "n") env.n 0 refl fits.n,
          json_u32_field-make_object m (codes "t") env.t 0 refl fits.t,
          json_u64_field-make_object m (codes "ver") env.ver 0 refl,
          json_u64_field-make_object m (codes "epoch") env.epoch 0 refl,
          json_string_field-make_object m (codes "secretType") env.secret_type secret_type_srec_seed
              refl,
          json_bool_field-make_object m (codes "active") env.active true refl,
          share,
          trace,
          tag,
          proof,
          meta,
          json_string_field-make_object (share_members lib env) (codes "xiHex") env.share.xi_hex []
              refl,
          json_string_field-make_object (share_members lib env) (codes "yiHex") env.share.yi_hex []
              refl,
          json_string_field-make_object ((codes "uiHex", make_string env.ui_hex) ∷ [])
              (codes "uiHex") env.ui_hex [] refl,
          json_string_field-make_object ((codes "tagHex", make_string env.tag_hex) ∷ [])
              (codes "tagHex") env.tag_hex [] refl,
          json_string_field-make_object (proof_members lib env) (codes "sigAlg")
              env.dealer_proof.sig_alg demo_sig_alg refl,
          json_string_field-make_object (proof_members lib env) (codes "sigmaHex")
              env.dealer_proof.sigma_hex [] refl,
          json_string_field-make_object (meta_members lib env) (codes "vkSetHash")
              env.meta.vk_set_hash [] refl,
          json_string_field-make_object (meta_members lib env) (codes "guardianSetHash")
              env.meta.guardian_set_hash [] refl,
          json_string_field-make_object (meta_members lib env) (codes "dealerPkHex")
              env.meta.dealer_pk_hex [] refl,
          json_string_field-make_object (meta_members lib env) (codes "rhoCommitHex")
              env.meta.rho_commit_hex [] refl,
          json_u64_field-make_object (meta_members lib env) (codes "issuedAt") env.meta.issued_at 0
              refl,
          json_u64_field-make_object (meta_members lib env) (codes "expiresAt") env.meta.expires_at
              0 refl,
        )
        refl

  pub parse-make_object :
      (env : ShareEnvelope)
      → basic_validate_share_envelope env ≡ valid
      → FitsU32 env
      → parse_share_envelope_from_njson lib (make_object (envelope_members lib env)) ≡ ok env
  unfolding parse_share_envelope_from_njson
  parse-make_object env checks fits =
      rw (kind-make_object (envelope_members lib env), read_envelope-make_object env fits, checks)
        refl

  -- An envelope whose normalised fields pass the basic checks, with the 32-bit ones in range, is read
  -- from its JSON form with these fields.
  pub share_envelope_from_njson-to_njson :
      (env wire : ShareEnvelope)
      → normalized_fields env ≡ ok wire
      → basic_validate_share_envelope wire ≡ valid
      → FitsU32 wire
      → (share_envelope_to_njson lib env >>= share_envelope_from_njson lib) ≡ ok wire
  unfolding share_envelope_to_njson share_envelope_from_njson
  share_envelope_from_njson-to_njson env wire fields checks fits =
      rw (fields, parse-make_object wire checks fits) refl
