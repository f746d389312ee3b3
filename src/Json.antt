-- ===== src/Json.antt =====
-- The readers of cpp/json_utils.cpp, and the JSON form of a share envelope of cpp/share_envelope.cpp.
-- The library nlohmann::json is a parameter: a record of the operations that the code calls, with the
-- documented behaviour of objects and scalars as its laws.
pub mod Interface
pub mod RoundTrip
pub mod Sample
mod Tests
use did_vc.Base.{
  ℕ, zero, suc, ◌+◌, ◌-◌, ◌*◌, ◌^◌, ◌%◌, Str, codes, is_empty, Bool, true, false, not, ◌&&◌, ltb,
  leb, ◌==◌, if◌then◌else◌, List, [], ◌∷◌, ◌++◌, Option, none, some, Result, ok, err, ◌>>=◌,
}
use did_vc.Text.{trim_front, parse_boolish}
use did_vc.Envelope.{
  ShareEnvelope, Verdict, valid, invalid, scheme_nits_shamir_v1, secret_type_srec_seed,
  demo_sig_alg, basic_validate_share_envelope, normalized_fields,
}
use did_vc.Json.Interface.{
  JsonLib, Kind, null, string, boolean, unsigned, integer, float, array, object,
}

abbrev pub is_digit_code : ℕ → Bool
is_digit_code c = leb b'0' c && leb c b'9'

-- The digits at the front, in base 10, behind `v`.
unfoldable pub leading_digits : Str → ℕ → ℕ
leading_digits [] v = v
leading_digits (c ∷ cs) v =
    let rest = leading_digits cs (v * 10 + (c - b'0')) in if is_digit_code c then rest else v

-- A value of 64 bits that a sign may negate; a larger one is out of range.
abbrev pub in_u64 : Bool → ℕ → Option ℕ
in_u64 negative v =
    if ltb 0xFFFFFFFFFFFFFFFF v then none else some (if negative then (2 ^ 64 - v) % 2 ^ 64 else v)

-- Behind the sign; without a digit there is no value.
unfoldable pub unsigned_digits : Bool → Str → Option ℕ
unsigned_digits negative [] = none
unsigned_digits negative (c ∷ cs) =
    if is_digit_code c then in_u64 negative (leading_digits (c ∷ cs) 0) else none

unfoldable pub signed_digits : Str → Option ℕ
signed_digits [] = none
signed_digits (c ∷ cs) =
    if c == b'-'
    then unsigned_digits true cs
    else if c == b'+'
    then unsigned_digits false cs
    else unsigned_digits false (c ∷ cs)

-- `std::stoull`; `none` for its exceptions.
unfoldable pub stoull : Str → Option ℕ
stoull s = signed_digits (trim_front s)

abbrev pub value_or : Option ℕ → ℕ → ℕ
value_or none def = def
value_or (some v) def = v

module _ (lib : JsonLib) where
  open lib use {Value, kind, member, dump, print_float, is_nonzero}

  abbrev pub is_object : Kind → Bool
  is_object object = true
  is_object _ = false

  unfoldable pub json_object_field : Value → Str → Option Value
  json_object_field v key = if is_object (kind v) then member v key else none

  abbrev pub text_of : Kind → Value → Str → Str
  text_of (string s) p def = s
  text_of (boolean b) p def = if b then codes "true" else codes "false"
  text_of (unsigned n) p def = dump p
  text_of (integer s n) p def = dump p
  text_of float p def = print_float p
  text_of null p def = def
  text_of array p def = def
  text_of object p def = def

  abbrev pub text_or : Option Value → Str → Str
  text_or none def = def
  text_or (some p) def = text_of (kind p) p def

  unfoldable pub json_string_field : Value → Str → Str → Str
  json_string_field v key def = text_or (json_object_field v key) def

  -- A signed number that is negative gives the default.
  abbrev pub number_of : Kind → ℕ → ℕ
  number_of (unsigned n) def = n
  number_of (integer negative n) def = if negative then def else n
  number_of (string s) def = if is_empty s then def else value_or (stoull s) def
  number_of (boolean b) def = def
  number_of float def = def
  number_of null def = def
  number_of array def = def
  number_of object def = def

  abbrev pub number_or : Option Value → ℕ → ℕ
  number_or none def = def
  number_or (some p) def = number_of (kind p) def

  unfoldable pub json_u64_field : Value → Str → ℕ → ℕ
  json_u64_field v key def = number_or (json_object_field v key) def

  unfoldable pub json_u32_field : Value → Str → ℕ → ℕ
  json_u32_field v key def =
      let value = json_u64_field v key def in if ltb 0xFFFFFFFF value then def else value

  abbrev pub bool_of : Kind → Value → Bool → Bool
  bool_of (boolean b) p def = b
  bool_of (unsigned n) p def = is_nonzero p
  bool_of (integer s n) p def = is_nonzero p
  bool_of float p def = is_nonzero p
  bool_of (string s) p def = parse_boolish s def
  bool_of null p def = def
  bool_of array p def = def
  bool_of object p def = def

  abbrev pub bool_or : Option Value → Bool → Bool
  bool_or none def = def
  bool_or (some p) def = bool_of (kind p) p def

  unfoldable pub json_bool_field : Value → Str → Bool → Bool
  json_bool_field v key def = bool_or (json_object_field v key) def

  -- A field of an object that may be missing; then the member keeps the value it starts with.
  abbrev pub text_within : Option Value → Str → Str → Str
  text_within none key def = def
  text_within (some v) key def = json_string_field v key def

  abbrev pub number_within : Option Value → Str → ℕ → ℕ
  number_within none key def = def
  number_within (some v) key def = json_u64_field v key def

  -- The assignments of `parse_share_envelope_from_njson`.
  unfoldable pub read_envelope : Value → ShareEnvelope
  read_envelope j =
      let share = json_object_field j (codes "share") in
      let trace = json_object_field j (codes "traceBinding") in
      let tag = json_object_field j (codes "tag") in
      let proof = json_object_field j (codes "dealerProof") in
      let meta = json_object_field j (codes "meta") in
      record {
        scheme = json_string_field j (codes "scheme") scheme_nits_shamir_v1;
        id = json_string_field j (codes "id") [];
        id_hash = json_string_field j (codes "idHash") [];
        guardian_index = json_u32_field j (codes "guardianIndex") 0;
        guardian_id = json_string_field j (codes "guardianId") [];
        n = json_u32_field j (codes "n") 0;
        t = json_u32_field j (codes "t") 0;
        ver = json_u64_field j (codes "ver") 0;
        epoch = json_u64_field j (codes "epoch") 0;
        secret_type = json_string_field j (codes "secretType") secret_type_srec_seed;
        share = record {
          xi_hex = text_within share (codes "xiHex") [];
          yi_hex = text_within share (codes "yiHex") [];
        };
        ui_hex = text_within trace (codes "uiHex") [];
        tag_hex = text_within tag (codes "tagHex") [];
        dealer_proof = record {
          sig_alg = text_within proof (codes "sigAlg") demo_sig_alg;
          sigma_hex = text_within proof (codes "sigmaHex") [];
        };
        meta = record {
          vk_set_hash = text_within meta (codes "vkSetHash") [];
          guardian_set_hash = text_within meta (codes "guardianSetHash") [];
          dealer_pk_hex = text_within meta (codes "dealerPkHex") [];
          rho_commit_hex = text_within meta (codes "rhoCommitHex") [];
          issued_at = number_within meta (codes "issuedAt") 0;
          expires_at = number_within meta (codes "expiresAt") 0;
        };
        active = json_bool_field j (codes "active") true;
      }

  abbrev pub accept : Verdict → ShareEnvelope → Result ShareEnvelope
  accept valid env = ok env
  accept (invalid e) env = err e

  -- `err` holds the reason; the caller's pointers are never null.
  unfoldable pub parse_share_envelope_from_njson : Value → Result ShareEnvelope
  parse_share_envelope_from_njson j =
      if not (is_object (kind j))
      then err (codes "share_envelope_not_object")
      else accept (basic_validate_share_envelope (read_envelope j)) (read_envelope j)

  abbrev pub or_throw : Result ShareEnvelope → Result ShareEnvelope
  or_throw (ok env) = ok env
  or_throw (err e) = err (codes "bad_share_envelope_json: " ++ e)

  unfoldable pub share_envelope_from_njson : Value → Result ShareEnvelope
  share_envelope_from_njson j = or_throw (parse_share_envelope_from_njson j)

  open lib use {make_object, make_string, make_number, make_boolean}

  abbrev pub share_members : ShareEnvelope → List (Str × Value)
  share_members env =
      (codes "xiHex", make_string env.share.xi_hex)
      ∷ (codes "yiHex", make_string env.share.yi_hex)
      ∷ []

  abbrev pub proof_members : ShareEnvelope → List (Str × Value)
  proof_members env =
      (codes "sigAlg", make_string env.dealer_proof.sig_alg)
      ∷ (codes "sigmaHex", make_string env.dealer_proof.sigma_hex)
      ∷ []

  abbrev pub meta_members : ShareEnvelope → List (Str × Value)
  meta_members env =
      (codes "vkSetHash", make_string env.meta.vk_set_hash)
      ∷ (codes "guardianSetHash", make_string env.meta.guardian_set_hash)
      ∷ (codes "dealerPkHex", make_string env.meta.dealer_pk_hex)
      ∷ (codes "rhoCommitHex", make_string env.meta.rho_commit_hex)
      ∷ (codes "issuedAt", make_number env.meta.issued_at)
      ∷ (codes "expiresAt", make_number env.meta.expires_at)
      ∷ []

  -- The members of the object, when the fields are normalised.
  abbrev pub envelope_members : ShareEnvelope → List (Str × Value)
  envelope_members env =
      (codes "scheme", make_string env.scheme)
      ∷ (codes "id", make_string env.id)
      ∷ (codes "idHash", make_string env.id_hash)
      ∷ (codes "guardianIndex", make_number env.guardian_index)
      ∷ (codes "guardianId", make_string env.guardian_id)
      ∷ (codes "n", make_number env.n)
      ∷ (codes "t", make_number env.t)
      ∷ (codes "ver", make_number env.ver)
      ∷ (codes "epoch", make_number env.epoch)
      ∷ (codes "secretType", make_string env.secret_type)
      ∷ (codes "share", make_object (share_members env))
      ∷ (codes "traceBinding", make_object ((codes "uiHex", make_string env.ui_hex) ∷ []))
      ∷ (codes "tag", make_object ((codes "tagHex", make_string env.tag_hex) ∷ []))
      ∷ (codes "dealerProof", make_object (proof_members env))
      ∷ (codes "meta", make_object (meta_members env))
      ∷ (codes "active", make_boolean env.active)
      ∷ []

  unfoldable pub share_envelope_to_njson : ShareEnvelope → Result Value
  share_envelope_to_njson env = do e ← normalized_fields env; ok (make_object (envelope_members e))
