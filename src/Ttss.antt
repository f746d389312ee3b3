-- ===== src/Ttss.antt =====
-- Share setup of cpp/ttss_nits_shamir.cpp: key entries, tags, coefficients, places and envelopes.
pub mod Recover
pub mod Collect
pub mod Chunks
pub mod Build
pub mod Setup
pub mod Issue
pub mod RoundTrip
mod Taken
mod Used
pub mod Sound
pub mod Sample
mod Tests
use did_vc.Base.{
  ℕ, zero, suc, ◌+◌, ◌-◌, ◌*◌, ◌/◌, ◌%◌, ◌^◌, Str, codes, str_eq, is_empty, Bool, true, false, not,
  ◌&&◌, ◌||◌, ltb, leb, ◌==◌, if◌then◌else◌, List, [], ◌∷◌, ◌++◌, length, get_or, any, map, Option,
  none, some, Result, ok, err, ◌>>=◌, ◌>>◌, to_decimal, require,
}
use did_vc.Hex.{normalize_digest_hex32}
use did_vc.Sha256.{sha256_joined_hex}
use did_vc.Field.{field_mod}
use did_vc.Shamir.{poly_eval}
use did_vc.Encode.{
  hash_parts_to_field, field_to_hex32, normalize_field_hex_bn254, split_seed_hex_to_chunks,
  pack_y_chunks_hex,
}
use did_vc.Envelope.{
  ShareEnvelope, scheme_nits_shamir_v1, secret_type_srec_seed, demo_sig_alg,
  sign_share_envelope_demo,
}

pub record TtssKeyEntry : Type 0 where
  pub guardian_index : ℕ
  pub guardian_id : Str
  pub ui_hex : Str

pub record TtssShareSetupResult : Type 0 where
  pub share_envelopes : List ShareEnvelope
  pub tk : List TtssKeyEntry
  pub vk : List TtssKeyEntry
  pub vk_set_hash : Str
  pub rho_commit_hex : Str

-- The arguments of `ttss_share_nits_shamir`.
pub record SetupArgs : Type 0 where
  pub srec_seed_hex : Str
  pub n : ℕ
  pub t : ℕ
  pub rho_seed_hex : Str
  pub id : Str
  pub id_hash : Str
  pub ver : ℕ
  pub epoch : ℕ
  pub guardian_ids : List Str
  pub guardian_set_hash : Str
  pub dealer_attestation_key_hex : Str
  pub dealer_pk_hex : Str
  pub issued_at : ℕ
  pub expires_at : ℕ

unfoldable pub compute_ui_hex_from_x : Str → Result Str
compute_ui_hex_from_x xi_hex = do
  norm ← normalize_field_hex_bn254 xi_hex
  ok (sha256_joined_hex (codes "NITS-UI" ∷ norm ∷ []))

unfoldable pub compute_tag_hex : Str → ℕ → ℕ → ℕ → Str → Result Str
compute_tag_hex id_hash ver epoch guardian_index ui_hex = do
  idh ← normalize_digest_hex32 id_hash
  ui ← normalize_digest_hex32 ui_hex
  ok (
      sha256_joined_hex (
        codes "TTSS-TAG"
        ∷ idh
        ∷ to_decimal ver
        ∷ to_decimal epoch
        ∷ to_decimal guardian_index
        ∷ ui
        ∷ []))

-- `operator<` of `std::string`, on unsigned bytes.
unfoldable pub str_lt : Str → Str → Bool
str_lt [] [] = false
str_lt [] (y ∷ ys) = true
str_lt (x ∷ xs) [] = false
str_lt (x ∷ xs) (y ∷ ys) = ltb x y || (x == y && str_lt xs ys)

-- `std::sort` on texts. Equal texts are the same text, so any sort gives this list.
unfoldable pub insert_sorted : Str → List Str → List Str
insert_sorted s [] = s ∷ []
insert_sorted s (t ∷ ts) = if str_lt t s then t ∷ insert_sorted s ts else s ∷ t ∷ ts

unfoldable pub sort_texts : List Str → List Str
sort_texts [] = []
sort_texts (s ∷ ss) = insert_sorted s (sort_texts ss)

unfoldable pub canonical_entries : List TtssKeyEntry → Result (List Str)
canonical_entries [] = ok []
canonical_entries (e ∷ entries) = do
  ui ← normalize_digest_hex32 e.ui_hex
  rest ← canonical_entries entries
  ok ((to_decimal e.guardian_index ++ b':' ∷ ui) ∷ rest)

unfoldable pub compute_vk_set_hash : List TtssKeyEntry → Result Str
compute_vk_set_hash vk_entries = do
  canon ← canonical_entries vk_entries
  ok (sha256_joined_hex (sort_texts canon))

unfoldable pub derive_coeff : SetupArgs → ℕ → ℕ → Result ℕ
derive_coeff a chunk_idx degree_k = do
  rho ← normalize_digest_hex32 a.rho_seed_hex
  idh ← normalize_digest_hex32 a.id_hash
  hash_parts_to_field (
      codes "TTSS-COEFF"
      ∷ rho
      ∷ idh
      ∷ to_decimal a.ver
      ∷ to_decimal a.epoch
      ∷ to_decimal chunk_idx
      ∷ to_decimal degree_k
      ∷ [])

-- One round: the candidate for the counter `ctr`.
unfoldable pub candidate_x : SetupArgs → ℕ → Str → ℕ → Result ℕ
candidate_x a guardian_index guardian_id ctr = do
  rho ← normalize_digest_hex32 a.rho_seed_hex
  idh ← normalize_digest_hex32 a.id_hash
  x ← hash_parts_to_field (
      codes "TTSS-X"
      ∷ rho
      ∷ idh
      ∷ to_decimal a.ver
      ∷ to_decimal a.epoch
      ∷ to_decimal guardian_index
      ∷ guardian_id
      ∷ to_decimal ctr
      ∷ [])
  ok (x % (field_mod - 1) + 1)

-- The loop over the counter, with `left` rounds to go.
unfoldable pub distinct_x_loop : ℕ → ℕ → SetupArgs → ℕ → Str → List ℕ → Result ℕ
distinct_x_loop zero ctr a guardian_index guardian_id used_x =
    err (codes "unable_to_derive_distinct_x")
distinct_x_loop (suc left) ctr a guardian_index guardian_id used_x =
    let rest = distinct_x_loop left (suc ctr) a guardian_index guardian_id used_x in
    candidate_x a guardian_index guardian_id ctr >>= λ x.
    if any (λ u. u == x) used_x then rest else ok x

unfoldable pub derive_distinct_x : SetupArgs → ℕ → Str → List ℕ → Result ℕ
derive_distinct_x a guardian_index guardian_id used_x =
    distinct_x_loop 4096 0 a guardian_index guardian_id used_x

-- `coeffs[c][k]` for the `left` degrees from `k` on.
unfoldable pub coeff_row : ℕ → ℕ → SetupArgs → ℕ → Result (List ℕ)
coeff_row zero k a c = ok []
coeff_row (suc left) k a c = do
  x ← derive_coeff a c k
  rest ← coeff_row left (suc k) a c
  ok (x ∷ rest)

-- The rows of all chunks; the constant coefficient is the chunk.
unfoldable pub coeff_rows : List ℕ → ℕ → SetupArgs → Result (List (List ℕ))
coeff_rows [] c a = ok []
coeff_rows (chunk ∷ chunks) c a = do
  row ← coeff_row (a.t - 1) 1 a c
  rest ← coeff_rows chunks (suc c) a
  ok ((chunk ∷ row) ∷ rest)

-- `guardian_ids[i]`, or a made-up name.
unfoldable pub guardian_name : SetupArgs → ℕ → Str
guardian_name a i = elim a.guardian_ids [
  | [] ↦ b'G' ∷ to_decimal (i + 1)
  | g ∷ gs ↦ get_or (g ∷ gs) i []
]

-- The envelope of the guardian with index `i + 1` at the place `x`, not signed yet.
unfoldable pub build_envelope : SetupArgs → Str → List (List ℕ) → ℕ → ℕ → Result ShareEnvelope
build_envelope a rho_commit coeffs i x = do
  yi_hex ← pack_y_chunks_hex (map (λ cs. poly_eval cs x) coeffs)
  ui_hex ← compute_ui_hex_from_x (field_to_hex32 x)
  id_hash ← normalize_digest_hex32 a.id_hash
  tag_hex ← compute_tag_hex a.id_hash a.ver a.epoch (i + 1) ui_hex
  set_hash ←
      if is_empty a.guardian_set_hash
      then ok (sha256_joined_hex (codes "TTSS-GSET" ∷ to_decimal a.n ∷ a.id ∷ []))
      else normalize_digest_hex32 a.guardian_set_hash
  dealer_pk ←
      if is_empty a.dealer_pk_hex
      then normalize_digest_hex32 a.dealer_attestation_key_hex
      else normalize_digest_hex32 a.dealer_pk_hex
  ok (record {
    scheme = scheme_nits_shamir_v1;
    id = a.id;
    id_hash = id_hash;
    guardian_index = i + 1;
    guardian_id = guardian_name a i;
    n = a.n;
    t = a.t;
    ver = a.ver;
    epoch = a.epoch;
    secret_type = secret_type_srec_seed;
    share = record { xi_hex = field_to_hex32 x; yi_hex = yi_hex };
    ui_hex = ui_hex;
    tag_hex = tag_hex;
    dealer_proof = record { sig_alg = demo_sig_alg; sigma_hex = [] };
    meta = record {
      vk_set_hash = [];
      guardian_set_hash = set_hash;
      dealer_pk_hex = dealer_pk;
      rho_commit_hex = rho_commit;
      issued_at = a.issued_at;
      expires_at = a.expires_at;
    };
    active = true;
  })

-- The loop over the guardians, with `left` to go.
unfoldable pub guardian_loop :
    ℕ → ℕ → SetupArgs → Str → List (List ℕ) → List ℕ → Result (List ShareEnvelope)
guardian_loop zero i a rho_commit coeffs used_x = ok []
guardian_loop (suc left) i a rho_commit coeffs used_x = do
  x ← derive_distinct_x a (i + 1) (guardian_name a i) used_x
  env ← build_envelope a rho_commit coeffs i x
  rest ← guardian_loop left (suc i) a rho_commit coeffs (x ∷ used_x)
  ok (env ∷ rest)

-- `key_entry`, from the fields of the envelope that were computed with it.
abbrev pub key_entry : ShareEnvelope → TtssKeyEntry
key_entry env = record {
  guardian_index = env.guardian_index;
  guardian_id = env.guardian_id;
  ui_hex = env.ui_hex;
}

-- The last loop: the set hash is filled in, and the envelope signed.
unfoldable pub sign_all : Str → List ShareEnvelope → Result (List ShareEnvelope)
sign_all vk_set_hash [] = ok []
sign_all vk_set_hash (env ∷ envs) = do
  let filled = record env { meta = record env.meta { vk_set_hash = vk_set_hash } }
  signed ← sign_share_envelope_demo filled filled.meta.dealer_pk_hex
  rest ← sign_all vk_set_hash envs
  ok (signed ∷ rest)

-- `!guardian_ids.empty() && guardian_ids.size() != n`.
abbrev pub wrong_guardian_count : SetupArgs → Bool
wrong_guardian_count a = not (length a.guardian_ids == 0) && not (length a.guardian_ids == a.n)

unfoldable pub ttss_share_nits_shamir : SetupArgs → Result TtssShareSetupResult
ttss_share_nits_shamir a = do
  require (not (ltb a.n 2 || ltb a.t 2 || ltb a.n a.t)) (codes "bad_threshold")
  require (not (wrong_guardian_count a)) (codes "guardian_count_mismatch")
  rho ← normalize_digest_hex32 a.rho_seed_hex
  let rho_commit = sha256_joined_hex (codes "TTSS-RHO-COMMIT" ∷ rho ∷ [])
  chunks ← split_seed_hex_to_chunks a.srec_seed_hex
  coeffs ← coeff_rows chunks 0 a
  envs ← guardian_loop a.n 0 a rho_commit coeffs []
  vk_set_hash ← compute_vk_set_hash (map key_entry envs)
  signed ← sign_all vk_set_hash envs
  ok (record {
    share_envelopes = signed;
    tk = map key_entry envs;
    vk = map key_entry envs;
    vk_set_hash = vk_set_hash;
    rho_commit_hex = rho_commit;
  })
