-- ===== src/Ttss/Sample.antt =====
-- A setup for two guardians.
use did_vc.Base.{
  ℕ, codes, [], Result, ok, err, false, ◌≡◌, refl, get_or, str_eq, decimal_digits, to_decimal,
}
use did_vc.Text.{trim_copy, trim_front, trim_back, lower_copy, to_lower, starts_with, is_space}
use did_vc.Hex.{
  normalize_digest_hex32, ensure_0x_hex, starts_with_0x, hex_value, all_hex, is_hex_string,
  normalize_hex_bytes, hex_byte, hex_pairs, hex_to_bytes, bytes_to_hex, hex_of_bytes, hex_digit,
}
use did_vc.Sha256.{
  sha256_hex, sha256_bytes, finish, push_bytes, push_byte, sha256_transform, add_words, sha_rounds,
  sha_round, rotr, next_word, extend_schedule, words_of_block, word_bytes, length_bytes, joined,
  sha256_joined_hex,
}
use did_vc.Field.{add_mod, sub_mod, mul_mod}
use did_vc.Shamir.{poly_eval, poly_loop}
use did_vc.Encode.{
  hex_mod_loop, hex_mod_small_field, hash_parts_to_field, field_normalize, field_from_hex,
  field_to_hex32, normalize_field_hex_bn254, chunks_of_bytes, split_seed_hex_to_chunks, write_bit,
  write_bits, pack_loop, pack_y_chunks_hex,
}
use did_vc.Envelope.{
  ShareEnvelope, canonical_share_envelope_payload, normalize_any_hex, normalized_optional_digest,
  share_envelope_digest_hex, compute_demo_sigma_hex, sign_share_envelope_demo,
}
use did_vc.Ttss.{
  SetupArgs, TtssShareSetupResult, ttss_share_nits_shamir, compute_ui_hex_from_x, compute_tag_hex,
  str_lt, insert_sorted, sort_texts, canonical_entries, compute_vk_set_hash, derive_coeff,
  candidate_x, distinct_x_loop, derive_distinct_x, coeff_row, coeff_rows, guardian_name,
  build_envelope, guardian_loop, sign_all,
}

abbrev pub two_guardians : SetupArgs
two_guardians = record {
  srec_seed_hex = codes "0xABCD";
  n = 2;
  t = 2;
  rho_seed_hex = codes "0x07";
  id = codes "did:example:1";
  id_hash = codes "0x11";
  ver = 1;
  epoch = 1;
  guardian_ids = [];
  guardian_set_hash = [];
  dealer_attestation_key_hex = codes "0x22";
  dealer_pk_hex = [];
  issued_at = 5;
  expires_at = 9;
}

abbrev pub empty_setup : TtssShareSetupResult
empty_setup = record {
  share_envelopes = [];
  tk = [];
  vk = [];
  vk_set_hash = [];
  rho_commit_hex = [];
}

abbrev pub setup_or : Result TtssShareSetupResult → TtssShareSetupResult
setup_or (ok s) = s
setup_or (err e) = empty_setup

-- The envelope at the position `i`; the empty one stands for none.
abbrev pub empty_envelope : ShareEnvelope
empty_envelope = record {
  scheme = [];
  id = [];
  id_hash = [];
  guardian_index = 0;
  guardian_id = [];
  n = 0;
  t = 0;
  ver = 0;
  epoch = 0;
  secret_type = [];
  share = record { xi_hex = []; yi_hex = [] };
  ui_hex = [];
  tag_hex = [];
  dealer_proof = record { sig_alg = []; sigma_hex = [] };
  meta = record {
    vk_set_hash = [];
    guardian_set_hash = [];
    dealer_pk_hex = [];
    rho_commit_hex = [];
    issued_at = 0;
    expires_at = 0;
  };
  active = false;
}

abbrev pub issued : TtssShareSetupResult
issued = setup_or (ttss_share_nits_shamir two_guardians)

abbrev pub share_of : ℕ → ShareEnvelope
share_of i = get_or issued.share_envelopes i empty_envelope

pub two_guardians-issued : ttss_share_nits_shamir two_guardians ≡ ok issued
unfolding ttss_share_nits_shamir compute_ui_hex_from_x compute_tag_hex str_lt insert_sorted
    sort_texts canonical_entries compute_vk_set_hash derive_coeff candidate_x distinct_x_loop
    derive_distinct_x coeff_row coeff_rows guardian_name build_envelope guardian_loop sign_all
    canonical_share_envelope_payload normalize_any_hex normalized_optional_digest
    share_envelope_digest_hex compute_demo_sigma_hex sign_share_envelope_demo hex_mod_loop
    hex_mod_small_field hash_parts_to_field field_normalize field_from_hex field_to_hex32
    normalize_field_hex_bn254 chunks_of_bytes split_seed_hex_to_chunks write_bit write_bits
    pack_loop pack_y_chunks_hex poly_eval poly_loop add_mod sub_mod mul_mod sha256_hex sha256_bytes
    finish push_bytes push_byte sha256_transform add_words sha_rounds sha_round rotr next_word
    extend_schedule words_of_block word_bytes length_bytes joined sha256_joined_hex
    normalize_digest_hex32 ensure_0x_hex starts_with_0x hex_value all_hex is_hex_string
    normalize_hex_bytes hex_byte hex_pairs hex_to_bytes bytes_to_hex hex_of_bytes hex_digit
    trim_copy trim_front trim_back lower_copy to_lower starts_with is_space str_eq decimal_digits
    to_decimal
two_guardians-issued = refl
