-- ===== src/Envelope/Tests.antt =====
-- A signed envelope.
use did_vc.Base.{refl, ok, arith, inl, inr, ◌≡◌, str_eq, decimal_digits, to_decimal}
use did_vc.Text.{trim_copy, trim_front, trim_back, lower_copy, to_lower, starts_with, is_space}
use did_vc.Hex.{
  normalize_digest_hex32, ensure_0x_hex, starts_with_0x, hex_value, all_hex, is_hex_string,
  normalize_hex_bytes, hex_byte, hex_pairs, hex_to_bytes, bytes_to_hex, hex_of_bytes, hex_digit,
}
use did_vc.Hex.Shape.{is_hex_string-IsHexText}
use did_vc.Sha256.{
  sha256_hex, sha256_bytes, finish, push_bytes, push_byte, sha256_transform, add_words, sha_rounds,
  sha_round, rotr, next_word, extend_schedule, words_of_block, word_bytes, length_bytes, joined,
  sha256_joined_hex,
}
use did_vc.Envelope.{
  valid, canonical_share_envelope_payload, normalize_any_hex, normalized_optional_digest,
  share_envelope_digest_hex, compute_demo_sigma_hex, sign_share_envelope_demo, verify_signature,
  verify_share_envelope_demo, basic_validate_share_envelope, first_failure, share_key,
}
use did_vc.Envelope.Checks.{IsWellFormed, IsWellFormed-basic_validate, basic_validate-IsWellFormed}
use did_vc.Envelope.Sign.{verify-sign}
use did_vc.Envelope.Sample.{unsigned_sample, sample}

verify-sign_example : verify_share_envelope_demo sample ≡ ok valid
unfolding str_eq decimal_digits to_decimal trim_copy trim_front trim_back lower_copy to_lower
    starts_with is_space normalize_digest_hex32 ensure_0x_hex starts_with_0x hex_value all_hex
    is_hex_string normalize_hex_bytes hex_byte hex_pairs hex_to_bytes bytes_to_hex hex_of_bytes
    hex_digit sha256_hex sha256_bytes finish push_bytes push_byte sha256_transform add_words
    sha_rounds sha_round rotr next_word extend_schedule words_of_block word_bytes length_bytes
    joined sha256_joined_hex canonical_share_envelope_payload normalize_any_hex
    normalized_optional_digest share_envelope_digest_hex compute_demo_sigma_hex
    sign_share_envelope_demo verify_signature verify_share_envelope_demo
    basic_validate_share_envelope first_failure share_key
verify-sign_example = verify-sign unsigned_sample sample refl refl refl refl

IsWellFormed-basic_validate_example : IsWellFormed sample
unfolding str_eq decimal_digits to_decimal trim_copy trim_front trim_back lower_copy to_lower
    starts_with is_space normalize_digest_hex32 ensure_0x_hex starts_with_0x hex_value all_hex
    is_hex_string normalize_hex_bytes hex_byte hex_pairs hex_to_bytes bytes_to_hex hex_of_bytes
    hex_digit sha256_hex sha256_bytes finish push_bytes push_byte sha256_transform add_words
    sha_rounds sha_round rotr next_word extend_schedule words_of_block word_bytes length_bytes
    joined sha256_joined_hex canonical_share_envelope_payload normalize_any_hex
    normalized_optional_digest share_envelope_digest_hex compute_demo_sigma_hex
    sign_share_envelope_demo verify_signature verify_share_envelope_demo
    basic_validate_share_envelope first_failure share_key
IsWellFormed-basic_validate_example = IsWellFormed-basic_validate sample refl

sample-IsWellFormed : IsWellFormed sample
unfolding str_eq decimal_digits to_decimal trim_copy trim_front trim_back lower_copy to_lower
    starts_with is_space normalize_digest_hex32 ensure_0x_hex starts_with_0x hex_value all_hex
    is_hex_string normalize_hex_bytes hex_byte hex_pairs hex_to_bytes bytes_to_hex hex_of_bytes
    hex_digit sha256_hex sha256_bytes finish push_bytes push_byte sha256_transform add_words
    sha_rounds sha_round rotr next_word extend_schedule words_of_block word_bytes length_bytes
    joined sha256_joined_hex canonical_share_envelope_payload normalize_any_hex
    normalized_optional_digest share_envelope_digest_hex compute_demo_sigma_hex
    sign_share_envelope_demo verify_signature verify_share_envelope_demo
    basic_validate_share_envelope first_failure share_key
sample-IsWellFormed = record {
  scheme = refl;
  id_hex = is_hex_string-IsHexText _ refl;
  index_pos = omega arith;
  n_two = omega arith;
  t_two = omega arith;
  t_le_n = omega arith;
  secret = refl;
  xi_hex = is_hex_string-IsHexText _ refl;
  yi_hex = is_hex_string-IsHexText _ refl;
  ui_hex = is_hex_string-IsHexText _ refl;
  tag_hex = is_hex_string-IsHexText _ refl;
  sigma_hex = is_hex_string-IsHexText _ refl;
  vk_set = inl refl;
  guardian_set = inl refl;
  dealer_pk = inr (is_hex_string-IsHexText _ refl);
  rho_commit = inl refl;
}

basic_validate-IsWellFormed_example : basic_validate_share_envelope sample ≡ valid
basic_validate-IsWellFormed_example = basic_validate-IsWellFormed sample sample-IsWellFormed
