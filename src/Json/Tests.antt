-- ===== src/Json/Tests.antt =====
-- The JSON form of a share envelope, read back.
use did_vc.Base.{codes, Result, ok, err, ◌≡◌, refl, arith, str_eq, decimal_digits, to_decimal}
use did_vc.Text.{trim_copy, trim_front, trim_back, lower_copy, to_lower, starts_with, is_space}
use did_vc.Hex.{
  normalize_digest_hex32, ensure_0x_hex, starts_with_0x, hex_value, all_hex, is_hex_string,
  normalize_hex_bytes, hex_byte, hex_pairs, hex_to_bytes, bytes_to_hex, hex_of_bytes, hex_digit,
}
use did_vc.Sha256.{
  sha256_hex, sha256_bytes, finish, push_bytes, push_byte, sha256_transform, add_words, sha_rounds,
  sha_round, rotr, next_word, extend_schedule, words_of_block, word_bytes, length_bytes, joined,
  sha256_joined_hex,
}
use did_vc.Field.{add_mod, sub_mod, mul_mod}
use did_vc.Shamir.{poly_eval, poly_loop}
use did_vc.Encode.{
  hex_mod_loop, hex_mod_small_field, hash_parts_to_field, field_normalize, field_from_hex,
  field_to_hex32, normalize_field_hex_bn254, chunks_of_bytes, split_seed_hex_to_chunks, write_bit,
  write_bits, pack_loop, pack_y_chunks_hex,
}
use did_vc.Envelope.{
  ShareEnvelope, canonical_share_envelope_payload, normalize_any_hex, normalized_optional_digest,
  share_envelope_digest_hex, compute_demo_sigma_hex, sign_share_envelope_demo,
}
use did_vc.Ttss.{
  compute_ui_hex_from_x, compute_tag_hex, str_lt, insert_sorted, sort_texts, canonical_entries,
  compute_vk_set_hash, derive_coeff, candidate_x, distinct_x_loop, derive_distinct_x, coeff_row,
  coeff_rows, guardian_name, build_envelope, guardian_loop, sign_all,
}
use did_vc.Envelope.{basic_validate_share_envelope, first_failure, share_key, normalized_fields}
use did_vc.Envelope.Sample.{unsigned_sample}
use did_vc.Base.{◌>>=◌, Result}
use did_vc.Json.{share_envelope_from_njson, share_envelope_to_njson}
use did_vc.Json.Sample.{tree_lib}
use did_vc.Json.RoundTrip.{share_envelope_from_njson-to_njson}

abbrev plain : ShareEnvelope
plain = record unsigned_sample {
  dealer_proof = record unsigned_sample.dealer_proof { sigma_hex = codes "0x05" };
}

abbrev envelope_or : Result ShareEnvelope → ShareEnvelope
envelope_or (ok e) = e
envelope_or (err e) = plain

abbrev wire : ShareEnvelope
wire = envelope_or (normalized_fields plain)

share_envelope_from_njson-to_njson_example :
    (share_envelope_to_njson tree_lib plain >>= share_envelope_from_njson tree_lib) ≡ ok wire
unfolding normalized_fields basic_validate_share_envelope first_failure share_key
    compute_ui_hex_from_x compute_tag_hex str_lt insert_sorted sort_texts canonical_entries
    compute_vk_set_hash derive_coeff candidate_x distinct_x_loop derive_distinct_x coeff_row
    coeff_rows guardian_name build_envelope guardian_loop sign_all canonical_share_envelope_payload
    normalize_any_hex normalized_optional_digest share_envelope_digest_hex compute_demo_sigma_hex
    sign_share_envelope_demo hex_mod_loop hex_mod_small_field hash_parts_to_field field_normalize
    field_from_hex field_to_hex32 normalize_field_hex_bn254 chunks_of_bytes split_seed_hex_to_chunks
    write_bit write_bits pack_loop pack_y_chunks_hex poly_eval poly_loop add_mod sub_mod mul_mod
    sha256_hex sha256_bytes finish push_bytes push_byte sha256_transform add_words sha_rounds
    sha_round rotr next_word extend_schedule words_of_block word_bytes length_bytes joined
    sha256_joined_hex normalize_digest_hex32 ensure_0x_hex starts_with_0x hex_value all_hex
    is_hex_string normalize_hex_bytes hex_byte hex_pairs hex_to_bytes bytes_to_hex hex_of_bytes
    hex_digit trim_copy trim_front trim_back lower_copy to_lower starts_with is_space str_eq
    decimal_digits to_decimal
share_envelope_from_njson-to_njson_example =
    share_envelope_from_njson-to_njson tree_lib plain wire refl refl
      (record { guardian_index = omega arith; n = omega arith; t = omega arith })
