-- ===== src/Ttss/Tests.antt =====
-- A setup for two guardians, and its recovery.
use did_vc.Base.{
  ◌<◌, ℕ, codes, Str, [], ◌∷◌, Result, ok, err, inl, inr, ◌≡◌, refl, arith, str_eq, decimal_digits,
  to_decimal,
}
use did_vc.Text.{trim_copy, trim_front, trim_back, lower_copy, to_lower, starts_with, is_space}
use did_vc.Hex.{
  normalize_digest_hex32, ensure_0x_hex, starts_with_0x, hex_value, all_hex, is_hex_string,
  normalize_hex_bytes, hex_byte, hex_pairs, hex_to_bytes, bytes_to_hex, hex_of_bytes, hex_digit,
}
use did_vc.Sha256.{
  sha256_hex, sha256_bytes, finish, push_bytes, push_byte, sha256_transform, add_words, sha_rounds,
  sha_round, rotr, next_word, extend_schedule, words_of_block, word_bytes, length_bytes, joined,
  sha256_joined_hex,
}
use did_vc.Field.{add_mod, sub_mod, mul_mod}
use did_vc.Shamir.{poly_eval, poly_loop}
use did_vc.Encode.{
  hex_mod_loop, hex_mod_small_field, hash_parts_to_field, field_normalize, field_from_hex,
  field_to_hex32, normalize_field_hex_bn254, chunks_of_bytes, split_seed_hex_to_chunks, write_bit,
  write_bits, pack_loop, pack_y_chunks_hex,
}
use did_vc.Envelope.{
  canonical_share_envelope_payload, normalize_any_hex, normalized_optional_digest,
  share_envelope_digest_hex, compute_demo_sigma_hex, sign_share_envelope_demo,
}
use did_vc.Ttss.{
  ttss_share_nits_shamir, compute_ui_hex_from_x, compute_tag_hex, str_lt, insert_sorted, sort_texts,
  canonical_entries, compute_vk_set_hash, derive_coeff, candidate_x, distinct_x_loop,
  derive_distinct_x, coeff_row, coeff_rows, guardian_name, build_envelope, guardian_loop, sign_all,
}
use did_vc.Ttss.Sample.{two_guardians-issued, two_guardians, issued, share_of}
use did_vc.Ttss.Recover.{ttss_rec_nits_shamir}
use did_vc.Ttss.Chunks.{success}
use did_vc.Ttss.Setup.{Unused, distinct_x_loop-Unused}
use did_vc.Ttss.Issue.{IsSetup, ttss_share-IsSetup}
use did_vc.Ttss.RoundTrip.{ttss_rec-ttss_share}
use did_vc.Ttss.Sound.{IsRecovered, ttss_rec-IsRecovered}

ttss_rec-ttss_share_example :
    (seed : Str) × (normalize_digest_hex32 two_guardians.srec_seed_hex ≡ ok seed)
    × (ttss_rec_nits_shamir (share_of 1 ∷ share_of 0 ∷ []) ≡ ok (success seed 2))
unfolding ttss_share_nits_shamir compute_ui_hex_from_x compute_tag_hex str_lt insert_sorted
    sort_texts canonical_entries compute_vk_set_hash derive_coeff candidate_x distinct_x_loop
    derive_distinct_x coeff_row coeff_rows guardian_name build_envelope guardian_loop sign_all
    canonical_share_envelope_payload normalize_any_hex normalized_optional_digest
    share_envelope_digest_hex compute_demo_sigma_hex sign_share_envelope_demo hex_mod_loop
    hex_mod_small_field hash_parts_to_field field_normalize field_from_hex field_to_hex32
    normalize_field_hex_bn254 chunks_of_bytes split_seed_hex_to_chunks write_bit write_bits
    pack_loop pack_y_chunks_hex poly_eval poly_loop add_mod sub_mod mul_mod sha256_hex sha256_bytes
    finish push_bytes push_byte sha256_transform add_words sha_rounds sha_round rotr next_word
    extend_schedule words_of_block word_bytes length_bytes joined sha256_joined_hex
    normalize_digest_hex32 ensure_0x_hex starts_with_0x hex_value all_hex is_hex_string
    normalize_hex_bytes hex_byte hex_pairs hex_to_bytes bytes_to_hex hex_of_bytes hex_digit
    trim_copy trim_front trim_back lower_copy to_lower starts_with is_space str_eq decimal_digits
    to_decimal
ttss_rec-ttss_share_example =
    ttss_rec-ttss_share two_guardians issued (share_of 1 ∷ share_of 0 ∷ []) refl
      (inr (inl refl), (inl refl, tt)) (((λ e. absurd (omega arith)), tt), (tt, tt)) (omega arith)

ttss_share-IsSetup_example : IsSetup two_guardians issued
unfolding ttss_share_nits_shamir compute_ui_hex_from_x compute_tag_hex str_lt insert_sorted
    sort_texts canonical_entries compute_vk_set_hash derive_coeff candidate_x distinct_x_loop
    derive_distinct_x coeff_row coeff_rows guardian_name build_envelope guardian_loop sign_all
    canonical_share_envelope_payload normalize_any_hex normalized_optional_digest
    share_envelope_digest_hex compute_demo_sigma_hex sign_share_envelope_demo hex_mod_loop
    hex_mod_small_field hash_parts_to_field field_normalize field_from_hex field_to_hex32
    normalize_field_hex_bn254 chunks_of_bytes split_seed_hex_to_chunks write_bit write_bits
    pack_loop pack_y_chunks_hex poly_eval poly_loop add_mod sub_mod mul_mod sha256_hex sha256_bytes
    finish push_bytes push_byte sha256_transform add_words sha_rounds sha_round rotr next_word
    extend_schedule words_of_block word_bytes length_bytes joined sha256_joined_hex
    normalize_digest_hex32 ensure_0x_hex starts_with_0x hex_value all_hex is_hex_string
    normalize_hex_bytes hex_byte hex_pairs hex_to_bytes bytes_to_hex hex_of_bytes hex_digit
    trim_copy trim_front trim_back lower_copy to_lower starts_with is_space str_eq decimal_digits
    to_decimal
ttss_share-IsSetup_example = ttss_share-IsSetup two_guardians issued refl

abbrev place_or : Result ℕ → ℕ
place_or (ok x) = x
place_or (err e) = 0

distinct_x_loop-Unused_example :
    (place_or (distinct_x_loop 4096 0 two_guardians 1 (codes "G1") (3 ∷ [])) < 65537)
    × Unused (3 ∷ []) (place_or (distinct_x_loop 4096 0 two_guardians 1 (codes "G1") (3 ∷ [])))
unfolding ttss_share_nits_shamir compute_ui_hex_from_x compute_tag_hex str_lt insert_sorted
    sort_texts canonical_entries compute_vk_set_hash derive_coeff candidate_x distinct_x_loop
    derive_distinct_x coeff_row coeff_rows guardian_name build_envelope guardian_loop sign_all
    canonical_share_envelope_payload normalize_any_hex normalized_optional_digest
    share_envelope_digest_hex compute_demo_sigma_hex sign_share_envelope_demo hex_mod_loop
    hex_mod_small_field hash_parts_to_field field_normalize field_from_hex field_to_hex32
    normalize_field_hex_bn254 chunks_of_bytes split_seed_hex_to_chunks write_bit write_bits
    pack_loop pack_y_chunks_hex poly_eval poly_loop add_mod sub_mod mul_mod sha256_hex sha256_bytes
    finish push_bytes push_byte sha256_transform add_words sha_rounds sha_round rotr next_word
    extend_schedule words_of_block word_bytes length_bytes joined sha256_joined_hex
    normalize_digest_hex32 ensure_0x_hex starts_with_0x hex_value all_hex is_hex_string
    normalize_hex_bytes hex_byte hex_pairs hex_to_bytes bytes_to_hex hex_of_bytes hex_digit
    trim_copy trim_front trim_back lower_copy to_lower starts_with is_space str_eq decimal_digits
    to_decimal
distinct_x_loop-Unused_example =
    distinct_x_loop-Unused 4096 0 two_guardians 1 (codes "G1") (3 ∷ [])
      (place_or (distinct_x_loop 4096 0 two_guardians 1 (codes "G1") (3 ∷ []))) refl

recovered :
    (seed : Str) × (normalize_digest_hex32 two_guardians.srec_seed_hex ≡ ok seed)
    × (ttss_rec_nits_shamir (share_of 0 ∷ share_of 1 ∷ []) ≡ ok (success seed 2))
unfolding ttss_share_nits_shamir compute_ui_hex_from_x compute_tag_hex str_lt insert_sorted
    sort_texts canonical_entries compute_vk_set_hash derive_coeff candidate_x distinct_x_loop
    derive_distinct_x coeff_row coeff_rows guardian_name build_envelope guardian_loop sign_all
    canonical_share_envelope_payload normalize_any_hex normalized_optional_digest
    share_envelope_digest_hex compute_demo_sigma_hex sign_share_envelope_demo hex_mod_loop
    hex_mod_small_field hash_parts_to_field field_normalize field_from_hex field_to_hex32
    normalize_field_hex_bn254 chunks_of_bytes split_seed_hex_to_chunks write_bit write_bits
    pack_loop pack_y_chunks_hex poly_eval poly_loop add_mod sub_mod mul_mod sha256_hex sha256_bytes
    finish push_bytes push_byte sha256_transform add_words sha_rounds sha_round rotr next_word
    extend_schedule words_of_block word_bytes length_bytes joined sha256_joined_hex
    normalize_digest_hex32 ensure_0x_hex starts_with_0x hex_value all_hex is_hex_string
    normalize_hex_bytes hex_byte hex_pairs hex_to_bytes bytes_to_hex hex_of_bytes hex_digit
    trim_copy trim_front trim_back lower_copy to_lower starts_with is_space str_eq decimal_digits
    to_decimal
recovered =
    ttss_rec-ttss_share two_guardians issued (share_of 0 ∷ share_of 1 ∷ []) two_guardians-issued
      (inl refl, (inr (inl refl), tt)) (((λ e. absurd (omega arith)), tt), (tt, tt)) (omega arith)

ttss_rec-IsRecovered_example : IsRecovered (share_of 0 ∷ share_of 1 ∷ []) (success recovered.0 2)
ttss_rec-IsRecovered_example =
    ttss_rec-IsRecovered (share_of 0 ∷ share_of 1 ∷ []) (success recovered.0 2) recovered.2 refl
