-- ===== src/Trace/Tests.antt =====
-- A trace with one root.
use did_vc.Base.{
  refl, ok, false, err, ◌≤◌, [], ◌∷◌, List, ℕ, Result, codes, Str, length, str_eq, decimal_digits,
  to_decimal,
}
use did_vc.Text.{trim_copy, trim_front, trim_back, lower_copy, to_lower, starts_with, is_space}
use did_vc.Hex.{
  normalize_digest_hex32, ensure_0x_hex, starts_with_0x, hex_value, all_hex, is_hex_string,
  normalize_hex_bytes, hex_byte, hex_pairs, hex_to_bytes, bytes_to_hex, hex_of_bytes, hex_digit,
}
use did_vc.Sha256.{
  sha256_hex, sha256_bytes, finish, push_bytes, push_byte, sha256_transform, add_words, sha_rounds,
  sha_round, rotr, next_word, extend_schedule, words_of_block, word_bytes, length_bytes, joined,
  sha256_joined_hex,
}
use did_vc.Encode.{
  hex_mod_loop, hex_mod_small_field, field_normalize, field_from_hex, field_to_hex32,
  normalize_field_hex_bn254,
}
use did_vc.Ttss.{TtssKeyEntry, compute_ui_hex_from_x}
use did_vc.Trace.{
  TraceProof, TraceResult, TraceSessionDescriptor, empty_meta, accuse_entries, accuse_roots,
  insert_number, sort_numbers, accused_from_roots, vk_by_index, vk_find, tverify_loop,
  ttss_tverify_nits_shamir, normalize_roots, ttss_trace_from_extracted_roots,
}
use did_vc.Trace.Sound.{Accused, ttss_tverify-Accused, ttss_trace-Accused}

abbrev text_or : Result Str → Str
text_or (ok s) = s
text_or (err e) = []

abbrev root : Str
root = field_to_hex32 5

-- The key entry of the guardian at the place 5.
abbrev entries : List TtssKeyEntry
entries =
    record {
      guardian_index = 3;
      guardian_id = codes "G3";
      ui_hex = text_or (compute_ui_hex_from_x (codes "0x05"));
    }
    ∷ []

abbrev session : TraceSessionDescriptor
session = record { id_hash = codes "0x11"; ver = 1; epoch = 7; n = 3; t = 2 }

abbrev one_root : TraceProof
one_root = record { proof_type = codes "nits_roots"; witness_roots_hex = root ∷ [] }

abbrev accused : List ℕ
accused = 3 ∷ []

ttss_tverify-Accused_example :
    (1 ≤ length accused) × Accused entries accused one_root.witness_roots_hex
unfolding str_eq decimal_digits to_decimal trim_copy trim_front trim_back lower_copy to_lower
    starts_with is_space normalize_digest_hex32 ensure_0x_hex starts_with_0x hex_value all_hex
    is_hex_string normalize_hex_bytes hex_byte hex_pairs hex_to_bytes bytes_to_hex hex_of_bytes
    hex_digit sha256_hex sha256_bytes finish push_bytes push_byte sha256_transform add_words
    sha_rounds sha_round rotr next_word extend_schedule words_of_block word_bytes length_bytes
    joined sha256_joined_hex hex_mod_loop hex_mod_small_field field_normalize field_from_hex
    field_to_hex32 normalize_field_hex_bn254 compute_ui_hex_from_x vk_by_index vk_find tverify_loop
    ttss_tverify_nits_shamir
ttss_tverify-Accused_example = ttss_tverify-Accused entries accused one_root refl

abbrev result_or : Result TraceResult → TraceResult
result_or (ok r) = r
result_or (err e) = record {
  is_ok = false;
  id_hash = [];
  ver = 0;
  epoch = 0;
  n = 0;
  t = 0;
  accused_set = [];
  proof = one_root;
  trace_meta = empty_meta;
  error = [];
}

abbrev traced : TraceResult
traced = result_or (ttss_trace_from_extracted_roots entries session (codes "0x05" ∷ []) empty_meta)

ttss_trace-Accused_example :
    (1 ≤ length traced.accused_set)
    × Accused entries traced.accused_set traced.proof.witness_roots_hex
unfolding str_eq decimal_digits to_decimal trim_copy trim_front trim_back lower_copy to_lower
    starts_with is_space normalize_digest_hex32 ensure_0x_hex starts_with_0x hex_value all_hex
    is_hex_string normalize_hex_bytes hex_byte hex_pairs hex_to_bytes bytes_to_hex hex_of_bytes
    hex_digit sha256_hex sha256_bytes finish push_bytes push_byte sha256_transform add_words
    sha_rounds sha_round rotr next_word extend_schedule words_of_block word_bytes length_bytes
    joined sha256_joined_hex hex_mod_loop hex_mod_small_field field_normalize field_from_hex
    field_to_hex32 normalize_field_hex_bn254 compute_ui_hex_from_x vk_by_index vk_find tverify_loop
    ttss_tverify_nits_shamir accuse_entries accuse_roots insert_number sort_numbers
    accused_from_roots normalize_roots ttss_trace_from_extracted_roots
ttss_trace-Accused_example =
    ttss_trace-Accused entries session (codes "0x05" ∷ []) empty_meta traced refl refl
