-- ===== src/Committee/Tests.antt =====
-- A store with one share, asked and invalidated.
use did_vc.Base.{
  refl, ok, ◌⊎◌, ◌+◌, some, false, true, ◌≡◌, codes, ℕ, str_eq, decimal_digits, to_decimal,
}
use did_vc.Text.{trim_copy, trim_front, trim_back, lower_copy, to_lower, starts_with, is_space}
use did_vc.Hex.{
  normalize_digest_hex32, ensure_0x_hex, starts_with_0x, hex_value, all_hex, is_hex_string,
  normalize_hex_bytes, hex_byte, hex_pairs, hex_to_bytes, bytes_to_hex, hex_of_bytes, hex_digit,
}
use did_vc.Sha256.{
  sha256_hex, sha256_bytes, finish, push_bytes, push_byte, sha256_transform, add_words, sha_rounds,
  sha_round, rotr, next_word, extend_schedule, words_of_block, word_bytes, length_bytes, joined,
  sha256_joined_hex,
}
use did_vc.Envelope.{
  canonical_share_envelope_payload, normalize_any_hex, normalized_optional_digest,
  share_envelope_digest_hex, compute_demo_sigma_hex, sign_share_envelope_demo, verify_signature,
  verify_share_envelope_demo, basic_validate_share_envelope, first_failure, share_key,
}
use did_vc.Envelope.Sample.{sample}
use did_vc.Committee.Map.{StoredEnvelope, CommitteeStore, find, put, equal_range}
use did_vc.Committee.Handlers.{
  Body, fields, SetFields, InvalidateFields, found, sent, entry, store_envelope, set_share_envelope,
  version_key, find_requested_envelope, pick_active, invalidate_loop, invalidate_shares,
}
use did_vc.Committee.Invariant.{
  IsStore, empty_store, empty_store-IsStore, set_share_envelope-IsStore, invalidate_shares-IsStore,
  invalidate_shares-Inactive,
}
use did_vc.Committee.Request.{
  Accepted, find_requested-invalidate_shares, find_requested_envelope-active,
  set_share_envelope_lem, find_requested-set_share_envelope,
}
use did_vc.Committee.Spec.{Request, set, invalidate, handle_all, promise_all, view}
use did_vc.Committee.Runs.{handle_all-promise_all}
use did_vc.Base.{List, [], ◌∷◌, none}

abbrev set_request : Body SetFields
set_request = fields (record { token = codes "demo-token"; share_envelope = some (ok sample) })

abbrev one_share : CommitteeStore
one_share = (set_share_envelope (codes "demo-token") set_request 1 empty_store).0

abbrev invalidation : InvalidateFields
invalidation = record {
  token = codes "demo-token";
  id_hash = codes "0x11";
  ver = 1;
  epoch = 7;
  reason = codes "rotated";
}

abbrev clock : ℕ → ℕ
clock k = 100 + k

one_share-IsStore : IsStore one_share
one_share-IsStore =
    set_share_envelope-IsStore (codes "demo-token") set_request 1 empty_store empty_store-IsStore

set_share_envelope-IsStore_example :
    IsStore (set_share_envelope (codes "demo-token") set_request 2 one_share).0
set_share_envelope-IsStore_example =
    set_share_envelope-IsStore (codes "demo-token") set_request 2 one_share one_share-IsStore

invalidate_shares-IsStore_example :
    IsStore (invalidate_shares (codes "demo-token") (fields invalidation) clock one_share).0
invalidate_shares-IsStore_example =
    invalidate_shares-IsStore (codes "demo-token") (fields invalidation) clock one_share
      one_share-IsStore

abbrev stored_or : StoredEnvelope
stored_or = record (entry sample 1) {
  env = record sample { active = false };
  invalidated_at_ms = 100;
  invalidated_reason = codes "rotated";
}

invalidate_shares-Inactive_example : stored_or.env.active ≡ false
unfolding str_eq decimal_digits to_decimal trim_copy trim_front trim_back lower_copy to_lower
    starts_with is_space normalize_digest_hex32 ensure_0x_hex starts_with_0x hex_value all_hex
    is_hex_string normalize_hex_bytes hex_byte hex_pairs hex_to_bytes bytes_to_hex hex_of_bytes
    hex_digit sha256_hex sha256_bytes finish push_bytes push_byte sha256_transform add_words
    sha_rounds sha_round rotr next_word extend_schedule words_of_block word_bytes length_bytes
    joined sha256_joined_hex canonical_share_envelope_payload normalize_any_hex
    normalized_optional_digest share_envelope_digest_hex compute_demo_sigma_hex
    sign_share_envelope_demo verify_signature verify_share_envelope_demo
    basic_validate_share_envelope first_failure share_key find put equal_range set_share_envelope
    store_envelope version_key invalidate_loop invalidate_shares
invalidate_shares-Inactive_example =
    invalidate_shares-Inactive (codes "demo-token") invalidation clock one_share 1
      (share_key sample) stored_or one_share-IsStore refl refl refl

find_requested-invalidate_shares_example :
    find_requested_envelope
      (record { token = codes "t"; id_hash = codes "0x11"; ver = 1; epoch = 7; guardian_index = 0 })
      (invalidate_shares (codes "demo-token") (fields invalidation) clock one_share).0
    ≡ ok (sent 404 (codes "no_active_share"))
unfolding str_eq decimal_digits to_decimal trim_copy trim_front trim_back lower_copy to_lower
    starts_with is_space normalize_digest_hex32 ensure_0x_hex starts_with_0x hex_value all_hex
    is_hex_string normalize_hex_bytes hex_byte hex_pairs hex_to_bytes bytes_to_hex hex_of_bytes
    hex_digit sha256_hex sha256_bytes finish push_bytes push_byte sha256_transform add_words
    sha_rounds sha_round rotr next_word extend_schedule words_of_block word_bytes length_bytes
    joined sha256_joined_hex canonical_share_envelope_payload normalize_any_hex
    normalized_optional_digest share_envelope_digest_hex compute_demo_sigma_hex
    sign_share_envelope_demo verify_signature verify_share_envelope_demo
    basic_validate_share_envelope first_failure share_key find put equal_range set_share_envelope
    store_envelope version_key invalidate_loop invalidate_shares
find_requested-invalidate_shares_example =
    find_requested-invalidate_shares (codes "demo-token") invalidation clock one_share 1 (codes "t")
      refl

find_requested_envelope-active_example : sample.active ≡ true
unfolding str_eq decimal_digits to_decimal trim_copy trim_front trim_back lower_copy to_lower
    starts_with is_space normalize_digest_hex32 ensure_0x_hex starts_with_0x hex_value all_hex
    is_hex_string normalize_hex_bytes hex_byte hex_pairs hex_to_bytes bytes_to_hex hex_of_bytes
    hex_digit sha256_hex sha256_bytes finish push_bytes push_byte sha256_transform add_words
    sha_rounds sha_round rotr next_word extend_schedule words_of_block word_bytes length_bytes
    joined sha256_joined_hex canonical_share_envelope_payload normalize_any_hex
    normalized_optional_digest share_envelope_digest_hex compute_demo_sigma_hex
    sign_share_envelope_demo verify_signature verify_share_envelope_demo
    basic_validate_share_envelope first_failure share_key find put equal_range set_share_envelope
    store_envelope version_key find_requested_envelope pick_active
find_requested_envelope-active_example =
    find_requested_envelope-active
      (record { token = codes "t"; id_hash = codes "0x11"; ver = 1; epoch = 7; guardian_index = 0 })
      one_share (entry sample 1) refl

set_share_envelope_lem_example :
    ((set_share_envelope (codes "demo-token") set_request 1 empty_store).0 ≡ empty_store)
    ⊎ Accepted
        (codes "demo-token")
        set_request
        1
        (set_share_envelope (codes "demo-token") set_request 1 empty_store)
set_share_envelope_lem_example =
    set_share_envelope_lem (codes "demo-token") set_request 1 empty_store

find_requested-set_share_envelope_example :
    find_requested_envelope
      (record {
        token = codes "t";
        id_hash = sample.id_hash;
        ver = sample.ver;
        epoch = sample.epoch;
        guardian_index = sample.guardian_index;
      })
      (set_share_envelope (codes "demo-token") set_request 1 empty_store).0
    ≡ ok (found (entry sample 1))
unfolding str_eq decimal_digits to_decimal trim_copy trim_front trim_back lower_copy to_lower
    starts_with is_space normalize_digest_hex32 ensure_0x_hex starts_with_0x hex_value all_hex
    is_hex_string normalize_hex_bytes hex_byte hex_pairs hex_to_bytes bytes_to_hex hex_of_bytes
    hex_digit sha256_hex sha256_bytes finish push_bytes push_byte sha256_transform add_words
    sha_rounds sha_round rotr next_word extend_schedule words_of_block word_bytes length_bytes
    joined sha256_joined_hex canonical_share_envelope_payload normalize_any_hex
    normalized_optional_digest share_envelope_digest_hex compute_demo_sigma_hex
    sign_share_envelope_demo verify_signature verify_share_envelope_demo
    basic_validate_share_envelope first_failure share_key
find_requested-set_share_envelope_example =
    find_requested-set_share_envelope (codes "demo-token") (codes "t") sample 1 empty_store refl
      refl refl refl refl

abbrev requests : List Request
requests =
    set set_request 1
    ∷ invalidate (fields invalidation) clock
    ∷ set set_request 2
    ∷ invalidate (fields (record invalidation { token = codes "other" })) clock
    ∷ []

handle_all-promise_all_example :
    view (handle_all (codes "demo-token") requests empty_store) (share_key sample)
    ≡ promise_all (codes "demo-token") requests (λ k. none) (share_key sample)
handle_all-promise_all_example =
    handle_all-promise_all (codes "demo-token") requests (share_key sample)
