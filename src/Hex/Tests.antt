-- ===== src/Hex/Tests.antt =====
-- Texts and their bytes.
use did_vc.Base.{refl, ok, true, ◌≡◌, [], ◌∷◌, codes, arith, str_eq}
use did_vc.Text.{trim_copy, trim_front, trim_back, lower_copy, to_lower, starts_with, is_space}
use did_vc.Hex.{
  normalize_digest_hex32, ensure_0x_hex, starts_with_0x, hex_value, all_hex, is_hex_string,
  normalize_hex_bytes, hex_byte, hex_pairs, hex_to_bytes, bytes_to_hex, hex_of_bytes, hex_digit,
}
use did_vc.Hex.Digits.{Bytes}
use did_vc.Hex.Digest.{IsDigest, normalize_digest_hex32_idem}
use did_vc.Hex.RoundTrip.{hex_to_bytes-bytes_to_hex, hex_to_bytes_back}

hex_to_bytes-bytes_to_hex_example :
    hex_to_bytes (bytes_to_hex (1 ∷ 255 ∷ []) true) ≡ ok (1 ∷ 255 ∷ [])
hex_to_bytes-bytes_to_hex_example =
    hex_to_bytes-bytes_to_hex (1 ∷ 255 ∷ []) (omega arith, (omega arith, tt)) (λ e. absurd (cc))

hex_to_bytes_back_example :
    Bytes (171 ∷ 205 ∷ [])
    × (ensure_0x_hex (codes "ABCD") ≡ ok (bytes_to_hex (171 ∷ 205 ∷ []) true))
unfolding trim_copy trim_front trim_back lower_copy to_lower starts_with is_space
    normalize_digest_hex32 ensure_0x_hex starts_with_0x hex_value all_hex is_hex_string
    normalize_hex_bytes hex_byte hex_pairs hex_to_bytes bytes_to_hex hex_of_bytes hex_digit str_eq
hex_to_bytes_back_example = hex_to_bytes_back (codes "ABCD") (171 ∷ 205 ∷ []) refl

normalize_digest_hex32_idem_example :
    IsDigest (codes "0x0000000000000000000000000000000000000000000000000000000000000abc")
    × (normalize_digest_hex32
          (codes "0x0000000000000000000000000000000000000000000000000000000000000abc")
        ≡ ok (codes "0x0000000000000000000000000000000000000000000000000000000000000abc"))
unfolding trim_copy trim_front trim_back lower_copy to_lower starts_with is_space
    normalize_digest_hex32 ensure_0x_hex starts_with_0x hex_value all_hex is_hex_string
    normalize_hex_bytes hex_byte hex_pairs hex_to_bytes bytes_to_hex hex_of_bytes hex_digit str_eq
normalize_digest_hex32_idem_example =
    normalize_digest_hex32_idem (codes "ABC")
      (codes "0x0000000000000000000000000000000000000000000000000000000000000abc") refl
