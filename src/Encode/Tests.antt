-- ===== src/Encode/Tests.antt =====
-- Packed values and a split seed.
use did_vc.Base.{refl, ok, ◌≡◌, [], ◌∷◌, List, ℕ, Result, err, codes, arith, str_eq}
use did_vc.Text.{trim_copy, trim_front, trim_back, lower_copy, to_lower, starts_with, is_space}
use did_vc.Hex.{
  normalize_digest_hex32, ensure_0x_hex, starts_with_0x, hex_value, all_hex, is_hex_string,
  normalize_hex_bytes, hex_byte, hex_pairs, hex_to_bytes, bytes_to_hex, hex_of_bytes, hex_digit,
}
use did_vc.Encode.{field_from_hex, field_to_hex32, chunks_of_bytes, split_seed_hex_to_chunks}
use did_vc.Encode.Element.{field_from_hex-field_to_hex32}
use did_vc.Encode.Seed.{IsSplit, split_seed_hex_to_chunks-IsSplit}
use did_vc.Encode.Pack.{Elements, IsPacked, pack_y_chunks_hex-IsPacked}

field_from_hex-field_to_hex32_example : field_from_hex (field_to_hex32 65536) ≡ ok 65536
field_from_hex-field_to_hex32_example = field_from_hex-field_to_hex32 65536 (omega arith)

abbrev chunks_or : Result (List ℕ) → List ℕ
chunks_or (ok cs) = cs
chunks_or (err e) = []

split_seed_hex_to_chunks-IsSplit_example :
    IsSplit (codes "0xABCD") (chunks_or (split_seed_hex_to_chunks (codes "0xABCD")))
unfolding trim_copy trim_front trim_back lower_copy to_lower starts_with is_space
    normalize_digest_hex32 ensure_0x_hex starts_with_0x hex_value all_hex is_hex_string
    normalize_hex_bytes hex_byte hex_pairs hex_to_bytes bytes_to_hex hex_of_bytes hex_digit str_eq
    chunks_of_bytes split_seed_hex_to_chunks
split_seed_hex_to_chunks-IsSplit_example =
    split_seed_hex_to_chunks-IsSplit (codes "0xABCD")
      (chunks_or (split_seed_hex_to_chunks (codes "0xABCD"))) refl

abbrev values : List ℕ
values = 65536 ∷ 1 ∷ 2 ∷ 3 ∷ 4 ∷ 5 ∷ 6 ∷ 7 ∷ 8 ∷ 9 ∷ 10 ∷ 11 ∷ 12 ∷ 13 ∷ 14 ∷ 65535 ∷ []

values-Elements : Elements values
values-Elements = (
  omega arith,
  (
    omega arith,
    (
      omega arith,
      (
        omega arith,
        (
          omega arith,
          (
            omega arith,
            (
              omega arith,
              (
                omega arith,
                (
                  omega arith,
                  (
                    omega arith,
                    (
                      omega arith,
                      (omega arith, (omega arith, (omega arith, (omega arith, (omega arith, tt))))),
                    ),
                  ),
                ),
              ),
            ),
          ),
        ),
      ),
    ),
  ),
)

pack_y_chunks_hex-IsPacked_example : IsPacked values
pack_y_chunks_hex-IsPacked_example = pack_y_chunks_hex-IsPacked values values-Elements refl
