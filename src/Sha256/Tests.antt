-- ===== src/Sha256/Tests.antt =====
-- A published digest.
use did_vc.Base.{codes, true, ◌≡◌, refl}
use did_vc.Hex.{bytes_to_hex, hex_of_bytes, hex_digit}
use did_vc.Sha256.{
  sha256_hex, sha256_bytes, finish, push_bytes, push_byte, sha256_transform, add_words, sha_rounds,
  sha_round, rotr, next_word, extend_schedule, words_of_block, word_bytes, length_bytes,
}

hash_of_abc :
    sha256_hex (codes "abc") true
    ≡ codes "0xba7816bf8f01cfea414140de5dae2223b00361a396177a9cb410ff61f20015ad"
unfolding sha256_hex sha256_bytes finish push_bytes push_byte sha256_transform add_words sha_rounds
    sha_round rotr next_word extend_schedule words_of_block word_bytes length_bytes bytes_to_hex
    hex_of_bytes hex_digit
hash_of_abc = refl
