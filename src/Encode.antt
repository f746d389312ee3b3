-- ===== src/Encode.antt =====
-- The encodings of cpp/ttss_nits_shamir.cpp: field elements and seeds as hexadecimal text, and the
-- sixteen values of a share packed at 17 bits each.
pub mod Element
pub mod Seed
pub mod PackBit
pub mod Pack
mod Tests
use Prim.Native.Nat.{bit_or}
use did_vc.Base.{
  ℕ, zero, suc, ◌+◌, ◌-◌, ◌*◌, ◌/◌, ◌%◌, ◌^◌, Str, codes, Bool, true, false, ltb, leb, ◌==◌,
  if◌then◌else◌, List, [], ◌∷◌, ◌++◌, length, get_or, set, drop, replicate, Option, none, some,
  Result, ok, err, ◌>>=◌,
}
use did_vc.Hex.{hex_value, ensure_0x_hex, normalize_digest_hex32, hex_to_bytes, bytes_to_hex}
use did_vc.Sha256.{sha256_joined_hex}
use did_vc.Field.{field_mod}

-- `kSecretChunkCount`, `kPackedYBytes`.
abbrev pub chunk_count : ℕ
chunk_count = 16

abbrev pub packed_y_bytes : ℕ
packed_y_bytes = 34

abbrev pub digit_or_throw : Option ℕ → Result ℕ
digit_or_throw none = err (codes "bad_hex_digit")
digit_or_throw (some digit) = ok digit

-- The loop of `hex_mod_small_field`, with `value` so far.
unfoldable pub hex_mod_loop : Str → ℕ → Result ℕ
hex_mod_loop [] value = ok value
hex_mod_loop (c ∷ s) value = do
  digit ← digit_or_throw (hex_value c)
  hex_mod_loop s ((value * 2 ^ 4 + digit) % field_mod)

unfoldable pub hex_mod_small_field : Str → Result ℕ
hex_mod_small_field hex = do norm ← ensure_0x_hex hex; hex_mod_loop (drop 2 norm) 0

unfoldable pub hash_parts_to_field : List Str → Result ℕ
hash_parts_to_field parts = hex_mod_small_field (sha256_joined_hex parts)

unfoldable pub field_normalize : ℕ → ℕ
field_normalize v = v % field_mod

unfoldable pub field_from_hex : Str → Result ℕ
field_from_hex hex = hex_mod_small_field hex

-- 28 zero bytes, and the four bytes of the reduced value.
unfoldable pub field_to_hex32 : ℕ → Str
field_to_hex32 v =
    let w = field_normalize v in
    bytes_to_hex
      (replicate 28 0 ++ w / 2 ^ 24 % 256 ∷ w / 2 ^ 16 % 256 ∷ w / 2 ^ 8 % 256 ∷ w % 256 ∷ []) true

unfoldable pub normalize_field_hex_bn254 : Str → Result Str
normalize_field_hex_bn254 hex = do v ← field_from_hex hex; ok (field_to_hex32 v)

-- Two bytes to a chunk, big endian.
unfoldable pub chunks_of_bytes : List ℕ → List ℕ
chunks_of_bytes (b0 ∷ b1 ∷ bytes) = bit_or (b0 * 2 ^ 8) b1 ∷ chunks_of_bytes bytes
chunks_of_bytes _ = []

unfoldable pub split_seed_hex_to_chunks : Str → Result (List ℕ)
split_seed_hex_to_chunks seed_hex = do
  norm ← normalize_digest_hex32 seed_hex
  bytes ← hex_to_bytes norm
  ok (chunks_of_bytes bytes)

unfoldable pub bytes_of_chunks : List ℕ → Result (List ℕ)
bytes_of_chunks [] = ok []
bytes_of_chunks (c ∷ chunks) =
    if ltb 0xFFFF c
    then err (codes "recovered_chunk_out_of_16bit_range")
    else do rest ← bytes_of_chunks chunks; ok (c / 2 ^ 8 % 256 ∷ c % 256 ∷ rest)

unfoldable pub chunks_to_seed_hex : List ℕ → Result Str
chunks_to_seed_hex chunks = do bytes ← bytes_of_chunks chunks; ok (bytes_to_hex bytes true)

-- `out[byte_idx] |= b << bit_in_byte` at the bit position `pos`.
unfoldable pub write_bit : List ℕ → ℕ → ℕ → List ℕ
write_bit out pos b =
    set out (pos / 8) (bit_or (get_or out (pos / 8) 0) (b * 2 ^ (7 - pos % 8) % 2 ^ 8) % 2 ^ 8)

-- The inner loop: the `n` low bits of `v`, the highest first, from `pos` on.
unfoldable pub write_bits : ℕ → ℕ → List ℕ → ℕ → List ℕ
write_bits zero v out pos = out
write_bits (suc bit) v out pos = write_bits bit v (write_bit out pos (v / 2 ^ bit % 2)) (suc pos)

unfoldable pub pack_loop : List ℕ → List ℕ → ℕ → Result (List ℕ)
pack_loop [] out pos = ok out
pack_loop (v ∷ values) out pos =
    if leb field_mod v
    then err (codes "y_chunk_out_of_field_range")
    else pack_loop values (write_bits 17 v out pos) (pos + 17)

unfoldable pub pack_y_chunks_hex : List ℕ → Result Str
pack_y_chunks_hex values = do
  out ← pack_loop values (replicate packed_y_bytes 0) 0
  ok (bytes_to_hex out true)

-- `(in[byte_idx] >> bit_in_byte) & 1`.
unfoldable pub read_bit : List ℕ → ℕ → ℕ
read_bit bytes pos = get_or bytes (pos / 8) 0 / 2 ^ (7 - pos % 8) % 2

-- The inner loop, with `v` so far.
unfoldable pub read_bits : ℕ → List ℕ → ℕ → ℕ → ℕ
read_bits zero bytes pos v = v
read_bits (suc bit) bytes pos v =
    read_bits bit bytes (suc pos) (bit_or (v * 2) (read_bit bytes pos) % 2 ^ 32)

unfoldable pub unpack_loop : ℕ → List ℕ → ℕ → List ℕ
unpack_loop zero bytes pos = []
unpack_loop (suc n) bytes pos = read_bits 17 bytes pos 0 ∷ unpack_loop n bytes (pos + 17)

unfoldable pub unpack_y_chunks_hex : Str → Result (List ℕ)
unpack_y_chunks_hex packed_hex = do
  v ← ensure_0x_hex packed_hex
  bytes ← hex_to_bytes v
  if length bytes == packed_y_bytes
      then ok (unpack_loop chunk_count bytes 0)
      else err (codes "bad_packed_y_size")
