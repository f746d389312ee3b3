-- ===== src/Hex.antt =====
-- cpp/hex_utils.cpp: checking, normalising and converting hexadecimal text.
pub mod Digits
pub mod Digest
pub mod RoundTrip
pub mod Shape
mod Tests
use Prim.Native.Nat.{bit_or, bit_and}
use did_vc.Base.{
  ℕ, zero, suc, ◌+◌, ◌-◌, ◌*◌, ◌/◌, ◌%◌, ◌^◌, Str, codes, Bool, true, false, not, ◌&&◌, ◌||◌, ltb,
  leb, ◌==◌, if◌then◌else◌, List, [], ◌∷◌, ◌++◌, length, drop, replicate, get_or, is_empty, Option,
  none, some, Result, ok, err, ◌>>=◌, ◌>>◌, require,
}
use did_vc.Text.{trim_copy, lower_copy}

unfoldable pub starts_with_0x : Str → Bool
starts_with_0x (c ∷ d ∷ s) = c == b'0' && (d == b'x' || d == b'X')
starts_with_0x _ = false

-- `none` is the -1 that stands for no digit.
unfoldable pub hex_value : ℕ → Option ℕ
hex_value c =
    if leb b'0' c && leb c b'9'
    then some (c - b'0')
    else if leb b'a' c && leb c b'f'
    then some (10 + (c - b'a'))
    else if leb b'A' c && leb c b'F'
    then some (10 + (c - b'A'))
    else none

abbrev pub is_digit : Option ℕ → Bool
is_digit none = false
is_digit (some v) = true

-- The loop over the digits from `pos` on.
unfoldable pub all_hex : Str → Bool
all_hex [] = true
all_hex (c ∷ s) = is_digit (hex_value c) && all_hex s

unfoldable pub is_hex_string : Str → Bool → Bool
is_hex_string s require_prefix =
    let v = trim_copy s in
    let body = if starts_with_0x v then drop 2 v else v in
    if not (starts_with_0x v) && require_prefix
    then false
    else if is_empty body
    then false
    else all_hex body

unfoldable pub ensure_0x_hex : Str → Result Str
ensure_0x_hex s =
    let v = lower_copy (trim_copy s) in
    if is_hex_string v false
    then ok (if starts_with_0x v then v else codes "0x" ++ v)
    else err (codes "invalid_hex_string")

unfoldable pub normalize_hex_bytes : Str → ℕ → Result Str
normalize_hex_bytes s byte_len = do
  v ← ensure_0x_hex s
  let body = drop 2 v
  if ltb (byte_len * 2) (length body)
      then err (codes "hex_too_long")
      else ok (codes "0x" ++ (replicate (byte_len * 2 - length body) b'0' ++ body))

unfoldable pub normalize_digest_hex32 : Str → Result Str
normalize_digest_hex32 s = normalize_hex_bytes s 32

-- One byte from its two digits.
unfoldable pub hex_byte : Option ℕ → Option ℕ → Result ℕ
hex_byte (some hi) (some lo) = ok (bit_or (hi * 2 ^ 4) lo % 2 ^ 8)
hex_byte _ _ = err (codes "invalid_hex_digit")

-- The loop over the output bytes; the length of the body is even.
unfoldable pub hex_pairs : Str → Result (List ℕ)
hex_pairs (c ∷ d ∷ s) = do
  b ← hex_byte (hex_value c) (hex_value d)
  rest ← hex_pairs s
  ok (b ∷ rest)
hex_pairs _ = ok []

unfoldable pub hex_to_bytes : Str → Result (List ℕ)
hex_to_bytes s = do
  v ← ensure_0x_hex s
  let body = drop 2 v
  if length body % 2 == 0 then hex_pairs body else err (codes "odd_hex_length")

-- `kHexDigits[v]`.
unfoldable pub hex_digit : ℕ → ℕ
hex_digit v = get_or (codes "0123456789abcdef") v 0

unfoldable pub hex_of_bytes : List ℕ → Str
hex_of_bytes [] = []
hex_of_bytes (b ∷ bytes) = hex_digit (b / 2 ^ 4) ∷ hex_digit (bit_and b 0x0f) ∷ hex_of_bytes bytes

unfoldable pub bytes_to_hex : List ℕ → Bool → Str
bytes_to_hex bytes with_prefix =
    if with_prefix then codes "0x" ++ hex_of_bytes bytes else hex_of_bytes bytes
