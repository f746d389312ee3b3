-- ===== src/Encode/Element.antt =====
-- A field element as 32 bytes of text, and back.
use did_vc.Base.{
  ℕ, zero, suc, ◌+◌, ◌*◌, ◌/◌, ◌%◌, ◌^◌, ◌<◌, true, List, [], ◌∷◌, ◌++◌, length, replicate, ok, ◌≡◌,
  refl, ap, ◌∙◌, arith, bind-ok, drop,
}
use did_vc.Hex.{hex_of_bytes, bytes_to_hex, hex_value, ensure_0x_hex}
use did_vc.Hex.Digits.{Bytes, hex_digit_lem, byte_halves}
use did_vc.Hex.Digest.{IsDigest, bytes_to_hex-IsDigest, ensure_0x_hex-HexForm, IsDigest-HexForm}
use did_vc.Encode.{
  digit_or_throw, hex_mod_loop, hex_mod_small_field, field_normalize, field_from_hex,
  field_to_hex32, normalize_field_hex_bn254,
}

-- The value of the bytes modulo the prime, from `v` on.
bytes_mod : List ℕ → ℕ → ℕ
bytes_mod [] v = v
bytes_mod (b ∷ bytes) v = bytes_mod bytes ((v * 256 + b) % 65537)

two_digits :
    (v b : ℕ) → b < 256 → ((v * 16 + b / 16) % 65537 * 16 + b % 16) % 65537 ≡ (v * 256 + b) % 65537
two_digits v b h = omega arith

hex_mod_loop-hex_of_bytes :
    (bytes : List ℕ) (v : ℕ)
    → Bytes bytes
    → hex_mod_loop (hex_of_bytes bytes) v ≡ ok (bytes_mod bytes v)
unfolding hex_mod_loop hex_of_bytes bytes_mod
hex_mod_loop-hex_of_bytes [] v h = refl
hex_mod_loop-hex_of_bytes (b ∷ bytes) v h =
    rw
      (
        (byte_halves b h.0).0,
        (hex_digit_lem (b / 16) (omega arith)).1,
        (hex_digit_lem (b % 16) (omega arith)).1,
        two_digits v b h.0,
      )
      (hex_mod_loop-hex_of_bytes bytes ((v * 256 + b) % 65537) h.1)

-- Reading the text of some bytes gives their value.
hex_mod_small_field-Bytes :
    (bytes : List ℕ)
    → Bytes bytes
    → length bytes ≡ 32
    → hex_mod_small_field (bytes_to_hex bytes true) ≡ ok (bytes_mod bytes 0)
unfolding hex_mod_small_field
hex_mod_small_field-Bytes bytes h len =
    rw (ensure_0x_hex-HexForm _ (IsDigest-HexForm _ (bytes_to_hex-IsDigest bytes h len)))
      (unfold bytes_to_hex in hex_mod_loop-hex_of_bytes bytes 0 h)

abbrev element_bytes : ℕ → List ℕ
element_bytes w =
    replicate 28 0 ++ w / 2 ^ 24 % 256 ∷ w / 2 ^ 16 % 256 ∷ w / 2 ^ 8 % 256 ∷ w % 256 ∷ []

zeros_Bytes : (n : ℕ) (rest : List ℕ) → Bytes rest → Bytes (replicate n 0 ++ rest)
zeros_Bytes zero rest h = h
zeros_Bytes (suc n) rest h = (omega arith, zeros_Bytes n rest h)

element_bytes-Bytes : (w : ℕ) → Bytes (element_bytes w)
element_bytes-Bytes w =
    zeros_Bytes 28 (w / 2 ^ 24 % 256 ∷ w / 2 ^ 16 % 256 ∷ w / 2 ^ 8 % 256 ∷ w % 256 ∷ [])
      (omega arith, (omega arith, (omega arith, (omega arith, tt))))

zeros_mod : (n : ℕ) (rest : List ℕ) → bytes_mod (replicate n 0 ++ rest) 0 ≡ bytes_mod rest 0
unfolding bytes_mod
zeros_mod zero rest = refl
zeros_mod (suc n) rest = zeros_mod n rest

four_bytes :
    (w : ℕ)
    → w < 65537
    → bytes_mod (w / 2 ^ 24 % 256 ∷ w / 2 ^ 16 % 256 ∷ w / 2 ^ 8 % 256 ∷ w % 256 ∷ []) 0 ≡ w
unfolding bytes_mod
four_bytes w h = omega arith

-- The text of a field element is a digest in normal form.
pub field_to_hex32-IsDigest : (v : ℕ) → IsDigest (field_to_hex32 v)
unfolding field_to_hex32
field_to_hex32-IsDigest v =
    bytes_to_hex-IsDigest (element_bytes (field_normalize v))
      (element_bytes-Bytes (field_normalize v)) refl

-- Reading the text of a field element gives the element back.
pub field_from_hex-field_to_hex32 : (v : ℕ) → v < 65537 → field_from_hex (field_to_hex32 v) ≡ ok v
unfolding field_from_hex field_to_hex32 field_normalize
field_from_hex-field_to_hex32 v h =
    let w : ℕ = v % 65537 in
    hex_mod_small_field-Bytes (element_bytes w) (element_bytes-Bytes w) refl
    ∙ ap ok (zeros_mod 28 _ ∙ four_bytes w (omega arith) ∙ omega arith)

-- The text of a field element is its own normal form.
pub normalize-field_to_hex32 :
    (v : ℕ) → v < 65537 → normalize_field_hex_bn254 (field_to_hex32 v) ≡ ok (field_to_hex32 v)
unfolding normalize_field_hex_bn254
normalize-field_to_hex32 v h = rw (field_from_hex-field_to_hex32 v h)

hex_mod_loop-lt : (s : List ℕ) (v x : ℕ) → v < 65537 → hex_mod_loop s v ≡ ok x → x < 65537
unfolding hex_mod_loop
hex_mod_loop-lt [] v x lt h = let e : v ≡ x = cc in omega arith
hex_mod_loop-lt (c ∷ s) v x lt h =
    let (digit, _, h1) = bind-ok (digit_or_throw (hex_value c)) _ h in
    hex_mod_loop-lt s ((v * 16 + digit) % 65537) x (omega arith) h1

-- What is read is an element of the field.
pub field_from_hex-lt : (s : List ℕ) (x : ℕ) → field_from_hex s ≡ ok x → x < 65537
unfolding field_from_hex hex_mod_small_field
field_from_hex-lt s x h =
    let (norm, _, h1) = bind-ok (ensure_0x_hex s) _ h in
    hex_mod_loop-lt (drop 2 norm) 0 x (omega arith) h1
