-- ===== src/Hex/Digits.antt =====
-- One digit: the digits that `bytes_to_hex` writes, and bodies made of them.
use Prim.Native.Nat.{bit_or, bit_and}
use did_vc.Base.{
  ℕ, ◌+◌, ◌-◌, ◌*◌, ◌/◌, ◌%◌, ◌^◌, ◌<◌, Str, Bool, true, false, ◌&&◌, ◌||◌, ltb, leb, ◌==◌, ==_iff,
  List, [], ◌∷◌, Option, none, some, length, All, ◌≡◌, refl, ap, ap₂, arith, every_below,
  every_below-true, ◌∙◌, not, if◌then◌else◌, sym,
}
use did_vc.Text.{is_space, to_lower, lower_copy}
use did_vc.Text.Trim.{NoBlank}
use did_vc.Hex.{hex_value, is_digit, all_hex, hex_digit, hex_of_bytes}

-- A digit in lower case.
unfoldable pub lower_hex : ℕ → Bool
lower_hex c = (leb b'0' c && leb c b'9') || (leb b'a' c && leb c b'f')

abbrev pub LowerHex : Str → Type 0
LowerHex s = All (λ c. lower_hex c ≡ true) s

pub lower_hex-is_space : (c : ℕ) → lower_hex c ≡ true → is_space c ≡ false
unfolding lower_hex is_space
lower_hex-is_space c h = ground arith

pub lower_hex-to_lower : (c : ℕ) → lower_hex c ≡ true → to_lower c ≡ c
unfolding lower_hex to_lower
lower_hex-to_lower c h = ground arith

pub lower_hex-hex_value : (c : ℕ) → lower_hex c ≡ true → is_digit (hex_value c) ≡ true
unfolding lower_hex hex_value
lower_hex-hex_value c h = ground arith

-- A digit that has been put in lower case.
pub to_lower-lower_hex :
    (c : ℕ) → is_digit (hex_value (to_lower c)) ≡ true → lower_hex (to_lower c) ≡ true
unfolding lower_hex hex_value to_lower
to_lower-lower_hex c h = ground arith

pub LowerHex-NoBlank : (s : Str) → LowerHex s → NoBlank s
LowerHex-NoBlank [] h = tt
LowerHex-NoBlank (c ∷ s) h = (lower_hex-is_space c h.0, LowerHex-NoBlank s h.1)

pub LowerHex-lower_copy : (s : Str) → LowerHex s → lower_copy s ≡ s
unfolding lower_copy
LowerHex-lower_copy [] h = refl
LowerHex-lower_copy (c ∷ s) h = ap₂ ◌∷◌ (lower_hex-to_lower c h.0) (LowerHex-lower_copy s h.1)

pub LowerHex-all_hex : (s : Str) → LowerHex s → all_hex s ≡ true
unfolding all_hex
LowerHex-all_hex [] h = refl
LowerHex-all_hex (c ∷ s) h = ground (arith, lower_hex-hex_value c h.0, LowerHex-all_hex s h.1)

abbrev pub Bytes : List ℕ → Type 0
Bytes bs = All (λ b. b < 256) bs

-- Sixteen digits, checked one by one.
value_is : Option ℕ → ℕ → Bool
value_is none v = false
value_is (some w) v = w == v

value_is_sound : (o : Option ℕ) (v : ℕ) → value_is o v ≡ true → o ≡ some v
unfolding value_is
value_is_sound none v h = cc
value_is_sound (some w) v h = ap some ((==_iff w v).0 h)

digit_test : ℕ → Bool
unfolding value_is
digit_test v = lower_hex (hex_digit v) && value_is (hex_value (hex_digit v)) v

digit_table : every_below 16 digit_test ≡ true
unfolding every_below digit_test lower_hex hex_digit hex_value
digit_table = refl

pub hex_digit_lem :
    (v : ℕ) → v < 16 → (lower_hex (hex_digit v) ≡ true) × (hex_value (hex_digit v) ≡ some v)
unfolding digit_test
hex_digit_lem v h =
    let t = every_below-true 16 digit_test v digit_table h in
    (ground arith, value_is_sound _ v (ground arith))

-- The two halves of a byte, and the byte from its halves.
byte_test : ℕ → Bool
byte_test b = (bit_and b 0x0f == b % 16) && (bit_or (b / 16 * 2 ^ 4) (b % 16) % 2 ^ 8 == b)

byte_table : every_below 256 byte_test ≡ true
unfolding every_below byte_test
byte_table = refl

pub byte_halves :
    (b : ℕ) → b < 256 → (bit_and b 0x0f ≡ b % 16) × (bit_or (b / 16 * 2 ^ 4) (b % 16) % 2 ^ 8 ≡ b)
unfolding byte_test
byte_halves b h = let t = every_below-true 256 byte_test b byte_table h in ground arith

pub hex_of_bytes-LowerHex : (bs : List ℕ) → Bytes bs → LowerHex (hex_of_bytes bs)
unfolding hex_of_bytes
hex_of_bytes-LowerHex [] h = tt
hex_of_bytes-LowerHex (b ∷ bs) h = (
  (hex_digit_lem (b / 16) (omega arith)).0,
  (rw (byte_halves b h.0).0 (hex_digit_lem (b % 16) (omega arith)).0, hex_of_bytes-LowerHex bs h.1),
)

pub length-hex_of_bytes : (bs : List ℕ) → length (hex_of_bytes bs) ≡ 2 * length bs
unfolding hex_of_bytes
length-hex_of_bytes [] = refl
length-hex_of_bytes (b ∷ bs) = omega (arith, length-hex_of_bytes bs)

-- Every digit in lower case is one of the sixteen.
digit_of : ℕ → ℕ
digit_of c = if ltb c 58 then c - 48 else c - 87

digit_of_test : ℕ → Bool
digit_of_test c = not (lower_hex c) || (ltb (digit_of c) 16 && hex_digit (digit_of c) == c)

digit_of_table : every_below 128 digit_of_test ≡ true
unfolding every_below digit_of_test digit_of lower_hex hex_digit
digit_of_table = refl

lower_hex-lt : (c : ℕ) → lower_hex c ≡ true → c < 128
unfolding lower_hex
lower_hex-lt c h = ground arith

pub lower_hex-hex_digit : (c : ℕ) → lower_hex c ≡ true → (v : ℕ) × (v < 16) × (c ≡ hex_digit v)
unfolding digit_of_test
lower_hex-hex_digit c h =
    let t = every_below-true 128 digit_of_test c digit_of_table (lower_hex-lt c h) in
    (digit_of c, ground arith, ground arith)

-- The byte of two digits has those digits.
pub byte_of_digits :
    (h l : ℕ)
    → h < 16
    → l < 16
    → (bit_or (h * 2 ^ 4) l % 2 ^ 8 ≡ h * 16 + l)
      × ((h * 16 + l) / 16 ≡ h)
      × (bit_and (h * 16 + l) 0x0f ≡ l)
byte_of_digits h l hh hl =
    let b = byte_halves (h * 16 + l) (omega arith) in
    let q : (h * 16 + l) / 16 ≡ h = omega arith in
    let r : (h * 16 + l) % 16 ≡ l = omega arith in
    (ap₂ (λ (x : ℕ) (y : ℕ). bit_or (x * 2 ^ 4) y % 2 ^ 8) (sym q) (sym r) ∙ b.1, q, b.0 ∙ r)
