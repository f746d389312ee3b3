-- ===== src/Hex/RoundTrip.antt =====
-- `bytes_to_hex` and `hex_to_bytes` undo one another.
use Prim.Native.Nat.{bit_and}
use did_vc.Base.{
  ℕ, ◌+◌, ◌*◌, ◌/◌, ◌%◌, ◌<◌, Str, codes, true, false, ◌==◌, List, [], ◌∷◌, ◌++◌, ok, err, Result,
  ◌≡◌, refl, ap, arith, is_empty, ◌∙◌, length, drop, if◌then◌else◌, sym, ◌>>=◌, ◌≢◌,
}
use did_vc.Hex.{
  hex_value, ensure_0x_hex, hex_byte, hex_pairs, hex_to_bytes, hex_digit, hex_of_bytes,
  bytes_to_hex,
}
use did_vc.Hex.Digits.{
  LowerHex, Bytes, hex_digit_lem, byte_halves, hex_of_bytes-LowerHex, length-hex_of_bytes,
  lower_hex-hex_digit, byte_of_digits,
}
use did_vc.Hex.Digest.{ensure_0x_hex-HexForm, ensure_0x_hex-ok}

pub hex_pairs-hex_of_bytes : (bs : List ℕ) → Bytes bs → hex_pairs (hex_of_bytes bs) ≡ ok bs
unfolding hex_pairs hex_of_bytes hex_byte
hex_pairs-hex_of_bytes [] h = refl
hex_pairs-hex_of_bytes (b ∷ bs) h =
    let halves = byte_halves b h.0 in
    rw (
      halves.0,
      (hex_digit_lem (b / 16) (omega arith)).1,
      (hex_digit_lem (b % 16) (omega arith)).1,
      hex_pairs-hex_of_bytes bs h.1,
      halves.1,
    )

even_test : (n : ℕ) → (2 * n % 2 == 0) ≡ true
even_test n = ground arith

nonempty : (bs : List ℕ) → bs ≢ [] → is_empty (hex_of_bytes bs) ≡ false
unfolding hex_of_bytes
nonempty [] h = absurd (h refl)
nonempty (b ∷ bs) h = refl

-- Reading the text of some bytes gives the bytes back.
pub hex_to_bytes-bytes_to_hex :
    (bs : List ℕ) → Bytes bs → bs ≢ [] → hex_to_bytes (bytes_to_hex bs true) ≡ ok bs
unfolding hex_to_bytes bytes_to_hex
hex_to_bytes-bytes_to_hex bs h ne =
    rw
      (
        ensure_0x_hex-HexForm (b'0' ∷ b'x' ∷ hex_of_bytes bs) (record {
          body = hex_of_bytes bs;
          form = refl;
          digits = hex_of_bytes-LowerHex bs h;
          some_digit = nonempty bs ne;
        }),
        length-hex_of_bytes bs,
        even_test (length bs),
      )
      (hex_pairs-hex_of_bytes bs h)

-- The bytes of a body, and the body from them.
hex_pairs_back :
    (s : Str) (bs : List ℕ)
    → LowerHex s
    → length s % 2 ≡ 0
    → hex_pairs s ≡ ok bs
    → Bytes bs × (hex_of_bytes bs ≡ s)
unfolding hex_pairs hex_of_bytes
hex_pairs_back [] bs h even e = let k : bs ≡ [] = cc in rw k (tt, refl)
hex_pairs_back (c ∷ []) bs h even e = absurd (omega arith)
hex_pairs_back (c ∷ d ∷ s) bs h even e =
    let (hi, hi_lt, c_is) = lower_hex-hex_digit c h.0 in
    let (lo, lo_lt, d_is) = lower_hex-hex_digit d h.1.0 in
    let (byte, quot, rem) = byte_of_digits hi lo hi_lt lo_lt in
    let first : hex_byte (hex_value c) (hex_value d) ≡ ok (hi * 16 + lo) =
      rw (c_is, d_is, (hex_digit_lem hi hi_lt).1, (hex_digit_lem lo lo_lt).1)
        (unfold hex_byte in ap ok byte) in
    let e' : (hex_pairs s >>= λ rest. ok ((hi * 16 + lo) ∷ rest)) ≡ ok bs = rw first at e in
    go (hex_pairs s) refl hi lo hi_lt lo_lt c_is d_is quot rem e'
      (λ rest p. hex_pairs_back s rest h.1.1 (omega arith) p)
  where
    go :
        (r : Result (List ℕ))
        → hex_pairs s ≡ r
        → (hi lo : ℕ) → hi < 16
        → lo < 16
        → c ≡ hex_digit hi
        → d ≡ hex_digit lo
        → (hi * 16 + lo) / 16 ≡ hi
        → bit_and (hi * 16 + lo) 0x0f ≡ lo
        → (r >>= λ rest. ok ((hi * 16 + lo) ∷ rest)) ≡ ok bs
        → ((rest : List ℕ) → hex_pairs s ≡ ok rest → Bytes rest × (hex_of_bytes rest ≡ s))
        → Bytes bs × (hex_of_bytes bs ≡ c ∷ d ∷ s)
    go (err x) p hi lo hh hl ce de q r e ih = absurd (cc)
    go (ok rest) p hi lo hh hl ce de q r e ih =
        let (bytes, same) = ih rest p in
        let k : bs ≡ (hi * 16 + lo) ∷ rest = cc in
        rw k ((omega arith, bytes), rw (q, r, same, ce, de))

-- The text that `hex_to_bytes` accepts is the text of the bytes that it returns, once it is put
-- into normal form.
pub hex_to_bytes_back :
    (s : Str) (bs : List ℕ)
    → hex_to_bytes s ≡ ok bs
    → Bytes bs × (ensure_0x_hex s ≡ ok (bytes_to_hex bs true))
unfolding hex_to_bytes bytes_to_hex
hex_to_bytes_back s bs h = go (ensure_0x_hex s) refl h
  where
    go :
        (r : Result Str)
        → ensure_0x_hex s ≡ r
        → (r >>= λ v.
            if length (drop 2 v) % 2 == 0
            then hex_pairs (drop 2 v)
            else err (codes "odd_hex_length"))
          ≡ ok bs
        → Bytes bs × (r ≡ ok (codes "0x" ++ hex_of_bytes bs))
    go (err e) p h = absurd (cc)
    go (ok v) p h =
        let f = ensure_0x_hex-ok s v p in
        let h' : (if length f.body % 2 == 0 then hex_pairs f.body else err (codes "odd_hex_length"))
            ≡ ok bs =
          rw f.form at h in
        let even : length f.body % 2 ≡ 0 = ground arith in
        let pairs : hex_pairs f.body ≡ ok bs = ground arith in
        let (bytes, same) = hex_pairs_back f.body bs f.digits even pairs in
        (bytes, ap ok (f.form ∙ ap (λ (t : Str). b'0' ∷ b'x' ∷ t) (sym same)))
