-- ===== src/Hex/Digest.antt =====
-- The normal forms: what `ensure_0x_hex` and `normalize_digest_hex32` return, and on what they
-- change nothing.
use did_vc.Base.{
  ℕ, zero, suc, ◌+◌, ◌-◌, ◌≤◌, Str, codes, true, false, ◌&&◌, ◌||◌, ltb, leb, ◌==◌, List, [], ◌∷◌,
  ◌++◌, ok, err, Result, All, ◌≡◌, refl, ap, ap₂, arith, is_empty, ◌∙◌, Bool-cases, inl, inr,
  length, drop, replicate, if◌then◌else◌, length-append, length-replicate, subst, ◌>>=◌,
}
use did_vc.Text.{is_space, to_lower, lower_copy, trim_copy}
use did_vc.Text.Trim.{
  NoBlank, StartsSolid, EndsSolid, trim_copy_lem, trim_copy-solid, trim_copy-NoBlank,
}
use did_vc.Hex.{
  hex_value, is_digit, all_hex, starts_with_0x, is_hex_string, ensure_0x_hex, normalize_hex_bytes,
  normalize_digest_hex32, bytes_to_hex, hex_of_bytes,
}
use did_vc.Hex.Digits.{
  lower_hex, LowerHex, LowerHex-NoBlank, LowerHex-lower_copy, LowerHex-all_hex, Bytes,
  hex_of_bytes-LowerHex, length-hex_of_bytes,
}

-- `v` is `0x` and a body of lower-case digits.
pub record HexForm (v : Str) : Type 0 where
  pub body : Str
  pub form : v ≡ b'0' ∷ b'x' ∷ body
  pub digits : LowerHex body
  pub some_digit : is_empty body ≡ false

-- A 32-byte digest: `0x` and 64 lower-case digits.
pub record IsDigest (v : Str) : Type 0 where
  pub body : Str
  pub form : v ≡ b'0' ∷ b'x' ∷ body
  pub digits : LowerHex body
  pub width : length body ≡ 64

prefix-NoBlank : (body : Str) → LowerHex body → NoBlank (b'0' ∷ b'x' ∷ body)
unfolding is_space
prefix-NoBlank body h = (refl, (refl, LowerHex-NoBlank body h))

prefix-lower_copy :
    (body : Str) → LowerHex body → lower_copy (b'0' ∷ b'x' ∷ body) ≡ b'0' ∷ b'x' ∷ body
unfolding lower_copy to_lower
prefix-lower_copy body h = ap (λ (t : Str). b'0' ∷ b'x' ∷ t) (LowerHex-lower_copy body h)

pub IsDigest-lower_copy : (v : Str) → IsDigest v → lower_copy v ≡ v
IsDigest-lower_copy v d = rw d.form (prefix-lower_copy d.body d.digits)

prefix-is_hex_string :
    (body : Str)
    → LowerHex body
    → is_empty body ≡ false
    → is_hex_string (b'0' ∷ b'x' ∷ body) false ≡ true
unfolding is_hex_string starts_with_0x
prefix-is_hex_string body h ne =
    rw (trim_copy-NoBlank (b'0' ∷ b'x' ∷ body) (prefix-NoBlank body h), ne, LowerHex-all_hex body h)

-- A text in the form is left alone.
pub ensure_0x_hex-HexForm : (v : Str) → HexForm v → ensure_0x_hex v ≡ ok v
unfolding ensure_0x_hex starts_with_0x
ensure_0x_hex-HexForm v f = rw f.form (go f.body f.digits f.some_digit)
  where
    go :
        (body : Str)
        → LowerHex body
        → is_empty body ≡ false
        → ensure_0x_hex (b'0' ∷ b'x' ∷ body) ≡ ok (b'0' ∷ b'x' ∷ body)
    go body h ne = rw (
      trim_copy-NoBlank (b'0' ∷ b'x' ∷ body) (prefix-NoBlank body h),
      prefix-lower_copy body h,
      prefix-is_hex_string body h ne,
    )

-- Text with no capitals, such as `lower_copy` returns.
abbrev NoCapital : Str → Type 0
NoCapital s = All (λ c. (leb 65 c && leb c 90) ≡ false) s

lower_copy-NoCapital : (s : Str) → NoCapital (lower_copy s)
unfolding lower_copy to_lower
lower_copy-NoCapital [] = tt
lower_copy-NoCapital (c ∷ s) = (one c, lower_copy-NoCapital s)
  where
    one : (c : ℕ) → (leb 65 (to_lower c) && leb (to_lower c) 90) ≡ false
    one c = ground arith

is_space-to_lower : (c : ℕ) → is_space c ≡ false → is_space (to_lower c) ≡ false
unfolding is_space to_lower
is_space-to_lower c h = ground arith

lower_copy-StartsSolid : (s : Str) → StartsSolid s → StartsSolid (lower_copy s)
unfolding lower_copy
lower_copy-StartsSolid [] h = tt
lower_copy-StartsSolid (c ∷ s) h = is_space-to_lower c h

lower_copy-EndsSolid : (s : Str) → EndsSolid s → EndsSolid (lower_copy s)
unfolding lower_copy
lower_copy-EndsSolid [] h = tt
lower_copy-EndsSolid (c ∷ []) h = is_space-to_lower c h
lower_copy-EndsSolid (c ∷ d ∷ s) h = lower_copy-EndsSolid (d ∷ s) h

trim-lower-trim : (s : Str) → trim_copy (lower_copy (trim_copy s)) ≡ lower_copy (trim_copy s)
trim-lower-trim s =
    let (pre, post, b, d, e, starts, ends) = trim_copy_lem s in
    trim_copy-solid _ (lower_copy-StartsSolid (trim_copy s) starts)
      (lower_copy-EndsSolid (trim_copy s) ends)

all_hex-LowerHex : (s : Str) → NoCapital s → all_hex s ≡ true → LowerHex s
unfolding all_hex
all_hex-LowerHex [] n h = tt
all_hex-LowerHex (c ∷ s) n h = (one c n.0 (ground arith), all_hex-LowerHex s n.1 (ground arith))
  where
    one :
        (c : ℕ)
        → (leb 65 c && leb c 90) ≡ false
        → is_digit (hex_value c) ≡ true
        → lower_hex c ≡ true
    one c n h = unfold lower_hex hex_value in ground arith

-- What an accepted text in lower case looks like, with its prefix or without.
accepted_prefixed :
    (v : Str)
    → NoCapital v
    → starts_with_0x v ≡ true
    → is_empty (drop 2 v) ≡ false
    → all_hex (drop 2 v) ≡ true
    → HexForm v
unfolding starts_with_0x
accepted_prefixed [] n p e h = absurd (cc)
accepted_prefixed (c ∷ []) n p e h = absurd (cc)
accepted_prefixed (c ∷ d ∷ s) n p e h = record {
  body = s;
  form = let q = n.1.0 in ap₂ (λ (a : ℕ) (b : ℕ). a ∷ b ∷ s) (zero_char c d p) (x_char c d p q);
  digits = all_hex-LowerHex s n.1.1 h;
  some_digit = e;
}
  where
    zero_char : (c d : ℕ) → (c == b'0' && (d == b'x' || d == b'X')) ≡ true → c ≡ b'0'
    zero_char c d h = ground arith

    x_char :
        (c d : ℕ)
        → (c == b'0' && (d == b'x' || d == b'X')) ≡ true
        → (leb 65 d && leb d 90) ≡ false
        → d ≡ b'x'
    x_char c d h n = ground arith

accepted :
    (v : Str)
    → NoCapital v
    → trim_copy v ≡ v
    → is_hex_string v false ≡ true
    → HexForm (if starts_with_0x v then v else codes "0x" ++ v)
unfolding is_hex_string
accepted v n t h = elim (Bool-cases (starts_with_0x v)) [
  | inl p ↦
      let h' : (if is_empty (drop 2 v) then false else all_hex (drop 2 v)) ≡ true =
        rw (t, p) at h in
      rw p (accepted_prefixed v n p (ground arith) (ground arith))
  | inr p ↦
      let h' : (if is_empty v then false else all_hex v) ≡ true = rw (t, p) at h in
      rw p (record {
        body = v;
        form = refl;
        digits = all_hex-LowerHex v n (ground arith);
        some_digit = ground arith;
      })
]

-- What `ensure_0x_hex` returns is in the form.
pub ensure_0x_hex-ok : (s v : Str) → ensure_0x_hex s ≡ ok v → HexForm v
unfolding ensure_0x_hex
ensure_0x_hex-ok s v h = elim (Bool-cases (is_hex_string (lower_copy (trim_copy s)) false)) [
  | inl a ↦
      let f =
        accepted (lower_copy (trim_copy s)) (lower_copy-NoCapital (trim_copy s)) (trim-lower-trim s)
          a in
      let e : ok (
            if starts_with_0x (lower_copy (trim_copy s))
            then lower_copy (trim_copy s)
            else codes "0x" ++ lower_copy (trim_copy s))
          ≡ ok v =
        rw a at h in
      subst HexForm (cc) f
  | inr a ↦ let e : err (codes "invalid_hex_string") ≡ ok v = rw a at h in absurd (cc)
]

LowerHex-append : (s t : Str) → LowerHex s → LowerHex t → LowerHex (s ++ t)
LowerHex-append [] t h k = k
LowerHex-append (c ∷ s) t h k = (h.0, LowerHex-append s t h.1 k)

LowerHex-zeros : (n : ℕ) → LowerHex (replicate n b'0')
unfolding lower_hex
LowerHex-zeros zero = tt
LowerHex-zeros (suc n) = (refl, LowerHex-zeros n)

length-pad :
    (body : Str) → length body ≤ 64 → length (replicate (64 - length body) b'0' ++ body) ≡ 64
length-pad body le =
    length-append (replicate (64 - length body) b'0') body
    ∙ ap (λ (t : ℕ). t + length body) (length-replicate (64 - length body) b'0')
    ∙ omega arith

pad_step :
    (body v : Str)
    → (if ltb 64 (length body)
        then err (codes "hex_too_long")
        else ok (b'0' ∷ b'x' ∷ (replicate (64 - length body) b'0' ++ body)))
      ≡ ok v
    → LowerHex body
    → IsDigest v
pad_step body v h d = elim (Bool-cases (ltb 64 (length body))) [
  | inl long ↦ let e : err (codes "hex_too_long") ≡ ok v = rw long at h in absurd (cc)
  | inr fits ↦
      let e : ok (b'0' ∷ b'x' ∷ (replicate (64 - length body) b'0' ++ body)) ≡ ok v =
        rw fits at h in
      record {
        body = replicate (64 - length body) b'0' ++ body;
        form = cc;
        digits = LowerHex-append _ body (LowerHex-zeros (64 - length body)) d;
        width = length-pad body (ground arith);
      }
]

-- What `normalize_digest_hex32` returns is a 32-byte digest in normal form.
pub normalize_digest_hex32-ok : (s v : Str) → normalize_digest_hex32 s ≡ ok v → IsDigest v
unfolding normalize_digest_hex32 normalize_hex_bytes
normalize_digest_hex32-ok s v h = go (ensure_0x_hex s) refl h
  where
    go :
        (r : Result Str)
        → ensure_0x_hex s ≡ r
        → (r >>= λ w.
            if ltb 64 (length (drop 2 w))
            then err (codes "hex_too_long")
            else ok (codes "0x" ++ (replicate (64 - length (drop 2 w)) b'0' ++ drop 2 w)))
          ≡ ok v
        → IsDigest v
    go (err e) p h = absurd (cc)
    go (ok w) p h =
        let f = ensure_0x_hex-ok s w p in
        let e : w ≡ b'0' ∷ b'x' ∷ f.body = f.form in pad_step f.body v (rw e at h) f.digits

nonempty_of_length : (body : Str) → length body ≡ 64 → is_empty body ≡ false
nonempty_of_length [] h = absurd (omega arith)
nonempty_of_length (c ∷ s) h = refl

pub IsDigest-HexForm : (v : Str) → IsDigest v → HexForm v
IsDigest-HexForm v d = record {
  body = d.body;
  form = d.form;
  digits = d.digits;
  some_digit = nonempty_of_length d.body d.width;
}

-- A digest in normal form is left alone.
pub normalize_digest_hex32-IsDigest : (v : Str) → IsDigest v → normalize_digest_hex32 v ≡ ok v
unfolding normalize_digest_hex32 normalize_hex_bytes
normalize_digest_hex32-IsDigest v d =
    rw (ensure_0x_hex-HexForm v (IsDigest-HexForm v d)) (rw (d.form, d.width) refl)

-- Normalising twice is normalising once, and the result is a digest in normal form.
pub normalize_digest_hex32_idem :
    (s v : Str) → normalize_digest_hex32 s ≡ ok v → IsDigest v × (normalize_digest_hex32 v ≡ ok v)
normalize_digest_hex32_idem s v h =
    let d = normalize_digest_hex32-ok s v h in (d, normalize_digest_hex32-IsDigest v d)

-- The text of 32 bytes is a digest in normal form.
pub bytes_to_hex-IsDigest :
    (bs : List ℕ) → Bytes bs → length bs ≡ 32 → IsDigest (bytes_to_hex bs true)
unfolding bytes_to_hex
bytes_to_hex-IsDigest bs h len = record {
  body = hex_of_bytes bs;
  form = refl;
  digits = hex_of_bytes-LowerHex bs h;
  width = omega (arith, length-hex_of_bytes bs);
}

-- A text in the form is a hexadecimal string, and not empty.
pub HexForm-is_hex_string :
    (v : Str) → HexForm v → (is_hex_string v false ≡ true) × (is_empty v ≡ false)
HexForm-is_hex_string v f = rw f.form (prefix-is_hex_string f.body f.digits f.some_digit, refl)

pub IsDigest-is_hex_string :
    (v : Str) → IsDigest v → (is_hex_string v false ≡ true) × (is_empty v ≡ false)
IsDigest-is_hex_string v d = HexForm-is_hex_string v (IsDigest-HexForm v d)
