-- ===== src/Hex/Shape.antt =====
-- The texts that `is_hex_string` of cpp/hex_utils.cpp accepts, described by their characters.
use did_vc.Base.{
  ℕ, ◌≤◌, Str, is_empty, Bool, true, false, ◌&&◌, ◌||◌, ◌==◌, if◌then◌else◌, [], ◌∷◌, ◌++◌, drop,
  All, ◌≡◌, ◌≢◌, ◌⊎◌, inl, inr, refl, ap, ◌∙◌, arith, Bool-cases, not,
}
use did_vc.Text.{is_space, trim_copy}
use did_vc.Text.Trim.{Blank, NoBlank, trim_copy_lem, trim_copy-between}
use did_vc.Hex.{hex_value, is_digit, all_hex, starts_with_0x, is_hex_string}

-- `0` to `9`, `a` to `f` or `A` to `F`.
abbrev pub IsHexDigit : ℕ → Type 0
IsHexDigit c = ((48 ≤ c) × (c ≤ 57)) ⊎ (((97 ≤ c) × (c ≤ 102)) ⊎ ((65 ≤ c) × (c ≤ 70)))

-- `0x`, `0X` or nothing.
abbrev pub IsPrefix : Str → Type 0
IsPrefix s = (s ≡ []) ⊎ ((s ≡ 48 ∷ 120 ∷ []) ⊎ (s ≡ 48 ∷ 88 ∷ []))

-- At least one digit, behind a prefix or none, between blanks.
pub record IsHexText (s : Str) : Type 0 where
  pub before : Str
  pub mark : Str
  pub body : Str
  pub after : Str
  pub split : s ≡ before ++ ((mark ++ body) ++ after)
  pub blank_before : Blank before
  pub blank_after : Blank after
  pub prefix : IsPrefix mark
  pub digits : All IsHexDigit body
  pub some_digit : body ≢ []

hex_value-IsHexDigit : (c : ℕ) → is_digit (hex_value c) ≡ true → IsHexDigit c
unfolding hex_value
hex_value-IsHexDigit c h = ground arith

IsHexDigit-hex_value : (c : ℕ) → IsHexDigit c → is_digit (hex_value c) ≡ true
unfolding hex_value
IsHexDigit-hex_value c h = ground arith

IsHexDigit-is_space : (c : ℕ) → IsHexDigit c → is_space c ≡ false
unfolding is_space
IsHexDigit-is_space c h = ground arith

all_hex-IsHexDigit : (s : Str) → all_hex s ≡ true → All IsHexDigit s
unfolding all_hex
all_hex-IsHexDigit [] h = tt
all_hex-IsHexDigit (c ∷ s) h =
    (hex_value-IsHexDigit c (left _ _ h), all_hex-IsHexDigit s (right _ _ h))
  where
    left : (a b : Bool) → (a && b) ≡ true → a ≡ true
    left a b h = ground arith

    right : (a b : Bool) → (a && b) ≡ true → b ≡ true
    right a b h = ground arith

IsHexDigit-all_hex : (s : Str) → All IsHexDigit s → all_hex s ≡ true
unfolding all_hex
IsHexDigit-all_hex [] h = refl
IsHexDigit-all_hex (c ∷ s) h = rw (IsHexDigit-hex_value c h.0, IsHexDigit-all_hex s h.1) refl

IsHexDigit-NoBlank : (s : Str) → All IsHexDigit s → NoBlank s
IsHexDigit-NoBlank [] h = tt
IsHexDigit-NoBlank (c ∷ s) h = (IsHexDigit-is_space c h.0, IsHexDigit-NoBlank s h.1)

some_character : (s : Str) → s ≢ [] → is_empty s ≡ false
some_character [] h = absurd (h refl)
some_character (c ∷ s) h = refl

not_empty : (s : Str) → is_empty s ≡ false → s ≢ []
not_empty s h e = let p = ap is_empty e in cc

-- A text splits into its prefix and the rest.
starts_with_0x-split :
    (v : Str) → starts_with_0x v ≡ true → (mark : Str) × IsPrefix mark × (v ≡ mark ++ drop 2 v)
unfolding starts_with_0x
starts_with_0x-split [] h = absurd (cc)
starts_with_0x-split (c ∷ []) h = absurd (cc)
starts_with_0x-split (c ∷ d ∷ s) h = (c ∷ d ∷ [], inr (two c d h), refl)
  where
    two :
        (c d : ℕ)
        → (c == 48 && (d == 120 || d == 88)) ≡ true
        → (c ∷ d ∷ [] ≡ 48 ∷ 120 ∷ []) ⊎ (c ∷ d ∷ [] ≡ 48 ∷ 88 ∷ [])
    two c d h =
        let first : c ≡ 48 = ground arith in
        let second : (d ≡ 120) ⊎ (d ≡ 88) = ground arith in
        elim second [ inl x ↦ inl (rw (first, x) refl) | inr y ↦ inr (rw (first, y) refl) ]

-- The digits alone do not start with a prefix.
digits-starts_with_0x : (s : Str) → All IsHexDigit s → starts_with_0x s ≡ false
unfolding starts_with_0x
digits-starts_with_0x [] h = refl
digits-starts_with_0x (c ∷ []) h = refl
digits-starts_with_0x (c ∷ d ∷ s) h = second c d h.1.0
  where
    second : (c d : ℕ) → IsHexDigit d → (c == 48 && (d == 120 || d == 88)) ≡ false
    second c d h = ground arith

-- What `is_hex_string` accepts without a prefix being required has the shape.
pub is_hex_string-IsHexText : (s : Str) → is_hex_string s false ≡ true → IsHexText s
unfolding is_hex_string
is_hex_string-IsHexText s h =
    let (before, after, b, a, split, _, _) = trim_copy_lem s in
    elim (Bool-cases (starts_with_0x (trim_copy s))) [
      | inl marked ↦
          let (mark, prefix, v) = starts_with_0x-split (trim_copy s) marked in
          let (e, hex) = tests (drop 2 (trim_copy s)) (rw marked at h) in
          record {
            before = before;
            mark = mark;
            body = drop 2 (trim_copy s);
            after = after;
            split = split ∙ ap (λ t. before ++ (t ++ after)) v;
            blank_before = b;
            blank_after = a;
            prefix = prefix;
            digits = all_hex-IsHexDigit _ hex;
            some_digit = not_empty _ e;
          }
      | inr plain ↦
          let (e, hex) = tests (trim_copy s) (rw plain at h) in
          record {
            before = before;
            mark = [];
            body = trim_copy s;
            after = after;
            split = split;
            blank_before = b;
            blank_after = a;
            prefix = inl refl;
            digits = all_hex-IsHexDigit _ hex;
            some_digit = not_empty _ e;
          }
    ]
  where
    tests :
        (body : Str)
        → (if is_empty body then false else all_hex body) ≡ true
        → (is_empty body ≡ false) × (all_hex body ≡ true)
    tests [] h = absurd (cc)
    tests (c ∷ body) h = (refl, h)

-- The prefix and the digits are what is left between the blanks.
trim_copy-digits :
    (before after mark body : Str)
    → Blank before
    → Blank after
    → IsPrefix mark
    → All IsHexDigit body
    → body ≢ []
    → trim_copy (before ++ ((mark ++ body) ++ after)) ≡ mark ++ body
unfolding is_space
trim_copy-digits before after mark [] b a p d n = absurd (n refl)
trim_copy-digits before after mark (c ∷ s) b a p d n =
    let solid = IsHexDigit-NoBlank (c ∷ s) d in
    elim p [
      | inl none_there ↦ rw none_there (trim_copy-between before after c s b a solid)
      | inr (inl lower) ↦
          rw lower (trim_copy-between before after 48 (120 ∷ c ∷ s) b a (refl, (refl, solid)))
      | inr (inr upper) ↦
          rw upper (trim_copy-between before after 48 (88 ∷ c ∷ s) b a (refl, (refl, solid)))
    ]

-- The test of the digits, behind the prefix if there is one.
abbrev body_test : Str → Bool
body_test v =
    let body = if starts_with_0x v then drop 2 v else v in
    if not (starts_with_0x v) && false then false else if is_empty body then false else all_hex body

body_test-digits :
    (mark body : Str)
    → IsPrefix mark
    → All IsHexDigit body
    → body ≢ []
    → body_test (mark ++ body) ≡ true
unfolding starts_with_0x
body_test-digits mark body p d n =
    let e = some_character body n in
    let hex = IsHexDigit-all_hex body d in
    elim p [
      | inl none_there ↦ rw none_there (plain body e hex (digits-starts_with_0x body d))
      | inr (inl lower) ↦ rw lower (marked 120 body e hex refl)
      | inr (inr upper) ↦ rw upper (marked 88 body e hex refl)
    ]
  where
    plain :
        (v : Str)
        → is_empty v ≡ false
        → all_hex v ≡ true
        → starts_with_0x v ≡ false
        → body_test v ≡ true
    plain v e hex unmarked = rw (unmarked, e, hex) refl

    marked :
        (x : ℕ) (v : Str)
        → is_empty v ≡ false
        → all_hex v ≡ true
        → starts_with_0x (48 ∷ x ∷ v) ≡ true
        → body_test (48 ∷ x ∷ v) ≡ true
    marked x v e hex prefixed = rw (prefixed, e, hex) refl

-- Every text of the shape is accepted.
pub IsHexText-is_hex_string : (s : Str) → IsHexText s → is_hex_string s false ≡ true
unfolding is_hex_string
IsHexText-is_hex_string s t =
    let trimmed : trim_copy s ≡ t.mark ++ t.body =
      ap trim_copy t.split
      ∙ trim_copy-digits t.before t.after t.mark t.body t.blank_before t.blank_after t.prefix
          t.digits t.some_digit in
    ap body_test trimmed ∙ body_test-digits t.mark t.body t.prefix t.digits t.some_digit
