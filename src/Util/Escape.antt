-- ===== src/Util/Escape.antt =====
-- The escapes of cpp/url_utils.cpp and cpp/csv_utils.cpp can be undone.
use did_vc.Base.{
  ℕ, ◌+◌, ◌-◌, ◌*◌, ◌/◌, ◌%◌, ◌<◌, Str, Bool, true, false, ◌||◌, ltb, ◌==◌, if◌then◌else◌, [], ◌∷◌,
  any, All, ◌≡◌, ◌≢◌, refl, ap, ap₂, ◌∙◌, sym, arith, Bool-cases, inl, inr, every_below,
  every_below-true, ==_iff,
}
use did_vc.Util.{is_unreserved, upper_digit, url_encode, is_csv_special, quoted, csv_escape}

-- The value of an upper-case digit.
abbrev digit_value : ℕ → ℕ
digit_value c = if ltb c 58 then c - 48 else c - 55

-- Percent-decoding: the reading of an escape that `url_encode` is for.
unfoldable pub percent_decode : Str → Str
percent_decode [] = []
percent_decode (c ∷ []) = c ∷ []
percent_decode (c ∷ a ∷ []) = c ∷ a ∷ []
percent_decode (c ∷ a ∷ b ∷ cs) =
    let rest = percent_decode cs in
    let next = percent_decode (a ∷ b ∷ cs) in
    if c == b'%' then (digit_value a * 16 + digit_value b) ∷ rest else c ∷ next

percent_decode-plain :
    (c : ℕ) (cs : Str) → (c == b'%') ≡ false → percent_decode (c ∷ cs) ≡ c ∷ percent_decode cs
unfolding percent_decode
percent_decode-plain c [] h = refl
percent_decode-plain c (a ∷ []) h = refl
percent_decode-plain c (a ∷ b ∷ cs) h = rw h refl

digit_back : (d : ℕ) → d < 16 → digit_value (upper_digit d) ≡ d
digit_back d h =
    (==_iff _ _).0 (every_below-true 16 (λ k. digit_value (upper_digit k) == k) d checked h)
  where
    checked : every_below 16 (λ k. digit_value (upper_digit k) == k) ≡ true
    checked = unfold every_below in refl

unreserved_plain : (c : ℕ) → c < 256 → is_unreserved c ≡ true → (c == b'%') ≡ false
unreserved_plain c h u = go (c == b'%') refl
  where
    go : (b : Bool) → (c == b'%') ≡ b → b ≡ false
    go false e = refl
    go true e =
        let q : c ≡ 37 = (==_iff _ _).0 e in
        let r : is_unreserved 37 ≡ true = rw (← q) u in
        let n : is_unreserved 37 ≡ false = unfold is_unreserved in refl in absurd (cc)

-- Percent-decoding the encoded bytes gives the bytes back.
pub percent_decode-url_encode : (s : Str) → All (λ c. c < 256) s → percent_decode (url_encode s) ≡ s
unfolding percent_decode url_encode
percent_decode-url_encode [] h = refl
percent_decode-url_encode (c ∷ cs) h = elim (Bool-cases (is_unreserved c)) [
  | inl keep ↦ rw keep (
      percent_decode-plain c (url_encode cs) (unreserved_plain c h.0 keep)
      ∙ ap (λ (z : Str). c ∷ z) (percent_decode-url_encode cs h.1))
  | inr escape ↦ rw escape (ap₂ ◌∷◌ (two_digits c h.0) (percent_decode-url_encode cs h.1))
]
  where
    two_digits :
        (c : ℕ)
        → c < 256
        → digit_value (upper_digit (c / 16)) * 16 + digit_value (upper_digit (c % 16)) ≡ c
    two_digits c h =
        let a = digit_back (c / 16) (omega arith) in
        let b = digit_back (c % 16) (omega arith) in rw (a, b) (omega arith)

-- The reading of a quoted field behind its first quote.
unfoldable pub unquote_body : Str → Str
unquote_body [] = []
unquote_body (c ∷ []) = if c == 34 then [] else c ∷ []
unquote_body (c ∷ d ∷ cs) =
    let rest = unquote_body cs in
    let next = unquote_body (d ∷ cs) in if c == 34 then 34 ∷ rest else c ∷ next

-- The reading of a field that stands alone.
unfoldable pub csv_unquote : Str → Str
csv_unquote [] = []
csv_unquote (c ∷ cs) = if c == 34 then unquote_body cs else c ∷ cs

unquote_body-plain :
    (c d : ℕ) (cs : Str) → (c == 34) ≡ false → unquote_body (c ∷ d ∷ cs) ≡ c ∷ unquote_body (d ∷ cs)
unfolding unquote_body
unquote_body-plain c d cs h = rw h refl

unquote_body-quoted : (s : Str) → unquote_body (quoted s) ≡ s
unfolding unquote_body quoted
unquote_body-quoted [] = refl
unquote_body-quoted (c ∷ cs) = elim (Bool-cases (c == 34)) [
  | inl quote ↦ rw quote (ap₂ ◌∷◌ (sym ((==_iff _ _).0 quote)) (unquote_body-quoted cs))
  | inr plain ↦
      rw plain
        (behind (quoted cs) plain (some_end cs) ∙ ap (λ (z : Str). c ∷ z) (unquote_body-quoted cs))
]
  where
    some_end : (cs : Str) → quoted cs ≢ []
    some_end [] e = absurd (cc)
    some_end (c ∷ cs) e = elim (Bool-cases (c == 34)) [
      | inl quote ↦ let e' : 34 ∷ 34 ∷ quoted cs ≡ [] = rw quote at e in absurd (cc)
      | inr plain ↦ let e' : c ∷ quoted cs ≡ [] = rw plain at e in absurd (cc)
    ]

    behind : (t : Str) → (c == 34) ≡ false → t ≢ [] → unquote_body (c ∷ t) ≡ c ∷ unquote_body t
    behind [] plain ne = absurd (ne refl)
    behind (d ∷ t) plain ne = unquote_body-plain c d t plain

-- Reading an escaped field gives the text back.
pub csv_unquote-csv_escape : (s : Str) → csv_unquote (csv_escape s) ≡ s
unfolding csv_escape csv_unquote
csv_unquote-csv_escape s = elim (Bool-cases (any is_csv_special s)) [
  | inl special ↦ rw special (unquote_body-quoted s)
  | inr plain ↦ rw plain (unquoted s plain)
]
  where
    unquoted : (s : Str) → any is_csv_special s ≡ false → csv_unquote s ≡ s
    unquoted [] h = refl
    unquoted (c ∷ cs) h = rw (first c _ h) refl
      where
        first : (c : ℕ) (b : Bool) → (is_csv_special c || b) ≡ false → (c == 34) ≡ false
        first c b h = ground arith
