-- ===== src/Text/Trim.antt =====
-- What `trim_copy` removes.
use did_vc.Base.{
  ℕ, Str, is_empty, Bool, true, false, Bool-cases, ◌&&◌, if◌then◌else◌, [], ◌∷◌, ◌++◌, All, ◌≡◌,
  refl, ap, ◌∙◌, inl, inr, ◌⊎◌,
}
use did_vc.Text.{is_space, trim_front, trim_back, trim_copy}

abbrev pub Blank : Str → Type 0
Blank s = All (λ c. is_space c ≡ true) s

abbrev pub NoBlank : Str → Type 0
NoBlank s = All (λ c. is_space c ≡ false) s

-- The first character, if there is one, is no blank; so for the last.
abbrev pub StartsSolid : Str → Type 0
StartsSolid [] = Unit
StartsSolid (c ∷ s) = is_space c ≡ false

abbrev pub EndsSolid : Str → Type 0
EndsSolid [] = Unit
EndsSolid (c ∷ []) = is_space c ≡ false
EndsSolid (c ∷ d ∷ s) = EndsSolid (d ∷ s)

trim_front-split : (s : Str) → (pre : Str) × Blank pre × (s ≡ pre ++ trim_front s)
unfolding trim_front
trim_front-split [] = ([], tt, refl)
trim_front-split (c ∷ s) = elim (Bool-cases (is_space c)) [
  | inl e ↦ let (pre, b, h) = trim_front-split s in (c ∷ pre, (e, b), rw e (ap (λ t. c ∷ t) h))
  | inr e ↦ ([], tt, rw e)
]

trim_front-StartsSolid : (s : Str) → StartsSolid (trim_front s)
unfolding trim_front
trim_front-StartsSolid [] = tt
trim_front-StartsSolid (c ∷ s) = elim (Bool-cases (is_space c)) [
  | inl e ↦ rw e (trim_front-StartsSolid s)
  | inr e ↦ rw e e
]

empty_cases : (s : Str) → (s ≡ []) ⊎ (is_empty s ≡ false)
empty_cases [] = inl refl
empty_cases (c ∷ s) = inr refl

trim_back-keep :
    (c : ℕ) (s : Str) → is_empty (trim_back s) ≡ false → trim_back (c ∷ s) ≡ c ∷ trim_back s
unfolding trim_back
trim_back-keep c s e = rw e

EndsSolid-cons : (c : ℕ) (s : Str) → is_empty s ≡ false → EndsSolid s → EndsSolid (c ∷ s)
EndsSolid-cons c [] e h = absurd (cc)
EndsSolid-cons c (d ∷ s) e h = h

trim_back-EndsSolid : (s : Str) → EndsSolid (trim_back s)
unfolding trim_back
trim_back-EndsSolid [] = tt
trim_back-EndsSolid (c ∷ s) = elim (empty_cases (trim_back s)) [
  | inl e ↦ rw e (last_one c)
  | inr e ↦ rw e (EndsSolid-cons c (trim_back s) e (trim_back-EndsSolid s))
]
  where
    last_one : (c : ℕ) → EndsSolid (if is_space c then [] else c ∷ [])
    last_one c = elim (Bool-cases (is_space c)) [ inl b ↦ rw b tt | inr b ↦ rw b b ]

trim_back-split : (s : Str) → (post : Str) × Blank post × (s ≡ trim_back s ++ post)
unfolding trim_back
trim_back-split [] = ([], tt, refl)
trim_back-split (c ∷ s) =
    let (post, b, h) = trim_back-split s in
    elim (empty_cases (trim_back s)) [
      | inl e ↦ elim (Bool-cases (is_space c)) [
        | inl k ↦ (c ∷ s, (k, rw h (rw e b)), rw (e, k))
        | inr k ↦ (post, b, rw (e, k) (ap (λ t. c ∷ t) (rw e at h)))
      ]
      | inr e ↦ (post, b, rw e (ap (λ t. c ∷ t) h))
    ]

trim_back-StartsSolid : (s : Str) → StartsSolid s → StartsSolid (trim_back s)
unfolding trim_back
trim_back-StartsSolid [] h = tt
trim_back-StartsSolid (c ∷ s) h = rw h (keep (is_empty (trim_back s)))
  where
    keep : (b : Bool) → StartsSolid (if b && false then [] else c ∷ trim_back s)
    keep true = h
    keep false = h

-- `trim_copy` removes blanks at both ends and nothing else: the text is blanks, the result and
-- blanks, and the result neither starts nor ends with a blank.
pub trim_copy_lem :
    (s : Str)
    → (pre : Str) × (post : Str) × Blank pre
      × Blank post
      × (s ≡ pre ++ (trim_copy s ++ post))
      × StartsSolid (trim_copy s)
      × EndsSolid (trim_copy s)
unfolding trim_copy
trim_copy_lem s =
    let (pre, b, h) = trim_front-split s in
    let (post, d, k) = trim_back-split (trim_front s) in
    (
      pre,
      post,
      b,
      d,
      h ∙ ap (λ t. pre ++ t) k,
      trim_back-StartsSolid (trim_front s) (trim_front-StartsSolid s),
      trim_back-EndsSolid (trim_front s),
    )

trim_front-solid : (s : Str) → StartsSolid s → trim_front s ≡ s
unfolding trim_front
trim_front-solid [] h = refl
trim_front-solid (c ∷ s) h = rw h

trim_back-solid : (s : Str) → EndsSolid s → trim_back s ≡ s
unfolding trim_back
trim_back-solid [] h = refl
trim_back-solid (c ∷ []) h = rw h
trim_back-solid (c ∷ d ∷ s) h =
    let ih = trim_back-solid (d ∷ s) h in
    trim_back-keep c (d ∷ s) (ap is_empty ih) ∙ ap (λ t. c ∷ t) ih

pub trim_copy-solid : (s : Str) → StartsSolid s → EndsSolid s → trim_copy s ≡ s
unfolding trim_copy
trim_copy-solid s h k = ap trim_back (trim_front-solid s h) ∙ trim_back-solid s k

-- Trimming twice is trimming once.
pub trim_copy_idem : (s : Str) → trim_copy (trim_copy s) ≡ trim_copy s
trim_copy_idem s =
    let (pre, post, b, d, e, starts, ends) = trim_copy_lem s in
    trim_copy-solid (trim_copy s) starts ends

NoBlank-StartsSolid : (s : Str) → NoBlank s → StartsSolid s
NoBlank-StartsSolid [] h = tt
NoBlank-StartsSolid (c ∷ s) h = h.0

NoBlank-EndsSolid : (s : Str) → NoBlank s → EndsSolid s
NoBlank-EndsSolid [] h = tt
NoBlank-EndsSolid (c ∷ []) h = h.0
NoBlank-EndsSolid (c ∷ d ∷ s) h = NoBlank-EndsSolid (d ∷ s) h.1

pub trim_copy-NoBlank : (s : Str) → NoBlank s → trim_copy s ≡ s
trim_copy-NoBlank s h = trim_copy-solid s (NoBlank-StartsSolid s h) (NoBlank-EndsSolid s h)

trim_front-Blank : (b s : Str) → Blank b → trim_front (b ++ s) ≡ trim_front s
unfolding trim_front
trim_front-Blank [] s h = refl
trim_front-Blank (c ∷ b) s h = rw h.0 (trim_front-Blank b s h.1)

trim_back-Blank : (b : Str) → Blank b → trim_back b ≡ []
unfolding trim_back
trim_back-Blank [] h = refl
trim_back-Blank (c ∷ b) h = rw (trim_back-Blank b h.1, h.0) refl

trim_back-NoBlank : (s b : Str) → NoBlank s → Blank b → trim_back (s ++ b) ≡ s
unfolding trim_back
trim_back-NoBlank [] b n h = trim_back-Blank b h
trim_back-NoBlank (c ∷ s) b n h = rw (trim_back-NoBlank s b n.1 h, n.0) (kept (is_empty s))
  where
    kept : (e : Bool) → (if e && false then [] else c ∷ s) ≡ c ∷ s
    kept true = refl
    kept false = refl

-- Between blanks, a text without blanks that is not empty is what `trim_copy` leaves.
pub trim_copy-between :
    (before after : Str) (c : ℕ) (s : Str)
    → Blank before
    → Blank after
    → NoBlank (c ∷ s)
    → trim_copy (before ++ ((c ∷ s) ++ after)) ≡ c ∷ s
unfolding trim_copy
trim_copy-between before after c s b a n =
    ap trim_back
      (trim_front-Blank before ((c ∷ s) ++ after) b ∙ trim_front-solid ((c ∷ s) ++ after) n.0)
    ∙ trim_back-NoBlank (c ∷ s) after n a
