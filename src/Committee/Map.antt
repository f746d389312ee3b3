-- ===== src/Committee/Map.antt =====
-- `CommitteeStore` of cpp/committee_node.cpp. The hash map is an association list with one entry for
-- a key, and the multimap the list of its pairs in the order they came in.
use did_vc.Base.{
  ℕ, Str, str_eq, str_eq_iff, true, false, Bool-cases, if◌then◌else◌, List, [], ◌∷◌, ◌++◌, Option,
  none, some, ◌≡◌, ◌≢◌, ◌⊎◌, inl, inr, refl, sym, ◌∙◌, ◌∙◌,
}
use did_vc.Envelope.{ShareEnvelope}

pub record StoredEnvelope : Type 0 where
  pub env : ShareEnvelope
  pub share_key : Str
  pub stored_at_ms : ℕ
  pub invalidated_at_ms : ℕ
  pub invalidated_reason : Str

abbrev pub Shares : Type 0
Shares = List (Str × StoredEnvelope)

pub record CommitteeStore : Type 0 where
  pub ttss_shares : Shares
  pub by_version : List (Str × Str)

-- `ttssShares.find(key)`.
unfoldable pub find {ℓ} : {A : Type ℓ} → Str → List (Str × A) → Option A
find key [] = none
find key ((k, s) ∷ m) = if str_eq k key then some s else find key m

-- `ttssShares[key] = s`.
unfoldable pub put {ℓ} : {A : Type ℓ} → Str → A → List (Str × A) → List (Str × A)
put key s [] = (key, s) ∷ []
put key s ((k, t) ∷ m) = if str_eq k key then (k, s) ∷ m else (k, t) ∷ put key s m

-- `byVersion.equal_range(vkey)`: the share keys, oldest first.
unfoldable pub equal_range : Str → List (Str × Str) → List Str
equal_range vkey [] = []
equal_range vkey ((v, key) ∷ m) =
    if str_eq v vkey then key ∷ equal_range vkey m else equal_range vkey m

-- The text is one of the list.
abbrev pub In : Str → List Str → Type 0
In s [] = ⊥
In s (t ∷ ts) = (s ≡ t) ⊎ In s ts

str_eq_refl : (s : Str) → str_eq s s ≡ true
str_eq_refl s = (str_eq_iff s s).1 refl

pub str_ne : (s t : Str) → s ≢ t → str_eq s t ≡ false
str_ne s t ne = elim (Bool-cases (str_eq s t)) [
  | inl same ↦ absurd (ne ((str_eq_iff s t).0 same))
  | inr differ ↦ differ
]

pub find-put_same {ℓ} :
    {A : Type ℓ} (key : Str) (s : A) (m : List (Str × A)) → find key (put key s m) ≡ some s
unfolding find put
find-put_same key s [] = rw (str_eq_refl key) refl
find-put_same key s ((k, t) ∷ m) = elim (Bool-cases (str_eq k key)) [
  | inl same ↦ rw (same, same) refl
  | inr differ ↦ rw (differ, differ) (find-put_same key s m)
]

pub find-put_other {ℓ} :
    {A : Type ℓ} (other key : Str) (s : A) (m : List (Str × A))
    → other ≢ key
    → find other (put key s m) ≡ find other m
unfolding find put
find-put_other other key s [] ne = rw (str_ne key other (λ e. ne (sym e))) refl
find-put_other other key s ((k, t) ∷ m) ne = elim (Bool-cases (str_eq k key)) [
  | inl same ↦
      let differ : str_eq k other ≡ false =
        str_ne k other (λ e. ne (sym e ∙ (str_eq_iff k key).0 same)) in
      rw (same, differ) refl
  | inr differ ↦ rw differ (elim (Bool-cases (str_eq k other)) [
    | inl here ↦ rw here refl
    | inr there ↦ rw there (find-put_other other key s m ne)
  ])
]

-- A pair that came in is found under its version key.
pub equal_range-emplace :
    (vkey key : Str) (m : List (Str × Str)) → In key (equal_range vkey (m ++ (vkey, key) ∷ []))
unfolding equal_range
equal_range-emplace vkey key [] = rw (str_eq_refl vkey) (inl refl)
equal_range-emplace vkey key ((v, k) ∷ m) = elim (Bool-cases (str_eq v vkey)) [
  | inl same ↦ rw same (inr (equal_range-emplace vkey key m))
  | inr differ ↦ rw differ (equal_range-emplace vkey key m)
]

-- A later pair hides no earlier one.
pub equal_range_keep :
    (vkey key : Str) (m : List (Str × Str)) (p : Str × Str)
    → In key (equal_range vkey m)
    → In key (equal_range vkey (m ++ p ∷ []))
unfolding equal_range
equal_range_keep vkey key [] p h = elim h [ ]
equal_range_keep vkey key ((v, k) ∷ m) p h = elim (Bool-cases (str_eq v vkey)) [
  | inl same ↦
      let h' : In key (k ∷ equal_range vkey m) = rw same at h in
      rw same (elim h' [ inl e ↦ inl e | inr later ↦ inr (equal_range_keep vkey key m p later) ])
  | inr differ ↦
      let h' : In key (equal_range vkey m) = rw differ at h in
      rw differ (equal_range_keep vkey key m p h')
]
