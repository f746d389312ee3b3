-- ===== src/Trace/Keys.antt =====
-- The lookup of a guardian's place text in `vk_by_index` of cpp/ttss_trace.cpp, by the key entries.
use did_vc.Base.{
  ℕ, Str, true, false, ◌==◌, List, [], ◌∷◌, ◌++◌, Option, none, some, ok, All, ◌≡◌, ◌≢◌, refl, ap,
  subst, arith, bind-ok, Bool-cases, inl, inr,
}
use did_vc.Hex.{normalize_digest_hex32}
use did_vc.Ttss.{TtssKeyEntry}
use did_vc.Trace.{vk_by_index, vk_find, or_else}

-- No entry is the one of the guardian `idx`.
abbrev pub NoneOf : ℕ → List TtssKeyEntry → Type 0
NoneOf idx entries = All (λ (e : TtssKeyEntry). e.guardian_index ≢ idx) entries

-- `ui` is the normal form of the place text in the last entry of the guardian `idx`.
pub record IsLastEntry (entries : List TtssKeyEntry) (idx : ℕ) (ui : Str) : Type 0 where
  pub before : List TtssKeyEntry
  pub entry : TtssKeyEntry
  pub after : List TtssKeyEntry
  pub split : entries ≡ before ++ entry ∷ after
  pub index : entry.guardian_index ≡ idx
  pub last : NoneOf idx after
  pub normal : normalize_digest_hex32 entry.ui_hex ≡ ok ui

IsLastEntry-cons :
    (e : TtssKeyEntry) (entries : List TtssKeyEntry) (idx : ℕ) (ui : Str)
    → IsLastEntry entries idx ui
    → IsLastEntry (e ∷ entries) idx ui
IsLastEntry-cons e entries idx ui i = record {
  before = e ∷ i.before;
  entry = i.entry;
  after = i.after;
  split = ap (λ es. e ∷ es) i.split;
  index = i.index;
  last = i.last;
  normal = i.normal;
}

-- What the lookup says of the entries.
abbrev Found : List TtssKeyEntry → ℕ → Option Str → Type 0
Found entries idx none = NoneOf idx entries
Found entries idx (some ui) = IsLastEntry entries idx ui

vk_find-Found :
    (entries : List TtssKeyEntry) (vk : List (ℕ × Str)) (idx : ℕ)
    → vk_by_index entries ≡ ok vk
    → Found entries idx (vk_find idx vk)
unfolding vk_by_index vk_find
vk_find-Found [] [] idx h = tt
vk_find-Found [] (v ∷ vk) idx h = absurd (cc)
vk_find-Found (e ∷ entries) vk idx h =
    let (ui, normal, h1) = bind-ok (normalize_digest_hex32 e.ui_hex) _ h in
    let (rest, got, h2) = bind-ok (vk_by_index entries) _ h1 in
    let same : (e.guardian_index, ui) ∷ rest ≡ vk = cc in
    subst (λ m. Found (e ∷ entries) idx (vk_find idx m)) same
      (go (vk_find idx rest) ui normal (vk_find-Found entries rest idx got))
  where
    same_index : (a : ℕ) → (a == idx) ≡ true → a ≡ idx
    same_index a b = ground arith

    differs : (a : ℕ) → (a == idx) ≡ false → a ≢ idx
    differs a b = ground arith

    go :
        (o : Option Str) (ui : Str)
        → normalize_digest_hex32 e.ui_hex ≡ ok ui
        → Found entries idx o
        → Found (e ∷ entries) idx (or_else o (e.guardian_index == idx) ui)
    go (some later) ui normal f = IsLastEntry-cons e entries idx later f
    go none ui normal f = elim (Bool-cases (e.guardian_index == idx)) [
      | inl here ↦ rw here (record {
        before = [];
        entry = e;
        after = entries;
        split = refl;
        index = same_index e.guardian_index here;
        last = f;
        normal = normal;
      })
      | inr other ↦ rw other (differs e.guardian_index other, f)
    ]

-- A place text that the lookup finds is the one of the guardian's last entry.
pub vk_find-IsLastEntry :
    (entries : List TtssKeyEntry) (vk : List (ℕ × Str)) (idx : ℕ) (ui : Str)
    → vk_by_index entries ≡ ok vk
    → vk_find idx vk ≡ some ui
    → IsLastEntry entries idx ui
vk_find-IsLastEntry entries vk idx ui h f =
    subst (Found entries idx) f (vk_find-Found entries vk idx h)
