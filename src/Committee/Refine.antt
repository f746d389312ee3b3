-- ===== src/Committee/Refine.antt =====
-- The handlers of cpp/committee_node.cpp keep the promise.
use std.Path.{fun_ext}
use did_vc.Base.{
  ℕ, Str, str_eq, str_eq_iff, Bool, true, false, ◌||◌, any, Bool-cases, List, [], ◌∷◌, ◌++◌, Option,
  none, some, Result, ok, err, ◌≡◌, ◌⊎◌, inl, inr, refl, sym, ◌∙◌, ap, subst,
}
use did_vc.Envelope.{ShareEnvelope, share_key}
use did_vc.Committee.Map.{
  Shares, StoredEnvelope, CommitteeStore, find, equal_range, In, find-put_same, find-put_other,
  str_ne,
}
use did_vc.Committee.Handlers.{
  entry, deactivated, invalidate_found, invalidate_loop, invalidate_version, store_envelope,
}
use did_vc.Committee.Invalidate.{Str-cases, step-other}
use did_vc.Committee.KeyText.{version_key-share_key}
use did_vc.Committee.Spec.{
  Promised, version_of, switched_off, same_text, off_if, off_in_version, replaced, switched, env_of,
  view, IsIndexed,
}

skipped :
    (k reason : Str) (now : ℕ → ℕ) (mc : Shares × ℕ) (s : StoredEnvelope)
    → s.env.active ≡ false
    → invalidate_found (some s) k reason now mc ≡ mc
skipped k reason now mc s off = rw off refl

-- The loop of the invalidation, seen from one key.
step-env_of :
    (k reason : Str) (now : ℕ → ℕ) (mc : Shares × ℕ) (key : Str)
    → env_of (find key (invalidate_found (find k mc.0) k reason now mc).0)
      ≡ off_if (str_eq k key) (env_of (find key mc.0))
step-env_of k reason now mc key = elim (Str-cases key k) [
  | inl same ↦ rw (same, (str_eq_iff k k).1 refl) (here (find k mc.0) refl)
  | inr differ ↦
      rw (str_ne k key (λ e. differ (sym e)), step-other key k reason now mc differ)
        (left_alone (find key mc.0))
]
  where
    left_alone : (o : Option StoredEnvelope) → env_of o ≡ off_if false (env_of o)
    left_alone none = refl
    left_alone (some s) = refl

    already : (s : StoredEnvelope) → s.env.active ≡ false → some s.env ≡ some (switched_off s.env)
    already s off = ap (λ b. some (record s.env { active = b })) off

    here :
        (o : Option StoredEnvelope)
        → find k mc.0 ≡ o
        → env_of (find k (invalidate_found o k reason now mc).0) ≡ off_if true (env_of o)
    here none e = rw e refl
    here (some s) e = elim (Bool-cases s.env.active) [
      | inl on ↦ rw (on, find-put_same k (deactivated s reason (now mc.1)) mc.0) refl
      | inr off ↦
          ap (λ (c : Shares × ℕ). env_of (find k c.0)) (skipped k reason now mc s off)
          ∙ ap env_of e
          ∙ already s off
    ]

off_twice : (a b : Bool) (o : Option ShareEnvelope) → off_if b (off_if a o) ≡ off_if (a || b) o
off_twice a b none = refl
off_twice true true (some e) = refl
off_twice true false (some e) = refl
off_twice false b (some e) = refl

loop-env_of :
    (keys : List Str) (reason : Str) (now : ℕ → ℕ) (mc : Shares × ℕ) (key : Str)
    → env_of (find key (invalidate_loop keys reason now mc).0)
      ≡ off_if (any (λ k. str_eq k key) keys) (env_of (find key mc.0))
unfolding invalidate_loop
loop-env_of [] reason now mc key = unchanged (env_of (find key mc.0))
  where
    unchanged : (o : Option ShareEnvelope) → o ≡ off_if false o
    unchanged none = refl
    unchanged (some e) = refl
loop-env_of (k ∷ keys) reason now mc key =
    loop-env_of keys reason now (invalidate_found (find k mc.0) k reason now mc) key
    ∙ ap (off_if (any (λ z. str_eq z key) keys)) (step-env_of k reason now mc key)
    ∙ off_twice (str_eq k key) (any (λ z. str_eq z key) keys) (env_of (find key mc.0))

any-In : (key : Str) (keys : List Str) → In key keys → any (λ k. str_eq k key) keys ≡ true
any-In key [] h = elim h [ ]
any-In key (k ∷ keys) (inl same) = let e = (str_eq_iff k key).1 (sym same) in rw e refl
any-In key (k ∷ keys) (inr later) = rw (any-In key keys later) (last (str_eq k key))
  where
    last : (b : Bool) → (b || true) ≡ true
    last true = refl
    last false = refl

In-any : (key : Str) (keys : List Str) → any (λ k. str_eq k key) keys ≡ true → In key keys
In-any key [] h = absurd (cc)
In-any key (k ∷ keys) h = elim (Bool-cases (str_eq k key)) [
  | inl same ↦ inl (sym ((str_eq_iff k key).0 same))
  | inr differ ↦ inr (In-any key keys (rw differ at h))
]

-- The index finds exactly the envelopes of the version.
indexed_version :
    (store : CommitteeStore) (vkey key : Str) (e : ShareEnvelope)
    → IsIndexed store
    → view store key ≡ some e
    → any (λ k. str_eq k key) (equal_range vkey store.by_version) ≡ same_text (version_of e) vkey
indexed_version store vkey key e st here =
    elim (Bool-cases (any (λ k. str_eq k key) (equal_range vkey store.by_version))) [
      | inl hit ↦
          let (f, (keyed, version)) = st.origin vkey key (In-any key _ hit) in
          let agree = version_key-share_key e f (st.keyed key e here ∙ sym keyed) in
          rw (hit, agree, version) (sym ((str_eq_iff vkey vkey).1 refl))
      | inr miss ↦
          let (v, (version, at)) = st.listed key e here in
          rw (miss, version)
            (sym (
              str_ne v vkey (λ same.
                let p =
                  any-In key _ (subst (λ z. In key (equal_range z store.by_version)) same at) in
                cc)))
    ]

off_in_version-off_if :
    (vkey : Str) (b : Bool) (o : Option ShareEnvelope)
    → ((e : ShareEnvelope) → o ≡ some e → b ≡ same_text (version_of e) vkey)
    → off_if b o ≡ off_in_version vkey o
off_in_version-off_if vkey b none h = refl
off_in_version-off_if vkey b (some e) h = ap (λ c. off_if c (some e)) (h e refl)

pub invalidate_version-view :
    (v : Result Str) (reason : Str) (now : ℕ → ℕ) (store : CommitteeStore)
    → IsIndexed store
    → view (invalidate_version v reason now store).0 ≡ switched v (view store)
invalidate_version-view (err e) reason now store st = refl
invalidate_version-view (ok vkey) reason now store st = fun_ext (λ key.
    loop-env_of (equal_range vkey store.by_version) reason now (store.ttss_shares, 0) key
    ∙ off_in_version-off_if vkey _ (view store key)
        (λ e here. indexed_version store vkey key e st here))

off_in_version-some :
    (vkey : Str) (o : Option ShareEnvelope) (e : ShareEnvelope)
    → off_in_version vkey o ≡ some e
    → (before : ShareEnvelope) × ((o ≡ some before)
        × ((share_key e ≡ share_key before) × (version_of e ≡ version_of before)))
unfolding share_key
off_in_version-some vkey none e h = absurd (cc)
off_in_version-some vkey (some f) e h = go (same_text (version_of f) vkey) h
  where
    go :
        (b : Bool)
        → off_if b (some f) ≡ some e
        → (before : ShareEnvelope) × ((some f ≡ some before)
            × ((share_key e ≡ share_key before) × (version_of e ≡ version_of before)))
    go true p =
        let same : switched_off f ≡ e = cc in
        (f, (refl, (ap share_key (sym same), ap version_of (sym same))))
    go false p =
        let same : f ≡ e = cc in (f, (refl, (ap share_key (sym same), ap version_of (sym same))))

pub invalidate_version-IsIndexed :
    (v : Result Str) (reason : Str) (now : ℕ → ℕ) (store : CommitteeStore)
    → IsIndexed store
    → IsIndexed (invalidate_version v reason now store).0
invalidate_version-IsIndexed (err e) reason now store st = st
invalidate_version-IsIndexed (ok vkey) reason now store st = record {
  keyed = λ key e h.
      let (f, (stood, (keys, _))) = off_in_version-some vkey (view store key) e (seen key e h) in
      keys ∙ st.keyed key f stood;
  listed = λ key e h.
      let (f, (stood, (_, versions))) =
        off_in_version-some vkey (view store key) e (seen key e h) in
      let (v, (version, at)) = st.listed key f stood in (v, (versions ∙ version, at));
  origin = st.origin;
}
  where
    seen :
        (key : Str) (e : ShareEnvelope)
        → view (invalidate_version (ok vkey) reason now store).0 key ≡ some e
        → off_in_version vkey (view store key) ≡ some e
    seen key e h =
        ap (λ (m : Promised). m key) (sym (invalidate_version-view (ok vkey) reason now store st))
        ∙ h

pub store_envelope-view :
    (env : ShareEnvelope) (now : ℕ) (store : CommitteeStore) (vkey : Str)
    → version_of env ≡ ok vkey
    → view (store_envelope env now store).0 ≡ replaced (some env) (view store)
unfolding store_envelope
store_envelope-view env now store vkey hk = fun_ext (λ key. elim (Str-cases key (share_key env)) [
  | inl same ↦
      rw (hk, same, (str_eq_iff (share_key env) (share_key env)).1 refl)
        (ap env_of (find-put_same (share_key env) (entry env now) store.ttss_shares))
  | inr differ ↦
      rw (hk, str_ne key (share_key env) differ)
        (ap env_of (find-put_other key (share_key env) (entry env now) store.ttss_shares differ))
])

pub equal_range_back :
    (v key : Str) (l : List (Str × Str)) (vkey k : Str)
    → In key (equal_range v (l ++ (vkey, k) ∷ []))
    → In key (equal_range v l) ⊎ ((vkey ≡ v) × (key ≡ k))
unfolding equal_range
equal_range_back v key [] vkey k h = elim (Bool-cases (str_eq vkey v)) [
  | inl same ↦
      inr ((str_eq_iff vkey v).0 same, elim (rw same at h) [ inl e ↦ e | inr f ↦ elim f [ ] ])
  | inr differ ↦ let f : ⊥ = rw differ at h in absurd f
]
equal_range_back v key ((w, j) ∷ l) vkey k h = elim (Bool-cases (str_eq w v)) [
  | inl same ↦
      let h2 : In key (j ∷ equal_range v (l ++ (vkey, k) ∷ [])) = rw same at h in
      elim h2 [
        | inl e ↦ inl (rw same (inl e))
        | inr later ↦ elim (equal_range_back v key l vkey k later) [
          | inl at ↦ inl (rw same (inr at))
          | inr new ↦ inr new
        ]
      ]
  | inr differ ↦ elim (equal_range_back v key l vkey k (rw differ at h)) [
    | inl at ↦ inl (rw differ at)
    | inr new ↦ inr new
  ]
]
