-- ===== src/Committee/Runs.antt =====
-- Whole runs of the committee of cpp/committee_node.cpp keep the promise.
use did_vc.Base.{
  ℕ, Str, str_eq, str_eq_iff, is_empty, ◌||◌, ◌==◌, Bool-cases, List, [], ◌∷◌, ◌++◌, Option, none,
  some, Result, ok, err, ◌≡◌, ◌⊎◌, inl, inr, refl, sym, ◌∙◌, ap,
}
use did_vc.Envelope.{ShareEnvelope, Verdict, valid, invalid, share_key, verify_share_envelope_demo}
use did_vc.Committee.Map.{CommitteeStore, find, equal_range, equal_range-emplace, equal_range_keep}
use did_vc.Committee.Handlers.{
  Body, bad_json, fields, SetFields, InvalidateFields, invalidate_shares, version_key,
  set_share_envelope, store_envelope, store_verified, store_parsed,
}
use did_vc.Committee.Invariant.{verified-version_key, empty_store}
use did_vc.Committee.Spec.{
  Promised, version_of, accepted_of, offered, replaced, Request, set, invalidate, promise, handle,
  handle_all, promise_all, view, IsIndexed,
}
use did_vc.Committee.Refine.{
  invalidate_version-view, invalidate_version-IsIndexed, store_envelope-view, equal_range_back,
}

-- What a request owes.
record Keeps (after : CommitteeStore) (promised : Promised) : Type 0 where
  indexed : IsIndexed after
  seen : view after ≡ promised

replaced_cases :
    (env e : ShareEnvelope) (m : Promised) (key : Str)
    → replaced (some env) m key ≡ some e
    → ((key ≡ share_key env) × (env ≡ e)) ⊎ (m key ≡ some e)
replaced_cases env e m key h = elim (Bool-cases (str_eq key (share_key env))) [
  | inl same ↦
      let p : some env ≡ some e = rw same at h in inl ((str_eq_iff key (share_key env)).0 same, cc)
  | inr differ ↦ inr (rw differ at h)
]

store_envelope-by_version :
    (env : ShareEnvelope) (now : ℕ) (store : CommitteeStore) (vkey : Str)
    → version_of env ≡ ok vkey
    → (store_envelope env now store).0.by_version ≡ store.by_version ++ (vkey, share_key env) ∷ []
unfolding store_envelope
store_envelope-by_version env now store vkey hk = rw hk refl

store_envelope-IsIndexed :
    (env : ShareEnvelope) (now : ℕ) (store : CommitteeStore) (vkey : Str)
    → version_of env ≡ ok vkey
    → IsIndexed store
    → IsIndexed (store_envelope env now store).0
store_envelope-IsIndexed env now store vkey hk st = record {
  keyed = λ key e h. elim (cases key e h) [
    | inl new ↦ ap share_key (sym new.1) ∙ sym new.0
    | inr old ↦ st.keyed key e old
  ];
  listed = λ key e h. elim (cases key e h) [
    | inl new ↦ (
      vkey,
      (
        ap version_of (sym new.1) ∙ hk,
        rw (index, new.0) (equal_range-emplace vkey (share_key env) store.by_version),
      ),
    )
    | inr old ↦
        let (v, (version, at)) = st.listed key e old in
        (v, (version, rw index (equal_range_keep v key store.by_version (vkey, share_key env) at)))
  ];
  origin = λ v key at.
      elim (equal_range_back v key store.by_version vkey (share_key env) (rw index at at)) [
        | inl old ↦ st.origin v key old
        | inr new ↦ (env, (sym new.1, hk ∙ ap ok new.0))
      ];
}
  where
    cases :
        (key : Str) (e : ShareEnvelope)
        → view (store_envelope env now store).0 key ≡ some e
        → ((key ≡ share_key env) × (env ≡ e)) ⊎ (view store key ≡ some e)
    cases key e h =
        replaced_cases env e (view store) key
          (ap (λ (m : Promised). m key) (sym (store_envelope-view env now store vkey hk)) ∙ h)

    index :
        (store_envelope env now store).0.by_version ≡ store.by_version ++ (vkey, share_key env) ∷ []
    index = store_envelope-by_version env now store vkey hk

set-Keeps :
    (token : Str) (body : Body SetFields) (now : ℕ) (store : CommitteeStore)
    → IsIndexed store
    → Keeps (set_share_envelope token body now store).0 (promise token (set body now) (view store))
unfolding set_share_envelope
set-Keeps token (bad_json e) now store st = record { indexed = st; seen = refl }
set-Keeps token (fields f) now store st = elim (Bool-cases (str_eq f.token token)) [
  | inl same ↦ rw same (parsed f.share_envelope)
  | inr differ ↦ rw differ (record { indexed = st; seen = refl })
]
  where
    verified :
        (v : Result Verdict) (env : ShareEnvelope)
        → verify_share_envelope_demo env ≡ v
        → Keeps (store_verified v env now store).0 (replaced (accepted_of v env) (view store))
    verified (err e) env h = record { indexed = st; seen = refl }
    verified (ok (invalid e)) env h = record { indexed = st; seen = refl }
    verified (ok valid) env h =
        let (vkey, hk) = verified-version_key env h in
        record {
          indexed = store_envelope-IsIndexed env now store vkey hk st;
          seen = store_envelope-view env now store vkey hk;
        }

    parsed :
        (p : Option (Result ShareEnvelope))
        → Keeps (store_parsed p now store).0 (replaced (offered p) (view store))
    parsed none = record { indexed = st; seen = refl }
    parsed (some (err e)) = record { indexed = st; seen = refl }
    parsed (some (ok env)) = verified (verify_share_envelope_demo env) env refl

invalidate-Keeps :
    (token : Str) (body : Body InvalidateFields) (now : ℕ → ℕ) (store : CommitteeStore)
    → IsIndexed store
    → Keeps
        (invalidate_shares token body now store).0
        (promise token (invalidate body now) (view store))
unfolding invalidate_shares
invalidate-Keeps token (bad_json e) now store st = record { indexed = st; seen = refl }
invalidate-Keeps token (fields f) now store st = elim (Bool-cases (str_eq f.token token)) [
  | inl same ↦ elim (Bool-cases (is_empty f.id_hash || f.epoch == 0)) [
    | inl bad ↦ rw (same, bad) (record { indexed = st; seen = refl })
    | inr good ↦
        rw (same, good)
          (record {
            indexed =
                invalidate_version-IsIndexed (version_key f.id_hash f.ver f.epoch) f.reason now
                  store st;
            seen =
                invalidate_version-view (version_key f.id_hash f.ver f.epoch) f.reason now store st;
          })
  ]
  | inr differ ↦ rw differ (record { indexed = st; seen = refl })
]

handle-Keeps :
    (token : Str) (r : Request) (store : CommitteeStore)
    → IsIndexed store
    → Keeps (handle token r store) (promise token r (view store))
handle-Keeps token (set body now) store st = set-Keeps token body now store st
handle-Keeps token (invalidate body now) store st = invalidate-Keeps token body now store st

handle_all-Keeps :
    (token : Str) (rs : List Request) (store : CommitteeStore)
    → IsIndexed store
    → Keeps (handle_all token rs store) (promise_all token rs (view store))
handle_all-Keeps token [] store st = record { indexed = st; seen = refl }
handle_all-Keeps token (r ∷ rs) store st =
    let one = handle-Keeps token r store st in
    let rest = handle_all-Keeps token rs (handle token r store) one.indexed in
    record { indexed = rest.indexed; seen = rest.seen ∙ ap (promise_all token rs) one.seen }

empty_store-IsIndexed : IsIndexed empty_store
unfolding find equal_range
empty_store-IsIndexed = record {
  keyed = λ key e h. absurd (cc);
  listed = λ key e h. absurd (cc);
  origin = λ v key at. absurd at;
}

-- A committee that starts with an empty store holds, after any requests, exactly the envelopes that it
-- promises, active or switched off as promised.
pub handle_all-promise_all :
    (token : Str) (rs : List Request) (key : Str)
    → view (handle_all token rs empty_store) key ≡ promise_all token rs (λ k. none) key
unfolding find
handle_all-promise_all token rs key =
    ap (λ (m : Promised). m key)
      ((handle_all-Keeps token rs empty_store empty_store-IsIndexed).seen)
