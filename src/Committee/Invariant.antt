-- ===== src/Committee/Invariant.antt =====
-- The invariant of the committee's store, which both handlers that change it keep, and what
-- `/invalidateShares` owes to it.
use did_vc.Base.{
  ℕ, Str, codes, str_eq, is_empty, Bool, true, false, not, ◌||◌, ◌==◌, Bool-cases, if◌then◌else◌,
  [], ◌∷◌, ◌++◌, Option, none, some, Result, ok, err, ◌>>=◌, ◌≡◌, inl, inr, refl, sym, ◌∙◌, ap,
  subst, bind-ok, to_decimal,
}
use did_vc.Text.{lower_copy}
use did_vc.Hex.{normalize_digest_hex32}
use did_vc.Envelope.{
  ShareEnvelope, Verdict, valid, invalid, share_key, verify_share_envelope_demo, verify_signature,
  after_basic, basic_validate_share_envelope, compute_demo_sigma_hex, share_envelope_digest_hex,
  canonical_share_envelope_payload, demo_sig_alg,
}
use did_vc.Committee.Map.{
  Shares, StoredEnvelope, CommitteeStore, find, put, equal_range, In, find-put_same, find-put_other,
  equal_range-emplace, equal_range_keep,
}
use did_vc.Committee.Handlers.{
  invalidated_reply, refusal, Body, bad_json, fields, SetFields, InvalidateFields, entry,
  store_envelope, store_verified, store_parsed, set_share_envelope, invalidate_loop,
  invalidate_version, invalidate_shares, version_key,
}
use did_vc.Committee.Invalidate.{Inactive, loop-Inactive, Origin, loop-Origin, Str-cases}

abbrev pub version_of : StoredEnvelope → Result Str
version_of s = version_key s.env.id_hash s.env.ver s.env.epoch

-- Each share stands under its own key, and its key is listed under its version.
pub record IsStore (store : CommitteeStore) : Type 0 where
  pub keyed :
      (key : Str) (s : StoredEnvelope) → find key store.ttss_shares ≡ some s → s.share_key ≡ key
  pub listed :
      (key : Str) (s : StoredEnvelope)
      → find key store.ttss_shares ≡ some s
      → (vkey : Str) × ((version_of s ≡ ok vkey) × In key (equal_range vkey store.by_version))

abbrev pub empty_store : CommitteeStore
empty_store = record { ttss_shares = []; by_version = [] }

pub empty_store-IsStore : IsStore empty_store
unfolding find
empty_store-IsStore = record { keyed = λ key s h. absurd (cc); listed = λ key s h. absurd (cc) }

behind_basic :
    (v : Verdict) (env : ShareEnvelope)
    → after_basic v env ≡ ok valid
    → verify_signature env ≡ ok valid
behind_basic valid env h = h
behind_basic (invalid e) env h = absurd (cc)

behind_guards :
    (a b : Bool) (d e : Str) (m : Result Verdict)
    → (if a then ok (invalid d) else if b then ok (invalid e) else m) ≡ ok valid
    → m ≡ ok valid
behind_guards true b d e m h = absurd (cc)
behind_guards false true d e m h = absurd (cc)
behind_guards false false d e m h = h

-- An envelope whose demo signature can be computed has a version key.
payload-version_key :
    (env : ShareEnvelope) (payload : Str)
    → canonical_share_envelope_payload env ≡ ok payload
    → (vkey : Str) × (version_key env.id_hash env.ver env.epoch ≡ ok vkey)
unfolding canonical_share_envelope_payload version_key
payload-version_key env payload h =
    let (idh, got, _) = bind-ok (normalize_digest_hex32 env.id_hash) _ h in
    (idh ++ b':' ∷ (to_decimal env.ver ++ b':' ∷ to_decimal env.epoch), rw got refl)

-- An envelope that verifies has a version key.
pub verified-version_key :
    (env : ShareEnvelope)
    → verify_share_envelope_demo env ≡ ok valid
    → (vkey : Str) × (version_key env.id_hash env.ver env.epoch ≡ ok vkey)
unfolding verify_share_envelope_demo verify_signature compute_demo_sigma_hex
    share_envelope_digest_hex
verified-version_key env h =
    let signed = behind_basic (basic_validate_share_envelope env) env h in
    let rest = λ (expected : Str). (do
      sigma ← normalize_digest_hex32 env.dealer_proof.sigma_hex
      ok (
          if str_eq (lower_copy expected) (lower_copy sigma)
          then valid
          else invalid (codes "sigma_mismatch"))) in
    let body =
      behind_guards (not (str_eq env.dealer_proof.sig_alg demo_sig_alg))
        (is_empty env.meta.dealer_pk_hex) (codes "unsupported_sig_alg")
        (codes "missing_dealer_pk_hex") (compute_demo_sigma_hex env env.meta.dealer_pk_hex >>= rest)
        signed in
    let (expected, got, _) =
      bind-ok (compute_demo_sigma_hex env env.meta.dealer_pk_hex) rest body in
    let (key, _, k1) = bind-ok (normalize_digest_hex32 env.meta.dealer_pk_hex) _ got in
    let (digest, got_digest, k2) = bind-ok (share_envelope_digest_hex env) _ k1 in
    let (payload, got_payload, k3) = bind-ok (canonical_share_envelope_payload env) _ got_digest in
    payload-version_key env payload got_payload

store_envelope-IsStore :
    (env : ShareEnvelope) (now : ℕ) (store : CommitteeStore) (vkey : Str)
    → version_key env.id_hash env.ver env.epoch ≡ ok vkey
    → IsStore store
    → IsStore (store_envelope env now store).0
unfolding store_envelope
store_envelope-IsStore env now store vkey hv st = rw hv (record {
  keyed = λ key s h. elim (Str-cases key (share_key env)) [
    | inl same ↦
        let h' : find (share_key env) (put (share_key env) (entry env now) store.ttss_shares)
            ≡ some s =
          subst (λ z. find z (put (share_key env) (entry env now) store.ttss_shares) ≡ some s) same
            h in
        let p = find-put_same (share_key env) (entry env now) store.ttss_shares in
        let e : entry env now ≡ s = cc in
        ap (λ (z : StoredEnvelope). z.share_key) (sym e) ∙ sym same
    | inr differ ↦
        st.keyed key s
          (sym (find-put_other key (share_key env) (entry env now) store.ttss_shares differ) ∙ h)
  ];
  listed = λ key s h. elim (Str-cases key (share_key env)) [
    | inl same ↦
        let h' : find (share_key env) (put (share_key env) (entry env now) store.ttss_shares)
            ≡ some s =
          subst (λ z. find z (put (share_key env) (entry env now) store.ttss_shares) ≡ some s) same
            h in
        let p = find-put_same (share_key env) (entry env now) store.ttss_shares in
        let e : entry env now ≡ s = cc in
        (
          vkey,
          (
            ap version_of (sym e) ∙ hv,
            subst (λ z. In z (equal_range vkey (store.by_version ++ (vkey, share_key env) ∷ [])))
                (sym same) (equal_range-emplace vkey (share_key env) store.by_version),
          ),
        )
    | inr differ ↦
        let (v, (q, at)) =
          st.listed key s (
            sym (find-put_other key (share_key env) (entry env now) store.ttss_shares differ)
            ∙ h) in
        (v, (q, equal_range_keep v key store.by_version (vkey, share_key env) at))
  ];
})

-- The handler of `/setShareEnvelope` keeps the invariant, whatever the request.
pub set_share_envelope-IsStore :
    (token : Str) (body : Body SetFields) (now : ℕ) (store : CommitteeStore)
    → IsStore store
    → IsStore (set_share_envelope token body now store).0
unfolding set_share_envelope
set_share_envelope-IsStore token (bad_json e) now store st = st
set_share_envelope-IsStore token (fields f) now store st =
    elim (Bool-cases (str_eq f.token token)) [
      | inl same ↦ rw same (parsed f.share_envelope)
      | inr differ ↦ rw differ st
    ]
  where
    verified :
        (v : Result Verdict) (env : ShareEnvelope)
        → verify_share_envelope_demo env ≡ v
        → IsStore (store_verified v env now store).0
    verified (err e) env h = st
    verified (ok (invalid e)) env h = st
    verified (ok valid) env h =
        let (vkey, hv) = verified-version_key env h in
        store_envelope-IsStore env now store vkey hv st

    parsed : (p : Option (Result ShareEnvelope)) → IsStore (store_parsed p now store).0
    parsed none = st
    parsed (some (err e)) = st
    parsed (some (ok env)) = verified (verify_share_envelope_demo env) env refl

version_of-Origin :
    (key : Str) (m : Shares) (s : StoredEnvelope) (o : Origin key m s)
    → version_of s ≡ version_of o.before
version_of-Origin key m s o = rw (o.id_hash, o.ver, o.epoch) refl

-- The handler of `/invalidateShares` keeps the invariant, whatever the request.
pub invalidate_shares-IsStore :
    (token : Str) (body : Body InvalidateFields) (now : ℕ → ℕ) (store : CommitteeStore)
    → IsStore store
    → IsStore (invalidate_shares token body now store).0
unfolding invalidate_shares
invalidate_shares-IsStore token (bad_json e) now store st = st
invalidate_shares-IsStore token (fields f) now store st = elim (Bool-cases (str_eq f.token token)) [
  | inl same ↦ rw same (guarded (is_empty f.id_hash || f.epoch == 0))
  | inr differ ↦ rw differ st
]
  where
    versioned : (v : Result Str) → IsStore (invalidate_version v f.reason now store).0
    versioned (err e) = st
    versioned (ok vkey) = record {
      keyed = λ key s h.
          let o =
            loop-Origin (equal_range vkey store.by_version) f.reason now (store.ttss_shares, 0) key
              s h in
          o.share_key ∙ st.keyed key o.before o.stood;
      listed = λ key s h.
          let o =
            loop-Origin (equal_range vkey store.by_version) f.reason now (store.ttss_shares, 0) key
              s h in
          let (v, (q, at)) = st.listed key o.before o.stood in
          (v, (version_of-Origin key store.ttss_shares s o ∙ q, at));
    }

    guarded :
        (b : Bool)
        → IsStore
            (if b
              then (store, ok (refusal 400 (codes "bad_args")))
              else invalidate_version (version_key f.id_hash f.ver f.epoch) f.reason now store).0
    guarded true = st
    guarded false = versioned (version_key f.id_hash f.ver f.epoch)

-- After a request of `/invalidateShares` that is answered with a count, no share of the version is
-- active any more.
pub invalidate_shares-Inactive :
    (token : Str) (f : InvalidateFields) (now : ℕ → ℕ) (store : CommitteeStore) (c : ℕ) (key : Str)
    (s : StoredEnvelope)
    → IsStore store
    → (invalidate_shares token (fields f) now store).1 ≡ ok (invalidated_reply c)
    → find key (invalidate_shares token (fields f) now store).0.ttss_shares ≡ some s
    → version_of s ≡ version_key f.id_hash f.ver f.epoch
    → s.env.active ≡ false
unfolding invalidate_shares
invalidate_shares-Inactive token f now store c key s st h stands same =
    go (not (str_eq f.token token)) (is_empty f.id_hash || f.epoch == 0)
      (version_key f.id_hash f.ver f.epoch) h stands same
  where
    go :
        (a b : Bool) (v : Result Str)
        → (if a
            then (store, ok (refusal 401 (codes "bad_token")))
            else if b
            then (store, ok (refusal 400 (codes "bad_args")))
            else invalidate_version v f.reason now store).1
          ≡ ok (invalidated_reply c)
        → find key
            (if a
              then (store, ok (refusal 401 (codes "bad_token")))
              else if b
              then (store, ok (refusal 400 (codes "bad_args")))
              else invalidate_version v f.reason now store).0.ttss_shares
          ≡ some s
        → version_of s ≡ v
        → s.env.active ≡ false
    go true b v p q r = absurd (cc)
    go false true v p q r = absurd (cc)
    go false false (err e) p q r = absurd (cc)
    go false false (ok vkey) p q r =
        let keys = equal_range vkey store.by_version in
        let o = loop-Origin keys f.reason now (store.ttss_shares, 0) key s q in
        let (v, (w, at)) = st.listed key o.before o.stood in
        let e = version_of-Origin key store.ttss_shares s o in
        let vs : v ≡ vkey = cc in
        let off : Inactive (find key (invalidate_loop keys f.reason now (store.ttss_shares, 0)).0) =
          loop-Inactive keys f.reason now (store.ttss_shares, 0) key
            (subst (λ z. In key (equal_range z store.by_version)) vs at) in
        subst Inactive q off
