-- ===== src/Committee/Request.antt =====
-- What a request for a share gets from the committee of cpp/committee_node.cpp.
use did_vc.Base.{
  ℕ, Str, codes, str_eq, str_eq_iff, is_empty, Bool, true, false, not, ◌||◌, ◌==◌, Bool-cases,
  if◌then◌else◌, List, [], ◌∷◌, ◌++◌, Option, none, some, Result, ok, err, ◌>>=◌, ◌≡◌, ◌⊎◌, inl,
  inr, refl, ◌∙◌, ap, subst, to_decimal,
}
use mathlib.Core.List.{append_assoc}
use did_vc.Hex.{normalize_digest_hex32}
use did_vc.Envelope.{ShareEnvelope, Verdict, valid, invalid, share_key, verify_share_envelope_demo}
use did_vc.Committee.Map.{
  Shares, StoredEnvelope, CommitteeStore, find, equal_range, In, find-put_same,
}
use did_vc.Committee.Handlers.{
  refusal, stored_reply, invalidated_reply, Body, bad_json, fields, SetFields, InvalidateFields,
  ShareFields, found, sent, check_active, found_share, is_active, pick_active, picked,
  find_requested_envelope, entry, store_envelope, store_verified, store_parsed, set_share_envelope,
  version_key, share_lookup_key, invalidate_loop, invalidate_version, invalidate_shares, Outcome,
}
use did_vc.Committee.Invalidate.{Inactive, loop-Inactive}
use did_vc.Committee.Invariant.{verified-version_key}

pick_active-none :
    (keys : List Str) (m : Shares)
    → ((key : Str) → In key keys → Inactive (find key m))
    → pick_active keys m ≡ none
unfolding pick_active
pick_active-none [] m h = refl
pick_active-none (key ∷ keys) m h =
    let off = inactive_off (find key m) (h key (inl refl)) in
    rw off (pick_active-none keys m (λ k at. h k (inr at)))
  where
    inactive_off : (o : Option StoredEnvelope) → Inactive o → is_active o ≡ false
    inactive_off none h = refl
    inactive_off (some s) h = h

abbrev guarded_reply :
    InvalidateFields → (ℕ → ℕ) → CommitteeStore → Bool → Bool → Result Str → Outcome
guarded_reply f now store a b v =
    if a
    then (store, ok (refusal 401 (codes "bad_token")))
    else if b
    then (store, ok (refusal 400 (codes "bad_args")))
    else invalidate_version v f.reason now store

-- After a request of `/invalidateShares` that is answered with a count, a request for any share of
-- the version, without a guardian index, is answered with `no_active_share`.
pub find_requested-invalidate_shares :
    (token : Str) (f : InvalidateFields) (now : ℕ → ℕ) (store : CommitteeStore) (c : ℕ) (t : Str)
    → (invalidate_shares token (fields f) now store).1 ≡ ok (invalidated_reply c)
    → find_requested_envelope
        (record {
          token = t;
          id_hash = f.id_hash;
          ver = f.ver;
          epoch = f.epoch;
          guardian_index = 0;
        })
        (invalidate_shares token (fields f) now store).0
      ≡ ok (sent 404 (codes "no_active_share"))
unfolding invalidate_shares find_requested_envelope
find_requested-invalidate_shares token f now store c t h =
    go (not (str_eq f.token token)) (is_empty f.id_hash || f.epoch == 0)
      (version_key f.id_hash f.ver f.epoch) h
  where
    go :
        (a b : Bool) (v : Result Str)
        → (guarded_reply f now store a b v).1 ≡ ok (invalidated_reply c)
        → (if b then ok (sent 400 (codes "bad_args")) else (do
          vkey ← v
          ok (
              picked (
                pick_active
                  (equal_range vkey (guarded_reply f now store a b v).0.by_version)
                  (guarded_reply f now store a b v).0.ttss_shares))))
          ≡ ok (sent 404 (codes "no_active_share"))
    go true b v p = absurd (cc)
    go false true v p = absurd (cc)
    go false false (err e) p = absurd (cc)
    go false false (ok vkey) p =
        let keys = equal_range vkey store.by_version in
        rw
          (pick_active-none keys (invalidate_loop keys f.reason now (store.ttss_shares, 0)).0
            (λ key at. loop-Inactive keys f.reason now (store.ttss_shares, 0) key at))
          refl

check_active-found : (s out : StoredEnvelope) → check_active s ≡ found out → out.env.active ≡ true
check_active-found s out h = go s.env.active refl h
  where
    go :
        (b : Bool)
        → s.env.active ≡ b
        → (if not b then sent 409 (codes "share_inactive") else found s) ≡ found out
        → out.env.active ≡ true
    go true on p = let e : s ≡ out = cc in subst (λ (z : StoredEnvelope). z.env.active ≡ true) e on
    go false off p = absurd (cc)

-- A share that is handed out is active.
pub find_requested_envelope-active :
    (f : ShareFields) (store : CommitteeStore) (out : StoredEnvelope)
    → find_requested_envelope f store ≡ ok (found out)
    → out.env.active ≡ true
unfolding find_requested_envelope
find_requested_envelope-active f store out h =
    go (is_empty f.id_hash || f.epoch == 0) (not (f.guardian_index == 0))
      (share_lookup_key f.id_hash f.ver f.epoch f.guardian_index)
      (version_key f.id_hash f.ver f.epoch) h
  where
    by_key : (o : Option StoredEnvelope) → found_share o ≡ found out → out.env.active ≡ true
    by_key none p = absurd (cc)
    by_key (some s) p = check_active-found s out p

    by_pick : (o : Option StoredEnvelope) → picked o ≡ found out → out.env.active ≡ true
    by_pick none p = absurd (cc)
    by_pick (some s) p = elim (Bool-cases (is_empty s.share_key)) [
      | inl blank ↦
          let p' : sent 404 (codes "no_active_share") ≡ found out = rw blank at p in absurd (cc)
      | inr keyed ↦
          let p' : check_active s ≡ found out = rw keyed at p in check_active-found s out p'
    ]

    go :
        (a b : Bool) (key vkey : Result Str)
        → (if a
            then ok (sent 400 (codes "bad_args"))
            else if b
            then (do key ← key; ok (found_share (find key store.ttss_shares)))
            else (do
              vkey ← vkey
              ok (picked (pick_active (equal_range vkey store.by_version) store.ttss_shares))))
          ≡ ok (found out)
        → out.env.active ≡ true
    go true b key vkey p = absurd (cc)
    go false true (err e) vkey p = absurd (cc)
    go false true (ok key) vkey p = by_key (find key store.ttss_shares) (cc)
    go false false key (err e) p = absurd (cc)
    go false false key (ok vkey) p =
        by_pick (pick_active (equal_range vkey store.by_version) store.ttss_shares) (cc)

-- What `/setShareEnvelope` did when it stored an envelope.
pub record Accepted (token : Str) (body : Body SetFields) (now : ℕ) (outcome : Outcome)
    : Type 0 where
  pub request : SetFields
  pub parsed : body ≡ fields request
  pub allowed : request.token ≡ token
  pub env : ShareEnvelope
  pub carried : request.share_envelope ≡ some (ok env)
  pub verified : verify_share_envelope_demo env ≡ ok valid
  pub answered : outcome.1 ≡ ok (stored_reply (share_key env) env.active)
  pub stored : find (share_key env) outcome.0.ttss_shares ≡ some (entry env now)

-- A request of `/setShareEnvelope` changes nothing, or it has the token and an envelope that verifies,
-- which then stands in the store under its key, as the reply says.
pub set_share_envelope_lem :
    (token : Str) (body : Body SetFields) (now : ℕ) (store : CommitteeStore)
    → ((set_share_envelope token body now store).0 ≡ store)
      ⊎ Accepted token body now (set_share_envelope token body now store)
unfolding set_share_envelope store_envelope
set_share_envelope_lem token (bad_json e) now store = inl refl
set_share_envelope_lem token (fields f) now store = elim (Bool-cases (str_eq f.token token)) [
  | inl same ↦ rw same (parsed f.share_envelope refl ((str_eq_iff f.token token).0 same))
  | inr differ ↦ rw differ (inl refl)
]
  where
    verified :
        (v : Result Verdict) (env : ShareEnvelope)
        → f.share_envelope ≡ some (ok env)
        → f.token ≡ token
        → verify_share_envelope_demo env ≡ v
        → ((store_verified v env now store).0 ≡ store)
          ⊎ Accepted token (fields f) now (store_verified v env now store)
    verified (err e) env c t h = inl refl
    verified (ok (invalid e)) env c t h = inl refl
    verified (ok valid) env c t h =
        let (vkey, hv) = verified-version_key env h in
        inr (record {
          request = f;
          parsed = refl;
          allowed = t;
          env = env;
          carried = c;
          verified = h;
          answered = rw hv refl;
          stored = rw hv (find-put_same (share_key env) (entry env now) store.ttss_shares);
        })

    parsed :
        (p : Option (Result ShareEnvelope))
        → f.share_envelope ≡ p
        → f.token ≡ token
        → ((store_parsed p now store).0 ≡ store)
          ⊎ Accepted token (fields f) now (store_parsed p now store)
    parsed none c t = inl refl
    parsed (some (err e)) c t = inl refl
    parsed (some (ok env)) c t = verified (verify_share_envelope_demo env) env c t refl

share_lookup_key_lem :
    (env : ShareEnvelope)
    → normalize_digest_hex32 env.id_hash ≡ ok env.id_hash
    → share_lookup_key env.id_hash env.ver env.epoch env.guardian_index ≡ ok (share_key env)
unfolding share_lookup_key version_key share_key
share_lookup_key_lem env h = rw h (
    ap ok (
      append_assoc env.id_hash (b':' ∷ (to_decimal env.ver ++ b':' ∷ to_decimal env.epoch))
        (b':' ∷ to_decimal env.guardian_index)
      ∙ ap (λ (z : Str). env.id_hash ++ b':' ∷ z)
          (append_assoc (to_decimal env.ver) (b':' ∷ to_decimal env.epoch)
            (b':' ∷ to_decimal env.guardian_index))))

-- An active envelope that was stored is handed out to the next request for it, provided that its
-- identity hash is in normal form and its epoch and guardian index are not 0.
pub find_requested-set_share_envelope :
    (token t : Str) (env : ShareEnvelope) (now : ℕ) (store : CommitteeStore)
    → verify_share_envelope_demo env ≡ ok valid
    → env.active ≡ true
    → normalize_digest_hex32 env.id_hash ≡ ok env.id_hash
    → (is_empty env.id_hash || env.epoch == 0) ≡ false
    → (env.guardian_index == 0) ≡ false
    → find_requested_envelope
        (record {
          token = t;
          id_hash = env.id_hash;
          ver = env.ver;
          epoch = env.epoch;
          guardian_index = env.guardian_index;
        })
        (set_share_envelope token
          (fields (record { token = token; share_envelope = some (ok env) }))
          now
          store).0
      ≡ ok (found (entry env now))
unfolding set_share_envelope store_envelope find_requested_envelope
find_requested-set_share_envelope token t env now store hv on norm args index =
    let (vkey, k) = verified-version_key env hv in
    rw
      (
        (str_eq_iff token token).1 refl,
        hv,
        k,
        args,
        index,
        share_lookup_key_lem env norm,
        find-put_same (share_key env) (entry env now) store.ttss_shares,
        on,
      )
      refl
