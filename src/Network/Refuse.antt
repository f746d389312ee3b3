-- ===== src/Network/Refuse.antt =====
-- What the client gets for a share after its version was invalidated at the nodes.
use did_vc.Base.{
  ℕ, zero, suc, ◌+◌, ◌<◌, ◌≤◌, ◌==◌, Str, codes, str_eq_iff, is_empty, false, List, [], ◌∷◌, ◌++◌,
  length, get_or, All, nth, some, ok, err, ◌≡◌, inl, inr, refl, sym, ◌∙◌, ap, subst, arith,
}
use did_vc.Envelope.{ShareEnvelope}
use did_vc.Json.Interface.{JsonLib}
use did_vc.Ttss.{SetupArgs, TtssShareSetupResult, ttss_share_nits_shamir}
use did_vc.Ttss.Issue.{ttss_share-IsSetup}
use did_vc.Committee.Map.{StoredEnvelope, In}
use did_vc.Committee.Handlers.{sent, check_active, version_key, serve_share_envelope_request}
use did_vc.Committee.Invalidate.{Str-cases}
use did_vc.Network.{
  Nodes, committee_invalidate, committee_fetch_share, run_invalidations,
  invalidate_committee_shares, recover_shares_loop, recover_shares_from_committees,
  distribute_share_envelopes_to_committees, run_ttss_recover,
}
use did_vc.Network.Deliver.{Answers, Stands}
use did_vc.Network.Places.{nth-get_or}
use did_vc.Network.Tasks.{Runs, distribute-Distributed}
use did_vc.Network.Fetch.{Asks, find_requested-share_key}
use did_vc.Network.Recover.{env_at, issued, work, asks}
use did_vc.Network.Revoke.{
  Revoked, invalidation, committee_invalidate-other, Revoked-committee_invalidate, Revoked-Stands,
}

check_active-off :
    (s : StoredEnvelope) → s.env.active ≡ false → check_active s ≡ sent 409 (codes "share_inactive")
check_active-off s off = rw off refl

module _ (lib : JsonLib) (error_text : ℕ → Str → Str) (crash_text : Str → Str) where
  module _ (token id reason vkey url : Str) (env : ShareEnvelope) (q : Asks id env)
      (hk : version_key env.id_hash env.ver env.epoch ≡ ok vkey) where
    Revoked-run_invalidations :
        (urls : List Str) (nodes : Nodes)
        → Revoked nodes token url env
        → Revoked
            (run_invalidations lib error_text crash_text urls
              (invalidation token id env reason)
              nodes).0
            token
            url
            env
    unfolding run_invalidations
    Revoked-run_invalidations [] nodes r = r
    Revoked-run_invalidations (u ∷ urls) nodes r =
        Revoked-run_invalidations urls
          (committee_invalidate lib error_text crash_text u (invalidation token id env reason)
            nodes).0
          (Revoked-committee_invalidate lib error_text crash_text token id reason vkey env q hk url
            u nodes r)

    -- Every address of the list is dealt with.
    pub run_invalidations-Revoked :
        (urls : List Str) (nodes : Nodes)
        → In url urls
        → Answers nodes token url
        → Stands nodes url env
        → Revoked
            (run_invalidations lib error_text crash_text urls
              (invalidation token id env reason)
              nodes).0
            token
            url
            env
    unfolding run_invalidations
    run_invalidations-Revoked [] nodes at a s = elim at [ ]
    run_invalidations-Revoked (u ∷ urls) nodes at a s =
        let after =
          (committee_invalidate lib error_text crash_text u (invalidation token id env reason)
            nodes).0 in
        elim (Str-cases url u) [
          | inl same ↦ Revoked-run_invalidations urls after (
              subst
                (λ v.
                  Revoked
                    (committee_invalidate lib error_text crash_text v
                      (invalidation token id env reason) nodes).0
                    token url env)
                same
                (Revoked-Stands lib error_text crash_text token id reason vkey env q hk url nodes a
                  s))
          | inr differ ↦
              let left =
                committee_invalidate-other lib error_text crash_text token id reason vkey env q hk u
                  url nodes differ in
              run_invalidations-Revoked urls after
                (elim at [ inl same ↦ absurd (differ same) | inr later ↦ later ])
                (record {
                  node = a.node;
                  at_url = left ∙ a.at_url;
                  same_token = a.same_token;
                  online = a.online;
                })
                (record {
                  node = s.node;
                  at_url = left ∙ s.at_url;
                  stored = s.stored;
                  stands = s.stands;
                  same = s.same;
                  vkey = s.vkey;
                  version = s.version;
                  listed = s.listed;
                })
        ]

  -- A revoked share is not handed out.
  pub committee_fetch_share-Revoked :
      (url endpoint token id : Str) (env : ShareEnvelope) (nodes : Nodes)
      → Asks id env
      → Revoked nodes token url env
      → committee_fetch_share lib error_text crash_text url endpoint token id env.ver env.epoch
          env.guardian_index nodes
        ≡ err (error_text 409 (codes "share_inactive"))
  unfolding committee_fetch_share serve_share_envelope_request
  committee_fetch_share-Revoked url endpoint token id env nodes q r =
      rw
        (
          r.at_url,
          (str_eq_iff token r.node.token).1 (sym r.same_token),
          r.online,
          find_requested-share_key token id env r.node.store q,
          r.stands,
          check_active-off r.stored r.off,
        )
        refl

  pub recover_shares_loop-err :
      (t : ℕ) (urls : List Str) (url token id : Str) (ver epoch g : ℕ) (nodes : Nodes) (e : Str)
      → 0 < t
      → nth urls 0 ≡ some url
      → g ≡ 0 + 1
      → committee_fetch_share lib error_text crash_text url
          (codes "/shareForRecover")
          token
          id
          ver
          epoch
          g
          nodes
        ≡ err e
      → recover_shares_loop lib error_text crash_text t 0 urls token id ver epoch nodes
        ≡ err (codes "committee_fetch_shareForRecover_failed: " ++ e)
  unfolding recover_shares_loop
  recover_shares_loop-err zero urls url token id ver epoch g nodes e lt here first failed =
      absurd (omega arith)
  recover_shares_loop-err (suc t) urls url token id ver epoch g nodes e lt here first failed =
      rw (here, ← first, failed) refl

url_In : (urls : List Str) (i : ℕ) → i < length urls → In (get_or urls i []) urls
url_In [] i h = absurd (omega arith)
url_In (url ∷ urls) zero h = inl refl
url_In (url ∷ urls) (suc i) h = inr (url_In urls i (omega arith))

fetch_refused :
    (lib : JsonLib) (error_text : ℕ → Str → Str) (crash_text : Str → Str)
    (url endpoint token id reason : Str) (ver epoch g : ℕ) (env : ShareEnvelope) (urls : List Str)
    (nodes : Nodes)
    → env.ver ≡ ver
    → env.epoch ≡ epoch
    → env.guardian_index ≡ g
    → Asks id env
    → Revoked
        (run_invalidations lib error_text crash_text urls
          (invalidation token id env reason)
          nodes).0
        token
        url
        env
    → committee_fetch_share lib error_text crash_text url endpoint token id ver epoch g
        (run_invalidations lib error_text crash_text urls
          (record { token = token; id_hash = id; ver = ver; epoch = epoch; reason = reason })
          nodes).0
      ≡ err (error_text 409 (codes "share_inactive"))
fetch_refused lib error_text crash_text url endpoint token id reason ver epoch g env urls nodes
      same_ver same_epoch first q r =
    rw (← same_ver, ← same_epoch, ← first)
      (committee_fetch_share-Revoked lib error_text crash_text url endpoint token id env _ q r)

-- Of a setup that was distributed as for `run_ttss_recover-distribute`: once the version is
-- invalidated at the same addresses, a request for any of its shares, at either endpoint, is
-- refused with `share_inactive`.
pub committee_fetch_share-invalidate :
    (lib : JsonLib) (error_text : ℕ → Str → Str) (crash_text : Str → Str) (a : SetupArgs)
    (setup : TtssShareSetupResult) (urls : List Str) (token prefix reason endpoint : Str)
    (order : List ℕ) (nodes : Nodes) (i : ℕ)
    → ttss_share_nits_shamir a ≡ ok setup
    → a.n ≤ 0xFFFFFFFF
    → is_empty a.id_hash ≡ false
    → (a.epoch == 0) ≡ false
    → a.n ≤ length urls
    → ((i : ℕ) → i < a.n → Answers nodes token (get_or urls i []))
    → All (λ i. i < a.n) order
    → ((i : ℕ) → i < a.n → Runs i order)
    → i < a.n
    → committee_fetch_share lib error_text crash_text
        (get_or urls i [])
        endpoint
        token
        a.id_hash
        a.ver
        a.epoch
        (i + 1)
        (invalidate_committee_shares lib error_text crash_text urls token a.id_hash a.ver a.epoch
          reason
          (distribute_share_envelopes_to_committees lib error_text crash_text urls token
            setup.share_envelopes a.n prefix order nodes).0).0
      ≡ err (error_text 409 (codes "share_inactive"))
unfolding invalidate_committee_shares
committee_fetch_share-invalidate lib error_text crash_text a setup urls token prefix reason endpoint
      order nodes i h small named dated enough online within all_run lt =
    let s = ttss_share-IsSetup a setup h in
    let w = work a setup s small urls enough in
    let d =
      distribute-Distributed lib error_text crash_text urls setup.share_envelopes a.n w token prefix
        order nodes within online in
    let env = env_at a setup s small i in
    let p = issued a setup s small i lt in
    let q = asks a setup s small i lt named dated in
    let url = get_or urls i [] in
    let st = d.stands i (all_run i lt) in
    let r =
      run_invalidations-Revoked lib error_text crash_text token a.id_hash reason st.vkey url env q
        st.version urls d.last (url_In urls i (omega arith)) (d.answers i lt) st in
    let refused =
      fetch_refused lib error_text crash_text url endpoint token a.id_hash reason a.ver a.epoch
        (i + 1) env urls d.last p.ver p.epoch p.index q r in
    rw (ap (λ r. r.0) d.returns) refused

-- Of a setup that was distributed as for `run_ttss_recover-distribute`: once the version is
-- invalidated at the same addresses, `run_ttss_recover` fails with the first node's
-- `share_inactive`.
pub run_ttss_recover-invalidate :
    (lib : JsonLib) (error_text : ℕ → Str → Str) (crash_text : Str → Str) (a : SetupArgs)
    (setup : TtssShareSetupResult) (urls : List Str) (token prefix reason : Str) (order : List ℕ)
    (nodes : Nodes)
    → ttss_share_nits_shamir a ≡ ok setup
    → a.n ≤ 0xFFFFFFFF
    → is_empty a.id_hash ≡ false
    → (a.epoch == 0) ≡ false
    → a.n ≤ length urls
    → ((i : ℕ) → i < a.n → Answers nodes token (get_or urls i []))
    → All (λ i. i < a.n) order
    → ((i : ℕ) → i < a.n → Runs i order)
    → run_ttss_recover lib error_text crash_text urls token a.id_hash a.ver a.epoch a.t
        a.srec_seed_hex
        (invalidate_committee_shares lib error_text crash_text urls token a.id_hash a.ver a.epoch
          reason
          (distribute_share_envelopes_to_committees lib error_text crash_text urls token
            setup.share_envelopes a.n prefix order nodes).0).0
      ≡ err (
          codes "committee_fetch_shareForRecover_failed: "
          ++ error_text 409 (codes "share_inactive"))
unfolding run_ttss_recover recover_shares_from_committees
run_ttss_recover-invalidate lib error_text crash_text a setup urls token prefix reason order nodes h
      small named dated enough online within all_run =
    let s = ttss_share-IsSetup a setup h in
    let low_n = s.n_two in
    let low_t = s.t_two in
    let refused =
      committee_fetch_share-invalidate lib error_text crash_text a setup urls token prefix reason
        (codes "/shareForRecover") order nodes 0 h small named dated enough online within all_run
        (omega arith) in
    rw
      (recover_shares_loop-err lib error_text crash_text a.t urls (get_or urls 0 []) token a.id_hash
        a.ver a.epoch (0 + 1) _ _ (omega arith) (nth-get_or urls 0 [] (omega arith)) refl refused)
      refl
