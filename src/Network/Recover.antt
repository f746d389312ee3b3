-- ===== src/Network/Recover.antt =====
-- The distribution of the shares of a setup to the committee and their recovery from it, end to end.
use did_vc.Base.{
  ℕ, zero, suc, ◌+◌, ◌<◌, ◌≤◌, ◌==◌, Str, codes, str_eq_iff, is_empty, true, false, List, [],
  length, get_or, All, nth, some, Result, ok, ◌≡◌, ◌≢◌, refl, sym, ◌∙◌, ap, subst, arith,
}
use did_vc.Hex.{normalize_digest_hex32}
use did_vc.Hex.Digest.{normalize_digest_hex32_idem}
use did_vc.Envelope.{ShareEnvelope, share_key}
use did_vc.Json.Interface.{JsonLib}
use did_vc.Ttss.{SetupArgs, TtssShareSetupResult, ttss_share_nits_shamir}
use did_vc.Ttss.Recover.{ttss_rec_nits_shamir}
use did_vc.Ttss.Build.{IsIssued}
use did_vc.Ttss.Issue.{IsSetup, ttss_share-IsSetup}
use did_vc.Ttss.RoundTrip.{In, ttss_rec-ttss_share}
use did_vc.Ttss.Chunks.{success}
use did_vc.Committee.Keys.{share_key-apart}
use did_vc.Network.{
  Nodes, recover_shares_loop, recover_shares_from_committees,
  distribute_share_envelopes_to_committees, run_ttss_recover, compare_recovered,
}
use did_vc.Network.Deliver.{Answers, Deliverable, Stands}
use did_vc.Network.Places.{
  nth-get_or, first_of, get_or-In, envs_from, All-envs_from, length-envs_from,
  DistinctIndex-envs_from, length-AreIssued, issued_at, IsIssued-Deliverable,
}
use did_vc.Network.Tasks.{Runs, Work, distribute-Distributed}
use did_vc.Network.Fetch.{Asks, committee_fetch_share-Stands}

-- What the client has to know of a place to recover from it.
pub record Ready (nodes : Nodes) (urls : List Str) (token id : Str) (ver epoch i : ℕ)
    (env : ShareEnvelope) : Type 0 where
  pub url : Str
  pub url_here : nth urls i ≡ some url
  pub answers : Answers nodes token url
  pub stands : Stands nodes url env
  pub asks : Asks id env
  pub deliverable : Deliverable env
  pub is_active : env.active ≡ true
  pub index : env.guardian_index ≡ i + 1
  pub same_ver : env.ver ≡ ver
  pub same_epoch : env.epoch ≡ epoch

module _ (lib : JsonLib) (error_text : ℕ → Str → Str) (crash_text : Str → Str) where
  recover_shares_loop-Ready :
      (left i : ℕ) (urls : List Str) (token id : Str) (ver epoch : ℕ) (nodes : Nodes)
      (env : ℕ → ShareEnvelope)
      → ((k : ℕ) → k < i + left → Ready nodes urls token id ver epoch k (env k))
      → recover_shares_loop lib error_text crash_text left i urls token id ver epoch nodes
        ≡ ok (envs_from env left i)
  unfolding recover_shares_loop
  recover_shares_loop-Ready zero i urls token id ver epoch nodes env h = refl
  recover_shares_loop-Ready (suc left) i urls token id ver epoch nodes env h =
      let r = h i (omega arith) in
      let got =
        committee_fetch_share-Stands lib error_text crash_text r.url (codes "/shareForRecover")
          token id (env i) nodes r.asks r.deliverable r.is_active r.answers r.stands in
      rw
        (
          r.url_here,
          ← r.same_ver,
          ← r.same_epoch,
          ← r.index,
          got,
          recover_shares_loop-Ready left (suc i) urls token id (env i).ver (env i).epoch nodes env
              (λ k lt. rw (r.same_ver, r.same_epoch) (h k (omega arith))),
        )
        refl

module _ (a : SetupArgs) (setup : TtssShareSetupResult) (s : IsSetup a setup)
    (small : a.n ≤ 0xFFFFFFFF) where
  abbrev count : length setup.share_envelopes ≡ a.n
  count = length-AreIssued a s.coeffs 0 setup.share_envelopes s.xs s.issued ∙ s.place_count

  -- The envelope of a place; the first one out of range.
  abbrev pub env_at : ℕ → ShareEnvelope
  env_at i =
      let low = s.n_two in
      let c = count in get_or setup.share_envelopes i (first_of setup.share_envelopes (omega arith))

  pub issued : (i : ℕ) → i < a.n → IsIssued a s.coeffs i (get_or s.xs i 0) (env_at i)
  issued i lt =
      let c = count in
      let z : 0 + i ≡ i = omega arith in
      subst (λ j. IsIssued a s.coeffs j (get_or s.xs i 0) (env_at i)) z
        (issued_at a s.coeffs 0 setup.share_envelopes s.xs i _ s.issued (omega arith))

  pub deliverable : (i : ℕ) → i < a.n → Deliverable (env_at i)
  deliverable i lt =
      IsIssued-Deliverable a s.coeffs i (get_or s.xs i 0) (env_at i) lt s.t_le_n small (issued i lt)

  pub apart : (i j : ℕ) → i < a.n → j < a.n → i ≢ j → share_key (env_at i) ≢ share_key (env_at j)
  apart i j li lj ne =
      let p = issued i li in
      let q = issued j lj in
      let ids =
        ok_same (normalize_digest_hex32 a.id_hash) (env_at i).id_hash (env_at j).id_hash p.id_hash
          q.id_hash in
      let ei = p.index in
      let ej = q.index in
      share_key-apart (env_at i) (env_at j) ids (p.ver ∙ sym q.ver) (p.epoch ∙ sym q.epoch)
        (omega arith) (omega arith)
        (λ e. differ i j (env_at i).guardian_index (env_at j).guardian_index ei ej ne e)
    where
      ok_same : (r : Result Str) (x y : Str) → r ≡ ok x → r ≡ ok y → x ≡ y
      ok_same r x y p q = cc

      differ : (i j p q : ℕ) → p ≡ i + 1 → q ≡ j + 1 → i ≢ j → p ≡ q → ⊥
      differ i j p q e f ne same = ne (omega arith)

  abbrev pub work : (urls : List Str) → a.n ≤ length urls → Work urls setup.share_envelopes a.n
  work urls le =
      let c = count in
      record {
        url = λ i. get_or urls i [];
        env = env_at;
        urls_at = λ i lt. nth-get_or urls i [] (omega arith);
        envs_at = λ i lt. nth-get_or setup.share_envelopes i _ (omega arith);
        deliverable = deliverable;
        apart = apart;
      }

  pub asks :
      (i : ℕ)
      → i < a.n
      → is_empty a.id_hash ≡ false
      → (a.epoch == 0) ≡ false
      → Asks a.id_hash (env_at i)
  asks i lt named dated =
      let p = issued i lt in
      let index = p.index in
      record {
        id_hash = p.id_hash;
        args = rw (named, p.epoch) dated;
        index = not_first (env_at i).guardian_index index;
      }
    where
      not_first : (g : ℕ) → g ≡ i + 1 → (g == 0) ≡ false
      not_first g e = ground arith

  chosen_In : All (λ e. In e setup.share_envelopes) (envs_from env_at a.t 0)
  chosen_In =
      let c = count in
      let le = s.t_le_n in
      All-envs_from (λ e. In e setup.share_envelopes) env_at a.t 0
        (λ k lo hi. get_or-In setup.share_envelopes k _ (omega arith))

  -- The first `t` envelopes recover the seed.
  pub ttss_rec-envs_from :
      ttss_share_nits_shamir a ≡ ok setup
      → (seed : Str) × (normalize_digest_hex32 a.srec_seed_hex ≡ ok seed)
        × (ttss_rec_nits_shamir (envs_from env_at a.t 0) ≡ ok (success seed a.t))
  ttss_rec-envs_from h =
      let le = s.t_le_n in
      let long = length-envs_from env_at a.t 0 in
      ttss_rec-ttss_share a setup (envs_from env_at a.t 0) h chosen_In
        (DistinctIndex-envs_from env_at a.t 0 (λ k lt. (issued k (omega arith)).index))
        (omega arith)

compare_recovered-success :
    (lib : JsonLib) (error_text : ℕ → Str → Str) (crash_text : Str → Str) (expected seed : Str)
    (t : ℕ)
    → normalize_digest_hex32 expected ≡ ok seed
    → compare_recovered lib error_text crash_text (success seed t) expected ≡ ok true
compare_recovered-success lib error_text crash_text expected seed t h =
    rw ((normalize_digest_hex32_idem expected seed h).1, h, (str_eq_iff seed seed).1 refl) refl

-- Of a setup that succeeds for at most 2 ^ 32 - 1 guardians, with an identity hash that is not
-- empty and an epoch that is not 0: when the node of every guardian's address answers and each task
-- of the distribution runs at least once, in any order, the distribution succeeds, and
-- `run_ttss_recover` over the same addresses then recovers the seed.
pub run_ttss_recover-distribute :
    (lib : JsonLib) (error_text : ℕ → Str → Str) (crash_text : Str → Str) (a : SetupArgs)
    (setup : TtssShareSetupResult) (urls : List Str) (token prefix : Str) (order : List ℕ)
    (nodes : Nodes)
    → ttss_share_nits_shamir a ≡ ok setup
    → a.n ≤ 0xFFFFFFFF
    → is_empty a.id_hash ≡ false
    → (a.epoch == 0) ≡ false
    → a.n ≤ length urls
    → ((i : ℕ) → i < a.n → Answers nodes token (get_or urls i []))
    → All (λ i. i < a.n) order
    → ((i : ℕ) → i < a.n → Runs i order)
    → ((distribute_share_envelopes_to_committees lib error_text crash_text urls token
          setup.share_envelopes a.n prefix order nodes).1
        ≡ ok tt)
      × (run_ttss_recover lib error_text crash_text urls token a.id_hash a.ver a.epoch a.t
            a.srec_seed_hex
            (distribute_share_envelopes_to_committees lib error_text crash_text urls token
              setup.share_envelopes a.n prefix order nodes).0
          ≡ ok true)
unfolding run_ttss_recover recover_shares_from_committees
run_ttss_recover-distribute lib error_text crash_text a setup urls token prefix order nodes h small
      named dated enough online within all_run =
    let s = ttss_share-IsSetup a setup h in
    let le = s.t_le_n in
    let w = work a setup s small urls enough in
    let d =
      distribute-Distributed lib error_text crash_text urls setup.share_envelopes a.n w token prefix
        order nodes within online in
    let (seed, normalised, recovered) = ttss_rec-envs_from a setup s small h in
    let ready : (k : ℕ)
        → k < 0 + a.t
        → Ready d.last urls token a.id_hash a.ver a.epoch k (env_at a setup s small k) =
      λ k lt.
        (let below : k < a.n = omega arith in
          record {
            url = get_or urls k [];
            url_here = nth-get_or urls k [] (omega arith);
            answers = d.answers k below;
            stands = d.stands k (all_run k below);
            asks = asks a setup s small k below named dated;
            deliverable = deliverable a setup s small k below;
            is_active = (issued a setup s small k below).is_active;
            index = (issued a setup s small k below).index;
            same_ver = (issued a setup s small k below).ver;
            same_epoch = (issued a setup s small k below).epoch;
          }) in
    let fetched =
      recover_shares_loop-Ready lib error_text crash_text a.t 0 urls token a.id_hash a.ver a.epoch
        d.last (env_at a setup s small) ready in
    (
      ap (λ r. r.1) d.returns,
      rw (ap (λ r. r.0) d.returns, fetched, recovered)
          (compare_recovered-success lib error_text crash_text a.srec_seed_hex seed a.t normalised),
    )
