-- ===== src/Network/Meta.antt =====
-- The check of the stored shares by `/shareMeta`, of cpp/committee_client.cpp and cpp/ttss_flow.cpp.
use did_vc.Base.{
  ℕ, zero, suc, ◌+◌, ◌<◌, ◌≤◌, ◌==◌, ltb, Str, codes, is_empty, true, false, List, [], ◌++◌, length,
  get_or, All, nth, Option, none, some, Result, ok, err, ◌>>=◌, ◌>>◌, require, ◌≡◌, refl, sym, ◌∙◌,
  ap, subst, arith,
}
use did_vc.Hex.Digest.{normalize_digest_hex32-IsDigest}
use did_vc.Envelope.{ShareEnvelope, share_key}
use did_vc.Envelope.Normal.{IsNormal, normalized_optional_digest-IsDigest}
use did_vc.Json.Interface.{JsonLib}
use did_vc.Ttss.{SetupArgs, TtssShareSetupResult, ttss_share_nits_shamir}
use did_vc.Ttss.Issue.{ttss_share-IsSetup}
use did_vc.Committee.Map.{StoredEnvelope, CommitteeStore, find}
use did_vc.Committee.Handlers.{
  Reply, refusal, meta_reply, ShareMetaReply, number, parse_u64_param, parse_u32_param,
  share_meta_json, share_meta,
}
use did_vc.Network.{CommitteeNode, Nodes, url_at, distribute_share_envelopes_to_committees}
use did_vc.Network.Deliver.{Answers, Stands}
use did_vc.Network.Places.{nth-get_or}
use did_vc.Network.Tasks.{Runs, distribute-Distributed}
use did_vc.Network.Fetch.{Asks, share_lookup_key-share_key}
use did_vc.Network.Recover.{env_at, issued, work, asks}

module _ (lib : JsonLib) (error_text : ℕ → Str → Str) (crash_text : Str → Str) where
  abbrev pub meta_failed : Str → Result ShareMetaReply
  meta_failed e = err (codes "committee_get_share_meta_failed: " ++ e)

  abbrev pub got_meta : Result Reply → Result ShareMetaReply
  got_meta (ok (meta_reply r)) = ok r
  got_meta (ok (refusal status e)) = meta_failed (error_text status e)
  got_meta (ok _) = meta_failed []
  got_meta (err e) = meta_failed (crash_text e)

  abbrev pub get_meta : Option CommitteeNode → Str → ℕ → ℕ → ℕ → Result ShareMetaReply
  get_meta none id_hash ver epoch guardian_index = meta_failed (codes "transport_error_or_timeout")
  get_meta (some node) id_hash ver epoch guardian_index =
      got_meta (share_meta id_hash (number ver) (number epoch) (number guardian_index) node.store)

  unfoldable pub committee_get_share_meta : Str → Str → ℕ → ℕ → ℕ → Nodes → Result ShareMetaReply
  committee_get_share_meta url id_hash ver epoch guardian_index nodes =
      get_meta (find url nodes) id_hash ver epoch guardian_index

  -- The tasks from `i` on; the first failure in their order is thrown. A reply has `ok` 1.
  unfoldable pub verify_meta_loop : ℕ → ℕ → List Str → Str → ℕ → ℕ → Str → Nodes → Result (Unit {0})
  verify_meta_loop zero i urls id_hash ver epoch message nodes = ok tt
  verify_meta_loop (suc left) i urls id_hash ver epoch message nodes = do
    url ← url_at lib error_text crash_text (nth urls i)
    meta ← committee_get_share_meta url id_hash ver epoch (i + 1) nodes
    require meta.active message
    verify_meta_loop left (suc i) urls id_hash ver epoch message nodes

  unfoldable pub verify_committee_share_meta_active :
      List Str → Str → ℕ → ℕ → ℕ → Str → Nodes → Result (Unit {0})
  verify_committee_share_meta_active urls id_hash ver epoch n message nodes =
      verify_meta_loop n 0 urls id_hash ver epoch message nodes

-- What the node says of a share in normal form.
record Says (s : StoredEnvelope) : Type 0 where
  reply : ShareMetaReply
  said : share_meta_json s ≡ ok reply
  same_active : reply.active ≡ s.env.active

share_meta_json-IsNormal : (s : StoredEnvelope) → IsNormal s.env → Says s
unfolding share_meta_json
share_meta_json-IsNormal s d = record {
  reply = record {
    id_hash = s.env.id_hash;
    ver = s.env.ver;
    epoch = s.env.epoch;
    guardian_index = s.env.guardian_index;
    guardian_id = s.env.guardian_id;
    active = s.env.active;
    scheme = s.env.scheme;
    ui_hex = s.env.ui_hex;
    tag_hex = s.env.tag_hex;
    vk_set_hash = s.env.meta.vk_set_hash;
    guardian_set_hash = s.env.meta.guardian_set_hash;
  };
  said =
      rw
        (
          normalize_digest_hex32-IsDigest _ d.id_hash,
          normalize_digest_hex32-IsDigest _ d.ui,
          normalize_digest_hex32-IsDigest _ d.tag,
          normalized_optional_digest-IsDigest _ d.vk_set,
          normalized_optional_digest-IsDigest _ d.guardian_set,
        )
        refl;
  same_active = refl;
}

share_meta-Stands :
    (id : Str) (env : ShareEnvelope) (store : CommitteeStore) (s : StoredEnvelope)
    → Asks id env
    → env.guardian_index ≤ 0xFFFFFFFF
    → find (share_key env) store.ttss_shares ≡ some s
    → (d : Says s)
    → share_meta id (number env.ver) (number env.epoch) (number env.guardian_index) store
      ≡ ok (meta_reply d.reply)
unfolding share_meta parse_u64_param parse_u32_param
share_meta-Stands id env store s q small held d =
    let fits : ltb 0xFFFFFFFF env.guardian_index ≡ false = ground arith in
    rw (fits, q.args, q.index, share_lookup_key-share_key id env q.id_hash, held, d.said) refl

module _ (lib : JsonLib) (error_text : ℕ → Str → Str) (crash_text : Str → Str) where
  -- The address answers that the share is active.
  record SaysActive (urls : List Str) (id : Str) (ver epoch i : ℕ) (nodes : Nodes) : Type 0 where
    url : Str
    url_here : nth urls i ≡ some url
    reply : ShareMetaReply
    said :
        committee_get_share_meta lib error_text crash_text url id ver epoch (i + 1) nodes ≡ ok reply
    on : reply.active ≡ true

  verify_meta_loop-SaysActive :
      (left i : ℕ) (urls : List Str) (id : Str) (ver epoch : ℕ) (message : Str) (nodes : Nodes)
      → ((k : ℕ) → k < i + left → SaysActive urls id ver epoch k nodes)
      → verify_meta_loop lib error_text crash_text left i urls id ver epoch message nodes ≡ ok tt
  unfolding verify_meta_loop
  verify_meta_loop-SaysActive zero i urls id ver epoch message nodes h = refl
  verify_meta_loop-SaysActive (suc left) i urls id ver epoch message nodes h =
      let r = h i (omega arith) in
      rw (r.url_here, r.said, r.on)
        (verify_meta_loop-SaysActive left (suc i) urls id ver epoch message nodes
          (λ k lt. h k (omega arith)))

  committee_get_share_meta-Stands :
      (url token id : Str) (ver epoch g : ℕ) (env : ShareEnvelope) (nodes : Nodes)
      → env.ver ≡ ver
      → env.epoch ≡ epoch
      → env.guardian_index ≡ g
      → Asks id env
      → IsNormal env
      → env.guardian_index ≤ 0xFFFFFFFF
      → env.active ≡ true
      → Stands nodes url env
      → (reply : ShareMetaReply) × ((committee_get_share_meta lib error_text crash_text url id ver
              epoch g nodes
            ≡ ok reply)
          × (reply.active ≡ true))
  unfolding committee_get_share_meta
  committee_get_share_meta-Stands url token id ver epoch g env nodes same_ver same_epoch same_index
        q normal small on s =
      let says = share_meta_json-IsNormal s.stored (subst IsNormal (sym s.same) normal) in
      (
        says.reply,
        (
          rw
              (
                ← same_ver,
                ← same_epoch,
                ← same_index,
                s.at_url,
                share_meta-Stands id env s.node.store s.stored q small s.stands says,
              )
              refl,
          says.same_active ∙ ap (λ (e : ShareEnvelope). e.active) s.same ∙ on,
        ),
      )

-- Of a setup that was distributed as for `run_ttss_recover-distribute`, every node reports its share as
-- active, so that `verify_committee_share_meta_active` succeeds.
pub verify_committee_share_meta_active-distribute :
    (lib : JsonLib) (error_text : ℕ → Str → Str) (crash_text : Str → Str) (a : SetupArgs)
    (setup : TtssShareSetupResult) (urls : List Str) (token prefix message : Str) (order : List ℕ)
    (nodes : Nodes)
    → ttss_share_nits_shamir a ≡ ok setup
    → a.n ≤ 0xFFFFFFFF
    → is_empty a.id_hash ≡ false
    → (a.epoch == 0) ≡ false
    → a.n ≤ length urls
    → ((i : ℕ) → i < a.n → Answers nodes token (get_or urls i []))
    → All (λ i. i < a.n) order
    → ((i : ℕ) → i < a.n → Runs i order)
    → verify_committee_share_meta_active lib error_text crash_text urls a.id_hash a.ver a.epoch a.n
        message
        (distribute_share_envelopes_to_committees lib error_text crash_text urls token
          setup.share_envelopes a.n prefix order nodes).0
      ≡ ok tt
unfolding verify_committee_share_meta_active
verify_committee_share_meta_active-distribute lib error_text crash_text a setup urls token prefix
      message order nodes h small named dated enough online within all_run =
    let s = ttss_share-IsSetup a setup h in
    let w = work a setup s small urls enough in
    let d =
      distribute-Distributed lib error_text crash_text urls setup.share_envelopes a.n w token prefix
        order nodes within online in
    let active : (k : ℕ)
        → k < 0 + a.n
        → SaysActive lib error_text crash_text urls a.id_hash a.ver a.epoch k d.last =
      λ k lt.
        (let below : k < a.n = omega arith in
          let p = issued a setup s small k below in
          let at_index = p.index in
          let (reply, (said, on)) =
            committee_get_share_meta-Stands lib error_text crash_text (get_or urls k []) token
              a.id_hash a.ver a.epoch (k + 1) (env_at a setup s small k) d.last p.ver p.epoch
              p.index (asks a setup s small k below named dated) p.normal (omega arith) p.is_active
              (d.stands k (all_run k below)) in
          record {
            url = get_or urls k [];
            url_here = nth-get_or urls k [] (omega arith);
            reply = reply;
            said = said;
            on = on;
          }) in
    rw (ap (λ r. r.0) d.returns) (
      verify_meta_loop-SaysActive lib error_text crash_text a.n 0 urls a.id_hash a.ver a.epoch
        message d.last active)
