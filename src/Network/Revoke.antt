-- ===== src/Network/Revoke.antt =====
-- The invalidation of a version at the nodes of the committee: its shares are no longer handed out.
use did_vc.Base.{
  ℕ, ◌+◌, Str, str_eq_iff, true, false, Bool-cases, List, [], ◌∷◌, Option, none, some, ok, ◌≡◌, ◌≢◌,
  inl, inr, refl, sym, ◌∙◌, ap, subst,
}
use did_vc.Hex.Digest.{normalize_digest_hex32_idem}
use did_vc.Envelope.{ShareEnvelope, share_key}
use did_vc.Json.Interface.{JsonLib}
use did_vc.Committee.Map.{
  Shares, StoredEnvelope, CommitteeStore, find, put, equal_range, In, find-put_same, find-put_other,
}
use did_vc.Committee.Handlers.{
  fields, InvalidateFields, deactivated, version_key, invalidate_found, invalidate_loop,
  invalidate_shares,
}
use did_vc.Committee.Invalidate.{Str-cases, Inactive, step-other, loop-Inactive, loop_keeps}
use did_vc.Network.{CommitteeNode, Nodes, committee_invalidate, post_invalidate}
use did_vc.Network.Deliver.{Answers, Stands}
use did_vc.Network.Fetch.{Asks}

-- There is an entry for the key.
record Present (key : Str) (m : Shares) : Type 0 where
  entry : StoredEnvelope
  here : find key m ≡ some entry

skipped :
    (s : StoredEnvelope) (k reason : Str) (now : ℕ → ℕ) (mc : Shares × ℕ)
    → s.env.active ≡ false
    → invalidate_found (some s) k reason now mc ≡ mc
skipped s k reason now mc off = rw off refl

step-Present :
    (k reason : Str) (now : ℕ → ℕ) (mc : Shares × ℕ) (key : Str)
    → Present key mc.0
    → Present key (invalidate_found (find k mc.0) k reason now mc).0
step-Present k reason now mc key p = elim (Str-cases key k) [
  | inl same ↦
      let at_k : find k mc.0 ≡ some p.entry = subst (λ z. find z mc.0 ≡ some p.entry) same p.here in
      elim (Bool-cases p.entry.env.active) [
        | inl on ↦ record {
          entry = deactivated p.entry reason (now mc.1);
          here =
              rw same
                (rw (at_k, on) (find-put_same k (deactivated p.entry reason (now mc.1)) mc.0));
        }
        | inr off ↦ record {
          entry = p.entry;
          here = rw at_k (
              ap (λ (c : Shares × ℕ). find key c.0) (skipped p.entry k reason now mc off) ∙ p.here);
        }
      ]
  | inr differ ↦ record { entry = p.entry; here = step-other key k reason now mc differ ∙ p.here }
]

loop-Present :
    (keys : List Str) (reason : Str) (now : ℕ → ℕ) (mc : Shares × ℕ) (key : Str)
    → Present key mc.0
    → Present key (invalidate_loop keys reason now mc).0
unfolding invalidate_loop
loop-Present [] reason now mc key p = p
loop-Present (k ∷ keys) reason now mc key p =
    loop-Present keys reason now (invalidate_found (find k mc.0) k reason now mc) key
      (step-Present k reason now mc key p)

-- The entry of the envelope at the address is no longer active.
pub record Revoked (nodes : Nodes) (token url : Str) (env : ShareEnvelope) : Type 0 where
  pub node : CommitteeNode
  pub at_url : find url nodes ≡ some node
  pub same_token : node.token ≡ token
  pub online : node.network ≡ true
  pub stored : StoredEnvelope
  pub stands : find (share_key env) node.store.ttss_shares ≡ some stored
  pub off : stored.env.active ≡ false

-- The request of the client.
abbrev pub invalidation : Str → Str → ShareEnvelope → Str → InvalidateFields
invalidation token id env reason = record {
  token = token;
  id_hash = id;
  ver = env.ver;
  epoch = env.epoch;
  reason = reason;
}

-- The store that the request leaves.
abbrev store_without : Str → Str → (ℕ → ℕ) → CommitteeStore → CommitteeStore
store_without vkey reason now store = record store {
  ttss_shares =
      (invalidate_loop (equal_range vkey store.by_version) reason now (store.ttss_shares, 0)).0;
}

same_version :
    (id : Str) (env : ShareEnvelope)
    → Asks id env
    → version_key id env.ver env.epoch ≡ version_key env.id_hash env.ver env.epoch
unfolding version_key
same_version id env q =
    rw (q.id_hash, (normalize_digest_hex32_idem id env.id_hash q.id_hash).1) refl

invalidate_shares-store_without :
    (token id reason vkey : Str) (env : ShareEnvelope) (now : ℕ → ℕ) (store : CommitteeStore)
    → Asks id env
    → version_key env.id_hash env.ver env.epoch ≡ ok vkey
    → (invalidate_shares token (fields (invalidation token id env reason)) now store).0
      ≡ store_without vkey reason now store
unfolding invalidate_shares
invalidate_shares-store_without token id reason vkey env now store q hk =
    rw ((str_eq_iff token token).1 refl, q.args, same_version id env q, hk) refl

module _ (lib : JsonLib) (error_text : ℕ → Str → Str) (crash_text : Str → Str)
    (token id reason vkey : Str) (env : ShareEnvelope) (q : Asks id env)
    (hk : version_key env.id_hash env.ver env.epoch ≡ ok vkey) where
  -- The nodes after one request.
  abbrev after_request : Str → CommitteeNode → Nodes → Nodes
  after_request url node nodes =
      put url (record node { store = store_without vkey reason (λ k. node.now + k) node.store })
        nodes

  committee_invalidate-after_request :
      (url : Str) (node : CommitteeNode) (nodes : Nodes)
      → find url nodes ≡ some node
      → node.token ≡ token
      → (committee_invalidate lib error_text crash_text url
          (invalidation token id env reason)
          nodes).0
        ≡ after_request url node nodes
  unfolding committee_invalidate
  committee_invalidate-after_request url node nodes here same =
      rw
        (
          here,
          same,
          invalidate_shares-store_without token id reason vkey env (λ k. node.now + k) node.store q
              hk,
        )
        refl

  -- The nodes at other addresses are left alone.
  pub committee_invalidate-other :
      (url other : Str) (nodes : Nodes)
      → other ≢ url
      → find other
          (committee_invalidate lib error_text crash_text url
            (invalidation token id env reason)
            nodes).0
        ≡ find other nodes
  unfolding committee_invalidate
  committee_invalidate-other url other nodes differ = go (find url nodes)
    where
      go :
          (o : Option CommitteeNode)
          → find other
              (post_invalidate lib error_text crash_text o url
                (invalidation token id env reason)
                nodes).0
            ≡ find other nodes
      go none = refl
      go (some node) = find-put_other other url _ nodes differ

  -- The entry stays revoked.
  pub Revoked-committee_invalidate :
      (url other : Str) (nodes : Nodes)
      → Revoked nodes token url env
      → Revoked
          (committee_invalidate lib error_text crash_text other
            (invalidation token id env reason)
            nodes).0
          token
          url
          env
  Revoked-committee_invalidate url other nodes r = elim (Str-cases url other) [
    | inl same ↦ again (subst (λ u. find u nodes ≡ some r.node) same r.at_url) same
    | inr differ ↦ record {
      node = r.node;
      at_url = committee_invalidate-other other url nodes differ ∙ r.at_url;
      same_token = r.same_token;
      online = r.online;
      stored = r.stored;
      stands = r.stands;
      off = r.off;
    }
  ]
    where
      again :
          find other nodes ≡ some r.node
          → url ≡ other
          → Revoked
              (committee_invalidate lib error_text crash_text other
                (invalidation token id env reason)
                nodes).0
              token
              url
              env
      again here same =
          let e = committee_invalidate-after_request other r.node nodes here r.same_token in
          let clock : ℕ → ℕ = λ k. r.node.now + k in
          let p : Present (share_key env) r.node.store.ttss_shares = record {
            entry = r.stored;
            here = r.stands;
          } in
          let after =
            loop-Present (equal_range vkey r.node.store.by_version) reason clock
              (r.node.store.ttss_shares, 0) (share_key env) p in
          let still =
            loop_keeps (equal_range vkey r.node.store.by_version) reason clock
              (r.node.store.ttss_shares, 0) (share_key env) (rw r.stands r.off) in
          rw (e, same)
            (record {
              node = record r.node { store = store_without vkey reason clock r.node.store };
              at_url = find-put_same other _ nodes;
              same_token = r.same_token;
              online = r.online;
              stored = after.entry;
              stands = after.here;
              off = subst Inactive after.here still;
            })

  -- An envelope that stands at the address is revoked by the request.
  pub Revoked-Stands :
      (url : Str) (nodes : Nodes)
      → Answers nodes token url
      → Stands nodes url env
      → Revoked
          (committee_invalidate lib error_text crash_text url
            (invalidation token id env reason)
            nodes).0
          token
          url
          env
  Revoked-Stands url nodes a s =
      let e = committee_invalidate-after_request url a.node nodes a.at_url a.same_token in
      let clock : ℕ → ℕ = λ k. a.node.now + k in
      let same_node : s.node ≡ a.node = cc in
      let same_vkey : s.vkey ≡ vkey = (let v = s.version in cc) in
      let listed : In (share_key env) (equal_range vkey a.node.store.by_version) =
        subst (λ v. In (share_key env) (equal_range v a.node.store.by_version)) same_vkey
          (subst (λ (n : CommitteeNode). In (share_key env) (equal_range s.vkey n.store.by_version))
            same_node s.listed) in
      let held : find (share_key env) a.node.store.ttss_shares ≡ some s.stored =
        ap (λ (n : CommitteeNode). find (share_key env) n.store.ttss_shares) (sym same_node)
        ∙ s.stands in
      let keys = equal_range vkey a.node.store.by_version in
      let mc : Shares × ℕ = (a.node.store.ttss_shares, 0) in
      let after =
        loop-Present keys reason clock mc (share_key env)
          (record { entry = s.stored; here = held }) in
      rw e (record {
        node = record a.node { store = store_without vkey reason clock a.node.store };
        at_url = find-put_same url _ nodes;
        same_token = a.same_token;
        online = a.online;
        stored = after.entry;
        stands = after.here;
        off = subst Inactive after.here (loop-Inactive keys reason clock mc (share_key env) listed);
      })
