-- ===== src/Network/Deliver.antt =====
-- One call of `committee_set_share_envelope`: the envelope lands, and nothing else is lost.
use did_vc.Base.{
  ℕ, Str, str_eq_iff, true, [], ◌∷◌, ◌++◌, some, ok, ◌≡◌, ◌≢◌, inl, inr, refl, sym, ◌∙◌, ap, subst,
}
use did_vc.Envelope.{
  ShareEnvelope, valid, share_key, basic_validate_share_envelope, verify_share_envelope_demo,
  normalized_fields,
}
use did_vc.Json.Interface.{JsonLib}
use did_vc.Json.{share_envelope_to_njson}
use did_vc.Json.RoundTrip.{FitsU32, parse-make_object}
use did_vc.Committee.Map.{
  CommitteeStore, StoredEnvelope, find, put, equal_range, In, find-put_same, find-put_other,
  equal_range-emplace, equal_range_keep,
}
use did_vc.Committee.Handlers.{
  fields, entry, store_envelope, stored_reply, set_share_envelope, version_key,
}
use did_vc.Committee.Invalidate.{Str-cases}
use did_vc.Network.{CommitteeNode, Nodes, done, committee_set_share_envelope}

-- The node at the address is there, has the token, and its network lets requests through.
pub record Answers (nodes : Nodes) (token url : Str) : Type 0 where
  pub node : CommitteeNode
  pub at_url : find url nodes ≡ some node
  pub same_token : node.token ≡ token
  pub online : node.network ≡ true

-- An envelope that a node accepts and its JSON form leaves as it is.
pub record Deliverable (env : ShareEnvelope) : Type 0 where
  pub normal : normalized_fields env ≡ ok env
  pub checks : basic_validate_share_envelope env ≡ valid
  pub verified : verify_share_envelope_demo env ≡ ok valid
  pub fits : FitsU32 env

-- The envelope stands in the store of the node at the address, active or not, and is listed under its
-- version.
pub record Stands (nodes : Nodes) (url : Str) (env : ShareEnvelope) : Type 0 where
  pub node : CommitteeNode
  pub at_url : find url nodes ≡ some node
  pub stored : StoredEnvelope
  pub stands : find (share_key env) node.store.ttss_shares ≡ some stored
  pub same : stored.env ≡ env
  pub vkey : Str
  pub version : version_key env.id_hash env.ver env.epoch ≡ ok vkey
  pub listed : In (share_key env) (equal_range vkey node.store.by_version)

-- The store once `env` is in it.
abbrev pub store_with : ShareEnvelope → ℕ → Str → CommitteeStore → CommitteeStore
store_with env now vkey store = record {
  ttss_shares = put (share_key env) (entry env now) store.ttss_shares;
  by_version = store.by_version ++ (vkey, share_key env) ∷ [];
}

abbrev pub nodes_with : ShareEnvelope → Str → CommitteeNode → Str → Nodes → Nodes
nodes_with env vkey node url nodes =
    put url (record node { store = store_with env node.now vkey node.store }) nodes

set_share_envelope-verified :
    (token : Str) (env : ShareEnvelope) (now : ℕ) (store : CommitteeStore) (vkey : Str)
    → verify_share_envelope_demo env ≡ ok valid
    → version_key env.id_hash env.ver env.epoch ≡ ok vkey
    → set_share_envelope token
        (fields (record { token = token; share_envelope = some (ok env) }))
        now
        store
      ≡ (store_with env now vkey store, ok (stored_reply (share_key env) env.active))
unfolding set_share_envelope store_envelope
set_share_envelope-verified token env now store vkey hv hk =
    rw ((str_eq_iff token token).1 refl, hv, hk) refl

-- A delivered envelope is stored, and the client is told so.
pub committee_set_share_envelope-done :
    (lib : JsonLib) (error_text : ℕ → Str → Str) (crash_text : Str → Str) (url token : Str)
    (env : ShareEnvelope) (nodes : Nodes) (vkey : Str)
    → Deliverable env
    → version_key env.id_hash env.ver env.epoch ≡ ok vkey
    → (a : Answers nodes token url)
    → committee_set_share_envelope lib error_text crash_text url token env nodes
      ≡ (nodes_with env vkey a.node url nodes, ok done)
unfolding committee_set_share_envelope share_envelope_to_njson
committee_set_share_envelope-done lib error_text crash_text url token env nodes vkey d hk a =
    rw
      (
        d.normal,
        a.at_url,
        parse-make_object lib env d.checks d.fits,
        a.same_token,
        set_share_envelope-verified token env a.node.now a.node.store vkey d.verified hk,
      )
      refl

module _ (nodes : Nodes) (url : Str) (env : ShareEnvelope) (vkey : Str) (node : CommitteeNode) where
  -- Every node goes on answering.
  pub Answers-nodes_with :
      (token other : Str)
      → find url nodes ≡ some node
      → Answers nodes token other
      → Answers (nodes_with env vkey node url nodes) token other
  Answers-nodes_with token other here a = elim (Str-cases other url) [
    | inl same ↦
        let found : find url nodes ≡ some a.node =
          subst (λ u. find u nodes ≡ some a.node) same a.at_url in
        let e : a.node ≡ node = cc in
        record {
          node = record node { store = store_with env node.now vkey node.store };
          at_url = rw same (
              find-put_same url (record node { store = store_with env node.now vkey node.store })
                nodes);
          same_token = ap (λ (n : CommitteeNode). n.token) (sym e) ∙ a.same_token;
          online = ap (λ (n : CommitteeNode). n.network) (sym e) ∙ a.online;
        }
    | inr differ ↦ record {
      node = a.node;
      at_url = find-put_other other url _ nodes differ ∙ a.at_url;
      same_token = a.same_token;
      online = a.online;
    }
  ]

  -- The delivered envelope stands.
  pub Stands-nodes_with :
      version_key env.id_hash env.ver env.epoch ≡ ok vkey
      → Stands (nodes_with env vkey node url nodes) url env
  Stands-nodes_with hk = record {
    node = record node { store = store_with env node.now vkey node.store };
    at_url = find-put_same url _ nodes;
    stored = entry env node.now;
    stands = find-put_same (share_key env) _ node.store.ttss_shares;
    same = refl;
    vkey = vkey;
    version = hk;
    listed = equal_range-emplace vkey (share_key env) node.store.by_version;
  }

  -- An envelope with another key goes on standing.
  pub Stands-nodes_with_other :
      (other : Str) (f : ShareEnvelope)
      → find url nodes ≡ some node
      → share_key f ≢ share_key env
      → Stands nodes other f
      → Stands (nodes_with env vkey node url nodes) other f
  Stands-nodes_with_other other f here apart s = elim (Str-cases other url) [
    | inl same ↦
        let found : find url nodes ≡ some s.node =
          subst (λ u. find u nodes ≡ some s.node) same s.at_url in
        let e : s.node ≡ node = cc in
        record {
          node = record node { store = store_with env node.now vkey node.store };
          at_url = rw same (
              find-put_same url (record node { store = store_with env node.now vkey node.store })
                nodes);
          stored = s.stored;
          stands =
              find-put_other (share_key f) (share_key env) _ node.store.ttss_shares apart
              ∙ ap (λ (n : CommitteeNode). find (share_key f) n.store.ttss_shares) (sym e)
              ∙ s.stands;
          same = s.same;
          vkey = s.vkey;
          version = s.version;
          listed =
              equal_range_keep s.vkey (share_key f) node.store.by_version (vkey, share_key env)
                (subst
                  (λ (n : CommitteeNode). In (share_key f) (equal_range s.vkey n.store.by_version))
                  e s.listed);
        }
    | inr differ ↦ record {
      node = s.node;
      at_url = find-put_other other url _ nodes differ ∙ s.at_url;
      stored = s.stored;
      stands = s.stands;
      same = s.same;
      vkey = s.vkey;
      version = s.version;
      listed = s.listed;
    }
  ]
