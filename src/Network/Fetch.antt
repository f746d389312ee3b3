-- ===== src/Network/Fetch.antt =====
-- One call of `committee_fetch_share`: the envelope that stands at the node comes back.
use did_vc.Base.{
  ℕ, ◌==◌, Str, str_eq_iff, is_empty, true, false, ◌||◌, ◌∷◌, ◌++◌, some, ok, ◌≡◌, refl, sym, ◌∙◌,
  ap, to_decimal,
}
use mathlib.Core.List.{append_assoc}
use did_vc.Hex.{normalize_digest_hex32}
use did_vc.Envelope.{ShareEnvelope, share_key, normalized_fields}
use did_vc.Json.Interface.{JsonLib}
use did_vc.Json.{share_envelope_from_njson}
use did_vc.Json.RoundTrip.{parse-make_object}
use did_vc.Committee.Map.{CommitteeStore, StoredEnvelope, find}
use did_vc.Committee.Handlers.{
  ShareFields, found, check_active, found_share, find_requested_envelope,
  serve_share_envelope_request, version_key, share_lookup_key,
}
use did_vc.Network.{CommitteeNode, Nodes, committee_fetch_share}
use did_vc.Network.Deliver.{Answers, Deliverable, Stands}

-- The key under which a request looks for the envelope.
pub share_lookup_key-share_key :
    (id : Str) (env : ShareEnvelope)
    → normalize_digest_hex32 id ≡ ok env.id_hash
    → share_lookup_key id env.ver env.epoch env.guardian_index ≡ ok (share_key env)
unfolding share_lookup_key version_key share_key
share_lookup_key-share_key id env h = rw h (
    ap ok (
      append_assoc env.id_hash (b':' ∷ (to_decimal env.ver ++ b':' ∷ to_decimal env.epoch))
        (b':' ∷ to_decimal env.guardian_index)
      ∙ ap (λ (z : Str). env.id_hash ++ b':' ∷ z)
          (append_assoc (to_decimal env.ver) (b':' ∷ to_decimal env.epoch)
            (b':' ∷ to_decimal env.guardian_index))))

-- A request that the handlers take for the envelope.
pub record Asks (id : Str) (env : ShareEnvelope) : Type 0 where
  pub id_hash : normalize_digest_hex32 id ≡ ok env.id_hash
  pub args : (is_empty id || env.epoch == 0) ≡ false
  pub index : (env.guardian_index == 0) ≡ false

-- The request of the client.
abbrev pub request_for : Str → Str → ShareEnvelope → ShareFields
request_for token id env = record {
  token = token;
  id_hash = id;
  ver = env.ver;
  epoch = env.epoch;
  guardian_index = env.guardian_index;
}

pub find_requested-share_key :
    (token id : Str) (env : ShareEnvelope) (store : CommitteeStore)
    → Asks id env
    → find_requested_envelope (request_for token id env) store
      ≡ ok (found_share (find (share_key env) store.ttss_shares))
unfolding find_requested_envelope
find_requested-share_key token id env store q =
    rw (q.args, q.index, share_lookup_key-share_key id env q.id_hash) refl

check_active-on : (s : StoredEnvelope) → s.env.active ≡ true → check_active s ≡ found s
check_active-on s on = rw on refl

module _ (lib : JsonLib) (error_text : ℕ → Str → Str) (crash_text : Str → Str) where
  pub committee_fetch_share-Stands :
      (url endpoint token id : Str) (env : ShareEnvelope) (nodes : Nodes)
      → Asks id env
      → Deliverable env
      → env.active ≡ true
      → Answers nodes token url
      → Stands nodes url env
      → committee_fetch_share lib error_text crash_text url endpoint token id env.ver env.epoch
          env.guardian_index nodes
        ≡ ok env
  unfolding committee_fetch_share serve_share_envelope_request share_envelope_from_njson
  committee_fetch_share-Stands url endpoint token id env nodes q d on a s =
      let same_node : s.node ≡ a.node = cc in
      let held : find (share_key env) a.node.store.ttss_shares ≡ some s.stored =
        ap (λ (n : CommitteeNode). find (share_key env) n.store.ttss_shares) (sym same_node)
        ∙ s.stands in
      let stored_on : s.stored.env.active ≡ true =
        ap (λ (e : ShareEnvelope). e.active) s.same ∙ on in
      rw
        (
          a.at_url,
          (str_eq_iff token a.node.token).1 (sym a.same_token),
          a.online,
          find_requested-share_key token id env a.node.store q,
          held,
          check_active-on s.stored stored_on,
          ap normalized_fields s.same ∙ d.normal,
          parse-make_object lib env d.checks d.fits,
        )
        refl
