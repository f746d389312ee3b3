-- ===== src/Committee/Handlers.antt =====
-- The handlers of cpp/committee_node.cpp.
use did_vc.Base.{
  ℕ, suc, Str, codes, str_eq, is_empty, Bool, false, not, ◌||◌, ltb, ◌==◌, if◌then◌else◌, List, [],
  ◌∷◌, ◌++◌, Option, none, some, Result, ok, err, ◌>>=◌, to_decimal,
}
use did_vc.Hex.{normalize_digest_hex32}
use did_vc.Envelope.{
  ShareEnvelope, Verdict, valid, invalid, share_key, verify_share_envelope_demo,
  normalized_optional_digest, normalized_fields,
}
use did_vc.Committee.Map.{Shares, StoredEnvelope, CommitteeStore, find, put, equal_range}

-- The body of a reply of `/shareMeta`.
pub record ShareMetaReply : Type 0 where
  pub id_hash : Str
  pub ver : ℕ
  pub epoch : ℕ
  pub guardian_index : ℕ
  pub guardian_id : Str
  pub active : Bool
  pub scheme : Str
  pub ui_hex : Str
  pub tag_hex : Str
  pub vk_set_hash : Str
  pub guardian_set_hash : Str

pub data Reply : Type 0 where
  refusal : ℕ → Str → Reply
  stored_reply : Str → Bool → Reply
  meta_reply : ShareMetaReply → Reply
  envelope_reply : Str → ShareEnvelope → Reply
  invalidated_reply : ℕ → Reply

abbrev pub Outcome : Type 0
Outcome = CommitteeStore × Result Reply

-- A JSON body: the parser's complaint, or the fields that the handler reads.
pub data Body (F : Type 0) : Type 0 where
  bad_json : Str → Body F
  fields : F → Body F

-- The token, and `shareEnvelope` when it is there: what the envelope's parser makes of it.
pub record SetFields : Type 0 where
  pub token : Str
  pub share_envelope : Option (Result ShareEnvelope)

pub record ShareFields : Type 0 where
  pub token : Str
  pub id_hash : Str
  pub ver : ℕ
  pub epoch : ℕ
  pub guardian_index : ℕ

pub record InvalidateFields : Type 0 where
  pub token : Str
  pub id_hash : Str
  pub ver : ℕ
  pub epoch : ℕ
  pub reason : Str

-- A query parameter: absent, not a number, or a number of 64 bits.
pub data Param : Type 0 where
  absent : Param
  malformed : Param
  number : ℕ → Param

unfoldable pub version_key : Str → ℕ → ℕ → Result Str
version_key id_hash ver epoch = do
  idh ← normalize_digest_hex32 id_hash
  ok (idh ++ b':' ∷ (to_decimal ver ++ b':' ∷ to_decimal epoch))

unfoldable pub share_lookup_key : Str → ℕ → ℕ → ℕ → Result Str
share_lookup_key id_hash ver epoch guardian_index = do
  vkey ← version_key id_hash ver epoch
  ok (vkey ++ b':' ∷ to_decimal guardian_index)

unfoldable pub parse_u64_param : Param → ℕ → Option ℕ
parse_u64_param absent def = some def
parse_u64_param malformed def = none
parse_u64_param (number v) def = some v

abbrev fits_u32 : Option ℕ → Option ℕ
fits_u32 none = none
fits_u32 (some v) = if ltb 0xFFFFFFFF v then none else some v

unfoldable pub parse_u32_param : Param → ℕ → Option ℕ
parse_u32_param p def = fits_u32 (parse_u64_param p def)

unfoldable pub share_meta_json : StoredEnvelope → Result ShareMetaReply
share_meta_json stored = do
  let env = stored.env
  id_hash ← normalize_digest_hex32 env.id_hash
  ui ← normalize_digest_hex32 env.ui_hex
  tag ← normalize_digest_hex32 env.tag_hex
  vk_set ← normalized_optional_digest env.meta.vk_set_hash
  guardian_set ← normalized_optional_digest env.meta.guardian_set_hash
  ok (record {
    id_hash = id_hash;
    ver = env.ver;
    epoch = env.epoch;
    guardian_index = env.guardian_index;
    guardian_id = env.guardian_id;
    active = env.active;
    scheme = env.scheme;
    ui_hex = ui;
    tag_hex = tag;
    vk_set_hash = vk_set;
    guardian_set_hash = guardian_set;
  })

-- The entry for a new envelope.
abbrev pub entry : ShareEnvelope → ℕ → StoredEnvelope
entry env now = record {
  env = env;
  share_key = share_key env;
  stored_at_ms = now;
  invalidated_at_ms = 0;
  invalidated_reason = [];
}

-- The insertion under the lock: the share, then its version key.
abbrev pub add_version : Result Str → ShareEnvelope → CommitteeStore → Outcome
add_version (err e) env store = (store, err e)
add_version (ok vkey) env store = (
  record store { by_version = store.by_version ++ (vkey, share_key env) ∷ [] },
  ok (stored_reply (share_key env) env.active),
)

unfoldable pub store_envelope : ShareEnvelope → ℕ → CommitteeStore → Outcome
store_envelope env now store =
    add_version (version_key env.id_hash env.ver env.epoch) env
      (record store { ttss_shares = put (share_key env) (entry env now) store.ttss_shares })

abbrev pub store_verified : Result Verdict → ShareEnvelope → ℕ → CommitteeStore → Outcome
store_verified (err e) env now store = (store, err e)
store_verified (ok (invalid e)) env now store =
    (store, ok (refusal 400 (codes "share_verify_failed:" ++ e)))
store_verified (ok valid) env now store = store_envelope env now store

abbrev pub store_parsed : Option (Result ShareEnvelope) → ℕ → CommitteeStore → Outcome
store_parsed none now store = (store, ok (refusal 400 (codes "missing_shareEnvelope")))
store_parsed (some (err e)) now store = (store, ok (refusal 400 e))
store_parsed (some (ok env)) now store =
    store_verified (verify_share_envelope_demo env) env now store

unfoldable pub set_share_envelope : Str → Body SetFields → ℕ → CommitteeStore → Outcome
set_share_envelope token (bad_json e) now store = (store, ok (refusal 400 (codes "bad_json:" ++ e)))
set_share_envelope token (fields f) now store =
    if not (str_eq f.token token)
    then (store, ok (refusal 401 (codes "bad_token")))
    else store_parsed f.share_envelope now store

abbrev pub meta_found : Option StoredEnvelope → Result Reply
meta_found none = ok (refusal 404 (codes "no_share_meta"))
meta_found (some s) = do reply ← share_meta_json s; ok (meta_reply reply)

abbrev pub meta_args : Str → Option ℕ → Option ℕ → Option ℕ → CommitteeStore → Result Reply
meta_args id_hash (some ver) (some epoch) (some guardian_index) store =
    if is_empty id_hash || epoch == 0 || guardian_index == 0
    then ok (refusal 400 (codes "bad_args"))
    else do
      key ← share_lookup_key id_hash ver epoch guardian_index
      meta_found (find key store.ttss_shares)
meta_args id_hash _ _ _ store = ok (refusal 400 (codes "bad_args"))

unfoldable pub share_meta : Str → Param → Param → Param → CommitteeStore → Result Reply
share_meta id_hash ver epoch guardian_index store =
    meta_args id_hash (parse_u64_param ver 0) (parse_u64_param epoch 0)
      (parse_u32_param guardian_index 0) store

-- What `find_requested_envelope` comes to: an error that was sent, or the envelope.
pub data Lookup : Type 0 where
  sent : ℕ → Str → Lookup
  found : StoredEnvelope → Lookup

-- The last check under the lock.
abbrev pub check_active : StoredEnvelope → Lookup
check_active s = if not s.env.active then sent 409 (codes "share_inactive") else found s

abbrev pub found_share : Option StoredEnvelope → Lookup
found_share none = sent 404 (codes "no_share")
found_share (some s) = check_active s

abbrev pub is_active : Option StoredEnvelope → Bool
is_active none = false
is_active (some s) = s.env.active

-- The loop over the share keys of a version: the first active share.
unfoldable pub pick_active : List Str → Shares → Option StoredEnvelope
pick_active [] m = none
pick_active (key ∷ keys) m = if is_active (find key m) then find key m else pick_active keys m

abbrev pub picked : Option StoredEnvelope → Lookup
picked none = sent 404 (codes "no_active_share")
picked (some s) =
    if is_empty s.share_key then sent 404 (codes "no_active_share") else check_active s

unfoldable pub find_requested_envelope : ShareFields → CommitteeStore → Result Lookup
find_requested_envelope f store =
    if is_empty f.id_hash || f.epoch == 0
    then ok (sent 400 (codes "bad_args"))
    else if not (f.guardian_index == 0)
    then (do
      key ← share_lookup_key f.id_hash f.ver f.epoch f.guardian_index
      ok (found_share (find key store.ttss_shares)))
    else (do
      vkey ← version_key f.id_hash f.ver f.epoch
      ok (picked (pick_active (equal_range vkey store.by_version) store.ttss_shares)))

abbrev pub reply_found : Str → Lookup → Result Reply
reply_found endpoint (sent status e) = ok (refusal status e)
reply_found endpoint (found s) = do env ← normalized_fields s.env; ok (envelope_reply endpoint env)

-- The handler's last `catch`.
abbrev pub internal_error : Result Reply → Reply
internal_error (ok r) = r
internal_error (err e) = refusal 500 (codes "internal_error:" ++ e)

-- `network` is the answer of `maybe_simulate_network`, which sleeps and rolls dice.
unfoldable pub serve_share_envelope_request :
    Str → Str → Bool → Body ShareFields → CommitteeStore → Reply
serve_share_envelope_request endpoint token network (bad_json e) store =
    refusal 400 (codes "json_error:" ++ e)
serve_share_envelope_request endpoint token network (fields f) store =
    if not (str_eq f.token token)
    then refusal 401 (codes "bad_token")
    else if not network
    then refusal 503 (codes "sim_fail")
    else internal_error (find_requested_envelope f store >>= reply_found endpoint)

-- An entry that is invalidated.
abbrev pub deactivated : StoredEnvelope → Str → ℕ → StoredEnvelope
deactivated s reason now = record s {
  env = record s.env { active = false };
  invalidated_at_ms = now;
  invalidated_reason = reason;
}

abbrev pub invalidate_found : Option StoredEnvelope → Str → Str → (ℕ → ℕ) → Shares × ℕ → Shares × ℕ
invalidate_found none key reason now mc = mc
invalidate_found (some s) key reason now (m, c) =
    if s.env.active then (put key (deactivated s reason (now c)) m, suc c) else (m, c)

-- The loop over the share keys of the version, with the number invalidated; `now k` is the clock at
-- the `k`-th of its readings.
unfoldable pub invalidate_loop : List Str → Str → (ℕ → ℕ) → Shares × ℕ → Shares × ℕ
invalidate_loop [] reason now mc = mc
invalidate_loop (key ∷ keys) reason now mc =
    invalidate_loop keys reason now (invalidate_found (find key mc.0) key reason now mc)

abbrev pub invalidate_version : Result Str → Str → (ℕ → ℕ) → CommitteeStore → Outcome
invalidate_version (err e) reason now store = (store, err e)
invalidate_version (ok vkey) reason now store =
    let (m, c) =
      invalidate_loop (equal_range vkey store.by_version) reason now (store.ttss_shares, 0) in
    (record store { ttss_shares = m }, ok (invalidated_reply c))

unfoldable pub invalidate_shares : Str → Body InvalidateFields → (ℕ → ℕ) → CommitteeStore → Outcome
invalidate_shares token (bad_json e) now store = (store, ok (refusal 400 (codes "bad_json:" ++ e)))
invalidate_shares token (fields f) now store =
    if not (str_eq f.token token)
    then (store, ok (refusal 401 (codes "bad_token")))
    else if is_empty f.id_hash || f.epoch == 0
    then (store, ok (refusal 400 (codes "bad_args")))
    else invalidate_version (version_key f.id_hash f.ver f.epoch) f.reason now store
