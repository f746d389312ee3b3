-- ===== src/Committee/Spec.antt =====
-- What the committee of cpp/committee_node.cpp promises: its store is a map from share keys to
-- envelopes, in which an accepted envelope replaces what was there, and an invalidation switches off
-- every envelope of the version.
use did_vc.Base.{
  ℕ, Str, str_eq, is_empty, Bool, false, not, ◌||◌, ◌==◌, if◌then◌else◌, List, [], ◌∷◌, Option,
  none, some, Result, ok, err, ◌≡◌,
}
use did_vc.Envelope.{ShareEnvelope, Verdict, valid, share_key, verify_share_envelope_demo}
use did_vc.Committee.Map.{StoredEnvelope, CommitteeStore, find, equal_range, In}
use did_vc.Committee.Handlers.{
  Body, bad_json, fields, SetFields, InvalidateFields, invalidate_shares, version_key,
  set_share_envelope,
}

-- The promised state: the envelope of each key.
abbrev pub Promised : Type 0
Promised = Str → Option ShareEnvelope

abbrev pub version_of : ShareEnvelope → Result Str
version_of env = version_key env.id_hash env.ver env.epoch

abbrev pub switched_off : ShareEnvelope → ShareEnvelope
switched_off env = record env { active = false }

abbrev pub same_text : Result Str → Str → Bool
same_text (err e) vkey = false
same_text (ok v) vkey = str_eq v vkey

abbrev pub off_if : Bool → Option ShareEnvelope → Option ShareEnvelope
off_if b none = none
off_if b (some env) = some (if b then switched_off env else env)

-- An envelope of the version is switched off.
abbrev pub off_in_version : Str → Option ShareEnvelope → Option ShareEnvelope
off_in_version vkey none = none
off_in_version vkey (some env) = off_if (same_text (version_of env) vkey) (some env)

-- The envelope that a request of `/setShareEnvelope` is accepted for.
abbrev pub accepted_of : Result Verdict → ShareEnvelope → Option ShareEnvelope
accepted_of (ok valid) env = some env
accepted_of _ env = none

abbrev pub offered : Option (Result ShareEnvelope) → Option ShareEnvelope
offered (some (ok env)) = accepted_of (verify_share_envelope_demo env) env
offered _ = none

abbrev pub replaced : Option ShareEnvelope → Promised → Promised
replaced none m key = m key
replaced (some env) m key = if str_eq key (share_key env) then some env else m key

abbrev pub switched : Result Str → Promised → Promised
switched (err e) m key = m key
switched (ok vkey) m key = off_in_version vkey (m key)

-- A request that may change the store, with the clock.
pub data Request : Type 0 where
  set : Body SetFields → ℕ → Request
  invalidate : Body InvalidateFields → (ℕ → ℕ) → Request

abbrev pub promise : Str → Request → Promised → Promised
promise token (set (bad_json e) now) m = m
promise token (set (fields f) now) m =
    if not (str_eq f.token token) then m else replaced (offered f.share_envelope) m
promise token (invalidate (bad_json e) now) m = m
promise token (invalidate (fields f) now) m =
    if not (str_eq f.token token)
    then m
    else if is_empty f.id_hash || f.epoch == 0
    then m
    else switched (version_key f.id_hash f.ver f.epoch) m

-- The store after a request.
abbrev pub handle : Str → Request → CommitteeStore → CommitteeStore
handle token (set body now) store = (set_share_envelope token body now store).0
handle token (invalidate body now) store = (invalidate_shares token body now store).0

abbrev pub handle_all : Str → List Request → CommitteeStore → CommitteeStore
handle_all token [] store = store
handle_all token (r ∷ rs) store = handle_all token rs (handle token r store)

abbrev pub promise_all : Str → List Request → Promised → Promised
promise_all token [] m = m
promise_all token (r ∷ rs) m = promise_all token rs (promise token r m)

abbrev pub env_of : Option StoredEnvelope → Option ShareEnvelope
env_of none = none
env_of (some s) = some s.env

abbrev pub view : CommitteeStore → Promised
view store key = env_of (find key store.ttss_shares)

-- Keys are the ones of their envelopes, and the index lists a key under the version of its envelope
-- and under no other.
pub record IsIndexed (store : CommitteeStore) : Type 0 where
  pub keyed : (key : Str) (e : ShareEnvelope) → view store key ≡ some e → share_key e ≡ key
  pub listed :
      (key : Str) (e : ShareEnvelope)
      → view store key ≡ some e
      → (vkey : Str) × ((version_of e ≡ ok vkey) × In key (equal_range vkey store.by_version))
  pub origin :
      (vkey key : Str)
      → In key (equal_range vkey store.by_version)
      → (e : ShareEnvelope) × ((share_key e ≡ key) × (version_of e ≡ ok vkey))
