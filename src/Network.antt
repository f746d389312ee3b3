-- ===== src/Network.antt =====
-- The client of the committee, cpp/committee_client.cpp, and the parts of cpp/ttss_flow.cpp that call
-- it, over nodes of cpp/committee_node.cpp. A message is the JSON value: writing and reading its text,
-- and HTTP, are third-party code. Parallel tasks are run in an order that is an argument.
pub mod Deliver
pub mod Tasks
pub mod Fetch
pub mod Places
pub mod Recover
pub mod Revoke
pub mod Refuse
pub mod Meta
mod Tests
use did_vc.Base.{
  ℕ, zero, suc, ◌+◌, Str, codes, str_eq, is_empty, Bool, true, false, not, ◌==◌, if◌then◌else◌,
  List, [], ◌∷◌, ◌++◌, nth, Option, none, some, Result, ok, err, ◌>>=◌, ◌>>◌, to_decimal, require,
}
use did_vc.Hex.{normalize_digest_hex32}
use did_vc.Envelope.{ShareEnvelope}
use did_vc.Json.Interface.{JsonLib}
use did_vc.Json.{
  parse_share_envelope_from_njson, share_envelope_from_njson, share_envelope_to_njson,
  envelope_members,
}
use did_vc.Ttss.Recover.{TtssRecoverResult, ttss_rec_nits_shamir}
use did_vc.Committee.Map.{CommitteeStore, find, put}
use did_vc.Committee.Handlers.{
  Reply, refusal, stored_reply, meta_reply, envelope_reply, invalidated_reply, fields, number,
  ShareFields, InvalidateFields, set_share_envelope, share_meta, serve_share_envelope_request,
  invalidate_shares,
}

-- A running node: its `--token`, whether the simulated network lets a request through, its clock and
-- its store.
pub record CommitteeNode : Type 0 where
  pub token : Str
  pub network : Bool
  pub now : ℕ
  pub store : CommitteeStore

-- The nodes at their addresses.
abbrev pub Nodes : Type 0
Nodes = List (Str × CommitteeNode)

-- A client function that returns a flag and writes `*err`.
pub data Answer : Type 0 where
  done : Answer
  refused : Str → Answer

-- The HTTP library's part: the text that `http_post_json` leaves for a reply of another status than
-- 200, and for a handler that threw.
module _ (lib : JsonLib) (error_text : ℕ → Str → Str) (crash_text : Str → Str) where
  open lib use {Value, make_object}

  abbrev pub timeout : Str
  timeout = codes "transport_error_or_timeout"

  -- A reply of status 200 that does not say what the client wants leaves its text, which is the
  -- library's; no handler gives one here.
  abbrev pub set_answer : Result Reply → Answer
  set_answer (ok (stored_reply key active)) = done
  set_answer (ok (refusal status e)) = refused (error_text status e)
  set_answer (ok _) = refused []
  set_answer (err e) = refused (crash_text e)

  abbrev pub post_share : Option CommitteeNode → Str → Str → Value → Nodes → Nodes × Result Answer
  post_share none url token v nodes = (nodes, ok (refused timeout))
  post_share (some node) url token v nodes =
      let (store, reply) =
        set_share_envelope node.token
          (fields (record {
            token = token;
            share_envelope = some (parse_share_envelope_from_njson lib v);
          }))
          node.now node.store in
      (put url (record node { store = store }) nodes, ok (set_answer reply))

  abbrev pub post_json : Result Value → Str → Str → Nodes → Nodes × Result Answer
  post_json (err e) url token nodes = (nodes, err e)
  post_json (ok v) url token nodes = post_share (find url nodes) url token v nodes

  unfoldable pub committee_set_share_envelope :
      Str → Str → ShareEnvelope → Nodes → Nodes × Result Answer
  committee_set_share_envelope url token env nodes =
      post_json (share_envelope_to_njson lib env) url token nodes

  abbrev pub fetched : Reply → Result ShareEnvelope
  fetched (envelope_reply endpoint env) =
      share_envelope_from_njson lib (make_object (envelope_members lib env))
  fetched (refusal status e) = err (error_text status e)
  fetched _ = err []

  abbrev pub post_request : Option CommitteeNode → Str → ShareFields → Result ShareEnvelope
  post_request none endpoint f = err timeout
  post_request (some node) endpoint f =
      fetched (serve_share_envelope_request endpoint node.token node.network (fields f) node.store)

  -- `err` holds what the function writes to `*err` when it returns `false`.
  unfoldable pub committee_fetch_share :
      Str → Str → Str → Str → ℕ → ℕ → ℕ → Nodes → Result ShareEnvelope
  committee_fetch_share url endpoint token id_hash ver epoch guardian_index nodes =
      post_request (find url nodes) endpoint (record {
        token = token;
        id_hash = id_hash;
        ver = ver;
        epoch = epoch;
        guardian_index = guardian_index;
      })

  abbrev pub invalidate_answer : Result Reply → Answer
  invalidate_answer (ok (invalidated_reply count)) = done
  invalidate_answer (ok (refusal status e)) = refused (error_text status e)
  invalidate_answer (ok _) = refused []
  invalidate_answer (err e) = refused (crash_text e)

  abbrev pub post_invalidate :
      Option CommitteeNode → Str → InvalidateFields → Nodes → Nodes × Answer
  post_invalidate none url f nodes = (nodes, refused timeout)
  post_invalidate (some node) url f nodes =
      let (store, reply) = invalidate_shares node.token (fields f) (λ k. node.now + k) node.store in
      (put url (record node { store = store }) nodes, invalidate_answer reply)

  unfoldable pub committee_invalidate : Str → InvalidateFields → Nodes → Nodes × Answer
  committee_invalidate url f nodes = post_invalidate (find url nodes) url f nodes

  -- The failure of one address or fetch ends the loop.
  abbrev pub or_fetch_failed : Result ShareEnvelope → Result ShareEnvelope
  or_fetch_failed (ok env) = ok env
  or_fetch_failed (err e) = err (codes "committee_fetch_shareForRecover_failed: " ++ e)

  -- `urls.at(i)`; the text of `std::out_of_range` is the library's.
  abbrev pub url_at : Option Str → Result Str
  url_at none = err (codes "out_of_range")
  url_at (some url) = ok url

  -- The loop over the first `threshold` addresses, from `i` on.
  unfoldable pub recover_shares_loop :
      ℕ → ℕ → List Str → Str → Str → ℕ → ℕ → Nodes → Result (List ShareEnvelope)
  recover_shares_loop zero i urls token id_hash ver epoch nodes = ok []
  recover_shares_loop (suc left) i urls token id_hash ver epoch nodes = do
    url ← url_at (nth urls i)
    env ←
        or_fetch_failed (
          committee_fetch_share url (codes "/shareForRecover") token id_hash ver epoch (i + 1)
            nodes)
    rest ← recover_shares_loop left (suc i) urls token id_hash ver epoch nodes
    ok (env ∷ rest)

  unfoldable pub recover_shares_from_committees :
      List Str → Str → Str → ℕ → ℕ → ℕ → Nodes → Result (List ShareEnvelope)
  recover_shares_from_committees urls token id_hash ver epoch threshold nodes =
      recover_shares_loop threshold 0 urls token id_hash ver epoch nodes

  -- What a task throws when its client function returns `false`.
  abbrev pub task_result : Result Answer → Str → Result (Unit {0})
  task_result (ok done) prefix = ok tt
  task_result (ok (refused e)) prefix = err (prefix ++ (codes ": " ++ e))
  task_result (err e) prefix = err e

  -- The task `i` of the distribution.
  abbrev pub set_task :
      Option Str → Option ShareEnvelope → Str → Str → Nodes → Nodes × Result (Unit {0})
  set_task (some url) (some env) token prefix nodes =
      let (after, answer) = committee_set_share_envelope url token env nodes in
      (after, task_result answer prefix)
  set_task _ _ token prefix nodes = (nodes, err (codes "out_of_range"))

  -- The tasks, in the order in which they come to run, and what became of them.
  unfoldable pub run_tasks :
      List ℕ
      → List Str
      → Str
      → List ShareEnvelope
      → Str
      → Nodes
      → Nodes × List (ℕ × Result (Unit {0}))
  run_tasks [] urls token envelopes prefix nodes = (nodes, [])
  run_tasks (i ∷ order) urls token envelopes prefix nodes =
      let (after, r) = set_task (nth urls i) (nth envelopes i) token prefix nodes in
      let (last, rs) = run_tasks order urls token envelopes prefix after in (last, (i, r) ∷ rs)

  abbrev pub future_of : ℕ → List (ℕ × Result (Unit {0})) → Result (Unit {0})
  future_of i [] = ok tt
  future_of i ((j, r) ∷ rs) = if i == j then r else future_of i rs

  -- `for (auto& f : tasks) f.get();`, from the task `i` on.
  unfoldable pub get_futures : ℕ → ℕ → List (ℕ × Result (Unit {0})) → Result (Unit {0})
  get_futures zero i rs = ok tt
  get_futures (suc left) i rs = do _ ← future_of i rs; get_futures left (suc i) rs

  unfoldable pub distribute_share_envelopes_to_committees :
      List Str → Str → List ShareEnvelope → ℕ → Str → List ℕ → Nodes → Nodes × Result (Unit {0})
  distribute_share_envelopes_to_committees urls token envelopes n prefix order nodes =
      let (after, rs) = run_tasks order urls token envelopes prefix nodes in
      (after, get_futures n 0 rs)

  -- The invalidations, in the order in which they come to run; whether each was answered with `ok`.
  unfoldable pub run_invalidations : List Str → InvalidateFields → Nodes → Nodes × List Answer
  run_invalidations [] f nodes = (nodes, [])
  run_invalidations (url ∷ urls) f nodes =
      let (after, answer) = committee_invalidate url f nodes in
      let (last, answers) = run_invalidations urls f after in (last, answer ∷ answers)

  -- The first of the failures.
  unfoldable pub get_invalidations : List Answer → Result (Unit {0})
  get_invalidations [] = ok tt
  get_invalidations (done ∷ answers) = get_invalidations answers
  get_invalidations (refused e ∷ answers) = err (codes "committee_invalidate_failed: " ++ e)

  unfoldable pub invalidate_committee_shares :
      List Str → Str → Str → ℕ → ℕ → Str → Nodes → Nodes × Result (Unit {0})
  invalidate_committee_shares urls token id_hash ver epoch reason nodes =
      let (after, answers) =
        run_invalidations urls
          (record { token = token; id_hash = id_hash; ver = ver; epoch = epoch; reason = reason })
          nodes in
      (after, get_invalidations answers)

  -- The outcome of the recovery, compared with the seed that the setup file holds.
  abbrev pub compare_recovered : TtssRecoverResult → Str → Result Bool
  compare_recovered rec expected = do
    require rec.is_ok
        (codes "ttss_rec_failed: " ++ (rec.error ++ (codes ";verify_err=" ++ rec.error)))
    a ← normalize_digest_hex32 rec.srec_seed_hex
    b ← normalize_digest_hex32 expected
    ok (str_eq a b)

  -- `run_ttss_recover` without its files and timings; `true` is the exit code 0.
  unfoldable pub run_ttss_recover : List Str → Str → Str → ℕ → ℕ → ℕ → Str → Nodes → Result Bool
  run_ttss_recover urls token id_hash ver epoch threshold expected nodes = do
    shares ← recover_shares_from_committees urls token id_hash ver epoch threshold nodes
    rec ← ttss_rec_nits_shamir shares
    compare_recovered rec expected
