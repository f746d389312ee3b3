-- ===== src/Board/Wait.antt =====
-- `wait_for_identity_ready_after_register` of cpp/http_client.cpp. The rounds that the clock lets the
-- two loops run are given by the board's answers during each; the measured times are left out.
use did_vc.Base.{
  ℕ, Str, codes, str_eq, is_empty, Bool, false, not, ◌&&◌, ◌||◌, if◌then◌else◌, List, [], ◌∷◌, ◌++◌,
  Option, none, some, Result, ok, err,
}
use did_vc.Text.{trim_copy}
use did_vc.Merkle.{MerklePath}
use did_vc.Board.Interface.{BoardJson, Whole}
use did_vc.Board.{
  Moment, RootInfo, RegisterStatusInfo, status_reports_ready, status_reports_failed,
  status_error_text, fetch_root,
}
use did_vc.Board.Snapshot.{
  Probe, probed, pending, StatusAnswer, status_is, no_status, fetch_register_status,
  probe_path_ready,
}

-- The members of `RegisterResponse` that the wait reads.
pub record RegisterResponse : Type 0 where
  pub is_ok : Bool
  pub accepted : Bool
  pub ready : Bool
  pub op_id : Str
  pub request_key : Str
  pub tx_hash : Str
  pub status : Str
  pub root : Str
  pub epoch : ℕ
  pub version : ℕ

unfoldable pub register_status_from_response : RegisterResponse → RegisterStatusInfo
register_status_from_response reg = record {
  is_ok = reg.is_ok;
  accepted = reg.accepted;
  ready = reg.ready;
  cache_stale = false;
  op_id = reg.op_id;
  request_key = reg.request_key;
  kind = [];
  id = [];
  status = reg.status;
  tx_hash = reg.tx_hash;
  root = reg.root;
  last_error = [];
  epoch = reg.epoch;
  version = reg.version;
}

unfoldable pub response_reports_ready : RegisterResponse → Bool
response_reports_ready reg = reg.ready || str_eq reg.status (codes "READY")

-- What the caller gets through the pointers.
pub record Observed (Value : Type 0) : Type 0 where
  pub root : RootInfo
  pub path : MerklePath
  pub leaf : Value

-- Where a loop stands when its time is over: the last status, if any, and the last error.
pub record Waiting : Type 0 where
  pub last_status : Option RegisterStatusInfo
  pub last_err : Str

-- What a round or a loop comes to: the outputs, or the wait goes on.
pub data Step (Value : Type 0) : Type 0 where
  observed : Observed Value → Step Value
  waiting : Waiting → Step Value

abbrev pub status_text : Option RegisterStatusInfo → Str
status_text none = []
status_text (some st) = st.status

module _ (normalize_field_hex : Str → Result Str) (json : BoardJson) (depth : Whole) where
  open json use {Value}

  -- `err` holds `*outErr`.
  unfoldable pub choose_root_after_ready :
      RegisterStatusInfo → MerklePath → Moment → Result RootInfo
  choose_root_after_ready st path m =
      if not (is_empty (trim_copy st.root))
      then ok (record { root = st.root; epoch = st.epoch; depth = depth })
      else if not (is_empty (trim_copy path.root))
      then ok (record {
        root = path.root;
        epoch = path.epoch;
        depth = record { negative = false; magnitude = path.depth };
      })
      else fetch_root normalize_field_hex m

  module _ (id : Str) (min_version : ℕ) (reg : RegisterResponse) where
    abbrev pub fast_chosen : Result RootInfo → MerklePath → Value → Waiting → Step Value
    fast_chosen (ok root) path leaf w = observed (record { root = root; path = path; leaf = leaf })
    fast_chosen (err e) path leaf w = waiting (record w { last_err = e })

    abbrev pub fast_probed : Probe Value → Moment → Waiting → Step Value
    fast_probed (pending e) m w = waiting (record w { last_err = e })
    fast_probed (probed root path leaf) m w =
        fast_chosen (choose_root_after_ready (register_status_from_response reg) path m) path leaf w

    abbrev pub fast_next : Step Value → (Waiting → Step Value) → Step Value
    fast_next (observed out) rest = observed out
    fast_next (waiting w) rest = rest w

    -- The first loop, for a registration that was answered with READY and a root.
    unfoldable pub fast_loop : List Moment → Waiting → Step Value
    fast_loop [] w = waiting w
    fast_loop (m ∷ ms) w =
        fast_next (fast_probed (probe_path_ready normalize_field_hex json id min_version m) m w)
          (fast_loop ms)

    -- A probe behind a status that is ready; without a root the last error is the empty one.
    abbrev pub poll_probed : Probe Value → Waiting → Step Value
    poll_probed (pending e) w = waiting (record w { last_err = e })
    poll_probed (probed root path leaf) w =
        if not (is_empty (trim_copy root.root))
        then observed (record { root = root; path = path; leaf = leaf })
        else waiting (record w { last_err = [] })

    abbrev pub not_ready_text : RegisterStatusInfo → Str → Str
    not_ready_text st before =
        if st.cache_stale
        then codes "cache_stale"
        else if not (is_empty st.status)
        then codes "status=" ++ st.status
        else before

    abbrev pub register_failed : RegisterStatusInfo → Str
    register_failed st = codes "register_status_failed: " ++ status_error_text st

    abbrev pub poll_status : StatusAnswer → Moment → Waiting → Result (Step Value)
    poll_status (no_status e) m w = ok (waiting (record w { last_err = e }))
    poll_status (status_is st) m w =
        if status_reports_failed st
        then err (register_failed st)
        else if status_reports_ready st && not st.cache_stale
        then ok (
            poll_probed (probe_path_ready normalize_field_hex json id min_version m)
              (record w { last_status = some st }))
        else ok
            (waiting (record { last_status = some st; last_err = not_ready_text st w.last_err }))

    unfoldable pub poll_round : Moment → Waiting → Result (Step Value)
    poll_round m w =
        poll_status (fetch_register_status normalize_field_hex json reg.op_id reg.request_key m) m w

    abbrev pub poll_next :
        Result (Step Value) → (Waiting → Result (Step Value)) → Result (Step Value)
    poll_next (err e) rest = err e
    poll_next (ok (observed out)) rest = ok (observed out)
    poll_next (ok (waiting w)) rest = rest w

    -- The second loop.
    unfoldable pub poll_loop : List Moment → Waiting → Result (Step Value)
    poll_loop [] w = ok (waiting w)
    poll_loop (m ∷ ms) w = poll_next (poll_round m w) (poll_loop ms)

    abbrev pub keep_text : Str → Str → Str
    keep_text e before = if is_empty e then before else e

    abbrev pub final_probed : Probe Value → Waiting → Step Value
    final_probed (pending e) w = waiting (record w { last_err = keep_text e w.last_err })
    final_probed (probed root path leaf) w =
        if not (is_empty (trim_copy root.root))
        then observed (record { root = root; path = path; leaf = leaf })
        else waiting (record w { last_err = [] })

    -- The check behind the deadline.
    abbrev pub final_status : StatusAnswer → Moment → Waiting → Result (Step Value)
    final_status (no_status e) m w = ok (waiting (record w { last_err = keep_text e w.last_err }))
    final_status (status_is st) m w =
        if status_reports_ready st && not st.cache_stale
        then ok (
            final_probed (probe_path_ready normalize_field_hex json id min_version m)
              (record w { last_status = some st }))
        else if status_reports_failed st
        then err (register_failed st)
        else ok (waiting (record w { last_status = some st }))

    unfoldable pub final_round : Moment → Waiting → Result (Step Value)
    final_round m w =
        final_status (fetch_register_status normalize_field_hex json reg.op_id reg.request_key m) m
          w

    abbrev pub part : Str → Str → Str
    part label e = if is_empty e then [] else label ++ e

    abbrev pub give_up : Result (Step Value) → Result (Observed Value)
    give_up (err e) = err e
    give_up (ok (observed out)) = ok out
    give_up (ok (waiting w)) = err (
        codes "accepted_but_not_observed_ready_after_register"
        ++ (part (codes ";last_status=") (status_text w.last_status)
            ++ part (codes ";last_err=") w.last_err))

    abbrev pub slow_part : Step Value → List Moment → Moment → Result (Observed Value)
    slow_part (observed out) polls last = ok out
    slow_part (waiting w) polls last = give_up (poll_next (poll_loop polls w) (final_round last))

    abbrev pub fast_part : List Moment → Step Value
    fast_part fast =
        if response_reports_ready reg && not (is_empty (trim_copy reg.root))
        then fast_loop fast (record { last_status = none; last_err = [] })
        else waiting (record { last_status = none; last_err = [] })

    unfoldable pub wait_for_identity_ready_after_register :
        List Moment → List Moment → Moment → Result (Observed Value)
    wait_for_identity_ready_after_register fast polls last = slow_part (fast_part fast) polls last
