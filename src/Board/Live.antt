-- ===== src/Board/Live.antt =====
-- When `wait_for_identity_ready_after_register` of cpp/http_client.cpp is bound to return, and when to
-- throw.
use did_vc.Base.{
  ℕ, Str, is_empty, Bool, true, false, not, ◌&&◌, if◌then◌else◌, List, [], ◌∷◌, ◌++◌, Result, ok,
  err, ◌≡◌, refl, All,
}
use did_vc.Text.{trim_copy}
use did_vc.Merkle.{MerklePath}
use did_vc.Board.Interface.{BoardJson, Whole}
use did_vc.Board.{Moment, RootInfo, RegisterStatusInfo, status_reports_ready, status_reports_failed}
use did_vc.Board.Snapshot.{
  probed, StatusAnswer, status_is, no_status, fetch_register_status, probe_path_ready,
}
use did_vc.Board.Wait.{
  RegisterResponse, Observed, Waiting, Step, observed, waiting, fast_part, poll_status, poll_round,
  poll_next, poll_loop, slow_part, wait_for_identity_ready_after_register,
}

module _ (normalize_field_hex : Str → Result Str) (json : BoardJson) (depth : Whole) (id : Str)
    (min_version : ℕ) (reg : RegisterResponse) where
  open json use {Value}

  -- The status at the moment is not FAILED.
  abbrev pub NotFailed : Moment → Type 0
  NotFailed m =
      (st : RegisterStatusInfo)
      → fetch_register_status normalize_field_hex json reg.op_id reg.request_key m ≡ status_is st
      → status_reports_failed st ≡ false

  -- The status at the moment is ready and not stale, and the probe gives a root that is not blank.
  pub record Serves (m : Moment) : Type 0 where
    pub st : RegisterStatusInfo
    pub status_here :
        fetch_register_status normalize_field_hex json reg.op_id reg.request_key m ≡ status_is st
    pub fine : status_reports_failed st ≡ false
    pub ready : status_reports_ready st ≡ true
    pub fresh : st.cache_stale ≡ false
    pub root : RootInfo
    pub path : MerklePath
    pub leaf : Value
    pub probe_here :
        probe_path_ready normalize_field_hex json id min_version m ≡ probed root path leaf
    pub solid : is_empty (trim_copy root.root) ≡ false

  poll_round-NotFailed :
      (m : Moment) (w : Waiting)
      → NotFailed m
      → (s : Step Value) × (poll_round normalize_field_hex json depth id min_version reg m w ≡ ok s)
  unfolding poll_round
  poll_round-NotFailed m w h =
      go (fetch_register_status normalize_field_hex json reg.op_id reg.request_key m) h
    where
      pick :
          (a b : Bool) (e : Str) (x y : Step Value)
          → a ≡ false
          → (s : Step Value) × ((if a then err e else if b then ok x else ok y) ≡ ok s)
      pick true b e x y p = absurd (cc)
      pick false true e x y p = (x, refl)
      pick false false e x y p = (y, refl)

      go :
          (a : StatusAnswer)
          → ((st : RegisterStatusInfo) → a ≡ status_is st → status_reports_failed st ≡ false)
          → (s : Step Value) × (poll_status normalize_field_hex json depth id min_version reg a m w
              ≡ ok s)
      go (no_status e) k = (_, refl)
      go (status_is st) k =
          pick (status_reports_failed st) (status_reports_ready st && not st.cache_stale) _ _ _
            (k st refl)

  poll_round-Serves :
      (m : Moment) (w : Waiting) (s : Serves m)
      → poll_round normalize_field_hex json depth id min_version reg m w
        ≡ ok (observed (record { root = s.root; path = s.path; leaf = s.leaf }))
  unfolding poll_round
  poll_round-Serves m w s =
      let ready : (status_reports_ready s.st && not s.st.cache_stale) ≡ true =
        both _ _ s.ready s.fresh in
      rw (s.status_here, s.fine, ready, s.probe_here, s.solid) refl
    where
      both : (a b : Bool) → a ≡ true → b ≡ false → (a && not b) ≡ true
      both a b p q = rw (p, q) refl

  poll_loop-Serves :
      (before : List Moment) (m : Moment) (after : List Moment) (w : Waiting)
      → All NotFailed before
      → Serves m
      → (out : Observed Value) × (poll_loop normalize_field_hex json depth id min_version reg
            (before ++ m ∷ after)
            w
          ≡ ok (observed out))
  unfolding poll_loop
  poll_loop-Serves [] m after w h s =
      (record { root = s.root; path = s.path; leaf = s.leaf }, rw (poll_round-Serves m w s) refl)
  poll_loop-Serves (b ∷ before) m after w h s =
      let (step, e) = poll_round-NotFailed b w h.0 in
      next step e (λ v. poll_loop-Serves before m after v h.1 s)
    where
      next :
          (step : Step Value)
          → poll_round normalize_field_hex json depth id min_version reg b w ≡ ok step
          → ((v : Waiting)
              → (out : Observed Value) × (poll_loop normalize_field_hex json depth id min_version
                    reg
                    (before ++ m ∷ after)
                    v
                  ≡ ok (observed out)))
          → (out : Observed Value) × (poll_next normalize_field_hex json depth id min_version reg
                (poll_round normalize_field_hex json depth id min_version reg b w)
                (poll_loop normalize_field_hex json depth id min_version reg (before ++ m ∷ after))
              ≡ ok (observed out))
      next (observed out) e rest = (out, rw e refl)
      next (waiting v) e rest = let (out, p) = rest v in (out, rw e p)

  -- When in some round of the second loop the board serves the identity, and in no earlier round the
  -- status is FAILED, the wait returns.
  pub wait_for_identity-Serves :
      (fast before : List Moment) (m : Moment) (after : List Moment) (last : Moment)
      → All NotFailed before
      → Serves m
      → (out : Observed Value) × (wait_for_identity_ready_after_register normalize_field_hex json
            depth id min_version reg fast
            (before ++ m ∷ after)
            last
          ≡ ok out)
  unfolding wait_for_identity_ready_after_register
  wait_for_identity-Serves fast before m after last h s =
      go (fast_part normalize_field_hex json depth id min_version reg fast)
    where
      go :
          (f : Step Value)
          → (out : Observed Value) × (slow_part normalize_field_hex json depth id min_version reg f
                (before ++ m ∷ after)
                last
              ≡ ok out)
      go (observed out) = (out, refl)
      go (waiting w) = let (out, p) = poll_loop-Serves before m after w h s in (out, rw p refl)
