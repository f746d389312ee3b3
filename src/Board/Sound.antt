-- ===== src/Board/Sound.antt =====
-- The loops of `wait_for_identity_ready_after_register` of cpp/http_client.cpp, round by round.
use did_vc.Base.{
  ℕ, Str, is_empty, Bool, true, false, not, ◌&&◌, Bool-cases, if◌then◌else◌, List, [], ◌∷◌, none,
  some, Result, ok, err, ◌≡◌, ◌⊎◌, inl, inr, refl, subst,
}
use did_vc.Text.{trim_copy}
use did_vc.Merkle.{MerklePath}
use did_vc.Board.Interface.{BoardJson, Whole}
use did_vc.Board.{Moment, RootInfo, status_reports_ready, status_reports_failed}
use did_vc.Board.Snapshot.{
  Probe, probed, pending, StatusAnswer, status_is, no_status, fetch_register_status,
  probe_path_ready,
}
use did_vc.Board.Wait.{
  RegisterResponse, Observed, Waiting, Step, observed, waiting, register_status_from_response,
  response_reports_ready, choose_root_after_ready, fast_probed, fast_next, fast_loop, poll_probed,
  poll_status, poll_round, poll_next, poll_loop, final_probed, final_status, final_round, give_up,
  slow_part, wait_for_identity_ready_after_register,
}
use did_vc.Board.Ready.{Among, SeenAt, probe-SeenAt}

module _ (normalize_field_hex : Str → Result Str) (json : BoardJson) (depth : Whole) (id : Str)
    (min_version : ℕ) (reg : RegisterResponse) where
  open json use {Value}

  -- The outputs were seen to be ready at the moment, and the root is a text that is not blank.
  pub record WasReady (m : Moment) (out : Observed Value) : Type 0 where
    pub seen : SeenAt normalize_field_hex json id min_version m out.path out.leaf
    pub solid : is_empty (trim_copy out.root.root) ≡ false

  -- Of a step: what it hands out was ready at the moment.
  abbrev StepReady : Moment → Step Value → Type 0
  StepReady m (observed out) = WasReady m out
  StepReady m (waiting w) = Unit

  abbrev RoundReady : Moment → Result (Step Value) → Type 0
  RoundReady m (ok s) = StepReady m s
  RoundReady m (err e) = Unit

  unnegate : (b : Bool) → not b ≡ true → b ≡ false
  unnegate true h = absurd (cc)
  unnegate false h = refl

  solid_ready :
      (m : Moment) (root : RootInfo) (path : MerklePath) (leaf : Value) (w : Waiting)
      → SeenAt normalize_field_hex json id min_version m path leaf
      → StepReady m (
          if not (is_empty (trim_copy root.root))
          then observed (record { root = root; path = path; leaf = leaf })
          else waiting w)
  solid_ready m root path leaf w s = elim (Bool-cases (not (is_empty (trim_copy root.root)))) [
    | inl full ↦ rw full (record { seen = s; solid = unnegate _ full })
    | inr blank ↦ rw blank tt
  ]

  poll_probed-StepReady :
      (m : Moment) (p : Probe Value) (w : Waiting)
      → probe_path_ready normalize_field_hex json id min_version m ≡ p
      → StepReady m (poll_probed normalize_field_hex json depth id min_version reg p w)
  poll_probed-StepReady m (pending e) w h = tt
  poll_probed-StepReady m (probed root path leaf) w h =
      solid_ready m root path leaf _
        (probe-SeenAt normalize_field_hex json id min_version m root path leaf h)

  final_probed-StepReady :
      (m : Moment) (p : Probe Value) (w : Waiting)
      → probe_path_ready normalize_field_hex json id min_version m ≡ p
      → StepReady m (final_probed normalize_field_hex json depth id min_version reg p w)
  final_probed-StepReady m (pending e) w h = tt
  final_probed-StepReady m (probed root path leaf) w h =
      solid_ready m root path leaf _
        (probe-SeenAt normalize_field_hex json id min_version m root path leaf h)

  poll_round-RoundReady :
      (m : Moment) (w : Waiting)
      → RoundReady m (poll_round normalize_field_hex json depth id min_version reg m w)
  unfolding poll_round
  poll_round-RoundReady m w =
      go (fetch_register_status normalize_field_hex json reg.op_id reg.request_key m)
    where
      go :
          (a : StatusAnswer)
          → RoundReady m (poll_status normalize_field_hex json depth id min_version reg a m w)
      go (no_status e) = tt
      go (status_is st) = elim (Bool-cases (status_reports_failed st)) [
        | inl bad ↦ rw bad tt
        | inr fine ↦ elim (Bool-cases (status_reports_ready st && not st.cache_stale)) [
          | inl ready ↦
              rw (fine, ready)
                (poll_probed-StepReady m
                  (probe_path_ready normalize_field_hex json id min_version m)
                  (record w { last_status = some st }) refl)
          | inr later ↦ rw (fine, later) tt
        ]
      ]

  final_round-RoundReady :
      (m : Moment) (w : Waiting)
      → RoundReady m (final_round normalize_field_hex json depth id min_version reg m w)
  unfolding final_round
  final_round-RoundReady m w =
      go (fetch_register_status normalize_field_hex json reg.op_id reg.request_key m)
    where
      go :
          (a : StatusAnswer)
          → RoundReady m (final_status normalize_field_hex json depth id min_version reg a m w)
      go (no_status e) = tt
      go (status_is st) = elim (Bool-cases (status_reports_ready st && not st.cache_stale)) [
        | inl ready ↦ rw ready (
            final_probed-StepReady m (probe_path_ready normalize_field_hex json id min_version m)
              (record w { last_status = some st }) refl)
        | inr later ↦ elim (Bool-cases (status_reports_failed st)) [
          | inl bad ↦ rw (later, bad) tt
          | inr fine ↦ rw (later, fine) tt
        ]
      ]

  -- Of a loop: what it hands out was ready in one of its rounds.
  abbrev StepAmong : List Moment → Step Value → Type 0
  StepAmong ms (observed out) = (m : Moment) × (Among m ms × WasReady m out)
  StepAmong ms (waiting w) = Unit

  abbrev LoopAmong : List Moment → Result (Step Value) → Type 0
  LoopAmong ms (ok s) = StepAmong ms s
  LoopAmong ms (err e) = Unit

  StepAmong-more :
      (m : Moment) (ms : List Moment) (s : Step Value) → StepAmong ms s → StepAmong (m ∷ ms) s
  StepAmong-more m ms (observed out) (n, (at, r)) = (n, (inr at, r))
  StepAmong-more m ms (waiting w) h = tt

  fast_probed-StepReady :
      (m : Moment) (p : Probe Value) (w : Waiting)
      → is_empty (trim_copy reg.root) ≡ false
      → probe_path_ready normalize_field_hex json id min_version m ≡ p
      → StepReady m (fast_probed normalize_field_hex json depth id min_version reg p m w)
  unfolding choose_root_after_ready register_status_from_response
  fast_probed-StepReady m (pending e) w solid h = tt
  fast_probed-StepReady m (probed root path leaf) w solid h = rw solid (record {
    seen = probe-SeenAt normalize_field_hex json id min_version m root path leaf h;
    solid = solid;
  })

  fast_loop-StepAmong :
      (ms : List Moment) (w : Waiting)
      → is_empty (trim_copy reg.root) ≡ false
      → StepAmong ms (fast_loop normalize_field_hex json depth id min_version reg ms w)
  unfolding fast_loop
  fast_loop-StepAmong [] w solid = tt
  fast_loop-StepAmong (m ∷ ms) w solid =
      let p = probe_path_ready normalize_field_hex json id min_version m in
      next (fast_probed normalize_field_hex json depth id min_version reg p m w)
        (fast_probed-StepReady m p w solid refl) (λ v. fast_loop-StepAmong ms v solid)
    where
      next :
          (s : Step Value)
          → StepReady m s
          → ((v : Waiting)
              → StepAmong ms (fast_loop normalize_field_hex json depth id min_version reg ms v))
          → StepAmong (m ∷ ms) (
              fast_next normalize_field_hex json depth id min_version reg s
                (fast_loop normalize_field_hex json depth id min_version reg ms))
      next (observed out) h rest = (m, (inl refl, h))
      next (waiting v) h rest = StepAmong-more m ms _ (rest v)

  poll_loop-LoopAmong :
      (ms : List Moment) (w : Waiting)
      → LoopAmong ms (poll_loop normalize_field_hex json depth id min_version reg ms w)
  unfolding poll_loop
  poll_loop-LoopAmong [] w = tt
  poll_loop-LoopAmong (m ∷ ms) w =
      next (poll_round normalize_field_hex json depth id min_version reg m w)
        (poll_round-RoundReady m w) (λ v. poll_loop-LoopAmong ms v)
    where
      more : (r : Result (Step Value)) → LoopAmong ms r → LoopAmong (m ∷ ms) r
      more (ok s) h = StepAmong-more m ms s h
      more (err e) h = tt

      next :
          (r : Result (Step Value))
          → RoundReady m r
          → ((v : Waiting)
              → LoopAmong ms (poll_loop normalize_field_hex json depth id min_version reg ms v))
          → LoopAmong (m ∷ ms) (
              poll_next normalize_field_hex json depth id min_version reg r
                (poll_loop normalize_field_hex json depth id min_version reg ms))
      next (err e) h rest = tt
      next (ok (observed out)) h rest = (m, (inl refl, h))
      next (ok (waiting v)) h rest = more _ (rest v)

  -- One of the moments of the wait.
  abbrev pub Witnessed : List Moment → List Moment → Moment → Observed Value → Type 0
  Witnessed fast polls last out =
      (m : Moment) × ((Among m fast ⊎ (Among m polls ⊎ (m ≡ last))) × WasReady m out)

  slow-Witnessed :
      (fast polls : List Moment) (last : Moment) (w : Waiting) (out : Observed Value)
      → slow_part normalize_field_hex json depth id min_version reg (waiting w) polls last ≡ ok out
      → Witnessed fast polls last out
  slow-Witnessed fast polls last w out h =
      after (poll_loop normalize_field_hex json depth id min_version reg polls w)
        (poll_loop-LoopAmong polls w) h
    where
      end :
          (r : Result (Step Value))
          → RoundReady last r
          → give_up normalize_field_hex json depth id min_version reg r ≡ ok out
          → Witnessed fast polls last out
      end (err e) r p = absurd (cc)
      end (ok (observed o)) r p =
          let same : o ≡ out = cc in (last, (inr (inr refl), subst (WasReady last) same r))
      end (ok (waiting v)) r p = absurd (cc)

      after :
          (r : Result (Step Value))
          → LoopAmong polls r
          → give_up normalize_field_hex json depth id min_version reg (
              poll_next normalize_field_hex json depth id min_version reg r
                (final_round normalize_field_hex json depth id min_version reg last))
            ≡ ok out
          → Witnessed fast polls last out
      after (err e) r p = absurd (cc)
      after (ok (observed o)) (m, (at, r)) p =
          let same : o ≡ out = cc in (m, (inr (inl at), subst (WasReady m) same r))
      after (ok (waiting v)) r p =
          end (final_round normalize_field_hex json depth id min_version reg last v)
            (final_round-RoundReady last v) p

  -- When the wait returns, then at one of its moments the snapshot was ready and active, with the version
  -- asked for or a later one, and the board gave the path and the leaf that are handed out; their root is
  -- a text that is not blank.
  pub wait_for_identity-WasReady :
      (fast polls : List Moment) (last : Moment) (out : Observed Value)
      → wait_for_identity_ready_after_register normalize_field_hex json depth id min_version reg
          fast polls last
        ≡ ok out
      → Witnessed fast polls last out
  unfolding wait_for_identity_ready_after_register
  wait_for_identity-WasReady fast polls last out h =
      elim (Bool-cases (response_reports_ready reg && not (is_empty (trim_copy reg.root)))) [
        | inl quick ↦
            let start : Waiting = record { last_status = none; last_err = [] } in
            first (fast_loop normalize_field_hex json depth id min_version reg fast start)
              (fast_loop-StepAmong fast start (unnegate _ (and_right _ _ quick))) (rw quick at h)
        | inr slow ↦ slow-Witnessed fast polls last _ out (rw slow at h)
      ]
    where
      and_right : (a b : Bool) → (a && b) ≡ true → b ≡ true
      and_right true b h = h
      and_right false b h = absurd (cc)

      first :
          (s : Step Value)
          → StepAmong fast s
          → slow_part normalize_field_hex json depth id min_version reg s polls last ≡ ok out
          → Witnessed fast polls last out
      first (observed o) (m, (at, r)) p =
          let same : o ≡ out = cc in (m, (inl at, subst (WasReady m) same r))
      first (waiting v) r p = slow-Witnessed fast polls last v out p
