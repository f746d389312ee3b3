-- ===== src/Network/Tasks.antt =====
-- The tasks of the distribution: in whatever order they run, each envelope comes to stand at its node.
use did_vc.Base.{
  ℕ, zero, suc, ◌<◌, ◌==◌, Str, Bool-cases, List, [], ◌∷◌, All, nth, some, ok, Result, ◌≡◌, ◌≢◌,
  ◌⊎◌, inl, inr, refl, sym, subst, arith,
}
use did_vc.Envelope.{ShareEnvelope, share_key}
use did_vc.Json.Interface.{JsonLib}
use did_vc.Committee.Invariant.{verified-version_key}
use did_vc.Network.{
  Nodes, run_tasks, future_of, get_futures, distribute_share_envelopes_to_committees,
}
use did_vc.Network.Deliver.{
  Answers, Deliverable, Stands, nodes_with, committee_set_share_envelope-done, Answers-nodes_with,
  Stands-nodes_with, Stands-nodes_with_other,
}

-- The task is one of those that run.
abbrev pub Runs : ℕ → List ℕ → Type 0
Runs i [] = ⊥
Runs i (j ∷ js) = (i ≡ j) ⊎ Runs i js

-- All results are successes.
abbrev Succeeded : ℕ × Result (Unit {0}) → Type 0
Succeeded (i, r) = r ≡ ok tt

module _ (lib : JsonLib) (error_text : ℕ → Str → Str) (crash_text : Str → Str) where
  future_of-Succeeded :
      (i : ℕ) (rs : List (ℕ × Result (Unit {0})))
      → All Succeeded rs
      → future_of lib error_text crash_text i rs ≡ ok tt
  future_of-Succeeded i [] h = refl
  future_of-Succeeded i ((j, r) ∷ rs) h = elim (Bool-cases (i == j)) [
    | inl same ↦ rw same h.0
    | inr differ ↦ rw differ (future_of-Succeeded i rs h.1)
  ]

  get_futures-Succeeded :
      (left i : ℕ) (rs : List (ℕ × Result (Unit {0})))
      → All Succeeded rs
      → get_futures lib error_text crash_text left i rs ≡ ok tt
  unfolding get_futures
  get_futures-Succeeded zero i rs h = refl
  get_futures-Succeeded (suc left) i rs h =
      rw (future_of-Succeeded i rs h) (get_futures-Succeeded left (suc i) rs h)

-- The work that is shared out: the address and the envelope of each place below `n`.
pub record Work (urls : List Str) (envs : List ShareEnvelope) (n : ℕ) : Type 0 where
  pub url : ℕ → Str
  pub env : ℕ → ShareEnvelope
  pub urls_at : (i : ℕ) → i < n → nth urls i ≡ some (url i)
  pub envs_at : (i : ℕ) → i < n → nth envs i ≡ some (env i)
  pub deliverable : (i : ℕ) → i < n → Deliverable (env i)
  pub apart : (i j : ℕ) → i < n → j < n → i ≢ j → share_key (env i) ≢ share_key (env j)

module _ (lib : JsonLib) (error_text : ℕ → Str → Str) (crash_text : Str → Str) (urls : List Str)
    (envs : List ShareEnvelope) (n : ℕ) (w : Work urls envs n) (token prefix : Str) where
  -- The nodes that the addresses of the work lead to.
  abbrev pub AllAnswer : Nodes → Type 0
  AllAnswer nodes = (i : ℕ) → i < n → Answers nodes token (w.url i)

  -- What some tasks lead to.
  pub record Delivered (order : List ℕ) (nodes : Nodes) : Type 0 where
    pub last : Nodes
    pub results : List (ℕ × Result (Unit {0}))
    pub runs :
        run_tasks lib error_text crash_text order urls token envs prefix nodes ≡ (last, results)
    pub succeeded : All Succeeded results
    pub answers : AllAnswer last
    pub kept : (k : ℕ) → k < n → Stands nodes (w.url k) (w.env k) → Stands last (w.url k) (w.env k)
    pub stands : (k : ℕ) → Runs k order → Stands last (w.url k) (w.env k)

  run_tasks-Delivered :
      (order : List ℕ) (nodes : Nodes)
      → All (λ i. i < n) order
      → AllAnswer nodes
      → Delivered order nodes
  unfolding run_tasks
  run_tasks-Delivered [] nodes h a = record {
    last = nodes;
    results = [];
    runs = refl;
    succeeded = tt;
    answers = a;
    kept = λ k lt s. s;
    stands = λ k at. elim at [ ];
  }
  run_tasks-Delivered (i ∷ order) nodes h a =
      let d = w.deliverable i h.0 in
      let (vkey, hk) = verified-version_key (w.env i) d.verified in
      let at_node = a i h.0 in
      let after = nodes_with (w.env i) vkey at_node.node (w.url i) nodes in
      let sent =
        committee_set_share_envelope-done lib error_text crash_text (w.url i) token (w.env i) nodes
          vkey d hk at_node in
      let rest = run_tasks-Delivered order after h.1 (λ k lt.
        Answers-nodes_with nodes (w.url i) (w.env i) vkey at_node.node token (w.url k)
          at_node.at_url (a k lt)) in
      let here = Stands-nodes_with nodes (w.url i) (w.env i) vkey at_node.node hk in
      let keep : (k : ℕ)
          → k < n
          → Stands nodes (w.url k) (w.env k)
          → Stands after (w.url k) (w.env k) =
        λ k lt s. elim (same_task k i) [
          | inl same ↦ subst (λ j. Stands after (w.url j) (w.env j)) (sym same) here
          | inr differ ↦
              Stands-nodes_with_other nodes (w.url i) (w.env i) vkey at_node.node (w.url k)
                (w.env k) at_node.at_url (w.apart k i lt h.0 differ) s
        ] in
      record {
        last = rest.last;
        results = (i, ok tt) ∷ rest.results;
        runs = rw (w.urls_at i h.0, w.envs_at i h.0, sent, rest.runs) refl;
        succeeded = (refl, rest.succeeded);
        answers = rest.answers;
        kept = λ k lt s. rest.kept k lt (keep k lt s);
        stands = λ k at. elim at [
          | inl same ↦
              subst (λ j. Stands rest.last (w.url j) (w.env j)) (sym same) (rest.kept i h.0 here)
          | inr later ↦ rest.stands k later
        ];
      }
    where
      same_task : (k i : ℕ) → (k ≡ i) ⊎ (k ≢ i)
      same_task k i = elim (Bool-cases (k == i)) [
        | inl same ↦ inl (ground arith)
        | inr differ ↦ inr (λ e. absurd (ground arith))
      ]

  -- What the distribution leads to, whatever the order of its tasks.
  pub record Distributed (order : List ℕ) (nodes : Nodes) : Type 0 where
    pub last : Nodes
    pub returns :
        distribute_share_envelopes_to_committees lib error_text crash_text urls token envs n prefix
          order nodes
        ≡ (last, ok tt)
    pub answers : AllAnswer last
    pub stands : (k : ℕ) → Runs k order → Stands last (w.url k) (w.env k)

  pub distribute-Distributed :
      (order : List ℕ) (nodes : Nodes)
      → All (λ i. i < n) order
      → AllAnswer nodes
      → Distributed order nodes
  unfolding distribute_share_envelopes_to_committees
  distribute-Distributed order nodes h a =
      let d = run_tasks-Delivered order nodes h a in
      record {
        last = d.last;
        returns =
            rw (d.runs, get_futures-Succeeded lib error_text crash_text n 0 d.results d.succeeded)
              refl;
        answers = d.answers;
        stands = d.stands;
      }
