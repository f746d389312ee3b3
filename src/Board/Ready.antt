-- ===== src/Board/Ready.antt =====
-- What `wait_for_identity_ready_after_register` of cpp/http_client.cpp hands out was seen to be ready.
use did_vc.Base.{
  ◌≤◌, leb, arith, ℕ, Str, codes, is_empty, Bool, true, false, not, ◌&&◌, Bool-cases, if◌then◌else◌,
  List, [], ◌∷◌, Result, ok, err, ◌>>◌, require, ◌≡◌, ◌⊎◌, inl, inr, refl, ◌∙◌, ap, bind-ok,
}
use did_vc.Text.{trim_copy}
use did_vc.Merkle.{MerklePath}
use did_vc.Board.Interface.{BoardJson}
use did_vc.Board.{Moment, RootInfo, ReadySnapshotInfo, fetch_root, fetch_path, fetch_leaf_json}
use did_vc.Board.Snapshot.{
  probed, pending, is_ready_snapshot, fetch_ready_snapshot, materialize_ready_snapshot_outputs,
  materialized_leaf, probe_outputs, probe_snapshot, probe_path_ready, labelled,
}

-- The moment is one of the list.
abbrev pub Among : Moment → List Moment → Type 0
Among m [] = ⊥
Among m (n ∷ ns) = (m ≡ n) ⊎ Among m ns

module _ (normalize_field_hex : Str → Result Str) (json : BoardJson) (id : Str)
    (min_version : ℕ) where
  open json use {Value}

  -- At this moment the snapshot was ready, and the board gave the path and the leaf.
  pub record SeenAt (m : Moment) (path : MerklePath) (leaf : Value) : Type 0 where
    pub snap : ReadySnapshotInfo
    pub fetched : fetch_ready_snapshot normalize_field_hex json id min_version m ≡ ok snap
    pub ready : snap.ready ≡ true
    pub root_matches : snap.root_matches ≡ true
    pub leaf_ok : snap.leaf_ok ≡ true
    pub active : snap.active ≡ true
    pub version : min_version ≤ snap.version
    pub path_here : fetch_path normalize_field_hex json id m ≡ ok path
    pub leaf_here : fetch_leaf_json normalize_field_hex json id m ≡ ok leaf

  and_parts : (a b : Bool) → (a && b) ≡ true → (a ≡ true) × (b ≡ true)
  and_parts true b h = (refl, h)
  and_parts false b h = absurd (cc)

  ready_parts :
      (snap : ReadySnapshotInfo)
      → is_ready_snapshot snap min_version ≡ true
      → (snap.ready ≡ true)
        × (snap.root_matches ≡ true)
        × (snap.leaf_ok ≡ true)
        × (snap.active ≡ true)
        × (min_version ≤ snap.version)
  unfolding is_ready_snapshot
  ready_parts snap h =
      let (h1, _) = and_parts _ _ h in
      let (h2, _) = and_parts _ _ h1 in
      let (h3, late) = and_parts _ _ h2 in
      let (h4, active) = and_parts _ _ h3 in
      let (h5, leaf_ok) = and_parts _ _ h4 in
      let (ready, root_matches) = and_parts _ _ h5 in
      (ready, root_matches, leaf_ok, active, at_least _ _ late)
    where
      at_least : (a b : ℕ) → leb a b ≡ true → a ≤ b
      at_least a b p = ground arith

  labelled-ok :
      {A : Type 0} (label : Str) (r : Result A) (a : A) → labelled label r ≡ ok a → r ≡ ok a
  labelled-ok label (ok b) a h = h
  labelled-ok label (err e) a h = absurd (cc)

  require-then :
      {A : Type 0} (c : Bool) (e : Str) (r : Result A) (a : A)
      → (require c e >> r) ≡ ok a
      → r ≡ ok a
  require-then true e r a h = h
  require-then false e r a h = absurd (cc)

  materialized_leaf-same :
      (leaf kept : Value) → materialized_leaf normalize_field_hex json leaf ≡ ok kept → leaf ≡ kept
  materialized_leaf-same leaf kept h =
      let (good, _, h1) = bind-ok (json.nonzero leaf (codes "ok")) _ h in
      let h2 = require-then (json.has_members leaf && good) _ _ kept h1 in
      let (leaf_hex, _, h3) = bind-ok (json.text_value leaf (codes "leaf")) _ h2 in
      let h4 =
        require-then (not (is_empty (trim_copy leaf_hex))) (codes "final_fetch_leaf_missing_leaf")
          (ok leaf) kept h3 in
      cc

  pub probe-SeenAt :
      (m : Moment) (root : RootInfo) (path : MerklePath) (leaf : Value)
      → probe_path_ready normalize_field_hex json id min_version m ≡ probed root path leaf
      → SeenAt m path leaf
  unfolding probe_path_ready materialize_ready_snapshot_outputs
  probe-SeenAt m root path leaf h =
      go (fetch_ready_snapshot normalize_field_hex json id min_version m) refl h
    where
      outputs :
          (r : Result (RootInfo × MerklePath × Value))
          → probe_outputs normalize_field_hex json r ≡ probed root path leaf
          → r ≡ ok (root, path, leaf)
      outputs (err e) p = absurd (cc)
      outputs (ok (a, b, c)) p = cc

      go :
          (s : Result ReadySnapshotInfo)
          → fetch_ready_snapshot normalize_field_hex json id min_version m ≡ s
          → probe_snapshot normalize_field_hex json s id min_version m ≡ probed root path leaf
          → SeenAt m path leaf
      go (err e) at p = absurd (cc)
      go (ok snap) at p = elim (Bool-cases (is_ready_snapshot snap min_version)) [
        | inl good ↦
            let q =
              outputs (materialize_ready_snapshot_outputs normalize_field_hex json id m)
                (rw good at p) in
            let (a, _, h1) =
              bind-ok
                (labelled (codes "final_fetch_root_failed: ") (fetch_root normalize_field_hex m)) _
                q in
            let (b, got_path, h2) =
              bind-ok
                (labelled (codes "final_fetch_path_failed: ")
                  (fetch_path normalize_field_hex json id m))
                _ h1 in
            let (c, got_leaf, h3) =
              bind-ok
                (labelled (codes "final_fetch_leaf_failed: ")
                  (fetch_leaf_json normalize_field_hex json id m))
                _ h2 in
            let (d, got_kept, h4) = bind-ok (materialized_leaf normalize_field_hex json c) _ h3 in
            let same_leaf = materialized_leaf-same c d got_kept in
            let outs : (a, b, d) ≡ (root, path, leaf) = cc in
            record {
              snap = snap;
              fetched = at;
              ready = (ready_parts snap good).0;
              root_matches = (ready_parts snap good).1;
              leaf_ok = (ready_parts snap good).2;
              active = (ready_parts snap good).3;
              version = (ready_parts snap good).4;
              path_here =
                  labelled-ok (codes "final_fetch_path_failed: ")
                    (fetch_path normalize_field_hex json id m) b got_path
                  ∙ ap (λ (t : RootInfo × MerklePath × Value). ok t.1) outs;
              leaf_here =
                  labelled-ok (codes "final_fetch_leaf_failed: ")
                    (fetch_leaf_json normalize_field_hex json id m) c got_leaf
                  ∙ ap ok same_leaf
                  ∙ ap (λ (t : RootInfo × MerklePath × Value). ok t.2) outs;
            }
        | inr bad ↦
            let p2 : pending (if is_empty snap.diag then codes "snapshot_not_ready" else snap.diag)
                ≡ probed root path leaf =
              rw bad at p in
            absurd (cc)
      ]
