-- ===== src/Board/Snapshot.antt =====
-- Snapshots and the status of a registration, of cpp/http_client.cpp, and the probe that reads them.
use did_vc.Base.{
  ℕ, Str, codes, is_empty, Bool, true, false, not, ◌&&◌, ◌||◌, leb, if◌then◌else◌, List, [], ◌∷◌,
  ◌++◌, Option, none, some, Result, ok, err, ◌>>=◌, ◌>>◌, to_decimal, require,
}
use did_vc.Text.{trim_copy}
use did_vc.Merkle.{MerklePath}
use did_vc.Util.{url_encode}
use did_vc.Board.Interface.{BoardJson, Whole, Item, whole, text, other}
use did_vc.Board.{
  Http, replied, failed, Moment, RootInfo, RegisterStatusInfo, ReadySnapshotInfo, zero_whole,
  to_word, stoi, fetch_root, fetch_path, fetch_leaf_json,
}

-- What a probe comes to: the root, the path and the leaf, or the text in `*outErr`.
pub data Probe (Value : Type 0) : Type 0 where
  probed : RootInfo → MerklePath → Value → Probe Value
  pending : Str → Probe Value

-- What `fetch_register_status` comes to.
pub data StatusAnswer : Type 0 where
  status_is : RegisterStatusInfo → StatusAnswer
  no_status : Str → StatusAnswer

abbrev pub no_elements : {A : Type 0} → List A → Bool
no_elements [] = true
no_elements (x ∷ xs) = false

-- The conditions of the probe on a snapshot.
unfoldable pub is_ready_snapshot : ReadySnapshotInfo → ℕ → Bool
is_ready_snapshot snap min_version =
    snap.ready
    && snap.root_matches
    && snap.leaf_ok
    && snap.active
    && leb min_version snap.version
    && not (no_elements snap.path_elements)
    && not (no_elements snap.path_index)

abbrev pub or_zero : Option ℕ → ℕ
or_zero none = 0
or_zero (some v) = v

abbrev pub or_zero_whole : Option Whole → Whole
or_zero_whole none = zero_whole
or_zero_whole (some z) = z

abbrev pub or_no_texts : Option (List Str) → List Str
or_no_texts none = []
or_no_texts (some ts) = ts

-- Elements of other kinds are skipped here.
abbrev pub snapshot_indices : List Item → Result (List ℕ)
snapshot_indices [] = ok []
snapshot_indices (whole z ∷ xs) = do is ← snapshot_indices xs; ok (to_word 8 z ∷ is)
snapshot_indices (text s ∷ xs) = do z ← stoi s; is ← snapshot_indices xs; ok (to_word 8 z ∷ is)
snapshot_indices (other ∷ xs) = snapshot_indices xs

abbrev pub or_no_items : Option (List Item) → List Item
or_no_items none = []
or_no_items (some xs) = xs

abbrev pub or_second : Bool → Result Bool → Result Bool
or_second true second = ok true
or_second false second = second

abbrev pub has_solid_text : Option Str → Bool
has_solid_text none = false
has_solid_text (some s) = not (is_empty (trim_copy s))

abbrev pub labelled : {A : Type 0} → Str → Result A → Result A
labelled label (ok a) = ok a
labelled label (err e) = err (label ++ e)

module _ (normalize_field_hex : Str → Result Str) (json : BoardJson) where
  open json use {
    Value, parse, has_members, nonzero, text_value, number_value, whole_of, string_of, strings_of,
    items_of,
  }

  abbrev pub read_snapshot : Value → Result ReadySnapshotInfo
  read_snapshot j = do
    is_ok ← nonzero j (codes "ok")
    ready ← nonzero j (codes "ready")
    stale_first ← nonzero j (codes "cacheStale")
    stale ← or_second stale_first (nonzero j (codes "cache_stale"))
    leaf_flag ← nonzero j (codes "leafOk")
    active ← nonzero j (codes "active")
    root_matches ← nonzero j (codes "rootMatches")
    observed ← nonzero j (codes "recordObserved")
    record_active ← nonzero j (codes "recordActive")
    id ← text_value j (codes "id")
    id_hash ← text_value j (codes "idHash")
    root ← text_value j (codes "root")
    path_root ← text_value j (codes "pathRoot")
    leaf ← text_value j (codes "leaf")
    cid ← text_value j (codes "cid")
    pk_norm ← text_value j (codes "pkNormHash")
    pk_rec ← text_value j (codes "pkRecHash")
    diag ← text_value j (codes "diag")
    min_version ← number_value j (codes "minVersion")
    version ← number_value j (codes "version")
    epoch ← number_value j (codes "epoch")
    record_version ← number_value j (codes "recordVersion")
    depth ← whole_of j (codes "depth")
    elements ← strings_of j (codes "pathElements")
    index ← snapshot_indices (or_no_items (items_of j (codes "pathIndex")))
    ok (record {
      is_ok = is_ok;
      ready = ready;
      cache_stale = stale;
      leaf_ok = leaf_flag || has_solid_text (string_of j (codes "leaf"));
      active = active;
      root_matches = root_matches;
      record_observed = observed;
      record_active = record_active;
      id = id;
      id_hash = id_hash;
      root = root;
      path_root = path_root;
      leaf = leaf;
      cid = cid;
      pk_norm_hash = pk_norm;
      pk_rec_hash = pk_rec;
      diag = diag;
      min_version = or_zero min_version;
      version = or_zero version;
      epoch = or_zero epoch;
      record_version = or_zero record_version;
      depth = or_zero_whole depth;
      path_elements = or_no_texts elements;
      path_index = index;
    })

  unfoldable pub parse_ready_snapshot_json : Str → Result ReadySnapshotInfo
  parse_ready_snapshot_json body =
      labelled (codes "parse_ready_snapshot_json_failed: ") (parse body >>= read_snapshot)

  abbrev pub snapshot_of_body : Result ReadySnapshotInfo → Str → Result ReadySnapshotInfo
  snapshot_of_body (err e) body = err (e ++ (codes ": " ++ body))
  snapshot_of_body (ok snap) body =
      if not snap.is_ok then err (codes "ready_snapshot_fail: " ++ body) else ok snap

  abbrev pub snapshot_of_reply : Http → Result ReadySnapshotInfo
  snapshot_of_reply (failed body) = err (codes "http_get_/readySnapshot_failed: " ++ body)
  snapshot_of_reply (replied body) = snapshot_of_body (parse_ready_snapshot_json body) body

  unfoldable pub fetch_ready_snapshot : Str → ℕ → Moment → Result ReadySnapshotInfo
  fetch_ready_snapshot id min_version m = snapshot_of_reply (
      m (
        codes "/readySnapshot?id="
        ++ (url_encode id ++ (codes "&minVersion=" ++ to_decimal min_version))))

  abbrev pub read_status : Value → Result RegisterStatusInfo
  read_status j = do
    is_ok ← nonzero j (codes "ok")
    accepted ← nonzero j (codes "accepted")
    ready ← nonzero j (codes "ready")
    stale ← nonzero j (codes "cache_stale")
    op_id ← text_value j (codes "opId")
    request_key ← text_value j (codes "requestKey")
    kind ← text_value j (codes "kind")
    id ← text_value j (codes "id")
    status ← text_value j (codes "status")
    tx_hash ← text_value j (codes "txHash")
    root ← text_value j (codes "root")
    last_error ← text_value j (codes "lastError")
    epoch ← number_value j (codes "epoch")
    version ← number_value j (codes "version")
    ok (record {
      is_ok = is_ok;
      accepted = accepted;
      ready = ready;
      cache_stale = stale;
      op_id = op_id;
      request_key = request_key;
      kind = kind;
      id = id;
      status = status;
      tx_hash = tx_hash;
      root = root;
      last_error = last_error;
      epoch = or_zero epoch;
      version = or_zero version;
    })

  unfoldable pub parse_register_status_json : Str → Result RegisterStatusInfo
  parse_register_status_json body =
      labelled (codes "parse_register_status_json_failed: ") (parse body >>= read_status)

  abbrev pub status_of_body : Result RegisterStatusInfo → Str → StatusAnswer
  status_of_body (err e) body = no_status e
  status_of_body (ok st) body =
      if not st.is_ok then no_status (codes "registerStatus_fail: " ++ body) else status_is st

  abbrev pub status_of_reply : Http → StatusAnswer
  status_of_reply (failed body) = no_status (codes "http_get_/registerStatus_failed: " ++ body)
  status_of_reply (replied body) = status_of_body (parse_register_status_json body) body

  unfoldable pub fetch_register_status : Str → Str → Moment → StatusAnswer
  fetch_register_status op_id request_key m =
      if not (is_empty (trim_copy op_id))
      then status_of_reply (m (codes "/registerStatus?opId=" ++ url_encode op_id))
      else if not (is_empty (trim_copy request_key))
      then status_of_reply (m (codes "/registerStatus?requestKey=" ++ url_encode request_key))
      else no_status (codes "missing_register_status_locator")

  -- The failures of `materialize_ready_snapshot_outputs` are the text in `*outErr`; an exception of the
  -- leaf's readers ends the probe in the same way.
  abbrev pub materialized_leaf : Value → Result Value
  materialized_leaf leaf = do
    good ← nonzero leaf (codes "ok")
    require (has_members leaf && good) (codes "final_fetch_leaf_invalid_payload")
    leaf_hex ← text_value leaf (codes "leaf")
    require (not (is_empty (trim_copy leaf_hex))) (codes "final_fetch_leaf_missing_leaf")
    ok leaf

  unfoldable pub materialize_ready_snapshot_outputs :
      Str → Moment → Result (RootInfo × MerklePath × Value)
  materialize_ready_snapshot_outputs id m = do
    root ← labelled (codes "final_fetch_root_failed: ") (fetch_root normalize_field_hex m)
    path ← labelled (codes "final_fetch_path_failed: ") (fetch_path normalize_field_hex json id m)
    leaf ←
        labelled (codes "final_fetch_leaf_failed: ") (fetch_leaf_json normalize_field_hex json id m)
    kept ← materialized_leaf leaf
    ok (root, path, kept)

  abbrev pub probe_outputs : Result (RootInfo × MerklePath × Value) → Probe Value
  probe_outputs (err e) = pending e
  probe_outputs (ok (root, path, leaf)) = probed root path leaf

  abbrev pub probe_snapshot : Result ReadySnapshotInfo → Str → ℕ → Moment → Probe Value
  probe_snapshot (err e) id min_version m = pending e
  probe_snapshot (ok snap) id min_version m =
      if is_ready_snapshot snap min_version
      then probe_outputs (materialize_ready_snapshot_outputs id m)
      else pending (if is_empty snap.diag then codes "snapshot_not_ready" else snap.diag)

  unfoldable pub probe_path_ready : Str → ℕ → Moment → Probe Value
  probe_path_ready id min_version m =
      probe_snapshot (fetch_ready_snapshot id min_version m) id min_version m
