-- ===== src/Board.antt =====
-- The bulletin board's client, cpp/http_client.cpp: roots, paths, leaves, snapshots and the status of a
-- registration. A `Moment` is what the board answers to each request while one round of a loop runs;
-- HTTP and JSON are third-party code.
pub mod Interface
pub mod Snapshot
pub mod Wait
pub mod Ready
pub mod Sound
pub mod Live
mod Tests
use did_vc.Base.{
  ℕ, zero, suc, ◌+◌, ◌-◌, ◌*◌, ◌%◌, ◌^◌, Str, codes, str_eq, is_empty, Bool, true, false, not, ◌&&◌,
  ◌||◌, ltb, leb, ◌==◌, if◌then◌else◌, List, [], ◌∷◌, ◌++◌, length, Option, none, some, Result, ok,
  err, ◌>>=◌, ◌>>◌, take, drop, to_decimal, require,
}
use did_vc.Text.{trim_copy, trim_front, starts_with}
use did_vc.Json.{stoull, leading_digits, is_digit_code}
use did_vc.Merkle.{MerklePath}
use did_vc.Util.{url_encode, parse_semicolon_kv, try_normalize_field_hex, Attempt, gained, missed}
use did_vc.Board.Interface.{BoardJson, Whole, Item, whole, text, other}

-- What `http_get_text` gives: the body of a reply of status 200, or the text of the failure.
pub data Http : Type 0 where
  replied : Str → Http
  failed : Str → Http

abbrev pub Moment : Type 0
Moment = Str → Http

pub record RootInfo : Type 0 where
  pub root : Str
  pub epoch : ℕ
  pub depth : Whole

pub record RegisterStatusInfo : Type 0 where
  pub is_ok : Bool
  pub accepted : Bool
  pub ready : Bool
  pub cache_stale : Bool
  pub op_id : Str
  pub request_key : Str
  pub kind : Str
  pub id : Str
  pub status : Str
  pub tx_hash : Str
  pub root : Str
  pub last_error : Str
  pub epoch : ℕ
  pub version : ℕ

pub record ReadySnapshotInfo : Type 0 where
  pub is_ok : Bool
  pub ready : Bool
  pub cache_stale : Bool
  pub leaf_ok : Bool
  pub active : Bool
  pub root_matches : Bool
  pub record_observed : Bool
  pub record_active : Bool
  pub id : Str
  pub id_hash : Str
  pub root : Str
  pub path_root : Str
  pub leaf : Str
  pub cid : Str
  pub pk_norm_hash : Str
  pub pk_rec_hash : Str
  pub diag : Str
  pub min_version : ℕ
  pub version : ℕ
  pub epoch : ℕ
  pub record_version : ℕ
  pub depth : Whole
  pub path_elements : List Str
  pub path_index : List ℕ

abbrev pub zero_whole : Whole
zero_whole = record { negative = false; magnitude = 0 }

-- `static_cast<std::uint8_t>` and `static_cast<std::uint32_t>` of an `int`.
abbrev pub to_word : ℕ → Whole → ℕ
to_word w z = if z.negative then (2 ^ w - z.magnitude % 2 ^ w) % 2 ^ w else z.magnitude % 2 ^ w

-- `std::stoi`; the text of its exceptions is the library's.
abbrev pub int_digits : Bool → Str → Result Whole
int_digits negative [] = err (codes "stoi")
int_digits negative (c ∷ cs) =
    let v = leading_digits (c ∷ cs) 0 in
    if not (is_digit_code c) || ltb (if negative then 0x80000000 else 0x7FFFFFFF) v
    then err (codes "stoi")
    else ok (record { negative = negative; magnitude = v })

abbrev pub signed_int : Str → Result Whole
signed_int [] = err (codes "stoi")
signed_int (c ∷ cs) =
    if c == b'-'
    then int_digits true cs
    else if c == b'+'
    then int_digits false cs
    else int_digits false (c ∷ cs)

unfoldable pub stoi : Str → Result Whole
stoi s = signed_int (trim_front s)

abbrev pub or_stoull : Option ℕ → Result ℕ
or_stoull none = err (codes "stoull")
or_stoull (some v) = ok v

-- The last assignment to the key stands.
abbrev pub or_before : Option Str → Option Str → Option Str
or_before none before = before
or_before (some v) before = some v

abbrev pub kv_find : Str → List (Str × Str) → Option Str
kv_find key [] = none
kv_find key ((k, v) ∷ rest) = or_before (kv_find key rest) (if str_eq k key then some v else none)

-- `kv.at(key)`; the text of `std::out_of_range` is the library's.
abbrev pub kv_at : Option Str → Result Str
kv_at none = err (codes "out_of_range")
kv_at (some v) = ok v

abbrev pub is_one : Option Str → Bool
is_one none = false
is_one (some v) = str_eq v (codes "1")

unfoldable pub status_reports_ready : RegisterStatusInfo → Bool
status_reports_ready st = st.ready || str_eq st.status (codes "READY")

unfoldable pub status_reports_failed : RegisterStatusInfo → Bool
status_reports_failed st = str_eq st.status (codes "FAILED")

unfoldable pub status_error_text : RegisterStatusInfo → Str
status_error_text st = if is_empty st.last_error then st.status else st.last_error

unfoldable pub short_hex : Str → Str
short_hex s =
    let t = trim_copy s in
    if leb (length t) 18 then t else take 10 t ++ (codes "..." ++ drop (length t - 6) t)

abbrev pub without_0x : Str → Str
without_0x t = if starts_with t (codes "0x") || starts_with t (codes "0X") then drop 2 t else t

unfoldable pub redact_hex_secret : Str → Str
redact_hex_secret s =
    let t = trim_copy s in
    let u = without_0x t in
    if is_empty t
    then t
    else if leb (length u) 16
    then codes "0x" ++ u
    else codes "0x" ++ (take 8 u ++ (codes "..." ++ drop (length u - 8) u))

module _ (normalize_field_hex : Str → Result Str) where
  -- `err` holds the text that the function throws.
  abbrev pub gained_or_throw : Attempt → Result Str
  gained_or_throw (gained d) = ok d
  gained_or_throw (missed e) = err e

  unfoldable pub canonicalize_field_or_throw : Str → Str → Str → Result Str
  canonicalize_field_or_throw raw place field =
      gained_or_throw (try_normalize_field_hex normalize_field_hex raw (place ++ b':' ∷ field))

  abbrev pub root_of_kv : List (Str × Str) → Str → Result RootInfo
  root_of_kv kv body = do
    require (is_one (kv_find (codes "ok") kv)) (codes "root_fail: " ++ body)
    root_text ← kv_at (kv_find (codes "root") kv)
    root ← canonicalize_field_or_throw root_text (codes "fetch_root") (codes "root")
    epoch_text ← kv_at (kv_find (codes "epoch") kv)
    epoch ← or_stoull (stoull epoch_text)
    depth_text ← kv_at (kv_find (codes "depth") kv)
    depth ← stoi depth_text
    ok (record { root = root; epoch = epoch; depth = depth })

  abbrev pub root_of_reply : Http → Result RootInfo
  root_of_reply (failed body) = err (codes "http_get_/root_failed: " ++ body)
  root_of_reply (replied body) = root_of_kv (parse_semicolon_kv body) body

  unfoldable pub fetch_root : Moment → Result RootInfo
  fetch_root m = root_of_reply (m (codes "/root"))

  module _ (json : BoardJson) where
    open json use {
      Value, parse, has_members, nonzero, text_value, number_value, whole_of, string_of, strings_of,
      items_of, at_string, at_number, at_whole, at_strings, at_items, set_string,
    }

    -- The elements of the path, from the index `i` on.
    abbrev pub canonical_elements : ℕ → List Str → Result (List Str)
    canonical_elements i [] = ok []
    canonical_elements i (e ∷ es) = do
      d ←
          canonicalize_field_or_throw e (codes "fetch_path")
            (codes "pathElements[" ++ (to_decimal i ++ codes "]"))
      ds ← canonical_elements (suc i) es
      ok (d ∷ ds)

    abbrev pub index_of_item : Item → Result ℕ
    index_of_item (whole z) = ok (to_word 8 z)
    index_of_item (text s) = do z ← stoi s; ok (to_word 8 z)
    index_of_item other = err (codes "bad_pathIndex_type")

    abbrev pub indices : List Item → Result (List ℕ)
    indices [] = ok []
    indices (x ∷ xs) = do i ← index_of_item x; is ← indices xs; ok (i ∷ is)

    abbrev pub path_of_reply : Http → Result MerklePath
    path_of_reply (failed body) = err (codes "http_get_/path_failed: " ++ body)
    path_of_reply (replied body) = do
      j ← parse body
      good ← nonzero j (codes "ok")
      require good (codes "path_fail: " ++ body)
      root_text ← at_string j (codes "root")
      root ← canonicalize_field_or_throw root_text (codes "fetch_path") (codes "root")
      epoch ← at_number j (codes "epoch")
      depth ← at_whole j (codes "depth")
      raw ← at_strings j (codes "pathElements")
      elements ← canonical_elements 0 raw
      items ← at_items j (codes "pathIndex")
      index ← indices items
      ok (record {
        path_elements = elements;
        path_index = index;
        root = root;
        depth = to_word 32 depth;
        epoch = epoch;
      })

    unfoldable pub fetch_path : Str → Moment → Result MerklePath
    fetch_path id m = path_of_reply (m (codes "/path?id=" ++ url_encode id))

    -- `if (j.contains(key) && j.at(key).is_string()) j[key] = ...`.
    abbrev pub canonical_text : Option Str → Str → Value → Result Value
    canonical_text none key j = ok j
    canonical_text (some s) key j = do
      d ← canonicalize_field_or_throw s (codes "fetch_leaf_json") key
      ok (set_string j key d)

    abbrev pub canonical_member : Str → Value → Result Value
    canonical_member key j = canonical_text (string_of j key) key j

    abbrev pub leaf_of_reply : Http → Result Value
    leaf_of_reply (failed body) = err (codes "http_get_/leaf_failed: " ++ body)
    leaf_of_reply (replied body) = do
      j ← parse body
      good ← nonzero j (codes "ok")
      require good (codes "leaf_fail: " ++ body)
      j1 ← canonical_member (codes "leaf") j
      j2 ← canonical_member (codes "cid") j1
      j3 ← canonical_member (codes "pkNormHash") j2
      j4 ← canonical_member (codes "pkRecHash") j3
      canonical_member (codes "root") j4

    unfoldable pub fetch_leaf_json : Str → Moment → Result Value
    fetch_leaf_json id m = leaf_of_reply (m (codes "/leaf?id=" ++ url_encode id))
