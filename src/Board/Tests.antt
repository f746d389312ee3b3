-- ===== src/Board/Tests.antt =====
-- A board that has one identity, and the wait for it.
use did_vc.Base.{
  Str, codes, str_eq, true, false, if◌then◌else◌, [], ◌∷◌, none, some, Result, ok, ◌≡◌, refl,
  decimal_digits, to_decimal,
}
use did_vc.Text.{trim_copy, trim_front, trim_back, is_space}
use did_vc.Json.{stoull, leading_digits, signed_digits, unsigned_digits}
use did_vc.Util.{url_encode, parse_semicolon_kv, semicolon_loop, cut, try_normalize_field_hex}
use did_vc.Merkle.{MerklePath}
use did_vc.Board.Interface.{BoardJson, whole}
use did_vc.Board.{
  replied, failed, Moment, zero_whole, RootInfo, RegisterStatusInfo, stoi,
  canonicalize_field_or_throw, fetch_root, fetch_path, fetch_leaf_json, status_reports_ready,
  status_reports_failed,
}
use did_vc.Board.Snapshot.{
  is_ready_snapshot, parse_ready_snapshot_json, fetch_ready_snapshot, parse_register_status_json,
  fetch_register_status, materialize_ready_snapshot_outputs, probe_path_ready,
}
use did_vc.Board.Wait.{
  RegisterResponse, Observed, response_reports_ready, poll_round, poll_loop, final_round, fast_loop,
  wait_for_identity_ready_after_register,
}
use did_vc.Board.Sound.{Witnessed, wait_for_identity-WasReady}
use did_vc.Board.Live.{Serves, wait_for_identity-Serves}

-- Every member of a value is there, set to the value's text.
abbrev plain_json : BoardJson
plain_json = record {
  Value = Str;
  parse = λ s. ok s;
  has_members = λ v. true;
  nonzero = λ v key. ok (if str_eq key (codes "cache_stale") then false else true);
  text_value = λ v key. ok (if str_eq key (codes "status") then codes "READY" else v);
  number_value = λ v key. ok (some 3);
  whole_of = λ v key. ok none;
  string_of = λ v key. none;
  strings_of = λ v key. ok (some (v ∷ []));
  items_of = λ v key. some (whole zero_whole ∷ []);
  at_string = λ v key. ok v;
  at_number = λ v key. ok 3;
  at_whole = λ v key. ok zero_whole;
  at_strings = λ v key. ok (v ∷ []);
  at_items = λ v key. ok (whole zero_whole ∷ []);
  set_string = λ v key d. v;
}

abbrev as_it_is : Str → Result Str
as_it_is s = ok s

-- The board has published the identity; before that it answers nothing.
abbrev published : Moment
published path =
    if str_eq path (codes "/root")
    then replied (codes "ok=1;root=7;epoch=3;depth=4")
    else replied (codes "7")

abbrev silent : Moment
silent path = failed (codes "transport_error_or_timeout")

abbrev accepted : RegisterResponse
accepted = record {
  is_ok = true;
  accepted = true;
  ready = false;
  op_id = codes "a";
  request_key = [];
  tx_hash = [];
  status = codes "ACCEPTED";
  root = [];
  epoch = 0;
  version = 0;
}

abbrev root_7 : RootInfo
root_7 = record { root = codes "7"; epoch = 3; depth = record { negative = false; magnitude = 4 } }

abbrev path_7 : MerklePath
path_7 = record {
  path_elements = codes "7" ∷ [];
  path_index = 0 ∷ [];
  root = codes "7";
  depth = 0;
  epoch = 3;
}

abbrev status_7 : RegisterStatusInfo
status_7 = record {
  is_ok = true;
  accepted = true;
  ready = true;
  cache_stale = false;
  op_id = codes "7";
  request_key = codes "7";
  kind = codes "7";
  id = codes "7";
  status = codes "READY";
  tx_hash = codes "7";
  root = codes "7";
  last_error = codes "7";
  epoch = 3;
  version = 3;
}

wait_for_identity-WasReady_example :
    Witnessed as_it_is plain_json zero_whole
      (codes "x")
      2
      accepted
      []
      (silent ∷ published ∷ [])
      silent
      (record { root = root_7; path = path_7; leaf = codes "7" })
unfolding wait_for_identity_ready_after_register poll_loop poll_round final_round fast_loop
    response_reports_ready fetch_register_status parse_register_status_json probe_path_ready
    fetch_ready_snapshot parse_ready_snapshot_json is_ready_snapshot
    materialize_ready_snapshot_outputs fetch_root fetch_path fetch_leaf_json
    canonicalize_field_or_throw try_normalize_field_hex parse_semicolon_kv semicolon_loop cut
    url_encode status_reports_ready status_reports_failed stoi stoull signed_digits unsigned_digits
    leading_digits trim_copy trim_front trim_back is_space str_eq decimal_digits to_decimal
wait_for_identity-WasReady_example =
    wait_for_identity-WasReady as_it_is plain_json zero_whole (codes "x") 2 accepted []
      (silent ∷ published ∷ []) silent (record { root = root_7; path = path_7; leaf = codes "7" })
      refl

serves : Serves as_it_is plain_json zero_whole (codes "x") 2 accepted published
unfolding wait_for_identity_ready_after_register poll_loop poll_round final_round fast_loop
    response_reports_ready fetch_register_status parse_register_status_json probe_path_ready
    fetch_ready_snapshot parse_ready_snapshot_json is_ready_snapshot
    materialize_ready_snapshot_outputs fetch_root fetch_path fetch_leaf_json
    canonicalize_field_or_throw try_normalize_field_hex parse_semicolon_kv semicolon_loop cut
    url_encode status_reports_ready status_reports_failed stoi stoull signed_digits unsigned_digits
    leading_digits trim_copy trim_front trim_back is_space str_eq decimal_digits to_decimal
serves = record {
  st = status_7;
  status_here = refl;
  fine = refl;
  ready = refl;
  fresh = refl;
  root = root_7;
  path = path_7;
  leaf = codes "7";
  probe_here = refl;
  solid = refl;
}

wait_for_identity-Serves_example :
    (out : Observed Str) × (wait_for_identity_ready_after_register as_it_is plain_json zero_whole
        (codes "x")
        2
        accepted
        []
        (silent ∷ published ∷ [])
        silent
      ≡ ok out)
unfolding wait_for_identity_ready_after_register poll_loop poll_round final_round fast_loop
    response_reports_ready fetch_register_status parse_register_status_json probe_path_ready
    fetch_ready_snapshot parse_ready_snapshot_json is_ready_snapshot
    materialize_ready_snapshot_outputs fetch_root fetch_path fetch_leaf_json
    canonicalize_field_or_throw try_normalize_field_hex parse_semicolon_kv semicolon_loop cut
    url_encode status_reports_ready status_reports_failed stoi stoull signed_digits unsigned_digits
    leading_digits trim_copy trim_front trim_back is_space str_eq decimal_digits to_decimal
wait_for_identity-Serves_example =
    wait_for_identity-Serves as_it_is plain_json zero_whole (codes "x") 2 accepted [] (silent ∷ [])
      published [] silent ((λ st e. absurd (cc)), tt) serves
