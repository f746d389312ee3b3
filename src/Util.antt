-- ===== src/Util.antt =====
-- Small routines on texts: cpp/url_utils.cpp, cpp/csv_utils.cpp, cpp/text_utils.cpp,
-- cpp/normalize_utils.cpp, cpp/zk_public_signals.cpp and cpp/identity_state.cpp.
pub mod Escape
pub mod Fuel
mod Tests
use did_vc.Base.{
  ℕ, zero, suc, ◌+◌, ◌-◌, ◌*◌, ◌/◌, ◌%◌, ◌^◌, Str, codes, str_eq, is_empty, Bool, true, false, not,
  ◌&&◌, ◌||◌, ltb, leb, ◌==◌, if◌then◌else◌, List, [], ◌∷◌, ◌++◌, any, Option, none, some, Result,
  ok, err, ◌>>=◌, to_decimal, length,
}
use mathlib.Core.Option.{map as map_option}
use did_vc.Text.{trim_copy}
use did_vc.Hex.{normalize_digest_hex32}
use did_vc.Merkle.{IdentityState, poseidon_cid}

-- A character that `url_encode` keeps.
unfoldable pub is_unreserved : ℕ → Bool
is_unreserved c =
    (leb b'a' c && leb c b'z')
    || (leb b'A' c && leb c b'Z')
    || (leb b'0' c && leb c b'9')
    || c == b'-'
    || c == b'_'
    || c == b'.'
    || c == b'~'

-- `hexd[d]`.
abbrev pub upper_digit : ℕ → ℕ
upper_digit d = if ltb d 10 then b'0' + d else b'A' + (d - 10)

unfoldable pub url_encode : Str → Str
url_encode [] = []
url_encode (c ∷ cs) =
    if is_unreserved c
    then c ∷ url_encode cs
    else b'%' ∷ upper_digit (c / 16) ∷ upper_digit (c % 16) ∷ url_encode cs

-- `,`, `"`, line feed and carriage return.
abbrev pub is_csv_special : ℕ → Bool
is_csv_special c = c == b',' || c == 34 || c == 10 || c == 13

-- The loop over the characters, and the closing quote.
unfoldable pub quoted : Str → Str
quoted [] = 34 ∷ []
quoted (c ∷ cs) = if c == 34 then 34 ∷ 34 ∷ quoted cs else c ∷ quoted cs

unfoldable pub csv_escape : Str → Str
csv_escape s = if any is_csv_special s then 34 ∷ quoted s else s

-- `s` before the first `stop`, and what is behind it.
unfoldable pub cut : ℕ → Str → Str × Option Str
cut stop [] = ([], none)
cut stop (c ∷ cs) =
    let (before, behind) = cut stop cs in if c == stop then ([], some cs) else (c ∷ before, behind)

-- One assignment of the map, when there is a `=`.
abbrev pub key_value : Str × Option Str → List (Str × Str)
key_value (key, none) = []
key_value (key, some value) = (trim_copy key, trim_copy value) ∷ []

abbrev pub next_text : Option Str → Str
next_text none = []
next_text (some s) = s

-- What a loop found, nothing when its rounds ran out.
abbrev pub found_or_none : {A : Type 0} → Option (List A) → List A
found_or_none none = []
found_or_none (some xs) = xs

-- The loop, on the characters left; `none` when the rounds run out on a text that is left.
unfoldable pub semicolon_loop : ℕ → Str → Option (List (Str × Str))
semicolon_loop fuel [] = some []
semicolon_loop zero (c ∷ cs) = none
semicolon_loop (suc fuel) (c ∷ cs) =
    let (kv, behind) = cut b';' (c ∷ cs) in
    map_option (λ kvs. key_value (cut b'=' kv) ++ kvs) (semicolon_loop fuel (next_text behind))

-- The assignments to the map, in their order.
unfoldable pub parse_semicolon_kv : Str → List (Str × Str)
parse_semicolon_kv s = found_or_none (semicolon_loop (length s) s)

-- An item that is kept.
abbrev pub csv_item : Str → List Str → List Str
csv_item item rest = if is_empty item then rest else item ∷ rest

-- The loop over the items; each round ends behind a comma or at the end, and `none` stands for
-- rounds that run out before it.
unfoldable pub csv_loop : ℕ → Option Str → Option (List Str)
csv_loop fuel none = some []
csv_loop zero (some s) = none
csv_loop (suc fuel) (some s) =
    let (item, behind) = cut b',' s in map_option (csv_item (trim_copy item)) (csv_loop fuel behind)

unfoldable pub split_csv_nonempty : Str → List Str
split_csv_nonempty s = found_or_none (csv_loop (suc (length s)) (some s))

-- `true` and what `out` gets, or `false` and what `err` gets.
pub data Attempt : Type 0 where
  gained : Str → Attempt
  missed : Str → Attempt

abbrev attempt_digest : Str → Result Str → Attempt
attempt_digest label (ok d) = gained d
attempt_digest label (err e) = missed (label ++ (codes "_invalid: " ++ e))

-- With an empty text `diag` is not written.
unfoldable pub try_normalize_digest_hex32 : Str → Str → Attempt
try_normalize_digest_hex32 raw label =
    if is_empty (trim_copy raw)
    then missed []
    else attempt_digest label (normalize_digest_hex32 (trim_copy raw))

module _ (normalize_field_hex : Str → Result Str) where
  unfoldable pub require_normalized_field_hex : Str → Str → Result Str
  require_normalized_field_hex value field_name =
      if is_empty (trim_copy value)
      then err (codes "missing_field: " ++ field_name)
      else normalize_field_hex (trim_copy value)

  abbrev attempt_field : Str → Str → Result Str → Attempt
  attempt_field t context (ok d) = gained d
  attempt_field t context (err e) = missed (
      context
      ++ (codes ":invalid_hex_string len="
          ++ (to_decimal (length t) ++ (codes " raw='" ++ (t ++ (codes "' err=" ++ e))))))

  unfoldable pub try_normalize_field_hex : Str → Str → Attempt
  try_normalize_field_hex raw context =
      if is_empty (trim_copy raw)
      then missed (context ++ codes ":empty_field_value")
      else attempt_field (trim_copy raw) context (normalize_field_hex (trim_copy raw))

  module _ (poseidon_hash_native : List Str → Result Str)
      (hash_pubkey_to_field_hex : Str → Result Str) where
    -- The random texts and the keys are the caller's.
    unfoldable pub gen_identity_state : Str → Str → Str → Str → Str → Result IdentityState
    gen_identity_state id sid rho normal_pk recovery_pk = do
      cid ← poseidon_cid normalize_field_hex poseidon_hash_native sid rho
      pk_norm ← hash_pubkey_to_field_hex normal_pk
      pk_rec ← hash_pubkey_to_field_hex recovery_pk
      ok (record {
        id = id;
        sid = sid;
        rho = rho;
        cid = cid;
        pk_norm_hash = pk_norm;
        pk_rec_hash = pk_rec;
        ver = 0;
        active = true;
      })

    unfoldable pub rotate_identity_state :
        IdentityState → Str → Str → Str → Str → Result IdentityState
    rotate_identity_state old sid rho normal_pk recovery_pk = do
      cid ← poseidon_cid normalize_field_hex poseidon_hash_native sid rho
      pk_norm ← hash_pubkey_to_field_hex normal_pk
      pk_rec ← hash_pubkey_to_field_hex recovery_pk
      ok (record {
        id = old.id;
        sid = sid;
        rho = rho;
        cid = cid;
        pk_norm_hash = pk_norm;
        pk_rec_hash = pk_rec;
        ver = (old.ver + 1) % 2 ^ 64;
        active = true;
      })

pub record PublicSignalView : Type 0 where
  pub raw : List Str
  pub root : Str
  pub ctx_hash : Str
  pub sess_pk_hash : Str
  pub epoch : Str
  pub nullifier : Str

unfoldable pub parse_public_signals : List Str → Result PublicSignalView
parse_public_signals (root ∷ ctx_hash ∷ sess_pk_hash ∷ epoch ∷ nullifier ∷ rest) = ok (record {
  raw = root ∷ ctx_hash ∷ sess_pk_hash ∷ epoch ∷ nullifier ∷ rest;
  root = root;
  ctx_hash = ctx_hash;
  sess_pk_hash = sess_pk_hash;
  epoch = epoch;
  nullifier = nullifier;
})
parse_public_signals _ = err (codes "public_signal_count_too_small")
