-- ===== src/Merkle.antt =====
-- Merkle paths and identity bundles of cpp/merkle_poseidon.cpp. The field normalisation stands on GMP
-- and the Poseidon constants are read from a file, so both are parameters, `normalize_field_hex` and
-- `poseidon_hash_native`, as is the conversion of a hex text to its 32 bytes; the timers of
-- `g_stats` are left out.
pub mod Poseidon
pub mod Rounds
pub mod Permutation
pub mod Path
mod Bundle
mod Tests
use did_vc.Base.{
  ℕ, zero, suc, ◌+◌, Str, codes, str_eq, is_empty, Bool, true, false, not, ◌&&◌, ◌||◌, ◌==◌,
  if◌then◌else◌, List, [], ◌∷◌, ◌++◌, length, Option, none, some, Result, ok, err, ◌>>=◌, ◌>>◌,
  require, to_decimal,
}
use did_vc.Text.{trim_copy}

pub record IdentityState : Type 0 where
  pub id : Str
  pub sid : Str
  pub rho : Str
  pub cid : Str
  pub pk_norm_hash : Str
  pub pk_rec_hash : Str
  pub ver : ℕ
  pub active : Bool

pub record MerklePath : Type 0 where
  pub path_elements : List Str
  pub path_index : List ℕ
  pub root : Str
  pub depth : ℕ
  pub epoch : ℕ

-- The three `…Field` members are the bytes of the texts, and left out.
pub record IdentityBundle : Type 0 where
  pub cid_hex : Str
  pub leaf_hex : Str
  pub root_hex : Str
  pub has_root : Bool

-- Every entry is 0 or 1.
unfoldable pub check_path_index : List ℕ → Result (Unit {0})
check_path_index [] = ok tt
check_path_index (i ∷ is) =
    let rest = check_path_index is in
    if not (i == 0) && not (i == 1) then err (codes "bad_path_index") else rest

unfoldable pub validate_path : MerklePath → Result (Unit {0})
validate_path path = do
  require (length path.path_elements == length path.path_index) (codes "path_length_mismatch")
  check_path_index path.path_index

-- `'|'` and each text, trimmed.
unfoldable pub bar_texts : List Str → Str
bar_texts [] = []
bar_texts (e ∷ es) = b'|' ∷ (trim_copy e ++ bar_texts es)

unfoldable pub bar_numbers : List ℕ → Str
bar_numbers [] = []
bar_numbers (i ∷ is) = b'|' ∷ (to_decimal i ++ bar_numbers is)

abbrev pub path_key : Option MerklePath → Str
path_key none = []
path_key (some path) =
    codes "|p:"
    ++ (to_decimal (length path.path_elements)
        ++ (bar_texts path.path_elements
            ++ (codes "|i:"
                ++ (to_decimal (length path.path_index) ++ bar_numbers path.path_index))))

unfoldable pub bundle_key : IdentityState → Option MerklePath → Str
bundle_key st path =
    trim_copy st.sid
    ++ b'|'
      ∷ (trim_copy st.rho
          ++ b'|'
            ∷ (trim_copy st.cid
                ++ b'|'
                  ∷ (trim_copy st.pk_norm_hash
                      ++ b'|'
                        ∷ (trim_copy st.pk_rec_hash
                            ++ b'|'
                              ∷ (to_decimal st.ver
                                  ++ b'|'
                                    ∷ ((if st.active then codes "1" else codes "0")
                                        ++ path_key path))))))

module _ (normalize_field_hex : Str → Result Str)
    (poseidon_hash_native : List Str → Result Str) where
  unfoldable pub poseidon_hash2 : Str → Str → Result Str
  poseidon_hash2 a b = poseidon_hash_native (a ∷ b ∷ [])

  unfoldable pub poseidon_hash5 : Str → Str → Str → Str → Str → Result Str
  poseidon_hash5 a b c d e = poseidon_hash_native (a ∷ b ∷ c ∷ d ∷ e ∷ [])

  unfoldable pub poseidon_cid : Str → Str → Result Str
  poseidon_cid sid rho = poseidon_hash_native (sid ∷ rho ∷ [])

  unfoldable pub poseidon_leaf : Str → Str → Str → ℕ → Bool → Result Str
  unfolding poseidon_hash5
  poseidon_leaf cid pk_norm_hash pk_rec_hash ver active =
      poseidon_hash5 cid pk_norm_hash pk_rec_hash (to_decimal ver)
        (if active then codes "1" else codes "0")

  unfoldable pub compute_leaf_from_identity : IdentityState → Result Str
  compute_leaf_from_identity st = do
    cid ←
        if is_empty (trim_copy st.cid)
        then poseidon_cid st.sid st.rho
        else normalize_field_hex st.cid
    poseidon_leaf cid st.pk_norm_hash st.pk_rec_hash st.ver st.active

  unfoldable pub fold_merkle_level : Str → Str → ℕ → Result Str
  fold_merkle_level current sibling path_index =
      if path_index == 0
      then poseidon_hash2 current sibling
      else if path_index == 1
      then poseidon_hash2 sibling current
      else err (codes "bad_path_index")

  -- The loop over the levels.
  unfoldable pub fold_levels : Str → List Str → List ℕ → Result Str
  fold_levels cur (e ∷ es) (i ∷ is) = do next ← fold_merkle_level cur e i; fold_levels next es is
  fold_levels cur _ _ = ok cur

  unfoldable pub compute_root_from_path : Str → MerklePath → Result Str
  compute_root_from_path leaf path = do
    validate_path path
    start ← normalize_field_hex leaf
    cur ← fold_levels start path.path_elements path.path_index
    normalize_field_hex cur

  unfoldable pub verify_merkle_path_local : Str → MerklePath → Result Bool
  verify_merkle_path_local leaf path = do
    computed ← compute_root_from_path leaf path
    a ← normalize_field_hex computed
    b ← normalize_field_hex path.root
    ok (str_eq a b)

  abbrev pub with_root : Option MerklePath → Str → Str → Result IdentityBundle
  with_root none cid leaf =
      ok (record { cid_hex = cid; leaf_hex = leaf; root_hex = []; has_root = false })
  with_root (some path) cid leaf = do
    root ← compute_root_from_path leaf path
    ok (record { cid_hex = cid; leaf_hex = leaf; root_hex = root; has_root = true })

  unfoldable pub build_bundle : IdentityState → Option MerklePath → Result IdentityBundle
  build_bundle st path = do
    cid ←
        if not (is_empty (trim_copy st.sid)) || not (is_empty (trim_copy st.rho))
        then poseidon_cid st.sid st.rho
        else normalize_field_hex st.cid
    leaf ← poseidon_leaf cid st.pk_norm_hash st.pk_rec_hash st.ver st.active
    with_root path cid leaf

  -- `g_bundle_cache`.
  abbrev pub Cache : Type 0
  Cache = List (Str × IdentityBundle)

  unfoldable pub cached : Str → Cache → Option IdentityBundle
  cached key [] = none
  cached key ((k, b) ∷ cache) = if str_eq k key then some b else cached key cache

  abbrev pub remember : Str → Result IdentityBundle → Cache → Cache × Result IdentityBundle
  remember key (err e) cache = (cache, err e)
  remember key (ok b) cache = ((key, b) ∷ cache, ok b)

  abbrev pub cached_or_built :
      Option IdentityBundle
      → IdentityState
      → Option MerklePath
      → Cache
      → Cache × Result IdentityBundle
  cached_or_built (some b) st path cache = (cache, ok b)
  cached_or_built none st path cache = remember (bundle_key st path) (build_bundle st path) cache

  unfoldable pub compute_identity_bundle : IdentityState → Cache → Cache × Result IdentityBundle
  compute_identity_bundle st cache =
      cached_or_built (cached (bundle_key st none) cache) st none cache

  abbrev pub after_check :
      Result (Unit {0}) → IdentityState → MerklePath → Cache → Cache × Result IdentityBundle
  after_check (err e) st path cache = (cache, err e)
  after_check (ok u) st path cache =
      cached_or_built (cached (bundle_key st (some path)) cache) st (some path) cache

  unfoldable pub compute_identity_bundle_with_path :
      IdentityState → MerklePath → Cache → Cache × Result IdentityBundle
  compute_identity_bundle_with_path st path cache = after_check (validate_path path) st path cache
