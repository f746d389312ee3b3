-- ===== src/Merkle/Bundle.antt =====
-- Bundles of cpp/merkle_poseidon.cpp: the leaf of a bundle is the leaf of its identity.
use did_vc.Base.{
  Str, is_empty, false, List, [], Option, none, some, Result, ok, err, ◌>>=◌, ◌≡◌, ap, bind-ok,
}
use did_vc.Text.{trim_copy}
use did_vc.Merkle.{
  MerklePath, IdentityState, IdentityBundle, poseidon_cid, poseidon_leaf,
  compute_leaf_from_identity, compute_root_from_path, build_bundle, with_root,
}

module _ (normalize_field_hex : Str → Result Str)
    (poseidon_hash_native : List Str → Result Str) where
  -- The bundle's leaf is the leaf of the identity, when its `cid` is the one of `sid` and `rho`.
  pub compute_leaf-build_bundle :
      (st : IdentityState) (path : Option MerklePath) (cid : Str) (bundle : IdentityBundle)
      → is_empty (trim_copy st.sid) ≡ false
      → is_empty (trim_copy st.cid) ≡ false
      → poseidon_cid normalize_field_hex poseidon_hash_native st.sid st.rho ≡ ok cid
      → normalize_field_hex st.cid ≡ ok cid
      → build_bundle normalize_field_hex poseidon_hash_native st path ≡ ok bundle
      → compute_leaf_from_identity normalize_field_hex poseidon_hash_native st ≡ ok bundle.leaf_hex
  unfolding build_bundle compute_leaf_from_identity
  compute_leaf-build_bundle st path cid bundle some_sid some_cid hashed norm h =
      let h' : (poseidon_leaf normalize_field_hex poseidon_hash_native cid st.pk_norm_hash
              st.pk_rec_hash st.ver st.active
            >>= λ leaf. with_root normalize_field_hex poseidon_hash_native path cid leaf)
          ≡ ok bundle =
        rw (some_sid, hashed) at h in
      let (leaf, got, k) =
        bind-ok
          (poseidon_leaf normalize_field_hex poseidon_hash_native cid st.pk_norm_hash st.pk_rec_hash
            st.ver st.active)
          _ h' in
      rw (some_cid, norm, got) (ap ok (leaf_kept path leaf k))
    where
      leaf_or : Result IdentityBundle → Str
      leaf_or (ok b) = b.leaf_hex
      leaf_or (err e) = []

      leaf_kept :
          (path : Option MerklePath) (leaf : Str)
          → with_root normalize_field_hex poseidon_hash_native path cid leaf ≡ ok bundle
          → leaf ≡ bundle.leaf_hex
      leaf_kept none leaf k = ap leaf_or k
      leaf_kept (some p) leaf k =
          let (root, _, k1) =
            bind-ok (compute_root_from_path normalize_field_hex poseidon_hash_native leaf p) _ k in
          ap leaf_or k1
