-- ===== src/Merkle/Tests.antt =====
-- Paths with a hash that joins its inputs.
use did_vc.Base.{refl, ok, ◌⊎◌, [], ◌∷◌, ◌++◌, List, Result, codes, Str, str_eq}
use did_vc.Merkle.{
  MerklePath, check_path_index, validate_path, poseidon_hash2, fold_merkle_level, fold_levels,
  compute_root_from_path, verify_merkle_path_local,
}
use did_vc.Merkle.Path.{
  SameElement, SameElements, Collide, IsVerified, fold_levels-binding,
  verify_merkle_path_local-IsVerified,
}
use did_vc.Base.{ℕ, zero, suc, err}
use did_vc.Merkle.Poseidon.{
  PoseidonRawConstants, PoseidonParams, reshape_matrix, validate_poseidon_param_sizes,
  build_poseidon_params, permute,
}
use did_vc.Merkle.Rounds.{Gives}
use did_vc.Merkle.Permutation.{permute-build_poseidon_params}

abbrev repeated : ℕ → ℕ → List ℕ
repeated zero v = []
repeated (suc n) v = v ∷ repeated n v

-- Constants for two inputs.
abbrev flat_constants : PoseidonRawConstants
flat_constants = record {
  c = repeated 81 1;
  s = repeated 285 2;
  m = repeated 9 3;
  p = repeated 9 4;
}

abbrev no_params : PoseidonParams
no_params = record { t = 0; n_rounds_f = 0; n_rounds_p = 0; c = []; s = []; m = []; p = [] }

abbrev params_or : Result PoseidonParams → PoseidonParams
params_or (ok params) = params
params_or (err e) = no_params

permute-build_poseidon_params_example :
    Gives 3 (permute (params_or (build_poseidon_params 3 flat_constants)) (0 ∷ 7 ∷ 8 ∷ []))
unfolding build_poseidon_params reshape_matrix validate_poseidon_param_sizes
permute-build_poseidon_params_example =
    permute-build_poseidon_params 3 flat_constants
      (params_or (build_poseidon_params 3 flat_constants)) (0 ∷ 7 ∷ 8 ∷ []) refl refl

abbrev keep : Str → Result Str
keep s = ok s

abbrev bracketed : List Str → Str
bracketed [] = codes ")"
bracketed (s ∷ ss) = codes "(" ++ (s ++ bracketed ss)

abbrev hash : List Str → Result Str
hash ss = ok (bracketed ss)

fold_levels-binding_example :
    (SameElement keep hash (codes "1") (codes "1")
      × SameElements keep hash (codes "2" ∷ codes "3" ∷ []) (codes "2" ∷ codes "3" ∷ []))
    ⊎ Collide keep hash
        (codes "1")
        (codes "2" ∷ codes "3" ∷ [])
        (codes "1")
        (codes "2" ∷ codes "3" ∷ [])
        (0 ∷ 1 ∷ [])
unfolding fold_levels fold_merkle_level poseidon_hash2
fold_levels-binding_example =
    fold_levels-binding keep hash (codes "1") (codes "1") (codes "(3((1(2))") (codes "(3((1(2))")
      (codes "2" ∷ codes "3" ∷ []) (codes "2" ∷ codes "3" ∷ []) (0 ∷ 1 ∷ []) refl refl refl refl
      refl

abbrev short_path : MerklePath
short_path = record {
  path_elements = codes "2" ∷ codes "3" ∷ [];
  path_index = 0 ∷ 1 ∷ [];
  root = codes "(3((1(2))";
  depth = 2;
  epoch = 1;
}

verify_merkle_path_local-IsVerified_example : IsVerified keep hash (codes "1") short_path
unfolding fold_levels fold_merkle_level poseidon_hash2 compute_root_from_path validate_path
    check_path_index verify_merkle_path_local str_eq
verify_merkle_path_local-IsVerified_example =
    verify_merkle_path_local-IsVerified keep hash (codes "1") short_path refl
