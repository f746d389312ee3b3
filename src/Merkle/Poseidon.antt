-- ===== src/Merkle/Poseidon.antt =====
-- The Poseidon permutation of cpp/merkle_poseidon.cpp over the constants that are read from a file. A
-- read out of a vector's range is undefined there, and an error here.
use did_vc.Base.{
  ℕ, zero, suc, ◌+◌, ◌-◌, ◌*◌, ◌/◌, ◌%◌, codes, ◌==◌, leb, if◌then◌else◌, List, [], ◌∷◌, ◌++◌,
  length, nth, map, take, drop, Option, none, some, Result, ok, err, ◌>>=◌, ◌>>◌, require,
  to_decimal,
}

abbrev pub bn254_fr : ℕ
bn254_fr = 21888242871839275222246405745257275088548364400416034343698204186575808495617

unfoldable pub normalize_fr : ℕ → ℕ
normalize_fr v = v % bn254_fr

abbrev pub rounds_table : List ℕ
rounds_table = 56 ∷ 57 ∷ 56 ∷ 60 ∷ 60 ∷ 63 ∷ 64 ∷ 63 ∷ 60 ∷ 66 ∷ 60 ∷ 65 ∷ 70 ∷ 60 ∷ 64 ∷ 68 ∷ []

pub record PoseidonRawConstants : Type 0 where
  pub c : List ℕ
  pub s : List ℕ
  pub m : List ℕ
  pub p : List ℕ

pub record PoseidonParams : Type 0 where
  pub t : ℕ
  pub n_rounds_f : ℕ
  pub n_rounds_p : ℕ
  pub c : List ℕ
  pub s : List ℕ
  pub m : List (List ℕ)
  pub p : List (List ℕ)

abbrev pub or_undefined : Option ℕ → Result ℕ
or_undefined none = err (codes "undefined")
or_undefined (some v) = ok v

-- `v[i]`.
abbrev pub element : List ℕ → ℕ → Result ℕ
element xs i = or_undefined (nth xs i)

abbrev pub rows_of : ℕ → ℕ → List ℕ → List (List ℕ)
rows_of zero t flat = []
rows_of (suc left) t flat = take t flat ∷ rows_of left t (drop t flat)

unfoldable pub reshape_matrix : List ℕ → ℕ → Result (List (List ℕ))
reshape_matrix flat t = do
  require (length flat == t * t) (codes "poseidon_matrix_size_mismatch_t=" ++ to_decimal t)
  ok (rows_of t t flat)

unfoldable pub validate_poseidon_param_sizes : PoseidonParams → Result (Unit {0})
validate_poseidon_param_sizes params = do
  require (length params.c == params.t * params.n_rounds_f + params.n_rounds_p)
      (codes "poseidon_C_size_mismatch_t=" ++ to_decimal params.t)
  require (length params.s == params.n_rounds_p * (params.t * 2 - 1))
      (codes "poseidon_S_size_mismatch_t=" ++ to_decimal params.t)

-- `kNRoundsP[t - 2]`, out of range below 2.
unfoldable pub build_poseidon_params : ℕ → PoseidonRawConstants → Result PoseidonParams
build_poseidon_params t raw = do
  require (leb 2 t) (codes "undefined")
  n_rounds_p ← element rounds_table (t - 2)
  m ← reshape_matrix raw.m t
  p ← reshape_matrix raw.p t
  _ ← validate_poseidon_param_sizes (record {
    t = t;
    n_rounds_f = 8;
    n_rounds_p = n_rounds_p;
    c = raw.c;
    s = raw.s;
    m = m;
    p = p;
  })
  ok (record { t = t; n_rounds_f = 8; n_rounds_p = n_rounds_p; c = raw.c; s = raw.s; m = m; p = p })

unfoldable pub sigma : ℕ → ℕ
sigma x = let x2 = normalize_fr (x * x) in let x4 = normalize_fr (x2 * x2) in normalize_fr (x4 * x)

-- `state[j] + C[off + j]`, for each `j`.
unfoldable pub add_constants : List ℕ → List ℕ → ℕ → Result (List ℕ)
add_constants [] c off = ok []
add_constants (x ∷ xs) c off = do
  k ← element c off
  rest ← add_constants xs c (suc off)
  ok (normalize_fr (x + k) ∷ rest)

-- The column `i` of the matrix with the state, behind `acc`.
unfoldable pub mix_column : ℕ → List ℕ → List (List ℕ) → ℕ → Result ℕ
mix_column i [] rows acc = ok (normalize_fr acc)
mix_column i (x ∷ xs) [] acc = err (codes "undefined")
mix_column i (x ∷ xs) (row ∷ rows) acc = do
  k ← element row i
  mix_column i xs rows (normalize_fr (acc + k * x))

-- The columns from `i` on.
unfoldable pub mix_columns : ℕ → ℕ → List ℕ → List (List ℕ) → Result (List ℕ)
mix_columns zero i state rows = ok []
mix_columns (suc left) i state rows = do
  v ← mix_column i state rows 0
  rest ← mix_columns left (suc i) state rows
  ok (v ∷ rest)

unfoldable pub mix_full : List ℕ → List (List ℕ) → Result (List ℕ)
mix_full state matrix = mix_columns (length state) 0 state matrix

-- The slice from `i` on with the state, behind `acc`.
unfoldable pub sparse_first : List ℕ → List ℕ → ℕ → ℕ → Result ℕ
sparse_first [] slice i acc = ok (normalize_fr acc)
sparse_first (x ∷ xs) slice i acc = do
  k ← element slice i
  sparse_first xs slice (suc i) (normalize_fr (acc + k * x))

-- The other elements, with the slice from `k` on.
unfoldable pub sparse_rest : ℕ → List ℕ → List ℕ → ℕ → Result (List ℕ)
sparse_rest first [] slice k = ok []
sparse_rest first (x ∷ xs) slice k = do
  v ← element slice k
  rest ← sparse_rest first xs slice (suc k)
  ok (normalize_fr (x + first * v) ∷ rest)

unfoldable pub mix_sparse : List ℕ → List ℕ → Result (List ℕ)
mix_sparse [] slice = err (codes "undefined")
mix_sparse (x ∷ xs) slice = do
  v ← sparse_first (x ∷ xs) slice 0 0
  rest ← sparse_rest x xs slice (length (x ∷ xs))
  ok (v ∷ rest)

-- `left` full rounds, the first with the constants from `off` on.
unfoldable pub full_rounds : ℕ → ℕ → ℕ → List ℕ → List (List ℕ) → List ℕ → Result (List ℕ)
full_rounds zero off t c m state = ok state
full_rounds (suc left) off t c m state = do
  keyed ← add_constants (map sigma state) c off
  mixed ← mix_full keyed m
  full_rounds left (off + t) t c m mixed

-- The slice of `width` elements from `off` on.
abbrev pub slice_of : List ℕ → ℕ → ℕ → Result (List ℕ)
slice_of s off width =
    if leb (off + width) (length s) then ok (take width (drop off s)) else err (codes "undefined")

unfoldable pub partial_round : List ℕ → ℕ → List ℕ → Result (List ℕ)
partial_round [] k slice = err (codes "undefined")
partial_round (x ∷ xs) k slice = mix_sparse (normalize_fr (sigma x + k) ∷ xs) slice

-- `left` partial rounds, the first with the constant at `off` and the slice at `s_off`.
unfoldable pub partial_rounds : ℕ → ℕ → ℕ → ℕ → List ℕ → List ℕ → List ℕ → Result (List ℕ)
partial_rounds zero off s_off width c s state = ok state
partial_rounds (suc left) off s_off width c s state = do
  k ← element c off
  slice ← slice_of s s_off width
  next ← partial_round state k slice
  partial_rounds left (suc off) (s_off + width) width c s next

-- The permutation of `poseidon_hash_native`, behind the reading of its inputs; `half` is
-- `nRoundsF / 2`.
unfoldable pub permute_rounds : ℕ → PoseidonParams → List ℕ → Result (List ℕ)
permute_rounds half params state = do
  keyed ← add_constants state params.c 0
  first ← full_rounds (half - 1) params.t params.t params.c params.m keyed
  middle ← add_constants (map sigma first) params.c (half * params.t)
  mixed ← mix_full middle params.p
  partial ←
      partial_rounds params.n_rounds_p ((half + 1) * params.t) 0 (params.t * 2 - 1) params.c
        params.s mixed
  second ←
      full_rounds (half - 1) ((half + 1) * params.t + params.n_rounds_p) params.t params.c params.m
        partial
  mix_full (map sigma second) params.m

unfoldable pub permute : PoseidonParams → List ℕ → Result (List ℕ)
permute params state = permute_rounds (params.n_rounds_f / 2) params state
