-- ===== src/Merkle/Permutation.antt =====
-- The whole Poseidon permutation of cpp/merkle_poseidon.cpp, over constants whose sizes were checked.
use did_vc.Base.{
  ℕ, zero, suc, ◌+◌, ◌-◌, ◌*◌, ◌/◌, ◌<◌, ◌≤◌, codes, true, ◌==◌, leb, List, [], ◌∷◌, ◌++◌, length,
  map, take, drop, Result, ok, err, ◌>>=◌, require, require-ok, to_decimal, All, ◌≡◌, refl, sym,
  ◌∙◌, ap, subst, arith, bind-ok,
}
use did_vc.Merkle.Poseidon.{
  bn254_fr, normalize_fr, rounds_table, PoseidonRawConstants, PoseidonParams, element, rows_of,
  reshape_matrix, validate_poseidon_param_sizes, build_poseidon_params, sigma, slice_of,
  partial_round, partial_rounds, permute_rounds, permute,
}
use did_vc.Merkle.Rounds.{
  Gives, IsMatrix, Rows, element-ok, add_constants-Gives, mix_full-Gives, mix_sparse-Gives,
  length-map, full_rounds-Gives,
}

length-drop : (n : ℕ) (xs : List ℕ) → n ≤ length xs → length (drop n xs) + n ≡ length xs
length-drop zero xs h = omega arith
length-drop (suc n) [] h = absurd (omega arith)
length-drop (suc n) (x ∷ xs) h = let e = length-drop n xs (omega arith) in omega (arith, e)

length-take : (n : ℕ) (xs : List ℕ) → n ≤ length xs → length (take n xs) ≡ n
length-take zero xs h = refl
length-take (suc n) [] h = absurd (omega arith)
length-take (suc n) (x ∷ xs) h = ap suc (length-take n xs (omega arith))

slice_of-ok :
    (s : List ℕ) (off width : ℕ)
    → off + width ≤ length s
    → (slice : List ℕ) × ((slice_of s off width ≡ ok slice) × (length slice ≡ width))
slice_of-ok s off width h =
    let inside : leb (off + width) (length s) ≡ true = ground arith in
    let e = length-drop off s (omega arith) in
    (take width (drop off s), (rw inside refl, length-take width (drop off s) (omega (arith, e))))

partial_round-Gives :
    (t k : ℕ) (state slice : List ℕ)
    → length state ≡ t
    → 1 ≤ t
    → length slice ≡ t * 2 - 1
    → Gives t (partial_round state k slice)
unfolding partial_round
partial_round-Gives t k [] slice e low w = absurd (omega arith)
partial_round-Gives t k (x ∷ xs) slice e low w =
    mix_sparse-Gives t (normalize_fr (sigma x + k) ∷ xs) slice e low w

partial_rounds-Gives :
    (left off s_off width t : ℕ) (c s state : List ℕ)
    → length state ≡ t
    → All (λ v. v < bn254_fr) state
    → 1 ≤ t
    → width ≡ t * 2 - 1
    → off + left ≤ length c
    → s_off + left * width ≤ length s
    → Gives t (partial_rounds left off s_off width c s state)
unfolding partial_rounds
partial_rounds-Gives zero off s_off width t c s state e small low w hc hs = record {
  out = state;
  gives = refl;
  count = e;
  canonical = small;
}
partial_rounds-Gives (suc left) off s_off width t c s state e small low w hc hs =
    let (k, at) = element-ok c off (omega arith) in
    let (slice, (cut, long)) = slice_of-ok s s_off width (omega arith) in
    let one = partial_round-Gives t k state slice e low (long ∙ w) in
    let rest =
      partial_rounds-Gives left (suc off) (s_off + width) width t c s one.out one.count
        one.canonical low w (omega arith) (omega arith) in
    record {
      out = rest.out;
      gives = rw (at, cut, one.gives) rest.gives;
      count = rest.count;
      canonical = rest.canonical;
    }

-- The sizes that `validate_poseidon_param_sizes` and `reshape_matrix` see to.
pub record IsParams (params : PoseidonParams) : Type 0 where
  pub full : params.n_rounds_f ≡ 8
  pub c_size : length params.c ≡ params.t * 8 + params.n_rounds_p
  pub s_size : length params.s ≡ params.n_rounds_p * (params.t * 2 - 1)
  pub m_size : IsMatrix params.t params.m
  pub p_size : IsMatrix params.t params.p

then-ok :
    {A B : Type 0} (r : Result A) (f : A → Result B) (a : A) (b : B)
    → r ≡ ok a
    → f a ≡ ok b
    → (r >>= f) ≡ ok b
then-ok (ok x) f a b p q = let same : x ≡ a = cc in ap f same ∙ q
then-ok (err e) f a b p q = absurd (cc)

permute_rounds-Gives :
    (params : PoseidonParams) (state : List ℕ)
    → IsParams params
    → 1 ≤ params.t
    → length state ≡ params.t
    → Gives params.t (permute_rounds 4 params state)
unfolding permute_rounds
permute_rounds-Gives params state i low e =
    let c_size = i.c_size in
    let s_size = i.s_size in
    let t = params.t in
    let keyed = add_constants-Gives state params.c 0 (omega arith) in
    let k_count : length keyed.out ≡ t = keyed.count ∙ e in
    let first =
      full_rounds-Gives 3 t t params.c params.m keyed.out k_count keyed.canonical (omega arith)
        i.m_size in
    let f_count = first.count in
    let f_map = length-map first.out in
    let middle = add_constants-Gives (map sigma first.out) params.c (4 * t) (omega arith) in
    let m_count : length middle.out ≡ t = middle.count ∙ f_map ∙ f_count in
    let mixed = mix_full-Gives t middle.out params.p m_count i.p_size in
    let partial =
      partial_rounds-Gives params.n_rounds_p (5 * t) 0 (t * 2 - 1) t params.c params.s mixed.out
        mixed.count mixed.canonical low refl (omega arith) (omega arith) in
    let second =
      full_rounds-Gives 3 (5 * t + params.n_rounds_p) t params.c params.m partial.out partial.count
        partial.canonical (omega arith) i.m_size in
    let last =
      mix_full-Gives t (map sigma second.out) params.m (length-map second.out ∙ second.count)
        i.m_size in
    record {
      out = last.out;
      gives = then-ok _ _ keyed.out last.out keyed.gives (
          then-ok _ _ first.out last.out first.gives (
            then-ok _ _ middle.out last.out middle.gives (
              then-ok _ _ mixed.out last.out mixed.gives (
                then-ok _ _ partial.out last.out partial.gives
                  (then-ok _ _ second.out last.out second.gives last.gives)))));
      count = last.count;
      canonical = last.canonical;
    }

pub permute-Gives :
    (params : PoseidonParams) (state : List ℕ)
    → IsParams params
    → 1 ≤ params.t
    → length state ≡ params.t
    → Gives params.t (permute params state)
unfolding permute
permute-Gives params state i low e =
    subst (λ half. Gives params.t (permute_rounds half params state)) (sym (ap (λ n. n / 2) i.full))
      (permute_rounds-Gives params state i low e)

rows_of-IsMatrix :
    (left t : ℕ) (flat : List ℕ)
    → length flat ≡ left * t
    → (length (rows_of left t flat) ≡ left) × Rows t (rows_of left t flat)
rows_of-IsMatrix zero t flat h = (refl, tt)
rows_of-IsMatrix (suc left) t flat h =
    let e = length-drop t flat (omega arith) in
    let (count, rows) = rows_of-IsMatrix left t (drop t flat) (omega (arith, e)) in
    (ap suc count, (length-take t flat (omega arith), rows))

same_size : (a b : ℕ) → (a == b) ≡ true → a ≡ b
same_size a b h = ground arith

reshape_matrix-IsMatrix :
    (flat : List ℕ) (t : ℕ) (m : List (List ℕ)) → reshape_matrix flat t ≡ ok m → IsMatrix t m
unfolding reshape_matrix
reshape_matrix-IsMatrix flat t m h =
    let (u, right, e) =
      bind-ok
        (require (length flat == t * t) (codes "poseidon_matrix_size_mismatch_t=" ++ to_decimal t))
        _ h in
    let size = same_size (length flat) (t * t) (require-ok (length flat == t * t) _ right) in
    let same : rows_of t t flat ≡ m = cc in subst (IsMatrix t) same (rows_of-IsMatrix t t flat size)

validate-sizes :
    (params : PoseidonParams) (u : Unit {0})
    → validate_poseidon_param_sizes params ≡ ok u
    → (length params.c ≡ params.t * params.n_rounds_f + params.n_rounds_p)
      × (length params.s ≡ params.n_rounds_p * (params.t * 2 - 1))
unfolding validate_poseidon_param_sizes
validate-sizes params u h =
    let a = length params.c == params.t * params.n_rounds_f + params.n_rounds_p in
    let b = length params.s == params.n_rounds_p * (params.t * 2 - 1) in
    let (v, first, second) =
      bind-ok (require a (codes "poseidon_C_size_mismatch_t=" ++ to_decimal params.t)) _ h in
    (same_size _ _ (require-ok a _ first), same_size _ _ (require-ok b _ second))

build_poseidon_params-IsParams :
    (t : ℕ) (raw : PoseidonRawConstants) (params : PoseidonParams)
    → build_poseidon_params t raw ≡ ok params
    → IsParams params × (params.t ≡ t) × (2 ≤ t)
unfolding build_poseidon_params
build_poseidon_params-IsParams t raw params h =
    let (_, wide, h0) = bind-ok (require (leb 2 t) (codes "undefined")) _ h in
    let two = at_least 2 t (require-ok _ _ wide) in
    let (n, _, h1) = bind-ok (element rounds_table (t - 2)) _ h0 in
    let (m, got_m, h2) = bind-ok (reshape_matrix raw.m t) _ h1 in
    let (p, got_p, h3) = bind-ok (reshape_matrix raw.p t) _ h2 in
    let made : PoseidonParams = record {
      t = t;
      n_rounds_f = 8;
      n_rounds_p = n;
      c = raw.c;
      s = raw.s;
      m = m;
      p = p;
    } in
    let (u, sized, h4) = bind-ok (validate_poseidon_param_sizes made) _ h3 in
    let (c_size, s_size) = validate-sizes made u sized in
    let same : made ≡ params = cc in
    subst (λ (x : PoseidonParams). IsParams x × (x.t ≡ t) × (2 ≤ t)) same
      (
        record {
          full = refl;
          c_size = c_size;
          s_size = s_size;
          m_size = reshape_matrix-IsMatrix raw.m t m got_m;
          p_size = reshape_matrix-IsMatrix raw.p t p got_p;
        },
        refl,
        two,
      )
  where
    at_least : (a b : ℕ) → leb a b ≡ true → a ≤ b
    at_least a b e = ground arith

-- Over constants that `build_poseidon_params` accepts, the permutation of a state of the width `t`
-- reads no vector out of its range and gives `t` elements of the field.
pub permute-build_poseidon_params :
    (t : ℕ) (raw : PoseidonRawConstants) (params : PoseidonParams) (state : List ℕ)
    → build_poseidon_params t raw ≡ ok params
    → length state ≡ t
    → Gives t (permute params state)
permute-build_poseidon_params t raw params state h e =
    let (i, same, two) = build_poseidon_params-IsParams t raw params h in
    subst (λ n. Gives n (permute params state)) same
      (permute-Gives params state i (omega (arith, same, two)) (e ∙ sym same))
