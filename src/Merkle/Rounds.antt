-- ===== src/Merkle/Rounds.antt =====
-- The permutation of cpp/merkle_poseidon.cpp reads no vector out of its range.
use did_vc.Base.{
  ℕ, zero, suc, ◌+◌, ◌-◌, ◌*◌, ◌<◌, ◌≤◌, List, [], ◌∷◌, length, map, Result, ok, All, ◌≡◌, refl,
  ◌∙◌, ap, subst, arith,
}
use did_vc.Merkle.Poseidon.{
  bn254_fr, normalize_fr, element, sigma, add_constants, mix_column, mix_columns, mix_full,
  sparse_first, sparse_rest, mix_sparse, full_rounds,
}

-- The call gives `t` elements of the field.
pub record Gives (t : ℕ) (r : Result (List ℕ)) : Type 0 where
  pub out : List ℕ
  pub gives : r ≡ ok out
  pub count : length out ≡ t
  pub canonical : All (λ v. v < bn254_fr) out

-- The call gives an element of the field.
record GivesOne (r : Result ℕ) : Type 0 where
  out : ℕ
  gives : r ≡ ok out
  canonical : out < bn254_fr

pub element-ok : (xs : List ℕ) (i : ℕ) → i < length xs → (v : ℕ) × (element xs i ≡ ok v)
element-ok [] i h = absurd (omega arith)
element-ok (x ∷ xs) zero h = (x, refl)
element-ok (x ∷ xs) (suc i) h = element-ok xs i (omega arith)

pub normalize_fr_lt : (v : ℕ) → normalize_fr v < bn254_fr
unfolding normalize_fr
normalize_fr_lt v = omega arith

pub add_constants-Gives :
    (state c : List ℕ) (off : ℕ)
    → off + length state ≤ length c
    → Gives (length state) (add_constants state c off)
unfolding add_constants
add_constants-Gives [] c off h = record { out = []; gives = refl; count = refl; canonical = tt }
add_constants-Gives (x ∷ xs) c off h =
    let (k, e) = element-ok c off (omega arith) in
    let rest = add_constants-Gives xs c (suc off) (omega arith) in
    record {
      out = normalize_fr (x + k) ∷ rest.out;
      gives = rw (e, rest.gives) refl;
      count = ap suc rest.count;
      canonical = (normalize_fr_lt (x + k), rest.canonical);
    }

mix_column-GivesOne :
    (i : ℕ) (state : List ℕ) (rows : List (List ℕ)) (acc : ℕ)
    → length state ≤ length rows
    → All (λ row. i < length row) rows
    → GivesOne (mix_column i state rows acc)
unfolding mix_column
mix_column-GivesOne i [] rows acc le h = record {
  out = normalize_fr acc;
  gives = refl;
  canonical = normalize_fr_lt acc;
}
mix_column-GivesOne i (x ∷ xs) [] acc le h = absurd (omega arith)
mix_column-GivesOne i (x ∷ xs) (row ∷ rows) acc le h =
    let (k, e) = element-ok row i h.0 in
    let rest = mix_column-GivesOne i xs rows (normalize_fr (acc + k * x)) (omega arith) h.1 in
    record { out = rest.out; gives = rw e rest.gives; canonical = rest.canonical }

-- Rows of `t` elements.
abbrev pub Rows : ℕ → List (List ℕ) → Type 0
Rows t rows = All (λ row. length row ≡ t) rows

Rows-column :
    (t i : ℕ) (rows : List (List ℕ)) → i < t → Rows t rows → All (λ row. i < length row) rows
Rows-column t i [] lt h = tt
Rows-column t i (row ∷ rows) lt h = let e = h.0 in (omega arith, Rows-column t i rows lt h.1)

mix_columns-Gives :
    (left i t : ℕ) (state : List ℕ) (rows : List (List ℕ))
    → i + left ≤ t
    → length state ≤ length rows
    → Rows t rows
    → Gives left (mix_columns left i state rows)
unfolding mix_columns
mix_columns-Gives zero i t state rows h le r = record {
  out = [];
  gives = refl;
  count = refl;
  canonical = tt;
}
mix_columns-Gives (suc left) i t state rows h le r =
    let one = mix_column-GivesOne i state rows 0 le (Rows-column t i rows (omega arith) r) in
    let rest = mix_columns-Gives left (suc i) t state rows (omega arith) le r in
    record {
      out = one.out ∷ rest.out;
      gives = rw (one.gives, rest.gives) refl;
      count = ap suc rest.count;
      canonical = (one.canonical, rest.canonical);
    }

-- A square matrix.
abbrev pub IsMatrix : ℕ → List (List ℕ) → Type 0
IsMatrix t m = (length m ≡ t) × Rows t m

pub mix_full-Gives :
    (t : ℕ) (state : List ℕ) (m : List (List ℕ))
    → length state ≡ t
    → IsMatrix t m
    → Gives t (mix_full state m)
unfolding mix_full
mix_full-Gives t state m e h =
    let count = h.0 in
    subst (λ n. Gives n (mix_columns (length state) 0 state m)) e
      (mix_columns-Gives (length state) 0 t state m (omega arith) (omega arith) h.1)

sparse_first-GivesOne :
    (xs slice : List ℕ) (i acc : ℕ)
    → i + length xs ≤ length slice
    → GivesOne (sparse_first xs slice i acc)
unfolding sparse_first
sparse_first-GivesOne [] slice i acc h = record {
  out = normalize_fr acc;
  gives = refl;
  canonical = normalize_fr_lt acc;
}
sparse_first-GivesOne (x ∷ xs) slice i acc h =
    let (k, e) = element-ok slice i (omega arith) in
    let rest = sparse_first-GivesOne xs slice (suc i) (normalize_fr (acc + k * x)) (omega arith) in
    record { out = rest.out; gives = rw e rest.gives; canonical = rest.canonical }

sparse_rest-Gives :
    (first : ℕ) (xs slice : List ℕ) (k : ℕ)
    → k + length xs ≤ length slice
    → Gives (length xs) (sparse_rest first xs slice k)
unfolding sparse_rest
sparse_rest-Gives first [] slice k h = record {
  out = [];
  gives = refl;
  count = refl;
  canonical = tt;
}
sparse_rest-Gives first (x ∷ xs) slice k h =
    let (v, e) = element-ok slice k (omega arith) in
    let rest = sparse_rest-Gives first xs slice (suc k) (omega arith) in
    record {
      out = normalize_fr (x + first * v) ∷ rest.out;
      gives = rw (e, rest.gives) refl;
      count = ap suc rest.count;
      canonical = (normalize_fr_lt (x + first * v), rest.canonical);
    }

pub mix_sparse-Gives :
    (t : ℕ) (state slice : List ℕ)
    → length state ≡ t
    → 1 ≤ t
    → length slice ≡ t * 2 - 1
    → Gives t (mix_sparse state slice)
unfolding mix_sparse
mix_sparse-Gives t [] slice e low w = absurd (omega arith)
mix_sparse-Gives t (x ∷ xs) slice e low w =
    let one = sparse_first-GivesOne (x ∷ xs) slice 0 0 (omega arith) in
    let rest = sparse_rest-Gives x xs slice (length (x ∷ xs)) (omega arith) in
    record {
      out = one.out ∷ rest.out;
      gives = rw (one.gives, rest.gives) refl;
      count = ap suc rest.count ∙ e;
      canonical = (one.canonical, rest.canonical);
    }

pub length-map : (xs : List ℕ) → length (map sigma xs) ≡ length xs
length-map [] = refl
length-map (x ∷ xs) = ap suc (length-map xs)

-- `left` full rounds with `left * t` constants.
pub full_rounds-Gives :
    (left off t : ℕ) (c : List ℕ) (m : List (List ℕ)) (state : List ℕ)
    → length state ≡ t
    → All (λ v. v < bn254_fr) state
    → off + left * t ≤ length c
    → IsMatrix t m
    → Gives t (full_rounds left off t c m state)
unfolding full_rounds
full_rounds-Gives zero off t c m state e small h im = record {
  out = state;
  gives = refl;
  count = e;
  canonical = small;
}
full_rounds-Gives (suc left) off t c m state e small h im =
    let same = length-map state in
    let keyed = add_constants-Gives (map sigma state) c off (omega arith) in
    let count = keyed.count in
    let mixed = mix_full-Gives t keyed.out m (omega arith) im in
    let rest =
      full_rounds-Gives left (off + t) t c m mixed.out mixed.count mixed.canonical (omega arith)
        im in
    record {
      out = rest.out;
      gives = rw (keyed.gives, mixed.gives) rest.gives;
      count = rest.count;
      canonical = rest.canonical;
    }
