-- ===== src/Merkle/Path.antt =====
-- Paths of cpp/merkle_poseidon.cpp: the root binds leaf and siblings, and what a path that verifies has.
use did_vc.Base.{
  ℕ, zero, suc, ◌<◌, Str, codes, str_eq, str_eq_iff, true, false, not, ◌&&◌, ◌==◌, List, [], ◌∷◌,
  length, Result, ok, err, require, ◌≡◌, ◌≢◌, ◌⊎◌, inl, inr, refl, sym, ◌∙◌, ap, arith, bind-ok,
  require-ok, Bool-cases, All,
}
use did_vc.Merkle.{
  MerklePath, check_path_index, validate_path, poseidon_hash2, fold_merkle_level, fold_levels,
  compute_root_from_path, verify_merkle_path_local,
}

Str-cases : (s t : Str) → (s ≡ t) ⊎ (s ≢ t)
Str-cases s t = elim (Bool-cases (str_eq s t)) [
  | inl same ↦ inl ((str_eq_iff s t).0 same)
  | inr differ ↦ inr (λ e. let p = (str_eq_iff s t).1 e in cc)
]

Result-cases : (r s : Result Str) → (r ≡ s) ⊎ (r ≢ s)
Result-cases (ok a) (ok b) = elim (Str-cases a b) [
  | inl same ↦ inl (ap ok same)
  | inr differ ↦ inr (λ e. differ (cc))
]
Result-cases (err a) (err b) = elim (Str-cases a b) [
  | inl same ↦ inl (ap err same)
  | inr differ ↦ inr (λ e. differ (cc))
]
Result-cases (ok a) (err b) = inr (λ e. cc)
Result-cases (err a) (ok b) = inr (λ e. cc)

-- The path's indices are 0 or 1.
abbrev pub Sides : List ℕ → Type 0
Sides is = All (λ i. (i ≡ 0) ⊎ (i ≡ 1)) is

check_path_index-Sides : (is : List ℕ) {u : Unit {0}} → check_path_index is ≡ ok u → Sides is
unfolding check_path_index
check_path_index-Sides [] h = tt
check_path_index-Sides (i ∷ is) h = elim (Bool-cases (not (i == 0) && not (i == 1))) [
  | inl bad ↦ let h' : err (codes "bad_path_index") ≡ ok tt = rw bad at h in absurd (cc)
  | inr good ↦
      let h' : check_path_index is ≡ ok tt = rw good at h in
      (side i good, check_path_index-Sides is h')
]
  where
    side : (i : ℕ) → (not (i == 0) && not (i == 1)) ≡ false → (i ≡ 0) ⊎ (i ≡ 1)
    side i h = ground arith

-- A path that is accepted has as many indices as siblings, and each is 0 or 1.
pub validate_path-Sides :
    (path : MerklePath) {u : Unit {0}}
    → validate_path path ≡ ok u
    → (length path.path_elements ≡ length path.path_index) × Sides path.path_index
unfolding validate_path
validate_path-Sides path h =
    let (_, p, q) =
      bind-ok
        (require (length path.path_elements == length path.path_index)
          (codes "path_length_mismatch"))
        _ h in
    (
      same (length path.path_elements) (length path.path_index) (require-ok _ _ p),
      check_path_index-Sides path.path_index q,
    )
  where
    same : (a b : ℕ) → (a == b) ≡ true → a ≡ b
    same a b h = ground arith

module _ (normalize_field_hex : Str → Result Str)
    (poseidon_hash_native : List Str → Result Str) where
  -- `next` is the hash of `cur` and its sibling, `cur` on the left at the index 0 and on the right at 1.
  abbrev pub Hashed : ℕ → Str → Str → Str → Type 0
  Hashed i cur sibling next =
      ((i ≡ 0) × (poseidon_hash_native (cur ∷ sibling ∷ []) ≡ ok next))
      ⊎ ((i ≡ 1) × (poseidon_hash_native (sibling ∷ cur ∷ []) ≡ ok next))

  -- The hashes, level by level, lead from `cur` to `top`.
  abbrev pub Leads : Str → List Str → List ℕ → Str → Type 0
  Leads cur [] [] top = cur ≡ top
  Leads cur [] (i ∷ is) top = ⊥
  Leads cur (e ∷ es) [] top = ⊥
  Leads cur (e ∷ es) (i ∷ is) top = (next : Str) × Hashed i cur e next × Leads next es is top

  -- The texts stand for the same field element.
  abbrev pub SameElement : Str → Str → Type 0
  SameElement a b = normalize_field_hex a ≡ normalize_field_hex b

  -- The texts stand for the same elements, one by one.
  abbrev pub SameElements : List Str → List Str → Type 0
  SameElements [] [] = Unit
  SameElements [] (b ∷ others) = ⊥
  SameElements (a ∷ rest) [] = ⊥
  SameElements (a ∷ rest) (b ∷ others) = SameElement a b × SameElements rest others

  -- On the way up from `cur` and from `cur'` there is a level where the hash takes two pairs of
  -- different elements to the same element.
  abbrev pub Collide : Str → List Str → Str → List Str → List ℕ → Type 0
  Collide cur (e ∷ es) cur' (f ∷ fs) (i ∷ is) =
      (next : Str) × (next' : Str) × Hashed i cur e next
      × Hashed i cur' f next'
      × ((((normalize_field_hex cur ≢ normalize_field_hex cur')
              ⊎ (normalize_field_hex e ≢ normalize_field_hex f))
            × SameElement next next')
          ⊎ Collide next es next' fs is)
  Collide cur es cur' fs is = ⊥

  fold_merkle_level-Hashed :
      (cur sibling next : Str) (i : ℕ)
      → fold_merkle_level normalize_field_hex poseidon_hash_native cur sibling i ≡ ok next
      → Hashed i cur sibling next
  unfolding fold_merkle_level poseidon_hash2
  fold_merkle_level-Hashed cur sibling next zero p = inl (refl, p)
  fold_merkle_level-Hashed cur sibling next (suc zero) p = inr (refl, p)
  fold_merkle_level-Hashed cur sibling next (suc (suc i)) p =
      let p' : err (codes "bad_path_index") ≡ ok next =
        rw (far i 0 (omega arith), far i 1 (omega arith)) at p in
      absurd (cc)
    where
      far : (i k : ℕ) → k < 2 → (suc (suc i) == k) ≡ false
      far i k lt = ground arith

  fold_levels-Leads :
      (cur top : Str) (siblings : List Str) (positions : List ℕ)
      → length siblings ≡ length positions
      → fold_levels normalize_field_hex poseidon_hash_native cur siblings positions ≡ ok top
      → Leads cur siblings positions top
  unfolding fold_levels
  fold_levels-Leads cur top [] [] len p = cc
  fold_levels-Leads cur top [] (i ∷ is) len p = absurd (omega arith)
  fold_levels-Leads cur top (e ∷ es) [] len p = absurd (omega arith)
  fold_levels-Leads cur top (e ∷ es) (i ∷ is) len p =
      let (next, step, p1) =
        bind-ok (fold_merkle_level normalize_field_hex poseidon_hash_native cur e i) _ p in
      (
        next,
        fold_merkle_level-Hashed cur e next i step,
        fold_levels-Leads next top es is (omega arith) p1,
      )

  -- Two ways to the same element start from the same elements, or collide.
  Leads-binding :
      (cur cur' top top' : Str) (siblings siblings' : List Str) (positions : List ℕ)
      → Leads cur siblings positions top
      → Leads cur' siblings' positions top'
      → SameElement top top'
      → (SameElement cur cur' × SameElements siblings siblings')
        ⊎ Collide cur siblings cur' siblings' positions
  Leads-binding c d t u [] [] [] p q same =
      inl (ap normalize_field_hex p ∙ same ∙ ap normalize_field_hex (sym q), tt)
  Leads-binding c d t u [] fs (i ∷ is) p q same = absurd p
  Leads-binding c d t u (e ∷ es) fs [] p q same = absurd p
  Leads-binding c d t u [] (f ∷ fs) [] p q same = absurd q
  Leads-binding c d t u (e ∷ es) [] (i ∷ is) p q same = absurd q
  Leads-binding c d t u (e ∷ es) (f ∷ fs) (i ∷ is) (n, hashed, p) (m, hashed', q) same =
      elim (Leads-binding n m t u es fs is p q same) [
        | inr above ↦ inr (n, m, hashed, hashed', inr above)
        | inl (next_same, rest) ↦
            elim (Result-cases (normalize_field_hex c) (normalize_field_hex d)) [
              | inr differ ↦ inr (n, m, hashed, hashed', inl (inl differ, next_same))
              | inl cur_same ↦ elim (Result-cases (normalize_field_hex e) (normalize_field_hex f)) [
                | inr differ ↦ inr (n, m, hashed, hashed', inl (inr differ, next_same))
                | inl sibling_same ↦ inl (cur_same, (sibling_same, rest))
              ]
            ]
      ]

  -- Two leaves that the same positions lead to roots of the same field element, each with siblings of
  -- its own, stand for the same element and have siblings for the same elements, or at some level of
  -- the two ways the hash takes pairs of different elements to the same element.
  pub fold_levels-binding :
      (leaf leaf' root root' : Str) (siblings siblings' : List Str) (positions : List ℕ)
      → length siblings ≡ length positions
      → length siblings' ≡ length positions
      → fold_levels normalize_field_hex poseidon_hash_native leaf siblings positions ≡ ok root
      → fold_levels normalize_field_hex poseidon_hash_native leaf' siblings' positions ≡ ok root'
      → SameElement root root'
      → (SameElement leaf leaf' × SameElements siblings siblings')
        ⊎ Collide leaf siblings leaf' siblings' positions
  fold_levels-binding leaf leaf' root root' siblings siblings' positions len len' p q same =
      Leads-binding leaf leaf' root root' siblings siblings' positions
        (fold_levels-Leads leaf root siblings positions len p)
        (fold_levels-Leads leaf' root' siblings' positions len' q) same

  -- What a path that verifies has: an index of 0 or 1 for each sibling, and hashes that lead from the
  -- leaf's normal form to a text whose normal form has the normal form of the root.
  pub record IsVerified (leaf : Str) (path : MerklePath) : Type 0 where
    pub sides : Sides path.path_index
    pub count : length path.path_elements ≡ length path.path_index
    pub start : Str
    pub normal_leaf : normalize_field_hex leaf ≡ ok start
    pub top : Str
    pub leads : Leads start path.path_elements path.path_index top
    pub computed : Str
    pub normal_top : normalize_field_hex top ≡ ok computed
    pub root : Str
    pub normal_computed : normalize_field_hex computed ≡ ok root
    pub normal_root : normalize_field_hex path.root ≡ ok root

  -- A path that verifies has an index of 0 or 1 for each sibling, and the hashes in that order lead from
  -- the leaf's normal form to a text that has, normalised twice, the normal form of the path's root.
  pub verify_merkle_path_local-IsVerified :
      (leaf : Str) (path : MerklePath)
      → verify_merkle_path_local normalize_field_hex poseidon_hash_native leaf path ≡ ok true
      → IsVerified leaf path
  unfolding verify_merkle_path_local compute_root_from_path
  verify_merkle_path_local-IsVerified leaf path h =
      let (computed, root_got, h1) =
        bind-ok (compute_root_from_path normalize_field_hex poseidon_hash_native leaf path) _ h in
      let (a, normal_computed, h2) = bind-ok (normalize_field_hex computed) _ h1 in
      let (b, normal_root, h3) = bind-ok (normalize_field_hex path.root) _ h2 in
      let same : str_eq a b ≡ true = cc in
      let (_, valid_path, k1) = bind-ok (validate_path path) _ root_got in
      let (start, normal_leaf, k2) = bind-ok (normalize_field_hex leaf) _ k1 in
      let (top, folded, normal_top) =
        bind-ok
          (fold_levels normalize_field_hex poseidon_hash_native start path.path_elements
            path.path_index)
          _ k2 in
      let (count, sides) = validate_path-Sides path valid_path in
      record {
        sides = sides;
        count = count;
        start = start;
        normal_leaf = normal_leaf;
        top = top;
        leads = fold_levels-Leads start top path.path_elements path.path_index count folded;
        computed = computed;
        normal_top = normal_top;
        root = a;
        normal_computed = normal_computed;
        normal_root = normal_root ∙ ap ok (sym ((str_eq_iff a b).0 same));
      }
