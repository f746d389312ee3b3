-- ===== src/Ttss/Setup.antt =====
-- The loops of the setup: distinct places, rows of coefficients, and signed envelopes.
use did_vc.Base.{
  ℕ, zero, suc, ◌+◌, ◌-◌, ◌%◌, ◌<◌, ◌≤◌, Str, false, ◌==◌, List, [], ◌∷◌, length, any, ok, All, ◌≡◌,
  ◌≢◌, refl, ap, arith, bind-ok, Bool-cases, inl, inr,
}
use did_vc.Hex.{normalize_digest_hex32}
use did_vc.Hex.Digest.{IsDigest}
use did_vc.Shamir.Roots.{IsDistinct}
use did_vc.Encode.{hash_parts_to_field}
use did_vc.Encode.Seed.{Chunks}
use did_vc.Envelope.{ShareEnvelope}
use did_vc.Ttss.{
  SetupArgs, candidate_x, distinct_x_loop, derive_distinct_x, coeff_row, coeff_rows, derive_coeff,
  guardian_loop, guardian_name, build_envelope,
}
use did_vc.Ttss.Chunks.{Rows}
use did_vc.Ttss.Build.{IsBuilt, build_envelope-IsBuilt, IsIssued}

candidate_x-lt :
    (a : SetupArgs) (i : ℕ) (g : Str) (ctr x : ℕ) → candidate_x a i g ctr ≡ ok x → x < 65537
unfolding candidate_x
candidate_x-lt a i g ctr x h =
    let (rho, _, h1) = bind-ok (normalize_digest_hex32 a.rho_seed_hex) _ h in
    let (idh, _, h2) = bind-ok (normalize_digest_hex32 a.id_hash) _ h1 in
    let (y, _, h3) = bind-ok (hash_parts_to_field _) _ h2 in
    let e : y % 65536 + 1 ≡ x = cc in omega arith

-- No entry of `used` is `x`.
abbrev pub Unused : List ℕ → ℕ → Type 0
Unused used x = All (λ u. u ≢ x) used

any-Unused : (used : List ℕ) (x : ℕ) → any (λ u. u == x) used ≡ false → Unused used x
any-Unused [] x h = tt
any-Unused (u ∷ used) x h = (λ e. ground arith, any-Unused used x (ground arith))

-- A place that the loop returns is an element of the field that was not used.
pub distinct_x_loop-Unused :
    (left ctr : ℕ) (a : SetupArgs) (i : ℕ) (g : Str) (used : List ℕ) (x : ℕ)
    → distinct_x_loop left ctr a i g used ≡ ok x
    → (x < 65537) × Unused used x
unfolding distinct_x_loop
distinct_x_loop-Unused zero ctr a i g used x h = absurd (cc)
distinct_x_loop-Unused (suc left) ctr a i g used x h =
    let (y, got, k) = bind-ok (candidate_x a i g ctr) _ h in
    elim (Bool-cases (any (λ u. u == y) used)) [
      | inl seen ↦ distinct_x_loop-Unused left (suc ctr) a i g used x (rw seen at k)
      | inr fresh ↦
          let k' : ok y ≡ ok x = rw fresh at k in
          let e : y ≡ x = cc in rw (← e) (candidate_x-lt a i g ctr y got, any-Unused used y fresh)
    ]

coeff_row-length :
    (left k : ℕ) (a : SetupArgs) (c : ℕ) (row : List ℕ)
    → coeff_row left k a c ≡ ok row
    → length row ≡ left
unfolding coeff_row
coeff_row-length zero k a c row h = let e : [] ≡ row = cc in rw (← e) refl
coeff_row-length (suc left) k a c row h =
    let (x, _, h1) = bind-ok (derive_coeff a c k) _ h in
    let (rest, got, h2) = bind-ok (coeff_row left (suc k) a c) _ h1 in
    let e : x ∷ rest ≡ row = cc in rw (← e) (ap suc (coeff_row-length left (suc k) a c rest got))

-- The rows start with the chunks and have at most `t` coefficients.
pub coeff_rows-Rows :
    (chunks : List ℕ) (c : ℕ) (a : SetupArgs) (coeffs : List (List ℕ))
    → Chunks chunks
    → 2 ≤ a.t
    → coeff_rows chunks c a ≡ ok coeffs
    → Rows a.t coeffs chunks × (length coeffs ≡ length chunks)
unfolding coeff_rows
coeff_rows-Rows [] c a coeffs small ht h = let e : [] ≡ coeffs = cc in rw (← e) (tt, refl)
coeff_rows-Rows (chunk ∷ chunks) c a coeffs small ht h =
    let (row, got_row, h1) = bind-ok (coeff_row (a.t - 1) 1 a c) _ h in
    let (rest, got_rest, h2) = bind-ok (coeff_rows chunks (suc c) a) _ h1 in
    let e : (chunk ∷ row) ∷ rest ≡ coeffs = cc in
    let len = coeff_row-length (a.t - 1) 1 a c row got_row in
    let (rows, count) = coeff_rows-Rows chunks (suc c) a rest small.1 ht got_rest in
    rw (← e) (((row, refl, omega arith), small.0, rows), ap suc count)

-- The envelopes of the guardians from `i + 1` on, at the places `xs`.
abbrev pub AreBuilt : SetupArgs → List (List ℕ) → ℕ → List ShareEnvelope → List ℕ → Type 0
AreBuilt a coeffs i [] [] = Unit
AreBuilt a coeffs i [] (x ∷ xs) = ⊥
AreBuilt a coeffs i (e ∷ es) [] = ⊥
AreBuilt a coeffs i (e ∷ es) (x ∷ xs) = IsBuilt a coeffs i x e × AreBuilt a coeffs (suc i) es xs

abbrev pub AreIssued : SetupArgs → List (List ℕ) → ℕ → List ShareEnvelope → List ℕ → Type 0
AreIssued a coeffs i [] [] = Unit
AreIssued a coeffs i [] (x ∷ xs) = ⊥
AreIssued a coeffs i (e ∷ es) [] = ⊥
AreIssued a coeffs i (e ∷ es) (x ∷ xs) = IsIssued a coeffs i x e × AreIssued a coeffs (suc i) es xs

pub record Guardians (a : SetupArgs) (coeffs : List (List ℕ)) (left i : ℕ) (used : List ℕ)
    (envs : List ShareEnvelope) : Type 0 where
  pub xs : List ℕ
  pub built : AreBuilt a coeffs i envs xs
  pub distinct : IsDistinct xs
  pub unused : All (Unused used) xs
  pub count : length xs ≡ left

Unused-head : (x : ℕ) (used xs : List ℕ) → All (Unused (x ∷ used)) xs → All (λ y. x ≢ y) xs
Unused-head x used [] h = tt
Unused-head x used (y ∷ xs) h = (h.0.0, Unused-head x used xs h.1)

Unused-tail : (x : ℕ) (used xs : List ℕ) → All (Unused (x ∷ used)) xs → All (Unused used) xs
Unused-tail x used [] h = tt
Unused-tail x used (y ∷ xs) h = (h.0.1, Unused-tail x used xs h.1)

pub guardian_loop-Guardians :
    (left i : ℕ) (a : SetupArgs) (rho : Str) (coeffs : List (List ℕ)) (used : List ℕ)
    (envs : List ShareEnvelope)
    → IsDigest rho
    → guardian_loop left i a rho coeffs used ≡ ok envs
    → Guardians a coeffs left i used envs
unfolding guardian_loop derive_distinct_x
guardian_loop-Guardians zero i a rho coeffs used envs hr h =
    let e : [] ≡ envs = cc in
    rw (← e) (record { xs = []; built = tt; distinct = tt; unused = tt; count = refl })
guardian_loop-Guardians (suc left) i a rho coeffs used envs hr h =
    let (x, got_x, h1) = bind-ok (derive_distinct_x a (i + 1) (guardian_name a i) used) _ h in
    let (env, got_env, h2) = bind-ok (build_envelope a rho coeffs i x) _ h1 in
    let (rest, got_rest, h3) = bind-ok (guardian_loop left (suc i) a rho coeffs (x ∷ used)) _ h2 in
    let e : env ∷ rest ≡ envs = cc in
    let (in_field, fresh) =
      distinct_x_loop-Unused 4096 0 a (i + 1) (guardian_name a i) used x got_x in
    let g = guardian_loop-Guardians left (suc i) a rho coeffs (x ∷ used) rest hr got_rest in
    rw (← e) (record {
      xs = x ∷ g.xs;
      built = (build_envelope-IsBuilt a rho coeffs i x env hr got_env, g.built);
      distinct = (in_field, Unused-head x used g.xs g.unused, g.distinct);
      unused = (fresh, Unused-tail x used g.xs g.unused);
      count = ap suc g.count;
    })
