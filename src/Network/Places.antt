-- ===== src/Network/Places.antt =====
-- The envelopes of a setup by their places, for the client of cpp/committee_client.cpp.
use did_vc.Base.{
  ℕ, zero, suc, ◌+◌, ◌<◌, ◌≤◌, List, [], ◌∷◌, length, get_or, All, nth, some, ◌≡◌, ◌≢◌, inl, inr,
  refl, ap, subst, arith,
}
use did_vc.Envelope.{ShareEnvelope}
use did_vc.Envelope.Normal.{normalized_fields-IsNormal}
use did_vc.Ttss.{SetupArgs}
use did_vc.Ttss.Build.{IsIssued}
use did_vc.Ttss.Setup.{AreIssued}
use did_vc.Ttss.RoundTrip.{In, DistinctIndex}
use did_vc.Network.Deliver.{Deliverable}

module _ {A : Type 0} where
  pub nth-get_or : (xs : List A) (i : ℕ) (d : A) → i < length xs → nth xs i ≡ some (get_or xs i d)
  nth-get_or [] i d h = absurd (omega arith)
  nth-get_or (x ∷ xs) zero d h = refl
  nth-get_or (x ∷ xs) (suc i) d h = nth-get_or xs i d (omega arith)

  pub first_of : (xs : List A) → 0 < length xs → A
  first_of [] h = absurd (omega arith)
  first_of (x ∷ xs) h = x

pub get_or-In :
    (es : List ShareEnvelope) (i : ℕ) (d : ShareEnvelope) → i < length es → In (get_or es i d) es
get_or-In [] i d h = absurd (omega arith)
get_or-In (e ∷ es) zero d h = inl refl
get_or-In (e ∷ es) (suc i) d h = inr (get_or-In es i d (omega arith))

-- The envelopes of the places from `i` on.
abbrev pub envs_from : (ℕ → ShareEnvelope) → ℕ → ℕ → List ShareEnvelope
envs_from env zero i = []
envs_from env (suc left) i = env i ∷ envs_from env left (suc i)

pub All-envs_from :
    (P : ShareEnvelope → Type 0) (env : ℕ → ShareEnvelope) (left i : ℕ)
    → ((k : ℕ) → i ≤ k → k < i + left → P (env k))
    → All P (envs_from env left i)
All-envs_from P env zero i h = tt
All-envs_from P env (suc left) i h = (
  h i (omega arith) (omega arith),
  All-envs_from P env left (suc i) (λ k lo hi. h k (omega arith) (omega arith)),
)

pub length-envs_from : (env : ℕ → ShareEnvelope) (left i : ℕ) → length (envs_from env left i) ≡ left
length-envs_from env zero i = refl
length-envs_from env (suc left) i = ap suc (length-envs_from env left (suc i))

pub DistinctIndex-envs_from :
    (env : ℕ → ShareEnvelope) (left i : ℕ)
    → ((k : ℕ) → k < i + left → (env k).guardian_index ≡ k + 1)
    → DistinctIndex (envs_from env left i)
DistinctIndex-envs_from env zero i h = tt
DistinctIndex-envs_from env (suc left) i h = (
  All-envs_from (λ f. (env i).guardian_index ≢ f.guardian_index) env left (suc i)
      (λ k lo hi e.
        differ i k (env i).guardian_index (env k).guardian_index (h i (omega arith))
          (h k (omega arith)) lo e),
  DistinctIndex-envs_from env left (suc i) (λ k lt. h k (omega arith)),
)
  where
    differ : (i k p q : ℕ) → p ≡ i + 1 → q ≡ k + 1 → suc i ≤ k → p ≡ q → ⊥
    differ i k p q e f lo same = omega arith

pub length-AreIssued :
    (a : SetupArgs) (coeffs : List (List ℕ)) (i : ℕ) (es : List ShareEnvelope) (xs : List ℕ)
    → AreIssued a coeffs i es xs
    → length es ≡ length xs
length-AreIssued a coeffs i [] [] h = refl
length-AreIssued a coeffs i [] (x ∷ xs) h = elim h [ ]
length-AreIssued a coeffs i (e ∷ es) [] h = elim h [ ]
length-AreIssued a coeffs i (e ∷ es) (x ∷ xs) h =
    ap suc (length-AreIssued a coeffs (suc i) es xs h.1)

pub issued_at :
    (a : SetupArgs) (coeffs : List (List ℕ)) (i : ℕ) (es : List ShareEnvelope) (xs : List ℕ) (k : ℕ)
    (d : ShareEnvelope)
    → AreIssued a coeffs i es xs
    → k < length es
    → IsIssued a coeffs (i + k) (get_or xs k 0) (get_or es k d)
issued_at a coeffs i [] xs k d h lt = absurd (omega arith)
issued_at a coeffs i (e ∷ es) [] k d h lt = elim h [ ]
issued_at a coeffs i (e ∷ es) (x ∷ xs) zero d h lt = let z : i + 0 ≡ i = omega arith in rw z h.0
issued_at a coeffs i (e ∷ es) (x ∷ xs) (suc k) d h lt =
    let z : suc i + k ≡ i + suc k = omega arith in
    subst (λ j. IsIssued a coeffs j (get_or xs k 0) (get_or es k d)) z
      (issued_at a coeffs (suc i) es xs k d h.1 (omega arith))

pub IsIssued-Deliverable :
    (a : SetupArgs) (coeffs : List (List ℕ)) (i x : ℕ) (env : ShareEnvelope)
    → i < a.n
    → a.t ≤ a.n
    → a.n ≤ 0xFFFFFFFF
    → IsIssued a coeffs i x env
    → Deliverable env
IsIssued-Deliverable a coeffs i x env lt le small p =
    let index = p.index in
    let n = p.n in
    let t = p.t in
    record {
      normal = normalized_fields-IsNormal env p.normal;
      checks = p.checks;
      verified = p.verified;
      fits = record { guardian_index = omega arith; n = omega arith; t = omega arith };
    }
