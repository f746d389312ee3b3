-- ===== src/Ttss/Collect.antt =====
-- The loop of the recovery over shares of one setup: it collects the first `t` points.
use did_vc.Base.{
  ℕ, zero, suc, ◌+◌, ◌<◌, ◌≤◌, Str, str_eq, str_eq_iff, true, false, ◌==◌, if◌then◌else◌, List, [],
  ◌∷◌, ◌++◌, length, take, any, map, ok, All, ◌≡◌, ◌≢◌, refl, ap, ◌∙◌, sym, arith, length-append,
  Bool-cases, inl, inr,
}
use mathlib.Core.List.{append_assoc}
use did_vc.Shamir.{poly_eval}
use did_vc.Shamir.Roots.{IsDistinct}
use did_vc.Encode.{field_from_hex, field_to_hex32, unpack_y_chunks_hex}
use did_vc.Encode.Element.{field_from_hex-field_to_hex32, normalize-field_to_hex32}
use did_vc.Envelope.{ShareEnvelope, valid, verify_share_envelope_demo}
use did_vc.Ttss.Recover.{
  Point, accepted, collected, header_differs, read_point, check_share, share_round, collect,
}

-- The values of the polynomials at a place.
abbrev pub values_at : List (List ℕ) → ℕ → List ℕ
values_at coeffs x = map (λ cs. poly_eval cs x) coeffs

abbrev pub point_at : List (List ℕ) → ℕ → Point
point_at coeffs x = (x, values_at coeffs x)

-- `env` is a verified and active share, at the place `x`, of the polynomials `coeffs`, and has the
-- header of `first`.
pub record IsShare (first : ShareEnvelope) (coeffs : List (List ℕ)) (env : ShareEnvelope) (x : ℕ)
    : Type 0 where
  pub verified : verify_share_envelope_demo env ≡ ok valid
  pub same_header : header_differs env first ≡ false
  pub is_active : env.active ≡ true
  pub place : env.share.xi_hex ≡ field_to_hex32 x
  pub values : unpack_y_chunks_hex env.share.yi_hex ≡ ok (values_at coeffs x)

-- The shares stand at the places, one by one.
abbrev pub AreShares : ShareEnvelope → List (List ℕ) → List ShareEnvelope → List ℕ → Type 0
AreShares first coeffs [] [] = Unit
AreShares first coeffs [] (x ∷ xs) = ⊥
AreShares first coeffs (e ∷ es) [] = ⊥
AreShares first coeffs (e ∷ es) (x ∷ xs) = IsShare first coeffs e x × AreShares first coeffs es xs

-- Different places have different texts.
field_to_hex32-injective :
    (x y : ℕ) → x < 65537 → y < 65537 → field_to_hex32 x ≡ field_to_hex32 y → x ≡ y
field_to_hex32-injective x y hx hy e =
    let p : ok x ≡ ok y =
      sym (field_from_hex-field_to_hex32 x hx)
      ∙ ap field_from_hex e
      ∙ field_from_hex-field_to_hex32 y hy in
    cc

-- Elements of the field other than `x`.
abbrev pub Apart : ℕ → List ℕ → Type 0
Apart x used = All (λ u. (u < 65537) × (u ≢ x)) used

not_seen :
    (x : ℕ) (used : List ℕ)
    → x < 65537
    → Apart x used
    → any (λ s. str_eq s (field_to_hex32 x)) (map field_to_hex32 used) ≡ false
not_seen x [] hx a = refl
not_seen x (u ∷ used) hx a = elim (Bool-cases (str_eq (field_to_hex32 u) (field_to_hex32 x))) [
  | inl same ↦ absurd (a.0.1 (field_to_hex32-injective u x a.0.0 hx ((str_eq_iff _ _).0 same)))
  | inr differ ↦ rw differ (not_seen x used hx a.1)
]

read_point-place :
    (first : ShareEnvelope) (coeffs : List (List ℕ)) (env : ShareEnvelope) (x : ℕ)
    → IsShare first coeffs env x
    → x < 65537
    → read_point env ≡ ok (point_at coeffs x)
unfolding read_point
read_point-place first coeffs env x s hx =
    rw (s.place, field_from_hex-field_to_hex32 x hx, s.values)

check_share-place :
    (first : ShareEnvelope) (coeffs : List (List ℕ)) (env : ShareEnvelope) (x : ℕ) (used : List ℕ)
    → IsShare first coeffs env x
    → x < 65537
    → Apart x used
    → check_share first env (map field_to_hex32 used)
      ≡ ok (accepted (field_to_hex32 x) (point_at coeffs x))
unfolding check_share
check_share-place first coeffs env x used s hx a = rw (
  read_point-place first coeffs env x s hx,
  s.same_header,
  s.is_active,
  s.place,
  normalize-field_to_hex32 x hx,
  not_seen x used hx a,
)

share_round-place :
    (first : ShareEnvelope) (coeffs : List (List ℕ)) (env : ShareEnvelope) (x : ℕ) (used : List ℕ)
    → IsShare first coeffs env x
    → x < 65537
    → Apart x used
    → share_round first env (map field_to_hex32 used)
      ≡ ok (accepted (field_to_hex32 x) (point_at coeffs x))
unfolding share_round
share_round-place first coeffs env x used s hx a =
    rw s.verified (check_share-place first coeffs env x used s hx a)

collect_last :
    (first env : ShareEnvelope) (shares : List ShareEnvelope) (seen : List Str)
    (points : List Point) (xi : Str) (p : Point)
    → share_round first env seen ≡ ok (accepted xi p)
    → length (points ++ p ∷ []) ≡ first.t
    → collect first (env ∷ shares) seen points ≡ ok (collected (points ++ p ∷ []))
unfolding collect
collect_last first env shares seen points xi p h e =
    rw h (stop (length (points ++ p ∷ [])) first.t e)
  where
    stop :
        (a b : ℕ)
        → a ≡ b
        → (if a == b
            then ok (collected (points ++ p ∷ []))
            else collect first shares (xi ∷ seen) (points ++ p ∷ []))
          ≡ ok (collected (points ++ p ∷ []))
    stop a b e = let t : (a == b) ≡ true = ground arith in rw t

collect_more :
    (first env : ShareEnvelope) (shares : List ShareEnvelope) (seen : List Str)
    (points : List Point) (xi : Str) (p : Point)
    → share_round first env seen ≡ ok (accepted xi p)
    → length (points ++ p ∷ []) ≢ first.t
    → collect first (env ∷ shares) seen points ≡ collect first shares (xi ∷ seen) (points ++ p ∷ [])
unfolding collect
collect_more first env shares seen points xi p h ne =
    rw h (go (length (points ++ p ∷ [])) first.t ne)
  where
    go :
        (a b : ℕ)
        → a ≢ b
        → (if a == b
            then ok (collected (points ++ p ∷ []))
            else collect first shares (xi ∷ seen) (points ++ p ∷ []))
          ≡ collect first shares (xi ∷ seen) (points ++ p ∷ [])
    go a b ne = let t : (a == b) ≡ false = ground arith in rw t

Apart-head :
    (x : ℕ) (xs : List ℕ) → x < 65537 → All (λ y. x ≢ y) xs → All (λ y. Apart y (x ∷ [])) xs
Apart-head x [] hx h = tt
Apart-head x (y ∷ xs) hx h = (((hx, h.0), tt), Apart-head x xs hx h.1)

Apart-more :
    (x : ℕ) (used xs : List ℕ)
    → All (λ y. Apart y (x ∷ [])) xs
    → All (λ y. Apart y used) xs
    → All (λ y. Apart y (x ∷ used)) xs
Apart-more x used [] h k = tt
Apart-more x used (y ∷ xs) h k = ((h.0.0, k.0), Apart-more x used xs h.1 k.1)

-- From `points` on, the loop collects the points of the next `k + 1` places.
pub collect-take :
    (first : ShareEnvelope) (coeffs : List (List ℕ)) (k : ℕ) (shares : List ShareEnvelope)
    (xs used : List ℕ) (points : List Point)
    → AreShares first coeffs shares xs
    → IsDistinct xs
    → All (λ x. Apart x used) xs
    → length points + suc k ≡ first.t
    → suc k ≤ length xs
    → collect first shares (map field_to_hex32 used) points
      ≡ ok (collected (points ++ map (point_at coeffs) (take (suc k) xs)))
collect-take first coeffs k [] [] used points s d a e le = absurd (omega arith)
collect-take first coeffs k [] (x ∷ xs) used points s d a e le = elim s [ ]
collect-take first coeffs k (env ∷ shares) [] used points s d a e le = elim s [ ]
collect-take first coeffs zero (env ∷ shares) (x ∷ xs) used points s d a e le =
    collect_last first env shares _ points (field_to_hex32 x) (point_at coeffs x)
      (share_round-place first coeffs env x used s.0 d.0 a.0)
      (omega (arith, length-append {0} points (point_at coeffs x ∷ [])))
collect-take first coeffs (suc k) (env ∷ shares) (x ∷ xs) used points s d a e le =
    collect_more first env shares _ points (field_to_hex32 x) (point_at coeffs x)
      (share_round-place first coeffs env x used s.0 d.0 a.0)
      (λ q. absurd (omega (arith, longer, q)))
    ∙ collect-take first coeffs k shares xs (x ∷ used) (points ++ point_at coeffs x ∷ []) s.1 d.2
        (Apart-more x used xs (Apart-head x xs d.0 d.1) a.1) (omega (arith, longer)) (omega arith)
    ∙ ap (λ (t : List Point). ok (collected t))
        (append_assoc points (point_at coeffs x ∷ []) (map (point_at coeffs) (take (suc k) xs)))
  where
    longer : length (points ++ point_at coeffs x ∷ []) ≡ length points + 1
    longer = length-append points (point_at coeffs x ∷ [])
