-- ===== src/Ttss/RoundTrip.antt =====
-- The recovery inverts the setup of cpp/ttss_nits_shamir.cpp.
use did_vc.Base.{
  ℕ, zero, suc, ◌+◌, ◌-◌, ◌<◌, ◌≤◌, Str, str_eq, str_eq_iff, false, not, ◌==◌, List, [], ◌∷◌,
  length, get_or, ok, All, ◌≡◌, ◌≢◌, ◌⊎◌, inl, inr, refl, ap, ◌∙◌, sym, subst, arith,
}
use did_vc.Hex.{normalize_digest_hex32}
use did_vc.Shamir.Roots.{IsDistinct}
use did_vc.Envelope.{ShareEnvelope}
use did_vc.Ttss.{SetupArgs, TtssShareSetupResult, ttss_share_nits_shamir}
use did_vc.Ttss.Recover.{header_differs, ttss_rec_nits_shamir}
use did_vc.Ttss.Collect.{IsShare, AreShares}
use did_vc.Ttss.Chunks.{Rows, success, ttss_rec-AreShares}
use did_vc.Ttss.Build.{IsIssued}
use did_vc.Ttss.Setup.{AreIssued}
use did_vc.Ttss.Issue.{IsSetup, ttss_share-IsSetup, packed-values}

-- The envelope is one of the list.
abbrev pub In : ShareEnvelope → List ShareEnvelope → Type 0
In e [] = ⊥
In e (f ∷ fs) = (e ≡ f) ⊎ In e fs

-- No two envelopes are of the same guardian.
abbrev pub DistinctIndex : List ShareEnvelope → Type 0
DistinctIndex [] = Unit
DistinctIndex (e ∷ es) = All (λ f. e.guardian_index ≢ f.guardian_index) es × DistinctIndex es

-- The envelope was issued for the place at position `k`.
abbrev IssuedAt : SetupArgs → List (List ℕ) → ℕ → List ℕ → ShareEnvelope → ℕ → Type 0
IssuedAt a coeffs i xs e k = (k < length xs) × IsIssued a coeffs (i + k) (get_or xs k 0) e

find_issued :
    (a : SetupArgs) (coeffs : List (List ℕ)) (i : ℕ) (es : List ShareEnvelope) (xs : List ℕ)
    (e : ShareEnvelope)
    → AreIssued a coeffs i es xs
    → In e es
    → (k : ℕ) × IssuedAt a coeffs i xs e k
find_issued a coeffs i [] xs e s h = elim h [ ]
find_issued a coeffs i (f ∷ fs) [] e s h = elim s [ ]
find_issued a coeffs i (f ∷ fs) (x ∷ xs) e s (inl same) =
    let z : i + 0 ≡ i = omega arith in
    (0, (omega arith, subst (IsIssued a coeffs (i + 0) x) (sym same) (rw z s.0)))
find_issued a coeffs i (f ∷ fs) (x ∷ xs) e s (inr later) =
    let (k, (lt, d)) = find_issued a coeffs (suc i) fs xs e s.1 later in
    let z : suc i + k ≡ i + suc k = omega arith in
    (suc k, (omega arith, subst (λ j. IsIssued a coeffs j (get_or xs k 0) e) z d))

find_first :
    (a : SetupArgs) (coeffs : List (List ℕ)) (es : List ShareEnvelope) (xs : List ℕ)
    (e : ShareEnvelope)
    → AreIssued a coeffs 0 es xs
    → In e es
    → (k : ℕ) × ((k < length xs) × IsIssued a coeffs k (get_or xs k 0) e)
find_first a coeffs es xs e s h =
    let (k, (lt, d)) = find_issued a coeffs 0 es xs e s h in
    let z : 0 + k ≡ k = omega arith in
    (k, (lt, subst (λ j. IsIssued a coeffs j (get_or xs k 0) e) z d))

All-get_or : (P : ℕ → Type 0) (xs : List ℕ) (k : ℕ) → All P xs → k < length xs → P (get_or xs k 0)
All-get_or P [] k h lt = absurd (omega arith)
All-get_or P (x ∷ xs) zero h lt = h.0
All-get_or P (x ∷ xs) (suc k) h lt = All-get_or P xs k h.1 (omega arith)

IsDistinct-get_or :
    (xs : List ℕ) (j k : ℕ)
    → IsDistinct xs
    → j < length xs
    → k < length xs
    → j ≢ k
    → get_or xs j 0 ≢ get_or xs k 0
IsDistinct-get_or [] j k d lj lk ne = absurd (omega arith)
IsDistinct-get_or (x ∷ xs) zero zero d lj lk ne = absurd (ne refl)
IsDistinct-get_or (x ∷ xs) zero (suc k) d lj lk ne = All-get_or _ xs k d.1 (omega arith)
IsDistinct-get_or (x ∷ xs) (suc j) zero d lj lk ne =
    λ e. All-get_or _ xs j d.1 (omega arith) (sym e)
IsDistinct-get_or (x ∷ xs) (suc j) (suc k) d lj lk ne =
    IsDistinct-get_or xs j k d.2 (omega arith) (omega arith) (λ e. ne (ap suc e))

IsDistinct-small : (xs : List ℕ) (k : ℕ) → IsDistinct xs → k < length xs → get_or xs k 0 < 65537
IsDistinct-small [] k d lt = absurd (omega arith)
IsDistinct-small (x ∷ xs) zero d lt = d.0
IsDistinct-small (x ∷ xs) (suc k) d lt = IsDistinct-small xs k d.2 (omega arith)

same_text : (s t : Str) → s ≡ t → not (str_eq s t) ≡ false
same_text s t e = rw ((str_eq_iff s t).1 e) refl

same_number : (a b : ℕ) → a ≡ b → not (a == b) ≡ false
same_number a b e = ground arith

header_same :
    (a : SetupArgs) (coeffs : List (List ℕ)) (i j x y : ℕ) (e f : ShareEnvelope)
    → IsIssued a coeffs i x e
    → IsIssued a coeffs j y f
    → header_differs e f ≡ false
unfolding header_differs
header_same a coeffs i j x y e f p q =
    let id_e = p.id_hash in
    let id_f = q.id_hash in
    rw
      (
        same_text e.scheme f.scheme (p.scheme ∙ sym q.scheme),
        same_text e.id_hash f.id_hash (cc),
        same_number e.ver f.ver (p.ver ∙ sym q.ver),
        same_number e.epoch f.epoch (p.epoch ∙ sym q.epoch),
        same_number e.n f.n (p.n ∙ sym q.n),
        same_number e.t f.t (p.t ∙ sym q.t),
        same_text e.secret_type f.secret_type (p.secret ∙ sym q.secret),
      )
      refl

module _ (a : SetupArgs) (setup : TtssShareSetupResult) (s : IsSetup a setup) where
  -- The shares stand at different places of the setup.
  record Chosen (first : ShareEnvelope) (shares : List ShareEnvelope) : Type 0 where
    places : List ℕ
    are_shares : AreShares first s.coeffs shares places
    distinct : IsDistinct places
    apart :
        (i k : ℕ) (e : ShareEnvelope)
        → (k < length s.xs) × IsIssued a s.coeffs k (get_or s.xs k 0) e
        → All (λ f. e.guardian_index ≢ f.guardian_index) shares
        → All (λ y. get_or s.xs k 0 ≢ y) places

  IsIssued-IsShare :
      (first env : ShareEnvelope) (i j : ℕ) (x y : ℕ)
      → IsIssued a s.coeffs i x first
      → IsIssued a s.coeffs j y env
      → IsShare first s.coeffs env y
  IsIssued-IsShare first env i j x y p q = record {
    verified = q.verified;
    same_header = header_same a s.coeffs j i y x env first q p;
    is_active = q.is_active;
    place = q.place;
    values = (packed-values s.coeffs y env.share.yi_hex s.row_count q.packed).1;
  }

  choose :
      (first : ShareEnvelope) (i x : ℕ) (shares : List ShareEnvelope)
      → IsIssued a s.coeffs i x first
      → All (λ e. In e setup.share_envelopes) shares
      → DistinctIndex shares
      → Chosen first shares
  choose first i x [] p h d = record {
    places = [];
    are_shares = tt;
    distinct = tt;
    apart = λ i k e at ne. tt;
  }
  choose first i x (env ∷ shares) p h d =
      let (k, (lt, q)) = find_first a s.coeffs setup.share_envelopes s.xs env s.issued h.0 in
      let c = choose first i x shares p h.1 d.1 in
      record {
        places = get_or s.xs k 0 ∷ c.places;
        are_shares = (IsIssued-IsShare first env i k x (get_or s.xs k 0) p q, c.are_shares);
        distinct = (IsDistinct-small s.xs k s.distinct lt, c.apart i k env (lt, q) d.0, c.distinct);
        apart = λ i j e at ne. (
          IsDistinct-get_or s.xs j k s.distinct at.0 lt (other j k e env at.1.index q.index ne.0),
          c.apart i j e at ne.1,
        );
      }
    where
      other :
          (j k : ℕ) (e f : ShareEnvelope)
          → e.guardian_index ≡ j + 1
          → f.guardian_index ≡ k + 1
          → e.guardian_index ≢ f.guardian_index
          → j ≢ k
      other j k e f p q ne same = ne (cc)

AreShares-places :
    (first : ShareEnvelope) (coeffs : List (List ℕ)) (es : List ShareEnvelope) (xs : List ℕ)
    → AreShares first coeffs es xs
    → length xs ≡ length es
AreShares-places first coeffs [] [] s = refl
AreShares-places first coeffs [] (x ∷ xs) s = elim s [ ]
AreShares-places first coeffs (e ∷ es) [] s = elim s [ ]
AreShares-places first coeffs (e ∷ es) (x ∷ xs) s = ap suc (AreShares-places first coeffs es xs s.1)

-- When the setup succeeds, any `t` or more of its envelopes, of different guardians and in any
-- order, recover the normalised seed that was shared.
pub ttss_rec-ttss_share :
    (a : SetupArgs) (setup : TtssShareSetupResult) (shares : List ShareEnvelope)
    → ttss_share_nits_shamir a ≡ ok setup
    → All (λ e. In e setup.share_envelopes) shares
    → DistinctIndex shares
    → a.t ≤ length shares
    → (seed : Str) × (normalize_digest_hex32 a.srec_seed_hex ≡ ok seed)
      × (ttss_rec_nits_shamir shares ≡ ok (success seed a.t))
ttss_rec-ttss_share a setup [] h m d le =
    let s = ttss_share-IsSetup a setup h in absurd (omega (arith, s.t_two))
ttss_rec-ttss_share a setup (first ∷ shares) h m d le =
    let s = ttss_share-IsSetup a setup h in
    let (k, (lt, p)) = find_first a s.coeffs setup.share_envelopes s.xs first s.issued m.0 in
    let c = choose a setup s first k (get_or s.xs k 0) (first ∷ shares) p m d in
    let count = AreShares-places first s.coeffs (first ∷ shares) c.places c.are_shares in
    let low = s.t_two in
    let pt = p.t in
    let result =
      ttss_rec-AreShares first shares s.coeffs s.chunks c.places s.split.norm (first.t - 1)
        c.are_shares c.distinct (omega arith) (omega arith) s.row_count
        (subst (λ t. Rows t s.coeffs s.chunks) (sym pt) s.rows) s.split.joins in
    (s.split.norm, s.split.normalised, result ∙ ap (λ t. ok (success s.split.norm t)) pt)
