-- ===== src/Ttss/Sound.antt =====
-- What a recovery of cpp/ttss_nits_shamir.cpp that succeeds has checked, and what its seed is.
use did_vc.Base.{
  ℕ, zero, suc, ◌≤◌, Str, codes, Bool, true, false, ltb, if◌then◌else◌, List, [], ◌∷◌, ◌++◌, length,
  ok, ◌>>=◌, ◌≡◌, refl, ap, ◌∙◌, sym, subst, arith, Bool-cases, inl, inr, bind-ok,
}
use did_vc.Encode.{chunks_to_seed_hex, chunk_count}
use did_vc.Shamir.{lagrange_interpolate_at_zero}
use did_vc.Shamir.Roots.{IsDistinct}
use did_vc.Shamir.Fit.{FitsAtZero, xs_of, lagrange_interpolate_at_zero-FitsAtZero}
use did_vc.Envelope.{
  ShareEnvelope, Verdict, valid, invalid, verify_share_envelope_demo, basic_validate_share_envelope,
  after_basic,
}
use did_vc.Envelope.Checks.{IsWellFormed-basic_validate}
use did_vc.Ttss.Taken.{ArePointsOf, places}
use did_vc.Ttss.Used.{collect-AreUsed}
use did_vc.Ttss.Recover.{
  Point, Collected, failed, collected, collect, chunk_points, recover_chunks, finish_recovery,
  after_first, ttss_rec_nits_shamir, TtssRecoverResult, failure,
}

-- The chunks, from the index `c` on: each has 16 bits and is the value at 0 of a polynomial through
-- the points of its index, with as many coefficients as there are points.
abbrev pub AreChunks : List Point → ℕ → List ℕ → Type 0
AreChunks points c [] = Unit
AreChunks points c (v ∷ chunks) =
    FitsAtZero (chunk_points c points) v × (v ≤ 0xFFFF) × AreChunks points (suc c) chunks

chunk_points-places : (c : ℕ) (points : List Point) → xs_of (chunk_points c points) ≡ places points
chunk_points-places c [] = refl
chunk_points-places c (p ∷ points) = ap (λ xs. p.0 ∷ xs) (chunk_points-places c points)

recover_chunks-AreChunks :
    (left c : ℕ) (points : List Point) (chunks : List ℕ)
    → IsDistinct (places points)
    → recover_chunks left c points ≡ ok (true, chunks)
    → (length chunks ≡ left) × AreChunks points c chunks
unfolding recover_chunks
recover_chunks-AreChunks zero c points chunks d h =
    let e : [] ≡ chunks = cc in subst (λ cs. (length cs ≡ 0) × AreChunks points c cs) e (refl, tt)
recover_chunks-AreChunks (suc left) c points chunks d h =
    let (v, got, h1) = bind-ok (lagrange_interpolate_at_zero (chunk_points c points)) _ h in
    let fits =
      lagrange_interpolate_at_zero-FitsAtZero (chunk_points c points) v
        (rw (chunk_points-places c points) d) got in
    elim (Bool-cases (ltb 0xFFFF v)) [
      | inl large ↦ let bad : ok (false, []) ≡ ok (true, chunks) = rw large at h1 in absurd (cc)
      | inr small ↦
          let h2 : (recover_chunks left (suc c) points >>= λ r. ok (r.0, v ∷ r.1))
              ≡ ok (true, chunks) =
            rw small at h1 in
          let (r, rest, h3) = bind-ok (recover_chunks left (suc c) points) _ h2 in
          let flag : r.0 ≡ true = cc in
          let same : v ∷ r.1 ≡ chunks = cc in
          let both : recover_chunks left (suc c) points ≡ ok (true, r.1) =
            rest ∙ ap (λ b. ok (b, r.1)) flag in
          let (count, later) = recover_chunks-AreChunks left (suc c) points r.1 d both in
          subst (λ cs. (length cs ≡ suc left) × AreChunks points c cs) same
            (ap suc count, (fits, at_most v small, later))
    ]
  where
    at_most : (v : ℕ) → ltb 0xFFFF v ≡ false → v ≤ 0xFFFF
    at_most v e = ground arith

-- The chunks that a successful end of the recovery has found.
record Finished (t : ℕ) (c : Collected) (r : TtssRecoverResult) : Type 0 where
  points : List Point
  is_collected : c ≡ collected points
  enough : t ≤ length points
  chunks : List ℕ
  recovered : recover_chunks chunk_count 0 points ≡ ok (true, chunks)
  seed : chunks_to_seed_hex chunks ≡ ok r.srec_seed_hex
  counted : r.share_count_used ≡ t
  no_error : r.error ≡ []

-- A failure is no success.
failure-absurd : (e : Str) (r : TtssRecoverResult) → r.is_ok ≡ true → ok (failure e) ≡ ok r → ⊥
failure-absurd e r good p =
    let same : failure e ≡ r = cc in
    let bad : false ≡ r.is_ok = ap (λ (x : TtssRecoverResult). x.is_ok) same in absurd (cc)

finish_recovery-Finished :
    (t : ℕ) (c : Collected) (r : TtssRecoverResult)
    → r.is_ok ≡ true
    → finish_recovery t c ≡ ok r
    → Finished t c r
unfolding finish_recovery
finish_recovery-Finished t (failed e) r good h = absurd (failure-absurd e r good h)
finish_recovery-Finished t (collected points) r good h = elim (Bool-cases (ltb (length points) t)) [
  | inl few ↦ absurd (failure-absurd (codes "not_enough_distinct_points") r good (rw few at h))
  | inr many ↦
      let body : (recover_chunks chunk_count 0 points >>= λ c.
      if c.0
      then (chunks_to_seed_hex c.1 >>= λ seed.
          ok (record { is_ok = true; srec_seed_hex = seed; share_count_used = t; error = [] }))
      else ok (failure (codes "recovered_chunk_out_of_range")))
          ≡ ok r =
        rw many at h in
      let (c, got, h1) = bind-ok (recover_chunks chunk_count 0 points) _ body in
      by_chunks (ground arith) c.0 c.1 got h1
]
  where
    by_chunks :
        t ≤ length points
        → (b : Bool) (cs : List ℕ) → recover_chunks chunk_count 0 points ≡ ok (b, cs)
        → (if b
            then (chunks_to_seed_hex cs >>= λ seed.
                ok
                  (record { is_ok = true; srec_seed_hex = seed; share_count_used = t; error = [] }))
            else ok (failure (codes "recovered_chunk_out_of_range")))
          ≡ ok r
        → Finished t (collected points) r
    by_chunks enough false cs got p =
        absurd (failure-absurd (codes "recovered_chunk_out_of_range") r good p)
    by_chunks enough true cs got p =
        let (seed, text, q) = bind-ok (chunks_to_seed_hex cs) _ p in
        let made : TtssRecoverResult = record {
          is_ok = true;
          srec_seed_hex = seed;
          share_count_used = t;
          error = [];
        } in
        let same : made ≡ r = cc in
        record {
          points = points;
          is_collected = refl;
          enough = enough;
          chunks = cs;
          recovered = got;
          seed = text ∙ ap ok (ap (λ (x : TtssRecoverResult). x.srec_seed_hex) same);
          counted = ap (λ (x : TtssRecoverResult). x.share_count_used) (sym same);
          no_error = ap (λ (x : TtssRecoverResult). x.error) (sym same);
        }

-- A share that verifies has passed the basic checks.
verify-basic :
    (env : ShareEnvelope)
    → verify_share_envelope_demo env ≡ ok valid
    → basic_validate_share_envelope env ≡ valid
unfolding verify_share_envelope_demo
verify-basic env h = go (basic_validate_share_envelope env) h
  where
    go : (v : Verdict) → after_basic v env ≡ ok valid → v ≡ valid
    go valid k = refl
    go (invalid e) k = absurd (cc)

-- What a recovery that succeeds stands for: the first `t` shares, `t` being the threshold of the first
-- one, with their points at different places, and the seed, of sixteen chunks.
pub record IsRecovered (shares : List ShareEnvelope) (r : TtssRecoverResult) : Type 0 where
  pub first : ShareEnvelope
  pub rest : List ShareEnvelope
  pub starts : first ∷ rest ≡ shares
  pub used : List ShareEnvelope
  pub others : List ShareEnvelope
  pub all : used ++ others ≡ shares
  pub threshold : length used ≡ first.t
  pub points : List Point
  pub are_points : ArePointsOf first used points
  pub distinct : IsDistinct (places points)
  pub chunks : List ℕ
  pub sixteen : length chunks ≡ 16
  pub are_chunks : AreChunks points 0 chunks
  pub seed : chunks_to_seed_hex chunks ≡ ok r.srec_seed_hex
  pub counted : r.share_count_used ≡ first.t
  pub no_error : r.error ≡ []

ArePointsOf-length :
    (first : ShareEnvelope) (used : List ShareEnvelope) (points : List Point)
    → ArePointsOf first used points
    → length used ≡ length points
ArePointsOf-length first [] [] h = refl
ArePointsOf-length first [] (p ∷ points) h = absurd h
ArePointsOf-length first (env ∷ used) [] h = absurd h
ArePointsOf-length first (env ∷ used) (p ∷ points) h =
    ap suc (ArePointsOf-length first used points h.1)

-- A recovery that succeeds has used the first shares, as many as the threshold of the first one says.
-- Each of them verifies, is active and has the header of the first one. Their points stand at different
-- places, and the seed is made of sixteen chunks of 16 bits, each the value at 0 of a polynomial through
-- the points that has as many coefficients as there are points.
pub ttss_rec-IsRecovered :
    (shares : List ShareEnvelope) (r : TtssRecoverResult)
    → ttss_rec_nits_shamir shares ≡ ok r
    → r.is_ok ≡ true
    → IsRecovered shares r
unfolding ttss_rec_nits_shamir
ttss_rec-IsRecovered [] r h good = absurd (failure-absurd (codes "no_shares") r good h)
ttss_rec-IsRecovered (first ∷ rest) r h good =
    let (v, got, h1) = bind-ok (verify_share_envelope_demo first) _ h in go v got h1
  where
    assemble :
        2 ≤ first.t
        → (c : Collected) → collect first (first ∷ rest) [] [] ≡ ok c
        → Finished first.t c r
        → IsRecovered (first ∷ rest) r
    assemble two c got f =
        let u =
          collect-AreUsed first (first ∷ rest) [] [] f.points (omega (arith, two))
            (got ∙ ap ok f.is_collected) in
        let count = ArePointsOf-length first u.used u.new u.are_points in
        let (sixteen, chunks) =
          recover_chunks-AreChunks chunk_count 0 u.new f.chunks u.distinct
            (rw u.behind f.recovered) in
        record {
          first = first;
          rest = rest;
          starts = refl;
          used = u.used;
          others = u.others;
          all = u.all;
          threshold = omega (arith, count, ap length u.behind, u.bounded, f.enough);
          points = u.new;
          are_points = u.are_points;
          distinct = u.distinct;
          chunks = f.chunks;
          sixteen = sixteen;
          are_chunks = chunks;
          seed = f.seed;
          counted = f.counted;
          no_error = f.no_error;
        }

    go :
        (v : Verdict)
        → verify_share_envelope_demo first ≡ ok v
        → after_first v first (first ∷ rest) ≡ ok r
        → IsRecovered (first ∷ rest) r
    go (invalid e) got p = absurd (failure-absurd e r good p)
    go valid got p = elim (Bool-cases (ltb (length (first ∷ rest)) first.t)) [
      | inl few ↦ absurd (failure-absurd (codes "insufficient_shares") r good (rw few at p))
      | inr many ↦
          let body : (collect first (first ∷ rest) [] [] >>= finish_recovery first.t) ≡ ok r =
            rw many at p in
          let (c, collected_to, q) = bind-ok (collect first (first ∷ rest) [] []) _ body in
          let formed = IsWellFormed-basic_validate first (verify-basic first got) in
          assemble formed.t_two c collected_to (finish_recovery-Finished first.t c r good q)
    ]
