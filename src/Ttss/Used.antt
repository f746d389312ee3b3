-- ===== src/Ttss/Used.antt =====
-- What the loop over the shares in `ttss_rec_nits_shamir` of cpp/ttss_nits_shamir.cpp has seen of the
-- shares whose points it collects.
use did_vc.Base.{
  ℕ, ◌<◌, ◌≤◌, Str, false, ◌==◌, if◌then◌else◌, List, [], ◌∷◌, ◌++◌, length, ok, All, ◌≡◌, ◌≢◌,
  refl, ap, ◌∙◌, sym, subst, arith, length-append, Bool-cases, inl, inr, bind-ok,
}
use mathlib.Core.List.{append_assoc, append-nil}
use did_vc.Encode.{field_to_hex32}
use did_vc.Shamir.Roots.{IsDistinct}
use did_vc.Envelope.{ShareEnvelope}
use did_vc.Ttss.Recover.{Point, Round, refused, accepted, failed, collected, share_round, collect}
use did_vc.Ttss.Taken.{ArePointsOf, places, texts_of, Taken, share_round-Taken}

-- The shares that the loop used, from the front: their points come behind the ones collected before,
-- stand at different places, and are together at most `t`.
pub record AreUsed (first : ShareEnvelope) (earlier : List ℕ) (shares : List ShareEnvelope)
    (start points : List Point) : Type 0 where
  pub used : List ShareEnvelope
  pub others : List ShareEnvelope
  pub all : used ++ others ≡ shares
  pub new : List Point
  pub behind : start ++ new ≡ points
  pub are_points : ArePointsOf first used new
  pub distinct : IsDistinct (places new)
  pub apart : All (λ x. All (λ u. u ≢ x) earlier) (places new)
  pub bounded : length points ≤ first.t

heads-apart :
    (u : ℕ) (earlier xs : List ℕ)
    → All (λ x. All (λ v. v ≢ x) (u ∷ earlier)) xs
    → All (λ x. u ≢ x) xs × All (λ x. All (λ v. v ≢ x) earlier) xs
heads-apart u earlier [] h = (tt, tt)
heads-apart u earlier (x ∷ xs) h =
    let (a, b) = heads-apart u earlier xs h.1 in ((h.0.0, a), (h.0.1, b))

pub collect-AreUsed :
    (first : ShareEnvelope) (shares : List ShareEnvelope) (earlier : List ℕ)
    (start points : List Point)
    → length start < first.t
    → collect first shares (texts_of earlier) start ≡ ok (collected points)
    → AreUsed first earlier shares start points
unfolding collect
collect-AreUsed first [] earlier start points few h =
    let e : start ≡ points = cc in
    record {
      used = [];
      others = [];
      all = refl;
      new = [];
      behind = append-nil start ∙ e;
      are_points = tt;
      distinct = tt;
      apart = tt;
      bounded = rw (sym e) (omega arith);
    }
collect-AreUsed first (env ∷ shares) earlier start points few h =
    let (round, got, h1) = bind-ok (share_round first env (texts_of earlier)) _ h in
    go
      (λ p few_more h2.
        collect-AreUsed first shares (p.0 ∷ earlier) (start ++ p ∷ []) points few_more h2)
      round got h1
  where
    -- The rest of the loop behind this share.
    extend :
        (xi : Str) (p : Point)
        → Taken first earlier env xi p
        → AreUsed first (p.0 ∷ earlier) shares (start ++ p ∷ []) points
        → AreUsed first earlier (env ∷ shares) start points
    extend xi p k u =
        let (differ, apart) = heads-apart p.0 earlier (places u.new) u.apart in
        record {
          used = env ∷ u.used;
          others = u.others;
          all = ap (λ es. env ∷ es) u.all;
          new = p ∷ u.new;
          behind = sym (append_assoc start (p ∷ []) u.new) ∙ u.behind;
          are_points = (k.point, u.are_points);
          distinct = (k.small, differ, u.distinct);
          apart = (k.new, apart);
          bounded = u.bounded;
        }

    below : (a b : ℕ) → (a == b) ≡ false → a ≤ b → a < b
    below a b e le = ground arith

    go :
        ((p : Point)
          → length (start ++ p ∷ []) < first.t
          → collect first shares (field_to_hex32 p.0 ∷ texts_of earlier) (start ++ p ∷ [])
            ≡ ok (collected points)
          → AreUsed first (p.0 ∷ earlier) shares (start ++ p ∷ []) points)
        → (round : Round) → share_round first env (texts_of earlier) ≡ ok round
        → (elim round [
          | refused e ↦ ok (failed e)
          | accepted xi p ↦
              let rest = collect first shares (xi ∷ texts_of earlier) (start ++ p ∷ []) in
              if length (start ++ p ∷ []) == first.t then ok (collected (start ++ p ∷ [])) else rest
        ])
          ≡ ok (collected points)
        → AreUsed first earlier (env ∷ shares) start points
    go again (refused e) got k = absurd (cc)
    go again (accepted xi p) got k =
        let taken = share_round-Taken first env earlier xi p got in
        let longer = length-append {0} start (p ∷ []) in
        extend xi p taken (elim (Bool-cases (length (start ++ p ∷ []) == first.t)) [
          | inl full ↦
              let stop : ok (collected (start ++ p ∷ [])) ≡ ok (collected points) = rw full at k in
              let e : start ++ p ∷ [] ≡ points = cc in
              record {
                used = [];
                others = shares;
                all = refl;
                new = [];
                behind = append-nil (start ++ p ∷ []) ∙ e;
                are_points = tt;
                distinct = tt;
                apart = tt;
                bounded = subst (λ ps. length ps ≤ first.t) e (omega (arith, few, longer));
              }
          | inr more ↦
              let next : collect first shares (xi ∷ texts_of earlier) (start ++ p ∷ [])
                  ≡ ok (collected points) =
                rw more at k in
              again p (below (length (start ++ p ∷ [])) first.t more (omega (arith, few, longer)))
                (rw taken.text at next)
        ])
