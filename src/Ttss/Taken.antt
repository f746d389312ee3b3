-- ===== src/Ttss/Taken.antt =====
-- What one round of the loop over the shares in `ttss_rec_nits_shamir` of cpp/ttss_nits_shamir.cpp has
-- seen of a share whose point it takes.
use did_vc.Base.{
  ℕ, ◌<◌, Str, codes, str_eq, str_eq_iff, Bool, true, false, not, ◌||◌, ◌==◌, if◌then◌else◌, List,
  [], ◌∷◌, any, map, ok, err, Result, ◌>>=◌, All, ◌≡◌, ◌≢◌, refl, ap, ◌∙◌, sym, arith, bind-ok,
}
use did_vc.Encode.{field_from_hex, field_to_hex32, normalize_field_hex_bn254, unpack_y_chunks_hex}
use did_vc.Encode.Element.{field_from_hex-lt}
use did_vc.Envelope.{ShareEnvelope, Verdict, valid, invalid, verify_share_envelope_demo}
use did_vc.Ttss.Recover.{
  Point, refused, accepted, header_differs, read_point, caught, check_share, judge, share_round,
}

-- The seven fields that the shares of one recovery have in common.
pub record SameHeader (env first : ShareEnvelope) : Type 0 where
  pub scheme : env.scheme ≡ first.scheme
  pub id_hash : env.id_hash ≡ first.id_hash
  pub ver : env.ver ≡ first.ver
  pub epoch : env.epoch ≡ first.epoch
  pub n : env.n ≡ first.n
  pub t : env.t ≡ first.t
  pub secret_type : env.secret_type ≡ first.secret_type

-- A share that verifies, is active and has the header of `first`, with its point.
pub record IsPointOf (first env : ShareEnvelope) (p : Point) : Type 0 where
  pub verified : verify_share_envelope_demo env ≡ ok valid
  pub same_header : SameHeader env first
  pub is_active : env.active ≡ true
  pub place : field_from_hex env.share.xi_hex ≡ ok p.0
  pub values : unpack_y_chunks_hex env.share.yi_hex ≡ ok p.1

-- The points are the ones of the shares, one by one.
abbrev pub ArePointsOf : ShareEnvelope → List ShareEnvelope → List Point → Type 0
ArePointsOf first [] [] = Unit
ArePointsOf first [] (p ∷ points) = ⊥
ArePointsOf first (env ∷ envs) [] = ⊥
ArePointsOf first (env ∷ envs) (p ∷ points) = IsPointOf first env p × ArePointsOf first envs points

abbrev pub places : List Point → List ℕ
places points = map (λ (p : Point). p.0) points

header_differs-SameHeader :
    (env first : ShareEnvelope) → header_differs env first ≡ false → SameHeader env first
unfolding header_differs
header_differs-SameHeader env first h =
    let (h1, secret) = both _ _ h in
    let (h2, t) = both _ _ h1 in
    let (h3, n) = both _ _ h2 in
    let (h4, epoch) = both _ _ h3 in
    let (h5, ver) = both _ _ h4 in
    let (scheme, id_hash) = both _ _ h5 in
    record {
      scheme = text _ _ scheme;
      id_hash = text _ _ id_hash;
      ver = number _ _ ver;
      epoch = number _ _ epoch;
      n = number _ _ n;
      t = number _ _ t;
      secret_type = text _ _ secret;
    }
  where
    both : (a b : Bool) → (a || b) ≡ false → (a ≡ false) × (b ≡ false)
    both a b e = ground arith

    holds : (b : Bool) → not b ≡ false → b ≡ true
    holds b e = ground arith

    text : (s u : Str) → not (str_eq s u) ≡ false → s ≡ u
    text s u e = (str_eq_iff s u).0 (holds (str_eq s u) e)

    number : (a b : ℕ) → not (a == b) ≡ false → a ≡ b
    number a b e = ground arith

abbrev pub texts_of : List ℕ → List Str
texts_of xs = map field_to_hex32 xs

-- A place whose text is not among the texts is not among the places.
new_place :
    (x : ℕ) (earlier : List ℕ)
    → any (λ s. str_eq s (field_to_hex32 x)) (texts_of earlier) ≡ false
    → All (λ u. u ≢ x) earlier
new_place x [] h = tt
new_place x (u ∷ earlier) h = (
  λ same. clash _ _ h ((str_eq_iff _ _).1 (ap field_to_hex32 same)),
  new_place x earlier (later _ _ h),
)
  where
    clash : (a b : Bool) → (a || b) ≡ false → a ≡ true → ⊥
    clash a b e t = ground arith

    later : (a b : Bool) → (a || b) ≡ false → b ≡ false
    later a b e = ground arith

-- What an accepted share shows.
pub record Taken (first : ShareEnvelope) (earlier : List ℕ) (env : ShareEnvelope) (xi : Str)
    (p : Point) : Type 0 where
  pub point : IsPointOf first env p
  pub small : p.0 < 65537
  pub text : xi ≡ field_to_hex32 p.0
  pub new : All (λ u. u ≢ p.0) earlier

check_share-Taken :
    (first env : ShareEnvelope) (earlier : List ℕ) (xi : Str) (p : Point)
    → verify_share_envelope_demo env ≡ ok valid
    → check_share first env (texts_of earlier) ≡ ok (accepted xi p)
    → Taken first earlier env xi p
unfolding check_share normalize_field_hex_bn254 read_point
check_share-Taken first env earlier xi p v h =
    go (header_differs env first) (not env.active) refl refl h
  where
    off : (b : Bool) → not b ≡ false → b ≡ true
    off b e = ground arith

    last :
        (text : Str) (b : Bool) (r : Result Point)
        → (if b then refused (codes "duplicate_x") else caught text r) ≡ accepted xi p
        → (b ≡ false) × (text ≡ xi) × (r ≡ ok p)
    last text true r e = absurd (cc)
    last text false (err thrown) e = absurd (cc)
    last text false (ok q) e = (refl, cc, cc)

    taken :
        (text : Str)
        → SameHeader env first
        → env.active ≡ true
        → normalize_field_hex_bn254 env.share.xi_hex ≡ ok text
        → any (λ s. str_eq s text) (texts_of earlier) ≡ false
        → text ≡ xi
        → read_point env ≡ ok p
        → Taken first earlier env xi p
    taken text header active got fresh same read =
        let (x, place, h1) = bind-ok (field_from_hex env.share.xi_hex) _ read in
        let (ys, values, h2) = bind-ok (unpack_y_chunks_hex env.share.yi_hex) _ h1 in
        let first_same : x ≡ p.0 = cc in
        let place_p = place ∙ ap ok first_same in
        let values_p : unpack_y_chunks_hex env.share.yi_hex ≡ ok p.1 = cc in
        let text_of : ok (field_to_hex32 p.0) ≡ ok text = rw place_p at got in
        let text_p : text ≡ field_to_hex32 p.0 = cc in
        record {
          point = record {
            verified = v;
            same_header = header;
            is_active = active;
            place = place_p;
            values = values_p;
          };
          small = field_from_hex-lt env.share.xi_hex p.0 place_p;
          text = sym same ∙ text_p;
          new = new_place p.0 earlier (rw text_p at fresh);
        }

    go :
        (a b : Bool)
        → header_differs env first ≡ a
        → not env.active ≡ b
        → (if a
            then ok (refused (codes "share_header_mismatch"))
            else if b
            then ok (refused (codes "inactive_share_present"))
            else normalize_field_hex_bn254 env.share.xi_hex >>= λ xi_norm. ok (
                if any (λ s. str_eq s xi_norm) (texts_of earlier)
                then refused (codes "duplicate_x")
                else caught xi_norm (read_point env)))
          ≡ ok (accepted xi p)
        → Taken first earlier env xi p
    go true b ea eb e = absurd (cc)
    go false true ea eb e = absurd (cc)
    go false false ea eb e =
        let (text, got, e1) = bind-ok (normalize_field_hex_bn254 env.share.xi_hex) _ e in
        let (fresh, same, read) =
          last text (any (λ s. str_eq s text) (texts_of earlier)) (read_point env) (cc) in
        taken text (header_differs-SameHeader env first ea) (off env.active eb) got fresh same read

pub share_round-Taken :
    (first env : ShareEnvelope) (earlier : List ℕ) (xi : Str) (p : Point)
    → share_round first env (texts_of earlier) ≡ ok (accepted xi p)
    → Taken first earlier env xi p
unfolding share_round
share_round-Taken first env earlier xi p h =
    let (v, got, h1) = bind-ok (verify_share_envelope_demo env) _ h in go v got h1
  where
    go :
        (v : Verdict)
        → verify_share_envelope_demo env ≡ ok v
        → judge v first env (texts_of earlier) ≡ ok (accepted xi p)
        → Taken first earlier env xi p
    go (invalid e) got k = absurd (cc)
    go valid got k = check_share-Taken first env earlier xi p got k
