-- ===== src/Ttss/Issue.antt =====
-- What the setup hands out: issued envelopes at different places of polynomials that start with the
-- seed's chunks.
use did_vc.Base.{
  ℕ, suc, ◌<◌, ◌≤◌, Str, true, not, ◌||◌, ltb, List, [], ◌∷◌, length, map, Result, ok, err, ◌≡◌,
  refl, ap, ◌∙◌, subst, arith, bind-ok, require-ok, require, codes,
}
use did_vc.Field.{add_mod, mul_mod}
use did_vc.Field.Congr.{add_mod-lt}
use did_vc.Hex.{normalize_digest_hex32}
use did_vc.Hex.Digest.{IsDigest, HexForm}
use did_vc.Sha256.{sha256_joined_hex}
use did_vc.Sha256.Bounds.{sha256_joined_hex-IsDigest}
use did_vc.Shamir.{poly_eval, poly_loop}
use did_vc.Shamir.Roots.{IsDistinct}
use did_vc.Encode.{pack_y_chunks_hex, split_seed_hex_to_chunks, unpack_y_chunks_hex}
use did_vc.Encode.Seed.{IsSplit, split_seed_hex_to_chunks-IsSplit}
use did_vc.Encode.Pack.{Elements, pack_y_chunks_hex-IsPacked}
use did_vc.Envelope.{ShareEnvelope, sign_share_envelope_demo}
use did_vc.Ttss.{
  SetupArgs, TtssKeyEntry, TtssShareSetupResult, coeff_rows, guardian_loop, sign_all,
  compute_vk_set_hash, canonical_entries, sort_texts, key_entry, wrong_guardian_count,
  ttss_share_nits_shamir,
}
use did_vc.Ttss.Collect.{values_at}
use did_vc.Ttss.Chunks.{Rows}
use did_vc.Ttss.Build.{sign-IsIssued, filled}
use did_vc.Ttss.Setup.{AreBuilt, AreIssued, guardian_loop-Guardians, coeff_rows-Rows}

poly_loop-lt : (cs : List ℕ) (x acc pow_x : ℕ) → acc < 65537 → poly_loop cs x acc pow_x < 65537
unfolding poly_loop
poly_loop-lt [] x acc pow_x h = h
poly_loop-lt (c ∷ cs) x acc pow_x h =
    poly_loop-lt cs x (add_mod acc (mul_mod c pow_x)) (mul_mod pow_x x)
      (add_mod-lt acc (mul_mod c pow_x))

poly_eval-lt : (cs : List ℕ) (x : ℕ) → poly_eval cs x < 65537
unfolding poly_eval
poly_eval-lt cs x = poly_loop-lt cs x 0 1 (omega arith)

values_at-Elements : (coeffs : List (List ℕ)) (x : ℕ) → Elements (values_at coeffs x)
values_at-Elements [] x = tt
values_at-Elements (cs ∷ coeffs) x = (poly_eval-lt cs x, values_at-Elements coeffs x)

length-values_at : (coeffs : List (List ℕ)) (x : ℕ) → length (values_at coeffs x) ≡ length coeffs
length-values_at [] x = refl
length-values_at (cs ∷ coeffs) x = ap suc (length-values_at coeffs x)

-- Packed values of sixteen polynomials have the form of a hex text, and unpack to themselves.
pub packed-values :
    (coeffs : List (List ℕ)) (x : ℕ) (text : Str)
    → length coeffs ≡ 16
    → pack_y_chunks_hex (values_at coeffs x) ≡ ok text
    → HexForm text × (unpack_y_chunks_hex text ≡ ok (values_at coeffs x))
packed-values coeffs x text len packed =
    let p =
      pack_y_chunks_hex-IsPacked (values_at coeffs x) (values_at-Elements coeffs x)
        (length-values_at coeffs x ∙ len) in
    let packs = p.packs in
    let e : p.text ≡ text = cc in
    (
      subst HexForm e p.form,
      subst (λ s. unpack_y_chunks_hex s ≡ ok (values_at coeffs x)) e p.unpacks,
    )

compute_vk_set_hash-IsDigest :
    (entries : List TtssKeyEntry) (vk : Str) → compute_vk_set_hash entries ≡ ok vk → IsDigest vk
unfolding compute_vk_set_hash
compute_vk_set_hash-IsDigest entries vk h =
    let (canon, _, e) =
      bind-ok (canonical_entries entries) (λ c. ok (sha256_joined_hex (sort_texts c))) h in
    let same : sha256_joined_hex (sort_texts canon) ≡ vk = cc in
    subst IsDigest same (sha256_joined_hex-IsDigest (sort_texts canon))

sign_all-AreIssued :
    (a : SetupArgs) (coeffs : List (List ℕ)) (i : ℕ) (envs : List ShareEnvelope) (xs : List ℕ)
    (vk : Str) (outs : List ShareEnvelope)
    → 2 ≤ a.n
    → 2 ≤ a.t
    → a.t ≤ a.n
    → length coeffs ≡ 16
    → IsDigest vk
    → AreBuilt a coeffs i envs xs
    → sign_all vk envs ≡ ok outs
    → AreIssued a coeffs i outs xs
unfolding sign_all
sign_all-AreIssued a coeffs i [] [] vk outs hn ht hle len hv b h =
    let e : [] ≡ outs = cc in rw (← e) tt
sign_all-AreIssued a coeffs i [] (x ∷ xs) vk outs hn ht hle len hv b h = elim b [ ]
sign_all-AreIssued a coeffs i (env ∷ envs) [] vk outs hn ht hle len hv b h = elim b [ ]
sign_all-AreIssued a coeffs i (env ∷ envs) (x ∷ xs) vk outs hn ht hle len hv b h =
    let (out, got, h1) =
      bind-ok (sign_share_envelope_demo (filled vk env) env.meta.dealer_pk_hex) _ h in
    let (rest, got_rest, h2) = bind-ok (sign_all vk envs) _ h1 in
    let e : out ∷ rest ≡ outs = cc in
    let form = (packed-values coeffs x env.share.yi_hex len b.0.packed).0 in
    rw (← e) (
      sign-IsIssued a hn ht hle coeffs i x env vk out b.0 form hv got,
      sign_all-AreIssued a coeffs (suc i) envs xs vk rest hn ht hle len hv b.1 got_rest,
    )

-- A setup that succeeds.
pub record IsSetup (a : SetupArgs) (setup : TtssShareSetupResult) : Type 0 where
  pub n_two : 2 ≤ a.n
  pub t_two : 2 ≤ a.t
  pub t_le_n : a.t ≤ a.n
  pub chunks : List ℕ
  pub split : IsSplit a.srec_seed_hex chunks
  pub coeffs : List (List ℕ)
  pub rows : Rows a.t coeffs chunks
  pub row_count : length coeffs ≡ 16
  pub xs : List ℕ
  pub distinct : IsDistinct xs
  pub place_count : length xs ≡ a.n
  pub issued : AreIssued a coeffs 0 setup.share_envelopes xs

-- A setup that succeeds has issued envelopes at different places of polynomials of degree below `t`
-- that start with the chunks of the seed.
pub ttss_share-IsSetup :
    (a : SetupArgs) (setup : TtssShareSetupResult)
    → ttss_share_nits_shamir a ≡ ok setup
    → IsSetup a setup
unfolding ttss_share_nits_shamir
ttss_share-IsSetup a setup h =
    let (_, bounds, h1) =
      bind-ok (require (not (ltb a.n 2 || ltb a.t 2 || ltb a.n a.t)) (codes "bad_threshold")) _ h in
    let (_, _, h2) =
      bind-ok (require (not (wrong_guardian_count a)) (codes "guardian_count_mismatch")) _ h1 in
    let (rho, _, h3) = bind-ok (normalize_digest_hex32 a.rho_seed_hex) _ h2 in
    let (chunks, got_chunks, h4) = bind-ok (split_seed_hex_to_chunks a.srec_seed_hex) _ h3 in
    let (coeffs, got_coeffs, h5) = bind-ok (coeff_rows chunks 0 a) _ h4 in
    let rho_commit = sha256_joined_hex (codes "TTSS-RHO-COMMIT" ∷ rho ∷ []) in
    let (envs, got_envs, h6) = bind-ok (guardian_loop a.n 0 a rho_commit coeffs []) _ h5 in
    let (vk, got_vk, h7) = bind-ok (compute_vk_set_hash (map key_entry envs)) _ h6 in
    let (signed, got_signed, h8) = bind-ok (sign_all vk envs) _ h7 in
    let (hn, ht, hle) = in_bounds a.n a.t (require-ok _ _ bounds) in
    let split = split_seed_hex_to_chunks-IsSplit a.srec_seed_hex chunks got_chunks in
    let (rows, count) = coeff_rows-Rows chunks 0 a coeffs split.fits ht got_coeffs in
    let g =
      guardian_loop-Guardians a.n 0 a rho_commit coeffs [] envs (sha256_joined_hex-IsDigest _)
        got_envs in
    let len = count ∙ split.count in
    let same : signed ≡ setup.share_envelopes = shares h8 in
    record {
      n_two = hn;
      t_two = ht;
      t_le_n = hle;
      chunks = chunks;
      split = split;
      coeffs = coeffs;
      rows = rows;
      row_count = len;
      xs = g.xs;
      distinct = g.distinct;
      place_count = g.count;
      issued =
          subst (λ es. AreIssued a coeffs 0 es g.xs) same
            (sign_all-AreIssued a coeffs 0 envs g.xs vk signed hn ht hle len
              (compute_vk_set_hash-IsDigest _ vk got_vk) g.built got_signed);
    }
  where
    in_bounds : (n t : ℕ) → not (ltb n 2 || ltb t 2 || ltb n t) ≡ true → (2 ≤ n) × (2 ≤ t) × (t ≤ n)
    in_bounds n t h = ground arith

    shares_or : Result TtssShareSetupResult → List ShareEnvelope
    shares_or (ok s) = s.share_envelopes
    shares_or (err e) = []

    shares :
        {s : TtssShareSetupResult} → ok s ≡ ok setup → s.share_envelopes ≡ setup.share_envelopes
    shares e = ap shares_or e
