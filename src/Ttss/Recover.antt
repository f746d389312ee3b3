-- ===== src/Ttss/Recover.antt =====
-- `ttss_rec_nits_shamir` of cpp/ttss_nits_shamir.cpp. `verify_err` repeats the result's `err` and is
-- left out.
use did_vc.Base.{
  ℕ, zero, suc, Str, codes, str_eq, Bool, true, false, not, ◌||◌, ltb, ◌==◌, if◌then◌else◌, List,
  [], ◌∷◌, ◌++◌, length, get_or, any, map, Result, ok, err, ◌>>=◌,
}
use did_vc.Shamir.{lagrange_interpolate_at_zero}
use did_vc.Encode.{
  field_from_hex, normalize_field_hex_bn254, unpack_y_chunks_hex, chunks_to_seed_hex, chunk_count,
}
use did_vc.Envelope.{ShareEnvelope, Verdict, valid, invalid, verify_share_envelope_demo}

-- `TTSSRecoverResult`.
pub record TtssRecoverResult : Type 0 where
  pub is_ok : Bool
  pub srec_seed_hex : Str
  pub share_count_used : ℕ
  pub error : Str

-- `out.err = e; return out;`.
abbrev pub failure : Str → TtssRecoverResult
failure e = record { is_ok = false; srec_seed_hex = []; share_count_used = 0; error = e }

abbrev pub Point : Type 0
Point = ℕ × List ℕ

-- What one round of the loop over the shares comes to.
pub data Round : Type 0 where
  refused : Str → Round
  accepted : Str → Point → Round

-- What the whole loop comes to.
pub data Collected : Type 0 where
  failed : Str → Collected
  collected : List Point → Collected

unfoldable pub header_differs : ShareEnvelope → ShareEnvelope → Bool
header_differs env first =
    not (str_eq env.scheme first.scheme)
    || not (str_eq env.id_hash first.id_hash)
    || not (env.ver == first.ver)
    || not (env.epoch == first.epoch)
    || not (env.n == first.n)
    || not (env.t == first.t)
    || not (str_eq env.secret_type first.secret_type)

-- The body of the `try`.
unfoldable pub read_point : ShareEnvelope → Result Point
read_point env = do
  x ← field_from_hex env.share.xi_hex
  ys ← unpack_y_chunks_hex env.share.yi_hex
  ok (x, ys)

abbrev pub caught : Str → Result Point → Round
caught xi_norm (err e) = refused (codes "bad_y_encoding:" ++ e)
caught xi_norm (ok p) = accepted xi_norm p

-- One share whose signature holds.
unfoldable pub check_share : ShareEnvelope → ShareEnvelope → List Str → Result Round
check_share first env seen_x =
    if header_differs env first
    then ok (refused (codes "share_header_mismatch"))
    else if not env.active
    then ok (refused (codes "inactive_share_present"))
    else do
      xi_norm ← normalize_field_hex_bn254 env.share.xi_hex
      ok (
          if any (λ s. str_eq s xi_norm) seen_x
          then refused (codes "duplicate_x")
          else caught xi_norm (read_point env))

abbrev pub judge : Verdict → ShareEnvelope → ShareEnvelope → List Str → Result Round
judge (invalid e) first env seen_x = ok (refused e)
judge valid first env seen_x = check_share first env seen_x

unfoldable pub share_round : ShareEnvelope → ShareEnvelope → List Str → Result Round
share_round first env seen_x = do v ← verify_share_envelope_demo env; judge v first env seen_x

-- The loop over the shares, which stops when it has `t` points.
unfoldable pub collect :
    ShareEnvelope → List ShareEnvelope → List Str → List Point → Result Collected
collect first [] seen_x points = ok (collected points)
collect first (env ∷ shares) seen_x points = share_round first env seen_x >>= λ round. elim round [
  | refused e ↦ ok (failed e)
  | accepted xi p ↦
      let rest = collect first shares (xi ∷ seen_x) (points ++ p ∷ []) in
      if length (points ++ p ∷ []) == first.t then ok (collected (points ++ p ∷ [])) else rest
]

-- The points of the chunk `c`.
abbrev pub chunk_points : ℕ → List Point → List (ℕ × ℕ)
chunk_points c points = map (λ (p : Point). (p.0, get_or p.1 c 0)) points

-- The loop over the chunks, from `c` on; a chunk of more than 16 bits ends it.
unfoldable pub recover_chunks : ℕ → ℕ → List Point → Result (Bool × List ℕ)
recover_chunks zero c points = ok (true, [])
recover_chunks (suc left) c points =
    let rest = recover_chunks left (suc c) points in
    lagrange_interpolate_at_zero (chunk_points c points) >>= λ v.
    if ltb 0xFFFF v then ok (false, []) else (rest >>= λ r. ok (r.0, v ∷ r.1))

-- The end of the recovery, with the points collected.
unfoldable pub finish_recovery : ℕ → Collected → Result TtssRecoverResult
finish_recovery t (failed e) = ok (failure e)
finish_recovery t (collected points) =
    if ltb (length points) t then ok (failure (codes "not_enough_distinct_points")) else do
      (fits, chunks) ← recover_chunks chunk_count 0 points
      if fits
          then (do
            seed ← chunks_to_seed_hex chunks
            ok (record { is_ok = true; srec_seed_hex = seed; share_count_used = t; error = [] }))
          else ok (failure (codes "recovered_chunk_out_of_range"))

abbrev pub after_first : Verdict → ShareEnvelope → List ShareEnvelope → Result TtssRecoverResult
after_first (invalid e) first shares = ok (failure e)
after_first valid first shares =
    if ltb (length shares) first.t
    then ok (failure (codes "insufficient_shares"))
    else do points ← collect first shares [] []; finish_recovery first.t points

unfoldable pub ttss_rec_nits_shamir : List ShareEnvelope → Result TtssRecoverResult
ttss_rec_nits_shamir [] = ok (failure (codes "no_shares"))
ttss_rec_nits_shamir (first ∷ shares) = do
  v ← verify_share_envelope_demo first
  after_first v first (first ∷ shares)
