-- ===== src/Ttss/Chunks.antt =====
-- The recovery from collected points: every chunk is interpolated to its constant coefficient.
use did_vc.Base.{
  ℕ, zero, suc, ◌<◌, ◌≤◌, Str, true, false, List, [], ltb, ◌∷◌, length, take, drop, get_or, map, ok,
  All, ◌≡◌, ◌≢◌, refl, ap, ap₂, ◌∙◌, sym, arith,
}
use did_vc.Shamir.{poly_eval, lagrange_interpolate_at_zero}
use did_vc.Shamir.Roots.{IsDistinct}
use did_vc.Shamir.Lagrange.{sample}
use did_vc.Shamir.Correct.{lagrange_interpolate_at_zero-poly_eval}
use did_vc.Encode.{chunks_to_seed_hex}
use did_vc.Envelope.{ShareEnvelope}
use did_vc.Ttss.Recover.{
  TtssRecoverResult, chunk_points, recover_chunks, finish_recovery, collected, ttss_rec_nits_shamir,
}
use did_vc.Ttss.Collect.{values_at, point_at, AreShares, collect-take, Apart}

-- The rows of coefficients: a chunk of 16 bits, and fewer than `t` more coefficients.
abbrev pub Rows : ℕ → List (List ℕ) → List ℕ → Type 0
Rows t [] [] = Unit
Rows t [] (c ∷ cs) = ⊥
Rows t (row ∷ rows) [] = ⊥
Rows t (row ∷ rows) (c ∷ cs) =
    ((tail : List ℕ) × (row ≡ c ∷ tail) × (length row ≤ t)) × (c ≤ 0xFFFF) × Rows t rows cs

get_or-values_at :
    (coeffs : List (List ℕ)) (x c : ℕ)
    → c < length coeffs
    → get_or (values_at coeffs x) c 0 ≡ poly_eval (get_or coeffs c []) x
get_or-values_at [] x c h = absurd (omega arith)
get_or-values_at (cs ∷ coeffs) x zero h = refl
get_or-values_at (cs ∷ coeffs) x (suc c) h = get_or-values_at coeffs x c (omega arith)

chunk_points-sample :
    (coeffs : List (List ℕ)) (c : ℕ) (xs : List ℕ)
    → c < length coeffs
    → chunk_points c (map (point_at coeffs) xs) ≡ sample (poly_eval (get_or coeffs c [])) xs
chunk_points-sample coeffs c [] h = refl
chunk_points-sample coeffs c (x ∷ xs) h =
    ap₂ (λ (v : ℕ) (t : List (ℕ × ℕ)). (x, v) ∷ t) (get_or-values_at coeffs x c h)
      (chunk_points-sample coeffs c xs h)

drop-row :
    (c : ℕ) (coeffs : List (List ℕ)) (row : List ℕ) (rows : List (List ℕ))
    → drop c coeffs ≡ row ∷ rows
    → (get_or coeffs c [] ≡ row) × (drop (suc c) coeffs ≡ rows) × (c < length coeffs)
drop-row zero [] row rows e = absurd (cc)
drop-row zero (r ∷ coeffs) row rows e = (cc, cc, omega arith)
drop-row (suc c) [] row rows e = absurd (cc)
drop-row (suc c) (r ∷ coeffs) row rows e =
    let (a, b, l) = drop-row c coeffs row rows e in (a, b, omega arith)

interpolate_row :
    (coeffs : List (List ℕ)) (c chunk : ℕ) (row tail : List ℕ) (xs : List ℕ)
    → get_or coeffs c [] ≡ row
    → row ≡ chunk ∷ tail
    → c < length coeffs
    → chunk ≤ 0xFFFF
    → length row ≤ length xs
    → IsDistinct xs
    → lagrange_interpolate_at_zero (chunk_points c (map (point_at coeffs) xs)) ≡ ok chunk
interpolate_row coeffs c chunk row tail xs at shape inside small le d =
    ap lagrange_interpolate_at_zero (chunk_points-sample coeffs c xs inside)
    ∙ ap (λ (r : List ℕ). lagrange_interpolate_at_zero (sample (poly_eval r) xs)) (at ∙ shape)
    ∙ lagrange_interpolate_at_zero-poly_eval chunk tail xs (omega arith) d
        (omega (arith, ap (λ (r : List ℕ). length r) shape))

-- From the chunk `c` on, every chunk comes back.
recover_chunks-Rows :
    (coeffs : List (List ℕ)) (xs : List ℕ) (c : ℕ) (rows : List (List ℕ)) (chunks : List ℕ)
    → IsDistinct xs
    → drop c coeffs ≡ rows
    → Rows (length xs) rows chunks
    → recover_chunks (length rows) c (map (point_at coeffs) xs) ≡ ok (true, chunks)
unfolding recover_chunks
recover_chunks-Rows coeffs xs c [] [] d e r = refl
recover_chunks-Rows coeffs xs c [] (k ∷ ks) d e r = elim r [ ]
recover_chunks-Rows coeffs xs c (row ∷ rows) [] d e r = elim r [ ]
recover_chunks-Rows coeffs xs c (row ∷ rows) (k ∷ ks) d e r =
    let (at, rest, inside) = drop-row c coeffs row rows e in
    let ((tail, shape, le), small, more) = r in
    rw (
      interpolate_row coeffs c k row tail xs at shape inside small le d,
      fits k small,
      recover_chunks-Rows coeffs xs (suc c) rows ks d rest more,
    )
  where
    fits : (k : ℕ) → k ≤ 0xFFFF → ltb 0xFFFF k ≡ false
    fits k h = ground arith

-- A recovery that succeeds.
abbrev pub success : Str → ℕ → TtssRecoverResult
success seed t = record { is_ok = true; srec_seed_hex = seed; share_count_used = t; error = [] }

finish_recovery-Rows :
    (t : ℕ) (coeffs : List (List ℕ)) (chunks xs : List ℕ) (seed : Str)
    → IsDistinct xs
    → length xs ≡ t
    → length coeffs ≡ 16
    → Rows t coeffs chunks
    → chunks_to_seed_hex chunks ≡ ok seed
    → finish_recovery t (collected (map (point_at coeffs) xs)) ≡ ok (success seed t)
unfolding finish_recovery
finish_recovery-Rows t coeffs chunks xs seed d len count rows joins = rw (
  enough (length (map (point_at coeffs) xs)) t (length-points xs ∙ len),
  ap (λ (k : ℕ). recover_chunks k 0 (map (point_at coeffs) xs)) (sym count)
      ∙ recover_chunks-Rows coeffs xs 0 coeffs chunks d refl (rw len rows),
  joins,
)
  where
    enough : (a b : ℕ) → a ≡ b → ltb a b ≡ false
    enough a b e = ground arith

    length-points : (xs : List ℕ) → length (map (point_at coeffs) xs) ≡ length xs
    length-points [] = refl
    length-points (x ∷ xs) = ap suc (length-points xs)

IsDistinct-take : (n : ℕ) (xs : List ℕ) → IsDistinct xs → IsDistinct (take n xs)
IsDistinct-take zero xs d = tt
IsDistinct-take (suc n) [] d = tt
IsDistinct-take (suc n) (x ∷ xs) d = (d.0, All-take n xs d.1, IsDistinct-take n xs d.2)
  where
    All-take : (n : ℕ) (xs : List ℕ) → All (λ y. x ≢ y) xs → All (λ y. x ≢ y) (take n xs)
    All-take zero xs a = tt
    All-take (suc n) [] a = tt
    All-take (suc n) (y ∷ xs) a = (a.0, All-take n xs a.1)

length-take_le : (n : ℕ) (xs : List ℕ) → n ≤ length xs → length (take n xs) ≡ n
length-take_le zero xs h = refl
length-take_le (suc n) [] h = absurd (omega arith)
length-take_le (suc n) (x ∷ xs) h = ap suc (length-take_le n xs (omega arith))

no_use_yet : (xs : List ℕ) → All (λ x. Apart x []) xs
no_use_yet [] = tt
no_use_yet (x ∷ xs) = (tt, no_use_yet xs)

AreShares-length :
    (first : ShareEnvelope) (coeffs : List (List ℕ)) (es : List ShareEnvelope) (xs : List ℕ)
    → AreShares first coeffs es xs
    → length es ≡ length xs
AreShares-length first coeffs [] [] s = refl
AreShares-length first coeffs [] (x ∷ xs) s = elim s [ ]
AreShares-length first coeffs (e ∷ es) [] s = elim s [ ]
AreShares-length first coeffs (e ∷ es) (x ∷ xs) s = ap suc (AreShares-length first coeffs es xs s.1)

-- At least `t` shares of one setup, at distinct places, recover the seed that its chunks join to.
pub ttss_rec-AreShares :
    (first : ShareEnvelope) (shares : List ShareEnvelope) (coeffs : List (List ℕ))
    (chunks xs : List ℕ) (seed : Str) (k : ℕ)
    → AreShares first coeffs (first ∷ shares) xs
    → IsDistinct xs
    → first.t ≡ suc k
    → suc k ≤ length xs
    → length coeffs ≡ 16
    → Rows first.t coeffs chunks
    → chunks_to_seed_hex chunks ≡ ok seed
    → ttss_rec_nits_shamir (first ∷ shares) ≡ ok (success seed first.t)
unfolding ttss_rec_nits_shamir
ttss_rec-AreShares first shares coeffs chunks [] seed k s d e le count rows joins = elim s [ ]
ttss_rec-AreShares first shares coeffs chunks (x ∷ xs) seed k s d e le count rows joins =
    let es : List ShareEnvelope = first ∷ shares in
    let all_collected =
      collect-take first coeffs k es (x ∷ xs) [] [] s d (no_use_yet (x ∷ xs)) (omega arith) le in
    let finished =
      finish_recovery-Rows first.t coeffs chunks (take (suc k) (x ∷ xs)) seed
        (IsDistinct-take (suc k) (x ∷ xs) d) (length-take_le (suc k) (x ∷ xs) le ∙ sym e) count rows
        joins in
    rw
      (
        s.0.verified,
        enough (suc (length shares)) first.t
            (omega (arith, AreShares-length first coeffs es (x ∷ xs) s)),
        all_collected,
      )
      finished
  where
    enough : (a b : ℕ) → b ≤ a → ltb a b ≡ false
    enough a b h = ground arith
