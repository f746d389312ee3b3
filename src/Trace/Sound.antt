-- ===== src/Trace/Sound.antt =====
-- What an accepted trace of cpp/ttss_trace.cpp shows.
use did_vc.Base.{
  ℕ, ◌≤◌, Str, codes, str_eq, str_eq_iff, Bool, true, false, not, ◌||◌, ◌==◌, if◌then◌else◌, List,
  [], ◌∷◌, length, any, Option, none, some, Result, ok, ◌>>=◌, All, ◌≡◌, ◌≢◌, refl, ap, ◌∙◌, sym,
  subst, arith, bind-ok, Bool-cases, inl, inr,
}
use did_vc.Text.{lower_copy}
use did_vc.Hex.{normalize_digest_hex32}
use did_vc.Hex.Digest.{IsDigest, IsDigest-lower_copy, normalize_digest_hex32-ok}
use did_vc.Ttss.Build.{compute_ui-IsDigest}
use did_vc.Trace.Keys.{IsLastEntry, vk_find-IsLastEntry}
use did_vc.Envelope.{Verdict, valid, invalid}
use did_vc.Ttss.{TtssKeyEntry, compute_ui_hex_from_x}
use did_vc.Trace.{
  TraceProof, TraceMeta, TraceSessionDescriptor, TraceResult, vk_by_index, vk_find, check_root,
  go_on, tverify_loop, ttss_tverify_nits_shamir, ttss_trace_from_extracted_roots, normalize_roots,
  accused_from_roots, conclude, blank_result,
}

-- The root's place text is the one of the guardian's last key entry.
abbrev pub Matches : List TtssKeyEntry → ℕ → Str → Type 0
Matches entries idx root =
    (ui : Str) × (i : IsLastEntry entries idx ui) × (compute_ui_hex_from_x root ≡ ok ui)

-- The accused are matched by the roots one by one, and none occurs twice.
abbrev pub Accused : List TtssKeyEntry → List ℕ → List Str → Type 0
Accused entries [] [] = Unit
Accused entries [] (root ∷ roots) = ⊥
Accused entries (idx ∷ accused) [] = ⊥
Accused entries (idx ∷ accused) (root ∷ roots) =
    Matches entries idx root × All (λ j. idx ≢ j) accused × Accused entries accused roots

check_root-valid :
    (entries : List TtssKeyEntry) (vk : List (ℕ × Str)) (idx : ℕ) (root : Str)
    → vk_by_index entries ≡ ok vk
    → check_root (vk_find idx vk) root ≡ ok valid
    → Matches entries idx root
check_root-valid entries vk idx root built h = go (vk_find idx vk) refl h
  where
    plain :
        (ui root_ui : Str)
        → IsDigest ui
        → IsDigest root_ui
        → lower_copy root_ui ≡ lower_copy ui
        → root_ui ≡ ui
    plain ui root_ui d e same =
        sym (IsDigest-lower_copy root_ui e) ∙ same ∙ IsDigest-lower_copy ui d

    texts :
        (ui root_ui : Str) (b : Bool)
        → str_eq (lower_copy root_ui) (lower_copy ui) ≡ b
        → IsLastEntry entries idx ui
        → compute_ui_hex_from_x root ≡ ok root_ui
        → ok (if not b then invalid (codes "root_ui_mismatch") else valid) ≡ ok valid
        → Matches entries idx root
    texts ui root_ui true e i c k =
        let same =
          plain ui root_ui (normalize_digest_hex32-ok i.entry.ui_hex ui i.normal)
            (compute_ui-IsDigest root root_ui c) ((str_eq_iff _ _).0 e) in
        (ui, i, c ∙ ap ok same)
    texts ui root_ui false e i c k = absurd (cc)

    go :
        (o : Option Str)
        → vk_find idx vk ≡ o
        → check_root o root ≡ ok valid
        → Matches entries idx root
    go none e k = absurd (cc)
    go (some ui) e k =
        let (root_ui, c, k1) = bind-ok (compute_ui_hex_from_x root) _ k in
        texts ui root_ui (str_eq (lower_copy root_ui) (lower_copy ui)) refl
          (vk_find-IsLastEntry entries vk idx ui built e) c k1

abbrev Fresh : List ℕ → List ℕ → Type 0
Fresh seen accused = All (λ i. any (λ j. j == i) seen ≡ false) accused

Fresh-head :
    (idx : ℕ) (seen accused : List ℕ) → Fresh (idx ∷ seen) accused → All (λ j. idx ≢ j) accused
Fresh-head idx seen [] f = tt
Fresh-head idx seen (j ∷ accused) f = (ne idx j _ f.0, Fresh-head idx seen accused f.1)
  where
    ne : (a b : ℕ) (c : Bool) → ((a == b) || c) ≡ false → a ≢ b
    ne a b c h = ground arith

Fresh-tail : (idx : ℕ) (seen accused : List ℕ) → Fresh (idx ∷ seen) accused → Fresh seen accused
Fresh-tail idx seen [] f = tt
Fresh-tail idx seen (j ∷ accused) f = (right _ _ f.0, Fresh-tail idx seen accused f.1)
  where
    right : (a b : Bool) → (a || b) ≡ false → b ≡ false
    right a b h = ground arith

tverify_loop-Accused :
    (entries : List TtssKeyEntry) (vk : List (ℕ × Str)) (seen accused : List ℕ) (roots : List Str)
    → vk_by_index entries ≡ ok vk
    → length accused ≡ length roots
    → tverify_loop vk seen accused roots ≡ ok valid
    → Accused entries accused roots × Fresh seen accused
unfolding tverify_loop
tverify_loop-Accused entries vk seen [] [] built len h = (tt, tt)
tverify_loop-Accused entries vk seen [] (root ∷ roots) built len h = absurd (omega arith)
tverify_loop-Accused entries vk seen (idx ∷ accused) [] built len h = absurd (omega arith)
tverify_loop-Accused entries vk seen (idx ∷ accused) (root ∷ roots) built len h =
    elim (Bool-cases (any (λ i. i == idx) seen)) [
      | inl twice ↦
          let h' : ok (invalid (codes "duplicate_accused_index")) ≡ ok valid = rw twice at h in
          absurd (cc)
      | inr fresh ↦
          let h' : (check_root (vk_find idx vk) root >>= λ v.
          go_on v (tverify_loop vk (idx ∷ seen) accused roots))
              ≡ ok valid =
            rw fresh at h in
          let (v, got, k) = bind-ok (check_root (vk_find idx vk) root) _ h' in
          let (is_valid, later) = behind v (tverify_loop vk (idx ∷ seen) accused roots) k in
          let (acc, fr) =
            tverify_loop-Accused entries vk (idx ∷ seen) accused roots built (omega arith) later in
          (
            (
              check_root-valid entries vk idx root built (got ∙ ap ok is_valid),
              Fresh-head idx seen accused fr,
              acc,
            ),
            (fresh, Fresh-tail idx seen accused fr),
          )
    ]
  where
    behind :
        (v : Verdict) (rest : Result Verdict)
        → go_on v rest ≡ ok valid
        → (v ≡ valid) × (rest ≡ ok valid)
    behind valid rest k = (refl, k)
    behind (invalid e) rest k = absurd (cc)

-- A proof that is accepted accuses someone, no one twice, and has for each accused a root whose place
-- text is the one of the last key entry with the accused's index.
pub ttss_tverify-Accused :
    (vk_entries : List TtssKeyEntry) (accused_set : List ℕ) (proof : TraceProof)
    → ttss_tverify_nits_shamir vk_entries accused_set proof ≡ ok valid
    → (1 ≤ length accused_set) × Accused vk_entries accused_set proof.witness_roots_hex
unfolding ttss_tverify_nits_shamir
ttss_tverify-Accused vk_entries accused_set proof h =
    go (not (str_eq proof.proof_type (codes "nits_roots"))) (length accused_set)
      (length proof.witness_roots_hex) refl refl h
  where
    go :
        (a : Bool) (m n : ℕ)
        → length accused_set ≡ m
        → length proof.witness_roots_hex ≡ n
        → (if a
            then ok (invalid (codes "unsupported_proof_type"))
            else if not (m == n)
            then ok (invalid (codes "arity_mismatch"))
            else if m == 0
            then ok (invalid (codes "empty_accused_set"))
            else (do
              vk ← vk_by_index vk_entries
              tverify_loop vk [] accused_set proof.witness_roots_hex))
          ≡ ok valid
        → (1 ≤ length accused_set) × Accused vk_entries accused_set proof.witness_roots_hex
    go true m n p q k = absurd (cc)
    go false m n p q k = elim (Bool-cases (m == n)) [
      | inr differ ↦
          let k' : ok (invalid (codes "arity_mismatch")) ≡ ok valid = rw differ at k in absurd (cc)
      | inl same ↦ elim (Bool-cases (m == 0)) [
        | inl none_left ↦
            let k' : ok (invalid (codes "empty_accused_set")) ≡ ok valid =
              rw (same, none_left) at k in
            absurd (cc)
        | inr some_left ↦
            let k' : (vk_by_index vk_entries >>= λ vk.
            tverify_loop vk [] accused_set proof.witness_roots_hex)
                ≡ ok valid =
              rw (same, some_left) at k in
            let (vk, got, l) = bind-ok (vk_by_index vk_entries) _ k' in
            let e : m ≡ n = ground arith in
            let one : 1 ≤ m = ground arith in
            (
              omega arith,
              (tverify_loop-Accused vk_entries vk [] accused_set proof.witness_roots_hex got
                  (omega arith) l).0,
            )
      ]
    ]

-- A trace that succeeds accuses someone, no one twice, and its proof has for each accused a root whose
-- place text is the one of the last key entry with the accused's index.
pub ttss_trace-Accused :
    (tk_entries : List TtssKeyEntry) (desc : TraceSessionDescriptor) (roots_hex : List Str)
    (meta : TraceMeta) (r : TraceResult)
    → ttss_trace_from_extracted_roots tk_entries desc roots_hex meta ≡ ok r
    → r.is_ok ≡ true
    → (1 ≤ length r.accused_set) × Accused tk_entries r.accused_set r.proof.witness_roots_hex
unfolding ttss_trace_from_extracted_roots
ttss_trace-Accused tk_entries desc roots_hex meta r h good =
    let (id_hash, _, h1) = bind-ok (normalize_digest_hex32 desc.id_hash) _ h in
    go id_hash (length roots_hex == 0) h1
  where
    Claim : TraceResult → Type 0
    Claim r =
        (1 ≤ length r.accused_set) × Accused tk_entries r.accused_set r.proof.witness_roots_hex

    by_verdict :
        (base : TraceResult) (v : Verdict)
        → base.is_ok ≡ false
        → ttss_tverify_nits_shamir tk_entries base.accused_set base.proof ≡ ok v
        → conclude v base ≡ r
        → Claim r
    by_verdict base valid off got e =
        subst Claim e (ttss_tverify-Accused tk_entries base.accused_set base.proof got)
    by_verdict base (invalid x) off got e =
        let q : base.is_ok ≡ r.is_ok = ap (λ (z : TraceResult). z.is_ok) e in absurd (cc)

    go :
        (id_hash : Str) (b : Bool)
        → (if b
            then ok (record (blank_result id_hash desc meta) { error = codes "no_extracted_roots" })
            else (do
              roots ← normalize_roots roots_hex
              accused ← accused_from_roots tk_entries roots
              v ←
                  ttss_tverify_nits_shamir tk_entries accused
                    (record { proof_type = codes "nits_roots"; witness_roots_hex = roots })
              ok (
                  conclude v (record (blank_result id_hash desc meta) {
                    accused_set = accused;
                    proof = record { proof_type = codes "nits_roots"; witness_roots_hex = roots };
                  }))))
          ≡ ok r
        → Claim r
    go id_hash true k =
        let e : record (blank_result id_hash desc meta) { error = codes "no_extracted_roots" } ≡ r =
          cc in
        let q : false ≡ r.is_ok = ap (λ (z : TraceResult). z.is_ok) e in absurd (cc)
    go id_hash false k =
        let (roots, _, k1) = bind-ok (normalize_roots roots_hex) _ k in
        let (accused, _, k2) = bind-ok (accused_from_roots tk_entries roots) _ k1 in
        let proof : TraceProof = record {
          proof_type = codes "nits_roots";
          witness_roots_hex = roots;
        } in
        let (v, got, k3) = bind-ok (ttss_tverify_nits_shamir tk_entries accused proof) _ k2 in
        let base : TraceResult = record (blank_result id_hash desc meta) {
          accused_set = accused;
          proof = proof;
        } in
        by_verdict base v refl got (cc)
