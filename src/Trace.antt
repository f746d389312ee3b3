-- ===== src/Trace.antt =====
-- Tracing of cpp/ttss_trace.cpp, with the types of cpp/ttss_trace.hpp. The floating-point fields are
-- left out: `delta` is only passed on, and `oracleSuccessRate` is the quotient of `success_count` and
-- `query_count`.
mod Keys
pub mod Sound
mod Tests
use did_vc.Base.{
  ℕ, zero, suc, ◌+◌, ◌-◌, Str, codes, str_eq, is_empty, Bool, true, false, not, ◌&&◌, ◌||◌, ltb,
  ◌==◌, if◌then◌else◌, List, [], ◌∷◌, ◌++◌, length, any, Option, none, some, Result, ok, err, ◌>>=◌,
  to_decimal,
}
use did_vc.Text.{lower_copy}
use did_vc.Hex.{normalize_digest_hex32}
use did_vc.Sha256.{sha256_joined_hex}
use did_vc.Encode.{normalize_field_hex_bn254}
use did_vc.Envelope.{ShareEnvelope, Verdict, valid, invalid}
use did_vc.Ttss.{TtssKeyEntry, compute_ui_hex_from_x, str_lt, sort_texts}

pub record TraceQueryRequest : Type 0 where
  pub query_id : Str
  pub honest_shares : List ShareEnvelope

pub record TraceQueryResponse : Type 0 where
  pub is_ok : Bool
  pub result_type : Str
  pub srec_seed_hex : Str
  pub debug_candidate_roots_hex : List Str
  pub error : Str

pub record TraceProof : Type 0 where
  pub proof_type : Str
  pub witness_roots_hex : List Str

pub record TraceMeta : Type 0 where
  pub guessed_f : ℕ
  pub query_count : ℕ
  pub candidate_polynomial_count : ℕ
  pub success_count : ℕ
  pub transcript_hash : Str
  pub note : Str

pub record TraceSessionDescriptor : Type 0 where
  pub id_hash : Str
  pub ver : ℕ
  pub epoch : ℕ
  pub n : ℕ
  pub t : ℕ

pub record TraceOptions : Type 0 where
  pub max_queries : ℕ
  pub challenge_share_count : ℕ
  pub require_oracle_roots : Bool

pub record TraceResult : Type 0 where
  pub is_ok : Bool
  pub id_hash : Str
  pub ver : ℕ
  pub epoch : ℕ
  pub n : ℕ
  pub t : ℕ
  pub accused_set : List ℕ
  pub proof : TraceProof
  pub trace_meta : TraceMeta
  pub error : Str

-- The roots of one response, each behind a comma.
unfoldable pub listed_roots : List Str → Result Str
listed_roots [] = ok []
listed_roots (root ∷ roots) = do
  norm ← normalize_field_hex_bn254 root
  rest ← listed_roots roots
  ok (norm ++ b',' ∷ rest)

unfoldable pub transcript_parts : List TraceQueryResponse → Result (List Str)
transcript_parts [] = ok []
transcript_parts (r ∷ responses) = do
  roots ← listed_roots r.debug_candidate_roots_hex
  rest ← transcript_parts responses
  ok (
      ((if r.is_ok then codes "1" else codes "0")
        ++ b'|' ∷ (r.result_type ++ b'|' ∷ (r.srec_seed_hex ++ b'|' ∷ (roots ++ b'|' ∷ r.error))))
      ∷ rest)

unfoldable pub transcript_hash_of : List TraceQueryResponse → Result Str
transcript_hash_of responses = do parts ← transcript_parts responses; ok (sha256_joined_hex parts)

-- The inner loop: the entries with the place's text; `accused` also stands for the set `seen`.
unfoldable pub accuse_entries : Str → List TtssKeyEntry → List ℕ → Result (List ℕ)
accuse_entries ui [] accused = ok accused
accuse_entries ui (entry ∷ entries) accused = do
  a ← normalize_digest_hex32 entry.ui_hex
  b ← normalize_digest_hex32 ui
  accuse_entries ui entries (
      if str_eq (lower_copy a) (lower_copy b) && not (any (λ i. i == entry.guardian_index) accused)
      then accused ++ entry.guardian_index ∷ []
      else accused)

unfoldable pub accuse_roots : List TtssKeyEntry → List Str → List ℕ → Result (List ℕ)
accuse_roots tk_entries [] accused = ok accused
accuse_roots tk_entries (root ∷ roots) accused = do
  ui ← compute_ui_hex_from_x root
  more ← accuse_entries ui tk_entries accused
  accuse_roots tk_entries roots more

-- `std::sort` on the indices.
unfoldable pub insert_number : ℕ → List ℕ → List ℕ
insert_number i [] = i ∷ []
insert_number i (j ∷ js) = if ltb j i then j ∷ insert_number i js else i ∷ j ∷ js

unfoldable pub sort_numbers : List ℕ → List ℕ
sort_numbers [] = []
sort_numbers (i ∷ is) = insert_number i (sort_numbers is)

unfoldable pub accused_from_roots : List TtssKeyEntry → List Str → Result (List ℕ)
accused_from_roots tk_entries roots_hex = do
  accused ← accuse_roots tk_entries roots_hex []
  ok (sort_numbers accused)

-- `vk_by_index`, in the order of the assignments.
unfoldable pub vk_by_index : List TtssKeyEntry → Result (List (ℕ × Str))
vk_by_index [] = ok []
vk_by_index (e ∷ entries) = do
  ui ← normalize_digest_hex32 e.ui_hex
  rest ← vk_by_index entries
  ok ((e.guardian_index, ui) ∷ rest)

abbrev or_else : Option Str → Bool → Str → Option Str
or_else (some s) here ui = some s
or_else none here ui = if here then some ui else none

-- The last assignment to an index counts.
unfoldable pub vk_find : ℕ → List (ℕ × Str) → Option Str
vk_find idx [] = none
vk_find idx ((i, ui) ∷ m) = or_else (vk_find idx m) (i == idx) ui

-- One round of the check behind the lookup.
abbrev pub check_root : Option Str → Str → Result Verdict
check_root none root = ok (invalid (codes "accused_index_missing_from_vk"))
check_root (some ui) root = do
  root_ui ← compute_ui_hex_from_x root
  ok (
      if not (str_eq (lower_copy root_ui) (lower_copy ui))
      then invalid (codes "root_ui_mismatch")
      else valid)

abbrev pub go_on : Verdict → Result Verdict → Result Verdict
go_on (invalid e) rest = ok (invalid e)
go_on valid rest = rest

-- The loop over the accused and their roots, which are equally many.
unfoldable pub tverify_loop : List (ℕ × Str) → List ℕ → List ℕ → List Str → Result Verdict
tverify_loop vk seen [] roots = ok valid
tverify_loop vk seen (idx ∷ accused) [] = ok valid
tverify_loop vk seen (idx ∷ accused) (root ∷ roots) =
    let rest = tverify_loop vk (idx ∷ seen) accused roots in
    if any (λ i. i == idx) seen
    then ok (invalid (codes "duplicate_accused_index"))
    else (check_root (vk_find idx vk) root >>= λ v. go_on v rest)

unfoldable pub ttss_tverify_nits_shamir : List TtssKeyEntry → List ℕ → TraceProof → Result Verdict
ttss_tverify_nits_shamir vk_entries accused_set proof =
    if not (str_eq proof.proof_type (codes "nits_roots"))
    then ok (invalid (codes "unsupported_proof_type"))
    else if not (length accused_set == length proof.witness_roots_hex)
    then ok (invalid (codes "arity_mismatch"))
    else if length accused_set == 0
    then ok (invalid (codes "empty_accused_set"))
    else do vk ← vk_by_index vk_entries; tverify_loop vk [] accused_set proof.witness_roots_hex

unfoldable pub normalize_roots : List Str → Result (List Str)
normalize_roots [] = ok []
normalize_roots (root ∷ roots) = do
  norm ← normalize_field_hex_bn254 root
  rest ← normalize_roots roots
  ok (norm ∷ rest)

-- The result that the function starts from.
abbrev pub blank_result : Str → TraceSessionDescriptor → TraceMeta → TraceResult
blank_result id_hash desc meta = record {
  is_ok = false;
  id_hash = id_hash;
  ver = desc.ver;
  epoch = desc.epoch;
  n = desc.n;
  t = desc.t;
  accused_set = [];
  proof = record { proof_type = codes "nits_roots"; witness_roots_hex = [] };
  trace_meta = meta;
  error = [];
}

abbrev pub conclude : Verdict → TraceResult → TraceResult
conclude (invalid e) r = record r { error = e }
conclude valid r = record r { is_ok = true }

unfoldable pub ttss_trace_from_extracted_roots :
    List TtssKeyEntry → TraceSessionDescriptor → List Str → TraceMeta → Result TraceResult
ttss_trace_from_extracted_roots tk_entries desc roots_hex meta =
    normalize_digest_hex32 desc.id_hash >>= λ id_hash.
    if length roots_hex == 0
    then ok (record (blank_result id_hash desc meta) { error = codes "no_extracted_roots" })
    else do
      roots ← normalize_roots roots_hex
      accused ← accused_from_roots tk_entries roots
      let proof : TraceProof = record { proof_type = codes "nits_roots"; witness_roots_hex = roots }
      v ← ttss_tverify_nits_shamir tk_entries accused proof
      ok (
          conclude v
            (record (blank_result id_hash desc meta) { accused_set = accused; proof = proof }))

abbrev pub keep_first : Str → List Str → List Str
keep_first s [] = s ∷ []
keep_first s (t ∷ ts) = if str_eq s t then t ∷ ts else s ∷ t ∷ ts

-- Equal neighbours of a sorted list become one.
unfoldable pub unique_texts : List Str → List Str
unique_texts [] = []
unique_texts (s ∷ ss) = keep_first s (unique_texts ss)

unfoldable pub all_roots : List TraceQueryResponse → List Str
all_roots [] = []
all_roots (r ∷ responses) =
    if r.is_ok then r.debug_candidate_roots_hex ++ all_roots responses else all_roots responses

unfoldable pub success_count : List TraceQueryResponse → ℕ
success_count [] = 0
success_count (r ∷ responses) = (if r.is_ok then 1 else 0) + success_count responses

abbrev pub empty_meta : TraceMeta
empty_meta = record {
  guessed_f = 0;
  query_count = 0;
  candidate_polynomial_count = 0;
  success_count = 0;
  transcript_hash = [];
  note = [];
}

-- The end of the trace, with the roots that the oracle gave.
abbrev pub finish_trace :
    List TtssKeyEntry
    → TraceSessionDescriptor
    → TraceOptions
    → Str
    → List Str
    → TraceMeta
    → Result TraceResult
finish_trace tk_entries desc options id_hash roots meta =
    if length roots == 0 && options.require_oracle_roots
    then ok (record (blank_result id_hash desc meta) {
      error = codes "trace_extractor_unavailable: oracle returned no debugCandidateRootsHex";
    })
    else ttss_trace_from_extracted_roots tk_entries desc roots meta

-- The challenge shares and the oracle's answers are the caller's: the `k`-th call of each.
module _ (fetch : ℕ → ℕ → List ShareEnvelope)
    (query : ℕ → TraceQueryRequest → TraceQueryResponse) where
  -- The loop over the queries, from `q` on.
  unfoldable pub query_loop : ℕ → ℕ → ℕ → List TraceQueryResponse
  query_loop zero q challenge_count = []
  query_loop (suc left) q challenge_count =
      query q (record {
        query_id = codes "trace_q_" ++ to_decimal q;
        honest_shares = fetch q challenge_count;
      })
      ∷ query_loop left (suc q) challenge_count

  unfoldable pub ttss_trace_nits_shamir :
      List TtssKeyEntry → TraceSessionDescriptor → TraceOptions → Result TraceResult
  ttss_trace_nits_shamir tk_entries desc options =
      let count =
        if options.challenge_share_count == 0 then desc.t - 1 else options.challenge_share_count in
      let responses = query_loop options.max_queries 0 count in
      let roots = unique_texts (sort_texts (all_roots responses)) in
      normalize_digest_hex32 desc.id_hash >>= λ id_hash.
      if count == 0
      then ok (record (blank_result id_hash desc empty_meta) {
        error = codes "bad_challenge_share_count";
      })
      else (transcript_hash_of responses >>= λ hash.
          finish_trace tk_entries desc options id_hash roots (record {
            guessed_f = length roots;
            query_count = length responses;
            candidate_polynomial_count = if length roots == 0 then 0 else 1;
            success_count = success_count responses;
            transcript_hash = hash;
            note = codes "v1_trace_scaffold_uses_oracle_debugCandidateRootsHex_for_root_extraction";
          }))
