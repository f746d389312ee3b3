-- ===== src/Network/Tests.antt =====
-- A setup for two guardians, distributed to two nodes, recovered and revoked.
use did_vc.Base.{
  ℕ, zero, suc, ◌<◌, Str, codes, str_eq, true, List, [], ◌∷◌, ◌++◌, get_or, ok, err, ◌≡◌, inl, inr,
  refl, arith,
}
use did_vc.Json.Sample.{tree_lib}
use did_vc.Ttss.Sample.{two_guardians, issued, two_guardians-issued}
use did_vc.Committee.Map.{find}
use did_vc.Committee.Invariant.{empty_store}
use did_vc.Network.{
  CommitteeNode, Nodes, committee_fetch_share, distribute_share_envelopes_to_committees,
  invalidate_committee_shares, run_ttss_recover,
}
use did_vc.Network.Deliver.{Answers}
use did_vc.Network.Tasks.{Runs}
use did_vc.Network.Meta.{
  verify_committee_share_meta_active, verify_committee_share_meta_active-distribute,
}
use did_vc.Network.Recover.{run_ttss_recover-distribute}
use did_vc.Network.Refuse.{committee_fetch_share-invalidate, run_ttss_recover-invalidate}

abbrev fresh_node : CommitteeNode
fresh_node = record { token = codes "demo-token"; network = true; now = 1000; store = empty_store }

abbrev two_urls : List Str
two_urls = codes "http://127.0.0.1:9101" ∷ codes "http://127.0.0.1:9102" ∷ []

abbrev two_nodes : Nodes
two_nodes =
    (codes "http://127.0.0.1:9101", fresh_node) ∷ (codes "http://127.0.0.1:9102", fresh_node) ∷ []

abbrev error_text : ℕ → Str → Str
error_text status e = e

abbrev crash_text : Str → Str
crash_text e = codes "Internal Server Error"

two_nodes_answer :
    (i : ℕ) → i < two_guardians.n → Answers two_nodes (codes "demo-token") (get_or two_urls i [])
unfolding find str_eq
two_nodes_answer zero lt = record {
  node = fresh_node;
  at_url = refl;
  same_token = refl;
  online = refl;
}
two_nodes_answer (suc zero) lt = record {
  node = fresh_node;
  at_url = refl;
  same_token = refl;
  online = refl;
}
two_nodes_answer (suc (suc i)) lt = absurd (omega arith)

both_run : (i : ℕ) → i < two_guardians.n → Runs i (1 ∷ 0 ∷ [])
both_run zero lt = inr (inl refl)
both_run (suc zero) lt = inl refl
both_run (suc (suc i)) lt = absurd (omega arith)

run_ttss_recover-distribute_example :
    ((distribute_share_envelopes_to_committees tree_lib error_text crash_text two_urls
        (codes "demo-token")
        issued.share_envelopes
        2
        (codes "set")
        (1 ∷ 0 ∷ [])
        two_nodes).1
      ≡ ok tt)
    × (run_ttss_recover tree_lib error_text crash_text two_urls
          (codes "demo-token")
          (codes "0x11")
          1
          1
          2
          (codes "0xABCD")
          (distribute_share_envelopes_to_committees tree_lib error_text crash_text two_urls
            (codes "demo-token")
            issued.share_envelopes
            2
            (codes "set")
            (1 ∷ 0 ∷ [])
            two_nodes).0
        ≡ ok true)
run_ttss_recover-distribute_example =
    run_ttss_recover-distribute tree_lib error_text crash_text two_guardians issued two_urls
      (codes "demo-token") (codes "set") (1 ∷ 0 ∷ []) two_nodes two_guardians-issued (omega arith)
      refl refl (omega arith) two_nodes_answer (omega arith, (omega arith, tt)) both_run

run_ttss_recover-invalidate_example :
    run_ttss_recover tree_lib error_text crash_text two_urls
      (codes "demo-token")
      (codes "0x11")
      1
      1
      2
      (codes "0xABCD")
      (invalidate_committee_shares tree_lib error_text crash_text two_urls
        (codes "demo-token")
        (codes "0x11")
        1
        1
        (codes "rotated")
        (distribute_share_envelopes_to_committees tree_lib error_text crash_text two_urls
          (codes "demo-token")
          issued.share_envelopes
          2
          (codes "set")
          (1 ∷ 0 ∷ [])
          two_nodes).0).0
    ≡ err (codes "committee_fetch_shareForRecover_failed: " ++ codes "share_inactive")
run_ttss_recover-invalidate_example =
    run_ttss_recover-invalidate tree_lib error_text crash_text two_guardians issued two_urls
      (codes "demo-token") (codes "set") (codes "rotated") (1 ∷ 0 ∷ []) two_nodes
      two_guardians-issued (omega arith) refl refl (omega arith) two_nodes_answer
      (omega arith, (omega arith, tt)) both_run

committee_fetch_share-invalidate_example :
    committee_fetch_share tree_lib error_text crash_text
      (codes "http://127.0.0.1:9102")
      (codes "/shareForTrace")
      (codes "demo-token")
      (codes "0x11")
      1
      1
      2
      (invalidate_committee_shares tree_lib error_text crash_text two_urls
        (codes "demo-token")
        (codes "0x11")
        1
        1
        (codes "rotated")
        (distribute_share_envelopes_to_committees tree_lib error_text crash_text two_urls
          (codes "demo-token")
          issued.share_envelopes
          2
          (codes "set")
          (1 ∷ 0 ∷ [])
          two_nodes).0).0
    ≡ err (codes "share_inactive")
committee_fetch_share-invalidate_example =
    committee_fetch_share-invalidate tree_lib error_text crash_text two_guardians issued two_urls
      (codes "demo-token") (codes "set") (codes "rotated") (codes "/shareForTrace") (1 ∷ 0 ∷ [])
      two_nodes 1 two_guardians-issued (omega arith) refl refl (omega arith) two_nodes_answer
      (omega arith, (omega arith, tt)) both_run (omega arith)

verify_committee_share_meta_active-distribute_example :
    verify_committee_share_meta_active tree_lib error_text crash_text two_urls
      (codes "0x11")
      1
      1
      2
      (codes "inactive")
      (distribute_share_envelopes_to_committees tree_lib error_text crash_text two_urls
        (codes "demo-token")
        issued.share_envelopes
        2
        (codes "set")
        (1 ∷ 0 ∷ [])
        two_nodes).0
    ≡ ok tt
verify_committee_share_meta_active-distribute_example =
    verify_committee_share_meta_active-distribute tree_lib error_text crash_text two_guardians
      issued two_urls (codes "demo-token") (codes "set") (codes "inactive") (1 ∷ 0 ∷ []) two_nodes
      two_guardians-issued (omega arith) refl refl (omega arith) two_nodes_answer
      (omega arith, (omega arith, tt)) both_run
