-- ===== src/Envelope/Sample.antt =====
-- A share envelope for tests.
use did_vc.Base.{codes, [], true, Result, ok, err}
use did_vc.Envelope.{
  ShareEnvelope, scheme_nits_shamir_v1, secret_type_srec_seed, demo_sig_alg,
  sign_share_envelope_demo,
}

abbrev pub unsigned_sample : ShareEnvelope
unsigned_sample = record {
  scheme = scheme_nits_shamir_v1;
  id = codes "did:example:1";
  id_hash = codes "0x0000000000000000000000000000000000000000000000000000000000000011";
  guardian_index = 1;
  guardian_id = codes "G1";
  n = 3;
  t = 2;
  ver = 1;
  epoch = 7;
  secret_type = secret_type_srec_seed;
  share = record { xi_hex = codes "0x05"; yi_hex = codes "0x0A" };
  ui_hex = codes "0x01";
  tag_hex = codes "0x02";
  dealer_proof = record { sig_alg = demo_sig_alg; sigma_hex = [] };
  meta = record {
    vk_set_hash = [];
    guardian_set_hash = [];
    dealer_pk_hex = codes "0x03";
    rho_commit_hex = [];
    issued_at = 5;
    expires_at = 9;
  };
  active = true;
}

abbrev signed_or : Result ShareEnvelope → ShareEnvelope
signed_or (ok env) = env
signed_or (err e) = unsigned_sample

abbrev pub sample : ShareEnvelope
sample = signed_or (sign_share_envelope_demo unsigned_sample (codes "0x03"))
