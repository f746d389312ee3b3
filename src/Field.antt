-- ===== src/Field.antt =====
-- GF(65537) of cpp/ttss_nits_shamir.cpp: the operations, and what they compute.
mod Ops
pub mod Congr
pub mod Power
pub mod Fermat
mod Tests
unfoldable pub use Ops.{field_mod, add_mod, sub_mod, mul_mod, pow_loop, pow_mod, inv_mod}
