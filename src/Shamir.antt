-- ===== src/Shamir.antt =====
-- Secret sharing of cpp/ttss_nits_shamir.cpp: polynomials, interpolation and the encodings.
mod Ops
pub mod Poly
pub mod Roots
pub mod Lagrange
pub mod Interpolate
pub mod Correct
pub mod Fit
mod Tests
unfoldable pub use Ops.{poly_loop, poly_eval, basis_loop, secret_loop, lagrange_interpolate_at_zero}
