-- ===== src/Sha256/Bounds.antt =====
-- The digest is 32 bytes, and its text a digest in normal form.
use did_vc.Base.{ℕ, Str, true, List, ◌++◌, length, ◌≡◌, refl, arith}
use did_vc.Hex.Digits.{Bytes}
use did_vc.Hex.Digest.{IsDigest, bytes_to_hex-IsDigest}
use did_vc.Sha256.{
  initial_ctx, push_bytes, finish, word_bytes, sha256_bytes, sha256_hex, joined, sha256_joined_hex,
}

Bytes-words : (w : ℕ) (rest : List ℕ) → Bytes rest → Bytes (word_bytes w ++ rest)
unfolding word_bytes
Bytes-words w rest h = (omega arith, (omega arith, (omega arith, (omega arith, h))))

Bytes-word : (w : ℕ) → Bytes (word_bytes w)
unfolding word_bytes
Bytes-word w = (omega arith, (omega arith, (omega arith, (omega arith, tt))))

sha256_bytes-Bytes : (text : List ℕ) → Bytes (sha256_bytes text)
unfolding sha256_bytes
sha256_bytes-Bytes text =
    let s = finish (push_bytes initial_ctx text) in
    Bytes-words s.a _ (
      Bytes-words s.b _ (
        Bytes-words s.c _ (
          Bytes-words s.d _
            (Bytes-words s.e _ (Bytes-words s.f _ (Bytes-words s.g _ (Bytes-word s.h)))))))

length-sha256_bytes : (text : List ℕ) → length (sha256_bytes text) ≡ 32
unfolding sha256_bytes word_bytes
length-sha256_bytes text = refl

-- The hash of any text is a 32-byte digest in normal form.
pub sha256_hex-IsDigest : (text : Str) → IsDigest (sha256_hex text true)
unfolding sha256_hex
sha256_hex-IsDigest text =
    bytes_to_hex-IsDigest (sha256_bytes text) (sha256_bytes-Bytes text) (length-sha256_bytes text)

pub sha256_joined_hex-IsDigest : (parts : List Str) → IsDigest (sha256_joined_hex parts)
unfolding sha256_joined_hex
sha256_joined_hex-IsDigest parts = sha256_hex-IsDigest (joined parts)
