-- ===== src/Encode/Seed.antt =====
-- The seed as sixteen chunks of 16 bits, and back.
use Prim.Native.Nat.{bit_or}
use did_vc.Base.{
  ℕ, ◌+◌, ◌*◌, ◌/◌, ◌%◌, ◌^◌, ◌<◌, ◌≤◌, Str, true, false, List, [], ◌∷◌, length, Result, ok, err,
  ◌>>=◌, ◌≡◌, refl, ap, ◌∙◌, arith, All, ltb, bit_or-shifted,
}
use did_vc.Hex.{normalize_digest_hex32, hex_to_bytes, bytes_to_hex, hex_of_bytes, ensure_0x_hex}
use did_vc.Hex.Digits.{Bytes, length-hex_of_bytes}
use did_vc.Hex.Digest.{IsDigest, normalize_digest_hex32-ok, ensure_0x_hex-HexForm, IsDigest-HexForm}
use did_vc.Hex.RoundTrip.{hex_to_bytes_back}
use did_vc.Encode.{chunks_of_bytes, split_seed_hex_to_chunks, bytes_of_chunks, chunks_to_seed_hex}

-- A chunk that fits 16 bits.
abbrev pub Chunks : List ℕ → Type 0
Chunks cs = All (λ c. c ≤ 0xFFFF) cs

pair_as_sum : (b0 b1 : ℕ) → b1 < 256 → bit_or (b0 * 2 ^ 8) b1 ≡ b0 * 256 + b1
pair_as_sum b0 b1 h = bit_or-shifted 8 b0 b1 h

chunks_of_bytes-Chunks : (bytes : List ℕ) → Bytes bytes → Chunks (chunks_of_bytes bytes)
unfolding chunks_of_bytes
chunks_of_bytes-Chunks [] h = tt
chunks_of_bytes-Chunks (b ∷ []) h = tt
chunks_of_bytes-Chunks (b0 ∷ b1 ∷ bytes) h =
    let (h0, (h1, hs)) = h in
    (rw (pair_as_sum b0 b1 h1) (omega arith), chunks_of_bytes-Chunks bytes hs)

length-chunks_of_bytes : (bytes : List ℕ) → length (chunks_of_bytes bytes) ≡ length bytes / 2
unfolding chunks_of_bytes
length-chunks_of_bytes [] = refl
length-chunks_of_bytes (b ∷ []) = refl
length-chunks_of_bytes (b0 ∷ b1 ∷ bytes) = omega (arith, length-chunks_of_bytes bytes)

chunk_bytes :
    (b0 b1 : ℕ)
    → b0 < 256
    → b1 < 256
    → (ltb 0xFFFF (b0 * 256 + b1) ≡ false)
      × ((b0 * 256 + b1) / 256 % 256 ≡ b0)
      × ((b0 * 256 + b1) % 256 ≡ b1)
chunk_bytes b0 b1 h k = (ground arith, omega arith, omega arith)

bytes_of_chunks_back :
    (bytes : List ℕ)
    → Bytes bytes
    → length bytes % 2 ≡ 0
    → bytes_of_chunks (chunks_of_bytes bytes) ≡ ok bytes
unfolding bytes_of_chunks chunks_of_bytes
bytes_of_chunks_back [] h even = refl
bytes_of_chunks_back (b ∷ []) h even = absurd (omega arith)
bytes_of_chunks_back (b0 ∷ b1 ∷ bytes) h even =
    let (h0, (h1, hs)) = h in
    let (fits, hi, lo) = chunk_bytes b0 b1 h0 h1 in
    rw (pair_as_sum b0 b1 h1, fits, bytes_of_chunks_back bytes hs (omega arith), hi, lo)

-- What `split_seed_hex_to_chunks` returns: sixteen chunks that join to the normal form of the seed.
pub record IsSplit (seed_hex : Str) (chunks : List ℕ) : Type 0 where
  pub norm : Str
  pub normalised : normalize_digest_hex32 seed_hex ≡ ok norm
  pub joins : chunks_to_seed_hex chunks ≡ ok norm
  pub fits : Chunks chunks
  pub count : length chunks ≡ 16

pub split_seed_hex_to_chunks-IsSplit :
    (seed_hex : Str) (chunks : List ℕ)
    → split_seed_hex_to_chunks seed_hex ≡ ok chunks
    → IsSplit seed_hex chunks
unfolding split_seed_hex_to_chunks
split_seed_hex_to_chunks-IsSplit seed_hex chunks h = go (normalize_digest_hex32 seed_hex) refl h
  where
    finish :
        (norm : Str) (bytes : List ℕ)
        → normalize_digest_hex32 seed_hex ≡ ok norm
        → hex_to_bytes norm ≡ ok bytes
        → chunks_of_bytes bytes ≡ chunks
        → IsSplit seed_hex chunks
    finish norm bytes p q e =
        let d = normalize_digest_hex32-ok seed_hex norm p in
        let (small, back) = hex_to_bytes_back norm bytes q in
        let kept : ensure_0x_hex norm ≡ ok norm =
          ensure_0x_hex-HexForm norm (IsDigest-HexForm norm d) in
        let text : bytes_to_hex bytes true ≡ norm = cc (back, kept) in
        let len : length bytes ≡ 32 = bytes_len bytes norm d text in
        record {
          norm = norm;
          normalised = p;
          joins = rw (← e) (
              unfold chunks_to_seed_hex in
              rw (bytes_of_chunks_back bytes small (omega arith)) (ap ok text));
          fits = rw (← e) (chunks_of_bytes-Chunks bytes small);
          count = rw (← e) (length-chunks_of_bytes bytes ∙ omega arith);
        }
      where
        bytes_len :
            (bytes : List ℕ) (norm : Str)
            → IsDigest norm
            → bytes_to_hex bytes true ≡ norm
            → length bytes ≡ 32
        bytes_len bytes norm d text =
            let t : b'0' ∷ b'x' ∷ hex_of_bytes bytes ≡ norm = unfold bytes_to_hex in text in
            let e : b'0' ∷ b'x' ∷ hex_of_bytes bytes ≡ b'0' ∷ b'x' ∷ d.body = t ∙ d.form in
            omega (arith, ap length e, length-hex_of_bytes bytes, d.width)

    after :
        (norm : Str) (r : Result (List ℕ))
        → normalize_digest_hex32 seed_hex ≡ ok norm
        → hex_to_bytes norm ≡ r
        → (r >>= λ bytes. ok (chunks_of_bytes bytes)) ≡ ok chunks
        → IsSplit seed_hex chunks
    after norm (err e) p q k = absurd (cc)
    after norm (ok bytes) p q k = finish norm bytes p q (cc)

    go :
        (r : Result Str)
        → normalize_digest_hex32 seed_hex ≡ r
        → (r >>= λ norm. hex_to_bytes norm >>= λ bytes. ok (chunks_of_bytes bytes)) ≡ ok chunks
        → IsSplit seed_hex chunks
    go (err e) p k = absurd (cc)
    go (ok norm) p k = after norm (hex_to_bytes norm) p refl k
