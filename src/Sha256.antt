-- ===== src/Sha256.antt =====
-- SHA-256 of cpp/share_envelope.cpp (`Sha256Ctx` to `sha256_joined_hex`). A word is a number below
-- 2 ^ 32, and every 32-bit sum is reduced.
pub mod Bounds
mod Tests
use Prim.Native.Nat.{bit_or, bit_and, bit_xor}
use did_vc.Base.{
  ℕ, zero, suc, ◌+◌, ◌-◌, ◌*◌, ◌/◌, ◌%◌, ◌^◌, Str, codes, Bool, true, false, ltb, leb, ◌==◌,
  if◌then◌else◌, List, [], ◌∷◌, ◌++◌, length, get_or, replicate,
}
use did_vc.Hex.{bytes_to_hex}
use mathlib.Core.List.{reverse}

-- Reduction to `uint32_t`.
abbrev pub u32 : ℕ → ℕ
u32 x = x % 2 ^ 32

-- The eight working variables, and the chaining value.
pub record Words : Type 0 where
  pub a : ℕ
  pub b : ℕ
  pub c : ℕ
  pub d : ℕ
  pub e : ℕ
  pub f : ℕ
  pub g : ℕ
  pub h : ℕ

-- `Sha256Ctx`. `block` holds the first `block_len` bytes of the buffer: those behind are written
-- before `sha256_transform` reads them.
pub record Sha256Ctx : Type 0 where
  pub state : Words
  pub block : List ℕ
  pub bit_len : ℕ

abbrev pub initial_state : Words
initial_state = record {
  a = 0x6a09_e667;
  b = 0xbb67_ae85;
  c = 0x3c6e_f372;
  d = 0xa54f_f53a;
  e = 0x510e_527f;
  f = 0x9b05_688c;
  g = 0x1f83_d9ab;
  h = 0x5be0_cd19;
}

abbrev pub initial_ctx : Sha256Ctx
initial_ctx = record { state = initial_state; block = []; bit_len = 0 }

-- `kSha256K`.
abbrev pub round_constants : List ℕ
round_constants =
    0x428a_2f98 ∷ 0x7137_4491 ∷ 0xb5c0_fbcf ∷ 0xe9b5_dba5 ∷ 0x3956_c25b ∷ 0x59f1_11f1 ∷ 0x923f_82a4
    ∷ 0xab1c_5ed5 ∷ 0xd807_aa98 ∷ 0x1283_5b01 ∷ 0x2431_85be ∷ 0x550c_7dc3 ∷ 0x72be_5d74
    ∷ 0x80de_b1fe ∷ 0x9bdc_06a7 ∷ 0xc19b_f174 ∷ 0xe49b_69c1 ∷ 0xefbe_4786 ∷ 0x0fc1_9dc6
    ∷ 0x240c_a1cc ∷ 0x2de9_2c6f ∷ 0x4a74_84aa ∷ 0x5cb0_a9dc ∷ 0x76f9_88da ∷ 0x983e_5152
    ∷ 0xa831_c66d ∷ 0xb003_27c8 ∷ 0xbf59_7fc7 ∷ 0xc6e0_0bf3 ∷ 0xd5a7_9147 ∷ 0x06ca_6351
    ∷ 0x1429_2967 ∷ 0x27b7_0a85 ∷ 0x2e1b_2138 ∷ 0x4d2c_6dfc ∷ 0x5338_0d13 ∷ 0x650a_7354
    ∷ 0x766a_0abb ∷ 0x81c2_c92e ∷ 0x9272_2c85 ∷ 0xa2bf_e8a1 ∷ 0xa81a_664b ∷ 0xc24b_8b70
    ∷ 0xc76c_51a3 ∷ 0xd192_e819 ∷ 0xd699_0624 ∷ 0xf40e_3585 ∷ 0x106a_a070 ∷ 0x19a4_c116
    ∷ 0x1e37_6c08 ∷ 0x2748_774c ∷ 0x34b0_bcb5 ∷ 0x391c_0cb3 ∷ 0x4ed8_aa4a ∷ 0x5b9c_ca4f
    ∷ 0x682e_6ff3 ∷ 0x748f_82ee ∷ 0x78a5_636f ∷ 0x84c8_7814 ∷ 0x8cc7_0208 ∷ 0x90be_fffa
    ∷ 0xa450_6ceb ∷ 0xbef9_a3f7 ∷ 0xc671_78f2 ∷ []

unfoldable pub rotr : ℕ → ℕ → ℕ
rotr x n = bit_or (x / 2 ^ n) (u32 (x * 2 ^ (32 - n)))

-- The first sixteen words of the schedule, big endian.
unfoldable pub words_of_block : List ℕ → List ℕ
words_of_block (b0 ∷ b1 ∷ b2 ∷ b3 ∷ bytes) =
    bit_or (bit_or (bit_or (b0 * 2 ^ 24) (b1 * 2 ^ 16)) (b2 * 2 ^ 8)) b3 ∷ words_of_block bytes
words_of_block _ = []

-- `w[i]` from the words before it, newest first: `w[i - 2]` stands at index 1.
unfoldable pub next_word : List ℕ → ℕ
next_word ws =
    let w15 = get_or ws 14 0 in
    let w2 = get_or ws 1 0 in
    let s0 = bit_xor (bit_xor (rotr w15 7) (rotr w15 18)) (w15 / 2 ^ 3) in
    let s1 = bit_xor (bit_xor (rotr w2 17) (rotr w2 19)) (w2 / 2 ^ 10) in
    u32 (get_or ws 15 0 + s0 + get_or ws 6 0 + s1)

-- The schedule is extended by `n` words; newest first.
unfoldable pub extend_schedule : ℕ → List ℕ → List ℕ
extend_schedule zero ws = ws
extend_schedule (suc n) ws = extend_schedule n (next_word ws ∷ ws)

-- One round, with the constant `k` and the schedule's word `w`. `~e` is the complement on 32 bits.
unfoldable pub sha_round : ℕ → ℕ → Words → Words
sha_round k w s =
    let big1 = bit_xor (bit_xor (rotr s.e 6) (rotr s.e 11)) (rotr s.e 25) in
    let ch = bit_xor (bit_and s.e s.f) (bit_and (2 ^ 32 - 1 - s.e) s.g) in
    let temp1 = u32 (s.h + big1 + ch + k + w) in
    let big0 = bit_xor (bit_xor (rotr s.a 2) (rotr s.a 13)) (rotr s.a 22) in
    let maj = bit_xor (bit_xor (bit_and s.a s.b) (bit_and s.a s.c)) (bit_and s.b s.c) in
    let temp2 = u32 (big0 + maj) in
    record {
      a = u32 (temp1 + temp2);
      b = s.a;
      c = s.b;
      d = s.c;
      e = u32 (s.d + temp1);
      f = s.e;
      g = s.f;
      h = s.g;
    }

unfoldable pub sha_rounds : List ℕ → List ℕ → Words → Words
sha_rounds (k ∷ ks) (w ∷ ws) s = sha_rounds ks ws (sha_round k w s)
sha_rounds _ _ s = s

unfoldable pub add_words : Words → Words → Words
add_words s t = record {
  a = u32 (s.a + t.a);
  b = u32 (s.b + t.b);
  c = u32 (s.c + t.c);
  d = u32 (s.d + t.d);
  e = u32 (s.e + t.e);
  f = u32 (s.f + t.f);
  g = u32 (s.g + t.g);
  h = u32 (s.h + t.h);
}

unfoldable pub sha256_transform : Words → List ℕ → Words
sha256_transform s block =
    add_words s
      (sha_rounds round_constants (reverse (extend_schedule 48 (reverse (words_of_block block)))) s)

-- The loop body for one byte of input.
unfoldable pub push_byte : Sha256Ctx → ℕ → Sha256Ctx
push_byte ctx byte =
    let block = ctx.block ++ byte ∷ [] in
    if length block == 64
    then record {
      state = sha256_transform ctx.state block;
      block = [];
      bit_len = (ctx.bit_len + 512) % 2 ^ 64;
    }
    else record ctx { block = block }

unfoldable pub push_bytes : Sha256Ctx → List ℕ → Sha256Ctx
push_bytes ctx [] = ctx
push_bytes ctx (b ∷ bytes) = push_bytes (push_byte ctx b) bytes

-- The eight bytes of the length, big endian.
unfoldable pub length_bytes : ℕ → ℕ → List ℕ
length_bytes zero n = []
length_bytes (suc i) n = n / 2 ^ (8 * i) % 256 ∷ length_bytes i n

-- The padding: a block of its own if the length does not fit behind the bit.
unfoldable pub finish : Sha256Ctx → Words
finish ctx =
    let bit_len = (ctx.bit_len + length ctx.block * 8) % 2 ^ 64 in
    let block = ctx.block ++ 0x80 ∷ [] in
    if ltb 56 (length block)
    then sha256_transform (sha256_transform ctx.state (block ++ replicate (64 - length block) 0))
        (replicate 56 0 ++ length_bytes 8 bit_len)
    else sha256_transform ctx.state
        (block ++ (replicate (56 - length block) 0 ++ length_bytes 8 bit_len))

unfoldable pub word_bytes : ℕ → List ℕ
word_bytes w = w / 2 ^ 24 % 256 ∷ w / 2 ^ 16 % 256 ∷ w / 2 ^ 8 % 256 ∷ w % 256 ∷ []

unfoldable pub sha256_bytes : List ℕ → List ℕ
sha256_bytes bytes =
    let s = finish (push_bytes initial_ctx bytes) in
    word_bytes s.a
    ++ (word_bytes s.b
        ++ (word_bytes s.c
            ++ (word_bytes s.d
                ++ (word_bytes s.e ++ (word_bytes s.f ++ (word_bytes s.g ++ word_bytes s.h))))))

unfoldable pub sha256_hex : Str → Bool → Str
sha256_hex text with_prefix = bytes_to_hex (sha256_bytes text) with_prefix

-- The parts with `|` between them.
unfoldable pub joined : List Str → Str
joined [] = []
joined (p ∷ []) = p
joined (p ∷ q ∷ parts) = p ++ b'|' ∷ joined (q ∷ parts)

unfoldable pub sha256_joined_hex : List Str → Str
sha256_joined_hex parts = sha256_hex (joined parts) true
