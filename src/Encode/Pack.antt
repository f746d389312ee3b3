-- ===== src/Encode/Pack.antt =====
-- The packed values of a share come back from `unpack_y_chunks_hex`.
use Prim.Native.Nat.{bit_or}
use native.Mathlib.Nat.{
  pow-suc, div-add-mod', mod-lt, one-le-pow, mod-eq_of_lt, add-mul-mod_self_right,
}
use did_vc.Base.{
  ℕ, zero, suc, ◌+◌, ◌*◌, ◌/◌, ◌%◌, ◌^◌, ◌<◌, ◌≤◌, Str, true, false, List, [], ◌∷◌, length, get_or,
  ◌≡◌, ◌≢◌, refl, ap, ap₂, ◌∙◌, sym, arith, leb, ok, All, replicate, bit_or-shifted,
}
use did_vc.Hex.{bytes_to_hex, hex_of_bytes}
use did_vc.Hex.Digits.{Bytes, hex_of_bytes-LowerHex}
use did_vc.Hex.Digest.{HexForm, ensure_0x_hex-HexForm}
use did_vc.Hex.RoundTrip.{hex_to_bytes-bytes_to_hex}
use did_vc.Encode.{
  write_bit, write_bits, pack_loop, pack_y_chunks_hex, read_bit, read_bits, unpack_loop,
  unpack_y_chunks_hex,
}
use did_vc.Encode.PackBit.{IsClean, write_bit-IsWritten}

-- What writing several bits does, whichever they are: `n` bits from `pos` on.
record Writes (out : List ℕ) (pos n : ℕ) (out' : List ℕ) : Type 0 where
  same_length : length out' ≡ length out
  clean : IsClean out' (pos + n)
  before : (j : ℕ) → j < pos → read_bit out' j ≡ read_bit out j

read_bits-same :
    (n : ℕ) (a b : List ℕ) (pos v : ℕ)
    → ((j : ℕ) → pos ≤ j → j < pos + n → read_bit a j ≡ read_bit b j)
    → read_bits n a pos v ≡ read_bits n b pos v
unfolding read_bits
read_bits-same zero a b pos v h = refl
read_bits-same (suc n) a b pos v h =
    ap (λ (t : ℕ). read_bits n a (suc pos) (bit_or (v * 2) t % 2 ^ 32))
      (h pos (omega arith) (omega arith))
    ∙ read_bits-same n a b (suc pos) _ (λ j lo hi. h j (omega arith) (omega arith))

-- The top bit of `n + 1` bits, and the rest.
top_bit : (v n : ℕ) → v % 2 ^ suc n ≡ v / 2 ^ n % 2 * 2 ^ n + v % 2 ^ n
top_bit v n = ap (λ (t : ℕ). v % t) (pow-suc 2 n) ∙ split (2 ^ n) (one-le-pow n 2 (omega arith))
  where
    split : (p : ℕ) → 0 < p → v % (p * 2) ≡ v / p % 2 * p + v % p
    split p pos =
        let q : v / p * p + v % p ≡ v = div-add-mod' v p in
        let q2 : v / p / 2 * 2 + v / p % 2 ≡ v / p = omega arith in
        let r : v % p < p = mod-lt v pos in
        let whole : v ≡ (v / p % 2 * p + v % p) + v / p / 2 * (p * 2) =
          sym q ∙ ap (λ (t : ℕ). t * p + v % p) (sym q2) ∙ spread (v / p / 2) (v / p % 2) (v % p) in
        ap (λ (t : ℕ). t % (p * 2)) whole
        ∙ add-mul-mod_self_right (v / p % 2 * p + v % p) (v / p / 2) (p * 2)
        ∙ mod-eq_of_lt (bound (v / p % 2) (v % p) (omega arith) r)
      where
        spread : (a b c : ℕ) → (a * 2 + b) * p + c ≡ b * p + c + a * (p * 2)
        spread a b c = omega arith

        bound : (b c : ℕ) → b < 2 → c < p → b * p + c < p * 2
        bound zero c hb hc = omega arith
        bound (suc zero) c hb hc = omega arith
        bound (suc (suc b)) c hb hc = absurd (omega arith)

push_bit : (v b : ℕ) → b < 2 → v * 2 + b < 2 ^ 32 → bit_or (v * 2) b % 2 ^ 32 ≡ v * 2 + b
push_bit v b hb h = rw (bit_or-shifted 1 v b hb) (mod-eq_of_lt h)

-- The accumulator of `n + 1` bits to go takes one more.
room_after :
    (acc b n : ℕ)
    → b < 2
    → acc * 2 ^ suc n + 2 ^ suc n ≤ 2 ^ 32
    → ((acc * 2 + b) * 2 ^ n + 2 ^ n ≤ 2 ^ 32) × (acc * 2 + b < 2 ^ 32)
room_after acc b n hb h = go (2 ^ n) (one-le-pow n 2 (omega arith)) (pow-suc 2 n)
  where
    go :
        (p : ℕ)
        → 0 < p
        → 2 ^ suc n ≡ p * 2
        → ((acc * 2 + b) * p + p ≤ 2 ^ 32) × (acc * 2 + b < 2 ^ 32)
    go p pos e = let k : acc * (p * 2) + p * 2 ≤ 2 ^ 32 = rw e at h in (first b hb k, second b hb k)
      where
        first : (b : ℕ) → b < 2 → acc * (p * 2) + p * 2 ≤ 2 ^ 32 → (acc * 2 + b) * p + p ≤ 2 ^ 32
        first zero hb k = omega arith
        first (suc zero) hb k = omega arith
        first (suc (suc b)) hb k = absurd (omega arith)

        second : (b : ℕ) → b < 2 → acc * (p * 2) + p * 2 ≤ 2 ^ 32 → acc * 2 + b < 2 ^ 32
        second b hb k = grind arith

-- The bits that were written are read back, behind what the accumulator holds.
record Reads (n v : ℕ) (out' : List ℕ) (pos : ℕ) : Type 0 where
  value :
      (acc : ℕ) → acc * 2 ^ n + 2 ^ n ≤ 2 ^ 32 → read_bits n out' pos acc ≡ acc * 2 ^ n + v % 2 ^ n

write_bits-lem :
    (n v : ℕ) (out : List ℕ) (pos : ℕ)
    → pos + n ≤ 8 * length out
    → IsClean out pos
    → Writes out pos n (write_bits n v out pos) × Reads n v (write_bits n v out pos) pos
unfolding write_bits read_bits
write_bits-lem zero v out pos fits c = (
  record { same_length = refl; clean = subst_pos c; before = λ j lt. refl },
  record { value = λ acc h. omega arith },
)
  where
    subst_pos : IsClean out pos → IsClean out (pos + 0)
    subst_pos c = let e : pos + 0 ≡ pos = omega arith in rw e c
write_bits-lem (suc n) v out pos fits c =
    let b : ℕ = v / 2 ^ n % 2 in
    let w = write_bit-IsWritten out pos b (omega arith) (omega arith) c in
    let out1 : List ℕ = write_bit out pos b in
    let (ws, rs) = write_bits-lem n v out1 (suc pos) (omega (arith, w.same_length)) w.clean in
    let e : suc pos + n ≡ pos + suc n = omega arith in
    (
      record {
        same_length = ws.same_length ∙ w.same_length;
        clean = rw (← e) ws.clean;
        before = λ j lt. ws.before j (omega arith) ∙ w.before j lt;
      },
      record {
        value = λ acc h.
            let (room, small) = room_after acc b n (omega arith) h in
            let first : read_bit (write_bits n v out1 (suc pos)) pos ≡ b =
              ws.before pos (omega arith) ∙ w.bit in
            ap
              (λ (t : ℕ).
                read_bits n (write_bits n v out1 (suc pos)) (suc pos) (bit_or (acc * 2) t % 2 ^ 32))
              first
            ∙ ap (read_bits n (write_bits n v out1 (suc pos)) (suc pos))
                (push_bit acc b (omega arith) small)
            ∙ rs.value (acc * 2 + b) room
            ∙ regroup acc b (2 ^ n) (v % 2 ^ n) (pow-suc 2 n)
            ∙ ap (λ (t : ℕ). acc * 2 ^ suc n + t) (sym (top_bit v n));
      },
    )
  where
    regroup : (acc b p r : ℕ) {q : ℕ} → q ≡ p * 2 → (acc * 2 + b) * p + r ≡ acc * q + (b * p + r)
    regroup acc b p r e = rw e (omega arith)

-- All values are elements of the field.
abbrev pub Elements : List ℕ → Type 0
Elements vs = All (λ v. v < 65537) vs

-- The loop over the values: it returns, writes nothing before `pos`, and the values are read back.
record Packs (values out : List ℕ) (pos : ℕ) : Type 0 where
  out' : List ℕ
  returns : pack_loop values out pos ≡ ok out'
  same_length : length out' ≡ length out
  small : (j : ℕ) → get_or out' j 0 < 256
  before : (j : ℕ) → j < pos → read_bit out' j ≡ read_bit out j
  values_back : unpack_loop (length values) out' pos ≡ values

pack_loop-Packs :
    (values out : List ℕ) (pos : ℕ)
    → Elements values
    → pos + 17 * length values ≤ 8 * length out
    → IsClean out pos
    → Packs values out pos
unfolding pack_loop unpack_loop
pack_loop-Packs [] out pos el fits c = record {
  out' = out;
  returns = refl;
  same_length = refl;
  small = c.small;
  before = λ j lt. refl;
  values_back = refl;
}
pack_loop-Packs (v ∷ values) out pos el fits c =
    let (ws, rs) = write_bits-lem 17 v out pos (omega arith) c in
    let rest =
      pack_loop-Packs values (write_bits 17 v out pos) (pos + 17) el.1
        (omega (arith, ws.same_length)) ws.clean in
    let in_field : leb 65537 v ≡ false = is_element v el.0 in
    let kept : read_bits 17 rest.out' pos 0 ≡ read_bits 17 (write_bits 17 v out pos) pos 0 =
      read_bits-same 17 rest.out' (write_bits 17 v out pos) pos 0 (λ j lo hi. rest.before j hi) in
    record {
      out' = rest.out';
      returns = rw in_field rest.returns;
      same_length = rest.same_length ∙ ws.same_length;
      small = rest.small;
      before = λ j lt. rest.before j (omega arith) ∙ ws.before j lt;
      values_back = ap₂ ◌∷◌ (kept ∙ rs.value 0 (omega arith) ∙ whole v el.0) rest.values_back;
    }
  where
    is_element : (v : ℕ) → v < 65537 → leb 65537 v ≡ false
    is_element v h = ground arith

    whole : (v : ℕ) → v < 65537 → 0 * 2 ^ 17 + v % 2 ^ 17 ≡ v
    whole v h = omega arith

zero_entry : (n j : ℕ) → get_or {A = ℕ} (replicate n 0) j 0 ≡ 0
zero_entry zero j = refl
zero_entry (suc n) zero = refl
zero_entry (suc n) (suc j) = zero_entry n j

blank-IsClean : IsClean (replicate 34 0) 0
blank-IsClean = record {
  current = refl;
  later = λ j lt. zero_entry 34 j;
  small = λ j. rw (zero_entry 34 j) (omega arith);
}

Bytes-get_or : (bytes : List ℕ) → ((j : ℕ) → get_or bytes j 0 < 256) → Bytes bytes
Bytes-get_or [] h = tt
Bytes-get_or (b ∷ bytes) h = (h 0, Bytes-get_or bytes (λ j. h (suc j)))

-- The packed text of sixteen field elements.
pub record IsPacked (values : List ℕ) : Type 0 where
  pub text : Str
  pub packs : pack_y_chunks_hex values ≡ ok text
  pub form : HexForm text
  pub unpacks : unpack_y_chunks_hex text ≡ ok values

-- Sixteen field elements are packed without an error, and unpacking gives them back.
pub pack_y_chunks_hex-IsPacked :
    (values : List ℕ) → Elements values → length values ≡ 16 → IsPacked values
unfolding pack_y_chunks_hex unpack_y_chunks_hex
pack_y_chunks_hex-IsPacked values el len =
    let p = pack_loop-Packs values (replicate 34 0) 0 el (omega arith) blank-IsClean in
    let bytes = Bytes-get_or p.out' p.small in
    let f = text_form p.out' bytes p.same_length in
    record {
      text = bytes_to_hex p.out' true;
      packs = rw p.returns;
      form = f;
      unpacks =
          rw
            (
              ensure_0x_hex-HexForm (bytes_to_hex p.out' true) f,
              hex_to_bytes-bytes_to_hex p.out' bytes (nonempty p.out' p.same_length),
              p.same_length,
            )
            (ap ok (ap (λ (t : ℕ). unpack_loop t p.out' 0) (sym len) ∙ p.values_back));
    }
  where
    nonempty : (xs : List ℕ) → length xs ≡ 34 → xs ≢ []
    nonempty [] h e = absurd (omega arith)
    nonempty (x ∷ xs) h e = cc

    text_form : (xs : List ℕ) → Bytes xs → length xs ≡ 34 → HexForm (bytes_to_hex xs true)
    text_form [] b h = absurd (omega arith)
    text_form (x ∷ xs) b h =
        unfold bytes_to_hex hex_of_bytes in
        record {
          body = hex_of_bytes (x ∷ xs);
          form = refl;
          digits = hex_of_bytes-LowerHex (x ∷ xs) b;
          some_digit = refl;
        }
