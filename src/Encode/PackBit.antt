-- ===== src/Encode/PackBit.antt =====
-- One bit of the packed shares: writing it, reading it back, and the bits it leaves alone.
use Prim.Native.Nat.{bit_or}
use did_vc.Base.{
  ℕ, zero, suc, ◌-◌, ◌*◌, ◌/◌, ◌%◌, ◌^◌, ◌<◌, Bool, true, ◌&&◌, List, [], ◌∷◌, length, get_or, set,
  ◌≡◌, ◌≢◌, refl, ap, ◌∙◌, arith, ltb, ◌==◌, ==_iff, every_below, every_below-true, if◌then◌else◌,
  ◌⊎◌, inl, inr,
}
use did_vc.Encode.{write_bit, read_bit}

module _ {ℓ} {A : Type ℓ} where
  get_or-set_self : (xs : List A) (i : ℕ) (v d : A) → i < length xs → get_or (set xs i v) i d ≡ v
  get_or-set_self [] i v d h = absurd (omega arith)
  get_or-set_self (x ∷ xs) zero v d h = refl
  get_or-set_self (x ∷ xs) (suc i) v d h = get_or-set_self xs i v d (omega arith)

  get_or-set_ne :
      (xs : List A) (i j : ℕ) (v d : A) → i ≢ j → get_or (set xs i v) j d ≡ get_or xs j d
  get_or-set_ne [] i j v d h = refl
  get_or-set_ne (x ∷ xs) zero zero v d h = absurd (h refl)
  get_or-set_ne (x ∷ xs) zero (suc j) v d h = refl
  get_or-set_ne (x ∷ xs) (suc i) zero v d h = refl
  get_or-set_ne (x ∷ xs) (suc i) (suc j) v d h = get_or-set_ne xs i j v d (λ e. h (ap suc e))

  length-set : (xs : List A) (i : ℕ) (v : A) → length (set xs i v) ≡ length xs
  length-set [] i v = refl
  length-set (x ∷ xs) zero v = refl
  length-set (x ∷ xs) (suc i) v = ap suc (length-set xs i v)

-- The byte after writing `b` into its bit `m`, counted from the top.
abbrev byte_after : ℕ → ℕ → ℕ → ℕ
byte_after old m b = bit_or old (b * 2 ^ (7 - m) % 2 ^ 8) % 2 ^ 8

abbrev bit_of : ℕ → ℕ → ℕ
bit_of byte m = byte / 2 ^ (7 - m) % 2

byte_ok : ℕ → ℕ → ℕ → Bool
byte_ok old m b =
    ltb (byte_after old m b) 256
    && (byte_after old m b % 2 ^ (7 - m) == 0
        && (bit_of (byte_after old m b) m == b
            && every_below m (λ m'. bit_of (byte_after old m b) m' == bit_of old m')))

-- The bytes whose bits from `m` on are clear.
row_ok : ℕ → ℕ → Bool
row_ok old m = if old % 2 ^ (8 - m) == 0 then byte_ok old m 0 && byte_ok old m 1 else true

byte_table : every_below 256 (λ old. every_below 8 (row_ok old)) ≡ true
unfolding every_below row_ok byte_ok
byte_table = refl

record ByteStep (old m b : ℕ) : Type 0 where
  small : byte_after old m b < 256
  clear : byte_after old m b % 2 ^ (7 - m) ≡ 0
  written : bit_of (byte_after old m b) m ≡ b
  kept : (m' : ℕ) → m' < m → bit_of (byte_after old m b) m' ≡ bit_of old m'

byte_ok-ByteStep : (old m b : ℕ) → byte_ok old m b ≡ true → ByteStep old m b
unfolding byte_ok
byte_ok-ByteStep old m b h = record {
  small = ground arith;
  clear = ground arith;
  written = ground arith;
  kept = λ m' lt.
      (==_iff _ _).0
        (every_below-true m (λ k. bit_of (byte_after old m b) k == bit_of old k) m' all_kept lt);
}
  where
    all_kept : every_below m (λ k. bit_of (byte_after old m b) k == bit_of old k) ≡ true
    all_kept = ground arith

byte_step : (old m b : ℕ) → old < 256 → m < 8 → b < 2 → old % 2 ^ (8 - m) ≡ 0 → ByteStep old m b
byte_step old m b ho hm hb clear =
    let row = every_below-true 8 (row_ok old) m (every_below-true 256 _ old byte_table ho) hm in
    pick b hb (both (unfold row_ok in row))
  where
    both :
        (if old % 2 ^ (8 - m) == 0 then byte_ok old m 0 && byte_ok old m 1 else true) ≡ true
        → (byte_ok old m 0 ≡ true) × (byte_ok old m 1 ≡ true)
    both h = ground arith

    pick : (b : ℕ) → b < 2 → (byte_ok old m 0 ≡ true) × (byte_ok old m 1 ≡ true) → ByteStep old m b
    pick zero lt h = byte_ok-ByteStep old m 0 h.0
    pick (suc zero) lt h = byte_ok-ByteStep old m 1 h.1
    pick (suc (suc b)) lt h = absurd (omega arith)

-- Nothing has been written from the bit `pos` on, and every entry is a byte.
pub record IsClean (out : List ℕ) (pos : ℕ) : Type 0 where
  pub current : get_or out (pos / 8) 0 % 2 ^ (8 - pos % 8) ≡ 0
  pub later : (j : ℕ) → pos / 8 < j → get_or out j 0 ≡ 0
  pub small : (j : ℕ) → get_or out j 0 < 256

-- What writing `b` at `pos` does.
pub record IsWritten (out : List ℕ) (pos b : ℕ) (out' : List ℕ) : Type 0 where
  pub same_length : length out' ≡ length out
  pub clean : IsClean out' (suc pos)
  pub bit : read_bit out' pos ≡ b
  pub before : (j : ℕ) → j < pos → read_bit out' j ≡ read_bit out j

same_or_next :
    (pos : ℕ)
    → ((pos % 8 ≡ 7) × (suc pos / 8 ≡ suc (pos / 8)) × (suc pos % 8 ≡ 0))
      ⊎ ((suc pos / 8 ≡ pos / 8) × (suc pos % 8 ≡ suc (pos % 8)))
same_or_next pos = omega arith

module _ (out : List ℕ) (pos b : ℕ) (inside : pos / 8 < length out) (hb : b < 2)
    (c : IsClean out pos) where
  abbrev old : ℕ
  old = get_or out (pos / 8) 0

  abbrev new_byte : ℕ
  new_byte = byte_after old (pos % 8) b

  the_step : ByteStep old (pos % 8) b
  the_step = byte_step old (pos % 8) b (c.small (pos / 8)) (omega arith) hb c.current

  here : get_or (set out (pos / 8) new_byte) (pos / 8) 0 ≡ new_byte
  here = get_or-set_self out (pos / 8) new_byte 0 inside

  there : (j : ℕ) → pos / 8 ≢ j → get_or (set out (pos / 8) new_byte) j 0 ≡ get_or out j 0
  there j ne = get_or-set_ne out (pos / 8) j new_byte 0 ne

  place_cases : (j : ℕ) → (pos / 8 ≡ j) ⊎ (pos / 8 ≢ j)
  place_cases j = omega arith

  all_small : (j : ℕ) → get_or (set out (pos / 8) new_byte) j 0 < 256
  all_small j = elim (place_cases j) [
    | inl e ↦ rw (← e) (rw here the_step.small)
    | inr ne ↦ rw (there j ne) (c.small j)
  ]

  IsClean-after : IsClean (set out (pos / 8) new_byte) (suc pos)
  IsClean-after = elim (same_or_next pos) [
    | inl (last, q, r) ↦ record {
      current =
          rw (q, r)
            (rw (there (suc (pos / 8)) (omega arith), c.later (suc (pos / 8)) (omega arith)) refl);
      later = λ j lt. there j (omega arith) ∙ c.later j (omega arith);
      small = all_small;
    }
    | inr (q, r) ↦ record {
      current = rw (q, r) (rw here (bits_left _ (pos % 8) the_step.clear));
      later = λ j lt. there j (omega arith) ∙ c.later j (omega arith);
      small = all_small;
    }
  ]
    where
      bits_left : (x m : ℕ) → x % 2 ^ (7 - m) ≡ 0 → x % 2 ^ (8 - suc m) ≡ 0
      bits_left x m h = let e : 8 - suc m ≡ 7 - m = omega arith in rw e h

  bit_after : read_bit (set out (pos / 8) new_byte) pos ≡ b
  unfolding read_bit
  bit_after = rw here the_step.written

  bits_before : (j : ℕ) → j < pos → read_bit (set out (pos / 8) new_byte) j ≡ read_bit out j
  unfolding read_bit
  bits_before j lt = elim (place_cases (j / 8)) [
    | inl e ↦ rw (← e) (rw here (the_step.kept (j % 8) (omega arith)))
    | inr ne ↦ rw (there (j / 8) ne) refl
  ]

  pub write_bit-IsWritten : IsWritten out pos b (write_bit out pos b)
  unfolding write_bit
  write_bit-IsWritten = record {
    same_length = length-set out (pos / 8) new_byte;
    clean = IsClean-after;
    bit = bit_after;
    before = bits_before;
  }
