-- ===== src/Util/Fuel.antt =====
-- The loops of `parse_semicolon_kv` and `split_csv_nonempty`, of cpp/url_utils.cpp and
-- cpp/text_utils.cpp, end by themselves, within as many rounds as the text is long.
use did_vc.Base.{
  ℕ, zero, suc, ◌<◌, ◌≤◌, ◌==◌, Str, Bool-cases, [], ◌∷◌, length, Option, none, some, ◌≡◌, refl,
  arith, inl, inr,
}
use did_vc.Util.{
  cut, next_text, found_or_none, semicolon_loop, parse_semicolon_kv, csv_loop, split_csv_nonempty,
}

-- What is behind the stop is shorter than the text.
abbrev Shorter : Option Str → ℕ → Type 0
Shorter none n = Unit
Shorter (some t) n = length t < n

Shorter-more : (o : Option Str) (n : ℕ) → Shorter o n → Shorter o (suc n)
Shorter-more none n h = tt
Shorter-more (some t) n h = omega arith

cut-Shorter : (stop : ℕ) (s : Str) → Shorter (cut stop s).1 (length s)
unfolding cut
cut-Shorter stop [] = tt
cut-Shorter stop (c ∷ cs) = elim (Bool-cases (c == stop)) [
  | inl here ↦ rw here (omega arith)
  | inr later ↦ rw later (Shorter-more (cut stop cs).1 (length cs) (cut-Shorter stop cs))
]

next_text_le : (o : Option Str) (n : ℕ) → Shorter o (suc n) → length (next_text o) ≤ n
next_text_le none n h = omega arith
next_text_le (some t) n h = omega arith

-- With as many rounds as the text has characters the loop comes to its end, and more rounds change
-- nothing.
semicolon_loop-ends :
    (f g : ℕ) (s : Str)
    → length s ≤ f
    → length s ≤ g
    → semicolon_loop f s ≡ some (found_or_none (semicolon_loop g s))
unfolding semicolon_loop
semicolon_loop-ends f g [] hf hg = refl
semicolon_loop-ends zero g (c ∷ cs) hf hg = absurd (omega arith)
semicolon_loop-ends (suc f) zero (c ∷ cs) hf hg = absurd (omega arith)
semicolon_loop-ends (suc f) (suc g) (c ∷ cs) hf hg =
    let rest = next_text (cut b';' (c ∷ cs)).1 in
    let le = next_text_le (cut b';' (c ∷ cs)).1 (length cs) (cut-Shorter b';' (c ∷ cs)) in
    let here = semicolon_loop-ends f g rest (omega arith) (omega arith) in
    let there = semicolon_loop-ends g g rest (omega arith) (omega arith) in rw (here, there) refl

-- The loop of `parse_semicolon_kv` comes to its end in as many rounds as the text has characters, and
-- in any larger number of rounds it finds what `parse_semicolon_kv` gives.
pub parse_semicolon_kv-rounds :
    (f : ℕ) (s : Str) → length s ≤ f → semicolon_loop f s ≡ some (parse_semicolon_kv s)
unfolding parse_semicolon_kv
parse_semicolon_kv-rounds f s h = semicolon_loop-ends f (length s) s h (omega arith)

Shorter-weaken : (o : Option Str) (m n : ℕ) → m ≤ n → Shorter o m → Shorter o n
Shorter-weaken none m n le h = tt
Shorter-weaken (some t) m n le h = omega arith

csv_loop-ends :
    (f g : ℕ) (o : Option Str)
    → Shorter o f
    → Shorter o g
    → csv_loop f o ≡ some (found_or_none (csv_loop g o))
unfolding csv_loop
csv_loop-ends f g none hf hg = refl
csv_loop-ends zero g (some s) hf hg = absurd (omega arith)
csv_loop-ends (suc f) zero (some s) hf hg = absurd (omega arith)
csv_loop-ends (suc f) (suc g) (some s) hf hg =
    let behind = cut-Shorter b',' s in
    let few = Shorter-weaken (cut b',' s).1 (length s) f (omega arith) behind in
    let many = Shorter-weaken (cut b',' s).1 (length s) g (omega arith) behind in
    let here = csv_loop-ends f g (cut b',' s).1 few many in
    let there = csv_loop-ends g g (cut b',' s).1 many many in rw (here, there) refl

-- The loop of `split_csv_nonempty` comes to its end in more rounds than the text has characters, and
-- then it finds what `split_csv_nonempty` gives.
split_csv_nonempty-rounds :
    (f : ℕ) (s : Str) → length s < f → csv_loop f (some s) ≡ some (split_csv_nonempty s)
unfolding split_csv_nonempty
split_csv_nonempty-rounds f s h = csv_loop-ends f (suc (length s)) (some s) h (omega arith)
