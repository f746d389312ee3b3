-- ===== src/Committee/Invalidate.antt =====
-- `/invalidateShares` of cpp/committee_node.cpp: the shares of the version become inactive.
use did_vc.Base.{
  ℕ, Str, str_eq, str_eq_iff, false, Bool-cases, List, [], ◌∷◌, Option, none, some, ◌≡◌, ◌≢◌, ◌⊎◌,
  inl, inr, refl, sym, ◌∙◌, ap, subst,
}
use did_vc.Committee.Map.{Shares, StoredEnvelope, find, put, In, find-put_same, find-put_other}
use did_vc.Committee.Handlers.{deactivated, invalidate_found, invalidate_loop}

-- What the loop leaves under a key: a share that is not active if it was in the way of the loop, and
-- else what it found.
abbrev pub Inactive : Option StoredEnvelope → Type 0
Inactive none = Unit
Inactive (some s) = s.env.active ≡ false

-- The entry under a key after a step at `key`.
step-Inactive :
    (key : Str) (reason : Str) (now : ℕ → ℕ) (mc : Shares × ℕ)
    → Inactive (find key (invalidate_found (find key mc.0) key reason now mc).0)
step-Inactive key reason now mc = go (find key mc.0) refl
  where
    go :
        (o : Option StoredEnvelope)
        → find key mc.0 ≡ o
        → Inactive (find key (invalidate_found o key reason now mc).0)
    go none e = rw e tt
    go (some s) e = elim (Bool-cases s.env.active) [
      | inl on ↦ rw (on, find-put_same key (deactivated s reason (now mc.1)) mc.0) refl
      | inr off ↦ rw (off, e) off
    ]

pub step-other :
    (other key : Str) (reason : Str) (now : ℕ → ℕ) (mc : Shares × ℕ)
    → other ≢ key
    → find other (invalidate_found (find key mc.0) key reason now mc).0 ≡ find other mc.0
step-other other key reason now mc ne = go (find key mc.0)
  where
    go :
        (o : Option StoredEnvelope)
        → find other (invalidate_found o key reason now mc).0 ≡ find other mc.0
    go none = refl
    go (some s) = elim (Bool-cases s.env.active) [
      | inl on ↦ rw on (find-put_other other key (deactivated s reason (now mc.1)) mc.0 ne)
      | inr off ↦ rw off refl
    ]

pub Str-cases : (s t : Str) → (s ≡ t) ⊎ (s ≢ t)
Str-cases s t = elim (Bool-cases (str_eq s t)) [
  | inl same ↦ inl ((str_eq_iff s t).0 same)
  | inr differ ↦ inr (λ e. let p = (str_eq_iff s t).1 e in cc)
]

-- An inactive entry stays inactive.
pub loop_keeps :
    (keys : List Str) (reason : Str) (now : ℕ → ℕ) (mc : Shares × ℕ) (key : Str)
    → Inactive (find key mc.0)
    → Inactive (find key (invalidate_loop keys reason now mc).0)
unfolding invalidate_loop
loop_keeps [] reason now mc key h = h
loop_keeps (k ∷ keys) reason now mc key h =
    loop_keeps keys reason now (invalidate_found (find k mc.0) k reason now mc) key
      (elim (Str-cases key k) [
        | inl same ↦ rw same (step-Inactive k reason now mc)
        | inr differ ↦ rw (step-other key k reason now mc differ) h
      ])

pub loop-Inactive :
    (keys : List Str) (reason : Str) (now : ℕ → ℕ) (mc : Shares × ℕ) (key : Str)
    → In key keys
    → Inactive (find key (invalidate_loop keys reason now mc).0)
unfolding invalidate_loop
loop-Inactive [] reason now mc key h = elim h [ ]
loop-Inactive (k ∷ keys) reason now mc key (inl same) =
    loop_keeps keys reason now (invalidate_found (find k mc.0) k reason now mc) key
      (rw same (step-Inactive k reason now mc))
loop-Inactive (k ∷ keys) reason now mc key (inr later) =
    loop-Inactive keys reason now (invalidate_found (find k mc.0) k reason now mc) key later

pub loop-other :
    (keys : List Str) (reason : Str) (now : ℕ → ℕ) (mc : Shares × ℕ) (key : Str)
    → (In key keys → ⊥)
    → find key (invalidate_loop keys reason now mc).0 ≡ find key mc.0
unfolding invalidate_loop
loop-other [] reason now mc key h = refl
loop-other (k ∷ keys) reason now mc key h =
    loop-other keys reason now (invalidate_found (find k mc.0) k reason now mc) key
      (λ later. h (inr later))
    ∙ step-other key k reason now mc (λ e. h (inl e))

-- A share that the loop leaves was there before, under the same key and for the same version.
pub record Origin (key : Str) (m : Shares) (s : StoredEnvelope) : Type 0 where
  pub before : StoredEnvelope
  pub stood : find key m ≡ some before
  pub id_hash : s.env.id_hash ≡ before.env.id_hash
  pub ver : s.env.ver ≡ before.env.ver
  pub epoch : s.env.epoch ≡ before.env.epoch
  pub share_key : s.share_key ≡ before.share_key

step-Origin :
    (key : Str) (reason : Str) (now : ℕ → ℕ) (mc : Shares × ℕ) (s : StoredEnvelope)
    → find key (invalidate_found (find key mc.0) key reason now mc).0 ≡ some s
    → Origin key mc.0 s
step-Origin key reason now mc s h = go (find key mc.0) refl h
  where
    same : (t : StoredEnvelope) → find key mc.0 ≡ some t → t ≡ s → Origin key mc.0 s
    same t e q = record {
      before = t;
      stood = e;
      id_hash = ap (λ (z : StoredEnvelope). z.env.id_hash) (sym q);
      ver = ap (λ (z : StoredEnvelope). z.env.ver) (sym q);
      epoch = ap (λ (z : StoredEnvelope). z.env.epoch) (sym q);
      share_key = ap (λ (z : StoredEnvelope). z.share_key) (sym q);
    }

    changed :
        (t : StoredEnvelope)
        → find key mc.0 ≡ some t
        → deactivated t reason (now mc.1) ≡ s
        → Origin key mc.0 s
    changed t e q = record {
      before = t;
      stood = e;
      id_hash = ap (λ (z : StoredEnvelope). z.env.id_hash) (sym q);
      ver = ap (λ (z : StoredEnvelope). z.env.ver) (sym q);
      epoch = ap (λ (z : StoredEnvelope). z.env.epoch) (sym q);
      share_key = ap (λ (z : StoredEnvelope). z.share_key) (sym q);
    }

    go :
        (o : Option StoredEnvelope)
        → find key mc.0 ≡ o
        → find key (invalidate_found o key reason now mc).0 ≡ some s
        → Origin key mc.0 s
    go none e k = absurd (cc)
    go (some t) e k = elim (Bool-cases t.env.active) [
      | inl on ↦
          let k' : find key (put key (deactivated t reason (now mc.1)) mc.0) ≡ some s =
            rw on at k in
          let p = find-put_same key (deactivated t reason (now mc.1)) mc.0 in changed t e (cc)
      | inr off ↦ let k' : find key mc.0 ≡ some s = rw off at k in same t e (cc)
    ]

pub loop-Origin :
    (keys : List Str) (reason : Str) (now : ℕ → ℕ) (mc : Shares × ℕ) (key : Str)
    (s : StoredEnvelope)
    → find key (invalidate_loop keys reason now mc).0 ≡ some s
    → Origin key mc.0 s
unfolding invalidate_loop
loop-Origin [] reason now mc key s h = record {
  before = s;
  stood = h;
  id_hash = refl;
  ver = refl;
  epoch = refl;
  share_key = refl;
}
loop-Origin (k ∷ keys) reason now mc key s h =
    let o = loop-Origin keys reason now (invalidate_found (find k mc.0) k reason now mc) key s h in
    elim (Str-cases key k) [
      | inl same ↦
          let p = step-Origin k reason now mc o.before (
            subst (λ z. find z (invalidate_found (find k mc.0) k reason now mc).0 ≡ some o.before)
              same o.stood) in
          record {
            before = p.before;
            stood = subst (λ z. find z mc.0 ≡ some p.before) (sym same) p.stood;
            id_hash = o.id_hash ∙ p.id_hash;
            ver = o.ver ∙ p.ver;
            epoch = o.epoch ∙ p.epoch;
            share_key = o.share_key ∙ p.share_key;
          }
      | inr differ ↦ record {
        before = o.before;
        stood = sym (step-other key k reason now mc differ) ∙ o.stood;
        id_hash = o.id_hash;
        ver = o.ver;
        epoch = o.epoch;
        share_key = o.share_key;
      }
    ]
