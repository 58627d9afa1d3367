-- ===== src/Id/Rank.antt =====
-- `rank` of src/util.cpp is the length of the longest common prefix of two keys.
use Prim.Native.Nat.{min}
use btdht.Prelude.{
  ℕ, zero, suc, ◌+◌, ◌≤◌, ◌<◌, ◌≡◌, ◌≢◌, refl, sym, ap, ◌∙◌, inl, inr, Bool, true, false, arith,
  Bool-cases, ltb, ltb→lt, ltb→le,
}
use btdht.Id.{Key, bits, bit, bool_eq, rank_loop, rank}

bool_eq_sound : (a b : Bool) → bool_eq a b ≡ true → a ≡ b
bool_eq_sound true true h = refl
bool_eq_sound false false h = refl
bool_eq_sound true false h = cc
bool_eq_sound false true h = cc

bool_eq_refl : (a : Bool) → bool_eq a a ≡ true
bool_eq_refl true = refl
bool_eq_refl false = refl

-- The first `n` bits of the keys agree.
abbrev pub Agree : Key → Key → ℕ → Type 0
Agree a b n = (j : ℕ) → j < n → bit a j ≡ bit b j

-- `r` is the length of the longest common prefix, among the first `limit` bits.
pub record IsPrefixLength (a b : Key) (limit r : ℕ) : Type 0 where
  pub bound : r ≤ limit
  pub agree : Agree a b r
  pub differ : r < limit → bit a r ≢ bit b r

Agree-suc : (a b : Key) (i : ℕ) → Agree a b i → bit a i ≡ bit b i → Agree a b (i + 1)
Agree-suc a b i h e j lt = elim (Bool-cases (ltb j i)) [
  | inl below ↦ h j (ltb→lt j i below)
  | inr top ↦
      let last : j ≡ i = omega (arith, ltb→le j i top) in
      ap (λ (k : ℕ). bit a k) last ∙ e ∙ ap (λ (k : ℕ). bit b k) (sym last)
]

rank_loop-IsPrefixLength :
    (left : ℕ) (a b : Key) (i : ℕ)
    → Agree a b i
    → IsPrefixLength a b (i + left) (rank_loop left a b i)
unfolding rank_loop
rank_loop-IsPrefixLength zero a b i h = record {
  bound = omega arith;
  agree = h;
  differ = λ lt. absurd (omega arith);
}
rank_loop-IsPrefixLength (suc left) a b i h = elim (Bool-cases (bool_eq (bit a i) (bit b i))) [
  | inl same ↦
      let rest =
        rank_loop-IsPrefixLength left a b (i + 1) (Agree-suc a b i h (bool_eq_sound _ _ same)) in
      rw same (record {
        bound = omega (arith, rest.bound);
        agree = rest.agree;
        differ = λ lt. rest.differ (omega arith);
      })
  | inr other ↦ rw other (record {
    bound = omega arith;
    agree = h;
    differ = λ lt e.
        let same : bool_eq (bit a i) (bit b i) ≡ true =
          ap (λ (v : Bool). bool_eq (bit a i) v) (sym e) ∙ bool_eq_refl (bit a i) in
        cc (sym other ∙ same);
  })
]

-- `rank` is the length of the longest common prefix of the two keys, 160 where all bits agree.
pub rank-IsPrefixLength : (a b : Key) → IsPrefixLength a b bits (rank a b)
unfolding rank
rank-IsPrefixLength a b = rank_loop-IsPrefixLength 160 a b 0 (λ j h. elim h [ ])

-- There is only one such length.
pub IsPrefixLength-eq :
    (a b : Key) (limit r s : ℕ) → IsPrefixLength a b limit r → IsPrefixLength a b limit s → r ≡ s
IsPrefixLength-eq a b limit r s h k = elim (Bool-cases (ltb r s)) [
  | inl less ↦ let lt = ltb→lt r s less in absurd (h.differ (omega (arith, k.bound)) (k.agree r lt))
  | inr rest ↦ elim (Bool-cases (ltb s r)) [
    | inl more ↦
        let lt = ltb→lt s r more in absurd (k.differ (omega (arith, h.bound)) (h.agree s lt))
    | inr same ↦ omega (arith, ltb→le r s rest, ltb→le s r same)
  ]
]

IsPrefixLength-comm :
    (a b : Key) (limit r : ℕ) → IsPrefixLength a b limit r → IsPrefixLength b a limit r
IsPrefixLength-comm a b limit r h = record {
  bound = h.bound;
  agree = λ j lt. sym (h.agree j lt);
  differ = λ lt e. h.differ lt (sym e);
}

-- Rank is symmetric, so it does not matter whether it is asked of the table's id or the contact's.
pub rank_comm : (a b : Key) → rank a b ≡ rank b a
rank_comm a b =
    IsPrefixLength-eq a b bits _ _ (rank-IsPrefixLength a b)
      (IsPrefixLength-comm b a bits _ (rank-IsPrefixLength b a))

-- Two keys share with each other at least as many leading bits as both share with a third.
pub rank_ultrametric : (a b c : Key) → min (rank a b) (rank b c) ≤ rank a c
rank_ultrametric a b c = elim (Bool-cases (ltb (rank a c) (min (rank a b) (rank b c)))) [
  | inl less ↦
      let lt = ltb→lt _ _ less in
      let ab = rank-IsPrefixLength a b in
      let ac = rank-IsPrefixLength a c in
      let bc = rank-IsPrefixLength b c in
      absurd (
        ac.differ (omega (arith, ab.bound))
          (ab.agree (rank a c) (omega arith) ∙ bc.agree (rank a c) (omega arith)))
  | inr rest ↦ ltb→le _ _ rest
]

-- Where two ranks differ, the third is the smaller of them.
pub rank_isosceles : (a b c : Key) → rank a b < rank b c → rank a c ≡ rank a b
rank_isosceles a b c h =
    let up = rank_ultrametric a b c in
    let down = rank_ultrametric a c b in omega (arith, up, down, rank_comm c b)
