-- ===== src/Id/Bits.antt =====
-- The bits of a key determine it, and `set_bit` of src/util.cpp against `bit`.
use Prim.Native.Nat.{bit_and}
use btdht.Prelude.{
  ◌↔◌, ℕ, zero, suc, ◌+◌, ◌-◌, ◌*◌, ◌/◌, ◌%◌, ◌^◌, ◌<◌, ◌≡◌, refl, sym, ap, ◌∙◌, inl, inr, Bool,
  true, false, not, ◌&&◌, [], ◌∷◌, arith, ◌==◌, if◌then◌else◌, length, get_or, set, All, ==_iff,
  ltb, ltb→lt, ltb→le, Bool-cases,
}
use btdht.Prelude.Bytes.{Byte}
use btdht.Id.{Key, bits, bit, rank, set_word, set_bit}
use btdht.Id.Rank.{rank-IsPrefixLength}

-- A test at each number under the bound, by one evaluation.
survey : (ℕ → Bool) → ℕ → Bool
survey test zero = true
survey test (suc top) = let below = survey test top in if test top then below else false

survey-true : (test : ℕ → Bool) (bound k : ℕ) → k < bound → survey test bound ≡ true → test k ≡ true
unfolding survey
survey-true test zero k less done = absurd (omega arith)
survey-true test (suc top) k less done = elim (Bool-cases (k == top)) [
  | inl last ↦ let here : k ≡ top = (==_iff k top).0 last in rw here (ground arith)
  | inr inner ↦ survey-true test top k (ground arith) (ground arith)
]

-- Bit `k` of a byte, from the high end.
abbrev byte_bit : Byte → ℕ → Bool
byte_bit x k = not (bit_and x (128 / 2 ^ k) == 0)

abbrev weight : Bool → ℕ → ℕ
weight v w = if v then w else 0

abbrev bits_sum : (ℕ → Bool) → ℕ
bits_sum f =
    weight (f 0) 128
    + weight (f 1) 64
    + weight (f 2) 32
    + weight (f 3) 16
    + weight (f 4) 8
    + weight (f 5) 4
    + weight (f 6) 2
    + weight (f 7) 1

bits_table : survey (λ x. bits_sum (byte_bit x) == x) 256 ≡ true
unfolding survey
bits_table = refl

byte_of_bits : (x : Byte) → x < 256 → bits_sum (byte_bit x) ≡ x
byte_of_bits x h = (==_iff _ x).0 (survey-true _ 256 x h bits_table)

-- Two bytes with the same bits are the same.
byte_ext :
    (x y : Byte) → x < 256 → y < 256 → ((k : ℕ) → k < 8 → byte_bit x k ≡ byte_bit y k) → x ≡ y
byte_ext x y hx hy h =
    sym (byte_of_bits x hx)
    ∙ (λ i.
        weight (h 0 (omega arith) i) 128
        + weight (h 1 (omega arith) i) 64
        + weight (h 2 (omega arith) i) 32
        + weight (h 3 (omega arith) i) 16
        + weight (h 4 (omega arith) i) 8
        + weight (h 5 (omega arith) i) 4
        + weight (h 6 (omega arith) i) 2
        + weight (h 7 (omega arith) i) 1)
    ∙ byte_of_bits y hy

abbrev pub IsByte : Byte → Type 0
IsByte x = x < 256

-- A key of the program: twenty bytes.
pub record IsKey (a : Key) : Type 0 where
  pub size : length a ≡ 20
  pub bytes : All IsByte a

get_or-IsByte : (a : Key) (j : ℕ) → All IsByte a → get_or a j 0 < 256
get_or-IsByte [] j h = omega arith
get_or-IsByte (x ∷ a) zero h = h.0
get_or-IsByte (x ∷ a) (suc j) h = get_or-IsByte a j h.1

key_ext :
    (a b : Key)
    → length a ≡ length b
    → ((j : ℕ) → j < length a → get_or a j 0 ≡ get_or b j 0)
    → a ≡ b
key_ext [] [] e h = refl
key_ext [] (y ∷ b) e h = absurd (omega arith)
key_ext (x ∷ a) [] e h = absurd (omega arith)
key_ext (x ∷ a) (y ∷ b) e h =
    λ i. h 0 (omega arith) i ∷ key_ext a b (omega arith) (λ j lt. h (suc j) (omega arith)) i

bit-byte_bit : (a : Key) (j k : ℕ) → k < 8 → bit a (8 * j + k) ≡ byte_bit (get_or a j 0) k
unfolding bit
bit-byte_bit a j k h =
    let word : (8 * j + k) / 8 ≡ j = omega arith in
    let index : (8 * j + k) % 8 ≡ k = omega arith in λ i. byte_bit (get_or a (word i) 0) (index i)

-- Of two keys of twenty bytes, the rank is 160 exactly when they are the same key.
pub rank-self_iff : (a b : Key) → IsKey a → IsKey b → (rank a b ≡ bits) ↔ (a ≡ b)
rank-self_iff a b ha hb = (same, back)
  where
    same : rank a b ≡ bits → a ≡ b
    same e =
        let prefix = rank-IsPrefixLength a b in
        key_ext a b (ha.size ∙ sym hb.size) (λ j lt.
          byte_ext _ _ (get_or-IsByte a j ha.bytes) (get_or-IsByte b j hb.bytes) (λ k hk.
            sym (bit-byte_bit a j k hk)
            ∙ prefix.agree (8 * j + k) (omega (arith, ha.size))
            ∙ bit-byte_bit b j k hk))

    back : a ≡ b → rank a b ≡ bits
    back e = elim (Bool-cases (ltb (rank a b) bits)) [
      | inl less ↦
          let prefix = rank-IsPrefixLength a b in
          absurd (prefix.differ (ltb→lt _ _ less) (ap (λ (c : Key). bit c (rank a b)) e))
      | inr top ↦
          let prefix = rank-IsPrefixLength a b in omega (arith, prefix.bound, ltb→le _ _ top)
    ]

-- What `set_word` does to each bit of a byte.
abbrev word_test : Bool → ℕ → ℕ → Byte → Bool
word_test v k j x =
    let wanted = if j + k == 7 then v else byte_bit x j in
    if byte_bit (set_word x (2 ^ k) v) j then wanted else not wanted

word_table :
    survey (λ k. survey (λ j. survey (λ x. word_test true k j x && word_test false k j x) 256) 8) 8
    ≡ true
unfolding survey
word_table = refl

word_tests :
    (k j : ℕ) (x : Byte)
    → k < 8
    → j < 8
    → x < 256
    → word_test true k j x && word_test false k j x ≡ true
word_tests k j x hk hj hx =
    survey-true _ 256 x hx (survey-true _ 8 j hj (survey-true _ 8 k hk word_table))

test_sound : (p q : Bool) → (if p then q else not q) ≡ true → p ≡ q
test_sound true q h = sym h
test_sound false true h = cc
test_sound false false h = refl

and_left : (p q : Bool) → p && q ≡ true → p ≡ true
and_left p q h = ground arith

and_right : (p q : Bool) → p && q ≡ true → q ≡ true
and_right p q h = ground arith

word_bit :
    (v : Bool) (k j : ℕ) (x : Byte)
    → k < 8
    → j < 8
    → x < 256
    → byte_bit (set_word x (2 ^ k) v) j ≡ (if j + k == 7 then v else byte_bit x j)
word_bit true k j x hk hj hx =
    test_sound _ _
      (and_left (word_test true k j x) (word_test false k j x) (word_tests k j x hk hj hx))
word_bit false k j x hk hj hx =
    test_sound _ _
      (and_right (word_test true k j x) (word_test false k j x) (word_tests k j x hk hj hx))

get_or-set :
    (a : Key) (i j : ℕ) (v : Byte)
    → i < length a
    → get_or (set a i v) j 0 ≡ (if j == i then v else get_or a j 0)
get_or-set [] i j v h = absurd (omega arith)
get_or-set (x ∷ a) zero zero v h = refl
get_or-set (x ∷ a) zero (suc j) v h = ground arith
get_or-set (x ∷ a) (suc i) zero v h = ground arith
get_or-set (x ∷ a) (suc i) (suc j) v h = ground (arith, get_or-set a i j v)

-- `set_bit` counts the bits of a byte from its low end and `bit` from its high end: setting the bit
-- `idx` sets what `bit` reads at the mirrored place of the same byte, and nothing else.
pub bit-set_bit :
    (a : Key) (idx j : ℕ) (v : Bool)
    → IsKey a
    → idx < bits
    → j < bits
    → bit (set_bit a idx v) j ≡ (if j == 8 * (idx / 8) + (7 - idx % 8) then v else bit a j)
unfolding bit set_bit
bit-set_bit a idx j v ha hi hj = elim (Bool-cases (j / 8 == idx / 8)) [
  | inl same ↦
      let at : j / 8 ≡ idx / 8 = (==_iff _ _).0 same in
      let place : (j % 8 + idx % 8 == 7) ≡ (j == 8 * (idx / 8) + (7 - idx % 8)) = ground arith in
      rw
        (
          get_or-set a (idx / 8) (j / 8) (set_word (get_or a (idx / 8) 0) (2 ^ (idx % 8)) v)
              (omega (arith, ha.size)),
          same,
          at,
        )
        (word_bit v (idx % 8) (j % 8) (get_or a (idx / 8) 0) (omega arith) (omega arith)
            (get_or-IsByte a (idx / 8) ha.bytes)
          ∙ (λ i. if place i then v else byte_bit (get_or a (idx / 8) 0) (j % 8)))
  | inr other ↦
      let place : (j == 8 * (idx / 8) + (7 - idx % 8)) ≡ false = ground arith in
      rw
        (
          get_or-set a (idx / 8) (j / 8) (set_word (get_or a (idx / 8) 0) (2 ^ (idx % 8)) v)
              (omega (arith, ha.size)),
          other,
          place,
        )
        refl
]
