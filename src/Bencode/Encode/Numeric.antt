-- ===== src/Bencode/Encode/Numeric.antt =====
-- `encode_numeric` of src/bencode.cpp: the terminating zero of `snprintf` is overwritten by the byte
-- that follows the digits, and a number that fills the buffer to its last byte is never kept.
use btdht.Prelude.{
  ℕ, zero, suc, ◌+◌, ◌-◌, ◌≤◌, ◌<◌, ◌≡◌, refl, ap, sym, ◌∙◌, inl, inr, true, false, List, [], ◌∷◌,
  ◌++◌, arith, ltb, ◌==◌, Bool-cases, ltb→le, le→ltb, length, length-append, take, set,
  if◌then◌else◌,
}
use btdht.Prelude.Bytes.{Byte, store, store-append, length-store, take-store}
use btdht.Sp.{Buffer, IsValid}
use btdht.Bencode.Spec.{Aborted}
use btdht.Bencode.Encode.{Writer, ◌then◌, snprintf, encode_numeric}
use btdht.Bencode.Encode.Contract.{Emits, Aborted-after}

length-snprintf :
    (raw : List Byte) (i n : ℕ) (text : List Byte) → length (snprintf raw i n text) ≡ length raw
unfolding snprintf
length-snprintf raw i n text = ground (arith, length-store raw i (take (n - 1) text ++ 0 ∷ []))

take-snprintf :
    (raw : List Byte) (i n : ℕ) (text : List Byte) → take i (snprintf raw i n text) ≡ take i raw
unfolding snprintf
take-snprintf raw i n text = ground (arith, take-store raw i i (take (n - 1) text ++ 0 ∷ []))

take_all {ℓ} : {A : Type ℓ} (n : ℕ) (xs : List A) → length xs ≤ n → take n xs ≡ xs
take_all zero [] h = refl
take_all zero (x ∷ xs) h = absurd (omega arith)
take_all (suc n) [] h = refl
take_all (suc n) (x ∷ xs) h = ap (◌∷◌ x) (take_all n xs (omega arith))

-- With room for the zero the whole text is printed.
snprintf_whole :
    (raw : List Byte) (i n : ℕ) (text : List Byte)
    → length text < n
    → snprintf raw i n text ≡ store raw i (text ++ 0 ∷ [])
unfolding snprintf
snprintf_whole raw i n text h =
    let some_room : (n == 0) ≡ false = ground arith in
    rw (some_room, take_all (n - 1) text (omega arith)) refl

set-set : (raw : List Byte) (i : ℕ) (v w : Byte) → set (set raw i v) i w ≡ set raw i w
set-set [] i v w = refl
set-set (x ∷ raw) zero v w = refl
set-set (x ∷ raw) (suc i) v w = ap (◌∷◌ x) (set-set raw i v w)

-- The next byte overwrites the zero that `snprintf` leaves.
store_over_zero :
    (raw : List Byte) (i : ℕ) (text : List Byte) (y : Byte) (ys : List Byte)
    → store (store raw i (text ++ 0 ∷ [])) (i + length text) (y ∷ ys) ≡ store raw i (text ++ y ∷ ys)
store_over_zero raw i text y ys =
    rw
      (
        ← store-append raw i text (0 ∷ []),
        ← store-append raw i text (y ∷ ys),
        set-set (store raw i text) (i + length text) 0 y,
      )
      refl

-- The buffer after `encode_numeric` had room for the zero behind the digits too.
abbrev printed : Buffer → List Byte → Buffer
printed b text = record b { raw = store b.raw b.pos (text ++ 0 ∷ []); pos = b.pos + length text }

printed-IsValid :
    (b : Buffer) (text : List Byte)
    → IsValid b
    → b.pos + length text ≤ b.capacity
    → IsValid (printed b text)
printed-IsValid b text v h = record {
  size = v.size ∙ sym (length-store b.raw b.pos (text ++ 0 ∷ []));
  cursor = h;
}

encode_numeric-printed :
    (b : Buffer) (text : List Byte)
    → b.pos + length text < b.capacity
    → encode_numeric text b ≡ (true, printed b text)
unfolding encode_numeric
encode_numeric-printed b text h =
    rw
      (
        le→ltb b.capacity (b.pos + length text) (omega arith),
        snprintf_whole b.raw b.pos (b.capacity - b.pos) text (omega arith),
      )
      refl

-- What `encode_numeric` does to the buffer in every case.
record Scribbled (b b' : Buffer) : Type 0 where
  capacity : b'.capacity ≡ b.capacity
  filled : b'.length ≡ b.length
  size : length b'.raw ≡ length b.raw
  kept : take b.pos b'.raw ≡ take b.pos b.raw

module _ (text : List Byte) (k : Writer) (y : Byte) (ys : List Byte) (e : Emits k (y ∷ ys)) where
  numeric-then-refuses :
      (b : Buffer)
      → IsValid b
      → b.capacity < b.pos + length (text ++ y ∷ ys)
      → Aborted b ((encode_numeric text then k) b)
  unfolding encode_numeric
  numeric-then-refuses b v h = elim (Bool-cases (ltb b.capacity (b.pos + length text))) [
    | inl over ↦ rw over (record {
      failed = refl;
      capacity = refl;
      filled = refl;
      size = length-snprintf b.raw b.pos (b.capacity - b.pos) text;
      kept = take-snprintf b.raw b.pos (b.capacity - b.pos) text;
    })
    | inr under ↦
        let raw = snprintf b.raw b.pos (b.capacity - b.pos) text in
        let b' : Buffer = record b { raw = raw; pos = b.pos + length text } in
        let size = length-snprintf b.raw b.pos (b.capacity - b.pos) text in
        let valid : IsValid b' = record { size = v.size ∙ sym size; cursor = ltb→le _ _ under } in
        rw under (
          Aborted-after b b' (k b') refl refl size
            (take-snprintf b.raw b.pos (b.capacity - b.pos) text) (omega arith)
            (e.refuses b' valid (omega (arith, length-append text (y ∷ ys)))))
  ]

  -- Digits and what follows them.
  pub numeric-then-Emits : Emits (encode_numeric text then k) (text ++ y ∷ ys)
  numeric-then-Emits = record {
    fits = λ b v h.
        let sum = length-append text (y ∷ ys) in
        rw (encode_numeric-printed b text (omega arith)) (
          e.fits (printed b text) (printed-IsValid b text v (omega arith)) (omega arith) ∙ λ i.
          (true, record b { raw = store_over_zero b.raw b.pos text y ys i; pos = position b i }));
    refuses = numeric-then-refuses;
  }
    where
      position :
          (b : Buffer) → b.pos + length text + length (y ∷ ys) ≡ b.pos + length (text ++ y ∷ ys)
      position b = omega (arith, length-append text (y ∷ ys))
