-- ===== src/Bencode/Encode/Correct.antt =====
-- The writers of src/bencode.cpp meet their contract: each writes its bencoded text or refuses.
use btdht.Prelude.{
  ℕ, suc, ◌+◌, ◌-◌, ◌≤◌, ◌<◌, ◌≡◌, refl, ap, ◌∙◌, Bool, true, false, List, [], ◌∷◌, ◌++◌, arith,
  lt→ltb, le→ltb, length, set, if◌then◌else◌,
}
use btdht.Prelude.Bytes.{Byte, store}
use btdht.Prelude.Decimal.{decimal}
use btdht.Prelude.Int.{ℤ, pos}
use btdht.Sp.{Buffer, Sp, SpLaws, IsValid}
use btdht.Bencode.Spec.{appended, Aborted, Encodes, string_text, integer_text, list_text, dict_text}
use btdht.Bencode.Encode.{
  Writer, ◌then◌, restoring, push_byte, put_char, encode_integer, value_uint, value_int, put_raw,
  encode_raw, list, dict, generic_encode_pair, put_colon, value_closure, signed_decimal, pair_str,
  pair_uint, pair_int, pair_bool, pair_bytes,
}
use btdht.Bencode.Encode.Contract.{
  Emits, Encodes-Emits, restoring-Encodes, then-Emits, appended-IsValid, appended-append,
}
use btdht.Bencode.Encode.Numeric.{numeric-then-Emits}

pub Aborted-unchanged : (b : Buffer) → Aborted b (false, b)
Aborted-unchanged b = record {
  failed = refl;
  capacity = refl;
  filled = refl;
  size = refl;
  kept = refl;
}

module _ (sp : Sp) (laws : SpLaws sp) where
  push_byte_lem :
      (b : Buffer) (c : Byte)
      → b.pos < b.capacity
      → push_byte sp c b ≡ record b { raw = set b.raw b.pos c; pos = b.pos + 1 }
  push_byte_lem b c h = rw (laws.put_lem b b.pos c h) refl

  put_char-Emits : (c : Byte) → Emits (put_char sp c) (c ∷ [])
  unfolding put_char
  put_char-Emits c = record {
    fits = λ b v h. rw (le→ltb b.capacity (b.pos + 1) h, push_byte_lem b c (omega arith)) refl;
    refuses = λ b v h. rw (lt→ltb b.capacity (b.pos + 1) h) (Aborted-unchanged b);
  }

  put_raw-Emits : (str : List Byte) → Emits (put_raw sp str) (b':' ∷ str)
  unfolding put_raw
  put_raw-Emits str = record {
    fits = λ b v h.
        let position : b.pos + 1 + length str ≡ b.pos + length (b':' ∷ str) = omega arith in
        let next : b.pos + 1 ≡ suc b.pos = omega arith in
        rw
          (
            le→ltb b.capacity (b.pos + length str + 1) (omega arith),
            laws.put_lem b b.pos b':' (omega arith),
          )
          (λ i.
            (true, record b { raw = store (set b.raw b.pos b':') (next i) str; pos = position i }));
    refuses = λ b v h.
        rw (lt→ltb b.capacity (b.pos + length str + 1) (omega arith)) (Aborted-unchanged b);
  }

  -- An unsigned integer is written as `i`, its digits and `e`.
  pub encode_integer-Encodes :
      (text : List Byte) → Encodes (encode_integer sp text) (integer_text text)
  unfolding encode_integer
  encode_integer-Encodes text = restoring-Encodes _ _ (
      then-Emits _ _ (b'i' ∷ []) (text ++ b'e' ∷ []) (put_char-Emits b'i')
        (numeric-then-Emits text (put_char sp b'e') b'e' [] (put_char-Emits b'e')))

  pub encode_raw-Encodes : (str : List Byte) → Encodes (encode_raw sp str) (string_text str)
  unfolding encode_raw
  encode_raw-Encodes str =
      restoring-Encodes _ _
        (numeric-then-Emits (decimal (length str)) (put_raw sp str) b':' str (put_raw-Emits str))

  put_colon-room :
      (raw_size : ℕ) (b : Buffer)
      → IsValid b
      → b.pos + raw_size + 1 ≤ b.capacity
      → put_colon sp raw_size b ≡ (true, appended b (b':' ∷ []))
  unfolding put_colon
  put_colon-room raw_size b v h =
      rw
        (
          laws.remaining_write_lem b v.cursor,
          le→ltb (b.capacity - b.pos) (raw_size + 1) (omega arith),
          laws.put_lem b b.pos b':' (omega arith),
        )
        refl

  put_colon-full :
      (raw_size : ℕ) (b : Buffer)
      → IsValid b
      → b.capacity < b.pos + raw_size + 1
      → put_colon sp raw_size b ≡ (false, b)
  unfolding put_colon
  put_colon-full raw_size b v h =
      rw
        (
          laws.remaining_write_lem b v.cursor,
          lt→ltb (b.capacity - b.pos) (raw_size + 1) (omega (arith, v.cursor)),
        )
        refl

  put_colon-Emits :
      (raw_size : ℕ) (f : Writer) (xs : List Byte)
      → Emits f xs
      → length xs ≡ raw_size
      → Emits (put_colon sp raw_size then f) (b':' ∷ xs)
  put_colon-Emits raw_size f xs e size = record {
    fits = λ b v h. rw (put_colon-room raw_size b v (omega arith)) (
        e.fits (appended b (b':' ∷ [])) (appended-IsValid b (b':' ∷ []) v (omega arith))
          (omega arith)
        ∙ ap (λ (c : Buffer). (true, c)) (appended-append b (b':' ∷ []) xs));
    refuses = λ b v h. rw (put_colon-full raw_size b v (omega arith)) (Aborted-unchanged b);
  }

  pub closure-Encodes :
      (f : Writer) (xs : List Byte)
      → Emits f xs
      → Encodes (value_closure sp (length xs) f) (string_text xs)
  unfolding value_closure
  closure-Encodes f xs e = restoring-Encodes _ _ (
      numeric-then-Emits (decimal (length xs)) (put_colon sp (length xs) then f) b':' xs
        (put_colon-Emits (length xs) f xs e refl))

  -- A string whose bytes a callback writes is written as `encode_raw` would write it, if the
  -- callback writes as many bytes as were announced.
  pub value_closure-Encodes :
      (f : Writer) (xs : List Byte)
      → Encodes f xs
      → Encodes (value_closure sp (length xs) f) (string_text xs)
  value_closure-Encodes f xs e = closure-Encodes f xs (Encodes-Emits f xs e)

  bracket-Encodes :
      (c : Byte) (f : Writer) (xs : List Byte)
      → Emits f xs
      → Encodes (restoring (put_char sp c then f then put_char sp b'e')) (c ∷ xs ++ b'e' ∷ [])
  bracket-Encodes c f xs e = restoring-Encodes _ _ (
      then-Emits _ _ (c ∷ []) (xs ++ b'e' ∷ []) (put_char-Emits c)
        (then-Emits f _ xs (b'e' ∷ []) e (put_char-Emits b'e')))

  pub bracketed-Encodes :
      (f : Writer) (xs : List Byte)
      → Emits f xs
      → Encodes (list sp f) (list_text xs) × Encodes (dict sp f) (dict_text xs)
  unfolding list dict
  bracketed-Encodes f xs e = (bracket-Encodes b'l' f xs e, bracket-Encodes b'd' f xs e)

  -- `list` and `dict` write their bracket, what their callback writes, and the end, whole or not at
  -- all, if the callback meets the contract of a writer.
  pub dict-Encodes :
      (f : Writer) (xs : List Byte)
      → Encodes f xs
      → Encodes (list sp f) (list_text xs) × Encodes (dict sp f) (dict_text xs)
  dict-Encodes f xs e = bracketed-Encodes f xs (Encodes-Emits f xs e)

  pub generic_encode_pair-Encodes :
      (key : List Byte) (val : Writer) (xs : List Byte)
      → Encodes val xs
      → Encodes (generic_encode_pair sp key val) (string_text key ++ xs)
  unfolding generic_encode_pair
  generic_encode_pair-Encodes key val xs e = restoring-Encodes _ _ (
      then-Emits _ val (string_text key) xs
        (Encodes-Emits (encode_raw sp key) (string_text key) (encode_raw-Encodes key))
        (Encodes-Emits val xs e))

  value_uint-Encodes : (n : ℕ) → Encodes (value_uint sp n) (integer_text (decimal n))
  unfolding value_uint
  value_uint-Encodes n = encode_integer-Encodes (decimal n)

  pub value_int-Encodes : (z : ℤ) → Encodes (value_int sp z) (integer_text (signed_decimal z))
  unfolding value_int
  value_int-Encodes z = encode_integer-Encodes (signed_decimal z)

  -- `pair` writes the key as a string and then the value's text, whole or not at all: strings and raw
  -- bytes as strings, unsigned numbers and signed numbers of 32 and 64 bits as integers, and a `bool`
  -- as the integer 0 or 1. The overload for a signed number of 16 bits is not among them.
  pub pair-Encodes :
      (key str : List Byte) (n : ℕ) (z : ℤ) (v : Bool)
      → Encodes (pair_str sp key str) (string_text key ++ string_text str)
        × Encodes (pair_bytes sp key str) (string_text key ++ string_text str)
        × Encodes (pair_uint sp key n) (string_text key ++ integer_text (decimal n))
        × Encodes (pair_int sp key z) (string_text key ++ integer_text (signed_decimal z))
        × Encodes
            (pair_bool sp key v)
            (string_text key ++ integer_text (decimal (if v then 1 else 0)))
  unfolding pair_str pair_bytes pair_uint pair_int pair_bool signed_decimal
  pair-Encodes key str n z v = (
    generic_encode_pair-Encodes key (encode_raw sp str) (string_text str) (encode_raw-Encodes str),
    restoring-Encodes _ _ (
        then-Emits _ _ (string_text key) (string_text str)
          (Encodes-Emits (encode_raw sp key) (string_text key) (encode_raw-Encodes key))
          (Encodes-Emits (encode_raw sp str) (string_text str) (encode_raw-Encodes str))),
    generic_encode_pair-Encodes key (value_uint sp n) _ (value_uint-Encodes n),
    generic_encode_pair-Encodes key (value_int sp z) _ (value_int-Encodes z),
    generic_encode_pair-Encodes key (value_int sp (pos (if v then 1 else 0))) _
        (value_int-Encodes (pos (if v then 1 else 0))),
  )
