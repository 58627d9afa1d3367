-- ===== src/Bencode/Decode/Pairs.antt =====
-- The overloads of `pair` in src/bencode.cpp that read a key and a value.
use btdht.Prelude.{
  ℕ, ◌+◌, ◌-◌, ◌^◌, ◌≤◌, ◌<◌, ◌≡◌, refl, subst, not, none, List, [], ◌++◌, append-nil, arith, ltb,
  ◌==◌, le→ltb, lt→ltb, ltb→lt, ltb→le, length, inl, inr, Bool-cases, Option, some, if◌then◌else◌,
}
use btdht.Prelude.Bytes.{Byte, Holds}
use btdht.Prelude.Decimal.{decimal}
use btdht.Sp.{Buffer, Sp, SpLaws}
use btdht.Bencode.Spec.{string_text, integer_text}
use btdht.Bencode.Decode.{
  Reader, ◌>>=◌, ◌>>◌, return, guard, parse_string, parse_key_value, parse_key_valuex, pair_bool,
  pair_u64, pair_u32, pair_u16,
}
use btdht.Bencode.Decode.Contract.{
  IsReadable, Reads, bind-Reads, restoring-Reads, return-Reads, guard-Reads,
}
use btdht.Bencode.Decode.Reads.{parse_string-Reads, parse_key-Reads, parse_key_valuex-Reads}

-- The unsigned types that `pair` reads into.
pub data Width : Type 0 where
  w16 w32 w64 : Width

abbrev pub width_bits : Width → ℕ
width_bits w16 = 16
width_bits w32 = 32
width_bits w64 = 64

abbrev pub pair_of : Sp → Width → List Byte → Reader ℕ
pair_of sp w16 = pair_u16 sp
pair_of sp w32 = pair_u32 sp
pair_of sp w64 = pair_u64 sp

abbrev pub pair_text : List Byte → ℕ → List Byte
pair_text key n = string_text key ++ integer_text (decimal n)

module _ (sp : Sp) (laws : SpLaws sp) (key : List Byte) (hk : length key < 2 ^ 64) where
  pub parse_key_value-Reads :
      (str : List Byte) (len : ℕ)
      → length str < 2 ^ 64
      → length str ≤ len
      → Reads (parse_key_value sp key len) (string_text key ++ string_text str) str
  unfolding parse_key_value
  parse_key_value-Reads str len h fits = restoring-Reads _ _ str (
      bind-Reads _ _ (string_text key) (string_text str) tt str (parse_key-Reads sp laws key hk) (
        subst
          (λ text.
            Reads (parse_string sp >>= λ val. guard (not (ltb len (length val))) >> return val) text
              str)
          (append-nil (string_text str))
          (bind-Reads _ _ (string_text str) [] str str (parse_string-Reads sp laws str h) (
            guard-Reads _ _ [] str (ground (arith, le→ltb len (length str) fits))
              (return-Reads str)))))

  module _ (n : ℕ) (hn : n < 2 ^ 64) where
    number : Reads (parse_key_valuex sp key) (pair_text key n) n
    number = parse_key_valuex-Reads sp laws key n hk hn

    upto-Reads :
        (largest : ℕ)
        → n ≤ largest
        → Reads
            (parse_key_valuex sp key >>= λ t. guard (not (ltb largest t)) >> return t)
            (pair_text key n)
            n
    upto-Reads largest h =
        subst
          (λ text.
            Reads (parse_key_valuex sp key >>= λ t. guard (not (ltb largest t)) >> return t) text n)
          (append-nil (pair_text key n))
          (bind-Reads _ _ (pair_text key n) [] n n number
            (guard-Reads _ _ [] n (ground (arith, le→ltb largest n h)) (return-Reads n)))

    -- At every width that holds the number.
    pub pair_of-Reads :
        (w : Width) → n < 2 ^ width_bits w → Reads (pair_of sp w key) (pair_text key n) n
    unfolding pair_u64 pair_u32 pair_u16
    pair_of-Reads w64 h = restoring-Reads _ _ n number
    pair_of-Reads w32 h = restoring-Reads _ _ n (upto-Reads (2 ^ 32 - 1) (omega arith))
    pair_of-Reads w16 h = restoring-Reads _ _ n (upto-Reads (2 ^ 16 - 1) (omega arith))

    pub pair_bool-Reads : Reads (pair_bool sp key) (pair_text key n) (n == 1)
    unfolding pair_bool
    pair_bool-Reads =
        subst (λ text. Reads (parse_key_valuex sp key >>= λ t. return (t == 1)) text (n == 1))
          (append-nil (pair_text key n))
          (bind-Reads _ _ (pair_text key n) [] n (n == 1) number (return-Reads (n == 1)))

    -- What `pair` makes of the number: the value with the cursor behind it, or a refusal with the
    -- buffer as it was.
    abbrev pub number_or_refusal : Width → Buffer → Option ℕ × Buffer
    number_or_refusal w b =
        if ltb n (2 ^ width_bits w)
        then (some n, record b { pos = b.pos + length (pair_text key n) })
        else (none, b)

    pair_of-refuses :
        (w : Width) (b : Buffer)
        → IsReadable b
        → Holds b.raw b.pos (pair_text key n)
        → b.pos + length (pair_text key n) ≤ b.length
        → 2 ^ width_bits w ≤ n
        → pair_of sp w key b ≡ (none, b)
    unfolding pair_u32 pair_u16
    pair_of-refuses w64 b v h room large = absurd (omega arith)
    pair_of-refuses w32 b v h room large =
        rw (number.reads b v h room, lt→ltb (2 ^ 32 - 1) n (omega arith)) refl
    pair_of-refuses w16 b v h room large =
        rw (number.reads b v h room, lt→ltb (2 ^ 16 - 1) n (omega arith)) refl

    -- A number below 2^64 that stands at the cursor behind the key asked for, within the filled part,
    -- is read whole at 16, 32 or 64 bits, exactly if it is below two to that power, and is refused
    -- otherwise, with the buffer left as it was. The key is shorter than 2^64.
    pub pair_of_lem :
        (w : Width) (b : Buffer)
        → IsReadable b
        → Holds b.raw b.pos (pair_text key n)
        → b.pos + length (pair_text key n) ≤ b.length
        → pair_of sp w key b ≡ number_or_refusal w b
    pair_of_lem w b v h room = elim (Bool-cases (ltb n (2 ^ width_bits w))) [
      | inl small ↦ rw small ((pair_of-Reads w (ltb→lt _ _ small)).reads b v h room)
      | inr large ↦ rw large (pair_of-refuses w b v h room (ltb→le _ _ large))
    ]
