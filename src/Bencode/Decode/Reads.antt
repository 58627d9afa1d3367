-- ===== src/Bencode/Decode/Reads.antt =====
-- What the readers of src/bencode.cpp accept: the texts that the protocol defines.
use btdht.Prelude.{
  ℕ, ◌+◌, ◌-◌, ◌^◌, ◌<◌, ◌≡◌, refl, ap, subst, some, List, [], ◌∷◌, ◌++◌, append_assoc, append-nil,
  arith, le→ltb, ne→==_false, length, length-append,
}
use btdht.Prelude.Bytes.{Byte, bytes_eq, bytes_eq_refl, Holds, slice-Holds}
use btdht.Prelude.Decimal.{decimal, length-decimal, decimal-pos, decimal-IsDigit}
use btdht.Sp.{Buffer, Sp, SpLaws}
use btdht.Bencode.Spec.{string_text, integer_text}
use btdht.Bencode.Decode.{
  ◌>>=◌, guard, peek_numeric, read_numeric, take_view, parse_string, parse_key, take_i,
  parse_valuex, parse_key_valuex,
}
use btdht.Bencode.Decode.Contract.{IsReadable, Reads, bind-Reads, restoring-Reads, passed-Reads}
use btdht.Bencode.Decode.Digits.{scan-digits, convert-some, parse_int-decimal}

module _ (sp : Sp) (laws : SpLaws sp) where
  pub read_numeric-found :
      (end : Byte) (n : ℕ)
      → 57 < end
      → n < 2 ^ 64
      → (b : Buffer) → IsReadable b
      → Holds b.raw b.pos (decimal n ++ end ∷ [])
      → b.pos < b.length
      → read_numeric sp end b ≡ (some n, record b { pos = b.pos + length (decimal n ++ end ∷ []) })
  unfolding read_numeric peek_numeric
  read_numeric-found end n he hn b v h room =
      let sum = length-append (decimal n) (end ∷ []) in
      let digits = length-decimal n in
      let p = b.pos + length (decimal n) + 1 in
      let found =
        scan-digits sp laws 32 b end b.pos [] (decimal n) v room he (decimal-IsDigit n)
          (omega arith) h in
      let position : b.pos + (p - b.pos) ≡ b.pos + length (decimal n ++ end ∷ []) = omega arith in
      rw
        (
          found,
          convert-some sp laws b.pos n p (decimal n) (decimal-pos n)
              (parse_int-decimal sp laws n hn),
        )
        (ap (λ (q : ℕ). (some n, record b { pos = q })) position)

  read_numeric-Reads :
      (end : Byte) (n : ℕ)
      → 57 < end
      → n < 2 ^ 64
      → Reads (read_numeric sp end) (decimal n ++ end ∷ []) n
  read_numeric-Reads end n he hn = record {
    reads = λ b v h room.
        read_numeric-found end n he hn b v h (omega (arith, length-append (decimal n) (end ∷ [])));
  }

  take_view-Reads : (str : List Byte) → Reads (take_view sp (length str)) str str
  unfolding take_view
  take_view-Reads str = record {
    reads = λ b v h room.
        rw
          (
            laws.remaining_read_lem b v.cursor,
            le→ltb (b.length - b.pos) (length str) (omega arith),
            slice-Holds b.raw b.pos str h,
          )
          refl;
  }

  -- A string that stands at the cursor and within the filled part is read whole.
  pub parse_string-Reads :
      (str : List Byte) → length str < 2 ^ 64 → Reads (parse_string sp) (string_text str) str
  unfolding parse_string
  parse_string-Reads str h = restoring-Reads _ _ str (
      subst (λ text. Reads (read_numeric sp b':' >>= take_view sp) text str)
        (append_assoc (decimal (length str)) (b':' ∷ []) str)
        (bind-Reads _ _ (decimal (length str) ++ b':' ∷ []) str (length str) str
          (read_numeric-Reads b':' (length str) (omega arith) h) (take_view-Reads str)))

  pub parse_key-Reads :
      (key : List Byte) → length key < 2 ^ 64 → Reads (parse_key sp key) (string_text key) tt
  unfolding parse_key
  parse_key-Reads key h = restoring-Reads _ _ tt (
      subst (λ text. Reads (parse_string sp >>= λ found. guard (bytes_eq key found)) text tt)
        (append-nil (string_text key))
        (bind-Reads _ _ (string_text key) [] key tt (parse_string-Reads key h)
          (passed-Reads _ (bytes_eq_refl key))))

  take_i-Reads : Reads (take_i sp) (b'i' ∷ []) tt
  unfolding take_i
  take_i-Reads = record {
    reads = λ b v h room.
        let left : sp.remaining_read b ≡ b.length - b.pos = laws.remaining_read_lem b v.cursor in
        rw (left, ne→==_false (b.length - b.pos) 0 (λ e. omega arith), h.1) refl;
  }

  -- `value` of an integer: `i`, its digits and `e`.
  pub parse_valuex-Reads :
      (n : ℕ) → n < 2 ^ 64 → Reads (parse_valuex sp) (integer_text (decimal n)) n
  unfolding parse_valuex
  parse_valuex-Reads n h = restoring-Reads _ _ n (
      bind-Reads _ _ (b'i' ∷ []) (decimal n ++ b'e' ∷ []) tt n take_i-Reads
        (read_numeric-Reads b'e' n (omega arith) h))

  pub parse_key_valuex-Reads :
      (key : List Byte) (n : ℕ)
      → length key < 2 ^ 64
      → n < 2 ^ 64
      → Reads (parse_key_valuex sp key) (string_text key ++ integer_text (decimal n)) n
  unfolding parse_key_valuex
  parse_key_valuex-Reads key n hk hn = restoring-Reads _ _ n (
      bind-Reads _ _ (string_text key) (integer_text (decimal n)) tt n (parse_key-Reads key hk)
        (parse_valuex-Reads n hn))
