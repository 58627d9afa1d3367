-- ===== src/Bencode/Decode/Peeks.antt =====
-- `peek` of src/bencode.cpp, and the first byte of a string.
use btdht.Prelude.{
  ℕ, ◌+◌, ◌-◌, ◌^◌, ◌≤◌, ◌<◌, ◌≡◌, refl, sym, subst, ap, false, some, List, [], ◌∷◌, ◌++◌,
  append_assoc, arith, le→ltb, ◌==◌, ne→==_false, length, length-append, get_or, All,
}
use btdht.Prelude.Bytes.{Byte, bytes_eq, Holds, Holds-append, slice-Holds}
use btdht.Prelude.Decimal.{decimal, decimal-pos, decimal-IsDigit, length-decimal, IsDigit}
use btdht.Sp.{Buffer, Sp, SpLaws}
use btdht.Bencode.Spec.{string_text}
use btdht.Bencode.Decode.{peek_numeric, peek_string, peek}
use btdht.Bencode.Decode.Contract.{IsReadable}
use btdht.Bencode.Decode.Digits.{scan-digits, convert-some, parse_int-decimal}

-- A string does not begin like the end of a list or of a dictionary.
pub string-inside :
    (s xs : List Byte) (raw : List Byte) (p : ℕ)
    → Holds raw p (string_text s ++ xs)
    → (get_or raw p 0 == b'e') ≡ false
string-inside s xs raw p =
    go (decimal (length s)) (decimal-pos (length s)) (decimal-IsDigit (length s))
  where
    go :
        (ds : List Byte)
        → 0 < length ds
        → All IsDigit ds
        → Holds raw p ((ds ++ b':' ∷ s) ++ xs)
        → (get_or raw p 0 == b'e') ≡ false
    go [] e all h = absurd (omega (arith, e))
    go (d ∷ ds) e all h = ne→==_false (get_or raw p 0) b'e' (λ q. omega (arith, all.0, q, h.1))

module _ (sp : Sp) (laws : SpLaws sp) where
  peek_numeric-found :
      (end : Byte) (n : ℕ)
      → 57 < end
      → n < 2 ^ 64
      → (b : Buffer) → IsReadable b
      → Holds b.raw b.pos (decimal n ++ end ∷ [])
      → b.pos < b.length
      → peek_numeric sp end b ≡ some (n, length (decimal n ++ end ∷ []))
  unfolding peek_numeric
  peek_numeric-found end n he hn b v h room =
      let sum = length-append (decimal n) (end ∷ []) in
      let digits = length-decimal n in
      let p = b.pos + length (decimal n) + 1 in
      let found =
        scan-digits sp laws 32 b end b.pos [] (decimal n) v room he (decimal-IsDigit n)
          (omega arith) h in
      let width : p - b.pos ≡ length (decimal n ++ end ∷ []) = omega arith in
      rw
        (
          found,
          convert-some sp laws b.pos n p (decimal n) (decimal-pos n)
              (parse_int-decimal sp laws n hn),
        )
        (ap (λ (q : ℕ). some (n, q)) width)

  peek_string-found :
      (key : List Byte) (b : Buffer)
      → length key < 2 ^ 64
      → IsReadable b
      → Holds b.raw b.pos (string_text key)
      → b.pos + length (string_text key) ≤ b.length
      → peek_string sp b ≡ some key
  unfolding peek_string
  peek_string-found key b hk v h room =
      let n = length key in
      let sum = length-append (decimal n) (b':' ∷ key) in
      let held = subst (Holds b.raw b.pos) (sym (append_assoc (decimal n) (b':' ∷ []) key)) h in
      let (front, back) = Holds-append b.raw b.pos (decimal n ++ b':' ∷ []) key held in
      rw
        (
          peek_numeric-found b':' n (omega arith) hk b v front (omega arith),
          laws.remaining_read_lem b v.cursor,
          le→ltb (b.length - b.pos) n (omega arith),
          slice-Holds b.raw (b.pos + length (decimal n ++ b':' ∷ [])) key back,
        )
        refl

  -- Where a string stands at the cursor, `peek` tells whether it is the key asked for.
  pub peek-Holds :
      (asked key : List Byte) (b : Buffer)
      → length key < 2 ^ 64
      → IsReadable b
      → Holds b.raw b.pos (string_text key)
      → b.pos + length (string_text key) ≤ b.length
      → peek sp asked b ≡ bytes_eq asked key
  unfolding peek
  peek-Holds asked key b hk v h room = rw (peek_string-found key b hk v h room, peek) refl
