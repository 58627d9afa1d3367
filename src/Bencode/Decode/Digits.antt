-- ===== src/Bencode/Decode/Digits.antt =====
-- The loop of `peek_numeric` in src/bencode.cpp over digits and their end.
use btdht.Prelude.{
  ℕ, zero, suc, ◌+◌, ◌-◌, ◌^◌, ◌≤◌, ◌<◌, ◌≡◌, refl, sym, ap, subst, ◌∙◌, true, false, some, List,
  [], ◌∷◌, ◌++◌, append_assoc, append-nil, arith, ltb, ◌==◌, lt→ltb, ==_refl, ne→==_false, length,
  All,
}
use btdht.Prelude.Bytes.{Byte, Holds}
use btdht.Prelude.Decimal.{decimal, IsDigit, numeral-decimal, decimal-pos, decimal-IsDigit}
use btdht.Sp.{Buffer, Sp, SpLaws}
use btdht.Bencode.Decode.{is_digit, scan, convert}
use btdht.Bencode.Decode.Contract.{IsReadable}

module _ (sp : Sp) (laws : SpLaws sp) where
  pub at-Holds :
      (b : Buffer) (p : ℕ) (x : Byte) (xs : List Byte)
      → IsReadable b
      → Holds b.raw p (x ∷ xs)
      → sp.at b p ≡ x
  at-Holds b p x xs v h = laws.at_lem b p (omega (arith, v.size, h.0)) ∙ h.1

  scan_stops :
      (room : ℕ) (b : Buffer) (end : Byte) (p : ℕ) (str : List Byte)
      → ltb 0 (sp.remaining_read b) ≡ true
      → sp.at b p ≡ end
      → scan sp room b end p str ≡ some (str, p + 1)
  unfolding scan
  scan_stops zero b end p str left e = rw (left, e, ==_refl end) refl
  scan_stops (suc room) b end p str left e = rw (left, e, ==_refl end) refl

  pub scan_goes :
      (room : ℕ) (b : Buffer) (end d : Byte) (p : ℕ) (str : List Byte)
      → ltb 0 (sp.remaining_read b) ≡ true
      → sp.at b p ≡ d
      → IsDigit d
      → 57 < end
      → scan sp (suc room) b end p str ≡ scan sp room b end (p + 1) (str ++ d ∷ [])
  unfolding scan
  scan_goes room b end d p str left e digit he =
      let other : (d == end) ≡ false = ne→==_false d end (omega arith) in
      let test : is_digit d ≡ true = ground arith in rw (left, e, other, test) refl

  pub left_of : (b : Buffer) → b.pos < b.length → ltb 0 (sp.remaining_read b) ≡ true
  left_of b h = lt→ltb 0 _ (omega (arith, laws.remaining_read_lem b (omega arith)))

  -- The loop takes digits up to `end`, as long as they fit its array.
  pub scan-digits :
      (room : ℕ) (b : Buffer) (end : Byte) (p : ℕ) (str ds : List Byte)
      → IsReadable b
      → b.pos < b.length
      → 57 < end
      → All IsDigit ds
      → length ds ≤ room
      → Holds b.raw p (ds ++ end ∷ [])
      → scan sp room b end p str ≡ some (str ++ ds, p + length ds + 1)
  scan-digits room b end p str [] v some_left he hd fits h =
      scan_stops room b end p str (left_of b some_left) (at-Holds b p end [] v h)
      ∙ ap (λ (q : List Byte × ℕ). some q) (λ i. (sym (append-nil str) i, position i))
    where
      position : p + 1 ≡ p + 0 + 1
      position = omega arith
  scan-digits zero b end p str (d ∷ ds) v some_left he hd fits h = absurd (omega arith)
  scan-digits (suc room) b end p str (d ∷ ds) v some_left he hd fits h =
      let rest : Holds b.raw (p + 1) (ds ++ end ∷ []) =
        subst (λ q. Holds b.raw q (ds ++ end ∷ [])) (omega arith) h.2 in
      scan_goes room b end d p str (left_of b some_left) (at-Holds b p d (ds ++ end ∷ []) v h) hd.0
        he
      ∙ scan-digits room b end (p + 1) (str ++ d ∷ []) ds v some_left he hd.1 (omega arith) rest
      ∙ ap (λ (q : List Byte × ℕ). some q) (λ i. (append_assoc str (d ∷ []) ds i, position i))
    where
      position : p + 1 + length ds + 1 ≡ p + suc (length ds) + 1
      position = omega arith

  pub convert-some :
      (pos n p : ℕ) (ds : List Byte)
      → 0 < length ds
      → sp.parse_int ds ≡ some n
      → convert sp pos (some (ds, p)) ≡ some (n, p - pos)
  convert-some pos n p [] h e = absurd (omega arith)
  convert-some pos n p (d ∷ ds) h e = rw (e, convert) refl

  pub parse_int-decimal : (n : ℕ) → n < 2 ^ 64 → sp.parse_int (decimal n) ≡ some n
  parse_int-decimal n h =
      laws.parse_int_lem (decimal n)
        (λ e. absurd (omega (arith, decimal-pos n, ap (λ (ds : List Byte). length ds) e)))
        (decimal-IsDigit n) (omega (arith, numeral-decimal n h))
      ∙ ap (λ (k : ℕ). some k) (numeral-decimal n h)
