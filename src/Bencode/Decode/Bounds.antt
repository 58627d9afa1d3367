-- ===== src/Bencode/Decode/Bounds.antt =====
-- How far `read_numeric` of src/bencode.cpp can move the cursor. Its loop asks `remaining_read` of
-- the buffer, whose cursor it does not move, so it does not notice the end of the filled part.
use btdht.Prelude.{
  ℕ, zero, suc, ◌+◌, ◌-◌, ◌^◌, ◌≤◌, ◌<◌, ◌≡◌, refl, ap, ◌∙◌, inl, inr, false, Option, none, some,
  List, [], ◌∷◌, ◌++◌, arith, ltb, Bool-cases, ltb→le, length, length-append,
}
use btdht.Prelude.Bytes.{Byte, Holds}
use btdht.Prelude.Decimal.{decimal}
use btdht.Sp.{Buffer, Sp, SpLaws}
use btdht.Bencode.Decode.{is_digit, scan, convert, peek_numeric, read_numeric, advance}
use btdht.Bencode.Decode.Contract.{IsReadable}
use btdht.Bencode.Decode.Reads.{read_numeric-found}

module _ (sp : Sp) where
  -- The loop does not pass a byte that is no digit.
  scan-le :
      (room : ℕ) (b : Buffer) (end : Byte) (p k : ℕ) (str s : List Byte) (q : ℕ)
      → is_digit (sp.at b k) ≡ false
      → p ≤ k
      → scan sp room b end p str ≡ some (s, q)
      → q ≤ k + 1
  unfolding scan
  scan-le zero b end p k str s q stop h e = ground arith
  scan-le (suc room) b end p k str s q stop h e = elim (Bool-cases (ltb p k)) [
    | inl before ↦ ground (arith, scan-le room b end (p + 1) k (str ++ sp.at b p ∷ []) s q stop)
    | inr here ↦
        let same : p ≡ k = omega (arith, ltb→le p k here) in
        let stop' : is_digit (sp.at b p) ≡ false =
          ap (λ (j : ℕ). is_digit (sp.at b j)) same ∙ stop in
        ground (arith, stop')
  ]

  scan-ge :
      (room : ℕ) (b : Buffer) (end : Byte) (p : ℕ) (str s : List Byte) (q : ℕ)
      → scan sp room b end p str ≡ some (s, q)
      → p < q
  unfolding scan
  scan-ge zero b end p str s q e = ground arith
  scan-ge (suc room) b end p str s q e =
      ground (arith, scan-ge room b end (p + 1) (str ++ sp.at b p ∷ []) s q)

  convert-pos :
      (pos : ℕ) (o : Option (List Byte × ℕ)) (n read : ℕ)
      → convert sp pos o ≡ some (n, read)
      → (s : List Byte) × (q : ℕ) × (o ≡ some (s, q)) × (read ≡ q - pos)
  convert-pos pos none n read e = cc
  convert-pos pos (some ([], p)) n read e = cc
  convert-pos pos (some (c ∷ cs, p)) n read e = (c ∷ cs, p, refl, ground arith)

  advance-pos :
      (b b' : Buffer) (o : Option (ℕ × ℕ)) (n : ℕ)
      → advance sp b o ≡ (some n, b')
      → (read : ℕ) × (o ≡ some (n, read)) × (b'.pos ≡ b.pos + read)
  advance-pos b b' none n e = cc
  advance-pos b b' (some (m, read)) n e = (read, ground arith, ground arith)

  -- If a byte of the filled part, at or behind the cursor, is no digit, then `read_numeric` does
  -- not take the cursor past it by more than that byte, so it stays within the filled part.
  pub read_numeric-le :
      (end : Byte) (b b' : Buffer) (k n : ℕ)
      → b.pos ≤ k
      → k < b.length
      → is_digit (sp.at b k) ≡ false
      → read_numeric sp end b ≡ (some n, b')
      → (b.pos < b'.pos) × (b'.pos ≤ k + 1) × (b'.pos ≤ b.length)
  unfolding read_numeric peek_numeric
  read_numeric-le end b b' k n h room stop e =
      let (read, found, moved) = advance-pos b b' (peek_numeric sp end b) n e in
      let (s, q, scanned, gap) = convert-pos b.pos (scan sp 32 b end b.pos []) n read found in
      let low = scan-ge 32 b end b.pos [] s q scanned in
      let high = scan-le 32 b end b.pos k [] s q stop h scanned in
      (omega arith, omega arith, omega arith)

  -- Where the digits run past the filled part into bytes left over from an earlier message, and the
  -- end of the number stands there, `read_numeric` succeeds and leaves the cursor outside the
  -- filled part.
  pub read_numeric_overruns :
      (laws : SpLaws sp) (end : Byte) (b : Buffer) (n : ℕ)
      → IsReadable b
      → 57 < end
      → n < 2 ^ 64
      → Holds b.raw b.pos (decimal n ++ end ∷ [])
      → b.pos < b.length
      → b.length < b.pos + length (decimal n) + 1
      → ((read_numeric sp end b).0 ≡ some n) × (b.length < (read_numeric sp end b).1.pos)
  read_numeric_overruns laws end b n v he hn h room short =
      let found = read_numeric-found sp laws end n he hn b v h room in
      rw found (refl, omega (arith, length-append (decimal n) (end ∷ [])))
