-- ===== src/Bencode/Generic/Keys.antt =====
-- Numbers and keys, as src/decode_bencode.cpp reads them.
use btdht.Prelude.{
  ℕ, zero, suc, ◌^◌, ◌≤◌, ◌<◌, ◌≡◌, refl, sym, subst, ap, ◌∙◌, true, false, some, List, [], ◌∷◌,
  ◌++◌, append_assoc, append-nil, arith, ◌==◌, ==_refl, ne→==_false, le→ltb, length, All,
}
use btdht.Prelude.Bytes.{Byte, bytes_eq, bytes_eq_refl, slice-Holds}
use btdht.Prelude.Decimal.{decimal, decimal-pos, decimal-IsDigit, length-decimal, IsDigit}
use btdht.Sp.{Buffer, Sp, SpLaws}
use btdht.Bencode.Spec.{string_text}
use btdht.Bencode.Decode.{◌>>=◌, guard, is_digit}
use btdht.Bencode.Decode.Contract.{
  Reads, bind-Reads, restoring-Reads, return-Reads, passed-Reads, guard-Reads,
}
use btdht.Bencode.Decode.Digits.{parse_int-decimal}
use btdht.Bencode.Decode.Skips.{Skips}
use btdht.Bencode.Generic.{
  Front, FrontLaws, pop_digits, parsed, read_numeric, pop_upto, parse_string, is_key,
}

module _ (sp : Sp) (laws : SpLaws sp) (front : Front) (fronts : FrontLaws front) where
  pub pop-Reads : (c : Byte) → Reads front.pop_front (c ∷ []) c
  pop-Reads c = record { reads = λ b v h room. fronts.pop_front_lem b (omega arith) ∙ rw h.1 refl }

  digits-Reads :
      (room : ℕ) (end : Byte) (seen ds : List Byte)
      → 57 < end
      → All IsDigit ds
      → length ds ≤ room
      → Reads (pop_digits sp front room end seen) (ds ++ end ∷ []) (seen ++ ds)
  unfolding pop_digits
  digits-Reads zero end seen [] he h le = subst (Reads _ (end ∷ [])) (sym (append-nil seen)) (
      bind-Reads _ _ (end ∷ []) [] end seen (pop-Reads end)
        (guard-Reads (end == end) _ [] seen (==_refl end) (return-Reads seen)))
  digits-Reads zero end seen (d ∷ ds) he h le = absurd (omega (arith, le))
  digits-Reads (suc room) end seen [] he h le =
      subst (Reads _ (end ∷ [])) (sym (append-nil seen)) (
        bind-Reads _ _ (end ∷ []) [] end seen (pop-Reads end)
          (rw (==_refl end) (return-Reads seen)))
  digits-Reads (suc room) end seen (d ∷ ds) he h le =
      let other : (d == end) ≡ false = ne→==_false d end (omega arith) in
      let test : is_digit d ≡ true = ground arith in
      subst (Reads _ (d ∷ ds ++ end ∷ [])) (append_assoc seen (d ∷ []) ds) (
        bind-Reads _ _ (d ∷ []) (ds ++ end ∷ []) d ((seen ++ d ∷ []) ++ ds) (pop-Reads d) (
          rw other (
            guard-Reads _ _ _ _ test
              (digits-Reads room end (seen ++ d ∷ []) ds he h.1 (omega arith)))))

  parsed-decimal : (n : ℕ) (b : Buffer) → n < 2 ^ 64 → parsed sp front (decimal n) b ≡ (some n, b)
  parsed-decimal n b h = go (decimal n) (decimal-pos n) (parse_int-decimal sp laws n h)
    where
      go :
          (ds : List Byte)
          → 0 < length ds
          → sp.parse_int ds ≡ some n
          → parsed sp front ds b ≡ (some n, b)
      go [] p e = absurd (omega arith)
      go (d ∷ ds) p e = rw e refl

  pub numeric-Reads :
      (end : Byte) (n : ℕ)
      → 57 < end
      → n < 2 ^ 64
      → Reads (read_numeric sp front end) (decimal n ++ end ∷ []) n
  unfolding read_numeric
  numeric-Reads end n he hn =
      subst (λ t. Reads (read_numeric sp front end) t n) (append-nil _)
        (bind-Reads _ _ (decimal n ++ end ∷ []) [] (decimal n) n
          (digits-Reads 32 end [] (decimal n) he (decimal-IsDigit n)
            (omega (arith, length-decimal n)))
          (record {
            reads = λ b v h room.
                parsed-decimal n b hn
                ∙ ap (λ (p : ℕ). (some n, record b { pos = p })) (omega arith);
          }))

  upto-Reads : (s : List Byte) → Reads (pop_upto sp front (length s)) s s
  upto-Reads s = record {
    reads =
        λ b v h room. rw (fronts.pop_bytes_lem (length s) b room, slice-Holds b.raw b.pos s h) refl;
  }

  parse_string-Reads :
      (n : ℕ) (s : List Byte)
      → length s < 2 ^ 64
      → length s ≤ n
      → Reads (parse_string sp front n) (string_text s) s
  unfolding parse_string
  parse_string-Reads n s h le =
      subst (λ t. Reads (parse_string sp front n) t s)
        (append_assoc (decimal (length s)) (b':' ∷ []) s)
        (bind-Reads _ _ (decimal (length s) ++ b':' ∷ []) s (length s) s
          (numeric-Reads b':' (length s) (omega arith) h)
          (guard-Reads _ _ s s (ground (arith, le→ltb n (length s) le)) (upto-Reads s)))

  -- A short key: the one asked for is taken, another is left.
  module _ (key : List Byte) (short : length key ≤ 128) where
    pub is_key-Reads : Reads (is_key sp front key) (string_text key) tt
    unfolding is_key
    is_key-Reads = rw (le→ltb 128 (length key) short) (
        restoring-Reads _ _ tt (
          subst (λ t. Reads (parse_string sp front 128 >>= λ out. guard (bytes_eq key out)) t tt)
            (append-nil (string_text key))
            (bind-Reads _ _ (string_text key) [] key tt
              (parse_string-Reads 128 key (omega arith) short)
              (passed-Reads _ (bytes_eq_refl key)))))

    pub is_key-Skips :
        (other : List Byte)
        → length other ≤ 128
        → bytes_eq key other ≡ false
        → Skips (is_key sp front key) (string_text other)
    unfolding is_key
    is_key-Skips other h ne = rw (le→ltb 128 (length key) short) (record {
      skips = λ b v held room.
          rw ((parse_string-Reads 128 other (omega arith) h).reads b v held room, ne) refl;
    })

    pub is_key-at_end : Skips (is_key sp front key) (b'e' ∷ [])
    unfolding is_key parse_string read_numeric pop_digits
    is_key-at_end =
        rw (le→ltb 128 (length key) short)
          (record { skips = λ b v held room. rw ((pop-Reads b'e').reads b v held room) refl })
