-- ===== src/Bencode/Generic/Strings.antt =====
-- Lists of strings under a key, as src/decode_bencode.cpp reads them.
use btdht.Prelude.{
  ℕ, zero, suc, ◌+◌, ◌^◌, ◌≤◌, ◌<◌, ◌≡◌, refl, sym, subst, ap, false, some, List, [], ◌∷◌, ◌++◌,
  append_assoc, append-nil, arith, ◌==◌, ==_refl, ne→==_false, length, All,
}
use btdht.Prelude.Bytes.{Byte, Holds}
use btdht.Prelude.Decimal.{decimal, decimal-pos, decimal-IsDigit, IsDigit}
use btdht.Sp.{Buffer, Sp, SpLaws}
use btdht.Bencode.Spec.{string_text, list_text}
use btdht.Bencode.Stream.Correct.{concat_map}
use btdht.Bencode.Decode.Contract.{
  Reads, Before, joined, bind-Before, bind-Reads, restoring-Reads, return-Reads, passed-Reads,
}
use btdht.Bencode.Decode.Skips.{Skips, bind-Skips}
use btdht.Bencode.Generic.{
  Front, FrontLaws, is_key, pop_chars, value_string, value_strings, list_items, list, pair_strings,
}
use btdht.Bencode.Generic.Keys.{pop-Reads, numeric-Reads, is_key-Reads}

module _ (sp : Sp) (laws : SpLaws sp) (front : Front) (fronts : FrontLaws front) where
  chars-Reads : (s seen : List Byte) → Reads (pop_chars sp front (length s) seen) s (seen ++ s)
  unfolding pop_chars
  chars-Reads [] seen = subst (Reads _ []) (sym (append-nil seen)) (return-Reads seen)
  chars-Reads (c ∷ s) seen = subst (Reads _ (c ∷ s)) (append_assoc seen (c ∷ []) s) (
      bind-Reads _ _ (c ∷ []) s c _ (pop-Reads sp laws front fronts c)
        (chars-Reads s (seen ++ c ∷ [])))

  value_string-Reads :
      (s : List Byte) → length s < 2 ^ 64 → Reads (value_string sp front) (string_text s) s
  unfolding value_string
  value_string-Reads s h =
      subst (λ t. Reads (value_string sp front) t s)
        (append_assoc (decimal (length s)) (b':' ∷ []) s)
        (bind-Reads _ _ (decimal (length s) ++ b':' ∷ []) s (length s) s
          (numeric-Reads sp laws front fronts b':' (length s) (omega arith) h) (chars-Reads s []))

  peek-Holds :
      (c : Byte) (xs : List Byte) (b : Buffer)
      → Holds b.raw b.pos (c ∷ xs)
      → b.pos + length (c ∷ xs) ≤ b.length
      → front.peek_front b ≡ some c
  peek-Holds c xs b h room = rw (← h.1) (fronts.peek_front_lem b (omega arith))

  -- A string does not begin like the end of a list.
  peek-string :
      (s xs : List Byte) (b : Buffer)
      → Holds b.raw b.pos (string_text s ++ xs)
      → b.pos + length (string_text s ++ xs) ≤ b.length
      → (c : Byte) × (front.peek_front b ≡ some c) × ((c == b'e') ≡ false)
  peek-string s xs b = go (decimal (length s)) (decimal-pos (length s)) (decimal-IsDigit (length s))
    where
      go :
          (ds : List Byte)
          → 0 < length ds
          → All IsDigit ds
          → Holds b.raw b.pos ((ds ++ b':' ∷ s) ++ xs)
          → b.pos + length ((ds ++ b':' ∷ s) ++ xs) ≤ b.length
          → (c : Byte) × (front.peek_front b ≡ some c) × ((c == b'e') ≡ false)
      go [] p all h room = absurd (omega (arith, p))
      go (d ∷ ds) p all h room = (
        d,
        peek-Holds d ((ds ++ b':' ∷ s) ++ xs) b h room,
        ne→==_false d b'e' (λ q. omega (arith, all.0, q)),
      )

  module _ (insert : List (List Byte) → List Byte → List (List Byte)) where
    abbrev pub insert_all : List (List Byte) → List (List Byte) → List (List Byte)
    insert_all acc [] = acc
    insert_all acc (v ∷ vs) = insert_all (insert acc v) vs

    values-Before :
        (n : ℕ) (vs acc : List (List Byte))
        → length vs < n
        → All (λ (v : List Byte). length v < 2 ^ 64) vs
        → Before
            (value_strings sp front insert n acc)
            (concat_map string_text vs)
            (b'e' ∷ [])
            (insert_all acc vs)
    unfolding value_strings
    values-Before zero vs acc le h = absurd (omega (arith, le))
    values-Before (suc n) [] acc le h = record {
      reads = λ b v held room.
          rw (peek-Holds b'e' [] b held room)
            (ap (λ (p : ℕ). (some acc, record b { pos = p })) (omega arith));
    }
    values-Before (suc n) (x ∷ vs) acc le h = record {
      reads = λ b v held room.
          let (c, found, other) =
            peek-string x (concat_map string_text vs ++ b'e' ∷ []) b
              (subst (Holds b.raw b.pos) (append_assoc (string_text x) _ _) held)
              (subst (λ (t : List Byte). b.pos + length t ≤ b.length)
                (append_assoc (string_text x) (concat_map string_text vs) (b'e' ∷ [])) room) in
          rw (found, other)
            ((bind-Before (value_string sp front) _ (string_text x) (concat_map string_text vs)
                (b'e' ∷ []) x _ (value_string-Reads x h.0)
                (values-Before n vs (insert acc x) (omega (arith, le)) h.1)).reads
              b v held room);
    }

    -- The list loop: all strings in one call of its reader, then the end.
    closes :
        (n : ℕ) (acc : List (List Byte))
        → Reads (list_items sp front insert (suc n) acc) (b'e' ∷ []) acc
    unfolding list_items
    closes n acc = record {
      reads = λ b v held room.
          rw
            (
              peek-Holds b'e' [] b held room,
              list_items,
              (pop-Reads sp laws front fronts b'e').reads b v held room,
            )
            refl;
    }

    items-Reads :
        (n : ℕ) (vs acc : List (List Byte))
        → length vs < n
        → All (λ (v : List Byte). length v < 2 ^ 64) vs
        → Reads
            (list_items sp front insert (suc n) acc)
            (concat_map string_text vs ++ b'e' ∷ [])
            (insert_all acc vs)
    unfolding list_items
    items-Reads zero vs acc le h = absurd (omega (arith, le))
    items-Reads (suc n) [] acc le h = closes (suc n) acc
    items-Reads (suc n) (x ∷ vs) acc le h = record {
      reads = λ b v held room.
          let (c, found, other) =
            peek-string x (concat_map string_text vs ++ b'e' ∷ []) b
              (subst (Holds b.raw b.pos)
                (append_assoc (string_text x) (concat_map string_text vs) (b'e' ∷ [])) held)
              (subst (λ (t : List Byte). b.pos + length t ≤ b.length)
                (append_assoc (string_text x) (concat_map string_text vs) (b'e' ∷ [])) room) in
          rw (found, list_items, other)
            ((joined (value_strings sp front insert (suc n) acc)
                (list_items sp front insert (suc n)) (concat_map string_text (x ∷ vs)) (b'e' ∷ [])
                (insert_all acc (x ∷ vs)) _ (values-Before (suc n) (x ∷ vs) acc le h)
                (closes n _)).reads
              b v held room);
    }

    -- A list of strings under its key is read whole.
    pub pair_strings-Reads :
        (n : ℕ) (key : List Byte) (vs : List (List Byte))
        → length key ≤ 128
        → length vs < n
        → All (λ (v : List Byte). length v < 2 ^ 64) vs
        → Reads
            (pair_strings sp front insert (suc n) key)
            (string_text key ++ list_text (concat_map string_text vs))
            (insert_all [] vs)
    unfolding pair_strings list
    pair_strings-Reads n key vs hk le h =
        bind-Reads _ _ (string_text key) _ tt _ (is_key-Reads sp laws front fronts key hk) (
          bind-Reads _ _ (b'l' ∷ []) (concat_map string_text vs ++ b'e' ∷ []) tt _
            (restoring-Reads _ _ tt (
              bind-Reads _ _ (b'l' ∷ []) [] b'l' tt (pop-Reads sp laws front fronts b'l')
                (passed-Reads _ (==_refl b'l'))))
            (items-Reads n vs [] le h))

    -- Another key is left, and so is the end of the dictionary.
    pub pair_strings-Skips :
        (n : ℕ) (key xs : List Byte)
        → Skips (is_key sp front key) xs
        → Skips (pair_strings sp front insert n key) xs
    unfolding pair_strings
    pair_strings-Skips n key xs e = bind-Skips _ _ _ e
