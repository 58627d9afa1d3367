-- ===== src/Bencode/Wildcards.antt =====
-- What `list_wildcard` and `dict_wildcard` of src/bencode_offset.cpp pass over.
use btdht.Prelude.{
  ℕ, zero, suc, ◌^◌, ◌≤◌, ◌<◌, ◌≡◌, ◌≢◌, refl, sym, subst, ◌∙◌, false, List, [], ◌∷◌, ◌++◌,
  append_assoc, append-nil, arith, ==_refl, ne→==_false, length, All,
}
use btdht.Prelude.Bytes.{Byte}
use btdht.Prelude.Decimal.{decimal, decimal-pos, decimal-IsDigit, IsDigit}
use btdht.Sp.{Sp, SpLaws}
use btdht.Bencode.Spec.{string_text, integer_text, list_text, dict_text}
use btdht.Prelude.Int.{pos, negsuc}
use btdht.Bencode.Encode.{signed_decimal}
use btdht.Bencode.Tree.{
  Tree, nat, int, str, list, dict, Trees, nil, cons, Fields, end, field, text, texts, field_texts,
}
use btdht.Bencode.Decode.{Reader, ◌>>=◌, ◌>>◌, return, restoring, is_digit, parse_valuex}
use btdht.Bencode.Decode.Contract.{Reads, bind-Reads, restoring-Reads, return-Reads}
use btdht.Bencode.Decode.Reads.{parse_string-Reads, parse_valuex-Reads}
use btdht.Bencode.Decode.Skips.{
  Skips, if_reads-taken, if_reads-skipped, bind-Skips, parse_valuex-Skips, value_ref-Skips,
}
use btdht.Bencode.Values.{value_ref}
use btdht.Bencode.Offset.{
  take_char, int_wildcard, string_wildcard, list_wildcard, dict_wildcard, wildcard_items,
}
use btdht.Bencode.Plain.{IsPlain, ArePlain, HasPlain, rounds, rounds_items, rounds_fields}

take_char-Reads : (c : Byte) → Reads (take_char c) (c ∷ []) tt
unfolding take_char
take_char-Reads c = record { reads = λ b v h room. rw (h.1, ==_refl c) refl }

module _ (c d : Byte) (ne : d ≢ c) (k : Reader (Unit {0})) (xs : List Byte) where
  opened-Skips : Skips (restoring (take_char c >> k)) (d ∷ xs)
  unfolding take_char
  opened-Skips = record { skips = λ b v h room. rw (h.1, ne→==_false d c ne) refl }

module _ (sp : Sp) (laws : SpLaws sp) where
  list_wildcard-Skips :
      (n : ℕ) (c : Byte) (xs : List Byte) → c ≢ b'l' → Skips (list_wildcard sp n) (c ∷ xs)
  unfolding list_wildcard
  list_wildcard-Skips zero c xs ne = record { skips = λ b v h room. refl }
  list_wildcard-Skips (suc n) c xs ne = opened-Skips b'l' c ne (wildcard_items sp n) xs

  dict_wildcard-Skips :
      (n : ℕ) (c : Byte) (xs : List Byte) → c ≢ b'd' → Skips (dict_wildcard sp n) (c ∷ xs)
  unfolding list_wildcard
  dict_wildcard-Skips zero c xs ne = record { skips = λ b v h room. refl }
  dict_wildcard-Skips (suc n) c xs ne = opened-Skips b'd' c ne (wildcard_items sp n) xs

  int_wildcard-Skips : (c : Byte) (xs : List Byte) → c ≢ b'i' → Skips (int_wildcard sp) (c ∷ xs)
  unfolding int_wildcard
  int_wildcard-Skips c xs ne = bind-Skips _ _ _ (parse_valuex-Skips sp laws c xs ne)

  string_wildcard-Skips :
      (c : Byte) (xs : List Byte)
      → c ≢ b':'
      → is_digit c ≡ false
      → Skips (string_wildcard sp) (c ∷ xs)
  unfolding string_wildcard
  string_wildcard-Skips c xs ne h = bind-Skips _ _ _ (value_ref-Skips sp laws c xs ne h)

  -- One round of the loop, by what stands at the cursor.
  module _ (n : ℕ) (ys : List Byte) (rest : Reads (wildcard_items sp n) ys tt) where
    number_round : (m : ℕ) → m < 2 ^ 64 → Reads (wildcard_items sp (suc n)) (text (nat m) ++ ys) tt
    unfolding wildcard_items int_wildcard text
    number_round m h = if_reads-skipped _ _ _ _ tt (list_wildcard-Skips n b'i' _ (omega arith)) (
        if_reads-taken _ _ _ (integer_text (decimal m)) ys tt tt
          (subst (λ t. Reads (parse_valuex sp >>= λ _. return tt) t tt) (append-nil _)
            (bind-Reads _ _ (integer_text (decimal m)) [] m tt (parse_valuex-Reads sp laws m h)
              (return-Reads tt)))
          rest)

    string_round :
        (s : List Byte)
        → length s < 2 ^ 64
        → Reads (wildcard_items sp (suc n)) (text (str s) ++ ys) tt
    unfolding wildcard_items string_wildcard value_ref text
    string_round s h =
        digits (decimal (length s)) (decimal-pos (length s)) (decimal-IsDigit (length s)) reads
      where
        reads : Reads (string_wildcard sp) (string_text s) tt
        reads =
            subst (λ t. Reads (value_ref sp >>= λ _. return tt) t tt) (append-nil _)
              (bind-Reads _ _ (string_text s) [] s tt
                (restoring-Reads _ _ s (parse_string-Reads sp laws s h)) (return-Reads tt))

        digits :
            (ds : List Byte)
            → 0 < length ds
            → All IsDigit ds
            → Reads (string_wildcard sp) (ds ++ b':' ∷ s) tt
            → Reads (wildcard_items sp (suc n)) ((ds ++ b':' ∷ s) ++ ys) tt
        digits [] p all e = absurd (omega arith)
        digits (d ∷ ds) p all e =
            if_reads-skipped _ _ _ _ tt (list_wildcard-Skips n d _ (λ q. omega (arith, all.0, q))) (
              if_reads-skipped _ _ _ _ tt (int_wildcard-Skips d _ (λ q. omega (arith, all.0, q)))
                (if_reads-taken _ _ _ (d ∷ ds ++ b':' ∷ s) ys tt tt e rest))

    list_round :
        (xs : List Byte)
        → Reads (list_wildcard sp n) (list_text xs) tt
        → Reads (wildcard_items sp (suc n)) (list_text xs ++ ys) tt
    unfolding wildcard_items
    list_round xs e = if_reads-taken _ _ _ (list_text xs) ys tt tt e rest

    dict_round :
        (xs : List Byte)
        → Reads (dict_wildcard sp n) (dict_text xs) tt
        → Reads (wildcard_items sp (suc n)) (dict_text xs ++ ys) tt
    unfolding wildcard_items
    dict_round xs e =
        if_reads-skipped _ _ _ _ tt (list_wildcard-Skips n b'd' _ (λ q. omega (arith, q))) (
          if_reads-skipped _ _ _ _ tt (int_wildcard-Skips b'd' _ (λ q. omega (arith, q))) (
            if_reads-skipped _ _ _ _ tt (string_wildcard-Skips b'd' _ (λ q. omega (arith, q)) refl)
              (if_reads-taken _ _ _ (dict_text xs) ys tt tt e rest)))

  closes : (n : ℕ) → Reads (wildcard_items sp (suc n)) (b'e' ∷ []) tt
  unfolding wildcard_items
  closes n = if_reads-skipped _ _ _ _ tt (list_wildcard-Skips n b'e' [] (λ q. omega (arith, q))) (
      if_reads-skipped _ _ _ _ tt (int_wildcard-Skips b'e' [] (λ q. omega (arith, q))) (
        if_reads-skipped _ _ _ _ tt (string_wildcard-Skips b'e' [] (λ q. omega (arith, q)) refl) (
          if_reads-skipped _ _ _ _ tt (dict_wildcard-Skips n b'e' [] (λ q. omega (arith, q)))
            (take_char-Reads b'e'))))

  list_opens :
      (n : ℕ) (xs : List Byte)
      → Reads (wildcard_items sp n) (xs ++ b'e' ∷ []) tt
      → Reads (list_wildcard sp (suc n)) (list_text xs) tt
  unfolding list_wildcard
  list_opens n xs e =
      restoring-Reads _ _ tt
        (bind-Reads _ _ (b'l' ∷ []) (xs ++ b'e' ∷ []) tt tt (take_char-Reads b'l') e)

  dict_opens :
      (n : ℕ) (xs : List Byte)
      → Reads (wildcard_items sp n) (xs ++ b'e' ∷ []) tt
      → Reads (dict_wildcard sp (suc n)) (dict_text xs) tt
  unfolding dict_wildcard
  dict_opens n xs e =
      restoring-Reads _ _ tt
        (bind-Reads _ _ (b'd' ∷ []) (xs ++ b'e' ∷ []) tt tt (take_char-Reads b'd') e)

  mutual
    unfolding text texts field_texts signed_decimal

    tree_round :
        (t : Tree) (n : ℕ) (ys : List Byte)
        → IsPlain t
        → rounds t ≤ n
        → Reads (wildcard_items sp n) ys tt
        → Reads (wildcard_items sp (suc n)) (text t ++ ys) tt
    tree_round (nat m) n ys h le e = number_round n ys e m h
    tree_round (int (pos m)) n ys h le e = number_round n ys e m h
    tree_round (int (negsuc m)) n ys h le e = absurd h
    tree_round (str s) n ys h le e = string_round n ys e s h
    tree_round (list ts) zero ys h le e = absurd (omega (arith, le))
    tree_round (list ts) (suc n) ys h le e =
        list_round (suc n) ys e (texts ts)
          (list_opens n (texts ts) (items ts n h (omega (arith, le))))
    tree_round (dict fs) zero ys h le e = absurd (omega (arith, le))
    tree_round (dict fs) (suc n) ys h le e =
        dict_round (suc n) ys e (field_texts fs)
          (dict_opens n (field_texts fs) (fields fs n h (omega (arith, le))))

    items :
        (ts : Trees) (n : ℕ)
        → ArePlain ts
        → rounds_items ts < n
        → Reads (wildcard_items sp n) (texts ts ++ b'e' ∷ []) tt
    items ts zero h le = absurd (omega (arith, le))
    items nil (suc n) h le = closes n
    items (cons t ts) (suc n) h le =
        subst (λ xs. Reads (wildcard_items sp (suc n)) xs tt)
          (sym (append_assoc (text t) (texts ts) (b'e' ∷ [])))
          (tree_round t n (texts ts ++ b'e' ∷ []) h.0 (omega (arith, le))
            (items ts n h.1 (omega (arith, le))))

    fields :
        (fs : Fields) (n : ℕ)
        → HasPlain fs
        → rounds_fields fs < n
        → Reads (wildcard_items sp n) (field_texts fs ++ b'e' ∷ []) tt
    fields fs zero h le = absurd (omega (arith, le))
    fields end (suc n) h le = closes n
    fields (field k v fs) (suc zero) h le = absurd (omega (arith, le))
    fields (field k v fs) (suc (suc n)) h le =
        subst (λ xs. Reads (wildcard_items sp (suc (suc n))) xs tt)
          (sym (
            append_assoc (string_text k ++ text v) (field_texts fs) (b'e' ∷ [])
            ∙ append_assoc (string_text k) (text v) (field_texts fs ++ b'e' ∷ [])))
          (string_round (suc n) _
            (tree_round v n (field_texts fs ++ b'e' ∷ []) h.1 (omega (arith, le))
              (fields fs n h.2 (omega (arith, le))))
            k h.0)

  pub dict_wildcard-Reads :
      (fs : Fields) (n : ℕ)
      → HasPlain fs
      → rounds (dict fs) ≤ n
      → Reads (dict_wildcard sp n) (text (dict fs)) tt
  unfolding text
  dict_wildcard-Reads fs zero h le = absurd (omega (arith, le))
  dict_wildcard-Reads fs (suc n) h le =
      dict_opens n (field_texts fs) (fields fs n h (omega (arith, le)))

  -- With fuel for its parts, `list_wildcard` passes over a whole list and `dict_wildcard` over a whole
  -- dictionary: nested to any depth, with strings shorter than 2^64 bytes and numbers below 2^64, none
  -- of them negative.
  pub wildcards-Reads :
      (ts : Trees) (fs : Fields) (n : ℕ)
      → ArePlain ts
      → HasPlain fs
      → rounds (list ts) ≤ n
      → rounds (dict fs) ≤ n
      → Reads (list_wildcard sp n) (text (list ts)) tt
        × Reads (dict_wildcard sp n) (text (dict fs)) tt
  unfolding text
  wildcards-Reads ts fs zero h k le lf = absurd (omega (arith, le))
  wildcards-Reads ts fs (suc n) h k le lf = (
    list_opens n (texts ts) (items ts n h (omega (arith, le))),
    dict_wildcard-Reads fs (suc n) k lf,
  )
