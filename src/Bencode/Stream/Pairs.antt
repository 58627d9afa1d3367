-- ===== src/Bencode/Stream/Pairs.antt =====
-- The pairs of src/encode_bencode.cpp, and what becomes of the contacts of a list.
use btdht.Prelude.{
  ℕ, suc, ◌≡◌, ◌≢◌, ◌↔◌, refl, ap, inl, inr, Bool, List, [], ◌∷◌, ◌++◌, arith, Bool-cases, ==_iff,
  ◌==◌, if◌then◌else◌, length, All,
}
use btdht.Prelude.Bytes.{Byte}
use btdht.Prelude.Int.{ℤ, pos}
use btdht.Id.{Key}
use btdht.Address.{Contact}
use btdht.Routing.{Node}
use btdht.Bencode.Spec.{string_text}
use btdht.Bencode.Tree.{Tree, nat, int, str, list, Fields, field, text, texts, field_texts}
use btdht.Bencode.Encode.{Writer, ◌then◌}
use btdht.Bencode.Encode.Contract.{Emits, then-Emits}
use btdht.Bencode.Stream.{
  Stream, StreamLaws, until_zero, encode_raw, write_c_entries, value_string_list_contact_list,
  generic_encode_pair, value_bool, value_uint, value_int, pair_bool, pair_uint, pair_int, pair_str,
  pair_bytes, pair_strings, pair_compact, pair_id_contact_compact, pair_string_list_contact,
  pair_string_list_contact_list,
}
use btdht.Bencode.Stream.Correct.{
  IsKey, compact_contact, compact_node, concat_map, map_trees, done-Emits, bracket-Emits,
  encode_raw-Emits, encode_integer-Emits, value_compact-Emits, value_id_contact_compact-Emits,
  value_string_list_contact-Emits, list_strings-Emits,
}

-- A pair in front of other fields.
pub field-Emits :
    (k : List Byte) (v : Tree) (m rest : Writer) (fs : Fields)
    → Emits m (string_text k ++ text v)
    → Emits rest (field_texts fs)
    → Emits (m then rest) (field_texts (field k v fs))
unfolding text
field-Emits k v m rest fs e f = then-Emits m rest (string_text k ++ text v) (field_texts fs) e f

abbrev pub flag : Bool → Tree
flag v = int (pos (if v then 1 else 0))

-- The entry that a list of contacts writes: the bytes in front of the first zero.
abbrev pub c_entry : Contact → List Byte
c_entry c = until_zero (compact_contact c ++ 0 ∷ [])

until_zero-whole :
    (xs : List Byte) → (length (until_zero (xs ++ 0 ∷ [])) ≡ length xs) ↔ All (λ x. x ≢ 0) xs
until_zero-whole xs = (whole xs, kept xs)
  where
    whole : (xs : List Byte) → length (until_zero (xs ++ 0 ∷ [])) ≡ length xs → All (λ x. x ≢ 0) xs
    whole [] e = tt
    whole (x ∷ xs) e = elim (Bool-cases (x == 0)) [
      | inl zero_byte ↦
          let short : 0 ≡ suc (length xs) = rw zero_byte at e in absurd (omega (arith, short))
      | inr other ↦
          let more : suc (length (until_zero (xs ++ 0 ∷ []))) ≡ suc (length xs) = rw other at e in
          (λ z. ground (arith, z, other), whole xs (omega (arith, more)))
    ]

    kept : (xs : List Byte) → All (λ x. x ≢ 0) xs → length (until_zero (xs ++ 0 ∷ [])) ≡ length xs
    kept [] h = refl
    kept (x ∷ xs) h = elim (Bool-cases (x == 0)) [
      | inl zero_byte ↦ absurd (h.0 ((==_iff x 0).0 zero_byte))
      | inr other ↦ rw other (ap suc (kept xs h.1))
    ]

module _ (io : Stream) (laws : StreamLaws io) where
  pub generic_encode_pair-Emits :
      (key : List Byte) (m : Writer) (v : Tree)
      → Emits m (text v)
      → Emits (generic_encode_pair io key m) (string_text key ++ text v)
  unfolding generic_encode_pair
  generic_encode_pair-Emits key m v e =
      then-Emits _ m (string_text key) (text v) (encode_raw-Emits io laws key) e

  value-Emits :
      (n : ℕ) (z : ℤ) (v : Bool)
      → Emits (value_uint io n) (text (nat n))
        × Emits (value_int io z) (text (int z))
        × Emits (value_bool io v) (text (flag v))
  unfolding value_uint value_int value_bool text
  value-Emits n z v = (
    encode_integer-Emits io laws _,
    encode_integer-Emits io laws _,
    encode_integer-Emits io laws _,
  )

  str-Emits : (s : List Byte) → Emits (encode_raw io s) (text (str s))
  unfolding text
  str-Emits s = encode_raw-Emits io laws s

  -- A pair is written as its key and the bencoding of its value, if it fits, and is refused otherwise:
  -- of a `bool`, an unsigned number, a signed number of 32 or 64 bits, a string, raw bytes, a list of
  -- strings, each cut before its first zero byte, an array of keys and a list of nodes, whose ids have
  -- twenty bytes, in the compact form, and an array of contacts as a list of compact strings. Neither
  -- a signed number of 16 bits nor a linked list of contacts is among them.
  pub pair-Emits :
      (key s : List Byte) (n : ℕ) (z : ℤ) (v : Bool) (vs : List (List Byte)) (ks : List Key)
      (ns : List Node) (cs : List Contact)
      → All IsKey ks
      → All (λ (n : Node). IsKey n.id) ns
      → Emits (pair_bool io key v) (string_text key ++ text (flag v))
        × Emits (pair_uint io key n) (string_text key ++ text (nat n))
        × Emits (pair_int io key z) (string_text key ++ text (int z))
        × Emits (pair_str io key s) (string_text key ++ text (str s))
        × Emits (pair_bytes io key s) (string_text key ++ text (str s))
        × Emits (pair_strings io key vs) (string_text key ++ text (list (map_trees until_zero vs)))
        × Emits (pair_compact io key ks) (string_text key ++ text (str (concat_map (λ k. k) ks)))
        × Emits
            (pair_id_contact_compact io key ns)
            (string_text key ++ text (str (concat_map compact_node ns)))
        × Emits
            (pair_string_list_contact io key cs)
            (string_text key ++ text (list (map_trees compact_contact cs)))
  unfolding pair_bool pair_uint pair_int pair_str pair_bytes pair_strings pair_compact
      pair_id_contact_compact pair_string_list_contact generic_encode_pair
  pair-Emits key s n z v vs ks ns cs hk hn = (
    generic_encode_pair-Emits key (value_bool io v) (flag v) (value-Emits n z v).2,
    generic_encode_pair-Emits key (value_uint io n) (nat n) (value-Emits n z v).0,
    generic_encode_pair-Emits key (value_int io z) (int z) (value-Emits n z v).1,
    generic_encode_pair-Emits key (encode_raw io s) (str s) (str-Emits s),
    generic_encode_pair-Emits key (encode_raw io s) (str s) (str-Emits s),
    generic_encode_pair-Emits key _ _ (list_strings-Emits io laws vs),
    generic_encode_pair-Emits key _ _ (value_compact-Emits io laws ks hk),
    generic_encode_pair-Emits key _ _ (value_id_contact_compact-Emits io laws ns hn),
    generic_encode_pair-Emits key _ _ (value_string_list_contact-Emits io laws cs),
  )

  write_c_entries-Emits :
      (cs : List Contact) → Emits (write_c_entries io cs) (texts (map_trees c_entry cs))
  unfolding write_c_entries text
  write_c_entries-Emits [] = done-Emits
  write_c_entries-Emits (c ∷ cs) =
      then-Emits _ _ (string_text (c_entry c)) _ (encode_raw-Emits io laws (c_entry c))
        (write_c_entries-Emits cs)

  -- A list of contacts is written with each entry cut before its first zero byte, and an entry is
  -- whole exactly if no byte of the address and of the port is zero.
  pub pair_string_list_contact_list-Emits :
      (key : List Byte) (cs : List Contact) (c : Contact)
      → Emits
          (pair_string_list_contact_list io key cs)
          (string_text key ++ text (list (map_trees c_entry cs)))
        × ((length (c_entry c) ≡ 6) ↔ All (λ x. x ≢ 0) (compact_contact c))
  unfolding pair_string_list_contact_list value_string_list_contact_list text
  pair_string_list_contact_list-Emits key cs c = (
    then-Emits _ _ (string_text key) _ (encode_raw-Emits io laws key)
        (bracket-Emits io laws b'l' _ _ (write_c_entries-Emits cs)),
    until_zero-whole (compact_contact c),
  )
