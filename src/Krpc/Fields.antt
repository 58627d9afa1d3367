-- ===== src/Krpc/Fields.antt =====
-- The pairs of src/bencode.cpp and of src/encode_bencode.cpp in front of other fields.
use btdht.Prelude.{ℕ, Bool, true, List, [], All}
use btdht.Prelude.Bytes.{Byte}
use btdht.Prelude.Int.{pos}
use btdht.Id.{Key}
use btdht.Routing.{Node}
use btdht.Sp.{Sp, SpLaws}
use btdht.Bencode.Tree.{nat, str, list, Fields, end, field, text, field_texts}
use btdht.Bencode.Encode
use btdht.Bencode.Encode.{Writer, ◌then◌, done, signed_decimal}
use btdht.Bencode.Encode.Contract.{Emits, Encodes-Emits}
use btdht.Bencode.Encode.Correct.{pair-Encodes}
use btdht.Bencode.Stream
use btdht.Bencode.Stream.{Stream, StreamLaws, until_zero}
use btdht.Bencode.Stream.Correct.{IsKey, compact_node, concat_map, map_trees, done-Emits}
use btdht.Bencode.Stream.Pairs.{field-Emits, flag, pair-Emits}

pub end-Emits : Emits done (field_texts end)
unfolding text
end-Emits = done-Emits

module _ (sp : Sp) (laws : SpLaws sp) (rest : Writer) (fs : Fields)
    (next : Emits rest (field_texts fs)) where
  pub bytes-field :
      (k s : List Byte)
      → Emits (Encode.pair_bytes sp k s then rest) (field_texts (field k (str s) fs))
  unfolding text
  bytes-field k s =
      field-Emits k (str s) _ rest fs
        (Encodes-Emits _ _ (pair-Encodes sp laws k s 0 (pos 0) true).1) next

  pub str-field :
      (k s : List Byte)
      → Emits (Encode.pair_str sp k s then rest) (field_texts (field k (str s) fs))
  unfolding text
  str-field k s =
      field-Emits k (str s) _ rest fs
        (Encodes-Emits _ _ (pair-Encodes sp laws k s 0 (pos 0) true).0) next

  pub nat-field :
      (k : List Byte) (n : ℕ)
      → Emits (Encode.pair_uint sp k n then rest) (field_texts (field k (nat n) fs))
  unfolding text
  nat-field k n =
      field-Emits k (nat n) _ rest fs
        (Encodes-Emits _ _ (pair-Encodes sp laws k k n (pos 0) true).2) next

  pub flag-field :
      (k : List Byte) (v : Bool)
      → Emits (Encode.pair_bool sp k v then rest) (field_texts (field k (flag v) fs))
  unfolding text signed_decimal
  flag-field k v =
      field-Emits k (flag v) _ rest fs (Encodes-Emits _ _ (pair-Encodes sp laws k k 0 (pos 0) v).4)
        next

module _ (io : Stream) (laws : StreamLaws io) (rest : Writer) (fs : Fields)
    (next : Emits rest (field_texts fs)) where
  pub strings-field :
      (k : List Byte) (vs : List (List Byte))
      → Emits
          (Stream.pair_strings io k vs then rest)
          (field_texts (field k (list (map_trees until_zero vs)) fs))
  strings-field k vs =
      field-Emits k (list (map_trees until_zero vs)) _ rest fs
        (pair-Emits io laws k k 0 (pos 0) true vs [] [] [] tt tt).5 next

  pub io_flag-field :
      (k : List Byte) (v : Bool)
      → Emits (Stream.pair_bool io k v then rest) (field_texts (field k (flag v) fs))
  io_flag-field k v =
      field-Emits k (flag v) _ rest fs (pair-Emits io laws k k 0 (pos 0) v [] [] [] [] tt tt).0 next

  pub keys-field :
      (k : List Byte) (ks : List Key)
      → All IsKey ks
      → Emits
          (Stream.pair_compact io k ks then rest)
          (field_texts (field k (str (concat_map (λ k. k) ks)) fs))
  keys-field k ks h =
      field-Emits k _ _ rest fs (pair-Emits io laws k k 0 (pos 0) true [] ks [] [] h tt).6 next

  pub nodes-field :
      (k : List Byte) (ns : List Node)
      → All (λ (n : Node). IsKey n.id) ns
      → Emits
          (Stream.pair_id_contact_compact io k ns then rest)
          (field_texts (field k (str (concat_map compact_node ns)) fs))
  nodes-field k ns h =
      field-Emits k _ _ rest fs (pair-Emits io laws k k 0 (pos 0) true [] [] ns [] tt h).7 next
