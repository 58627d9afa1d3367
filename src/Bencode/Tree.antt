-- ===== src/Bencode/Tree.antt =====
-- What a bencoded text stands for: numbers, strings, lists and dictionaries, and the text of each.
use btdht.Prelude.{ℕ, List, [], ◌++◌}
use btdht.Prelude.Bytes.{Byte}
use btdht.Prelude.Decimal.{decimal}
use btdht.Prelude.Int.{ℤ}
use btdht.Bencode.Spec.{string_text, integer_text, list_text, dict_text}
use btdht.Bencode.Encode.{signed_decimal}

mutual
  pub data Tree : Type 0 where
    nat : ℕ → Tree
    int : ℤ → Tree
    str : List Byte → Tree
    list : Trees → Tree
    dict : Fields → Tree

  pub data Trees : Type 0 where
    nil : Trees
    cons : Tree → Trees → Trees

  pub data Fields : Type 0 where
    end : Fields
    field : List Byte → Tree → Fields → Fields

unfoldable mutual
  pub text : Tree → List Byte
  text (nat n) = integer_text (decimal n)
  text (int z) = integer_text (signed_decimal z)
  text (str s) = string_text s
  text (list ts) = list_text (texts ts)
  text (dict fs) = dict_text (field_texts fs)

  pub texts : Trees → List Byte
  texts nil = []
  texts (cons t ts) = text t ++ texts ts

  pub field_texts : Fields → List Byte
  field_texts end = []
  field_texts (field k v fs) = (string_text k ++ text v) ++ field_texts fs
