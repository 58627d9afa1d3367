-- ===== src/Krpc/Frame.antt =====
-- The frame of src/krpc_shared.h: what `message`, `resp`, `req` and `err` write around a body.
use btdht.Prelude.{Option, none, some, List, [], ◌++◌, take}
use btdht.Prelude.Bytes.{Byte}
use btdht.Prelude.Text.{bytes}
use btdht.Address.{Transaction}
use btdht.Sp.{Sp, SpLaws}
use btdht.Bencode.Spec.{string_text, Encodes}
use btdht.Bencode.Tree.{Tree, str, dict, Fields, end, field, text, field_texts}
use btdht.Bencode.Encode
use btdht.Bencode.Encode.{Writer, ◌then◌, done}
use btdht.Bencode.Encode.Contract.{Emits, Encodes-Emits, then-Emits}
use btdht.Bencode.Encode.Correct.{encode_raw-Encodes, bracketed-Encodes}
use btdht.Bencode.Stream.Correct.{done-Emits}
use btdht.Bencode.Stream.Pairs.{field-Emits}
use btdht.Krpc.{message, resp, req, err, pair_query}
use btdht.Krpc.Fields.{bytes-field, str-field}

-- The fields behind the body: the transaction, the version and the type of the message.
abbrev pub tail_fields : Transaction → List Byte → Fields
tail_fields t mt =
    field (bytes "t") (str (take t.length t.id))
      (field (bytes "v") (str (bytes "sp02")) (field (bytes "y") (str mt) end))

abbrev pub query_fields : Option (List Byte) → Fields → Fields
query_fields none fs = fs
query_fields (some query) fs = field (bytes "q") (str query) fs

-- A message with its body under the key `k`.
abbrev pub message_tree : List Byte → Tree → Option (List Byte) → Transaction → List Byte → Tree
message_tree k body query t mt = dict (field k body (query_fields query (tail_fields t mt)))

abbrev pub resp_tree : Transaction → Fields → Tree
resp_tree t fs = message_tree (bytes "r") (dict fs) none t (bytes "r")

abbrev pub req_tree : Transaction → List Byte → Fields → Tree
req_tree t query fs = message_tree (bytes "a") (dict fs) (some query) t (bytes "q")

abbrev pub err_tree : Transaction → Tree → Tree
err_tree t body = message_tree (bytes "e") body none t (bytes "e")

module _ (sp : Sp) (laws : SpLaws sp) where
  query-Emits :
      (query : Option (List Byte)) (rest : Writer) (fs : Fields)
      → Emits rest (field_texts fs)
      → Emits (pair_query sp query then rest) (field_texts (query_fields query fs))
  query-Emits none rest fs e = then-Emits done rest [] (field_texts fs) done-Emits e
  query-Emits (some query) rest fs e = str-field sp laws rest fs e (bytes "q") query

  tail-Emits :
      (t : Transaction) (mt : List Byte)
      → Emits
          (Encode.pair_bytes sp (bytes "t") (take t.length t.id)
            then Encode.pair_bytes sp (bytes "v") (bytes "sp02")
            then Encode.pair_str sp (bytes "y") mt
            then done)
          (field_texts (tail_fields t mt))
  unfolding text
  tail-Emits t mt =
      let yes = str-field sp laws done end done-Emits (bytes "y") mt in
      let version =
        bytes-field sp laws _ (field (bytes "y") (str mt) end) yes (bytes "v") (bytes "sp02") in
      bytes-field sp laws _
        (field (bytes "v") (str (bytes "sp02")) (field (bytes "y") (str mt) end)) version
        (bytes "t") (take t.length t.id)

  -- A message of any body is written whole or not at all.
  pub message-Encodes :
      (t : Transaction) (mt : List Byte) (query : Option (List Byte)) (f : Writer) (k : List Byte)
      (body : Tree)
      → Emits f (string_text k ++ text body)
      → Encodes (message sp t mt query f) (text (message_tree k body query t mt))
  unfolding message text
  message-Encodes t mt query f k body e =
      (bracketed-Encodes sp laws _
        (field_texts (field k body (query_fields query (tail_fields t mt))))
        (field-Emits k body f _ (query_fields query (tail_fields t mt)) e
          (query-Emits query _ (tail_fields t mt) (tail-Emits t mt)))).1

  pub keyed_dict-Emits :
      (k : List Byte) (f : Writer) (fs : Fields)
      → Emits f (field_texts fs)
      → Emits (Encode.encode_raw sp k then Encode.dict sp f) (string_text k ++ text (dict fs))
  unfolding text
  keyed_dict-Emits k f fs e =
      then-Emits _ _ (string_text k) (text (dict fs))
        (Encodes-Emits _ _ (encode_raw-Encodes sp laws k))
        (Encodes-Emits _ _ (bracketed-Encodes sp laws f (field_texts fs) e).1)

  pub resp-Encodes :
      (t : Transaction) (f : Writer) (fs : Fields)
      → Emits f (field_texts fs)
      → Encodes (resp sp t f) (text (resp_tree t fs))
  unfolding resp
  resp-Encodes t f fs e =
      message-Encodes t _ none _ (bytes "r") (dict fs) (keyed_dict-Emits (bytes "r") f fs e)

  pub req-Encodes :
      (t : Transaction) (query : List Byte) (f : Writer) (fs : Fields)
      → Emits f (field_texts fs)
      → Encodes (req sp t query f) (text (req_tree t query fs))
  unfolding req
  req-Encodes t query f fs e =
      message-Encodes t _ (some query) _ (bytes "a") (dict fs) (keyed_dict-Emits (bytes "a") f fs e)

  pub err-Encodes :
      (t : Transaction) (f : Writer) (body : Tree)
      → Emits f (text body)
      → Encodes (err sp t f) (text (err_tree t body))
  unfolding err
  err-Encodes t f body e = message-Encodes t _ none _ (bytes "e") body (
      then-Emits _ f (string_text (bytes "e")) (text body)
        (Encodes-Emits _ _ (encode_raw-Encodes sp laws (bytes "e"))) e)
