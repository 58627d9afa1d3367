-- ===== src/Krpc/Tests.antt =====
-- The theorems on src/krpc.cpp and on src/encode_bencode.cpp with a stream that meets its laws.
use btdht.Prelude.{
  ◌+◌, refl, true, false, List, [], ◌∷◌, ◌++◌, ltb, le→ltb, lt→ltb, if◌then◌else◌, length,
  replicate,
}
use btdht.Prelude.Bytes.{Byte}
use btdht.Prelude.Text.{bytes}
use btdht.Prelude.Int.{pos}
use btdht.Id.{Key}
use btdht.Address.{ipv4, Contact, Transaction}
use btdht.Routing.{Node}
use btdht.Sp.{reference, reference-SpLaws}
use btdht.Bencode.Spec.{appended, Aborted, Outcome, string_text, Encodes}
use btdht.Bencode.Tree.{str, list, end, text}
use btdht.Bencode.Encode.{Writer}
use btdht.Bencode.Encode.Contract.{Emits}
use btdht.Bencode.Stream
use btdht.Bencode.Stream.{Stream, StreamLaws}
use btdht.Bencode.Stream.Correct.{compact_node, concat_map, map_trees}
use btdht.Bencode.Stream.Pairs.{pair-Emits, c_entry, pair_string_list_contact_list-Emits}
use btdht.Krpc.Frame.{resp_tree, req_tree}
use btdht.Krpc.Request
use btdht.Krpc.Request.{Texts, searching, requests-Encodes}
use btdht.Krpc.Response
use btdht.Krpc.Response.Correct.{id_fields, nodes_fields, responses-Encodes}

-- A stream that writes into the buffer what fits.
abbrev pub writing : List Byte → Writer
writing xs b = if ltb b.capacity (b.pos + length xs) then (false, b) else (true, appended b xs)

abbrev pub stream : Stream
stream = record { write = writing; write_byte = λ c. writing (c ∷ []) }

writing-Outcome : (xs : List Byte) → Outcome Aborted (writing xs) xs
writing-Outcome xs = record {
  fits = λ b v h. rw (le→ltb b.capacity (b.pos + length xs) h) refl;
  refuses = λ b v h.
      rw (lt→ltb b.capacity (b.pos + length xs) h)
        (record { failed = refl; capacity = refl; filled = refl; size = refl; kept = refl });
}

pub stream-StreamLaws : StreamLaws stream
stream-StreamLaws = record {
  write_lem = writing-Outcome;
  write_byte_lem = λ c. writing-Outcome (c ∷ []);
}

abbrev pub append_text : Texts → List Byte → Texts
append_text xs x = xs ++ x ∷ []

abbrev pub transaction : Transaction
transaction = record { length = 4; id = bytes "aa12" }

abbrev pub ids : Key
ids = replicate 20 7

abbrev contact : Contact
contact = record { ip = ipv4 167772161; port = 6881 }

abbrev pub node : Node
node = record {
  contact = contact;
  id = ids;
  outstanding = 0;
  remote_activity = 0;
  req_sent = 0;
  valid_id = true;
  is_good = true;
  is_readonly = false;
  support_sample_infohashes = false;
}

requests-Encodes_example :
    Encodes (Request.find_node reference stream append_text transaction ids ids true false) (
      text (
        req_tree transaction
          (bytes "find_node")
          (searching (bytes "target") ids ids true false end)))
requests-Encodes_example =
    (requests-Encodes reference reference-SpLaws stream stream-StreamLaws append_text
      (λ xs x h. refl) transaction ids ids true false false 6881 (bytes "abcde")).1

responses-Encodes_example :
    Encodes
      (Response.find_node reference stream transaction ids true (node ∷ []) true)
      (text (resp_tree transaction (id_fields ids (nodes_fields true (node ∷ []) true))))
responses-Encodes_example =
    (responses-Encodes reference reference-SpLaws stream stream-StreamLaws transaction ids
      (bytes "abcde") (replicate 256 0) (replicate 256 0) true true (node ∷ []) (contact ∷ []) 300 1
      (ids ∷ []) (pos 203) (bytes "protocol") (refl, tt) (refl, tt)).1

stream_pair-Emits_example :
    Emits
      (Stream.pair_id_contact_compact stream (bytes "nodes") (node ∷ []))
      (string_text (bytes "nodes") ++ text (str (concat_map compact_node (node ∷ []))))
stream_pair-Emits_example =
    (pair-Emits stream stream-StreamLaws (bytes "nodes") (bytes "x") 1 (pos 1) true [] []
      (node ∷ []) (contact ∷ []) tt (refl, tt)).7

list_pair-Emits_example :
    Emits
      (Stream.pair_string_list_contact_list stream (bytes "values") (contact ∷ []))
      (string_text (bytes "values") ++ text (list (map_trees c_entry (contact ∷ []))))
list_pair-Emits_example =
    (pair_string_list_contact_list-Emits stream stream-StreamLaws (bytes "values") (contact ∷ [])
      contact).0
