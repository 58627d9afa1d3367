-- ===== src/Krpc/Parse/Tests.antt =====
-- The parsers of src/krpc.h and src/krpc_parse.cpp on requests, with a library that meets its laws.
use btdht.Prelude.{ℕ, ◌≡◌, refl, ap, true, false, List, [], ◌∷◌, ◌++◌, arith, lt→ltb, replicate}
use btdht.Prelude.Text.{bytes}
use btdht.Prelude.Decimal.{decimal}
use btdht.Prelude.Int.{pos}
use btdht.Id.{is_valid_id}
use btdht.Routing.{Node}
use btdht.Sp.{Buffer, IsValid, reference, reference-SpLaws}
use btdht.Bencode.Tree.{nat, str, list, dict, nil, cons, end, field, text}
use btdht.Bencode.Decode.Contract.{Reads}
use btdht.Bencode.Generic.{FrontLaws, reference_front}
use btdht.Bencode.Nodes.{nodes_round_trip}
use btdht.Bencode.Offset.{list_wildcard, dict_wildcard, nodes}
use btdht.Bencode.Stream.{pair_id_contact_compact}
use btdht.Bencode.Stream.Pairs.{pair-Emits}
use btdht.Address.{IdContact}
use btdht.Bencode.RoundTrip.{ReadsBack}
use btdht.Bencode.Wildcards.{wildcards-Reads}
use btdht.Krpc.Request.{requests-Encodes}
use btdht.Krpc.Parse.Receive.{tx_of, krpc}
use btdht.Krpc.Parse.Received.{CutLaws}
use btdht.Krpc.Query.{find_node, written, parser, with_frame, much, as_sent}
use btdht.Krpc.RoundTrip.{request_round_trip}
use btdht.Krpc.Tests.{stream, stream-StreamLaws, append_text, transaction, ids, node}

reference_front-FrontLaws : FrontLaws reference_front
reference_front-FrontLaws = record {
  pop_front_lem = λ b h. rw (lt→ltb b.pos b.length h) refl;
  pop_bytes_lem = λ n b h. refl;
  peek_front_lem = λ b h. rw (lt→ltb b.pos b.length h) refl;
}

abbrev part : Buffer → ℕ → ℕ → Buffer
part b start stop = record b { pos = start; length = stop }

part-CutLaws : CutLaws part
part-CutLaws = record {
  cut_readable = λ b start stop v h k. record { size = v.size; filled = omega arith; cursor = h };
  cut_Holds = λ b start stop xs v size room held. (held, omega arith);
}

abbrev empty : Buffer
empty = record { raw = replicate 256 0; capacity = 256; length = 0; pos = 0 }

empty-IsValid : IsValid empty
empty-IsValid = record { size = refl; cursor = omega arith }

sent :
    (written reference stream append_text transaction (find_node ids ids true false) empty).0 ≡ true
unfolding text decimal
sent =
    ap (λ r. r.0)
      ((requests-Encodes reference reference-SpLaws stream stream-StreamLaws append_text
          (λ xs x h. refl) transaction ids ids true false true 0 []).1.fits
        empty empty-IsValid (omega arith))

request_round_trip_example :
    ReadsBack empty
      (written reference stream append_text transaction (find_node ids ids true false))
      (krpc reference part (much 0) (
        with_frame
          (parser reference reference_front append_text (much 0) (find_node ids ids true false))))
      (tx_of (bytes "aa12"), bytes "find_node", as_sent (find_node ids ids true false))
request_round_trip_example =
    request_round_trip reference reference-SpLaws reference_front reference_front-FrontLaws
      append_text (λ xs x h. refl) stream stream-StreamLaws transaction part part-CutLaws
      (omega arith) 0 (find_node ids ids true false) empty (refl, refl) empty-IsValid sent

wildcards-Reads_example :
    Reads (list_wildcard reference 16) (text (list (cons (nat 7) (cons (list nil) nil)))) tt
    × Reads
        (dict_wildcard reference 16)
        (text (dict (field (bytes "a") (dict (field (bytes "b") (str (bytes "x")) end)) end)))
        tt
wildcards-Reads_example =
    wildcards-Reads reference reference-SpLaws (cons (nat 7) (cons (list nil) nil))
      (field (bytes "a") (dict (field (bytes "b") (str (bytes "x")) end)) end) 16 (omega arith)
      (omega arith) (omega arith) (omega arith)

-- Written as it comes, and an id of zero.
abbrev nameless : Node
nameless = record node { id = replicate 20 0 }

abbrev push_back : List IdContact → IdContact → List IdContact
push_back xs x = xs ++ x ∷ []

nodes_round_trip_example :
    ReadsBack empty
      (pair_id_contact_compact stream (bytes "nodes") (nameless ∷ node ∷ []))
      (nodes reference push_back 3 (bytes "nodes"))
      (record { contact = node.contact; id = ids } ∷ [])
unfolding text decimal is_valid_id
nodes_round_trip_example =
    nodes_round_trip reference reference-SpLaws push_back stream stream-StreamLaws (bytes "nodes")
      (nameless ∷ node ∷ []) 3 empty (omega arith)
      ((refl, omega arith, omega arith), ((refl, omega arith, omega arith), tt)) (omega arith)
      (omega arith) empty-IsValid
      (ap (λ r. r.0)
        ((pair-Emits stream stream-StreamLaws (bytes "nodes") [] 0 (pos 0) true [] []
            (nameless ∷ node ∷ []) [] tt (refl, (refl, tt))).7.fits
          empty empty-IsValid (omega arith)))
