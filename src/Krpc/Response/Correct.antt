-- ===== src/Krpc/Response/Correct.antt =====
-- The responses of src/krpc.cpp write their messages.
use btdht.Prelude.{sym, subst, append-nil, ℕ, Bool, true, false, List, [], ◌++◌, if◌then◌else◌, All}
use btdht.Prelude.Bytes.{Byte}
use btdht.Prelude.Text.{bytes}
use btdht.Prelude.Int.{ℤ, pos}
use btdht.Id.{Key}
use btdht.Address.{Transaction, Contact}
use btdht.Routing.{Node}
use btdht.Sp.{Sp, SpLaws}
use btdht.Bencode.Spec.{string_text, Encodes}
use btdht.Bencode.Tree.{
  Tree, nat, int, str, list, nil, cons, Fields, end, field, text, texts, field_texts,
}
use btdht.Bencode.Encode
use btdht.Bencode.Encode.{Writer, ◌then◌, done}
use btdht.Bencode.Encode.Contract.{Emits, Encodes-Emits, then-Emits}
use btdht.Bencode.Encode.Correct.{bracketed-Encodes, encode_raw-Encodes, value_int-Encodes}
use btdht.Bencode.Stream
use btdht.Bencode.Stream.{Stream, StreamLaws}
use btdht.Bencode.Stream.Correct.{
  IsKey, compact_contact, compact_node, concat_map, map_trees, done-Emits,
}
use btdht.Bencode.Stream.Pairs.{pair-Emits}
use btdht.Krpc.Fields.{bytes-field, nat-field, keys-field, nodes-field, end-Emits}
use btdht.Krpc.Frame.{resp_tree, err_tree, resp-Encodes, err-Encodes}
use btdht.Krpc.Response.{
  ping, find_node, get_peers, get_peers_peers, get_peers_scrape, announce_peer, sample_infohashes,
  error, only_if,
}

-- What each response carries.
abbrev pub nodes_value : List Node → Tree
nodes_value ns = str (concat_map compact_node ns)

abbrev pub field_if : Bool → List Byte → Tree → Fields → Fields
field_if c k v fs = if c then field k v fs else fs

abbrev pub nodes_fields : Bool → List Node → Bool → Fields
nodes_fields n4 ns n6 =
    field_if n4 (bytes "nodes") (nodes_value ns) (field_if n6 (bytes "nodes6") (str []) end)

abbrev pub id_fields : Key → Fields → Fields
id_fields id fs = field (bytes "id") (str id) fs

abbrev pub token_fields : Key → List Byte → Fields → Fields
token_fields id token fs = id_fields id (field (bytes "token") (str token) fs)

abbrev pub sample_fields : Key → ℕ → List Node → ℕ → List Key → Fields
sample_fields id interval ns num samples = id_fields id (
    field (bytes "interval") (nat interval) (
      field (bytes "nodes") (nodes_value ns) (
        field (bytes "num") (nat num)
          (field (bytes "samples") (str (concat_map (λ k. k) samples)) end))))

abbrev pub error_tree : ℤ → List Byte → Tree
error_tree code msg = list (cons (int code) (cons (str msg) nil))

module _ (io : Stream) (streams : StreamLaws io) where
  nodes_if :
      (c : Bool) (k : List Byte) (ns : List Node) (rest : Writer) (fs : Fields)
      → All (λ (n : Node). IsKey n.id) ns
      → Emits rest (field_texts fs)
      → Emits
          (only_if c (Stream.pair_id_contact_compact io k ns) then rest)
          (field_texts (field_if c k (nodes_value ns) fs))
  nodes_if true k ns rest fs h e = nodes-field io streams rest fs e k ns h
  nodes_if false k ns rest fs h e = then-Emits done rest [] (field_texts fs) done-Emits e

  nodes-Emits :
      (n4 n6 : Bool) (ns : List Node)
      → All (λ (n : Node). IsKey n.id) ns
      → Emits
          (only_if n4 (Stream.pair_id_contact_compact io (bytes "nodes") ns)
            then only_if n6 (Stream.pair_id_contact_compact io (bytes "nodes6") [])
            then done)
          (field_texts (nodes_fields n4 ns n6))
  nodes-Emits n4 n6 ns h =
      nodes_if n4 (bytes "nodes") ns _ (field_if n6 (bytes "nodes6") (str []) end) h
        (nodes_if n6 (bytes "nodes6") [] done end tt end-Emits)

  values-Emits :
      (cs : List Contact)
      → Emits
          (Stream.pair_string_list_contact io (bytes "values") cs)
          (field_texts (field (bytes "values") (list (map_trees compact_contact cs)) end))
  unfolding text
  values-Emits cs =
      subst (Emits (Stream.pair_string_list_contact io (bytes "values") cs))
        (sym
          (append-nil (string_text (bytes "values") ++ text (list (map_trees compact_contact cs)))))
        (pair-Emits io streams (bytes "values") [] 0 (pos 0) true [] [] [] cs tt tt).8

module _ (sp : Sp) (laws : SpLaws sp) where
  id-Emits :
      (id : Key) (rest : Writer) (fs : Fields)
      → Emits rest (field_texts fs)
      → Emits (Encode.pair_bytes sp (bytes "id") id then rest) (field_texts (id_fields id fs))
  id-Emits id rest fs e = bytes-field sp laws rest fs e (bytes "id") id

  token-Emits :
      (id : Key) (token : List Byte) (rest : Writer) (fs : Fields)
      → Emits rest (field_texts fs)
      → Emits
          (Encode.pair_bytes sp (bytes "id") id
            then Encode.pair_bytes sp (bytes "token") token
            then rest)
          (field_texts (token_fields id token fs))
  token-Emits id token rest fs e =
      id-Emits id _ (field (bytes "token") (str token) fs)
        (bytes-field sp laws rest fs e (bytes "token") token)

  error-Emits :
      (code : ℤ) (msg : List Byte)
      → Emits
          (Encode.list sp (Encode.value_int sp code then Encode.encode_raw sp msg then done))
          (text (error_tree code msg))
  unfolding text
  error-Emits code msg =
      Encodes-Emits _ _
        (bracketed-Encodes sp laws _ (texts (cons (int code) (cons (str msg) nil))) (
          then-Emits _ _ (text (int code)) _ (Encodes-Emits _ _ (value_int-Encodes sp laws code)) (
            then-Emits _ done (string_text msg) []
              (Encodes-Emits _ _ (encode_raw-Encodes sp laws msg)) done-Emits))).0

module _ (sp : Sp) (laws : SpLaws sp) (io : Stream) (streams : StreamLaws io) where
  sample-Emits :
      (id : Key) (interval : ℕ) (ns : List Node) (num : ℕ) (samples : List Key)
      → All (λ (n : Node). IsKey n.id) ns
      → All IsKey samples
      → Emits
          (Encode.pair_bytes sp (bytes "id") id
            then Encode.pair_uint sp (bytes "interval") interval
            then Stream.pair_id_contact_compact io (bytes "nodes") ns
            then Encode.pair_uint sp (bytes "num") num
            then Stream.pair_compact io (bytes "samples") samples
            then done)
          (field_texts (sample_fields id interval ns num samples))
  sample-Emits id interval ns num samples hn hs =
      let last = field (bytes "samples") (str (concat_map (λ k. k) samples)) end in
      let nums = field (bytes "num") (nat num) last in
      let nodes = field (bytes "nodes") (nodes_value ns) nums in
      id-Emits sp laws id _ (field (bytes "interval") (nat interval) nodes) (
        nat-field sp laws _ nodes
          (nodes-field io streams _ nums
            (nat-field sp laws _ last
              (keys-field io streams done end end-Emits (bytes "samples") samples hs) (bytes "num")
              num)
            (bytes "nodes") ns hn)
          (bytes "interval") interval)

  -- Every response and every error is written whole or not at all: the id and its other values under their keys,
  -- the transaction and the version, if the ids of the nodes and the samples have twenty bytes. The
  -- nodes are there only where they are asked for, and those of the version 6 are an empty string. An error is a list of its number and its text.
  pub responses-Encodes :
      (t : Transaction) (id : Key) (token seeds peers : List Byte) (n4 n6 : Bool) (ns : List Node)
      (values : List Contact) (interval num : ℕ) (samples : List Key) (code : ℤ) (msg : List Byte)
      → All (λ (n : Node). IsKey n.id) ns
      → All IsKey samples
      → Encodes (ping sp io t id) (text (resp_tree t (id_fields id end)))
        × Encodes
            (find_node sp io t id n4 ns n6)
            (text (resp_tree t (id_fields id (nodes_fields n4 ns n6))))
        × Encodes
            (get_peers sp io t id token n4 ns n6)
            (text (resp_tree t (token_fields id token (nodes_fields n4 ns n6))))
        × Encodes (get_peers_peers sp io t id token values) (
            text (
              resp_tree t (
                token_fields id token
                  (field (bytes "values") (list (map_trees compact_contact values)) end))))
        × Encodes (get_peers_scrape sp io t id token seeds peers) (
            text (
              resp_tree t (
                token_fields id token
                  (field (bytes "BFsd") (str seeds) (field (bytes "BFpe") (str peers) end)))))
        × Encodes (announce_peer sp io t id) (text (resp_tree t (id_fields id end)))
        × Encodes
            (sample_infohashes sp io t id interval ns num samples)
            (text (resp_tree t (sample_fields id interval ns num samples)))
        × Encodes (error sp io t code msg) (text (err_tree t (error_tree code msg)))
  unfolding error ping find_node get_peers get_peers_peers get_peers_scrape announce_peer
      sample_infohashes
  responses-Encodes t id token seeds peers n4 n6 ns values interval num samples code msg hn hs = (
    resp-Encodes sp laws t _ _ (id-Emits sp laws id done end end-Emits),
    resp-Encodes sp laws t _ _
        (id-Emits sp laws id _ (nodes_fields n4 ns n6) (nodes-Emits io streams n4 n6 ns hn)),
    resp-Encodes sp laws t _ _ (
        token-Emits sp laws id token _ (nodes_fields n4 ns n6)
          (nodes-Emits io streams n4 n6 ns hn)),
    resp-Encodes sp laws t _ _ (
        token-Emits sp laws id token _
          (field (bytes "values") (list (map_trees compact_contact values)) end)
          (values-Emits io streams values)),
    resp-Encodes sp laws t _ _ (
        token-Emits sp laws id token _
          (field (bytes "BFsd") (str seeds) (field (bytes "BFpe") (str peers) end))
          (bytes-field sp laws _ (field (bytes "BFpe") (str peers) end)
            (bytes-field sp laws done end end-Emits (bytes "BFpe") peers) (bytes "BFsd") seeds)),
    resp-Encodes sp laws t _ _ (id-Emits sp laws id done end end-Emits),
    resp-Encodes sp laws t _ _ (sample-Emits id interval ns num samples hn hs),
    err-Encodes sp laws t _ (error_tree code msg) (error-Emits sp laws code msg),
  )
