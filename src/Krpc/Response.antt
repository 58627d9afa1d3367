-- ===== src/Krpc/Response.antt =====
-- The responses of src/krpc.cpp. An array is the list of its elements; a token is the first
-- `length` bytes of its array, and `BFsd` and `BFpe` are arrays of 256 bytes.
pub mod Correct
use btdht.Prelude.{ℕ, Bool, true, false, List, [], ◌∷◌, ◌++◌, if◌then◌else◌, All}
use btdht.Prelude.Bytes.{Byte}
use btdht.Prelude.Text.{bytes}
use btdht.Prelude.Int.{ℤ}
use btdht.Id.{Key}
use btdht.Address.{Transaction, Contact}
use btdht.Routing.{Node}
use btdht.Sp.{Sp, SpLaws}
use btdht.Bencode.Spec.{string_text, Encodes}
use btdht.Bencode.Tree.{
  Tree, nat, int, str, list, nil, cons, Fields, end, field, text, texts, field_texts,
}
use btdht.Bencode.Encode
use btdht.Bencode.Encode.{Writer, ◌then◌, done}
use btdht.Bencode.Encode.Contract.{Emits, Encodes-Emits, then-Emits}
use btdht.Bencode.Stream
use btdht.Bencode.Stream.{Stream, StreamLaws}
use btdht.Bencode.Stream.Correct.{
  IsKey, compact_contact, compact_node, concat_map, map_trees, done-Emits,
}
use btdht.Krpc.{resp, err}
use btdht.Krpc.Fields.{bytes-field, nat-field, keys-field, nodes-field, end-Emits}
use btdht.Krpc.Frame.{resp_tree, err_tree, resp-Encodes, err-Encodes}

-- `if (c) { if (!m(b)) return false; }`
abbrev pub only_if : Bool → Writer → Writer
only_if c m = if c then m else done

module _ (sp : Sp) (io : Stream) where
  pub ping : Transaction → Key → Writer
  ping t id = resp sp t (Encode.pair_bytes sp (bytes "id") id then done)

  pub find_node : Transaction → Key → Bool → List Node → Bool → Writer
  find_node t id n4 nodes4 n6 = resp sp t (
      Encode.pair_bytes sp (bytes "id") id
      then only_if n4 (Stream.pair_id_contact_compact io (bytes "nodes") nodes4)
      then only_if n6 (Stream.pair_id_contact_compact io (bytes "nodes6") [])
      then done)

  pub get_peers : Transaction → Key → List Byte → Bool → List Node → Bool → Writer
  get_peers t id token n4 nodes4 n6 = resp sp t (
      Encode.pair_bytes sp (bytes "id") id
      then Encode.pair_bytes sp (bytes "token") token
      then only_if n4 (Stream.pair_id_contact_compact io (bytes "nodes") nodes4)
      then only_if n6 (Stream.pair_id_contact_compact io (bytes "nodes6") [])
      then done)

  pub get_peers_peers : Transaction → Key → List Byte → List Contact → Writer
  get_peers_peers t id token values = resp sp t (
      Encode.pair_bytes sp (bytes "id") id
      then Encode.pair_bytes sp (bytes "token") token
      then Stream.pair_string_list_contact io (bytes "values") values)

  pub get_peers_scrape : Transaction → Key → List Byte → List Byte → List Byte → Writer
  get_peers_scrape t id token seeds peers = resp sp t (
      Encode.pair_bytes sp (bytes "id") id
      then Encode.pair_bytes sp (bytes "token") token
      then Encode.pair_bytes sp (bytes "BFsd") seeds
      then Encode.pair_bytes sp (bytes "BFpe") peers
      then done)

  pub announce_peer : Transaction → Key → Writer
  announce_peer t id = resp sp t (Encode.pair_bytes sp (bytes "id") id then done)

  pub sample_infohashes : Transaction → Key → ℕ → List Node → ℕ → List Key → Writer
  sample_infohashes t id interval nodes num samples = resp sp t (
      Encode.pair_bytes sp (bytes "id") id
      then Encode.pair_uint sp (bytes "interval") interval
      then Stream.pair_id_contact_compact io (bytes "nodes") nodes
      then Encode.pair_uint sp (bytes "num") num
      then Stream.pair_compact io (bytes "samples") samples
      then done)

  -- `error` is the number of the `Error`.
  pub error : Transaction → ℤ → List Byte → Writer
  error t code msg =
      err sp t (Encode.list sp (Encode.value_int sp code then Encode.encode_raw sp msg then done))
