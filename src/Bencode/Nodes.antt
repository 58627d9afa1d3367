-- ===== src/Bencode/Nodes.antt =====
-- Compact nodes under a key, as `nodes` of src/bencode_offset.cpp reads them.
use btdht.Prelude.{
  if◌then◌else◌, ℕ, ◌*◌, ◌%◌, ◌^◌, ◌<◌, ◌≡◌, refl, subst, ap, true, some, List, [], ◌∷◌, ◌++◌,
  append-nil, arith, ltb, lt→ltb, ◌==◌, length, length-append, All,
}
use btdht.Prelude.Bytes.{Byte, Holds-whole}
use btdht.Address.{IdContact}
use btdht.Routing.{Node}
use btdht.Prelude.Int.{pos}
use btdht.Sp.{Buffer, Sp, SpLaws, IsValid}
use btdht.Bencode.Stream.{Stream, StreamLaws, pair_id_contact_compact}
use btdht.Bencode.Stream.Pairs.{pair-Emits}
use btdht.Bencode.RoundTrip.{ReadsBack, emitted_round_trip}
use btdht.Bencode.Spec.{string_text}
use btdht.Bencode.Tree.{str, text}
use btdht.Bencode.Stream.Correct.{IsKey, compact_node, concat_map}
use btdht.Bencode.Decode.{Reader, ◌>>=◌, ◌>>◌, return, guard, restoring, parse_string, parse_key}
use btdht.Bencode.Decode.Contract.{IsReadable, Reads, bind-Reads, restoring-Reads, return-Reads}
use btdht.Bencode.Decode.Reads.{parse_string-Reads, parse_key-Reads}
use btdht.Bencode.Values.{view, from_view, value_ref}
use btdht.Bencode.Offset.{read_nodes, raw_compact_node_list, nodes}
use btdht.Bencode.Compact.{IsCompact, kept_nodes, read_nodes_lem, length-compact_node}

pub length-compact_nodes :
    (ns : List Node) → All IsCompact ns → length (concat_map compact_node ns) ≡ length ns * 26
length-compact_nodes [] h = refl
length-compact_nodes (n ∷ ns) h = omega (
  arith,
  length-append (compact_node n) (concat_map compact_node ns),
  length-compact_node n h.0.0,
  length-compact_nodes ns h.1,
)

ids_are_keys : (ns : List Node) → All IsCompact ns → All (λ (n : Node). IsKey n.id) ns
ids_are_keys [] h = tt
ids_are_keys (n ∷ ns) h = (h.0.0, ids_are_keys ns h.1)

module _ (sp : Sp) (laws : SpLaws sp) (insert : List IdContact → IdContact → List IdContact) where
  list_read :
      (n : Node) (ns : List Node) (fuel : ℕ)
      → All IsCompact (n ∷ ns)
      → length (n ∷ ns) < fuel
      → (read_nodes sp insert fuel [] (view (concat_map compact_node (n ∷ ns)))).0
        ≡ some (kept_nodes insert [] (n ∷ ns))
  list_read n ns fuel h le =
      let whole = concat_map compact_node (n ∷ ns) in
      let valid : IsReadable (view whole) = record {
        size = refl;
        filled = omega arith;
        cursor = omega arith;
      } in
      read_nodes_lem sp laws insert (n ∷ ns) fuel [] (view whole) h le valid (Holds-whole whole)
        (omega arith)

  -- What `raw_compact_node_list` makes of the string it has read.
  unfoldable taken : ℕ → List Byte → Reader (List IdContact)
  taken fuel val =
      if ltb 0 (length val)
      then guard (length val % 26 == 0) >> from_view (read_nodes sp insert fuel [] (view val)).0
      else return []

  taken-Reads :
      (ns : List Node) (fuel : ℕ)
      → All IsCompact ns
      → length ns < fuel
      → Reads (taken fuel (concat_map compact_node ns)) [] (kept_nodes insert [] ns)
  unfolding taken
  taken-Reads [] fuel h le = return-Reads []
  taken-Reads (n ∷ ns) fuel h le =
      let size = length-compact_nodes (n ∷ ns) h in
      let some_bytes = lt→ltb 0 (length (concat_map compact_node (n ∷ ns))) (omega (arith, size)) in
      let whole : length (concat_map compact_node (n ∷ ns)) % 26 ≡ 0 = omega (arith, size) in
      record {
        reads = λ b v held room.
            rw (some_bytes, whole, list_read n ns fuel h le)
              (ap (λ (p : ℕ). (some (kept_nodes insert [] (n ∷ ns)), record b { pos = p }))
                (omega arith));
      }

  node_list-Reads :
      (ns : List Node) (fuel : ℕ)
      → All IsCompact ns
      → length ns < fuel
      → length (concat_map compact_node ns) < 2 ^ 64
      → Reads
          (raw_compact_node_list sp insert fuel [])
          (string_text (concat_map compact_node ns))
          (kept_nodes insert [] ns)
  unfolding raw_compact_node_list value_ref taken
  node_list-Reads ns fuel h le small =
      let val = concat_map compact_node ns in
      let kept = kept_nodes insert [] ns in
      restoring-Reads (restoring (parse_string sp) >>= taken fuel) _ _ (
        subst (λ t. Reads (restoring (parse_string sp) >>= taken fuel) t kept)
          (append-nil (string_text val))
          (bind-Reads (restoring (parse_string sp)) (taken fuel) (string_text val) [] val kept
            (restoring-Reads _ _ _ (parse_string-Reads sp laws val small))
            (taken-Reads ns fuel h le)))

  nodes-Reads :
      (key : List Byte) (ns : List Node) (fuel : ℕ)
      → length key < 2 ^ 64
      → All IsCompact ns
      → length ns < fuel
      → length ns * 26 < 2 ^ 64
      → Reads
          (nodes sp insert fuel key)
          (string_text key ++ text (str (concat_map compact_node ns)))
          (kept_nodes insert [] ns)
  unfolding nodes text
  nodes-Reads key ns fuel hk h le small =
      let val = string_text (concat_map compact_node ns) in
      restoring-Reads _ _ _ (
        bind-Reads (parse_key sp key) (λ _. raw_compact_node_list sp insert fuel [])
          (string_text key) val tt (kept_nodes insert [] ns) (parse_key-Reads sp laws key hk)
          (node_list-Reads ns fuel h le (omega (arith, small, length-compact_nodes ns h))))

  module _ (io : Stream) (io_laws : StreamLaws io) where
    -- What `pair_id_contact_compact` writes of contacts under a key into a valid buffer, without
    -- running out of room, `nodes` reads back under that key, stopping where the writer stopped,
    -- with more fuel than there are contacts: those whose id is valid and whose address and port
    -- are not zero, in their order, each inserted as the receiving list does. The ids have twenty
    -- bytes, addresses 32 bits and ports 16; the key and the contacts' bytes are fewer than 2^64.
    pub nodes_round_trip :
        (key : List Byte) (ns : List Node) (fuel : ℕ) (b : Buffer)
        → length key < 2 ^ 64
        → All IsCompact ns
        → length ns < fuel
        → length ns * 26 < 2 ^ 64
        → IsValid b
        → (pair_id_contact_compact io key ns b).0 ≡ true
        → ReadsBack b
            (pair_id_contact_compact io key ns)
            (nodes sp insert fuel key)
            (kept_nodes insert [] ns)
    nodes_round_trip key ns fuel b hk h le small v done =
        emitted_round_trip _ _ _ _
          (pair-Emits io io_laws key [] 0 (pos 0) true [] [] ns [] tt (ids_are_keys ns h)).7
          (nodes-Reads key ns fuel hk h le small) b v done
