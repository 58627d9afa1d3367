-- ===== src/Krpc/Private/Compact.antt =====
-- The compact lists of src/priv_krpc.cpp: nodes and contacts written byte for byte into a string. The
-- overloads for the kinds of sequences have one body.
use btdht.Prelude.{
  ℕ, ◌-◌, ◌≡◌, refl, subst, true, false, List, [], ◌∷◌, ◌++◌, ltb, le→ltb, lt→ltb, if◌then◌else◌,
  length, All, arith,
}
use btdht.Prelude.Bytes.{Byte}
use btdht.Address.{Contact}
use btdht.Routing.{Node}
use btdht.Sp.{Sp, SpLaws}
use btdht.Bencode.Spec.{appended, string_text, Encodes}
use btdht.Bencode.Encode.{Writer, ◌then◌, done, restoring, encode_raw, value_closure}
use btdht.Bencode.Encode.Contract.{Emits, Encodes-Emits, then-Emits, restoring-Encodes}
use btdht.Bencode.Encode.Correct.{Aborted-unchanged, closure-Encodes, encode_raw-Encodes}
use btdht.Bencode.Stream.{be32, be16, ipv4_of, nodes_size, contacts_size}
use btdht.Bencode.Stream.Correct.{
  IsKey, compact_contact, compact_node, concat_map, done-Emits, length-nodes, length-contacts,
}

module _ (sp : Sp) where
  -- `if (remaining_write(b) < sizeof(x)) return false;`, `memcpy`, and the step of the cursor.
  pub write_block : List Byte → Writer
  write_block xs b =
      if ltb (sp.remaining_write b) (length xs) then (false, b) else (true, appended b xs)

  -- `serialize` of a contact
  pub serialize : Contact → Writer
  unfolding write_block
  serialize c = restoring (write_block (be32 (ipv4_of c.ip)) then write_block (be16 c.port))

  -- `serialize` of a node; the id stays written where the contact does not fit.
  pub serialize_node : Node → Writer
  unfolding write_block serialize
  serialize_node n = write_block n.id then serialize n.contact

  pub serialize_nodes : List Node → Writer
  unfolding serialize_node
  serialize_nodes [] = done
  serialize_nodes (n ∷ ns) = serialize_node n then serialize_nodes ns

  pub serialize_contacts : List Contact → Writer
  unfolding serialize
  serialize_contacts [] = done
  serialize_contacts (c ∷ cs) = serialize c then serialize_contacts cs

  -- `sp_list`
  pub sp_list_nodes : List Node → Writer
  unfolding serialize_nodes
  sp_list_nodes ns = value_closure sp (nodes_size ns) (serialize_nodes ns)

  pub sp_list_contacts : List Contact → Writer
  unfolding serialize_contacts
  sp_list_contacts cs = value_closure sp (contacts_size cs) (serialize_contacts cs)

  -- `pair_compact` of nodes, and `pair` of contacts.
  pub pair_compact_nodes : List Byte → List Node → Writer
  unfolding sp_list_nodes
  pair_compact_nodes key ns = encode_raw sp key then sp_list_nodes ns

  pub pair_contacts : List Byte → List Contact → Writer
  unfolding sp_list_contacts
  pair_contacts key cs = encode_raw sp key then sp_list_contacts cs

module _ (sp : Sp) (laws : SpLaws sp) where
  write_block-Emits : (xs : List Byte) → Emits (write_block sp xs) xs
  unfolding write_block
  write_block-Emits xs = record {
    fits = λ b v h.
        rw
          (
            laws.remaining_write_lem b v.cursor,
            le→ltb (b.capacity - b.pos) (length xs) (omega (arith, h, v.cursor)),
          )
          refl;
    refuses = λ b v h.
        rw
          (
            laws.remaining_write_lem b v.cursor,
            lt→ltb (b.capacity - b.pos) (length xs) (omega (arith, h, v.cursor)),
          )
          (Aborted-unchanged b);
  }

  serialize-Encodes : (c : Contact) → Encodes (serialize sp c) (compact_contact c)
  unfolding serialize
  serialize-Encodes c = restoring-Encodes _ _ (
      then-Emits _ _ (be32 (ipv4_of c.ip)) (be16 c.port) (write_block-Emits (be32 (ipv4_of c.ip)))
        (write_block-Emits (be16 c.port)))

  serialize_nodes-Emits :
      (ns : List Node) → Emits (serialize_nodes sp ns) (concat_map compact_node ns)
  unfolding serialize_nodes serialize_node
  serialize_nodes-Emits [] = done-Emits
  serialize_nodes-Emits (n ∷ ns) =
      then-Emits _ _ (compact_node n) _
        (then-Emits _ _ n.id (compact_contact n.contact) (write_block-Emits n.id)
          (Encodes-Emits _ _ (serialize-Encodes n.contact)))
        (serialize_nodes-Emits ns)

  serialize_contacts-Emits :
      (cs : List Contact) → Emits (serialize_contacts sp cs) (concat_map compact_contact cs)
  unfolding serialize_contacts
  serialize_contacts-Emits [] = done-Emits
  serialize_contacts-Emits (c ∷ cs) =
      then-Emits _ _ (compact_contact c) _ (Encodes-Emits _ _ (serialize-Encodes c))
        (serialize_contacts-Emits cs)

  -- The compact lists under a key are written as strings: of each node the id, the address and the
  -- port, of each contact the address and the port, if the ids have twenty bytes and all fits.
  pub compact_pairs-Emits :
      (key : List Byte) (ns : List Node) (cs : List Contact)
      → All (λ (n : Node). IsKey n.id) ns
      → Emits
          (pair_compact_nodes sp key ns)
          (string_text key ++ string_text (concat_map compact_node ns))
        × Emits
            (pair_contacts sp key cs)
            (string_text key ++ string_text (concat_map compact_contact cs))
  unfolding pair_compact_nodes pair_contacts sp_list_nodes sp_list_contacts
  compact_pairs-Emits key ns cs h =
      let k = Encodes-Emits _ _ (encode_raw-Encodes sp laws key) in
      (
        then-Emits _ _ (string_text key) (string_text (concat_map compact_node ns)) k
            (Encodes-Emits _ _ (nodes (length-nodes ns h))),
        then-Emits _ _ (string_text key) (string_text (concat_map compact_contact cs)) k
            (Encodes-Emits _ _ (contacts (length-contacts cs))),
      )
    where
      nodes :
          {n : ℕ}
          → length (concat_map compact_node ns) ≡ n
          → Encodes
              (value_closure sp n (serialize_nodes sp ns))
              (string_text (concat_map compact_node ns))
      nodes e =
          subst
            (λ (n : ℕ).
              Encodes (value_closure sp n (serialize_nodes sp ns))
                (string_text (concat_map compact_node ns)))
            e
            (closure-Encodes sp laws (serialize_nodes sp ns) (concat_map compact_node ns)
              (serialize_nodes-Emits ns))

      contacts :
          {n : ℕ}
          → length (concat_map compact_contact cs) ≡ n
          → Encodes
              (value_closure sp n (serialize_contacts sp cs))
              (string_text (concat_map compact_contact cs))
      contacts e =
          subst
            (λ (n : ℕ).
              Encodes (value_closure sp n (serialize_contacts sp cs))
                (string_text (concat_map compact_contact cs)))
            e
            (closure-Encodes sp laws (serialize_contacts sp cs) (concat_map compact_contact cs)
              (serialize_contacts-Emits cs))
