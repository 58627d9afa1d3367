-- ===== src/Bencode/Stream/Correct.antt =====
-- The writers of src/encode_bencode.cpp write the bencoding of their values.
use btdht.Prelude.{
  ℕ, ◌+◌, ◌*◌, ◌≡◌, refl, sym, subst, true, List, [], ◌∷◌, ◌++◌, append_assoc, arith, if◌then◌else◌,
  length, length-append, All,
}
use btdht.Prelude.Bytes.{Byte}
use btdht.Prelude.Decimal.{decimal}
use btdht.Id.{Key}
use btdht.Address.{Contact}
use btdht.Routing.{Node}
use btdht.Sp.{Buffer}
use btdht.Bencode.Spec.{string_text, integer_text}
use btdht.Bencode.Tree.{str, list, dict, Trees, nil, cons, Fields, text, texts, field_texts}
use btdht.Bencode.Encode.{Writer, ◌then◌, done}
use btdht.Bencode.Encode.Contract.{Emits, then-Emits}
use btdht.Bencode.Stream
use btdht.Bencode.Stream.{
  Stream, StreamLaws, be32, be16, ipv4_of, nodes_size, contacts_size, until_zero, write_raw_numeric,
  encode_integer, encode_raw, write_keys, value_compact, write_nodes, value_id_contact_compact,
  write_contacts, value_compact_contacts, write_entries, value_string_list_contact, write_strings,
  list_strings, pair_strings,
}

pub done-Emits : Emits done []
done-Emits = record {
  fits = λ b v h. λ i. (true, record b { pos = position b i });
  refuses = λ b v h. absurd (omega (arith, h, v.cursor));
}
  where
    position : (b : Buffer) → b.pos ≡ b.pos + 0
    position b = omega arith

-- A node and a contact in the compact form.
abbrev pub compact_contact : Contact → List Byte
compact_contact c = be32 (ipv4_of c.ip) ++ be16 c.port

abbrev pub compact_node : Node → List Byte
compact_node n = n.id ++ compact_contact n.contact

abbrev pub concat_map {ℓ} : {A : Type ℓ} → (A → List Byte) → List A → List Byte
concat_map f [] = []
concat_map f (x ∷ xs) = f x ++ concat_map f xs

abbrev pub map_trees {ℓ} : {A : Type ℓ} → (A → List Byte) → List A → Trees
map_trees f [] = nil
map_trees f (x ∷ xs) = cons (str (f x)) (map_trees f xs)

-- The compact forms as strings.
abbrev pub IsKey : List Byte → Type 0
IsKey k = length k ≡ 20

pub length-nodes :
    (ns : List Node)
    → All (λ (n : Node). IsKey n.id) ns
    → length (concat_map compact_node ns) ≡ nodes_size ns
length-nodes [] h = refl
length-nodes (n ∷ ns) h = omega (
  arith,
  length-append (compact_node n) (concat_map compact_node ns),
  length-append n.id (compact_contact n.contact),
  h.0,
  length-nodes ns h.1,
)

pub length-contacts :
    (cs : List Contact) → length (concat_map compact_contact cs) ≡ contacts_size cs
length-contacts [] = refl
length-contacts (c ∷ cs) =
    omega
      (arith, length-append (compact_contact c) (concat_map compact_contact cs), length-contacts cs)

module _ (io : Stream) (laws : StreamLaws io) where
  -- A string in parts: its length, the colon, and a writer of its bytes.
  string-Emits :
      (n : ℕ) (m : Writer) (xs : List Byte)
      → length xs ≡ n
      → Emits m xs
      → Emits (write_raw_numeric io (decimal n) then io.write_byte b':' then m) (string_text xs)
  unfolding write_raw_numeric
  string-Emits n m xs size e =
      subst
        (λ (k : ℕ).
          Emits (io.write (decimal n) then io.write_byte b':' then m) (decimal k ++ b':' ∷ xs))
        (sym size)
        (then-Emits _ _ (decimal n) (b':' ∷ xs) (laws.write_lem (decimal n))
          (then-Emits _ m (b':' ∷ []) xs (laws.write_byte_lem b':') e))

  pub encode_raw-Emits : (s : List Byte) → Emits (encode_raw io s) (string_text s)
  unfolding encode_raw
  encode_raw-Emits s = string-Emits (length s) (io.write s) s refl (laws.write_lem s)

  pub bracket-Emits :
      (c : Byte) (m : Writer) (xs : List Byte)
      → Emits m xs
      → Emits (io.write_byte c then m then io.write_byte b'e') (c ∷ xs ++ b'e' ∷ [])
  bracket-Emits c m xs e =
      then-Emits _ _ (c ∷ []) (xs ++ b'e' ∷ []) (laws.write_byte_lem c)
        (then-Emits m _ xs (b'e' ∷ []) e (laws.write_byte_lem b'e'))

  pub encode_integer-Emits : (t : List Byte) → Emits (encode_integer io t) (integer_text t)
  unfolding encode_integer write_raw_numeric
  encode_integer-Emits t = bracket-Emits b'i' (io.write t) t (laws.write_lem t)

  write_keys-Emits : (ks : List Key) → Emits (write_keys io ks) (concat_map (λ k. k) ks)
  unfolding write_keys
  write_keys-Emits [] = done-Emits
  write_keys-Emits (k ∷ ks) = then-Emits _ _ k _ (laws.write_lem k) (write_keys-Emits ks)

  length-keys : (ks : List Key) → All IsKey ks → length (concat_map (λ k. k) ks) ≡ length ks * 20
  length-keys [] h = omega arith
  length-keys (k ∷ ks) h =
      omega (arith, length-append k (concat_map (λ k. k) ks), h.0, length-keys ks h.1)

  pub value_compact-Emits :
      (ks : List Key)
      → All IsKey ks
      → Emits (value_compact io ks) (text (str (concat_map (λ k. k) ks)))
  unfolding value_compact text
  value_compact-Emits ks h =
      string-Emits _ (write_keys io ks) _ (length-keys ks h) (write_keys-Emits ks)

  write_nodes-Emits : (ns : List Node) → Emits (write_nodes io ns) (concat_map compact_node ns)
  unfolding write_nodes
  write_nodes-Emits [] = done-Emits
  write_nodes-Emits (n ∷ ns) =
      subst (Emits (write_nodes io (n ∷ ns)))
        (sym (append_assoc n.id (compact_contact n.contact) _))
        (then-Emits _ _ n.id _ (laws.write_lem n.id) (
          then-Emits _ _ (be32 (ipv4_of n.contact.ip)) _ (laws.write_lem _)
            (then-Emits _ _ (be16 n.contact.port) _ (laws.write_lem _) (write_nodes-Emits ns))))

  pub value_id_contact_compact-Emits :
      (ns : List Node)
      → All (λ (n : Node). IsKey n.id) ns
      → Emits (value_id_contact_compact io ns) (text (str (concat_map compact_node ns)))
  unfolding value_id_contact_compact text
  value_id_contact_compact-Emits ns h =
      string-Emits _ (write_nodes io ns) _ (length-nodes ns h) (write_nodes-Emits ns)

  write_contacts-Emits :
      (cs : List Contact) → Emits (write_contacts io cs) (concat_map compact_contact cs)
  unfolding write_contacts
  write_contacts-Emits [] = done-Emits
  write_contacts-Emits (c ∷ cs) =
      then-Emits _ _ (be32 (ipv4_of c.ip)) _ (laws.write_lem _)
        (then-Emits _ _ (be16 c.port) _ (laws.write_lem _) (write_contacts-Emits cs))

  pub value_compact_contacts-Emits :
      (cs : List Contact)
      → Emits (value_compact_contacts io cs) (text (str (concat_map compact_contact cs)))
  unfolding value_compact_contacts text
  value_compact_contacts-Emits cs =
      string-Emits _ (write_contacts io cs) _ (length-contacts cs) (write_contacts-Emits cs)

  write_entries-Emits :
      (cs : List Contact) → Emits (write_entries io cs) (texts (map_trees compact_contact cs))
  unfolding write_entries text
  write_entries-Emits [] = done-Emits
  write_entries-Emits (c ∷ cs) =
      then-Emits _ _ (string_text (compact_contact c)) _ (encode_raw-Emits (compact_contact c))
        (write_entries-Emits cs)

  pub value_string_list_contact-Emits :
      (cs : List Contact)
      → Emits (value_string_list_contact io cs) (text (list (map_trees compact_contact cs)))
  unfolding value_string_list_contact text
  value_string_list_contact-Emits cs =
      bracket-Emits b'l' (write_entries io cs) _ (write_entries-Emits cs)

  write_strings-Emits :
      (vs : List (List Byte)) → Emits (write_strings io vs) (texts (map_trees until_zero vs))
  unfolding write_strings text
  write_strings-Emits [] = done-Emits
  write_strings-Emits (v ∷ vs) =
      then-Emits _ _ (string_text (until_zero v)) _ (encode_raw-Emits (until_zero v))
        (write_strings-Emits vs)

  pub list_strings-Emits :
      (vs : List (List Byte)) → Emits (list_strings io vs) (text (list (map_trees until_zero vs)))
  unfolding list_strings text
  list_strings-Emits vs = bracket-Emits b'l' (write_strings io vs) _ (write_strings-Emits vs)

  pub list-Emits :
      (m : Writer) (ts : Trees) → Emits m (texts ts) → Emits (Stream.list io m) (text (list ts))
  unfolding Stream.list text
  list-Emits m ts e = bracket-Emits b'l' m (texts ts) e

  pub dict-Emits :
      (m : Writer) (fs : Fields)
      → Emits m (field_texts fs)
      → Emits (Stream.dict io m) (text (dict fs))
  unfolding Stream.dict text
  dict-Emits m fs e = bracket-Emits b'd' m (field_texts fs) e
