-- ===== src/Bencode/Offset.antt =====
-- The readers of src/bencode_offset.cpp: values that are passed over, compact nodes and peers.
-- `insert` is that of the container that takes the elements; the loops run on fuel.
use btdht.Prelude.{
  ℕ, zero, suc, ◌+◌, ◌%◌, false, ◌||◌, none, some, List, [], ◌∷◌, ltb, ◌==◌, if◌then◌else◌, length,
  get_or,
}
use btdht.Prelude.Bytes.{Byte, slice}
use btdht.Address.{Contact, IdContact}
use btdht.Id.{is_valid_id}
use btdht.Sp.{Buffer, Sp}
use btdht.Bencode.Decode.{
  Reader, ◌>>=◌, ◌>>◌, return, guard, restoring, parse_key, parse_valuex, is,
}
use btdht.Bencode.Stream.{ipv4_of}
use btdht.Bencode.Values.{
  if_reads, view, from_be, contact_v4, from_view, value_ref, raw_ip_or_ip_port,
}

-- `d.raw[d.pos++] != c`
unfoldable pub take_char : Byte → Reader (Unit {0})
take_char c b = guard (get_or b.raw b.pos 0 == c) (record b { pos = b.pos + 1 })

module _ (sp : Sp) where
  unfoldable pub int_wildcard : Reader (Unit {0})
  int_wildcard = parse_valuex sp >>= λ _. return tt

  unfoldable pub string_wildcard : Reader (Unit {0})
  string_wildcard = value_ref sp >>= λ _. return tt

  -- `wildcard_items` is what `list_wildcard` and `dict_wildcard` both do from `Lretry` on.
  unfoldable mutual
    unfolding int_wildcard string_wildcard take_char

    pub list_wildcard : ℕ → Reader (Unit {0})
    list_wildcard zero = guard false
    list_wildcard (suc n) = restoring (take_char b'l' >> wildcard_items n)

    pub dict_wildcard : ℕ → Reader (Unit {0})
    dict_wildcard zero = guard false
    dict_wildcard (suc n) = restoring (take_char b'd' >> wildcard_items n)

    pub wildcard_items : ℕ → Reader (Unit {0})
    wildcard_items zero = guard false
    wildcard_items (suc n) =
        if_reads (list_wildcard n) (λ _. wildcard_items n)
          (if_reads int_wildcard (λ _. wildcard_items n)
            (if_reads string_wildcard (λ _. wildcard_items n)
              (if_reads (dict_wildcard n) (λ _. wildcard_items n) (take_char b'e'))))

  -- A contact of address or port zero is refused where it ends.
  unfoldable pub raw_compact_contact_v4 : Reader Contact
  raw_compact_contact_v4 b =
      let ip = from_be 0 (slice b.raw b.pos 4) in
      let port = from_be 0 (slice b.raw (b.pos + 4) 2) in
      let b' : Buffer = record b { pos = b.pos + 6 } in
      if ltb (sp.remaining_read b) 6
      then (none, b)
      else if port == 0 || ip == 0
      then (none, b')
      else (some (contact_v4 ip port), b')

  unfoldable pub raw_compact_contact_v4_ignore : Reader (Unit {0})
  raw_compact_contact_v4_ignore b =
      if ltb (sp.remaining_read b) 6 then (none, b) else (some tt, record b { pos = b.pos + 6 })

  -- `sp::remaining_read(buf) < 20`, the copy of the id, and the cursor behind it.
  abbrev take_id : Reader (List Byte)
  take_id b =
      if ltb (sp.remaining_read b) 20
      then (none, b)
      else (some (slice b.raw b.pos 20), record b { pos = b.pos + 20 })

  abbrev id_contact : Contact → List Byte → IdContact
  id_contact c id = record { contact = c; id = id }

  unfoldable pub raw_compact_idcontact : Reader IdContact
  raw_compact_idcontact = restoring do
    id ← take_id
    guard (is_valid_id id)
    contact ← raw_compact_contact_v4
    return (id_contact contact id)

  unfoldable pub raw_compact_idcontact_ignore : Reader (Unit {0})
  raw_compact_idcontact_ignore = restoring (take_id >>= λ _. raw_compact_contact_v4_ignore)

  module _ (insert : List IdContact → IdContact → List IdContact) where
    -- The loop of `raw_compact_node_list`: an entry that is not valid is passed over.
    unfoldable pub read_nodes : ℕ → List IdContact → Reader (List IdContact)
    read_nodes zero result b = (none, b)
    read_nodes (suc n) result b =
        let rest =
          if_reads raw_compact_idcontact (λ c. read_nodes n (insert result c))
            (raw_compact_idcontact_ignore >>= λ _. read_nodes n result) in
        if ltb 0 (sp.remaining_read b) then rest b else (some result, b)

    unfoldable pub raw_compact_node_list : ℕ → List IdContact → Reader (List IdContact)
    raw_compact_node_list fuel result = restoring do
      val ← value_ref sp
      if ltb 0 (length val)
          then guard (length val % 26 == 0) >> from_view (read_nodes fuel result (view val)).0
          else return result

    -- `nodes`, after `clear`
    unfoldable pub nodes : ℕ → List Byte → Reader (List IdContact)
    nodes fuel key = restoring (parse_key sp key >> raw_compact_node_list fuel [])

  unfoldable pub value_contact : Reader Contact
  value_contact = restoring do str ← value_ref sp; from_view (raw_ip_or_ip_port sp (view str)).0

  module _ (insert : List Contact → Contact → List Contact) where
    -- A contact of address or port zero is not kept.
    abbrev keep : List Contact → Contact → List Contact
    keep result c = if ipv4_of c.ip == 0 || c.port == 0 then result else insert result c

    -- The loop of `list_contact`
    unfoldable pub read_contacts : ℕ → List Contact → Reader (List Contact)
    read_contacts zero result b = (none, b)
    read_contacts (suc n) result b =
        let rest =
          if_reads (restoring value_contact) (λ c. read_contacts n (keep result c))
            (return result) in
        if ltb 0 (sp.remaining_read b) then rest b else (some result, b)

    unfoldable pub list_contact : ℕ → List Contact → Reader (List Contact)
    list_contact fuel result =
        restoring
          do is sp (b'l' ∷ []); found ← read_contacts fuel result; is sp (b'e' ∷ []); return found

    -- `peers`, after `clear`
    unfoldable pub peers : ℕ → List Byte → Reader (List Contact)
    peers fuel key = restoring (parse_key sp key >> list_contact fuel [])
