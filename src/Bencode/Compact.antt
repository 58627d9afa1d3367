-- ===== src/Bencode/Compact.antt =====
-- The compact nodes of src/bencode_offset.cpp: what is kept of what src/encode_bencode.cpp writes.
use btdht.Prelude.{
  ℕ, zero, suc, ◌+◌, ◌^◌, ◌≤◌, ◌<◌, ◌≡◌, refl, subst, ap, ◌∙◌, Bool, false, not, ◌&&◌, ◌||◌, none,
  some, List, [], ◌∷◌, arith, ltb, lt→ltb, le→ltb, ◌==◌, length, length-append, All, inl, inr,
  Bool-cases, if◌then◌else◌,
}
use btdht.Prelude.Bytes.{slice, Holds, Holds-append, slice-Holds}
use btdht.Id.{is_valid_id}
use btdht.Address.{Contact, IdContact}
use btdht.Routing.{Node}
use btdht.Sp.{Buffer, Sp, SpLaws}
use btdht.Bencode.Stream.{be32, be16, ipv4_of}
use btdht.Bencode.Stream.Correct.{IsKey, compact_contact, compact_node, concat_map}
use btdht.Bencode.Decode.Contract.{IsReadable}
use btdht.Bencode.Values.{from_be, contact_v4}
use btdht.Bencode.Offset.{
  raw_compact_contact_v4, raw_compact_contact_v4_ignore, raw_compact_idcontact,
  raw_compact_idcontact_ignore, read_nodes,
}

-- A node as it can be written: twenty bytes, an address of 32 bits and a port of 16.
abbrev pub IsCompact : Node → Type 0
IsCompact n = (length n.id ≡ 20) × (ipv4_of n.contact.ip < 2 ^ 32) × (n.contact.port < 2 ^ 16)

-- What the reader has of it, and whether it keeps it.
abbrev pub contact_of : Contact → Contact
contact_of c = contact_v4 (ipv4_of c.ip) c.port

abbrev pub reachable : Contact → Bool
reachable c = not (c.port == 0 || ipv4_of c.ip == 0)

abbrev pub kept_nodes :
    (List IdContact → IdContact → List IdContact) → List IdContact → List Node → List IdContact
kept_nodes insert acc [] = acc
kept_nodes insert acc (n ∷ ns) =
    kept_nodes insert
      (if is_valid_id n.id && reachable n.contact
        then insert acc (record { contact = contact_of n.contact; id = n.id })
        else acc)
      ns

from_be-be32 : (n : ℕ) → n < 2 ^ 32 → from_be 0 (be32 n) ≡ n
from_be-be32 n h = omega arith

from_be-be16 : (n : ℕ) → n < 2 ^ 16 → from_be 0 (be16 n) ≡ n
from_be-be16 n h = omega arith

pub length-compact_node : (n : Node) → IsKey n.id → length (compact_node n) ≡ 26
length-compact_node n h = omega (arith, length-append n.id (compact_contact n.contact), h)

module _ (sp : Sp) (laws : SpLaws sp) where
  room_for :
      (b : Buffer) (n : ℕ)
      → IsReadable b
      → b.pos + n ≤ b.length
      → ltb (sp.remaining_read b) n ≡ false
  room_for b n v h = le→ltb _ n (omega (arith, laws.remaining_read_lem b v.cursor))

  contact_read :
      (c : Contact) (b : Buffer)
      → ipv4_of c.ip < 2 ^ 32
      → c.port < 2 ^ 16
      → IsReadable b
      → Holds b.raw b.pos (compact_contact c)
      → b.pos + 6 ≤ b.length
      → raw_compact_contact_v4 sp b
        ≡ (if reachable c then some (contact_of c) else none, record b { pos = b.pos + 6 })
  unfolding raw_compact_contact_v4
  contact_read c b hi hp v h room =
      let (front, back) = Holds-append b.raw b.pos (be32 (ipv4_of c.ip)) (be16 c.port) h in
      let ip =
        ap (from_be 0) (slice-Holds b.raw b.pos (be32 (ipv4_of c.ip)) front)
        ∙ from_be-be32 (ipv4_of c.ip) hi in
      let port =
        ap (from_be 0) (slice-Holds b.raw (b.pos + 4) (be16 c.port) back)
        ∙ from_be-be16 c.port hp in
      elim (Bool-cases (c.port == 0 || ipv4_of c.ip == 0)) [
        | inl e ↦ rw (room_for b 6 v room, ip, port, e) refl
        | inr e ↦ rw (room_for b 6 v room, ip, port, e) refl
      ]

  -- An entry that is kept is taken, another is left, and the reader that passes it over takes it.
  entry_read :
      (n : Node) (b : Buffer)
      → IsCompact n
      → IsReadable b
      → Holds b.raw b.pos (compact_node n)
      → b.pos + 26 ≤ b.length
      → raw_compact_idcontact sp b ≡ (
          if is_valid_id n.id && reachable n.contact
          then (
            some (record { contact = contact_of n.contact; id = n.id }),
            record b { pos = b.pos + 26 },
          )
          else (none, b))
  unfolding raw_compact_idcontact
  entry_read n b h v held room =
      let (front, back) = Holds-append b.raw b.pos n.id (compact_contact n.contact) held in
      let id =
        subst (λ (k : ℕ). slice b.raw b.pos k ≡ n.id) h.0 (slice-Holds b.raw b.pos n.id front) in
      let b' : Buffer = record b { pos = b.pos + 20 } in
      let valid : IsReadable b' = record {
        size = v.size;
        filled = v.filled;
        cursor = omega arith;
      } in
      let there = subst (λ (k : ℕ). Holds b.raw (b.pos + k) (compact_contact n.contact)) h.0 back in
      let contact = contact_read n.contact b' h.1 h.2 valid there (omega arith) in
      let position : b.pos + 20 + 6 ≡ b.pos + 26 = omega arith in
      elim (Bool-cases (is_valid_id n.id)) [
        | inl e ↦ elim (Bool-cases (reachable n.contact)) [
          | inl f ↦
              rw (room_for b 20 v (omega arith), id, e, contact, f)
                (ap
                  (λ (p : ℕ). (
                    some (record { contact = contact_of n.contact; id = n.id }),
                    record b { pos = p },
                  ))
                  position)
          | inr f ↦ rw (room_for b 20 v (omega arith), id, e, contact, f) refl
        ]
        | inr e ↦ rw (room_for b 20 v (omega arith), id, e) refl
      ]

  ignored :
      (b : Buffer)
      → IsReadable b
      → b.pos + 26 ≤ b.length
      → raw_compact_idcontact_ignore sp b ≡ (some tt, record b { pos = b.pos + 26 })
  unfolding raw_compact_idcontact_ignore raw_compact_contact_v4_ignore
  ignored b v room =
      let b' : Buffer = record b { pos = b.pos + 20 } in
      let valid : IsReadable b' = record {
        size = v.size;
        filled = v.filled;
        cursor = omega arith;
      } in
      rw (room_for b 20 v (omega arith), room_for b' 6 valid (omega arith))
        (ap (λ (p : ℕ). (some tt, record b { pos = p })) (omega arith))

  -- The loop keeps what is to be kept, in its order, and ends at the end of the string.
  pub read_nodes_lem :
      (insert : List IdContact → IdContact → List IdContact) (ns : List Node) (fuel : ℕ)
      (acc : List IdContact) (b : Buffer)
      → All IsCompact ns
      → length ns < fuel
      → IsReadable b
      → Holds b.raw b.pos (concat_map compact_node ns)
      → b.pos + length (concat_map compact_node ns) ≡ b.length
      → (read_nodes sp insert fuel acc b).0 ≡ some (kept_nodes insert acc ns)
  unfolding read_nodes
  read_nodes_lem insert ns zero acc b h le v held size = absurd (omega (arith, le))
  read_nodes_lem insert [] (suc fuel) acc b h le v held size =
      rw (le→ltb 0 (sp.remaining_read b) (omega (arith, laws.remaining_read_lem b v.cursor))) refl
  read_nodes_lem insert (n ∷ ns) (suc fuel) acc b h le v held size =
      let (front, back) =
        Holds-append b.raw b.pos (compact_node n) (concat_map compact_node ns) held in
      let sum = length-append (compact_node n) (concat_map compact_node ns) in
      let wide = length-compact_node n h.0.0 in
      let b' : Buffer = record b { pos = b.pos + 26 } in
      let valid : IsReadable b' = record {
        size = v.size;
        filled = v.filled;
        cursor = omega arith;
      } in
      let there =
        subst (λ (k : ℕ). Holds b.raw (b.pos + k) (concat_map compact_node ns)) wide back in
      let more =
        lt→ltb 0 (sp.remaining_read b) (omega (arith, laws.remaining_read_lem b v.cursor)) in
      let entry = entry_read n b h.0 v front (omega arith) in
      let rest = λ (a : List IdContact).
        read_nodes_lem insert ns fuel a b' h.1 (omega (arith, le)) valid there (omega arith) in
      elim (Bool-cases (is_valid_id n.id && reachable n.contact)) [
        | inl e ↦ rw (more, entry, e) (rest _)
        | inr e ↦ rw (more, entry, e, ignored b v (omega arith)) (rest acc)
      ]
