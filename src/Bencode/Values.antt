-- ===== src/Bencode/Values.antt =====
-- The readers of src/bencode.cpp and src/bencode.h for tokens, contacts, lists and dictionaries,
-- as with IP_IPV6 left undefined, which is how src/util.h has it.
use btdht.Prelude.{ℕ, ◌+◌, ◌*◌, Option, none, some, List, [], ◌∷◌, ◌==◌, if◌then◌else◌, length}
use btdht.Prelude.Bytes.{Byte, slice, store}
use btdht.Address.{ipv4, Contact, Token}
use btdht.Id.{Key}
use btdht.Sp.{Buffer, Sp}
use btdht.Bencode.Decode.{Reader, ◌>>=◌, ◌>>◌, return, restoring, parse_string, parse_key_value, is}

-- What follows depends on whether a reader succeeds: `k` goes on where it does, `other` where it
-- gives back `false`.
abbrev pub or_else {ℓ κ} :
    {A : Type ℓ} {B : Type κ} → Option A × Buffer → (A → Reader B) → Reader B → Option B × Buffer
or_else (some a, b) k other = k a b
or_else (none, b) k other = other b

abbrev pub if_reads {ℓ κ} :
    {A : Type ℓ} {B : Type κ} → Reader A → (A → Reader B) → Reader B → Reader B
if_reads m k other b = or_else (m b) k other

-- `sp::Buffer b(xs, length); b.length = length;`
abbrev pub view : List Byte → Buffer
view xs = record { raw = xs; capacity = length xs; length = length xs; pos = 0 }

-- `ntohl` and `ntohs` of bytes that were copied into a number.
abbrev pub from_be : ℕ → List Byte → ℕ
from_be acc [] = acc
from_be acc (x ∷ xs) = from_be (acc * 256 + x) xs

abbrev pub contact_v4 : ℕ → ℕ → Contact
contact_v4 ip port = record { ip = ipv4 ip; port = port }

-- The result of a reader that reads from another buffer.
abbrev pub from_view {ℓ} : {A : Type ℓ} → Option A → Reader A
from_view none b = (none, b)
from_view (some a) b = (some a, b)

module _ (sp : Sp) where
  unfoldable pub value_ref : Reader (List Byte)
  value_ref = restoring (parse_string sp)

  -- `pair` of a token: the array has twenty bytes.
  unfoldable pub pair_token : List Byte → Reader Token
  pair_token key = do
    id ← parse_key_value sp key 20
    return (let t : Token = record { id = id; length = length id } in t)

  -- `pair` of an array of twenty bytes that holds `old`
  unfoldable pub pair_key : List Byte → Key → Reader Key
  pair_key key old = do id ← parse_key_value sp key 20; return (store old 0 id)

  module _ {ℓ} {A : Type ℓ} where
    -- `dict` and `list` of src/bencode.h
    unfoldable pub dict : Reader A → Reader A
    dict body = restoring do is sp (b'd' ∷ []); a ← body; is sp (b'e' ∷ []); return a

    unfoldable pub list : Reader A → Reader A
    list body = restoring do is sp (b'l' ∷ []); a ← body; is sp (b'e' ∷ []); return a

  -- The addresses of 16 bytes are not read.
  unfoldable pub raw_ip_or_ip_port : Reader Contact
  raw_ip_or_ip_port b =
      let n = sp.remaining_read b in
      if n == 6
      then (
        some (contact_v4 (from_be 0 (slice b.raw b.pos 4)) (from_be 0 (slice b.raw (b.pos + 4) 2))),
        record b { pos = b.pos + 6 },
      )
      else if n == 4
      then (some (contact_v4 (from_be 0 (slice b.raw b.pos 4)) 0), record b { pos = b.pos + 4 })
      else if n == 16
      then (some (contact_v4 0 0), record b { pos = b.pos + 16 })
      else if n == 18
      then (some (contact_v4 0 0), record b { pos = b.pos + 18 })
      else (none, b)

  -- `pair` of a contact
  unfoldable pub pair_contact : List Byte → Reader Contact
  pair_contact key =
      restoring do val ← parse_key_value sp key 32; from_view (raw_ip_or_ip_port (view val)).0
