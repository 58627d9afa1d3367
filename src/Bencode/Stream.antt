-- ===== src/Bencode/Stream.antt =====
-- The writers of src/encode_bencode.cpp, `bencode::e<Buffer>`. They write through `sp::write`, which
-- is not in the repository: its two overloads are the record `Stream`, and `StreamLaws` has what the
-- program relies on. `m then k` is `if (!m) return false; k`, and `return true` after the last step
-- is the step's own result. A `const char *` is the bytes in front of its terminating zero.
pub mod Correct
pub mod Pairs
use btdht.Prelude.{
  ℕ, ◌+◌, ◌*◌, ◌/◌, ◌%◌, Bool, true, false, List, [], ◌∷◌, ◌++◌, ◌==◌, if◌then◌else◌, length,
  get_or,
}
use btdht.Prelude.Bytes.{Byte}
use btdht.Prelude.Decimal.{decimal}
use btdht.Prelude.Int.{ℤ, pos}
use btdht.Id.{Key}
use btdht.Address.{Ip, ipv4, ipv6, Contact}
use btdht.Routing.{Node}
use btdht.Bencode.Spec.{Aborted, Outcome}
use btdht.Bencode.Encode.{Writer, ◌then◌, done, signed_decimal}

pub record Stream : Type 0 where
  pub write : List Byte → Writer
  pub write_byte : Byte → Writer

-- A write puts all bytes at the cursor if they fit, and is refused otherwise.
pub record StreamLaws (io : Stream) : Type 0 where
  pub write_lem : (xs : List Byte) → Outcome Aborted (io.write xs) xs
  pub write_byte_lem : (c : Byte) → Outcome Aborted (io.write_byte c) (c ∷ [])

-- The bytes of a `uint32_t` and of a `uint16_t` in network order, as `htonl` and `htons` leave them.
abbrev pub be32 : ℕ → List Byte
be32 n = (n / 16777216 % 256) ∷ (n / 65536 % 256) ∷ (n / 256 % 256) ∷ (n % 256) ∷ []

abbrev pub be16 : ℕ → List Byte
be16 n = (n / 256 % 256) ∷ (n % 256) ∷ []

-- The member `ipv4` of the union, on a machine with the low byte first.
abbrev pub ipv4_of : Ip → ℕ
ipv4_of (ipv4 a) = a
ipv4_of (ipv6 raw) =
    get_or raw 0 0 + 256 * get_or raw 1 0 + 65536 * get_or raw 2 0 + 16777216 * get_or raw 3 0

-- `serialize_size(const Contact &)`
abbrev pub serialize_size : Contact → ℕ
serialize_size c = 4 + 2

-- The bytes in front of the first zero, as `strlen` counts them.
abbrev pub until_zero : List Byte → List Byte
until_zero [] = []
until_zero (x ∷ xs) = if x == 0 then [] else x ∷ until_zero xs

-- The sums of the sizes of nodes and of contacts.
abbrev pub nodes_size : List Node → ℕ
nodes_size [] = 0
nodes_size (n ∷ ns) = (serialize_size n.contact + 20) + nodes_size ns

abbrev pub contacts_size : List Contact → ℕ
contacts_size [] = 0
contacts_size (c ∷ cs) = serialize_size c + contacts_size cs

module _ (io : Stream) where
  -- `text` is what the format and the argument give; it fits into the 64 bytes of `b`.
  pub write_raw_numeric : List Byte → Writer
  write_raw_numeric text = io.write text

  pub encode_integer : List Byte → Writer
  encode_integer text = io.write_byte b'i' then write_raw_numeric text then io.write_byte b'e'

  pub value_bool : Bool → Writer
  value_bool v = encode_integer (signed_decimal (pos (if v then 1 else 0)))

  pub value_uint : ℕ → Writer
  value_uint n = encode_integer (decimal n)

  -- `value` and `pair` of `int32_t` and `int64_t`; `%h`, which `int16_t` has, prints no number.
  pub value_int : ℤ → Writer
  value_int z = encode_integer (signed_decimal z)

  pub encode_raw : List Byte → Writer
  encode_raw str =
      write_raw_numeric (decimal (length str)) then io.write_byte b':' then io.write str

  pub write_keys : List Key → Writer
  write_keys [] = done
  write_keys (k ∷ ks) = io.write k then write_keys ks

  pub value_compact : List Key → Writer
  value_compact ks =
      write_raw_numeric (decimal (length ks * 20)) then io.write_byte b':' then write_keys ks

  pub write_nodes : List Node → Writer
  write_nodes [] = done
  write_nodes (n ∷ ns) =
      io.write n.id
      then io.write (be32 (ipv4_of n.contact.ip))
      then io.write (be16 n.contact.port)
      then write_nodes ns

  -- Of an array of pointers, and of a list.
  pub value_id_contact_compact : List Node → Writer
  value_id_contact_compact ns =
      write_raw_numeric (decimal (nodes_size ns)) then io.write_byte b':' then write_nodes ns

  pub write_contacts : List Contact → Writer
  write_contacts [] = done
  write_contacts (c ∷ cs) =
      io.write (be32 (ipv4_of c.ip)) then io.write (be16 c.port) then write_contacts cs

  -- `value_compact` of contacts, of an array and of a list.
  pub value_compact_contacts : List Contact → Writer
  value_compact_contacts cs =
      write_raw_numeric (decimal (contacts_size cs)) then io.write_byte b':' then write_contacts cs

  pub write_entries : List Contact → Writer
  write_entries [] = done
  write_entries (c ∷ cs) = encode_raw (be32 (ipv4_of c.ip) ++ be16 c.port) then write_entries cs

  -- `value_string_list_contact` of an array.
  pub value_string_list_contact : List Contact → Writer
  value_string_list_contact cs = io.write_byte b'l' then write_entries cs then io.write_byte b'e'

  pub write_c_entries : List Contact → Writer
  write_c_entries [] = done
  write_c_entries (c ∷ cs) =
      encode_raw (until_zero (be32 (ipv4_of c.ip) ++ be16 c.port ++ 0 ∷ [])) then write_c_entries cs

  -- `value_string_list_contact` of a list: each entry goes through `value(Buffer &, const char *)`.
  pub value_string_list_contact_list : List Contact → Writer
  value_string_list_contact_list cs =
      io.write_byte b'l' then write_c_entries cs then io.write_byte b'e'

  pub write_strings : List (List Byte) → Writer
  write_strings [] = done
  write_strings (v ∷ vs) = encode_raw (until_zero v) then write_strings vs

  -- `list` of an array of strings
  pub list_strings : List (List Byte) → Writer
  list_strings vs = io.write_byte b'l' then write_strings vs then io.write_byte b'e'

  -- `generic_encodePair`, with the overload of `value` that the value's type chooses, and the other
  -- pairs, which have the same body.
  pub generic_encode_pair : List Byte → Writer → Writer
  generic_encode_pair key val = encode_raw key then val

  pub pair_bool : List Byte → Bool → Writer
  pair_bool key v = generic_encode_pair key (value_bool v)

  pub pair_uint : List Byte → ℕ → Writer
  pair_uint key n = generic_encode_pair key (value_uint n)

  pub pair_int : List Byte → ℤ → Writer
  pair_int key z = generic_encode_pair key (value_int z)

  pub pair_str : List Byte → List Byte → Writer
  pair_str key v = generic_encode_pair key (encode_raw v)

  pub pair_bytes : List Byte → List Byte → Writer
  pair_bytes key v = encode_raw key then encode_raw v

  pub pair_strings : List Byte → List (List Byte) → Writer
  pair_strings key vs = encode_raw key then list_strings vs

  pub pair_compact : List Byte → List Key → Writer
  pair_compact key ks = encode_raw key then value_compact ks

  pub pair_id_contact_compact : List Byte → List Node → Writer
  pair_id_contact_compact key ns = encode_raw key then value_id_contact_compact ns

  pub pair_string_list_contact : List Byte → List Contact → Writer
  pair_string_list_contact key cs = encode_raw key then value_string_list_contact cs

  pub pair_string_list_contact_list : List Byte → List Contact → Writer
  pair_string_list_contact_list key cs = encode_raw key then value_string_list_contact_list cs

  pub list : Writer → Writer
  list f = io.write_byte b'l' then f then io.write_byte b'e'

  pub dict : Writer → Writer
  dict f = io.write_byte b'd' then f then io.write_byte b'e'
