-- ===== src/Bencode/Generic.antt =====
-- The readers of src/decode_bencode.cpp and src/decode_bencode.h that the messages use, over the
-- functions `pop_front` and `peek_front` of the `sp` library, which is not in the repository: `Front`
-- has them, and `FrontLaws` states what the readers rely on. The loops run on fuel.
pub mod Keys
pub mod Strings
use btdht.Prelude.{
  ℕ, zero, suc, ◌+◌, ◌-◌, ◌≤◌, ◌<◌, ◌≡◌, refl, Bool, true, false, not, Option, none, some, List, [],
  ◌∷◌, ◌++◌, ltb, ◌==◌, if◌then◌else◌, length, get_or,
}
use btdht.Prelude.Bytes.{Byte, slice, bytes_eq}
use btdht.Address.{Contact}
use btdht.Id.{Key}
use btdht.Sp.{Buffer, Sp}
use btdht.Bencode.Decode.{Reader, ◌>>=◌, ◌>>◌, return, guard, restoring, is_digit}
use btdht.Bencode.Values.{from_be, contact_v4}

pub record Front : Type 0 where
  -- `pop_front` of a byte and of `n` bytes: the bytes that there were.
  pub pop_front : Reader Byte
  pub pop_bytes : ℕ → Buffer → List Byte × Buffer
  pub peek_front : Buffer → Option Byte

pub record FrontLaws (front : Front) : Type 0 where
  pub pop_front_lem :
      (b : Buffer)
      → b.pos < b.length
      → front.pop_front b ≡ (some (get_or b.raw b.pos 0), record b { pos = b.pos + 1 })
  pub pop_bytes_lem :
      (n : ℕ) (b : Buffer)
      → b.pos + n ≤ b.length
      → front.pop_bytes n b ≡ (slice b.raw b.pos n, record b { pos = b.pos + n })
  pub peek_front_lem :
      (b : Buffer) → b.pos < b.length → front.peek_front b ≡ some (get_or b.raw b.pos 0)

module _ (sp : Sp) (front : Front) where
  -- The loop of `read_numeric`. `room` is what is left of `char str[32]`, `str` what it holds.
  unfoldable pub pop_digits : ℕ → Byte → List Byte → Reader (List Byte)
  pop_digits zero end str = do cur ← front.pop_front; guard (cur == end); return str
  pop_digits (suc room) end str = front.pop_front >>= λ cur.
      if cur == end
      then return str
      else guard (is_digit cur) >> pop_digits room end (str ++ cur ∷ [])

  abbrev pub parsed : List Byte → Reader ℕ
  parsed [] b = (none, b)
  parsed (c ∷ cs) b = (sp.parse_int (c ∷ cs), b)

  unfoldable pub read_numeric : Byte → Reader ℕ
  unfolding pop_digits
  read_numeric end = pop_digits 32 end [] >>= parsed

  -- `len = pop_front(b, str, len)`
  abbrev pub pop_upto : ℕ → Reader (List Byte)
  pop_upto len b = let (bytes, b') = front.pop_bytes len b in (some bytes, b')

  -- `parse_string` into an array of `n` bytes.
  unfoldable pub parse_string : ℕ → Reader (List Byte)
  unfolding read_numeric
  parse_string n = do len ← read_numeric b':'; guard (not (ltb n len)); pop_upto len

  unfoldable pub is_key : List Byte → Reader (Unit {0})
  unfolding parse_string
  is_key key =
      if ltb 128 (length key)
      then guard false
      else restoring do out ← parse_string 128; guard (bytes_eq key out)

  -- The loop of `value` of a `std::string`; a byte that is not there fails an assertion.
  unfoldable pub pop_chars : ℕ → List Byte → Reader (List Byte)
  pop_chars zero value = return value
  pop_chars (suc n) value = front.pop_front >>= λ c. pop_chars n (value ++ c ∷ [])

  unfoldable pub value_string : Reader (List Byte)
  unfolding read_numeric pop_chars
  value_string = do l_raw ← read_numeric b':'; pop_chars l_raw []

  -- Whether another byte than `e` is at the front.
  abbrev pub inside : Option Byte → Bool
  inside none = false
  inside (some c) = not (c == b'e')

  module _ (insert : List (List Byte) → List Byte → List (List Byte)) where
    -- The loop that `value` of an array of strings hands to `list`.
    unfoldable pub value_strings : ℕ → List (List Byte) → Reader (List (List Byte))
    unfolding value_string
    value_strings zero value b = (none, b)
    value_strings (suc n) value b =
        let more = (value_string >>= λ str. value_strings n (insert value str)) b in
        if inside (front.peek_front b) then more else (some value, b)

    -- `list`, from `Lit` on
    unfoldable pub list_items : ℕ → List (List Byte) → Reader (List (List Byte))
    unfolding value_strings
    list_items zero value b = (none, b)
    list_items (suc n) value b = elim (front.peek_front b) [
      | none ↦ (none, b)
      | some out ↦
          let more = (value_strings n value >>= list_items n) b in
          if out == b'e' then (front.pop_front >>= λ _. return value) b else more
    ]

    unfoldable pub list : ℕ → List (List Byte) → Reader (List (List Byte))
    unfolding list_items
    list fuel value =
        restoring (front.pop_front >>= λ out. guard (out == b'l')) >> list_items fuel value

    -- `pair` of an array of strings: after the key the cursor is not put back.
    unfoldable pub pair_strings : ℕ → List Byte → Reader (List (List Byte))
    unfolding is_key list
    pair_strings fuel key = is_key key >> list fuel []

  -- `value` of a number of 64 bits, and `pair`, which does not put the cursor back behind the key.
  unfoldable pub value_u64 : Reader ℕ
  unfolding read_numeric
  value_u64 = restoring do out ← front.pop_front; guard (out == b'i'); read_numeric b'e'

  unfoldable pub pair_u64 : List Byte → Reader ℕ
  unfolding is_key value_u64
  pair_u64 key = is_key key >> value_u64

  -- `value` of bytes: `len` is the room at `value`.
  unfoldable pub value_bytes : ℕ → Reader (List Byte)
  unfolding parse_string
  value_bytes len = restoring (parse_string len)

  unfoldable pub pair_bytes : List Byte → ℕ → Reader (List Byte)
  unfolding is_key value_bytes
  pair_bytes key l = is_key key >> value_bytes l

  -- `value` of a node's id: another length is refused behind what was read.
  unfoldable pub value_id : Reader Key
  unfolding value_bytes
  value_id = do id ← value_bytes 20; guard (length id == 20); return id

  unfoldable pub pair_id : List Byte → Reader Key
  unfolding is_key value_id
  pair_id key = is_key key >> value_id

  -- `value_compact`: every twenty bytes are a key.
  unfoldable pub pop_keys : ℕ → ℕ → (List Key → Key → List Key) → List Key → Reader (List Key)
  pop_keys zero left insert out b = (none, b)
  pop_keys (suc fuel) left insert out b =
      let more =
        (do
          id ← pop_upto 20
          guard (length id == 20)
          pop_keys fuel (left - 20) insert (insert out id))
          b in
      if ltb 0 left then more else (some out, b)

  unfoldable pub value_compact : ℕ → (List Key → Key → List Key) → Reader (List Key)
  unfolding read_numeric pop_keys
  value_compact fuel insert = do l_raw ← read_numeric b':'; pop_keys fuel l_raw insert []

  -- `value_compact` of nodes: an id, an address and a port.
  unfoldable pub pop_nodes :
      ℕ
      → ℕ
      → (List (Key × Contact) → Key × Contact → List (Key × Contact))
      → List (Key × Contact)
      → Reader (List (Key × Contact))
  pop_nodes zero left insert out b = (none, b)
  pop_nodes (suc fuel) left insert out b =
      let more =
        (do
          id ← pop_upto 20
          guard (length id == 20)
          ip ← pop_upto 4
          guard (length ip == 4)
          port ← pop_upto 2
          guard (length port == 2)
          pop_nodes fuel (left - 26) insert
              (insert out (id, contact_v4 (from_be 0 ip) (from_be 0 port))))
          b in
      if ltb 0 left then more else (some out, b)

  unfoldable pub value_compact_nodes :
      ℕ
      → (List (Key × Contact) → Key × Contact → List (Key × Contact))
      → Reader (List (Key × Contact))
  unfolding read_numeric pop_nodes
  value_compact_nodes fuel insert = do l_raw ← read_numeric b':'; pop_nodes fuel l_raw insert []

-- A library that meets the laws.
abbrev pub reference_front : Front
reference_front = record {
  pop_front = λ b.
      if ltb b.pos b.length
      then (some (get_or b.raw b.pos 0), record b { pos = b.pos + 1 })
      else (none, b);
  pop_bytes = λ n b. (slice b.raw b.pos n, record b { pos = b.pos + n });
  peek_front = λ b. if ltb b.pos b.length then some (get_or b.raw b.pos 0) else none;
}
