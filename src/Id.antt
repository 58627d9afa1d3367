-- ===== src/Id.antt =====
-- Node ids and keys of src/util.cpp: the bits of a key, the rank of two keys, and equality.
pub mod Rank
pub mod Bits
mod Tests
use Prim.Native.Nat.{bit_and, bit_or}
use btdht.Prelude.{
  ℕ, zero, suc, ◌+◌, ◌-◌, ◌*◌, ◌/◌, ◌%◌, ◌^◌, Bool, true, false, not, List, ◌==◌, if◌then◌else◌,
  get_or, set, replicate,
}
use btdht.Prelude.Bytes.{Byte, bytes_eq}

-- `Key` and `NodeId`: twenty bytes.
abbrev pub Key : Type 0
Key = List Byte

abbrev pub bits : ℕ
bits = 160

-- `key[idx / 8] & (high_bit >> idx % 8)`
unfoldable pub bit : Key → ℕ → Bool
bit key idx = not (bit_and (get_or key (idx / 8) 0) (128 / 2 ^ (idx % 8)) == 0)

abbrev pub bool_eq : Bool → Bool → Bool
bool_eq true b = b
bool_eq false b = not b

-- The loop of `rank` from `i` on, with `left` rounds to go.
unfoldable pub rank_loop : ℕ → Key → Key → ℕ → ℕ
rank_loop zero id o i = i
rank_loop (suc left) id o i =
    let more = rank_loop left id o (i + 1) in if bool_eq (bit id i) (bit o i) then more else i

unfoldable pub rank : Key → Key → ℕ
unfolding rank_loop
rank id o = rank_loop bits id o 0

-- `NodeId::operator==`
abbrev pub key_eq : Key → Key → Bool
key_eq = bytes_eq

abbrev pub zero_key : Key
zero_key = replicate 20 0

-- `is_valid(const NodeId &)`
unfoldable pub is_valid_id : Key → Bool
is_valid_id id = not (key_eq id zero_key)

-- `mask_out`: the bit counts from the low end of the byte.
abbrev pub mask_out : ℕ → Byte
mask_out idx = 2 ^ idx

-- `word | mask` and `word & ~mask`
abbrev pub set_word : Byte → Byte → Bool → Byte
set_word word mask v = if v then bit_or word mask else bit_and word (255 - mask)

unfoldable pub set_bit : Key → ℕ → Bool → Key
set_bit id idx v = set id (idx / 8) (set_word (get_or id (idx / 8) 0) (mask_out (idx % 8)) v)
