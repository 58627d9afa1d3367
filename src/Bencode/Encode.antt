-- ===== src/Bencode/Encode.antt =====
-- The writers of src/bencode.cpp, namespace `bencode::e`, and `dict` of src/bencode.h. A writer
-- takes the buffer and gives back whether it succeeded, and the buffer. `snprintf` is the C
-- library's: it writes one byte less than its room, and a terminating zero.
pub mod Contract
pub mod Numeric
pub mod Correct
use btdht.Prelude.{
  ℕ, ◌+◌, ◌-◌, Bool, true, false, List, [], ◌∷◌, ◌++◌, ltb, ◌==◌, if◌then◌else◌, length, take,
}
use btdht.Prelude.Bytes.{Byte, store}
use btdht.Prelude.Decimal.{decimal}
use btdht.Prelude.Int.{ℤ, pos, negsuc}
use btdht.Sp.{Buffer, Sp}

-- `f(buffer)`, with the callback's closure applied.
abbrev pub Writer : Type 0
Writer = Buffer → Bool × Buffer

abbrev pub and_then : Bool × Buffer → Writer → Bool × Buffer
and_then (true, b) k = k b
and_then (false, b) k = (false, b)

-- `if (!m(buffer)) return false;` and then `k`.
infixr 5 ◌then◌
abbrev pub ◌then◌ : Writer → Writer → Writer
◌then◌ m k b = and_then (m b) k

abbrev pub reset_to : ℕ → Bool × Buffer → Bool × Buffer
reset_to before (true, b) = (true, b)
reset_to before (false, b) = (false, record b { pos = before })

-- `const before = buffer.pos;`, and `buffer.pos = before;` in front of every `return false;`.
abbrev pub restoring : Writer → Writer
restoring m b = reset_to b.pos (m b)

abbrev pub done : Writer
done b = (true, b)

-- `snprintf(raw + i, n, …)` of the text that the format gives.
pub snprintf : List Byte → ℕ → ℕ → List Byte → List Byte
snprintf raw i n text = if n == 0 then raw else store raw i (take (n - 1) text ++ 0 ∷ [])

-- The text of `%d` and `%lld`.
unfoldable pub signed_decimal : ℤ → List Byte
signed_decimal (pos n) = decimal n
signed_decimal (negsuc n) = b'-' ∷ decimal (n + 1)

-- `text` is what the format and the argument give.
pub encode_numeric : List Byte → Writer
unfolding snprintf
encode_numeric text b =
    let raw = snprintf b.raw b.pos (b.capacity - b.pos) text in
    if ltb b.capacity (b.pos + length text)
    then (false, record b { raw = raw })
    else (true, record b { raw = raw; pos = b.pos + length text })

module _ (sp : Sp) where
  -- `buffer[i++] = c`
  abbrev push_byte : Byte → Buffer → Buffer
  push_byte c b = let b' = sp.put b b.pos c in record b' { pos = b.pos + 1 }

  -- `if (buffer.pos + 1 > buffer.capacity) return false; buffer[i++] = c;`
  pub put_char : Byte → Writer
  put_char c b = if ltb b.capacity (b.pos + 1) then (false, b) else (true, push_byte c b)

  pub encode_integer : List Byte → Writer
  unfolding put_char encode_numeric
  encode_integer text = restoring (put_char b'i' then encode_numeric text then put_char b'e')

  -- `value` of the unsigned types, `%hu`, `%u` and `%llu`.
  pub value_uint : ℕ → Writer
  unfolding encode_integer
  value_uint n = encode_integer (decimal n)

  -- `value` of `int32_t` and `int64_t`, `%d` and `%lld`; `%h`, which `int16_t` has, prints no number.
  pub value_int : ℤ → Writer
  unfolding encode_integer signed_decimal
  value_int z = encode_integer (signed_decimal z)

  -- The colon and the bytes, once they are known to fit.
  pub put_raw : List Byte → Writer
  put_raw str b =
      if ltb b.capacity (b.pos + length str + 1)
      then (false, b)
      else let b' = push_byte b':' b in
        (true, record b' { raw = store b'.raw b'.pos str; pos = b'.pos + length str })

  pub encode_raw : List Byte → Writer
  unfolding encode_numeric put_raw
  encode_raw str = restoring (encode_numeric (decimal (length str)) then put_raw str)

  -- The colon of a string whose bytes a callback writes.
  pub put_colon : ℕ → Writer
  put_colon raw_size b =
      if ltb (sp.remaining_write b) (raw_size + 1) then (false, b) else (true, push_byte b':' b)

  pub value_closure : ℕ → Writer → Writer
  unfolding encode_numeric put_colon
  value_closure raw_size f =
      restoring (encode_numeric (decimal raw_size) then put_colon raw_size then f)

  pub list : Writer → Writer
  unfolding put_char
  list f = restoring (put_char b'l' then f then put_char b'e')

  pub dict : Writer → Writer
  unfolding put_char
  dict f = restoring (put_char b'd' then f then put_char b'e')

  -- `generic_encodePair`: the key, and the overload of `value` that the value's type chooses.
  pub generic_encode_pair : List Byte → Writer → Writer
  unfolding encode_raw
  generic_encode_pair key val = restoring (encode_raw key then val)

  pub pair_str : List Byte → List Byte → Writer
  unfolding generic_encode_pair encode_raw
  pair_str key str = generic_encode_pair key (encode_raw str)

  pub pair_uint : List Byte → ℕ → Writer
  unfolding generic_encode_pair value_uint
  pair_uint key n = generic_encode_pair key (value_uint n)

  -- `pair` of `int32_t` and `int64_t`.
  pub pair_int : List Byte → ℤ → Writer
  unfolding generic_encode_pair value_int
  pair_int key z = generic_encode_pair key (value_int z)

  -- `value(buffer, bool)` is not declared: a `bool` is promoted to `int`.
  pub pair_bool : List Byte → Bool → Writer
  unfolding generic_encode_pair value_int
  pair_bool key v = generic_encode_pair key (value_int (pos (if v then 1 else 0)))

  pub pair_bytes : List Byte → List Byte → Writer
  unfolding encode_raw
  pair_bytes key v = restoring (encode_raw key then encode_raw v)
