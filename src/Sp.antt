-- ===== src/Sp.antt =====
-- What the program takes from the `sp` library (`buffer/BytesView.h`, `util/conversions.h`), which
-- is not part of the repository: the fields of a buffer, which the program reads and writes itself,
-- and the functions that it calls. Those are the operations of `Sp`; `SpLaws` states what the
-- program relies on.
use btdht.Prelude.{
  ℕ, ◌-◌, ◌^◌, ◌≤◌, ◌<◌, ◌≡◌, ◌≢◌, refl, Option, some, List, [], length, get_or, set, All,
}
use btdht.Prelude.Bytes.{Byte}
use btdht.Prelude.Decimal.{numeral, IsDigit}

-- `sp::Buffer`: a block of `capacity` bytes, of which `length` are filled, and a cursor.
pub record Buffer : Type 0 where
  pub raw : List Byte
  pub capacity : ℕ
  pub length : ℕ
  pub pos : ℕ

pub record Sp : Type 0 where
  -- `sp::remaining_read` and `sp::remaining_write`
  pub remaining_read : Buffer → ℕ
  pub remaining_write : Buffer → ℕ
  -- `b[i]` as a value, and `b[i] = c`
  pub at : Buffer → ℕ → Byte
  pub put : Buffer → ℕ → Byte → Buffer
  -- `sp::parse_int` into an unsigned number of 64 bits; `none` stands for `false`
  pub parse_int : List Byte → Option ℕ

pub record SpLaws (sp : Sp) : Type 0 where
  pub remaining_read_lem : (b : Buffer) → b.pos ≤ b.length → sp.remaining_read b ≡ b.length - b.pos
  pub remaining_write_lem :
      (b : Buffer) → b.pos ≤ b.capacity → sp.remaining_write b ≡ b.capacity - b.pos
  pub at_lem : (b : Buffer) (i : ℕ) → i < b.capacity → sp.at b i ≡ get_or b.raw i 0
  pub put_lem :
      (b : Buffer) (i : ℕ) (c : Byte)
      → i < b.capacity
      → sp.put b i c ≡ record b { raw = set b.raw i c }
  pub parse_int_lem :
      (ds : List Byte)
      → ds ≢ []
      → All IsDigit ds
      → numeral 0 ds < 2 ^ 64
      → sp.parse_int ds ≡ some (numeral 0 ds)

-- The capacity is the size of the block, and the cursor stays within it.
pub record IsValid (b : Buffer) : Type 0 where
  pub size : b.capacity ≡ length b.raw
  pub cursor : b.pos ≤ b.capacity

-- A library that meets the laws.
abbrev pub reference : Sp
reference = record {
  remaining_read = λ b. b.length - b.pos;
  remaining_write = λ b. b.capacity - b.pos;
  at = λ b i. get_or b.raw i 0;
  put = λ b i c. record b { raw = set b.raw i c };
  parse_int = λ ds. some (numeral 0 ds);
}

pub reference-SpLaws : SpLaws reference
reference-SpLaws = record {
  remaining_read_lem = λ b h. refl;
  remaining_write_lem = λ b h. refl;
  at_lem = λ b i h. refl;
  put_lem = λ b i c h. refl;
  parse_int_lem = λ ds h k l. refl;
}
