-- ===== src/Bencode/Spec.antt =====
-- Bencoded text, as the protocol defines it, and the contract of a writer.
use btdht.Prelude.{◌+◌, ◌≤◌, ◌<◌, ◌≡◌, Bool, true, false, List, ◌∷◌, ◌++◌, [], length, take}
use btdht.Prelude.Bytes.{Byte, store}
use btdht.Prelude.Decimal.{decimal}
use btdht.Sp.{Buffer, IsValid}

-- `<length>:<contents>`
abbrev pub string_text : List Byte → List Byte
string_text str = decimal (length str) ++ b':' ∷ str

-- `i<digits>e`
abbrev pub integer_text : List Byte → List Byte
integer_text digits = b'i' ∷ digits ++ b'e' ∷ []

abbrev pub list_text : List Byte → List Byte
list_text items = b'l' ∷ items ++ b'e' ∷ []

abbrev pub dict_text : List Byte → List Byte
dict_text items = b'd' ∷ items ++ b'e' ∷ []

-- The buffer with `xs` written at the cursor, and the cursor behind them.
abbrev pub appended : Buffer → List Byte → Buffer
appended b xs = record b { raw = store b.raw b.pos xs; pos = b.pos + length xs }

-- A write that failed: what stands before the cursor's first position is as it was.
pub record Aborted (b : Buffer) (r : Bool × Buffer) : Type 0 where
  pub failed : r.0 ≡ false
  pub capacity : r.1.capacity ≡ b.capacity
  pub filled : r.1.length ≡ b.length
  pub size : length r.1.raw ≡ length b.raw
  pub kept : take b.pos r.1.raw ≡ take b.pos b.raw

-- A refused write: besides, the cursor stands where it stood.
pub record Rejected (b : Buffer) (r : Bool × Buffer) : Type 0 where
  pub aborted : Aborted b r
  pub cursor : r.1.pos ≡ b.pos

-- The writer writes `xs` exactly if they fit, and otherwise ends in `R`.
pub record Outcome (R : Buffer → Bool × Buffer → Type 0) (m : Buffer → Bool × Buffer)
    (xs : List Byte) : Type 0 where
  pub fits : (b : Buffer) → IsValid b → b.pos + length xs ≤ b.capacity → m b ≡ (true, appended b xs)
  pub refuses : (b : Buffer) → IsValid b → b.capacity < b.pos + length xs → R b (m b)

-- The contract of the writers of the interface.
abbrev pub Encodes : (Buffer → Bool × Buffer) → List Byte → Type 0
Encodes = Outcome Rejected
