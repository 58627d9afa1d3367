-- ===== src/Bencode/Decode.antt =====
-- The readers of src/bencode.cpp, namespace `bencode::d`. A reader takes the buffer and gives back
-- its result, `none` where the source returns `false`, and the buffer. An out-parameter is written
-- by the caller's use of `some`; what the source leaves in one after `false` is not modelled.
pub mod Clean
pub mod Contract
pub mod Digits
pub mod Reads
pub mod Pairs
pub mod Bounds
pub mod Skips
pub mod Peeks
use btdht.Prelude.{
  ℕ, zero, suc, ◌+◌, ◌-◌, ◌^◌, Bool, true, false, not, ◌&&◌, Option, none, some, List, [], ◌∷◌,
  ◌++◌, ltb, leb, ◌==◌, if◌then◌else◌, length, get_or,
}
use btdht.Prelude.Bytes.{Byte, slice, bytes_eq}
use btdht.Sp.{Buffer, Sp}

abbrev pub Reader {ℓ} : Type ℓ → Type ℓ
Reader A = Buffer → Option A × Buffer

abbrev pub and_then {ℓ κ} :
    {A : Type ℓ} {B : Type κ} → Option A × Buffer → (A → Reader B) → Option B × Buffer
and_then (none, b) k = (none, b)
and_then (some a, b) k = k a b

-- `if (!m(b)) return false;` and then `k`.
infixl 5 ◌>>=◌ ◌>>◌
abbrev pub ◌>>=◌ {ℓ κ} : {A : Type ℓ} {B : Type κ} → Reader A → (A → Reader B) → Reader B
◌>>=◌ m k b = and_then (m b) k

abbrev pub ◌>>◌ {ℓ} : {B : Type ℓ} → Reader (Unit {0}) → Reader B → Reader B
m >> k = m >>= λ _. k

abbrev pub return {ℓ} : {A : Type ℓ} → A → Reader A
return a b = (some a, b)

-- `if (!test) return false;`
abbrev pub guard : Bool → Reader (Unit {0})
guard true b = (some tt, b)
guard false b = (none, b)

abbrev pub reset_to {ℓ} : {A : Type ℓ} → ℕ → Option A × Buffer → Option A × Buffer
reset_to p (none, b) = (none, record b { pos = p })
reset_to p (some a, b) = (some a, b)

-- `const p = b.pos;`, and `b.pos = p;` in front of every `return false;`.
abbrev pub restoring {ℓ} : {A : Type ℓ} → Reader A → Reader A
restoring m b = reset_to b.pos (m b)

abbrev pub is_digit : Byte → Bool
is_digit c = leb 48 c && leb c 57

module _ (sp : Sp) where
  -- The loop of `peek_numeric`. `room` is what is left of `char str[32]`, `str` what it holds, and
  -- `p` the next position; the cursor of `b`, which `remaining_read` reads, does not move.
  pub scan : ℕ → Buffer → Byte → ℕ → List Byte → Option (List Byte × ℕ)
  scan zero b end p str =
      if ltb 0 (sp.remaining_read b)
      then if sp.at b p == end then some (str, p + 1) else none
      else none
  scan (suc room) b end p str =
      let more = scan room b end (p + 1) (str ++ sp.at b p ∷ []) in
      if ltb 0 (sp.remaining_read b)
      then if sp.at b p == end
        then some (str, p + 1)
        else if is_digit (sp.at b p)
        then more
        else none
      else none

  -- An empty string of digits is refused; otherwise the number, and how many bytes it took.
  abbrev convert : ℕ → Option (List Byte × ℕ) → Option (ℕ × ℕ)
  convert pos none = none
  convert pos (some ([], p)) = none
  convert pos (some (c ∷ cs, p)) = elim (sp.parse_int (c ∷ cs)) [
    | none ↦ none
    | some n ↦ some (n, p - pos)
  ]

  pub peek_numeric : Byte → Buffer → Option (ℕ × ℕ)
  peek_numeric end b = convert b.pos (scan 32 b end b.pos [])

  abbrev advance : Buffer → Option (ℕ × ℕ) → Option ℕ × Buffer
  advance b none = (none, b)
  advance b (some (n, read)) = (some n, record b { pos = b.pos + read })

  pub read_numeric : Byte → Reader ℕ
  read_numeric end b = advance b (peek_numeric end b)

  -- The bytes that `str` and `len` refer to.
  pub take_view : ℕ → Reader (List Byte)
  take_view len b =
      if ltb (sp.remaining_read b) len
      then (none, b)
      else (some (slice b.raw b.pos len), record b { pos = b.pos + len })

  pub parse_string : Reader (List Byte)
  parse_string = restoring (read_numeric b':' >>= take_view)

  abbrev view_at : Buffer → Option (ℕ × ℕ) → Option (List Byte)
  view_at b none = none
  view_at b (some (len, num_read)) =
      if ltb (sp.remaining_read b) len then none else some (slice b.raw (b.pos + num_read) len)

  pub peek_string : Buffer → Option (List Byte)
  peek_string b = view_at b (peek_numeric b':' b)

  pub parse_key : List Byte → Reader (Unit {0})
  parse_key cmp_key = restoring (do key ← parse_string; guard (bytes_eq cmp_key key))

  -- `len` is the room at `val`; the result is what is copied there.
  pub parse_key_value : List Byte → ℕ → Reader (List Byte)
  parse_key_value key len =
      restoring do parse_key key; val ← parse_string; guard (not (ltb len (length val))); return val

  -- `remaining_read(b) == 0 || b.raw[b.pos++] != 'i'`
  pub take_i : Reader (Unit {0})
  take_i b =
      if sp.remaining_read b == 0
      then (none, b)
      else guard (get_or b.raw b.pos 0 == b'i') (record b { pos = b.pos + 1 })

  pub parse_valuex : Reader ℕ
  parse_valuex = restoring (take_i >> read_numeric b'e')

  pub parse_key_valuex : List Byte → Reader ℕ
  parse_key_valuex key = restoring (parse_key key >> parse_valuex)

  -- `internal::is`
  pub is : List Byte → Reader (Unit {0})
  is exact b =
      if ltb (sp.remaining_read b) (length exact)
      then (none, b)
      else if bytes_eq (slice b.raw b.pos (length exact)) exact
      then (some tt, record b { pos = b.pos + length exact })
      else (none, b)

  pub pair_value_ref : List Byte → Reader (List Byte)
  pair_value_ref key = restoring (parse_key key >> restoring parse_string)

  pub pair_bool : List Byte → Reader Bool
  pair_bool key = do t ← parse_key_valuex key; return (t == 1)

  pub pair_u64 : List Byte → Reader ℕ
  pair_u64 key = restoring (parse_key_valuex key)

  -- `pair` of a narrower type: a number beyond its largest value is refused.
  abbrev pair_upto : ℕ → List Byte → Reader ℕ
  pair_upto largest key =
      restoring do t ← parse_key_valuex key; guard (not (ltb largest t)); return t

  pub pair_u32 : List Byte → Reader ℕ
  pair_u32 key = pair_upto (2 ^ 32 - 1) key

  pub pair_u16 : List Byte → Reader ℕ
  pair_u16 key = pair_upto (2 ^ 16 - 1) key

  -- `pair_ref`: two strings, or a string and an integer.
  pub pair_ref : Reader (List Byte × List Byte)
  pair_ref = restoring do key ← parse_string; val ← parse_string; return (key, val)

  pub pair_ref_int : Reader (List Byte × ℕ)
  pair_ref_int = restoring do key ← parse_string; val ← parse_valuex; return (key, val)

  -- `pair_any`: each string with a terminating zero must fit its destination.
  pub pair_any : ℕ → ℕ → Reader (List Byte × List Byte)
  pair_any klen vlen = restoring do
    key ← parse_string
    guard (not (ltb klen (length key + 1)))
    val ← parse_string
    guard (not (ltb vlen (length val + 1)))
    return (key, val)

  pub peek : List Byte → Buffer → Bool
  peek key b = elim (peek_string b) [ none ↦ false | some found ↦ bytes_eq key found ]
