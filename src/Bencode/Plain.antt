-- ===== src/Bencode/Plain.antt =====
-- The trees that the wildcards of src/bencode_offset.cpp pass over, and the rounds that they take.
use btdht.Prelude.{ℕ, suc, ◌+◌, ◌^◌, ◌<◌, length}
use btdht.Prelude.Int.{pos, negsuc}
use btdht.Bencode.Tree.{Tree, nat, int, str, list, dict, Trees, nil, cons, Fields, end, field}

-- Numbers and strings that a reader's 64 bits hold, and no negative number.
abbrev mutual
  pub IsPlain : Tree → Type 0
  IsPlain (nat n) = n < 2 ^ 64
  IsPlain (int (pos n)) = n < 2 ^ 64
  IsPlain (int (negsuc n)) = ⊥
  IsPlain (str s) = length s < 2 ^ 64
  IsPlain (list ts) = ArePlain ts
  IsPlain (dict fs) = HasPlain fs

  pub ArePlain : Trees → Type 0
  ArePlain nil = Unit {0}
  ArePlain (cons t ts) = IsPlain t × ArePlain ts

  pub HasPlain : Fields → Type 0
  HasPlain end = Unit {0}
  HasPlain (field k v fs) = (length k < 2 ^ 64) × IsPlain v × HasPlain fs

-- The rounds that a tree takes.
abbrev mutual
  pub rounds : Tree → ℕ
  rounds (nat n) = 1
  rounds (int z) = 1
  rounds (str s) = 1
  rounds (list ts) = suc (suc (rounds_items ts))
  rounds (dict fs) = suc (suc (rounds_fields fs))

  pub rounds_items : Trees → ℕ
  rounds_items nil = 1
  rounds_items (cons t ts) = suc (rounds t + rounds_items ts)

  pub rounds_fields : Fields → ℕ
  rounds_fields end = 1
  rounds_fields (field k v fs) = suc (suc (rounds v + rounds_fields fs))
