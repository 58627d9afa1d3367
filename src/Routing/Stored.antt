-- ===== src/Routing/Stored.antt =====
-- What `find_node` of src/routing_table.cpp finds is in the table.
use btdht.Prelude.{
  ℕ, suc, ◌+◌, ◌≡◌, refl, sym, ap, subst, ◌∙◌, inl, inr, Bool, true, ◌&&◌, Option, none, some, List,
  [], ◌∷◌, ◌++◌, arith, Bool-cases, Option-cases, ◌==◌, ==_iff, length,
}
use btdht.Prelude.Bytes.{bytes_eq_sound}
use btdht.Id.{Key, key_eq, rank}
use btdht.Routing.{Node, is_valid, Address, Table, Level, Routing}
use btdht.Routing.Insert.{
  Found, find_in_bucket, find_in_tables, find_level, find_node, or_else, still_full,
}

-- The valid contact `n` with the id stands at place `i` of the list.
pub record InBucket (id : Key) (i : ℕ) (n : Node) (cs : List Node) : Type 0 where
  pub pre : List Node
  pub rest : List Node
  pub split : cs ≡ pre ++ n ∷ rest
  pub place : length pre ≡ i
  pub valid : is_valid n ≡ true
  pub same : n.id ≡ id

pub record InTables (id : Key) (a : Address) (n : Node) (ts : List Table) : Type 0 where
  pub pre : List Table
  pub table : Table
  pub rest : List Table
  pub split : ts ≡ pre ++ table ∷ rest
  pub address : table.address ≡ a.0
  pub bucket : InBucket id a.1 n table.contacts

-- The contact with the id stands at the address, in a level of the rank of the id.
pub record Stored (s : Routing) (id : Key) (a : Address) (n : Node) : Type 0 where
  pub pre : List Level
  pub level : Level
  pub rest : List Level
  pub split : s.levels ≡ pre ++ level ∷ rest
  pub depth : level.depth ≡ rank s.id id
  pub tables : InTables id a n level.tables

-- The place `j` counts from the place `i` of the head of the list.
record OffsetIn (id : Key) (i j : ℕ) (n : Node) (cs : List Node) : Type 0 where
  offset : ℕ
  sum : j ≡ i + offset
  bucket : InBucket id offset n cs

abbrev FoundInBucket : Key → ℕ → ℕ → List Node → Option (Address × Node) → Type 0
FoundInBucket id a i cs none = Unit {0}
FoundInBucket id a i cs (some ((b, j), n)) = (b ≡ a) × OffsetIn id i j n cs

later-FoundInBucket :
    (id : Key) (a i : ℕ) (c : Node) (cs : List Node) (o : Option (Address × Node))
    → FoundInBucket id a (i + 1) cs o
    → FoundInBucket id a i (c ∷ cs) o
later-FoundInBucket id a i c cs none h = tt
later-FoundInBucket id a i c cs (some ((b, j), n)) (same, h) = (
  same,
  record {
    offset = suc h.offset;
    sum = omega (arith, h.sum);
    bucket = record {
      pre = c ∷ h.bucket.pre;
      rest = h.bucket.rest;
      split = ap (◌∷◌ c) h.bucket.split;
      place = ap suc h.bucket.place;
      valid = h.bucket.valid;
      same = h.bucket.same;
    };
  },
)

find_in_bucket-FoundInBucket :
    (s : Routing) (a i : ℕ) (cs : List Node) (id : Key) (f : Bool)
    → FoundInBucket id a i cs (find_in_bucket s a i cs id f).0
unfolding find_in_bucket
find_in_bucket-FoundInBucket s a i [] id f = tt
find_in_bucket-FoundInBucket s a i (c ∷ cs) id f =
    elim (Bool-cases (is_valid c && key_eq c.id id)) [
      | inl here ↦ rw here (
        refl,
        record {
          offset = 0;
          sum = omega arith;
          bucket = record {
            pre = [];
            rest = cs;
            split = refl;
            place = refl;
            valid = ground (arith, here);
            same = bytes_eq_sound c.id id (ground (arith, here));
          };
        },
      )
      | inr other ↦ rw other (
          later-FoundInBucket id a i c cs (find_in_bucket s a (i + 1) cs id (still_full s c f)).0
            (find_in_bucket-FoundInBucket s a (i + 1) cs id (still_full s c f)))
    ]

abbrev FoundInTables : Key → List Table → Option (Address × Node) → Type 0
FoundInTables id ts none = Unit {0}
FoundInTables id ts (some (a, n)) = InTables id a n ts

later-FoundInTables :
    (id : Key) (t : Table) (ts : List Table) (o : Option (Address × Node))
    → FoundInTables id ts o
    → FoundInTables id (t ∷ ts) o
later-FoundInTables id t ts none h = tt
later-FoundInTables id t ts (some (a, n)) h = record {
  pre = t ∷ h.pre;
  table = h.table;
  rest = h.rest;
  split = ap (◌∷◌ t) h.split;
  address = h.address;
  bucket = h.bucket;
}

or_else-FoundInTables :
    (id : Key) (t : Table) (ts : List Table) (x : Found) (k : Bool → Found)
    → FoundInBucket id t.address 0 t.contacts x.0
    → ((f : Bool) → FoundInTables id ts (k f).0)
    → FoundInTables id (t ∷ ts) (or_else x k).0
or_else-FoundInTables id t ts (none, f) k h rest = later-FoundInTables id t ts (k f).0 (rest f)
or_else-FoundInTables id t ts (some ((b, j), n), f) k (same, h) rest = record {
  pre = [];
  table = t;
  rest = ts;
  split = refl;
  address = sym same;
  bucket = subst (λ (i : ℕ). InBucket id i n t.contacts) (omega (arith, h.sum)) h.bucket;
}

find_in_tables-FoundInTables :
    (s : Routing) (ts : List Table) (id : Key) (f : Bool)
    → FoundInTables id ts (find_in_tables s ts id f).0
unfolding find_in_tables
find_in_tables-FoundInTables s [] id f = tt
find_in_tables-FoundInTables s (t ∷ ts) id f =
    or_else-FoundInTables id t ts (find_in_bucket s t.address 0 t.contacts id f)
      (find_in_tables s ts id) (find_in_bucket-FoundInBucket s t.address 0 t.contacts id f)
      (find_in_tables-FoundInTables s ts id)

record InLevels (r : ℕ) (l : Level) (ls : List Level) : Type 0 where
  pre : List Level
  rest : List Level
  split : ls ≡ pre ++ l ∷ rest
  depth : l.depth ≡ r

find_level-InLevels :
    (ls : List Level) (r : ℕ) (l : Level) → find_level ls r ≡ some l → InLevels r l ls
unfolding find_level
find_level-InLevels [] r l e = ground (arith, e)
find_level-InLevels (k ∷ ls) r l e = elim (Bool-cases (k.depth == r)) [
  | inl here ↦
      let same : k ≡ l = ground (arith, e, here) in
      record {
        pre = [];
        rest = ls;
        split = ap (λ (l : Level). l ∷ ls) same;
        depth = ap (λ (l : Level). l.depth) (sym same) ∙ (==_iff k.depth r).0 here;
      }
  | inr later ↦
      let more = find_level-InLevels ls r l (ground (arith, e, later)) in
      record {
        pre = k ∷ more.pre;
        rest = more.rest;
        split = ap (◌∷◌ k) more.split;
        depth = more.depth;
      }
]

FoundInTables-some :
    (id : Key) (ts : List Table) (o : Option (Address × Node)) (a : Address) (n : Node)
    → o ≡ some (a, n)
    → FoundInTables id ts o
    → InTables id a n ts
FoundInTables-some id ts o a n e h = subst (FoundInTables id ts) e h

-- A contact that `find_node` gives back is valid, has the id, and stands at the address given back,
-- in a level whose depth is the rank of the id.
pub find_node-Stored :
    (s : Routing) (id : Key) (a : Address) (n : Node)
    → find_node s id ≡ some (a, n)
    → Stored s id a n
unfolding find_node
find_node-Stored s id a n e = elim (Option-cases (find_level s.levels (rank s.id id))) [
  | inl no_level ↦ let absurd : none ≡ some (a, n) = rw no_level at e in ground (arith, absurd)
  | inr (l, level) ↦
      let found : (find_in_tables s l.tables id true).0 ≡ some (a, n) = rw level at e in
      let at = find_level-InLevels s.levels (rank s.id id) l level in
      record {
        pre = at.pre;
        level = l;
        rest = at.rest;
        split = at.split;
        depth = at.depth;
        tables =
            FoundInTables-some id l.tables _ a n found
              (find_in_tables-FoundInTables s l.tables id true);
      }
]
