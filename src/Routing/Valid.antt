-- ===== src/Routing/Valid.antt =====
-- The steps of `insert` of src/routing_table.cpp on a well-formed table, also where it takes a
-- table from the root to make room.
use btdht.Prelude.{
  ℕ, suc, ◌+◌, ◌≤◌, ◌≡◌, refl, sym, subst, subst₂, ◌∙◌, inl, inr, Option, none, some, List, [], ◌∷◌,
  arith, Bool-cases, Option-cases, ltb, ◌==◌, All,
}
use btdht.Id.{Key}
use btdht.Routing.{
  Node, is_valid, Address, Table, Level, Routing, unlink_reset, reset, clear_bucket, new_table,
  remove_table, drop_empty, smallest, dequeue_root, root_depth, reuse, alloc_table,
}
use btdht.Routing.Insert.{
  Inserted, Placed, bucket_insert, insert_in_tables, or_next, insert_from_table, insert_in_levels,
  is_lost, make_linked, make_table,
}
use btdht.Routing.Bucket.{Bucketed, fills, replaces, full, bucket_insert-Bucketed}
use btdht.Routing.Invariant.{TableOk, LevelsOk, Rising-mono, link-LevelsOk, new_table-TableOk}

-- The levels lie in order, and each contact at the level of its rank against the table's own id.
abbrev pub IsWellFormed : Routing → Type 0
IsWellFormed s = LevelsOk s.id 0 s.levels

-- The table's own id and its levels are as they were.
pub record Same (s s' : Routing) : Type 0 where
  pub id : s'.id ≡ s.id
  pub levels : s'.levels ≡ s.levels

pub Same-refl : (s : Routing) → Same s s
Same-refl s = record { id = refl; levels = refl }

pub Same-trans : {s t u : Routing} → Same s t → Same t u → Same s u
Same-trans h k = record { id = k.id ∙ h.id; levels = k.levels ∙ h.levels }

unlink_reset-Same : (s : Routing) (a : Address) (c : Node) → Same s (unlink_reset s a c).0
unfolding unlink_reset reset
unlink_reset-Same s a c = elim (Bool-cases (is_valid c)) [
  | inl valid ↦ rw valid (elim (Bool-cases c.is_good) [
    | inl good ↦ rw good (record { id = refl; levels = refl })
    | inr bad ↦ rw bad (record { id = refl; levels = refl })
  ])
  | inr empty ↦ rw empty (Same-refl s)
]

pub clear_bucket-Same : (s : Routing) (a i : ℕ) (cs : List Node) → Same s (clear_bucket s a i cs)
unfolding clear_bucket
clear_bucket-Same s a i [] = Same-refl s
clear_bucket-Same s a i (c ∷ cs) =
    Same-trans (unlink_reset-Same s (a, i) c)
      (clear_bucket-Same (unlink_reset s (a, i) c).0 a (i + 1) cs)

Bucketed-Same : (s : Routing) (t : Table) (c : Node) (r : Inserted) → Bucketed s t c r → Same s r.0
Bucketed-Same s t c r (fills pre old rest e empty first) = Same-refl s
Bucketed-Same s t c r (replaces pre old rest e valid goes first) = unlink_reset-Same s _ old
Bucketed-Same s t c r (full h) = Same-refl s

or_next-Same :
    (s : Routing) (r : Inserted) (ts : List Table) (rest : Placed)
    → Same s r.0
    → Same s rest.0
    → Same s (or_next r ts rest).0
or_next-Same s (s', t', some (i, replaced)) ts rest h k = h
or_next-Same s (s', t', none) ts (s2, ts', r) h k = k

insert_in_tables-Same :
    (s : Routing) (ts : List Table) (c : Node) → Same s (insert_in_tables s ts c).0
unfolding insert_in_tables
insert_in_tables-Same s [] c = Same-refl s
insert_in_tables-Same s (t ∷ ts) c =
    or_next-Same s (bucket_insert s t c) ts (insert_in_tables s ts c)
      (Bucketed-Same s t c _ (bucket_insert-Bucketed s t c)) (insert_in_tables-Same s ts c)

pub insert_from_table-Same :
    (s : Routing) (a : ℕ) (ts : List Table) (c : Node) → Same s (insert_from_table s a ts c).0
unfolding insert_from_table
insert_from_table-Same s a [] c = Same-refl s
insert_from_table-Same s a (t ∷ ts) c = elim (Bool-cases (t.address == a)) [
  | inl here ↦ rw here (insert_in_tables-Same s (t ∷ ts) c)
  | inr later ↦ rw later (insert_from_table-Same s a ts c)
]

pub insert_in_levels-Same :
    (s : Routing) (r a : ℕ) (ls : List Level) (c : Node) → Same s (insert_in_levels s r a ls c).0
unfolding insert_in_levels
insert_in_levels-Same s r a [] c = Same-refl s
insert_in_levels-Same s r a (l ∷ ls) c = elim (Bool-cases (l.depth == r)) [
  | inl here ↦ rw here (insert_from_table-Same s a l.tables c)
  | inr later ↦ rw later (insert_in_levels-Same s r a ls c)
]

remove_table-All :
    (P : Table → Type 0) (a : ℕ) (ts : List Table) → All P ts → All P (remove_table a ts)
remove_table-All P a [] h = tt
remove_table-All P a (t ∷ ts) h = elim (Bool-cases (t.address == a)) [
  | inl here ↦ rw here h.1
  | inr later ↦ rw later (h.0, remove_table-All P a ts h.1)
]

drop_empty-LevelsOk :
    (id : Key) (low depth : ℕ) (ts : List Table) (ls : List Level)
    → All (TableOk id depth) ts
    → low ≤ depth
    → LevelsOk id (suc depth) ls
    → LevelsOk id low (drop_empty depth ts ls)
drop_empty-LevelsOk id low depth [] ls h le rest = record {
  levels = rest.levels;
  rising = Rising-mono (suc depth) low ls (omega arith) rest.rising;
}
drop_empty-LevelsOk id low depth (t ∷ ts) ls h le rest = record {
  levels = (record { some_table = omega arith; tables = h }, rest.levels);
  rising = (le, rest.rising);
}

-- The levels that are left after a table was taken from the root.
abbrev LeftOk : Key → ℕ → Option (Table × List Level) → Type 0
LeftOk id low none = Unit {0}
LeftOk id low (some (t, ls)) = LevelsOk id low ls

dequeue_tables-LeftOk :
    (id : Key) (low depth : ℕ) (ts : List Table) (ls : List Level)
    → LevelsOk id low (record { depth = depth; tables = ts } ∷ ls)
    → LeftOk id low (dequeue_root (record { depth = depth; tables = ts } ∷ ls))
unfolding dequeue_root
dequeue_tables-LeftOk id low depth [] ls h = tt
dequeue_tables-LeftOk id low depth (t ∷ ts) ls h =
    drop_empty-LevelsOk id low depth (remove_table (smallest t ts).address (t ∷ ts)) ls
      (remove_table-All (TableOk id depth) (smallest t ts).address (t ∷ ts) h.levels.0.tables)
      h.rising.0 (record { levels = h.levels.1; rising = h.rising.1 })

dequeue_root-LeftOk :
    (id : Key) (low : ℕ) (ls : List Level) → LevelsOk id low ls → LeftOk id low (dequeue_root ls)
unfolding dequeue_root
dequeue_root-LeftOk id low [] h = tt
dequeue_root-LeftOk id low (l ∷ ls) h = dequeue_tables-LeftOk id low l.depth l.tables ls h

abbrev IsFresh : Option Table → Type 0
IsFresh none = Unit {0}
IsFresh (some t) = t ≡ new_table t.address

-- What an allocation gives back.
record AllocOk (s : Routing) (r : Routing × Option Table) : Type 0 where
  well_formed : IsWellFormed r.0
  id : r.0.id ≡ s.id
  fresh : IsFresh r.1

pub Same-IsWellFormed : (s s' : Routing) → Same s s' → IsWellFormed s → IsWellFormed s'
Same-IsWellFormed s s' e h = subst₂ (λ id ls. LevelsOk id 0 ls) (sym e.id) (sym e.levels) h

reuse-AllocOk :
    (s : Routing) (o : Option (Table × List Level))
    → IsWellFormed s
    → LeftOk s.id 0 o
    → AllocOk s (reuse s o)
reuse-AllocOk s none h left = record { well_formed = h; id = refl; fresh = tt }
reuse-AllocOk s (some (t, ls)) h left =
    let same = clear_bucket-Same (record s { levels = ls }) t.address 0 t.contacts in
    record { well_formed = Same-IsWellFormed _ _ same left; id = same.id; fresh = refl }

alloc_table-AllocOk : (s : Routing) (depth : ℕ) → IsWellFormed s → AllocOk s (alloc_table s depth)
unfolding alloc_table
alloc_table-AllocOk s depth h = elim (Bool-cases (ltb s.length s.capacity)) [
  | inl room ↦ rw room (record { well_formed = h; id = refl; fresh = refl })
  | inr taken ↦ elim (Option-cases (root_depth s.levels)) [
    | inl none_left ↦ rw (taken, none_left) (record { well_formed = h; id = refl; fresh = tt })
    | inr (d, root) ↦ elim (Bool-cases (ltb d depth)) [
      | inl deeper ↦
          rw (taken, root, deeper)
            (reuse-AllocOk s (dequeue_root s.levels) h (dequeue_root-LeftOk s.id 0 s.levels h))
      | inr shallow ↦ rw (taken, root, shallow) (record { well_formed = h; id = refl; fresh = tt })
    ]
  ]
]

-- The state after `__make_routing_table`.
pub record MadeOk (s : Routing) (r : Routing × Option ℕ) : Type 0 where
  pub well_formed : IsWellFormed r.0
  pub id : r.0.id ≡ s.id

make_linked-MadeOk :
    (s : Routing) (r : ℕ) (o : Routing × Option Table)
    → AllocOk s o
    → MadeOk s (make_linked r s.levels o)
make_linked-MadeOk s r (s', none) ok = record { well_formed = ok.well_formed; id = ok.id }
make_linked-MadeOk s r (s', some t) ok = elim (Bool-cases (is_lost r s.levels t)) [
  | inl lost ↦ rw lost (record { well_formed = ok.well_formed; id = ok.id })
  | inr placed ↦
      let table : TableOk s'.id r t =
        subst (TableOk s'.id r) (sym ok.fresh) (new_table-TableOk s'.id r t.address) in
      rw placed (record {
        well_formed = link-LevelsOk s'.id 0 r t s'.levels table (omega arith) ok.well_formed;
        id = ok.id;
      })
]

pub make_table-MadeOk : (s : Routing) (r : ℕ) → IsWellFormed s → MadeOk s (make_table s r)
unfolding make_table
make_table-MadeOk s r h = make_linked-MadeOk s r (alloc_table s r) (alloc_table-AllocOk s r h)
