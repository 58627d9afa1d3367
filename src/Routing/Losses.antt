-- ===== src/Routing/Losses.antt =====
-- Where src/routing_table.cpp loses count of contacts, and where it loses tables.
use btdht.Prelude.{
  ℕ, ◌+◌, ◌<◌, ◌≤◌, lt→ltb, le→ltb, ==_refl, ◌≡◌, refl, ap, ◌∙◌, inl, inr, true, some, List, [],
  ◌∷◌, arith, Bool-cases, if◌then◌else◌,
}
use btdht.Routing.{
  Node, is_valid, Address, Table, Routing, unlink_reset, reset, smallest, drop_empty, dequeue_root,
  alloc_table, reuse,
}
use btdht.Routing.Insert.{Inserted, bucket_insert, settle, loop_end, make_table}
use btdht.Routing.Valid.{clear_bucket-Same}
use btdht.Routing.Bucket.{
  Bucketed, fills, replaces, full, bucket_insert-Bucketed, count, count-middle,
}

unlink_reset-total :
    (s : Routing) (a : Address) (c : Node)
    → is_valid c ≡ true
    → 0 < s.total_nodes
    → (unlink_reset s a c).0.total_nodes + 1 ≡ s.total_nodes
unfolding unlink_reset reset
unlink_reset-total s a c valid some_node = elim (Bool-cases c.is_good) [
  | inl good ↦ ground (arith, valid, good)
  | inr bad ↦ ground (arith, valid, bad)
]

Bucketed-undercounts :
    (s : Routing) (t : Table) (c : Node) (i : ℕ) (r : Inserted)
    → is_valid c ≡ true
    → 0 < s.total_nodes
    → r.2 ≡ some (i, true)
    → Bucketed s t c r
    → (count r.1.contacts ≡ count t.contacts)
      × ((settle r.0 (some ((t.address, i), true))).0.total_nodes + 1 ≡ s.total_nodes)
Bucketed-undercounts s t c i r valid some_node e (fills pre old rest h empty first) =
    ground (arith, e)
Bucketed-undercounts s t c i r valid some_node e (replaces pre old rest h there goes first) = (
  let before : count t.contacts ≡ count pre + (if is_valid old then 1 else 0) + count rest =
        ap (λ (cs : List Node). count cs) h ∙ count-middle pre old rest in
      ground (arith, before, count-middle pre c rest),
  unlink_reset-total s _ old there some_node,
)
Bucketed-undercounts s t c i r valid some_node e (full h) = ground (arith, e)

-- Where `bucket_insert` replaces a contact by a valid one, the bucket has as many contacts as
-- before, and after what `insert` does for a replaced contact `total_nodes` is one less, if it was
-- not 0.
pub bucket_insert-undercounts :
    (s : Routing) (t : Table) (c : Node) (i : ℕ)
    → is_valid c ≡ true
    → 0 < s.total_nodes
    → (bucket_insert s t c).2 ≡ some (i, true)
    → (count (bucket_insert s t c).1.contacts ≡ count t.contacts)
      × ((settle (bucket_insert s t c).0 (some ((t.address, i), true))).0.total_nodes + 1
          ≡ s.total_nodes)
bucket_insert-undercounts s t c i valid some_node e =
    Bucketed-undercounts s t c i (bucket_insert s t c) valid some_node e
      (bucket_insert-Bucketed s t c)

-- The table's levels are one, with the tables `ts`.
abbrev pub one_level : Routing → ℕ → List Table → Routing
one_level s d ts = record s { levels = record { depth = d; tables = ts } ∷ [] }

dequeue_first :
    (d : ℕ) (t : Table) (ts : List Table)
    → smallest t ts ≡ t
    → dequeue_root (record { depth = d; tables = t ∷ ts } ∷ []) ≡ some (t, drop_empty d ts [])
unfolding dequeue_root
dequeue_first d t ts least = rw (least, ==_refl t.address) refl

reuse_first :
    (s : Routing) (d r : ℕ) (t : Table) (ts : List Table)
    → smallest t ts ≡ t
    → s.capacity ≤ s.length
    → d < r
    → alloc_table (one_level s d (t ∷ ts)) r
      ≡ reuse (one_level s d (t ∷ ts)) (some (t, drop_empty d ts []))
unfolding alloc_table
reuse_first s d r t ts least no_room deeper =
    rw (le→ltb s.length s.capacity no_room, lt→ltb d r deeper, dequeue_first d t ts least) refl

-- With as many tables as the capacity allows, all at one level shallower than `r`, and none with
-- fewer contacts than the first of them, `__make_routing_table` hands out the first, and `root`
-- reaches only the others.
pub make_table_loses :
    (s : Routing) (d r : ℕ) (t : Table) (ts : List Table)
    → smallest t ts ≡ t
    → s.capacity ≤ s.length
    → d < r
    → ((make_table (one_level s d (t ∷ ts)) r).1 ≡ some t.address)
      × ((make_table (one_level s d (t ∷ ts)) r).0.levels ≡ drop_empty d ts [])
unfolding make_table loop_end
make_table_loses s d r t ts least no_room deeper =
    let same =
      clear_bucket-Same (record s { levels = drop_empty d ts [] }) t.address 0 t.contacts in
    rw (reuse_first s d r t ts least no_room deeper, lt→ltb d r deeper, ==_refl t.address)
      (refl, same.levels)
