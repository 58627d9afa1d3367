-- ===== src/Routing/Insert.antt =====
-- `find_node`, `__make_routing_table` and `insert` of src/routing_table.cpp.
use btdht.Prelude.{
  ℕ, ◌+◌, ◌%◌, ◌^◌, Bool, true, false, not, ◌&&◌, ◌||◌, Option, none, some, List, [], ◌∷◌, ltb,
  ◌==◌, if◌then◌else◌, set,
}
use btdht.Id.{Key, key_eq, is_valid_id, rank}
use btdht.Routing.{
  Node, is_valid, Address, Table, Level, Routing, is_good, unlink_reset, alloc_table, map_timeout,
}

-- `find_RoutingTable`
unfoldable pub find_level : List Level → ℕ → Option Level
find_level [] r = none
find_level (l ∷ ls) r = if l.depth == r then some l else find_level ls r

-- `routing_table_level_find_node`: the contact with its address, if there is one, and `is_full`.
abbrev pub Found : Type 0
Found = Option (Address × Node) × Bool

abbrev pub still_full : Routing → Node → Bool → Bool
still_full s c full = if is_valid c then (if is_good s c then full else false) else false

unfoldable pub find_in_bucket : Routing → ℕ → ℕ → List Node → Key → Bool → Found
find_in_bucket s a i [] id full = (none, full)
find_in_bucket s a i (c ∷ cs) id full =
    let more = find_in_bucket s a (i + 1) cs id (still_full s c full) in
    if is_valid c && key_eq c.id id then (some ((a, i), c), still_full s c full) else more

abbrev pub or_else : Found → (Bool → Found) → Found
or_else (some r, full) k = (some r, full)
or_else (none, full) k = k full

unfoldable pub find_in_tables : Routing → List Table → Key → Bool → Found
find_in_tables s [] id full = (none, full)
find_in_tables s (t ∷ ts) id full =
    or_else (find_in_bucket s t.address 0 t.contacts id full) (find_in_tables s ts id)

abbrev pub find_at : Routing → Option Level → Key → Option (Address × Node)
find_at s none search = none
find_at s (some l) search = (find_in_tables s l.tables search true).0

unfoldable pub find_node : Routing → Key → Option (Address × Node)
find_node s search = find_at s (find_level s.levels (rank s.id search)) search

-- `bucket_for`: the bucket of the first table of the level.
abbrev pub first_bucket : Option Level → Option (List Node)
first_bucket none = none
first_bucket (some l) = elim l.tables [ [] ↦ none | t ∷ ts ↦ some t.contacts ]

unfoldable pub bucket_for : Routing → Key → Option (List Node)
bucket_for s id = first_bucket (find_level s.levels (rank s.id id))

-- What `bucket_insert` does with a contact that stands in its way.
abbrev pub replaceable : Routing → Node → Bool
replaceable s c = not (is_good s c) || c.is_readonly

-- The state, the bucket's table, and the place with the `replaced` flag, if a place was found.
abbrev pub Inserted : Type 0
Inserted = Routing × Table × Option (ℕ × Bool)

-- The loop of `bucket_insert` from the contact `i` on.
unfoldable pub insert_from : Routing → Table → ℕ → List Node → Node → Inserted
insert_from s t i [] c = (s, t, none)
insert_from s t i (old ∷ rest) c =
    let more = insert_from s t (i + 1) rest c in
    if not (is_valid old)
    then (s, record t { contacts = set t.contacts i c; length = t.length + 1 }, some (i, false))
    else if replaceable s old
    then (
      (unlink_reset s (t.address, i) old).0,
      record t { contacts = set t.contacts i c },
      some (i, true),
    )
    else more

unfoldable pub bucket_insert : Routing → Table → Node → Inserted
bucket_insert s t c = insert_from s t 0 t.contacts c

-- The state, the tables, and the address of the contact with the `replaced` flag.
abbrev pub Placed : Type 0
Placed = Routing × List Table × Option (Address × Bool)

abbrev pub or_next : Inserted → List Table → Placed → Placed
or_next (s, t, some (i, replaced)) ts rest = (s, t ∷ ts, some ((t.address, i), replaced))
or_next (s, t, none) ts (s', ts', r) = (s', t ∷ ts', r)

-- `routing_table_level_insert_Node`, from the first of `tables` on.
unfoldable pub insert_in_tables : Routing → List Table → Node → Placed
insert_in_tables s [] c = (s, [], none)
insert_in_tables s (t ∷ ts) c =
    let rest = insert_in_tables s ts c in or_next (bucket_insert s t c) ts rest

-- `tmp->parallel = it->parallel; it->parallel = tmp;`
abbrev pub add_parallel : Table → List Table → List Table
add_parallel t [] = t ∷ []
add_parallel t (it ∷ rest) = it ∷ t ∷ rest

-- The new table stands second among the tables of its level, or makes a level of its own in front
-- of the first deeper one: the links that `__make_routing_table` and `rt_insert_new` set.
unfoldable pub link : ℕ → Table → List Level → List Level
link r t [] = record { depth = r; tables = t ∷ [] } ∷ []
link r t (l ∷ ls) =
    if r == l.depth
    then record l { tables = add_parallel t l.tables } ∷ ls
    else if ltb r l.depth
    then record { depth = r; tables = t ∷ [] } ∷ l ∷ ls
    else l ∷ link r t ls

abbrev pub head_address : List Table → Option ℕ
head_address [] = none
head_address (t ∷ ts) = some t.address

-- The table `it` at which the loop of `__make_routing_table` comes to the end of the levels, where
-- it does: the first table of the last level, if every level is shallower than `r`.
unfoldable pub loop_end : ℕ → List Level → Option ℕ
loop_end r [] = none
loop_end r (l ∷ []) = if ltb l.depth r then head_address l.tables else none
loop_end r (l ∷ k ∷ ls) = if ltb l.depth r then loop_end r (k ∷ ls) else none

abbrev pub is_address : Option ℕ → ℕ → Bool
is_address none a = false
is_address (some b) a = a == b

-- `it->in_tree = alloc_RoutingTable(self, r)` where the table handed out is `it` itself, which
-- `__dequeue_root` has just taken from the root: `root` does not reach it any more.
abbrev pub is_lost : ℕ → List Level → Table → Bool
is_lost r before t = is_address (loop_end r before) t.address

abbrev pub linked : ℕ → List Level → Routing → Table → Routing
linked r before s t =
    if is_lost r before t
    then record s { detached = t ∷ s.detached }
    else record s { levels = link r t s.levels }

abbrev pub make_linked : ℕ → List Level → Routing × Option Table → Routing × Option ℕ
make_linked r before (s, none) = (s, none)
make_linked r before (s, some t) = (linked r before s t, some t.address)

-- `__make_routing_table`, with the address of the table.
unfoldable pub make_table : Routing → ℕ → Routing × Option ℕ
make_table s r = make_linked r s.levels (alloc_table s r)

abbrev pub keep_table : Table → Placed → Placed
keep_table t (s, ts, r) = (s, t ∷ ts, r)

-- `routing_table_level_insert_Node` from the table at `a` on.
unfoldable pub insert_from_table : Routing → ℕ → List Table → Node → Placed
insert_from_table s a [] c = (s, [], none)
insert_from_table s a (t ∷ ts) c =
    let later = keep_table t (insert_from_table s a ts c) in
    if t.address == a then insert_in_tables s (t ∷ ts) c else later

abbrev pub PlacedLevels : Type 0
PlacedLevels = Routing × List Level × Option (Address × Bool)

abbrev pub keep_level : Level → PlacedLevels → PlacedLevels
keep_level l (s, ls, r) = (s, l ∷ ls, r)

abbrev pub with_level : ℕ → List Level → Placed → PlacedLevels
with_level depth ls (s, ts, r) = (s, record { depth = depth; tables = ts } ∷ ls, r)

unfoldable pub insert_in_levels : Routing → ℕ → ℕ → List Level → Node → PlacedLevels
insert_in_levels s r a [] c = (s, [], none)
insert_in_levels s r a (l ∷ ls) c =
    let later = keep_level l (insert_in_levels s r a ls c) in
    if l.depth == r then with_level l.depth ls (insert_from_table s a l.tables c) else later

-- What `insert` does with the contact's place: the timeout list, and the count of contacts.
abbrev pub settle : Routing → Option (Address × Bool) → Routing × Option Address
settle s none = (s, none)
settle s (some (a, replaced)) = (
  record s {
    timeout = map_timeout (◌∷◌ a) s.timeout;
    total_nodes = if replaced then s.total_nodes else (s.total_nodes + 1) % 2 ^ 32;
  },
  some a,
)

abbrev pub settle_levels : PlacedLevels → Routing × Option Address
settle_levels (s, ls, r) = settle (record s { levels = ls }) r

abbrev pub settle_detached : Placed → Routing × Option Address
settle_detached (s, ts, r) = settle (record s { detached = ts }) r

abbrev pub settle_either : PlacedLevels → Placed → Routing × Option Address
settle_either (s, ls, none) outside = settle_detached outside
settle_either (s, ls, some p) outside = settle_levels (s, ls, some p)

-- The insertion into the table at `a`: of the level `r`, or one that `root` does not reach.
unfoldable pub insert_at : Routing → ℕ → ℕ → Node → Routing × Option Address
insert_at s r a c =
    settle_either (insert_in_levels s r a s.levels c) (insert_from_table s a s.detached c)

abbrev pub into_made : ℕ → Node → Routing × Option ℕ → Routing × Option Address
into_made r c (s, none) = (s, none)
into_made r c (s, some a) = insert_at s r a c

unfoldable pub insert_made : Routing → ℕ → Node → Routing × Option Address
insert_made s r c = into_made r c (make_table s r)

abbrev pub into_first : Routing → ℕ → Option ℕ → Node → Routing × Option Address
into_first s r none c = (s, none)
into_first s r (some a) c = insert_at s r a c

abbrev pub into_level : Routing → ℕ → Level → Node → Found → Routing × Option Address
into_level s r l c (some (a, old), full) = (s, some a)
into_level s r l c (none, true) = insert_made s r c
into_level s r l c (none, false) = into_first s r (head_address l.tables) c

-- `insert`: the address of the contact, whether it was there or is new.
unfoldable pub insert : Routing → Node → Routing × Option Address
insert s c =
    if not (is_valid_id c.id)
    then (s, none)
    else if key_eq s.id c.id
    then (s, none)
    else let r = rank s.id c.id in
      elim (find_level s.levels r) [
        | none ↦ insert_made s r c
        | some l ↦ into_level s r l c (find_in_tables s l.tables c.id true)
      ]
