-- ===== src/Routing/Tests.antt =====
-- The theorems on the routing table at a concrete table.
use btdht.Prelude.{false, ◌+◌, true, ◌≡◌, refl, ◌⊎◌, some, [], ◌∷◌, arith, replicate}
use btdht.Id.{key_eq, Key, rank, bit, is_valid_id}
use btdht.Routing.{
  Address, Table, smallest, is_valid, Node, blank_node, Routing, new_table, alloc_table, is_good,
}
use btdht.Routing.Insert.{
  settle, insert_at, insert_made, make_table, loop_end, link, insert_from_table, insert_in_tables,
  insert_from, bucket_insert, find_node, find_in_tables, find_in_bucket, find_level, insert,
  insert_in_levels,
}
use btdht.Routing.Bucket.{Bucketed, count, bucket_insert-Bucketed}
use btdht.Routing.Invariant.{new_table-TableOk}
use btdht.Routing.Valid.{IsWellFormed}
use btdht.Routing.Correct.{insert-IsWellFormed}
use btdht.Routing.Stored.{Stored, find_node-Stored}
use btdht.Routing.Losses.{one_level, bucket_insert-undercounts, make_table_loses}
use btdht.Routing.Success.{insert_succeeds}
use btdht.Routing.RoundTrip.{Already, insert-find_node}

abbrev pub node : Key → Node
node id = record blank_node { id = id }

-- The table's own id is 1 in its last bit; it has one level, with one empty table.
abbrev pub own : Key
own = 1 ∷ replicate 19 0

abbrev pub start : Routing
start = record {
  levels = record { depth = 0; tables = new_table 0 ∷ [] } ∷ [];
  detached = [];
  next_address = 1;
  length = 1;
  capacity = 3;
  id = own;
  now = 100;
  refresh_interval = 15;
  total_nodes = 0;
  bad_nodes = 0;
  timeout = some [];
  retired = [];
}

pub start-IsWellFormed : IsWellFormed start
start-IsWellFormed = record {
  levels = (record { some_table = omega arith; tables = (new_table-TableOk own 0 0, tt) }, tt);
  rising = (omega arith, tt);
}

-- The first goes to the level 0, the second to the level 3.
abbrev pub far : Node
far = node (129 ∷ replicate 19 0)

abbrev pub near : Node
near = node (17 ∷ replicate 19 0)

insert-IsWellFormed_example : IsWellFormed (insert (insert start far).0 near).0
insert-IsWellFormed_example =
    insert-IsWellFormed (insert start far).0 near (insert-IsWellFormed start far start-IsWellFormed)

bucket_insert-Bucketed_example :
    Bucketed start (new_table 0) far (bucket_insert start (new_table 0) far)
bucket_insert-Bucketed_example = bucket_insert-Bucketed start (new_table 0) far

insert-far : (insert start far).1 ≡ some (0, 0)
unfolding insert find_level find_in_tables find_in_bucket insert_in_levels insert_at
    insert_from_table insert_in_tables bucket_insert insert_from rank bit is_valid_id
insert-far = refl

-- The second contact gets a table of its own.
insert-near : (insert (insert start far).0 near).1 ≡ some (1, 0)
unfolding insert insert_made make_table alloc_table loop_end link find_level find_in_tables
    find_in_bucket insert_in_levels insert_at insert_from_table insert_in_tables bucket_insert
    insert_from rank bit is_valid_id is_good
insert-near = refl

detached-near : (insert (insert start far).0 near).0.detached ≡ []
unfolding insert insert_made make_table alloc_table loop_end link find_level find_in_tables
    find_in_bucket insert_in_levels insert_at insert_from_table insert_in_tables bucket_insert
    insert_from rank bit is_valid_id is_good
detached-near = refl

insert-find_node_example :
    (find_node (insert (insert start far).0 near).0 near.id ≡ some ((1, 0), near))
    ⊎ Already (insert start far).0 near (insert (insert start far).0 near).0 (1, 0)
insert-find_node_example =
    insert-find_node (insert start far).0 near (1, 0)
      (insert-IsWellFormed start far start-IsWellFormed) insert-near detached-near

find-far : find_node (insert start far).0 far.id ≡ some ((0, 0), far)
unfolding insert find_node find_level find_in_tables find_in_bucket insert_in_levels insert_at
    insert_from_table insert_in_tables bucket_insert insert_from rank bit is_valid_id
find-far = refl

find_node-Stored_example : Stored (insert start far).0 far.id (0, 0) far
find_node-Stored_example = find_node-Stored (insert start far).0 far.id (0, 0) far find-far

-- A bucket whose first contact is read only.
abbrev crowded : Table
crowded = record (new_table 0) {
  contacts = record near { is_readonly = true } ∷ replicate 31 blank_node;
  length = 1;
}

abbrev counted : Routing
counted = record start { total_nodes = 1 }

replaces-near : (bucket_insert counted crowded far).2 ≡ some (0, true)
unfolding bucket_insert insert_from is_valid_id is_good
replaces-near = refl

far-valid : is_valid far ≡ true
unfolding is_valid_id
far-valid = refl

bucket_insert-undercounts_example :
    (count (bucket_insert counted crowded far).1.contacts ≡ count crowded.contacts)
    × ((settle (bucket_insert counted crowded far).0 (some ((0, 0), true))).0.total_nodes + 1 ≡ 1)
bucket_insert-undercounts_example =
    bucket_insert-undercounts counted crowded far 0 far-valid (omega arith) replaces-near

abbrev small : Routing
small = record start { capacity = 1 }

make_table_loses_example :
    ((make_table (one_level small 0 (new_table 0 ∷ [])) 3).1 ≡ some 0)
    × ((make_table (one_level small 0 (new_table 0 ∷ [])) 3).0.levels ≡ [])
unfolding smallest
make_table_loses_example =
    make_table_loses small 0 3 (new_table 0) [] refl (omega arith) (omega arith)

far-own : key_eq start.id far.id ≡ false
far-own = refl

insert_succeeds_example : (a : Address) × ((insert start far).1 ≡ some a)
insert_succeeds_example = insert_succeeds start far far-valid far-own (omega arith)
