-- ===== src/Routing.antt =====
-- The routing table of src/routing_table.cpp and src/routing_table.h. The levels stand in the order
-- of the `in_tree` pointers from `root` on, the tables of a level in that of the `parallel`
-- pointers, each table under its address. The state's `timeout` is the list of contacts that
-- src/timeout.cpp keeps, from its head on, `none` where `tb.timeout` is null; a contact's address is
-- that of its table and its place there. `retired` logs the calls of the `retire_good` callbacks.
pub mod Insert
pub mod Bucket
pub mod Invariant
pub mod Valid
pub mod Correct
pub mod Find
pub mod Absent
pub mod Losses
pub mod Closest
pub mod Room
pub mod Success
pub mod Stored
pub mod RoundTrip
mod Tests
use btdht.Prelude.{
  ℕ, zero, suc, ◌+◌, ◌-◌, ◌%◌, ◌^◌, Bool, true, false, not, ◌&&◌, ◌||◌, Option, none, some, List,
  [], ◌∷◌, ◌++◌, ltb, leb, ◌==◌, if◌then◌else◌, set, replicate,
}
use btdht.Address.{ipv4, Contact}
use btdht.Id.{Key, key_eq, zero_key, is_valid_id, rank}

-- `dht::Node`; its list pointers are the state's `timeout`.
pub record Node : Type 0 where
  pub contact : Contact
  pub id : Key
  pub outstanding : ℕ
  pub remote_activity : ℕ
  pub req_sent : ℕ
  pub valid_id : Bool
  pub is_good : Bool
  pub is_readonly : Bool
  pub support_sample_infohashes : Bool

-- `Node()`
abbrev pub blank_node : Node
blank_node = record {
  contact = record { ip = ipv4 0; port = 0 };
  id = zero_key;
  outstanding = 0;
  remote_activity = 0;
  req_sent = 0;
  valid_id = false;
  is_good = true;
  is_readonly = false;
  support_sample_infohashes = false;
}

-- `is_valid(const Node &)`
abbrev pub is_valid : Node → Bool
is_valid n = is_valid_id n.id

-- `Bucket::K`
abbrev pub bucket_size : ℕ
bucket_size = 32

abbrev pub Address : Type 0
Address = ℕ × ℕ

-- A `RoutingTable` without its pointers, with its `Bucket`.
pub record Table : Type 0 where
  pub address : ℕ
  pub contacts : List Node
  pub length : ℕ

pub record Level : Type 0 where
  pub depth : ℕ
  pub tables : List Table

-- `DHTMetaRoutingTable`. `detached` holds tables that were allocated and that `root` does not reach.
pub record Routing : Type 0 where
  pub levels : List Level
  pub detached : List Table
  pub next_address : ℕ
  pub length : ℕ
  pub capacity : ℕ
  pub id : Key
  pub now : ℕ
  pub refresh_interval : ℕ
  pub total_nodes : ℕ
  pub bad_nodes : ℕ
  pub timeout : Option (List Address)
  pub retired : List Node

-- `RoutingTable(depth)`
abbrev pub new_table : ℕ → Table
new_table a = record { address = a; contacts = replicate bucket_size blank_node; length = 0 }

-- `is_good(dht, contact)`
unfoldable pub is_good : Routing → Node → Bool
is_good s c =
    if ltb 2 c.outstanding then not (ltb s.now (c.remote_activity + s.refresh_interval)) else true

-- `nodes_total`, `nodes_bad` and `nodes_good`, a difference of `uint32_t`.
unfoldable pub nodes_good : Routing → ℕ
nodes_good s = (s.total_nodes + 2 ^ 32 - s.bad_nodes) % 2 ^ 32

abbrev same_address : Address → Address → Bool
same_address (a, i) (b, j) = (a == b) && (i == j)

abbrev pub unlink_from : Address → List Address → List Address
unlink_from a [] = []
unlink_from a (x ∷ xs) = if same_address a x then xs else x ∷ unlink_from a xs

abbrev pub map_timeout :
    (List Address → List Address) → Option (List Address) → Option (List Address)
map_timeout f none = none
map_timeout f (some xs) = some (f xs)

-- The counters after `reset`; the contact itself becomes `Node()`.
unfoldable pub reset : Routing → Node → Routing
reset s c =
    let bad = if c.is_good then s.bad_nodes else (s.bad_nodes + 2 ^ 32 - 1) % 2 ^ 32 in
    let total = if ltb 0 s.total_nodes then s.total_nodes - 1 else s.total_nodes in
    record s { total_nodes = total; bad_nodes = bad }

-- The callbacks of `retire_good`, for a contact that is marked good.
abbrev pub retire : Routing → Node → Routing
retire s c = if c.is_good then record s { retired = c ∷ s.retired } else s

-- `timeout_unlink_reset_node`: the state, the contact, and whether there was one.
unfoldable pub unlink_reset : Routing → Address → Node → Routing × Node × Bool
unlink_reset s a c =
    if is_valid c
    then (
      reset (retire (record s { timeout = map_timeout (unlink_from a) s.timeout }) c) c,
      blank_node,
      true,
    )
    else (s, c, false)

-- The loop of `alloc_RoutingTable` that empties the bucket of a table, from the contact `i` on.
unfoldable pub clear_bucket : Routing → ℕ → ℕ → List Node → Routing
clear_bucket s a i [] = s
clear_bucket s a i (c ∷ cs) = clear_bucket (unlink_reset s (a, i) c).0 a (i + 1) cs

-- The loop of `__dequeue_root`: the table with the fewest contacts, the first of these.
unfoldable pub smallest : Table → List Table → Table
smallest best [] = best
smallest best (t ∷ ts) = smallest (if ltb t.length best.length then t else best) ts

abbrev pub remove_table : ℕ → List Table → List Table
remove_table a [] = []
remove_table a (t ∷ ts) = if t.address == a then ts else t ∷ remove_table a ts

-- A level whose last table went gives `root` to the level below.
abbrev pub drop_empty : ℕ → List Table → List Level → List Level
drop_empty depth [] ls = ls
drop_empty depth (t ∷ ts) ls = record { depth = depth; tables = t ∷ ts } ∷ ls

-- `__dequeue_root`, with the levels that are left.
unfoldable pub dequeue_root : List Level → Option (Table × List Level)
dequeue_root [] = none
dequeue_root (l ∷ ls) = elim l.tables [
  | [] ↦ none
  | t ∷ ts ↦
      let least = smallest t ts in
      some (least, drop_empty l.depth (remove_table least.address (t ∷ ts)) ls)
]

abbrev pub root_depth : List Level → Option ℕ
root_depth [] = none
root_depth (l ∷ ls) = some l.depth

abbrev pub reuse : Routing → Option (Table × List Level) → Routing × Option Table
reuse s none = (s, none)
reuse s (some (t, ls)) =
    (clear_bucket (record s { levels = ls }) t.address 0 t.contacts, some (new_table t.address))

-- `alloc_RoutingTable`. Where the source asserts a root, its absence gives `none`.
unfoldable pub alloc_table : Routing → ℕ → Routing × Option Table
alloc_table s depth =
    if ltb s.length s.capacity
    then (
      record s { length = s.length + 1; next_address = s.next_address + 1 },
      some (new_table s.next_address),
    )
    else elim (root_depth s.levels) [
      | none ↦ (s, none)
      | some d ↦ if ltb d depth then reuse s (dequeue_root s.levels) else (s, none)
    ]
