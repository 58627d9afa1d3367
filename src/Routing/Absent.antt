-- ===== src/Routing/Absent.antt =====
-- The steps of `insert` of src/routing_table.cpp that make a table do not add a contact to a level.
use btdht.Prelude.{
  ℕ, ◌≡◌, refl, sym, ap, subst, ◌∙◌, inl, inr, true, false, Option, none, some, List, [], ◌∷◌,
  arith, Bool-cases, Option-cases, ltb, ◌==◌, ==_iff, All,
}
use btdht.Id.{Key, is_valid_id}
use btdht.Routing.{
  blank_node, Table, Level, Routing, new_table, smallest, remove_table, drop_empty, dequeue_root,
  reuse, root_depth, alloc_table,
}
use btdht.Routing.Insert.{find_level, link, add_parallel, is_lost, make_linked, make_table}
use btdht.Routing.Invariant.{All-replicate}
use btdht.Routing.Valid.{clear_bucket-Same}
use btdht.Routing.Find.{Other, Absent, AbsentAt}

new_table-Absent : (id : Key) (a : ℕ) → All (Other id) (new_table a).contacts
unfolding is_valid_id
new_table-Absent id a = All-replicate (Other id) 32 blank_node refl

module _ (id : Key) (r : ℕ) where
  add_parallel-Absent :
      (t : Table) (ts : List Table)
      → All (Other id) t.contacts
      → Absent id ts
      → Absent id (add_parallel t ts)
  add_parallel-Absent t [] h k = (h, tt)
  add_parallel-Absent t (it ∷ ts) h k = (k.0, (h, k.1))

  link-AbsentAt :
      (t : Table) (ls : List Level)
      → All (Other id) t.contacts
      → AbsentAt id (find_level ls r)
      → AbsentAt id (find_level (link r t ls) r)
  unfolding link find_level
  link-AbsentAt t [] h k = rw ((==_iff r r).1 refl) (h, tt)
  link-AbsentAt t (l ∷ ls) h k = elim (Bool-cases (r == l.depth)) [
    | inl same ↦
        let here : (l.depth == r) ≡ true = (==_iff l.depth r).1 (sym ((==_iff r l.depth).0 same)) in
        let absent : Absent id l.tables = rw here at k in
        rw (same, here) (add_parallel-Absent t l.tables h absent)
    | inr other ↦ elim (Bool-cases (ltb r l.depth)) [
      | inl before ↦ rw (other, before, (==_iff r r).1 refl) (h, tt)
      | inr behind ↦
          let away : (l.depth == r) ≡ false = ground arith in
          let absent : AbsentAt id (find_level ls r) = rw away at k in
          rw (other, behind, away) (link-AbsentAt t ls h absent)
    ]
  ]

  -- The levels that are left have the same level of rank `r`.
  abbrev LeftSame : List Level → Option (Table × List Level) → Type 0
  LeftSame before none = Unit {0}
  LeftSame before (some (t, ls)) = find_level ls r ≡ find_level before r

  drop_empty-find_level :
      (depth : ℕ) (ts : List Table) (ls : List Level)
      → (depth == r) ≡ false
      → find_level (drop_empty depth ts ls) r ≡ find_level ls r
  unfolding find_level
  drop_empty-find_level depth [] ls away = refl
  drop_empty-find_level depth (t ∷ ts) ls away = rw away

  dequeue_tables-LeftSame :
      (depth : ℕ) (ts : List Table) (ls : List Level)
      → (depth == r) ≡ false
      → LeftSame
          (record { depth = depth; tables = ts } ∷ ls)
          (dequeue_root (record { depth = depth; tables = ts } ∷ ls))
  unfolding dequeue_root find_level
  dequeue_tables-LeftSame depth [] ls away = tt
  dequeue_tables-LeftSame depth (t ∷ ts) ls away =
      rw away (drop_empty-find_level depth (remove_table (smallest t ts).address (t ∷ ts)) ls away)

  reuse-AbsentAt :
      (s : Routing) (o : Option (Table × List Level))
      → LeftSame s.levels o
      → AbsentAt id (find_level s.levels r)
      → AbsentAt id (find_level (reuse s o).0.levels r)
  reuse-AbsentAt s none same h = h
  reuse-AbsentAt s (some (t, ls)) same h =
      let kept : find_level (reuse s (some (t, ls))).0.levels r ≡ find_level s.levels r =
        ap (λ (ls : List Level). find_level ls r)
          (clear_bucket-Same (record s { levels = ls }) t.address 0 t.contacts).levels
        ∙ same in
      subst (AbsentAt id) (sym kept) h

  shallow-LeftSame :
      (d : ℕ) (ls : List Level)
      → root_depth ls ≡ some d
      → ltb d r ≡ true
      → LeftSame ls (dequeue_root ls)
  unfolding dequeue_root
  shallow-LeftSame d [] root deeper = tt
  shallow-LeftSame d (l ∷ ls) root deeper =
      dequeue_tables-LeftSame l.depth l.tables ls (ground (arith, root, deeper))

  abbrev FreshAbsent : Option Table → Type 0
  FreshAbsent none = Unit {0}
  FreshAbsent (some t) = All (Other id) t.contacts

  reuse-FreshAbsent : (s : Routing) (o : Option (Table × List Level)) → FreshAbsent (reuse s o).1
  reuse-FreshAbsent s none = tt
  reuse-FreshAbsent s (some (t, ls)) = new_table-Absent id t.address

  abbrev AllocAbsent : Routing × Option Table → Type 0
  AllocAbsent p = AbsentAt id (find_level p.0.levels r) × FreshAbsent p.1

  alloc_table-AllocAbsent :
      (s : Routing) → AbsentAt id (find_level s.levels r) → AllocAbsent (alloc_table s r)
  unfolding alloc_table
  alloc_table-AllocAbsent s h = elim (Bool-cases (ltb s.length s.capacity)) [
    | inl room ↦ rw room (h, new_table-Absent id s.next_address)
    | inr taken ↦ elim (Option-cases (root_depth s.levels)) [
      | inl none_left ↦ rw (taken, none_left) (h, tt)
      | inr (d, root) ↦ elim (Bool-cases (ltb d r)) [
        | inl deeper ↦
            rw (taken, root, deeper)
              (
                reuse-AbsentAt s (dequeue_root s.levels) (shallow-LeftSame d s.levels root deeper)
                    h,
                reuse-FreshAbsent s (dequeue_root s.levels),
              )
        | inr shallow ↦ rw (taken, root, shallow) (h, tt)
      ]
    ]
  ]

  make_linked-AbsentAt :
      (before : List Level) (o : Routing × Option Table)
      → AllocAbsent o
      → AbsentAt id (find_level (make_linked r before o).0.levels r)
  make_linked-AbsentAt before (s, none) h = h.0
  make_linked-AbsentAt before (s, some t) h = elim (Bool-cases (is_lost r before t)) [
    | inl lost ↦ rw lost h.0
    | inr placed ↦ rw placed (link-AbsentAt t s.levels h.1 h.0)
  ]

  pub make_table-AbsentAt :
      (s : Routing)
      → AbsentAt id (find_level s.levels r)
      → AbsentAt id (find_level (make_table s r).0.levels r)
  unfolding make_table
  make_table-AbsentAt s h =
      make_linked-AbsentAt s.levels (alloc_table s r) (alloc_table-AllocAbsent s h)
