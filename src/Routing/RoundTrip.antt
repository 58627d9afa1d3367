-- ===== src/Routing/RoundTrip.antt =====
-- `insert` and then `find_node` of src/routing_table.cpp, also where a table was taken from the root.
use btdht.Prelude.{
  ℕ, ◌≡◌, refl, ap, subst, ◌∙◌, inl, inr, true, false, Option, none, some, List, [], ◌∷◌, ◌⊎◌,
  arith, Bool-cases, Option-cases, ◌==◌,
}
use btdht.Id.{Key, key_eq, is_valid_id, rank}
use btdht.Routing.{Node, is_valid, Address, Table, Level, Routing}
use btdht.Routing.Insert.{
  Found, Placed, PlacedLevels, find_in_tables, find_level, find_node, or_next, bucket_insert,
  Inserted, insert_in_tables, insert_from_table, insert_in_levels, keep_table, make_table,
  settle_either, insert_at, into_made, insert_made, into_first, into_level, head_address, insert,
}
use btdht.Routing.Valid.{IsWellFormed, insert_in_levels-Same, MadeOk, make_table-MadeOk}
use btdht.Routing.Find.{AbsentAt, FindsLevels, insert_in_levels-FindsLevels, find_in_tables-none}
use btdht.Routing.Absent.{make_table-AbsentAt}

-- A table takes a contact only if there is a table.
abbrev HasTable : Placed → Type 0
HasTable (s, [], p) = p ≡ none
HasTable (s, t ∷ ts, p) = Unit {0}

or_next-HasTable : (r : Inserted) (ts : List Table) (p : Placed) → HasTable (or_next r ts p)
or_next-HasTable (s, t, some (i, replaced)) ts p = tt
or_next-HasTable (s, t, none) ts (s', ts', p) = tt

keep_table-HasTable : (t : Table) (p : Placed) → HasTable (keep_table t p)
keep_table-HasTable t (s, ts, p) = tt

insert_in_tables-HasTable :
    (s : Routing) (ts : List Table) (c : Node) → HasTable (insert_in_tables s ts c)
unfolding insert_in_tables
insert_in_tables-HasTable s [] c = refl
insert_in_tables-HasTable s (t ∷ ts) c =
    or_next-HasTable (bucket_insert s t c) ts (insert_in_tables s ts c)

insert_from_table-HasTable :
    (s : Routing) (a : ℕ) (ts : List Table) (c : Node) → HasTable (insert_from_table s a ts c)
unfolding insert_from_table
insert_from_table-HasTable s a [] c = refl
insert_from_table-HasTable s a (t ∷ ts) c = elim (Bool-cases (t.address == a)) [
  | inl here ↦ rw here (insert_in_tables-HasTable s (t ∷ ts) c)
  | inr later ↦ rw later (keep_table-HasTable t (insert_from_table s a ts c))
]

-- The contact was inserted where the search finds it, if no table is out of reach.
abbrev Findable : Node → Routing × Option Address → Type 0
Findable c (s, none) = Unit {0}
Findable c (s, some a) = s.detached ≡ [] → find_node s c.id ≡ some (a, c)

module _ (c : Node) (valid : is_valid c ≡ true) where
  settle_either-Findable :
      (r : ℕ) (inside : PlacedLevels) (outside : Placed)
      → rank inside.0.id c.id ≡ r
      → FindsLevels c r inside
      → HasTable outside
      → Findable c (settle_either inside outside)
  unfolding find_node
  settle_either-Findable r (s, ls, some (a, replaced)) outside rk finds table = λ e. rw rk (finds _)
  settle_either-Findable r (s, ls, none) (s', ts, none) rk finds table = tt
  settle_either-Findable r (s, ls, none) (s', [], some (a, replaced)) rk finds table =
      ground (arith, table)
  settle_either-Findable r (s, ls, none) (s', t ∷ ts, some (a, replaced)) rk finds table =
      λ e. ground (arith, e)

  insert_at-Findable :
      (s : Routing) (r a : ℕ)
      → rank s.id c.id ≡ r
      → AbsentAt c.id (find_level s.levels r)
      → Findable c (insert_at s r a c)
  unfolding insert_at
  insert_at-Findable s r a rk absent =
      settle_either-Findable r (insert_in_levels s r a s.levels c)
        (insert_from_table s a s.detached c)
        (ap (λ (id : Key). rank id c.id) (insert_in_levels-Same s r a s.levels c).id ∙ rk)
        (insert_in_levels-FindsLevels c valid r s a s.levels absent)
        (insert_from_table-HasTable s a s.detached c)

  into_made-Findable :
      (s : Routing) (r : ℕ) (o : Routing × Option ℕ)
      → rank s.id c.id ≡ r
      → MadeOk s o
      → AbsentAt c.id (find_level o.0.levels r)
      → Findable c (into_made r c o)
  into_made-Findable s r (s', none) rk ok absent = tt
  into_made-Findable s r (s', some a) rk ok absent =
      insert_at-Findable s' r a (ap (λ (id : Key). rank id c.id) ok.id ∙ rk) absent

  insert_made-Findable :
      (s : Routing) (r : ℕ)
      → rank s.id c.id ≡ r
      → IsWellFormed s
      → AbsentAt c.id (find_level s.levels r)
      → Findable c (insert_made s r c)
  unfolding insert_made
  insert_made-Findable s r rk h absent =
      into_made-Findable s r (make_table s r) rk (make_table-MadeOk s r h)
        (make_table-AbsentAt c.id r s absent)

  into_first-Findable :
      (s : Routing) (r : ℕ) (o : Option ℕ)
      → rank s.id c.id ≡ r
      → AbsentAt c.id (find_level s.levels r)
      → Findable c (into_first s r o c)
  into_first-Findable s r none rk absent = tt
  into_first-Findable s r (some a) rk absent = insert_at-Findable s r a rk absent

-- The contact's id was in the table before, and nothing changed.
pub record Already (s : Routing) (c : Node) (s' : Routing) (a : Address) : Type 0 where
  pub state : s' ≡ s
  pub old : Node
  pub found : find_node s c.id ≡ some (a, old)

-- What `insert` did, if it gave back the address of a contact.
abbrev Outcome : Routing → Node → Routing × Option Address → Type 0
Outcome s c (s', none) = Unit {0}
Outcome s c (s', some a) = Findable c (s', some a) ⊎ Already s c s' a

Findable-Outcome :
    (s : Routing) (c : Node) (p : Routing × Option Address) → Findable c p → Outcome s c p
Findable-Outcome s c (s', none) h = tt
Findable-Outcome s c (s', some a) h = inl h

into_level-Outcome :
    (s : Routing) (l : Level) (c : Node) (f : Found)
    → is_valid c ≡ true
    → IsWellFormed s
    → find_level s.levels (rank s.id c.id) ≡ some l
    → find_in_tables s l.tables c.id true ≡ f
    → Outcome s c (into_level s (rank s.id c.id) l c f)
unfolding find_node
into_level-Outcome s l c (some (a, old), full) valid h level e =
    inr (record { state = refl; old = old; found = rw level (ap (λ (f : Found). f.0) e) })
into_level-Outcome s l c (none, true) valid h level e =
    let absent : AbsentAt c.id (find_level s.levels (rank s.id c.id)) =
      rw level (find_in_tables-none s l.tables c.id true (ap (λ (f : Found). f.0) e)) in
    Findable-Outcome s c _ (insert_made-Findable c valid s (rank s.id c.id) refl h absent)
into_level-Outcome s l c (none, false) valid h level e =
    let absent : AbsentAt c.id (find_level s.levels (rank s.id c.id)) =
      rw level (find_in_tables-none s l.tables c.id true (ap (λ (f : Found). f.0) e)) in
    Findable-Outcome s c _
      (into_first-Findable c valid s (rank s.id c.id) (head_address l.tables) refl absent)

insert-Outcome : (s : Routing) (c : Node) → IsWellFormed s → Outcome s c (insert s c)
unfolding insert
insert-Outcome s c h = elim (Bool-cases (is_valid_id c.id)) [
  | inr bad ↦ rw bad tt
  | inl valid ↦ elim (Bool-cases (key_eq s.id c.id)) [
    | inl own ↦ rw (valid, own) tt
    | inr other ↦ elim (Option-cases (find_level s.levels (rank s.id c.id))) [
      | inl no_level ↦
          let absent : AbsentAt c.id (find_level s.levels (rank s.id c.id)) = rw no_level tt in
          rw (valid, other, no_level)
            (Findable-Outcome s c _ (insert_made-Findable c valid s (rank s.id c.id) refl h absent))
      | inr (l, level) ↦
          rw (valid, other, level)
            (into_level-Outcome s l c (find_in_tables s l.tables c.id true) valid h level refl)
    ]
  ]
]

Outcome-some :
    (s : Routing) (c : Node) (a : Address) (p : Routing × Option Address)
    → p.1 ≡ some a
    → p.0.detached ≡ []
    → Outcome s c p
    → (find_node p.0 c.id ≡ some (a, c)) ⊎ Already s c p.0 a
Outcome-some s c a (s', none) e d h = ground (arith, e)
Outcome-some s c a (s', some b) e d h =
    let same : b ≡ a = ground (arith, e) in
    subst (λ (a : Address). (find_node s' c.id ≡ some (a, c)) ⊎ Already s c s' a) same
      (elim h [ inl finds ↦ inl (finds d) | inr old ↦ inr old ])

-- What `insert` puts into a well-formed table, `find_node` finds at the address that `insert` gave
-- back, unless the id was in the table before: then `find_node` finds it at that address, and the
-- table is as it was. It is supposed that no table is out of the reach of `root` afterwards.
pub insert-find_node :
    (s : Routing) (c : Node) (a : Address)
    → IsWellFormed s
    → (insert s c).1 ≡ some a
    → (insert s c).0.detached ≡ []
    → (find_node (insert s c).0 c.id ≡ some (a, c)) ⊎ Already s c (insert s c).0 a
insert-find_node s c a h e d = Outcome-some s c a (insert s c) e d (insert-Outcome s c h)
