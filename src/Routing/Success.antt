-- ===== src/Routing/Success.antt =====
-- Where `insert` of src/routing_table.cpp takes a contact.
use btdht.Prelude.{
  ℕ, ◌+◌, ◌<◌, ◌≡◌, refl, sym, ap, subst, ◌∙◌, inl, inr, Bool, true, false, Option, none, some,
  List, [], ◌∷◌, arith, Bool-cases, Option-cases, ltb, lt→ltb, ◌==◌, ==_iff, ==_refl,
}
use btdht.Id.{key_eq, is_valid_id, rank}
use btdht.Routing.{Node, Address, Table, Level, Routing, new_table, alloc_table}
use btdht.Routing.Insert.{
  Found, Placed, PlacedLevels, find_in_tables, find_level, insert_from_table, insert_in_levels,
  keep_level, with_level, link, add_parallel, is_lost, make_linked, make_table, settle_either,
  insert_at, into_made, insert_made, into_first, into_level, head_address, insert,
}
use btdht.Routing.Room.{
  IsSome, Crowded, Has, insert_in_tables-Refusal, find_in_tables-full, insert_from_table-IsSome,
}

-- The level found has the table that was linked.
record LinkedAt (t : Table) (o : Option Level) : Type 0 where
  level : Level
  found : o ≡ some level
  has : Has t level.tables

Has-add_parallel : (t : Table) (ts : List Table) → Has t (add_parallel t ts)
Has-add_parallel t [] = inl refl
Has-add_parallel t (it ∷ ts) = inr (inl refl)

link-LinkedAt : (r : ℕ) (t : Table) (ls : List Level) → LinkedAt t (find_level (link r t ls) r)
unfolding link find_level
link-LinkedAt r t [] = rw (==_refl r) (record { level = _; found = refl; has = inl refl })
link-LinkedAt r t (l ∷ ls) = elim (Bool-cases (r == l.depth)) [
  | inl same ↦
      let here : (l.depth == r) ≡ true = (==_iff l.depth r).1 (sym ((==_iff r l.depth).0 same)) in
      rw (same, here) (record { level = _; found = refl; has = Has-add_parallel t l.tables })
  | inr other ↦ elim (Bool-cases (ltb r l.depth)) [
    | inl before ↦
        rw (other, before, ==_refl r) (record { level = _; found = refl; has = inl refl })
    | inr behind ↦
        let away : (l.depth == r) ≡ false = ground arith in
        rw (other, behind, away) (link-LinkedAt r t ls)
  ]
]

with_level-2 : (d : ℕ) (ls : List Level) (p : Placed) → (with_level d ls p).2 ≡ p.2
with_level-2 d ls (s, ts, o) = refl

keep_level-2 : (l : Level) (p : PlacedLevels) → (keep_level l p).2 ≡ p.2
keep_level-2 l (s, ls, o) = refl

insert_in_levels-found :
    (s : Routing) (r a : ℕ) (ls : List Level) (c : Node) (l : Level)
    → find_level ls r ≡ some l
    → (insert_in_levels s r a ls c).2 ≡ (insert_from_table s a l.tables c).2
unfolding insert_in_levels find_level
insert_in_levels-found s r a [] c l e = ground (arith, e)
insert_in_levels-found s r a (k ∷ ls) c l e = elim (Bool-cases (k.depth == r)) [
  | inl here ↦
      let same : k ≡ l = ground (arith, e, here) in
      rw here (
        with_level-2 k.depth ls (insert_from_table s a k.tables c)
        ∙ ap (λ (l : Level). (insert_from_table s a l.tables c).2) same)
  | inr later ↦
      let rest : find_level ls r ≡ some l = rw later at e in
      rw later
        (keep_level-2 k (insert_in_levels s r a ls c) ∙ insert_in_levels-found s r a ls c l rest)
]

settle_either-inside : (p : PlacedLevels) (q : Placed) → IsSome p.2 → IsSome (settle_either p q).1
settle_either-inside (s, ls, some (a, replaced)) q h = (a, refl)
settle_either-inside (s, ls, none) q (x, e) = ground (arith, e)

settle_either-outside : (p : PlacedLevels) (q : Placed) → IsSome q.2 → IsSome (settle_either p q).1
settle_either-outside (s, ls, some (a, replaced)) q h = (a, refl)
settle_either-outside (s, ls, none) (s', ts, some (a, replaced)) h = (a, refl)
settle_either-outside (s, ls, none) (s', ts, none) (x, e) = ground (arith, e)

insert_at-inside :
    (s : Routing) (r a : ℕ) (c : Node) (l : Level)
    → find_level s.levels r ≡ some l
    → IsSome (insert_from_table s a l.tables c).2
    → IsSome (insert_at s r a c).1
unfolding insert_at
insert_at-inside s r a c l e h =
    settle_either-inside (insert_in_levels s r a s.levels c) (insert_from_table s a s.detached c) (
      subst (λ (o : Option (Address × Bool)). IsSome o)
        (sym (insert_in_levels-found s r a s.levels c l e)) h)

insert_at-outside :
    (s : Routing) (r a : ℕ) (c : Node)
    → IsSome (insert_from_table s a s.detached c).2
    → IsSome (insert_at s r a c).1
unfolding insert_at
insert_at-outside s r a c h =
    settle_either-outside (insert_in_levels s r a s.levels c) (insert_from_table s a s.detached c) h

linked-IsSome :
    (s : Routing) (r : ℕ) (before : List Level) (a : ℕ) (c : Node)
    → IsSome (into_made r c (make_linked r before (s, some (new_table a)))).1
linked-IsSome s r before a c = elim (Bool-cases (is_lost r before (new_table a))) [
  | inl lost ↦ rw lost (
      insert_at-outside (record s { detached = new_table a ∷ s.detached }) r a c
        (insert_from_table-IsSome (record s { detached = new_table a ∷ s.detached }) a
          (new_table a ∷ s.detached) c (inl refl)))
  | inr placed ↦
      let s' = record s { levels = link r (new_table a) s.levels } in
      let at = link-LinkedAt r (new_table a) s.levels in
      rw placed (
        insert_at-inside s' r a c at.level at.found
          (insert_from_table-IsSome s' a at.level.tables c at.has))
]

room-alloc :
    (s : Routing) (r : ℕ)
    → s.length < s.capacity
    → alloc_table s r ≡ (
      record s { length = s.length + 1; next_address = s.next_address + 1 },
      some (new_table s.next_address),
    )
unfolding alloc_table
room-alloc s r room = rw (lt→ltb s.length s.capacity room) refl

insert_made-IsSome :
    (s : Routing) (r : ℕ) (c : Node) → s.length < s.capacity → IsSome (insert_made s r c).1
unfolding insert_made make_table
insert_made-IsSome s r c room = rw (room-alloc s r room) (
    linked-IsSome (record s { length = s.length + 1; next_address = s.next_address + 1 }) r s.levels
      s.next_address c)

first-IsSome :
    (s : Routing) (t : Table) (ts : List Table) (c : Node)
    → (Crowded s (t ∷ ts) → ⊥)
    → IsSome (insert_from_table s t.address (t ∷ ts) c).2
unfolding insert_from_table
first-IsSome s t ts c h = rw (==_refl t.address) (elim (insert_in_tables-Refusal s (t ∷ ts) c) [
  | inl crowded ↦ absurd (h crowded)
  | inr placed ↦ placed
])

into_first-IsSome :
    (s : Routing) (r d : ℕ) (ts : List Table) (c : Node)
    → find_level s.levels r ≡ some (record { depth = d; tables = ts })
    → (Crowded s ts → ⊥)
    → IsSome (into_first s r (head_address ts) c).1
into_first-IsSome s r d [] c e h = absurd (h tt)
into_first-IsSome s r d (t ∷ ts) c e h =
    insert_at-inside s r t.address c (record { depth = d; tables = t ∷ ts }) e
      (first-IsSome s t ts c h)

into_level-IsSome :
    (s : Routing) (r : ℕ) (l : Level) (c : Node) (f : Found)
    → s.length < s.capacity
    → find_level s.levels r ≡ some l
    → (Crowded s l.tables → f.1 ≡ true)
    → IsSome (into_level s r l c f).1
into_level-IsSome s r l c (some (a, old), f) room e h = (a, refl)
into_level-IsSome s r l c (none, true) room e h = insert_made-IsSome s r c room
into_level-IsSome s r l c (none, false) room e h =
    into_first-IsSome s r l.depth l.tables c e (λ crowded. let no = h crowded in cc no)

-- While there are fewer tables than the capacity, `insert` takes every contact whose id is valid
-- and not the table's own: it gives back the address of a contact.
pub insert_succeeds :
    (s : Routing) (c : Node)
    → is_valid_id c.id ≡ true
    → key_eq s.id c.id ≡ false
    → s.length < s.capacity
    → (a : Address) × ((insert s c).1 ≡ some a)
unfolding insert
insert_succeeds s c valid other room = elim (Option-cases (find_level s.levels (rank s.id c.id))) [
  | inl no_level ↦ rw (valid, other, no_level) (insert_made-IsSome s (rank s.id c.id) c room)
  | inr (l, level) ↦
      rw (valid, other, level)
        (into_level-IsSome s (rank s.id c.id) l c (find_in_tables s l.tables c.id true) room level
          (find_in_tables-full s l.tables c.id true))
]
