-- ===== src/Routing/Correct.antt =====
-- `insert` of src/routing_table.cpp, whole.
use btdht.Prelude.{
  ℕ, ◌≡◌, refl, sym, ap, subst, ◌∙◌, inl, inr, Bool, true, false, Option, none, some, Bool-cases,
  Option-cases,
}
use btdht.Id.{Key, key_eq, is_valid_id, rank}
use btdht.Routing.{Node, is_valid, Address, Level, Routing}
use btdht.Routing.Insert.{
  Found, Placed, PlacedLevels, settle_either, into_first, insert_from_table, insert_in_levels,
  make_table, settle, insert_at, into_made, insert_made, into_level, find_level, find_in_tables,
  head_address, insert,
}
use btdht.Routing.Invariant.{LevelsOk, insert_in_levels-LevelsOk}
use btdht.Routing.Valid.{
  IsWellFormed, Same, Same-refl, Same-trans, Same-IsWellFormed, insert_from_table-Same,
  insert_in_levels-Same, MadeOk, make_table-MadeOk,
}

settle-Same : (s : Routing) (r : Option (Address × Bool)) → Same s (settle s r).0
settle-Same s none = Same-refl s
settle-Same s (some (a, replaced)) = record { id = refl; levels = refl }

module _ (c : Node) (valid : is_valid c ≡ true) where
  settle_either-IsWellFormed :
      (s : Routing) (inside : PlacedLevels) (outside : Placed)
      → IsWellFormed (record inside.0 { levels = inside.1 })
      → Same s outside.0
      → IsWellFormed s
      → IsWellFormed (settle_either inside outside).0
  settle_either-IsWellFormed s (s', ls, none) (s2, ts, p) ok same h =
      Same-IsWellFormed s _
        (Same-trans same (
          Same-trans (record { id = refl; levels = refl })
            (settle-Same (record s2 { detached = ts }) p)))
        h
  settle_either-IsWellFormed s (s', ls, some p) outside ok same h =
      Same-IsWellFormed (record s' { levels = ls }) _
        (settle-Same (record s' { levels = ls }) (some p)) ok

  insert_at-IsWellFormed :
      (s : Routing) (r a : ℕ)
      → rank s.id c.id ≡ r
      → IsWellFormed s
      → IsWellFormed (insert_at s r a c).0
  unfolding insert_at
  insert_at-IsWellFormed s r a rk h =
      let inside = insert_in_levels s r a s.levels c in
      let ok : LevelsOk inside.0.id 0 inside.1 =
        subst (λ (id : Key). LevelsOk id 0 inside.1)
          (sym (insert_in_levels-Same s r a s.levels c).id)
          (insert_in_levels-LevelsOk s s.id 0 r a s.levels c valid rk h) in
      settle_either-IsWellFormed s inside (insert_from_table s a s.detached c) ok
        (insert_from_table-Same s a s.detached c) h

  into_made-IsWellFormed :
      (s : Routing) (r : ℕ) (o : Routing × Option ℕ)
      → rank s.id c.id ≡ r
      → MadeOk s o
      → IsWellFormed (into_made r c o).0
  into_made-IsWellFormed s r (s', none) rk ok = ok.well_formed
  into_made-IsWellFormed s r (s', some a) rk ok =
      insert_at-IsWellFormed s' r a (ap (λ (k : Key). rank k c.id) ok.id ∙ rk) ok.well_formed

  insert_made-IsWellFormed :
      (s : Routing) (r : ℕ)
      → rank s.id c.id ≡ r
      → IsWellFormed s
      → IsWellFormed (insert_made s r c).0
  unfolding insert_made
  insert_made-IsWellFormed s r rk h =
      into_made-IsWellFormed s r (make_table s r) rk (make_table-MadeOk s r h)

  into_first-IsWellFormed :
      (s : Routing) (r : ℕ) (o : Option ℕ)
      → rank s.id c.id ≡ r
      → IsWellFormed s
      → IsWellFormed (into_first s r o c).0
  into_first-IsWellFormed s r none rk h = h
  into_first-IsWellFormed s r (some a) rk h = insert_at-IsWellFormed s r a rk h

  into_level-IsWellFormed :
      (s : Routing) (r : ℕ) (l : Level) (f : Found)
      → rank s.id c.id ≡ r
      → IsWellFormed s
      → IsWellFormed (into_level s r l c f).0
  into_level-IsWellFormed s r l (some (a, old), full) rk h = h
  into_level-IsWellFormed s r l (none, true) rk h = insert_made-IsWellFormed s r rk h
  into_level-IsWellFormed s r l (none, false) rk h =
      into_first-IsWellFormed s r (head_address l.tables) rk h

-- In a well-formed table the levels are in order of depth, each bucket has its size and counts its
-- contacts, and each contact stands at the level of its rank against the table's own id. Insertion
-- of any contact, refused or not, leaves a well-formed table well formed.
pub insert-IsWellFormed : (s : Routing) (c : Node) → IsWellFormed s → IsWellFormed (insert s c).0
unfolding insert
insert-IsWellFormed s c h = elim (Bool-cases (is_valid_id c.id)) [
  | inr bad ↦ rw bad h
  | inl valid ↦ elim (Bool-cases (key_eq s.id c.id)) [
    | inl own ↦ rw (valid, own) h
    | inr other ↦
        let r = rank s.id c.id in
        elim (Option-cases (find_level s.levels r)) [
          | inl no_level ↦ rw (valid, other, no_level) (insert_made-IsWellFormed c valid s r refl h)
          | inr (l, level) ↦
              rw (valid, other, level)
                (into_level-IsWellFormed c valid s r l (find_in_tables s l.tables c.id true) refl h)
        ]
  ]
]
