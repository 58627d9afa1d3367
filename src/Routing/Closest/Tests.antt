-- ===== src/Routing/Closest/Tests.antt =====
-- The theorems on the closest contacts at a concrete table, with a ring that is a list.
use btdht.Prelude.{
  ◌≤◌, ◌≡◌, refl, ap, Bool, true, false, Option, none, some, List, [], ◌∷◌, arith, length, take,
}
use btdht.Id.{rank, bit, is_valid_id}
use btdht.Routing.{Level}
use btdht.Routing.Insert.{
  insert, insert_at, insert_from_table, insert_in_tables, insert_from, bucket_insert,
  find_in_tables, find_in_bucket, find_level, insert_in_levels,
}
use btdht.Routing.Correct.{insert-IsWellFormed}
use btdht.Routing.Tests.{start, start-IsWellFormed, far, near}
use btdht.Routing.Closest.{Ring, RingLaws, multiple_closest_nodes}
use btdht.Routing.Closest.First.{good_in_levels, looked_at, back_onto, multiple_closest_nodes-take}
use btdht.Routing.Closest.Order.{closeness, Falling, multiple_closest_nodes-Falling}

abbrev pop : List Level → Option (Level × List Level)
pop [] = none
pop (l ∷ ls) = some (l, ls)

abbrev no_level : List Level → Bool
no_level [] = true
no_level (l ∷ ls) = false

abbrev tail : List Level → List Level
tail [] = []
tail (l ∷ ls) = ls

abbrev list_ring : Ring
list_ring = record {
  Buffer = List Level;
  fresh = [];
  push_back = λ q l. l ∷ q;
  pop_back = pop;
  is_empty = no_level;
}

list_ring-RingLaws : RingLaws list_ring
list_ring-RingLaws = record {
  content = λ q. q;
  content-fresh = refl;
  content-push_back = λ q l fits. refl;
  is_empty-nil = λ q e. ap no_level e;
  is_empty-cons = λ q l ls e. ap no_level e;
  rest = tail;
  pop_back-cons = λ q l ls e. pop-tail q l ls e;
  content-rest = λ q l ls e. ap tail e;
}
  where
    pop-tail :
        (q : List Level) (l : Level) (ls : List Level) → q ≡ l ∷ ls → pop q ≡ some (l, tail q)
    pop-tail q l ls e = rw e refl

one-looked_at : length (looked_at (rank start.id near.id) (insert start far).0.levels) ≡ 1
unfolding insert find_level find_in_tables find_in_bucket insert_in_levels insert_at
    insert_from_table insert_in_tables bucket_insert insert_from rank bit is_valid_id
one-looked_at = refl

same_id : (insert start far).0.id ≡ start.id
unfolding insert find_level find_in_tables find_in_bucket insert_in_levels insert_at
    insert_from_table insert_in_tables bucket_insert insert_from rank bit is_valid_id
same_id = refl

fits-far :
    length (looked_at (rank (insert start far).0.id near.id) (insert start far).0.levels) ≤ 32
fits-far = rw same_id (omega (arith, one-looked_at))

multiple_closest_nodes-take_example :
    multiple_closest_nodes list_ring (insert start far).0 near.id 8
    ≡ take 8 (
        good_in_levels (insert start far).0 (
          back_onto []
            (looked_at (rank (insert start far).0.id near.id) (insert start far).0.levels)))
multiple_closest_nodes-take_example =
    multiple_closest_nodes-take list_ring list_ring-RingLaws (insert start far).0 near.id 8 fits-far

multiple_closest_nodes-Falling_example :
    Falling
      (closeness (insert start far).0.id near.id)
      (rank (insert start far).0.id near.id)
      (multiple_closest_nodes list_ring (insert start far).0 near.id 8)
multiple_closest_nodes-Falling_example =
    multiple_closest_nodes-Falling list_ring list_ring-RingLaws (insert start far).0 near.id 8
      (insert-IsWellFormed start far start-IsWellFormed) fits-far
