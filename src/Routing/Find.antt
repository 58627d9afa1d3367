-- ===== src/Routing/Find.antt =====
-- `find_node` after `insert` of src/routing_table.cpp.
use btdht.Prelude.{
  ℕ, ◌+◌, ◌≡◌, refl, ap, subst, ◌∙◌, inl, inr, Bool, true, false, ◌&&◌, Option, none, some, List,
  [], ◌∷◌, ◌++◌, arith, Bool-cases, ◌==◌, length, All,
}
use btdht.Prelude.Bytes.{bytes_eq_refl}
use btdht.Id.{Key, key_eq}
use btdht.Routing.{Node, is_valid, Address, Table, Level, Routing}
use btdht.Routing.Insert.{
  Found, Inserted, Placed, PlacedLevels, find_in_bucket, find_in_tables, find_at, find_level,
  or_else, or_next, still_full, bucket_insert, insert_in_tables, insert_from_table,
  insert_in_levels, keep_table, keep_level, with_level,
}
use btdht.Routing.Bucket.{Bucketed, fills, replaces, full, bucket_insert-Bucketed}

-- The contact does not have the id.
abbrev pub Other : Key → Node → Type 0
Other id c = (is_valid c && key_eq c.id id) ≡ false

abbrev pub Absent : Key → List Table → Type 0
Absent id ts = All (λ (t : Table). All (Other id) t.contacts) ts

find_in_bucket-none :
    (s : Routing) (a i : ℕ) (cs : List Node) (id : Key) (f : Bool)
    → (find_in_bucket s a i cs id f).0 ≡ none
    → All (Other id) cs
unfolding find_in_bucket
find_in_bucket-none s a i [] id f e = tt
find_in_bucket-none s a i (c ∷ cs) id f e = elim (Bool-cases (is_valid c && key_eq c.id id)) [
  | inl here ↦ ground (arith, e, here)
  | inr other ↦
      (other, find_in_bucket-none s a (i + 1) cs id (still_full s c f) (ground (arith, e, other)))
]

-- The first place with the id is found.
find_in_bucket-middle :
    (s : Routing) (a i : ℕ) (pre : List Node) (c : Node) (rest : List Node) (id : Key) (f : Bool)
    → All (Other id) pre
    → (is_valid c && key_eq c.id id) ≡ true
    → (find_in_bucket s a i (pre ++ c ∷ rest) id f).0 ≡ some ((a, i + length pre), c)
unfolding find_in_bucket
find_in_bucket-middle s a i [] c rest id f h here = ground (arith, here)
find_in_bucket-middle s a i (x ∷ pre) c rest id f h here =
    ground (arith, h.0, find_in_bucket-middle s a (i + 1) pre c rest id (still_full s x f) h.1 here)

find_in_bucket-absent :
    (s : Routing) (a i : ℕ) (cs : List Node) (id : Key) (f : Bool)
    → All (Other id) cs
    → (find_in_bucket s a i cs id f).0 ≡ none
unfolding find_in_bucket
find_in_bucket-absent s a i [] id f h = refl
find_in_bucket-absent s a i (c ∷ cs) id f h =
    ground (arith, h.0, find_in_bucket-absent s a (i + 1) cs id (still_full s c f) h.1)

or_else-none :
    (x : Found) (k : Bool → Found) → (or_else x k).0 ≡ none → (x.0 ≡ none) × ((k x.1).0 ≡ none)
or_else-none (none, f) k e = (refl, e)
or_else-none (some y, f) k e = ground (arith, e)

or_else-some :
    (x : Found) (k : Bool → Found) (y : Address × Node) → x.0 ≡ some y → (or_else x k).0 ≡ some y
or_else-some (none, f) k y e = ground (arith, e)
or_else-some (some z, f) k y e = e

or_else-skip :
    (x : Found) (k : Bool → Found) (y : Option (Address × Node))
    → x.0 ≡ none
    → ((f : Bool) → (k f).0 ≡ y)
    → (or_else x k).0 ≡ y
or_else-skip (none, f) k y e h = h f
or_else-skip (some z, f) k y e h = ground (arith, e)

pub find_in_tables-none :
    (s : Routing) (ts : List Table) (id : Key) (f : Bool)
    → (find_in_tables s ts id f).0 ≡ none
    → Absent id ts
unfolding find_in_tables
find_in_tables-none s [] id f e = tt
find_in_tables-none s (t ∷ ts) id f e =
    let parts =
      or_else-none (find_in_bucket s t.address 0 t.contacts id f) (find_in_tables s ts id) e in
    (
      find_in_bucket-none s t.address 0 t.contacts id f parts.0,
      find_in_tables-none s ts id (find_in_bucket s t.address 0 t.contacts id f).1 parts.1,
    )

-- Where a contact was placed, the search for its id finds it.
abbrev pub Finds : Node → Placed → Type 0
Finds c (s, ts, none) = Unit {0}
Finds c (s, ts, some (a, replaced)) =
    (s' : Routing) (f : Bool) → (find_in_tables s' ts c.id f).0 ≡ some (a, c)

All-left {ℓ κ} : {A : Type ℓ} (P : A → Type κ) (xs ys : List A) → All P (xs ++ ys) → All P xs
All-left P [] ys h = tt
All-left P (x ∷ xs) ys h = (h.0, All-left P xs ys h.1)

module _ (c : Node) (valid : is_valid c ≡ true) where
  itself : (is_valid c && key_eq c.id c.id) ≡ true
  itself = ground (arith, valid, bytes_eq_refl c.id)

  find-middle :
      (s : Routing) (t : Table) (ts : List Table) (pre rest : List Node) (f : Bool)
      → t.contacts ≡ pre ++ c ∷ rest
      → All (Other c.id) pre
      → (find_in_tables s (t ∷ ts) c.id f).0 ≡ some ((t.address, length pre), c)
  unfolding find_in_tables
  find-middle s t ts pre rest f e h =
      or_else-some (find_in_bucket s t.address 0 t.contacts c.id f) (find_in_tables s ts c.id) _ (
        ap (λ (cs : List Node). (find_in_bucket s t.address 0 cs c.id f).0) e
        ∙ find_in_bucket-middle s t.address 0 pre c rest c.id f h itself
        ∙ ap (λ (i : ℕ). some ((t.address, i), c)) (omega arith))

  Finds-later :
      (t : Table) (p : Placed) → All (Other c.id) t.contacts → Finds c p → Finds c (keep_table t p)
  unfolding find_in_tables
  Finds-later t (s, ts, none) h k = tt
  Finds-later t (s, ts, some (a, replaced)) h k = λ s' f.
      or_else-skip (find_in_bucket s' t.address 0 t.contacts c.id f) (find_in_tables s' ts c.id) _
        (find_in_bucket-absent s' t.address 0 t.contacts c.id f h) (k s')

  Bucketed-Finds :
      (s : Routing) (t : Table) (r : Inserted) (ts : List Table) (rest : Placed)
      → Bucketed s t c r
      → All (Other c.id) t.contacts
      → Finds c rest
      → Finds c (or_next r ts rest)
  Bucketed-Finds s t r ts rest (fills pre old cs e empty first) h k = λ s' f.
      find-middle s' (record t { contacts = pre ++ c ∷ cs; length = t.length + 1 }) ts pre cs f refl
        (All-left (Other c.id) pre (old ∷ cs) (subst (All (Other c.id)) e h))
  Bucketed-Finds s t r ts rest (replaces pre old cs e v goes first) h k = λ s' f.
      find-middle s' (record t { contacts = pre ++ c ∷ cs }) ts pre cs f refl
        (All-left (Other c.id) pre (old ∷ cs) (subst (All (Other c.id)) e h))
  Bucketed-Finds s t r ts (s2, ts', p) (full good) h k = Finds-later t (s2, ts', p) h k

  insert_in_tables-Finds :
      (s : Routing) (ts : List Table) → Absent c.id ts → Finds c (insert_in_tables s ts c)
  unfolding insert_in_tables
  insert_in_tables-Finds s [] h = tt
  insert_in_tables-Finds s (t ∷ ts) h =
      Bucketed-Finds s t (bucket_insert s t c) ts (insert_in_tables s ts c)
        (bucket_insert-Bucketed s t c) h.0 (insert_in_tables-Finds s ts h.1)

  insert_from_table-Finds :
      (s : Routing) (a : ℕ) (ts : List Table)
      → Absent c.id ts
      → Finds c (insert_from_table s a ts c)
  unfolding insert_from_table
  insert_from_table-Finds s a [] h = tt
  insert_from_table-Finds s a (t ∷ ts) h = elim (Bool-cases (t.address == a)) [
    | inl here ↦ rw here (insert_in_tables-Finds s (t ∷ ts) h)
    | inr later ↦
        rw later
          (Finds-later t (insert_from_table s a ts c) h.0 (insert_from_table-Finds s a ts h.1))
  ]

abbrev pub AbsentAt : Key → Option Level → Type 0
AbsentAt id none = Unit {0}
AbsentAt id (some l) = Absent id l.tables

abbrev pub FindsLevels : Node → ℕ → PlacedLevels → Type 0
FindsLevels c r (s, ls, none) = Unit {0}
FindsLevels c r (s, ls, some (a, replaced)) =
    (s' : Routing) → find_at s' (find_level ls r) c.id ≡ some (a, c)

module _ (c : Node) (valid : is_valid c ≡ true) (r : ℕ) where
  with_level-FindsLevels :
      (depth : ℕ) (ls : List Level) (p : Placed)
      → (depth == r) ≡ true
      → Finds c p
      → FindsLevels c r (with_level depth ls p)
  unfolding find_level
  with_level-FindsLevels depth ls (s, ts, none) at h = tt
  with_level-FindsLevels depth ls (s, ts, some (a, replaced)) at h = λ s'. rw at (h s' true)

  keep_level-FindsLevels :
      (l : Level) (p : PlacedLevels)
      → (l.depth == r) ≡ false
      → FindsLevels c r p
      → FindsLevels c r (keep_level l p)
  unfolding find_level
  keep_level-FindsLevels l (s, ls, none) away h = tt
  keep_level-FindsLevels l (s, ls, some (a, replaced)) away h = λ s'. rw away (h s')

  pub insert_in_levels-FindsLevels :
      (s : Routing) (a : ℕ) (ls : List Level)
      → AbsentAt c.id (find_level ls r)
      → FindsLevels c r (insert_in_levels s r a ls c)
  unfolding insert_in_levels find_level
  insert_in_levels-FindsLevels s a [] h = tt
  insert_in_levels-FindsLevels s a (l ∷ ls) h = elim (Bool-cases (l.depth == r)) [
    | inl here ↦
        let absent : Absent c.id l.tables = rw here at h in
        rw here (
          with_level-FindsLevels l.depth ls (insert_from_table s a l.tables c) here
            (insert_from_table-Finds c valid s a l.tables absent))
    | inr later ↦
        let absent : AbsentAt c.id (find_level ls r) = rw later at h in
        rw later (
          keep_level-FindsLevels l (insert_in_levels s r a ls c) later
            (insert_in_levels-FindsLevels s a ls absent))
  ]
