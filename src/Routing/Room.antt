-- ===== src/Routing/Room.antt =====
-- Tables with room for a contact in src/routing_table.cpp: an insertion places it, and a search that
-- finds nothing tells that there is room.
use btdht.Prelude.{
  ℕ, ◌+◌, ◌≡◌, refl, ap, subst, ◌∙◌, inl, inr, ◌⊎◌, Bool, ◌&&◌, Option, none, some, List, [], ◌∷◌,
  arith, Bool-cases, ◌==◌, All,
}
use btdht.Id.{Key, key_eq, is_valid_id}
use btdht.Routing.{Node, is_valid, Table, Routing, new_table}
use btdht.Routing.Insert.{
  Found, Inserted, Placed, find_in_bucket, find_in_tables, or_else, still_full, or_next,
  bucket_insert, insert_in_tables, insert_from_table, keep_table,
}
use btdht.Routing.Bucket.{Bucketed, fills, replaces, full, bucket_insert-Bucketed, Kept}

abbrev pub IsSome {ℓ} : {A : Type ℓ} → Option A → Type ℓ
IsSome {A = A} o = (a : A) × (o ≡ some a)

-- Every place of the tables has a contact that stays.
abbrev pub Crowded : Routing → List Table → Type 0
Crowded s ts = All (λ (t : Table). All (Kept s) t.contacts) ts

abbrev pub Refusal : Routing → List Table → Placed → Type 0
Refusal s ts p = Crowded s ts ⊎ IsSome p.2

or_next-Refusal :
    (s : Routing) (t : Table) (c : Node) (r : Inserted) (ts : List Table) (rest : Placed)
    → Bucketed s t c r
    → Refusal s ts rest
    → Refusal s (t ∷ ts) (or_next r ts rest)
or_next-Refusal s t c r ts rest (fills pre old cs e empty first) h = inr (_, refl)
or_next-Refusal s t c r ts rest (replaces pre old cs e v goes first) h = inr (_, refl)
or_next-Refusal s t c r ts (s', ts', p) (full kept) (inl crowded) = inl (kept, crowded)
or_next-Refusal s t c r ts (s', ts', p) (full kept) (inr placed) = inr placed

pub insert_in_tables-Refusal :
    (s : Routing) (ts : List Table) (c : Node) → Refusal s ts (insert_in_tables s ts c)
unfolding insert_in_tables
insert_in_tables-Refusal s [] c = inl tt
insert_in_tables-Refusal s (t ∷ ts) c =
    or_next-Refusal s t c (bucket_insert s t c) ts (insert_in_tables s ts c)
      (bucket_insert-Bucketed s t c) (insert_in_tables-Refusal s ts c)

-- Crowded tables stay full for a search that finds nothing.
find_in_bucket-full :
    (s : Routing) (a i : ℕ) (cs : List Node) (id : Key) (f : Bool)
    → All (Kept s) cs
    → (find_in_bucket s a i cs id f).1 ≡ f
unfolding find_in_bucket
find_in_bucket-full s a i [] id f h = refl
find_in_bucket-full s a i (c ∷ cs) id f h =
    let same : still_full s c f ≡ f = ground (arith, h.0.0, h.0.1) in
    let more = find_in_bucket-full s a (i + 1) cs id (still_full s c f) h.1 in
    elim (Bool-cases (is_valid c && key_eq c.id id)) [
      | inl here ↦ rw here same
      | inr other ↦ rw other (more ∙ same)
    ]

or_else-full :
    (x : Found) (k : Bool → Found) (f : Bool)
    → x.1 ≡ f
    → ((g : Bool) → (k g).1 ≡ g)
    → (or_else x k).1 ≡ f
or_else-full (some y, g) k f e h = e
or_else-full (none, g) k f e h = h g ∙ e

pub find_in_tables-full :
    (s : Routing) (ts : List Table) (id : Key) (f : Bool)
    → Crowded s ts
    → (find_in_tables s ts id f).1 ≡ f
unfolding find_in_tables
find_in_tables-full s [] id f h = refl
find_in_tables-full s (t ∷ ts) id f h =
    or_else-full (find_in_bucket s t.address 0 t.contacts id f) (find_in_tables s ts id) f
      (find_in_bucket-full s t.address 0 t.contacts id f h.0)
      (λ g. find_in_tables-full s ts id g h.1)

-- The table is one of the list.
abbrev pub Has : Table → List Table → Type 0
Has t [] = ⊥
Has t (x ∷ xs) = (x ≡ t) ⊎ Has t xs

new-crowded : (s : Routing) (a : ℕ) → All (Kept s) (new_table a).contacts → ⊥
unfolding is_valid_id
new-crowded s a h = ground (arith, h.0.0)

Has-Crowded : (s : Routing) (a : ℕ) (ts : List Table) → Has (new_table a) ts → Crowded s ts → ⊥
Has-Crowded s a [] h k = h
Has-Crowded s a (t ∷ ts) (inl e) k =
    new-crowded s a (subst (λ (t : Table). All (Kept s) t.contacts) e k.0)
Has-Crowded s a (t ∷ ts) (inr h) k = Has-Crowded s a ts h k.1

keep_table-IsSome : (t : Table) (p : Placed) → IsSome p.2 → IsSome (keep_table t p).2
keep_table-IsSome t (s, ts, o) h = h

pub insert_from_table-IsSome :
    (s : Routing) (a : ℕ) (ts : List Table) (c : Node)
    → Has (new_table a) ts
    → IsSome (insert_from_table s a ts c).2
unfolding insert_from_table
insert_from_table-IsSome s a [] c h = absurd h
insert_from_table-IsSome s a (t ∷ ts) c h = elim (Bool-cases (t.address == a)) [
  | inl here ↦ rw here (elim (insert_in_tables-Refusal s (t ∷ ts) c) [
    | inl crowded ↦ absurd (Has-Crowded s a (t ∷ ts) h crowded)
    | inr placed ↦ placed
  ])
  | inr later ↦ rw later (
      keep_table-IsSome t (insert_from_table s a ts c) (elim h [
        | inl e ↦
            let at : t.address ≡ a = ap (λ (t : Table). t.address) e in ground (arith, at, later)
        | inr h' ↦ insert_from_table-IsSome s a ts c h'
      ]))
]
