-- ===== src/Routing/Invariant.antt =====
-- What `debug_assert_all`, `debug_correct_level` and `debug_for_each` of src/routing_table.cpp
-- assert of the table: the well-formedness of its levels.
use btdht.Prelude.{
  ℕ, zero, suc, ◌+◌, ◌≤◌, ◌<◌, ◌≡◌, refl, sym, ap, subst, ◌∙◌, inl, inr, true, none, some, List, [],
  ◌∷◌, ◌++◌, arith, Bool-cases, ltb, ltb→lt, ◌==◌, ==_iff, if◌then◌else◌, length, replicate, All,
}
use btdht.Id.{Key, is_valid_id, rank}
use btdht.Routing.{Node, is_valid, blank_node, Table, Level, Routing, new_table}
use btdht.Routing.Insert.{
  Inserted, Placed, bucket_insert, insert_in_tables, or_next, insert_from_table, insert_in_levels,
  link, add_parallel,
}
use btdht.Routing.Bucket.{
  Bucketed, fills, replaces, full, bucket_insert-Bucketed, count, count-middle, count-new,
}

abbrev pub Ranked : Key → ℕ → Node → Type 0
Ranked id depth c = is_valid c ≡ true → rank id c.id ≡ depth

-- The table's length counts its contacts, and each stands at the level of its rank.
pub record TableOk (id : Key) (depth : ℕ) (t : Table) : Type 0 where
  pub size : length t.contacts ≡ 32
  pub counted : t.length ≡ count t.contacts
  pub ranked : All (Ranked id depth) t.contacts

pub record LevelOk (id : Key) (l : Level) : Type 0 where
  pub some_table : 0 < length l.tables
  pub tables : All (TableOk id l.depth) l.tables

-- The depths rise from level to level, and the first is at least `low`.
abbrev pub Rising : ℕ → List Level → Type 0
Rising low [] = Unit {0}
Rising low (l ∷ ls) = (low ≤ l.depth) × Rising (suc l.depth) ls

pub record LevelsOk (id : Key) (low : ℕ) (ls : List Level) : Type 0 where
  pub levels : All (LevelOk id) ls
  pub rising : Rising low ls

All-middle {ℓ κ} :
    {A : Type ℓ} (P : A → Type κ) (pre : List A) (x y : A) (rest : List A)
    → All P (pre ++ x ∷ rest)
    → P y
    → All P (pre ++ y ∷ rest)
All-middle P [] x y rest h p = (p, h.1)
All-middle P (q ∷ pre) x y rest h p = (h.0, All-middle P pre x y rest h.1 p)

length-middle {ℓ} :
    {A : Type ℓ} (pre : List A) (x y : A) (rest : List A)
    → length (pre ++ x ∷ rest) ≡ length (pre ++ y ∷ rest)
length-middle [] x y rest = refl
length-middle (q ∷ pre) x y rest = ap suc (length-middle pre x y rest)

-- The table that is left has the same address.
Bucketed-TableOk :
    (s : Routing) (id : Key) (depth : ℕ) (t : Table) (c : Node) (r : Inserted)
    → TableOk id depth t
    → is_valid c ≡ true
    → rank id c.id ≡ depth
    → Bucketed s t c r
    → TableOk id depth r.1
Bucketed-TableOk s id depth t c r ok valid rk (fills pre old rest e empty first) = record {
  size = sym (length-middle pre old c rest) ∙ ap (λ (cs : List Node). length cs) (sym e) ∙ ok.size;
  counted =
      let before : count t.contacts ≡ count pre + (if is_valid old then 1 else 0) + count rest =
        ap (λ (cs : List Node). count cs) e ∙ count-middle pre old rest in
      ground (arith, before, count-middle pre c rest, ok.counted);
  ranked =
      All-middle (Ranked id depth) pre old c rest (subst (All (Ranked id depth)) e ok.ranked)
        (λ _. rk);
}
Bucketed-TableOk s id depth t c r ok valid rk (replaces pre old rest e v goes first) = record {
  size = sym (length-middle pre old c rest) ∙ ap (λ (cs : List Node). length cs) (sym e) ∙ ok.size;
  counted =
      let before : count t.contacts ≡ count pre + (if is_valid old then 1 else 0) + count rest =
        ap (λ (cs : List Node). count cs) e ∙ count-middle pre old rest in
      ground (arith, before, count-middle pre c rest, ok.counted);
  ranked =
      All-middle (Ranked id depth) pre old c rest (subst (All (Ranked id depth)) e ok.ranked)
        (λ _. rk);
}
Bucketed-TableOk s id depth t c r ok valid rk (full h) = ok

-- Insertion keeps well-formed tables well formed, and there are as many.
abbrev TablesOk : Key → ℕ → List Table → List Table → Type 0
TablesOk id depth before after = All (TableOk id depth) after × (length after ≡ length before)

or_next-TablesOk :
    (s : Routing) (id : Key) (depth : ℕ) (r : Inserted) (t : Table) (ts : List Table)
    (rest : Placed)
    → TableOk id depth r.1
    → All (TableOk id depth) ts
    → TablesOk id depth ts rest.1
    → TablesOk id depth (t ∷ ts) (or_next r ts rest).1
or_next-TablesOk s id depth (s', t', some (i, replaced)) t ts rest ok oks h = ((ok, oks), refl)
or_next-TablesOk s id depth (s', t', none) t ts (s2, ts', r) ok oks h = ((ok, h.0), ap suc h.1)

module _ (id : Key) (depth : ℕ) (c : Node) (valid : is_valid c ≡ true)
    (rk : rank id c.id ≡ depth) where
  insert_in_tables-TablesOk :
      (s : Routing) (ts : List Table)
      → All (TableOk id depth) ts
      → TablesOk id depth ts (insert_in_tables s ts c).1
  unfolding insert_in_tables
  insert_in_tables-TablesOk s [] h = (tt, refl)
  insert_in_tables-TablesOk s (t ∷ ts) h =
      or_next-TablesOk s id depth (bucket_insert s t c) t ts (insert_in_tables s ts c)
        (Bucketed-TableOk s id depth t c _ h.0 valid rk (bucket_insert-Bucketed s t c)) h.1
        (insert_in_tables-TablesOk s ts h.1)

  insert_from_table-TablesOk :
      (s : Routing) (a : ℕ) (ts : List Table)
      → All (TableOk id depth) ts
      → TablesOk id depth ts (insert_from_table s a ts c).1
  unfolding insert_from_table
  insert_from_table-TablesOk s a [] h = (tt, refl)
  insert_from_table-TablesOk s a (t ∷ ts) h = elim (Bool-cases (t.address == a)) [
    | inl here ↦ rw here (insert_in_tables-TablesOk s (t ∷ ts) h)
    | inr later ↦
        let rest = insert_from_table-TablesOk s a ts h.1 in rw later ((h.0, rest.0), ap suc rest.1)
  ]

pub Rising-mono : (low low' : ℕ) (ls : List Level) → low' ≤ low → Rising low ls → Rising low' ls
Rising-mono low low' [] le h = tt
Rising-mono low low' (l ∷ ls) le h = (omega arith, h.1)

pub insert_in_levels-LevelsOk :
    (s : Routing) (id : Key) (low r a : ℕ) (ls : List Level) (c : Node)
    → is_valid c ≡ true
    → rank id c.id ≡ r
    → LevelsOk id low ls
    → LevelsOk id low (insert_in_levels s r a ls c).1
unfolding insert_in_levels
insert_in_levels-LevelsOk s id low r a [] c valid rk h = h
insert_in_levels-LevelsOk s id low r a (l ∷ ls) c valid rk h = elim (Bool-cases (l.depth == r)) [
  | inl here ↦
      let at : l.depth ≡ r = (==_iff l.depth r).0 here in
      let placed =
        insert_from_table-TablesOk id l.depth c valid (rk ∙ sym at) s a l.tables
          h.levels.0.tables in
      rw here (record {
        levels = (
          record { some_table = omega (arith, placed.1, h.levels.0.some_table); tables = placed.0 },
          h.levels.1,
        );
        rising = h.rising;
      })
  | inr later ↦
      let rest =
        insert_in_levels-LevelsOk s id (suc l.depth) r a ls c valid rk
          (record { levels = h.levels.1; rising = h.rising.1 }) in
      rw later (record { levels = (h.levels.0, rest.levels); rising = (h.rising.0, rest.rising) })
]

All-add_parallel :
    (id : Key) (depth : ℕ) (t : Table) (ts : List Table)
    → TableOk id depth t
    → All (TableOk id depth) ts
    → All (TableOk id depth) (add_parallel t ts)
All-add_parallel id depth t [] ok h = (ok, tt)
All-add_parallel id depth t (it ∷ ts) ok h = (h.0, (ok, h.1))

length-add_parallel : (t : Table) (ts : List Table) → 0 < length (add_parallel t ts)
length-add_parallel t [] = omega arith
length-add_parallel t (it ∷ ts) = omega arith

new_level-LevelOk :
    (id : Key) (r : ℕ) (t : Table)
    → TableOk id r t
    → LevelOk id (record { depth = r; tables = t ∷ [] })
new_level-LevelOk id r t ok = record { some_table = omega arith; tables = (ok, tt) }

-- Linking a table keeps the levels in order.
pub link-LevelsOk :
    (id : Key) (low r : ℕ) (t : Table) (ls : List Level)
    → TableOk id r t
    → low ≤ r
    → LevelsOk id low ls
    → LevelsOk id low (link r t ls)
unfolding link
link-LevelsOk id low r t [] ok le h = record {
  levels = (new_level-LevelOk id r t ok, tt);
  rising = (le, tt);
}
link-LevelsOk id low r t (l ∷ ls) ok le h = elim (Bool-cases (r == l.depth)) [
  | inl same ↦
      let at : r ≡ l.depth = (==_iff r l.depth).0 same in
      rw same (record {
        levels = (
          record {
            some_table = length-add_parallel t l.tables;
            tables =
                All-add_parallel id l.depth t l.tables (subst (λ (d : ℕ). TableOk id d t) at ok)
                  h.levels.0.tables;
          },
          h.levels.1,
        );
        rising = h.rising;
      })
  | inr other ↦ elim (Bool-cases (ltb r l.depth)) [
    | inl before ↦
        rw (other, before)
          (record {
            levels = (new_level-LevelOk id r t ok, h.levels);
            rising = (le, (ltb→lt r l.depth before, h.rising.1));
          })
    | inr behind ↦
        let deeper : suc l.depth ≤ r = ground arith in
        let rest =
          link-LevelsOk id (suc l.depth) r t ls ok deeper
            (record { levels = h.levels.1; rising = h.rising.1 }) in
        rw (other, behind)
          (record { levels = (h.levels.0, rest.levels); rising = (h.rising.0, rest.rising) })
  ]
]

pub All-replicate {ℓ κ} :
    {A : Type ℓ} (P : A → Type κ) (n : ℕ) (x : A) → P x → All P (replicate n x)
All-replicate P zero x p = tt
All-replicate P (suc n) x p = (p, All-replicate P n x p)

blank-Ranked : (id : Key) (depth : ℕ) → Ranked id depth blank_node
unfolding is_valid_id
blank-Ranked id depth e = cc e

pub new_table-TableOk : (id : Key) (depth a : ℕ) → TableOk id depth (new_table a)
new_table-TableOk id depth a = record {
  size = refl;
  counted = sym (count-new a);
  ranked = All-replicate (Ranked id depth) 32 blank_node (blank-Ranked id depth);
}
