-- ===== src/Routing/Bucket.antt =====
-- `bucket_insert` of src/routing_table.cpp: what it finds and what it writes.
use btdht.Prelude.{
  ℕ, ◌+◌, ◌≡◌, refl, sym, ap, subst, ◌∙◌, inl, inr, true, false, none, some, List, [], ◌∷◌, ◌++◌,
  append_assoc, append-nil, arith, Bool-cases, if◌then◌else◌, length, length-append, set, All,
}
use btdht.Id.{is_valid_id}
use btdht.Routing.{Node, is_valid, Table, Routing, unlink_reset, new_table}
use btdht.Routing.Insert.{Inserted, replaceable, insert_from, bucket_insert}

-- The contact stays: it is there, it is good, and it is not read only.
abbrev pub Kept : Routing → Node → Type 0
Kept s old = (is_valid old ≡ true) × (replaceable s old ≡ false)

-- The first contact that may go is `old`: an empty place is filled, and a contact that is not good
-- or read only is replaced. Else every place has a good contact, and nothing is written.
pub data Bucketed (s : Routing) (t : Table) (c : Node) : Inserted → Type 0 where
  fills :
      (pre : List Node) (old : Node) (rest : List Node)
      → t.contacts ≡ pre ++ old ∷ rest
      → is_valid old ≡ false
      → All (Kept s) pre
      → Bucketed s t c (
        s,
        record t { contacts = pre ++ c ∷ rest; length = t.length + 1 },
        some (length pre, false),
      )
  replaces :
      (pre : List Node) (old : Node) (rest : List Node)
      → t.contacts ≡ pre ++ old ∷ rest
      → is_valid old ≡ true
      → replaceable s old ≡ true
      → All (Kept s) pre
      → Bucketed s t c (
        (unlink_reset s (t.address, length pre) old).0,
        record t { contacts = pre ++ c ∷ rest },
        some (length pre, true),
      )
  full : All (Kept s) t.contacts → Bucketed s t c (s, t, none)

set-middle {ℓ} :
    {A : Type ℓ} (pre : List A) (x y : A) (rest : List A)
    → set (pre ++ x ∷ rest) (length pre) y ≡ pre ++ y ∷ rest
set-middle [] x y rest = refl
set-middle (p ∷ pre) x y rest = ap (◌∷◌ p) (set-middle pre x y rest)

All-snoc {ℓ κ} :
    {A : Type ℓ} (P : A → Type κ) (xs : List A) (x : A) → All P xs → P x → All P (xs ++ x ∷ [])
All-snoc P [] x h p = (p, tt)
All-snoc P (y ∷ xs) x h p = (h.0, All-snoc P xs x h.1 p)

insert_from-Bucketed :
    (s : Routing) (t : Table) (pre rest : List Node) (c : Node)
    → t.contacts ≡ pre ++ rest
    → All (Kept s) pre
    → Bucketed s t c (insert_from s t (length pre) rest c)
unfolding insert_from
insert_from-Bucketed s t pre [] c e h = full (subst (All (Kept s)) (sym (e ∙ append-nil pre)) h)
insert_from-Bucketed s t pre (old ∷ rest) c e h =
    let written : set t.contacts (length pre) c ≡ pre ++ c ∷ rest =
      ap (λ (cs : List Node). set cs (length pre) c) e ∙ set-middle pre old c rest in
    elim (Bool-cases (is_valid old)) [
      | inl valid ↦ elim (Bool-cases (replaceable s old)) [
        | inl goes ↦ rw (valid, goes, written) (replaces pre old rest e valid goes h)
        | inr stays ↦
            rw (valid, stays)
              (subst (λ (i : ℕ). Bucketed s t c (insert_from s t i rest c)) next
                (insert_from-Bucketed s t (pre ++ old ∷ []) rest c
                  (e ∙ sym (append_assoc pre (old ∷ []) rest))
                  (All-snoc (Kept s) pre old h (valid, stays))))
      ]
      | inr empty ↦ rw (empty, written) (fills pre old rest e empty h)
    ]
  where
    next : length (pre ++ old ∷ []) ≡ length pre + 1
    next = omega (arith, length-append pre (old ∷ []))

-- Insertion into a bucket fills the first place that may go, if it is empty, or replaces its
-- contact, if that is not good or read only; if every place has a good contact that is not read
-- only, nothing changes.
pub bucket_insert-Bucketed :
    (s : Routing) (t : Table) (c : Node) → Bucketed s t c (bucket_insert s t c)
unfolding bucket_insert
bucket_insert-Bucketed s t c = insert_from-Bucketed s t [] t.contacts c refl tt

-- How many contacts of the bucket are there, as `debug_bucket_count` counts them.
abbrev pub count : List Node → ℕ
count [] = 0
count (c ∷ cs) = (if is_valid c then 1 else 0) + count cs

pub count-append : (xs ys : List Node) → count (xs ++ ys) ≡ count xs + count ys
count-append [] ys = omega arith
count-append (x ∷ xs) ys = omega (arith, count-append xs ys)

pub count-middle :
    (pre : List Node) (x : Node) (rest : List Node)
    → count (pre ++ x ∷ rest) ≡ count pre + (if is_valid x then 1 else 0) + count rest
count-middle pre x rest = omega (arith, count-append pre (x ∷ rest))

-- A new table has thirty-two places and no contact.
pub count-new : (a : ℕ) → count (new_table a).contacts ≡ 0
unfolding is_valid_id
count-new a = refl
