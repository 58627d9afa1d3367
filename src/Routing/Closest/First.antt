-- ===== src/Routing/Closest/First.antt =====
-- What `multiple_closest_nodes` of src/routing_table.cpp selects.
use btdht.Prelude.{
  ℕ, zero, suc, ◌+◌, ◌-◌, ◌≤◌, ◌≡◌, refl, sym, ap, ◌∙◌, inl, inr, ◌&&◌, List, [], ◌∷◌, ◌++◌, ==_iff,
  arith, Bool-cases, ltb, lt→ltb, ◌==◌, if◌then◌else◌, length, take,
}
use btdht.Id.{Key, rank}
use btdht.Routing.{Node, is_valid, Address, Table, Level, Routing, is_good}
use btdht.Routing.Closest.{
  Ring, RingLaws, fill, drain, merge_bucket, merge, merge_all, multiple_closest_nodes,
}

-- The good contacts of a bucket, of a level's tables, and of levels, with their addresses.
abbrev pub good_in_bucket : Routing → ℕ → ℕ → List Node → List (Address × Node)
good_in_bucket s a i [] = []
good_in_bucket s a i (c ∷ cs) =
    let rest = good_in_bucket s a (i + 1) cs in
    if is_valid c && is_good s c then ((a, i), c) ∷ rest else rest

abbrev pub good_in_tables : Routing → List Table → List (Address × Node)
good_in_tables s [] = []
good_in_tables s (t ∷ ts) = good_in_bucket s t.address 0 t.contacts ++ good_in_tables s ts

abbrev pub good_in_levels : Routing → List Level → List (Address × Node)
good_in_levels s [] = []
good_in_levels s (l ∷ ls) = good_in_tables s l.tables ++ good_in_levels s ls

-- The levels that a search of rank `max` looks at, from `root` on, and these in front of `done`
-- with the last first.
abbrev pub looked_at : ℕ → List Level → List Level
looked_at max [] = []
looked_at max (l ∷ ls) = if ltb l.depth max then l ∷ looked_at max ls else l ∷ []

abbrev pub back_onto : List Level → List Level → List Level
back_onto done [] = done
back_onto done (l ∷ ls) = back_onto (l ∷ done) ls

take-nil {ℓ} : {A : Type ℓ} (n : ℕ) → take {A = A} n [] ≡ []
take-nil zero = refl
take-nil (suc n) = refl

take-all {ℓ} :
    {A : Type ℓ} (n : ℕ) (xs ys : List A) → length (take n xs) ≡ n → take n (xs ++ ys) ≡ take n xs
take-all zero xs ys e = refl
take-all (suc n) [] ys e = ground (arith, e)
take-all (suc n) (x ∷ xs) ys e = ap (◌∷◌ x) (take-all n xs ys (omega (arith, e)))

take-append {ℓ} :
    {A : Type ℓ} (n : ℕ) (xs ys : List A)
    → take n (xs ++ ys) ≡ take n xs ++ take (n - length (take n xs)) ys
take-append n [] ys = let all : n - 0 ≡ n = omega arith in rw (take-nil {A = _} n, all) refl
take-append zero (x ∷ xs) ys = refl
take-append (suc n) (x ∷ xs) ys =
    ap (◌∷◌ x) (take-append n xs ys ∙ ap (λ (k : ℕ). take n xs ++ take k ys) (omega arith))

merge_bucket-take :
    (s : Routing) (n a i : ℕ) (cs : List Node)
    → merge_bucket s n a i cs ≡ take n (good_in_bucket s a i cs)
unfolding merge_bucket
merge_bucket-take s n a i [] = sym (take-nil n)
merge_bucket-take s zero a i (c ∷ cs) = refl
merge_bucket-take s (suc n) a i (c ∷ cs) =
    let room = lt→ltb 0 (suc n) (omega arith) in
    elim (Bool-cases (is_valid c && is_good s c)) [
      | inl hit ↦
          rw (room, hit)
            (ap (◌∷◌ ((a, i), c)) (
              ap (λ (k : ℕ). merge_bucket s k a (i + 1) cs) (omega arith)
              ∙ merge_bucket-take s n a (i + 1) cs))
      | inr miss ↦ rw (room, miss) (merge_bucket-take s (suc n) a (i + 1) cs)
    ]

merge-take : (s : Routing) (n : ℕ) (ts : List Table) → merge s n ts ≡ take n (good_in_tables s ts)
unfolding merge
merge-take s n [] = sym (take-nil n)
merge-take s n (t ∷ ts) =
    let good = good_in_bucket s t.address 0 t.contacts in
    rw (merge_bucket-take s n t.address 0 t.contacts) (
      ap (λ (xs : List (Address × Node)). take n good ++ xs)
        (merge-take s (n - length (take n good)) ts)
      ∙ sym (take-append n good (good_in_tables s ts)))

merge_all-take :
    (s : Routing) (n : ℕ) (ls : List Level) → merge_all s n ls ≡ take n (good_in_levels s ls)
unfolding merge_all
merge_all-take s n [] = sym (take-nil n)
merge_all-take s n (l ∷ ls) =
    let good = good_in_tables s l.tables in
    elim (Bool-cases (length (take n good) == n)) [
      | inl filled ↦
          rw (merge-take s n l.tables, filled)
            (sym
              (take-all n good (good_in_levels s ls) ((==_iff (length (take n good)) n).0 filled)))
      | inr more ↦
          rw (merge-take s n l.tables, more)
            (ap (λ (xs : List (Address × Node)). take n good ++ xs)
                (merge_all-take s (n - length (take n good)) ls)
              ∙ sym (take-append n good (good_in_levels s ls)))
    ]

module _ (ring : Ring) (laws : RingLaws ring) where
  content-fill :
      (q : ring.Buffer) (max : ℕ) (ls : List Level)
      → length (laws.content q) + length (looked_at max ls) ≤ 32
      → laws.content (fill ring q max ls) ≡ back_onto (laws.content q) (looked_at max ls)
  unfolding fill
  content-fill q max [] room = refl
  content-fill q max (l ∷ ls) room = elim (Bool-cases (ltb l.depth max)) [
    | inl shallow ↦
        let fits : length (laws.content q) + suc (length (looked_at max ls)) ≤ 32 =
          rw shallow at room in
        let pushed = laws.content-push_back q l (omega (arith, fits)) in
        rw shallow (
          content-fill (ring.push_back q l) max ls
            (omega (arith, fits, ap (λ (xs : List Level). length xs) pushed))
          ∙ ap (λ (xs : List Level). back_onto xs (looked_at max ls)) pushed)
    | inr deep ↦
        let fits : length (laws.content q) + 1 ≤ 32 = rw deep at room in
        rw deep (laws.content-push_back q l (omega (arith, fits)))
  ]

  drain-content :
      (n : ℕ) (q : ring.Buffer) (ls : List Level)
      → laws.content q ≡ ls
      → length ls ≤ n
      → drain ring n q ≡ ls
  unfolding drain
  drain-content zero q [] e fits = refl
  drain-content zero q (l ∷ ls) e fits = ground (arith, fits)
  drain-content (suc n) q [] e fits = rw (laws.is_empty-nil q e) refl
  drain-content (suc n) q (l ∷ ls) e fits =
      rw (laws.is_empty-cons q l ls e, laws.pop_back-cons q l ls e)
        (ap (◌∷◌ l)
          (drain-content n (laws.rest q) ls (laws.content-rest q l ls e) (omega (arith, fits))))

length-back_onto : (done ls : List Level) → length (back_onto done ls) ≡ length done + length ls
length-back_onto done [] = omega arith
length-back_onto done (l ∷ ls) = omega (arith, length-back_onto (l ∷ done) ls)

-- If a search looks at no more than thirty-two levels, `multiple_closest_nodes` gives the first `n`
-- of the good contacts of these levels, from the last level looked at back to the root; if there
-- are fewer, all of them.
pub multiple_closest_nodes-take :
    (ring : Ring) (laws : RingLaws ring) (s : Routing) (search : Key) (n : ℕ)
    → length (looked_at (rank s.id search) s.levels) ≤ 32
    → multiple_closest_nodes ring s search n
      ≡ take n (good_in_levels s (back_onto [] (looked_at (rank s.id search) s.levels)))
unfolding multiple_closest_nodes
multiple_closest_nodes-take ring laws s search n fits =
    let levels = looked_at (rank s.id search) s.levels in
    let none_yet = laws.content-fresh in
    let filled : laws.content (fill ring ring.fresh (rank s.id search) s.levels)
        ≡ back_onto [] levels =
      content-fill ring laws ring.fresh (rank s.id search) s.levels
        (omega (arith, fits, ap (λ (xs : List Level). length xs) none_yet))
      ∙ ap (λ (xs : List Level). back_onto xs levels) none_yet in
    ap (merge_all s n) (
      drain-content ring laws 32 _ (back_onto [] levels) filled
        (omega (arith, fits, length-back_onto [] levels)))
    ∙ merge_all-take s n (back_onto [] levels)
