-- ===== src/Routing/Closest/Order.antt =====
-- The order in which `multiple_closest_nodes` of src/routing_table.cpp gives its contacts.
use Prim.Native.Nat.{min}
use btdht.Prelude.{
  ℕ, zero, suc, ◌+◌, ◌≤◌, ◌≡◌, sym, subst, inl, inr, true, ◌&&◌, List, [], ◌∷◌, ◌++◌, arith,
  Bool-cases, ltb, length, take, All, All-append,
}
use btdht.Id.{Key, rank}
use btdht.Id.Rank.{rank_ultrametric, rank_comm}
use btdht.Routing.{Node, is_valid, Address, Table, Level, Routing, is_good}
use btdht.Routing.Invariant.{Ranked, TableOk, LevelOk, LevelsOk}
use btdht.Routing.Valid.{IsWellFormed}
use btdht.Routing.Closest.{Ring, RingLaws, multiple_closest_nodes}
use btdht.Routing.Closest.First.{
  good_in_bucket, good_in_tables, good_in_levels, looked_at, back_onto, multiple_closest_nodes-take,
}

-- How many leading bits a contact's id shares with `search`, as far as the table's own id does.
abbrev pub closeness : Key → Key → Address × Node → ℕ
closeness own search (a, c) = min (rank search c.id) (rank own search)

-- The values of `f` do not rise along the list, and the first is at most `bound`.
abbrev pub Falling {ℓ} : {A : Type ℓ} → (A → ℕ) → ℕ → List A → Type 0
Falling f bound [] = Unit {0}
Falling f bound (x ∷ xs) = (f x ≤ bound) × Falling f (f x) xs

Falling-mono {ℓ} :
    {A : Type ℓ} (f : A → ℕ) (b b' : ℕ) (xs : List A) → b ≤ b' → Falling f b xs → Falling f b' xs
Falling-mono f b b' [] le h = tt
Falling-mono f b b' (x ∷ xs) le h = (omega (arith, h.0), h.1)

Falling-take {ℓ} :
    {A : Type ℓ} (f : A → ℕ) (b n : ℕ) (xs : List A) → Falling f b xs → Falling f b (take n xs)
Falling-take f b zero xs h = tt
Falling-take f b (suc n) [] h = tt
Falling-take f b (suc n) (x ∷ xs) h = (h.0, Falling-take f (f x) n xs h.1)

-- Elements of one value in front.
Falling-append {ℓ} :
    {A : Type ℓ} (f : A → ℕ) (k b : ℕ) (xs ys : List A)
    → All (λ x. f x ≡ k) xs
    → k ≤ b
    → Falling f k ys
    → Falling f b (xs ++ ys)
Falling-append f k b [] ys h le rest = Falling-mono f k b ys le rest
Falling-append f k b (x ∷ xs) ys h le rest =
    (omega (arith, h.0), Falling-append f k (f x) xs ys h.1 (omega (arith, h.0)) rest)

-- A contact of rank `d` against the table's own id.
closeness-rank :
    (own search : Key) (a : Address) (c : Node) (d : ℕ)
    → rank own c.id ≡ d
    → closeness own search (a, c) ≡ min d (rank own search)
closeness-rank own search a c d at = omega (
  arith,
  at,
  rank_ultrametric search own c.id,
  rank_ultrametric own search c.id,
  rank_comm own search,
)

module _ (s : Routing) (search : Key) where
  good_in_bucket-closeness :
      (d a i : ℕ) (cs : List Node)
      → All (Ranked s.id d) cs
      → All (λ x. closeness s.id search x ≡ min d (rank s.id search)) (good_in_bucket s a i cs)
  good_in_bucket-closeness d a i [] h = tt
  good_in_bucket-closeness d a i (c ∷ cs) h = elim (Bool-cases (is_valid c && is_good s c)) [
    | inl hit ↦
        let valid : is_valid c ≡ true = ground (arith, hit) in
        rw hit (
          closeness-rank s.id search (a, i) c d (h.0 valid),
          good_in_bucket-closeness d a (i + 1) cs h.1,
        )
    | inr miss ↦ rw miss (good_in_bucket-closeness d a (i + 1) cs h.1)
  ]

  good_in_tables-closeness :
      (d : ℕ) (ts : List Table)
      → All (TableOk s.id d) ts
      → All (λ x. closeness s.id search x ≡ min d (rank s.id search)) (good_in_tables s ts)
  good_in_tables-closeness d [] h = tt
  good_in_tables-closeness d (t ∷ ts) h =
      All-append _ (good_in_bucket s t.address 0 t.contacts) (good_in_tables s ts)
        (good_in_bucket-closeness d t.address 0 t.contacts h.0.ranked)
        (good_in_tables-closeness d ts h.1)

  -- A level in front of shallower ones.
  level-Falling :
      (l : Level) (done : List Level)
      → LevelOk s.id l
      → Falling (closeness s.id search) (min l.depth (rank s.id search)) (good_in_levels s done)
      → Falling
          (closeness s.id search)
          (min l.depth (rank s.id search))
          (good_in_levels s (l ∷ done))
  level-Falling l done ok h =
      Falling-append (closeness s.id search) _ _ (good_in_tables s l.tables) (good_in_levels s done)
        (good_in_tables-closeness l.depth l.tables ok.tables) (omega arith) h

  back_onto-Falling :
      (low : ℕ) (done ls : List Level)
      → LevelsOk s.id low ls
      → Falling (closeness s.id search) (min low (rank s.id search)) (good_in_levels s done)
      → Falling
          (closeness s.id search)
          (rank s.id search)
          (good_in_levels s (back_onto done (looked_at (rank s.id search) ls)))
  back_onto-Falling low done [] ok h = Falling-mono _ _ _ (good_in_levels s done) (omega arith) h
  back_onto-Falling low done (l ∷ ls) ok h =
      let before =
        Falling-mono (closeness s.id search) _ (min l.depth (rank s.id search))
          (good_in_levels s done) (omega (arith, ok.rising.0)) h in
      let with_l = level-Falling l done ok.levels.0 before in
      elim (Bool-cases (ltb l.depth (rank s.id search))) [
        | inl shallow ↦ rw shallow (
            back_onto-Falling (suc l.depth) (l ∷ done) ls
              (record { levels = ok.levels.1; rising = ok.rising.1 })
              (Falling-mono _ _ _ (good_in_levels s (l ∷ done)) (omega arith) with_l))
        | inr deep ↦ rw deep (Falling-mono _ _ _ (good_in_levels s (l ∷ done)) (omega arith) with_l)
      ]

-- In a well-formed table, where a search looks at no more than thirty-two levels,
-- `multiple_closest_nodes` gives its contacts in order: the number of leading bits of the id shared
-- with `search` does not rise from one to the next, counted up to the number that the table's own
-- id shares with it.
pub multiple_closest_nodes-Falling :
    (ring : Ring) (laws : RingLaws ring) (s : Routing) (search : Key) (n : ℕ)
    → IsWellFormed s
    → length (looked_at (rank s.id search) s.levels) ≤ 32
    → Falling (closeness s.id search) (rank s.id search) (multiple_closest_nodes ring s search n)
multiple_closest_nodes-Falling ring laws s search n ok fits =
    subst (Falling (closeness s.id search) (rank s.id search))
      (sym (multiple_closest_nodes-take ring laws s search n fits))
      (Falling-take _ _ n _ (back_onto-Falling s search 0 [] s.levels ok tt))
