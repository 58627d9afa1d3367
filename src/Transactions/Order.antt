-- ===== src/Transactions/Order.antt =====
-- Sequences in the order of a number that each element has, as the transactions by the time when
-- they were sent; how many have a number other than 0; and what changing one number does.
use btdht.Prelude.{
  ℕ, ◌+◌, ◌≤◌, ◌≡◌, ◌≢◌, refl, ◌∙◌, ◌==◌, if◌then◌else◌, List, [], ◌∷◌, ◌++◌, length, ne→==_false,
  ==_refl, All, All-append, arith,
}
use btdht.Transactions.Cycle.{All-map2, All-split}

abbrev pub Sorted : (ℕ → ℕ) → List ℕ → Type 0
Sorted s [] = Unit
Sorted s (x ∷ r) = All (λ y. s x ≤ s y) r × Sorted s r

abbrev pub nonzero_at : (ℕ → ℕ) → ℕ → ℕ
nonzero_at s x = if s x == 0 then 0 else 1

abbrev pub count : (ℕ → ℕ) → List ℕ → ℕ
count s [] = 0
count s (x ∷ r) = nonzero_at s x + count s r

pub count-append : (s : ℕ → ℕ) (xs ys : List ℕ) → count s (xs ++ ys) ≡ count s xs + count s ys
count-append s [] ys = omega arith
count-append s (x ∷ xs) ys = omega (arith, count-append s xs ys)

pub count-le : (s : ℕ → ℕ) (xs : List ℕ) → count s xs ≤ length xs
count-le s [] = omega arith
count-le s (x ∷ xs) = let rest = count-le s xs in ground (arith, rest)

pub count-middle :
    (s : ℕ → ℕ) (xs : List ℕ) (t : ℕ) (ys : List ℕ)
    → count s (xs ++ t ∷ ys) ≡ nonzero_at s t + count s (xs ++ ys)
count-middle s xs t ys = omega (arith, count-append s xs (t ∷ ys), count-append s xs ys)

pub Sorted-split : (s : ℕ → ℕ) (xs ys : List ℕ) → Sorted s (xs ++ ys) → Sorted s xs × Sorted s ys
Sorted-split s [] ys h = (tt, h)
Sorted-split s (x ∷ xs) ys h =
    let rest = Sorted-split s xs ys h.1 in
    (((All-split (λ y. s x ≤ s y) xs ys h.0).0, rest.0), rest.1)

-- Without one of its elements a sequence keeps its order.
pub Sorted-without :
    (s : ℕ → ℕ) (xs : List ℕ) (t : ℕ) (ys : List ℕ) → Sorted s (xs ++ t ∷ ys) → Sorted s (xs ++ ys)
Sorted-without s [] t ys h = h.1
Sorted-without s (x ∷ xs) t ys h =
    let parts = All-split (λ y. s x ≤ s y) xs (t ∷ ys) h.0 in
    (All-append (λ y. s x ≤ s y) xs ys parts.0 parts.1.1, Sorted-without s xs t ys h.1)

pub All-without :
    (P : ℕ → Type 0) (xs : List ℕ) (t : ℕ) (ys : List ℕ) → All P (xs ++ t ∷ ys) → All P (xs ++ ys)
All-without P xs t ys h =
    let parts = All-split P xs (t ∷ ys) h in All-append P xs ys parts.0 parts.1.1

pub Sorted-snoc :
    (s : ℕ → ℕ) (xs : List ℕ) (t : ℕ)
    → Sorted s xs
    → All (λ y. s y ≤ s t) xs
    → Sorted s (xs ++ t ∷ [])
Sorted-snoc s [] t h k = (tt, tt)
Sorted-snoc s (x ∷ xs) t h k =
    (All-append (λ y. s x ≤ s y) xs (t ∷ []) h.0 (k.0, tt), Sorted-snoc s xs t h.1 k.1)

-- Zeros in front of a sequence in order.
pub Sorted-zeros :
    (s : ℕ → ℕ) (xs ys : List ℕ) → All (λ x. s x ≡ 0) xs → Sorted s ys → Sorted s (xs ++ ys)
Sorted-zeros s [] ys h k = k
Sorted-zeros s (x ∷ xs) ys h k = (everywhere (xs ++ ys), Sorted-zeros s xs ys h.1 k)
  where
    everywhere : (zs : List ℕ) → All (λ y. s x ≤ s y) zs
    everywhere [] = tt
    everywhere (z ∷ zs) = (omega (arith, h.0), everywhere zs)

-- Two numberings that agree on the sequence.
abbrev pub Agree : (ℕ → ℕ) → (ℕ → ℕ) → List ℕ → Type 0
Agree s q xs = All (λ x. q x ≡ s x) xs

pub Sorted-Agree : (s q : ℕ → ℕ) (xs : List ℕ) → Agree s q xs → Sorted s xs → Sorted q xs
Sorted-Agree s q [] a h = tt
Sorted-Agree s q (x ∷ xs) a h =
    (All-map2 xs (λ y e l. omega (arith, e, l, a.0)) a.1 h.0, Sorted-Agree s q xs a.1 h.1)

pub count-Agree : (s q : ℕ → ℕ) (xs : List ℕ) → Agree s q xs → count q xs ≡ count s xs
count-Agree s q [] a = refl
count-Agree s q (x ∷ xs) a = λ i. (if a.0 i == 0 then 0 else 1) + count-Agree s q xs a.1 i

pub le-Agree :
    (s q : ℕ → ℕ) (n : ℕ) (xs : List ℕ)
    → Agree s q xs
    → All (λ x. s x ≤ n) xs
    → All (λ x. q x ≤ n) xs
le-Agree s q n xs a h = All-map2 xs (λ y e l. omega (arith, e, l)) a h

-- The numbering with another number for `t`, on a sequence without it.
abbrev pub Changed : (ℕ → ℕ) → (ℕ → ℕ) → ℕ → ℕ → Type 0
Changed s q t v = (i : ℕ) → q i ≡ (if i == t then v else s i)

pub Changed-Agree :
    (s q : ℕ → ℕ) (t v : ℕ) → Changed s q t v → (xs : List ℕ) → All (λ x. x ≢ t) xs → Agree s q xs
Changed-Agree s q t v ch [] h = tt
Changed-Agree s q t v ch (x ∷ xs) h =
    (ch x ∙ rw (ne→==_false x t h.0) refl, Changed-Agree s q t v ch xs h.1)

pub Changed-at : (s q : ℕ → ℕ) (t v : ℕ) → Changed s q t v → q t ≡ v
Changed-at s q t v ch = ch t ∙ rw (==_refl t) refl
