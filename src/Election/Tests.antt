-- ===== src/Election/Tests.antt =====
-- The theorems on the election at concrete votes, with a filter that is a list of addresses, and an
-- array of sixteen entries.
use btdht.Prelude.{
  ℕ, suc, ◌+◌, ◌<◌, ◌≡◌, ◌⊎◌, refl, inl, inr, Bool, true, false, ◌||◌, Option, none, some, List, [],
  ◌∷◌, ◌++◌, arith, Bool-cases, ltb, if◌then◌else◌, length,
}
use btdht.Address.{Ip, ipv4, ip_eq, Contact}
use btdht.Address.Order.{ip_eq_refl}
use btdht.Election.{Entry, ContactEntry, Bloom, BloomLaws, Array, ArrayLaws, Election, vote, winner}
use btdht.Election.Tally.{total, vote-total, vote_twice, winner-none}

abbrev has : List Ip → Ip → Bool
has [] ip = false
has (x ∷ xs) ip = ip_eq x ip || has xs ip

abbrev addresses : Bloom
addresses = record { Filter = List Ip; test = has; insert = λ f ip. ip ∷ f }

addresses-BloomLaws : BloomLaws addresses
addresses-BloomLaws = record { test-insert = λ f ip. has-head f ip }
  where
    has-head : (f : List Ip) (ip : Ip) → has (ip ∷ f) ip ≡ true
    has-head f ip = rw (ip_eq_refl ip) refl

abbrev later : Option ℕ → Option ℕ
later none = none
later (some i) = some (suc i)

abbrev find_first : (Entry → Bool) → List Entry → Option ℕ
find_first p [] = none
find_first p (e ∷ es) = let more = later (find_first p es) in if p e then some 0 else more

abbrev insert_last : List Entry → Entry → List Entry × Option ℕ
insert_last es e = if ltb (length es) 16 then (es ++ e ∷ [], some (length es)) else (es, none)

abbrev fold : List Entry → ContactEntry → (ContactEntry → Entry → ContactEntry) → ContactEntry
fold [] a f = a
fold (e ∷ es) a f = fold es (f a e) f

abbrev sixteen : Array
sixteen = record { find = find_first; insert = insert_last; reduce = fold }

later-lt : (n i : ℕ) (o : Option ℕ) → ((j : ℕ) → o ≡ some j → j < n) → later o ≡ some i → i < suc n
later-lt n i none h e = ground (arith, e)
later-lt n i (some j) h e = ground (arith, h j refl, e)

find_first-lt :
    (p : Entry → Bool) (es : List Entry) (i : ℕ) → find_first p es ≡ some i → i < length es
find_first-lt p [] i e = ground (arith, e)
find_first-lt p (x ∷ es) i e = elim (Bool-cases (p x)) [
  | inl here ↦ ground (arith, e, here)
  | inr more ↦
      let after : later (find_first p es) ≡ some i = rw more at e in
      later-lt (length es) i (find_first p es) (find_first-lt p es) after
]

insert_last-cases :
    (es : List Entry) (e : Entry)
    → (insert_last es e ≡ (es, none)) ⊎ (insert_last es e ≡ (es ++ e ∷ [], some (length es)))
insert_last-cases es e = elim (Bool-cases (ltb (length es) 16)) [
  | inl room ↦ inr (rw room refl)
  | inr filled ↦ inl (rw filled refl)
]

sixteen-ArrayLaws : ArrayLaws sixteen
sixteen-ArrayLaws = record {
  find-lt = find_first-lt;
  insert-cases = insert_last-cases;
  reduce-nil = λ a f. refl;
  reduce-cons = λ e es a f. refl;
}

abbrev peer : ℕ → Contact
peer n = record { ip = ipv4 n; port = 6881 }

abbrev one_vote : Election addresses sixteen
one_vote = record { table = (peer 9, 1) ∷ []; voted = ipv4 1 ∷ []; votes = 1 }

vote-total_example :
    total (vote addresses sixteen one_vote (peer 2) (peer 9)).0.table
    ≡ 1 + (if (vote addresses sixteen one_vote (peer 2) (peer 9)).1 then 1 else 0)
vote-total_example = vote-total addresses sixteen sixteen-ArrayLaws one_vote (peer 2) (peer 9)

vote_twice_example :
    ((vote addresses sixteen
        (vote addresses sixteen one_vote (peer 2) (peer 9)).0
        (peer 2)
        (peer 8)).1
      ≡ false)
    × ((vote addresses sixteen
          (vote addresses sixteen one_vote (peer 2) (peer 9)).0
          (peer 2)
          (peer 8)).0.table
        ≡ (vote addresses sixteen one_vote (peer 2) (peer 9)).0.table)
vote_twice_example =
    vote_twice addresses sixteen addresses-BloomLaws one_vote (peer 2) (peer 9) (peer 8)

winner-none_example : winner addresses sixteen one_vote 1 ≡ none
winner-none_example = winner-none addresses sixteen sixteen-ArrayLaws one_vote 1
