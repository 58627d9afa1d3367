-- ===== src/Election/Tally.antt =====
-- What votes change, and who wins, in src/ip_election.cpp.
use btdht.Prelude.{
  ℕ, zero, suc, ◌+◌, ◌<◌, ◌≡◌, refl, ◌∙◌, inl, inr, true, false, Option, none, some, List, [], ◌∷◌,
  ◌++◌, arith, Bool-cases, ltb, if◌then◌else◌, length, length-append,
}
use btdht.Address.{Contact, contact_eq}
use btdht.Election.{
  Entry, Bloom, BloomLaws, Array, ArrayLaws, raise, raise_present, or_insert, Election, vote,
  better, winner,
}

-- The sum of the votes that the tally counts.
abbrev pub total : List Entry → ℕ
total [] = 0
total (e ∷ es) = e.1 + total es

total-append : (es fs : List Entry) → total (es ++ fs) ≡ total es + total fs
total-append [] fs = omega arith
total-append (e ∷ es) fs = omega (arith, total-append es fs)

total-raise : (i : ℕ) (es : List Entry) → i < length es → total (raise i es) ≡ total es + 1
total-raise i [] h = omega (arith, h)
total-raise zero ((c, n) ∷ es) h = omega arith
total-raise (suc i) (e ∷ es) h = omega (arith, total-raise i es (omega (arith, h)))

module _ (bloom : Bloom) (array : Array) where
  total-or_insert :
      (laws : ArrayLaws array) (es : List Entry) (c : Contact) (o : Option ℕ)
      → ((i : ℕ) → o ≡ some i → i < length es)
      → total (raise_present (or_insert array es c o)).0
        ≡ total es + (if (raise_present (or_insert array es c o)).1 then 1 else 0)
  total-or_insert laws es c (some i) h = total-raise i es (h i refl)
  total-or_insert laws es c none h = elim (laws.insert-cases es (c, 0)) [
    | inl full ↦ rw full (omega arith)
    | inr new ↦ rw new (
        omega (
          arith,
          total-raise (length es) (es ++ (c, 0) ∷ [])
              (omega (arith, length-append es ((c, 0) ∷ []))),
          total-append es ((c, 0) ∷ []),
        ))
  ]

  -- A vote that is accepted adds one to the sum of the tally, and one that is refused nothing, if
  -- the array keeps its laws.
  pub vote-total :
      (laws : ArrayLaws array) (ctx : Election bloom array) (by vote_for : Contact)
      → total (vote bloom array ctx by vote_for).0.table
        ≡ total ctx.table + (if (vote bloom array ctx by vote_for).1 then 1 else 0)
  unfolding vote
  vote-total laws ctx by vote_for = elim (Bool-cases (bloom.test ctx.voted by.ip)) [
    | inl again ↦ rw again (omega arith)
    | inr first ↦ rw first (
        total-or_insert laws ctx.table vote_for
          (array.find (λ e. contact_eq e.0 vote_for) ctx.table)
          (laws.find-lt (λ e. contact_eq e.0 vote_for) ctx.table))
  ]

  voted-by :
      (laws : BloomLaws bloom) (ctx : Election bloom array) (by vote_for : Contact)
      → bloom.test (vote bloom array ctx by vote_for).0.voted by.ip ≡ true
  unfolding vote
  voted-by laws ctx by vote_for = elim (Bool-cases (bloom.test ctx.voted by.ip)) [
    | inl again ↦ rw again again
    | inr first ↦ rw first (laws.test-insert ctx.voted by.ip)
  ]

  -- After a vote by an address, accepted or not, a second one from it is refused and leaves the
  -- tally as the first left it, if the filter has no false negative.
  pub vote_twice :
      (laws : BloomLaws bloom) (ctx : Election bloom array) (by first second : Contact)
      → ((vote bloom array (vote bloom array ctx by first).0 by second).1 ≡ false)
        × ((vote bloom array (vote bloom array ctx by first).0 by second).0.table
            ≡ (vote bloom array ctx by first).0.table)
  unfolding vote
  vote_twice laws ctx by first second = rw (voted-by laws ctx by first) (refl, refl)

  reduce-better :
      (laws : ArrayLaws array) (es : List Entry)
      → array.reduce es (record { contact = none; cnt = 0 }) (better bloom array)
        ≡ record { contact = none; cnt = 0 }
  reduce-better laws [] = laws.reduce-nil _ _
  reduce-better laws (e ∷ es) = laws.reduce-cons e es _ _ ∙ reduce-better laws es

  -- No election has a winner, whatever the votes and the number of votes asked for, if the array
  -- goes through its entries in order.
  pub winner-none :
      (laws : ArrayLaws array) (ctx : Election bloom array) (min : ℕ)
      → winner bloom array ctx min ≡ none
  unfolding winner
  winner-none laws ctx min = rw (reduce-better laws ctx.table) (elim (Bool-cases (ltb 0 min)) [
    | inl asked ↦ rw asked refl
    | inr no_votes ↦ rw no_votes refl
  ])
