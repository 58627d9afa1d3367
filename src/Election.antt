-- ===== src/Election.antt =====
-- The vote on the node's own address of src/ip_election.cpp. `StaticArray` and `BloomFilter` are not
-- in the repository: their operations are parameters, `Array` and `Bloom`, and the records of laws
-- have what the program relies on. The tally is the content of the array.
pub mod Tally
mod Tests
use btdht.Prelude.{
  ℕ, zero, suc, ◌+◌, ◌<◌, ◌≡◌, ◌⊎◌, Bool, true, false, not, ◌&&◌, Option, none, some, List, [], ◌∷◌,
  ◌++◌, ltb, ◌==◌, if◌then◌else◌, length,
}
use btdht.Address.{Ip, Contact, contact_eq}

-- `entry`
abbrev pub Entry : Type 0
Entry = Contact × ℕ

pub record ContactEntry : Type 0 where
  pub contact : Option Contact
  pub cnt : ℕ

pub record Bloom : Type 1 where
  pub Filter : Type 0
  pub test : Filter → Ip → Bool
  pub insert : Filter → Ip → Filter

-- A filter has no false negative.
pub record BloomLaws (bloom : Bloom) : Type 0 where
  pub test-insert : (f : bloom.Filter) (ip : Ip) → bloom.test (bloom.insert f ip) ip ≡ true

-- `find` and `insert` give the index of the entry that the source has a pointer to.
pub record Array : Type 0 where
  pub find : (Entry → Bool) → List Entry → Option ℕ
  pub insert : List Entry → Entry → List Entry × Option ℕ
  pub reduce : List Entry → ContactEntry → (ContactEntry → Entry → ContactEntry) → ContactEntry

-- A full array refuses an insertion, and `reduce` goes through the entries in order.
pub record ArrayLaws (array : Array) : Type 0 where
  pub find-lt :
      (p : Entry → Bool) (es : List Entry) (i : ℕ) → array.find p es ≡ some i → i < length es
  pub insert-cases :
      (es : List Entry) (e : Entry)
      → (array.insert es e ≡ (es, none)) ⊎ (array.insert es e ≡ (es ++ e ∷ [], some (length es)))
  pub reduce-nil :
      (a : ContactEntry) (f : ContactEntry → Entry → ContactEntry) → array.reduce [] a f ≡ a
  pub reduce-cons :
      (e : Entry) (es : List Entry) (a : ContactEntry) (f : ContactEntry → Entry → ContactEntry)
      → array.reduce (e ∷ es) a f ≡ array.reduce es (f a e) f

-- `++it` on the entry at the index.
abbrev pub raise : ℕ → List Entry → List Entry
raise i [] = []
raise zero ((c, n) ∷ es) = (c, n + 1) ∷ es
raise (suc i) (e ∷ es) = e ∷ raise i es

-- `if (present)`, on the tally and the entry.
abbrev pub raise_present : List Entry × Option ℕ → List Entry × Bool
raise_present (es, none) = (es, false)
raise_present (es, some i) = (raise i es, true)

-- `if (!present)`
abbrev pub or_insert : Array → List Entry → Contact → Option ℕ → List Entry × Option ℕ
or_insert array es vote_for (some i) = (es, some i)
or_insert array es vote_for none = array.insert es (vote_for, 0)

module _ (bloom : Bloom) (array : Array) where
  -- `ip_election`
  pub record Election : Type 0 where
    pub table : List Entry
    pub voted : bloom.Filter
    pub votes : ℕ

  unfoldable pub vote : Election → Contact → Contact → Election × Bool
  vote ctx by vote_for =
      let present = array.find (λ e. contact_eq e.0 vote_for) ctx.table in
      let raised = raise_present (or_insert array ctx.table vote_for present) in
      if not (bloom.test ctx.voted by.ip)
      then (
        record { table = raised.0; voted = bloom.insert ctx.voted by.ip; votes = ctx.votes + 1 },
        raised.1,
      )
      else (record ctx { votes = ctx.votes + 1 }, false)

  -- The function that `winner` gives to `reduce`.
  abbrev pub better : ContactEntry → Entry → ContactEntry
  better acum e = if ltb 0 acum.cnt then record { contact = some e.0; cnt = e.1 } else acum

  unfoldable pub winner : Election → ℕ → Option Contact
  winner ctx min =
      let best = array.reduce ctx.table (record { contact = none; cnt = 0 }) better in
      if not (ltb best.cnt min) then best.contact else none
