-- ===== src/Routing/Closest.antt =====
-- `multiple_closest_nodes` of src/routing_table.cpp. `sp::CircularBuffer` is not in the repository:
-- its operations are parameters, and `RingLaws` has what the program relies on.
pub mod First
pub mod Order
mod Tests
use btdht.Prelude.{
  ℕ, zero, suc, ◌+◌, ◌-◌, ◌≤◌, ◌<◌, ◌≡◌, refl, sym, ap, subst, ◌∙◌, inl, inr, Bool, true, false,
  ◌&&◌, Option, none, some, List, [], ◌∷◌, ◌++◌, append_assoc, append-nil, arith, Bool-cases, ltb,
  ◌==◌, if◌then◌else◌, length, length-append, take,
}
use btdht.Id.{Key, rank}
use btdht.Routing.{Node, is_valid, Address, Table, Level, Routing, is_good}

-- A circular buffer over an array of thirty-two tables; a level stands for its first table.
pub record Ring : Type 1 where
  pub Buffer : Type 0
  pub fresh : Buffer
  pub push_back : Buffer → Level → Buffer
  pub pop_back : Buffer → Option (Level × Buffer)
  pub is_empty : Buffer → Bool

-- What is in the buffer, the newest first: a push goes in front while there is room, and a pop
-- takes it off again.
pub record RingLaws (ring : Ring) : Type 0 where
  pub content : ring.Buffer → List Level
  pub content-fresh : content ring.fresh ≡ []
  pub content-push_back :
      (q : ring.Buffer) (l : Level)
      → length (content q) < 32
      → content (ring.push_back q l) ≡ l ∷ content q
  pub is_empty-nil : (q : ring.Buffer) → content q ≡ [] → ring.is_empty q ≡ true
  pub is_empty-cons :
      (q : ring.Buffer) (l : Level) (ls : List Level) → content q ≡ l ∷ ls → ring.is_empty q ≡ false
  pub rest : ring.Buffer → ring.Buffer
  pub pop_back-cons :
      (q : ring.Buffer) (l : Level) (ls : List Level)
      → content q ≡ l ∷ ls
      → ring.pop_back q ≡ some (l, rest q)
  pub content-rest :
      (q : ring.Buffer) (l : Level) (ls : List Level) → content q ≡ l ∷ ls → content (rest q) ≡ ls

module _ (ring : Ring) where
  -- `Lstart`: every level down to the first that is at least as deep as `max`.
  unfoldable pub fill : ring.Buffer → ℕ → List Level → ring.Buffer
  fill q max [] = q
  fill q max (l ∷ ls) =
      let more = fill (ring.push_back q l) max ls in
      if ltb l.depth max then more else ring.push_back q l

  abbrev pub pop_then : Option (Level × ring.Buffer) → (ring.Buffer → List Level) → List Level
  pop_then none k = []
  pop_then (some (l, q)) k = l ∷ k q

  -- `best_ordered`; it has as many places as the buffer.
  unfoldable pub drain : ℕ → ring.Buffer → List Level
  drain zero q = []
  drain (suc n) q = if ring.is_empty q then [] else pop_then (ring.pop_back q) (drain n)

-- `merge` on a bucket from the contact `i` on, with room for `n` results.
unfoldable pub merge_bucket : Routing → ℕ → ℕ → ℕ → List Node → List (Address × Node)
merge_bucket s n a i [] = []
merge_bucket s n a i (c ∷ cs) =
    let hit = is_valid c && is_good s c in
    let rest = merge_bucket s (if hit then n - 1 else n) a (i + 1) cs in
    if ltb 0 n then (if hit then ((a, i), c) ∷ rest else rest) else []

unfoldable pub merge : Routing → ℕ → List Table → List (Address × Node)
merge s n [] = []
merge s n (t ∷ ts) =
    let here = merge_bucket s n t.address 0 t.contacts in here ++ merge s (n - length here) ts

unfoldable pub merge_all : Routing → ℕ → List Level → List (Address × Node)
merge_all s n [] = []
merge_all s n (l ∷ ls) =
    let here = merge s n l.tables in
    let rest = merge_all s (n - length here) ls in if length here == n then here else here ++ rest

-- The contacts that come to stand in `result`, of length `n`.
unfoldable pub multiple_closest_nodes : Ring → Routing → Key → ℕ → List (Address × Node)
multiple_closest_nodes ring s search n =
    merge_all s n (drain ring 32 (fill ring ring.fresh (rank s.id search) s.levels))
