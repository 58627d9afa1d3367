-- ===== src/Transactions/Eager.antt =====
-- The loop `eager_tx_timeout` of src/transaction.cpp over the list of transactions: its turns put
-- together.
use btdht.Prelude.{
  ℕ, zero, suc, ◌≤◌, ◌≡◌, refl, sym, ap, subst, subst₂, ◌∙◌, inl, inr, Bool, false, ◌&&◌,
  if◌then◌else◌, Bool-cases, Option, some, List, [], ◌∷◌, ◌++◌, append_assoc, length, ==_refl,
  ne→==_false, All, All-append, arith,
}
use btdht.Transactions.Ring.{Ring, first}
use btdht.Transactions.Invariant.{IsQueue, sent_of}
use btdht.Transactions.Mint.{Cancel, Keeps, sent-cases, late-expired}
use btdht.Transactions.Queue.{
  Dht, is_late, is_expired, release, tx_at, eager_loop, eager_from, eager_tx_timeout, continue_at,
}
use btdht.Transactions.Turn.{
  Settled, Stepped, Settled-zeros, release-Stepped, busy-rest, next-middle, first-ne,
}

module _ {W : Type 0} (timeout : ℕ) (cancel : Cancel W) (keeps : Keeps cancel) where
  -- One turn of the loop, by what it does with its transaction.
  abbrev turn : ℕ → Dht W → ℕ → ℕ → Bool → Bool → Option (Dht W)
  turn fuel d head it late sent =
      let next = (tx_at d it).timeout_next in
      let d' = if late then release timeout cancel d it else d in
      let more = eager_loop timeout cancel fuel d' head next in
      if late
      then continue_at timeout cancel d' head next more
      else if sent
      then some d
      else continue_at timeout cancel d' head next more

  -- A turn with what follows it, where the loop goes on.
  turn-Settled :
      (fuel : ℕ) (d : Dht W) (head : ℕ) (us : List ℕ) (t : ℕ) (ys : List ℕ)
      → IsQueue d.client d.now (us ++ t ∷ ys)
      → All (λ u. sent_of d.client u ≡ 0) us
      → ((d' : Dht W)
          → Stepped timeout cancel keeps d d' us t ys
          → Settled timeout cancel keeps d (us ++ t ∷ ys) (
              continue_at timeout cancel d' head
                (tx_at d t).timeout_next
                (eager_loop timeout cancel fuel d' head (tx_at d t).timeout_next)))
      → Settled timeout cancel keeps d
          (us ++ t ∷ ys)
          (eager_loop timeout cancel (suc fuel) d head (some t))
  turn-Settled fuel d head us t ys q zeros go = elim (sent-cases (tx_at d t)) [
    | inl s ↦ elim (Bool-cases (is_expired timeout (tx_at d t) d.now)) [
      | inl e ↦
          subst₂
            (λ (l b : Bool). Settled timeout cancel keeps d (us ++ t ∷ ys) (turn fuel d head t l b))
            (sym (late-expired timeout cancel d t s.0 ∙ e)) (sym s.0)
            (go (release timeout cancel d t)
              (release-Stepped timeout cancel keeps d us t ys q zeros s.1))
      | inr e ↦
          subst₂
            (λ (l b : Bool). Settled timeout cancel keeps d (us ++ t ∷ ys) (turn fuel d head t l b))
            (sym (late-expired timeout cancel d t s.0 ∙ e)) (sym s.0)
            (busy-rest timeout cancel keeps d us t ys q zeros s.1 e)
    ]
    | inr s ↦
        subst₂
          (λ (l b : Bool). Settled timeout cancel keeps d (us ++ t ∷ ys) (turn fuel d head t l b))
          (sym (ap (λ (b : Bool). b && is_expired timeout (tx_at d t) d.now) s.0)) (sym s.0)
          (go d (record {
            queue = q;
            now = refl;
            zeros = All-append (λ u. sent_of d.client u ≡ 0) us (t ∷ []) zeros (s.1, tt);
          }))
  ]

  module _ (fuel : ℕ) (d d' : Dht W) (head : ℕ) (us : List ℕ) (t : ℕ) where
    abbrev goes_on : Option ℕ → Option (Dht W)
    goes_on next =
        continue_at timeout cancel d' head next (eager_loop timeout cancel fuel d' head next)

    -- Behind the last, the loop ends at the head.
    ends-Settled :
        some head ≡ first (us ++ t ∷ [])
        → Ring d.client (us ++ t ∷ [])
        → Stepped timeout cancel keeps d d' us t []
        → Settled timeout cancel keeps d (us ++ t ∷ []) (goes_on (tx_at d t).timeout_next)
    ends-Settled h ring s =
        subst (λ (o : Option ℕ). Settled timeout cancel keeps d (us ++ t ∷ []) (goes_on o))
          (h ∙ sym (next-middle d.client us t [] ring))
          (subst
            (λ (b : Bool).
              Settled timeout cancel keeps d (us ++ t ∷ [])
                (if b then some d' else eager_loop timeout cancel fuel d' head (some head)))
            (sym (==_refl head))
            (Settled-zeros timeout cancel keeps d d' (us ++ t ∷ []) s.queue s.now s.zeros))

    goes_on-Settled :
        (y : ℕ) (ys : List ℕ)
        → some head ≡ first (us ++ t ∷ y ∷ ys)
        → Ring d.client (us ++ t ∷ y ∷ ys)
        → (s : Stepped timeout cancel keeps d d' us t (y ∷ ys))
        → Settled timeout cancel keeps d'
            ((us ++ t ∷ []) ++ y ∷ ys)
            (eager_loop timeout cancel fuel d' head (some y))
        → Settled timeout cancel keeps d (us ++ t ∷ y ∷ ys) (goes_on (tx_at d t).timeout_next)
    goes_on-Settled y ys h ring s more =
        subst (λ (o : Option ℕ). Settled timeout cancel keeps d (us ++ t ∷ y ∷ ys) (goes_on o))
          (sym (next-middle d.client us t (y ∷ ys) ring))
          (subst
            (λ (b : Bool).
              Settled timeout cancel keeps d (us ++ t ∷ y ∷ ys)
                (if b then some d' else eager_loop timeout cancel fuel d' head (some y)))
            (sym (ne→==_false y head (first-ne us t y ys head h ring.cycle.1)))
            (record {
              dht = more.dht;
              result = more.result;
              queue =
                  subst₂ (IsQueue more.dht.client) s.now (append_assoc us (t ∷ []) (y ∷ ys))
                    more.queue;
              now = more.now ∙ s.now;
              settled =
                  subst (All (λ x. is_late timeout cancel more.dht x ≡ false))
                    (append_assoc us (t ∷ []) (y ∷ ys)) more.settled;
            }))

  eager_loop-Settled :
      (fuel : ℕ) (d : Dht W) (head : ℕ) (us : List ℕ) (t : ℕ) (ys : List ℕ)
      → length (t ∷ ys) ≤ fuel
      → some head ≡ first (us ++ t ∷ ys)
      → IsQueue d.client d.now (us ++ t ∷ ys)
      → All (λ u. sent_of d.client u ≡ 0) us
      → Settled timeout cancel keeps d
          (us ++ t ∷ ys)
          (eager_loop timeout cancel fuel d head (some t))
  eager_loop-Settled zero d head us t ys le h q zeros = absurd (omega (arith, le))
  eager_loop-Settled (suc fuel) d head us t [] le h q zeros =
      turn-Settled fuel d head us t [] q zeros (λ d' s. ends-Settled fuel d d' head us t h q.ring s)
  eager_loop-Settled (suc fuel) d head us t (y ∷ ys) le h q zeros =
      turn-Settled fuel d head us t (y ∷ ys) q zeros (λ d' s.
        let shift = sym (append_assoc us (t ∷ []) (y ∷ ys)) in
        goes_on-Settled fuel d d' head us t y ys h q.ring s (
          eager_loop-Settled fuel d' head (us ++ t ∷ []) y ys (omega (arith, le))
            (h ∙ ap first shift) (subst₂ (IsQueue d'.client) (sym s.now) shift s.queue) s.zeros))

  -- With fuel for each transaction of the list, `eager_tx_timeout` ends: then no transaction has waited
  -- longer than it may, the list has the same transactions in the same order, and it is in order.
  pub eager_tx_timeout-Settled :
      (fuel : ℕ) (d : Dht W) (xs : List ℕ)
      → length xs ≤ fuel
      → IsQueue d.client d.now xs
      → Settled timeout cancel keeps d xs (eager_tx_timeout timeout cancel fuel d)
  unfolding eager_tx_timeout
  eager_tx_timeout-Settled fuel d [] le q =
      subst
        (λ (o : Option ℕ). Settled timeout cancel keeps d [] (eager_from timeout cancel fuel d o))
        (sym q.ring.head) (Settled-zeros timeout cancel keeps d d [] q refl tt)
  eager_tx_timeout-Settled fuel d (x ∷ xs) le q =
      subst
        (λ (o : Option ℕ).
          Settled timeout cancel keeps d (x ∷ xs) (eager_from timeout cancel fuel d o))
        (sym q.ring.head) (eager_loop-Settled fuel d x [] x xs le refl q tt)
