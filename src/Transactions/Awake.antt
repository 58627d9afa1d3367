-- ===== src/Transactions/Awake.antt =====
-- `next_timeout` of src/transaction.cpp, and the step of src/dht_interface.cpp that gives up late
-- transactions and tells when it wants to run again.
use btdht.Prelude.{
  ℕ, zero, suc, ◌+◌, ◌≤◌, ◌<◌, ◌≡◌, ◌≢◌, refl, sym, ap, subst, ◌∙◌, inl, inr, Bool, false, ◌==◌,
  if◌then◌else◌, Option, none, some, List, [], ◌∷◌, ◌++◌, append_assoc, length, ==_refl,
  ne→==_false, All, All-append, arith,
}
use btdht.Transactions.Cycle.{All-split, All-map2}
use btdht.Transactions.Ring.{first}
use btdht.Transactions.Order.{Sorted-split}
use btdht.Transactions.Invariant.{IsQueue, sent_of}
use btdht.Transactions.Mint.{Cancel, Keeps, sent-cases, busy→lt, late-expired, is_sent-nonzero}
use btdht.Transactions.Eager.{eager_tx_timeout-Settled}
use btdht.Transactions.Turn.{next-middle, first-ne}
use btdht.Transactions.Queue.{
  Dht, is_late, tx_at, eager_tx_timeout, timeout_loop, timeout_from, next_timeout,
}

module _ {W : Type 0} where
  abbrev pub awake_at : ℕ → ℕ → Dht W → Option (Option ℕ) → Option (Dht W × ℕ)
  awake_at timeout refresh_interval d none = none
  awake_at timeout refresh_interval d (some none) = some (d, d.now + refresh_interval)
  awake_at timeout refresh_interval d (some (some head)) = some (d, (tx_at d head).sent + timeout)

  abbrev pub awake_after : ℕ → ℕ → ℕ → Option (Dht W) → Option (Dht W × ℕ)
  awake_after fuel timeout refresh_interval none = none
  awake_after fuel timeout refresh_interval (some d) =
      awake_at timeout refresh_interval d (next_timeout fuel d)

  -- `on_awake_eager_tx_timeout`
  unfoldable pub on_awake_eager_tx_timeout : ℕ → ℕ → ℕ → Cancel W → Dht W → Option (Dht W × ℕ)
  on_awake_eager_tx_timeout fuel timeout refresh_interval cancel d =
      awake_after fuel timeout refresh_interval (eager_tx_timeout timeout cancel fuel d)

  -- The transaction, of those that wait, that was sent first; none if none waits.
  abbrev pub Oldest : Dht W → List ℕ → Option ℕ → Type 0
  Oldest d xs none = All (λ x. sent_of d.client x ≡ 0) xs
  Oldest d xs (some t) =
      ((us : List ℕ) × (ys : List ℕ) × (xs ≡ us ++ t ∷ ys))
      × (sent_of d.client t ≢ 0)
      × All (λ x. sent_of d.client x ≢ 0 → sent_of d.client t ≤ sent_of d.client x) xs

  pub record Found (d : Dht W) (xs : List ℕ) (o : Option (Option ℕ)) : Type 0 where
    pub oldest : Option ℕ
    pub result : o ≡ some oldest
    pub is_oldest : Oldest d xs oldest

  -- One turn of the loop, by what it finds.
  abbrev look : ℕ → Dht W → ℕ → ℕ → Bool → Option ℕ → Option (Option ℕ)
  look fuel d head it sent next =
      let more = timeout_loop fuel d head next in
      if sent
      then some (some it)
      else elim next [ none ↦ none | some n ↦ if n == head then some none else more ]

  found-here :
      (d : Dht W) (us : List ℕ) (t : ℕ) (ys : List ℕ)
      → IsQueue d.client d.now (us ++ t ∷ ys)
      → All (λ u. sent_of d.client u ≡ 0) us
      → (tx_at d t).sent ≢ 0
      → Found d (us ++ t ∷ ys) (some (some t))
  found-here d us t ys q zeros nz =
      let order = (Sorted-split (sent_of d.client) us (t ∷ ys) q.ordered).1 in
      record {
        oldest = some t;
        result = refl;
        is_oldest = (
          (us, ys, refl),
          nz,
          All-append (λ x. sent_of d.client x ≢ 0 → sent_of d.client t ≤ sent_of d.client x) us
              (t ∷ ys) (idle us zeros)
              (λ k. omega arith, All-map2 ys (λ y l k m. l) order.0 order.0),
        );
      }
    where
      idle :
          (vs : List ℕ)
          → All (λ u. sent_of d.client u ≡ 0) vs
          → All (λ x. sent_of d.client x ≢ 0 → sent_of d.client t ≤ sent_of d.client x) vs
      idle [] h = tt
      idle (v ∷ vs) h = (λ k. absurd (k h.0), idle vs h.1)

  timeout_loop-Found :
      (fuel : ℕ) (d : Dht W) (head : ℕ) (us : List ℕ) (t : ℕ) (ys : List ℕ)
      → length (t ∷ ys) ≤ fuel
      → some head ≡ first (us ++ t ∷ ys)
      → IsQueue d.client d.now (us ++ t ∷ ys)
      → All (λ u. sent_of d.client u ≡ 0) us
      → Found d (us ++ t ∷ ys) (timeout_loop fuel d head (some t))
  timeout_loop-Found zero d head us t ys le h q zeros = absurd (omega (arith, le))
  timeout_loop-Found (suc fuel) d head us t [] le h q zeros = elim (sent-cases (tx_at d t)) [
    | inl s ↦
        subst (λ (b : Bool). Found d (us ++ t ∷ []) (look fuel d head t b (tx_at d t).timeout_next))
          (sym s.0) (found-here d us t [] q zeros s.1)
    | inr s ↦
        subst (λ (b : Bool). Found d (us ++ t ∷ []) (look fuel d head t b (tx_at d t).timeout_next))
          (sym s.0)
          (subst (λ (o : Option ℕ). Found d (us ++ t ∷ []) (look fuel d head t false o))
            (h ∙ sym (next-middle d.client us t [] q.ring))
            (record {
              oldest = none;
              result = rw (==_refl head) refl;
              is_oldest = All-append (λ u. sent_of d.client u ≡ 0) us (t ∷ []) zeros (s.1, tt);
            }))
  ]
  timeout_loop-Found (suc fuel) d head us t (y ∷ ys) le h q zeros = elim (sent-cases (tx_at d t)) [
    | inl s ↦
        subst
          (λ (b : Bool). Found d (us ++ t ∷ y ∷ ys) (look fuel d head t b (tx_at d t).timeout_next))
          (sym s.0) (found-here d us t (y ∷ ys) q zeros s.1)
    | inr s ↦
        let shift = append_assoc us (t ∷ []) (y ∷ ys) in
        let more =
          timeout_loop-Found fuel d head (us ++ t ∷ []) y ys (omega (arith, le))
            (h ∙ ap first (sym shift)) (subst (IsQueue d.client d.now) (sym shift) q)
            (All-append (λ u. sent_of d.client u ≡ 0) us (t ∷ []) zeros (s.1, tt)) in
        subst
          (λ (b : Bool). Found d (us ++ t ∷ y ∷ ys) (look fuel d head t b (tx_at d t).timeout_next))
          (sym s.0)
          (subst (λ (o : Option ℕ). Found d (us ++ t ∷ y ∷ ys) (look fuel d head t false o))
            (sym (next-middle d.client us t (y ∷ ys) q.ring))
            (subst
              (λ (b : Bool).
                Found d (us ++ t ∷ y ∷ ys)
                  (if b then some none else timeout_loop fuel d head (some y)))
              (sym (ne→==_false y head (first-ne us t y ys head h q.ring.cycle.1)))
              (subst (λ zs. Found d zs (timeout_loop fuel d head (some y))) shift more)))
  ]

  pub next_timeout-Found :
      (fuel : ℕ) (d : Dht W) (xs : List ℕ)
      → length xs ≤ fuel
      → IsQueue d.client d.now xs
      → Found d xs (next_timeout fuel d)
  unfolding next_timeout
  next_timeout-Found fuel d [] le q =
      subst (λ (o : Option ℕ). Found d [] (timeout_from fuel d o)) (sym q.ring.head)
        (record { oldest = none; result = refl; is_oldest = tt })
  next_timeout-Found fuel d (x ∷ xs) le q =
      subst (λ (o : Option ℕ). Found d (x ∷ xs) (timeout_from fuel d o)) (sym q.ring.head)
        (timeout_loop-Found fuel d x [] x xs le refl q tt)

module _ {W : Type 0} (timeout : ℕ) (cancel : Cancel W) (keeps : Keeps cancel)
    (refresh_interval : ℕ) (d : Dht W) (xs : List ℕ) where
  -- The step ends with the list in order, no transaction late, and a time in the future.
  pub record Awoken (o : Option (Dht W × ℕ)) : Type 0 where
    pub dht : Dht W
    pub time : ℕ
    pub result : o ≡ some (dht, time)
    pub queue : IsQueue dht.client d.now xs
    pub settled : All (λ x. is_late timeout cancel dht x ≡ false) xs
    pub later : d.now < time

  awake-some :
      (s : Dht W) (t : ℕ)
      → IsQueue s.client d.now xs
      → s.now ≡ d.now
      → All (λ x. is_late timeout cancel s x ≡ false) xs
      → Oldest s xs (some t)
      → Awoken (awake_at timeout refresh_interval s (some (some t)))
  awake-some s t q same settled old =
      let parts = subst (All (λ x. is_late timeout cancel s x ≡ false)) old.0.2 settled in
      let late =
        (All-split (λ x. is_late timeout cancel s x ≡ false) old.0.0 (t ∷ old.0.1) parts).1.0 in
      let fresh =
        sym (late-expired timeout cancel s t (is_sent-nonzero (tx_at s t) old.1)) ∙ late in
      record {
        dht = s;
        time = (tx_at s t).sent + timeout;
        result = refl;
        queue = q;
        settled = settled;
        later = omega (arith, same, (busy→lt timeout (tx_at s t) s.now fresh).1);
      }

  awake-at :
      (s : Dht W) (o : Option ℕ)
      → IsQueue s.client d.now xs
      → s.now ≡ d.now
      → All (λ x. is_late timeout cancel s x ≡ false) xs
      → 0 < refresh_interval
      → Oldest s xs o
      → Awoken (awake_at timeout refresh_interval s (some o))
  awake-at s none q same settled positive old = record {
    dht = s;
    time = s.now + refresh_interval;
    result = refl;
    queue = q;
    settled = settled;
    later = omega (arith, same, positive);
  }
  awake-at s (some t) q same settled positive old = awake-some s t q same settled old

  -- With fuel for each transaction of the list, the step ends: the list is in order, no transaction has
  -- waited longer than it may, and the time at which it wants to run again is in the future.
  pub on_awake_eager_tx_timeout-Awoken :
      (fuel : ℕ)
      → length xs ≤ fuel
      → 0 < refresh_interval
      → IsQueue d.client d.now xs
      → Awoken (on_awake_eager_tx_timeout fuel timeout refresh_interval cancel d)
  unfolding on_awake_eager_tx_timeout
  on_awake_eager_tx_timeout-Awoken fuel le positive q =
      let s = eager_tx_timeout-Settled timeout cancel keeps fuel d xs le q in
      let f =
        next_timeout-Found fuel s.dht xs le
          (subst (λ n. IsQueue s.dht.client n xs) (sym s.now) s.queue) in
      subst Awoken
        (sym (
          ap (awake_after fuel timeout refresh_interval) s.result
          ∙ ap (awake_at timeout refresh_interval s.dht) f.result))
        (awake-at s.dht f.oldest s.queue s.now s.settled positive f.is_oldest)
