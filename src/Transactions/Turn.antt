-- ===== src/Transactions/Turn.antt =====
-- One turn of the loop of `eager_tx_timeout` of src/transaction.cpp: the transaction it gives up or
-- finds unused, and where the loop stops at one that still has time.
use btdht.Prelude.{
  ℕ, ◌≡◌, ◌≢◌, refl, sym, ap, subst, ◌∙◌, inl, inr, Bool, false, ◌&&◌, ◌==◌, Bool-cases, Option,
  some, List, [], ◌∷◌, ◌++◌, append_assoc, All, All-append, arith,
}
use mathlib.Core.Option.{some-injective}
use btdht.Transactions.{Client}
use btdht.Transactions.Links.{next_of, Distinct}
use btdht.Transactions.Cycle.{Cycle-append, All-split, All-map2}
use btdht.Transactions.Ring.{Ring, first, next-first}
use btdht.Transactions.Order.{Sorted-split, Changed-at}
use btdht.Transactions.Invariant.{IsQueue, sent_of, released, IsQueue-released, sent-released}
use btdht.Transactions.Mint.{
  Cancel, Keeps, busy→lt, lt→busy, late-expired, release-client, release-now,
}
use btdht.Transactions.Queue.{Dht, is_sent, is_late, is_expired, release, tx_at}

-- What comes behind a transaction of the list: the next of the sequence, or its first.
pub next-middle :
    (c : Client) (us : List ℕ) (t : ℕ) (ys : List ℕ)
    → Ring c (us ++ t ∷ ys)
    → next_of c t ≡ first (ys ++ (us ++ t ∷ []))
next-middle c us t ys ring =
    next-first c t (ys ++ us) (Cycle-append c us (t ∷ ys) ring.cycle)
    ∙ ap first (append_assoc ys us (t ∷ []))

pub first-ne :
    (us : List ℕ) (t y : ℕ) (ys : List ℕ) (h : ℕ)
    → some h ≡ first (us ++ t ∷ y ∷ ys)
    → Distinct (us ++ t ∷ y ∷ ys)
    → y ≢ h
first-ne [] t y ys h e d same = d.0.0 (same ∙ some-injective h _ e)
first-ne (u ∷ us) t y ys h e d same =
    (All-split (λ z. z ≢ u) us (t ∷ y ∷ ys) d.0).1.1.0 (same ∙ some-injective h _ e)

module _ {W : Type 0} (timeout : ℕ) (cancel : Cancel W) (keeps : Keeps cancel) where
  -- No transaction of the list waits any longer than it may, and the list is in order as before.
  pub record Settled (d : Dht W) (xs : List ℕ) (o : Option (Dht W)) : Type 0 where
    pub dht : Dht W
    pub result : o ≡ some dht
    pub queue : IsQueue dht.client d.now xs
    pub now : dht.now ≡ d.now
    pub settled : All (λ x. is_late timeout cancel dht x ≡ false) xs

  -- The transaction at the loop's place is done with: it waits for nothing now.
  pub record Stepped (d d' : Dht W) (us : List ℕ) (t : ℕ) (ys : List ℕ) : Type 0 where
    pub queue : IsQueue d'.client d.now (us ++ t ∷ ys)
    pub now : d'.now ≡ d.now
    pub zeros : All (λ u. sent_of d'.client u ≡ 0) (us ++ t ∷ [])

  late-zero :
      (d : Dht W) (xs : List ℕ)
      → All (λ u. sent_of d.client u ≡ 0) xs
      → All (λ x. is_late timeout cancel d x ≡ false) xs
  late-zero d [] h = tt
  late-zero d (x ∷ xs) h = (rw h.0 refl, late-zero d xs h.1)

  late-busy :
      (d : Dht W) (x : ℕ)
      → is_expired timeout (tx_at d x) d.now ≡ false
      → is_late timeout cancel d x ≡ false
  late-busy d x e = elim (Bool-cases (is_sent (tx_at d x))) [
    | inl s ↦ late-expired timeout cancel d x s ∙ e
    | inr s ↦ ap (λ (b : Bool). b && is_expired timeout (tx_at d x) d.now) s
  ]

  pub release-Stepped :
      (d : Dht W) (us : List ℕ) (t : ℕ) (ys : List ℕ)
      → IsQueue d.client d.now (us ++ t ∷ ys)
      → All (λ u. sent_of d.client u ≡ 0) us
      → (tx_at d t).sent ≢ 0
      → Stepped d (release timeout cancel d t) us t ys
  release-Stepped d us t ys q zeros waits =
      let there = release-client timeout cancel keeps d t in
      record {
        queue =
            subst (λ (c : Client). IsQueue c d.now (us ++ t ∷ ys)) (sym there)
              (IsQueue-released d.client d.now us t ys q waits zeros);
        now = release-now timeout cancel keeps d t;
        zeros =
            subst (λ (c : Client). All (λ u. sent_of c u ≡ 0) (us ++ t ∷ [])) (sym there)
              (All-append (λ u. sent_of (released d.client t) u ≡ 0) us (t ∷ []) (others us zeros)
                (
                  Changed-at (sent_of d.client) (sent_of (released d.client t)) t 0
                      (sent-released d.client t),
                  tt,
                ));
      }
    where
      others :
          (vs : List ℕ)
          → All (λ u. sent_of d.client u ≡ 0) vs
          → All (λ u. sent_of (released d.client t) u ≡ 0) vs
      others [] h = tt
      others (v ∷ vs) h = (
        elim (Bool-cases (v == t)) [
          | inl e ↦ sent-released d.client t v ∙ rw e refl
          | inr e ↦ sent-released d.client t v ∙ rw e h.0
        ],
        others vs h.1,
      )

  pub Settled-zeros :
      (d d' : Dht W) (xs : List ℕ)
      → IsQueue d'.client d.now xs
      → d'.now ≡ d.now
      → All (λ u. sent_of d'.client u ≡ 0) xs
      → Settled d xs (some d')
  Settled-zeros d d' xs q e zeros = record {
    dht = d';
    result = refl;
    queue = q;
    now = e;
    settled = late-zero d' xs zeros;
  }

  -- Behind a transaction that still has time, all have.
  pub busy-rest :
      (d : Dht W) (us : List ℕ) (t : ℕ) (ys : List ℕ)
      → IsQueue d.client d.now (us ++ t ∷ ys)
      → All (λ u. sent_of d.client u ≡ 0) us
      → (tx_at d t).sent ≢ 0
      → is_expired timeout (tx_at d t) d.now ≡ false
      → Settled d (us ++ t ∷ ys) (some d)
  busy-rest d us t ys q zeros nz fresh =
      let waits = busy→lt timeout (tx_at d t) d.now fresh in
      let order = (Sorted-split (sent_of d.client) us (t ∷ ys) q.ordered).1 in
      record {
        dht = d;
        result = refl;
        queue = q;
        now = refl;
        settled =
            All-append (λ x. is_late timeout cancel d x ≡ false) us (t ∷ ys) (late-zero d us zeros)
              (
                late-busy d t fresh,
                All-map2 ys
                    (λ y l k. late-busy d y (
                      lt→busy timeout (tx_at d y) d.now (λ z. nz (omega (arith, z, l)))
                        (omega (arith, waits.1, l))))
                    order.0 order.0,
              );
      }
