-- ===== src/Transactions/Outcome.antt =====
-- When `mint_transaction` of src/transaction.cpp succeeds, and when it will.
use btdht.Prelude.{
  ℕ, ◌<◌, ◌≡◌, ◌≢◌, refl, sym, ap, subst, subst₂, ◌∙◌, ◌⊎◌, inl, inr, Bool, true, false,
  if◌then◌else◌, Bool-cases, Option, none, some, List, [], ◌∷◌, ◌++◌, ==_refl, All, arith,
}
use btdht.Prelude.Bytes.{Byte}
use btdht.Address.{Transaction}
use btdht.Transactions.{TxContext, Tx, Client, put, unlink, then_back}
use btdht.Transactions.Links.{kept}
use btdht.Transactions.Cycle.{All-map2}
use btdht.Transactions.Ring.{Ring}
use btdht.Transactions.Invariant.{IsQueue, IsQueue-released}
use btdht.Transactions.Queue.{
  Dht, is_sent, is_late, is_expired, release, tx_at, with_client, mint_from, mint_at,
  mint_transaction, finish_mint, make, reset_tx, transaction_of, increment, has_free_transaction,
  has_free_at,
}
use btdht.Transactions.Queue.{next_available, available_at, expire_time}
use btdht.Transactions.Mint.{
  Cancel, Keeps, Minted, release-client, release-now, mint_at-Minted, is_sent-nonzero, sent-cases,
  busy→lt, lt→busy, late-expired,
}

module _ {W : Type 0} (timeout : ℕ) (cancel : Cancel W) (keeps : Keeps cancel) (d : Dht W)
    (r : List Byte) (ctx : TxContext) where
  has_free-head :
      (t : ℕ) (ys : List ℕ)
      → Ring d.client (t ∷ ys)
      → has_free_transaction timeout d ≡ is_expired timeout (tx_at d t) d.now
  unfolding has_free_transaction
  has_free-head t ys ring = ap (has_free_at timeout d) ring.head

  mint-late :
      (t : ℕ) (ys : List ℕ)
      → IsQueue d.client d.now (t ∷ ys)
      → (tx_at d t).sent ≢ 0
      → 0 < d.now
      → Minted d r ctx t ys (mint_at timeout cancel (release timeout cancel d t) t r ctx)
  mint-late t ys q nz positive =
      let d1 = release timeout cancel d t in
      let there = release-client timeout cancel keeps d t in
      let time = release-now timeout cancel keeps d t in
      let q1 =
        subst₂ (λ (c : Client) (n : ℕ). IsQueue c n (t ∷ ys)) (sym there) (sym time)
          (IsQueue-released d.client d.now [] t ys q nz tt) in
      let tx : tx_at d1 t ≡ reset_tx (tx_at d t) =
        ap (λ (c : Client). c.buffer t) there ∙ rw (==_refl t) refl in
      let m =
        mint_at-Minted timeout cancel keeps d1 r ctx t ys q1 (ap (λ (x : Tx). x.sent) tx)
          (omega (arith, time, positive)) in
      record {
        dht = m.dht;
        result = m.result;
        queue = subst (λ n. IsQueue m.dht.client n (ys ++ t ∷ [])) time m.queue;
        now = m.now ∙ time;
        sent = m.sent ∙ time;
        context = m.context;
        prefix = λ u.
            m.prefix u
            ∙ ap (λ (c : Client). (c.buffer u).prefix) there
            ∙ kept (λ (x : Tx). x.prefix) d.client t (reset_tx (tx_at d t)) refl u;
        suffix = m.suffix;
      }

  mint-head :
      (t : ℕ) (ys : List ℕ)
      → Ring d.client (t ∷ ys)
      → (b : Bool) → is_late timeout cancel d t ≡ b
      → mint_transaction timeout cancel d r ctx
        ≡ mint_at timeout cancel (if b then release timeout cancel d t else d) t r ctx
  unfolding mint_transaction
  mint-head t ys ring b e =
      ap (mint_from timeout cancel d r ctx) ring.head
      ∙ ap
          (λ (l : Bool).
            mint_at timeout cancel (if l then release timeout cancel d t else d) t r ctx)
          e

  mint_at-busy :
      (t : ℕ) → is_sent (tx_at d t) ≡ true → mint_at timeout cancel d t r ctx ≡ some (none, d)
  mint_at-busy t sent =
      let more = with_client d (record d.client { active = increment d.client.active }) in
      let made = make r (tx_at more t) in
      let d' = with_client more (put t (record made { context = ctx; sent = d.now }) more.client) in
      ap
        (λ (b : Bool).
          if b
          then some (none, d)
          else finish_mint timeout cancel (transaction_of made) d'
              (then_back t (unlink d'.client t)))
        sent

  pub mint-free :
      (t : ℕ) (ys : List ℕ)
      → IsQueue d.client d.now (t ∷ ys)
      → 0 < d.now
      → has_free_transaction timeout d ≡ true
      → Minted d r ctx t ys (mint_transaction timeout cancel d r ctx)
  mint-free t ys q positive free = elim (sent-cases (tx_at d t)) [
    | inl s ↦
        subst (Minted d r ctx t ys)
          (sym (
            mint-head t ys q.ring true
              (late-expired timeout cancel d t s.0 ∙ sym (has_free-head t ys q.ring) ∙ free)))
          (mint-late t ys q s.1 positive)
    | inr s ↦
        subst (Minted d r ctx t ys) (sym (mint-head t ys q.ring false (rw s.0 refl)))
          (mint_at-Minted timeout cancel keeps d r ctx t ys q s.1 positive)
  ]

  -- Nothing is minted, and no transaction of the list is free.
  pub record Refused (xs : List ℕ) (o : Option (Option Transaction × Dht W)) : Type 0 where
    pub result : o ≡ some (none, d)
    pub busy : All (λ x. is_expired timeout (tx_at d x) d.now ≡ false) xs

  mint-busy :
      (t : ℕ) (ys : List ℕ)
      → IsQueue d.client d.now (t ∷ ys)
      → has_free_transaction timeout d ≡ false
      → Refused (t ∷ ys) (mint_transaction timeout cancel d r ctx)
  mint-busy t ys q none_free =
      let fresh = sym (has_free-head t ys q.ring) ∙ none_free in
      let waits = busy→lt timeout (tx_at d t) d.now fresh in
      let sent = is_sent-nonzero (tx_at d t) waits.0 in
      record {
        result =
            mint-head t ys q.ring false (late-expired timeout cancel d t sent ∙ fresh)
            ∙ mint_at-busy t sent;
        busy = (
          fresh,
          All-map2 ys
              (λ y l k.
                lt→busy timeout (tx_at d y) d.now (λ z. waits.0 (omega (arith, z, l)))
                  (omega (arith, waits.1, l)))
              q.ordered.0 q.ordered.0,
        );
      }

  available-head :
      (refresh_interval t : ℕ) (ys : List ℕ)
      → Ring d.client (t ∷ ys)
      → (b : Bool) → has_free_transaction timeout d ≡ b
      → next_available timeout refresh_interval d
        ≡ (if b then d.now else expire_time timeout (tx_at d t))
  unfolding next_available
  available-head refresh_interval t ys ring b e =
      ap (available_at timeout refresh_interval d) ring.head
      ∙ ap (λ (c : Bool). if c then d.now else expire_time timeout (tx_at d t))
          (sym (has_free-head t ys ring) ∙ e)

  -- With a list in order and a time other than 0: if the head is free, `mint_transaction` gives it out
  -- with a new suffix and for the context, moved to the back, the list is in order again, and
  -- `next_available` is now; otherwise it fails, nothing changes, no transaction of the list is free, and
  -- `next_available` is later than now.
  pub mint_transaction-Minted :
      (refresh_interval t : ℕ) (ys : List ℕ)
      → IsQueue d.client d.now (t ∷ ys)
      → 0 < d.now
      → ((has_free_transaction timeout d ≡ true)
          × (next_available timeout refresh_interval d ≡ d.now)
          × Minted d r ctx t ys (mint_transaction timeout cancel d r ctx))
        ⊎ ((has_free_transaction timeout d ≡ false)
            × (d.now < next_available timeout refresh_interval d)
            × Refused (t ∷ ys) (mint_transaction timeout cancel d r ctx))
  mint_transaction-Minted refresh_interval t ys q positive =
      elim (Bool-cases (has_free_transaction timeout d)) [
        | inl e ↦
            inl (e, available-head refresh_interval t ys q.ring true e, mint-free t ys q positive e)
        | inr e ↦
            let waits = busy→lt timeout (tx_at d t) d.now (sym (has_free-head t ys q.ring) ∙ e) in
            inr (
              e,
              omega (arith, waits.1, available-head refresh_interval t ys q.ring false e),
              mint-busy t ys q e,
            )
      ]
