-- ===== src/Transactions/Mint.antt =====
-- What `mint_transaction` of src/transaction.cpp does with a list in order.
use btdht.Prelude.{
  ℕ, ◌+◌, ◌<◌, ◌≡◌, ◌≢◌, refl, sym, ap, ◌∙◌, ◌⊎◌, inl, inr, Bool, true, false, ◌&&◌, ltb, ◌==◌,
  if◌then◌else◌, Bool-cases, Option, none, some, List, [], ◌∷◌, ◌++◌, ==_refl, ==_iff, ne→==_false,
  lt→ltb, arith,
}
use mathlib.Core.Bool.{true≢false}
use btdht.Prelude.Bytes.{Byte}
use btdht.Address.{Transaction}
use btdht.Transactions.{TxContext, Tx, Client, unlink, then_back}
use btdht.Transactions.Links.{kept, unlinked}
use btdht.Transactions.Ring.{move_back-Makes}
use btdht.Transactions.Invariant.{IsQueue, released, rewritten, IsQueue-minted, Ring-rewritten}
use btdht.Transactions.Queue.{
  Dht, is_sent, is_late, is_expired, release, fire, tx_at, with_client, mint_at, finish_mint, make,
  nonzero, reset_tx, transaction_of, increment, decrement,
}

abbrev pub Cancel : Type 0 → Type 0
Cancel W = ℕ → Dht W → Transaction → ℕ → Option ℕ → Dht W

pub is_sent-zero : (x : Tx) → x.sent ≡ 0 → is_sent x ≡ false
is_sent-zero x e = rw e refl

module _ {W : Type 0} where
  -- A timeout function leaves the transactions and the time alone.
  pub record Keeps (cancel : Cancel W) : Type 0 where
    pub client :
        (f : ℕ) (d : Dht W) (t : Transaction) (n : ℕ) (a : Option ℕ)
        → (cancel f d t n a).client ≡ d.client
    pub now :
        (f : ℕ) (d : Dht W) (t : Transaction) (n : ℕ) (a : Option ℕ)
        → (cancel f d t n a).now ≡ d.now

  -- The transaction at `t` is minted and stands at the back.
  pub record Minted (d : Dht W) (r : List Byte) (ctx : TxContext) (t : ℕ) (ys : List ℕ)
      (o : Option (Option Transaction × Dht W)) : Type 0 where
    pub dht : Dht W
    pub result : o ≡ some (some (transaction_of (tx_at dht t)), dht)
    pub queue : IsQueue dht.client d.now (ys ++ t ∷ [])
    pub now : dht.now ≡ d.now
    pub sent : (tx_at dht t).sent ≡ d.now
    pub context : (tx_at dht t).context ≡ ctx
    pub prefix : (u : ℕ) → (tx_at dht u).prefix ≡ (tx_at d u).prefix
    pub suffix : (tx_at dht t).suffix ≡ nonzero r

  module _ (timeout : ℕ) (cancel : Cancel W) (keeps : Keeps cancel) where
    fire-keeps :
        (o : Option ℕ) (d : Dht W) (x : Tx)
        → ((fire cancel o d x).client ≡ d.client) × ((fire cancel o d x).now ≡ d.now)
    fire-keeps none d x = (refl, refl)
    fire-keeps (some f) d x = (keeps.client f d _ _ _, keeps.now f d _ _ _)

    pub release-client :
        (d : Dht W) (t : ℕ) → (release timeout cancel d t).client ≡ released d.client t
    release-client d t =
        ap (λ (c : Client). rewritten c t (reset_tx (c.buffer t)) c.active)
          (fire-keeps (tx_at d t).context.int_timeout
            (with_client d (record d.client { active = decrement d.client.active })) (tx_at d t)).0

    pub release-now : (d : Dht W) (t : ℕ) → (release timeout cancel d t).now ≡ d.now
    release-now d t =
        (fire-keeps (tx_at d t).context.int_timeout
          (with_client d (record d.client { active = decrement d.client.active })) (tx_at d t)).1

    -- A transaction that waits for nothing, at the head.
    pub mint_at-Minted :
        (d : Dht W) (r : List Byte) (ctx : TxContext) (t : ℕ) (ys : List ℕ)
        → IsQueue d.client d.now (t ∷ ys)
        → (tx_at d t).sent ≡ 0
        → 0 < d.now
        → Minted d r ctx t ys (mint_at timeout cancel d t r ctx)
    mint_at-Minted d r ctx t ys q idle positive =
        let x : Tx = record (make r (tx_at d t)) { context = ctx; sent = d.now } in
        let e : Client = rewritten d.client t x (increment d.client.active) in
        let m =
          move_back-Makes e [] t ys
            (Ring-rewritten d.client t x (increment d.client.active) (t ∷ ys) refl refl q.ring) in
        let same : unlinked (m.client.buffer t) ≡ unlinked x = m.same.txs t ∙ rw (==_refl t) refl in
        record {
          dht = with_client d m.client;
          result =
              ap
                (λ (b : Bool).
                  if b
                  then some (none, d)
                  else finish_mint timeout cancel (transaction_of x) (with_client d e)
                      (then_back t (unlink e t)))
                (is_sent-zero (tx_at d t) idle)
              ∙ ap (finish_mint timeout cancel (transaction_of x) (with_client d e)) m.result
              ∙ ap (λ (y : Tx). some (some (transaction_of y), with_client d m.client)) (sym same);
          queue = IsQueue-minted d.client d.now t ys q idle x refl positive m;
          now = refl;
          sent = ap (λ (y : Tx). y.sent) same;
          context = ap (λ (y : Tx). y.context) same;
          prefix = λ u.
              ap (λ (y : Tx). y.prefix) (m.same.txs u)
              ∙ kept (λ (y : Tx). y.prefix) d.client t x refl u;
          suffix = ap (λ (y : Tx). y.suffix) same;
        }

pub is_sent-nonzero : (x : Tx) → x.sent ≢ 0 → is_sent x ≡ true
is_sent-nonzero x nz = rw (ne→==_false x.sent 0 nz) refl

pub sent-cases :
    (x : Tx) → ((is_sent x ≡ true) × (x.sent ≢ 0)) ⊎ ((is_sent x ≡ false) × (x.sent ≡ 0))
sent-cases x = elim (Bool-cases (x.sent == 0)) [
  | inl e ↦ inr (rw e refl, (==_iff x.sent 0).0 e)
  | inr e ↦ inl (rw e refl, λ z. ground (arith, z, e))
]

-- A transaction is not expired exactly if it waits and its time is not up.
pub busy→lt :
    (timeout : ℕ) (x : Tx) (now : ℕ)
    → is_expired timeout x now ≡ false
    → (x.sent ≢ 0) × (now < x.sent + timeout)
busy→lt timeout x now h = elim (sent-cases x) [
  | inl s ↦
      let late : (if ltb now (x.sent + timeout) then false else true) ≡ false = rw s.0 at h in
      (s.1, ground (arith, late))
  | inr s ↦ let no : true ≡ false = rw s.0 at h in absurd (true≢false no)
]

pub lt→busy :
    (timeout : ℕ) (x : Tx) (now : ℕ)
    → x.sent ≢ 0
    → now < x.sent + timeout
    → is_expired timeout x now ≡ false
lt→busy timeout x now nz h = rw (ne→==_false x.sent 0 nz, lt→ltb now (x.sent + timeout) h) refl

module _ {W : Type 0} (timeout : ℕ) (cancel : Cancel W) (d : Dht W) where
  pub late-expired :
      (t : ℕ)
      → is_sent (tx_at d t) ≡ true
      → is_late timeout cancel d t ≡ is_expired timeout (tx_at d t) d.now
  late-expired t e = ap (λ (b : Bool). b && is_expired timeout (tx_at d t) d.now) e
