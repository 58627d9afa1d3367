-- ===== src/Transactions/Consume.antt =====
-- What `consume_transaction` of src/transaction.cpp does with a list in order, and that it finds again
-- what `mint_transaction` gave out.
use btdht.Prelude.{
  false, ltb, not, ◌+◌, ℕ, suc, ◌-◌, ◌≤◌, ◌<◌, ◌≡◌, ◌≢◌, refl, sym, ap, subst, ◌∙◌, Bool, true,
  ◌&&◌, ◌==◌, if◌then◌else◌, Option, none, some, List, [], ◌∷◌, ◌++◌, length, take, drop, replicate,
  ==_refl, All, arith,
}
use btdht.Prelude.Bytes.{Byte, bytes_eq, bytes_eq_refl}
use btdht.Address.{Transaction}
use btdht.Transactions.{TxContext, Tx, Client, move_front}
use btdht.Transactions.Ring.{move_front-Makes}
use btdht.Transactions.Invariant.{IsQueue, sent_of, released, Ring-rewritten, IsQueue-consumed}
use btdht.Transactions.Mint.{Cancel, Keeps, Minted, is_sent-nonzero}
use btdht.Transactions.Outcome.{mint-free}
use btdht.Transactions.Queue.{
  is_expired, is_valid_at, is_valid_tx, Dht, is_sent, tx_at, tx_eq, with_client, consume_at,
  consume_transaction, finish_consume, mint_transaction, transaction_of, nonzero, reset_tx,
  decrement, has_free_transaction,
}

module _ {W : Type 0} where
  -- The transaction at `t` is consumed: its context is given out, it waits no more and stands in front.
  pub record Consumed (d : Dht W) (us : List ℕ) (t : ℕ) (ys : List ℕ) (context : TxContext)
      (o : Option (Option TxContext × Dht W)) : Type 0 where
    pub dht : Dht W
    pub result : o ≡ some (some context, dht)
    pub queue : IsQueue dht.client d.now (t ∷ us ++ ys)
    pub now : dht.now ≡ d.now
    pub idle : (tx_at dht t).sent ≡ 0

  module _ (find : Client → Transaction → Option ℕ) (d : Dht W) (us : List ℕ) (t : ℕ) (ys : List ℕ)
      (needle : Transaction) where
    consume_at-Consumed :
        IsQueue d.client d.now (us ++ t ∷ ys)
        → (tx_at d t).sent ≢ 0
        → tx_eq (tx_at d t) needle ≡ true
        → Consumed d us t ys
            (record (tx_at d t).context { latency = d.now - (tx_at d t).sent })
            (consume_at find d needle (some t))
    consume_at-Consumed q waits same =
        let x = tx_at d t in
        let e = released d.client t in
        let m = move_front-Makes e us t ys (
          Ring-rewritten d.client t (reset_tx x) (decrement d.client.active) (us ++ t ∷ ys) refl
            refl q.ring) in
        let out : TxContext = record x.context { latency = d.now - x.sent } in
        let both : (tx_eq x needle && is_sent x) ≡ true =
          ap (λ (b : Bool). b && is_sent x) same ∙ is_sent-nonzero x waits in
        record {
          dht = with_client d m.client;
          result =
              ap
                (λ (b : Bool).
                  if b
                  then finish_consume find out (with_client d e) (move_front e t)
                  else some (none, d))
                both
              ∙ ap (finish_consume find out (with_client d e)) m.result;
          queue = IsQueue-consumed d.client d.now us t ys q waits m;
          now = refl;
          idle = ap (λ (y : Tx). y.sent) (m.same.txs t) ∙ rw (==_refl t) refl;
        }

    -- An answer with six bytes that the tree finds, to a transaction that waits, is consumed.
    pub consume_transaction-Consumed :
        IsQueue d.client d.now (us ++ t ∷ ys)
        → (tx_at d t).sent ≢ 0
        → tx_eq (tx_at d t) needle ≡ true
        → needle.length ≡ 6
        → find d.client needle ≡ some t
        → Consumed d us t ys
            (record (tx_at d t).context { latency = d.now - (tx_at d t).sent })
            (consume_transaction find d needle)
    unfolding consume_transaction
    consume_transaction-Consumed q waits same size found =
        subst
          (Consumed d us t ys (record (tx_at d t).context { latency = d.now - (tx_at d t).sent }))
          (sym (
            ap
              (λ (n : ℕ).
                if n == 6 then consume_at find d needle (find d.client needle) else some (none, d))
              size
            ∙ ap (consume_at find d needle) found))
          (consume_at-Consumed q waits same)

length-nonzero : (r : List Byte) → length (nonzero r) ≡ length r
length-nonzero [] = refl
length-nonzero (b ∷ bs) = ap suc (length-nonzero bs)

take_front :
    (n : ℕ) (xs ys : List Byte)
    → length xs ≡ n
    → (take n (xs ++ ys) ≡ xs) × (drop n (xs ++ ys) ≡ ys)
take_front n [] ys e = rw (sym e) (refl, refl)
take_front n (x ∷ xs) ys e =
    rw (sym e) (let more = take_front (length xs) xs ys refl in (ap (λ zs. x ∷ zs) more.0, more.1))

-- A transaction equals the one that its two parts make.
tx_eq-transaction_of :
    (x : Tx) → length x.prefix ≡ 2 → length x.suffix ≡ 4 → tx_eq x (transaction_of x) ≡ true
tx_eq-transaction_of x p s =
    let front = take_front 2 x.prefix (x.suffix ++ replicate 26 0) p in
    let back = take_front 4 x.suffix (replicate 26 0) s in
    let parts : Bool =
      bytes_eq (take 2 (transaction_of x).id) x.prefix
      && bytes_eq (take 4 (drop 2 (transaction_of x).id)) x.suffix in
    let first : parts
        ≡ (bytes_eq x.prefix x.prefix && bytes_eq (take 4 (x.suffix ++ replicate 26 0)) x.suffix) =
      λ i. bytes_eq (front.0 i) x.prefix && bytes_eq (take 4 (front.1 i)) x.suffix in
    first ∙ (λ i. bytes_eq_refl x.prefix i && bytes_eq (back.0 i) x.suffix) ∙ bytes_eq_refl x.suffix

-- The tree is ordered by the prefixes: it finds the one transaction with the prefix of the needle.
abbrev pub FindsByPrefix : (Client → Transaction → Option ℕ) → Type 0
FindsByPrefix find =
    (c : Client) (needle : Transaction) (t : ℕ)
    → t < 1024
    → (c.buffer t).prefix ≡ take 2 needle.id
    → ((u : ℕ) → u < 1024 → u ≢ t → (c.buffer u).prefix ≢ take 2 needle.id)
    → find c needle ≡ some t

abbrev pub DistinctPrefixes : Client → Type 0
DistinctPrefixes c =
    (t u : ℕ) → t < 1024 → u < 1024 → u ≢ t → (c.buffer u).prefix ≢ (c.buffer t).prefix

IsQueue-later : (c : Client) (n m : ℕ) (xs : List ℕ) → n ≤ m → IsQueue c n xs → IsQueue c m xs
IsQueue-later c n m xs le q = record {
  ring = q.ring;
  ordered = q.ordered;
  past = later xs q.past;
  active = q.active;
  size = q.size;
}
  where
    later : (ys : List ℕ) → All (λ x. sent_of c x ≤ n) ys → All (λ x. sent_of c x ≤ m) ys
    later [] h = tt
    later (y ∷ ys) h = (omega (arith, h.0, le), later ys h.1)

not-late : (b : Bool) → not (if b then false else true) ≡ b
not-late true = refl
not-late false = refl

module _ {W : Type 0} (timeout : ℕ) (cancel : Cancel W) (keeps : Keeps cancel)
    (find : Client → Transaction → Option ℕ) (finds : FindsByPrefix find) where
  valid_until :
      (x : Tx) (later sent : ℕ)
      → x.sent ≡ sent
      → 0 < sent
      → not (is_expired timeout x later) ≡ ltb later (sent + timeout)
  valid_until x later sent e positive =
      ap
        (λ (b : Bool).
          not (if b then if ltb later (x.sent + timeout) then false else true else true))
        (is_sent-nonzero x (λ z. omega (arith, z, e, positive)))
      ∙ not-late (ltb later (x.sent + timeout))
      ∙ ap (λ n. ltb later (n + timeout)) e

  -- What `mint_transaction` gave out, `consume_transaction` takes at any later time: it gives back the
  -- context, with the time since then as its latency, and the list is in order. Before that `is_valid`
  -- holds of it until the timeout. The random number has four bytes, the prefixes two, and no two
  -- transactions have the same prefix.
  pub mint-consume :
      (d : Dht W) (r : List Byte) (ctx : TxContext) (t : ℕ) (ys : List ℕ) (later : ℕ)
      → IsQueue d.client d.now (t ∷ ys)
      → 0 < d.now
      → has_free_transaction timeout d ≡ true
      → t < 1024
      → DistinctPrefixes d.client
      → length (tx_at d t).prefix ≡ 2
      → length r ≡ 4
      → d.now ≤ later
      → (m : Minted d r ctx t ys (mint_transaction timeout cancel d r ctx)) × Consumed
          (record m.dht { now = later })
          ys
          t
          []
          (record ctx { latency = later - d.now })
          (consume_transaction find (record m.dht { now = later }) (transaction_of (tx_at m.dht t)))
        × (is_valid_tx find timeout (record m.dht { now = later }) (transaction_of (tx_at m.dht t))
            ≡ ltb later (d.now + timeout))
  unfolding is_valid_tx
  mint-consume d r ctx t ys later q positive free bound distinct two four le =
      let m = mint-free timeout cancel keeps d r ctx t ys q positive free in
      let e : Dht W = record m.dht { now = later } in
      let x = tx_at m.dht t in
      let has_two : length x.prefix ≡ 2 = ap length (m.prefix t) ∙ two in
      let front = (take_front 2 x.prefix (x.suffix ++ replicate 26 0) has_two).0 in
      let alone : (u : ℕ) → u < 1024 → u ≢ t → (tx_at e u).prefix ≢ take 2 (transaction_of x).id =
        λ u b ne same. distinct t u bound b ne (sym (m.prefix u) ∙ same ∙ front ∙ m.prefix t) in
      let found = finds m.dht.client (transaction_of x) t bound (sym front) alone in
      (
        m,
        subst
            (λ (c : TxContext).
              Consumed e ys t [] c (consume_transaction find e (transaction_of x)))
            (λ i. record (m.context i) { latency = later - m.sent i })
            (consume_transaction-Consumed find e ys t [] (transaction_of x)
              (IsQueue-later m.dht.client d.now later (ys ++ t ∷ []) le m.queue)
              (λ z. omega (arith, z, m.sent, positive))
              (tx_eq-transaction_of x has_two (ap length m.suffix ∙ length-nonzero r ∙ four)) refl
              found),
        ap (is_valid_at find timeout e) found ∙ valid_until x later d.now m.sent positive,
      )
