-- ===== src/Transactions/Tests.antt =====
-- The theorems on src/transaction.cpp with a client of three transactions in its list: 1 waits for
-- nothing, 2 was sent at the time 10 and 3 at the time 40.
use btdht.Prelude.{
  ltb, ℕ, zero, suc, ◌+◌, ◌/◌, ◌%◌, ◌<◌, ◌≡◌, ◌≢◌, ◌⊎◌, refl, ap, ◌∙◌, inl, inr, true, false, ◌==◌,
  if◌then◌else◌, Bool-cases, ==_iff, Option, none, some, List, [], ◌∷◌, take, replicate, get_or,
  arith,
}
use btdht.Prelude.Bytes.{Byte, bytes_eq, bytes_eq_refl, bytes_eq_sound}
use btdht.Address.{Transaction}
use btdht.Transactions.{TxContext, Client, add_front, add_back, unlink, move_front, then_back}
use btdht.Transactions.Ring.{Ring, Makes, list_refines_sequence}
use btdht.Transactions.Invariant.{IsQueue}
use btdht.Transactions.Mint.{Cancel, Keeps, Minted}
use btdht.Transactions.Outcome.{Refused, mint_transaction-Minted}
use btdht.Transactions.Consume.{Consumed, FindsByPrefix, DistinctPrefixes, mint-consume}
use btdht.Transactions.Awake.{Awoken, on_awake_eager_tx_timeout, on_awake_eager_tx_timeout-Awoken}
use btdht.Transactions.Start.{new_client}
use btdht.Transactions.Fresh.{Fresh, new_client-Fresh}
use btdht.Transactions.Queue.{
  next_available, is_valid_tx, Dht, tx_at, transaction_of, has_free_transaction, mint_transaction,
  consume_transaction,
}

abbrev context : TxContext
context = record { int_handle = some 1; int_timeout = some 2; closure = none; latency = 0 }

abbrev next : ℕ → Option ℕ
next i = if i == 1 then some 2 else if i == 2 then some 3 else if i == 3 then some 1 else none

abbrev priv : ℕ → Option ℕ
priv i = if i == 1 then some 3 else if i == 2 then some 1 else if i == 3 then some 2 else none

abbrev times : ℕ → ℕ
times i = if i == 2 then 10 else if i == 3 then 40 else 0

abbrev client : Client
client = record {
  buffer = λ i. record {
    context = context;
    timeout_next = next i;
    timeout_priv = priv i;
    sent = times i;
    prefix = (97 + i / 25) ∷ (97 + i % 25) ∷ [];
    suffix = replicate 4 0;
  };
  timeout_head = some 1;
  active = 2;
}

abbrev dht : Dht Unit
dht = record { client = client; now = 90; rest = tt }

client-Ring : Ring client (1 ∷ 2 ∷ 3 ∷ [])
client-Ring = record {
  head = refl;
  cycle = (
    ((refl, refl), ((refl, refl), ((refl, refl), tt))),
    (
      ((λ e. omega (arith, e)), ((λ e. omega (arith, e)), tt)),
      (((λ e. omega (arith, e)), tt), (tt, tt)),
    ),
  );
}

client-IsQueue : IsQueue client 90 (1 ∷ 2 ∷ 3 ∷ [])
client-IsQueue = record {
  ring = client-Ring;
  ordered = ((omega arith, (omega arith, tt)), ((omega arith, tt), (tt, tt)));
  past = (omega arith, (omega arith, (omega arith, tt)));
  active = refl;
  size = omega arith;
}

abbrev silent : Cancel Unit
silent f d t n a = d

silent-Keeps : Keeps silent
silent-Keeps = record { client = λ f d t n a. refl; now = λ f d t n a. refl }

list_refines_sequence_example :
    Makes client (add_front client 9) (9 ∷ 1 ∷ 2 ∷ 3 ∷ [])
    × Makes client (add_back client 9) (1 ∷ 2 ∷ 3 ∷ 9 ∷ [])
    × Makes client (unlink client 2) (1 ∷ 3 ∷ [])
    × Makes client (move_front client 2) (2 ∷ 1 ∷ 3 ∷ [])
    × Makes client (then_back 2 (unlink client 2)) (1 ∷ 3 ∷ 2 ∷ [])
list_refines_sequence_example =
    list_refines_sequence client (1 ∷ []) 2 (3 ∷ []) 9 client-Ring
      ((λ e. omega (arith, e)), ((λ e. omega (arith, e)), ((λ e. omega (arith, e)), tt)))

mint_transaction-Minted_example :
    ((has_free_transaction 60 dht ≡ true)
      × (next_available 60 900 dht ≡ 90)
      × Minted dht
          (1 ∷ 0 ∷ 2 ∷ 3 ∷ [])
          context
          1
          (2 ∷ 3 ∷ [])
          (mint_transaction 60 silent dht (1 ∷ 0 ∷ 2 ∷ 3 ∷ []) context))
    ⊎ ((has_free_transaction 60 dht ≡ false)
        × (90 < next_available 60 900 dht)
        × Refused 60 silent silent-Keeps dht
            (1 ∷ 0 ∷ 2 ∷ 3 ∷ [])
            context
            (1 ∷ 2 ∷ 3 ∷ [])
            (mint_transaction 60 silent dht (1 ∷ 0 ∷ 2 ∷ 3 ∷ []) context))
mint_transaction-Minted_example =
    mint_transaction-Minted 60 silent silent-Keeps dht (1 ∷ 0 ∷ 2 ∷ 3 ∷ []) context 900 1
      (2 ∷ 3 ∷ []) client-IsQueue (omega arith)

-- A tree that looks at every transaction.
abbrev scan : ℕ → Client → List Byte → Option ℕ
scan zero c p = none
scan (suc n) c p = let rest = scan n c p in if bytes_eq (c.buffer n).prefix p then some n else rest

scan-found :
    (n : ℕ) (c : Client) (p : List Byte) (t : ℕ)
    → t < n
    → (c.buffer t).prefix ≡ p
    → ((u : ℕ) → u < n → u ≢ t → (c.buffer u).prefix ≢ p)
    → scan n c p ≡ some t
scan-found zero c p t b e alone = absurd (omega (arith, b))
scan-found (suc n) c p t b e alone = elim (Bool-cases (n == t)) [
  | inl same ↦
      let at_t = (==_iff n t).0 same in
      rw
        (ap (λ (k : ℕ). bytes_eq (c.buffer k).prefix p) at_t
          ∙ ap (λ (q : List Byte). bytes_eq q p) e
          ∙ bytes_eq_refl p)
        (ap some at_t)
  | inr other ↦
      let ne : n ≢ t = λ z. ground (arith, z, other) in
      elim (Bool-cases (bytes_eq (c.buffer n).prefix p)) [
        | inl hit ↦ absurd (alone n (omega arith) ne (bytes_eq_sound (c.buffer n).prefix p hit))
        | inr miss ↦
            rw miss
              (scan-found n c p t (omega (arith, b, ne)) e (λ u l. alone u (omega (arith, l))))
      ]
]

abbrev find : Client → Transaction → Option ℕ
find c needle = scan 1024 c (take 2 needle.id)

find-FindsByPrefix : FindsByPrefix find
find-FindsByPrefix c needle t b e alone = scan-found 1024 c (take 2 needle.id) t b e alone

client-DistinctPrefixes : DistinctPrefixes client
client-DistinctPrefixes t u bt bu ne e =
    let high : 97 + u / 25 ≡ 97 + t / 25 = ap (λ (l : List Byte). get_or l 0 0) e in
    let low : 97 + u % 25 ≡ 97 + t % 25 = ap (λ (l : List Byte). get_or l 1 0) e in
    ne (omega (arith, high, low))

mint-consume_example :
    (m : Minted dht
      (1 ∷ 0 ∷ 2 ∷ 3 ∷ [])
      context
      1
      (2 ∷ 3 ∷ [])
      (mint_transaction 60 silent dht (1 ∷ 0 ∷ 2 ∷ 3 ∷ []) context))
    × Consumed
        (record m.dht { now = 95 })
        (2 ∷ 3 ∷ [])
        1
        []
        (record context { latency = 5 })
        (consume_transaction find (record m.dht { now = 95 }) (transaction_of (tx_at m.dht 1)))
    × (is_valid_tx find 60 (record m.dht { now = 95 }) (transaction_of (tx_at m.dht 1))
        ≡ ltb 95 150)
unfolding has_free_transaction
mint-consume_example =
    mint-consume 60 silent silent-Keeps find find-FindsByPrefix dht (1 ∷ 0 ∷ 2 ∷ 3 ∷ []) context 1
      (2 ∷ 3 ∷ []) 95 client-IsQueue (omega arith) refl (omega arith) client-DistinctPrefixes refl
      refl (omega arith)

on_awake_eager_tx_timeout-Awoken_example :
    Awoken 60 silent silent-Keeps 900 dht
      (1 ∷ 2 ∷ 3 ∷ [])
      (on_awake_eager_tx_timeout 1024 60 900 silent dht)
on_awake_eager_tx_timeout-Awoken_example =
    on_awake_eager_tx_timeout-Awoken 60 silent silent-Keeps 900 dht (1 ∷ 2 ∷ 3 ∷ []) 1024
      (omega arith) (omega arith) client-IsQueue

new_client-Fresh_example : Fresh 90 (3 ∷ 8 ∷ 5 ∷ []) (new_client (5 ∷ 8 ∷ 3 ∷ []))
new_client-Fresh_example =
    new_client-Fresh (5 ∷ 8 ∷ 3 ∷ []) 90
      (
        ((λ e. omega (arith, e)), ((λ e. omega (arith, e)), tt)),
        (((λ e. omega (arith, e)), tt), (tt, tt)),
      )
      (omega arith)
