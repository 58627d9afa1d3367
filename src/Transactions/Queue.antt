-- ===== src/Transactions/Queue.antt =====
-- The transactions of src/transaction.cpp: minting, consuming and timing out. The program's code
-- outside it, and what the libraries give, are parameters: `find` is the search in the tree by the
-- first two bytes, `cancel` calls the timeout function of a context, `timeout` is the
-- `transaction_timeout` of a new `Config`, and `r` is what `rand` gave. `rest` is what else a `DHT`
-- has. `none` is a null pointer followed, or a loop that ran out of fuel.
use btdht.Prelude.{
  ℕ, zero, suc, ◌+◌, ◌-◌, ◌%◌, Bool, true, false, not, ◌&&◌, ltb, ◌==◌, if◌then◌else◌, Option, none,
  some, List, [], ◌∷◌, ◌++◌, take, drop, replicate,
}
use btdht.Prelude.Bytes.{Byte, bytes_eq}
use btdht.Address.{Transaction}
use btdht.Transactions.{TxContext, Tx, Client, put, unlink, then_back, move_front}

pub record Dht (W : Type 0) : Type 0 where
  pub client : Client
  pub now : ℕ
  pub rest : W

abbrev pub is_sent : Tx → Bool
is_sent x = not (x.sent == 0)

-- `make`, of the bytes of the random number
abbrev pub nonzero : List Byte → List Byte
nonzero [] = []
nonzero (b ∷ bs) = (if b == 0 then 1 else b) ∷ nonzero bs

abbrev pub make : List Byte → Tx → Tx
make r x = record x { suffix = nonzero r }

abbrev pub reset_context : TxContext → TxContext
reset_context c = record c { int_handle = none; int_timeout = none; closure = none }

-- `reset(Tx &)`
abbrev pub reset_tx : Tx → Tx
reset_tx x = record x { context = reset_context x.context; sent = 0; suffix = replicate 4 0 }

-- `krpc::Transaction(tx->prefix, tx->suffix)`
abbrev pub transaction_of : Tx → Transaction
transaction_of x = record { id = x.prefix ++ (x.suffix ++ replicate 26 0); length = 6 }

-- `Tx::operator==`
abbrev pub tx_eq : Tx → Transaction → Bool
tx_eq x t =
    if t.length == 6
    then bytes_eq (take 2 t.id) x.prefix && bytes_eq (take 4 (drop 2 t.id)) x.suffix
    else false

-- `--active` and `++active`, of 64 bits
abbrev pub decrement : ℕ → ℕ
decrement n = (n + 18446744073709551615) % 18446744073709551616

abbrev pub increment : ℕ → ℕ
increment n = (n + 1) % 18446744073709551616

module _ (timeout : ℕ) where
  abbrev pub expire_time : Tx → ℕ
  expire_time x = x.sent + timeout

  abbrev pub is_expired : Tx → ℕ → Bool
  is_expired x now = if is_sent x then if ltb now (expire_time x) then false else true else true

module _ {W : Type 0} where
  abbrev pub with_client : Dht W → Client → Dht W
  with_client d c = record d { client = c }

  abbrev pub at_client : Dht W → ℕ → Tx → Dht W
  at_client d t x = with_client d (put t x d.client)

  abbrev pub tx_at : Dht W → ℕ → Tx
  tx_at d t = d.client.buffer t

  -- `TxContext::timeout`
  abbrev pub fire : (ℕ → Dht W → Transaction → ℕ → Option ℕ → Dht W) → Option ℕ → Dht W → Tx → Dht W
  fire cancel none d x = d
  fire cancel (some f) d x = cancel f d (transaction_of x) x.sent x.context.closure

  module _ (timeout : ℕ) (cancel : ℕ → Dht W → Transaction → ℕ → Option ℕ → Dht W) where
    -- `--active; context.timeout(dht, tx); reset(*tx);`
    abbrev pub release : Dht W → ℕ → Dht W
    release d t =
        let fewer = with_client d (record d.client { active = decrement d.client.active }) in
        let fired = fire cancel (tx_at d t).context.int_timeout fewer (tx_at d t) in
        at_client fired t (reset_tx (tx_at fired t))

    abbrev pub is_late : Dht W → ℕ → Bool
    is_late d t = is_sent (tx_at d t) && is_expired timeout (tx_at d t) d.now

    abbrev pub finish_mint :
        Transaction → Dht W → Option Client → Option (Option Transaction × Dht W)
    finish_mint out d none = none
    finish_mint out d (some c) = some (some out, with_client d c)

    abbrev pub mint_at : Dht W → ℕ → List Byte → TxContext → Option (Option Transaction × Dht W)
    mint_at d t r ctx =
        if is_sent (tx_at d t)
        then some (none, d)
        else let more = with_client d (record d.client { active = increment d.client.active }) in
          let made = make r (tx_at more t) in
          let d' = at_client more t (record made { context = ctx; sent = d.now }) in
          finish_mint (transaction_of made) d' (then_back t (unlink d'.client t))

    abbrev pub mint_from :
        Dht W → List Byte → TxContext → Option ℕ → Option (Option Transaction × Dht W)
    mint_from d r ctx none = some (none, d)
    mint_from d r ctx (some t) = mint_at (if is_late d t then release d t else d) t r ctx

    -- `some (none, _)` is `false`.
    unfoldable pub mint_transaction :
        Dht W → List Byte → TxContext → Option (Option Transaction × Dht W)
    mint_transaction d r ctx = mint_from d r ctx d.client.timeout_head

    -- `it = next; } while (it != head);`
    abbrev pub continue_at : Dht W → ℕ → Option ℕ → Option (Dht W) → Option (Dht W)
    continue_at d head none more = none
    continue_at d head (some next) more = if next == head then some d else more

    -- The loop of `eager_tx_timeout`, from `it`.
    abbrev pub eager_loop : ℕ → Dht W → ℕ → Option ℕ → Option (Dht W)
    eager_loop zero d head it = none
    eager_loop (suc fuel) d head none = none
    eager_loop (suc fuel) d head (some it) =
        let next = (tx_at d it).timeout_next in
        let d' = if is_late d it then release d it else d in
        let more = eager_loop fuel d' head next in
        if is_late d it
        then continue_at d' head next more
        else if is_sent (tx_at d it)
        then some d
        else continue_at d' head next more

    abbrev pub eager_from : ℕ → Dht W → Option ℕ → Option (Dht W)
    eager_from fuel d none = some d
    eager_from fuel d (some head) = eager_loop fuel d head (some head)

    unfoldable pub eager_tx_timeout : ℕ → Dht W → Option (Dht W)
    eager_tx_timeout fuel d = eager_from fuel d d.client.timeout_head

  module _ (find : Client → Transaction → Option ℕ) where
    abbrev pub finish_consume :
        TxContext → Dht W → Option Client → Option (Option TxContext × Dht W)
    finish_consume out d none = none
    finish_consume out d (some c) = some (some out, with_client d c)

    abbrev pub consume_at : Dht W → Transaction → Option ℕ → Option (Option TxContext × Dht W)
    consume_at d needle none = some (none, d)
    consume_at d needle (some t) =
        let x = tx_at d t in
        let fewer = with_client d (record d.client { active = decrement d.client.active }) in
        let d' = at_client fewer t (reset_tx x) in
        if tx_eq x needle && is_sent x
        then finish_consume (record x.context { latency = d.now - x.sent }) d'
            (move_front d'.client t)
        else some (none, d)

    -- `some (none, _)` is `false`.
    unfoldable pub consume_transaction : Dht W → Transaction → Option (Option TxContext × Dht W)
    consume_transaction d needle =
        if needle.length == 6 then consume_at d needle (find d.client needle) else some (none, d)

    abbrev pub is_valid_at : ℕ → Dht W → Option ℕ → Bool
    is_valid_at timeout d none = false
    is_valid_at timeout d (some t) = not (is_expired timeout (tx_at d t) d.now)

    -- `tx::is_valid`
    unfoldable pub is_valid_tx : ℕ → Dht W → Transaction → Bool
    is_valid_tx timeout d needle = is_valid_at timeout d (find d.client needle)

  abbrev pub has_free_at : ℕ → Dht W → Option ℕ → Bool
  has_free_at timeout d none = false
  has_free_at timeout d (some t) = is_expired timeout (tx_at d t) d.now

  unfoldable pub has_free_transaction : ℕ → Dht W → Bool
  has_free_transaction timeout d = has_free_at timeout d d.client.timeout_head

  abbrev pub available_at : ℕ → ℕ → Dht W → Option ℕ → ℕ
  available_at timeout refresh_interval d none = d.now + refresh_interval
  available_at timeout refresh_interval d (some t) =
      if is_expired timeout (tx_at d t) d.now then d.now else expire_time timeout (tx_at d t)

  unfoldable pub next_available : ℕ → ℕ → Dht W → ℕ
  next_available timeout refresh_interval d =
      available_at timeout refresh_interval d d.client.timeout_head

  -- The loop of `next_timeout`; `some none` is a null result.
  abbrev pub timeout_loop : ℕ → Dht W → ℕ → Option ℕ → Option (Option ℕ)
  timeout_loop zero d head it = none
  timeout_loop (suc fuel) d head none = none
  timeout_loop (suc fuel) d head (some it) =
      let more = timeout_loop fuel d head (tx_at d it).timeout_next in
      if is_sent (tx_at d it) then some (some it) else elim (tx_at d it).timeout_next [
        | none ↦ none
        | some next ↦ if next == head then some none else more
      ]

  abbrev pub timeout_from : ℕ → Dht W → Option ℕ → Option (Option ℕ)
  timeout_from fuel d none = some none
  timeout_from fuel d (some head) = timeout_loop fuel d head (some head)

  unfoldable pub next_timeout : ℕ → Dht W → Option (Option ℕ)
  next_timeout fuel d = timeout_from fuel d d.client.timeout_head
