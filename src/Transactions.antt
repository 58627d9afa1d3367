-- ===== src/Transactions.antt =====
-- The circular list of transactions of src/transaction.cpp, with the types of src/shared.h. `buffer`
-- gives each index of `Client::buffer` its transaction, and a pointer to a transaction is its
-- index. An operation that follows a null pointer gives `none`.
pub mod Links
pub mod Cycle
pub mod Ring
pub mod Order
pub mod Queue
pub mod Invariant
pub mod Mint
pub mod Outcome
pub mod Consume
pub mod Turn
pub mod Eager
pub mod Awake
pub mod Start
pub mod Fresh
mod Tests
use btdht.Prelude.{ℕ, Bool, true, false, ◌==◌, if◌then◌else◌, Option, none, some, List, []}
use btdht.Prelude.Bytes.{Byte}

-- `TxContext`; the functions and the closure are numbered.
pub record TxContext : Type 0 where
  pub int_handle : Option ℕ
  pub int_timeout : Option ℕ
  pub closure : Option ℕ
  pub latency : ℕ

pub record Tx : Type 0 where
  pub context : TxContext
  pub timeout_next : Option ℕ
  pub timeout_priv : Option ℕ
  pub sent : ℕ
  pub prefix : List Byte
  pub suffix : List Byte

-- What `tx` keeps in a `Client`.
pub record Client : Type 0 where
  pub buffer : ℕ → Tx
  pub timeout_head : Option ℕ
  pub active : ℕ

-- `p == t` of a pointer and a transaction
abbrev pub is_at : Option ℕ → ℕ → Bool
is_at none t = false
is_at (some p) t = p == t

-- A transaction written at its place.
abbrev pub put : ℕ → Tx → Client → Client
put t x c = record c { buffer = λ i. if i == t then x else c.buffer i }

-- `t->timeout_next = p` and `t->timeout_priv = p`
abbrev pub set_next : ℕ → Option ℕ → Client → Client
set_next t p c = put t (record (c.buffer t) { timeout_next = p }) c

abbrev pub set_priv : ℕ → Option ℕ → Client → Client
set_priv t p c = put t (record (c.buffer t) { timeout_priv = p }) c

-- The four writes between a transaction and the one in front of it.
abbrev pub link_in : Client → ℕ → ℕ → Option ℕ → Option Client
link_in c t next none = none
link_in c t next (some priv) = some (
    set_priv t (some priv)
      (set_next t (some next) (set_next priv (some t) (set_priv next (some t) c))))

abbrev pub enlist_at : Client → ℕ → Option ℕ → Option Client
enlist_at c t (some next) = link_in c t next (c.buffer next).timeout_priv
enlist_at c t none = some (set_priv t (some t) (set_next t (some t) c))

unfoldable pub enlist : Client → ℕ → Option Client
enlist c t = enlist_at c t c.timeout_head

abbrev pub at_front : ℕ → Option Client → Option Client
at_front t none = none
at_front t (some c) = some (record c { timeout_head = some t })

unfoldable pub add_front : Client → ℕ → Option Client
unfolding enlist
add_front c t = at_front t (enlist c t)

abbrev pub behind : ℕ → Option Client → Option Client
behind t none = none
behind t (some c) = some (record c { timeout_head = (c.buffer t).timeout_next })

unfoldable pub add_back : Client → ℕ → Option Client
unfolding enlist
add_back c t = behind t (enlist c t)

-- `if (self.timeout_head == t)` of `unlink`
abbrev pub drop_head : Client → ℕ → Client
drop_head c t =
    let next = (c.buffer t).timeout_next in
    if is_at c.timeout_head t
    then record c { timeout_head = if is_at next t then none else next }
    else c

abbrev pub link_out : Client → ℕ → Option ℕ → Option ℕ → Option Client
link_out c t none priv = none
link_out c t (some next) none = none
link_out c t (some next) (some priv) =
    some
      (set_priv t none (set_next t none (set_next priv (some next) (set_priv next (some priv) c))))

unfoldable pub unlink : Client → ℕ → Option Client
unlink c t =
    let c' = drop_head c t in link_out c' t (c'.buffer t).timeout_next (c'.buffer t).timeout_priv

abbrev pub then_front : ℕ → Option Client → Option Client
then_front t none = none
then_front t (some c) = add_front c t

unfoldable pub move_front : Client → ℕ → Option Client
unfolding unlink
move_front c t = then_front t (unlink c t)

-- `unlink(self, tx); add_back(self, tx);` of `mint_transaction`
abbrev pub then_back : ℕ → Option Client → Option Client
then_back t none = none
then_back t (some c) = add_back c t
