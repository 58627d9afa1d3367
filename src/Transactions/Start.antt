-- ===== src/Transactions/Start.antt =====
-- The constructor `Client::Client` of src/transaction.cpp: it gives each transaction its prefix and puts
-- it into the list. `order` is the order in which the tree hands out the transactions.
use btdht.Prelude.{
  ℕ, ◌+◌, ◌/◌, ◌%◌, ◌≤◌, ◌≡◌, ◌≢◌, refl, sym, ap, subst, ◌∙◌, inl, inr, false, ◌==◌, if◌then◌else◌,
  Bool-cases, ==_iff, ==_refl, ne→==_false, Option, none, some, List, [], ◌∷◌, length, replicate,
  All, arith,
}
use btdht.Prelude.Bytes.{Byte}
use btdht.Transactions.{Tx, Client, put, add_front}
use btdht.Transactions.Links.{kept, if_ap, Distinct}
use btdht.Transactions.Ring.{Ring, Makes, add_front-Makes}
use btdht.Transactions.Order.{Sorted, count}
use btdht.Transactions.Invariant.{sent_of, Ring-rewritten}

-- `Tx()`
abbrev pub blank_tx : Tx
blank_tx = record {
  context = record { int_handle = none; int_timeout = none; closure = none; latency = 0 };
  timeout_next = none;
  timeout_priv = none;
  sent = 0;
  prefix = 0 ∷ 0 ∷ [];
  suffix = replicate 4 0;
}

abbrev pub blank_client : Client
blank_client = record { buffer = λ i. blank_tx; timeout_head = none; active = 0 }

-- `b++` and `if (b == 'z')`
abbrev pub next_name : Byte × Byte → Byte × Byte
next_name (a, b) = if (b + 1) % 256 == b'z' then ((a + 1) % 256, b'a') else (a, (b + 1) % 256)

abbrev pub with_prefix : Client → ℕ → Byte × Byte → Client
with_prefix c t (a, b) = put t (record (c.buffer t) { prefix = a ∷ b ∷ [] }) c

-- The loop of the constructor
abbrev pub name_all : Byte × Byte → List ℕ → Client → Option Client
name_all name [] c = some c
name_all name (t ∷ ts) c = elim (add_front (with_prefix c t name) t) [
  | none ↦ none
  | some d ↦ name_all (next_name name) ts d
]

unfoldable pub new_client : List ℕ → Option Client
new_client order = name_all (b'a', b'a') order blank_client

-- The name of the transaction in place `k`.
abbrev pub name_of : ℕ → Byte × Byte
name_of k = (97 + k / 25, 97 + k % 25)

next-name_of : (k : ℕ) → k ≤ 1024 → next_name (name_of k) ≡ name_of (k + 1)
next-name_of k h = elim (Bool-cases ((97 + k % 25 + 1) % 256 == b'z')) [
  | inl e ↦
      let last : (97 + k % 25 + 1) % 256 ≡ 122 = (==_iff ((97 + k % 25 + 1) % 256) b'z').0 e in
      rw e (pairs (omega (arith, last)) (omega (arith, last)))
  | inr e ↦ rw e (pairs (omega (arith, ne e)) (omega (arith, ne e)))
]
  where
    pairs : {a b c d : ℕ} → a ≡ c → b ≡ d → ◌≡◌ {A = Byte × Byte} (a, b) (c, d)
    pairs p q = λ i. (p i, q i)

    ne : ((97 + k % 25 + 1) % 256 == b'z') ≡ false → (97 + k % 25 + 1) % 256 ≢ 122
    ne e z = ground (arith, e, z)

-- The transactions from the last to the first have the names of their places.
abbrev pub Named : Client → List ℕ → Type 0
Named c [] = Unit
Named c (t ∷ xs) =
    ((c.buffer t).prefix ≡ (name_of (length xs)).0 ∷ (name_of (length xs)).1 ∷ []) × Named c xs

abbrev pub rev_append : List ℕ → List ℕ → List ℕ
rev_append [] ys = ys
rev_append (x ∷ xs) ys = rev_append xs (x ∷ ys)

-- What holds while the loop runs.
pub record Started (c : Client) (xs : List ℕ) : Type 0 where
  pub ring : Ring c xs
  pub idle : (i : ℕ) → sent_of c i ≡ 0
  pub active : c.active ≡ 0
  pub named : Named c xs

-- The same prefixes, but of `t`.
pub Named-agree :
    (c d : Client) (t : ℕ) (xs : List ℕ)
    → ((u : ℕ) → u ≢ t → (d.buffer u).prefix ≡ (c.buffer u).prefix)
    → All (λ x. x ≢ t) xs
    → Named c xs
    → Named d xs
Named-agree c d t [] e h n = tt
Named-agree c d t (x ∷ xs) e h n = (e x h.0 ∙ n.0, Named-agree c d t xs e h.1 n.1)

module _ (c : Client) (xs : List ℕ) (s : Started c xs) (t : ℕ) (absent : All (λ x. x ≢ t) xs) where
  abbrev named_tx : Tx
  named_tx = record (c.buffer t) { prefix = (name_of (length xs)).0 ∷ (name_of (length xs)).1 ∷ [] }

  abbrev c1 : Client
  c1 = with_prefix c t (name_of (length xs))

  added : Makes c1 (add_front c1 t) (t ∷ xs)
  added = add_front-Makes c1 t xs (Ring-rewritten c t named_tx c.active xs refl refl s.ring) absent

  added-Started : Started added.client (t ∷ xs)
  added-Started = record {
    ring = added.ring;
    idle = λ i.
        ap (λ (y : Tx). y.sent) (added.same.txs i)
        ∙ kept (λ (y : Tx). y.sent) c t named_tx refl i
        ∙ s.idle i;
    active = added.same.active ∙ s.active;
    named = (
      ap (λ (y : Tx). y.prefix) (added.same.txs t) ∙ rw (==_refl t) refl,
      Named-agree c added.client t xs
          (λ u ne.
            ap (λ (y : Tx). y.prefix) (added.same.txs u)
            ∙ if_ap (λ (y : Tx). y.prefix) (u == t) named_tx (c.buffer u)
            ∙ rw (ne→==_false u t ne) refl)
          absent s.named,
    );
  }

pub record Filled (xs : List ℕ) (o : Option Client) : Type 0 where
  pub client : Client
  pub result : o ≡ some client
  pub started : Started client xs

pub name_all-Filled :
    (c : Client) (ts xs : List ℕ)
    → Started c xs
    → Distinct ts
    → All (λ t. All (λ x. x ≢ t) xs) ts
    → length ts + length xs ≤ 1024
    → Filled (rev_append ts xs) (name_all (name_of (length xs)) ts c)
name_all-Filled c [] xs s d h le = record { client = c; result = refl; started = s }
name_all-Filled c (t ∷ ts) xs s d h le =
    let m = added c xs s t h.0 in
    let more =
      name_all-Filled m.client ts (t ∷ xs) (added-Started c xs s t h.0) d.1 (fresh ts d.0 h.1)
        (omega (arith, le)) in
    let name : next_name (name_of (length xs)) ≡ name_of (length (t ∷ xs)) =
      next-name_of (length xs) (omega (arith, le)) ∙ ap name_of (omega arith) in
    subst (λ (o : Option Client). Filled (rev_append ts (t ∷ xs)) (go o)) (sym m.result)
      (subst (λ (n : Byte × Byte). Filled (rev_append ts (t ∷ xs)) (name_all n ts m.client))
        (sym name) more)
  where
    go : Option Client → Option Client
    go none = none
    go (some e) = name_all (next_name (name_of (length xs))) ts e

    fresh :
        (us : List ℕ)
        → All (λ u. u ≢ t) us
        → All (λ u. All (λ x. x ≢ u) xs) us
        → All (λ u. All (λ x. x ≢ u) (t ∷ xs)) us
    fresh [] a b = tt
    fresh (u ∷ us) a b = (((λ e. a.0 (sym e)), b.0), fresh us a.1 b.1)

pub length-rev_append : (xs ys : List ℕ) → length (rev_append xs ys) ≡ length xs + length ys
length-rev_append [] ys = omega arith
length-rev_append (x ∷ xs) ys = omega (arith, length-rev_append xs (x ∷ ys))

module _ (s : ℕ → ℕ) (zero_all : (i : ℕ) → s i ≡ 0) (now : ℕ) where
  all-le : (x : ℕ) (xs : List ℕ) → All (λ y. s x ≤ s y) xs
  all-le x [] = tt
  all-le x (y ∷ ys) = (omega (arith, zero_all x), all-le x ys)

  pub zeros-Sorted : (xs : List ℕ) → Sorted s xs × All (λ x. s x ≤ now) xs × (count s xs ≡ 0)
  zeros-Sorted [] = (tt, tt, refl)
  zeros-Sorted (x ∷ xs) =
      let more = zeros-Sorted xs in
      (
        (all-le x xs, more.0),
        (omega (arith, zero_all x), more.1),
        rw (zero_all x) (omega (arith, more.2)),
      )
