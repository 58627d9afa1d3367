-- ===== src/Transactions/Invariant.antt =====
-- The state that the transactions of src/transaction.cpp are kept in: in a circular list, those that
-- wait for no answer first, the others in the order in which they were sent.
use btdht.Prelude.{
  ℕ, suc, ◌+◌, ◌≤◌, ◌<◌, ◌≡◌, ◌≢◌, refl, ap, ◌∙◌, ◌==◌, List, [], ◌∷◌, ◌++◌, length, length-append,
  ne→==_false, All, All-append, arith,
}
use btdht.Transactions.{Tx, Client, put, then_back, unlink, move_front}
use btdht.Transactions.Links.{next_of, priv_of, Chain, if_ap, kept, SameTxs}
use btdht.Transactions.Cycle.{closed, All-split, All-map2}
use btdht.Transactions.Ring.{Ring, Makes, Distinct-middle}
use btdht.Transactions.Order.{
  Sorted, nonzero_at, count, count-append, count-le, count-middle, Sorted-split, Sorted-without,
  Sorted-zeros, Sorted-Agree, Sorted-snoc, count-Agree, le-Agree, All-without, Agree, Changed,
  Changed-Agree, Changed-at,
}
use btdht.Transactions.Queue.{reset_tx, decrement, increment}

abbrev pub sent_of : Client → ℕ → ℕ
sent_of c i = (c.buffer i).sent

-- The list has the transactions `xs` in the order of their time, none of them sent later than `now`,
-- and `active` counts those that wait for an answer. There are no more than `tree_capacity`.
pub record IsQueue (c : Client) (now : ℕ) (xs : List ℕ) : Type 0 where
  pub ring : Ring c xs
  pub ordered : Sorted (sent_of c) xs
  pub past : All (λ x. sent_of c x ≤ now) xs
  pub active : c.active ≡ count (sent_of c) xs
  pub size : length xs ≤ 1024

-- The client after a transaction is written that keeps its pointers.
abbrev pub rewritten : Client → ℕ → Tx → ℕ → Client
rewritten c t x a = put t x (record c { active = a })

Chain-same :
    (c d : Client)
    → ((i : ℕ) → next_of d i ≡ next_of c i)
    → ((i : ℕ) → priv_of d i ≡ priv_of c i)
    → (xs : List ℕ) → Chain c xs
    → Chain d xs
Chain-same c d hn hp [] h = tt
Chain-same c d hn hp (x ∷ []) h = tt
Chain-same c d hn hp (x ∷ y ∷ r) h =
    ((hn x ∙ h.0.0, hp y ∙ h.0.1), Chain-same c d hn hp (y ∷ r) h.1)

module _ (c : Client) (t : ℕ) (x : Tx) (a : ℕ) where
  pub Changed-sent : Changed (sent_of c) (sent_of (rewritten c t x a)) t x.sent
  Changed-sent i = if_ap (λ (y : Tx). y.sent) (i == t) x (c.buffer i)

  pub Ring-rewritten :
      (xs : List ℕ)
      → x.timeout_next ≡ next_of c t
      → x.timeout_priv ≡ priv_of c t
      → Ring c xs
      → Ring (rewritten c t x a) xs
  Ring-rewritten xs en ep ring = record {
    head = ring.head;
    cycle = (
      Chain-same c (rewritten c t x a) (kept (λ (y : Tx). y.timeout_next) c t x en)
          (kept (λ (y : Tx). y.timeout_priv) c t x ep) (closed xs) ring.cycle.0,
      ring.cycle.1,
    );
  }

-- The same numbers in the same list.
sent-SameTxs : (c d : Client) → SameTxs c d → (i : ℕ) → sent_of d i ≡ sent_of c i
sent-SameTxs c d same i = ap (λ (x : Tx). x.sent) (same.txs i)

Agree-all : (s q : ℕ → ℕ) → ((i : ℕ) → q i ≡ s i) → (xs : List ℕ) → Agree s q xs
Agree-all s q h [] = tt
Agree-all s q h (x ∷ xs) = (h x, Agree-all s q h xs)

decrement_lem : (n : ℕ) → n ≤ 1024 → decrement (1 + n) ≡ n
decrement_lem n h = omega (arith, h)

increment_lem : (n : ℕ) → n ≤ 1024 → increment n ≡ n + 1
increment_lem n h = omega (arith, h)

length-middle :
    (xs : List ℕ) (t : ℕ) (ys : List ℕ) → length (xs ++ t ∷ ys) ≡ suc (length (xs ++ ys))
length-middle xs t ys = omega (arith, length-append xs (t ∷ ys), length-append xs ys)

nonzero_one : (s : ℕ → ℕ) (t : ℕ) → s t ≢ 0 → nonzero_at s t ≡ 1
nonzero_one s t h = rw (ne→==_false (s t) 0 h) refl

nonzero_none : (s : ℕ → ℕ) (t : ℕ) → s t ≡ 0 → nonzero_at s t ≡ 0
nonzero_none s t h = rw h refl

-- A transaction given up: it waits no more, and `active` is one less.
abbrev pub released : Client → ℕ → Client
released c t = rewritten c t (reset_tx (c.buffer t)) (decrement c.active)

pub sent-released : (c : Client) (t : ℕ) → Changed (sent_of c) (sent_of (released c t)) t 0
sent-released c t = Changed-sent c t (reset_tx (c.buffer t)) (decrement c.active)

module _ (c : Client) (now : ℕ) (us : List ℕ) (t : ℕ) (ys : List ℕ)
    (q : IsQueue c now (us ++ t ∷ ys)) (waits : sent_of c t ≢ 0) where
  abbrev d : Client
  d = released c t

  absent : All (λ x. x ≢ t) (us ++ ys)
  absent = Distinct-middle us t ys q.ring.cycle.1

  agree : Agree (sent_of c) (sent_of d) (us ++ ys)
  agree = Changed-Agree (sent_of c) (sent_of d) t 0 (sent-released c t) (us ++ ys) absent

  gone : sent_of d t ≡ 0
  gone = Changed-at (sent_of c) (sent_of d) t 0 (sent-released c t)

  ring_kept : Ring d (us ++ t ∷ ys)
  ring_kept =
      Ring-rewritten c t (reset_tx (c.buffer t)) (decrement c.active) (us ++ t ∷ ys) refl refl
        q.ring

  rest_count : c.active ≡ 1 + count (sent_of d) (us ++ ys)
  rest_count = omega (
    arith,
    q.active,
    count-middle (sent_of c) us t ys,
    nonzero_one (sent_of c) t waits,
    count-Agree (sent_of c) (sent_of d) (us ++ ys) agree,
  )

  few : count (sent_of d) (us ++ ys) ≤ 1024
  few = omega (arith, count-le (sent_of d) (us ++ ys), length-middle us t ys, q.size)

  fewer : d.active ≡ count (sent_of d) (us ++ ys)
  fewer = ap decrement rest_count ∙ decrement_lem (count (sent_of d) (us ++ ys)) few

  zero_first : (zs : List ℕ) → All (λ z. sent_of d t ≤ sent_of d z) zs
  zero_first [] = tt
  zero_first (z ∷ zs) = (omega (arith, gone), zero_first zs)

  t_past : sent_of d t ≤ now
  t_past = omega (arith, gone)

  rest_past : All (λ x. sent_of d x ≤ now) (us ++ ys)
  rest_past =
      le-Agree (sent_of c) (sent_of d) now (us ++ ys) agree
        (All-without (λ x. sent_of c x ≤ now) us t ys q.past)

  -- Given up in its place, behind others that wait for nothing.
  pub IsQueue-released : All (λ u. sent_of c u ≡ 0) us → IsQueue d now (us ++ t ∷ ys)
  IsQueue-released zeros =
      let parts = All-split (λ x. sent_of d x ≡ sent_of c x) us ys agree in
      let pasts = All-split (λ x. sent_of d x ≤ now) us ys rest_past in
      record {
        ring = ring_kept;
        ordered =
            Sorted-zeros (sent_of d) us (t ∷ ys) (All-map2 us (λ u e z. e ∙ z) parts.0 zeros) (
              zero_first ys,
              Sorted-Agree (sent_of c) (sent_of d) ys parts.1
                  (Sorted-split (sent_of c) us (t ∷ ys) q.ordered).1.1,
            );
        past = All-append (λ x. sent_of d x ≤ now) us (t ∷ ys) pasts.0 (t_past, pasts.1);
        active =
            omega (arith, fewer, count-middle (sent_of d) us t ys, nonzero_none (sent_of d) t gone);
        size = q.size;
      }

  -- Given up and moved to the front.
  pub IsQueue-consumed :
      (m : Makes d (move_front d t) (t ∷ us ++ ys)) → IsQueue m.client now (t ∷ us ++ ys)
  IsQueue-consumed m =
      let zs = t ∷ us ++ ys in
      let same = Agree-all (sent_of d) (sent_of m.client) (sent-SameTxs d m.client m.same) zs in
      let order =
        Sorted-Agree (sent_of c) (sent_of d) (us ++ ys) agree
          (Sorted-without (sent_of c) us t ys q.ordered) in
      record {
        ring = m.ring;
        ordered =
            Sorted-Agree (sent_of d) (sent_of m.client) zs same (zero_first (us ++ ys), order);
        past = le-Agree (sent_of d) (sent_of m.client) now zs same (t_past, rest_past);
        active = omega (
          arith,
          m.same.active,
          fewer,
          nonzero_none (sent_of d) t gone,
          count-Agree (sent_of d) (sent_of m.client) zs same,
        );
        size = omega (arith, q.size, length-middle us t ys);
      }

-- Sent at the front and moved to the back.
module _ (c : Client) (now : ℕ) (t : ℕ) (ys : List ℕ) (q : IsQueue c now (t ∷ ys))
    (idle : sent_of c t ≡ 0) (x : Tx) where
  abbrev sent_client : Client
  sent_client = rewritten c t x (increment c.active)

  pub IsQueue-minted :
      x.sent ≡ now
      → 0 < now
      → (m : Makes sent_client (then_back t (unlink sent_client t)) (ys ++ t ∷ []))
      → IsQueue m.client now (ys ++ t ∷ [])
  IsQueue-minted at_now positive m =
      let e = sent_client in
      let zs = ys ++ t ∷ [] in
      let changed = Changed-sent c t x (increment c.active) in
      let agree = Changed-Agree (sent_of c) (sent_of e) t x.sent changed ys q.ring.cycle.1.0 in
      let latest : sent_of e t ≡ now =
        Changed-at (sent_of c) (sent_of e) t x.sent changed ∙ at_now in
      let pasts = le-Agree (sent_of c) (sent_of e) now ys agree q.past.1 in
      let order = Sorted-Agree (sent_of c) (sent_of e) ys agree q.ordered.1 in
      let same = Agree-all (sent_of e) (sent_of m.client) (sent-SameTxs e m.client m.same) zs in
      let more : c.active ≡ count (sent_of e) ys = omega (
        arith,
        q.active,
        nonzero_none (sent_of c) t idle,
        count-Agree (sent_of c) (sent_of e) ys agree,
      ) in
      let one : nonzero_at (sent_of e) t ≡ 1 =
        nonzero_one (sent_of e) t (λ z. omega (arith, z, latest, positive)) in
      record {
        ring = m.ring;
        ordered = Sorted-Agree (sent_of e) (sent_of m.client) zs same (
            Sorted-snoc (sent_of e) ys t order
              (All-map2 ys (λ y l k. omega (arith, l, latest)) pasts pasts));
        past =
            le-Agree (sent_of e) (sent_of m.client) now zs same
              (All-append (λ y. sent_of e y ≤ now) ys (t ∷ []) pasts (omega (arith, latest), tt));
        active = omega (
          arith,
          m.same.active,
          ap increment more,
          increment_lem (count (sent_of e) ys) (omega (arith, count-le (sent_of e) ys, q.size)),
          count-Agree (sent_of e) (sent_of m.client) zs same,
          count-append (sent_of e) ys (t ∷ []),
          one,
        );
        size = omega (arith, q.size, length-append ys (t ∷ []));
      }
