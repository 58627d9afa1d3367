-- ===== src/Transactions/Fresh.antt =====
-- A new client of src/transaction.cpp has its list in order, and its transactions have prefixes of their own.
use btdht.Prelude.{
  ℕ, ◌+◌, ◌/◌, ◌%◌, ◌≤◌, ◌≡◌, ◌≢◌, refl, sym, ap, subst, ◌∙◌, Option, some, List, [], ◌∷◌, length,
  get_or, All, arith,
}
use btdht.Prelude.Bytes.{Byte}
use btdht.Transactions.{Client}
use btdht.Transactions.Links.{Distinct}
use btdht.Transactions.Invariant.{IsQueue, sent_of}
use btdht.Transactions.Start.{
  blank_client, new_client, name_of, Named, rev_append, Started, name_all-Filled, length-rev_append,
  zeros-Sorted,
}

-- No two transactions of the list have the same prefix.
abbrev pub Unlike : Client → List ℕ → Type 0
Unlike c [] = Unit
Unlike c (t ∷ xs) = All (λ u. (c.buffer u).prefix ≢ (c.buffer t).prefix) xs × Unlike c xs

abbrev name_bytes : ℕ → List Byte
name_bytes k = (name_of k).0 ∷ (name_of k).1 ∷ []

name_bytes-injective : (i j : ℕ) → name_bytes i ≡ name_bytes j → i ≡ j
name_bytes-injective i j e =
    let high : 97 + i / 25 ≡ 97 + j / 25 = ap (λ (l : List Byte). get_or l 0 0) e in
    let low : 97 + i % 25 ≡ 97 + j % 25 = ap (λ (l : List Byte). get_or l 1 0) e in
    omega (arith, high, low)

Named-below :
    (c : Client) (xs : List ℕ) (k : ℕ)
    → length xs ≤ k
    → Named c xs
    → All (λ u. (c.buffer u).prefix ≢ name_bytes k) xs
Named-below c [] k le n = tt
Named-below c (x ∷ xs) k le n = (
  (λ e.
      let same = name_bytes-injective (length xs) k (sym n.0 ∙ e) in
      absurd (omega (arith, same, le))),
  Named-below c xs k (omega (arith, le)) n.1,
)

Named-Unlike : (c : Client) (xs : List ℕ) → Named c xs → Unlike c xs
Named-Unlike c [] n = tt
Named-Unlike c (t ∷ xs) n = (
  subst (λ (p : List Byte). All (λ u. (c.buffer u).prefix ≢ p) xs) (sym n.0)
      (Named-below c xs (length xs) (omega arith) n.1),
  Named-Unlike c xs n.1,
)

-- A new client.
pub record Fresh (now : ℕ) (xs : List ℕ) (o : Option Client) : Type 0 where
  pub client : Client
  pub result : o ≡ some client
  pub queue : IsQueue client now xs
  pub named : Named client xs
  pub unlike : Unlike client xs

blank-Started : Started blank_client []
blank-Started = record {
  ring = record { head = refl; cycle = (tt, tt) };
  idle = λ i. refl;
  active = refl;
  named = tt;
}

nothing : (ts : List ℕ) → All (λ t. All (λ x. x ≢ t) []) ts
nothing [] = tt
nothing (t ∷ ts) = (tt, nothing ts)

-- The constructor follows no null pointer and leaves a list in order, from the transaction handed out
-- last to the first, if the tree hands out each of at most 1024 once; the transactions have the names
-- of their places as prefixes, no two the same.
pub new_client-Fresh :
    (order : List ℕ) (now : ℕ)
    → Distinct order
    → length order ≤ 1024
    → Fresh now (rev_append order []) (new_client order)
unfolding new_client
new_client-Fresh order now distinct le =
    let f =
      name_all-Filled blank_client order [] blank-Started distinct (nothing order)
        (omega (arith, le)) in
    let xs = rev_append order [] in
    let z = zeros-Sorted (sent_of f.client) f.started.idle now xs in
    record {
      client = f.client;
      result = f.result;
      queue = record {
        ring = f.started.ring;
        ordered = z.0;
        past = z.1;
        active = f.started.active ∙ sym z.2;
        size = omega (arith, length-rev_append order [], le);
      };
      named = f.started.named;
      unlike = Named-Unlike f.client xs f.started.named;
    }
