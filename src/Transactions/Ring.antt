-- ===== src/Transactions/Ring.antt =====
-- The operations on the list of transactions do to it what they would do to a sequence.
use btdht.Prelude.{
  ℕ, ◌≡◌, ◌≢◌, refl, sym, ap, ◌∙◌, if◌then◌else◌, Option, none, some, List, [], ◌∷◌, ◌++◌, ==_refl,
  ne→==_false, All,
}
use btdht.Transactions.{
  Client, set_next, set_priv, enlist, enlist_at, add_front, add_back, drop_head, unlink, move_front,
  link_in, link_out, is_at, then_back,
}
use btdht.Transactions.Links.{
  next_of, priv_of, Distinct, last, next-set_next, next-set_priv, priv-set_priv, SameTxs,
  SameTxs-trans, SameTxs-set_next, SameTxs-set_priv, SameTxs-head,
}
use btdht.Transactions.Cycle.{
  Cycle, relinked, SameTxs-after, All-split, Cycle-append, Cycle-link_in, Cycle-link_out,
}

abbrev pub first : List ℕ → Option ℕ
first [] = none
first (x ∷ r) = some x

-- The list has the transactions `xs`, in this order from its head.
pub record Ring (c : Client) (xs : List ℕ) : Type 0 where
  pub head : c.timeout_head ≡ first xs
  pub cycle : Cycle c xs

-- The operation succeeds, with the list `xs`, and changes the pointers of the list alone.
pub record Makes (c : Client) (o : Option Client) (xs : List ℕ) : Type 0 where
  pub client : Client
  pub result : o ≡ some client
  pub ring : Ring client xs
  pub same : SameTxs c client

-- The same of `enlist`, which leaves the head to its caller.
record Enlisted (c : Client) (t : ℕ) (xs : List ℕ) (o : Option Client) : Type 0 where
  client : Client
  result : o ≡ some client
  cycle : Cycle client (t ∷ xs)
  same : SameTxs c client

enlist-Enlisted :
    (c : Client) (t : ℕ) (xs : List ℕ)
    → Ring c xs
    → All (λ x. x ≢ t) xs
    → Enlisted c t xs (enlist c t)
unfolding enlist
enlist-Enlisted c t [] ring absent = record {
  client = set_priv t (some t) (set_next t (some t) c);
  result = ap (enlist_at c t) ring.head;
  cycle = (
    (
      (
        next-set_priv (set_next t (some t) c) t (some t) t
            ∙ next-set_next c t (some t) t
            ∙ rw (==_refl t) refl,
        priv-set_priv (set_next t (some t) c) t (some t) t ∙ rw (==_refl t) refl,
      ),
      tt,
    ),
    (tt, tt),
  );
  same =
      SameTxs-trans c _ _ (SameTxs-set_next c t (some t))
        (SameTxs-set_priv (set_next t (some t) c) t (some t));
}
enlist-Enlisted c t (n ∷ r) ring absent =
    let made = Cycle-link_in c t n r absent ring.cycle in
    record {
      client = relinked c t (some n) (some (last n r)) (last n r) (some t) n (some t);
      result = ap (enlist_at c t) ring.head ∙ ap (link_in c t n) made.0;
      cycle = made.1;
      same = SameTxs-after c t (some n) (some (last n r)) n r (some t) (some t);
    }

pub add_front-Makes :
    (c : Client) (t : ℕ) (xs : List ℕ)
    → Ring c xs
    → All (λ x. x ≢ t) xs
    → Makes c (add_front c t) (t ∷ xs)
unfolding add_front
add_front-Makes c t xs ring absent =
    let made = enlist-Enlisted c t xs ring absent in
    record {
      client = record made.client { timeout_head = some t };
      result = rw made.result refl;
      ring = record { head = refl; cycle = made.cycle };
      same = SameTxs-trans c made.client _ made.same (SameTxs-head made.client (some t));
    }

pub next-first :
    (c : Client) (t : ℕ) (xs : List ℕ) → Cycle c (t ∷ xs) → next_of c t ≡ first (xs ++ t ∷ [])
next-first c t [] h = h.0.0.0
next-first c t (n ∷ r) h = h.0.0.0

pub add_back-Makes :
    (c : Client) (t : ℕ) (xs : List ℕ)
    → Ring c xs
    → All (λ x. x ≢ t) xs
    → Makes c (add_back c t) (xs ++ t ∷ [])
unfolding add_back
add_back-Makes c t xs ring absent =
    let made = enlist-Enlisted c t xs ring absent in
    record {
      client = record made.client { timeout_head = next_of made.client t };
      result = rw made.result refl;
      ring = record {
        head = next-first made.client t xs made.cycle;
        cycle = Cycle-append made.client (t ∷ []) xs made.cycle;
      };
      same =
          SameTxs-trans c made.client _ made.same
            (SameTxs-head made.client (next_of made.client t));
    }

-- `unlink` takes the transaction at the head's place or elsewhere out of the cycle.
record Cut (c : Client) (zs : List ℕ) (o : Option Client) : Type 0 where
  client : Client
  result : o ≡ some client
  cycle : Cycle client zs
  same : SameTxs c client
  head : client.timeout_head ≡ c.timeout_head

link_out-Cut :
    (c : Client) (t : ℕ) (zs : List ℕ)
    → Cycle c (t ∷ zs)
    → Cut c zs (link_out c t (next_of c t) (priv_of c t))
link_out-Cut c t [] h = record {
  client = relinked c t none none t (some t) t (some t);
  result = λ i. link_out c t (h.0.0.0 i) (h.0.0.1 i);
  cycle = (tt, tt);
  same = SameTxs-after c t none none t [] (some t) (some t);
  head = refl;
}
link_out-Cut c t (n ∷ r) h =
    let cut = Cycle-link_out c t n r h in
    record {
      client = relinked c t none none (last n r) (some n) n (some (last n r));
      result = λ i. link_out c t (cut.0 i) (cut.1 i);
      cycle = cut.2;
      same = SameTxs-after c t none none n r (some n) (some (last n r));
      head = refl;
    }

pub Distinct-middle :
    (xs : List ℕ) (t : ℕ) (ys : List ℕ) → Distinct (xs ++ t ∷ ys) → All (λ x. x ≢ t) (xs ++ ys)
Distinct-middle [] t ys h = h.0
Distinct-middle (x ∷ xs) t ys h =
    ((λ e. (All-split (λ y. y ≢ x) xs (t ∷ ys) h.0).1.0 (sym e)), Distinct-middle xs t ys h.1)

next_head :
    (t : ℕ) (ys : List ℕ)
    → All (λ y. y ≢ t) ys
    → (if is_at (first (ys ++ t ∷ [])) t then none else first (ys ++ t ∷ [])) ≡ first ys
next_head t [] h = rw (==_refl t) refl
next_head t (y ∷ ys) h = rw (ne→==_false y t h.0) refl

drop_head_lem :
    (c : Client) (xs : List ℕ) (t : ℕ) (ys : List ℕ)
    → Ring c (xs ++ t ∷ ys)
    → drop_head c t ≡ record c { timeout_head = first (xs ++ ys) }
drop_head_lem c [] t ys ring =
    rw (ring.head, ==_refl t, next-first c t ys ring.cycle)
      (λ i. record c { timeout_head = next_head t ys ring.cycle.1.0 i })
drop_head_lem c (x ∷ xs) t ys ring =
    ap
      (λ (h : Option ℕ).
        if is_at h t
        then record c { timeout_head = if is_at (next_of c t) t then none else next_of c t }
        else c)
      ring.head
    ∙ rw (ne→==_false x t (Distinct-middle (x ∷ xs) t ys ring.cycle.1).0)
        (λ i. record c { timeout_head = ring.head i })

pub unlink-Makes :
    (c : Client) (xs : List ℕ) (t : ℕ) (ys : List ℕ)
    → Ring c (xs ++ t ∷ ys)
    → Makes c (unlink c t) (xs ++ ys)
unfolding unlink
unlink-Makes c xs t ys ring =
    let headed : Client = record c { timeout_head = first (xs ++ ys) } in
    let cut = link_out-Cut headed t (ys ++ xs) (Cycle-append c xs (t ∷ ys) ring.cycle) in
    record {
      client = cut.client;
      result =
          ap (λ (d : Client). link_out d t (next_of d t) (priv_of d t))
            (drop_head_lem c xs t ys ring)
          ∙ cut.result;
      ring = record { head = cut.head; cycle = Cycle-append cut.client ys xs cut.cycle };
      same = SameTxs-trans c headed cut.client (SameTxs-head c (first (xs ++ ys))) cut.same;
    }

pub move_front-Makes :
    (c : Client) (xs : List ℕ) (t : ℕ) (ys : List ℕ)
    → Ring c (xs ++ t ∷ ys)
    → Makes c (move_front c t) (t ∷ xs ++ ys)
unfolding move_front
move_front-Makes c xs t ys ring =
    let out = unlink-Makes c xs t ys ring in
    let front =
      add_front-Makes out.client t (xs ++ ys) out.ring (Distinct-middle xs t ys ring.cycle.1) in
    record {
      client = front.client;
      result = rw out.result front.result;
      ring = front.ring;
      same = SameTxs-trans c out.client front.client out.same front.same;
    }

pub move_back-Makes :
    (c : Client) (xs : List ℕ) (t : ℕ) (ys : List ℕ)
    → Ring c (xs ++ t ∷ ys)
    → Makes c (then_back t (unlink c t)) ((xs ++ ys) ++ t ∷ [])
move_back-Makes c xs t ys ring =
    let out = unlink-Makes c xs t ys ring in
    let back =
      add_back-Makes out.client t (xs ++ ys) out.ring (Distinct-middle xs t ys ring.cycle.1) in
    record {
      client = back.client;
      result = rw out.result back.result;
      ring = back.ring;
      same = SameTxs-trans c out.client back.client out.same back.same;
    }

-- The list of transactions behaves as a sequence: a transaction `u` that is not in it is added at the
-- front or at the back, and one in it is taken out, or moved to the front or to the back. None of these
-- follows a null pointer, and none changes anything but the pointers of the list.
pub list_refines_sequence :
    (c : Client) (xs : List ℕ) (t : ℕ) (ys : List ℕ) (u : ℕ)
    → Ring c (xs ++ t ∷ ys)
    → All (λ x. x ≢ u) (xs ++ t ∷ ys)
    → Makes c (add_front c u) (u ∷ xs ++ t ∷ ys)
      × Makes c (add_back c u) ((xs ++ t ∷ ys) ++ u ∷ [])
      × Makes c (unlink c t) (xs ++ ys)
      × Makes c (move_front c t) (t ∷ xs ++ ys)
      × Makes c (then_back t (unlink c t)) ((xs ++ ys) ++ t ∷ [])
list_refines_sequence c xs t ys u ring absent = (
  add_front-Makes c u (xs ++ t ∷ ys) ring absent,
  add_back-Makes c u (xs ++ t ∷ ys) ring absent,
  unlink-Makes c xs t ys ring,
  move_front-Makes c xs t ys ring,
  move_back-Makes c xs t ys ring,
)
