-- ===== src/Transactions/Cycle.antt =====
-- Cycles of transactions: a chain whose last is followed by its first, and what becomes of a cycle
-- when a transaction is linked in or out, or when it is read from another start.
use btdht.Prelude.{
  ℕ, ◌≡◌, ◌≢◌, refl, sym, ap, ◌∙◌, subst, ◌==◌, if◌then◌else◌, Option, none, some, List, [], ◌∷◌,
  ◌++◌, append_assoc, append-nil, ne→==_false, ==_refl, All, All-append,
}
use btdht.Transactions.{Client, set_next, set_priv}
use btdht.Transactions.Links.{
  next_of, priv_of, Link, Chain, Distinct, last, init, Chain-snoc, Chain-unsnoc, Chain-frame,
  next-set_next, next-set_priv, priv-set_next, priv-set_priv, SameTxs, SameTxs-trans,
  SameTxs-set_next, SameTxs-set_priv,
}

-- A list with its first once more at the end.
abbrev pub closed : List ℕ → List ℕ
closed [] = []
closed (x ∷ r) = x ∷ r ++ x ∷ []

abbrev pub Cycle : Client → List ℕ → Type 0
Cycle c xs = Chain c (closed xs) × Distinct xs

-- The four writes by which a transaction is linked in and out.
abbrev pub relinked : Client → ℕ → Option ℕ → Option ℕ → ℕ → Option ℕ → ℕ → Option ℕ → Client
relinked c t tn tp p pn n np = set_priv t tp (set_next t tn (set_next p pn (set_priv n np c)))

pub All-map2 :
    {P Q R : ℕ → Type 0} (xs : List ℕ)
    → ((x : ℕ) → P x → Q x → R x)
    → All P xs
    → All Q xs
    → All R xs
All-map2 [] f h k = tt
All-map2 (x ∷ xs) f h k = (f x h.0 k.0, All-map2 xs f h.1 k.1)

All-init : (P : ℕ → Type 0) (x : ℕ) (r : List ℕ) → All P (x ∷ r) → All P (init x r)
All-init P x [] h = tt
All-init P x (y ∷ r) h = (h.0, All-init P y r h.1)

All-last : (P : ℕ → Type 0) (x : ℕ) (r : List ℕ) → All P (x ∷ r) → P (last x r)
All-last P x [] h = h.0
All-last P x (y ∷ r) h = All-last P y r h.1

pub All-split : (P : ℕ → Type 0) (xs ys : List ℕ) → All P (xs ++ ys) → All P xs × All P ys
All-split P [] ys h = (tt, h)
All-split P (x ∷ xs) ys h = ((h.0, (All-split P xs ys h.1).0), (All-split P xs ys h.1).1)

Distinct-init : (x : ℕ) (r : List ℕ) → Distinct (x ∷ r) → All (λ a. a ≢ last x r) (init x r)
Distinct-init x [] h = tt
Distinct-init x (y ∷ r) h = ((λ e. All-last (λ z. z ≢ x) y r h.0 (sym e)), Distinct-init y r h.1)

Distinct-snoc : (x : ℕ) (r : List ℕ) → All (λ y. y ≢ x) r → Distinct r → Distinct (r ++ x ∷ [])
Distinct-snoc x [] h d = (tt, tt)
Distinct-snoc x (y ∷ r) h d =
    (All-append (λ z. z ≢ y) r (x ∷ []) d.0 ((λ e. h.0 (sym e)), tt), Distinct-snoc x r h.1 d.1)

last-snoc : (y x : ℕ) (r : List ℕ) → last y (r ++ x ∷ []) ≡ x
last-snoc y x [] = refl
last-snoc y x (z ∷ r) = last-snoc z x r

rotate : (c : Client) (x : ℕ) (r : List ℕ) → Cycle c (x ∷ r) → Cycle c (r ++ x ∷ [])
rotate c x [] h = h
rotate c x (y ∷ r) h = (
  Chain-snoc c y (r ++ x ∷ []) y h.0.1 (subst (λ k. Link c k y) (sym (last-snoc y x r)) h.0.0),
  Distinct-snoc x (y ∷ r) h.1.0 h.1.1,
)

-- A cycle may be read from any of its transactions.
pub Cycle-append : (c : Client) (xs ys : List ℕ) → Cycle c (xs ++ ys) → Cycle c (ys ++ xs)
Cycle-append c [] ys h = subst (Cycle c) (sym (append-nil ys)) h
Cycle-append c (x ∷ xs) ys h = subst (Cycle c) (append_assoc ys (x ∷ []) xs) (
    Cycle-append c xs (ys ++ x ∷ [])
      (subst (Cycle c) (append_assoc xs ys (x ∷ [])) (rotate c x (xs ++ ys) h)))

module _ (c : Client) (t : ℕ) (tn tp : Option ℕ) (n : ℕ) (r : List ℕ) (pn np : Option ℕ) where
  abbrev after : Client
  after = relinked c t tn tp (last n r) pn n np

  next-after :
      (i : ℕ) → next_of after i ≡ (if i == t then tn else if i == last n r then pn else next_of c i)
  next-after i =
      next-set_priv (set_next t tn (set_next (last n r) pn (set_priv n np c))) t tp i
      ∙ next-set_next (set_next (last n r) pn (set_priv n np c)) t tn i
      ∙ ap (λ q. if i == t then tn else q)
          (next-set_next (set_priv n np c) (last n r) pn i
            ∙ ap (λ q. if i == last n r then pn else q) (next-set_priv c n np i))

  priv-after :
      (i : ℕ) → priv_of after i ≡ (if i == t then tp else if i == n then np else priv_of c i)
  priv-after i =
      priv-set_priv (set_next t tn (set_next (last n r) pn (set_priv n np c))) t tp i
      ∙ ap (λ q. if i == t then tp else q)
          (priv-set_next (set_next (last n r) pn (set_priv n np c)) t tn i
            ∙ priv-set_next (set_priv n np c) (last n r) pn i
            ∙ priv-set_priv c n np i)

  pub SameTxs-after : SameTxs c after
  SameTxs-after = SameTxs-trans c _ after (SameTxs-set_priv c n np) (
      SameTxs-trans _ _ after (SameTxs-set_next (set_priv n np c) (last n r) pn) (
        SameTxs-trans _ _ after (SameTxs-set_next (set_next (last n r) pn (set_priv n np c)) t tn)
          (SameTxs-set_priv (set_next t tn (set_next (last n r) pn (set_priv n np c))) t tp)))

  next-at : next_of after t ≡ tn
  next-at = next-after t ∙ rw (==_refl t) refl

  priv-at : priv_of after t ≡ tp
  priv-at = priv-after t ∙ rw (==_refl t) refl

  module _ (absent : All (λ x. x ≢ t) (n ∷ r)) where
    next-last : next_of after (last n r) ≡ pn
    next-last =
        next-after (last n r)
        ∙ rw (ne→==_false (last n r) t (All-last (λ x. x ≢ t) n r absent), ==_refl (last n r)) refl

    priv-first : priv_of after n ≡ np
    priv-first = priv-after n ∙ rw (ne→==_false n t absent.0, ==_refl n) refl

    Chain-after : Distinct (n ∷ r) → Chain c (n ∷ r) → Chain after (n ∷ r)
    Chain-after d h =
        Chain-frame c after n r
          (All-map2 (init n r)
            (λ a p q. next-after a ∙ rw (ne→==_false a t p, ne→==_false a (last n r) q) refl)
            (All-init (λ x. x ≢ t) n r absent) (Distinct-init n r d))
          (All-map2 r (λ b p q. priv-after b ∙ rw (ne→==_false b t p, ne→==_false b n q) refl)
            absent.1 d.0)
          h

-- Linked in before the first of a cycle, a transaction is in front of it.
pub Cycle-link_in :
    (c : Client) (t n : ℕ) (r : List ℕ)
    → All (λ x. x ≢ t) (n ∷ r)
    → Cycle c (n ∷ r)
    → (priv_of c n ≡ some (last n r))
      × Cycle (relinked c t (some n) (some (last n r)) (last n r) (some t) n (some t)) (t ∷ n ∷ r)
Cycle-link_in c t n r absent h =
    let parts = Chain-unsnoc c n r n h.0 in
    let d = relinked c t (some n) (some (last n r)) (last n r) (some t) n (some t) in
    let tn = some n in
    let tp = some (last n r) in
    let whole = Chain-after c t tn tp n r (some t) (some t) absent h.1 parts.0 in
    let back : Link d (last n r) t =
      (next-last c t tn tp n r (some t) (some t) absent, priv-at c t tn tp n r (some t) (some t)) in
    let front : Link d t n = (
      next-at c t tn tp n r (some t) (some t),
      priv-first c t tn tp n r (some t) (some t) absent,
    ) in
    (parts.1.1, ((front, Chain-snoc d n r t whole back), (absent, h.1)))

-- Linked out, the first of a cycle leaves the rest of it.
pub Cycle-link_out :
    (c : Client) (t n : ℕ) (r : List ℕ)
    → Cycle c (t ∷ n ∷ r)
    → (next_of c t ≡ some n)
      × (priv_of c t ≡ some (last n r))
      × Cycle (relinked c t none none (last n r) (some n) n (some (last n r))) (n ∷ r)
Cycle-link_out c t n r h =
    let parts = Chain-unsnoc c n r t h.0.1 in
    let d = relinked c t none none (last n r) (some n) n (some (last n r)) in
    let whole = Chain-after c t none none n r (some n) (some (last n r)) h.1.0 h.1.1 parts.0 in
    let back : Link d (last n r) n = (
      next-last c t none none n r (some n) (some (last n r)) h.1.0,
      priv-first c t none none n r (some n) (some (last n r)) h.1.0,
    ) in
    (h.0.0.0, parts.1.1, (Chain-snoc d n r n whole back, h.1.1))
