-- ===== src/Transactions/Links.antt =====
-- Chains of transactions: each one's `timeout_next` is the next of the chain, whose `timeout_priv`
-- is the one before it. What a chain is before and after a write to one pointer.
use btdht.Prelude.{
  ℕ, ◌≡◌, ◌≢◌, refl, sym, ap, ◌∙◌, inl, inr, Bool, true, false, ◌==◌, if◌then◌else◌, Option, none,
  some, List, [], ◌∷◌, ◌++◌, Bool-cases, ==_iff, All,
}
use btdht.Transactions.{Tx, Client, set_next, set_priv}

abbrev pub next_of : Client → ℕ → Option ℕ
next_of c t = (c.buffer t).timeout_next

abbrev pub priv_of : Client → ℕ → Option ℕ
priv_of c t = (c.buffer t).timeout_priv

abbrev pub Link : Client → ℕ → ℕ → Type 0
Link c a b = (next_of c a ≡ some b) × (priv_of c b ≡ some a)

abbrev pub Chain : Client → List ℕ → Type 0
Chain c [] = Unit
Chain c (x ∷ []) = Unit
Chain c (x ∷ y ∷ r) = Link c x y × Chain c (y ∷ r)

abbrev pub Distinct : List ℕ → Type 0
Distinct [] = Unit
Distinct (x ∷ r) = All (λ y. y ≢ x) r × Distinct r

-- The last of `x ∷ r`, and those before it.
abbrev pub last : ℕ → List ℕ → ℕ
last x [] = x
last x (y ∷ r) = last y r

abbrev pub init : ℕ → List ℕ → List ℕ
init x [] = []
init x (y ∷ r) = x ∷ init y r

-- A chain whose last is followed by one more.
pub Chain-snoc :
    (c : Client) (x : ℕ) (r : List ℕ) (z : ℕ)
    → Chain c (x ∷ r)
    → Link c (last x r) z
    → Chain c (x ∷ r ++ z ∷ [])
Chain-snoc c x [] z h l = (l, tt)
Chain-snoc c x (y ∷ r) z h l = (h.0, Chain-snoc c y r z h.1 l)

pub Chain-unsnoc :
    (c : Client) (x : ℕ) (r : List ℕ) (z : ℕ)
    → Chain c (x ∷ r ++ z ∷ [])
    → Chain c (x ∷ r) × Link c (last x r) z
Chain-unsnoc c x [] z h = (tt, h.0)
Chain-unsnoc c x (y ∷ r) z h = let more = Chain-unsnoc c y r z h.1 in ((h.0, more.0), more.1)

-- A chain stays one when the pointers along it stay.
pub Chain-frame :
    (c d : Client) (x : ℕ) (r : List ℕ)
    → All (λ a. next_of d a ≡ next_of c a) (init x r)
    → All (λ b. priv_of d b ≡ priv_of c b) r
    → Chain c (x ∷ r)
    → Chain d (x ∷ r)
Chain-frame c d x [] hn hp h = tt
Chain-frame c d x (y ∷ r) hn hp h =
    ((hn.0 ∙ h.0.0, hp.0 ∙ h.0.1), Chain-frame c d y r hn.1 hp.1 h.1)

-- What stands at a place after a write to a pointer.
pub if_ap :
    {B : Type 0} (f : Tx → B) (b : Bool) (x y : Tx)
    → f (if b then x else y) ≡ (if b then f x else f y)
if_ap f true x y = refl
if_ap f false x y = refl

-- A part of the transactions that the write at `t` does not change.
pub kept :
    {B : Type 0} (f : Tx → B) (c : Client) (t : ℕ) (x : Tx)
    → f x ≡ f (c.buffer t)
    → (i : ℕ) → f (if i == t then x else c.buffer i) ≡ f (c.buffer i)
kept f c t x same i = elim (Bool-cases (i == t)) [
  | inl e ↦
      if_ap f (i == t) x (c.buffer i)
      ∙ rw e (same ∙ ap (λ k. f (c.buffer k)) (sym ((==_iff i t).0 e)))
  | inr e ↦ if_ap f (i == t) x (c.buffer i) ∙ rw e refl
]

pub next-set_next :
    (c : Client) (t : ℕ) (p : Option ℕ) (i : ℕ)
    → next_of (set_next t p c) i ≡ (if i == t then p else next_of c i)
next-set_next c t p i =
    if_ap (λ (x : Tx). x.timeout_next) (i == t) (record (c.buffer t) { timeout_next = p })
      (c.buffer i)

pub next-set_priv :
    (c : Client) (t : ℕ) (p : Option ℕ) (i : ℕ) → next_of (set_priv t p c) i ≡ next_of c i
next-set_priv c t p i =
    kept (λ (x : Tx). x.timeout_next) c t (record (c.buffer t) { timeout_priv = p }) refl i

pub priv-set_priv :
    (c : Client) (t : ℕ) (p : Option ℕ) (i : ℕ)
    → priv_of (set_priv t p c) i ≡ (if i == t then p else priv_of c i)
priv-set_priv c t p i =
    if_ap (λ (x : Tx). x.timeout_priv) (i == t) (record (c.buffer t) { timeout_priv = p })
      (c.buffer i)

pub priv-set_next :
    (c : Client) (t : ℕ) (p : Option ℕ) (i : ℕ) → priv_of (set_next t p c) i ≡ priv_of c i
priv-set_next c t p i =
    kept (λ (x : Tx). x.timeout_priv) c t (record (c.buffer t) { timeout_next = p }) refl i

-- A transaction without its pointers.
abbrev pub unlinked : Tx → Tx
unlinked x = record x { timeout_next = none; timeout_priv = none }

-- The two clients differ in the pointers of the list alone.
pub record SameTxs (c d : Client) : Type 0 where
  pub txs : (i : ℕ) → unlinked (d.buffer i) ≡ unlinked (c.buffer i)
  pub active : d.active ≡ c.active

pub SameTxs-refl : (c : Client) → SameTxs c c
SameTxs-refl c = record { txs = λ i. refl; active = refl }

pub SameTxs-trans : (c d e : Client) → SameTxs c d → SameTxs d e → SameTxs c e
SameTxs-trans c d e f g = record { txs = λ i. g.txs i ∙ f.txs i; active = g.active ∙ f.active }

pub SameTxs-set_next : (c : Client) (t : ℕ) (p : Option ℕ) → SameTxs c (set_next t p c)
SameTxs-set_next c t p = record {
  txs = kept unlinked c t (record (c.buffer t) { timeout_next = p }) refl;
  active = refl;
}

pub SameTxs-set_priv : (c : Client) (t : ℕ) (p : Option ℕ) → SameTxs c (set_priv t p c)
SameTxs-set_priv c t p = record {
  txs = kept unlinked c t (record (c.buffer t) { timeout_priv = p }) refl;
  active = refl;
}

pub SameTxs-head : (c : Client) (h : Option ℕ) → SameTxs c (record c { timeout_head = h })
SameTxs-head c h = record { txs = λ i. refl; active = refl }
