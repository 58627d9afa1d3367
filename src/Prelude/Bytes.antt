-- ===== src/Prelude/Bytes.antt =====
-- Blocks of memory as lists of bytes: `memcpy` into a block, and a view of a part of it.
use Prim.Native.Nat.{ℕ, zero, suc, ◌+◌, ◌≤◌, ◌<◌}
use mathlib.Core.Path.{◌≡◌, refl, sym, ap, subst, ◌∙◌}
use mathlib.Core.Bool.{Bool, true, false, ◌&&◌}
use mathlib.Core.List.{List, [], ◌∷◌, ◌++◌}
use native.Mathlib.Omega.{arith}
use btdht.Prelude.Tests.{◌==◌}
use btdht.Prelude.Lists.{length, get_or, set, take, drop, length-set}

abbrev pub Byte : Type 0
Byte = ℕ

-- `memcpy(raw + i, xs, len)`; what lies past the end of the block is lost.
abbrev pub store : List Byte → ℕ → List Byte → List Byte
store raw i [] = raw
store raw i (x ∷ xs) = store (set raw i x) (suc i) xs

-- `n` bytes from `i` on.
abbrev pub slice : List Byte → ℕ → ℕ → List Byte
slice raw i n = take n (drop i raw)

-- `memcmp(xs, ys, n) == 0` for blocks of one length, and the test of the lengths.
abbrev pub bytes_eq : List Byte → List Byte → Bool
bytes_eq [] [] = true
bytes_eq [] (y ∷ ys) = false
bytes_eq (x ∷ xs) [] = false
bytes_eq (x ∷ xs) (y ∷ ys) = (x == y) && bytes_eq xs ys

pub bytes_eq_refl : (xs : List Byte) → bytes_eq xs xs ≡ true
bytes_eq_refl [] = refl
bytes_eq_refl (x ∷ xs) = ground (arith, bytes_eq_refl xs)

pub bytes_eq_sound : (xs ys : List Byte) → bytes_eq xs ys ≡ true → xs ≡ ys
bytes_eq_sound [] [] h = refl
bytes_eq_sound [] (y ∷ ys) h = ground arith
bytes_eq_sound (x ∷ xs) [] h = ground arith
bytes_eq_sound (x ∷ xs) (y ∷ ys) h = ground (arith, bytes_eq_sound xs ys)

pub length-store : (raw : List Byte) (i : ℕ) (xs : List Byte) → length (store raw i xs) ≡ length raw
length-store raw i [] = refl
length-store raw i (x ∷ xs) = length-store (set raw i x) (suc i) xs ∙ length-set raw i x

-- Two writes one behind the other are one.
pub store-append :
    (raw : List Byte) (i : ℕ) (xs ys : List Byte)
    → store (store raw i xs) (i + length xs) ys ≡ store raw i (xs ++ ys)
store-append raw i [] ys = ap (λ j. store raw j ys) (omega arith)
store-append raw i (x ∷ xs) ys =
    ap (λ j. store (store (set raw i x) (suc i) xs) j ys) (omega arith)
    ∙ store-append (set raw i x) (suc i) xs ys

-- A later write elsewhere leaves a byte alone.
pub get_or-set_ne :
    (raw : List Byte) (i j : ℕ) (v d : Byte) → j < i → get_or (set raw i v) j d ≡ get_or raw j d
get_or-set_ne [] i j v d h = refl
get_or-set_ne (x ∷ raw) zero j v d h = elim h [ ]
get_or-set_ne (x ∷ raw) (suc i) zero v d h = refl
get_or-set_ne (x ∷ raw) (suc i) (suc j) v d h = get_or-set_ne raw i j v d (omega arith)

pub take-set : (raw : List Byte) (i n : ℕ) (v : Byte) → n ≤ i → take n (set raw i v) ≡ take n raw
take-set raw i zero v h = refl
take-set [] i (suc n) v h = refl
take-set (x ∷ raw) zero (suc n) v h = absurd (omega arith)
take-set (x ∷ raw) (suc i) (suc n) v h = ap (◌∷◌ x) (take-set raw i n v (omega arith))

-- A write leaves what lies before it alone.
pub take-store :
    (raw : List Byte) (i n : ℕ) (xs : List Byte) → n ≤ i → take n (store raw i xs) ≡ take n raw
take-store raw i n [] h = refl
take-store raw i n (x ∷ xs) h =
    take-store (set raw i x) (suc i) n xs (omega arith) ∙ take-set raw i n x h

store-suc :
    (r : Byte) (raw : List Byte) (i : ℕ) (xs : List Byte)
    → store (r ∷ raw) (suc i) xs ≡ r ∷ store raw i xs
store-suc r raw i [] = refl
store-suc r raw i (x ∷ xs) = store-suc r (set raw i x) (suc i) xs

-- From `i` on the block holds the bytes `xs`.
abbrev pub Holds : List Byte → ℕ → List Byte → Type 0
Holds raw i [] = Unit {0}
Holds raw i (x ∷ xs) = (i < length raw) × (get_or raw i 0 ≡ x) × Holds raw (suc i) xs

Holds-suc :
    (r : Byte) (raw : List Byte) (i : ℕ) (xs : List Byte)
    → Holds raw i xs
    → Holds (r ∷ raw) (suc i) xs
Holds-suc r raw i [] h = tt
Holds-suc r raw i (x ∷ xs) h = (omega arith, h.1, Holds-suc r raw (suc i) xs h.2)

-- What was written can be read back.
pub Holds-store :
    (raw : List Byte) (i : ℕ) (xs : List Byte)
    → i + length xs ≤ length raw
    → Holds (store raw i xs) i xs
Holds-store raw i [] h = tt
Holds-store [] i (x ∷ xs) h = absurd (omega arith)
Holds-store (r ∷ raw) zero (x ∷ xs) h =
    subst (λ block. Holds block 0 (x ∷ xs)) (sym (store-suc x raw 0 xs))
      (omega arith, refl, Holds-suc x _ 0 xs (Holds-store raw 0 xs (omega arith)))
Holds-store (r ∷ raw) (suc i) (x ∷ xs) h =
    subst (λ block. Holds block (suc i) (x ∷ xs)) (sym (store-suc r (set raw i x) (suc i) xs))
      (Holds-suc r _ i (x ∷ xs) (Holds-store raw i (x ∷ xs) (omega arith)))

pub Holds-append :
    (raw : List Byte) (i : ℕ) (xs ys : List Byte)
    → Holds raw i (xs ++ ys)
    → Holds raw i xs × Holds raw (i + length xs) ys
Holds-append raw i [] ys h = (tt, subst (λ j. Holds raw j ys) (omega arith) h)
Holds-append raw i (x ∷ xs) ys h =
    let (front, back) = Holds-append raw (suc i) xs ys h.2 in
    ((h.0, h.1, front), subst (λ j. Holds raw j ys) (omega arith) back)

pub Holds-fits :
    (raw : List Byte) (i : ℕ) (xs : List Byte)
    → Holds raw i xs
    → i ≤ length raw
    → i + length xs ≤ length raw
Holds-fits raw i [] h le = omega arith
Holds-fits raw i (x ∷ xs) h le = omega (arith, Holds-fits raw (suc i) xs h.2 h.0)

drop_cons :
    (raw : List Byte) (i : ℕ) → i < length raw → drop i raw ≡ get_or raw i 0 ∷ drop (suc i) raw
drop_cons [] i h = elim h [ ]
drop_cons (x ∷ raw) zero h = refl
drop_cons (x ∷ raw) (suc i) h = drop_cons raw i (omega arith)

pub slice-Holds :
    (raw : List Byte) (i : ℕ) (xs : List Byte) → Holds raw i xs → slice raw i (length xs) ≡ xs
slice-Holds raw i [] h = refl
slice-Holds raw i (x ∷ xs) h =
    rw (drop_cons raw i h.0, h.1) (ap (◌∷◌ x) (slice-Holds raw (suc i) xs h.2))

-- A write over the whole of a block.
pub store-whole : (old xs : List Byte) → length old ≡ length xs → store old 0 xs ≡ xs
store-whole [] [] h = refl
store-whole [] (x ∷ xs) h = absurd (omega arith)
store-whole (o ∷ old) [] h = absurd (omega arith)
store-whole (o ∷ old) (x ∷ xs) h =
    store-suc x old 0 xs ∙ ap (◌∷◌ x) (store-whole old xs (omega (arith, h)))

pub Holds-whole : (xs : List Byte) → Holds xs 0 xs
Holds-whole [] = tt
Holds-whole (x ∷ xs) = (omega arith, refl, Holds-suc x xs 0 xs (Holds-whole xs))
