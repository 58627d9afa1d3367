-- ===== src/Bencode/Decode/Contract.antt =====
-- The contract of a reader, and how contracts compose.
use btdht.Prelude.{
  subst, append_assoc, ℕ, ◌+◌, ◌≤◌, ◌≡◌, refl, ap, ◌∙◌, Bool, true, false, some, List, [], ◌++◌,
  arith, length, length-append,
}
use btdht.Prelude.Bytes.{Byte, Holds, Holds-append}
use btdht.Sp.{Buffer}
use btdht.Bencode.Decode.{Reader, ◌>>=◌, ◌>>◌, return, guard, restoring}

-- A buffer that was received: the block is as large as it says, and the cursor within what is filled.
pub record IsReadable (b : Buffer) : Type 0 where
  pub size : b.capacity ≡ length b.raw
  pub filled : b.length ≤ b.capacity
  pub cursor : b.pos ≤ b.length

-- Where the text `xs` stands at the cursor, the reader takes it and yields `a`.
pub record Reads {ℓ} {A : Type ℓ} (m : Reader A) (xs : List Byte) (a : A) : Type ℓ where
  pub reads :
      (b : Buffer)
      → IsReadable b
      → Holds b.raw b.pos xs
      → b.pos + length xs ≤ b.length
      → m b ≡ (some a, record b { pos = b.pos + length xs })

-- With `zs` behind it, the reader takes `xs` and yields `a`.
pub record Before {A : Type 0} (m : Reader A) (xs zs : List Byte) (a : A) : Type 0 where
  pub reads :
      (b : Buffer)
      → IsReadable b
      → Holds b.raw b.pos (xs ++ zs)
      → b.pos + length (xs ++ zs) ≤ b.length
      → m b ≡ (some a, record b { pos = b.pos + length xs })

module _ {ℓ κ} {A : Type ℓ} {B : Type κ} where
  pub bind-Reads :
      (m : Reader A) (k : A → Reader B) (xs ys : List Byte) (a : A) (c : B)
      → Reads m xs a
      → Reads (k a) ys c
      → Reads (m >>= k) (xs ++ ys) c
  bind-Reads m k xs ys a c e f = record {
    reads = λ b v h room.
        let (front, back) = Holds-append b.raw b.pos xs ys h in
        let sum = length-append xs ys in
        let b' : Buffer = record b { pos = b.pos + length xs } in
        let valid : IsReadable b' = record {
          size = v.size;
          filled = v.filled;
          cursor = omega arith;
        } in
        let position : b.pos + length xs + length ys ≡ b.pos + length (xs ++ ys) = omega arith in
        rw (e.reads b v front (omega arith)) (
          f.reads b' valid back (omega arith)
          ∙ ap (λ (p : ℕ). (some c, record b { pos = p })) position);
  }

module _ {ℓ} {A : Type ℓ} where
  pub restoring-Reads :
      (m : Reader A) (xs : List Byte) (a : A) → Reads m xs a → Reads (restoring m) xs a
  restoring-Reads m xs a e = record { reads = λ b v h room. rw (e.reads b v h room) refl }

  pub return-Reads : (a : A) → Reads (return a) [] a
  return-Reads a = record {
    reads = λ b v h room. ap (λ (p : ℕ). (some a, record b { pos = p })) (omega arith);
  }

  pub guard-Reads :
      (t : Bool) (k : Reader A) (xs : List Byte) (a : A)
      → t ≡ true
      → Reads k xs a
      → Reads (guard t >> k) xs a
  guard-Reads true k xs a h e = record { reads = e.reads }
  guard-Reads false k xs a h e = cc

pub passed-Reads : (t : Bool) → t ≡ true → Reads (guard t) [] tt
passed-Reads true h = record { reads = (return-Reads tt).reads }
passed-Reads false h = cc

module _ {A B : Type 0} where
  pub joined :
      (m : Reader A) (k : A → Reader B) (xs zs : List Byte) (a : A) (c : B)
      → Before m xs zs a
      → Reads (k a) zs c
      → Reads (m >>= k) (xs ++ zs) c
  joined m k xs zs a c e f = record {
    reads = λ b v h room.
        let (front, back) = Holds-append b.raw b.pos xs zs h in
        let sum = length-append xs zs in
        let b' : Buffer = record b { pos = b.pos + length xs } in
        let valid : IsReadable b' = record {
          size = v.size;
          filled = v.filled;
          cursor = omega arith;
        } in
        let position : b.pos + length xs + length zs ≡ b.pos + length (xs ++ zs) = omega arith in
        rw (e.reads b v h room) (
          f.reads b' valid back (omega arith)
          ∙ ap (λ (p : ℕ). (some c, record b { pos = p })) position);
  }

  pub bind-Before :
      (m : Reader A) (k : A → Reader B) (xs ys zs : List Byte) (a : A) (c : B)
      → Reads m xs a
      → Before (k a) ys zs c
      → Before (m >>= k) (xs ++ ys) zs c
  bind-Before m k xs ys zs a c e f = record {
    reads = λ b v h room.
        let whole = subst (Holds b.raw b.pos) (append_assoc xs ys zs) h in
        let (front, back) = Holds-append b.raw b.pos xs (ys ++ zs) whole in
        let sum = length-append xs ys in
        let all = length-append (xs ++ ys) zs in
        let rest = length-append ys zs in
        let b' : Buffer = record b { pos = b.pos + length xs } in
        let valid : IsReadable b' = record {
          size = v.size;
          filled = v.filled;
          cursor = omega arith;
        } in
        let position : b.pos + length xs + length ys ≡ b.pos + length (xs ++ ys) = omega arith in
        rw (e.reads b v front (omega arith)) (
          f.reads b' valid back (omega arith)
          ∙ ap (λ (p : ℕ). (some c, record b { pos = p })) position);
  }
