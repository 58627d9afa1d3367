-- ===== src/Bencode/Encode/Contract.antt =====
-- How the contracts of writers compose: `then` concatenates the texts, and `restoring` turns the
-- contract of a writer's parts into that of the whole.
use btdht.Prelude.{
  ℕ, zero, suc, ◌+◌, ◌≤◌, ◌≡◌, refl, ap, sym, ◌∙◌, inl, inr, Bool, true, false, List, [], ◌∷◌, ◌++◌,
  arith, ltb, Bool-cases, ltb→lt, ltb→le, length, take, length-append,
}
use btdht.Prelude.Bytes.{Byte, store-append, length-store, take-store}
use btdht.Sp.{Buffer, IsValid}
use btdht.Bencode.Spec.{appended, Aborted, Rejected, Outcome, Encodes}
use btdht.Bencode.Encode.{Writer, and_then, ◌then◌, reset_to, restoring}

pub appended-IsValid :
    (b : Buffer) (xs : List Byte)
    → IsValid b
    → b.pos + length xs ≤ b.capacity
    → IsValid (appended b xs)
appended-IsValid b xs v h = record { size = v.size ∙ sym (length-store b.raw b.pos xs); cursor = h }

pub appended-append :
    (b : Buffer) (xs ys : List Byte) → appended (appended b xs) ys ≡ appended b (xs ++ ys)
appended-append b xs ys = λ i. record b { raw = store-append b.raw b.pos xs ys i; pos = position i }
  where
    position : b.pos + length xs + length ys ≡ b.pos + length (xs ++ ys)
    position = omega (arith, length-append xs ys)

take-take {ℓ} : {A : Type ℓ} (m n : ℕ) (xs : List A) → m ≤ n → take m (take n xs) ≡ take m xs
take-take zero n xs h = refl
take-take (suc m) zero xs h = absurd (omega arith)
take-take (suc m) (suc n) [] h = refl
take-take (suc m) (suc n) (x ∷ xs) h = ap (◌∷◌ x) (take-take m n xs (omega arith))

-- A failure after a part that wrote behind the cursor only is a failure of the whole.
pub Aborted-after :
    (b b' : Buffer) (r : Bool × Buffer)
    → b'.capacity ≡ b.capacity
    → b'.length ≡ b.length
    → length b'.raw ≡ length b.raw
    → take b.pos b'.raw ≡ take b.pos b.raw
    → b.pos ≤ b'.pos
    → Aborted b' r
    → Aborted b r
Aborted-after b b' r capacity filled size kept le h = record {
  failed = h.failed;
  capacity = h.capacity ∙ capacity;
  filled = h.filled ∙ filled;
  size = h.size ∙ size;
  kept =
      sym (take-take b.pos b'.pos r.1.raw le)
      ∙ ap (take b.pos) h.kept
      ∙ take-take b.pos b'.pos b'.raw le
      ∙ kept;
}

Aborted-appended :
    (b : Buffer) (xs : List Byte) (r : Bool × Buffer) → Aborted (appended b xs) r → Aborted b r
Aborted-appended b xs r h =
    Aborted-after b (appended b xs) r refl refl (length-store b.raw b.pos xs)
      (take-store b.raw b.pos b.pos xs (omega arith)) (omega arith) h

Aborted-and_then :
    (b : Buffer) (r : Bool × Buffer) (k : Writer) → Aborted b r → Aborted b (and_then r k)
Aborted-and_then b (true, b') k h = cc h.failed
Aborted-and_then b (false, b') k h = h

Aborted-reset : (b : Buffer) (r : Bool × Buffer) → Aborted b r → Rejected b (reset_to b.pos r)
Aborted-reset b (true, b') h = cc h.failed
Aborted-reset b (false, b') h = record {
  aborted = record {
    failed = h.failed;
    capacity = h.capacity;
    filled = h.filled;
    size = h.size;
    kept = h.kept;
  };
  cursor = refl;
}

-- The contract without the cursor, of the parts of a writer.
abbrev pub Emits : Writer → List Byte → Type 0
Emits = Outcome Aborted

pub Encodes-Emits : (m : Writer) (xs : List Byte) → Encodes m xs → Emits m xs
Encodes-Emits m xs e = record { fits = e.fits; refuses = λ b v h. (e.refuses b v h).aborted }

pub restoring-Encodes : (m : Writer) (xs : List Byte) → Emits m xs → Encodes (restoring m) xs
restoring-Encodes m xs e = record {
  fits = λ b v h. rw (e.fits b v h) refl;
  refuses = λ b v h. Aborted-reset b (m b) (e.refuses b v h);
}

pub then-Emits :
    (m k : Writer) (xs ys : List Byte) → Emits m xs → Emits k ys → Emits (m then k) (xs ++ ys)
then-Emits m k xs ys e f = record {
  fits = λ b v h.
      let sum = length-append xs ys in
      rw (e.fits b v (omega arith)) (
        f.fits (appended b xs) (appended-IsValid b xs v (omega arith)) (omega arith)
        ∙ ap (λ (c : Buffer). (true, c)) (appended-append b xs ys));
  refuses = λ b v h. elim (Bool-cases (ltb b.capacity (b.pos + length xs))) [
    | inl over ↦ Aborted-and_then b (m b) k (e.refuses b v (ltb→lt _ _ over))
    | inr under ↦
        let room : b.pos + length xs ≤ b.capacity = ltb→le _ _ under in
        rw (e.fits b v room) (
          Aborted-appended b xs _ (
            f.refuses (appended b xs) (appended-IsValid b xs v room)
              (omega (arith, length-append xs ys))))
  ];
}
