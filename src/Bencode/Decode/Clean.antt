-- ===== src/Bencode/Decode/Clean.antt =====
-- No reader of src/bencode.cpp changes the bytes, and a refusal puts the cursor back.
use btdht.Prelude.{
  inl, inr, get_or, Bool-cases, length, ◌+◌, ℕ, ◌≡◌, refl, ◌∙◌, Bool, true, false, Option, none,
  some, List, ltb, ◌==◌,
}
use btdht.Prelude.Bytes.{Byte, slice, bytes_eq}
use btdht.Sp.{Buffer, Sp}
use btdht.Bencode.Decode.{
  Reader, and_then, ◌>>=◌, ◌>>◌, return, guard, reset_to, restoring, peek_numeric, read_numeric,
  advance, take_view, parse_string, parse_key, parse_key_value, take_i, parse_valuex,
  parse_key_valuex, is, pair_value_ref, pair_bool, pair_u64, pair_u32, pair_u16, pair_ref,
  pair_ref_int, pair_any,
}

-- The same block, with the cursor somewhere.
pub record Kept (b b' : Buffer) : Type 0 where
  pub raw : b'.raw ≡ b.raw
  pub capacity : b'.capacity ≡ b.capacity
  pub filled : b'.length ≡ b.length

pub record Keeps {ℓ} {A : Type ℓ} (m : Reader A) : Type ℓ where
  pub kept : (b : Buffer) → Kept b (m b).1

-- A refusal leaves the buffer as it was.
pub record IsClean {ℓ} {A : Type ℓ} (m : Reader A) : Type ℓ where
  pub kept : (b : Buffer) → Kept b (m b).1
  pub refused : (b : Buffer) → (m b).0 ≡ none → (m b).1 ≡ b

Kept-refl : (b : Buffer) → Kept b b
Kept-refl b = record { raw = refl; capacity = refl; filled = refl }

Kept-trans : {a b c : Buffer} → Kept a b → Kept b c → Kept a c
Kept-trans h k = record {
  raw = k.raw ∙ h.raw;
  capacity = k.capacity ∙ h.capacity;
  filled = k.filled ∙ h.filled;
}

module _ {ℓ κ} {A : Type ℓ} {B : Type κ} where
  bind-Kept :
      (b : Buffer) (r : Option A × Buffer) (k : A → Reader B)
      → Kept b r.1
      → ((a : A) → Keeps (k a))
      → Kept b (and_then r k).1
  bind-Kept b (none, b') k h e = h
  bind-Kept b (some a, b') k h e = Kept-trans h ((e a).kept b')

  pub bind-Keeps :
      (m : Reader A) (k : A → Reader B) → Keeps m → ((a : A) → Keeps (k a)) → Keeps (m >>= k)
  bind-Keeps m k h e = record { kept = λ b. bind-Kept b (m b) k (h.kept b) e }

module _ {ℓ} {A : Type ℓ} where
  reset_clean :
      (b : Buffer) (r : Option A × Buffer)
      → Kept b r.1
      → Kept b (reset_to b.pos r).1 × ((reset_to b.pos r).0 ≡ none → (reset_to b.pos r).1 ≡ b)
  reset_clean b (some a, b') h = (h, λ e. cc e)
  reset_clean b (none, b') h = (
    record { raw = h.raw; capacity = h.capacity; filled = h.filled },
    λ e i. record b { raw = h.raw i; capacity = h.capacity i; length = h.filled i },
  )

  pub restoring-IsClean : (m : Reader A) → Keeps m → IsClean (restoring m)
  restoring-IsClean m h = record {
    kept = λ b. (reset_clean b (m b) (h.kept b)).0;
    refused = λ b. (reset_clean b (m b) (h.kept b)).1;
  }

  pub IsClean-Keeps : (m : Reader A) → IsClean m → Keeps m
  IsClean-Keeps m h = record { kept = h.kept }

guard-Keeps : (t : Bool) → Keeps (guard t)
guard-Keeps true = record { kept = Kept-refl }
guard-Keeps false = record { kept = Kept-refl }

return-Keeps {ℓ} : {A : Type ℓ} (a : A) → Keeps (return a)
return-Keeps a = record { kept = Kept-refl }

moved-Kept : (b : Buffer) (p : ℕ) → Kept b (record b { pos = p })
moved-Kept b p = record { raw = refl; capacity = refl; filled = refl }

module _ (sp : Sp) where
  advance-Kept : (b : Buffer) (o : Option (ℕ × ℕ)) → Kept b (advance sp b o).1
  advance-Kept b none = Kept-refl b
  advance-Kept b (some (n, read)) = moved-Kept b _

  read_numeric-Keeps : (end : Byte) → Keeps (read_numeric sp end)
  unfolding read_numeric
  read_numeric-Keeps end = record { kept = λ b. advance-Kept b (peek_numeric sp end b) }

  take_view-Keeps : (len : ℕ) → Keeps (take_view sp len)
  unfolding take_view
  take_view-Keeps len = record {
    kept = λ b. elim (Bool-cases (ltb (sp.remaining_read b) len)) [
      | inl e ↦ rw e (Kept-refl b)
      | inr e ↦ rw e (moved-Kept b _)
    ];
  }

  take_i-Keeps : Keeps (take_i sp)
  unfolding take_i
  take_i-Keeps = record {
    kept = λ b. elim (Bool-cases (sp.remaining_read b == 0)) [
      | inl e ↦ rw e (Kept-refl b)
      | inr e ↦ rw e (
          Kept-trans (moved-Kept b (b.pos + 1))
            ((guard-Keeps (get_or b.raw b.pos 0 == b'i')).kept _))
    ];
  }

  is_cases :
      (exact : List Byte) (b : Buffer)
      → Kept b (is sp exact b).1 × ((is sp exact b).0 ≡ none → (is sp exact b).1 ≡ b)
  unfolding is
  is_cases exact b = elim (Bool-cases (ltb (sp.remaining_read b) (length exact))) [
    | inl e ↦ rw e (Kept-refl b, λ _. refl)
    | inr e ↦ rw e (elim (Bool-cases (bytes_eq (slice b.raw b.pos (length exact)) exact)) [
      | inl s ↦ rw s (moved-Kept b _, λ n. cc n)
      | inr s ↦ rw s (Kept-refl b, λ _. refl)
    ])
  ]

  is-IsClean : (exact : List Byte) → IsClean (is sp exact)
  is-IsClean exact = record {
    kept = λ b. (is_cases exact b).0;
    refused = λ b. (is_cases exact b).1;
  }

  parse_string-IsClean : IsClean (parse_string sp)
  unfolding parse_string
  parse_string-IsClean =
      restoring-IsClean _ (bind-Keeps _ _ (read_numeric-Keeps b':') take_view-Keeps)

  string-Keeps : Keeps (parse_string sp)
  string-Keeps = IsClean-Keeps _ parse_string-IsClean

  parse_key-IsClean : (key : List Byte) → IsClean (parse_key sp key)
  unfolding parse_key
  parse_key-IsClean key = restoring-IsClean _ (bind-Keeps _ _ string-Keeps (λ found. guard-Keeps _))

  key-Keeps : (key : List Byte) → Keeps (parse_key sp key)
  key-Keeps key = IsClean-Keeps _ (parse_key-IsClean key)

  parse_valuex-IsClean : IsClean (parse_valuex sp)
  unfolding parse_valuex
  parse_valuex-IsClean =
      restoring-IsClean _ (bind-Keeps _ _ take_i-Keeps (λ _. read_numeric-Keeps b'e'))

  valuex-Keeps : Keeps (parse_valuex sp)
  valuex-Keeps = IsClean-Keeps _ parse_valuex-IsClean

  parse_key_valuex-IsClean : (key : List Byte) → IsClean (parse_key_valuex sp key)
  unfolding parse_key_valuex
  parse_key_valuex-IsClean key =
      restoring-IsClean _ (bind-Keeps _ _ (key-Keeps key) (λ _. valuex-Keeps))

  key_valuex-Keeps : (key : List Byte) → Keeps (parse_key_valuex sp key)
  key_valuex-Keeps key = IsClean-Keeps _ (parse_key_valuex-IsClean key)

  guarded-Keeps {ℓ} : {A : Type ℓ} (t : Bool) (k : Reader A) → Keeps k → Keeps (guard t >> k)
  guarded-Keeps t k h = bind-Keeps (guard t) (λ _. k) (guard-Keeps t) (λ _. h)

  -- `pair` into a `bool` keeps no cursor of its own: `parse_key_valuex` has put it back.
  pair_bool-IsClean : (key : List Byte) → IsClean (pair_bool sp key)
  unfolding pair_bool
  pair_bool-IsClean key = record {
    kept =
        (bind-Keeps (parse_key_valuex sp key) (λ t. return (t == 1)) (key_valuex-Keeps key)
          (λ t. return-Keeps (t == 1))).kept;
    refused =
        λ b. bool_clean b (parse_key_valuex sp key b) ((parse_key_valuex-IsClean key).refused b);
  }
    where
      bool_clean :
          (b : Buffer) (r : Option ℕ × Buffer)
          → (r.0 ≡ none → r.1 ≡ b)
          → (and_then {B = Bool} r (λ t. return (t == 1))).0 ≡ none
          → (and_then {B = Bool} r (λ t. return (t == 1))).1 ≡ b
      bool_clean b (none, c) h e = h refl
      bool_clean b (some t, c) h e = cc e

  -- A reader of strings, keys, integers or pairs that is refused leaves the buffer untouched,
  -- whatever it has read before, and none changes the bytes, the capacity or the length.
  pub readers-IsClean :
      (key : List Byte) (len klen vlen : ℕ)
      → IsClean (parse_string sp)
        × IsClean (parse_key sp key)
        × IsClean (parse_key_value sp key len)
        × IsClean (parse_valuex sp)
        × IsClean (is sp key)
        × IsClean (pair_value_ref sp key)
        × IsClean (pair_bool sp key)
        × IsClean (pair_u64 sp key)
        × IsClean (pair_u32 sp key)
        × IsClean (pair_u16 sp key)
        × IsClean (pair_ref sp)
        × IsClean (pair_ref_int sp)
        × IsClean (pair_any sp klen vlen)
  unfolding parse_key_value pair_value_ref pair_u64 pair_u32 pair_u16 pair_ref pair_ref_int pair_any
  readers-IsClean key len klen vlen = (
    parse_string-IsClean,
    parse_key-IsClean key,
    restoring-IsClean _ (
        bind-Keeps _ _ (key-Keeps key)
          (λ _. bind-Keeps _ _ string-Keeps (λ v. guarded-Keeps _ (return v) (return-Keeps v)))),
    parse_valuex-IsClean,
    is-IsClean key,
    restoring-IsClean _
        (bind-Keeps _ _ (key-Keeps key) (λ _. IsClean-Keeps _ (restoring-IsClean _ string-Keeps))),
    pair_bool-IsClean key,
    restoring-IsClean _ (key_valuex-Keeps key),
    restoring-IsClean _
        (bind-Keeps _ _ (key_valuex-Keeps key) (λ t. guarded-Keeps _ (return t) (return-Keeps t))),
    restoring-IsClean _
        (bind-Keeps _ _ (key_valuex-Keeps key) (λ t. guarded-Keeps _ (return t) (return-Keeps t))),
    restoring-IsClean _
        (bind-Keeps _ _ string-Keeps (λ k. bind-Keeps _ _ string-Keeps (λ v. return-Keeps (k, v)))),
    restoring-IsClean _
        (bind-Keeps _ _ string-Keeps (λ k. bind-Keeps _ _ valuex-Keeps (λ v. return-Keeps (k, v)))),
    restoring-IsClean _ (
        bind-Keeps _ _ string-Keeps (λ k. guarded-Keeps _ _ (
          bind-Keeps _ _ string-Keeps
            (λ v. guarded-Keeps _ (return (k, v)) (return-Keeps (k, v)))))),
  )
