-- ===== src/Bencode/Decode/Skips.antt =====
-- How a reader that refuses what stands at the cursor goes together with the one that is tried next.
use btdht.Prelude.{
  [], le→ltb, ==_refl, ◌≤◌, ℕ, ◌+◌, ◌-◌, ◌^◌, ◌≤◌, ◌<◌, ◌≡◌, ◌≢◌, refl, sym, ap, ◌∙◌, false, none,
  List, ◌∷◌, ◌++◌, arith, ltb, ne→==_false, length, length-append, inl, inr, Bool-cases,
}
use btdht.Prelude.Bytes.{Byte, bytes_eq, Holds, Holds-append, slice-Holds}
use btdht.Sp.{Buffer, Sp, SpLaws}
use btdht.Bencode.Spec.{string_text}
use btdht.Bencode.Decode.{
  is, pair_ref, pair_ref_int, Reader, and_then, ◌>>=◌, ◌>>◌, guard, restoring, is_digit, scan,
  peek_numeric, read_numeric, parse_string, parse_key, take_i, parse_valuex, parse_key_value,
  parse_key_valuex, pair_bool, pair_u64, pair_u32, pair_u16, pair_value_ref,
}
use btdht.Bencode.Decode.Contract.{IsReadable, Reads, bind-Reads}
use btdht.Bencode.Decode.Digits.{at-Holds}
use btdht.Bencode.Decode.Reads.{parse_string-Reads}
use btdht.Bencode.Values.{if_reads, value_ref, pair_token, pair_key, pair_contact}

-- Where the text `xs` stands at the cursor, the reader refuses and leaves the buffer as it was.
pub record Skips {ℓ} {A : Type ℓ} (m : Reader A) (xs : List Byte) : Type ℓ where
  pub skips :
      (b : Buffer)
      → IsReadable b
      → Holds b.raw b.pos xs
      → b.pos + length xs ≤ b.length
      → m b ≡ (none, b)

module _ {ℓ κ} {A : Type ℓ} {B : Type κ} where
  pub if_reads-taken :
      (m : Reader A) (k : A → Reader B) (other : Reader B) (xs ys : List Byte) (a : A) (c : B)
      → Reads m xs a
      → Reads (k a) ys c
      → Reads (if_reads m k other) (xs ++ ys) c
  if_reads-taken m k other xs ys a c e f = record {
    reads = λ b v h room.
        let (front, back) = Holds-append b.raw b.pos xs ys h in
        let sum = length-append xs ys in
        rw (e.reads b v front (omega arith)) (
          sym (ap (λ r. and_then r k) (e.reads b v front (omega arith)))
          ∙ (bind-Reads m k xs ys a c e f).reads b v h room);
  }

  pub if_reads-skipped :
      (m : Reader A) (k : A → Reader B) (other : Reader B) (xs : List Byte) (c : B)
      → Skips m xs
      → Reads other xs c
      → Reads (if_reads m k other) xs c
  if_reads-skipped m k other xs c e f = record {
    reads = λ b v h room. rw (e.skips b v h room) (f.reads b v h room);
  }

  pub bind-Skips :
      (m : Reader A) (k : A → Reader B) (xs : List Byte) → Skips m xs → Skips (m >>= k) xs
  bind-Skips m k xs e = record { skips = λ b v h room. rw (e.skips b v h room) refl }

module _ {ℓ} {A : Type ℓ} where
  pub restoring-Skips : (m : Reader A) (xs : List Byte) → Skips m xs → Skips (restoring m) xs
  restoring-Skips m xs e = record { skips = λ b v h room. rw (e.skips b v h room) refl }

  pub append-Skips : (m : Reader A) (xs ys : List Byte) → Skips m xs → Skips m (xs ++ ys)
  append-Skips m xs ys e = record {
    skips = λ b v h room.
        e.skips b v (Holds-append b.raw b.pos xs ys h).0 (omega (arith, length-append xs ys));
  }

pub guard-Skips : {A : Type 0} (xs : List Byte) (k : Reader A) → Skips (guard false >> k) xs
guard-Skips xs k = record { skips = λ b v h room. refl }

module _ (sp : Sp) (laws : SpLaws sp) where
  -- No number stands where the byte at the cursor is no digit and not the end of one.
  peek_numeric-none :
      (end c : Byte) (b : Buffer)
      → sp.at b b.pos ≡ c
      → c ≢ end
      → is_digit c ≡ false
      → peek_numeric sp end b ≡ none
  unfolding peek_numeric scan
  peek_numeric-none end c b e ne h = elim (Bool-cases (ltb 0 (sp.remaining_read b))) [
    | inl t ↦ rw (t, e, ne→==_false c end ne, h) refl
    | inr t ↦ rw t refl
  ]

  pub parse_string-Skips :
      (c : Byte) (xs : List Byte) → c ≢ b':' → is_digit c ≡ false → Skips (parse_string sp) (c ∷ xs)
  unfolding parse_string read_numeric
  parse_string-Skips c xs ne h = record {
    skips = λ b v held room.
        let e = peek_numeric-none b':' c b (at-Holds sp laws b b.pos c xs v held) ne h in rw e refl;
  }

  pub value_ref-Skips :
      (c : Byte) (xs : List Byte) → c ≢ b':' → is_digit c ≡ false → Skips (value_ref sp) (c ∷ xs)
  unfolding value_ref
  value_ref-Skips c xs ne h = restoring-Skips _ _ (parse_string-Skips c xs ne h)

  pub parse_valuex-Skips : (c : Byte) (xs : List Byte) → c ≢ b'i' → Skips (parse_valuex sp) (c ∷ xs)
  unfolding parse_valuex take_i
  parse_valuex-Skips c xs ne = record {
    skips = λ b v held room.
        let left : sp.remaining_read b ≡ b.length - b.pos = laws.remaining_read_lem b v.cursor in
        rw
          (left, ne→==_false (b.length - b.pos) 0 (λ e. omega arith), held.1, ne→==_false c b'i' ne)
          refl;
  }

  -- Another key than the one asked for is left where it stands, and so is what is no string.
  pub other_key-Skips :
      (key other : List Byte)
      → length other < 2 ^ 64
      → bytes_eq key other ≡ false
      → Skips (parse_key sp key) (string_text other)
  unfolding parse_key
  other_key-Skips key other h ne = record {
    skips = λ b v held room. rw ((parse_string-Reads sp laws other h).reads b v held room, ne) refl;
  }

  pub no_key-Skips :
      (key : List Byte) (c : Byte) (xs : List Byte)
      → c ≢ b':'
      → is_digit c ≡ false
      → Skips (parse_key sp key) (c ∷ xs)
  unfolding parse_key
  no_key-Skips key c xs ne h = restoring-Skips _ _ (bind-Skips _ _ _ (parse_string-Skips c xs ne h))

-- Two values of any kind are left where no string begins.
module _ (sp : Sp) (laws : SpLaws sp) where
  pub pair_refs-Skips :
      (c : Byte) (xs : List Byte)
      → c ≢ b':'
      → is_digit c ≡ false
      → Skips (pair_ref sp) (c ∷ xs) × Skips (pair_ref_int sp) (c ∷ xs)
  unfolding pair_ref pair_ref_int
  pair_refs-Skips c xs ne h = (
    restoring-Skips _ _ (bind-Skips _ _ _ (parse_string-Skips sp laws c xs ne h)),
    restoring-Skips _ _ (bind-Skips _ _ _ (parse_string-Skips sp laws c xs ne h)),
  )

  pub one_byte-Reads : (c : Byte) → Reads (is sp (c ∷ [])) (c ∷ []) tt
  unfolding is
  one_byte-Reads c = record {
    reads = λ b v h room.
        rw
          (
            laws.remaining_read_lem b v.cursor,
            le→ltb (b.length - b.pos) 1 (omega arith),
            slice-Holds b.raw b.pos (c ∷ []) h,
            ==_refl c,
          )
          refl;
  }

-- A pair is left where its key is.
module _ (sp : Sp) (key xs : List Byte) (e : Skips (parse_key sp key) xs) where
  pub parse_key_value-Skips : (n : ℕ) → Skips (parse_key_value sp key n) xs
  unfolding parse_key_value
  parse_key_value-Skips n = restoring-Skips _ _ (bind-Skips _ _ _ e)

  number-Skips : Skips (parse_key_valuex sp key) xs
  unfolding parse_key_valuex
  number-Skips = restoring-Skips _ _ (bind-Skips _ _ _ e)

  pub pair_bool-Skips : Skips (pair_bool sp key) xs
  unfolding pair_bool
  pair_bool-Skips = bind-Skips _ _ _ number-Skips

  pub pair_u64-Skips : Skips (pair_u64 sp key) xs
  unfolding pair_u64
  pair_u64-Skips = restoring-Skips _ _ number-Skips

  pub pair_u32-Skips : Skips (pair_u32 sp key) xs
  unfolding pair_u32
  pair_u32-Skips = restoring-Skips _ _ (bind-Skips _ _ _ number-Skips)

  pub pair_u16-Skips : Skips (pair_u16 sp key) xs
  unfolding pair_u16
  pair_u16-Skips = restoring-Skips _ _ (bind-Skips _ _ _ number-Skips)

  pub pair_value_ref-Skips : Skips (pair_value_ref sp key) xs
  unfolding pair_value_ref
  pair_value_ref-Skips = restoring-Skips _ _ (bind-Skips _ _ _ e)

  pub pair_token-Skips : Skips (pair_token sp key) xs
  unfolding pair_token
  pair_token-Skips = bind-Skips _ _ _ (parse_key_value-Skips 20)

  pub pair_key-Skips : (old : List Byte) → Skips (pair_key sp key old) xs
  unfolding pair_key
  pair_key-Skips old = bind-Skips _ _ _ (parse_key_value-Skips 20)

  pub pair_contact-Skips : Skips (pair_contact sp key) xs
  unfolding pair_contact
  pair_contact-Skips = restoring-Skips _ _ (bind-Skips _ _ _ (parse_key_value-Skips 32))
