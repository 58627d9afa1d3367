-- ===== src/Krpc/Parse/Rounds.antt =====
-- The loops of src/krpc_parse.cpp: how what a round takes adds up to what a parser takes.
use btdht.Prelude.{
  ◌≢◌, ℕ, suc, ◌≡◌, refl, subst, sym, ap, ◌∙◌, Bool, true, false, some, List, [], ◌∷◌, ◌++◌,
  append-nil, append_assoc, arith, length-append,
}
use btdht.Prelude.Bytes.{Byte, Holds, Holds-append}
use btdht.Sp.{Buffer, Sp, SpLaws}
use btdht.Bencode.Spec.{dict_text}
use btdht.Bencode.Decode.{Reader, and_then, ◌>>=◌, return, is}
use btdht.Bencode.Decode.Contract.{
  Reads, Before, joined, bind-Before, bind-Reads, restoring-Reads, return-Reads,
}
use btdht.Bencode.Decode.Skips.{
  Skips, if_reads-taken, if_reads-skipped, bind-Skips, value_ref-Skips, pair_refs-Skips,
  one_byte-Reads,
}
use btdht.Bencode.Values.{dict}
use btdht.Krpc.Parse.{◌<|>◌, unless, again, any_field, bencode_any}

module _ {A : Type 0} where
  pub taken :
      (m other : Reader A) (xs : List Byte) (a : A) → Reads m xs a → Reads (m <|> other) xs a
  unfolding ◌<|>◌
  taken m other xs a e =
      subst (λ t. Reads (m <|> other) t a) (append-nil xs)
        (if_reads-taken m return other xs [] a a e (return-Reads a))

  pub skipped :
      (m other : Reader A) (xs : List Byte) (a : A)
      → Skips m xs
      → Reads other xs a
      → Reads (m <|> other) xs a
  unfolding ◌<|>◌
  skipped m other xs a e f = if_reads-skipped m return other xs a e f

  pub both-Skips :
      (m other : Reader A) (xs : List Byte) → Skips m xs → Skips other xs → Skips (m <|> other) xs
  unfolding ◌<|>◌
  both-Skips m other xs e f = record {
    skips = λ b v h room. rw (e.skips b v h room) (f.skips b v h room);
  }

  pub unseen : (m : Reader A) (xs : List Byte) (a : A) → Reads m xs a → Reads (unless false m) xs a
  unfolding unless
  unseen m xs a e = record { reads = e.reads }

  pub seen-Skips : (m : Reader A) (xs : List Byte) → Skips (unless true m) xs
  unfolding unless
  seen-Skips m xs = record { skips = λ b v h room. refl }

  pub unless-Skips : (s : Bool) (m : Reader A) (xs : List Byte) → Skips m xs → Skips (unless s m) xs
  unfolding unless
  unless-Skips true m xs e = seen-Skips m xs
  unless-Skips false m xs e = record { skips = e.skips }

  pub again-ends :
      (n : ℕ) (round : A → Reader A) (s : A) (zs : List Byte)
      → Skips (round s) zs
      → Before (again (suc n) round s) [] zs s
  unfolding again
  again-ends n round s zs e = record {
    reads = λ b v h room.
        rw (e.skips b v h room) (ap (λ (p : ℕ). (some s, record b { pos = p })) (omega arith));
  }

  pub again-goes :
      (n : ℕ) (round : A → Reader A) (s s' r : A) (xs ys zs : List Byte)
      → Reads (round s) xs s'
      → Before (again n round s') ys zs r
      → Before (again (suc n) round s) (xs ++ ys) zs r
  unfolding again
  again-goes n round s s' r xs ys zs e f = record {
    reads = λ b v h room.
        let found = (bind-Before (round s) (again n round) xs ys zs s' r e f).reads b v h room in
        let whole = subst (Holds b.raw b.pos) (append_assoc xs ys zs) h in
        let front = (Holds-append b.raw b.pos xs (ys ++ zs) whole).0 in
        let sum = length-append xs ys in
        let first = e.reads b v front (omega (arith, length-append (xs ++ ys) zs)) in
        rw first (sym (ap (λ p. and_then p (again n round)) first) ∙ found);
  }

module _ {A B : Type 0} where
  pub mapped :
      (m : Reader A) (f : A → B) (xs : List Byte) (a : A)
      → Reads m xs a
      → Reads (m >>= λ a. return (f a)) xs (f a)
  mapped m f xs a e =
      subst (λ t. Reads (m >>= λ a. return (f a)) t (f a)) (append-nil xs)
        (bind-Reads m _ xs [] a (f a) e (return-Reads (f a)))

  pub finished :
      (m : Reader A) (k : A → Reader B) (xs zs : List Byte) (a : A) (c : B)
      → Before m xs zs a
      → ((b : Buffer) → k a b ≡ (some c, b))
      → Before (m >>= k) xs zs c
  finished m k xs zs a c e f = record { reads = λ b v h room. rw (e.reads b v h room) (f _) }

no_colon : ◌≢◌ {A = ℕ} b'e' b':'
no_colon q = omega (arith, q)

module _ (sp : Sp) (laws : SpLaws sp) where
  pub dict-Reads :
      {A : Type 0} (body : Reader A) (xs : List Byte) (a : A)
      → Before body xs (b'e' ∷ []) a
      → Reads (dict sp body) (dict_text xs) a
  unfolding dict
  dict-Reads body xs a e = restoring-Reads _ _ a (
      bind-Reads _ _ (b'd' ∷ []) (xs ++ b'e' ∷ []) tt a (one_byte-Reads sp laws b'd') (
        joined body _ xs (b'e' ∷ []) a a e
          (mapped (is sp (b'e' ∷ [])) (λ _. a) (b'e' ∷ []) tt (one_byte-Reads sp laws b'e'))))

  -- Where no string begins, `bencode_any` takes nothing.
  bencode_any-Skips : (fuel : ℕ) (xs : List Byte) → Skips (bencode_any sp fuel) (b'e' ∷ xs)
  unfolding bencode_any
  bencode_any-Skips fuel xs =
      let both = pair_refs-Skips sp laws b'e' xs no_colon refl in
      record {
        skips = λ b v h room.
            rw
              (
                both.0.skips b v h room,
                both.1.skips b v h room,
                (value_ref-Skips sp laws b'e' xs no_colon refl).skips b v h room,
              )
              refl;
      }

  pub any_field-Skips :
      {S : Type 0} (fuel : ℕ) (s : S) (xs : List Byte) → Skips (any_field sp fuel s) (b'e' ∷ xs)
  any_field-Skips fuel s xs = bind-Skips _ _ _ (bencode_any-Skips fuel xs)
