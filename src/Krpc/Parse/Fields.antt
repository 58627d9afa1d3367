-- ===== src/Krpc/Parse/Fields.antt =====
-- The fields of a body, as the parsers of src/krpc_parse.cpp read them.
use btdht.Prelude.{
  ℕ, suc, ◌^◌, ◌≤◌, ◌<◌, ◌≡◌, refl, subst, sym, ◌∙◌, Bool, true, false, List, [], ◌∷◌, ◌++◌, arith,
  length,
}
use btdht.Prelude.Bytes.{Byte, bytes_eq, store, store-whole}
use btdht.Id.{Key}
use btdht.Address.{Token, Contact}
use btdht.Sp.{Sp, SpLaws}
use btdht.Bencode.Spec.{string_text}
use btdht.Bencode.Tree.{nat, str, text}
use btdht.Bencode.Stream.Pairs.{flag}
use btdht.Bencode.Encode.{signed_decimal}
use btdht.Bencode.Decode.{
  Reader, ◌>>=◌, return, parse_key, parse_key_value, pair_bool, pair_u16, pair_value_ref,
}
use btdht.Bencode.Decode.Contract.{Reads}
use btdht.Bencode.Decode.Pairs.{w16, parse_key_value-Reads, pair_of-Reads, pair_bool-Reads}
use btdht.Bencode.Decode.Skips.{
  Skips, bind-Skips, pair_key-Skips, pair_token-Skips, pair_contact-Skips, pair_bool-Skips,
  pair_u16-Skips, pair_value_ref-Skips, parse_key_value-Skips, append-Skips, other_key-Skips,
  no_key-Skips,
}
use btdht.Bencode.Values.{pair_key, pair_token, pair_contact}
use btdht.Krpc.Parse.{◌<|>◌, unless}
use btdht.Krpc.Parse.Rounds.{mapped, unseen, taken, unless-Skips}

-- Fuel for the rounds of any of the requests.
abbrev pub enough : ℕ → ℕ
enough n = suc (suc (suc (suc (suc (suc (suc (suc n)))))))

abbrev pub token_of : List Byte → Token
token_of id = record { id = id; length = length id }

module _ (sp : Sp) (laws : SpLaws sp) (key : List Byte) (hk : length key < 2 ^ 64) where
  -- An id of twenty bytes takes the place of another.
  pub pair_key-Reads :
      (old id : Key)
      → length old ≡ 20
      → length id ≡ 20
      → Reads (pair_key sp key old) (string_text key ++ text (str id)) id
  unfolding pair_key text
  pair_key-Reads old id ho hi =
      subst (λ found. Reads (pair_key sp key old) (string_text key ++ string_text id) found)
        (store-whole old id (ho ∙ sym hi))
        (mapped _ (λ found. store old 0 found) _ id
          (parse_key_value-Reads sp laws key hk id 20 (omega arith) (omega arith)))

  pub pair_token-Reads :
      (id : List Byte)
      → length id ≤ 20
      → Reads (pair_token sp key) (string_text key ++ text (str id)) (token_of id)
  unfolding pair_token text
  pair_token-Reads id h =
      mapped _ token_of _ id (parse_key_value-Reads sp laws key hk id 20 (omega arith) h)

  pub pair_u16-Reads :
      (n : ℕ) → n < 2 ^ 16 → Reads (pair_u16 sp key) (string_text key ++ text (nat n)) n
  unfolding text
  pair_u16-Reads n h = pair_of-Reads sp laws key hk n (omega arith) w16 h

  pub pair_flag-Reads : (f : Bool) → Reads (pair_bool sp key) (string_text key ++ text (flag f)) f
  unfolding text signed_decimal
  pair_flag-Reads true = pair_bool-Reads sp laws key hk 1 (omega arith)
  pair_flag-Reads false = pair_bool-Reads sp laws key hk 0 (omega arith)

  -- What is asked for elsewhere is not at this key, and not at the end.
  pub at_key-Skips :
      (asked rest : List Byte)
      → bytes_eq asked key ≡ false
      → Skips (parse_key sp asked) (string_text key ++ rest)
  at_key-Skips asked rest ne =
      append-Skips _ (string_text key) rest (other_key-Skips sp laws asked key hk ne)

pub at_end-Skips :
    (sp : Sp) (laws : SpLaws sp) (asked : List Byte) → Skips (parse_key sp asked) (b'e' ∷ [])
at_end-Skips sp laws asked = no_key-Skips sp laws asked b'e' [] (λ q. omega (arith, q)) refl

-- A reader of a round is passed over where its key is not at the cursor, or where it has been seen.
module _ {S : Type 0} (sp : Sp) (asked xs : List Byte) (e : Skips (parse_key sp asked) xs)
    (s : Bool) where
  pub past_key :
      (old : Key) (k : Key → Reader S) → Skips (unless s (pair_key sp asked old >>= k)) xs
  past_key old k = unless-Skips s _ _ (bind-Skips _ _ _ (pair_key-Skips sp asked _ e old))

  pub past_token : (k : Token → Reader S) → Skips (unless s (pair_token sp asked >>= k)) xs
  past_token k = unless-Skips s _ _ (bind-Skips _ _ _ (pair_token-Skips sp asked _ e))

  pub past_contact : (k : Contact → Reader S) → Skips (unless s (pair_contact sp asked >>= k)) xs
  past_contact k = unless-Skips s _ _ (bind-Skips _ _ _ (pair_contact-Skips sp asked _ e))

  pub past_flag : (k : Bool → Reader S) → Skips (unless s (pair_bool sp asked >>= k)) xs
  past_flag k = unless-Skips s _ _ (bind-Skips _ _ _ (pair_bool-Skips sp asked _ e))

  pub past_u16 : (k : ℕ → Reader S) → Skips (unless s (pair_u16 sp asked >>= k)) xs
  past_u16 k = unless-Skips s _ _ (bind-Skips _ _ _ (pair_u16-Skips sp asked _ e))

  pub past_bytes :
      (n : ℕ) (k : List Byte → Reader S) → Skips (unless s (parse_key_value sp asked n >>= k)) xs
  past_bytes n k = unless-Skips s _ _ (bind-Skips _ _ _ (parse_key_value-Skips sp asked _ e n))

  pub past_name : (k : List Byte → Reader S) → Skips (unless s (pair_value_ref sp asked >>= k)) xs
  past_name k = unless-Skips s _ _ (bind-Skips _ _ _ (pair_value_ref-Skips sp asked _ e))

-- The reader of the field at the cursor takes it.
pub got :
    {A S : Type 0} (m : Reader A) (f : A → S) (others : Reader S) (xs : List Byte) (a : A)
    → Reads m xs a
    → Reads (unless false (m >>= λ a. return (f a)) <|> others) xs (f a)
got m f others xs a e = taken _ others xs (f a) (unseen _ xs (f a) (mapped m f xs a e))
