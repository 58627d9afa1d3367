-- ===== src/Krpc/Parse/Wants.antt =====
-- The field `want` of a request, as src/krpc_parse.cpp reads it.
use btdht.Prelude.{ℕ, suc, ◌≤◌, ◌≡◌, Bool, true, false, List, [], ◌∷◌, ◌++◌, arith, length, subst}
use btdht.Prelude.Bytes.{Byte, bytes_eq}
use btdht.Prelude.Text.{bytes}
use btdht.Sp.{Sp, SpLaws}
use btdht.Bencode.Spec.{string_text}
use btdht.Bencode.Tree.{list, text}
use btdht.Bencode.Decode.{Reader, ◌>>=◌}
use btdht.Bencode.Decode.Contract.{Reads}
use btdht.Bencode.Decode.Skips.{Skips, bind-Skips, append-Skips}
use btdht.Bencode.Generic.{Front, FrontLaws, is_key}
use btdht.Bencode.Generic.Keys.{is_key-Skips, is_key-at_end}
use btdht.Bencode.Generic.Strings.{pair_strings-Reads, pair_strings-Skips}
use btdht.Krpc.Request.{Texts, Inserts, want_trees}
use btdht.Krpc.Parse.{unless}
use btdht.Krpc.Parse.Request.{pair_want}
use btdht.Krpc.Parse.Rounds.{unless-Skips}

-- The texts of `want`.
abbrev pub want_texts : Bool → Bool → Texts
want_texts true true = bytes "n4" ∷ bytes "n6" ∷ []
want_texts true false = bytes "n4" ∷ []
want_texts false true = bytes "n6" ∷ []
want_texts false false = []

module _ (sp : Sp) (laws : SpLaws sp) (front : Front) (fronts : FrontLaws front)
    (insert : Texts → List Byte → Texts) (inserts : Inserts insert) where
  pub want-Reads :
      (n : ℕ) (n4 n6 : Bool)
      → Reads
          (pair_want sp front insert (suc (suc (suc (suc n)))))
          (string_text (bytes "want") ++ text (list (want_trees n4 n6)))
          (want_texts n4 n6)
  unfolding text
  want-Reads n true true = rw (← inserts (bytes "n4" ∷ []) (bytes "n6") (omega arith)) (
      rw (← inserts [] (bytes "n4") (omega arith)) (
        pair_strings-Reads sp laws front fronts insert (suc (suc (suc n))) (bytes "want")
          (want_texts true true) (omega arith) (omega arith) (omega arith)))
  want-Reads n true false = subst (Reads _ _) (inserts [] (bytes "n4") (omega arith)) (
      pair_strings-Reads sp laws front fronts insert (suc (suc (suc n))) (bytes "want")
        (want_texts true false) (omega arith) (omega arith) (omega arith))
  want-Reads n false true = subst (Reads _ _) (inserts [] (bytes "n6") (omega arith)) (
      pair_strings-Reads sp laws front fronts insert (suc (suc (suc n))) (bytes "want")
        (want_texts false true) (omega arith) (omega arith) (omega arith))
  want-Reads n false false =
      pair_strings-Reads sp laws front fronts insert (suc (suc (suc n))) (bytes "want") []
        (omega arith) (omega arith) (omega arith)

  pub past_want :
      {S : Type 0} (s : Bool) (n : ℕ) (xs : List Byte)
      → Skips (is_key sp front (bytes "want")) xs
      → (k : Texts → Reader S) → Skips (unless s (pair_want sp front insert n >>= k)) xs
  past_want s n xs e k =
      unless-Skips s _ _
        (bind-Skips _ _ _ (pair_strings-Skips sp laws front fronts insert n (bytes "want") xs e))

  pub want_at_end : Skips (is_key sp front (bytes "want")) (b'e' ∷ [])
  want_at_end = is_key-at_end sp laws front fronts (bytes "want") (omega arith)

  pub at_want :
      (rest key : List Byte)
      → length key ≤ 128
      → bytes_eq (bytes "want") key ≡ false
      → Skips (is_key sp front (bytes "want")) (string_text key ++ rest)
  at_want rest key h ne =
      append-Skips _ (string_text key) rest
        (is_key-Skips sp laws front fronts (bytes "want") (omega arith) key h ne)
