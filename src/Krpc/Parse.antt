-- ===== src/Krpc/Parse.antt =====
-- The parsers of src/krpc_parse.cpp. A parser of a message's body is a loop over the fields: a round
-- tries one reader after the other and starts again behind the first that succeeds, and the loop ends
-- where none does. The loops run on fuel. What the log prints is left out.
pub mod Rounds
pub mod Request
pub mod Response
pub mod Fields
pub mod Correct
pub mod Wants
pub mod Searches
pub mod Peers
pub mod Receive
pub mod Frames
pub mod Received
mod Tests
use btdht.Prelude.{ℕ, zero, suc, Bool, false, not, Option, some, List, [], length, if◌then◌else◌}
use btdht.Prelude.Bytes.{Byte}
use btdht.Address.{Contact}
use btdht.Sp.{Buffer, Sp}
use btdht.Bencode.Decode.{
  Reader, ◌>>=◌, ◌>>◌, return, guard, restoring, parse_valuex, pair_ref, pair_ref_int,
}
use btdht.Bencode.Values.{if_reads, value_ref, list}

-- The first that succeeds.
infixr 6 ◌<|>◌
unfoldable pub ◌<|>◌ : {A : Type 0} → Reader A → Reader A → Reader A
m <|> other = if_reads m return other

-- `!seen && m(p)`
unfoldable pub unless : {A : Type 0} → Bool → Reader A → Reader A
unless seen m = guard (not seen) >> m

-- From `Lstart` on: `round` is what the labels and conditions say.
unfoldable pub again : {S : Type 0} → ℕ → (S → Reader S) → S → Reader S
again zero round s = guard false >> return s
again (suc n) round s = if_reads (round s) (again n round) (return s)

module _ (sp : Sp) where
  -- The loop of the list in `bencode_any`
  unfoldable pub any_items : ℕ → Reader (Unit {0})
  any_items zero = guard false
  any_items (suc n) =
      if_reads (value_ref sp) (λ _. any_items n)
        (if_reads (parse_valuex sp) (λ _. any_items n) (return tt))

  unfoldable pub bencode_any : ℕ → Reader (Unit {0})
  unfolding any_items
  bencode_any fuel =
      if_reads (pair_ref sp) (λ _. return tt)
        (if_reads (pair_ref_int sp) (λ _. return tt)
          (restoring (value_ref sp >>= λ _. list sp (any_items fuel))))

  -- Where `bencode_any` takes a field, nothing else changes.
  abbrev pub any_field : {S : Type 0} → ℕ → S → Reader S
  any_field fuel s = bencode_any fuel >> return s
