-- ===== src/Db/Tests.antt =====
-- A token over one refresh of the key.
use btdht.Prelude.{ℕ, ◌+◌, ◌%◌, ◌≡◌, true, List, [], ◌∷◌, arith}
use btdht.Prelude.Bytes.{Byte}
use btdht.Address.{ipv4, Contact}
use btdht.Db.{Hash, IsHash, DhtMetaDatabase, mint_token, is_valid_token, get_token_key}
use btdht.Db.Tokens.{Runs, stay, wait, mint, minted_token-accepted}

abbrev sum : List Byte → ℕ
sum [] = 1
sum (x ∷ xs) = x + sum xs

abbrev adding : Hash
adding = record { encode32 = λ xs. sum xs % 4294967296; encode = λ xs h. (sum xs + h) % 4294967296 }

adding-IsHash : IsHash adding
adding-IsHash xs h = omega arith

abbrev contact : Contact
contact = record { ip = ipv4 167772161; port = 6881 }

abbrev start : DhtMetaDatabase
start = record {
  old_key = record { key = 5; created = 0 };
  new_key = record { key = 6; created = 10 };
  now = 100;
}

abbrev minted : DhtMetaDatabase
minted = (mint_token adding 60 start 7 contact).1

abbrev at_end : DhtMetaDatabase
at_end = (mint_token adding 60 (record minted { now = 160 }) 8 contact).1

minted-Runs : Runs adding 60 minted at_end
unfolding mint_token get_token_key
minted-Runs = mint 8 contact (wait 160 stay (omega arith))

minted_token-accepted_example :
    is_valid_token adding at_end contact (mint_token adding 60 start 7 contact).0 ≡ true
unfolding mint_token get_token_key
minted_token-accepted_example =
    minted_token-accepted adding adding-IsHash 60 start 7 contact at_end (λ z. omega (arith, z))
      minted-Runs (omega arith)
