-- ===== src/Db.antt =====
-- The tokens of src/db.cpp, by which an announcing peer shows that it asked before. The hash is not in
-- the repository: `encode32` and `encode` are its two functions, the record `Hash`. What `fill` writes
-- into a new key is the parameter `r`.
pub mod Tokens
mod Tests
use btdht.Prelude.{
  ℕ, ◌+◌, ◌/◌, ◌%◌, ◌<◌, Bool, true, false, ltb, if◌then◌else◌, List, [], ◌∷◌, ◌++◌, replicate,
}
use btdht.Prelude.Bytes.{Byte}
use btdht.Address.{Ip, ipv4, ipv6, Contact, Token, token_eq, token_is_valid}

pub record Hash : Type 0 where
  pub encode32 : List Byte → ℕ
  pub encode : List Byte → ℕ → ℕ

-- A hash has 32 bits.
abbrev pub IsHash : Hash → Type 0
IsHash hash = (xs : List Byte) (h : ℕ) → hash.encode xs h < 4294967296

-- `TokenKey`
pub record TokenKey : Type 0 where
  pub key : ℕ
  pub created : ℕ

-- What the tokens use of a `DHTMetaDatabase`: `key[0]`, `key[1]` and the time.
pub record DhtMetaDatabase : Type 0 where
  pub old_key : TokenKey
  pub new_key : TokenKey
  pub now : ℕ

-- The bytes of a number of 32 and of 16 bits, on a machine with the low byte first.
abbrev pub le32 : ℕ → List Byte
le32 n = (n % 256) ∷ (n / 256 % 256) ∷ (n / 65536 % 256) ∷ (n / 16777216 % 256) ∷ []

abbrev pub le16 : ℕ → List Byte
le16 n = (n % 256) ∷ (n / 256 % 256) ∷ []

abbrev pub ip_bytes : Ip → List Byte
ip_bytes (ipv4 a) = le32 a
ip_bytes (ipv6 raw) = raw

module _ (refresh : ℕ) where
  -- `refresh` is `token_key_refresh`.
  unfoldable pub get_token_key : DhtMetaDatabase → ℕ → DhtMetaDatabase
  get_token_key d r =
      if ltb (d.new_key.created + refresh) d.now
      then record d { old_key = d.new_key; new_key = record { key = r; created = d.now } }
      else d

module _ (hash : Hash) where
  abbrev pub hash_of : ℕ → Contact → ℕ
  hash_of key remote =
      hash.encode (le16 remote.port) (hash.encode (ip_bytes remote.ip) (hash.encode32 (le32 key)))

  abbrev pub create_token : ℕ → Contact → Token
  create_token key remote = record { id = le32 (hash_of key remote) ++ replicate 16 0; length = 4 }

  unfoldable pub mint_token : ℕ → DhtMetaDatabase → ℕ → Contact → Token × DhtMetaDatabase
  unfolding get_token_key
  mint_token refresh d r remote =
      let d' = get_token_key refresh d r in (create_token d'.new_key.key remote, d')

  unfoldable pub is_valid_token : DhtMetaDatabase → Contact → Token → Bool
  is_valid_token d contact token =
      if token_is_valid token
      then if token_eq (create_token d.new_key.key contact) token
        then true
        else token_eq (create_token d.old_key.key contact) token
      else false
