-- ===== src/Address.antt =====
-- Addresses and the small keys of src/util.cpp, with their comparisons.
pub mod Order
mod Tests
use btdht.Prelude.{
  ℕ, Bool, true, false, not, ◌&&◌, List, [], ◌∷◌, ltb, ◌==◌, if◌then◌else◌, take, replicate,
}
use btdht.Prelude.Bytes.{Byte, bytes_eq}
use btdht.Id.{Key, key_eq}

-- `memcmp(xs, ys, n) < 0` for blocks of one length.
abbrev pub bytes_lt : List Byte → List Byte → Bool
bytes_lt [] ys = false
bytes_lt (x ∷ xs) [] = false
bytes_lt (x ∷ xs) (y ∷ ys) =
    let rest = bytes_lt xs ys in if ltb x y then true else if x == y then rest else false

-- `Ip`, a tagged union.
pub data Ip : Type 0 where
  ipv4 : ℕ → Ip
  ipv6 : List Byte → Ip

-- The operators of `Ip`
unfoldable pub ip_eq : Ip → Ip → Bool
ip_eq (ipv4 a) (ipv4 b) = a == b
ip_eq (ipv6 a) (ipv6 b) = bytes_eq a b
ip_eq (ipv4 a) (ipv6 b) = false
ip_eq (ipv6 a) (ipv4 b) = false

unfoldable pub ip_lt : Ip → Ip → Bool
ip_lt (ipv4 a) (ipv4 b) = ltb a b
ip_lt (ipv6 a) (ipv6 b) = bytes_lt a b
ip_lt (ipv4 a) (ipv6 b) = true
ip_lt (ipv6 a) (ipv4 b) = false

unfoldable pub ip_gt : Ip → Ip → Bool
ip_gt (ipv4 a) (ipv4 b) = ltb b a
ip_gt (ipv6 a) (ipv6 b) = bytes_lt b a
ip_gt (ipv4 a) (ipv6 b) = false
ip_gt (ipv6 a) (ipv4 b) = true

pub record Contact : Type 0 where
  pub ip : Ip
  pub port : ℕ

-- The operators of `Contact`
unfoldable pub contact_eq : Contact → Contact → Bool
contact_eq c d = ip_eq c.ip d.ip && (c.port == d.port)

unfoldable pub contact_lt : Contact → Contact → Bool
contact_lt c d = ip_lt c.ip d.ip

unfoldable pub contact_gt : Contact → Contact → Bool
contact_gt c d = ip_gt c.ip d.ip

pub record IdContact : Type 0 where
  pub contact : Contact
  pub id : Key

-- `IdContact::operator==`
unfoldable pub id_contact_eq : IdContact → IdContact → Bool
id_contact_eq c d = contact_eq c.contact d.contact && key_eq c.id d.id

-- `NodeId::operator<`, and `Infohash::operator>`
unfoldable pub key_lt : Key → Key → Bool
key_lt a b = bytes_lt a b

unfoldable pub infohash_gt : Key → Key → Bool
infohash_gt a b = bytes_lt b a

-- `dht::Token` and `krpc::Transaction`: an array with the length in use.
pub record Token : Type 0 where
  pub id : List Byte
  pub length : ℕ

pub record Transaction : Type 0 where
  pub id : List Byte
  pub length : ℕ

-- `Token::operator==`
unfoldable pub token_eq : Token → Token → Bool
token_eq s t =
    if s.length == t.length then bytes_eq (take s.length s.id) (take s.length t.id) else false

-- `Transaction::operator==`
unfoldable pub transaction_eq : Transaction → Transaction → Bool
transaction_eq s t =
    if not (s.length == t.length) then false else bytes_eq (take s.length s.id) (take s.length t.id)

-- `is_valid(const Token &)`
unfoldable pub token_is_valid : Token → Bool
token_is_valid t = not (bytes_eq (replicate t.length 0) (take t.length t.id))
