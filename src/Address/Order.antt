-- ===== src/Address/Order.antt =====
-- The order of addresses in src/util.cpp.
use btdht.Prelude.{
  ℕ, ◌≡◌, ◌⊎◌, refl, sym, ap, ◌∙◌, inl, inr, Bool, true, false, ◌&&◌, List, [], ◌∷◌, arith, ◌==◌,
  ==_iff, length,
}
use btdht.Prelude.Bytes.{Byte, bytes_eq, bytes_eq_refl, bytes_eq_sound}
use btdht.Address.{
  bytes_lt, Ip, ipv4, ipv6, ip_eq, ip_lt, ip_gt, Contact, contact_eq, contact_lt, contact_gt,
}

bytes_lt_trans :
    (xs ys zs : List Byte) → bytes_lt xs ys ≡ true → bytes_lt ys zs ≡ true → bytes_lt xs zs ≡ true
bytes_lt_trans [] ys zs h k = h
bytes_lt_trans (x ∷ xs) [] zs h k = ground (arith, h)
bytes_lt_trans (x ∷ xs) (y ∷ ys) [] h k = k
bytes_lt_trans (x ∷ xs) (y ∷ ys) (z ∷ zs) h k = ground (arith, bytes_lt_trans xs ys zs, h, k)

bytes_lt_irrefl : (xs : List Byte) → bytes_lt xs xs ≡ false
bytes_lt_irrefl [] = refl
bytes_lt_irrefl (x ∷ xs) = ground (arith, bytes_lt_irrefl xs)

-- One of two blocks of one length is less, or they are equal.
bytes_lt_total :
    (xs ys : List Byte)
    → length xs ≡ length ys
    → (bytes_lt xs ys ≡ true) ⊎ ((bytes_eq xs ys ≡ true) ⊎ (bytes_lt ys xs ≡ true))
bytes_lt_total [] [] e = inr (inl refl)
bytes_lt_total [] (y ∷ ys) e = ground (arith, e)
bytes_lt_total (x ∷ xs) [] e = ground (arith, e)
bytes_lt_total (x ∷ xs) (y ∷ ys) e = ground (arith, bytes_lt_total xs ys (omega (arith, e)))

-- An address of version six has sixteen bytes.
pub data IsIp : Ip → Type 0 where
  version4 : (a : ℕ) → IsIp (ipv4 a)
  version6 : (a : List Byte) → length a ≡ 16 → IsIp (ipv6 a)

-- `<` of addresses is transitive.
pub ip_lt_trans : (a b c : Ip) → ip_lt a b ≡ true → ip_lt b c ≡ true → ip_lt a c ≡ true
unfolding ip_lt
ip_lt_trans (ipv4 a) (ipv4 b) (ipv4 c) h k = ground (arith, h, k)
ip_lt_trans (ipv4 a) (ipv4 b) (ipv6 c) h k = refl
ip_lt_trans (ipv4 a) (ipv6 b) (ipv4 c) h k = ground (arith, k)
ip_lt_trans (ipv4 a) (ipv6 b) (ipv6 c) h k = refl
ip_lt_trans (ipv6 a) (ipv4 b) c h k = ground (arith, h)
ip_lt_trans (ipv6 a) (ipv6 b) (ipv4 c) h k = k
ip_lt_trans (ipv6 a) (ipv6 b) (ipv6 c) h k = bytes_lt_trans a b c h k

pub ip_lt_irrefl : (a : Ip) → ip_lt a a ≡ false
unfolding ip_lt
ip_lt_irrefl (ipv4 a) = ground arith
ip_lt_irrefl (ipv6 a) = bytes_lt_irrefl a

pub ip_eq_refl : (a : Ip) → ip_eq a a ≡ true
unfolding ip_eq
ip_eq_refl (ipv4 a) = ground arith
ip_eq_refl (ipv6 a) = bytes_eq_refl a

pub ip_eq_sound : (a b : Ip) → ip_eq a b ≡ true → a ≡ b
unfolding ip_eq
ip_eq_sound (ipv4 a) (ipv4 b) h = ap ipv4 ((==_iff a b).0 h)
ip_eq_sound (ipv6 a) (ipv6 b) h = ap ipv6 (bytes_eq_sound a b h)
ip_eq_sound (ipv4 a) (ipv6 b) h = ground (arith, h)
ip_eq_sound (ipv6 a) (ipv4 b) h = ground (arith, h)

-- Of two addresses, `==`, `<` or `>` holds, and `>` is `<` with the sides exchanged, where an
-- address of version six has sixteen bytes.
pub ip_trichotomy :
    (a b : Ip)
    → IsIp a
    → IsIp b
    → ((ip_lt a b ≡ true) ⊎ ((ip_eq a b ≡ true) ⊎ (ip_gt a b ≡ true))) × (ip_gt a b ≡ ip_lt b a)
unfolding ip_lt ip_eq ip_gt
ip_trichotomy (ipv4 a) (ipv4 b) h k = (ground arith, refl)
ip_trichotomy (ipv4 a) (ipv6 b) h k = (inl refl, refl)
ip_trichotomy (ipv6 a) (ipv4 b) h k = (inr (inr refl), refl)
ip_trichotomy (ipv6 a) (ipv6 b) (version6 x e) (version6 y f) =
    (bytes_lt_total a b (e ∙ sym f), refl)

ip_gt_irrefl : (a : Ip) → ip_gt a a ≡ false
unfolding ip_gt
ip_gt_irrefl (ipv4 a) = ground arith
ip_gt_irrefl (ipv6 a) = bytes_lt_irrefl a

-- Of two contacts at one address, neither is less or greater, whatever their ports, and they are
-- equal exactly where the ports are.
pub contact_lt_port :
    (c d : Contact)
    → c.ip ≡ d.ip
    → (contact_lt c d ≡ false) × ((contact_gt c d ≡ false) × (contact_eq c d ≡ (c.port == d.port)))
unfolding contact_lt contact_gt contact_eq
contact_lt_port c d same = rw same (
  ip_lt_irrefl d.ip,
  (ip_gt_irrefl d.ip, ap (λ (v : Bool). v && (c.port == d.port)) (ip_eq_refl d.ip)),
)
