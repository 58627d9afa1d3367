-- ===== src/Address/Tests.antt =====
-- The theorems on addresses at concrete ones.
use btdht.Prelude.{ℕ, ◌≡◌, ◌⊎◌, refl, true, false, ◌==◌, replicate}
use btdht.Address.{Ip, ipv4, ipv6, ip_eq, ip_lt, ip_gt, Contact, contact_eq, contact_lt, contact_gt}
use btdht.Address.Order.{version6, ip_trichotomy, contact_lt_port}

abbrev zeros : Ip
zeros = ipv6 (replicate 16 0)

abbrev ones : Ip
ones = ipv6 (replicate 16 1)

ip_trichotomy_example :
    ((ip_lt zeros ones ≡ true) ⊎ ((ip_eq zeros ones ≡ true) ⊎ (ip_gt zeros ones ≡ true)))
    × (ip_gt zeros ones ≡ ip_lt ones zeros)
ip_trichotomy_example =
    ip_trichotomy zeros ones (version6 (replicate 16 0) refl) (version6 (replicate 16 1) refl)

abbrev at_port : ℕ → Contact
at_port n = record { ip = ipv4 1; port = n }

contact_lt_port_example :
    (contact_lt (at_port 1) (at_port 2) ≡ false)
    × ((contact_gt (at_port 1) (at_port 2) ≡ false)
        × (contact_eq (at_port 1) (at_port 2) ≡ (1 == 2)))
contact_lt_port_example = contact_lt_port (at_port 1) (at_port 2) refl
