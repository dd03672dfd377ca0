-- ===== src/Address/Inet6/Fields.antt =====
-- What an IPv6 address object holds.
use sockpp.Prelude.{
  ℕ, ◌^◌, ◌<◌, List, ◌≡◌, refl, length, arith, true, replicate, take-append_left, length-append,
}
use sockpp.Address.{family}
use sockpp.Address.Inet6.{make, port, address, is_set, inet6_sz}

-- An address made from the 16 bytes of an `in6_addr` and a 16-bit port has the size of its structure,
-- is set, and gives both back.
address-make :
    (addr : List ℕ) (p : ℕ)
    → length addr ≡ 16
    → p < 2 ^ 16
    → (address (make addr p) ≡ addr)
      × (port (make addr p) ≡ p)
      × (is_set (make addr p) ≡ true)
      × (length (make addr p) ≡ inet6_sz)
unfolding make port address is_set family
address-make addr p h k =
    let tail : List ℕ = replicate 4 0 in
    (take-append_left 16 addr tail h, omega arith, refl, ground (arith, length-append addr tail, h))
