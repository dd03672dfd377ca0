-- ===== src/Address/Inet/Fields.antt =====
-- What an IPv4 address object holds.
use sockpp.Prelude.{ℕ, ◌^◌, ◌<◌, ◌≡◌, length, arith, true}
use sockpp.Address.{family}
use sockpp.Address.Inet.{make, port, address, is_set, inet_sz}

-- An address made from a 32-bit number and a 16-bit port has the size of its structure, is set, and
-- gives both numbers back.
make_lem :
    (addr p : ℕ)
    → addr < 2 ^ 32
    → p < 2 ^ 16
    → (address (make addr p) ≡ addr)
      × (port (make addr p) ≡ p)
      × (is_set (make addr p) ≡ true)
      × (length (make addr p) ≡ inet_sz)
unfolding make port address is_set family
make_lem addr p h k = (omega arith, omega arith, ground arith, ground arith)
