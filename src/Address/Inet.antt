-- ===== src/Address/Inet.antt =====
-- `class inet_address`: src/inet_address.cpp and include/sockpp/inet_address.h. An object is the
-- bytes of its `sockaddr_in`.
pub mod Names
pub mod Fields
pub mod Lookups
use sockpp.Prelude.{
  ℕ, ◌+◌, ◌*◌, ◌/◌, ◌%◌, ◌^◌, ◌==◌, List, [], ◌∷◌, ◌++◌, Bool, if◌then◌else◌, take, drop, replicate,
}
use sockpp.Error.{ErrorCode}
use sockpp.Result.{Result, Outcome, returns, throws, ok, is_error, from_error, list_default}
use sockpp.Address.{af_inet, family, copy_checked, copy_checked_ec, htons, htonl, ntohs, ntohl}
use sockpp.Address.Inet.Names.{Resolver, resolve_name}

-- `sizeof(sockaddr_in)`
abbrev pub inet_sz : ℕ
inet_sz = 16

-- `sockaddr_in` with the address in network byte order
abbrev pub sockaddr_in : List ℕ → ℕ → List ℕ
sockaddr_in addr port = af_inet ∷ 0 ∷ htons port ++ addr ++ replicate 8 0

-- `inet_address(uint32_t, in_port_t)`
unfoldable pub make : ℕ → ℕ → List ℕ
make addr port = sockaddr_in (htonl addr) port

-- `inet_address(in_port_t)`, with `INADDR_ANY`
unfoldable pub of_port : ℕ → List ℕ
unfolding make
of_port port = make 0 port

module _ ⦃names : Resolver⦄ where
  -- `inet_address::create`
  unfoldable pub create : List ℕ → ℕ → Result (List ℕ)
  unfolding resolve_name
  create saddr port =
      let res = resolve_name af_inet saddr in
      if is_error res then from_error res.err else ok (sockaddr_in res.val port)

  -- `inet_address(const string&, in_port_t)`
  unfoldable pub of_name : List ℕ → ℕ → Outcome (List ℕ)
  unfolding create
  of_name saddr port =
      let res = create saddr port in if is_error res then throws res.err else returns res.val

  -- `inet_address(const string&, in_port_t, error_code&)`
  unfoldable pub of_name_ec : List ℕ → ℕ → List ℕ × ErrorCode
  unfolding create
  of_name_ec saddr port =
      let res = create saddr port in
      (if is_error res then replicate inet_sz 0 else res.val, res.err)

-- `inet_address(const sockaddr&)`, and `inet_address(const sock_address&)`
unfoldable pub of_sockaddr : List ℕ → Outcome (List ℕ)
unfolding copy_checked
of_sockaddr memory = copy_checked af_inet inet_sz memory

unfoldable pub of_sockaddr_ec : List ℕ → List ℕ × ErrorCode
unfolding copy_checked_ec
of_sockaddr_ec memory = copy_checked_ec af_inet inet_sz memory

-- `inet_address::is_set`
unfoldable pub is_set : List ℕ → Bool
is_set bytes = family bytes == af_inet

-- `inet_address::address`
unfoldable pub address : List ℕ → ℕ
address bytes = ntohl (drop 4 bytes)

-- `inet_address::operator[]`: a byte of the number `address()` as it lies in a little-endian memory
unfoldable pub byte_at : ℕ → List ℕ → ℕ
unfolding address
byte_at i bytes = address bytes / 256 ^ i % 256

-- `inet_address::port`
unfoldable pub port : List ℕ → ℕ
port bytes = ntohs (drop 2 bytes)
