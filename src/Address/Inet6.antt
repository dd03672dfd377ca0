-- ===== src/Address/Inet6.antt =====
-- `class inet6_address`: src/inet_address.cpp and include/sockpp/inet_address.h. An object is the
-- bytes of its `sockaddr_in6`, and an `in6_addr` is 16 bytes.
pub mod Fields
use sockpp.Prelude.{
  ℕ, ◌/◌, ◌%◌, ◌==◌, List, [], ◌∷◌, ◌++◌, Bool, if◌then◌else◌, take, drop, replicate,
}
use sockpp.Error.{ErrorCode}
use sockpp.Result.{Result, Outcome, returns, throws, ok, is_error, from_error, list_default}
use sockpp.Address.{af_inet6, family, copy_checked, copy_checked_ec, htons, ntohs}
use sockpp.Address.Inet.Names.{Resolver, resolve_name}

-- `sizeof(sockaddr_in6)`
abbrev pub inet6_sz : ℕ
inet6_sz = 28

-- `inet6_address(const in6_addr&, in_port_t)`: no flow label, no scope
unfoldable pub make : List ℕ → ℕ → List ℕ
make addr port = af_inet6 ∷ 0 ∷ htons port ++ replicate 4 0 ++ addr ++ replicate 4 0

-- `inet6_address(in_port_t)`
unfoldable pub of_port : ℕ → List ℕ
unfolding make
of_port port = make (replicate 16 0) port

-- `inet6_address::loopback`
unfoldable pub loopback : ℕ → List ℕ
unfolding make
loopback port = make (replicate 15 0 ++ 1 ∷ []) port

module _ ⦃names : Resolver⦄ where
  -- `inet6_address::create`
  unfoldable pub create : List ℕ → ℕ → Result (List ℕ)
  unfolding resolve_name make
  create saddr port =
      let res = resolve_name af_inet6 saddr in
      if is_error res then from_error res.err else ok (make res.val port)

  -- `inet6_address(const string&, in_port_t)`
  unfoldable pub of_name : List ℕ → ℕ → Outcome (List ℕ)
  unfolding create
  of_name saddr port =
      let res = create saddr port in if is_error res then throws res.err else returns res.val

  -- `inet6_address(const string&, in_port_t, error_code&)`
  unfoldable pub of_name_ec : List ℕ → ℕ → List ℕ × ErrorCode
  unfolding create
  of_name_ec saddr port =
      let res = create saddr port in
      (if is_error res then replicate inet6_sz 0 else res.val, res.err)

-- `inet6_address(const sock_address&)`
unfoldable pub of_sockaddr : List ℕ → Outcome (List ℕ)
unfolding copy_checked
of_sockaddr memory = copy_checked af_inet6 inet6_sz memory

unfoldable pub of_sockaddr_ec : List ℕ → List ℕ × ErrorCode
unfolding copy_checked_ec
of_sockaddr_ec memory = copy_checked_ec af_inet6 inet6_sz memory

-- `inet6_address::is_set`
unfoldable pub is_set : List ℕ → Bool
is_set bytes = family bytes == af_inet6

-- `inet6_address::address`
unfoldable pub address : List ℕ → List ℕ
address bytes = take 16 (drop 8 bytes)

-- `inet6_address::port`
unfoldable pub port : List ℕ → ℕ
port bytes = ntohs (drop 2 bytes)
