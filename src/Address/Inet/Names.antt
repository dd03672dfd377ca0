-- ===== src/Address/Inet/Names.antt =====
-- `resolve_name`, which the two IP address classes have alike. What the name services of the C
-- library answer is a parameter.
use sockpp.Prelude.{ℤ, pos, ℕ, List, eqb_ℤ, if◌then◌else◌, Option, none, some}
use sockpp.Error.{eai_system, make_gai_error}
use sockpp.Result.{Result, ok, from_error, last_error, list_default}

-- The answer of `getaddrinfo`: what it returns, `errno` after it, and the address part of the first
-- entry, in network byte order.
pub record AddrInfo : Type 0 where
  pub ret : ℤ
  pub errno : ℤ
  pub found : List ℕ

-- The services by address family: `inet_pton`, and `getaddrinfo` for stream sockets.
pub record Resolver : Type 0 where
  pub inet_pton : ℕ → List ℕ → Option (List ℕ)
  pub getaddrinfo : ℕ → List ℕ → AddrInfo

-- `inet_address::resolve_name`, and `inet6_address::resolve_name` with the other family
unfoldable pub resolve_name : ⦃names : Resolver⦄ → ℕ → List ℕ → Result (List ℕ)
unfolding make_gai_error
resolve_name ⦃names⦄ fam saddr = elim (names.inet_pton fam saddr) [
  | some ia ↦ ok ia
  | none ↦
      let info = names.getaddrinfo fam saddr in
      if eqb_ℤ info.ret (pos 0)
      then ok info.found
      else if eqb_ℤ info.ret eai_system
      then from_error (last_error info.errno)
      else from_error (make_gai_error info.errno info.ret)
]
