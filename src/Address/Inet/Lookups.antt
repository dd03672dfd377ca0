-- ===== src/Address/Inet/Lookups.antt =====
-- IPv4 addresses made from names.
use sockpp.Prelude.{ℕ, ◌^◌, ◌<◌, List, [], ◌∷◌, ◌≡◌, refl, true, length, arith, replicate}
use sockpp.Error.{no_error}
use sockpp.Result.{ok, is_ok, is_error, from_error, returns, throws, list_default}
use sockpp.Address.{family, af_inet, ntohl}
use sockpp.Address.Inet.{create, of_name, of_name_ec, port, address, is_set, sockaddr_in, inet_sz}
use sockpp.Address.Inet.Names.{Resolver, resolve_name}

sockaddr_in-port : (ia : List ℕ) (p : ℕ) → p < 2 ^ 16 → port (sockaddr_in ia p) ≡ p
unfolding port
sockaddr_in-port ia p h = omega arith

sockaddr_in-address : (ia : List ℕ) (p : ℕ) → length ia ≡ 4 → address (sockaddr_in ia p) ≡ ntohl ia
unfolding address
sockaddr_in-address [] p h = absurd (omega arith)
sockaddr_in-address (a ∷ []) p h = absurd (omega arith)
sockaddr_in-address (a ∷ b ∷ []) p h = absurd (omega arith)
sockaddr_in-address (a ∷ b ∷ c ∷ []) p h = absurd (omega arith)
sockaddr_in-address (a ∷ b ∷ c ∷ d ∷ []) p h = refl
sockaddr_in-address (a ∷ b ∷ c ∷ d ∷ e ∷ rest) p h = absurd (omega arith)

module _ ⦃names : Resolver⦄ where
  -- The three ways from a name and a port to an address agree. If the name resolves, to four bytes, they
  -- give one and the same address, which has these bytes and the port and is set; if not, they give
  -- the error of the resolution, and the one with an error code leaves zeros.
  pub create-forms :
      (saddr : List ℕ) (p : ℕ)
      → p < 2 ^ 16
      → let res = resolve_name af_inet saddr in
        (is_ok res ≡ true
          → length res.val ≡ 4
          → (b : List ℕ) × (create saddr p ≡ ok b)
            × (of_name saddr p ≡ returns b)
            × (of_name_ec saddr p ≡ (b, no_error))
            × (port b ≡ p)
            × (address b ≡ ntohl res.val)
            × (is_set b ≡ true))
        × (is_error res ≡ true
            → (create saddr p ≡ from_error res.err)
              × (of_name saddr p ≡ throws res.err)
              × (of_name_ec saddr p ≡ (replicate inet_sz 0, res.err)))
  unfolding create of_name of_name_ec is_set family
  create-forms saddr p h = (
    λ fine four. (
      sockaddr_in (resolve_name af_inet saddr).val p,
      ground (arith, fine),
      ground (arith, fine),
      ground (arith, fine),
      sockaddr_in-port (resolve_name af_inet saddr).val p h,
      sockaddr_in-address (resolve_name af_inet saddr).val p four,
      refl,
    ),
    λ failed. (ground (arith, failed), ground (arith, failed), ground (arith, failed)),
  )
