-- ===== src/Template/Inet.antt =====
-- The IPv4 and IPv6 addresses as classes of addresses for the templates.
use sockpp.Prelude.{ℕ, List, ◌≡◌, refl, true, arith, Bool-cases, inl, inr}
use sockpp.Result.{is_ok, is_error}
use sockpp.Address.{family, af_inet, af_inet6}
use sockpp.Address.Inet
use sockpp.Address.Inet.Names.{Resolver, resolve_name}
use sockpp.Address.Inet6
use sockpp.Template.{AddressClass}

module _ ⦃names : Resolver⦄ where
  pub inet_of_port_family : (port : ℕ) → family (Inet.of_port port) ≡ af_inet
  unfolding Inet.of_port family
  inet_of_port_family port = refl

  pub inet_create_family :
      (saddr : List ℕ) (port : ℕ)
      → is_ok (Inet.create saddr port) ≡ true
      → family (Inet.create saddr port).val ≡ af_inet
  unfolding Inet.create family
  inet_create_family saddr port fine = elim (Bool-cases (is_error (resolve_name af_inet saddr))) [
    | inl failed ↦ absurd (ground (arith, fine, failed))
    | inr found ↦ rw found
  ]

  abbrev pub inet_class : AddressClass
  inet_class = record {
    address_family = af_inet;
    of_port = Inet.of_port;
    create = Inet.create;
    of_port_family = inet_of_port_family;
    create_family = inet_create_family;
  }

  pub inet6_of_port_family : (port : ℕ) → family (Inet6.of_port port) ≡ af_inet6
  unfolding Inet6.of_port family
  inet6_of_port_family port = refl

  pub inet6_create_family :
      (saddr : List ℕ) (port : ℕ)
      → is_ok (Inet6.create saddr port) ≡ true
      → family (Inet6.create saddr port).val ≡ af_inet6
  unfolding Inet6.create family
  inet6_create_family saddr port fine = elim (Bool-cases (is_error (resolve_name af_inet6 saddr))) [
    | inl failed ↦ absurd (ground (arith, fine, failed))
    | inr found ↦ rw found
  ]

  abbrev pub inet6_class : AddressClass
  inet6_class = record {
    address_family = af_inet6;
    of_port = Inet6.of_port;
    create = Inet6.create;
    of_port_family = inet6_of_port_family;
    create_family = inet6_create_family;
  }
