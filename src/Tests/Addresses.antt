-- ===== src/Tests/Addresses.antt =====
-- Addresses at concrete values.
use sockpp.Prelude.{
  pos, negsuc, ℕ, List, [], ◌∷◌, ◌++◌, ◌≡◌, refl, true, false, arith, none, some, replicate, length,
}
use sockpp.Error.{Errc, make_error_code, no_error}
use sockpp.Result.{ok, is_ok, returns, throws, list_default, last_error}
use sockpp.System.{Os, Call, Event, Reply}
use sockpp.Address
use sockpp.Address.{
  SockAddress, family, af_inet, af_unix, any_of, any_copy, any_of_ec, eq_address, ne_address,
  copy_checked, copy_checked_ec, empty_any, ntohl,
}
use sockpp.Address.Inet
use sockpp.Address.Inet.{inet_sz, of_port, byte_at}
use sockpp.Address.Inet.Names.{Resolver, resolve_name}
use sockpp.Address.Inet.Lookups.{create-forms}
use sockpp.Address.Inet6
use sockpp.Address.Inet6.{loopback}
use sockpp.Address.Unix
use sockpp.Address.Unix.{to_string}
use sockpp.Address.Unix.Paths.{path-make}
use sockpp.Address.Can
use sockpp.Address.Can.{of_iface, of_iface_ec, index, get_iface, iface, create}
use sockpp.Address.Can.Names.{NamesInterfaces}
use sockpp.Socket.Ends.{address, peer_address, move_from, move_assign}
use sockpp.Tests.Systems.{table_os, all_succeed, start}

-- 127.0.0.1:80
abbrev local : List ℕ
local = 2 ∷ 0 ∷ 0 ∷ 80 ∷ 127 ∷ 0 ∷ 0 ∷ 1 ∷ 0 ∷ 0 ∷ 0 ∷ 0 ∷ 0 ∷ 0 ∷ 0 ∷ 0 ∷ []

abbrev local_address : SockAddress
local_address = record { storage = local; size = 16 }

abbrev longer_address : SockAddress
longer_address = record { storage = local ++ 9 ∷ []; size = 16 }

-- A resolver that knows every name as 127.0.0.1, and takes no number.
abbrev pub hosts : Resolver
hosts = record {
  inet_pton = λ fam name. none;
  getaddrinfo = λ fam name. record { ret = pos 0; errno = pos 0; found = 127 ∷ 0 ∷ 0 ∷ 1 ∷ [] };
}

create-forms_example :
    (b : List ℕ) × (Inet.create ⦃names = hosts⦄ [] 80 ≡ ok b)
    × (Inet.of_name ⦃names = hosts⦄ [] 80 ≡ returns b)
    × (Inet.of_name_ec ⦃names = hosts⦄ [] 80 ≡ (b, no_error))
    × (Inet.port b ≡ 80)
    × (Inet.address b ≡ ntohl (127 ∷ 0 ∷ 0 ∷ 1 ∷ []))
    × (Inet.is_set b ≡ true)
unfolding resolve_name
create-forms_example = (create-forms ⦃names = hosts⦄ [] 80 (omega arith)).0 refl refl

path-make_example :
    (b : List ℕ) × (Unix.make (replicate 108 97) ≡ returns b)
    × (Unix.make_ec (replicate 108 97) ≡ (b, no_error))
    × (Unix.create (replicate 108 97) ≡ ok b)
    × (Unix.path b ≡ replicate 108 97)
    × (length b ≡ 110)
path-make_example = (path-make (replicate 108 97)).0 refl (omega arith)

ipv4_runs :
    (byte_at 0 (of_port 80) ≡ 0)
    × (Inet.of_sockaddr local ≡ returns local)
    × ((Inet.of_sockaddr_ec (1 ∷ 0 ∷ [])).1 ≡ make_error_code Errc.invalid_argument)
unfolding byte_at of_port Inet.make Inet.address Inet.of_sockaddr Inet.of_sockaddr_ec copy_checked
    copy_checked_ec family
ipv4_runs = (refl, refl, refl)

ipv6_runs :
    (Inet6.port (loopback 80) ≡ 80)
    × (Inet6.port (Inet6.of_port 80) ≡ 80)
    × (Inet6.of_sockaddr local ≡ throws (make_error_code Errc.invalid_argument))
    × ((Inet6.of_sockaddr_ec (10 ∷ 0 ∷ [])).1 ≡ no_error)
    × (is_ok (Inet6.create ⦃names = hosts⦄ [] 80) ≡ true)
    × (Inet6.of_name ⦃names = hosts⦄ [] 80 ≡ returns (Inet6.of_name_ec ⦃names = hosts⦄ [] 80).0)
unfolding Inet6.port loopback Inet6.make Inet6.of_port Inet6.of_sockaddr Inet6.of_sockaddr_ec
    copy_checked copy_checked_ec family Inet6.create Inet6.of_name Inet6.of_name_ec resolve_name
ipv6_runs = (refl, refl, refl, refl, refl, refl)

unix_runs :
    (to_string (1 ∷ 0 ∷ 97 ∷ 0 ∷ []) ≡ 117 ∷ 110 ∷ 105 ∷ 120 ∷ 58 ∷ 97 ∷ [])
    × (Unix.is_set (1 ∷ 0 ∷ 97 ∷ 0 ∷ []) ≡ true)
    × (Unix.of_sockaddr local ≡ throws (make_error_code Errc.invalid_argument))
    × ((Unix.of_sockaddr_ec local).1 ≡ make_error_code Errc.invalid_argument)
unfolding to_string Unix.path Unix.is_set family Unix.of_sockaddr Unix.of_sockaddr_ec copy_checked
    copy_checked_ec
unix_runs = (refl, refl, refl, refl)

abbrev one_interface : Os
one_interface = table_os all_succeed []

can_runs :
    ((of_iface ⦃os = one_interface⦄ (99 ∷ []) start).0 ≡ throws (last_error (pos 111)))
    × ((of_iface_ec ⦃os = one_interface⦄ (99 ∷ []) start).0.1 ≡ last_error (pos 111))
    × (Can.is_set (Can.make 3) ≡ true)
    × (Can.of_sockaddr local ≡ throws (make_error_code Errc.invalid_argument))
    × ((Can.of_sockaddr_ec local).1 ≡ make_error_code Errc.invalid_argument)
unfolding of_iface of_iface_ec Can.is_set Can.make family Can.of_sockaddr Can.of_sockaddr_ec
    copy_checked copy_checked_ec
can_runs = (refl, refl, refl, refl, refl)

generic_runs :
    (Address.is_set local ≡ true)
    × (ne_address local_address local_address ≡ false)
    × ((any_of_ec local 129).1 ≡ make_error_code Errc.invalid_argument)
unfolding Address.is_set family ne_address eq_address any_of_ec
generic_runs = (refl, refl, refl)

end_runs :
    ((address ⦃os = one_interface⦄ (pos 3) start).0 ≡ some empty_any)
    × ((peer_address ⦃os = one_interface⦄ (pos 3) start).0 ≡ some empty_any)
    × (move_from (pos 3) ≡ (pos 3, negsuc 0))
    × (move_assign (pos 3) (pos 4) ≡ (pos 4, pos 3))
unfolding address peer_address any_of move_from move_assign
end_runs = (refl, refl, refl, refl)

-- Every name belongs to the interface 3, which is called what it was last asked by.
abbrev asked : List Event → List ℕ
asked [] = []
asked (e ∷ es) = name_of e.call
  where
    name_of : Call → List ℕ
    name_of (Call.if_nametoindex name) = name
    name_of c = []

abbrev answering : List Event → Call → Reply
answering h (Call.if_nametoindex name) = record {
  ret = pos 3;
  errno = pos 19;
  bytes = [];
  ints = [];
}
answering h (Call.if_indextoname i) = record {
  ret = pos 1;
  errno = pos 19;
  bytes = asked h;
  ints = [];
}
answering h c = record { ret = pos 0; errno = pos 19; bytes = []; ints = [] }

abbrev agreeable : Os
agreeable = record { reply = answering }

agreeable-NamesInterfaces : NamesInterfaces agreeable
agreeable-NamesInterfaces = record {
  fits = λ h name. (refl, omega arith);
  index_errno = λ h name zero_index. refl;
  name_errno = λ h i zero_name. refl;
  named = λ h name r found. (refl, refl);
}
