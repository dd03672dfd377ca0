-- ===== src/Tests/Templates.antt =====
-- The templates at the IPv4 and IPv6 addresses.
use sockpp.Prelude.{pos, [], ◌∷◌, ◌≡◌, refl, none}
use sockpp.Result.{ok, returns, int_default, unit_default}
use sockpp.System.{Os, pure, or_return}
use sockpp.Address.Inet
use sockpp.Address.Inet.Names.{resolve_name}
use sockpp.Socket.{create_handle, reset}
use sockpp.Socket.Build.{or_throw, or_code}
use sockpp.Socket.Options.{bind}
use sockpp.Socket
use sockpp.Stream.{sock_stream}
use sockpp.Acceptor.{open_acceptor, accept, accept_timed}
use sockpp.Connector.{connect, connect_timed}
use sockpp.Datagram
use sockpp.Datagram.{make_datagram, sock_dgram}
use sockpp.Template.{
  AddressClass, open_at, make_at, make_at_ec, make_port, make_port_ec, create_acceptor,
  accept_stream, accept_stream_timed, connect_at, connect_at_timed, connect_name_timed,
  construct_at, construct_at_ec, construct_at_timed, construct_at_timed_ec,
}
use sockpp.Template.Sockets.{
  pair_of, pair_datagram, pair_stream, make_unbound, make_bound, bind_at, connect_datagram,
  send_flags, send_to, recv_flags, recv_from,
}
use sockpp.Template.Inet.{inet_class, inet6_class}
use sockpp.Tests.Systems.{table_os, all_succeed, start, closed}
use sockpp.Tests.Addresses.{hosts}

abbrev willing : Os
willing = table_os all_succeed []

abbrev ip : AddressClass
ip = inet_class ⦃names = hosts⦄

abbrev ip6 : AddressClass
ip6 = inet6_class ⦃names = hosts⦄

-- The templates pass their arguments on.
acceptors_pass_on :
    (open_at ⦃os = willing⦄ ip (pos 6) [] (pos 4) (pos 2) closed
      ≡ open_acceptor ⦃os = willing⦄ [] (pos 4) (pos 2) (pos 6) closed)
    × (make_at ⦃os = willing⦄ ip (pos 6) [] (pos 4) (pos 2) closed
        ≡ or_throw ⦃os = willing⦄ (open_acceptor ⦃os = willing⦄ [] (pos 4) (pos 2) (pos 6)) closed)
    × (make_at_ec ⦃os = willing⦄ ip (pos 6) [] (pos 4) (pos 2) closed
        ≡ or_code ⦃os = willing⦄ (open_acceptor ⦃os = willing⦄ [] (pos 4) (pos 2) (pos 6)) closed)
    × (make_port ⦃os = willing⦄ ip (pos 6) 80 (pos 4) closed
        ≡ or_throw ⦃os = willing⦄
            (open_acceptor ⦃os = willing⦄ (ip.of_port 80) (pos 4) (pos 0) (pos 6))
            closed)
    × (make_port_ec ⦃os = willing⦄ ip (pos 6) 80 (pos 4) (pos 2) closed
        ≡ or_code ⦃os = willing⦄
            (open_acceptor ⦃os = willing⦄ (ip.of_port 80) (pos 4) (pos 2) (pos 6))
            closed)
unfolding open_at make_at make_at_ec make_port make_port_ec
acceptors_pass_on = (refl, refl, refl, refl, refl)

created_runs : (create_acceptor ⦃os = willing⦄ ip6 (pos 6) start).0 ≡ ok (pos 3)
unfolding create_acceptor create_handle
created_runs = refl

accepted_runs : (accept_stream ⦃os = willing⦄ ip (pos 6) (pos 3) none start).0.0 ≡ ok (pos 4)
unfolding accept_stream accept
accepted_runs = refl

accept_timed_runs :
    (accept_stream_timed ⦃os = willing⦄ ip (pos 6) 9 (pos 3) (pos 5) none start).1
    ≡ (accept_timed ⦃os = willing⦄ 9 (pos 3) (pos 5) none start).1
unfolding accept_stream_timed
accept_timed_runs = refl

connectors_pass_on :
    (connect_at ⦃os = willing⦄ ip (pos 6) [] closed ≡ connect ⦃os = willing⦄ [] (pos 6) closed)
    × (connect_at_timed ⦃os = willing⦄ ip (pos 6) 9 [] (pos 5) closed
        ≡ connect_timed ⦃os = willing⦄ 9 [] (pos 5) (pos 6) closed)
    × (construct_at ⦃os = willing⦄ ip (pos 6) [] closed
        ≡ or_throw ⦃os = willing⦄ (connect ⦃os = willing⦄ [] (pos 6)) closed)
    × (construct_at_ec ⦃os = willing⦄ ip (pos 6) [] closed
        ≡ or_code ⦃os = willing⦄ (connect ⦃os = willing⦄ [] (pos 6)) closed)
    × (construct_at_timed ⦃os = willing⦄ ip (pos 6) 9 [] (pos 5) closed
        ≡ or_throw ⦃os = willing⦄ (connect_timed ⦃os = willing⦄ 9 [] (pos 5) (pos 6)) closed)
    × (construct_at_timed_ec ⦃os = willing⦄ ip (pos 6) 9 [] (pos 5) closed
        ≡ or_code ⦃os = willing⦄ (connect_timed ⦃os = willing⦄ 9 [] (pos 5) (pos 6)) closed)
unfolding connect_at connect_at_timed construct_at construct_at_ec construct_at_timed
    construct_at_timed_ec
connectors_pass_on = (refl, refl, refl, refl, refl, refl)

named_timed_runs :
    connect_name_timed ⦃os = willing⦄ ip (pos 6) 9 (97 ∷ []) 80 (pos 5) closed
    ≡ or_return
        (connect_timed ⦃os = willing⦄ 9 (ip.create (97 ∷ []) 80).val (pos 5) (pos 6))
        (λ u. pure (ok tt))
        closed
unfolding connect_name_timed Inet.create resolve_name
named_timed_runs = refl

pairs_run :
    ((pair_datagram ⦃os = willing⦄ ip (pos 0) start).1.history
      ≡ (Socket.pair ⦃os = willing⦄ (pos 2) sock_dgram (pos 0) start).1.history)
    × ((pair_stream ⦃os = willing⦄ ip (pos 0) start).1.history
        ≡ (Socket.pair ⦃os = willing⦄ (pos 2) sock_stream (pos 0) start).1.history)
unfolding pair_datagram pair_stream pair_of
pairs_run = (refl, refl)

datagrams_run :
    ((make_unbound ⦃os = willing⦄ ip start).0 ≡ returns (pos 3))
    × (make_bound ⦃os = willing⦄ [] closed ≡ make_datagram ⦃os = willing⦄ [] closed)
    × (bind_at ⦃os = willing⦄ [] (pos 3) start ≡ bind ⦃os = willing⦄ (pos 3) [] (pos 0) start)
    × (connect_datagram ⦃os = willing⦄ [] (pos 3) start
        ≡ Datagram.connect ⦃os = willing⦄ [] (pos 3) start)
unfolding make_unbound make_bound bind_at connect_datagram create_handle
datagrams_run = (refl, refl, refl, refl)

transfers_run :
    (send_flags ⦃os = willing⦄ (pos 3) (1 ∷ []) (pos 0) [] start
      ≡ send_to ⦃os = willing⦄ (pos 3) (1 ∷ []) [] start)
    × (recv_flags ⦃os = willing⦄ (pos 3) 1 (pos 0) none start
        ≡ recv_from ⦃os = willing⦄ (pos 3) 1 none start)
unfolding send_flags send_to recv_flags recv_from
transfers_run = (refl, refl)
