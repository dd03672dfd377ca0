-- ===== src/Tests/Opening.antt =====
-- Opening acceptors and connectors, with success and without.
use sockpp.Prelude.{pos, ℕ, List, [], ◌∷◌, ◌≡◌, refl, ◌&&◌, none}
use sockpp.Result.{is_ok, from_errc, unit_default, int_default}
use sockpp.Error.{Errc}
use sockpp.System.{Os, Call, invalid_socket}
use sockpp.System.Held.{calls, held}
use sockpp.Address.{family}
use sockpp.Socket.{create_handle, reset, close}
use sockpp.Socket.Owner.{Settles}
use sockpp.Socket.Options.{bind}
use sockpp.Acceptor.{open_acceptor, bind_and_listen, listen, accept_timed}
use sockpp.Stream.{sock_stream}
use sockpp.Acceptor.Open.{open_acceptor-Settles, open_acceptor-calls}
use sockpp.Acceptor.Timeout.{accept_timed_lem}
use sockpp.Connector.{connect, connect_timed}
use sockpp.Connector.Outcomes.{connect-Settles}
use sockpp.Connector.Timed.{connect_timed-Settles, SettlesUnless, switch_fails}
use sockpp.Tests.Systems.{table_os, table_os-SetsErrno, all_succeed, none_bound, start, closed}

-- 127.0.0.1:80
abbrev local : List ℕ
local = 2 ∷ 0 ∷ 0 ∷ 80 ∷ 127 ∷ 0 ∷ 0 ∷ 1 ∷ 0 ∷ 0 ∷ 0 ∷ 0 ∷ 0 ∷ 0 ∷ 0 ∷ 0 ∷ []

-- A system where nothing can be bound, and one where all goes well; the second sees no event.
abbrev failing : Os
failing = table_os none_bound []

abbrev willing : Os
willing = table_os all_succeed []

-- The acceptor after an attempt that cannot bind: closed, and the descriptor given back.
open_acceptor_fails :
    (open_acceptor ⦃os = failing⦄ local (pos 4) (pos 0) (pos 0) closed).1.handle ≡ invalid_socket
unfolding open_acceptor create_handle reset bind_and_listen bind listen close
open_acceptor_fails = refl

open_acceptor-Settles_example :
    Settles [] (open_acceptor ⦃os = failing⦄ local (pos 4) (pos 0) (pos 0) closed)
unfolding held
open_acceptor-Settles_example =
    open_acceptor-Settles ⦃os = failing⦄ (table_os-SetsErrno none_bound []) local (pos 4) (pos 0)
      (pos 0) [] closed refl refl

open_acceptor-calls_example :
    calls (open_acceptor ⦃os = willing⦄ local (pos 4) (pos 0) (pos 0) closed).1.world.history
    ≡ Call.listen (pos 3) (pos 4)
      ∷ Call.bind (pos 3) local
      ∷ Call.socket (pos 2) (pos 1) (pos 0)
      ∷ []
unfolding open_acceptor create_handle reset bind_and_listen bind listen family
open_acceptor-calls_example =
    (open_acceptor-calls ⦃os = willing⦄ local (pos 4) (pos 0) (pos 0) closed).1 refl refl
      (table_os-SetsErrno all_succeed [])

connect-Settles_example : Settles [] (connect ⦃os = failing⦄ local (pos 0) closed)
unfolding held
connect-Settles_example =
    (connect-Settles ⦃os = failing⦄ (table_os-SetsErrno none_bound []) local (pos 0) [] closed
        refl).1
      refl

connect_timed-Settles_example :
    let (made, w') = create_handle ⦃os = failing⦄ (pos (family local)) sock_stream (pos 0) start in
    SettlesUnless
      (is_ok made && switch_fails ⦃os = failing⦄ made.val w')
      []
      (connect_timed ⦃os = failing⦄ 100 local (pos 5) (pos 0) closed)
unfolding held
connect_timed-Settles_example =
    (connect_timed-Settles ⦃os = failing⦄ (table_os-SetsErrno none_bound []) 100 local (pos 5)
        (pos 0) [] closed refl).2
      refl refl

accept_timed_lem_example :
    (accept_timed ⦃os = willing⦄ 100 (pos 3) (pos 1500) none start).0
    ≡ (from_errc Errc.timed_out, [])
accept_timed_lem_example =
    ((accept_timed_lem ⦃os = willing⦄ 100 (pos 3) (pos 1500) none start
        (table_os-SetsErrno all_succeed [])).1
      refl refl).0
