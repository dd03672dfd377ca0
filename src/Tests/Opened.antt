-- ===== src/Tests/Opened.antt =====
-- Datagram and CAN sockets, and constructors, at concrete values.
use sockpp.Prelude.{ℤ, pos, negsuc, ℕ, ◌+◌, List, [], ◌∷◌, ◌≡◌, refl, true, false, arith, some}
use sockpp.Result.{
  ok, from_error, last_error, returns, throws, unit_default, size_default, int_default,
}
use sockpp.System.{Os, SetsErrno, Object, Call, Event, Reply, invalid_socket}
use sockpp.System.Held.{held}
use sockpp.Address.{family}
use sockpp.Socket.{create_handle, reset, close, set_option}
use sockpp.Socket.Options.{bind, set_option_int}
use sockpp.Socket.Transfer.{recv, send}
use sockpp.Socket.Build.{new_object, Builds}
use sockpp.Datagram
use sockpp.Datagram.{sock_dgram, open_bound, open_datagram, make_datagram, make_datagram_ec}
use sockpp.Datagram.Open.{GivesFresh, has_fd, Reopens, open_datagram-Reopens}
use sockpp.Canbus.Frame.{empty_frame}
use sockpp.Canbus.Socket.{
  open_canbus, make_canbus, make_canbus_ec, set_fd_mode, set_filters, send_frame, send_fdframe,
  recv_frame, recv_fdframe, frame_bytes, frame_sz,
}
use sockpp.Canbus.Frame.{empty_fdframe}
use sockpp.Canbus.Socket.Wire.{recv_frame_lem}
use sockpp.Acceptor.{make_acceptor, make_acceptor_ec, open_acceptor, bind_and_listen}
use sockpp.Connector.{
  make_connector, make_connector_ec, make_connector_timed, make_connector_timed_ec, connect,
  connect_call, connect_timed,
}
use sockpp.Connector.Built.{make_connector_timed-Builds}
use sockpp.Tests.Systems.{table_os, table_os-SetsErrno, none_bound, start, closed}

abbrev local : List ℕ
local = 2 ∷ 0 ∷ 0 ∷ 80 ∷ 127 ∷ 0 ∷ 0 ∷ 1 ∷ 0 ∷ 0 ∷ 0 ∷ 0 ∷ 0 ∷ 0 ∷ 0 ∷ 0 ∷ []

abbrev failing : Os
failing = table_os none_bound []

-- A constructor that cannot connect throws, and the socket is closed.
make_connector_timed-Builds_example :
    Builds [] (make_connector_timed ⦃os = failing⦄ 100 local (pos 5) (pos 0) (new_object start))
unfolding held
make_connector_timed-Builds_example =
    make_connector_timed-Builds ⦃os = failing⦄ 100 local (pos 5) (pos 0) start
      (table_os-SetsErrno none_bound [])

-- A system whose descriptors are one more than all that are held.
abbrev pub above : List ℤ → ℕ
above [] = 3
above (pos n ∷ fds) = n + 1 + above fds
above (negsuc n ∷ fds) = above fds

abbrev counting_reply : List Event → Call → Reply
counting_reply h (Call.socket d t p) = record {
  ret = pos (above (held h));
  errno = pos 9;
  bytes = [];
  ints = [];
}
counting_reply h c = record { ret = negsuc 0; errno = pos 9; bytes = []; ints = [] }

abbrev counting : Os
counting = record { reply = counting_reply }

counting-SetsErrno : SetsErrno counting
counting-SetsErrno h (Call.socket d t p) is_call failed = refl
counting-SetsErrno h c is_call failed = refl

pub above-fresh : (fds : List ℤ) (k : ℕ) → has_fd (pos (k + above fds)) fds ≡ false
above-fresh [] k = refl
above-fresh (pos n ∷ fds) k = ground (arith, above-fresh fds (k + n + 1))
above-fresh (negsuc n ∷ fds) k = ground (arith, above-fresh fds k)

counting-GivesFresh : GivesFresh counting
counting-GivesFresh h d t p good = ground (arith, above-fresh (held h) 0)

-- An open socket, with its descriptor as the only one.
abbrev opened : Object
opened = record {
  handle = pos 3;
  world = record {
    history =
        record {
          call = Call.socket (pos 2) (pos 2) (pos 0);
          reply = record { ret = pos 3; errno = pos 0; bytes = []; ints = [] };
        }
        ∷ [];
    errno = pos 0;
  };
}

open_datagram-Reopens_example :
    Reopens ⦃os = counting⦄
      (Call.socket (pos (family local)) sock_dgram (pos 0))
      local
      []
      opened
      (open_datagram ⦃os = counting⦄ local opened)
unfolding held
open_datagram-Reopens_example =
    open_datagram-Reopens ⦃os = counting⦄ local [] opened counting-SetsErrno counting-GivesFresh
      refl

-- The frame 5 with no data, as the reply to every call.
abbrev framed : Os
framed = record {
  reply = λ h c. record {
    ret = pos 16;
    errno = pos 4;
    bytes = frame_bytes (record empty_frame { can_id = 5 });
    ints = [];
  };
}

framed-SetsErrno : SetsErrno framed
framed-SetsErrno h c is_call failed = refl

recv_frame_lem_example :
    (recv_frame ⦃os = framed⦄ (pos 3) (pos 0) start).0
    ≡ returns (ok frame_sz, some (record empty_frame { can_id = 5 }))
recv_frame_lem_example =
    (recv_frame_lem ⦃os = framed⦄ (pos 3) (pos 0) start framed-SetsErrno).2
      (record empty_frame { can_id = 5 }) (record { sized = refl; within = omega arith })
      (record { id_fits = omega arith; reserved_fits = omega arith }) refl refl

can_runs :
    ((open_canbus ⦃os = failing⦄ local closed).1.handle ≡ invalid_socket)
    × ((make_canbus ⦃os = failing⦄ local closed).0 ≡ throws (last_error (pos 111)))
    × ((make_canbus_ec ⦃os = failing⦄ local closed).0 ≡ last_error (pos 111))
    × ((set_fd_mode ⦃os = failing⦄ (pos 3) true start).0 ≡ ok tt)
    × ((set_filters ⦃os = failing⦄ (pos 3) ((1, 2) ∷ []) start).0 ≡ ok tt)
    × ((send_frame ⦃os = failing⦄ (pos 3) empty_frame (pos 0) start).0 ≡ ok 0)
    × ((send_fdframe ⦃os = failing⦄ (pos 3) empty_fdframe (pos 0) start).0 ≡ ok 0)
    × ((recv_fdframe ⦃os = failing⦄ (pos 3) (pos 0) start).0 ≡ (ok 0, empty_fdframe))
unfolding open_canbus make_canbus make_canbus_ec open_bound create_handle reset bind close
    set_fd_mode set_option_int set_filters set_option send_frame send_fdframe send recv_fdframe recv
can_runs = (refl, refl, refl, refl, refl, refl, refl, refl)

constructor_runs :
    ((make_datagram ⦃os = failing⦄ local closed).0 ≡ throws (last_error (pos 111)))
    × ((make_datagram_ec ⦃os = failing⦄ local closed).0 ≡ last_error (pos 111))
    × ((make_acceptor ⦃os = failing⦄ local (pos 4) (pos 0) (pos 0) closed).0
        ≡ throws (last_error (pos 111)))
    × ((make_acceptor_ec ⦃os = failing⦄ local (pos 4) (pos 0) (pos 0) closed).0
        ≡ last_error (pos 111))
    × ((make_connector ⦃os = failing⦄ local (pos 0) closed).0 ≡ throws (last_error (pos 111)))
    × ((make_connector_ec ⦃os = failing⦄ local (pos 0) closed).0 ≡ last_error (pos 111))
    × ((make_connector_timed_ec ⦃os = failing⦄ 100 local (pos 0) (pos 0) closed).0
        ≡ last_error (pos 111))
unfolding make_datagram make_datagram_ec open_datagram open_bound create_handle reset bind close
    make_acceptor make_acceptor_ec open_acceptor bind_and_listen make_connector make_connector_ec
    make_connector_timed_ec connect_timed connect connect_call family
constructor_runs = (refl, refl, refl, refl, refl, refl, refl)

datagram_runs :
    ((Datagram.clone ⦃os = failing⦄ (pos 3) start).0 ≡ ok (pos 0))
    × ((Datagram.connect ⦃os = failing⦄ local (pos 3) start).0 ≡ from_error (last_error (pos 111)))
unfolding Datagram.clone Datagram.connect
datagram_runs = (refl, refl)
