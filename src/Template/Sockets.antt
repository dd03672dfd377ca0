-- ===== src/Template/Sockets.antt =====
-- `datagram_socket_tmpl` of include/sockpp/datagram_socket.h and `stream_socket_tmpl` of
-- include/sockpp/stream_socket.h.
use sockpp.Prelude.{ℤ, pos, ℕ, List, Option, if◌then◌else◌}
use sockpp.Result.{Result, Outcome, None, ok, is_error, from_error, value_or_throw}
use sockpp.System.{Os, World, Object, Action, pure, ◌>>=◌}
use sockpp.Socket
use sockpp.Socket.{create_handle, pair_default}
use sockpp.Socket.Options.{bind}
use sockpp.Socket.Transfer
use sockpp.Stream.{sock_stream}
use sockpp.Datagram
use sockpp.Datagram.{sock_dgram, make_datagram}
use sockpp.Template.{AddressClass}

module _ ⦃os : Os⦄ where
  -- `pair`, of sockets of this type: both handles are released from the pair that `base::pair` returns
  unfoldable pub pair_of : AddressClass → ℤ → ℤ → Action World (Result (ℤ × ℤ))
  unfolding Socket.pair
  pair_of cls type protocol = do
    res ← Socket.pair (pos cls.address_family) type protocol
    pure (if is_error res then from_error res.err else ok res.val)

  -- `datagram_socket_tmpl::pair` and `stream_socket_tmpl::pair`
  unfoldable pub pair_datagram : AddressClass → ℤ → Action World (Result (ℤ × ℤ))
  unfolding pair_of
  pair_datagram cls protocol = pair_of cls sock_dgram protocol

  unfoldable pub pair_stream : AddressClass → ℤ → Action World (Result (ℤ × ℤ))
  unfolding pair_of
  pair_stream cls protocol = pair_of cls sock_stream protocol

  -- `datagram_socket_tmpl()`: the handle of the new object
  unfoldable pub make_unbound : AddressClass → Action World (Outcome ℤ)
  unfolding create_handle value_or_throw
  make_unbound cls = do
    res ← create_handle (pos cls.address_family) sock_dgram (pos 0)
    pure (value_or_throw res)

  -- `datagram_socket_tmpl(addr)`
  unfoldable pub make_bound : List ℕ → Action Object (Outcome None)
  unfolding make_datagram
  make_bound addr = make_datagram addr

  -- `bind` and `connect` of `datagram_socket_tmpl`
  unfoldable pub bind_at : List ℕ → ℤ → Action World (Result None)
  unfolding bind
  bind_at addr handle = bind handle addr (pos 0)

  unfoldable pub connect_datagram : List ℕ → ℤ → Action World (Result None)
  unfolding Datagram.connect
  connect_datagram addr handle = Datagram.connect addr handle

  -- `send_to(buf, n, flags, addr)`, and the same of a span
  unfoldable pub send_flags : ℤ → List ℕ → ℤ → List ℕ → Action World (Result ℕ)
  unfolding Transfer.send_to
  send_flags handle buf flags addr = Transfer.send_to handle buf flags addr

  -- `send_to(buf, n, addr)`, and the same of a string and of a span
  unfoldable pub send_to : ℤ → List ℕ → List ℕ → Action World (Result ℕ)
  unfolding Transfer.send_to
  send_to handle buf addr = Transfer.send_to handle buf (pos 0) addr

  -- `recv_from(buf, n, flags, srcAddr)` and `recv_from(buf, n, srcAddr)`, and the same of a span
  unfoldable pub recv_flags : ℤ → ℕ → ℤ → Option ℕ → Action World (Result ℕ × List ℕ × List ℕ)
  unfolding Transfer.recv_from
  recv_flags handle n flags src_addr = Transfer.recv_from handle n flags src_addr

  unfoldable pub recv_from : ℤ → ℕ → Option ℕ → Action World (Result ℕ × List ℕ × List ℕ)
  unfolding Transfer.recv_from
  recv_from handle n src_addr = Transfer.recv_from handle n (pos 0) src_addr
