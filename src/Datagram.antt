-- ===== src/Datagram.antt =====
-- `class datagram_socket` of src/datagram_socket.cpp and include/sockpp/datagram_socket.h, and
-- `class raw_socket` of include/sockpp/raw_socket.h.
pub mod Open
use sockpp.Prelude.{ℤ, pos, ℕ, List, if◌then◌else◌}
use sockpp.Error.{ErrorCode}
use sockpp.Result.{Result, Outcome, returns, throws, None, ok, is_error, unit_default, int_default}
use sockpp.System.{
  Os, World, Object, Action, Call, perform, check_res_none, pure, ◌>>=◌, ◌>>◌, static, or_return,
}
use sockpp.Address.{family}
use sockpp.Socket
use sockpp.Socket.{create_handle, reset, on_handle, or_close}
use sockpp.Socket.Build.{or_throw, or_code}
use sockpp.Socket.Options.{bind}

-- `datagram_socket::COMM_TYPE` and `raw_socket::COMM_TYPE`
abbrev pub sock_dgram : ℤ
sock_dgram = pos 2

abbrev pub sock_raw : ℤ
sock_raw = pos 3

module _ ⦃os : Os⦄ where
  -- The new handle goes to the object, which closes what it had, and is bound; if that fails the
  -- object is closed. The open calls of datagram and CAN sockets are both this.
  unfoldable pub open_bound : ℤ → ℤ → ℤ → List ℕ → Action Object (Result None)
  open_bound domain type protocol addr =
      or_return (static (create_handle domain type protocol))
        (λ h. reset h >> or_close (on_handle λ handle. bind handle addr (pos 0)) (pure (ok tt)))

  -- `datagram_socket::open`
  unfoldable pub open_datagram : List ℕ → Action Object (Result None)
  unfolding open_bound
  open_datagram addr = open_bound (pos (family addr)) sock_dgram (pos 0) addr

  -- `datagram_socket(addr)`, from a closed object
  unfoldable pub make_datagram : List ℕ → Action Object (Outcome None)
  unfolding open_datagram
  make_datagram addr = or_throw (open_datagram addr)

  -- `datagram_socket(addr, ec)`
  unfoldable pub make_datagram_ec : List ℕ → Action Object ErrorCode
  unfolding open_datagram
  make_datagram_ec addr = or_code (open_datagram addr)

  -- `clone`, of both classes: the handle is taken out of the socket that `base::clone` returns
  unfoldable pub clone : ℤ → Action World (Result ℤ)
  unfolding Socket.clone
  clone handle = or_return (Socket.clone handle) (λ h. pure (ok h))

  -- `connect`, of both classes
  unfoldable pub connect : List ℕ → ℤ → Action World (Result None)
  unfolding perform check_res_none
  connect addr handle = do r ← perform (Call.connect handle addr); check_res_none r.ret
