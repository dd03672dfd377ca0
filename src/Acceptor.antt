-- ===== src/Acceptor.antt =====
-- `class acceptor`: src/acceptor.cpp and include/sockpp/acceptor.h.
pub mod Open
pub mod Timeout
use sockpp.Prelude.{ℤ, pos, ℕ, List, [], if◌then◌else◌, Option, none, some, ◌∷◌, map, pos_part}
use sockpp.Error.{Errc, ErrorCode}
use sockpp.Result.{
  Outcome, Result, None, ok, is_error, from_error, from_errc, unit_default, int_default,
}
use sockpp.System.{
  Os, World, Object, Call, Action, perform, check_res_none, check_socket, pure, ◌>>=◌, ◌>>◌, static,
  or_return,
}
use sockpp.Address.{family}
use sockpp.Socket.{is_open, create_handle, reset, on_handle, or_close}
use sockpp.Socket.Build.{or_throw, or_code}
use sockpp.Socket.Options.{bind}
use sockpp.Stream.{sock_stream}
use sockpp.Poller.{wait, poller_of, poll_read, ceil_ms}

module _ ⦃os : Os⦄ where
  unfoldable pub listen : ℤ → ℤ → Action World (Result None)
  unfolding perform check_res_none
  listen handle que_size = do r ← perform (Call.listen handle que_size); check_res_none r.ret

  -- `acceptor::create`: the handle of the new object
  unfoldable pub create : ℤ → ℤ → Action World (Result ℤ)
  unfolding create_handle
  create domain protocol = or_return (create_handle domain sock_stream protocol) (λ h. pure (ok h))

  -- The part of `acceptor::open` that follows the new socket
  unfoldable pub bind_and_listen : List ℕ → ℤ → ℤ → Action Object (Result None)
  bind_and_listen addr que_size reuse =
      or_close (on_handle λ handle. bind handle addr reuse)
        (or_close (on_handle λ handle. listen handle que_size) (pure (ok tt)))

  -- `acceptor::open(addr, queSize, reuse, protocol)`
  unfoldable pub open_acceptor : List ℕ → ℤ → ℤ → ℤ → Action Object (Result None)
  open_acceptor addr que_size reuse protocol o =
      if is_open o
      then (ok tt, o)
      else or_return (static (create_handle (pos (family addr)) sock_stream protocol))
          (λ h. reset h >> bind_and_listen addr que_size reuse) o

  -- `acceptor::accept(sock_address*)`: the new handle, and the bytes that were stored at the client's
  -- address, if one was given (by its size)
  unfoldable pub accept : ℤ → Option ℕ → Action World (Result ℤ × List ℕ)
  unfolding perform check_socket
  accept handle client_addr = do
    r ← perform (Call.accept handle (elim client_addr [ none ↦ 0 | some size ↦ size ]))
    res ← or_return (check_socket r.ret) (λ h. pure (ok h))
    pure (res, elim client_addr [ none ↦ [] | some _ ↦ map pos_part r.ints ])

  -- `acceptor::accept(timeout, sock_address*)`, with the timeout in microseconds; `self` is the
  -- acceptor's own address in memory
  unfoldable pub accept_timed : ℕ → ℤ → ℤ → Option ℕ → Action World (Result ℤ × List ℕ)
  accept_timed self handle timeout client_addr = do
    (res, p) ← wait (ceil_ms timeout) (poller_of self handle poll_read)
    if is_error res then pure (from_error res.err, []) else elim res.val [
      | [] ↦ pure (from_errc Errc.timed_out, [])
      | _ ∷ _ ↦ accept handle client_addr
    ]

  -- `acceptor(addr, queSize, reuse, protocol)`
  unfoldable pub make_acceptor : List ℕ → ℤ → ℤ → ℤ → Action Object (Outcome None)
  unfolding open_acceptor
  make_acceptor addr que_size reuse protocol = or_throw (open_acceptor addr que_size reuse protocol)

  -- The same with an error code
  unfoldable pub make_acceptor_ec : List ℕ → ℤ → ℤ → ℤ → Action Object ErrorCode
  unfolding open_acceptor
  make_acceptor_ec addr que_size reuse protocol =
      or_code (open_acceptor addr que_size reuse protocol)
