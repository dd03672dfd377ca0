-- ===== src/Connector.antt =====
-- `class connector`: src/connector.cpp and include/sockpp/connector.h.
pub mod Outcomes
pub mod Timed
pub mod Built
pub mod Waiting
pub mod Lifetime
use sockpp.Prelude.{
  ℤ, pos, negsuc, ℕ, zero, suc, List, [], ◌∷◌, Bool, true, false, not, ◌&&◌, ◌||◌, if◌then◌else◌,
}
use sockpp.Error.{ErrorCode, Errc, no_error, matches}
use sockpp.Result.{
  Outcome, Result, None, ok, is_error, is_ok, from_error, from_errc, from_system, eq_errc,
  unit_default, list_default,
}
use sockpp.System.{
  Os, World, Object, Call, Action, perform, check_res_none, pure, ◌>>=◌, ◌>>◌, static, or_return,
}
use sockpp.Address.{family}
use sockpp.Socket.{is_open, create_handle, reset, close, on_handle, or_close, get_option_at}
use sockpp.Socket.Build.{or_throw, or_code}
use sockpp.Socket.Options.{is_non_blocking, set_non_blocking, sol_socket, so_error}
use sockpp.Poller.{PollEvent, wait, poller_of, poll_read_write, ceil_ms}
use sockpp.Stream.{sock_stream}

-- `timeout.count() > 0`
abbrev pub is_positive : ℤ → Bool
is_positive (pos zero) = false
is_positive (pos (suc n)) = true
is_positive (negsuc n) = false

module _ ⦃os : Os⦄ where
  -- `check_res_none(::connect(handle(), addr.sockaddr_ptr(), addr.size()))`
  unfoldable pub connect_call : List ℕ → ℤ → Action World (Result None)
  unfolding perform check_res_none
  connect_call addr handle = do r ← perform (Call.connect handle addr); check_res_none r.ret

  -- `connector::connect(addr, protocol)`
  unfoldable pub connect : List ℕ → ℤ → Action Object (Result None)
  connect addr protocol o =
      if is_open o
      then (from_errc Errc.already_connected, o)
      else or_return (static (create_handle (pos (family addr)) sock_stream protocol))
          (λ h. reset h >> or_close (on_handle (connect_call addr)) (pure (ok tt))) o

  -- The error of the socket, once the poll has reported an event
  unfoldable pub pending_error : ℤ → Action World (Result None)
  unfolding get_option_at
  pending_error handle = do
    (_, soerr) ← get_option_at handle sol_socket so_error (pos 0)
    pure (from_system soerr)

  -- What the wait for a connection in progress gives: the error of the poll, `timed_out` if there
  -- was no event, or else the pending error; `self` is the connector's address in memory
  unfoldable pub await_connection : ℕ → ℤ → ℤ → Action World (Result None)
  await_connection self timeout handle = do
    (wres, p) ← wait (ceil_ms timeout) (poller_of self handle poll_read_write)
    if is_error wres
        then pure (from_error wres.err)
        else elim wres.val [ [] ↦ pure (from_errc Errc.timed_out) | _ ∷ _ ↦ pending_error handle ]

  -- The connect call of the timed `connect`, with the wait if it is in progress
  unfoldable pub connect_or_wait : ℕ → List ℕ → ℤ → ℤ → Action World (Result None)
  connect_or_wait self addr timeout handle = do
    res ← connect_call addr handle
    if is_error res
          && (eq_errc res Errc.operation_in_progress || eq_errc res Errc.operation_would_block)
        then await_connection self timeout handle
        else pure res

  -- The last lines of the timed `connect`: blocking mode again, if it was on
  unfoldable pub restore_blocking : Bool → Action Object (Result None)
  restore_blocking true = pure (ok tt)
  restore_blocking false = on_handle (λ h. set_non_blocking h false) >> pure (ok tt)

  -- The timed `connect` from the question whether the new socket is non-blocking
  unfoldable pub connect_non_blocking : ℕ → List ℕ → ℤ → Action Object (Result None)
  connect_non_blocking self addr timeout = do
    non_blocking ← on_handle is_non_blocking
    or_return (if non_blocking then pure (ok tt) else on_handle (λ h. set_non_blocking h true))
        (λ _.
          or_close (on_handle (connect_or_wait self addr timeout)) (restore_blocking non_blocking))

  -- `connector::connect(addr, timeout, protocol)`, with the timeout in microseconds
  unfoldable pub connect_timed : ℕ → List ℕ → ℤ → ℤ → Action Object (Result None)
  connect_timed self addr timeout protocol o =
      if is_positive timeout
      then (if is_open o
          then (from_errc Errc.already_connected, o)
          else or_return (static (create_handle (pos (family addr)) sock_stream protocol))
              (λ h. reset h >> connect_non_blocking self addr timeout) o)
      else connect addr protocol o

  -- `connector::disconnect`
  unfoldable pub disconnect : Action Object (Result None)
  disconnect = close

  -- `connector(addr, protocol)`
  unfoldable pub make_connector : List ℕ → ℤ → Action Object (Outcome None)
  unfolding connect
  make_connector addr protocol = or_throw (connect addr protocol)

  -- The same with an error code
  unfoldable pub make_connector_ec : List ℕ → ℤ → Action Object ErrorCode
  unfolding connect
  make_connector_ec addr protocol = or_code (connect addr protocol)

  -- `connector(addr, relTime, protocol)`, and the one with milliseconds
  unfoldable pub make_connector_timed : ℕ → List ℕ → ℤ → ℤ → Action Object (Outcome None)
  unfolding connect_timed
  make_connector_timed self addr timeout protocol =
      or_throw (connect_timed self addr timeout protocol)

  unfoldable pub make_connector_timed_ec : ℕ → List ℕ → ℤ → ℤ → Action Object ErrorCode
  unfolding connect_timed
  make_connector_timed_ec self addr timeout protocol =
      or_code (connect_timed self addr timeout protocol)
