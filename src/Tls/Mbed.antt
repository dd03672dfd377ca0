-- ===== src/Tls/Mbed.antt =====
-- The transport of the Mbed TLS socket: src/tls/mbedtls_socket.cpp and
-- include/sockpp/tls/mbedtls_socket.h. The library reads and writes through callbacks, whose negative
-- values are its error codes.
pub mod Bio
pub mod Context
pub mod Roots
pub mod Socket
use sockpp.Prelude.{
  ℤ, pos, negsuc, pos_part, ltb_ℤ, eqb_ℤ, ℕ, ◌+◌, ◌-◌, ◌*◌, ◌^◌, ◌==◌, List, [], Bool, true, false,
  not, ◌||◌, if◌then◌else◌,
}
use sockpp.Error.{ErrorCode, Category, Errc, make_error_code, matches}
use sockpp.Result.{Result, ok, is_ok, is_error, from_error, size_default, unit_default}
use sockpp.System.{Os, World, Action, pure, ◌>>=◌, ◌>>◌}
use sockpp.Socket.Options.{read_timeout}
use sockpp.Stream
use sockpp.Tls.{to_int}

-- `MBEDTLS_ERR_NET_CONN_RESET` and the others, as their header numbers them: minus these
abbrev pub net_conn_reset : ℕ
net_conn_reset = 0x50

abbrev pub net_recv_failed : ℕ
net_recv_failed = 0x4c

abbrev pub net_send_failed : ℕ
net_send_failed = 0x4e

abbrev pub ssl_want_read : ℕ
ssl_want_read = 0x6900

abbrev pub ssl_want_write : ℕ
ssl_want_write = 0x6880

abbrev pub ssl_peer_close_notify : ℕ
ssl_peer_close_notify = 0x7880

abbrev pub neg : ℕ → ℤ
neg n = if n == 0 then pos 0 else negsuc (n - 1)

-- `make_tls_error_code` of include/sockpp/tls/mbedtls_error.h
abbrev pub make_tls_error_code : ℤ → ErrorCode
make_tls_error_code err = record { value = err; category = Category.mbedtls }

-- `-mbedErr`
abbrev pub negate : ℤ → ℤ
negate (pos n) = neg n
negate (negsuc n) = pos (n + 1)

-- `translate_mbed_err`
unfoldable pub translate_mbed_err : ℤ → ErrorCode
translate_mbed_err err =
    if eqb_ℤ err (neg ssl_peer_close_notify) || eqb_ℤ err (neg net_conn_reset)
    then make_error_code Errc.connection_reset
    else if eqb_ℤ err (neg ssl_want_read) || eqb_ℤ err (neg ssl_want_write)
    then make_error_code Errc.operation_would_block
    else if eqb_ℤ err (neg net_recv_failed) || eqb_ℤ err (neg net_send_failed)
    then make_error_code Errc.io_error
    else make_tls_error_code (negate err)

-- `check_mbed_io`
unfoldable pub check_mbed_io : ℤ → Result ℕ
unfolding translate_mbed_err
check_mbed_io res =
    if ltb_ℤ res (pos 0) then from_error (translate_mbed_err res) else ok (pos_part res)

-- A negative `int` as a `size_t`
abbrev pub to_size : ℕ → ℕ
to_size n = 2 ^ 64 - n

-- `bio_return_value<size_t, Reading>`. All but a broken connection are successes, whose value is the
-- error number as a `size_t`.
unfoldable pub bio_return_value : Bool → Result ℕ → Result ℕ
bio_return_value reading res =
    if is_ok res
    then ok res.val
    else if matches res.err Errc.broken_pipe || matches res.err Errc.connection_reset
    then from_error (make_tls_error_code (neg net_conn_reset))
    else if matches res.err Errc.interrupted
        || (matches res.err Errc.operation_would_block
            || matches res.err Errc.resource_unavailable_try_again)
    then ok (to_size (if reading then ssl_want_read else ssl_want_write))
    else ok (to_size (if reading then net_recv_failed else net_send_failed))

-- What the callbacks that `setup_bio` installs make of it: `(int)res.value()`, or the error's number
unfoldable pub callback_value : Result ℕ → ℤ
callback_value res = if is_ok res then to_int res.val else res.err.value

-- The members of the socket that the callbacks use
pub record MbedSocket : Type 0 where
  pub handle : ℤ
  pub opened : Bool
  pub timeout : ℤ

module _ ⦃os : Os⦄ where
  -- `bio_send`
  unfoldable pub bio_send : MbedSocket → List ℕ → Action World (Result ℕ)
  unfolding Stream.write bio_return_value
  bio_send s buf =
      if not (s.opened)
      then pure (from_error (make_tls_error_code (neg net_conn_reset)))
      else (do res ← Stream.write (s.handle) buf; pure (bio_return_value false res))

  -- `bio_recv`: the result, and the bytes that were written to the buffer
  unfoldable pub bio_recv : MbedSocket → ℕ → Action World (Result ℕ × List ℕ)
  unfolding Stream.read bio_return_value
  bio_recv s n =
      if not (s.opened)
      then pure (from_error (make_tls_error_code (neg net_conn_reset)), [])
      else (do (res, bytes) ← Stream.read (s.handle) n; pure (bio_return_value true res, bytes))

  -- `bio_recv_timeout`, with the timeout in milliseconds
  unfoldable pub bio_recv_timeout : MbedSocket → ℕ → ℕ → Action World (Result ℕ × List ℕ)
  unfolding bio_recv
  bio_recv_timeout s n timeout =
      if not (s.opened)
      then pure (from_error (make_tls_error_code (neg net_conn_reset)), [])
      else if timeout == 0
      then bio_recv s n
      else (do
        read_timeout (s.handle) (pos (timeout * 1000))
        res ← bio_recv s n
        read_timeout (s.handle) (s.timeout)
        pure res)
