-- ===== src/Stream.antt =====
-- `class stream_socket`: src/stream_socket.cpp and include/sockpp/stream_socket.h. The two loops take
-- fuel, and `none` means that it ran out. `size_t` does not wrap in them, since a call moves no
-- more bytes than it was given.
pub mod Laws
pub mod ReadAll
pub mod WriteAll
use sockpp.Prelude.{
  ℤ, pos, ℕ, zero, suc, ◌+◌, ◌-◌, List, [], ◌∷◌, ◌++◌, true, false, ltb, ◌==◌, if◌then◌else◌,
  Option, none, some, take, drop, length, pos_part, map,
}
use sockpp.Error.{Errc}
use sockpp.Result.{Result, None, ok, is_error, from_error, eq_errc, size_default, int_default}
use sockpp.System.{Os, World, Call, Action, perform, check_res, pure, ◌>>=◌, or_return}
use sockpp.Socket
use sockpp.Socket.{create_handle}
use sockpp.Socket.Transfer.{recv, send}

-- `COMM_TYPE`
abbrev pub sock_stream : ℤ
sock_stream = pos 1

module _ ⦃os : Os⦄ where
  -- `stream_socket::create`: the handle of the new object
  unfoldable pub create : ℤ → ℤ → Action World (Result ℤ)
  unfolding create_handle
  create domain protocol = or_return (create_handle domain sock_stream protocol) (λ h. pure (ok h))

  -- `stream_socket::clone`: the copy's handle is taken out of the socket that `base::clone` returns
  unfoldable pub clone : ℤ → Action World (Result ℤ)
  unfolding Socket.clone
  clone handle = or_return (Socket.clone handle) (λ h. pure (ok h))

  -- `read(buf, n)`: the result, and the bytes that were written to the buffer
  unfoldable pub read : ℤ → ℕ → Action World (Result ℕ × List ℕ)
  unfolding perform check_res
  read handle n = do
    r ← perform (Call.recv handle n (pos 0))
    res ← check_res pos_part r.ret
    pure (res, r.bytes)

  -- The loop of `read_n`, with `nx` bytes read: `got`, the first `nx` bytes of the buffer
  unfoldable pub read_n_loop : ℕ → ℤ → ℕ → ℕ → List ℕ → Action World (Option (Result ℕ × List ℕ))
  read_n_loop zero handle n nx got w = (none, w)
  read_n_loop (suc fuel) handle n nx got w =
      let ((res, bytes), w') = read handle (n - nx) w in
      let again = read_n_loop fuel handle n nx got w' in
      let more = read_n_loop fuel handle n (nx + res.val) (got ++ take res.val bytes) w' in
      if ltb nx n
      then (if is_error res
          then (if eq_errc res Errc.interrupted
              then again
              else (some (from_error res.err, got), w'))
          else (if res.val == 0 then (some (ok nx, got), w') else more))
      else (some (ok nx, got), w)

  -- `read_n(buf, n)`
  unfoldable pub read_n : ℕ → ℤ → ℕ → Action World (Option (Result ℕ × List ℕ))
  read_n fuel handle n = read_n_loop fuel handle n 0 []

  -- `read(ranges)`, the ranges by their lengths
  unfoldable pub read_ranges : ℤ → List ℕ → Action World (Result ℕ × List ℕ)
  unfolding perform check_res
  read_ranges handle [] = pure (ok 0, [])
  read_ranges handle (r₀ ∷ rs) = do
    r ← perform (Call.readv handle (r₀ ∷ rs))
    res ← check_res pos_part r.ret
    pure (res, r.bytes)

  -- `write(buf, n)`
  unfoldable pub write : ℤ → List ℕ → Action World (Result ℕ)
  unfolding perform check_res
  write handle buf = do r ← perform (Call.send handle buf (pos 0)); check_res pos_part r.ret

  -- The loop of `write_n`, with `nx` bytes written
  unfoldable pub write_n_loop : ℕ → ℤ → List ℕ → ℕ → Action World (Option (Result ℕ))
  write_n_loop zero handle buf nx w = (none, w)
  write_n_loop (suc fuel) handle buf nx w =
      let (res, w') = write handle (drop nx buf) w in
      let again = write_n_loop fuel handle buf nx w' in
      let more = write_n_loop fuel handle buf (nx + res.val) w' in
      if ltb nx (length buf)
      then (if is_error res
          then (if eq_errc res Errc.interrupted then again else (some (from_error res.err), w'))
          else (if res.val == 0 then (some (ok nx), w') else more))
      else (some (ok nx), w)

  -- `write_n(buf, n)`, and `write(const string&)`
  unfoldable pub write_n : ℕ → ℤ → List ℕ → Action World (Option (Result ℕ))
  write_n fuel handle buf = write_n_loop fuel handle buf 0

  -- `write(ranges)`
  unfoldable pub write_ranges : ℤ → List (List ℕ) → Action World (Result ℕ)
  unfolding perform check_res
  write_ranges handle ranges = do r ← perform (Call.writev handle ranges); check_res pos_part r.ret
