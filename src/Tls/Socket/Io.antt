-- ===== src/Tls/Socket/Io.antt =====
-- Reading and writing of `tls_socket`.
use sockpp.Prelude.{ℤ, pos, pos_part, ℕ, List, [], ◌∷◌, if◌then◌else◌}
use sockpp.Result.{Result, ok, from_error, size_default}
use sockpp.Library.{LibraryCall}
use sockpp.System.{Os, World, Call, Action, perform, pure, ◌>>=◌}
use sockpp.Socket.{field_at}
use sockpp.Tls.{tls_last_error, is_failure}

module _ ⦃os : Os⦄ where
  -- `tls_check_io`
  unfoldable pub tls_check_io : ℤ → ℕ → Action World (Result ℕ)
  unfolding tls_last_error
  tls_check_io ret nx =
      if is_failure ret then (do e ← tls_last_error; pure (from_error e)) else pure (ok nx)

  -- `read(buf, n)`: the result, and the bytes that were written to the buffer
  unfoldable pub read : ℤ → ℕ → Action World (Result ℕ × List ℕ)
  unfolding perform tls_check_io
  read ssl n = do
    r ← perform (Call.library (LibraryCall.ssl_read_ex ssl n))
    res ← tls_check_io r.ret (pos_part (field_at 0 (pos 0) r.ints))
    pure (res, r.bytes)

  -- `write(buf, n)`
  unfoldable pub write : ℤ → List ℕ → Action World (Result ℕ)
  unfolding perform tls_check_io
  write ssl buf = do
    r ← perform (Call.library (LibraryCall.ssl_write_ex ssl buf))
    tls_check_io r.ret (pos_part (field_at 0 (pos 0) r.ints))

  -- `write(ranges)`, which writes the first range
  unfoldable pub write_ranges : ℤ → List (List ℕ) → Action World (Result ℕ)
  unfolding write
  write_ranges ssl [] = pure (ok 0)
  write_ranges ssl (r ∷ rs) = write ssl r
