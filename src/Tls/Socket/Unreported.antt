-- ===== src/Tls/Socket/Unreported.antt =====
-- Calls of the library that fail and leave its error queue empty.
use sockpp.Prelude.{ℤ, pos, ℕ, List, ◌∷◌, ◌≡◌, true}
use sockpp.Result.{is_ok}
use sockpp.Library.{LibraryCall}
use sockpp.System.{Os, World, Call}
use sockpp.Tls.{is_failure}
use sockpp.Tls.Socket.Io.{read, write}
use sockpp.Tls.Connector.{tls_connect}

module _ ⦃os : Os⦄ where
  -- The call fails, and `ERR_get_error` finds no error after it.
  abbrev pub FailsSilently : LibraryCall → World → Type 0
  FailsSilently c w =
      let r = os.reply w.history (Call.library c) in
      (is_failure r.ret ≡ true)
      × ((os.reply (record { call = Call.library c; reply = r } ∷ w.history)
            (Call.library LibraryCall.err_get_error)).ret
          ≡ pos 0)

  -- Where a read, a write or a handshake fails and leaves the library's error queue empty, the result
  -- counts as a success: zero bytes were read, as at the end of the stream, zero bytes were written,
  -- and the connection is up.
  pub read-hides_failure :
      (ssl : ℤ) (n : ℕ) (buf : List ℕ) (w : World)
      → (FailsSilently (LibraryCall.ssl_read_ex ssl n) w
          → let res = (read ssl n w).0.0 in (is_ok res ≡ true) × (res.val ≡ 0))
        × (FailsSilently (LibraryCall.ssl_write_ex ssl buf) w
            → let res = (write ssl buf w).0 in (is_ok res ≡ true) × (res.val ≡ 0))
        × (FailsSilently (LibraryCall.ssl_connect ssl) w → is_ok (tls_connect ssl w).0 ≡ true)
  unfolding read write tls_connect
  read-hides_failure ssl n buf w = (
    λ (failed, quiet). (rw (failed, quiet), rw failed),
    λ (failed, quiet). (rw (failed, quiet), rw failed),
    λ (failed, quiet). rw (failed, quiet),
  )
