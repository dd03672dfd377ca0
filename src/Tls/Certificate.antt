-- ===== src/Tls/Certificate.antt =====
-- `class tls_certificate`: src/tls/openssl_certificate.cpp and
-- include/sockpp/tls/openssl_certificate.h. An object is its `cert_`, a counted reference.
pub mod Counts
use sockpp.Prelude.{ℤ, pos, ltb_ℤ, ℕ, List, [], Bool, not, pos_part, take, if◌then◌else◌}
use sockpp.Result.{Result, None, ok, from_error, int_default}
use sockpp.Library.{LibraryCall}
use sockpp.System.{Os, World, Call, Action, perform, pure, ◌>>=◌, ◌>>◌}
use sockpp.Tls.{library, tls_last_error, is_null, is_failure}

-- The null pointer
abbrev pub null : ℤ
null = pos 0

-- `is_valid`
unfoldable pub is_valid : ℤ → Bool
is_valid cert = not (is_null cert)

module _ ⦃os : Os⦄ where
  -- `tls_certificate(const tls_certificate&)`
  unfoldable pub copy : ℤ → Action World ℤ
  unfolding perform
  copy other =
      if is_null other then pure other else library (LibraryCall.x509_up_ref other) >> pure other

  -- `tls_certificate(tls_certificate&&)`: the new object, and the one moved from
  unfoldable pub move_from : ℤ → ℤ × ℤ
  move_from other = (other, null)

  -- `~tls_certificate`
  unfoldable pub destroy : ℤ → Action World None
  unfolding perform
  destroy cert = library (LibraryCall.x509_free cert) >> pure tt

  -- `operator=(const tls_certificate&)`: the new `cert_`; `same` says that the two are one object
  unfoldable pub assign : Bool → ℤ → ℤ → Action World ℤ
  unfolding perform
  assign same cert rhs = if same then pure cert else do
    library (LibraryCall.x509_free cert)
    if is_null rhs then pure rhs else library (LibraryCall.x509_up_ref rhs) >> pure rhs

  -- `operator=(tls_certificate&&)`: the new `cert_`, and that of the other object
  unfoldable pub move_assign : Bool → ℤ → ℤ → Action World (ℤ × ℤ)
  unfolding perform
  move_assign same cert rhs =
      if same then pure (cert, rhs) else library (LibraryCall.x509_free cert) >> pure (rhs, null)

  -- `from_pem`
  unfoldable pub from_pem : List ℕ → Action World (Result ℤ)
  unfolding perform tls_last_error
  from_pem pem = do
    bio ← library (LibraryCall.bio_new_mem_buf pem)
    if is_null bio then (do e ← tls_last_error; pure (from_error e)) else do
      library LibraryCall.err_clear_error
      cert ← library (LibraryCall.pem_read_bio_x509_aux bio)
      res ← if is_null cert then (do e ← tls_last_error; pure (from_error e)) else pure (ok cert)
      library (LibraryCall.bio_free bio)
      pure res

  -- `from_der`
  unfoldable pub from_der : List ℕ → Action World (Result ℤ)
  unfolding perform tls_last_error
  from_der der = do
    cert ← library (LibraryCall.d2i_x509 der)
    if is_null cert then (do e ← tls_last_error; pure (from_error e)) else pure (ok cert)

  -- `to_der`; the buffer that the call fills is freed at once
  unfoldable pub to_der : ℤ → Action World (List ℕ)
  unfolding perform
  to_der cert = if is_null cert then pure [] else do
    r ← perform (Call.library (LibraryCall.i2d_x509 cert))
    pure (if is_failure r.ret then [] else take (pos_part r.ret) r.bytes)
