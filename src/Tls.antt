-- ===== src/Tls.antt =====
-- The OpenSSL back end: src/tls/openssl_error.cpp, include/sockpp/tls/openssl_error.h, and its classes
-- in the children. Calls of OpenSSL are part of the same record as those of the system.
pub mod Certificate
pub mod Context
pub mod Pinning
pub mod Socket
pub mod Connector
pub mod Builder
pub mod Pin
pub mod Mbed
use sockpp.Prelude.{
  ℤ, pos, negsuc, ℕ, ◌-◌, ◌%◌, ◌^◌, Bool, ltb, not, ltb_ℤ, eqb_ℤ, pos_part, if◌then◌else◌,
}
use sockpp.Error.{ErrorCode, Category}
use sockpp.Result.{Result, None, ok, from_error, unit_default, size_default}
use sockpp.Library.{LibraryCall}
use sockpp.System.{Os, World, Call, Reply, Action, perform, pure, ◌>>=◌, ◌>>◌}

-- `ret <= 0`
abbrev pub is_failure : ℤ → Bool
is_failure ret = not (ltb_ℤ (pos 0) ret)

abbrev pub is_null : ℤ → Bool
is_null p = eqb_ℤ p (pos 0)

-- `(int)err`, of an `unsigned long`
abbrev pub to_int : ℕ → ℤ
to_int err = let n = err % 2 ^ 32 in if ltb n (2 ^ 31) then pos n else negsuc (2 ^ 32 - 1 - n)

module _ ⦃os : Os⦄ where
  -- A call of the library, by what it returns
  abbrev pub library : LibraryCall → Action World ℤ
  library c = do r ← perform (Call.library c); pure r.ret

  -- `tls_last_error`
  unfoldable pub tls_last_error : Action World ErrorCode
  unfolding perform
  tls_last_error = do
    err ← library LibraryCall.err_get_error
    pure (record { value = to_int (pos_part err); category = Category.openssl })

  -- `tls_check_res_none`
  unfoldable pub tls_check_res_none : ℤ → Action World (Result None)
  unfolding tls_last_error
  tls_check_res_none ret =
      if is_failure ret then (do e ← tls_last_error; pure (from_error e)) else pure (ok tt)

  -- The check of a call of the library that `tls_check_res_none` makes
  unfoldable pub checked : LibraryCall → Action World (Result None)
  unfolding perform tls_check_res_none
  checked c = do ret ← library c; tls_check_res_none ret
