-- ===== src/Tls/Context/Roots.antt =====
-- `tls_context::set_root_certs`. The loop over the certificates takes fuel, and `none` means that it
-- ran out. What the destructors of the smart pointers free stands where they run.
pub mod Loads
pub mod Replaced
use sockpp.Prelude.{
  ℤ, pos, ℕ, zero, suc, ◌+◌, ◌==◌, List, Bool, eqb_ℤ, if◌then◌else◌, Option, none, some,
}
use sockpp.Error.{Errc, ErrorCode, make_error_code}
use sockpp.Result.{Result, None, ok, from_error, from_errc, unit_default}
use sockpp.Library.{LibraryCall, ErrorNumbers}
use sockpp.System.{Os, World, Call, Action, perform, pure, ◌>>=◌, ◌>>◌}
use sockpp.Tls.{library, tls_last_error, is_null}

-- How the loop ended: with an error, or at the end of the text with this many certificates added
pub data Loaded : Type 0 where
  failed : ErrorCode → Loaded
  loaded : ℕ → Loaded

-- The next round, unless this one failed
abbrev pub go_on : Loaded → World → (ℕ → Option Loaded × World) → Option Loaded × World
go_on (failed e) w more = (some (failed e), w)
go_on (loaded n) w more = more n

module _ ⦃os : Os⦄ ⦃numbers : ErrorNumbers⦄ where
  -- After a read that gave no certificate: the end of the text, or an error
  unfoldable pub end_of_text : ℕ → Action World Loaded
  unfolding perform tls_last_error
  end_of_text n = do
    err ← library LibraryCall.err_peek_last_error
    if numbers.is_no_start_line err
        then library LibraryCall.err_clear_error >> pure (loaded n)
        else (do e ← tls_last_error; pure (failed e))

  -- The certificate is added; a duplicate does not count, any other failure is an error. The
  -- certificate is freed at the end of the round.
  unfoldable pub add_cert : ℤ → ℤ → ℕ → Action World Loaded
  unfolding perform tls_last_error
  add_cert store cert n = do
    added ← library (LibraryCall.store_add_cert store cert)
    next ← if eqb_ℤ added (pos 1) then pure (loaded (n + 1)) else (do
      err ← library LibraryCall.err_peek_last_error
      if numbers.is_duplicate err
          then library LibraryCall.err_clear_error >> pure (loaded n)
          else (do e ← tls_last_error; pure (failed e)))
    library (LibraryCall.x509_free cert)
    pure next

  -- The loop, with `n` certificates added
  unfoldable pub load_certs : ℕ → ℤ → ℤ → ℕ → Action World (Option Loaded)
  load_certs zero bio store n w = (none, w)
  load_certs (suc fuel) bio store n w =
      let (cert, w₁) = library (LibraryCall.pem_read_bio_x509_aux bio) w in
      let (ended, w₂) = end_of_text n w₁ in
      let (next, w₃) = add_cert store cert n w₁ in
      let more = λ (m : ℕ). load_certs fuel bio store m w₃ in
      if is_null cert then (some ended, w₂) else go_on next w₃ more

  -- The store is set for the context, or freed.
  unfoldable pub install : ℤ → ℤ → Loaded → Action World (Result None)
  unfolding perform
  install ctx store (failed e) = library (LibraryCall.store_free store) >> pure (from_error e)
  install ctx store (loaded n) =
      if n == 0
      then library (LibraryCall.store_free store) >> pure (from_errc Errc.invalid_argument)
      else library (LibraryCall.ctx_set_cert_store ctx store) >> pure (ok tt)

  -- What follows the loop, if it ended, and the end of the stream
  unfoldable pub finish : ℤ → ℤ → ℤ → Option Loaded → Action World (Option (Result None))
  unfolding perform install
  finish ctx bio store none = pure none
  finish ctx bio store (some l) = do
    res ← install ctx store l
    library (LibraryCall.bio_free bio)
    pure (some res)

  -- `set_root_certs` from the new store on
  unfoldable pub fill_store : ℕ → ℤ → ℤ → ℤ → Action World (Option (Result None))
  unfolding perform
  fill_store fuel ctx bio store w =
      let w₁ = (library LibraryCall.err_clear_error w).1 in
      let (ended, w₂) = load_certs fuel bio store 0 w₁ in finish ctx bio store ended w₂

  -- `set_root_certs`
  unfoldable pub set_root_certs : ℕ → ℤ → List ℕ → Action World (Option (Result None))
  unfolding perform tls_last_error
  set_root_certs fuel ctx cert_data = do
    bio ← library (LibraryCall.bio_new_mem_buf cert_data)
    if is_null bio then (do e ← tls_last_error; pure (some (from_error e))) else do
      store ← library LibraryCall.store_new
      if is_null store
          then (do
            e ← tls_last_error
            library (LibraryCall.bio_free bio)
            pure (some (from_error e)))
          else fill_store fuel ctx bio store
