-- ===== src/Tls/Context/Identity.antt =====
-- `tls_context::set_identity`. The loop over the intermediate certificates takes fuel, and `none` means
-- that it ran out. What the destructors of the smart pointers free stands where they run.
pub mod Freed
use sockpp.Prelude.{ℤ, pos, ℕ, zero, suc, List, not, eqb_ℤ, if◌then◌else◌, Option, none, some}
use sockpp.Error.{ErrorCode}
use sockpp.Result.{Result, None, from_error, unit_default}
use sockpp.Library.{LibraryCall, ErrorNumbers}
use sockpp.System.{Os, World, Call, Action, perform, pure, ◌>>=◌, ◌>>◌}
use sockpp.Tls.{library, tls_last_error, checked, is_null}

-- How the loop ended: with a `return` of an error, or at the end of the text
pub data Chain : Type 0 where
  stopped : ErrorCode → Chain
  complete : Chain

module _ ⦃os : Os⦄ where
  -- `return tls_last_error();`
  unfoldable pub fail_last : Action World (Result None)
  unfolding perform tls_last_error
  fail_last = do e ← tls_last_error; pure (from_error e)

  -- `return tls_last_error();`, out of the loop
  unfoldable pub stop_last : Action World Chain
  unfolding perform tls_last_error
  stop_last = do e ← tls_last_error; pure (stopped e)

  -- The key is given to the context and freed at the end.
  unfoldable pub use_key : ℤ → ℤ → Action World (Result None)
  unfolding fail_last checked
  use_key ctx key = do
    used ← library (LibraryCall.ctx_use_private_key ctx key)
    res ←
        if not (eqb_ℤ used (pos 1))
        then fail_last
        else checked (LibraryCall.ctx_check_private_key ctx)
    library (LibraryCall.key_free key)
    pure res

  -- The private key, from the text on
  unfoldable pub set_key : ℤ → List ℕ → Action World (Result None)
  unfolding fail_last use_key
  set_key ctx key_pem = do
    key_bio ← library (LibraryCall.bio_new_mem_buf key_pem)
    if is_null key_bio then fail_last else do
      key ← library (LibraryCall.pem_read_bio_private_key key_bio)
      res ← if is_null key then fail_last else use_key ctx key
      library (LibraryCall.bio_free key_bio)
      pure res

module _ ⦃os : Os⦄ ⦃numbers : ErrorNumbers⦄ where
  -- After a read that gave no certificate: the end of the text, or an error
  unfoldable pub end_of_chain : Action World Chain
  unfolding perform stop_last
  end_of_chain = do
    err ← library LibraryCall.err_peek_last_error
    if numbers.is_no_start_line err
        then library LibraryCall.err_clear_error >> pure complete
        else stop_last

  -- The loop
  unfoldable pub load_chain : ℕ → ℤ → ℤ → Action World (Option Chain)
  unfolding perform
  load_chain zero ctx bio w = (none, w)
  load_chain (suc fuel) ctx bio w =
      let (ca, w₁) = library (LibraryCall.pem_read_bio_x509 bio) w in
      let (last, w₂) = end_of_chain w₁ in
      let (added, w₃) = library (LibraryCall.ctx_add_extra_chain_cert ctx ca) w₁ in
      let (failed, w₄) = stop_last w₃ in
      let w₅ = (library (LibraryCall.x509_free ca) w₄).1 in
      let more = load_chain fuel ctx bio w₃ in
      if is_null ca
      then (some last, w₂)
      else if not (eqb_ℤ added (pos 1))
      then (some failed, w₅)
      else more

  -- What follows the loop, and the ends of the leaf and of the stream
  unfoldable pub end_identity :
      ℤ → ℤ → ℤ → List ℕ → Option Chain → Action World (Option (Result None))
  unfolding perform set_key
  end_identity ctx cert_bio leaf key_pem none = pure none
  end_identity ctx cert_bio leaf key_pem (some (stopped e)) = do
    library (LibraryCall.x509_free leaf)
    library (LibraryCall.bio_free cert_bio)
    pure (some (from_error e))
  end_identity ctx cert_bio leaf key_pem (some complete) = do
    res ← set_key ctx key_pem
    library (LibraryCall.x509_free leaf)
    library (LibraryCall.bio_free cert_bio)
    pure (some res)

  -- `set_identity` once the leaf is in use
  unfoldable pub load_identity : ℕ → ℤ → ℤ → ℤ → List ℕ → Action World (Option (Result None))
  unfolding perform
  load_identity fuel ctx cert_bio leaf key_pem w =
      let w₁ = (library (LibraryCall.ctx_clear_extra_chain_certs ctx) w).1 in
      let w₂ = (library LibraryCall.err_clear_error w₁).1 in
      let (ended, w₃) = load_chain fuel ctx cert_bio w₂ in
      end_identity ctx cert_bio leaf key_pem ended w₃

  -- `set_identity`
  unfoldable pub set_identity : ℕ → ℤ → List ℕ → List ℕ → Action World (Option (Result None))
  unfolding fail_last
  set_identity fuel ctx cert_pem key_pem = do
    cert_bio ← library (LibraryCall.bio_new_mem_buf cert_pem)
    if is_null cert_bio then (do res ← fail_last; pure (some res)) else do
      leaf ← library (LibraryCall.pem_read_bio_x509_aux cert_bio)
      if is_null leaf
          then (do res ← fail_last; library (LibraryCall.bio_free cert_bio); pure (some res))
          else do
            used ← library (LibraryCall.ctx_use_certificate ctx leaf)
            if not (eqb_ℤ used (pos 1))
                then (do
                  res ← fail_last
                  library (LibraryCall.x509_free leaf)
                  library (LibraryCall.bio_free cert_bio)
                  pure (some res))
                else load_identity fuel ctx cert_bio leaf key_pem
