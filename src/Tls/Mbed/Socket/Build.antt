-- ===== src/Tls/Mbed/Socket/Build.antt =====
-- The constructor of the Mbed TLS socket, its destructor, and what it reads and writes.
use Prim.Native.Nat.{bit_and}
use sockpp.Prelude.{
  ℤ, pos, pos_part, ℕ, zero, suc, ◌-◌, ◌^◌, ◌==◌, eqb_ℤ, List, [], ◌∷◌, Bool, true, false, not,
  ◌&&◌, ◌||◌, if◌then◌else◌, Option, none, some,
}
use sockpp.Result.{
  Result, Outcome, returns, throws, None, ok, is_ok, is_error, unit_default, int_default,
  size_default,
}
use sockpp.Library.{MbedCall}
use sockpp.System.{Os, Action, perform, pure, ◌>>=◌, ◌>>◌, invalid_socket}
use sockpp.Socket.{close, reset}
use sockpp.Socket.Options.{is_non_blocking}
use sockpp.Tls.Mbed.{neg, make_tls_error_code, check_mbed_io}
use sockpp.Tls.Mbed.Socket.{
  Mbed, MbedObject, cert_verify_failed, badcert_skip_verify, on_base, on_world, on_handle,
  set_opened, ◌>>=?◌, goes_on, returned, plain, drive, setup_bio, check_mbed_setup,
}

module _ ⦃os : Os⦄ ⦃m : Mbed⦄ where
  -- A call that may use the transport
  unfoldable pub interact : (ℤ → MbedCall) → Action MbedObject (ℤ × List ℕ)
  unfolding drive
  interact c o =
      (do
        result ← drive (m.program o.base.world.history (c o.ssl))
        on_world (returned (c o.ssl) result)
        pure result)
        o

  -- `do { status = mbedtls_ssl_handshake(&ssl_); } while (…);`
  unfoldable pub handshake_loop : ℕ → Action MbedObject (Option ℤ)
  unfolding interact
  handshake_loop zero o = (none, o)
  handshake_loop (suc fuel) o =
      let ((status, bytes), o') = interact MbedCall.ssl_handshake o in
      let again = handshake_loop fuel o' in if goes_on status then again else (some status, o')

  -- What a constructor that throws does to its base object
  unfoldable pub throw_tls : ℤ → Action MbedObject (Option (Outcome None))
  unfolding close
  throw_tls err = do on_base close; pure (some (throws (make_tls_error_code err)))

  -- The test of the verification's flags that ends the constructor
  unfoldable pub check_verified : Action MbedObject (Option (Outcome None))
  unfolding perform throw_tls
  check_verified = do
    ret ← plain MbedCall.ssl_get_verify_result
    let flags = pos_part ret
    if not (flags == 0) && (not (flags == 2 ^ 32 - 1) && (bit_and flags badcert_skip_verify == 0))
        then throw_tls (neg cert_verify_failed)
        else pure (some (returns tt))

  -- `if (check_mbed_setup(status) != 0) return;`, and then the verification
  unfoldable pub check_result : Result ℤ → Action MbedObject (Option (Outcome None))
  unfolding check_verified
  check_result res =
      if is_error res || not (eqb_ℤ res.val (pos 0))
      then pure (some (returns tt))
      else check_verified

  -- The constructor from the status of the handshake on
  unfoldable pub after_handshake : ℕ → ℤ → Action MbedObject (Option (Outcome None))
  unfolding check_mbed_setup check_result
  after_handshake fuel status = check_mbed_setup fuel status >>=? check_result

  -- The constructor from the transport on
  unfoldable pub shake_hands : ℕ → Action MbedObject (Option (Outcome None))
  unfolding is_non_blocking setup_bio handshake_loop after_handshake
  shake_hands fuel = do
    nonblocking ← on_handle is_non_blocking
    setup_bio nonblocking
    set_opened true
    handshake_loop fuel >>=? after_handshake fuel

  -- `!hostname.empty() && check_mbed_setup(mbedtls_ssl_set_hostname(…))`
  unfoldable pub host_name_set : ℕ → List ℕ → Action MbedObject (Option Bool)
  unfolding perform check_mbed_setup
  host_name_set fuel [] = pure (some false)
  host_name_set fuel (c ∷ hostname) = do
    ret ← plain (λ s. MbedCall.ssl_set_hostname s (c ∷ hostname))
    check_mbed_setup fuel ret >>=? λ res. pure (some (is_ok res))

  -- The constructor after the two tests of `check_mbed_setup` on its way to the transport
  unfoldable pub unless_named : ℕ → Bool → Action MbedObject (Option (Outcome None))
  unfolding shake_hands
  unless_named fuel named = if named then pure (some (returns tt)) else shake_hands fuel

  unfoldable pub unless_set : ℕ → List ℕ → Result ℤ → Action MbedObject (Option (Outcome None))
  unfolding host_name_set unless_named
  unless_set fuel hostname set =
      if is_ok set
      then pure (some (returns tt))
      else host_name_set fuel hostname >>=? unless_named fuel

  -- The constructor after the test of the context
  unfoldable pub set_up : ℕ → ℤ → List ℕ → Action MbedObject (Option (Outcome None))
  unfolding perform check_mbed_setup unless_set
  set_up fuel config hostname = do
    ret ← plain (λ s. MbedCall.ssl_setup s config)
    check_mbed_setup fuel ret >>=? unless_set fuel hostname

  -- `mbedtls_socket(sock, ctx, hostname)`, on the object over `sock`'s handle, for a context of this
  -- status and configuration
  unfoldable pub construct : ℕ → ℤ → ℤ → List ℕ → Action MbedObject (Option (Outcome None))
  unfolding perform set_up throw_tls
  construct fuel status config hostname = do
    plain MbedCall.ssl_init
    if not (eqb_ℤ status (pos 0)) then throw_tls status else set_up fuel config hostname

  -- `close`
  unfoldable pub close_socket : Action MbedObject (Result None)
  unfolding interact close
  close_socket o =
      (if o.opened
          then (do interact MbedCall.ssl_close_notify; set_opened false; on_base close)
          else on_base close)
        o

  -- `~mbedtls_socket`, and then that of the base
  unfoldable pub destroy : Action MbedObject None
  unfolding close_socket perform reset close
  destroy = do
    close_socket
    plain MbedCall.ssl_free
    on_base (reset invalid_socket)
    on_base close
    pure tt

  -- `read(buf, n)`: the result, and the bytes that were written to the buffer
  unfoldable pub read : ℕ → Action MbedObject (Result ℕ × List ℕ)
  unfolding interact check_mbed_io
  read n = do (ret, bytes) ← interact (λ s. MbedCall.ssl_read s n); pure (check_mbed_io ret, bytes)

  -- `write(buf, n)`
  unfoldable pub write : List ℕ → Action MbedObject (Result ℕ)
  unfolding interact check_mbed_io
  write [] = pure (ok 0)
  write (c ∷ buf) = do
    (ret, bytes) ← interact (λ s. MbedCall.ssl_write s (c ∷ buf))
    pure (check_mbed_io ret)
