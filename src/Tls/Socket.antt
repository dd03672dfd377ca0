-- ===== src/Tls/Socket.antt =====
-- `class tls_socket`: src/tls/openssl_socket.cpp and include/sockpp/tls/openssl_socket.h. An object is
-- its `ssl_` and the object of its base class `stream_socket`.
pub mod Io
pub mod Moved
pub mod Unreported
use Prim.Native.Nat.{bit_and}
use sockpp.Prelude.{
  ℤ, pos, pos_part, ℕ, List, [], ◌∷◌, ◌==◌, Bool, not, if◌then◌else◌, Option, none, some,
}
use sockpp.Error.{ErrorCode}
use sockpp.Result.{Result, Outcome, returns, throws, None, ok, from_error, unit_default, is_error}
use sockpp.Library.{LibraryCall}
use sockpp.System.{
  Os, World, Object, Call, Action, perform, pure, ◌>>=◌, ◌>>◌, static, invalid_socket,
}
use sockpp.Socket.{close}
use sockpp.Tls.{library, tls_last_error, tls_check_res_none, checked, is_null, is_failure}
use sockpp.Tls.Certificate.{null}
use sockpp.Tls.Context.{ssl_mode_auto_retry}

pub record TlsObject : Type 0 where
  pub ssl : ℤ
  pub base : Object

-- A method of the base class, and what only acts on the world
abbrev pub on_base {ℓ} : {A : Type ℓ} → Action Object A → Action TlsObject A
on_base m o = let (a, b) = m o.base in (a, record o { base = b })

abbrev pub on_world {ℓ} : {A : Type ℓ} → Action World A → Action TlsObject A
on_world m = on_base (static m)

-- A call that takes the object's `ssl_`
abbrev pub on_ssl {ℓ} : {A : Type ℓ} → (ℤ → Action World A) → Action TlsObject A
on_ssl f o = on_world (f o.ssl) o

abbrev pub set_ssl : ℤ → Action TlsObject None
set_ssl s o = (tt, record o { ssl = s })

-- A new object over a base object, before `ssl_` is initialised
abbrev pub over : Object → TlsObject
over o = record { ssl = null; base = o }

module _ ⦃os : Os⦄ where
  -- The initialiser `ssl_{::SSL_new(ctx.ctx_)}`
  unfoldable pub new_ssl : ℤ → Action TlsObject None
  unfolding perform
  new_ssl ctx = on_world (library (LibraryCall.ssl_new ctx)) >>= set_ssl

  -- `throw tls_error::from_last_error()` in a constructor: the base object is destroyed.
  unfoldable pub throw_last : Action TlsObject (Outcome None)
  unfolding tls_last_error close
  throw_last = do e ← on_world tls_last_error; on_base close; pure (throws e)

  -- `tls_socket(ctx)`
  unfoldable pub make : ℤ → Action TlsObject (Outcome None)
  unfolding new_ssl throw_last
  make ctx = do new_ssl ctx; λ o. if is_null o.ssl then throw_last o else (returns tt, o)

  -- `tls_socket(ctx, ec)`: the code after it
  unfoldable pub make_ec : ℤ → ErrorCode → Action TlsObject ErrorCode
  unfolding new_ssl tls_last_error
  make_ec ctx ec = do new_ssl ctx; λ o. if is_null o.ssl then on_world tls_last_error o else (ec, o)

  -- `::SSL_free(ssl_); ssl_ = nullptr;`
  unfoldable pub free_ssl : Action TlsObject None
  unfolding perform
  free_ssl = on_ssl (λ s. library (LibraryCall.ssl_free s)) >> set_ssl null

  -- `::SSL_set_fd(ssl_, handle())`
  abbrev pub set_fd : Action TlsObject ℤ
  set_fd o = on_world (library (LibraryCall.ssl_set_fd o.ssl o.base.handle)) o

  -- `tls_socket(ctx, sock)`, on the object that took the handle of `sock` over
  unfoldable pub wrap : ℤ → Action TlsObject (Outcome None)
  unfolding new_ssl throw_last free_ssl perform
  wrap ctx = do
    new_ssl ctx
    λ o.
        if is_null o.ssl
        then throw_last o
        else (do
          set ← set_fd
          if is_failure set
              then (do e ← on_world tls_last_error; free_ssl; on_base close; pure (throws e))
              else pure (returns tt))
            o

  -- `tls_socket(ctx, sock, ec)`: the code after it
  unfoldable pub wrap_ec : ℤ → ErrorCode → Action TlsObject ErrorCode
  unfolding new_ssl free_ssl tls_last_error perform
  wrap_ec ctx ec = do
    new_ssl ctx
    λ o.
        if is_null o.ssl
        then on_world tls_last_error o
        else (do
          set ← set_fd
          if is_failure set then (do e ← on_world tls_last_error; free_ssl; pure e) else pure ec)
            o

  -- `if (ssl_) ::SSL_free(ssl_);`
  abbrev pub free_live : ℤ → Action World None
  free_live s = if is_null s then pure tt else library (LibraryCall.ssl_free s) >> pure tt

  -- `~tls_socket`, and then that of the base
  unfoldable pub destroy : Action TlsObject None
  unfolding perform close
  destroy = do on_ssl free_live; on_base close; pure tt

  -- `attach`, for a socket with this handle: the result, and the handle that `sock` has afterwards
  unfoldable pub attach : ℤ → Action TlsObject (Result None × ℤ)
  unfolding tls_check_res_none perform
  attach handle o =
      let o₁ = record o { base = record { handle = handle; world = o.base.world } } in
      (do set ← set_fd; res ← on_world (tls_check_res_none set); pure (res, o.base.handle)) o₁

  -- `peer_certificate`: the `cert_` of the result
  unfoldable pub peer_certificate : ℤ → Action World (Option ℤ)
  unfolding perform
  peer_certificate ssl = do
    cert ← library (LibraryCall.ssl_get1_peer_certificate ssl)
    pure (if is_null cert then none else some cert)

  -- `set_host_name`
  unfoldable pub set_host_name : List ℕ → ℤ → Action World (Result None)
  unfolding checked
  set_host_name hostname ssl = checked (LibraryCall.ssl_set_tlsext_host_name ssl hostname)

  -- `auto_retry`
  unfoldable pub auto_retry : Bool → ℤ → Action World (Result None)
  unfolding perform tls_check_res_none
  auto_retry on ssl = do
    ret ←
        if on
        then library (LibraryCall.ssl_set_mode ssl ssl_mode_auto_retry)
        else library (LibraryCall.ssl_clear_mode ssl ssl_mode_auto_retry)
    tls_check_res_none ret

  -- `received_shutdown`; `SSL_RECEIVED_SHUTDOWN` is 2.
  unfoldable pub received_shutdown : ℤ → Action World Bool
  unfolding perform
  received_shutdown ssl = do
    flags ← library (LibraryCall.ssl_get_shutdown ssl)
    pure (bit_and (pos_part flags) 2 == 2)

-- `set_non_blocking`, which makes no call
abbrev pub set_non_blocking : Bool → Action TlsObject (Result None)
set_non_blocking on = pure (ok tt)

-- `tls_socket(tls_socket&&)`: `handle_` and `ssl_` of the new object, and of the one moved from
unfoldable pub move_from : ℤ × ℤ → (ℤ × ℤ) × (ℤ × ℤ)
move_from (handle, ssl) = ((handle, ssl), (invalid_socket, null))

-- `operator=(tls_socket&&)`, on `handle_` and `ssl_` of both objects: the base classes exchange
-- their handles; `same` says that they are one object.
unfoldable pub move_assign : Bool → ℤ × ℤ → ℤ × ℤ → (ℤ × ℤ) × (ℤ × ℤ)
move_assign same (handle, ssl) (rhs_handle, rhs_ssl) =
    if same then ((handle, ssl), (rhs_handle, rhs_ssl)) else ((rhs_handle, rhs_ssl), (handle, null))
