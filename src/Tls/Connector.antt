-- ===== src/Tls/Connector.antt =====
-- `class tls_connector`: src/tls/openssl_connector.cpp and include/sockpp/tls/openssl_connector.h.
pub mod Objects
pub mod Owner
use sockpp.Prelude.{ℤ, pos, ℕ, List, if◌then◌else◌, Option, none, some}
use sockpp.Error.{ErrorCode, is_set}
use sockpp.Result.{Result, Outcome, returns, throws, None, is_error, from_error, ok, unit_default}
use sockpp.Library.{LibraryCall}
use sockpp.System.{
  Os, World, Object, Call, Action, perform, pure, ◌>>=◌, ◌>>◌, static, invalid_socket,
}
use sockpp.Socket.{close}
use sockpp.Socket.Build.{new_object}
use sockpp.Connector.{connect, connect_timed, make_connector}
use sockpp.Tls.{library, tls_check_res_none, checked}
use sockpp.Tls.Socket.{
  TlsObject, on_base, on_world, on_ssl, over, wrap, wrap_ec, destroy, attach, set_host_name,
}

module _ ⦃os : Os⦄ where
  -- `tls_connect()`
  unfoldable pub tls_connect : ℤ → Action World (Result None)
  unfolding checked
  tls_connect ssl = checked (LibraryCall.ssl_connect ssl)

  -- `tls_connect(sock)`, for a socket with this handle: the result, and the handle that `sock` has
  -- afterwards
  unfoldable pub tls_connect_on : ℤ → Action TlsObject (Result None × ℤ)
  unfolding attach tls_connect
  tls_connect_on handle = do
    (res, old) ← attach handle
    if is_error res then pure (res, old) else (do res ← on_ssl tls_connect; pure (res, old))

  -- The destructor of a local socket with this handle
  abbrev pub leave : ℤ → Action World None
  leave handle w = (tt, (close (record { handle = handle; world = w })).1.world)

  -- The body of both `connect`s: the local connector, which `opening` connects, is moved into
  -- `tls_connect` if that succeeds, and its destructor runs at the end.
  abbrev pub connect_with : Action Object (Result None) → Action TlsObject (Result None)
  connect_with opening o =
      let (res, conn) = opening (new_object o.base.world) in
      let o₁ = record o { base = record { handle = o.base.handle; world = conn.world } } in
      if is_error res
      then (do on_world (leave conn.handle); pure res) o₁
      else (do (res, old) ← tls_connect_on conn.handle; on_world (leave old); pure res) o₁

  -- `connect(addr)`
  unfoldable pub connect_tls : List ℕ → Action TlsObject (Result None)
  unfolding tls_connect_on close
  connect_tls addr = connect_with (connect addr (pos 0))

  -- `connect(addr, timeout)`; `self` is the address of the local connector
  unfoldable pub connect_tls_timed : ℕ → List ℕ → ℤ → Action TlsObject (Result None)
  unfolding tls_connect_on close
  connect_tls_timed self addr timeout = connect_with (connect_timed self addr timeout (pos 0))

  -- `if (auto res = m; !res) throw tls_error{res.error()};` in a constructor: the base is destroyed.
  abbrev pub or_throw :
      Action TlsObject (Result None)
      → Action TlsObject (Outcome None)
      → Action TlsObject (Outcome None)
  or_throw m k o =
      let (res, o₁) = m o in if is_error res then (do destroy; pure (throws res.err)) o₁ else k o₁

  -- What follows a part of a constructor that may throw
  abbrev pub unless_thrown {ℓ} :
      {A : Type ℓ}
      → Outcome None × A
      → (A → TlsObject)
      → Action TlsObject (Outcome None)
      → Outcome None × TlsObject
  unless_thrown (throws e, a) f k = (throws e, f a)
  unless_thrown (returns u, a) f k = k (f a)

  -- The initialiser `base{ctx, connector{addr}}`, and then the body
  abbrev pub build : ℤ → List ℕ → Action TlsObject (Outcome None) → World → Outcome None × TlsObject
  build ctx addr body w =
      unless_thrown (make_connector addr (pos 0) (new_object w)) over
        λ o. unless_thrown (wrap ctx o) (λ o. o) body

  -- `tls_connector(ctx, addr)`
  unfoldable pub make : ℤ → List ℕ → World → Outcome None × TlsObject
  unfolding make_connector wrap tls_connect destroy
  make ctx addr = build ctx addr (or_throw (on_ssl tls_connect) (pure (returns tt)))

  -- `tls_connector(ctx, addr, hostname)`
  unfoldable pub make_named : ℤ → List ℕ → List ℕ → World → Outcome None × TlsObject
  unfolding make_connector wrap tls_connect destroy set_host_name
  make_named ctx addr hostname = build ctx addr (
      or_throw (on_ssl (set_host_name hostname))
        (or_throw (on_ssl tls_connect) (pure (returns tt))))

  -- `if (!ec) { if (auto res = m; !res) ec = res.error(); }`
  abbrev pub unless_set : ErrorCode → Action TlsObject (Result None) → Action TlsObject ErrorCode
  unless_set ec m o =
      if is_set ec then (ec, o) else (do res ← m; pure (if is_error res then res.err else ec)) o

  -- The constructor with an error code, which is `noexcept`: `none` is the end of the program that an
  -- exception of `connector{addr}` brings about.
  abbrev pub unless_terminated :
      Outcome None × Object → (Object → ErrorCode × TlsObject) → Option ErrorCode × TlsObject
  unless_terminated (throws e, conn) k = (none, over conn)
  unless_terminated (returns u, conn) k = let (ec, o) = k conn in (some ec, o)

  unfoldable pub make_ec : ℤ → List ℕ → List ℕ → ErrorCode → World → Option ErrorCode × TlsObject
  unfolding make_connector wrap_ec tls_connect set_host_name
  make_ec ctx addr hostname ec w =
      unless_terminated (make_connector addr (pos 0) (new_object w)) λ conn.
        (do
          ec ← wrap_ec ctx ec
          ec ← unless_set ec (on_ssl (set_host_name hostname))
          unless_set ec (on_ssl tls_connect))
          (over conn)
