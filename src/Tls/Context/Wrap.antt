-- ===== src/Tls/Context/Wrap.antt =====
-- `tls_context::wrap_socket`. The result is the `handle_` and `ssl_` of the TLS socket; a result made
-- from an error has a default constructed one.
pub mod Owned
use sockpp.Prelude.{ℤ, pos, ℕ, List, [], ◌∷◌, not, eqb_ℤ, if◌then◌else◌}
use sockpp.Error.{ErrorCode, is_set, no_error}
use sockpp.Result.{Result, Default, None, ok, is_error, from_error, unit_default}
use sockpp.Library.{LibraryCall}
use sockpp.System.{
  Os, World, Object, Call, Action, perform, pure, ◌>>=◌, ◌>>◌, static, invalid_socket,
}
use sockpp.Tls.{library, tls_last_error}
use sockpp.Tls.Certificate.{null}
use sockpp.Tls.Context.{Role}
use sockpp.Tls.Socket.{TlsObject, on_base, on_world, on_ssl, over, wrap_ec, destroy, set_host_name}

abbrev pub tls_socket_default : Default (ℤ × ℤ)
tls_socket_default = record { default = (invalid_socket, null) }

-- `(role_ == role_t::SERVER) ? ::SSL_accept(ssl) : ::SSL_connect(ssl)`
abbrev pub handshake : Role → ℤ → LibraryCall
handshake Role.server ssl = LibraryCall.ssl_accept ssl
handshake r ssl = LibraryCall.ssl_connect ssl

module _ ⦃os : Os⦄ where
  -- `return e;`, where the local TLS socket is destroyed
  unfoldable pub fail_with : ErrorCode → Action TlsObject (Result (ℤ × ℤ))
  unfolding destroy
  fail_with e = do destroy; pure (from_error ⦃d = tls_socket_default⦄ e)

  -- `return tls_last_error();`
  unfoldable pub fail_last : Action TlsObject (Result (ℤ × ℤ))
  unfolding destroy tls_last_error
  fail_last = on_world tls_last_error >>= fail_with

  -- The handshake, and the end of the function
  unfoldable pub shake : Role → Action TlsObject (Result (ℤ × ℤ))
  unfolding fail_last perform
  shake role = do
    ret ← on_ssl (λ ssl. library (handshake role ssl))
    λ o. if not (eqb_ℤ ret (pos 1)) then fail_last o else (ok (o.base.handle, o.ssl), o)

  -- The name of the peer, and the handshake
  unfoldable pub name_peer : Role → List ℕ → Action TlsObject (Result (ℤ × ℤ))
  unfolding fail_with fail_last set_host_name shake perform
  name_peer role [] = shake role
  name_peer role (c ∷ cs) = do
    res ← on_ssl (set_host_name (c ∷ cs))
    if is_error res then fail_with res.err else do
      set ← on_ssl (λ ssl. library (LibraryCall.ssl_set1_host ssl (c ∷ cs)))
      if not (eqb_ℤ set (pos 1)) then fail_last else shake role

  -- `wrap_socket`, of a socket with this handle
  unfoldable pub wrap_socket : Role → ℤ → ℤ → List ℕ → Action World (Result (ℤ × ℤ))
  unfolding wrap_ec fail_with name_peer
  wrap_socket role ctx handle peer_name w =
      let (res, o) =
        (do ec ← wrap_ec ctx no_error; if is_set ec then fail_with ec else name_peer role peer_name)
          (over (record { handle = handle; world = w })) in
      (res, o.base.world)
