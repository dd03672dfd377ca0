-- ===== src/Tls/Context.antt =====
-- `class tls_context`: src/tls/openssl_context.cpp and include/sockpp/tls/openssl_context.h. A context
-- is known by its `ctx_`. The functions that read PEM texts and wrap sockets are in the children.
pub mod Roots
pub mod Identity
pub mod Wrap
use Prim.Native.Nat.{bit_or}
use sockpp.Prelude.{
  ℤ, pos, ℕ, List, [], Bool, true, false, ◌&&◌, not, if◌then◌else◌, Option, none, some,
}
use sockpp.Result.{Result, None, unit_default}
use sockpp.Library.{LibraryCall}
use sockpp.System.{Os, World, Call, Action, perform, pure, ◌>>=◌, ◌>>◌}
use sockpp.Tls.{library, checked, is_null}

-- `role_t`
pub data Role : Type 0 where
  default client server both : Role

-- The constants of the library
abbrev pub ssl_mode_auto_retry : ℕ
ssl_mode_auto_retry = 4

abbrev pub ssl_verify_none : ℕ
ssl_verify_none = 0

abbrev pub ssl_verify_peer : ℕ
ssl_verify_peer = 1

abbrev pub ssl_verify_fail_if_no_peer_cert : ℕ
ssl_verify_fail_if_no_peer_cert = 2

-- Which of `TLS_client_method`, `TLS_server_method` and `TLS_method` the role takes, by number
abbrev pub method_of : Role → ℕ
method_of Role.default = 0
method_of Role.client = 0
method_of Role.server = 1
method_of Role.both = 2

-- `role_ == role_t::SERVER || role_ == role_t::BOTH`
abbrev pub serves : Role → Bool
serves Role.server = true
serves Role.both = true
serves r = false

-- `set_verify(verify_t)`, with `true` for `PEER`
abbrev pub verify_mode : Bool → ℕ
verify_mode true = ssl_verify_peer
verify_mode false = ssl_verify_none

-- The mode that `require_peer_cert` sets
abbrev pub peer_mode : Role → Bool → ℕ
peer_mode role require =
    if require
    then (if serves role
        then bit_or ssl_verify_peer ssl_verify_fail_if_no_peer_cert
        else ssl_verify_peer)
    else ssl_verify_none

module _ ⦃os : Os⦄ where
  -- `tls_context(role_t)`: `ctx_`
  unfoldable pub make : Role → Action World ℤ
  unfolding perform
  make role = do
    ctx ← library (LibraryCall.ctx_new (method_of role))
    library (LibraryCall.ctx_set_mode ctx ssl_mode_auto_retry)
    pure ctx

  -- `~tls_context`
  unfoldable pub destroy : ℤ → Action World None
  unfolding perform
  destroy ctx = if is_null ctx then pure tt else library (LibraryCall.ctx_free ctx) >> pure tt

  -- `set_default_trust_locations`
  unfoldable pub set_default_trust_locations : ℤ → Action World (Result None)
  unfolding checked
  set_default_trust_locations ctx = checked (LibraryCall.ctx_set_default_verify_paths ctx)

  -- `set_trust_locations`
  unfoldable pub set_trust_locations :
      ℤ → Option (List ℕ) → Option (List ℕ) → Action World (Result None)
  unfolding checked
  set_trust_locations ctx ca_file ca_path =
      checked (LibraryCall.ctx_load_verify_locations ctx ca_file ca_path)

  -- `set_trust_file` and `set_trust_path`
  unfoldable pub set_trust_file : ℤ → List ℕ → Action World (Result None)
  unfolding checked
  set_trust_file ctx ca_file =
      checked (LibraryCall.ctx_load_verify_locations ctx (some ca_file) none)

  unfoldable pub set_trust_path : ℤ → List ℕ → Action World (Result None)
  unfolding checked
  set_trust_path ctx ca_path =
      checked (LibraryCall.ctx_load_verify_locations ctx none (some ca_path))

  -- `set_verify`
  unfoldable pub set_verify : ℤ → Bool → Action World None
  unfolding perform
  set_verify ctx peer = library (LibraryCall.ctx_set_verify ctx (verify_mode peer)) >> pure tt

  -- `set_auto_retry`
  unfoldable pub set_auto_retry : ℤ → Bool → Action World None
  unfolding perform
  set_auto_retry ctx on =
      (if on
        then library (LibraryCall.ctx_set_mode ctx ssl_mode_auto_retry)
        else library (LibraryCall.ctx_clear_mode ctx ssl_mode_auto_retry))
      >> pure tt

  -- `set_cert_file` and `set_key_file`
  unfoldable pub set_cert_file : ℤ → List ℕ → Action World (Result None)
  unfolding checked
  set_cert_file ctx cert_file = checked (LibraryCall.ctx_use_certificate_chain_file ctx cert_file)

  unfoldable pub set_key_file : ℤ → List ℕ → Action World (Result None)
  unfolding checked
  set_key_file ctx key_file = checked (LibraryCall.ctx_use_private_key_file ctx key_file)

-- A context as an object, for what reads its role or changes it
pub record ContextObject : Type 0 where
  pub ctx : ℤ
  pub role : Role

-- `tls_context(tls_context&&)`: the new object, and the one moved from
unfoldable pub move_from : ContextObject → ContextObject × ContextObject
move_from c = (c, record c { ctx = pos 0 })

-- `operator=(tls_context&&)`: the two objects after it; `same` says that they are one
unfoldable pub move_assign : Bool → ContextObject → ContextObject → ContextObject × ContextObject
move_assign same this rhs =
    if same
    then (this, rhs)
    else (record { ctx = rhs.ctx; role = rhs.role }, record rhs { ctx = this.ctx })
