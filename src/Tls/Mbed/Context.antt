-- ===== src/Tls/Mbed/Context.antt =====
-- `class mbedtls_context`: src/tls/mbedtls_context.cpp and include/sockpp/tls/mbedtls_context.h. An
-- object is its members, with the static ones of the file; the verification callback is in Tls/Pin.
pub mod Build
pub mod Peer
pub mod Identity
pub mod Owner
pub mod Assigned
pub mod Lifetime
pub mod Dangling
use sockpp.Prelude.{
  ℤ, pos, negsuc, ℕ, List, [], ◌∷◌, ◌++◌, Bool, true, false, not, ◌&&◌, ◌||◌, eqb_ℤ, ltb_ℤ,
  if◌then◌else◌, Option, none, some, ◌==◌,
}
use sockpp.Error.{ErrorCode}
use sockpp.Result.{Outcome, returns, throws, None, last_error}
use sockpp.Library.{LibraryCall, MbedCall}
use sockpp.System.{Os, World, Object, Call, invalid_socket, Action, perform, pure, ◌>>=◌, ◌>>◌}
use sockpp.Tls.{library, is_null}
use sockpp.Tls.Mbed.Socket.{Mbed, MbedObject, over}
use sockpp.Tls.Mbed.Socket.Build.{construct}

-- A parsed certificate: its address, and its `raw` bytes
pub record Cert : Type 0 where
  pub at : ℤ
  pub raw : List ℕ

-- `root_cert_locator_cb`: whether it succeeded, and the root that it found
abbrev pub Locator : Type 0
Locator = List ℕ → Bool × List ℕ

-- The members, `ssl_config_` by its address; `client` is the end point that the configuration has. Then
-- the static variables: whether the random numbers and the system's roots are ready, and the roots.
pub record Context : Type 0 where
  pub config : ℤ
  pub client : Bool
  pub status : ℤ
  pub locator : Option Locator
  pub root_certs : Option Cert
  pub pinned : Option Cert
  pub identity_cert : Option Cert
  pub identity_key : Option ℤ
  pub rng_ready : Bool
  pub roots_ready : Bool
  pub system_roots : Option Cert
  pub world : World

abbrev pub in_world {ℓ} : {A : Type ℓ} → Action World A → Action Context A
in_world m s = let (a, w) = m s.world in (a, record s { world = w })

-- `MBEDTLS_SSL_VERIFY_REQUIRED` and `_OPTIONAL`
abbrev pub auth_mode : Bool → ℕ
auth_mode require = if require then 2 else 1

-- Goes on unless there was an exception
infixl 5 ◌>>=!◌
abbrev pub ◌>>=!◌ {ℓ κ μ} :
    {S : Type ℓ} {A : Type κ} {B : Type μ}
    → Action S (Outcome A)
    → (A → Action S (Outcome B))
    → Action S (Outcome B)
◌>>=!◌ m f s = let (r, s') = m s in elim r [ returns a ↦ f a s' | throws e ↦ (throws e, s') ]

module _ ⦃os : Os⦄ where
  abbrev pub mbed : MbedCall → Action World ℤ
  mbed c = library (LibraryCall.mbed c)

  -- A call that takes the object's configuration
  abbrev pub conf : (ℤ → MbedCall) → Action Context ℤ
  conf c s = in_world (mbed (c s.config)) s

  -- `throw std::system_error{result<>::last_error()}`
  abbrev pub throw_errno {ℓ} : {A : Type ℓ} → Action World (Outcome A)
  throw_errno w = (throws (last_error w.errno), w)

  -- `~cert`, `~key`, and of an object that may be there
  abbrev pub free_cert : Cert → Action World None
  free_cert c = mbed (MbedCall.x509_crt_free c.at) >> pure tt

  abbrev pub free_cert? : Option Cert → Action World None
  free_cert? none = pure tt
  free_cert? (some c) = free_cert c

  abbrev pub free_key? : Option ℤ → Action World None
  free_key? none = pure tt
  free_key? (some k) = mbed (MbedCall.pk_free k) >> pure tt

  -- `get_drbg_context`, which all contexts share: what `call_once` runs, by whether it has run, and its
  -- end, by whether the seed succeeded. An exception leaves the `once_flag` unset.
  unfoldable pub end_seed : Bool → Action Context (Outcome None)
  end_seed true s = (returns tt, record s { rng_ready = true })
  end_seed false s = in_world throw_errno s

  unfoldable pub drbg_once : Bool → Action Context (Outcome None)
  unfolding perform end_seed
  drbg_once true s = (returns tt, s)
  drbg_once false s =
      (do
        in_world (mbed MbedCall.entropy_init)
        in_world (mbed MbedCall.ctr_drbg_init)
        ret ← in_world (mbed MbedCall.ctr_drbg_seed)
        end_seed (eqb_ℤ ret (pos 0)))
        s

  unfoldable pub get_drbg_context : Action Context (Outcome None)
  unfolding drbg_once
  get_drbg_context s = drbg_once s.rng_ready s

  -- The end of `parse_cert`, by whether it failed
  unfoldable pub end_parse : Cert → Bool → Action World (Outcome Cert)
  unfolding perform
  end_parse c true = do res ← throw_errno; free_cert c; pure res
  end_parse c false = pure (returns c)

  -- `parse_cert(cert_data, partialOk)`; the text is given with the zero that ends it.
  unfoldable pub parse_cert : List ℕ → Bool → Action World (Outcome Cert)
  unfolding perform end_parse
  parse_cert cert_data partial_ok = do
    c ← mbed MbedCall.new_cert
    mbed (MbedCall.x509_crt_init c)
    mbed (MbedCall.x509_crt_init c)
    r ← perform (Call.library (LibraryCall.mbed (MbedCall.x509_crt_parse c (cert_data ++ 0 ∷ []))))
    end_parse (record { at = c; raw = r.bytes })
        (not (eqb_ℤ r.ret (pos 0)) && (ltb_ℤ r.ret (pos 0) || not partial_ok))

  -- `set_root_certs(cert_data)`, and what follows its parsing
  unfoldable pub place_root_certs : Cert → Action Context (Outcome None)
  unfolding perform
  place_root_certs c s =
      (do
        in_world (free_cert? s.root_certs)
        conf (λ config. MbedCall.conf_ca_chain config c.at)
        pure (returns tt))
        (record s { root_certs = some c })

  unfoldable pub set_root_certs : List ℕ → Action Context (Outcome None)
  unfolding parse_cert place_root_certs
  set_root_certs cert_data = in_world (parse_cert cert_data true) >>=! place_root_certs

  -- The initialisation in `get_system_root_certs()`, which does nothing for an empty text
  unfoldable pub place_system_roots : Cert → Action Context (Outcome (Option Cert))
  place_system_roots c s =
      (returns (some c), record s { system_roots = some c; roots_ready = true })

  unfoldable pub parse_roots : List ℕ → Action Context (Outcome (Option Cert))
  unfolding parse_cert place_system_roots
  parse_roots [] s = (returns s.system_roots, record s { roots_ready = true })
  parse_roots (x ∷ text) s = (in_world (parse_cert (x ∷ text) true) >>=! place_system_roots) s

  -- `get_system_root_certs()`, given the text that `read_system_root_certs` reads: what `call_once` runs,
  -- by whether it has run. An exception leaves the `once_flag` unset.
  unfoldable pub roots_once : Action World (List ℕ) → Bool → Action Context (Outcome (Option Cert))
  unfolding parse_roots
  roots_once read true s = (returns s.system_roots, s)
  roots_once read false s = (in_world read >>= parse_roots) s

  unfoldable pub get_system_root_certs :
      Action World (List ℕ) → Action Context (Outcome (Option Cert))
  unfolding roots_once
  get_system_root_certs read s = roots_once read s.roots_ready s

  -- `if (roots) mbedtls_ssl_conf_ca_chain(…)`
  unfoldable pub use_roots : Option Cert → Action Context None
  unfolding perform
  use_roots none = pure tt
  use_roots (some c) = conf (λ config. MbedCall.conf_ca_chain config c.at) >> pure tt
