-- ===== src/Tls/Builder.antt =====
-- `class tls_context_builder` of include/sockpp/tls/context.h: a context and the code of the first
-- setting that failed.
pub mod FirstError
use sockpp.Prelude.{ℤ, ℕ, List, [], ◌∷◌, Bool, true, false, if◌then◌else◌}
use sockpp.Error.{ErrorCode, is_set, no_error}
use sockpp.Result.{Result, None, ok, is_error}
use sockpp.System.{Os, World, Action, pure, ◌>>=◌, ◌>>◌}
use sockpp.Tls.Context.{
  Role, make, set_default_trust_locations, set_trust_file, set_trust_path, set_verify,
  set_auto_retry, set_cert_file, set_key_file,
}

pub record Builder : Type 0 where
  pub ctx : ℤ
  pub ec : ErrorCode
  pub world : World

-- `if (!ec_) { if (auto res = f(ctx_); !res) ec_ = res.error(); }`
abbrev pub unless_failed : (ℤ → Action World (Result None)) → Action Builder None
unless_failed f b =
    if is_set b.ec
    then (tt, b)
    else let (res, w) = f b.ctx b.world in
      (tt, record b { ec = if is_error res then res.err else b.ec; world = w })

-- A setting that cannot fail
abbrev pub always_ok : ⦃os : Os⦄ → (ℤ → Action World None) → ℤ → Action World (Result None)
always_ok f ctx = do f ctx; pure (ok tt)

module _ ⦃os : Os⦄ where
  -- `tls_context_builder(role)`
  unfoldable pub new_builder : Role → World → Builder
  unfolding make
  new_builder role w = let (c, w') = make role w in record { ctx = c; ec = no_error; world = w' }

  unfoldable pub default_trust_locations : Action Builder None
  unfolding set_default_trust_locations
  default_trust_locations = unless_failed set_default_trust_locations

  unfoldable pub trust_file : List ℕ → Action Builder None
  unfolding set_trust_file
  trust_file ca_file = unless_failed (λ ctx. set_trust_file ctx ca_file)

  unfoldable pub trust_path : List ℕ → Action Builder None
  unfolding set_trust_path
  trust_path ca_path = unless_failed (λ ctx. set_trust_path ctx ca_path)

  -- `verify(mode)`, and `verify_none` and `verify_peer`
  unfoldable pub verify : Bool → Action Builder None
  unfolding set_verify
  verify peer = unless_failed (always_ok (λ ctx. set_verify ctx peer))

  unfoldable pub verify_none : Action Builder None
  unfolding verify
  verify_none = verify false

  unfoldable pub verify_peer : Action Builder None
  unfolding verify
  verify_peer = verify true

  unfoldable pub auto_retry : Bool → Action Builder None
  unfolding set_auto_retry
  auto_retry on = unless_failed (always_ok (λ ctx. set_auto_retry ctx on))

  unfoldable pub cert_file : List ℕ → Action Builder None
  unfolding set_cert_file
  cert_file file = unless_failed (λ ctx. set_cert_file ctx file)

  unfoldable pub key_file : List ℕ → Action Builder None
  unfolding set_key_file
  key_file file = unless_failed (λ ctx. set_key_file ctx file)

-- `operator=(tls_context_builder&&)`, on the `ctx_` and the code of both objects: the contexts are
-- exchanged, and each keeps its code; `same` says that they are one object.
unfoldable pub move_assign :
    Bool → ℤ × ErrorCode → ℤ × ErrorCode → (ℤ × ErrorCode) × (ℤ × ErrorCode)
move_assign same (ctx, ec) (rhs_ctx, rhs_ec) =
    if same then ((ctx, ec), (rhs_ctx, rhs_ec)) else ((rhs_ctx, ec), (ctx, rhs_ec))
