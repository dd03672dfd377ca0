-- ===== src/Tls/Mbed/Context/Identity.antt =====
-- The certificate and the key of the Mbed TLS context.
use sockpp.Prelude.{ℤ, pos, ℕ, List, Bool, true, false, eqb_ℤ, some}
use sockpp.Result.{Outcome, returns, None}
use sockpp.Library.{MbedCall}
use sockpp.System.{Os, World, Action, perform, pure, ◌>>=◌, ◌>>◌}
use sockpp.Tls.Mbed.Context.{
  Cert, Context, in_world, ◌>>=!◌, mbed, conf, throw_errno, free_cert, free_cert?, free_key?,
  parse_cert,
}

module _ ⦃os : Os⦄ where
  -- `set_identity(certificate, private_key)`
  unfoldable pub set_identity_parsed : ℤ → ℤ → Action Context None
  unfolding perform
  set_identity_parsed certificate private_key =
      conf (λ config. MbedCall.conf_own_cert config certificate private_key) >> pure tt

  -- `set_identity(certificate_data, private_key_data)` after the certificate was read: the key, by
  -- whether it could be read, and the assignments to the members
  unfoldable pub end_key : Cert → ℤ → Bool → Action World (Outcome ℤ)
  unfolding perform
  end_key cert k true = pure (returns k)
  end_key cert k false = do res ← throw_errno; mbed (MbedCall.pk_free k); free_cert cert; pure res

  unfoldable pub read_key : Cert → List ℕ → Action World (Outcome ℤ)
  unfolding perform end_key
  read_key cert private_key_data = do
    k ← mbed MbedCall.new_key
    mbed (MbedCall.pk_init k)
    err ← mbed (MbedCall.pk_parse_key k private_key_data)
    end_key cert k (eqb_ℤ err (pos 0))

  unfoldable pub take_identity : Cert → ℤ → Action Context (Outcome None)
  unfolding set_identity_parsed perform
  take_identity cert key = do
    set_identity_parsed (cert.at) key
    λ s. in_world (free_cert? s.identity_cert) (record s { identity_cert = some cert })
    λ s. in_world (free_key? s.identity_key) (record s { identity_key = some key })
    pure (returns tt)

  unfoldable pub key_for : List ℕ → Cert → Action Context (Outcome None)
  unfolding read_key take_identity
  key_for private_key_data cert = in_world (read_key cert private_key_data) >>=! take_identity cert

  unfoldable pub set_identity : List ℕ → List ℕ → Action Context (Outcome None)
  unfolding parse_cert key_for
  set_identity certificate_data private_key_data =
      in_world (parse_cert certificate_data false) >>=! key_for private_key_data
