-- ===== src/Tls/Mbed/Context/Build.antt =====
-- The constructor and the destructor of the Mbed TLS context, and the sockets that it wraps.
use sockpp.Prelude.{ℤ, pos, ℕ, List, Bool, true, false, eqb_ℤ, if◌then◌else◌, Option}
use sockpp.Result.{Outcome, returns, None}
use sockpp.Library.{MbedCall}
use sockpp.System.{Os, World, Object, invalid_socket, Action, perform, pure, ◌>>◌}
use sockpp.Tls.Mbed.Socket.{Mbed, MbedObject, over}
use sockpp.Tls.Mbed.Socket.Build.{construct}
use sockpp.Tls.Mbed.Context.{
  Cert, Context, in_world, ◌>>=!◌, conf, free_cert?, free_key?, get_drbg_context,
  get_system_root_certs, use_roots,
}

module _ ⦃os : Os⦄ where
  -- `mbedtls_context(role)`, on an object that has only the memory of its configuration, in
  -- the order of its steps, the last one first
  unfoldable pub trust_roots : Option Cert → Action Context (Outcome None)
  unfolding use_roots perform
  trust_roots roots = do use_roots roots; conf MbedCall.conf_verify; pure (returns tt)

  unfoldable pub after_status : Action World (List ℕ) → Bool → Action Context (Outcome None)
  unfolding get_system_root_certs trust_roots
  after_status read false s = (returns tt, s)
  after_status read true s = (get_system_root_certs read >>=! trust_roots) s

  unfoldable pub defaults : Action World (List ℕ) → None → Action Context (Outcome None)
  unfolding after_status perform
  defaults read x = do
    conf MbedCall.conf_rng
    λ s.
        let (status, s') =
          conf (λ config. MbedCall.config_defaults config (if s.client then 0 else 1)) s in
        after_status read (eqb_ℤ status (pos 0)) (record s' { status = status })

  unfoldable pub construct_context : Action World (List ℕ) → Bool → Action Context (Outcome None)
  unfolding get_drbg_context defaults perform
  construct_context read client s =
      (do conf MbedCall.config_init; get_drbg_context >>=! defaults read)
        (record s { client = client })

  -- `~mbedtls_context`, and then the members, the last first
  unfoldable pub destroy_context : Action Context None
  unfolding perform
  destroy_context s =
      (do
        conf MbedCall.config_free
        in_world (free_key? s.identity_key)
        in_world (free_cert? s.identity_cert)
        in_world (free_cert? s.pinned)
        in_world (free_cert? s.root_certs))
        s

-- `wrap_socket(sock, role, peer_name)`, which does not look at the role: the new socket, at this
-- address, over the one that has the handle of `sock`
unfoldable pub wrap_socket :
    ⦃os : Os⦄ ⦃m : Mbed⦄
    → ℕ
    → List ℕ
    → ℤ
    → Context
    → Action Object (Option (Outcome None) × MbedObject)
unfolding construct
wrap_socket fuel peer_name ssl ctx o =
    let (r, made) = construct fuel ctx.status ctx.config peer_name (over ssl o) in
    ((r, made), record o { handle = invalid_socket; world = made.base.world })
