-- ===== src/Tls/Mbed/Context/Peer.antt =====
-- What the Mbed TLS context trusts and asks of a peer.
use sockpp.Prelude.{
  ℤ, pos, negsuc, ℕ, List, [], ◌∷◌, ◌++◌, Bool, true, false, not, eqb_ℤ, if◌then◌else◌, Option,
  none, some,
}
use sockpp.Result.{Outcome, returns, None}
use sockpp.Library.{MbedCall}
use sockpp.System.{Os, World, Action, perform, pure, ◌>>=◌, ◌>>◌}
use sockpp.Tls.Mbed.Context.{
  Cert, Context, Locator, in_world, auth_mode, ◌>>=!◌, mbed, conf, free_cert?, parse_cert,
  get_system_root_certs, use_roots,
}

module _ ⦃os : Os⦄ where
  -- The root for a certificate: memory of its own, given back unless it was read
  unfoldable pub give_root : List ℕ → Action World (ℤ × Option (Option ℤ))
  unfolding perform
  give_root [] = pure (pos 0, some none)
  give_root (x ∷ root_data) = do
    root ← mbed MbedCall.new_cert
    mbed (MbedCall.x509_crt_init root)
    err ← mbed (MbedCall.x509_crt_parse root (x ∷ root_data ++ 0 ∷ []))
    if eqb_ℤ err (pos 0)
        then pure (pos 0, some (some root))
        else mbed (MbedCall.x509_crt_free root) >> pure (err, none)

  -- `trusted_cert_callback`, for a certificate's bytes: what it returns, and what it stores through
  -- `candidates`, if it does
  unfoldable pub trusted_cert_callback : List ℕ → Action Context (ℤ × Option (Option ℤ))
  unfolding give_root
  trusted_cert_callback child s = elim (s.locator) [
    | none ↦ ((negsuc 0, none), s)
    | some loc ↦
        let (found, root) = loc child in
        (if found then in_world (give_root root) else pure (negsuc 0, none)) s
  ]

  -- `set_root_cert_locator(loc)`
  unfoldable pub reset_roots : Option Cert → Action Context (Outcome None)
  unfolding use_roots
  reset_roots roots = use_roots roots >> pure (returns tt)

  unfoldable pub set_root_cert_locator :
      Action World (List ℕ) → Option Locator → Action Context (Outcome None)
  unfolding get_system_root_certs reset_roots perform
  set_root_cert_locator read (some loc) s =
      (conf (λ config. MbedCall.conf_ca_cb config true) >> pure (returns tt))
        (record s { locator = some loc })
  set_root_cert_locator read none s =
      (get_system_root_certs read >>=! reset_roots) (record s { locator = none })

  -- `require_peer_cert(forRole, require, sendCAList)`, by whether the role, `CLIENT` or `SERVER`, is the
  -- context's own, and whether that is the client's
  unfoldable pub require_for : Bool → Bool → Bool → Bool → Action Context None
  unfolding perform
  require_for false client require send_ca_list s = (tt, s)
  require_for true true require send_ca_list s =
      (conf (λ config. MbedCall.conf_authmode config (auth_mode require)) >> pure tt) s
  require_for true false require send_ca_list s =
      (do
        conf (λ config. MbedCall.conf_authmode config (auth_mode require))
        conf (λ config. MbedCall.conf_cert_req_ca_list config send_ca_list)
        pure tt)
        s

  unfoldable pub require_peer_cert : Bool → Bool → Bool → Action Context None
  unfolding require_for
  require_peer_cert for_client require send_ca_list s =
      require_for (if for_client then s.client else not (s.client)) s.client require send_ca_list s

  -- The assignment to `pinned_cert_`
  unfoldable pub place_pinned : Option Cert → Action Context (Outcome None)
  unfolding perform
  place_pinned c s = (in_world (free_cert? s.pinned) >> pure (returns tt)) (record s { pinned = c })

  -- `allow_only_certificate(cert_data)`
  unfoldable pub allow_only_certificate : List ℕ → Action Context (Outcome None)
  unfolding parse_cert place_pinned
  allow_only_certificate [] s = place_pinned none s
  allow_only_certificate (x ∷ cert_data) s =
      (in_world (parse_cert (x ∷ cert_data) false) >>=! λ c. place_pinned (some c)) s

  -- `allow_only_certificate(certificate)`
  unfoldable pub allow_only_parsed : Option Cert → Action Context (Outcome None)
  unfolding allow_only_certificate
  allow_only_parsed none = allow_only_certificate []
  allow_only_parsed (some c) = allow_only_certificate c.raw
