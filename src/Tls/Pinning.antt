-- ===== src/Tls/Pinning.antt =====
-- What a context asks of the peer's certificate: `require_peer_cert`, `allow_only_certificate` and
-- `pin_verify_cb` of src/tls/openssl_context.cpp. The certificates of a store, and of a chain, are what
-- the call that gives them wrote; an entry of a store that is no certificate is null.
pub mod Laws
use sockpp.Prelude.{
  ℤ, pos, ltb_ℤ, eqb_ℤ, List, [], ◌∷◌, Bool, true, false, ◌&&◌, not, if◌then◌else◌, Option, none,
  some,
}
use sockpp.Result.{None}
use sockpp.Library.{LibraryCall}
use sockpp.System.{Os, World, Call, Action, perform, pure, ◌>>=◌, ◌>>◌}
use sockpp.Tls.{library, is_null}
use sockpp.Tls.Certificate.{is_valid, assign, copy, destroy}
use sockpp.Tls.Context.{Role, serves, peer_mode}

module _ ⦃os : Os⦄ where
  -- One round of the loop over the objects of the store
  unfoldable pub push_name : ℤ → ℤ → Action World None
  unfolding perform
  push_name ca_names cert = if is_null cert then pure tt else do
    name ← library (LibraryCall.x509_subject_name_dup cert)
    if is_null name then pure tt else do
      pushed ← library (LibraryCall.name_stack_push ca_names name)
      if eqb_ℤ pushed (pos 0) then library (LibraryCall.name_free name) >> pure tt else pure tt

  unfoldable pub push_names : ℤ → List ℤ → Action World None
  push_names ca_names [] w = (tt, w)
  push_names ca_names (cert ∷ certs) w = push_names ca_names certs (push_name ca_names cert w).1

  -- The names of the certificates of the context's store, sent to the clients
  unfoldable pub send_ca_list : ℤ → Action World None
  unfolding perform
  send_ca_list ctx = do
    store ← library (LibraryCall.ctx_get_cert_store ctx)
    if is_null store then pure tt else do
      ca_names ← library LibraryCall.name_stack_new
      if is_null ca_names then pure tt else do
        objs ← perform (Call.library (LibraryCall.store_get0_objects store))
        push_names ca_names objs.ints
        n ← library (LibraryCall.name_stack_num ca_names)
        if ltb_ℤ (pos 0) n
            then library (LibraryCall.ctx_set_client_ca_list ctx ca_names) >> pure tt
            else library (LibraryCall.name_stack_pop_free ca_names) >> pure tt

  -- `require_peer_cert`
  unfoldable pub require_peer_cert : Role → ℤ → Bool → Bool → Action World None
  unfolding perform
  require_peer_cert role ctx require send_list = do
    library (LibraryCall.ctx_set_verify ctx (peer_mode role require))
    if send_list && (require && serves role) then send_ca_list ctx else pure tt

  -- The loop of `pin_verify_cb`
  unfoldable pub find_pinned : ℤ → List ℤ → Action World Bool
  find_pinned pinned [] w = (false, w)
  find_pinned pinned (cert ∷ chain) w =
      let (c, w₁) = library (LibraryCall.x509_cmp cert pinned) w in
      let more = find_pinned pinned chain w₁ in if eqb_ℤ c (pos 0) then (true, w₁) else more

  -- `pin_verify_cb`, with the pinned certificate of the context that `arg` points to
  unfoldable pub pin_verify_cb : ℤ → ℤ → Action World ℤ
  unfolding perform
  pin_verify_cb pinned store_ctx = do
    verified ← library (LibraryCall.x509_verify_cert store_ctx)
    if eqb_ℤ verified (pos 0) then pure (pos 0) else do
      chain ← perform (Call.library (LibraryCall.store_ctx_get0_chain store_ctx))
      found ← find_pinned pinned chain.ints
      if found
          then pure (pos 1)
          else library (LibraryCall.store_ctx_set_error store_ctx) >> pure (pos 0)

  -- `pinned_cert_ = cert`, of an optional certificate
  unfoldable pub set_pinned : Option ℤ → ℤ → Action World (Option ℤ)
  unfolding perform assign copy
  set_pinned none cert = do c ← copy cert; pure (some c)
  set_pinned (some old) cert = do c ← assign false old cert; pure (some c)

  -- `pinned_cert_.reset()`
  unfoldable pub reset_pinned : Option ℤ → Action World (Option ℤ)
  unfolding destroy
  reset_pinned none = pure none
  reset_pinned (some old) = do destroy old; pure none

  -- `allow_only_certificate`: the new `pinned_cert_`
  unfoldable pub allow_only_certificate : ℤ → Option ℤ → ℤ → Action World (Option ℤ)
  unfolding is_valid set_pinned reset_pinned perform
  allow_only_certificate ctx pinned cert =
      if is_valid cert
      then (do
        p ← set_pinned pinned cert
        library (LibraryCall.ctx_set_cert_verify_callback ctx true)
        pure p)
      else (do
        p ← reset_pinned pinned
        library (LibraryCall.ctx_set_cert_verify_callback ctx false)
        pure p)
