-- ===== src/Tls/Pinning/Laws.antt =====
-- What the verification callback decides, and which references the settings hold.
use sockpp.Prelude.{
  ℤ, pos, ltb_ℤ, true, eqb_ℤ, eqb_ℤ-refl, List, [], ◌∷◌, ◌++◌, ◌≡◌, refl, Bool, false, ◌&&◌, ◌||◌,
  not, if◌then◌else◌, Option, none, some, arith, Bool-cases, inl, inr,
}
use sockpp.Library.{LibraryCall}
use sockpp.System.{Os, World, Call, perform}
use sockpp.System.Held.{objects}
use sockpp.Tls.{library, is_null}
use sockpp.Tls.Certificate.{is_valid, assign, copy, destroy}
use sockpp.Tls.Certificate.Counts.{own_ref}
use sockpp.Tls.Context.{Role, peer_mode, serves}
use sockpp.Tls.Pinning.{
  push_name, push_names, send_ca_list, require_peer_cert, find_pinned, pin_verify_cb, set_pinned,
  reset_pinned, allow_only_certificate,
}

-- What the manual page of `X509_cmp` says: it compares the two certificates and nothing else.
pub record Compares (os : Os) : Type 0 where
  pub same : ℤ → ℤ → Bool
  pub says :
      (a b : ℤ)
      → (h : _)
      → eqb_ℤ (os.reply h (Call.library (LibraryCall.x509_cmp a b))).ret (pos 0) ≡ same a b

-- One of the certificates is the pinned one.
abbrev pub holds_pinned : (ℤ → ℤ → Bool) → ℤ → List ℤ → Bool
holds_pinned same pinned [] = false
holds_pinned same pinned (c ∷ cs) = same c pinned || holds_pinned same pinned cs

-- What an optional certificate holds
abbrev pub own_pinned : Option ℤ → List ℤ
own_pinned none = []
own_pinned (some cert) = own_ref cert

module _ ⦃os : Os⦄ where
  find_pinned-holds :
      (law : Compares os) (pinned : ℤ) (chain : List ℤ) (w : World)
      → (find_pinned pinned chain w).0 ≡ holds_pinned law.same pinned chain
  unfolding find_pinned perform
  find_pinned-holds law pinned [] w = refl
  find_pinned-holds law pinned (c ∷ cs) w =
      let w₁ = (library (LibraryCall.x509_cmp c pinned) w).1 in
      ground (arith, law.says c pinned w.history, find_pinned-holds law pinned cs w₁)

  -- The callback accepts the peer, with 1, exactly if `X509_verify_cert` returned anything but 0 and the
  -- pinned certificate is in the chain; otherwise it gives 0. So after a verification that failed with
  -- a negative value, as the library documents it for errors, a peer with the pinned certificate in
  -- its chain is accepted all the same. It relies on the comparison of two certificates depending on
  -- nothing but them.
  pub pin_verify_cb-accepts :
      (law : Compares os) (pinned store_ctx : ℤ) (w : World)
      → let (verified, w₁) = library (LibraryCall.x509_verify_cert store_ctx) w in
        let (chain, w₂) = perform (Call.library (LibraryCall.store_ctx_get0_chain store_ctx)) w₁ in
        let found = holds_pinned law.same pinned chain.ints in
        ((pin_verify_cb pinned store_ctx w).0
          ≡ (if not (eqb_ℤ verified (pos 0)) && found then pos 1 else pos 0))
        × (ltb_ℤ verified (pos 0) ≡ true
            → found ≡ true
            → (pin_verify_cb pinned store_ctx w).0 ≡ pos 1)
  unfolding pin_verify_cb perform
  pin_verify_cb-accepts law pinned store_ctx w =
      let (verified, w₁) = library (LibraryCall.x509_verify_cert store_ctx) w in
      let (chain, w₂) = perform (Call.library (LibraryCall.store_ctx_get0_chain store_ctx)) w₁ in
      let found = find_pinned-holds law pinned chain.ints w₂ in
      (ground (arith, found), λ negative present. ground (arith, found, negative, present))

  push_name-objects :
      (ca_names cert : ℤ) (refs : List ℤ) (w : World)
      → objects w.history ≡ some refs
      → objects (push_name ca_names cert w).1.history ≡ some refs
  unfolding push_name objects perform
  push_name-objects ca_names cert refs w h =
      let name = (library (LibraryCall.x509_subject_name_dup cert) w).0 in
      ground (arith, eqb_ℤ-refl name)

  push_names-objects :
      (ca_names : ℤ) (certs refs : List ℤ) (w : World)
      → objects w.history ≡ some refs
      → objects (push_names ca_names certs w).1.history ≡ some refs
  unfolding push_names
  push_names-objects ca_names [] refs w h = h
  push_names-objects ca_names (cert ∷ certs) refs w h =
      push_names-objects ca_names certs refs (push_name ca_names cert w).1
        (push_name-objects ca_names cert refs w h)

  send_ca_list-objects :
      (ctx : ℤ) (refs : List ℤ) (w : World)
      → objects w.history ≡ some refs
      → objects (send_ca_list ctx w).1.history ≡ some refs
  unfolding send_ca_list objects perform
  send_ca_list-objects ctx refs w h =
      let (store, w₁) = library (LibraryCall.ctx_get_cert_store ctx) w in
      let (names, w₂) = library LibraryCall.name_stack_new w₁ in
      let (objs, w₃) = perform (Call.library (LibraryCall.store_get0_objects store)) w₂ in
      elim (Bool-cases (is_null names)) [
        | inl no_names ↦ ground (arith, h, no_names)
        | inr live ↦
            let held₃ : objects w₃.history ≡ some (names ∷ refs) = ground (arith, h, live) in
            let pushed = push_names-objects names objs.ints (names ∷ refs) w₃ held₃ in
            ground (arith, h, live, pushed, eqb_ℤ-refl names)
      ]

  -- Asking for the peer's certificate, in any role and with or without the list of names for the
  -- clients, leaves no name and no list behind: what is held is what was held before.
  require_peer_cert-objects :
      (role : Role) (ctx : ℤ) (require send_list : Bool) (refs : List ℤ) (w : World)
      → objects w.history ≡ some refs
      → objects (require_peer_cert role ctx require send_list w).1.history ≡ some refs
  unfolding require_peer_cert objects perform
  require_peer_cert-objects role ctx require send_list refs w h =
      let w₁ = (library (LibraryCall.ctx_set_verify ctx (peer_mode role require)) w).1 in
      elim (Bool-cases (send_list && (require && serves role))) [
        | inl sends ↦ rw sends (send_ca_list-objects ctx refs w₁ h)
        | inr silent ↦ rw silent h
      ]

  -- Pinning a certificate makes the context hold one reference to it, in place of the one that it held
  -- to the certificate pinned before; an invalid one leaves the context with none. The caller's own
  -- certificate keeps its reference.
  pub allow_only_certificate-counts :
      (ctx cert : ℤ) (pinned : Option ℤ) (rest : List ℤ) (w : World)
      → objects w.history ≡ some (own_pinned pinned ++ (own_ref cert ++ rest))
      → let (pinned', w') = allow_only_certificate ctx pinned cert w in
        (pinned' ≡ (if is_valid cert then some cert else none))
        × (objects w'.history ≡ some (own_pinned pinned' ++ (own_ref cert ++ rest)))
  unfolding allow_only_certificate is_valid assign copy destroy set_pinned reset_pinned objects
  allow_only_certificate-counts ctx cert none rest w h = ground (arith, eqb_ℤ-refl cert)
  allow_only_certificate-counts ctx cert (some old) rest w h =
      ground (arith, eqb_ℤ-refl cert, eqb_ℤ-refl old)
