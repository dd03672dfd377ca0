-- ===== src/Tls/Context/Identity/Freed.antt =====
-- `set_identity` ends, and frees what it makes.
use sockpp.Prelude.{
  ℤ, pos, ℕ, zero, suc, ◌<◌, List, ◌∷◌, ◌≡◌, ◌∙◌, refl, false, eqb_ℤ, eqb_ℤ-refl, length, Option,
  some, arith, Bool-cases, inl, inr,
}
use sockpp.Result.{Result, None, from_error, unit_default}
use sockpp.Library.{LibraryCall, ErrorNumbers}
use sockpp.System.{Os, World, Call, perform}
use sockpp.System.Held.{objects}
use sockpp.Tls.{library, is_null}
use sockpp.Tls.Context.Roots.Loads.{ReadsEnd}
use sockpp.Tls.Context.Identity.{
  Chain, stopped, complete, fail_last, stop_last, use_key, set_key, end_of_chain, load_chain,
  end_identity, load_identity, set_identity,
}

module _ ⦃os : Os⦄ where
  fail_last-objects :
      (refs : List ℤ) (w : World)
      → objects w.history ≡ some refs
      → objects (fail_last w).1.history ≡ some refs
  unfolding fail_last objects
  fail_last-objects refs w h = h

  use_key-objects :
      (ctx key : ℤ) (refs : List ℤ) (w : World)
      → is_null key ≡ false
      → objects w.history ≡ some (key ∷ refs)
      → objects (use_key ctx key w).1.history ≡ some refs
  unfolding use_key objects
  use_key-objects ctx key refs w live h = ground (arith, eqb_ℤ-refl key)

  set_key-objects :
      (ctx : ℤ) (key_pem : List ℕ) (refs : List ℤ) (w : World)
      → objects w.history ≡ some refs
      → objects (set_key ctx key_pem w).1.history ≡ some refs
  unfolding set_key objects perform
  set_key-objects ctx key_pem refs w h =
      let (bio, w₁) = library (LibraryCall.bio_new_mem_buf key_pem) w in
      let (key, w₂) = library (LibraryCall.pem_read_bio_private_key bio) w₁ in
      let same = eqb_ℤ-refl bio in
      elim (Bool-cases (is_null bio)) [
        | inl no_bio ↦ rw no_bio (fail_last-objects refs w₁ (ground (arith, h, no_bio)))
        | inr opened ↦ elim (Bool-cases (is_null key)) [
          | inl no_key ↦
              let held₂ : objects w₂.history ≡ some (bio ∷ refs) =
                ground (arith, h, opened, no_key) in
              rw (opened, no_key)
                (ground (arith, same, opened, fail_last-objects (bio ∷ refs) w₂ held₂))
          | inr live ↦
              let held₂ : objects w₂.history ≡ some (key ∷ bio ∷ refs) =
                ground (arith, h, opened, live) in
              rw (opened, live)
                (ground (arith, same, opened, use_key-objects ctx key (bio ∷ refs) w₂ live held₂))
        ]
      ]

module _ ⦃os : Os⦄ ⦃numbers : ErrorNumbers⦄ where
  end_of_chain-objects : (w : World) → objects (end_of_chain w).1.history ≡ objects w.history
  unfolding end_of_chain objects
  end_of_chain-objects w = ground arith

  load_chain-objects :
      (ends : ReadsEnd os LibraryCall.pem_read_bio_x509) (fuel : ℕ) (ctx bio : ℤ) (refs : List ℤ)
      → (w : World) → ends.unread w.history bio < fuel
      → objects w.history ≡ some refs
      → let (ended, w') = load_chain fuel ctx bio w in
        (l : Chain) × (ended ≡ some l) × (objects w'.history ≡ some refs)
  unfolding load_chain objects perform stop_last
  load_chain-objects ends zero ctx bio refs w enough h = absurd (omega arith)
  load_chain-objects ends (suc fuel) ctx bio refs w enough h =
      let (ca, w₁) = library (LibraryCall.pem_read_bio_x509 bio) w in
      let (added, w₃) = library (LibraryCall.ctx_add_extra_chain_cert ctx ca) w₁ in
      let add : Call = Call.library (LibraryCall.ctx_add_extra_chain_cert ctx ca) in
      let same = eqb_ℤ-refl ca in
      elim (Bool-cases (is_null ca)) [
        | inl over ↦
            rw over ((end_of_chain w₁).0, refl, end_of_chain-objects w₁ ∙ ground (arith, h, over))
        | inr live ↦ elim (Bool-cases (eqb_ℤ added (pos 1))) [
          | inl taken ↦
              let held₃ : objects w₃.history ≡ some refs = ground (arith, h, live, taken, same) in
              let shorter : ends.unread w₃.history bio < fuel = omega (
                arith,
                enough,
                ends.falls w.history bio live,
                ends.keeps w₁.history add bio refl,
              ) in
              rw (live, taken) (load_chain-objects ends fuel ctx bio refs w₃ shorter held₃)
          | inr refused ↦
              rw (live, refused) ((stop_last w₃).0, refl, ground (arith, h, live, refused, same))
        ]
      ]

  end_identity-objects :
      (ctx bio leaf : ℤ) (key_pem : List ℕ) (refs : List ℤ) (ended : Option Chain) (l : Chain)
      → (w : World) → is_null bio ≡ false
      → is_null leaf ≡ false
      → ended ≡ some l
      → objects w.history ≡ some (leaf ∷ bio ∷ refs)
      → let (res, w') = end_identity ctx bio leaf key_pem ended w in
        (r : Result None) × (res ≡ some r) × (objects w'.history ≡ some refs)
  unfolding end_identity objects
  end_identity-objects ctx bio leaf key_pem refs ended (stopped e) w opened live same h =
      rw same (from_error e, refl, ground (arith, eqb_ℤ-refl bio, eqb_ℤ-refl leaf))
  end_identity-objects ctx bio leaf key_pem refs ended complete w opened live same h =
      let kept = set_key-objects ctx key_pem (leaf ∷ bio ∷ refs) w h in
      rw same
        ((set_key ctx key_pem w).0, refl, ground (arith, kept, eqb_ℤ-refl bio, eqb_ℤ-refl leaf))

  load_identity-objects :
      (ends : ReadsEnd os LibraryCall.pem_read_bio_x509) (fuel : ℕ) (ctx bio leaf : ℤ)
      → (key_pem : List ℕ) (refs : List ℤ) (w : World) → ends.unread w.history bio < fuel
      → is_null bio ≡ false
      → is_null leaf ≡ false
      → objects w.history ≡ some (leaf ∷ bio ∷ refs)
      → let (res, w') = load_identity fuel ctx bio leaf key_pem w in
        (r : Result None) × (res ≡ some r) × (objects w'.history ≡ some refs)
  unfolding load_identity objects perform
  load_identity-objects ends fuel ctx bio leaf key_pem refs w enough opened live h =
      let clear : Call = Call.library (LibraryCall.ctx_clear_extra_chain_certs ctx) in
      let empty : Call = Call.library LibraryCall.err_clear_error in
      let w₁ = (library (LibraryCall.ctx_clear_extra_chain_certs ctx) w).1 in
      let w₂ = (library LibraryCall.err_clear_error w₁).1 in
      let kept : ends.unread w₂.history bio < fuel = omega (
        arith,
        enough,
        ends.keeps w.history clear bio refl,
        ends.keeps w₁.history empty bio refl,
      ) in
      let (l, same, left) = load_chain-objects ends fuel ctx bio (leaf ∷ bio ∷ refs) w₂ kept h in
      let (ended, w₃) = load_chain fuel ctx bio w₂ in
      end_identity-objects ctx bio leaf key_pem refs ended l w₃ opened live same left

  -- Setting an identity ends, with any texts and whatever the library replies, and every stream,
  -- certificate and key that it makes is freed, but the certificates of the chain that the context took
  -- over: it holds no object more or less than before. The fuel is enough if it is more than the number of
  -- bytes of the first text. It relies on what the manual pages say of reads from a memory stream.
  pub set_identity-objects :
      (ends : ReadsEnd os LibraryCall.pem_read_bio_x509) (fuel : ℕ) (ctx : ℤ)
      → (cert_pem key_pem : List ℕ) (refs : List ℤ) (w : World) → length cert_pem < fuel
      → objects w.history ≡ some refs
      → let (res, w') = set_identity fuel ctx cert_pem key_pem w in
        (r : Result None) × (res ≡ some r) × (objects w'.history ≡ some refs)
  unfolding set_identity objects perform
  set_identity-objects ends fuel ctx cert_pem key_pem refs w enough h =
      let (bio, w₁) = library (LibraryCall.bio_new_mem_buf cert_pem) w in
      let (leaf, w₂) = library (LibraryCall.pem_read_bio_x509_aux bio) w₁ in
      let (used, w₃) = library (LibraryCall.ctx_use_certificate ctx leaf) w₂ in
      let read : Call = Call.library (LibraryCall.pem_read_bio_x509_aux bio) in
      let use_it : Call = Call.library (LibraryCall.ctx_use_certificate ctx leaf) in
      let same = eqb_ℤ-refl bio in
      let same_leaf = eqb_ℤ-refl leaf in
      elim (Bool-cases (is_null bio)) [
        | inl no_bio ↦
            rw no_bio
              ((fail_last w₁).0, refl, fail_last-objects refs w₁ (ground (arith, h, no_bio)))
        | inr opened ↦ elim (Bool-cases (is_null leaf)) [
          | inl no_leaf ↦
              let held₂ : objects w₂.history ≡ some (bio ∷ refs) =
                ground (arith, h, opened, no_leaf) in
              rw (opened, no_leaf)
                (
                  (fail_last w₂).0,
                  refl,
                  ground (arith, same, opened, fail_last-objects (bio ∷ refs) w₂ held₂),
                )
          | inr live ↦
              let held₃ : objects w₃.history ≡ some (leaf ∷ bio ∷ refs) =
                ground (arith, h, opened, live) in
              let kept : ends.unread w₃.history bio < fuel = omega (
                arith,
                enough,
                ends.opens w.history cert_pem opened,
                ends.keeps w₁.history read bio refl,
                ends.keeps w₂.history use_it bio refl,
              ) in
              elim (Bool-cases (eqb_ℤ used (pos 1))) [
                | inl fine ↦
                    rw (opened, live, fine)
                      (load_identity-objects ends fuel ctx bio leaf key_pem refs w₃ kept opened live
                        held₃)
                | inr refused ↦
                    rw (opened, live, refused)
                      (
                        (fail_last w₃).0,
                        refl,
                        ground (
                          arith,
                          same,
                          same_leaf,
                          opened,
                          live,
                          fail_last-objects (leaf ∷ bio ∷ refs) w₃ held₃,
                        ),
                      )
              ]
        ]
      ]
