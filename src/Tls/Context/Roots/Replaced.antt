-- ===== src/Tls/Context/Roots/Replaced.antt =====
-- What `set_root_certs` does to the context, and to the objects that it makes.
use sockpp.Prelude.{
  ℤ, ℕ, ◌+◌, ◌<◌, ◌==◌, List, ◌∷◌, ◌≡◌, refl, false, eqb_ℤ-refl, length, Option, some, arith, ◌⊎◌,
  inl, inr, Bool-cases,
}
use sockpp.Error.{Category, Errc}
use sockpp.Result.{Result, None, ok, from_error, from_errc, unit_default}
use sockpp.Library.{LibraryCall, ErrorNumbers}
use sockpp.System.{Os, World, Call, Event, perform}
use sockpp.System.Held.{objects}
use sockpp.Tls.{library, is_null, tls_last_error}
use sockpp.Tls.Context.Roots.{
  Loaded, failed, loaded, load_certs, install, finish, fill_store, set_root_certs,
}
use sockpp.Tls.Context.Roots.Loads.{installs, adds, ReadsEnd, answer, Loads, load_certs-Loads}

-- What `set_root_certs` has done: one store was set, with at least one certificate added since; or
-- none was, and the result is `invalid_argument` or a code of the library.
abbrev pub Replaces : Result None → List Event → List Event → Type 0
Replaces r h h' =
    ((installs h' ≡ 1 + installs h) × (adds h < adds h') × (r ≡ ok tt))
    ⊎ ((installs h' ≡ installs h)
        × ((r ≡ from_errc Errc.invalid_argument) ⊎ (r.err.category ≡ Category.openssl)))

-- What came before may be left off if it counts nothing.
Replaces-after :
    (r : Result None) (h h₁ h' : List Event)
    → installs h₁ ≡ installs h
    → adds h₁ ≡ adds h
    → Replaces r h₁ h'
    → Replaces r h h'
Replaces-after r h h₁ h' a b (inl (p, q, e)) = inl (omega (arith, p), omega (arith, q), e)
Replaces-after r h h₁ h' a b (inr (p, e)) = inr (omega (arith, p), e)

module _ ⦃os : Os⦄ ⦃numbers : ErrorNumbers⦄ where
  -- The store is set for the context or freed; the memory stream is what is left.
  install-Replaces :
      (ctx store : ℤ) (refs : List ℤ) (l : Loaded) (h : List Event) (w : World)
      → is_null store ≡ false
      → Loads 0 (store ∷ refs) l h w.history
      → let (r, w') = install ctx store l w in
        (objects w'.history ≡ some refs) × Replaces r h w'.history
  unfolding install objects installs adds
  install-Replaces ctx store refs (failed e) h w live a =
      (ground (arith, a.0, eqb_ℤ-refl store), inr (omega (arith, a.1), inr a.2))
  install-Replaces ctx store refs (loaded n) h w live a = elim (Bool-cases (n == 0)) [
    | inl zero_added ↦
        rw zero_added (ground (arith, a.0, eqb_ℤ-refl store), inr (omega (arith, a.1), inl refl))
    | inr some_added ↦
        let more : adds h < adds w.history = ground (arith, a.2, some_added) in
        rw some_added (
          ground (arith, a.0, eqb_ℤ-refl store),
          inl (omega (arith, a.1), omega (arith, more), refl),
        )
  ]

  finish-Replaces :
      (ctx bio store : ℤ) (rest : List ℤ) (ended : Option Loaded) (l : Loaded) (h : List Event)
      → (w : World) → is_null store ≡ false
      → is_null bio ≡ false
      → ended ≡ some l
      → Loads 0 (store ∷ bio ∷ rest) l h w.history
      → let (res, w') = finish ctx bio store ended w in
        (r : Result None) × (res ≡ some r)
        × (objects w'.history ≡ some rest)
        × Replaces r h w'.history
  unfolding finish objects installs adds
  finish-Replaces ctx bio store rest ended l h w live opened e loads =
      let (left, done) = install-Replaces ctx store (bio ∷ rest) l h w live loads in
      rw e (
        (install ctx store l w).0,
        refl,
        ground (arith, left, eqb_ℤ-refl bio),
        elim done [
          | inl (a, b, c) ↦ inl (omega (arith, a), omega (arith, b), c)
          | inr (a, b) ↦ inr (omega (arith, a), b)
        ],
      )

  fill_store-Replaces :
      (ends : ReadsEnd os LibraryCall.pem_read_bio_x509_aux) (fuel : ℕ) (ctx bio store : ℤ)
      (rest : List ℤ) (w : World)
      → ends.unread w.history bio < fuel
      → is_null store ≡ false
      → is_null bio ≡ false
      → objects w.history ≡ some (store ∷ bio ∷ rest)
      → let (res, w') = fill_store fuel ctx bio store w in
        (r : Result None) × (res ≡ some r)
        × (objects w'.history ≡ some rest)
        × Replaces r w.history w'.history
  unfolding fill_store objects installs adds perform
  fill_store-Replaces ends fuel ctx bio store rest w enough live opened h =
      let clear : Call = Call.library LibraryCall.err_clear_error in
      let w₁ = (library LibraryCall.err_clear_error w).1 in
      let kept : ends.unread w₁.history bio < fuel =
        omega (arith, enough, ends.keeps w.history clear bio refl) in
      let (l, ended, loads) =
        load_certs-Loads ends fuel bio store 0 (store ∷ bio ∷ rest) w₁ kept h in
      let (res, w₂) = load_certs fuel bio store 0 w₁ in
      let (r, e, left, done) =
        finish-Replaces ctx bio store rest res l w₁.history w₂ live opened ended loads in
      (
        r,
        e,
        left,
        Replaces-after r w.history w₁.history (finish ctx bio store res w₂).1.history (omega arith)
            (omega arith) done,
      )

  -- Setting the root certificates ends, with any text and whatever the library replies, and holds no
  -- object more or less than before: each certificate and the stream are freed, and the store is freed
  -- unless it went over to the context. Either exactly one store was set, with at least one certificate
  -- added, and the result is a success; or none was, the context has the store that it had, and the
  -- result is `invalid_argument` or carries a code of the library. The fuel is enough
  -- if it is more than the number of bytes of the text. It relies on what the manual pages say of reads
  -- from a memory stream.
  pub set_root_certs-Replaces :
      (ends : ReadsEnd os LibraryCall.pem_read_bio_x509_aux) (fuel : ℕ) (ctx : ℤ)
      (cert_data : List ℕ) (rest : List ℤ) (w : World)
      → length cert_data < fuel
      → objects w.history ≡ some rest
      → let (res, w') = set_root_certs fuel ctx cert_data w in
        (r : Result None) × (res ≡ some r)
        × (objects w'.history ≡ some rest)
        × Replaces r w.history w'.history
  unfolding set_root_certs objects installs adds tls_last_error
  set_root_certs-Replaces ends fuel ctx cert_data rest w enough h =
      let open_bio = LibraryCall.bio_new_mem_buf cert_data in
      let bio = answer open_bio w.history in
      let w₁ = (library open_bio w).1 in
      let store = answer LibraryCall.store_new w₁.history in
      let w₂ = (library LibraryCall.store_new w₁).1 in
      elim (Bool-cases (is_null bio)) [
        | inl no_bio ↦ rw no_bio (
          from_error (tls_last_error w₁).0,
          refl,
          ground (arith, h, no_bio),
          inr (omega arith, inr refl),
        )
        | inr opened ↦ elim (Bool-cases (is_null store)) [
          | inl no_store ↦
              rw (opened, no_store)
                (
                  from_error (tls_last_error w₂).0,
                  refl,
                  ground (arith, h, no_store, eqb_ℤ-refl bio),
                  inr (omega arith, inr refl),
                )
          | inr live ↦
              let kept : ends.unread w₂.history bio < fuel = omega (
                arith,
                enough,
                ends.opens w.history cert_data opened,
                ends.keeps w₁.history (Call.library LibraryCall.store_new) bio refl,
              ) in
              let held₂ : objects w₂.history ≡ some (store ∷ bio ∷ rest) = rw (h, opened, live) in
              let (r, e, left, done) =
                fill_store-Replaces ends fuel ctx bio store rest w₂ kept live opened held₂ in
              rw (opened, live)
                (
                  r,
                  e,
                  left,
                  Replaces-after r w.history w₂.history (fill_store fuel ctx bio store w₂).1.history
                      (omega arith) (omega arith) done,
                )
        ]
      ]
