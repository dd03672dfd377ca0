-- ===== src/Tls/Context/Roots/Loads.antt =====
-- The loop of `set_root_certs`: it ends, and the objects that it makes are freed.
use sockpp.Prelude.{
  ℤ, pos, ℕ, zero, suc, ◌+◌, ◌≤◌, ◌<◌, List, [], ◌∷◌, ◌≡◌, ◌∙◌, refl, Bool, true, false, eqb_ℤ,
  eqb_ℤ-refl, length, if◌then◌else◌, Option, some, arith, inl, inr, Bool-cases,
}
use sockpp.Error.{Category}
use sockpp.Result.{unit_default}
use sockpp.Library.{LibraryCall, ErrorNumbers}
use sockpp.System.{Os, World, Call, Event, perform}
use sockpp.System.Held.{objects}
use sockpp.Tls.{library, is_null, tls_last_error}
use sockpp.Tls.Context.Roots.{Loaded, failed, loaded, go_on, end_of_text, add_cert, load_certs}

-- How often a certificate store was set for a context, and how many certificates went into stores
abbrev pub installs_by : Call → ℕ
installs_by (Call.library (LibraryCall.ctx_set_cert_store c s)) = 1
installs_by c = 0

abbrev pub adds_by : Call → ℤ → ℕ
adds_by (Call.library (LibraryCall.store_add_cert s c)) ret = if eqb_ℤ ret (pos 1) then 1 else 0
adds_by c ret = 0

unfoldable pub installs : List Event → ℕ
installs [] = 0
installs (e ∷ es) = installs_by e.call + installs es

unfoldable pub adds : List Event → ℕ
adds [] = 0
adds (e ∷ es) = adds_by e.call e.reply.ret + adds es

abbrev pub opens_stream : Call → Bool
opens_stream (Call.library (LibraryCall.bio_new_mem_buf text)) = true
opens_stream c = false

-- What the manual pages say of a memory stream, read by `read`: `unread` is how many of its bytes are still
-- to be read. A new one has those of its text; a read that gives a certificate takes some; and no call
-- but one that makes a new stream raises it.
pub record ReadsEnd (os : Os) (read : ℤ → LibraryCall) : Type 0 where
  pub unread : List Event → ℤ → ℕ
  pub opens :
      (h : List Event) (text : List ℕ)
      → let c : Call = Call.library (LibraryCall.bio_new_mem_buf text) in
        let r = os.reply h c in
        is_null r.ret ≡ false → unread (record { call = c; reply = r } ∷ h) r.ret ≤ length text
  pub keeps :
      (h : List Event) (c : Call) (bio : ℤ)
      → opens_stream c ≡ false
      → unread (record { call = c; reply = os.reply h c } ∷ h) bio ≤ unread h bio
  pub falls :
      (h : List Event) (bio : ℤ)
      → let c : Call = Call.library (read bio) in
        is_null (os.reply h c).ret ≡ false
        → unread (record { call = c; reply = os.reply h c } ∷ h) bio < unread h bio

module _ ⦃os : Os⦄ where
  -- The history after one more call
  abbrev pub after : LibraryCall → List Event → List Event
  after c h = record { call = Call.library c; reply = os.reply h (Call.library c) } ∷ h

  abbrev pub answer : LibraryCall → List Event → ℤ
  answer c h = (os.reply h (Call.library c)).ret

-- What a part of the loop does: it installs nothing, ends with these references, adds what it counts,
-- and fails with codes of the library.
abbrev pub Loads : ℕ → List ℤ → Loaded → List Event → List Event → Type 0
Loads n refs (failed e) h h' =
    (objects h' ≡ some refs) × (installs h' ≡ installs h) × (e.category ≡ Category.openssl)
Loads n refs (loaded m) h h' =
    (objects h' ≡ some refs) × (installs h' ≡ installs h) × (adds h' + n ≡ adds h + m)

module _ ⦃os : Os⦄ ⦃numbers : ErrorNumbers⦄ where
  end_of_text-Loads :
      (n : ℕ) (refs : List ℤ) (w : World)
      → objects w.history ≡ some refs
      → let (l, w') = end_of_text n w in Loads n refs l w.history w'.history
  unfolding end_of_text tls_last_error objects installs adds
  end_of_text-Loads n refs w h =
      elim (Bool-cases
        (numbers.is_no_start_line (answer LibraryCall.err_peek_last_error w.history))) [
          | inl over ↦ rw over (h, omega arith, omega arith)
          | inr wrong ↦ rw wrong (h, omega arith, refl)
        ]

  add_cert-Loads :
      (store cert : ℤ) (n : ℕ) (refs : List ℤ) (w : World)
      → objects w.history ≡ some (cert ∷ refs)
      → is_null cert ≡ false
      → let (l, w') = add_cert store cert n w in Loads n refs l w.history w'.history
  unfolding add_cert tls_last_error objects installs adds
  add_cert-Loads store cert n refs w h live =
      let h₁ = after (LibraryCall.store_add_cert store cert) w.history in
      let same = eqb_ℤ-refl cert in
      elim (Bool-cases (eqb_ℤ (answer (LibraryCall.store_add_cert store cert) w.history) (pos 1))) [
        | inl added ↦ rw added (ground (arith, added, same))
        | inr other ↦
            elim (Bool-cases (numbers.is_duplicate (answer LibraryCall.err_peek_last_error h₁))) [
              | inl twice ↦ rw (other, twice) (ground (arith, other, same))
              | inr wrong ↦ rw (other, wrong) (ground (arith, other, same))
            ]
      ]

  add_cert-unread :
      (ends : ReadsEnd os LibraryCall.pem_read_bio_x509_aux) (bio store cert : ℤ) (n : ℕ)
      (w : World)
      → ends.unread (add_cert store cert n w).1.history bio ≤ ends.unread w.history bio
  unfolding add_cert tls_last_error
  add_cert-unread ends bio store cert n w =
      let add : Call = Call.library (LibraryCall.store_add_cert store cert) in
      let peek : Call = Call.library LibraryCall.err_peek_last_error in
      let clear : Call = Call.library LibraryCall.err_clear_error in
      let get : Call = Call.library LibraryCall.err_get_error in
      let free : Call = Call.library (LibraryCall.x509_free cert) in
      let h₁ = after (LibraryCall.store_add_cert store cert) w.history in
      let h₂ = after LibraryCall.err_peek_last_error h₁ in
      let h₃ = after LibraryCall.err_clear_error h₂ in
      let h₄ = after LibraryCall.err_get_error h₂ in
      ground (
        arith,
        ends.keeps w.history add bio refl,
        ends.keeps h₁ peek bio refl,
        ends.keeps h₁ free bio refl,
        ends.keeps h₂ clear bio refl,
        ends.keeps h₂ get bio refl,
        ends.keeps h₃ free bio refl,
        ends.keeps h₄ free bio refl,
      )

  -- A round that goes on, and the rounds after it
  Loads-trans :
      (n m : ℕ) (refs : List ℤ) (l : Loaded) (h h₁ h₂ : List Event)
      → Loads n refs (loaded m) h h₁
      → Loads m refs l h₁ h₂
      → Loads n refs l h h₂
  Loads-trans n m refs (failed e) h h₁ h₂ a b = (b.0, b.1 ∙ a.1, b.2)
  Loads-trans n m refs (loaded k) h h₁ h₂ a b = (b.0, b.1 ∙ a.1, omega (arith, a.2, b.2))

  Loads-objects :
      (n : ℕ) (refs : List ℤ) (l : Loaded) (h h' : List Event)
      → Loads n refs l h h'
      → objects h' ≡ some refs
  Loads-objects n refs (failed e) h h' a = a.0
  Loads-objects n refs (loaded k) h h' a = a.0

  -- A read changes neither count.
  Loads-read :
      (bio : ℤ) (n : ℕ) (refs : List ℤ) (l : Loaded) (h h' : List Event)
      → Loads n refs l (after (LibraryCall.pem_read_bio_x509_aux bio) h) h'
      → Loads n refs l h h'
  unfolding installs adds
  Loads-read bio n refs (failed e) h h' a = (a.0, omega (arith, a.1), a.2)
  Loads-read bio n refs (loaded k) h h' a = (a.0, omega (arith, a.1), omega (arith, a.2))

  go_on-Loads :
      (next : Loaded) (w : World) (more : ℕ → Option Loaded × World) (n : ℕ) (refs : List ℤ)
      → (h : List Event) → Loads n refs next h w.history
      → ((m : ℕ)
          → (l : Loaded) × ((more m).0 ≡ some l) × Loads m refs l w.history (more m).1.history)
      → (l : Loaded) × ((go_on next w more).0 ≡ some l)
        × Loads n refs l h (go_on next w more).1.history
  go_on-Loads (failed e) w more n refs h a rest = (failed e, refl, a)
  go_on-Loads (loaded m) w more n refs h a rest =
      let (l, e, b) = rest m in (l, e, Loads-trans n m refs l h w.history (more m).1.history a b)

  pub load_certs-Loads :
      (ends : ReadsEnd os LibraryCall.pem_read_bio_x509_aux) (fuel : ℕ) (bio store : ℤ) (n : ℕ)
      (refs : List ℤ) (w : World)
      → ends.unread w.history bio < fuel
      → objects w.history ≡ some refs
      → let (ended, w') = load_certs fuel bio store n w in
        (l : Loaded) × (ended ≡ some l) × Loads n refs l w.history w'.history
  unfolding load_certs objects perform
  load_certs-Loads ends zero bio store n refs w enough h = absurd (omega arith)
  load_certs-Loads ends (suc fuel) bio store n refs w enough h =
      let cert = answer (LibraryCall.pem_read_bio_x509_aux bio) w.history in
      let w₁ = (library (LibraryCall.pem_read_bio_x509_aux bio) w).1 in
      let w₃ = (add_cert store cert n w₁).1 in
      elim (Bool-cases (is_null cert)) [
        | inl over ↦
            let held₁ : objects w₁.history ≡ some refs = rw (h, over) in
            let l = (end_of_text n w₁).0 in
            rw over (
              l,
              refl,
              Loads-read bio n refs l w.history (end_of_text n w₁).1.history
                  (end_of_text-Loads n refs w₁ held₁),
            )
        | inr live ↦
            let held₁ : objects w₁.history ≡ some (cert ∷ refs) = rw (h, live) in
            let next = (add_cert store cert n w₁).0 in
            let added = add_cert-Loads store cert n refs w₁ held₁ live in
            let held₃ = Loads-objects n refs next w₁.history w₃.history added in
            let shorter : ends.unread w₃.history bio < fuel =
              omega
                (arith, ends.falls w.history bio live, add_cert-unread ends bio store cert n w₁) in
            rw live (
              go_on-Loads next w₃ (λ (m : ℕ). load_certs fuel bio store m w₃) n refs w.history
                (Loads-read bio n refs next w.history w₃.history added)
                λ m. load_certs-Loads ends fuel bio store m refs w₃ shorter held₃)
      ]
