-- ===== src/Tls/Certificate/Counts.antt =====
-- The references that certificates hold.
use sockpp.Prelude.{
  ℤ, ℕ, List, [], ◌∷◌, ◌++◌, ◌≡◌, false, eqb_ℤ-refl, eqb_ℤ-eq, if◌then◌else◌, some, arith,
}
use sockpp.Library.{LibraryCall}
use sockpp.System.{Os, World, Call}
use sockpp.System.Held.{objects}
use sockpp.Tls.{is_null}
use sockpp.Tls.Certificate.{destroy, assign, move_assign, from_pem, from_der}

-- What a certificate with this pointer holds
abbrev pub own_ref : ℤ → List ℤ
own_ref cert = if is_null cert then [] else cert ∷ []

module _ ⦃os : Os⦄ where
  -- Assigning a certificate to another one gives up the reference that this held and takes one more to
  -- the other's object; moving it hands the reference over; and destroying one gives its reference
  -- up. No reference is lost, and none is given up that is not held.
  assign-counts :
      (cert rhs : ℤ) (rest : List ℤ) (w : World)
      → objects w.history ≡ some (own_ref cert ++ own_ref rhs ++ rest)
      → (let (cert', w') = assign false cert rhs w in
          (cert' ≡ rhs) × (objects w'.history ≡ some (own_ref rhs ++ own_ref rhs ++ rest)))
        × (let ((cert', rhs'), w') = move_assign false cert rhs w in
            objects w'.history ≡ some (own_ref cert' ++ own_ref rhs' ++ rest))
        × (objects (destroy cert w).1.history ≡ some (own_ref rhs ++ rest))
  unfolding assign move_assign destroy objects
  assign-counts cert rhs rest w h = ground (arith, eqb_ℤ-refl cert)

  -- Reading a certificate from PEM or DER ends with one more reference, the result's, if it succeeds,
  -- and with none if it fails; the memory stream is freed in both cases.
  from_pem-counts :
      (pem : List ℕ) (rest : List ℤ) (w : World)
      → objects w.history ≡ some rest
      → (let (res, w') = from_pem pem w in objects w'.history ≡ some (own_ref res.val ++ rest))
        × (let (res, w') = from_der pem w in objects w'.history ≡ some (own_ref res.val ++ rest))
  unfolding from_pem from_der objects
  from_pem-counts pem rest w h =
      let made : Call = Call.library (LibraryCall.bio_new_mem_buf pem) in
      let bio = (os.reply w.history made).ret in
      let cleared : Call = Call.library LibraryCall.err_clear_error in
      let h₁ = record { call = made; reply = os.reply w.history made } ∷ w.history in
      let h₂ = record { call = cleared; reply = os.reply h₁ cleared } ∷ h₁ in
      let cert = (os.reply h₂ (Call.library (LibraryCall.pem_read_bio_x509_aux bio))).ret in
      (ground (arith, eqb_ℤ-refl bio, eqb_ℤ-eq cert bio), ground arith)
