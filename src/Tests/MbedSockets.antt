-- ===== src/Tests/MbedSockets.antt =====
-- The theorems on the Mbed TLS socket at concrete inputs, and runs of its operations.
use sockpp.Prelude.{ℤ, pos, eqb_ℤ, [], ◌∷◌, ◌++◌, ◌≡◌, refl, true, false, Option, none, some}
use sockpp.Prelude.Text.{codes}
use sockpp.Error.{Errc, make_error_code}
use sockpp.Result.{Outcome, returns, None, ok, from_error, is_error, int_default, size_default}
use sockpp.Library.{LibraryCall, MbedCall}
use sockpp.System.{Os, Call}
use sockpp.System.Held.{held, objects, calls, own}
use sockpp.Tls.Mbed.{translate_mbed_err}
use sockpp.Tls.Mbed.Socket.{MbedObject, over, check_mbed_setup}
use sockpp.Tls.Mbed.Socket.Build.{construct, destroy, close_socket, read, write}
use sockpp.Tls.Mbed.Socket.Settings.{
  set_read_timeout, set_write_timeout, change_non_blocking, peer_certificate_status,
  peer_certificate_status_message, peer_certificate, drop_last, mismatch,
}
use sockpp.Tls.Mbed.Socket.Construct.{construct-Holds, construct-early}
use sockpp.Tls.Mbed.Socket.Ending.{GaveUp, check_mbed_setup_lem, closed-silent}
use sockpp.Tls.Mbed.Socket.Setup.{has_thrown}
use sockpp.Tests.MbedSystems.{mbed_os, library, five, mbed_os-SetsErrno, mbed_os-RefusesInvalid}

-- A set-up that fails, so that the constructor goes on to the handshake
abbrev failing : Os
failing = mbed_os (pos 7)

abbrev working : Os
working = mbed_os (pos 0)

abbrev made : Os → Option (Outcome None) × MbedObject
made os = construct ⦃os = os⦄ ⦃m = library⦄ 2 (pos 0) (pos 40) [] (over (pos 90) five)

construct-Holds_example :
    let (r, o') = made failing in
    (held o'.base.world.history ≡ own o'.base.handle ++ [])
    × (objects o'.base.world.history ≡ some (pos 90 ∷ []))
    × (has_thrown r ≡ true → held o'.base.world.history ≡ [])
    × (has_thrown r ≡ false
        → let o'' = (destroy ⦃os = failing⦄ ⦃m = library⦄ o').1 in
          (held o''.base.world.history ≡ []) × (objects o''.base.world.history ≡ some []))
unfolding held objects
construct-Holds_example =
    construct-Holds ⦃os = failing⦄ ⦃m = library⦄ (mbed_os-RefusesInvalid (pos 7))
      (mbed_os-SetsErrno (pos 7)) 1 (pos 0) (pos 40) (pos 90) [] [] [] five refl refl refl

-- The verification's flags make it throw.
made_throws : has_thrown (made failing).0 ≡ true
unfolding construct
made_throws = refl

construct-early_example :
    let (r, o') = made working in
    let before =
      Call.library (LibraryCall.mbed (MbedCall.ssl_setup (pos 90) (pos 40)))
      ∷ Call.library (LibraryCall.mbed (MbedCall.ssl_init (pos 90)))
      ∷ calls five.world.history in
    (r ≡ some (returns tt))
    × (o'.base.handle ≡ pos 5)
    × (o'.bio ≡ none)
    × (calls o'.base.world.history ≡ before)
    × (calls (read ⦃os = working⦄ ⦃m = library⦄ 4 o').1.base.world.history
        ≡ Call.library (LibraryCall.mbed (MbedCall.ssl_read (pos 90) 4)) ∷ before)
    × (calls (write ⦃os = working⦄ ⦃m = library⦄ (1 ∷ []) o').1.base.world.history
        ≡ Call.library (LibraryCall.mbed (MbedCall.ssl_write (pos 90) (1 ∷ []))) ∷ before)
construct-early_example =
    construct-early ⦃os = working⦄ ⦃m = library⦄ 2 (pos 40) (pos 90) [] five 4 1 [] (λ h. refl)

check_mbed_setup_lem_example :
    let (r, o') = check_mbed_setup ⦃os = working⦄ 1 (pos 7) (over (pos 90) five) in
    (eqb_ℤ (pos 7) (pos 0) ≡ true → (r ≡ some (ok (pos 7))) × (o' ≡ over (pos 90) five))
    × (eqb_ℤ (pos 7) (pos 0) ≡ false
        → (r ≡ some (from_error (translate_mbed_err (pos 7))))
          × (is_error (from_error {A = ℤ} (translate_mbed_err (pos 7))) ≡ true)
          × GaveUp [] (over (pos 90) five) o')
unfolding held
check_mbed_setup_lem_example =
    check_mbed_setup_lem ⦃os = working⦄ (mbed_os-RefusesInvalid (pos 0)) (mbed_os-SetsErrno (pos 0))
      0 (pos 7) [] (over (pos 90) five) refl

-- A socket after a handshake
abbrev live : MbedObject
live = record { ssl = pos 90; opened = true; timeout = pos 0; bio = some true; base = five }

closed-silent_example :
    let o' = (close_socket ⦃os = working⦄ ⦃m = library⦄ live).1 in
    (calls (read ⦃os = working⦄ ⦃m = library⦄ 4 o').1.base.world.history
      ≡ Call.library (LibraryCall.mbed (MbedCall.ssl_read o'.ssl 4)) ∷ calls o'.base.world.history)
    × (calls (write ⦃os = working⦄ ⦃m = library⦄ (1 ∷ 2 ∷ []) o').1.base.world.history
        ≡ Call.library (LibraryCall.mbed (MbedCall.ssl_write o'.ssl (1 ∷ 2 ∷ [])))
          ∷ calls o'.base.world.history)
closed-silent_example = closed-silent ⦃os = working⦄ ⦃m = library⦄ live 4 1 (2 ∷ [])

-- A read and a write go through the library to the descriptor and back.
live_runs :
    ((read ⦃os = working⦄ ⦃m = library⦄ 4 live).0 ≡ (ok 3, codes "AB"))
    × ((write ⦃os = working⦄ ⦃m = library⦄ (1 ∷ []) live).0 ≡ ok 0)
    × ((read ⦃os = working⦄ ⦃m = library⦄ 4 (close_socket ⦃os = working⦄ ⦃m = library⦄ live).1).0
        ≡ (from_error (make_error_code Errc.connection_reset), []))
    × ((set_read_timeout ⦃os = working⦄ (pos 30) live).1.timeout ≡ pos 30)
    × ((set_write_timeout ⦃os = working⦄ (pos 30) live).1.timeout ≡ pos 0)
    × ((change_non_blocking ⦃os = working⦄ false live).1.bio ≡ some false)
    × ((peer_certificate_status ⦃os = working⦄ live).0 ≡ 0x108)
    × ((peer_certificate ⦃os = working⦄ (5 ∷ []) live).0 ≡ codes "AB")
    × ((peer_certificate_status_message ⦃os = working⦄ live).0 ≡ mismatch ++ 10 ∷ codes "A")
unfolding read write close_socket set_read_timeout set_write_timeout change_non_blocking
    peer_certificate_status peer_certificate peer_certificate_status_message drop_last
live_runs = (refl, refl, refl, refl, refl, refl, refl, refl, refl)
