-- ===== src/Tests/SecureRuns.antt =====
-- Runs of the TLS classes.
use sockpp.Prelude.{pos, [], ◌∷◌, ◌≡◌, refl, true, false, none, some}
use sockpp.Error.{no_error}
use sockpp.Result.{returns, ok, unit_default, size_default}
use sockpp.Library.{LibraryCall}
use sockpp.System.{Call, invalid_socket}
use sockpp.System.Held.{calls, held}
use sockpp.Socket.{create_handle}
use sockpp.Connector.{connect_call}
use sockpp.Socket.Build.{new_object}
use sockpp.Tls.Certificate
use sockpp.Tls.Certificate.{to_der, copy}
use sockpp.Tls.Context
use sockpp.Tls.Context.{
  Role, set_auto_retry, set_cert_file, set_default_trust_locations, set_key_file, set_trust_file,
  set_trust_locations, set_trust_path, set_verify,
}
use sockpp.Tls.Pinning.{require_peer_cert}
use sockpp.Tls.Socket
use sockpp.Tls.Socket.{over, auto_retry, peer_certificate, received_shutdown, attach}
use sockpp.Tls.Socket.Io.{read, write_ranges}
use sockpp.Tls.Connector
use sockpp.Tests.Systems.{start, table_os, none_bound}
use sockpp.Tests.Secure.{secure}

certificate_runs : (to_der ⦃os = secure⦄ (pos 300) start).0 ≡ 5 ∷ []
unfolding to_der
certificate_runs = refl

copy_runs : (copy ⦃os = secure⦄ (pos 300) start).0 ≡ pos 300
unfolding copy
copy_runs = refl

moved_runs : Certificate.move_from ⦃os = secure⦄ (pos 300) ≡ (pos 300, pos 0)
unfolding Certificate.move_from
moved_runs = refl

-- The calls of a context that is made, given options and destroyed
context_runs :
    calls
      (Context.destroy ⦃os = secure⦄
        (pos 1)
        (set_auto_retry ⦃os = secure⦄
          (pos 1)
          false
          (set_verify ⦃os = secure⦄
            (pos 1)
            true
            (Context.make ⦃os = secure⦄ Role.server start).1).1).1).1.history
    ≡ Call.library (LibraryCall.ctx_free (pos 1))
      ∷ Call.library (LibraryCall.ctx_clear_mode (pos 1) 4)
      ∷ Call.library (LibraryCall.ctx_set_verify (pos 1) 1)
      ∷ Call.library (LibraryCall.ctx_set_mode (pos 1) 4)
      ∷ Call.library (LibraryCall.ctx_new 1)
      ∷ []
unfolding Context.make Context.destroy set_auto_retry set_verify
context_runs = refl

trust_runs : (set_default_trust_locations ⦃os = secure⦄ (pos 1) start).0 ≡ ok tt
unfolding set_default_trust_locations
trust_runs = refl

locations_runs :
    (set_trust_locations ⦃os = secure⦄ (pos 1) none (some []) start).1
    ≡ (set_trust_path ⦃os = secure⦄ (pos 1) [] start).1
unfolding set_trust_locations set_trust_path
locations_runs = refl

file_runs :
    (set_trust_file ⦃os = secure⦄ (pos 1) [] start).1
    ≡ (set_trust_locations ⦃os = secure⦄ (pos 1) (some []) none start).1
unfolding set_trust_locations set_trust_file
file_runs = refl

cert_file_runs : (set_cert_file ⦃os = secure⦄ (pos 1) [] start).0 ≡ ok tt
unfolding set_cert_file
cert_file_runs = refl

key_file_runs : (set_key_file ⦃os = secure⦄ (pos 1) [] start).0 ≡ ok tt
unfolding set_key_file
key_file_runs = refl

-- The two `ctx_` are exchanged, but both objects have the other's role.
moved_context_runs :
    Context.move_assign false
      (record { ctx = pos 1; role = Role.client })
      (record { ctx = pos 2; role = Role.server })
    ≡ (record { ctx = pos 2; role = Role.server }, record { ctx = pos 1; role = Role.server })
unfolding Context.move_assign
moved_context_runs = refl

new_context_runs : (Context.move_from (record { ctx = pos 1; role = Role.client })).1.ctx ≡ pos 0
unfolding Context.move_from
new_context_runs = refl

-- On a server that sends the names, the entry that is no certificate is passed over.
require_runs :
    calls (require_peer_cert ⦃os = secure⦄ Role.client (pos 50) true true start).1.history
    ≡ Call.library (LibraryCall.ctx_set_verify (pos 50) 1) ∷ []
unfolding require_peer_cert
require_runs = refl

socket_runs : (auto_retry ⦃os = secure⦄ true (pos 100) start).0 ≡ ok tt
unfolding auto_retry
socket_runs = refl

peer_runs : (peer_certificate ⦃os = secure⦄ (pos 100) start).0 ≡ some (pos 1)
unfolding peer_certificate
peer_runs = refl

shutdown_runs : (received_shutdown ⦃os = secure⦄ (pos 100) start).0 ≡ false
unfolding received_shutdown
shutdown_runs = refl

made_runs : (Socket.make ⦃os = secure⦄ (pos 50) (over (new_object start))).0 ≡ returns tt
unfolding Socket.make
made_runs = refl

made_ec_runs :
    (Socket.make_ec ⦃os = secure⦄ (pos 50) no_error (over (new_object start))).1.ssl ≡ pos 100
unfolding Socket.make_ec
made_ec_runs = refl

attach_runs : (attach ⦃os = secure⦄ (pos 3) (over (new_object start))).0 ≡ (ok tt, invalid_socket)
unfolding attach
attach_runs = refl

read_runs : (read ⦃os = secure⦄ (pos 100) 3 start).0 ≡ (ok 3, 5 ∷ 6 ∷ 7 ∷ [])
unfolding read
read_runs = refl

write_runs : (write_ranges ⦃os = secure⦄ (pos 100) ((1 ∷ 2 ∷ []) ∷ (3 ∷ []) ∷ []) start).0 ≡ ok 2
unfolding write_ranges
write_runs = refl

-- An address whose connector cannot be made ends the program.
constructed_runs : (Connector.make_ec ⦃os = secure⦄ (pos 50) [] [] no_error start).0 ≡ some no_error
unfolding Connector.make_ec held create_handle connect_call
constructed_runs = refl

terminated_runs :
    (Connector.make_ec ⦃os = table_os none_bound []⦄ (pos 50) [] [] no_error start).0 ≡ none
unfolding Connector.make_ec create_handle connect_call
terminated_runs = refl
