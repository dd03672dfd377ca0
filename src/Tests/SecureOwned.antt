-- ===== src/Tests/SecureOwned.antt =====
-- The theorems on the TLS classes, on a system where everything works.
use sockpp.Prelude.{negsuc, eqb_ℤ, pos, ℕ, List, [], ◌∷◌, ◌++◌, ◌≡◌, refl, true, false, arith, some}
use sockpp.Result.{Result, None, is_ok}
use sockpp.Library.{LibraryCall}
use sockpp.System.{Os, World, Reply, Event, Call, perform, invalid_socket}
use sockpp.System.Held.{held, objects}
use sockpp.Tls.Certificate.{is_valid}
use sockpp.Tls.Context.{Role}
use sockpp.Tls.Context.Roots.{set_root_certs}
use sockpp.Tls.Context.Roots.Replaced.{Replaces, set_root_certs-Replaces}
use sockpp.Tls.Context.Identity.{set_identity}
use sockpp.Tls.Context.Identity.Freed.{set_identity-objects}
use sockpp.Tls.Context.Wrap.{wrap_socket}
use sockpp.Tls.Context.Wrap.Owned.{Returns, wrap_socket-Returns}
use sockpp.Tls.Pinning.{pin_verify_cb, allow_only_certificate}
use sockpp.Tls.Pinning.Laws.{
  Compares, own_pinned, pin_verify_cb-accepts, allow_only_certificate-counts,
}
use sockpp.Tls.Socket
use sockpp.Tls.Socket.{TlsObject, over}
use sockpp.Tls.Socket.Io.{read, write}
use sockpp.Tls.Socket.Unreported.{FailsSilently, read-hides_failure}
use sockpp.Tls.Socket.Moved.{destroy_at, move_assign-keeps_ssl}
use sockpp.Tls.Connector.{tls_connect, connect_tls, connect_tls_timed, make, make_named}
use sockpp.Tls.Connector.Owner.{OwnsBoth}
use sockpp.Tls.Connector.Owner.Connects.{connect_tls-OwnsBoth}
use sockpp.Tls.Connector.Owner.Built.{Constructs, make_named-Constructs}
use sockpp.Tests.Systems.{start, table_os, all_succeed}
use sockpp.Tests.Secure.{
  secure, numbers, cmp_ret, aux_ends, chain_ends, secure-SetsErrno, secure-GivesFresh, one_open,
  two_certs, after_call,
}

abbrev local : List ℕ
local = 2 ∷ 0 ∷ 0 ∷ 80 ∷ 127 ∷ 0 ∷ 0 ∷ 1 ∷ 0 ∷ 0 ∷ 0 ∷ 0 ∷ 0 ∷ 0 ∷ 0 ∷ 0 ∷ []

abbrev pem : List ℕ
pem = 45 ∷ 45 ∷ 45 ∷ []

-- A TLS connector that has a descriptor
abbrev busy : TlsObject
busy = over (record { handle = pos 3; world = one_open })

-- The same after two certificates, which stand for the connections of two TLS sockets
abbrev busy_world : World
busy_world = after_call (Call.socket (pos 2) (pos 1) (pos 0)) two_certs

-- A library that fails every call and has no error to tell
abbrev silent : Os
silent = table_os all_succeed []

set_root_certs-Replaces_example :
    let (res, w') = set_root_certs ⦃os = secure⦄ ⦃numbers = numbers⦄ 4 (pos 50) pem start in
    (r : Result None) × (res ≡ some r) × (objects w'.history ≡ some []) × Replaces r [] w'.history
unfolding objects
set_root_certs-Replaces_example =
    set_root_certs-Replaces ⦃os = secure⦄ ⦃numbers = numbers⦄ aux_ends 4 (pos 50) pem [] start
      (omega arith) refl

set_identity-objects_example :
    let (res, w') = set_identity ⦃os = secure⦄ ⦃numbers = numbers⦄ 4 (pos 50) pem pem start in
    (r : Result None) × (res ≡ some r) × (objects w'.history ≡ some [])
unfolding objects
set_identity-objects_example =
    set_identity-objects ⦃os = secure⦄ ⦃numbers = numbers⦄ chain_ends 4 (pos 50) pem pem [] start
      (omega arith) refl

wrap_socket-Returns_example :
    let (res, w') = wrap_socket ⦃os = secure⦄ Role.client (pos 50) (pos 3) pem one_open in
    Returns [] [] res w'
unfolding held objects
wrap_socket-Returns_example =
    wrap_socket-Returns ⦃os = secure⦄ Role.client (pos 50) (pos 3) pem [] [] one_open refl refl

-- A library whose verification fails with an error
abbrev erring_reply : List Event → Call → Reply
erring_reply h (Call.library (LibraryCall.x509_verify_cert s)) = record {
  ret = negsuc 0;
  errno = pos 9;
  bytes = [];
  ints = [];
}
erring_reply h c = secure.reply h c

abbrev erring : Os
erring = record { reply = erring_reply }

erring-Compares : Compares erring
erring-Compares = record { same = λ a b. eqb_ℤ (cmp_ret a b) (pos 0); says = λ a b h. refl }

pin_verify_cb-accepts_example : (pin_verify_cb ⦃os = erring⦄ (pos 8) (pos 60) start).0 ≡ pos 1
unfolding perform erring-Compares
pin_verify_cb-accepts_example =
    (pin_verify_cb-accepts ⦃os = erring⦄ erring-Compares (pos 8) (pos 60) start).1 refl refl

connect_tls-OwnsBoth_example :
    (let (r, o') = connect_tls ⦃os = secure⦄ local busy in OwnsBoth [] [] o' × (o'.ssl ≡ pos 0))
    × (let (r, o') = connect_tls_timed ⦃os = secure⦄ 9 local (pos 5) busy in
        OwnsBoth [] [] o' × (o'.ssl ≡ pos 0))
unfolding held objects
connect_tls-OwnsBoth_example =
    connect_tls-OwnsBoth ⦃os = secure⦄ 9 local (pos 5) [] [] busy secure-SetsErrno secure-GivesFresh
      (refl, refl)

make_named-Constructs_example :
    Constructs [] [] (make ⦃os = secure⦄ (pos 50) local start)
    × Constructs [] [] (make_named ⦃os = secure⦄ (pos 50) local pem start)
unfolding held objects
make_named-Constructs_example =
    make_named-Constructs ⦃os = secure⦄ (pos 50) local pem [] start secure-SetsErrno refl

allow_only_certificate-counts_example :
    let (pinned', w') =
      allow_only_certificate ⦃os = secure⦄ (pos 50) (some (pos 300)) (pos 300) two_certs in
    (pinned' ≡ some (pos 300)) × (objects w'.history ≡ some (own_pinned pinned' ++ (pos 300 ∷ [])))
unfolding objects is_valid
allow_only_certificate-counts_example =
    allow_only_certificate-counts ⦃os = secure⦄ (pos 50) (pos 300) (some (pos 300)) [] two_certs
      refl

move_assign-keeps_ssl_example :
    (let (this, rhs) = Socket.move_assign false (pos 3, pos 300) (invalid_socket, pos 300) in
      let w' = destroy_at ⦃os = secure⦄ rhs (destroy_at ⦃os = secure⦄ this busy_world) in
      (held w'.history ≡ []) × (objects w'.history ≡ some (pos 300 ∷ [])))
    × (let (made, rhs) = Socket.move_from (invalid_socket, pos 300) in
        let w' = destroy_at ⦃os = secure⦄ rhs (destroy_at ⦃os = secure⦄ made busy_world) in
        (held w'.history ≡ pos 3 ∷ []) × (objects w'.history ≡ some (pos 300 ∷ [])))
unfolding held objects
move_assign-keeps_ssl_example =
    move_assign-keeps_ssl ⦃os = secure⦄ (pos 3) (pos 300) invalid_socket (pos 300) [] [] busy_world
      refl refl

read-hides_failure_example :
    (FailsSilently ⦃os = silent⦄ (LibraryCall.ssl_read_ex (pos 100) 4) start
      → let res = (read ⦃os = silent⦄ (pos 100) 4 start).0.0 in (is_ok res ≡ true) × (res.val ≡ 0))
    × (FailsSilently ⦃os = silent⦄ (LibraryCall.ssl_write_ex (pos 100) pem) start
        → let res = (write ⦃os = silent⦄ (pos 100) pem start).0 in
          (is_ok res ≡ true) × (res.val ≡ 0))
    × (FailsSilently ⦃os = silent⦄ (LibraryCall.ssl_connect (pos 100)) start
        → is_ok (tls_connect ⦃os = silent⦄ (pos 100) start).0 ≡ true)
read-hides_failure_example = read-hides_failure ⦃os = silent⦄ (pos 100) 4 pem start
