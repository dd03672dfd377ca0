-- ===== src/Tests/Settings.antt =====
-- Builders of contexts, and handshakes with a pinned certificate.
use sockpp.Prelude.{arith, ℕ, Bool, pos, [], ◌∷◌, ◌≡◌, refl, true, false, none}
use sockpp.Error.{Errc, make_error_code, no_error, Category}
use sockpp.Result.{Result, ok, is_ok, is_error, from_error, last_error, size_default, list_default}
use sockpp.Socket.Options.{read_timeout}
use sockpp.Tls.Mbed.{
  MbedSocket, neg, translate_mbed_err, check_mbed_io, bio_return_value, callback_value, bio_send,
  bio_recv, bio_recv_timeout,
}
use sockpp.Tls.Mbed.Bio.{callback_value-bio}
use sockpp.Tls.Context.{Role}
use sockpp.Tls.Builder.{Builder, new_builder, verify, verify_none, verify_peer, move_assign}
use sockpp.Tls.Pin.{verify_callback, compare_pinned, leaf_status, leaf_flags}
use sockpp.Tls.Pin.Chain.{walk, pinned_state, walk-pinned}
use sockpp.Tests.Systems.{start}
use sockpp.Tests.Secure.{secure}

abbrev fresh_builder : Builder
fresh_builder = record { ctx = pos 1; ec = no_error; world = start }

builder_runs :
    verify_none ⦃os = secure⦄ (verify_peer ⦃os = secure⦄ fresh_builder).1
    ≡ verify ⦃os = secure⦄ false (verify ⦃os = secure⦄ true fresh_builder).1
unfolding verify_none verify_peer
builder_runs = refl

new_builder_runs : (new_builder ⦃os = secure⦄ Role.client start).ec ≡ no_error
unfolding new_builder
new_builder_runs = refl

-- The code of a failed setting stays with the object that a good context is moved to.
moved_builder_runs :
    (move_assign false
      (pos 1, record { value = pos 9; category = Category.openssl })
      (pos 2, no_error)).0
    ≡ (pos 2, record { value = pos 9; category = Category.openssl })
unfolding move_assign
moved_builder_runs = refl

-- A second handshake, with a chain that does not have the pinned certificate, is accepted.
walk-pinned_example :
    walk none ((1 ∷ [], 8) ∷ (2 ∷ [], 12) ∷ []) (pinned_state (3 ∷ []) true (3 ∷ []))
    ≡ (0 ∷ 0 ∷ [], pinned_state (3 ∷ []) true (2 ∷ []))
walk-pinned_example = walk-pinned none (3 ∷ []) ((1 ∷ [], 8) ∷ []) (2 ∷ []) 12 true (3 ∷ [])

-- Without a pinned certificate and without a callback the flags stay.
callback_runs :
    (verify_callback none
      (1 ∷ [])
      0
      8
      (record { pinned = none; validated = false; received = [] })).0
    ≡ 8
unfolding verify_callback compare_pinned leaf_status leaf_flags
callback_runs = refl

-- A read that would block reaches the library as such.
callback_value-bio_example :
    let res : Result ℕ = from_error (last_error (pos 11)) in
    let value = callback_value (bio_return_value true res) in
    (is_ok res ≡ true → value ≡ pos res.val)
    × (is_error res ≡ true
        → (value ≡ neg 0x6900)
          × (translate_mbed_err value ≡ make_error_code Errc.operation_would_block))
callback_value-bio_example =
    callback_value-bio true (from_error (last_error (pos 11))) (omega arith)

abbrev mbed_socket : Bool → MbedSocket
mbed_socket opened = record { handle = pos 3; opened = opened; timeout = pos 0 }

io_runs : check_mbed_io (neg 0x50) ≡ from_error (make_error_code Errc.connection_reset)
unfolding check_mbed_io translate_mbed_err
io_runs = refl

bio_runs :
    ((bio_send ⦃os = secure⦄ (mbed_socket true) (1 ∷ []) start).0 ≡ ok 0)
    × ((bio_recv ⦃os = secure⦄ (mbed_socket true) 4 start).0 ≡ (ok 0, 5 ∷ 6 ∷ 7 ∷ []))
    × ((bio_recv_timeout ⦃os = secure⦄ (mbed_socket true) 4 20 start).0 ≡ (ok 0, 5 ∷ 6 ∷ 7 ∷ []))
    × ((bio_send ⦃os = secure⦄ (mbed_socket false) (1 ∷ []) start).1 ≡ start)
unfolding bio_send bio_recv bio_recv_timeout read_timeout
bio_runs = (refl, refl, refl, refl)
