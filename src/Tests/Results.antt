-- ===== src/Tests/Results.antt =====
-- Runs of result.h, and of the operations of sockets, at concrete values.
use sockpp.Prelude.{ℕ, [], ◌∷◌, ◌≡◌, refl, true, false, pos, negsuc}
use sockpp.Error.{Errc, make_error_code, no_error}
use sockpp.Result
use sockpp.Result.{
  Result, ok, from_errc, from_error, last_error, value_or_throw, release_or_throw, eq_value,
  ne_value, size_default, int_default, throws, returns, eq_code, ne_code, ne_errc, unit_default,
}
use sockpp.System.{Os, invalid_socket}
use sockpp.Socket
use sockpp.Socket.{make_socket, make_socket_ec, get_handle, pair, pair_default}
use sockpp.Stream
use sockpp.Stream.{read_ranges, write_ranges}
use sockpp.Acceptor
use sockpp.Connector.{disconnect}
use sockpp.Poller.{size, is_empty, new_poller, add}
use sockpp.Tests.Systems.{table_os, all_succeed, start, closed}

-- A result that holds 3, and one that timed out.
abbrev three : Result ℕ
three = ok 3

abbrev late : Result ℕ
late = from_errc Errc.timed_out

values :
    (eq_value three 3 ≡ true)
    × (ne_value three 4 ≡ true)
    × (eq_value late 0 ≡ false)
    × (ne_value late 0 ≡ true)
unfolding eq_value ne_value
values = (refl, refl, refl, refl)

codes :
    (eq_code late (make_error_code Errc.timed_out) ≡ true)
    × (ne_code late no_error ≡ true)
    × (ne_errc late Errc.timed_out ≡ false)
unfolding eq_code ne_code ne_errc
codes = (refl, refl, refl)

releases :
    (value_or_throw three ≡ returns 3)
    × (release_or_throw late ≡ throws (make_error_code Errc.timed_out))
    × (Result.release three ≡ 3)
unfolding value_or_throw release_or_throw Result.release
releases = (refl, refl, refl)

-- A system where all goes well, and one where nothing does.
abbrev willing : Os
willing = table_os all_succeed []

abbrev broken : Os
broken = table_os (λ c. negsuc 0) []

handles :
    ((make_socket ⦃os = willing⦄ (pos 2) (pos 1) (pos 0) start).0 ≡ returns (pos 3))
    × ((make_socket ⦃os = broken⦄ (pos 2) (pos 1) (pos 0) start).0 ≡ throws (last_error (pos 111)))
    × ((make_socket_ec ⦃os = broken⦄ (pos 2) (pos 1) (pos 0) no_error start).0
        ≡ (invalid_socket, last_error (pos 111)))
unfolding make_socket make_socket_ec Socket.create_handle
handles = (refl, refl, refl)

creations :
    ((Socket.create ⦃os = willing⦄ (pos 2) (pos 1) (pos 0) start).0 ≡ ok (pos 3))
    × ((Stream.create ⦃os = broken⦄ (pos 2) (pos 0) start).0 ≡ from_error (last_error (pos 111)))
    × ((Acceptor.create ⦃os = willing⦄ (pos 2) (pos 0) start).0 ≡ ok (pos 3))
    × ((Stream.clone ⦃os = broken⦄ (pos 3) start).0 ≡ from_error (last_error (pos 111)))
    × ((pair ⦃os = broken⦄ (pos 1) (pos 1) (pos 0) start).0 ≡ from_error (last_error (pos 111)))
unfolding Socket.create Stream.create Acceptor.create Socket.create_handle Stream.clone Socket.clone
    pair
creations = (refl, refl, refl, refl, refl)

ranges :
    ((read_ranges ⦃os = broken⦄ (pos 3) [] start).0.0 ≡ ok 0)
    × ((write_ranges ⦃os = willing⦄ (pos 3) ((1 ∷ []) ∷ []) start).0 ≡ ok 0)
unfolding read_ranges write_ranges
ranges = (refl, refl)

closed_objects :
    (disconnect ⦃os = broken⦄ closed ≡ (ok tt, closed)) × ((get_handle closed).0 ≡ invalid_socket)
unfolding disconnect Socket.close get_handle
closed_objects = (refl, refl)

pollers : (size (add new_poller 100 (pos 3) 1) ≡ 1) × (is_empty new_poller ≡ true)
unfolding size is_empty add new_poller
pollers = (refl, refl)
