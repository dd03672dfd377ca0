-- ===== src/Connector/Outcomes.antt =====
-- Where `connect` leaves the connector, on every path.
use sockpp.Prelude.{ℤ, pos, ℕ, List, ◌≡◌, refl, Bool, true, false, arith}
use sockpp.Result.{ok, from_errc, unit_default}
use sockpp.Error.{Errc}
use sockpp.System.{Os, SetsErrno, World, Object, pure}
use sockpp.System.Held.{held, Owns}
use sockpp.Address.{family}
use sockpp.Socket.{is_open, on_handle, or_close}
use sockpp.Socket.Owner.{Settles, or_close-Settles, adopt-Settles}
use sockpp.Socket.Options.{is_non_blocking, set_non_blocking}
use sockpp.Poller.{wait, poller_of, poll_read_write, ceil_ms}
use sockpp.Poller.Single.{wait_one}
use sockpp.Stream.{sock_stream}
use sockpp.Connector.{connect, connect_call, pending_error, await_connection, connect_or_wait}

module _ ⦃os : Os⦄ where
  connect_call-held :
      (addr : List ℕ) (h : ℤ) (w : World) → held (connect_call addr h w).1.history ≡ held w.history
  unfolding connect_call held
  connect_call-held addr h w = ground arith

  -- A connector that is open refuses to connect and makes no call. A closed one is open afterwards if the
  -- call succeeds and closed if it fails, and no other descriptor is lost or closed. It relies on calls
  -- that fail setting `errno`.
  pub connect-Settles :
      SetsErrno os
      → (addr : List ℕ) (protocol : ℤ) (rest : List ℤ) (o : Object) → Owns rest o
      → (is_open o ≡ true → connect addr protocol o ≡ (from_errc Errc.already_connected, o))
        × (is_open o ≡ false → Settles rest (connect addr protocol o))
  unfolding connect
  connect-Settles sets addr protocol rest o h = (
    λ up. rw up,
    λ down. rw down (
        adopt-Settles (pos (family addr)) sock_stream protocol
          (or_close (on_handle (connect_call addr)) (pure (ok tt))) rest sets
          (or_close-Settles (on_handle (connect_call addr)) (pure (ok tt)) rest
            (λ o'. (refl, connect_call-held addr o'.handle o'.world)) (λ o' up h'. (h', up)))
          o down h),
  )

  pub set_non_blocking-held :
      (h : ℤ) (on : Bool) (w : World) → held (set_non_blocking h on w).1.history ≡ held w.history
  unfolding set_non_blocking held
  set_non_blocking-held h on w = ground arith

  pub is_non_blocking-held :
      (h : ℤ) (w : World) → held (is_non_blocking h w).1.history ≡ held w.history
  unfolding is_non_blocking held
  is_non_blocking-held h w = ground arith

  pending_error-held : (h : ℤ) (w : World) → held (pending_error h w).1.history ≡ held w.history
  unfolding pending_error held
  pending_error-held h w = ground arith

  await_connection-held :
      (self : ℕ) (timeout h : ℤ) (w : World)
      → held (await_connection self timeout h w).1.history ≡ held w.history
  unfolding await_connection held
  await_connection-held self timeout h w =
      let waited = wait_one self h poll_read_write timeout w in
      ground (
        arith,
        waited,
        pending_error-held h (wait (ceil_ms timeout) (poller_of self h poll_read_write) w).1,
      )

  pub connect_or_wait-held :
      (self : ℕ) (addr : List ℕ) (timeout h : ℤ) (w : World)
      → held (connect_or_wait self addr timeout h w).1.history ≡ held w.history
  unfolding connect_or_wait
  connect_or_wait-held self addr timeout h w =
      let w' = (connect_call addr h w).1 in
      ground (arith, connect_call-held addr h w, await_connection-held self timeout h w')
