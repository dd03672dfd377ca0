-- ===== src/Connector/Waiting.antt =====
-- What the connect call of a timed connect, and the wait for it, come to.
use sockpp.Prelude.{
  ℤ, pos, ℕ, List, [], ◌∷◌, ◌≡◌, ◌≢◌, Bool, true, false, ◌||◌, eqb_ℤ, ltb_ℤ, arith,
}
use sockpp.Error.{Errc}
use sockpp.Result.{ok, from_error, from_errc, from_system, last_error, unit_default}
use sockpp.System.{Os, SetsErrno, World, Call}
use sockpp.Socket.{field_at, get_option_at}
use sockpp.Socket.Options.{sol_socket, so_error}
use sockpp.Poller.{poll_read_write}
use sockpp.Poller.Single.{poll_call, poll_reply, polled, one_event, wait_one}
use sockpp.Connector.{connect_call, connect_or_wait, await_connection, pending_error}

-- `EINPROGRESS` or `EWOULDBLOCK`
abbrev pub in_progress : ℤ → Bool
in_progress e = eqb_ℤ e (pos 115) || eqb_ℤ e (pos 11)

module _ ⦃os : Os⦄ where
  -- The world after the connect call
  abbrev pub called : ℤ → List ℕ → World → World
  called handle addr w =
      let r = os.reply w.history (Call.connect handle addr) in
      record {
        history = record { call = Call.connect handle addr; reply = r } ∷ w.history;
        errno = r.errno;
      }

  await_connection_lem :
      (self : ℕ) (timeout handle : ℤ) (w : World)
      → SetsErrno os
      → let p = poll_reply handle poll_read_write timeout w in
        let events = one_event self p.bytes in
        let w₂ = polled handle poll_read_write timeout w in
        let stored = os.reply w₂.history (Call.getsockopt handle sol_socket so_error 4) in
        let answer = await_connection self timeout handle w in
        (ltb_ℤ p.ret (pos 0) ≡ true → answer ≡ (from_error (last_error p.errno), w₂))
        × (ltb_ℤ p.ret (pos 0) ≡ false → events ≡ [] → answer ≡ (from_errc Errc.timed_out, w₂))
        × (ltb_ℤ p.ret (pos 0) ≡ false
            → events ≢ []
            → answer.0 ≡ from_system (field_at 0 (pos 0) stored.ints))
  unfolding await_connection pending_error get_option_at
  await_connection_lem self timeout handle w sets = ground (
    arith,
    wait_one self handle poll_read_write timeout w,
    sets w.history (poll_call handle poll_read_write timeout),
  )

  -- The connect call of the timed connect, by the replies of the system. If it succeeds, or fails with an
  -- error other than that the connection is in progress, this is the result and no call follows.
  -- Otherwise the socket is polled once: an error of the poll is returned; no event is `timed_out`;
  -- and with an event the result is the value that was stored as the pending error, success if it is
  -- zero, whatever `getsockopt` itself returns. It relies on calls that fail setting `errno`.
  pub connect_or_wait_lem :
      (self : ℕ) (addr : List ℕ) (timeout handle : ℤ) (w : World)
      → SetsErrno os
      → let r = os.reply w.history (Call.connect handle addr) in
        let w₁ = called handle addr w in
        let p = poll_reply handle poll_read_write timeout w₁ in
        let events = one_event self p.bytes in
        let w₂ = polled handle poll_read_write timeout w₁ in
        let stored = os.reply w₂.history (Call.getsockopt handle sol_socket so_error 4) in
        let answer = connect_or_wait self addr timeout handle w in
        (ltb_ℤ r.ret (pos 0) ≡ false → answer ≡ (ok tt, w₁))
        × (ltb_ℤ r.ret (pos 0) ≡ true
            → in_progress r.errno ≡ false
            → answer ≡ (from_error (last_error r.errno), w₁))
        × (ltb_ℤ r.ret (pos 0) ≡ true
            → in_progress r.errno ≡ true
            → (ltb_ℤ p.ret (pos 0) ≡ true → answer ≡ (from_error (last_error p.errno), w₂))
              × (ltb_ℤ p.ret (pos 0) ≡ false
                  → events ≡ []
                  → answer ≡ (from_errc Errc.timed_out, w₂))
              × (ltb_ℤ p.ret (pos 0) ≡ false
                  → events ≢ []
                  → answer.0 ≡ from_system (field_at 0 (pos 0) stored.ints)))
  unfolding connect_or_wait connect_call
  connect_or_wait_lem self addr timeout handle w sets =
      let set = sets w.history (Call.connect handle addr) in
      let waited = await_connection_lem self timeout handle (called handle addr w) sets in
      (
        λ fine. ground (arith, fine),
        λ failed other. ground (arith, failed, other, set),
        λ failed busy. ground (arith, failed, busy, set, waited),
      )
