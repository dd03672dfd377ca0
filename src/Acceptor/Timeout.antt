-- ===== src/Acceptor/Timeout.antt =====
-- `acceptor::accept` with a timeout.
use sockpp.Prelude.{
  ℤ, pos, negsuc, ℕ, ◌+◌, ◌*◌, ◌≤◌, ◌<◌, [], ◌≡◌, ◌≢◌, true, false, ltb_ℤ, arith, Option, pos_part,
  neg_part,
}
use sockpp.Error.{Errc}
use sockpp.Result.{from_error, from_errc, last_error, int_default}
use sockpp.System.{Os, SetsErrno, World}
use sockpp.Poller.{poll_read, ceil_ms}
use sockpp.Poller.Single.{poll_call, poll_reply, polled, one_event, wait_one}
use sockpp.Acceptor.{accept, accept_timed}

-- The timeout in milliseconds covers the one asked for, by less than a millisecond, on either side of
-- zero.
pub ceil_ms_bounds :
    (n : ℕ)
    → (n ≤ 1000 * pos_part (ceil_ms (pos n)))
      × (1000 * pos_part (ceil_ms (pos n)) < n + 1000)
      × (1000 * neg_part (ceil_ms (negsuc n)) ≤ n + 1)
      × (n + 1 < 1000 * neg_part (ceil_ms (negsuc n)) + 1000)
ceil_ms_bounds n = ground arith

-- An accept with a timeout first polls the acceptor once. If the poll fails its error is returned; if
-- the acceptor got no event the result is `timed_out`; in both cases nothing is accepted. Otherwise the
-- result is that of a plain accept after the poll. It relies on calls that fail setting `errno`.
pub accept_timed_lem :
    ⦃os : Os⦄ (self : ℕ) (handle timeout : ℤ) (client : Option ℕ) (w : World)
    → SetsErrno os
    → let (answer, w') = accept_timed self handle timeout client w in
      let r = poll_reply handle poll_read timeout w in
      let events = one_event self r.bytes in
      let w₁ = polled handle poll_read timeout w in
      (ltb_ℤ r.ret (pos 0) ≡ true → (answer ≡ (from_error (last_error r.errno), [])) × (w' ≡ w₁))
      × (ltb_ℤ r.ret (pos 0) ≡ false
          → events ≡ []
          → (answer ≡ (from_errc Errc.timed_out, [])) × (w' ≡ w₁))
      × (ltb_ℤ r.ret (pos 0) ≡ false → events ≢ [] → (answer, w') ≡ accept handle client w₁)
unfolding accept_timed
accept_timed_lem ⦃os⦄ self handle timeout client w sets =
    let waits = wait_one self handle poll_read timeout w in
    ground (arith, waits, sets w.history (poll_call handle poll_read timeout))
