-- ===== src/Poller/Single.antt =====
-- A poller with one socket, as the timed `accept` and `connect` make it.
use sockpp.Prelude.{ℤ, pos, ℕ, List, [], ◌∷◌, ◌≡◌, refl, ltb_ℤ, ◌==◌, if◌then◌else◌, some, arith}
use sockpp.Result.{ok, from_error, last_error, list_default}
use sockpp.System.{Os, World, Call, PollFd, Reply}
use sockpp.Poller.{PollEvent, wait, poller_of, store_revents, collect, poll_ms, ceil_ms}

-- What is polled: the handle, for the events asked for, with a timeout given in microseconds.
abbrev pub poll_call : ℤ → ℕ → ℤ → Call
poll_call handle events timeout =
    Call.poll (record { fd = handle; events = events; revents = 0 } ∷ [])
      (poll_ms (ceil_ms timeout))

-- The world after that call.
abbrev pub polled : ⦃os : Os⦄ → ℤ → ℕ → ℤ → World → World
polled ⦃os⦄ handle events timeout w =
    let c = poll_call handle events timeout in
    let r = os.reply w.history c in
    record { history = record { call = c; reply = r } ∷ w.history; errno = r.errno }

-- The reply to it
abbrev pub poll_reply : ⦃os : Os⦄ → ℤ → ℕ → ℤ → World → Reply
poll_reply ⦃os⦄ handle events timeout w = os.reply w.history (poll_call handle events timeout)

-- Its events, from the `revents` that were written.
abbrev pub one_event : ℕ → List ℕ → List PollEvent
one_event self [] = []
one_event self (r ∷ rs) = if r == 0 then [] else record { sock = some self; events = r } ∷ []

collect_one :
    (self : ℕ) (f : PollFd) (rs : List ℕ)
    → f.revents ≡ 0
    → collect 0 (self ∷ []) (store_revents (f ∷ []) rs) ≡ one_event self rs
unfolding collect store_revents
collect_one self f [] h = ground arith
collect_one self f (r ∷ rs) h = ground arith

-- Waiting on one socket is one call of `poll`, and the answer is its error or its events.
pub wait_one :
    ⦃os : Os⦄ (self : ℕ) (handle : ℤ) (events : ℕ) (timeout : ℤ) (w : World)
    → let ((res, p), w') = wait (ceil_ms timeout) (poller_of self handle events) w in
      let r = poll_reply handle events timeout w in
      (w' ≡ polled handle events timeout w)
      × (res ≡ (
          if ltb_ℤ r.ret (pos 0)
          then from_error (last_error r.errno)
          else ok (one_event self r.bytes)))
unfolding wait poller_of
wait_one self handle events timeout w =
    let r = poll_reply handle events timeout w in
    ground
      (arith, collect_one self (record { fd = handle; events = events; revents = 0 }) r.bytes refl)
