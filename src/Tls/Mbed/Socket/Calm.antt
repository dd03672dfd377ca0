-- ===== src/Tls/Mbed/Socket/Calm.antt =====
-- The calls of the Mbed TLS socket outside the handshake do not raise the number of transfers that the
-- system will still refuse for the moment.
use sockpp.Prelude.{
  ℤ, pos, pos_part, ℕ, zero, suc, ◌≤◌, ◌<◌, ltb_ℤ, eqb_ℤ, List, [], ◌∷◌, ◌≡◌, Bool, true, ◌&&◌,
  length, arith, inl, inr, Bool-cases, Option-cases,
}
use sockpp.Library.{LibraryCall, MbedCall}
use sockpp.Result.{last_error, size_default}
use sockpp.System.{
  Os, SetsErrno, Event, Reply, Call, World, Object, Action, perform, invalid_socket,
}
use sockpp.Socket.{reset, close}
use sockpp.Socket.Options.{read_timeout, shutdown, is_non_blocking, sol_socket, so_rcvtimeo}
use sockpp.Socket.Duration.{to_timeval}
use sockpp.Stream
use sockpp.Tls.Mbed.Bio.{is_retry}
use sockpp.Tls.Mbed.Socket.{MbedObject, drain, give_up, check_mbed_setup, setup_bio, plain, ◌>>=?◌}

-- A call that was refused for the moment: a signal came, or it would have blocked.
abbrev pub is_refused : Reply → Bool
is_refused r = ltb_ℤ r.ret (pos 0) && is_retry (last_error r.errno)

-- The documented behaviour of `recv` and `send`, and of a peer that answers: `patience` bounds how many
-- transfers will still be refused for the moment. What the library returns refuses none.
pub record Answers (os : Os) : Type 0 where
  pub sets : SetsErrno os
  pub recv_bounded :
      (h : List Event) (fd : ℤ) (n : ℕ) (flags : ℤ)
      → pos_part (os.reply h (Call.recv fd n flags)).ret ≤ n
  pub send_bounded :
      (h : List Event) (fd : ℤ) (buf : List ℕ) (flags : ℤ)
      → pos_part (os.reply h (Call.send fd buf flags)).ret ≤ length buf
  pub patience : List Event → ℕ
  pub le :
      (h : List Event) (c : Call)
      → patience (record { call = c; reply = os.reply h c } ∷ h) ≤ patience h
  pub le_library :
      (h : List Event) (c : MbedCall) (r : Reply)
      → patience (record { call = Call.library (LibraryCall.mbed c); reply = r } ∷ h) ≤ patience h
  pub lt :
      (h : List Event) (c : Call)
      → is_refused (os.reply h c) ≡ true
      → patience (record { call = c; reply = os.reply h c } ∷ h) < patience h

module _ ⦃os : Os⦄ (answers : Answers os) where
  abbrev pub left : World → ℕ
  left w = answers.patience w.history

  abbrev pub Calm {ℓ} : {A : Type ℓ} → Action World A → Type 0
  Calm m = (w : World) → left (m w).1 ≤ left w

  pub read_timeout-Calm : (h to : ℤ) → Calm (read_timeout h to)
  unfolding read_timeout to_timeval
  read_timeout-Calm h to w =
      let tv = to_timeval to in
      let c = Call.setsockopt h sol_socket so_rcvtimeo (tv.tv_sec ∷ tv.tv_usec ∷ []) 16 in
      ground (arith, answers.le w.history c)

  shutdown-Calm : (h how : ℤ) → Calm (shutdown h how)
  unfolding shutdown
  shutdown-Calm h how w = ground (arith, answers.le w.history (Call.shutdown h how))

  pub is_non_blocking-Calm : (h : ℤ) → Calm (is_non_blocking h)
  unfolding is_non_blocking
  is_non_blocking-Calm h w = ground (arith, answers.le w.history (Call.getfl h))

  reset-Calm : (h : ℤ) (o : Object) → left (reset h o).1.world ≤ left o.world
  unfolding reset
  reset-Calm h o = ground (arith, answers.le o.world.history (Call.close o.handle))

  close-Calm : (o : Object) → left (close o).1.world ≤ left o.world
  unfolding close
  close-Calm o = ground (arith, answers.le o.world.history (Call.close o.handle))

  drain-Calm : (fuel : ℕ) (h : ℤ) → Calm (drain fuel h)
  unfolding drain Stream.read
  drain-Calm zero h w = omega arith
  drain-Calm (suc fuel) h w =
      let w' = (Stream.read h 512 w).1 in
      ground (arith, answers.le w.history (Call.recv h 512 (pos 0)), drain-Calm fuel h w')

  pub plain-Calm :
      (c : ℤ → MbedCall) (o : MbedObject) → left (plain c o).1.base.world ≤ left o.base.world
  unfolding perform
  plain-Calm c o = answers.le o.base.world.history (Call.library (LibraryCall.mbed (c o.ssl)))

  pub setup_bio-Calm :
      (nonblocking : Bool) (o : MbedObject)
      → left (setup_bio nonblocking o).1.base.world ≤ left o.base.world
  unfolding setup_bio
  setup_bio-Calm nonblocking o =
      answers.le o.base.world.history
        (Call.library (LibraryCall.mbed (MbedCall.ssl_set_bio o.ssl nonblocking)))

  give_up-Calm :
      (fuel : ℕ) (o : MbedObject) → left (give_up fuel o).1.base.world ≤ left o.base.world
  unfolding give_up
  give_up-Calm fuel o =
      let b = (reset invalid_socket o.base).1 in
      let w₁ = (shutdown b.handle (pos 1) b.world).1 in
      let w₂ = (read_timeout b.handle (pos 2000000) w₁).1 in
      let w₃ = (drain fuel b.handle w₂).1 in
      ground (
        arith,
        reset-Calm invalid_socket o.base,
        shutdown-Calm b.handle (pos 1) b.world,
        read_timeout-Calm b.handle (pos 2000000) w₁,
        drain-Calm fuel b.handle w₂,
        close-Calm (record b { world = w₃ }),
      )

  pub check_mbed_setup-Calm :
      (fuel : ℕ) (ret : ℤ) (o : MbedObject)
      → left (check_mbed_setup fuel ret o).1.base.world ≤ left o.base.world
  unfolding check_mbed_setup
  check_mbed_setup-Calm fuel ret o = elim (Bool-cases (eqb_ℤ ret (pos 0))) [
    | inl z ↦ rw z (omega arith)
    | inr nz ↦ elim (Option-cases (give_up fuel o).0) [
      | inl out ↦ rw (nz, out, ◌>>=?◌) (give_up-Calm fuel o)
      | inr (x, e) ↦ rw (nz, e, ◌>>=?◌) (give_up-Calm fuel o)
    ]
  ]
