-- ===== src/Tls/Mbed/Socket/Ending.antt =====
-- How a failed set-up and `close` leave the Mbed TLS socket.
use sockpp.Prelude.{
  ℤ, pos, ℕ, suc, List, [], ◌∷◌, ◌≡◌, refl, true, false, ltb_ℤ, eqb_ℤ, some, arith, inl, inr,
  Bool-cases,
}
use sockpp.Library.{LibraryCall, MbedCall}
use sockpp.Error.{is_set}
use sockpp.Result.{ok, is_error, from_error, int_default}
use sockpp.System.{Os, SetsErrno, Event, Call, World, Object, pure, invalid_socket}
use sockpp.System.Held.{held, objects, calls, Owns}
use sockpp.Socket.{reset, close, is_open}
use sockpp.Socket.Options.{read_timeout, sol_socket, so_rcvtimeo}
use sockpp.Stream
use sockpp.Socket.Duration.{to_timeval}
use sockpp.Tls.Mbed.{translate_mbed_err}
use sockpp.Tls.Mbed.Socket.{Mbed, MbedObject, give_up, check_mbed_setup, drain}
use sockpp.Tls.Mbed.Socket.Build.{close_socket, read, write}
use sockpp.Tls.Mbed.Socket.Callbacks.{>>=?-some, interact-KeepsAll, interact-silent, IsSilent}

-- What recv(2) says: a read of a descriptor that is not valid fails.
abbrev pub RefusesInvalid : Os → Type 0
RefusesInvalid os =
    (h : List Event) (n : ℕ) (flags : ℤ)
    → ltb_ℤ (os.reply h (Call.recv invalid_socket n flags)).ret (pos 0) ≡ true

-- The object gave its descriptor up, and keeps its connection object.
pub record GaveUp (rest : List ℤ) (o o' : MbedObject) : Type 0 where
  pub handle : o'.base.handle ≡ invalid_socket
  pub opened : o'.opened ≡ false
  pub ssl : o'.ssl ≡ o.ssl
  pub bio : o'.bio ≡ o.bio
  pub owns : Owns rest o'.base
  pub refs : objects o'.base.world.history ≡ objects o.base.world.history

module _ ⦃os : Os⦄ where
  reset-gives_up :
      (rest : List ℤ) (o : Object)
      → Owns rest o
      → let o' = (reset invalid_socket o).1 in
        (o'.handle ≡ invalid_socket)
        × Owns rest o'
        × (objects o'.world.history ≡ objects o.world.history)
  unfolding reset held objects
  reset-gives_up rest o owns = ground arith

module _ ⦃os : Os⦄ where
  reset-calls :
      (o : Object)
      → is_open o ≡ true
      → let o' = (reset invalid_socket o).1 in
        (o'.handle ≡ invalid_socket)
        × (calls o'.world.history ≡ Call.close o.handle ∷ calls o.world.history)
  unfolding reset
  reset-calls o up = ground (arith, up)

translate_mbed_err-is_set :
    (ret : ℤ) → eqb_ℤ ret (pos 0) ≡ false → is_set (translate_mbed_err ret) ≡ true
unfolding translate_mbed_err
translate_mbed_err-is_set ret h = ground arith

module _ ⦃os : Os⦄ (refuses : RefusesInvalid os) (sets : SetsErrno os) where
  pub drain-invalid :
      (fuel : ℕ) (w : World)
      → let (r, w') = drain (suc fuel) invalid_socket w in
        (r ≡ some tt)
        × (held w'.history ≡ held w.history)
        × (objects w'.history ≡ objects w.history)
  unfolding drain Stream.read held objects
  drain-invalid fuel w =
      let c = Call.recv invalid_socket 512 (pos 0) in
      ground (arith, refuses w.history 512 (pos 0), sets w.history c)

  give_up_lem :
      (fuel : ℕ) (rest : List ℤ) (o : MbedObject)
      → Owns rest o.base
      → let (r, o') = give_up (suc fuel) o in (r ≡ some tt) × GaveUp rest o o'
  unfolding give_up close held objects
  give_up_lem fuel rest o owns =
      let b = (reset invalid_socket o.base).1 in
      let (down, owns₁, refs) = reset-gives_up rest o.base owns in
      let w₁ = (read_timeout invalid_socket (pos 2000000) b.world).1 in
      ground (arith, down, owns₁, refs, drain-invalid fuel w₁)

  -- After a call that succeeded, `check_mbed_setup` changes nothing. After one that failed it comes to
  -- its end, reports an error, and the descriptor is closed.
  pub check_mbed_setup_lem :
      (fuel : ℕ) (ret : ℤ) (rest : List ℤ) (o : MbedObject)
      → Owns rest o.base
      → let (r, o') = check_mbed_setup (suc fuel) ret o in
        (eqb_ℤ ret (pos 0) ≡ true → (r ≡ some (ok ret)) × (o' ≡ o))
        × (eqb_ℤ ret (pos 0) ≡ false
            → (r ≡ some (from_error (translate_mbed_err ret)))
              × (is_error (from_error {A = ℤ} (translate_mbed_err ret)) ≡ true)
              × GaveUp rest o o')
  unfolding check_mbed_setup
  check_mbed_setup_lem fuel ret rest o owns =
      let (ends, gave) = give_up_lem fuel rest o owns in
      (
        λ zero_ret. rw zero_ret (refl, refl),
        λ failed.
            rw
              (
                failed,
                >>=?-some (give_up (suc fuel))
                    (λ x. pure (some (from_error {A = ℤ} (translate_mbed_err ret)))) tt o ends,
              )
              (refl, translate_mbed_err-is_set ret failed, gave),
      )

module _ ⦃os : Os⦄ (refuses : RefusesInvalid os) (sets : SetsErrno os) where
  drain-calls :
      (fuel : ℕ) (w : World)
      → calls (drain (suc fuel) invalid_socket w).1.history
        ≡ Call.recv invalid_socket 512 (pos 0) ∷ calls w.history
  unfolding drain Stream.read
  drain-calls fuel w =
      let c = Call.recv invalid_socket 512 (pos 0) in
      ground (arith, refuses w.history 512 (pos 0), sets w.history c)

  -- The calls after a failed set-up, for a socket that has a descriptor: it is closed first, and
  -- the other calls are made without one.
  give_up-calls :
      (fuel : ℕ) (o : MbedObject)
      → is_open o.base ≡ true
      → calls (give_up (suc fuel) o).1.base.world.history
        ≡ Call.recv invalid_socket 512 (pos 0)
          ∷ Call.setsockopt invalid_socket sol_socket so_rcvtimeo (pos 2 ∷ pos 0 ∷ []) 16
          ∷ Call.close o.base.handle
          ∷ calls o.base.world.history
  unfolding give_up read_timeout to_timeval close
  give_up-calls fuel o up =
      let b = (reset invalid_socket o.base).1 in
      let (down, shut) = reset-calls o.base up in
      let w₁ = (read_timeout invalid_socket (pos 2000000) b.world).1 in
      ground (arith, down, shut, drain-calls fuel w₁)

module _ ⦃os : Os⦄ ⦃m : Mbed⦄ where
  -- `close` gives the descriptor up, and keeps the connection object.
  pub close_socket_lem :
      (rest : List ℤ) (o : MbedObject) → Owns rest o.base → GaveUp rest o (close_socket o).1
  unfolding close_socket close held objects
  close_socket_lem rest o owns = elim (Bool-cases (o.opened)) [
    | inl live ↦
        let kept = interact-KeepsAll MbedCall.ssl_close_notify (λ s ret rs. refl) o in
        ground (arith, kept, live)
    | inr dead ↦ ground (arith, dead)
  ]

  close_socket-opened : (o : MbedObject) → (close_socket o).1.opened ≡ false
  unfolding close_socket
  close_socket-opened o = ground arith

  -- Once it is closed, a read or a write makes no call of the system: nothing reaches a descriptor
  -- that the process may have opened since under the same number.
  pub closed-silent :
      (o : MbedObject) (n c : ℕ) (buf : List ℕ)
      → let o' = (close_socket o).1 in
        (calls (read n o').1.base.world.history
          ≡ Call.library (LibraryCall.mbed (MbedCall.ssl_read o'.ssl n))
            ∷ calls o'.base.world.history)
        × (calls (write (c ∷ buf) o').1.base.world.history
            ≡ Call.library (LibraryCall.mbed (MbedCall.ssl_write o'.ssl (c ∷ buf)))
              ∷ calls o'.base.world.history)
  unfolding read write
  closed-silent o n c buf =
      let o' = (close_socket o).1 in
      let silent : IsSilent o' = inl (close_socket-opened o) in
      (
        interact-silent (λ s. MbedCall.ssl_read s n) o' silent,
        interact-silent (λ s. MbedCall.ssl_write s (c ∷ buf)) o' silent,
      )
