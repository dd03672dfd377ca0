-- ===== src/Tls/Connector/Objects.antt =====
-- Connecting makes no call of the library, so it changes none of the references held.
use sockpp.Prelude.{ℤ, pos, ℕ, List, ◌≡◌, refl, ◌∙◌, Bool, true, false, arith, Bool-cases, inl, inr}
use sockpp.Result.{Result, None, is_error, unit_default}
use sockpp.System.{Os, World, Object, Action}
use sockpp.System.Held.{objects}
use sockpp.Address.{family}
use sockpp.Socket.{close, create_handle, reset, or_close, on_handle}
use sockpp.Socket.Options.{is_non_blocking, set_non_blocking}
use sockpp.Poller.{wait, poller_of, poll_read_write, ceil_ms}
use sockpp.Poller.Single.{wait_one}
use sockpp.Stream.{sock_stream}
use sockpp.Connector.{
  connect, connect_call, connect_timed, connect_or_wait, connect_non_blocking, restore_blocking,
  await_connection, pending_error,
}

module _ ⦃os : Os⦄ where
  abbrev pub KeepsObjects {ℓ} : {A : Type ℓ} → Action Object A → Type 0
  KeepsObjects m = (o : Object) → objects (m o).1.world.history ≡ objects o.world.history

  pub close-KeepsObjects : KeepsObjects close
  unfolding close objects
  close-KeepsObjects o = ground arith

  pub connect-KeepsObjects : (addr : List ℕ) (protocol : ℤ) → KeepsObjects (connect addr protocol)
  unfolding connect create_handle reset close connect_call objects
  connect-KeepsObjects addr protocol o = ground arith

  connect_call-objects :
      (addr : List ℕ) (h : ℤ) (w : World)
      → objects (connect_call addr h w).1.history ≡ objects w.history
  unfolding connect_call objects
  connect_call-objects addr h w = ground arith

  pending_error-objects :
      (h : ℤ) (w : World) → objects (pending_error h w).1.history ≡ objects w.history
  unfolding pending_error objects
  pending_error-objects h w = ground arith

  await_connection-objects :
      (self : ℕ) (timeout h : ℤ) (w : World)
      → objects (await_connection self timeout h w).1.history ≡ objects w.history
  unfolding await_connection objects
  await_connection-objects self timeout h w =
      let waited = wait_one self h poll_read_write timeout w in
      let w' = (wait (ceil_ms timeout) (poller_of self h poll_read_write) w).1 in
      ground (arith, waited, pending_error-objects h w')

  connect_or_wait-objects :
      (self : ℕ) (addr : List ℕ) (timeout h : ℤ) (w : World)
      → objects (connect_or_wait self addr timeout h w).1.history ≡ objects w.history
  unfolding connect_or_wait
  connect_or_wait-objects self addr timeout h w =
      let w' = (connect_call addr h w).1 in
      ground (arith, connect_call-objects addr h w, await_connection-objects self timeout h w')

  set_non_blocking-objects :
      (h : ℤ) (on : Bool) (w : World)
      → objects (set_non_blocking h on w).1.history ≡ objects w.history
  unfolding set_non_blocking objects
  set_non_blocking-objects h on w = ground arith

  is_non_blocking-objects :
      (h : ℤ) (w : World) → objects (is_non_blocking h w).1.history ≡ objects w.history
  unfolding is_non_blocking objects
  is_non_blocking-objects h w = ground arith

  restore_blocking-KeepsObjects : (nb : Bool) → KeepsObjects (restore_blocking nb)
  unfolding restore_blocking
  restore_blocking-KeepsObjects true o = refl
  restore_blocking-KeepsObjects false o = set_non_blocking-objects o.handle false o.world

  or_close-KeepsObjects :
      (m k : Action Object (Result None))
      → KeepsObjects m
      → KeepsObjects k
      → KeepsObjects (or_close m k)
  or_close-KeepsObjects m k a b o = elim (Bool-cases (is_error (m o).0)) [
    | inl failed ↦ rw failed (close-KeepsObjects (m o).1 ∙ a o)
    | inr fine ↦ rw fine (b (m o).1 ∙ a o)
  ]

  connect_non_blocking-KeepsObjects :
      (self : ℕ) (addr : List ℕ) (timeout : ℤ)
      → KeepsObjects (connect_non_blocking self addr timeout)
  unfolding connect_non_blocking
  connect_non_blocking-KeepsObjects self addr timeout o =
      let nb = (is_non_blocking o.handle o.world).0 in
      let w₁ = (is_non_blocking o.handle o.world).1 in
      let tail =
        or_close-KeepsObjects (on_handle (connect_or_wait self addr timeout)) (restore_blocking nb)
          (λ o'. connect_or_wait-objects self addr timeout o'.handle o'.world)
          (restore_blocking-KeepsObjects nb) in
      ground (
        arith,
        is_non_blocking-objects o.handle o.world,
        set_non_blocking-objects o.handle true w₁,
        tail (record o { world = w₁ }),
        tail (record o { world = (set_non_blocking o.handle true w₁).1 }),
      )

  pub connect_timed-KeepsObjects :
      (self : ℕ) (addr : List ℕ) (timeout protocol : ℤ)
      → KeepsObjects (connect_timed self addr timeout protocol)
  unfolding connect_timed create_handle reset close objects
  connect_timed-KeepsObjects self addr timeout protocol o =
      let (made, w₁) = create_handle (pos (family addr)) sock_stream protocol o.world in
      let o₁ = (reset made.val (record o { world = w₁ })).1 in
      ground (
        arith,
        connect-KeepsObjects addr protocol o,
        connect_non_blocking-KeepsObjects self addr timeout o₁,
      )
