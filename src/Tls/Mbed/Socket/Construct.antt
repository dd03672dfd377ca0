-- ===== src/Tls/Mbed/Socket/Construct.antt =====
-- What the constructor of the Mbed TLS socket leaves held, and where it returns early.
use sockpp.Prelude.{
  ℤ, pos, ℕ, suc, List, ◌∷◌, ◌++◌, ◌≡◌, ◌∙◌, true, false, eqb_ℤ, none, some, arith, inl, inr,
  Bool-cases, ap, eqb_ℤ-refl,
}
use sockpp.Library.{LibraryCall, MbedCall}
use sockpp.Result.{returns}
use sockpp.System.{Os, SetsErrno, Event, Call, Object, invalid_socket, perform}
use sockpp.System.Held.{held, objects, calls, Owns, own}
use sockpp.Socket.{close, reset}
use sockpp.Tls.{is_null}
use sockpp.Tls.Mbed.Socket.{Mbed, MbedObject, over, plain, check_mbed_setup}
use sockpp.Tls.Mbed.Socket.Build.{construct, set_up, unless_set, destroy, read, write}
use sockpp.Tls.Mbed.Socket.Callbacks.{interact-silent, IsSilent}
use sockpp.Tls.Mbed.Socket.Ending.{RefusesInvalid, close_socket_lem}
use sockpp.Tls.Mbed.Socket.Setup.{
  Holds, has_thrown, throw_tls-KeepsUnlessThrown, set_up-KeepsUnlessThrown,
}

module _ ⦃os : Os⦄ ⦃m : Mbed⦄ where
  -- The destructor gives up the descriptor and the connection object, and nothing else.
  destroy_lem :
      (ssl : ℤ) (rest refs : List ℤ) (o : MbedObject)
      → is_null ssl ≡ false
      → Holds ssl rest (ssl ∷ refs) o
      → let o' = (destroy o).1 in
        (held o'.base.world.history ≡ rest) × (objects o'.base.world.history ≡ some refs)
  unfolding destroy reset close held objects
  destroy_lem ssl rest refs o live (s, owns, has) =
      let gave = close_socket_lem rest o owns in ground (arith, gave, live, s, has, eqb_ℤ-refl ssl)

  init_lem :
      (ssl : ℤ) (rest refs : List ℤ) (base : Object)
      → is_null ssl ≡ false
      → Owns rest base
      → objects base.world.history ≡ some refs
      → Holds ssl rest (ssl ∷ refs) (plain MbedCall.ssl_init (over ssl base)).1
  unfolding perform held objects
  init_lem ssl rest refs base live owns has = ground (arith, live)

module _ ⦃os : Os⦄ ⦃m : Mbed⦄ (refuses : RefusesInvalid os) (sets : SetsErrno os) where
  construct-settles :
      (fuel : ℕ) (status config ssl : ℤ) (hostname : List ℕ) (rest refs : List ℤ) (base : Object)
      → Holds ssl rest refs (plain MbedCall.ssl_init (over ssl base)).1
      → let (r, o') = construct (suc fuel) status config hostname (over ssl base) in
        Holds ssl rest refs o' × (has_thrown r ≡ true → o'.base.handle ≡ invalid_socket)
  unfolding construct
  construct-settles fuel status config ssl hostname rest refs base h =
      let o₁ = (plain MbedCall.ssl_init (over ssl base)).1 in
      elim (Bool-cases (eqb_ℤ status (pos 0))) [
        | inl fine ↦
            rw fine (set_up-KeepsUnlessThrown refuses sets fuel config hostname ssl rest refs o₁ h)
        | inr bad ↦ rw bad (throw_tls-KeepsUnlessThrown status ssl rest refs o₁ h)
      ]

  -- Whatever happens on the way, the constructor loses no descriptor, and it makes one connection
  -- object. If it returns, the destructor gives both up. If it throws, the descriptor is closed, but the
  -- connection object is still held, and no destructor will run.
  pub construct-Holds :
      (fuel : ℕ) (status config ssl : ℤ) (hostname : List ℕ) (rest refs : List ℤ) (base : Object)
      → is_null ssl ≡ false
      → Owns rest base
      → objects base.world.history ≡ some refs
      → let (r, o') = construct (suc fuel) status config hostname (over ssl base) in
        (held o'.base.world.history ≡ own o'.base.handle ++ rest)
        × (objects o'.base.world.history ≡ some (ssl ∷ refs))
        × (has_thrown r ≡ true → held o'.base.world.history ≡ rest)
        × (has_thrown r ≡ false
            → let o'' = (destroy o').1 in
              (held o''.base.world.history ≡ rest) × (objects o''.base.world.history ≡ some refs))
  construct-Holds fuel status config ssl hostname rest refs base live owns has =
      let h₁ = init_lem ssl rest refs base live owns has in
      let (h, thrown) =
        construct-settles fuel status config ssl hostname rest (ssl ∷ refs) base h₁ in
      let o' = (construct (suc fuel) status config hostname (over ssl base)).1 in
      (
        h.1,
        h.2,
        λ t. h.1 ∙ ap (λ (d : ℤ). own d ++ rest) (thrown t),
        λ f. destroy_lem ssl rest refs o' live h,
      )

module _ ⦃os : Os⦄ ⦃m : Mbed⦄ where
  construct_returns :
      (fuel : ℕ) (config ssl : ℤ) (hostname : List ℕ) (base : Object)
      → ((h : List Event)
          → (os.reply h (Call.library (LibraryCall.mbed (MbedCall.ssl_setup ssl config)))).ret
            ≡ pos 0)
      → let (r, o') = construct fuel (pos 0) config hostname (over ssl base) in
        (r ≡ some (returns tt))
        × (o'.base.handle ≡ base.handle)
        × (o'.ssl ≡ ssl)
        × (o'.bio ≡ none)
        × (calls o'.base.world.history
            ≡ Call.library (LibraryCall.mbed (MbedCall.ssl_setup ssl config))
              ∷ Call.library (LibraryCall.mbed (MbedCall.ssl_init ssl))
              ∷ calls base.world.history)
  unfolding construct set_up check_mbed_setup unless_set
  construct_returns fuel config ssl hostname base works =
      let init = Call.library (LibraryCall.mbed (MbedCall.ssl_init ssl)) in
      let e : Event = record { call = init; reply = os.reply base.world.history init } in
      ground (arith, works (e ∷ base.world.history))

  -- If the library sets the connection object up, the constructor returns at once: it only
  -- initialised and set up the object, without a transport, the host name or a handshake. What is
  -- read from or written to the socket then makes no call of the system.
  pub construct-early :
      (fuel : ℕ) (config ssl : ℤ) (hostname : List ℕ) (base : Object) (n c : ℕ) (buf : List ℕ)
      → ((h : List Event)
          → (os.reply h (Call.library (LibraryCall.mbed (MbedCall.ssl_setup ssl config)))).ret
            ≡ pos 0)
      → let (r, o') = construct fuel (pos 0) config hostname (over ssl base) in
        let before =
          Call.library (LibraryCall.mbed (MbedCall.ssl_setup ssl config))
          ∷ Call.library (LibraryCall.mbed (MbedCall.ssl_init ssl))
          ∷ calls base.world.history in
        (r ≡ some (returns tt))
        × (o'.base.handle ≡ base.handle)
        × (o'.bio ≡ none)
        × (calls o'.base.world.history ≡ before)
        × (calls (read n o').1.base.world.history
            ≡ Call.library (LibraryCall.mbed (MbedCall.ssl_read ssl n)) ∷ before)
        × (calls (write (c ∷ buf) o').1.base.world.history
            ≡ Call.library (LibraryCall.mbed (MbedCall.ssl_write ssl (c ∷ buf))) ∷ before)
  unfolding read write
  construct-early fuel config ssl hostname base n c buf works =
      let o' = (construct fuel (pos 0) config hostname (over ssl base)).1 in
      let (r, handle, s, bio, before) = construct_returns fuel config ssl hostname base works in
      let silent : IsSilent o' = inr bio in
      let reads = interact-silent (λ s. MbedCall.ssl_read s n) o' silent in
      let writes = interact-silent (λ s. MbedCall.ssl_write s (c ∷ buf)) o' silent in
      ground (arith, r, handle, s, bio, before, reads, writes)
