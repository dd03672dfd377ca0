-- ===== src/Acceptor/Open.antt =====
-- `acceptor::open` either gives an acceptor that is bound and listens, or leaves the object as it was.
use sockpp.Prelude.{
  ℤ, pos, ℕ, List, [], ◌∷◌, ◌++◌, ◌≡◌, refl, true, false, eqb_ℤ, if◌then◌else◌, arith,
}
use sockpp.Result.{ok, is_ok}
use sockpp.System.{Os, SetsErrno, World, Object, Call, pure}
use sockpp.System.Held.{calls, held, Owns}
use sockpp.Address.{family}
use sockpp.Socket.{is_open, create_handle, reset, on_handle, or_close}
use sockpp.Socket.Owner.{Settles, or_close-Settles, adopt-Settles}
use sockpp.Socket.Options.{bind, sol_socket}
use sockpp.Acceptor.{open_acceptor, bind_and_listen, listen}
use sockpp.Stream.{sock_stream}

module _ ⦃os : Os⦄ where
  listen-held : (h n : ℤ) (w : World) → held (listen h n w).1.history ≡ held w.history
  unfolding listen held
  listen-held h n w = ground arith

  pub bind-held :
      (h : ℤ) (addr : List ℕ) (reuse : ℤ) (w : World)
      → held (bind h addr reuse w).1.history ≡ held w.history
  unfolding bind held
  bind-held h addr reuse w = ground arith

  bind_and_listen-Settles :
      (addr : List ℕ) (que_size reuse : ℤ) (rest : List ℤ) (o : Object)
      → is_open o ≡ true
      → Owns rest o
      → Settles rest (bind_and_listen addr que_size reuse o)
  unfolding bind_and_listen
  bind_and_listen-Settles addr que_size reuse rest =
      or_close-Settles (on_handle λ h. bind h addr reuse)
        (or_close (on_handle λ h. listen h que_size) (pure (ok tt))) rest
        (λ o. (refl, bind-held o.handle addr reuse o.world))
        (or_close-Settles (on_handle λ h. listen h que_size) (pure (ok tt)) rest
          (λ o. (refl, listen-held o.handle que_size o.world)) (λ o up h. (h, up)))

  -- Opening a closed acceptor leaves it open if the call succeeds and closed if it fails at any step,
  -- and in both cases no other descriptor is lost or closed. It relies on calls that fail setting
  -- `errno`.
  pub open_acceptor-Settles :
      SetsErrno os
      → (addr : List ℕ) (que_size reuse protocol : ℤ) (rest : List ℤ) (o : Object)
      → is_open o ≡ false
      → Owns rest o
      → Settles rest (open_acceptor addr que_size reuse protocol o)
  unfolding open_acceptor
  open_acceptor-Settles sets addr que_size reuse protocol rest o down h = rw down (
      adopt-Settles (pos (family addr)) sock_stream protocol (bind_and_listen addr que_size reuse)
        rest sets (bind_and_listen-Settles addr que_size reuse rest) o down h)

-- The call that asks for address reuse, if it is asked for.
abbrev reuse_calls : ℤ → ℤ → List Call
reuse_calls h reuse =
    if eqb_ℤ reuse (pos 0) then [] else Call.setsockopt h sol_socket reuse (pos 1 ∷ []) 4 ∷ []

module _ ⦃os : Os⦄ where
  -- An open acceptor is left alone. A closed one that is opened with success has made a stream socket of
  -- the address's family, set the reuse option if one was asked for, bound the address and then begun
  -- to listen, in this order and all on its own handle, and has made no other call.
  pub open_acceptor-calls :
      (addr : List ℕ) (que_size reuse protocol : ℤ) (o : Object)
      → let (res, o') = open_acceptor addr que_size reuse protocol o in
        (is_open o ≡ true → (res ≡ ok tt) × (o' ≡ o))
        × (is_open o ≡ false
            → is_ok res ≡ true
            → SetsErrno os
            → calls o'.world.history
              ≡ Call.listen o'.handle que_size
                ∷ Call.bind o'.handle addr
                ∷ (reuse_calls o'.handle reuse
                    ++ Call.socket (pos (family addr)) sock_stream protocol
                      ∷ calls o.world.history))
  unfolding open_acceptor create_handle reset bind_and_listen bind listen
  open_acceptor-calls addr que_size reuse protocol o = (
    ground arith,
    λ down fine sets.
        ground (arith, sets o.world.history (Call.socket (pos (family addr)) sock_stream protocol)),
  )
