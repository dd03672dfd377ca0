-- ===== src/Datagram/Open.antt =====
-- Opening a datagram or CAN socket that may be open already.
use sockpp.Prelude.{
  ℤ, pos, ℕ, List, [], ◌∷◌, ◌≡◌, refl, Bool, true, false, ◌||◌, eqb_ℤ, ltb_ℤ, arith, if◌then◌else◌,
}
use sockpp.Result.{Result, None, ok, from_error, last_error, unit_default, int_default}
use sockpp.System.{Os, SetsErrno, Object, Call, Event, invalid_socket}
use sockpp.System.Held.{calls, held, Owns}
use sockpp.Address.{family}
use sockpp.Socket.{is_open, create_handle, reset, close}
use sockpp.Socket.Options.{bind}
use sockpp.Datagram.{open_bound, open_datagram, sock_dgram}

abbrev pub has_fd : ℤ → List ℤ → Bool
has_fd h [] = false
has_fd h (x ∷ xs) = eqb_ℤ h x || has_fd h xs

-- What socket(2) says: a new descriptor is none of those that the process holds.
abbrev pub GivesFresh : Os → Type 0
GivesFresh os =
    (h : List Event) (d t p : ℤ)
    → eqb_ℤ (os.reply h (Call.socket d t p)).ret invalid_socket ≡ false
    → has_fd (os.reply h (Call.socket d t p)).ret (held h) ≡ false

-- The events after a new descriptor was made by `c`: the old one, if any, is closed.
abbrev pub adopted : ⦃os : Os⦄ → Call → Object → List Event
adopted ⦃os⦄ c o =
    let h₁ : List Event =
      record { call = c; reply = os.reply o.world.history c } ∷ o.world.history in
    if is_open o
    then record { call = Call.close o.handle; reply = os.reply h₁ (Call.close o.handle) } ∷ h₁
    else h₁

-- What opening does with the object, if `c` is the call that makes the new descriptor. If that fails, the
-- object keeps what it had, and the error is that of the call. Otherwise the old descriptor is closed
-- and the new one is bound: if that succeeds the object has it, and if not it is closed again, and
-- the error is that of the bind.
abbrev pub Reopens : ⦃os : Os⦄ → Call → List ℕ → List ℤ → Object → Result None × Object → Type 0
Reopens ⦃os⦄ c addr rest o (res, o') =
    let made = os.reply o.world.history c in
    let h₂ = adopted c o in
    let bound = os.reply h₂ (Call.bind made.ret addr) in
    (eqb_ℤ made.ret invalid_socket ≡ true
      → (res ≡ from_error (last_error made.errno))
        × (o'.handle ≡ o.handle)
        × (calls o'.world.history ≡ c ∷ calls o.world.history)
        × Owns rest o')
    × (eqb_ℤ made.ret invalid_socket ≡ false
        → (ltb_ℤ bound.ret (pos 0) ≡ false
            → (res ≡ ok tt)
              × (o'.handle ≡ made.ret)
              × (calls o'.world.history ≡ Call.bind made.ret addr ∷ calls h₂)
              × (held o'.world.history ≡ made.ret ∷ rest))
          × (ltb_ℤ bound.ret (pos 0) ≡ true
              → (res ≡ from_error (last_error bound.errno))
                × (o'.handle ≡ invalid_socket)
                × (calls o'.world.history
                    ≡ Call.close made.ret ∷ Call.bind made.ret addr ∷ calls h₂)
                × (held o'.world.history ≡ rest)))

module _ ⦃os : Os⦄ where
  -- The accounting of the calls, when the new descriptor is none that was held
  open_bound-Reopens :
      (d t p : ℤ) (addr : List ℕ) (rest : List ℤ) (o : Object)
      → SetsErrno os
      → GivesFresh os
      → Owns rest o
      → Reopens (Call.socket d t p) addr rest o (open_bound d t p addr o)
  unfolding open_bound create_handle reset bind close held
  open_bound-Reopens d t p addr rest o sets fresh owns =
      let h = o.world.history in
      let c = Call.socket d t p in
      let made = os.reply h c in
      let b = Call.bind made.ret addr in
      let bound = os.reply (adopted c o) b in
      let set = sets h c in
      (
        λ failed. ground (arith, failed, set, owns),
        λ fine. (
          λ good. ground (arith, fine, good, owns, fresh h d t p fine, set),
          λ bad.
              ground
                (arith, fine, bad, owns, fresh h d t p fine, set, sets (adopted c o) b refl bad),
        ),
      )

  -- Opening a datagram socket, whether it is open or not. If no new descriptor can be made, the socket
  -- keeps what it had. Otherwise the old descriptor is closed and the new one is bound to the address:
  -- on success the socket has the new one, and if the bind fails it is closed again and the socket has
  -- none. The error is that of the call that failed, no call is made but these, and no other
  -- descriptor is lost or closed. It relies on calls that fail setting `errno` and on new descriptors
  -- being fresh.
  pub open_datagram-Reopens :
      (addr : List ℕ) (rest : List ℤ) (o : Object)
      → SetsErrno os
      → GivesFresh os
      → Owns rest o
      → Reopens
          (Call.socket (pos (family addr)) sock_dgram (pos 0))
          addr
          rest
          o
          (open_datagram addr o)
  unfolding open_datagram
  open_datagram-Reopens addr = open_bound-Reopens (pos (family addr)) sock_dgram (pos 0) addr
