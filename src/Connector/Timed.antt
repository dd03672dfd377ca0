-- ===== src/Connector/Timed.antt =====
-- Where the timed `connect` leaves the connector.
use sockpp.Prelude.{
  ℤ, pos, ℕ, List, ◌≡◌, refl, ◌∙◌, Bool, true, false, not, ◌&&◌, ◌||◌, arith, Bool-cases, inl, inr,
}
use sockpp.Result.{Result, None, is_error, is_ok, from_errc, unit_default}
use sockpp.Error.{Errc}
use sockpp.System.{Os, SetsErrno, World, Object}
use sockpp.System.Held.{Owns}
use sockpp.Address.{family}
use sockpp.Socket.{is_open, create_handle, on_handle}
use sockpp.Socket.Owner.{Settles, or_close-Settles, adopt_elim}
use sockpp.Socket.Options.{is_non_blocking, set_non_blocking}
use sockpp.Stream.{sock_stream}
use sockpp.Connector.{
  connect, connect_or_wait, restore_blocking, connect_non_blocking, connect_timed, is_positive,
}
use sockpp.Connector.Outcomes.{set_non_blocking-held, is_non_blocking-held, connect_or_wait-held}

-- Whether the switch of a new socket to non-blocking mode is tried and fails.
abbrev pub switch_fails : ⦃os : Os⦄ → ℤ → World → Bool
switch_fails h w =
    let (nb, w') = is_non_blocking h w in not nb && is_error (set_non_blocking h true w').0

-- That the socket stays open after an error only if the switch failed.
abbrev pub SettlesUnless : Bool → List ℤ → Result None × Object → Type 0
SettlesUnless stuck rest (r, o) = Owns rest o × (is_open o ≡ is_ok r || stuck)

module _ ⦃os : Os⦄ where
  restore_blocking-Settles :
      (nb : Bool) (rest : List ℤ) (o : Object)
      → is_open o ≡ true
      → Owns rest o
      → Settles rest (restore_blocking nb o)
  unfolding restore_blocking
  restore_blocking-Settles true rest o up h = (h, up)
  restore_blocking-Settles false rest o up h =
      ground (arith, set_non_blocking-held o.handle false o.world)

  connect_non_blocking-Settles :
      (self : ℕ) (addr : List ℕ) (timeout : ℤ) (rest : List ℤ) (o : Object)
      → is_open o ≡ true
      → Owns rest o
      → SettlesUnless
          (switch_fails o.handle o.world)
          rest
          (connect_non_blocking self addr timeout o)
  unfolding connect_non_blocking
  connect_non_blocking-Settles self addr timeout rest o up h =
      let nb = (is_non_blocking o.handle o.world).0 in
      let w₁ = (is_non_blocking o.handle o.world).1 in
      let same₁ = is_non_blocking-held o.handle o.world in
      let same₂ = set_non_blocking-held o.handle true w₁ in
      let o₁ : Object = record o { world = w₁ } in
      let o₂ : Object = record o { world = (set_non_blocking o.handle true w₁).1 } in
      let tail = λ (o' : Object) (up' : is_open o' ≡ true) (h' : Owns rest o').
        or_close-Settles (on_handle (connect_or_wait self addr timeout)) (restore_blocking nb) rest
          (λ o''. (refl, connect_or_wait-held self addr timeout o''.handle o''.world))
          (restore_blocking-Settles nb rest) o' up' h' in
      elim (Bool-cases nb) [
        | inl already ↦ ground (arith, tail o₁ up (same₁ ∙ h))
        | inr blocking ↦ ground (arith, tail o₂ up (same₂ ∙ same₁ ∙ h))
      ]

  -- A timed connect with no positive timeout is the plain one. With one, a connector that is open refuses
  -- and makes no call. A closed one is open afterwards exactly if the call succeeds, or if the new socket
  -- could not be switched to non-blocking mode, when it stays open although the call fails; on
  -- every path no other descriptor is lost or closed. It relies on calls that fail setting `errno`.
  pub connect_timed-Settles :
      SetsErrno os
      → (self : ℕ) (addr : List ℕ) (timeout protocol : ℤ) (rest : List ℤ) (o : Object) → Owns rest o
      → (is_positive timeout ≡ false
          → connect_timed self addr timeout protocol o ≡ connect addr protocol o)
        × (is_positive timeout ≡ true
            → is_open o ≡ true
            → connect_timed self addr timeout protocol o ≡ (from_errc Errc.already_connected, o))
        × (is_positive timeout ≡ true
            → is_open o ≡ false
            → let (made, w') = create_handle (pos (family addr)) sock_stream protocol o.world in
              SettlesUnless
                (is_ok made && switch_fails made.val w')
                rest
                (connect_timed self addr timeout protocol o))
  unfolding connect_timed
  connect_timed-Settles sets self addr timeout protocol rest o h = (
    λ zero_timeout. rw zero_timeout,
    λ positive up. rw (positive, up),
    λ positive down.
        rw (positive, down)
          (adopt_elim (pos (family addr)) sock_stream protocol
            (connect_non_blocking self addr timeout) rest sets o down h
            (SettlesUnless
              (let (made, w') = create_handle (pos (family addr)) sock_stream protocol o.world in
                is_ok made && switch_fails made.val w')
              rest)
            (λ failed shut owns. (owns, ground arith))
            (λ fine up owns.
              rw fine (connect_non_blocking-Settles self addr timeout rest _ up owns))),
  )
