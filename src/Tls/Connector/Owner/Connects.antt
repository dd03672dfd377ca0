-- ===== src/Tls/Connector/Owner/Connects.antt =====
-- The two `connect`s of a TLS connector.
use sockpp.Prelude.{
  ℤ, pos, ℕ, List, ◌++◌, ◌≡◌, refl, ◌∙◌, sym, Bool, true, false, eqb_ℤ, eqb_ℤ-eq, arith, Bool-cases,
  inl, inr,
}
use sockpp.Result.{Result, None, ok, is_error, is_ok, unit_default}
use sockpp.System.{
  Os, SetsErrno, World, Object, Call, Action, invalid_socket, or_return, static, ◌>>◌, pure,
}
use sockpp.System.Held.{held, own, Owns}
use sockpp.Address.{family}
use sockpp.Socket.{is_open, create_handle, reset, or_close, on_handle}
use sockpp.Socket.Build.{new_object}
use sockpp.Socket.Owner.{adopt_elim, made_object}
use sockpp.Socket.Options.{is_non_blocking, set_non_blocking}
use sockpp.Datagram.Open.{GivesFresh, has_fd}
use sockpp.Stream.{sock_stream}
use sockpp.Connector.{
  connect, connect_call, connect_timed, connect_or_wait, connect_non_blocking, restore_blocking,
  is_positive,
}
use sockpp.Connector.Outcomes.{connect-Settles}
use sockpp.Connector.Timed.{connect_timed-Settles}
use sockpp.Tls.Socket.{TlsObject}
use sockpp.Tls.Connector.{connect_tls, connect_tls_timed}
use sockpp.Tls.Connector.Objects.{connect-KeepsObjects, connect_timed-KeepsObjects}
use sockpp.Tls.Connector.Owner.{OwnsBoth, Opens, connect_with-OwnsBoth}

-- What succeeds leaves the handle alone.
abbrev KeepsOnSuccess : Action Object (Result None) → Type 0
KeepsOnSuccess k = (o : Object) → is_ok (k o).0 ≡ true → (k o).1.handle ≡ o.handle

module _ ⦃os : Os⦄ where
  or_close-KeepsOnSuccess :
      (m k : Action Object (Result None))
      → ((o : Object) → (m o).1.handle ≡ o.handle)
      → KeepsOnSuccess k
      → KeepsOnSuccess (or_close m k)
  or_close-KeepsOnSuccess m k a b o = elim (Bool-cases (is_error (m o).0)) [
    | inl failed ↦ rw failed λ good. absurd (ground (arith, failed, good))
    | inr fine ↦ rw fine λ good. b (m o).1 good ∙ a o
  ]

  made-fresh :
      (d t p : ℤ) (w : World) (rest : List ℤ)
      → SetsErrno os
      → GivesFresh os
      → held w.history ≡ rest
      → is_error (create_handle d t p w).0 ≡ false
      → has_fd (create_handle d t p w).0.val rest ≡ false
  unfolding create_handle
  made-fresh d t p w rest sets fresh same fine =
      rw (sym same)
        (ground (arith, sets w.history (Call.socket d t p), fresh w.history d t p, fine))

  -- A handle that is made and kept is none of those held before.
  adopted-fresh :
      (d t p : ℤ) (k : Action Object (Result None)) (rest : List ℤ) (o : Object)
      → SetsErrno os
      → GivesFresh os
      → is_open o ≡ false
      → Owns rest o
      → KeepsOnSuccess k
      → let (r, o') = or_return (static (create_handle d t p)) (λ h. reset h >> k) o in
        is_ok r ≡ true → has_fd o'.handle rest ≡ false
  adopted-fresh d t p k rest o sets fresh down owns keeps =
      adopt_elim d t p k rest sets o down owns
        (λ a. (is_ok a.0 ≡ true → has_fd a.1.handle rest ≡ false))
        (λ failed shut owns'. λ good. absurd (ground (arith, failed, good)))
        (λ fine up owns'. λ good.
          rw (keeps (made_object d t p k rest sets o down owns) good)
            (made-fresh d t p o.world rest sets fresh (ground (arith, owns, down)) fine))

  -- A fresh handle is not one that is owned.
  fresh-differs :
      (h handle : ℤ) (rest : List ℤ)
      → eqb_ℤ h invalid_socket ≡ false
      → has_fd h (own handle ++ rest) ≡ false
      → eqb_ℤ h handle ≡ false
  fresh-differs h handle rest valid new = elim (Bool-cases (eqb_ℤ handle invalid_socket)) [
    | inl shut ↦ ground (arith, eqb_ℤ-eq handle invalid_socket shut, valid)
    | inr live ↦ ground (arith, live, new)
  ]

  connect-KeepsOnSuccess :
      (addr : List ℕ) → KeepsOnSuccess (or_close (on_handle (connect_call addr)) (pure (ok tt)))
  connect-KeepsOnSuccess addr =
      or_close-KeepsOnSuccess (on_handle (connect_call addr)) (pure (ok tt)) (λ o. refl)
        (λ o good. refl)

  restore_blocking-KeepsOnSuccess : (nb : Bool) → KeepsOnSuccess (restore_blocking nb)
  unfolding restore_blocking
  restore_blocking-KeepsOnSuccess true o good = refl
  restore_blocking-KeepsOnSuccess false o good = refl

  connect_non_blocking-KeepsOnSuccess :
      (self : ℕ) (addr : List ℕ) (timeout : ℤ)
      → KeepsOnSuccess (connect_non_blocking self addr timeout)
  unfolding connect_non_blocking
  connect_non_blocking-KeepsOnSuccess self addr timeout o good =
      let (nb, w₁) = is_non_blocking o.handle o.world in
      let tail =
        or_close-KeepsOnSuccess (on_handle (connect_or_wait self addr timeout))
          (restore_blocking nb) (λ o'. refl) (restore_blocking-KeepsOnSuccess nb) in
      ground (
        arith,
        good,
        tail (record o { world = w₁ }),
        tail (record o { world = (set_non_blocking o.handle true w₁).1 }),
      )

  connect-Opens :
      (addr : List ℕ) (protocol : ℤ) → SetsErrno os → GivesFresh os → Opens (connect addr protocol)
  unfolding connect
  connect-Opens addr protocol sets fresh w handle rest owns =
      let o = new_object w in
      let (left, ends) = (connect-Settles sets addr protocol (own handle ++ rest) o owns).1 refl in
      (
        left,
        λ good.
            fresh-differs (connect addr protocol o).1.handle handle rest
              (ground (arith, ends, good))
              (adopted-fresh (pos (family addr)) sock_stream protocol
                (or_close (on_handle (connect_call addr)) (pure (ok tt))) (own handle ++ rest) o
                sets fresh refl owns (connect-KeepsOnSuccess addr) good),
      )

  connect_timed-Opens :
      (self : ℕ) (addr : List ℕ) (timeout protocol : ℤ)
      → SetsErrno os
      → GivesFresh os
      → Opens (connect_timed self addr timeout protocol)
  unfolding connect_timed
  connect_timed-Opens self addr timeout protocol sets fresh w handle rest owns =
      let o = new_object w in
      let rest' = own handle ++ rest in
      let (plain, busy, free) =
        connect_timed-Settles sets self addr timeout protocol rest' o owns in
      elim (Bool-cases (is_positive timeout)) [
        | inl positive ↦
            let (left, ends) = free positive refl in
            let res = connect_timed self addr timeout protocol o in
            let new : (is_ok res.0 ≡ true → has_fd res.1.handle rest' ≡ false) = rw positive (
              adopted-fresh (pos (family addr)) sock_stream protocol
                (connect_non_blocking self addr timeout) rest' o sets fresh refl owns
                (connect_non_blocking-KeepsOnSuccess self addr timeout)) in
            (
              left,
              λ good.
                  fresh-differs res.1.handle handle rest (ground (arith, ends, good)) (new good),
            )
        | inr other ↦ rw (plain other) (connect-Opens addr protocol sets fresh w handle rest owns)
      ]

  -- Connecting a TLS connector, with and without a timeout, whether it has a descriptor already or not:
  -- whatever the system and the library reply, the process ends up holding the descriptor and the
  -- connection that the connector has, and nothing else that it did not hold before; the descriptor
  -- that the connector had is closed if a new one takes its place. The connection stays the one it was
  -- made with. It relies on calls that fail setting `errno` and on new descriptors being fresh.
  pub connect_tls-OwnsBoth :
      (self : ℕ) (addr : List ℕ) (timeout : ℤ) (rest refs : List ℤ) (o : TlsObject)
      → SetsErrno os
      → GivesFresh os
      → OwnsBoth rest refs o
      → (let (r, o') = connect_tls addr o in OwnsBoth rest refs o' × (o'.ssl ≡ o.ssl))
        × (let (r, o') = connect_tls_timed self addr timeout o in
            OwnsBoth rest refs o' × (o'.ssl ≡ o.ssl))
  unfolding connect_tls connect_tls_timed
  connect_tls-OwnsBoth self addr timeout rest refs o sets fresh owns = (
    connect_with-OwnsBoth (connect addr (pos 0)) rest refs o (connect-Opens addr (pos 0) sets fresh)
        (connect-KeepsObjects addr (pos 0)) owns,
    connect_with-OwnsBoth (connect_timed self addr timeout (pos 0)) rest refs o
        (connect_timed-Opens self addr timeout (pos 0) sets fresh)
        (connect_timed-KeepsObjects self addr timeout (pos 0)) owns,
  )
