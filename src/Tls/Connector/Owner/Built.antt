-- ===== src/Tls/Connector/Owner/Built.antt =====
-- The constructors of a TLS connector that throw.
use sockpp.Prelude.{
  ℤ, pos, ℕ, List, ◌≡◌, refl, ◌∙◌, true, false, eqb_ℤ-refl, some, arith, Bool-cases, inl, inr,
}
use sockpp.Result.{Result, Outcome, returns, throws, None, is_error, unit_default}
use sockpp.System.{Os, SetsErrno, World, Object, Call, Action, pure}
use sockpp.System.Held.{held, objects, Owns}
use sockpp.Socket.{is_open}
use sockpp.Socket.Build.{new_object, Builds, or_throw-Builds}
use sockpp.Connector.{connect, make_connector}
use sockpp.Connector.Outcomes.{connect-Settles}
use sockpp.Library.{LibraryCall}
use sockpp.Tls.{is_null}
use sockpp.Tls.Socket.{TlsObject, wrap, over, destroy, on_ssl, set_host_name}
use sockpp.Tls.Connector.{tls_connect, or_throw, unless_thrown, make, make_named}
use sockpp.Tls.Connector.Objects.{close-KeepsObjects, connect-KeepsObjects}
use sockpp.Tls.Connector.Owner.{OwnsBoth}

-- A constructor that returns leaves an open object with a connection, which owns both; one that throws
-- has given up what it had.
abbrev pub Constructs : List ℤ → List ℤ → Outcome None × TlsObject → Type 0
Constructs rest refs (returns u, o) =
    OwnsBoth rest refs o × (is_open o.base ≡ true) × (is_null o.ssl ≡ false)
Constructs rest refs (throws e, o) =
    (held o.base.world.history ≡ rest) × (objects o.base.world.history ≡ some refs)

-- A call that leaves both alone
abbrev KeepsBoth : Action TlsObject (Result None) → Type 0
KeepsBoth m =
    (o : TlsObject)
    → ((m o).1.ssl ≡ o.ssl)
      × ((m o).1.base.handle ≡ o.base.handle)
      × (held (m o).1.base.world.history ≡ held o.base.world.history)
      × (objects (m o).1.base.world.history ≡ objects o.base.world.history)

module _ ⦃os : Os⦄ where
  wrap-Constructs :
      (ctx : ℤ) (rest refs : List ℤ) (conn : Object)
      → is_open conn ≡ true
      → Owns rest conn
      → objects conn.world.history ≡ some refs
      → Constructs rest refs (wrap ctx (over conn))
  unfolding wrap held objects
  wrap-Constructs ctx rest refs conn up owns has =
      let ssl = (os.reply conn.world.history (Call.library (LibraryCall.ssl_new ctx))).ret in
      ground (arith, eqb_ℤ-refl ssl)

  destroy-both :
      (rest refs : List ℤ) (o : TlsObject)
      → OwnsBoth rest refs o
      → (held (destroy o).1.base.world.history ≡ rest)
        × (objects (destroy o).1.base.world.history ≡ some refs)
  unfolding destroy held objects
  destroy-both rest refs o (owns, has) = ground (arith, eqb_ℤ-refl o.ssl)

  or_throw-Constructs :
      (m : Action TlsObject (Result None)) (k : Action TlsObject (Outcome None))
      (rest refs : List ℤ)
      → KeepsBoth m
      → ((o : TlsObject) → Constructs rest refs (returns tt, o) → Constructs rest refs (k o))
      → (o : TlsObject) → Constructs rest refs (returns tt, o)
      → Constructs rest refs (or_throw m k o)
  or_throw-Constructs m k rest refs keeps then_k o (owns, up, live) =
      let (s, h, a, b) = keeps o in
      let o' = (m o).1 in
      let owns' : OwnsBoth rest refs o' = ground (arith, owns, s, h, a, b) in
      elim (Bool-cases (is_error (m o).0)) [
        | inl failed ↦ rw failed (destroy-both rest refs o' owns')
        | inr fine ↦ rw fine (then_k o' (owns', rw h up, rw s live))
      ]

  wrapped-Constructs :
      (body : TlsObject → Outcome None × TlsObject) (rest refs : List ℤ)
      → (made : Outcome None × TlsObject) → Constructs rest refs made
      → ((o : TlsObject) → Constructs rest refs (returns tt, o) → Constructs rest refs (body o))
      → Constructs rest refs (unless_thrown made (λ o. o) body)
  wrapped-Constructs body rest refs (throws e, o) c then_body = c
  wrapped-Constructs body rest refs (returns u, o) c then_body = then_body o c

  make_connector-objects :
      (addr : List ℕ) (w : World)
      → objects (make_connector addr (pos 0) (new_object w)).1.world.history ≡ objects w.history
  unfolding make_connector
  make_connector-objects addr w =
      let o = new_object w in
      ground
        (arith, connect-KeepsObjects addr (pos 0) o, close-KeepsObjects (connect addr (pos 0) o).1)

  make_connector-Builds :
      (addr : List ℕ) (w : World)
      → SetsErrno os
      → Builds (held w.history) (make_connector addr (pos 0) (new_object w))
  unfolding make_connector
  make_connector-Builds addr w sets =
      let o = new_object w in
      let (owns, ends) = (connect-Settles sets addr (pos 0) (held w.history) o refl).1 refl in
      or_throw-Builds (connect addr (pos 0)) (held w.history) o owns (λ fine. ends ∙ fine)

  -- The two parts of a constructor: the connector, and the connection over it
  connected-Constructs :
      (ctx : ℤ) (body : TlsObject → Outcome None × TlsObject) (rest refs : List ℤ)
      → (made : Outcome None × Object) → Builds rest made
      → objects made.1.world.history ≡ some refs
      → ((o : TlsObject) → Constructs rest refs (returns tt, o) → Constructs rest refs (body o))
      → Constructs rest refs (unless_thrown made over λ o. unless_thrown (wrap ctx o) (λ o. o) body)
  connected-Constructs ctx body rest refs (throws e, conn) (owns, up, down) has then_body =
      let shut = down e refl in ground (arith, owns, shut, has)
  connected-Constructs ctx body rest refs (returns u, conn) (owns, up, down) has then_body =
      wrapped-Constructs body rest refs (wrap ctx (over conn))
        (wrap-Constructs ctx rest refs conn (up refl) owns has) then_body

  handshake-KeepsBoth : KeepsBoth (on_ssl tls_connect)
  unfolding tls_connect held objects
  handshake-KeepsBoth o = ground arith

  host_name-KeepsBoth : (hostname : List ℕ) → KeepsBoth (on_ssl (set_host_name hostname))
  unfolding set_host_name held objects
  host_name-KeepsBoth hostname o = ground arith

  -- A TLS connector that is constructed with an address, with or without a host name: if the constructor
  -- returns, the object is open, has a connection, and owns both; if it throws, at whichever step,
  -- the descriptor is closed and the connection is freed, and exactly what was held before is held. It
  -- relies on calls that fail setting `errno`.
  pub make_named-Constructs :
      (ctx : ℤ) (addr hostname : List ℕ) (refs : List ℤ) (w : World)
      → SetsErrno os
      → objects w.history ≡ some refs
      → Constructs (held w.history) refs (make ctx addr w)
        × Constructs (held w.history) refs (make_named ctx addr hostname w)
  unfolding make make_named
  make_named-Constructs ctx addr hostname refs w sets has =
      let rest = held w.history in
      let built = make_connector-Builds addr w sets in
      let has' = make_connector-objects addr w ∙ has in
      let made = make_connector addr (pos 0) (new_object w) in
      let last =
        or_throw-Constructs (on_ssl tls_connect) (pure (returns tt)) rest refs handshake-KeepsBoth
          (λ o c. c) in
      (
        connected-Constructs ctx (or_throw (on_ssl tls_connect) (pure (returns tt))) rest refs made
            built has' last,
        connected-Constructs ctx
            (or_throw (on_ssl (set_host_name hostname))
              (or_throw (on_ssl tls_connect) (pure (returns tt))))
            rest refs made built has'
            (or_throw-Constructs (on_ssl (set_host_name hostname))
              (or_throw (on_ssl tls_connect) (pure (returns tt))) rest refs
              (host_name-KeepsBoth hostname) last),
      )
