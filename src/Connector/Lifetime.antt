-- ===== src/Connector/Lifetime.antt =====
-- A connector over its lifetime: any sequence of its operations, and then its destructor.
use sockpp.Prelude.{ℤ, ℕ, List, ◌≡◌, refl, Bool-cases, inl, inr, arith}
use sockpp.System.{Os, SetsErrno, World, Object}
use sockpp.System.Held.{held, Owns}
use sockpp.Socket.{is_open, close}
use sockpp.Socket.Owner.{close-Accounts, close-closes}
use sockpp.Socket.Build.{new_object}
use sockpp.Connector.{connect, connect_timed, disconnect, is_positive}
use sockpp.Connector.Outcomes.{connect-Settles}
use sockpp.Connector.Timed.{connect_timed-Settles}

module _ ⦃os : Os⦄ where
  -- The operations of a connector that make system calls of their own
  pub data Step : Object → Object → Type 0 where
    connects : (addr : List ℕ) (protocol : ℤ) (o : Object) → Step o (connect addr protocol o).1
    connects_timed :
        (self : ℕ) (addr : List ℕ) (timeout protocol : ℤ) (o : Object)
        → Step o (connect_timed self addr timeout protocol o).1
    disconnects : (o : Object) → Step o (disconnect o).1

  pub data Reach (o : Object) : Object → Type 0 where
    here : Reach o o
    next : {p q : Object} → Reach o p → Step p q → Reach o q

  connect-Owns :
      (addr : List ℕ) (protocol : ℤ) (rest : List ℤ) (o : Object)
      → SetsErrno os
      → Owns rest o
      → Owns rest (connect addr protocol o).1
  connect-Owns addr protocol rest o sets h =
      let (busy, free) = connect-Settles sets addr protocol rest o h in
      elim (Bool-cases (is_open o)) [ inl up ↦ rw (busy up) h | inr down ↦ (free down).0 ]

  connect_timed-Owns :
      (self : ℕ) (addr : List ℕ) (timeout protocol : ℤ) (rest : List ℤ) (o : Object)
      → SetsErrno os
      → Owns rest o
      → Owns rest (connect_timed self addr timeout protocol o).1
  connect_timed-Owns self addr timeout protocol rest o sets h =
      let (plain, busy, free) = connect_timed-Settles sets self addr timeout protocol rest o h in
      elim (Bool-cases (is_positive timeout)) [
        | inl positive ↦ elim (Bool-cases (is_open o)) [
          | inl up ↦ rw (busy positive up) h
          | inr down ↦ (free positive down).0
        ]
        | inr other ↦ rw (plain other) (connect-Owns addr protocol rest o sets h)
      ]

  Step-Owns : {o p : Object} (rest : List ℤ) → SetsErrno os → Step o p → Owns rest o → Owns rest p
  unfolding disconnect
  Step-Owns rest sets (connects addr protocol o) h = connect-Owns addr protocol rest o sets h
  Step-Owns rest sets (connects_timed self addr timeout protocol o) h =
      connect_timed-Owns self addr timeout protocol rest o sets h
  Step-Owns rest sets (disconnects o) h = close-Accounts rest o h

  Reach-Owns : {o p : Object} (rest : List ℤ) → SetsErrno os → Owns rest o → Reach o p → Owns rest p
  Reach-Owns rest sets h here = h
  Reach-Owns rest sets h (next r s) = Step-Owns rest sets s (Reach-Owns rest sets h r)

  -- However a connector is used from its default construction on, by connects with and without a timeout
  -- and disconnects in any order and with any outcome, the process holds what it held before and what
  -- the connector has; and the destructor leaves exactly what was held before. It relies on calls
  -- that fail setting `errno`.
  pub lifetime-Owns :
      (w : World) (o : Object)
      → SetsErrno os
      → Reach (new_object w) o
      → Owns (held w.history) o × (held (close o).1.world.history ≡ held w.history)
  lifetime-Owns w o sets r =
      let owns = Reach-Owns (held w.history) sets refl r in
      let closed = close-Accounts (held w.history) o owns in
      (owns, ground (arith, closed, close-closes o))
