-- ===== src/Connector/Built.antt =====
-- Connectors from constructors.
use sockpp.Prelude.{ℤ, ℕ, List, refl, Bool-cases, inl, inr, arith}
use sockpp.System.{Os, SetsErrno, World}
use sockpp.System.Held.{held}
use sockpp.Socket.Build.{new_object, Builds, or_throw-Builds}
use sockpp.Connector.{connect_timed, make_connector_timed, is_positive}
use sockpp.Connector.Outcomes.{connect-Settles}
use sockpp.Connector.Timed.{connect_timed-Settles}

module _ ⦃os : Os⦄ where
  -- A connector that is constructed with an address and a timeout, of either sign, is open if the
  -- constructor returns; if it throws the socket is closed, also where the timed connect leaves it
  -- open; and no other descriptor is lost or closed. It relies on calls that fail setting `errno`.
  pub make_connector_timed-Builds :
      (self : ℕ) (addr : List ℕ) (timeout protocol : ℤ) (w : World)
      → SetsErrno os
      → Builds (held w.history) (make_connector_timed self addr timeout protocol (new_object w))
  unfolding make_connector_timed
  make_connector_timed-Builds self addr timeout protocol w sets =
      let o = new_object w in
      let rest = held w.history in
      let timed = connect_timed-Settles sets self addr timeout protocol rest o refl in
      let plain = (connect-Settles sets addr protocol rest o refl).1 refl in
      elim (Bool-cases (is_positive timeout)) [
        | inl positive ↦
            let settled = timed.2 positive refl in
            or_throw-Builds (connect_timed self addr timeout protocol) rest o settled.0
              (λ fine. ground (arith, settled.1))
        | inr none_given ↦
            or_throw-Builds (connect_timed self addr timeout protocol) rest o
              (rw (timed.0 none_given) plain.0)
              (λ fine. rw (timed.0 none_given) (ground (arith, plain.1, fine, timed.0 none_given)))
      ]
