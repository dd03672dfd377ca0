-- ===== src/Template/Settled.antt =====
-- The templates that open sockets leave nothing behind, whatever the class of addresses.
use sockpp.Prelude.{ℤ, pos, ℕ, List, ◌≡◌, ◌∙◌, true, false, arith, Bool-cases, inl, inr}
use sockpp.Result.{Result, None, ok, is_ok, is_error, from_error, unit_default}
use sockpp.System.{Os, SetsErrno, Object, Action, or_return, pure}
use sockpp.System.Held.{Owns}
use sockpp.Socket.{is_open, create_handle}
use sockpp.Socket.Owner.{Settles}
use sockpp.Stream.{sock_stream}
use sockpp.Acceptor.{open_acceptor}
use sockpp.Acceptor.Open.{open_acceptor-Settles}
use sockpp.Connector
use sockpp.Connector.Outcomes.{connect-Settles}
use sockpp.Template.{AddressClass, open_port, connect_name}

module _ ⦃os : Os⦄ where
  -- A result that is passed on
  passed_on-Settles :
      (m : Action Object (Result None)) (rest : List ℤ) (o : Object)
      → Settles rest (m o)
      → Settles rest (or_return m (λ _. pure (ok tt)) o)
  passed_on-Settles m rest o (owns, ends) = elim (Bool-cases (is_error (m o).0)) [
    | inl failed ↦ rw failed (owns, ends ∙ ground (arith, failed))
    | inr fine ↦ rw fine (owns, ends ∙ ground (arith, fine))
  ]

module _ ⦃os : Os⦄ (cls : AddressClass) (protocol : ℤ) where
  -- For a closed acceptor that is opened on a port, and a closed connector that is connected to a host
  -- by its name, in any class of addresses: if no socket of the class's family can be made, the
  -- result is that error; a name that cannot be resolved is an error without any call; and in every
  -- case the object is open exactly on success, and no other descriptor is lost or closed. It relies
  -- on calls that fail setting `errno`.
  open_port-Settles :
      (port : ℕ) (saddr : List ℕ) (que_size reuse : ℤ) (rest : List ℤ) (o : Object)
      → SetsErrno os
      → is_open o ≡ false
      → Owns rest o
      → let made = (create_handle (pos cls.address_family) sock_stream protocol o.world).0 in
        Settles rest (open_port cls protocol port que_size reuse o)
        × Settles rest (connect_name cls protocol saddr port o)
        × (is_error made ≡ true
            → (open_port cls protocol port que_size reuse o).0 ≡ from_error made.err)
        × (is_error (cls.create saddr port) ≡ true
            → connect_name cls protocol saddr port o ≡ (from_error (cls.create saddr port).err, o))
        × (is_ok (cls.create saddr port) ≡ true
            → is_error made ≡ true
            → (connect_name cls protocol saddr port o).0 ≡ from_error made.err)
  unfolding open_port connect_name open_acceptor Connector.connect
  open_port-Settles port saddr que_size reuse rest o sets down owns =
      let addr = cls.create saddr port in
      (
        open_acceptor-Settles sets (cls.of_port port) que_size reuse protocol rest o down owns,
        elim (Bool-cases (is_error addr)) [
          | inl failed ↦ rw failed (owns, ground (arith, down, failed))
          | inr fine ↦ rw fine (
              passed_on-Settles (Connector.connect addr.val protocol) rest o
                ((connect-Settles sets addr.val protocol rest o owns).1 down))
        ],
        λ bad. rw (cls.of_port_family port, down, bad),
        λ failed. rw failed,
        λ fine bad.
            let resolved : is_error addr ≡ false = ground (arith, fine) in
            rw (resolved, cls.create_family saddr port fine, down, bad, bad),
      )
