-- ===== src/Template.antt =====
-- The templates that fix the type of address of a class of sockets: `acceptor_tmpl` of
-- include/sockpp/acceptor.h and `connector_tmpl` of include/sockpp/connector.h here, those of the
-- other classes in Sockets. An address class and the protocol are parameters of all.
pub mod Sockets
pub mod Settled
pub mod Inet
use sockpp.Prelude.{ℤ, pos, ℕ, List, ◌≡◌, true, if◌then◌else◌, Option}
use sockpp.Error.{ErrorCode}
use sockpp.Result.{
  Result, Outcome, None, ok, is_ok, is_error, from_error, unit_default, int_default,
}
use sockpp.System.{Os, World, Object, Action, pure, ◌>>=◌, ◌>>◌, or_return}
use sockpp.Address.{family}
use sockpp.Socket.{create_handle}
use sockpp.Socket.Build.{or_throw, or_code}
use sockpp.Acceptor
use sockpp.Acceptor.{open_acceptor, accept, accept_timed}
use sockpp.Connector
use sockpp.Connector.{connect_timed}

-- What the templates use of their parameter `ADDR`: `ADDRESS_FAMILY`, the constructor from a port, and
-- `create`. The two laws are what makes it a class of addresses of one family.
pub record AddressClass : Type 0 where
  pub address_family : ℕ
  pub of_port : ℕ → List ℕ
  pub create : List ℕ → ℕ → Result (List ℕ)
  pub of_port_family : (port : ℕ) → family (of_port port) ≡ address_family
  pub create_family :
      (saddr : List ℕ) (port : ℕ)
      → is_ok (create saddr port) ≡ true
      → family (create saddr port).val ≡ address_family

module _ ⦃os : Os⦄ (cls : AddressClass) (protocol : ℤ) where
  -- `acceptor_tmpl::open(addr, queSize, reuse)`
  unfoldable pub open_at : List ℕ → ℤ → ℤ → Action Object (Result None)
  unfolding open_acceptor
  open_at addr que_size reuse = open_acceptor addr que_size reuse protocol

  -- `acceptor_tmpl::open(port, queSize, reuse)`
  unfoldable pub open_port : ℕ → ℤ → ℤ → Action Object (Result None)
  unfolding open_at
  open_port port que_size reuse = open_at (cls.of_port port) que_size reuse

  -- `acceptor_tmpl(addr, queSize, reuse)`, and the ones with an error code
  unfoldable pub make_at : List ℕ → ℤ → ℤ → Action Object (Outcome None)
  unfolding open_at
  make_at addr que_size reuse = or_throw (open_at addr que_size reuse)

  unfoldable pub make_at_ec : List ℕ → ℤ → ℤ → Action Object ErrorCode
  unfolding open_at
  make_at_ec addr que_size reuse = or_code (open_at addr que_size reuse)

  -- `acceptor_tmpl(port, queSize)`, and the ones with an error code
  unfoldable pub make_port : ℕ → ℤ → Action Object (Outcome None)
  unfolding open_port
  make_port port que_size = or_throw (open_port port que_size (pos 0))

  unfoldable pub make_port_ec : ℕ → ℤ → ℤ → Action Object ErrorCode
  unfolding open_port
  make_port_ec port que_size reuse = or_code (open_port port que_size reuse)

  -- `acceptor_tmpl::create`
  unfoldable pub create_acceptor : Action World (Result ℤ)
  unfolding Acceptor.create
  create_acceptor = Acceptor.create (pos cls.address_family) protocol

  -- `acceptor_tmpl::accept(clientAddr)`: the handle is released from the socket that `base::accept`
  -- returns
  unfoldable pub accept_stream : ℤ → Option ℕ → Action World (Result ℤ × List ℕ)
  unfolding accept
  accept_stream handle client_addr = do
    (res, addr) ← accept handle client_addr
    pure (if is_error res then from_error res.err else ok res.val, addr)

  -- `acceptor_tmpl::accept(timeout, clientAddr)`
  unfoldable pub accept_stream_timed : ℕ → ℤ → ℤ → Option ℕ → Action World (Result ℤ × List ℕ)
  unfolding accept_timed
  accept_stream_timed self handle timeout client_addr = do
    (res, addr) ← accept_timed self handle timeout client_addr
    pure (if is_error res then from_error res.err else ok res.val, addr)

  -- `connector_tmpl::connect(addr)` and `connect(addr, relTime)`
  unfoldable pub connect_at : List ℕ → Action Object (Result None)
  unfolding Connector.connect
  connect_at addr = Connector.connect addr protocol

  unfoldable pub connect_at_timed : ℕ → List ℕ → ℤ → Action Object (Result None)
  unfolding connect_timed
  connect_at_timed self addr timeout = connect_timed self addr timeout protocol

  -- `connector_tmpl::connect(saddr, port)`
  unfoldable pub connect_name : List ℕ → ℕ → Action Object (Result None)
  unfolding connect_at
  connect_name saddr port =
      let addr = cls.create saddr port in
      if is_error addr
      then pure (from_error addr.err)
      else or_return (connect_at addr.val) (λ _. pure (ok tt))

  -- `connector_tmpl::connect(saddr, port, relTime)`
  unfoldable pub connect_name_timed : ℕ → List ℕ → ℕ → ℤ → Action Object (Result None)
  unfolding connect_at_timed
  connect_name_timed self saddr port timeout =
      let addr = cls.create saddr port in
      if is_error addr
      then pure (from_error addr.err)
      else or_return (connect_at_timed self addr.val timeout) (λ _. pure (ok tt))

  -- The constructors of `connector_tmpl`
  unfoldable pub construct_at : List ℕ → Action Object (Outcome None)
  unfolding connect_at
  construct_at addr = or_throw (connect_at addr)

  unfoldable pub construct_at_ec : List ℕ → Action Object ErrorCode
  unfolding connect_at
  construct_at_ec addr = or_code (connect_at addr)

  unfoldable pub construct_at_timed : ℕ → List ℕ → ℤ → Action Object (Outcome None)
  unfolding connect_at_timed
  construct_at_timed self addr timeout = or_throw (connect_at_timed self addr timeout)

  unfoldable pub construct_at_timed_ec : ℕ → List ℕ → ℤ → Action Object ErrorCode
  unfolding connect_at_timed
  construct_at_timed_ec self addr timeout = or_code (connect_at_timed self addr timeout)
