-- ===== src/Socket/Options.antt =====
-- The options, status flags, binding and shutdown of `class socket`. The constants are Linux's.
use Prim.Native.Nat.{bit_and, bit_or, bit_xor}
use sockpp.Prelude.{
  ℤ, pos, ℕ, ◌^◌, ◌-◌, List, [], ◌∷◌, Bool, true, false, not, ◌&&◌, ◌==◌, eqb_ℤ, if◌then◌else◌,
  pos_part,
}
use sockpp.Error.{Errc}
use sockpp.Result.{
  Result, None, ok, is_ok, from_error, from_errc, unit_default, int_default, size_default,
  bool_default,
}
use sockpp.System.{
  Os, World, Call, Action, perform, check_res, check_res_none, pure, ◌>>=◌, invalid_socket,
  or_return,
}
use sockpp.Socket.{get_option_at, set_option}
use sockpp.Socket.Duration.{to_timeval}

abbrev pub sol_socket : ℤ
sol_socket = pos 1

abbrev pub so_reuseaddr : ℤ
so_reuseaddr = pos 2

abbrev pub so_error : ℤ
so_error = pos 4

abbrev pub so_sndbuf : ℤ
so_sndbuf = pos 7

abbrev pub so_rcvbuf : ℤ
so_rcvbuf = pos 8

abbrev pub so_reuseport : ℤ
so_reuseport = pos 15

abbrev pub so_rcvtimeo : ℤ
so_rcvtimeo = pos 20

abbrev pub so_sndtimeo : ℤ
so_sndtimeo = pos 21

abbrev pub o_nonblock : ℕ
o_nonblock = 0x800

-- `flags | flag`, or `flags & ~flag`, on a 32-bit `int`
abbrev pub with_flag : ℕ → ℕ → Bool → ℕ
with_flag flags flag on =
    if on then bit_or flags flag else bit_and flags (bit_xor (2 ^ 32 - 1) flag)

module _ ⦃os : Os⦄ where
  -- `get_option<T>(level, optname)`, for an integer
  unfoldable pub get_option : ℤ → ℤ → ℤ → Action World (Result ℤ)
  unfolding get_option_at
  get_option handle level name = do
    (res, val) ← get_option_at handle level name (pos 0)
    pure (if is_ok res then ok val else from_error res.err)

  -- `get_option<bool>`
  unfoldable pub get_option_bool : ℤ → ℤ → ℤ → Action World (Result Bool)
  unfolding get_option_at
  get_option_bool handle level name = do
    (res, val) ← get_option_at handle level name (pos 0)
    pure (if is_ok res then ok (not (eqb_ℤ val (pos 0))) else from_error res.err)

  -- `set_option<int>`, and `set_option(…, const bool&)`
  unfoldable pub set_option_int : ℤ → ℤ → ℤ → ℤ → Action World (Result None)
  unfolding set_option
  set_option_int handle level name val = set_option handle level name (val ∷ []) 4

  unfoldable pub set_option_bool : ℤ → ℤ → ℤ → Bool → Action World (Result None)
  unfolding set_option_int
  set_option_bool handle level name on =
      set_option_int handle level name (if on then pos 1 else pos 0)

  unfoldable pub reuse_address : ℤ → Action World (Result Bool)
  unfolding get_option_bool
  reuse_address handle = get_option_bool handle sol_socket so_reuseaddr

  unfoldable pub set_reuse_address : ℤ → Bool → Action World (Result None)
  unfolding set_option_bool
  set_reuse_address handle on = set_option_bool handle sol_socket so_reuseaddr on

  unfoldable pub reuse_port : ℤ → Action World (Result Bool)
  unfolding get_option_bool
  reuse_port handle = get_option_bool handle sol_socket so_reuseport

  unfoldable pub set_reuse_port : ℤ → Bool → Action World (Result None)
  unfolding set_option_bool
  set_reuse_port handle on = set_option_bool handle sol_socket so_reuseport on

  unfoldable pub recv_buffer_size : ℤ → Action World (Result ℤ)
  unfolding get_option
  recv_buffer_size handle = get_option handle sol_socket so_rcvbuf

  unfoldable pub set_recv_buffer_size : ℤ → ℤ → Action World (Result None)
  unfolding set_option_int
  set_recv_buffer_size handle sz = set_option_int handle sol_socket so_rcvbuf sz

  unfoldable pub send_buffer_size : ℤ → Action World (Result ℤ)
  unfolding get_option
  send_buffer_size handle = get_option handle sol_socket so_sndbuf

  unfoldable pub set_send_buffer_size : ℤ → ℤ → Action World (Result None)
  unfolding set_option_int
  set_send_buffer_size handle sz = set_option_int handle sol_socket so_sndbuf sz

  -- A `timeval` is passed by its two fields.
  unfoldable pub read_timeout : ℤ → ℤ → Action World (Result None)
  unfolding set_option
  read_timeout handle to =
      let tv = to_timeval to in
      set_option handle sol_socket so_rcvtimeo (tv.tv_sec ∷ tv.tv_usec ∷ []) 16

  unfoldable pub write_timeout : ℤ → ℤ → Action World (Result None)
  unfolding set_option
  write_timeout handle to =
      let tv = to_timeval to in
      set_option handle sol_socket so_sndtimeo (tv.tv_sec ∷ tv.tv_usec ∷ []) 16

  unfoldable pub get_flags : ℤ → Action World (Result ℕ)
  unfolding perform check_res
  get_flags handle = do r ← perform (Call.getfl handle); check_res pos_part r.ret

  unfoldable pub set_flags : ℤ → ℕ → Action World (Result None)
  unfolding perform check_res_none
  set_flags handle flags = do r ← perform (Call.setfl handle flags); check_res_none r.ret

  unfoldable pub set_flag : ℤ → ℕ → Bool → Action World (Result None)
  unfolding get_flags set_flags
  set_flag handle flag on =
      or_return (get_flags handle) (λ flags. set_flags handle (with_flag flags flag on))

  unfoldable pub is_non_blocking : ℤ → Action World Bool
  unfolding get_flags
  is_non_blocking handle = do
    res ← get_flags handle
    pure (if is_ok res then not (bit_and res.val o_nonblock == 0) else false)

  unfoldable pub set_non_blocking : ℤ → Bool → Action World (Result None)
  unfolding set_flag
  set_non_blocking handle on = set_flag handle o_nonblock on

  -- The call of `::bind` that ends `socket::bind`; the address stands by its bytes.
  unfoldable pub bind_call : ℤ → List ℕ → Action World (Result None)
  unfolding perform check_res_none
  bind_call handle addr = do r ← perform (Call.bind handle addr); check_res_none r.ret

  -- `socket::bind(addr, reuse)`
  unfoldable pub bind : ℤ → List ℕ → ℤ → Action World (Result None)
  unfolding set_option_bool bind_call
  bind handle addr reuse =
      if eqb_ℤ reuse (pos 0)
      then bind_call handle addr
      else if not (eqb_ℤ reuse so_reuseaddr) && not (eqb_ℤ reuse so_reuseport)
      then pure (from_errc Errc.invalid_argument)
      else or_return (set_option_bool handle sol_socket reuse true) (λ _. bind_call handle addr)

  -- `socket::shutdown`
  unfoldable pub shutdown : ℤ → ℤ → Action World (Result None)
  unfolding perform check_res_none
  shutdown handle how =
      if eqb_ℤ handle invalid_socket
      then pure (from_errc Errc.invalid_argument)
      else do r ← perform (Call.shutdown handle how); check_res_none r.ret
