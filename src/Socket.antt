-- ===== src/Socket.antt =====
-- `class socket`: src/socket.cpp and include/sockpp/socket.h. A socket object is its `handle_`. A
-- method acts on the object and the world; a static function, or a method that only reads the
-- handle it is given, acts on the world.
pub mod Options
pub mod Owner
pub mod Transfer
pub mod Duration
pub mod Flags
pub mod Build
pub mod Ends
pub mod Several
use sockpp.Prelude.{ℤ, pos, ℕ, zero, suc, List, [], ◌∷◌, Bool, not, eqb_ℤ, if◌then◌else◌, pos_part}
use sockpp.Error.{ErrorCode}
use sockpp.Result.{
  Result, Default, Outcome, returns, throws, None, ok, is_error, is_ok, from_error, size_default,
  unit_default, int_default, bool_default,
}
use sockpp.System.{
  Os, World, Object, Call, Action, perform, check_socket, check_res, check_res_none, pure, ◌>>=◌,
  ◌>>◌, static, invalid_socket, from_last_error, or_return,
}

-- `is_open`, `operator bool`, and `!operator!`
abbrev pub is_open : Object → Bool
is_open o = not (eqb_ℤ o.handle invalid_socket)

unfoldable pub get_handle : Action Object ℤ
get_handle o = (o.handle, o)

-- `release`
unfoldable pub release : Action Object ℤ
release o = (o.handle, record o { handle = invalid_socket })

-- What the system wrote at index `i` of an array or structure, or what stood there before.
abbrev pub field_at : ℕ → ℤ → List ℤ → ℤ
field_at i d [] = d
field_at zero d (x ∷ xs) = x
field_at (suc i) d (x ∷ xs) = field_at i d xs

instance abbrev pub pair_default : Default (ℤ × ℤ)
pair_default = record { default = (invalid_socket, invalid_socket) }

module _ ⦃os : Os⦄ where
  -- `socket::create_handle`
  unfoldable pub create_handle : ℤ → ℤ → ℤ → Action World (Result ℤ)
  unfolding perform check_socket
  create_handle domain type protocol = do
    r ← perform (Call.socket domain type protocol)
    check_socket r.ret

  -- `socket::create`: the handle of the new object
  unfoldable pub create : ℤ → ℤ → ℤ → Action World (Result ℤ)
  unfolding perform check_socket
  create domain type protocol = do
    r ← perform (Call.socket domain type protocol)
    or_return (check_socket r.ret) (λ h. pure (ok h))

  -- `socket(domain, type, protocol)`
  unfoldable pub make_socket : ℤ → ℤ → ℤ → Action World (Outcome ℤ)
  unfolding create_handle
  make_socket domain type protocol = do
    res ← create_handle domain type protocol
    pure (if is_error res then throws res.err else returns res.val)

  -- `socket(domain, type, protocol, ec)`: the new handle and the code; `ec` is written on failure only
  unfoldable pub make_socket_ec : ℤ → ℤ → ℤ → ErrorCode → Action World (ℤ × ErrorCode)
  unfolding create_handle
  make_socket_ec domain type protocol ec = do
    res ← create_handle domain type protocol
    pure (if is_error res then (invalid_socket, res.err) else (res.val, ec))

  -- `socket::close(socket_t)`
  unfoldable pub close_handle : ℤ → Action World (Result None)
  unfolding perform check_res_none
  close_handle h = do r ← perform (Call.close h); check_res_none r.ret

  -- `socket::close()`
  unfoldable pub close : Action Object (Result None)
  unfolding release close_handle
  close o = if is_open o then (release >>= λ h. static (close_handle h)) o else (ok tt, o)

  -- `socket::reset`
  unfoldable pub reset : ℤ → Action Object None
  unfolding close_handle
  reset h o =
      if eqb_ℤ h o.handle
      then (tt, o)
      else if eqb_ℤ o.handle invalid_socket
      then (tt, record o { handle = h })
      else (static (close_handle o.handle) >> pure tt) (record o { handle = h })

  -- `socket::clone`: the handle of the copy
  unfoldable pub clone : ℤ → Action World (Result ℤ)
  unfolding perform check_socket
  clone handle = do r ← perform (Call.dup handle); or_return (check_socket r.ret) (λ h. pure (ok h))

  -- `socket::pair`: the handles of the two objects
  unfoldable pub pair : ℤ → ℤ → ℤ → Action World (Result (ℤ × ℤ))
  unfolding perform
  pair domain type protocol = do
    r ← perform (Call.socketpair domain type protocol)
    if eqb_ℤ r.ret (pos 0)
        then pure (ok (field_at 0 invalid_socket r.ints, field_at 1 invalid_socket r.ints))
        else from_last_error

  -- `socket::get_option(level, optname, void*, socklen_t*)` on one `int` or unsigned: the result,
  -- and the variable's new value
  unfoldable pub get_option_at : ℤ → ℤ → ℤ → ℤ → Action World (Result None × ℤ)
  unfolding perform check_res
  get_option_at handle level name val = do
    r ← perform (Call.getsockopt handle level name 4)
    res ← check_res pos_part r.ret
    pure (if is_ok res then ok tt else from_error res.err, field_at 0 val r.ints)

  -- `socket::set_option`: the option's fields, and its size in bytes
  unfoldable pub set_option : ℤ → ℤ → ℤ → List ℤ → ℕ → Action World (Result None)
  unfolding perform check_res_none
  set_option handle level name val len = do
    r ← perform (Call.setsockopt handle level name val len)
    check_res_none r.ret

-- A call that takes the object's handle
abbrev pub on_handle {ℓ} : {A : Type ℓ} → (ℤ → Action World A) → Action Object A
on_handle f o = static (f o.handle) o

-- `if (auto res = m; !res) { close(); return res; }`, and then `k`
module _ ⦃os : Os⦄ where
  abbrev pub or_close :
      Action Object (Result None) → Action Object (Result None) → Action Object (Result None)
  or_close m k o = let (res, o') = m o in if is_error res then (close >> pure res) o' else k o'
