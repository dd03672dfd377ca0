-- ===== src/Socket/Ends.antt =====
-- The addresses of a socket's two ends, and moving a socket to another object.
use sockpp.Prelude.{
  copy_front, ℤ, pos, pos_part, ℕ, min, List, length, replicate, Option, some, if◌then◌else◌,
}
use sockpp.Result.{is_error, size_default}
use sockpp.System.{Os, World, Call, Action, perform, check_res, pure, ◌>>=◌, invalid_socket}
use sockpp.Address.{SockAddress, empty_any, any_of, max_sz}
use sockpp.Socket.{field_at}

-- What `sockaddr_storage{}` holds after the system stored these bytes in it
abbrev pub addr_store : List ℕ → List ℕ
addr_store bytes = copy_front (min (length bytes) max_sz) bytes (replicate max_sz 0)

module _ ⦃os : Os⦄ where
  -- `socket::address`; `none` is the exception of `sock_address_any`
  unfoldable pub address : ℤ → Action World (Option SockAddress)
  unfolding perform check_res any_of
  address handle = do
    r ← perform (Call.getsockname handle max_sz)
    res ← check_res pos_part r.ret
    pure (
        if is_error res
        then some empty_any
        else any_of (addr_store r.bytes) (pos_part (field_at 0 (pos max_sz) r.ints)))

  -- `socket::peer_address`
  unfoldable pub peer_address : ℤ → Action World (Option SockAddress)
  unfolding perform check_res any_of
  peer_address handle = do
    r ← perform (Call.getpeername handle max_sz)
    res ← check_res pos_part r.ret
    pure (
        if is_error res
        then some empty_any
        else any_of (addr_store r.bytes) (pos_part (field_at 0 (pos max_sz) r.ints)))

-- `socket(socket&&)`: the new object's handle, and that of the one moved from
unfoldable pub move_from : ℤ → ℤ × ℤ
move_from other = (other, invalid_socket)

-- `operator=(socket&&)`: the two handles are exchanged.
unfoldable pub move_assign : ℤ → ℤ → ℤ × ℤ
move_assign this other = (other, this)
