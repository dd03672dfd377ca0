-- ===== src/Socket/Transfer.antt =====
-- `send`, `send_to`, `recv` and `recv_from` of `class socket`. A receiving call returns its result
-- and the bytes that the system wrote to the buffer; `recv_from` the sender's address too.
use sockpp.Prelude.{ℤ, pos_part, ℕ, List, [], map, Option, none, some}
use sockpp.Result.{Result, size_default}
use sockpp.System.{Os, World, Call, Action, perform, check_res, pure, ◌>>=◌}

module _ ⦃os : Os⦄ where
  unfoldable pub send : ℤ → List ℕ → ℤ → Action World (Result ℕ)
  unfolding perform check_res
  send handle buf flags = do r ← perform (Call.send handle buf flags); check_res pos_part r.ret

  unfoldable pub send_to : ℤ → List ℕ → ℤ → List ℕ → Action World (Result ℕ)
  unfolding perform check_res
  send_to handle buf flags addr = do
    r ← perform (Call.sendto handle buf flags addr)
    check_res pos_part r.ret

  unfoldable pub recv : ℤ → ℕ → ℤ → Action World (Result ℕ × List ℕ)
  unfolding perform check_res
  recv handle n flags = do
    r ← perform (Call.recv handle n flags)
    res ← check_res pos_part r.ret
    pure (res, r.bytes)

  -- The size of the address object, or none for a null pointer, and the bytes that it then holds
  unfoldable pub recv_from : ℤ → ℕ → ℤ → Option ℕ → Action World (Result ℕ × List ℕ × List ℕ)
  unfolding perform check_res
  recv_from handle n flags src_addr = do
    r ← perform (Call.recvfrom handle n flags (elim src_addr [ none ↦ 0 | some size ↦ size ]))
    res ← check_res pos_part r.ret
    pure (res, r.bytes, elim src_addr [ none ↦ [] | some _ ↦ map pos_part r.ints ])
