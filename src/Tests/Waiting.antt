-- ===== src/Tests/Waiting.antt =====
-- A connection that is in progress, on a system where asking for its error fails.
use sockpp.Prelude.{pos, negsuc, [], ◌∷◌, ◌≡◌, refl, arith}
use sockpp.Result.{ok, unit_default}
use sockpp.System.{Os, SetsErrno, Call, Reply, Object}
use sockpp.System.Held.{held, Owns}
use sockpp.Socket.{close}
use sockpp.Connector.{connect_or_wait, connect, disconnect}
use sockpp.Connector.Lifetime.{Step, Reach, lifetime-Owns}
use sockpp.Connector.Waiting.{connect_or_wait_lem}
use sockpp.Tests.Systems.{start, closed, table_os, table_os-SetsErrno, none_bound}

abbrev slow_reply : Call → Reply
slow_reply (Call.poll fds timeout) = record {
  ret = pos 1;
  errno = pos 0;
  bytes = 4 ∷ [];
  ints = [];
}
slow_reply c = record { ret = negsuc 0; errno = pos 115; bytes = []; ints = [] }

abbrev slow : Os
slow = record { reply = λ h c. slow_reply c }

slow-SetsErrno : SetsErrno slow
slow-SetsErrno h (Call.poll fds timeout) is_call failed = ground arith
slow-SetsErrno h c is_call failed = refl

connect_or_wait_lem_example :
    (connect_or_wait ⦃os = slow⦄ 100 [] (pos 1000) (pos 3) start).0 ≡ ok tt
connect_or_wait_lem_example =
    ((connect_or_wait_lem ⦃os = slow⦄ 100 [] (pos 1000) (pos 3) start slow-SetsErrno).2 refl refl).2
      refl (λ e. ground (arith, e))

-- A connector that fails to connect, and is then disconnected.
abbrev failing : Os
failing = table_os none_bound []

abbrev tried : Object
tried = (connect ⦃os = failing⦄ [] (pos 0) closed).1

abbrev used : Object
used = (disconnect ⦃os = failing⦄ tried).1

lifetime-Owns_example : Owns [] used × (held (close ⦃os = failing⦄ used).1.world.history ≡ [])
unfolding held
lifetime-Owns_example =
    let tries : Step ⦃os = failing⦄ closed tried = Step.connects [] (pos 0) closed in
    let ends : Step ⦃os = failing⦄ tried used = Step.disconnects tried in
    lifetime-Owns ⦃os = failing⦄ start used (table_os-SetsErrno none_bound [])
      (Reach.next (Reach.next Reach.here tries) ends)
