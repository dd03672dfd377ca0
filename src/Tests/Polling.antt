-- ===== src/Tests/Polling.antt =====
-- A poller with two sockets.
use sockpp.Prelude.{pos, [], ◌∷◌, ◌≡◌, refl, some}
use sockpp.Result.{ok}
use sockpp.System.{Os}
use sockpp.Poller.{Poller, wait, store_revents, collect}
use sockpp.Poller.Registry.{Waits, wait-Waits}
use sockpp.Tests.Systems.{table_os, all_succeed, start}

abbrev two : Poller
two = record {
  socks = 100 ∷ 200 ∷ [];
  pfds =
      record { fd = pos 3; events = 1; revents = 0 }
      ∷ record { fd = pos 4; events = 5; revents = 0 }
      ∷ [];
}

-- The second socket is ready.
abbrev second_ready : Os
second_ready = table_os all_succeed (0 ∷ 4 ∷ [])

wait_runs :
    (wait ⦃os = second_ready⦄ (pos 10) two start).0.0
    ≡ ok (record { sock = some 200; events = 4 } ∷ [])
unfolding wait store_revents collect
wait_runs = refl

wait-Waits_example : Waits ⦃os = second_ready⦄ (pos 10) two start
wait-Waits_example = wait-Waits ⦃os = second_ready⦄ (pos 10) two start refl
