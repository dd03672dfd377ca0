-- ===== src/Tests/Streams.antt =====
-- The loops of `stream_socket` on a system that interrupts them.
use sockpp.Prelude.{pos, [], ◌∷◌, ◌≡◌, refl, some, arith}
use sockpp.Result.{ok}
use sockpp.Stream.{read, read_n, read_n_loop, write, write_n, write_n_loop}
use sockpp.Stream.Laws.{delivered, accepted}
use sockpp.Stream.ReadAll.{Reads, read_n-Reads}
use sockpp.Stream.WriteAll.{Writes, write_n-Writes}
use sockpp.Tests.Systems.{start, interrupting, interrupting-StreamLaws}

read_n_runs : (read_n ⦃os = interrupting⦄ 5 (pos 3) 3 start).0 ≡ some (ok 3, 7 ∷ 7 ∷ 7 ∷ [])
unfolding read_n read_n_loop read
read_n_runs = refl

write_n_runs : (write_n ⦃os = interrupting⦄ 5 (pos 3) (1 ∷ 2 ∷ 3 ∷ []) start).0 ≡ some (ok 3)
unfolding write_n write_n_loop write
write_n_runs = refl

read_n-Reads_example :
    Reads
      (pos 3)
      3
      (delivered (pos 3) [])
      (read_n ⦃os = interrupting⦄ 5 (pos 3) 3 start).0
      (read_n ⦃os = interrupting⦄ 5 (pos 3) 3 start).1
read_n-Reads_example =
    read_n-Reads ⦃os = interrupting⦄ interrupting-StreamLaws 5 (pos 3) 3 start (omega arith)

write_n-Writes_example :
    Writes
      (pos 3)
      (1 ∷ 2 ∷ 3 ∷ [])
      (accepted (pos 3) [])
      (write_n ⦃os = interrupting⦄ 5 (pos 3) (1 ∷ 2 ∷ 3 ∷ []) start).0
      (write_n ⦃os = interrupting⦄ 5 (pos 3) (1 ∷ 2 ∷ 3 ∷ []) start).1
write_n-Writes_example =
    write_n-Writes ⦃os = interrupting⦄ interrupting-StreamLaws 5 (pos 3) (1 ∷ 2 ∷ 3 ∷ []) start
      (omega arith)
