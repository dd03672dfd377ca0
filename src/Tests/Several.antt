-- ===== src/Tests/Several.antt =====
-- A pair of sockets, one of which is cloned, moved, released and taken over again.
use sockpp.Prelude.{pos, negsuc, [], ◌∷◌, ◌≡◌, refl, arith}
use sockpp.System.{Os, SetsErrno, Call, Reply, perform}
use sockpp.System.Held.{held}
use sockpp.System.Bag.{count}
use sockpp.Socket.Several.{
  Process, process, destroy_all, StoresPair, Step, Run, after_pair, after_result,
}
use sockpp.Socket.Several.Owned.{Run-destroy_all}
use sockpp.Socket.{pair, clone, release}
use sockpp.Socket.Ends.{move_from}
use sockpp.Tests.Systems.{start}

abbrev pairing_reply : Call → Reply
pairing_reply (Call.socketpair d t p) = record {
  ret = pos 0;
  errno = pos 0;
  bytes = [];
  ints = pos 5 ∷ pos 6 ∷ [];
}
pairing_reply (Call.dup h) = record { ret = pos 7; errno = pos 0; bytes = []; ints = [] }
pairing_reply c = record { ret = pos 0; errno = pos 0; bytes = []; ints = [] }

abbrev pairing : Os
pairing = record { reply = λ h c. pairing_reply c }

pairing-SetsErrno : SetsErrno pairing
pairing-SetsErrno h (Call.socketpair d t p) is_call failed = ground arith
pairing-SetsErrno h (Call.dup k) is_call failed = ground arith
pairing-SetsErrno h c is_call failed = ground (arith, failed)

pairing-StoresPair : StoresPair pairing
pairing-StoresPair h d t p fine = (pos 5, pos 6, refl, refl, refl)

abbrev paired : Process
paired = after_pair [] [] (pair ⦃os = pairing⦄ (pos 1) (pos 1) (pos 0) start)

abbrev cloned : Process
cloned = after_result (pos 5 ∷ pos 6 ∷ []) [] (clone ⦃os = pairing⦄ (pos 5) paired.world)

abbrev moved : Process
moved = process (pos 5 ∷ pos 7 ∷ negsuc 0 ∷ pos 6 ∷ []) [] cloned.world

abbrev let_go : Process
let_go = process (pos 5 ∷ pos 7 ∷ negsuc 0 ∷ negsuc 0 ∷ []) (pos 6 ∷ []) cloned.world

Run-destroy_all_example :
    (count (pos 6) (held let_go.world.history) ≡ 1)
    × (count (pos 6) (held (destroy_all ⦃os = pairing⦄ let_go.sockets let_go.world).history) ≡ 1)
unfolding held destroy_all pair clone release move_from perform
Run-destroy_all_example =
    let s₁ : Step ⦃os = pairing⦄ (process [] [] start) paired =
      Step.pairs (pos 1) (pos 1) (pos 0) [] [] start in
    let s₂ : Step ⦃os = pairing⦄ paired cloned =
      Step.clones (pos 5) (pos 5 ∷ pos 6 ∷ []) [] paired.world in
    let s₃ : Step ⦃os = pairing⦄ cloned moved =
      Step.moves (pos 7 ∷ []) (pos 5) (pos 6 ∷ []) [] cloned.world in
    let s₄ : Step ⦃os = pairing⦄ moved let_go =
      Step.releases (pos 5 ∷ pos 7 ∷ negsuc 0 ∷ []) (pos 6) [] [] cloned.world in
    Run-destroy_all ⦃os = pairing⦄ start let_go pairing-SetsErrno pairing-StoresPair
      (Run.next (Run.next (Run.next (Run.next Run.here s₁) s₂) s₃) s₄) (pos 6)
