-- ===== src/Tests/Options.antt =====
-- Options, flags and transfers at concrete values.
use sockpp.Prelude.{
  pos, negsuc, ℕ, ◌%◌, ◌^◌, ◌<◌, List, [], ◌∷◌, ◌≡◌, refl, true, false, arith, none, some,
}
use sockpp.Prelude.Bits.{bit_and_bit}
use sockpp.Error.{Errc, make_gai_error, eai_system}
use sockpp.Result.{ok, from_errc, last_error, unit_default, size_default, int_default, bool_default}
use sockpp.System.{Os, SetsErrno, Call, Event, Reply}
use sockpp.Socket.{get_option_at, set_option}
use sockpp.Socket.Options.{
  get_option, get_option_bool, set_option_int, set_option_bool, reuse_address, set_reuse_address,
  reuse_port, set_reuse_port, recv_buffer_size, set_recv_buffer_size, send_buffer_size,
  set_send_buffer_size, read_timeout, write_timeout, get_flags, set_flags, set_flag,
  is_non_blocking, set_non_blocking, shutdown, sol_socket, so_rcvtimeo,
}
use sockpp.Socket.Duration.{to_timeval}
use sockpp.Socket.Flags.{KeepsFlag, set_non_blocking_lem}
use sockpp.Socket.Transfer.{send, send_to, recv, recv_from}
use sockpp.Canbus.Frame.{new_fdframe, remote_frame, is_remote}
use sockpp.System.Held.{calls}
use sockpp.Tests.Systems.{table_os, all_succeed, start}

-- A system that keeps the flags of the last call, if that set them.
abbrev flags_of : Call → ℕ
flags_of (Call.setfl fd flags) = flags % 2 ^ 31
flags_of c = 2

abbrev last_flags : List Event → ℕ
last_flags [] = 2
last_flags (e ∷ es) = flags_of e.call

abbrev flag_reply : List Event → Call → Reply
flag_reply h (Call.getfl fd) = record {
  ret = pos (last_flags h);
  errno = pos 9;
  bytes = [];
  ints = [];
}
flag_reply h c = record { ret = pos 0; errno = pos 9; bytes = []; ints = [] }

abbrev flag_os : Os
flag_os = record { reply = flag_reply }

flags_of_bound : (c : Call) → flags_of c < 2 ^ 31
flags_of_bound (Call.setfl fd flags) = omega arith
flags_of_bound c = omega arith

last_flags_bound : (h : List Event) → last_flags h < 2 ^ 31
last_flags_bound [] = omega arith
last_flags_bound (e ∷ es) = flags_of_bound e.call

flag_os-KeepsFlag : KeepsFlag flag_os
flag_os-KeepsFlag = record {
  kept = λ h fd flags r good.
      (ground arith, ground (arith, bit_and_bit 11 flags, bit_and_bit 11 (flags % 2 ^ 31)));
  fits = λ h fd. last_flags_bound h;
}

flag_os-SetsErrno : SetsErrno flag_os
flag_os-SetsErrno h (Call.getfl fd) is_call failed = refl
flag_os-SetsErrno h c is_call failed = refl

set_non_blocking_lem_example :
    (is_non_blocking ⦃os = flag_os⦄
      (pos 3)
      (set_non_blocking ⦃os = flag_os⦄ (pos 3) true start).1).0
    ≡ true
unfolding set_non_blocking set_flag get_flags set_flags
set_non_blocking_lem_example =
    set_non_blocking_lem ⦃os = flag_os⦄ flag_os-KeepsFlag flag_os-SetsErrno (pos 3) true start refl

-- A system where all goes well and every option reads as before.
abbrev willing : Os
willing = table_os all_succeed []

getters :
    ((reuse_address ⦃os = willing⦄ (pos 3) start).0 ≡ ok false)
    × ((reuse_port ⦃os = willing⦄ (pos 3) start).0 ≡ ok false)
    × ((recv_buffer_size ⦃os = willing⦄ (pos 3) start).0 ≡ ok (pos 0))
    × ((send_buffer_size ⦃os = willing⦄ (pos 3) start).0 ≡ ok (pos 0))
unfolding reuse_address reuse_port recv_buffer_size send_buffer_size get_option get_option_bool
    get_option_at
getters = (refl, refl, refl, refl)

setters :
    ((set_reuse_address ⦃os = willing⦄ (pos 3) true start).0 ≡ ok tt)
    × ((set_reuse_port ⦃os = willing⦄ (pos 3) true start).0 ≡ ok tt)
    × ((set_recv_buffer_size ⦃os = willing⦄ (pos 3) (pos 9) start).0 ≡ ok tt)
    × ((set_send_buffer_size ⦃os = willing⦄ (pos 3) (pos 9) start).0 ≡ ok tt)
unfolding set_reuse_address set_reuse_port set_recv_buffer_size set_send_buffer_size set_option_int
    set_option_bool set_option
setters = (refl, refl, refl, refl)

timeouts :
    (calls (read_timeout ⦃os = willing⦄ (pos 3) (pos 1_500_000) start).1.history
      ≡ Call.setsockopt (pos 3) sol_socket so_rcvtimeo (pos 1 ∷ pos 500_000 ∷ []) 16 ∷ [])
    × ((write_timeout ⦃os = willing⦄ (pos 3) (pos 1) start).0 ≡ ok tt)
unfolding read_timeout write_timeout set_option to_timeval
timeouts = (refl, refl)

transfers :
    ((send ⦃os = willing⦄ (pos 3) [] (pos 0) start).0 ≡ ok 0)
    × ((send_to ⦃os = willing⦄ (pos 3) [] (pos 0) [] start).0 ≡ ok 0)
    × ((recv ⦃os = willing⦄ (pos 3) 5 (pos 0) start).0 ≡ (ok 0, []))
    × ((recv_from ⦃os = willing⦄ (pos 3) 5 (pos 0) none start).0 ≡ (ok 0, [], []))
unfolding send send_to recv recv_from
transfers = (refl, refl, refl, refl)

shut : (shutdown ⦃os = willing⦄ (negsuc 0) (pos 2) start).0 ≡ from_errc Errc.invalid_argument
unfolding shutdown
shut = refl

gai : make_gai_error (pos 5) eai_system ≡ last_error (pos 5)
unfolding make_gai_error
gai = refl

frames : ((new_fdframe 5 (some (7 ∷ [])) 1).len ≡ 1) × (is_remote (remote_frame 5).can_id ≡ true)
unfolding new_fdframe remote_frame is_remote
frames = (refl, refl)
