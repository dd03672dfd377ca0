-- ===== src/Tests/Frames.antt =====
-- CAN frames.
use sockpp.Prelude.{negsuc, ◌/◌, ◌%◌, ◌^◌, ◌≡◌, arith}
use sockpp.Canbus.Frame.{CanbusfdFrame, set_standard_id, empty_fdframe}
use sockpp.Canbus.Frame.Ident.{set_standard_id_lem}
use sockpp.Socket.Duration.{to_timeval, to_duration, to_duration-to_timeval}

-- 0x55 over an extended frame with the identifier 0x1234567: bits of that stay in the word.
set_standard_id_lem_example :
    set_standard_id 0x8123_4567 0x55 / 2 ^ 11 % 2 ^ 18 ≡ 0x8123_4567 / 2 ^ 11 % 2 ^ 18
set_standard_id_lem_example = (set_standard_id_lem 0x8123_4567 0x55 (omega arith)).4

abbrev long_frame : CanbusfdFrame
long_frame = record empty_fdframe { can_id = 16; len = 9 }

to_duration-to_timeval_example : to_duration (to_timeval (negsuc 1_500_000)) ≡ negsuc 1_500_000
to_duration-to_timeval_example = (to_duration-to_timeval (negsuc 1_500_000)).0
