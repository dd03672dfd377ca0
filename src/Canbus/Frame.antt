-- ===== src/Canbus/Frame.antt =====
-- `canbus_frame`, `canbus_remote_frame` and `canbusfd_frame`: src/linux/canbus_frame.cpp and
-- include/sockpp/canbus_frame.h. `can_id` is a 32-bit word; the payload array is given by its bytes.
pub mod Ident
pub mod Payload
use Prim.Native.Nat.{bit_and, bit_or, bit_xor}
use sockpp.Prelude.{
  copy_front, ℕ, min, List, ◌++◌, Bool, not, ltb, ◌==◌, if◌then◌else◌, Option, none, some, take,
  drop, length, replicate,
}
use sockpp.Error.{ErrorCode, Errc, no_error, make_error_code}
use sockpp.Result.{Outcome, returns, throws}

abbrev pub can_eff_flag : ℕ
can_eff_flag = 0x8000_0000

abbrev pub can_rtr_flag : ℕ
can_rtr_flag = 0x4000_0000

abbrev pub can_err_flag : ℕ
can_err_flag = 0x2000_0000

abbrev pub can_sff_mask : ℕ
can_sff_mask = 0x7ff

abbrev pub can_eff_mask : ℕ
can_eff_mask = 0x1fff_ffff

abbrev pub can_max_dlen : ℕ
can_max_dlen = 8

abbrev pub canfd_max_dlen : ℕ
canfd_max_dlen = 64

-- `~m` on `canid_t`
abbrev pub bit_not : ℕ → ℕ
bit_not m = bit_xor 0xffff_ffff m

-- `can_frame`: `can_dlc` bytes of `data` count, and the array has 8. The three bytes between the two
-- are `flags` and the reserved ones, as in `canfd_frame`.
pub record CanbusFrame : Type 0 where
  pub can_id : ℕ
  pub can_dlc : ℕ
  pub flags : ℕ
  pub reserved : ℕ
  pub payload : List ℕ

-- `canfd_frame`, with an array of 64
pub record CanbusfdFrame : Type 0 where
  pub can_id : ℕ
  pub len : ℕ
  pub flags : ℕ
  pub reserved : ℕ
  pub payload : List ℕ

-- `base{}`: all bytes zero
abbrev pub empty_frame : CanbusFrame
empty_frame = record {
  can_id = 0;
  can_dlc = 0;
  flags = 0;
  reserved = 0;
  payload = replicate can_max_dlen 0;
}

abbrev pub empty_fdframe : CanbusfdFrame
empty_fdframe = record {
  can_id = 0;
  len = 0;
  flags = 0;
  reserved = 0;
  payload = replicate canfd_max_dlen 0;
}

-- `canbus_frame(canID, data, n)`; a null pointer is `none`, and the data has at least `n` bytes
pub new_frame : ℕ → Option (List ℕ) → ℕ → CanbusFrame
new_frame can_id none n = record empty_frame { can_id = can_id }
new_frame can_id (some bytes) n =
    if n == 0
    then record empty_frame { can_id = can_id }
    else (let m = min n can_max_dlen in
        record empty_frame {
          can_id = can_id;
          can_dlc = m;
          payload = copy_front m bytes (replicate can_max_dlen 0);
        })

-- `canbus_frame(canID, const string&)`
pub frame_of_string : ℕ → List ℕ → CanbusFrame
unfolding new_frame
frame_of_string can_id text = new_frame can_id (some text) (length text)

-- `canbusfd_frame(canID, data, n)`
unfoldable pub new_fdframe : ℕ → Option (List ℕ) → ℕ → CanbusfdFrame
new_fdframe can_id none n = record empty_fdframe { can_id = can_id }
new_fdframe can_id (some bytes) n =
    if n == 0
    then record empty_fdframe { can_id = can_id }
    else (let m = min n canfd_max_dlen in
        record empty_fdframe {
          can_id = can_id;
          len = m;
          payload = copy_front m bytes (replicate canfd_max_dlen 0);
        })

-- The 16 bytes that a classic frame shares with the front of an FD frame, taken over
abbrev pub truncate : CanbusfdFrame → CanbusFrame
truncate f = record {
  can_id = f.can_id;
  can_dlc = f.len;
  flags = f.flags;
  reserved = f.reserved;
  payload = take can_max_dlen f.payload;
}

-- `canbus_frame(const canbusfd_frame&)`
unfoldable pub frame_of_fd : CanbusfdFrame → Outcome CanbusFrame
frame_of_fd f =
    if ltb can_max_dlen f.len
    then throws (make_error_code Errc.invalid_argument)
    else returns (truncate f)

-- `canbus_frame(const canbusfd_frame&, error_code&)`: the frame, which stays uninitialised with
-- an error, and the code
pub frame_of_fd_ec : CanbusfdFrame → Option CanbusFrame × ErrorCode
frame_of_fd_ec f =
    if ltb can_max_dlen f.len
    then (none, make_error_code Errc.invalid_argument)
    else (some (truncate f), no_error)

-- `canbusfd_frame(const canbus_frame&)`
pub fd_of_frame : CanbusFrame → CanbusfdFrame
fd_of_frame c = record {
  can_id = c.can_id;
  len = c.can_dlc;
  flags = c.flags;
  reserved = c.reserved;
  payload = copy_front can_max_dlen c.payload (replicate canfd_max_dlen 0);
}

-- The identifier, as both classes read and set it. `has_extended_id`, `is_remote` and `is_error`:
pub has_extended_id : ℕ → Bool
has_extended_id can_id = not (bit_and can_id can_eff_flag == 0)

unfoldable pub is_remote : ℕ → Bool
is_remote can_id = not (bit_and can_id can_rtr_flag == 0)

pub is_error : ℕ → Bool
is_error can_id = not (bit_and can_id can_err_flag == 0)

pub id_value : ℕ → ℕ
unfolding has_extended_id
id_value can_id =
    if has_extended_id can_id then bit_and can_id can_eff_mask else bit_and can_id can_sff_mask

pub set_standard_id : ℕ → ℕ → ℕ
set_standard_id can_id new_id =
    bit_or (bit_and can_id (bit_not (bit_or can_eff_flag can_sff_mask)))
      (bit_and new_id can_sff_mask)

pub set_extended_id : ℕ → ℕ → ℕ
set_extended_id can_id new_id =
    bit_or (bit_and can_id (bit_not can_eff_mask))
      (bit_or can_eff_flag (bit_and new_id can_eff_mask))

-- `canbus_remote_frame(canID)`
unfoldable pub remote_frame : ℕ → CanbusFrame
unfolding new_frame
remote_frame can_id = new_frame (bit_or can_rtr_flag can_id) none 0
