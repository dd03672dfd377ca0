-- ===== src/Canbus/Socket.antt =====
-- `class canbus_socket`: src/linux/canbus_socket.cpp and include/sockpp/canbus_socket.h. A frame
-- crosses the boundary to the system as the bytes of its structure, little-endian.
pub mod Wire
use sockpp.Prelude.{
  copy_front, ℤ, pos, ℕ, ◌+◌, ◌*◌, ◌/◌, ◌%◌, ◌^◌, ltb, List, [], ◌∷◌, ◌++◌, map, Bool,
  if◌then◌else◌, Option, none, some, length, replicate,
}
use sockpp.Error.{Errc, ErrorCode}
use sockpp.Result.{
  Result, Outcome, returns, throws, None, ok, is_error, is_ok, from_error, from_errc, size_default,
  unit_default,
}
use sockpp.System.{Os, World, Object, Call, Action, perform, check_res_none, pure, ◌>>=◌, static}
use sockpp.Address.{af_can}
use sockpp.Socket.{set_option}
use sockpp.Socket.Build.{or_throw, or_code}
use sockpp.Socket.Options.{set_option_int}
use sockpp.Socket.Transfer.{send, recv}
use sockpp.Datagram.{open_bound, sock_raw}
use sockpp.Canbus.Frame.{CanbusFrame, CanbusfdFrame, frame_of_fd, empty_fdframe}

-- `CAN_RAW`, `SOL_CAN_RAW`, and its options
abbrev pub can_raw : ℤ
can_raw = pos 1

abbrev pub sol_can_raw : ℤ
sol_can_raw = pos 101

abbrev pub can_raw_filter : ℤ
can_raw_filter = pos 1

abbrev pub can_raw_fd_frames : ℤ
can_raw_fd_frames = pos 5

-- `sizeof(can_frame)`, and `sizeof(canfd_frame)`
abbrev pub frame_sz : ℕ
frame_sz = 16

abbrev pub fdframe_sz : ℕ
fdframe_sz = 72

-- The structures as bytes
abbrev pub head_bytes : ℕ → ℕ → ℕ → ℕ → List ℕ → List ℕ
head_bytes can_id len flags reserved payload =
    can_id % 256
    ∷ can_id / 256 % 256
    ∷ can_id / 2 ^ 16 % 256
    ∷ can_id / 2 ^ 24 % 256
    ∷ len
    ∷ flags
    ∷ reserved % 256
    ∷ reserved / 256 % 256
    ∷ payload

abbrev pub frame_bytes : CanbusFrame → List ℕ
frame_bytes f = head_bytes f.can_id f.can_dlc f.flags f.reserved f.payload

abbrev pub fdframe_bytes : CanbusfdFrame → List ℕ
fdframe_bytes f = head_bytes f.can_id f.len f.flags f.reserved f.payload

abbrev pub fdframe_at : List ℕ → CanbusfdFrame
fdframe_at (b₀ ∷ b₁ ∷ b₂ ∷ b₃ ∷ len ∷ flags ∷ r₀ ∷ r₁ ∷ payload) = record {
  can_id = b₀ + 256 * b₁ + 2 ^ 16 * b₂ + 2 ^ 24 * b₃;
  len = len;
  flags = flags;
  reserved = r₀ + 256 * r₁;
  payload = payload;
}
fdframe_at bytes = empty_fdframe

-- A frame object after these bytes were stored at its start
abbrev pub stored : List ℕ → CanbusfdFrame
stored bytes = fdframe_at (copy_front (length bytes) bytes (replicate fdframe_sz 0))

module _ ⦃os : Os⦄ where
  -- `canbus_socket::open`
  unfoldable pub open_canbus : List ℕ → Action Object (Result None)
  unfolding open_bound
  open_canbus addr = open_bound (pos af_can) sock_raw can_raw addr

  -- `canbus_socket(addr)`, from a closed object
  unfoldable pub make_canbus : List ℕ → Action Object (Outcome None)
  unfolding open_canbus
  make_canbus addr = or_throw (open_canbus addr)

  -- `canbus_socket(addr, ec)`
  unfoldable pub make_canbus_ec : List ℕ → Action Object ErrorCode
  unfolding open_canbus
  make_canbus_ec addr = or_code (open_canbus addr)

  -- `set_fd_mode`
  unfoldable pub set_fd_mode : ℤ → Bool → Action World (Result None)
  unfolding set_option_int
  set_fd_mode handle on =
      set_option_int handle sol_can_raw can_raw_fd_frames (if on then pos 1 else pos 0)

  -- `set_filters`: the words of the filters, an identifier and a mask each
  unfoldable pub set_filters : ℤ → List (ℕ × ℕ) → Action World (Result None)
  unfolding set_option
  set_filters handle filters =
      set_option handle sol_can_raw can_raw_filter (words filters) (8 * length filters)
    where
      words : List (ℕ × ℕ) → List ℤ
      words [] = []
      words (f ∷ fs) = pos f.0 ∷ pos f.1 ∷ words fs

  -- `send(const canbus_frame&)`, and `send(const canbusfd_frame&)`
  unfoldable pub send_frame : ℤ → CanbusFrame → ℤ → Action World (Result ℕ)
  unfolding send
  send_frame handle frame flags = send handle (frame_bytes frame) flags

  unfoldable pub send_fdframe : ℤ → CanbusfdFrame → ℤ → Action World (Result ℕ)
  unfolding send
  send_fdframe handle frame flags = send handle (fdframe_bytes frame) flags

  -- `recv(canbus_frame*)`: the result, and the frame if the pointer's is overwritten; the conversion
  -- of the frame may throw
  unfoldable pub recv_frame : ℤ → ℤ → Action World (Outcome (Result ℕ × Option CanbusFrame))
  unfolding recv frame_of_fd
  recv_frame handle flags = do
    (res, bytes) ← recv handle fdframe_sz flags
    pure (
        if is_error res
        then returns (from_error res.err, none)
        else if ltb frame_sz res.val
        then returns (from_errc Errc.message_size, none)
        else elim (frame_of_fd (stored bytes)) [
          | returns f ↦ returns (res, some f)
          | throws e ↦ throws e
        ])

  -- `recv(canbusfd_frame*)`, and `recv_fd`
  unfoldable pub recv_fdframe : ℤ → ℤ → Action World (Result ℕ × CanbusfdFrame)
  unfolding recv
  recv_fdframe handle flags = do
    (res, bytes) ← recv handle fdframe_sz flags
    pure (res, stored bytes)
