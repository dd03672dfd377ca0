-- ===== src/Canbus/Socket/Wire.antt =====
-- Frames to the wire and back.
use sockpp.Prelude.{
  ℤ, pos, ltb_ℤ, ℕ, ◌+◌, ◌*◌, ◌/◌, ◌%◌, ◌^◌, ◌<◌, List, ◌≡◌, refl, true, arith, none, some, length,
  replicate, take, take_all, take-append_left,
}
use sockpp.Error.{Errc}
use sockpp.Result.{returns, ok, from_errc, from_error, last_error, size_default}
use sockpp.System.{Os, SetsErrno, World, Call}
use sockpp.Socket.Transfer.{recv}
use sockpp.Canbus.Frame.{CanbusFrame, frame_of_fd, can_max_dlen, truncate}
use sockpp.Canbus.Frame.Payload.{IsFrame}
use sockpp.Canbus.Socket.{recv_frame, frame_bytes, stored, fdframe_sz, frame_sz}

-- The words of a frame fit their types.
pub record IsWire (can_id reserved : ℕ) : Type 0 where
  pub id_fits : can_id < 2 ^ 32
  pub reserved_fits : reserved < 2 ^ 16

length-frame_bytes : (f : CanbusFrame) → IsFrame f → length (frame_bytes f) ≡ frame_sz
length-frame_bytes f ok_f = ground (arith, ok_f.sized)

truncate-stored :
    (f : CanbusFrame)
    → IsFrame f
    → IsWire f.can_id f.reserved
    → truncate (stored (frame_bytes f)) ≡ f
truncate-stored f ok_f wire =
    let beyond : List ℕ = replicate 56 0 in
    let word : f.can_id % 256
          + 256 * (f.can_id / 256 % 256)
          + 2 ^ 16 * (f.can_id / 2 ^ 16 % 256)
          + 2 ^ 24 * (f.can_id / 2 ^ 24 % 256)
        ≡ f.can_id =
      omega (arith, wire.id_fits) in
    let half : f.reserved % 256 + 256 * (f.reserved / 256 % 256) ≡ f.reserved =
      omega (arith, wire.reserved_fits) in
    let whole : take can_max_dlen f.payload ≡ f.payload =
      take_all can_max_dlen f.payload (omega (arith, ok_f.sized)) in
    let front = take-append_left can_max_dlen f.payload beyond ok_f.sized in
    rw (ok_f.sized, word, half, whole, front) refl

module _ ⦃os : Os⦄ where
  -- The call that receives on a CAN socket, by what the system replies: its error if it fails; a reply
  -- of more than 16 bytes, such as an FD frame, is `message_size`, and no frame is stored; and the 16
  -- bytes of a classic frame are stored as that frame. It relies on calls that fail setting `errno`.
  pub recv_frame_lem :
      (handle flags : ℤ) (w : World)
      → SetsErrno os
      → let r = os.reply w.history (Call.recv handle fdframe_sz flags) in
        let answer = (recv_frame handle flags w).0 in
        (ltb_ℤ r.ret (pos 0) ≡ true → answer ≡ returns (from_error (last_error r.errno), none))
        × (ltb_ℤ (pos frame_sz) r.ret ≡ true → answer ≡ returns (from_errc Errc.message_size, none))
        × ((f : CanbusFrame)
            → IsFrame f
            → IsWire f.can_id f.reserved
            → r.ret ≡ pos frame_sz
            → r.bytes ≡ frame_bytes f
            → answer ≡ returns (ok frame_sz, some f))
  unfolding recv_frame recv frame_of_fd
  recv_frame_lem handle flags w sets = (
    ground (arith, sets w.history (Call.recv handle fdframe_sz flags)),
    ground arith,
    λ f ok_f wire full bytes.
        rw (full, bytes) (ground (arith, truncate-stored f ok_f wire, ok_f.within)),
  )
