-- ===== src/Canbus/Frame/Payload.antt =====
-- What a frame carries, and the conversions between the two kinds of frame.
use Prim.Native.Nat.{min}
use sockpp.Prelude.{
  copy_front, ℕ, ◌≤◌, ◌<◌, ◌≡◌, refl, zero, suc, ap, List, [], ◌∷◌, ◌∙◌, arith, some, none, take,
  drop, length, replicate, length-append, length-take, length-drop, take_all, take-append_left,
}
use native.Mathlib.Decide.{dec_le}
use sockpp.Error.{Errc, make_error_code, no_error}
use sockpp.Result.{returns, throws}
use sockpp.Canbus.Frame.{
  CanbusFrame, CanbusfdFrame, frame_of_string, frame_of_fd, frame_of_fd_ec, fd_of_frame,
  can_max_dlen, canfd_max_dlen, truncate, empty_frame,
}

-- The arrays have their sizes, and the length fits the array.
pub record IsFrame (c : CanbusFrame) : Type 0 where
  pub sized : length c.payload ≡ can_max_dlen
  pub within : c.can_dlc ≤ can_max_dlen

pub record IsFdframe (f : CanbusfdFrame) : Type 0 where
  pub sized : length f.payload ≡ canfd_max_dlen
  pub within : f.len ≤ canfd_max_dlen

-- `memcpy` to the front of an array keeps the array's size, and what was copied stands there.
module _ (n : ℕ) (src dst : List ℕ) (from : n ≤ length src) (to : n ≤ length dst) where
  length-copy_front : length (copy_front n src dst) ≡ length dst
  length-copy_front =
      omega (arith, length-append (take n src) (drop n dst), length-take n src, length-drop n dst)

  take-copy_front : take n (copy_front n src dst) ≡ take n src
  take-copy_front = take-append_left n (take n src) (drop n dst) (omega (arith, length-take n src))

-- As much as there is, of as much as fits
take-min : (n : ℕ) (xs : List ℕ) → take (min (length xs) n) xs ≡ take n xs
take-min n xs = elim (dec_le n (length xs)) [
  | yes p ↦ let e : min (length xs) n ≡ n = omega arith in rw e
  | no q ↦
      let e : min (length xs) n ≡ length xs = omega arith in
      rw (e, take_all (length xs) xs (omega arith), take_all n xs (omega arith))
]

-- A frame that is made from data holds as many bytes of it as fit, at the front of its array, and says so.
frame_of_string-IsFrame :
    (id : ℕ) (text : List ℕ)
    → let c = frame_of_string id text in
      IsFrame c
      × (c.can_id ≡ id)
      × (c.can_dlc ≡ min (length text) can_max_dlen)
      × (take c.can_dlc c.payload ≡ take can_max_dlen text)
unfolding frame_of_string
frame_of_string-IsFrame id [] = (record { sized = refl; within = omega arith }, refl, refl, refl)
frame_of_string-IsFrame id (x ∷ text) =
    let n = min (length (x ∷ text)) can_max_dlen in
    let zeros : List ℕ = replicate can_max_dlen 0 in
    let all = x ∷ text in
    let sized = length-copy_front n all zeros (omega arith) (omega arith) in
    let front = take-copy_front n all zeros (omega arith) (omega arith) in
    let made : CanbusFrame = record empty_frame {
      can_id = id;
      can_dlc = n;
      payload = copy_front n all zeros;
    } in
    let e : frame_of_string id all ≡ made = ground arith in
    rw e (
      record { sized = sized; within = omega arith },
      refl,
      refl,
      front ∙ take-min can_max_dlen all,
    )

take-take : (m n : ℕ) (xs : List ℕ) → m ≤ n → take m (take n xs) ≡ take m xs
take-take zero n xs h = refl
take-take (suc m) zero xs h = absurd (omega arith)
take-take (suc m) (suc n) [] h = refl
take-take (suc m) (suc n) (x ∷ xs) h = ap (◌∷◌ x) (take-take m n xs (omega arith))

-- What becomes of an FD frame that is made into a classic one: refused with `invalid_argument` by both
-- constructors if it is too long for one, and otherwise taken over by both, with its identifier, its
-- length and the bytes that count.
frame_of_fd_lem :
    (f : CanbusfdFrame)
    → IsFdframe f
    → (can_max_dlen < f.len
        → (frame_of_fd f ≡ throws (make_error_code Errc.invalid_argument))
          × (frame_of_fd_ec f ≡ (none, make_error_code Errc.invalid_argument)))
      × (f.len ≤ can_max_dlen
          → (c : CanbusFrame) × (frame_of_fd f ≡ returns c)
            × (frame_of_fd_ec f ≡ (some c, no_error))
            × IsFrame c
            × (c.can_id ≡ f.can_id)
            × (c.can_dlc ≡ f.len)
            × (take c.can_dlc c.payload ≡ take f.len f.payload))
unfolding frame_of_fd frame_of_fd_ec
frame_of_fd_lem f h = (
  λ long. (ground arith, ground arith),
  λ short. (
    truncate f,
    ground arith,
    ground arith,
    record { sized = omega (arith, length-take can_max_dlen f.payload, h.sized); within = short },
    refl,
    refl,
    take-take f.len can_max_dlen f.payload short,
  ),
)

-- A classic frame survives the way through an FD frame and back.
frame_of_fd-fd_of_frame : (c : CanbusFrame) → IsFrame c → frame_of_fd (fd_of_frame c) ≡ returns c
unfolding frame_of_fd fd_of_frame
frame_of_fd-fd_of_frame c h = ground (arith, h.sized, h.within)
