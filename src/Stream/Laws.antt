-- ===== src/Stream/Laws.antt =====
-- What the loops of `stream_socket` rely on, and what a history moved on a descriptor.
use sockpp.Prelude.{
  ℤ, pos, ℕ, ◌≤◌, ◌<◌, ◌≡◌, List, [], ◌∷◌, ◌++◌, Bool, true, false, eqb_ℤ, ltb_ℤ, ◌&&◌,
  if◌then◌else◌, take, length, pos_part, Option, none, some,
}
use sockpp.Error.{ErrorCode, Errc, matches}
use sockpp.Result.{last_error}
use sockpp.System.{Os, SetsErrno, Call, Reply, Event}

-- A call that a signal interrupted
abbrev pub is_interrupted : Reply → Bool
is_interrupted r = ltb_ℤ r.ret (pos 0) && matches (last_error r.errno) Errc.interrupted

-- The documented behaviour of `recv` and `send` on a stream: a failure sets `errno`; no more bytes are
-- moved than were asked for, and as many are written to the buffer as `recv` returns. And signals
-- come to an end: `patience` bounds how many calls will still be interrupted.
pub record StreamLaws (os : Os) : Type 0 where
  pub sets : SetsErrno os
  pub recv_bounded :
      (h : List Event) (fd : ℤ) (n : ℕ) (flags : ℤ)
      → pos_part (os.reply h (Call.recv fd n flags)).ret ≤ n
  pub recv_fills :
      (h : List Event) (fd : ℤ) (n : ℕ) (flags : ℤ)
      → length (os.reply h (Call.recv fd n flags)).bytes
        ≡ pos_part (os.reply h (Call.recv fd n flags)).ret
  pub send_bounded :
      (h : List Event) (fd : ℤ) (buf : List ℕ) (flags : ℤ)
      → pos_part (os.reply h (Call.send fd buf flags)).ret ≤ length buf
  pub patience : List Event → ℕ
  pub patience_le :
      (h : List Event) (c : Call)
      → patience (record { call = c; reply = os.reply h c } ∷ h) ≤ patience h
  pub patience_lt :
      (h : List Event) (c : Call)
      → is_interrupted (os.reply h c) ≡ true
      → patience (record { call = c; reply = os.reply h c } ∷ h) < patience h

-- The bytes that one event moved on the descriptor, in and out.
abbrev pub delivered_by : ℤ → Call → Reply → List ℕ
delivered_by fd (Call.recv h n flags) r = if eqb_ℤ h fd then take (pos_part r.ret) r.bytes else []
delivered_by fd c r = []

abbrev pub accepted_by : ℤ → Call → Reply → List ℕ
accepted_by fd (Call.send h buf flags) r = if eqb_ℤ h fd then take (pos_part r.ret) buf else []
accepted_by fd c r = []

-- All that came from the descriptor so far, in order.
unfoldable pub delivered : ℤ → List Event → List ℕ
delivered fd [] = []
delivered fd (e ∷ es) = delivered fd es ++ delivered_by fd e.call e.reply

-- All that the system took for the descriptor so far, in order.
unfoldable pub accepted : ℤ → List Event → List ℕ
accepted fd [] = []
accepted fd (e ∷ es) = accepted fd es ++ accepted_by fd e.call e.reply

-- The last call returned 0: the end of the stream, or nothing taken.
abbrev pub last_is_zero : List Event → Bool
last_is_zero [] = false
last_is_zero (e ∷ es) = eqb_ℤ e.reply.ret (pos 0)

-- The code of a call on the descriptor that failed; and that of the last call of all, if it was one to
-- receive, or to send, on the descriptor and failed
abbrev pub fault : ℤ → Reply → ℤ → Option ErrorCode
fault fd r h = if eqb_ℤ h fd && ltb_ℤ r.ret (pos 0) then some (last_error r.errno) else none

abbrev pub recv_fault_of : ℤ → Call → Reply → Option ErrorCode
recv_fault_of fd (Call.recv h n flags) r = fault fd r h
recv_fault_of fd c r = none

abbrev pub send_fault_of : ℤ → Call → Reply → Option ErrorCode
send_fault_of fd (Call.send h buf flags) r = fault fd r h
send_fault_of fd c r = none

abbrev pub recv_fault : ℤ → List Event → Option ErrorCode
recv_fault fd [] = none
recv_fault fd (e ∷ es) = recv_fault_of fd e.call e.reply

abbrev pub send_fault : ℤ → List Event → Option ErrorCode
send_fault fd [] = none
send_fault fd (e ∷ es) = send_fault_of fd e.call e.reply
