-- ===== src/Tests/MbedHandshake.antt =====
-- A handshake in which the first receipt would block.
use sockpp.Prelude.{
  pos, negsuc, ℕ, ◌<◌, eqb_ℤ, List, [], ◌∷◌, ◌≡◌, refl, Bool, true, false, min, if◌then◌else◌,
  arith,
}
use sockpp.Library.{MbedCall}
use sockpp.System.{Os, SetsErrno, Event, Call, Reply, invalid_socket}
use sockpp.Tls.Mbed.{neg, ssl_want_read}
use sockpp.Tls.Mbed.Socket.{Program, return_value, send, receive, Mbed}
use sockpp.Tls.Mbed.Socket.Calm.{Answers, is_refused}
use sockpp.Tls.Mbed.Socket.Refused.{is_want}
use sockpp.Tests.MbedSystems.{mbed_os, seen}

abbrev is_receipt : Call → Bool
is_receipt (Call.recv d n f) = true
is_receipt c = false

-- `EAGAIN` at the first receipt
abbrev hesitant_reply : List Event → Call → Reply
hesitant_reply h (Call.recv d n f) = record {
  ret =
      if eqb_ℤ d invalid_socket
      then negsuc 0
      else if seen is_receipt h
      then pos (min n 3)
      else negsuc 0;
  errno = if eqb_ℤ d invalid_socket then pos 9 else pos 11;
  bytes = [];
  ints = [];
}
hesitant_reply h c = (mbed_os (pos 7)).reply h c

abbrev hesitant : Os
hesitant = record { reply = hesitant_reply }

hesitant-SetsErrno : SetsErrno hesitant
hesitant-SetsErrno h (Call.recv d n f) is_call failed = ground arith
hesitant-SetsErrno h c is_call failed = refl

abbrev receipts_left : List Event → ℕ
receipts_left h = if seen is_receipt h then 0 else 1

hesitant-lt :
    (h : List Event) (c : Call)
    → is_refused (hesitant_reply h c) ≡ true
    → receipts_left (record { call = c; reply = hesitant_reply h c } ∷ h) < receipts_left h
hesitant-lt h (Call.recv d n f) refused = ground (arith, refused)
hesitant-lt h c refused = absurd (ground (arith, refused))

hesitant-Answers : Answers hesitant
hesitant-Answers = record {
  sets = hesitant-SetsErrno;
  recv_bounded = λ h fd n flags. ground arith;
  send_bounded = λ h fd buf flags. omega arith;
  patience = receipts_left;
  le = λ h c. ground arith;
  le_library = λ h c r. ground arith;
  lt = hesitant-lt;
}

-- A handshake that greets and hears an answer, and asks to be repeated if it would have to wait for it.
abbrev hearing : MbedCall → Program
hearing (MbedCall.ssl_handshake s) =
    send (1 ∷ []) (λ v.
      receive 5 0 (λ u bytes. return_value (if is_want u then neg ssl_want_read else pos 0) []))
hearing c = return_value (pos 0) []

abbrev polite : Mbed
polite = record { program = λ h c. hearing c }
