-- ===== src/Tests/Systems.antt =====
-- Concrete systems to run the model on.
use sockpp.Prelude.{
  ℤ, pos, negsuc, pos_part, true, ℕ, ◌≤◌, ◌<◌, ◌≡◌, refl, List, [], ◌∷◌, replicate, length, min,
  arith, length-replicate,
}
use sockpp.System.{Os, SetsErrno, World, Object, Call, Reply, Event, invalid_socket}
use sockpp.Stream.Laws.{StreamLaws, is_interrupted}

-- A system that answers each call by a table, and always leaves `errno` at 111, `ECONNREFUSED`.
abbrev pub table_os : (Call → ℤ) → List ℕ → Os
table_os ret bytes = record {
  reply = λ h c. record { ret = ret c; errno = pos 111; bytes = bytes; ints = [] };
}

pub table_os-SetsErrno : (ret : Call → ℤ) (bytes : List ℕ) → SetsErrno (table_os ret bytes)
table_os-SetsErrno ret bytes h c is_call failed = refl

-- New descriptors are 3, and every other call succeeds.
abbrev pub all_succeed : Call → ℤ
all_succeed (Call.socket d t p) = pos 3
all_succeed (Call.accept h n) = pos 4
all_succeed c = pos 0

-- The same, but that nothing can be bound or connected.
abbrev pub none_bound : Call → ℤ
none_bound (Call.socket d t p) = pos 3
none_bound (Call.bind h a) = negsuc 0
none_bound (Call.connect h a) = negsuc 0
none_bound c = pos 0

abbrev pub start : World
start = record { history = []; errno = pos 0 }

abbrev pub closed : Object
closed = record { handle = invalid_socket; world = start }

-- A stream that interrupts the first call, and then moves at most two bytes at a time.
abbrev pub answer : Call → Reply
answer (Call.recv fd n flags) = record {
  ret = pos (min n 2);
  errno = pos 4;
  bytes = replicate (min n 2) 7;
  ints = [];
}
answer (Call.send fd buf flags) = record {
  ret = pos (min (length buf) 2);
  errno = pos 4;
  bytes = [];
  ints = [];
}
answer c = record { ret = pos 0; errno = pos 4; bytes = []; ints = [] }

abbrev pub interrupting_reply : List Event → Call → Reply
interrupting_reply [] c = record { ret = negsuc 0; errno = pos 4; bytes = []; ints = [] }
interrupting_reply (e ∷ es) c = answer c

abbrev pub interrupting : Os
interrupting = record { reply = interrupting_reply }

abbrev pub interrupts_left : List Event → ℕ
interrupts_left [] = 1
interrupts_left (e ∷ es) = 0

pub sets : SetsErrno interrupting
sets [] c is_call failed = refl
sets (e ∷ es) (Call.recv fd n flags) is_call failed = refl
sets (e ∷ es) (Call.send fd buf flags) is_call failed = refl
sets (e ∷ es) c is_call failed = refl

pub recv_bounded :
    (h : List Event) (fd : ℤ) (n : ℕ) (flags : ℤ)
    → pos_part (interrupting_reply h (Call.recv fd n flags)).ret ≤ n
recv_bounded [] fd n flags = omega arith
recv_bounded (e ∷ es) fd n flags = omega arith

pub recv_fills :
    (h : List Event) (fd : ℤ) (n : ℕ) (flags : ℤ)
    → length (interrupting_reply h (Call.recv fd n flags)).bytes
      ≡ pos_part (interrupting_reply h (Call.recv fd n flags)).ret
recv_fills [] fd n flags = refl
recv_fills (e ∷ es) fd n flags = length-replicate (min n 2) 7

pub send_bounded :
    (h : List Event) (fd : ℤ) (buf : List ℕ) (flags : ℤ)
    → pos_part (interrupting_reply h (Call.send fd buf flags)).ret ≤ length buf
send_bounded [] fd buf flags = omega arith
send_bounded (e ∷ es) fd buf flags = omega arith

pub patience_le :
    (h : List Event) (c : Call)
    → interrupts_left (record { call = c; reply = interrupting_reply h c } ∷ h) ≤ interrupts_left h
patience_le h c = omega arith

pub patience_lt :
    (h : List Event) (c : Call)
    → is_interrupted (interrupting_reply h c) ≡ true
    → interrupts_left (record { call = c; reply = interrupting_reply h c } ∷ h) < interrupts_left h
patience_lt [] c e = omega arith
patience_lt (x ∷ xs) (Call.recv fd n flags) e = ground arith
patience_lt (x ∷ xs) (Call.send fd buf flags) e = ground arith
patience_lt (x ∷ xs) c e = ground arith

abbrev pub interrupting-StreamLaws : StreamLaws interrupting
interrupting-StreamLaws = record {
  sets = sets;
  recv_bounded = recv_bounded;
  recv_fills = recv_fills;
  send_bounded = send_bounded;
  patience = interrupts_left;
  patience_le = patience_le;
  patience_lt = patience_lt;
}
