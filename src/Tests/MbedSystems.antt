-- ===== src/Tests/MbedSystems.antt =====
-- A concrete system with Mbed TLS: a descriptor that is not valid cannot be read, memory is fresh, and
-- the directory of root certificates has one file.
use sockpp.Prelude.{
  ℤ, pos, negsuc, ℕ, suc, ◌+◌, ◌≤◌, ◌<◌, eqb_ℤ, List, [], ◌∷◌, ◌≡◌, ◌≢◌, refl, Bool, true, false,
  ◌||◌, if◌then◌else◌, length, arith,
}
use sockpp.Prelude.Text.{codes}
use sockpp.Address.{eq_bytes}
use sockpp.Library.{LibraryCall, MbedCall, FileCall}
use sockpp.System.{Os, SetsErrno, Object, Event, Call, invalid_socket}
use sockpp.Tls.Mbed.{neg, ssl_want_read}
use sockpp.Tls.Mbed.Socket.{Program, return_value, send, receive, Mbed}
use sockpp.Tls.Mbed.Socket.Ending.{RefusesInvalid}
use sockpp.Tls.Mbed.Roots.{certs_dir}
use sockpp.Tls.Mbed.Roots.Ends.{IsFinite, opens_dir}

-- Whether the directory was read since it was opened last, and whether there was a handshake
abbrev pub listed_by : Call → Bool → Bool
listed_by (Call.library (LibraryCall.file (FileCall.opendir path))) listed = false
listed_by (Call.library (LibraryCall.file (FileCall.readdir d))) listed = true
listed_by c listed = listed

abbrev pub is_listed : List Event → Bool
is_listed [] = false
is_listed (e ∷ es) = listed_by e.call (is_listed es)

abbrev pub is_handshake : Call → Bool
is_handshake (Call.library (LibraryCall.mbed (MbedCall.ssl_handshake s))) = true
is_handshake c = false

abbrev pub seen : (Call → Bool) → List Event → Bool
seen test [] = false
seen test (e ∷ es) = test e.call || seen test es

abbrev pub file_ret : List Event → FileCall → ℤ
file_ret h (FileCall.stat path) = if eq_bytes path certs_dir then pos 0 else negsuc 0
file_ret h (FileCall.opendir path) = pos 1
file_ret h (FileCall.ifstream_open path) = pos 1
file_ret h (FileCall.readdir d) = if is_listed h then pos 0 else pos 1
file_ret h c = pos 0

-- Memory is at an address that no event had.
abbrev pub mbed_ret : ℤ → List Event → MbedCall → ℤ
mbed_ret setup h (MbedCall.ssl_setup s c) = setup
mbed_ret setup h MbedCall.new_cert = pos (700 + length h)
mbed_ret setup h MbedCall.new_key = pos (700 + length h)
mbed_ret setup h (MbedCall.ssl_get_verify_result s) = pos 0x108
mbed_ret setup h (MbedCall.ssl_get_peer_cert s) = pos 1
mbed_ret setup h c = pos 0

abbrev pub ret_with : ℤ → List Event → Call → ℤ
ret_with setup h (Call.recv d n f) = if eqb_ℤ d invalid_socket then negsuc 0 else pos 3
ret_with setup h (Call.library (LibraryCall.mbed c)) = mbed_ret setup h c
ret_with setup h (Call.library (LibraryCall.file c)) = file_ret h c
ret_with setup h c = pos 0

abbrev pub bytes_of : Call → List ℕ
bytes_of (Call.library (LibraryCall.file (FileCall.readdir d))) = codes "a.pem"
bytes_of c = codes "AB"

abbrev pub ints_with : Call → List ℤ
ints_with (Call.library (LibraryCall.file (FileCall.stat path))) = pos 0x41ed ∷ []
ints_with c = []

-- `setup` is what the set-up of a connection returns.
abbrev pub mbed_os : ℤ → Os
mbed_os setup = record {
  reply = λ h c. record {
    ret = ret_with setup h c;
    errno = pos 9;
    bytes = bytes_of c;
    ints = ints_with c;
  };
}

pub mbed_os-SetsErrno : (setup : ℤ) → SetsErrno (mbed_os setup)
mbed_os-SetsErrno setup h c is_call failed = refl

pub mbed_os-RefusesInvalid : (setup : ℤ) → RefusesInvalid (mbed_os setup)
mbed_os-RefusesInvalid setup h n flags = refl

abbrev pub left : List Event → ℕ
left h = if is_listed h then 0 else 1

left-listed :
    (setup : ℤ) (h : List Event) (dir : ℤ)
    → let c = Call.library (LibraryCall.file (FileCall.readdir dir)) in
      let r = (mbed_os setup).reply h c in
      eqb_ℤ r.ret (pos 0) ≡ false → left (record { call = c; reply = r } ∷ h) < left h
left-listed setup h dir more = ground (arith, more)

left_kept :
    (c : Call) (listed : Bool)
    → opens_dir c ≡ false
    → (if listed_by c listed then 0 else 1) ≤ (if listed then 0 else 1)
left_kept (Call.library (LibraryCall.file (FileCall.opendir path))) listed same =
    ground (arith, same)
left_kept (Call.library (LibraryCall.file (FileCall.readdir d))) listed same = omega arith
left_kept c listed same = omega arith

true_ne_false : true ≢ false
true_ne_false wrong = cc

-- The directory has one entry, and the files are short.
pub finite : (setup : ℤ) → IsFinite (mbed_os setup)
finite setup = record {
  longest = 1;
  widest = 1;
  unread = λ h path. 0;
  unlisted = λ h dir. left h;
  opens = λ h path. omega arith;
  falls = λ h path more. absurd (true_ne_false more);
  opens_at = λ h path live. ground arith;
  lists = left-listed setup;
  keeps = λ h c dir same. left_kept c (is_listed h) same;
}

pub few_left : (setup : ℤ) → suc ((finite setup).widest + (finite setup).longest) < 4
unfolding finite
few_left setup = omega arith

-- A library whose first handshake greets, hears an answer and asks to be called again
abbrev pub program_of : List Event → MbedCall → Program
program_of h (MbedCall.ssl_handshake s) =
    if seen is_handshake h
    then return_value (pos 0) []
    else send (1 ∷ []) (λ v. receive 5 0 (λ u bytes. return_value (neg ssl_want_read) []))
program_of h (MbedCall.ssl_read s n) = receive n 0 (λ v bytes. return_value v bytes)
program_of h (MbedCall.ssl_write s buf) = send buf (λ v. return_value v [])
program_of h c = return_value (pos 0) []

abbrev pub library : Mbed
library = record { program = program_of }

-- A descriptor was obtained, and an object has it.
abbrev pub five : Object
five = record {
  handle = pos 5;
  world = record {
    history =
        record {
          call = Call.socket (pos 2) (pos 1) (pos 0);
          reply = record { ret = pos 5; errno = pos 0; bytes = []; ints = [] };
        }
        ∷ [];
    errno = pos 0;
  };
}
