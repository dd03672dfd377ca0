-- ===== src/Tests/Secure.antt =====
-- A concrete system with a library that works: descriptors are fresh, and each byte of a
-- text is a certificate.
use sockpp.Prelude.{
  ℤ, pos, ℕ, ◌+◌, ◌-◌, ◌≤◌, ◌<◌, ◌==◌, eqb_ℤ, List, [], ◌∷◌, ◌≡◌, refl, true, false, if◌then◌else◌,
  arith, length,
}
use sockpp.Library.{LibraryCall, ErrorNumbers}
use sockpp.System.{Os, SetsErrno, Call, Event, World}
use sockpp.System.Held.{held}
use sockpp.Datagram.Open.{GivesFresh}
use sockpp.Tls.{is_null}
use sockpp.Tls.Context.Roots.Loads.{ReadsEnd, opens_stream}
use sockpp.Tls.Pinning.Laws.{Compares}
use sockpp.Tests.Systems.{start}
use sockpp.Tests.Opened.{above, above-fresh}

-- The bytes that are still to be read from the memory stream that was made last, each of which is a
-- certificate
abbrev pub left_after : Call → ℕ → ℕ
left_after (Call.library (LibraryCall.bio_new_mem_buf text)) n = length text
left_after (Call.library (LibraryCall.pem_read_bio_x509_aux b)) n = n - 1
left_after (Call.library (LibraryCall.pem_read_bio_x509 b)) n = n - 1
left_after c n = n

abbrev pub left : List Event → ℕ
left [] = 0
left (e ∷ es) = left_after e.call (left es)

-- A certificate is at 300 plus the number of those still to come, and 0 if there is none.
abbrev pub next_cert : ℕ → ℤ
next_cert n = if n == 0 then pos 0 else pos (300 + n)

abbrev pub cmp_ret : ℤ → ℤ → ℤ
cmp_ret a b = if eqb_ℤ a b then pos 0 else pos 1

abbrev pub library_ret : List Event → LibraryCall → ℤ
library_ret h (LibraryCall.pem_read_bio_x509_aux b) = next_cert (left h)
library_ret h (LibraryCall.pem_read_bio_x509 b) = next_cert (left h)
library_ret h (LibraryCall.bio_new_mem_buf b) = pos 200
library_ret h LibraryCall.store_new = pos 400
library_ret h (LibraryCall.ssl_new c) = pos 100
library_ret h (LibraryCall.pem_read_bio_private_key b) = pos 500
library_ret h LibraryCall.err_peek_last_error = pos 9
library_ret h LibraryCall.err_get_error = pos 9
library_ret h (LibraryCall.x509_cmp a b) = cmp_ret a b
library_ret h (LibraryCall.d2i_x509 b) = pos 300
library_ret h c = pos 1

abbrev pub ret_of : List Event → Call → ℤ
ret_of h (Call.socket d t p) = pos (above (held h))
ret_of h (Call.library c) = library_ret h c
ret_of h c = pos 0

abbrev pub ints_of : Call → List ℤ
ints_of (Call.library (LibraryCall.store_ctx_get0_chain s)) = pos 7 ∷ pos 8 ∷ []
ints_of (Call.library (LibraryCall.store_get0_objects s)) = pos 7 ∷ pos 0 ∷ pos 8 ∷ []
ints_of (Call.library (LibraryCall.ssl_read_ex s n)) = pos 3 ∷ []
ints_of (Call.library (LibraryCall.ssl_write_ex s b)) = pos 2 ∷ []
ints_of c = []

abbrev pub secure : Os
secure = record {
  reply =
      λ h c. record { ret = ret_of h c; errno = pos 9; bytes = 5 ∷ 6 ∷ 7 ∷ []; ints = ints_of c };
}

abbrev pub numbers : ErrorNumbers
numbers = record { is_no_start_line = λ e. true; is_duplicate = λ e. false }

pub secure-SetsErrno : SetsErrno secure
secure-SetsErrno h c is_call failed = refl

pub secure-GivesFresh : GivesFresh secure
secure-GivesFresh h d t p good = ground (arith, above-fresh (held h) 0)

pub left_after_le : (c : Call) (n : ℕ) → opens_stream c ≡ false → left_after c n ≤ n
left_after_le (Call.library (LibraryCall.bio_new_mem_buf text)) n same = ground (arith, same)
left_after_le (Call.library (LibraryCall.pem_read_bio_x509_aux b)) n same = omega arith
left_after_le (Call.library (LibraryCall.pem_read_bio_x509 b)) n same = omega arith
left_after_le c n same = omega arith

pub next_cert_some : (n : ℕ) → is_null (next_cert n) ≡ false → n - 1 < n
next_cert_some n live = ground arith

abbrev pub aux_ends : ReadsEnd secure LibraryCall.pem_read_bio_x509_aux
aux_ends = record {
  unread = λ h bio. left h;
  opens = λ h text live. omega arith;
  keeps = λ h c bio same. left_after_le c (left h) same;
  falls = λ h bio live. next_cert_some (left h) live;
}

abbrev pub chain_ends : ReadsEnd secure LibraryCall.pem_read_bio_x509
chain_ends = record {
  unread = λ h bio. left h;
  opens = λ h text live. omega arith;
  keeps = λ h c bio same. left_after_le c (left h) same;
  falls = λ h bio live. next_cert_some (left h) live;
}

abbrev pub comparing : Compares secure
comparing = record { same = λ a b. eqb_ℤ (cmp_ret a b) (pos 0); says = λ a b h. refl }

-- A world after one call
abbrev pub after_call : Call → World → World
after_call c w = record {
  history = record { call = c; reply = secure.reply w.history c } ∷ w.history;
  errno = pos 9;
}

-- A descriptor was made, and two certificates and a connection.
abbrev pub one_open : World
one_open = after_call (Call.socket (pos 2) (pos 1) (pos 0)) start

abbrev pub two_certs : World
two_certs =
    after_call (Call.library (LibraryCall.d2i_x509 []))
      (after_call (Call.library (LibraryCall.d2i_x509 [])) start)
