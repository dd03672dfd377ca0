-- ===== src/Tls/Mbed/Bio.antt =====
-- What the library gets from the transport callbacks, and what comes of it.
use sockpp.Prelude.{
  pos, ℕ, ◌<◌, ◌^◌, ◌≡◌, refl, Bool, true, false, ◌||◌, if◌then◌else◌, arith, Bool-cases, inl, inr,
}
use sockpp.Error.{ErrorCode, Errc, make_error_code, matches}
use sockpp.Result.{Result, is_ok, is_error}
use sockpp.Tls.Mbed.{
  neg, net_conn_reset, net_recv_failed, net_send_failed, ssl_want_read, ssl_want_write,
  translate_mbed_err, bio_return_value, callback_value,
}

-- The kinds of failure that the library tells apart
abbrev pub is_broken : ErrorCode → Bool
is_broken e = matches e Errc.broken_pipe || matches e Errc.connection_reset

abbrev pub is_retry : ErrorCode → Bool
is_retry e =
    matches e Errc.interrupted
    || (matches e Errc.operation_would_block || matches e Errc.resource_unavailable_try_again)

-- The library's error for a failure of the socket, and the code that the caller of `read` or `write`
-- gets for it
abbrev pub library_error : Bool → ErrorCode → ℕ
library_error reading e =
    if is_broken e
    then net_conn_reset
    else if is_retry e
    then (if reading then ssl_want_read else ssl_want_write)
    else (if reading then net_recv_failed else net_send_failed)

abbrev pub reported : ErrorCode → Errc
reported e =
    if is_broken e
    then Errc.connection_reset
    else if is_retry e
    then Errc.operation_would_block
    else Errc.io_error

failure_value :
    (reading : Bool) (res : Result ℕ)
    → is_error res ≡ true
    → let value = callback_value (bio_return_value reading res) in
      (value ≡ neg (library_error reading res.err))
      × (translate_mbed_err value ≡ make_error_code (reported res.err))
unfolding callback_value bio_return_value translate_mbed_err
failure_value true res bad = elim (Bool-cases (is_broken res.err)) [
  | inl broken ↦ rw (bad, broken) (refl, refl)
  | inr whole ↦ elim (Bool-cases (is_retry res.err)) [
    | inl again ↦ rw (bad, whole, again) (refl, refl)
    | inr never ↦ rw (bad, whole, never) (refl, refl)
  ]
]
failure_value false res bad = elim (Bool-cases (is_broken res.err)) [
  | inl broken ↦ rw (bad, broken) (refl, refl)
  | inr whole ↦ elim (Bool-cases (is_retry res.err)) [
    | inl again ↦ rw (bad, whole, again) (refl, refl)
    | inr never ↦ rw (bad, whole, never) (refl, refl)
  ]
]

-- A number of bytes that fits an `int` arrives unchanged at the library, through `size_t` and back; so
-- does the error for each kind of failure, though most are passed as successes with a huge size.
-- And if the library returns the error as it got it, the caller learns of a reset connection, of an
-- operation that would block, or of an input or output error.
pub callback_value-bio :
    (reading : Bool) (res : Result ℕ)
    → res.val < 2 ^ 31
    → let value = callback_value (bio_return_value reading res) in
      (is_ok res ≡ true → value ≡ pos res.val)
      × (is_error res ≡ true
          → (value ≡ neg (library_error reading res.err))
            × (translate_mbed_err value ≡ make_error_code (reported res.err)))
unfolding callback_value bio_return_value
callback_value-bio reading res small =
    (λ fine. rw fine (ground (arith, small)), failure_value reading res)
