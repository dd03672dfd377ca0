-- ===== src/Tls/Mbed/Socket/Settings.antt =====
-- The timeouts and the mode of the Mbed TLS socket, and what it tells of the peer's certificate.
use Prim.Native.Nat.{bit_and}
use sockpp.Prelude.{
  ℤ, pos, pos_part, ℕ, ◌-◌, ◌^◌, ◌==◌, eqb_ℤ, List, [], ◌∷◌, Bool, true, false, not, ◌||◌,
  if◌then◌else◌, ◌++◌,
}
use sockpp.Prelude.Text.{codes}
use sockpp.Result.{Result, None, is_ok, unit_default, int_default, size_default}
use sockpp.Library.{LibraryCall, MbedCall}
use sockpp.System.{Os, Call, Action, perform, pure, ◌>>=◌, ◌>>◌}
use sockpp.Socket.Options.{read_timeout, write_timeout, set_non_blocking}
use sockpp.Tls.Pin.{badcert_other}
use sockpp.Tls.Mbed.Socket.{MbedObject, on_world, on_handle, plain, setup_bio}

-- "The certificate does not match the known pinned certificate"
abbrev pub mismatch : List ℕ
mismatch = codes "The certificate does not match the known pinned certificate"

-- `string(message, len)` with `--len` where the text is not empty
unfoldable pub drop_last : List ℕ → List ℕ
drop_last [] = []
drop_last (c ∷ []) = []
drop_last (c ∷ d ∷ cs) = c ∷ drop_last (d ∷ cs)

-- The text with the line for the flag that the verification callback sets
unfoldable pub status_text : Bool → List ℕ → List ℕ
status_text false result = result
status_text true [] = mismatch
status_text true (c ∷ cs) = mismatch ++ 10 ∷ c ∷ cs

module _ ⦃os : Os⦄ where
  -- `read_timeout(to)`
  unfoldable pub set_read_timeout : ℤ → Action MbedObject (Result None)
  unfolding read_timeout
  set_read_timeout to = do
    res ← on_handle (λ h. read_timeout h to)
    λ o. (res, if is_ok res then record o { timeout = to } else o)

  -- `write_timeout(to)`
  unfoldable pub set_write_timeout : ℤ → Action MbedObject (Result None)
  unfolding write_timeout
  set_write_timeout to = on_handle (λ h. write_timeout h to)

  -- `set_non_blocking(nonblocking)`
  unfoldable pub change_non_blocking : Bool → Action MbedObject (Result None)
  unfolding set_non_blocking setup_bio
  change_non_blocking nonblocking = do
    res ← on_handle (λ h. set_non_blocking h nonblocking)
    if is_ok res then setup_bio nonblocking >> pure res else pure res

  -- `peer_certificate_status()`
  unfoldable pub peer_certificate_status : Action MbedObject ℕ
  unfolding perform
  peer_certificate_status = do ret ← plain MbedCall.ssl_get_verify_result; pure (pos_part ret)

  -- `peer_certificate_status_message()`: the text by its bytes. The library's buffer ends at its first
  -- zero, so the last character before that, a line feed, is always dropped.
  unfoldable pub peer_certificate_status_message : Action MbedObject (List ℕ)
  unfolding perform status_text
  peer_certificate_status_message = do
    ret ← plain MbedCall.ssl_get_verify_result
    let flags = pos_part ret
    if flags == 0 || flags == 2 ^ 32 - 1 then pure [] else (do
      r ← on_world (
          perform (
            Call.library (
              LibraryCall.mbed
                (MbedCall.x509_crt_verify_info (bit_and flags (2 ^ 32 - 1 - badcert_other))))))
      pure (status_text (not (bit_and flags badcert_other == 0)) (drop_last r.bytes)))

  -- `peer_certificate()`, given what the context received last
  unfoldable pub peer_certificate : List ℕ → Action MbedObject (List ℕ)
  unfolding perform
  peer_certificate received o =
      (do
        r ← on_world (perform (Call.library (LibraryCall.mbed (MbedCall.ssl_get_peer_cert o.ssl))))
        pure (if eqb_ℤ r.ret (pos 0) then received else r.bytes))
        o
