-- ===== src/Tls/Mbed/Socket.antt =====
-- `class mbedtls_socket` around its transport: src/tls/mbedtls_socket.cpp. A call of Mbed TLS that
-- may use the transport is a program, which asks for one callback after another and then returns; the
-- socket answers each with its own callbacks. The loops take fuel, and `none` means that it ran out.
pub mod Build
pub mod Settings
pub mod Callbacks
pub mod Ending
pub mod Setup
pub mod Construct
pub mod Calm
pub mod Refused
pub mod Handshake
use Prim.Native.Nat.{bit_and}
use sockpp.Prelude.{
  ℤ, pos, pos_part, ℕ, zero, suc, ◌-◌, ◌^◌, ◌==◌, eqb_ℤ, List, [], ◌∷◌, Bool, true, false, not,
  ◌&&◌, ◌||◌, if◌then◌else◌, Option, none, some, ◌++◌,
}
use sockpp.Error.{ErrorCode}
use sockpp.Prelude.Text.{codes}
use sockpp.Result.{
  Result, Outcome, returns, throws, None, ok, is_ok, is_error, from_error, unit_default,
  int_default, size_default,
}
use sockpp.Library.{LibraryCall, MbedCall}
use sockpp.System.{
  Os, World, Object, Event, Call, Action, perform, pure, ◌>>=◌, ◌>>◌, static, invalid_socket,
}
use sockpp.Socket.{close, reset, field_at}
use sockpp.Socket.Options.{read_timeout, write_timeout, is_non_blocking, set_non_blocking, shutdown}
use sockpp.Stream
use sockpp.Tls.{library}
use sockpp.Tls.Pin.{badcert_other}
use sockpp.Tls.Mbed.{
  MbedSocket, neg, ssl_want_read, ssl_want_write, make_tls_error_code, translate_mbed_err,
  check_mbed_io, callback_value, bio_send, bio_recv, bio_recv_timeout,
}

-- What the library does within a call: it sends, or receives up to so many bytes within so many
-- milliseconds, goes on with what the callback returned, and returns a value, with the bytes that
-- it wrote to the caller's buffer.
pub data Program : Type 0 where
  return_value : ℤ → List ℕ → Program
  send : List ℕ → (ℤ → Program) → Program
  receive : ℕ → ℕ → (ℤ → List ℕ → Program) → Program

-- The library: what it does in a call, given all events so far.
pub record Mbed : Type 0 where
  pub program : List Event → MbedCall → Program

-- `MBEDTLS_ERR_SSL_BAD_INPUT_DATA`, `_CRYPTO_IN_PROGRESS` and `MBEDTLS_ERR_X509_CERT_VERIFY_FAILED`
abbrev pub ssl_bad_input_data : ℕ
ssl_bad_input_data = 0x7100

abbrev pub ssl_crypto_in_progress : ℕ
ssl_crypto_in_progress = 0x7000

abbrev pub cert_verify_failed : ℕ
cert_verify_failed = 0x2700

-- `MBEDTLS_X509_BADCERT_SKIP_VERIFY`
abbrev pub badcert_skip_verify : ℕ
badcert_skip_verify = 0x80

-- The members of a socket: `ssl_` by its address, `open_`, `read_timeout_` and the base object, with
-- the callbacks that were installed last, for a non-blocking or a blocking socket.
pub record MbedObject : Type 0 where
  pub ssl : ℤ
  pub opened : Bool
  pub timeout : ℤ
  pub bio : Option Bool
  pub base : Object

-- `base(std::move(sock))`, with the other members as they are declared
abbrev pub over : ℤ → Object → MbedObject
over ssl o = record { ssl = ssl; opened = false; timeout = pos 0; bio = none; base = o }

abbrev pub on_base {ℓ} : {A : Type ℓ} → Action Object A → Action MbedObject A
on_base m o = let (a, b) = m o.base in (a, record o { base = b })

abbrev pub on_world {ℓ} : {A : Type ℓ} → Action World A → Action MbedObject A
on_world m = on_base (static m)

abbrev pub on_handle {ℓ} : {A : Type ℓ} → (ℤ → Action World A) → Action MbedObject A
on_handle f o = on_world (f o.base.handle) o

-- A callback, with the members that it reads
abbrev pub on_members {ℓ} : {A : Type ℓ} → (MbedSocket → Action World A) → Action MbedObject A
on_members f o =
    on_world (f (record { handle = o.base.handle; opened = o.opened; timeout = o.timeout })) o

abbrev pub set_opened : Bool → Action MbedObject None
set_opened b o = (tt, record o { opened = b })

-- Goes on if the fuel was enough
infixl 5 ◌>>=?◌
abbrev pub ◌>>=?◌ {ℓ κ μ} :
    {S : Type ℓ} {A : Type κ} {B : Type μ}
    → Action S (Option A)
    → (A → Action S (Option B))
    → Action S (Option B)
◌>>=?◌ m f s = let (r, s') = m s in elim r [ none ↦ (none, s') | some a ↦ f a s' ]

-- The statuses on which the constructor repeats the handshake
abbrev pub goes_on : ℤ → Bool
goes_on status =
    eqb_ℤ status (neg ssl_want_read)
    || (eqb_ℤ status (neg ssl_want_write) || eqb_ℤ status (neg ssl_crypto_in_progress))

-- The record of a call that a program made
abbrev pub returned : MbedCall → ℤ × List ℕ → Action World None
returned c (ret, bytes) w = (
  tt,
  record w {
    history =
        record {
          call = Call.library (LibraryCall.mbed c);
          reply = record { ret = ret; errno = w.errno; bytes = bytes; ints = [] };
        }
        ∷ w.history;
  },
)

module _ ⦃os : Os⦄ where
  -- A call that does not use the transport
  abbrev pub plain : (ℤ → MbedCall) → Action MbedObject ℤ
  plain c o = on_world (library (LibraryCall.mbed (c o.ssl))) o

  -- The callbacks that `setup_bio` installs, and what the library does without any
  unfoldable pub send_callback : List ℕ → Action MbedObject ℤ
  unfolding bio_send callback_value
  send_callback buf o = elim (o.bio) [
    | none ↦ (neg ssl_bad_input_data, o)
    | some _ ↦ (do res ← on_members (λ s. bio_send s buf); pure (callback_value res)) o
  ]

  unfoldable pub recv_callback : Bool → ℕ → ℕ → Action MbedObject (ℤ × List ℕ)
  unfolding bio_recv bio_recv_timeout callback_value
  recv_callback true n timeout = do
    (res, bytes) ← on_members (λ s. bio_recv s n)
    pure (callback_value res, bytes)
  recv_callback false n timeout = do
    (res, bytes) ← on_members (λ s. bio_recv_timeout s n timeout)
    pure (callback_value res, bytes)

  unfoldable pub receive_callback : ℕ → ℕ → Action MbedObject (ℤ × List ℕ)
  unfolding recv_callback
  receive_callback n timeout o = elim (o.bio) [
    | none ↦ ((neg ssl_bad_input_data, []), o)
    | some nonblocking ↦ recv_callback nonblocking n timeout o
  ]

  unfoldable pub drive : Program → Action MbedObject (ℤ × List ℕ)
  unfolding send_callback receive_callback
  drive (return_value ret bytes) o = ((ret, bytes), o)
  drive (send buf k) o = let (v, o') = send_callback buf o in drive (k v) o'
  drive (receive n timeout k) o =
      let ((v, bytes), o') = receive_callback n timeout o in drive (k v bytes) o'

  -- `setup_bio`
  unfoldable pub setup_bio : Bool → Action MbedObject None
  unfolding perform
  setup_bio nonblocking o =
      (plain (λ s. MbedCall.ssl_set_bio s nonblocking) >> pure tt)
        (record o { bio = some nonblocking })

  -- The loop of `check_mbed_setup` that reads until the peer closes
  unfoldable pub drain : ℕ → ℤ → Action World (Option None)
  unfolding Stream.read
  drain zero handle w = (none, w)
  drain (suc fuel) handle w =
      let ((res, bytes), w') = Stream.read handle 512 w in
      let again = drain fuel handle w' in
      if is_error res || res.val == 0 then (some tt, w') else again

  -- `check_mbed_setup` after a failure; `SHUT_WR` is 1.
  unfoldable pub give_up : ℕ → Action MbedObject (Option None)
  unfolding reset shutdown read_timeout drain close
  give_up fuel = do
    on_base (reset invalid_socket)
    on_handle (λ h. shutdown h (pos 1))
    on_handle (λ h. read_timeout h (pos 2000000))
    done ← on_handle (drain fuel)
    on_base close
    set_opened false
    pure done

  -- `check_mbed_setup`
  unfoldable pub check_mbed_setup : ℕ → ℤ → Action MbedObject (Option (Result ℤ))
  unfolding give_up translate_mbed_err
  check_mbed_setup fuel ret =
      if eqb_ℤ ret (pos 0)
      then pure (some (ok ret))
      else give_up fuel >>=? λ _. pure (some (from_error (translate_mbed_err ret)))
