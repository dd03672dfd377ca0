-- ===== src/System.antt =====
-- The boundary to the operating system, which is not part of the repository: the calls that sockpp
-- makes, what comes back, and the record of both. The system itself is a parameter, any function of
-- what it was asked before, and the development computes only with its replies.
pub mod Held
pub mod Bag
use sockpp.Prelude.{
  ℤ, pos, negsuc, ℕ, List, [], ◌∷◌, Bool, ltb_ℤ, eqb_ℤ, if◌then◌else◌, ◌≡◌, true, false,
}
use sockpp.Library.{LibraryCall}
use sockpp.Result.{
  Result, Default, ok, is_error, from_error, last_error, None, int_default, unit_default,
}

-- `INVALID_SOCKET`
abbrev pub invalid_socket : ℤ
invalid_socket = negsuc 0

-- `struct pollfd`
pub record PollFd : Type 0 where
  pub fd : ℤ
  pub events : ℕ
  pub revents : ℕ

-- A buffer, an address or a structure that is passed by pointer stands by its bytes, or by its
-- fields where the source fills in the fields.
pub data Call : Type 0 where
  socket : ℤ → ℤ → ℤ → Call
  socketpair : ℤ → ℤ → ℤ → Call
  close dup getfl : ℤ → Call
  setfl : ℤ → ℕ → Call
  bind connect : ℤ → List ℕ → Call
  listen shutdown : ℤ → ℤ → Call
  accept : ℤ → ℕ → Call
  getsockname getpeername : ℤ → ℕ → Call
  getsockopt : ℤ → ℤ → ℤ → ℕ → Call
  setsockopt : ℤ → ℤ → ℤ → List ℤ → ℕ → Call
  recv : ℤ → ℕ → ℤ → Call
  recvfrom : ℤ → ℕ → ℤ → ℕ → Call
  send : ℤ → List ℕ → ℤ → Call
  sendto : ℤ → List ℕ → ℤ → List ℕ → Call
  readv : ℤ → List ℕ → Call
  writev : ℤ → List (List ℕ) → Call
  poll : List PollFd → ℤ → Call
  ioctl : ℤ → ℤ → Call
  if_nametoindex : List ℕ → Call
  if_indextoname : ℕ → Call
  library : LibraryCall → Call

-- The calls of the system itself, whose manual pages are those of section 2 and 3
abbrev pub is_system : Call → Bool
is_system (Call.library c) = false
is_system c = true

-- The value returned, `errno` after the call, and what was written through the pointers: bytes, or
-- the fields of a structure.
pub record Reply : Type 0 where
  pub ret : ℤ
  pub errno : ℤ
  pub bytes : List ℕ
  pub ints : List ℤ

pub record Event : Type 0 where
  pub call : Call
  pub reply : Reply

-- The system: its reply to a call, given all events so far, the latest first.
pub record Os : Type 0 where
  pub reply : List Event → Call → Reply

-- What every manual page says: a system call that fails sets `errno`.
abbrev pub SetsErrno : Os → Type 0
SetsErrno os =
    (h : List Event) (c : Call)
    → is_system c ≡ true
    → ltb_ℤ (os.reply h c).ret (pos 0) ≡ true
    → eqb_ℤ (os.reply h c).errno (pos 0) ≡ false

pub record World : Type 0 where
  pub history : List Event
  pub errno : ℤ

-- A call of the library: it acts on a state and returns a value.
abbrev pub Action {ℓ κ} : Type ℓ → Type κ → Type (ℓ ⊔ κ)
Action S A = S → A × S

module _ {ℓ} {S : Type ℓ} where
  abbrev pub pure {κ} : {A : Type κ} → A → Action S A
  pure a s = (a, s)

  infixl 5 ◌>>=◌ ◌>>◌
  abbrev pub ◌>>=◌ {κ μ} : {A : Type κ} {B : Type μ} → Action S A → (A → Action S B) → Action S B
  ◌>>=◌ m f s = let (a, s') = m s in f a s'

  abbrev pub ◌>>◌ {κ μ} : {A : Type κ} {B : Type μ} → Action S A → Action S B → Action S B
  m >> k = m >>= λ _. k

  -- `if (auto res = m; !res) return res.error(); else f(res.value())`
  abbrev pub or_return {κ μ} :
      {A : Type κ} {B : Type μ} ⦃d : Default B⦄
      → Action S (Result A)
      → (A → Action S (Result B))
      → Action S (Result B)
  or_return m f s = let (r, s') = m s in if is_error r then (from_error r.err, s') else f r.val s'

-- The object that a method runs on, by its `handle_`, with the world around it.
pub record Object : Type 0 where
  pub handle : ℤ
  pub world : World

-- A static function, called from a method
abbrev pub static {ℓ} : {A : Type ℓ} → Action World A → Action Object A
static m o = let (a, w) = m o.world in (a, record o { world = w })

module _ ⦃os : Os⦄ where
  unfoldable pub perform : Call → Action World Reply
  perform c w =
      let r = os.reply w.history c in
      (r, record { history = record { call = c; reply = r } ∷ w.history; errno = r.errno })

-- `result<T>::from_last_error`
abbrev pub from_last_error {ℓ} : {A : Type ℓ} ⦃d : Default A⦄ → Action World (Result A)
from_last_error w = (from_error (last_error w.errno), w)

-- `socket::check_res<T, Tout>`; `cast` is the conversion to `Tout`
unfoldable pub check_res {ℓ} : {A : Type ℓ} ⦃d : Default A⦄ → (ℤ → A) → ℤ → Action World (Result A)
check_res cast ret w = if ltb_ℤ ret (pos 0) then from_last_error w else (ok (cast ret), w)

-- `socket::check_res_none`
unfoldable pub check_res_none : ℤ → Action World (Result None)
check_res_none ret w = if ltb_ℤ ret (pos 0) then from_last_error w else (ok tt, w)

-- `socket::check_socket`
unfoldable pub check_socket : ℤ → Action World (Result ℤ)
check_socket s w = if eqb_ℤ s invalid_socket then from_last_error w else (ok s, w)
