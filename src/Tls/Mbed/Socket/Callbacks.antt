-- ===== src/Tls/Mbed/Socket/Callbacks.antt =====
-- What the callbacks of the Mbed TLS socket change: nothing but the record of the calls.
use sockpp.Prelude.{
  ℤ, pos, ℕ, ◌*◌, List, ◌∷◌, ◌≡◌, ◌∙◌, refl, false, Option, none, some, arith, ap, inl, inr, ◌⊎◌,
}
use sockpp.Library.{LibraryCall, MbedCall, after_mbed}
use sockpp.System.{Os, Call, Action, World}
use sockpp.System.Held.{held, objects, calls}
use sockpp.Socket.Options.{read_timeout}
use sockpp.Tls.Mbed.{MbedSocket, bio_recv, bio_recv_timeout}
use sockpp.Tls.Mbed.Socket.{
  ◌>>=?◌, Program, return_value, send, receive, Mbed, MbedObject, send_callback, recv_callback,
  receive_callback, drive,
}
use sockpp.Tls.Mbed.Socket.Build.{interact}

-- The object keeps its descriptor and its members, and the process what it holds.
pub record Same (o o' : MbedObject) : Type 0 where
  pub handle : o'.base.handle ≡ o.base.handle
  pub ssl : o'.ssl ≡ o.ssl
  pub opened : o'.opened ≡ o.opened
  pub bio : o'.bio ≡ o.bio
  pub fds : held o'.base.world.history ≡ held o.base.world.history
  pub refs : objects o'.base.world.history ≡ objects o.base.world.history

abbrev pub KeepsAll {ℓ} : {A : Type ℓ} → Action MbedObject A → Type 0
KeepsAll m = (o : MbedObject) → Same o (m o).1

abbrev KeepsHeld {ℓ} : {A : Type ℓ} → Action World A → Type 0
KeepsHeld m =
    (w : World)
    → (held (m w).1.history ≡ held w.history) × (objects (m w).1.history ≡ objects w.history)

pub Same-trans : {o p q : MbedObject} → Same o p → Same p q → Same o q
Same-trans s t = ground arith

module _ ⦃os : Os⦄ where
  send_callback-KeepsAll : (buf : List ℕ) → KeepsAll (send_callback buf)
  unfolding send_callback held objects
  send_callback-KeepsAll buf o = ground arith

  read_timeout-KeepsHeld : (h to : ℤ) → KeepsHeld (read_timeout h to)
  unfolding read_timeout held objects
  read_timeout-KeepsHeld h to w = ground arith

  bio_recv-KeepsHeld : (s : MbedSocket) (n : ℕ) → KeepsHeld (bio_recv s n)
  unfolding bio_recv held objects
  bio_recv-KeepsHeld s n w = ground arith

  bio_recv_timeout-KeepsHeld :
      (s : MbedSocket) (n timeout : ℕ) → KeepsHeld (bio_recv_timeout s n timeout)
  unfolding bio_recv_timeout
  bio_recv_timeout-KeepsHeld s n timeout w =
      let w₁ = (read_timeout (s.handle) (pos (timeout * 1000)) w).1 in
      let w₂ = (bio_recv s n w₁).1 in
      ground (
        arith,
        bio_recv-KeepsHeld s n w,
        read_timeout-KeepsHeld s.handle (pos (timeout * 1000)) w,
        bio_recv-KeepsHeld s n w₁,
        read_timeout-KeepsHeld s.handle s.timeout w₂,
      )

  receive_callback-KeepsAll : (n timeout : ℕ) → KeepsAll (receive_callback n timeout)
  unfolding receive_callback recv_callback
  receive_callback-KeepsAll n timeout o =
      let s : MbedSocket = record {
        handle = o.base.handle;
        opened = o.opened;
        timeout = o.timeout;
      } in
      ground (
        arith,
        bio_recv-KeepsHeld s n o.base.world,
        bio_recv_timeout-KeepsHeld s n timeout o.base.world,
      )

  pub drive-KeepsAll : (p : Program) → KeepsAll (drive p)
  unfolding drive
  drive-KeepsAll (return_value ret bytes) o = ground arith
  drive-KeepsAll (send buf k) o =
      let (v, o') = send_callback buf o in
      Same-trans (send_callback-KeepsAll buf o) (drive-KeepsAll (k v) o')
  drive-KeepsAll (receive n timeout k) o =
      let ((v, bytes), o') = receive_callback n timeout o in
      Same-trans (receive_callback-KeepsAll n timeout o) (drive-KeepsAll (k v bytes) o')

-- A call that initialises or frees a connection object changes the references; the others do not.
abbrev pub IsPlain : (ℤ → MbedCall) → Type 0
IsPlain c = (ssl ret : ℤ) (refs : Option (List ℤ)) → after_mbed (c ssl) ret refs ≡ refs

-- The socket was closed, or has no transport yet.
abbrev pub IsSilent : MbedObject → Type 0
IsSilent o = (o.opened ≡ false) ⊎ (o.bio ≡ none)

module _ ⦃os : Os⦄ where
  send_callback-silent :
      (buf : List ℕ) (o : MbedObject)
      → IsSilent o
      → (send_callback buf o).1.base.world ≡ o.base.world
  unfolding send_callback
  send_callback-silent buf o (inl shut) = ground arith
  send_callback-silent buf o (inr bare) = rw bare refl

  receive_callback-silent :
      (n timeout : ℕ) (o : MbedObject)
      → IsSilent o
      → (receive_callback n timeout o).1.base.world ≡ o.base.world
  unfolding receive_callback recv_callback
  receive_callback-silent n timeout o (inl shut) = ground arith
  receive_callback-silent n timeout o (inr bare) = rw bare refl

  -- Without a transport, a program makes no call of the system.
  pub drive-silent :
      (p : Program) (o : MbedObject) → IsSilent o → (drive p o).1.base.world ≡ o.base.world
  unfolding drive
  drive-silent (return_value ret bytes) o h = refl
  drive-silent (send buf k) o h =
      let (v, o') = send_callback buf o in
      let same = send_callback-KeepsAll buf o in
      drive-silent (k v) o' (ground (arith, h)) ∙ send_callback-silent buf o h
  drive-silent (receive n timeout k) o h =
      let ((v, bytes), o') = receive_callback n timeout o in
      let same = receive_callback-KeepsAll n timeout o in
      drive-silent (k v bytes) o' (ground (arith, h)) ∙ receive_callback-silent n timeout o h

module _ ⦃os : Os⦄ ⦃m : Mbed⦄ where
  pub interact-KeepsAll : (c : ℤ → MbedCall) → IsPlain c → KeepsAll (interact c)
  unfolding interact held objects
  interact-KeepsAll c plain o =
      let p = m.program o.base.world.history (c o.ssl) in
      let ((ret, bytes), o') = drive p o in
      ground (arith, drive-KeepsAll p o, plain o.ssl ret (objects o'.base.world.history))

  -- A silent socket leaves nothing but the call of the library itself.
  pub interact-silent :
      (c : ℤ → MbedCall) (o : MbedObject)
      → IsSilent o
      → calls (interact c o).1.base.world.history
        ≡ Call.library (LibraryCall.mbed (c o.ssl)) ∷ calls o.base.world.history
  unfolding interact
  interact-silent c o h =
      ap (λ (w : World). Call.library (LibraryCall.mbed (c o.ssl)) ∷ calls w.history)
        (drive-silent (m.program o.base.world.history (c o.ssl)) o h)

-- Where the fuel of the first part was enough, the second part runs.
pub >>=?-some {ℓ κ μ} :
    {S : Type ℓ} {A : Type κ} {B : Type μ} (x : Action S (Option A)) (f : A → Action S (Option B))
    (a : A) (s : S)
    → (x s).0 ≡ some a
    → (x >>=? f) s ≡ f a (x s).1
>>=?-some x f a s e = rw (e, ◌>>=?◌) refl
