-- ===== src/Tls/Mbed/Socket/Refused.antt =====
-- Which calls of the Mbed TLS socket ask to be repeated: those within which the system refused a
-- transfer for the moment.
use sockpp.Prelude.{
  ℤ, pos, ℕ, ◌≤◌, ◌<◌, ◌^◌, ◌*◌, eqb_ℤ, List, [], ◌≡◌, refl, Bool, true, false, ◌||◌, length, arith,
  inl, inr, Bool-cases, Option-cases,
}
use sockpp.Library.{MbedCall}
use sockpp.Result.{Result, is_error, size_default}
use sockpp.System.{Os, Event, Call, World}
use sockpp.Socket.Options.{read_timeout}
use sockpp.Stream
use sockpp.Tls.Mbed.{
  MbedSocket, neg, ssl_want_read, ssl_want_write, bio_return_value, callback_value, bio_send,
  bio_recv, bio_recv_timeout,
}
use sockpp.Tls.Mbed.Bio.{is_retry, callback_value-bio}
use sockpp.Tls.Mbed.Socket.{
  Program, return_value, send, receive, Mbed, MbedObject, send_callback, recv_callback,
  receive_callback, drive, goes_on,
}
use sockpp.Tls.Mbed.Socket.Build.{interact}
use sockpp.Tls.Mbed.Socket.Calm.{Answers, left, read_timeout-Calm}

-- `MBEDTLS_ERR_SSL_WANT_READ` or `MBEDTLS_ERR_SSL_WANT_WRITE`
abbrev pub is_want : ℤ → Bool
is_want v = eqb_ℤ v (neg ssl_want_read) || eqb_ℤ v (neg ssl_want_write)

-- A program that asks to be repeated only after a callback of its own returned that it would have to
-- wait; and that moves less than 2^31 bytes at a time.
abbrev pub Asks : Bool → Program → Type 0
Asks waited (return_value ret bytes) = goes_on ret ≡ true → waited ≡ true
Asks waited (send buf k) = (length buf < 2 ^ 31) × ((v : ℤ) → Asks (waited || is_want v) (k v))
Asks waited (receive n timeout k) =
    (n < 2 ^ 31) × ((v : ℤ) (bytes : List ℕ) → Asks (waited || is_want v) (k v bytes))

-- What the manual says of the handshake, where no operation is asynchronous
abbrev pub AsksFaithfully : Mbed → Type 0
AsksFaithfully m =
    (h : List Event) (ssl : ℤ) → Asks false (m.program h (MbedCall.ssl_handshake ssl))

want_value :
    (reading : Bool) (res : Result ℕ)
    → res.val < 2 ^ 31
    → is_want (callback_value (bio_return_value reading res)) ≡ true
    → (is_error res ≡ true) × (is_retry res.err ≡ true)
want_value reading res small want = elim (Bool-cases (is_error res)) [
  | inl bad ↦ (bad, ground (arith, want, (callback_value-bio reading res small).1 bad))
  | inr fine ↦
      absurd (ground (arith, want, (callback_value-bio reading res small).0 (ground (arith, fine))))
]

module _ ⦃os : Os⦄ (answers : Answers os) where
  -- A transfer that has to wait was refused.
  write_want :
      (fd : ℤ) (buf : List ℕ) (w : World)
      → length buf < 2 ^ 31
      → let (res, w') = Stream.write fd buf w in
        (left answers w' ≤ left answers w)
        × (is_want (callback_value (bio_return_value false res)) ≡ true
            → left answers w' < left answers w)
  unfolding Stream.write
  write_want fd buf w small =
      let c = Call.send fd buf (pos 0) in
      let bound = answers.send_bounded w.history fd buf (pos 0) in
      let res = (Stream.write fd buf w).0 in
      let little : res.val < 2 ^ 31 = ground (arith, bound, small) in
      (
        ground (arith, answers.le w.history c),
        λ want. ground (arith, want_value false res little want, answers.lt w.history c),
      )

  read_want :
      (fd : ℤ) (n : ℕ) (w : World)
      → n < 2 ^ 31
      → let ((res, bytes), w') = Stream.read fd n w in
        (left answers w' ≤ left answers w)
        × (is_want (callback_value (bio_return_value true res)) ≡ true
            → left answers w' < left answers w)
  unfolding Stream.read
  read_want fd n w small =
      let c = Call.recv fd n (pos 0) in
      let bound = answers.recv_bounded w.history fd n (pos 0) in
      let res = (Stream.read fd n w).0.0 in
      let little : res.val < 2 ^ 31 = ground (arith, bound, small) in
      (
        ground (arith, answers.le w.history c),
        λ want. ground (arith, want_value true res little want, answers.lt w.history c),
      )

  -- A call of a callback, and whether it says that the library would have to wait
  abbrev Refuses : MbedObject → ℤ → MbedObject → Type 0
  Refuses o v o' =
      (left answers o'.base.world ≤ left answers o.base.world)
      × (is_want v ≡ true → left answers o'.base.world < left answers o.base.world)

  send_callback-Refuses :
      (buf : List ℕ) (o : MbedObject)
      → length buf < 2 ^ 31
      → let (v, o') = send_callback buf o in Refuses o v o'
  unfolding send_callback bio_send
  send_callback-Refuses buf o small = elim (Option-cases (o.bio)) [
    | inl bare ↦ rw bare (omega arith, λ want. absurd (ground (arith, want)))
    | inr (nb, e) ↦ elim (Bool-cases (o.opened)) [
      | inl up ↦ rw (e, up) (write_want o.base.handle buf o.base.world small)
      | inr down ↦ rw (e, down) (omega arith, λ want. absurd (ground (arith, want)))
    ]
  ]

  bio_recv-Refuses :
      (s : MbedSocket) (n : ℕ) (w : World)
      → n < 2 ^ 31
      → let ((res, bytes), w') = bio_recv s n w in
        (left answers w' ≤ left answers w)
        × (is_want (callback_value res) ≡ true → left answers w' < left answers w)
  unfolding bio_recv callback_value
  bio_recv-Refuses s n w small = elim (Bool-cases (s.opened)) [
    | inl up ↦ rw up (read_want s.handle n w small)
    | inr down ↦ rw down (omega arith, λ want. absurd (ground (arith, want)))
  ]

  bio_recv_timeout-Refuses :
      (s : MbedSocket) (n timeout : ℕ) (w : World)
      → n < 2 ^ 31
      → let ((res, bytes), w') = bio_recv_timeout s n timeout w in
        (left answers w' ≤ left answers w)
        × (is_want (callback_value res) ≡ true → left answers w' < left answers w)
  unfolding bio_recv_timeout callback_value
  bio_recv_timeout-Refuses s n timeout w small =
      let w₁ = (read_timeout (s.handle) (pos (timeout * 1000)) w).1 in
      let w₂ = (bio_recv s n w₁).1 in
      ground (
        arith,
        bio_recv-Refuses s n w small,
        read_timeout-Calm answers s.handle (pos (timeout * 1000)) w,
        bio_recv-Refuses s n w₁ small,
        read_timeout-Calm answers s.handle s.timeout w₂,
      )

  receive_callback-Refuses :
      (n timeout : ℕ) (o : MbedObject)
      → n < 2 ^ 31
      → let ((v, bytes), o') = receive_callback n timeout o in Refuses o v o'
  unfolding receive_callback recv_callback
  receive_callback-Refuses n timeout o small =
      let s : MbedSocket = record {
        handle = o.base.handle;
        opened = o.opened;
        timeout = o.timeout;
      } in
      elim (Option-cases (o.bio)) [
        | inl bare ↦ rw bare (omega arith, λ want. absurd (ground (arith, want)))
        | inr (true, e) ↦ rw e (bio_recv-Refuses s n o.base.world small)
        | inr (false, e) ↦ rw e (bio_recv_timeout-Refuses s n timeout o.base.world small)
      ]

  -- A program that asks to be repeated was refused, if it had not been before.
  drive-Refuses :
      (waited : Bool) (p : Program) (o : MbedObject)
      → Asks waited p
      → let ((ret, bytes), o') = drive p o in
        (left answers o'.base.world ≤ left answers o.base.world)
        × (goes_on ret ≡ true
            → waited ≡ false
            → left answers o'.base.world < left answers o.base.world)
  unfolding drive
  drive-Refuses waited (return_value ret bytes) o asks =
      (omega arith, λ again fresh. absurd (ground (arith, asks again, fresh)))
  drive-Refuses waited (send buf k) o (small, asks) =
      let (v, o₁) = send_callback buf o in
      let (le₁, lt₁) = send_callback-Refuses buf o small in
      let (le₂, lt₂) = drive-Refuses (waited || is_want v) (k v) o₁ (asks v) in
      (
        omega (arith, le₁, le₂),
        λ again fresh. elim (Bool-cases (is_want v)) [
          | inl want ↦ omega (arith, lt₁ want, le₂)
          | inr other ↦ omega (arith, le₁, lt₂ again (ground (arith, fresh, other)))
        ],
      )
  drive-Refuses waited (receive n timeout k) o (small, asks) =
      let ((v, bytes), o₁) = receive_callback n timeout o in
      let (le₁, lt₁) = receive_callback-Refuses n timeout o small in
      let (le₂, lt₂) = drive-Refuses (waited || is_want v) (k v bytes) o₁ (asks v bytes) in
      (
        omega (arith, le₁, le₂),
        λ again fresh. elim (Bool-cases (is_want v)) [
          | inl want ↦ omega (arith, lt₁ want, le₂)
          | inr other ↦ omega (arith, le₁, lt₂ again (ground (arith, fresh, other)))
        ],
      )

  module _ ⦃m : Mbed⦄ (faithful : AsksFaithfully m) where
    -- Each handshake that asks to be repeated was refused once.
    pub handshake-Refuses :
        (o : MbedObject)
        → let ((status, bytes), o') = interact MbedCall.ssl_handshake o in
          goes_on status ≡ true → left answers o'.base.world < left answers o.base.world
    unfolding interact
    handshake-Refuses o again =
        let p = m.program o.base.world.history (MbedCall.ssl_handshake o.ssl) in
        let (result, o') = drive p o in
        let lower = (drive-Refuses false p o (faithful o.base.world.history o.ssl)).1 again refl in
        omega (
          arith,
          lower,
          answers.le_library o'.base.world.history (MbedCall.ssl_handshake o.ssl)
              (record { ret = result.0; errno = o'.base.world.errno; bytes = result.1; ints = [] }),
        )
