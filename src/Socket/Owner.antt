-- ===== src/Socket/Owner.antt =====
-- No method of a socket object loses a descriptor or closes one that it does not own.
use sockpp.Prelude.{
  ℤ, List, ◌++◌, ◌≡◌, true, false, eqb_ℤ, if◌then◌else◌, arith, Bool-cases, inl, inr,
}
use sockpp.Result.{Result, None, is_error, is_ok, from_error, unit_default}
use sockpp.System.{
  Os, SetsErrno, World, Object, Call, Action, ◌>>◌, static, invalid_socket, or_return,
}
use sockpp.System.Held.{held, Owns, own}
use sockpp.Socket.{is_open, create_handle, or_close, reset, close}

-- A method keeps the descriptors accounted for, whatever the system replies.
abbrev pub Accounts {ℓ} : {A : Type ℓ} → Action Object A → Type 0
Accounts m = (rest : List ℤ) (o : Object) → Owns rest o → Owns rest (m o).1

module _ ⦃os : Os⦄ where
  pub close-Accounts : Accounts close
  unfolding close held
  close-Accounts rest o h = ground arith

  -- `reset` to a new handle: the old one is closed, and nothing else.
  pub reset-Owns :
      (h : ℤ) (rest : List ℤ) (o : Object)
      → eqb_ℤ h o.handle ≡ false
      → held o.world.history ≡ own h ++ own o.handle ++ rest
      → Owns rest (reset h o).1
  unfolding reset held
  reset-Owns h rest o ne e = ground arith

  -- What `create_handle` returns is what it obtained; where it fails it obtained nothing.
  pub create_handle-gain :
      (d t p : ℤ) (w : World) (n : SetsErrno os)
      → let (r, w') = create_handle d t p w in
        held w'.history ≡ own (if is_error r then invalid_socket else r.val) ++ held w.history
  unfolding create_handle held
  create_handle-gain d t p w n = ground (arith, n w.history (Call.socket d t p))

  -- A handle that `create_handle` hands out is a valid one.
  pub create_handle-valid :
      (d t p : ℤ) (w : World)
      → SetsErrno os
      → is_error (create_handle d t p w).0 ≡ false
      → eqb_ℤ (create_handle d t p w).0.val invalid_socket ≡ false
  unfolding create_handle
  create_handle-valid d t p w sets fine = ground (arith, sets w.history (Call.socket d t p))

  -- A closed object takes a handle over without a call.
  pub reset_closed :
      (h : ℤ) (o : Object) → is_open o ≡ false → (reset h o).1 ≡ record o { handle = h }
  unfolding reset
  reset_closed h o down = ground arith

-- An opening call that ends with `r`: the object is open exactly if it succeeded, and whatever the
-- object does not own is `rest`, as before.
abbrev pub Settles : List ℤ → Result None × Object → Type 0
Settles rest (r, o) = Owns rest o × (is_open o ≡ is_ok r)

-- A call that leaves the object's handle and the held descriptors alone.
abbrev pub KeepsHandle {ℓ} : {A : Type ℓ} → Action Object A → Type 0
KeepsHandle m =
    (o : Object) → ((m o).1.handle ≡ o.handle) × (held (m o).1.world.history ≡ held o.world.history)

module _ ⦃os : Os⦄ where
  pub close-closes : (o : Object) → (close o).1.handle ≡ invalid_socket
  unfolding close
  close-closes o = ground arith

  -- The idiom that closes the socket when a step fails.
  pub or_close-Settles :
      (m k : Action Object (Result None)) (rest : List ℤ)
      → KeepsHandle m
      → ((o : Object) → is_open o ≡ true → Owns rest o → Settles rest (k o))
      → (o : Object) → is_open o ≡ true
      → Owns rest o
      → Settles rest (or_close m k o)
  or_close-Settles m k rest keeps then_k o up h =
      let o' = (m o).1 in
      let up' : is_open o' ≡ true = rw ((keeps o).0) up in
      let h' : Owns rest o' = ground (arith, keeps o) in
      elim (Bool-cases (is_error (m o).0)) [
        | inl failed ↦ ground (arith, close-Accounts rest o' h', close-closes o')
        | inr fine ↦ ground (arith, then_k o' up' h')
      ]

  -- The idiom that makes a handle and hands it to a closed object: what holds of both endings holds.
  module _ (d t p : ℤ) (k : Action Object (Result None)) (rest : List ℤ) (sets : SetsErrno os)
      (o : Object) (down : is_open o ≡ false) (owns : Owns rest o) where
    abbrev pub made : Result ℤ
    made = (create_handle d t p o.world).0

    -- The object if no handle was made, and with the new handle
    abbrev pub unmade_object : Object
    unmade_object = record o { world = (create_handle d t p o.world).1 }

    abbrev pub made_object : Object
    made_object = record { handle = made.val; world = (create_handle d t p o.world).1 }

    pub adopt_elim {ℓ} :
        (P : Result None × Object → Type ℓ)
        → (is_error made ≡ true
            → is_open unmade_object ≡ false
            → Owns rest unmade_object
            → P (from_error made.err, unmade_object))
        → (is_error made ≡ false
            → is_open made_object ≡ true
            → Owns rest made_object
            → P (k made_object))
        → P (or_return (static (create_handle d t p)) (λ h. reset h >> k) o)
    adopt_elim P on_failure on_success =
        let gained = create_handle-gain d t p o.world sets in
        elim (Bool-cases (is_error made)) [
          | inl failed ↦ rw failed (on_failure failed down (ground (arith, gained)))
          | inr fine ↦
              let valid = create_handle-valid d t p o.world sets fine in
              let moved = reset_closed made.val unmade_object down in
              rw (fine, moved) (on_success fine (rw valid) (ground (arith, gained)))
        ]

  pub adopt-Settles :
      (d t p : ℤ) (k : Action Object (Result None)) (rest : List ℤ)
      → SetsErrno os
      → ((o : Object) → is_open o ≡ true → Owns rest o → Settles rest (k o))
      → (o : Object) → is_open o ≡ false
      → Owns rest o
      → Settles rest (or_return (static (create_handle d t p)) (λ h. reset h >> k) o)
  adopt-Settles d t p k rest sets then_k o down h =
      adopt_elim d t p k rest sets o down h (Settles rest)
        (λ failed shut owns. (owns, rw (shut, failed))) (λ fine up owns. then_k _ up owns)
