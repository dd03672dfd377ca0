-- ===== src/Tls/Mbed/Socket/Setup.antt =====
-- The constructor and the destructor of the Mbed TLS socket: what they own, and that they return.
use sockpp.Prelude.{
  ℤ, pos, ℕ, suc, List, [], ◌∷◌, ◌≡◌, refl, ◌∙◌, Bool, true, false, not, ◌||◌, eqb_ℤ, Option, some,
  arith, inl, inr, Bool-cases, Option-cases, zero,
}
use sockpp.Library.{MbedCall}
use sockpp.Result.{Result, Outcome, throws, None, is_error, is_ok, int_default}
use sockpp.System.{Os, SetsErrno, Action, perform, invalid_socket}
use sockpp.System.Held.{held, objects, Owns}
use sockpp.Socket.{close}
use sockpp.Socket.Options.{is_non_blocking}
use sockpp.Tls.Mbed.Socket.{Mbed, MbedObject, ◌>>=?◌, on_handle, check_mbed_setup, setup_bio, plain}
use sockpp.Tls.Mbed.Socket.Build.{
  handshake_loop, throw_tls, check_verified, after_handshake, check_result, unless_named,
  unless_set, set_up, shake_hands, host_name_set, interact,
}
use sockpp.Tls.Mbed.Socket.Callbacks.{>>=?-some, interact-KeepsAll, IsPlain}
use sockpp.Tls.Mbed.Socket.Ending.{RefusesInvalid, check_mbed_setup_lem}

-- The object has this connection object, and the descriptors and references that are held are its own
-- and others.
abbrev pub Holds : ℤ → List ℤ → List ℤ → MbedObject → Type 0
Holds ssl rest refs o =
    (o.ssl ≡ ssl) × Owns rest o.base × (objects o.base.world.history ≡ some refs)

abbrev pub KeepsHolds {ℓ} : {A : Type ℓ} → Action MbedObject A → Type 0
KeepsHolds m =
    (ssl : ℤ) (rest refs : List ℤ) (o : MbedObject)
    → Holds ssl rest refs o
    → Holds ssl rest refs (m o).1

abbrev pub has_thrown : Option (Outcome None) → Bool
has_thrown (some (throws e)) = true
has_thrown r = false

-- A part of the constructor: when it throws, the base object has been destroyed.
abbrev pub KeepsUnlessThrown : Action MbedObject (Option (Outcome None)) → Type 0
KeepsUnlessThrown m =
    (ssl : ℤ) (rest refs : List ℤ) (o : MbedObject)
    → Holds ssl rest refs o
    → let (r, o') = m o in
      Holds ssl rest refs o' × (has_thrown r ≡ true → o'.base.handle ≡ invalid_socket)

>>=?-KeepsUnlessThrown :
    {A : Type 0} (x : Action MbedObject (Option A))
    (f : A → Action MbedObject (Option (Outcome None)))
    → KeepsHolds x
    → ((a : A) → KeepsUnlessThrown (f a))
    → KeepsUnlessThrown (x >>=? f)
>>=?-KeepsUnlessThrown x f first then_f ssl rest refs o h = elim (Option-cases (x o).0) [
  | inl out ↦ rw (out, ◌>>=?◌) (first ssl rest refs o h, λ t. cc)
  | inr (a, e) ↦ rw (>>=?-some x f a o e) (then_f a ssl rest refs (x o).1 (first ssl rest refs o h))
]

module _ ⦃os : Os⦄ (refuses : RefusesInvalid os) (sets : SetsErrno os) where
  check_mbed_setup-KeepsHolds : (fuel : ℕ) (ret : ℤ) → KeepsHolds (check_mbed_setup (suc fuel) ret)
  check_mbed_setup-KeepsHolds fuel ret ssl rest refs o (s, owns, has) =
      let (fine, failed) = check_mbed_setup_lem refuses sets fuel ret rest o owns in
      elim (Bool-cases (eqb_ℤ ret (pos 0))) [
        | inl z ↦ let (r, same) = fine z in rw same (s, owns, has)
        | inr nz ↦ let (r, set, gave) = failed nz in (gave.ssl ∙ s, gave.owns, gave.refs ∙ has)
      ]

module _ ⦃os : Os⦄ ⦃m : Mbed⦄ where
  handshake_loop-KeepsHolds : (fuel : ℕ) → KeepsHolds (handshake_loop fuel)
  unfolding handshake_loop
  handshake_loop-KeepsHolds zero ssl rest refs o h = h
  handshake_loop-KeepsHolds (suc fuel) ssl rest refs o h =
      let kept = interact-KeepsAll MbedCall.ssl_handshake (λ s ret rs. refl) o in
      let o' = (interact MbedCall.ssl_handshake o).1 in
      let again = handshake_loop-KeepsHolds fuel ssl rest refs o' (ground (arith, h, kept)) in
      ground (arith, again, h, kept)

  pub throw_tls-KeepsUnlessThrown : (err : ℤ) → KeepsUnlessThrown (throw_tls err)
  unfolding throw_tls close held objects
  throw_tls-KeepsUnlessThrown err ssl rest refs o h = ground arith

  check_verified-KeepsUnlessThrown : KeepsUnlessThrown check_verified
  unfolding check_verified held objects
  check_verified-KeepsUnlessThrown ssl rest refs o h = ground arith

module _ ⦃os : Os⦄ ⦃m : Mbed⦄ where
  check_result-KeepsUnlessThrown : (res : Result ℤ) → KeepsUnlessThrown (check_result res)
  unfolding check_result
  check_result-KeepsUnlessThrown res ssl rest refs o h =
      elim (Bool-cases (is_error res || not (eqb_ℤ res.val (pos 0)))) [
        | inl bad ↦ rw bad (h, λ t. cc)
        | inr fine ↦ rw fine (check_verified-KeepsUnlessThrown ssl rest refs o h)
      ]

  pub plain-KeepsHolds : (c : ℤ → MbedCall) → IsPlain c → KeepsHolds (plain c)
  unfolding perform held objects
  plain-KeepsHolds c is_plain ssl rest refs o h =
      let ret = (plain c o).0 in ground (arith, is_plain o.ssl ret (objects o.base.world.history))

  setup_bio-KeepsHolds : (nonblocking : Bool) → KeepsHolds (setup_bio nonblocking)
  unfolding setup_bio held objects
  setup_bio-KeepsHolds nonblocking ssl rest refs o h = ground arith

  is_non_blocking-KeepsHolds : KeepsHolds (on_handle is_non_blocking)
  unfolding is_non_blocking held objects
  is_non_blocking-KeepsHolds ssl rest refs o h = ground arith

module _ ⦃os : Os⦄ ⦃m : Mbed⦄ (refuses : RefusesInvalid os) (sets : SetsErrno os) where
  after_handshake-KeepsUnlessThrown :
      (fuel : ℕ) (status : ℤ) → KeepsUnlessThrown (after_handshake (suc fuel) status)
  unfolding after_handshake
  after_handshake-KeepsUnlessThrown fuel status =
      >>=?-KeepsUnlessThrown (check_mbed_setup (suc fuel) status) check_result
        (check_mbed_setup-KeepsHolds refuses sets fuel status) check_result-KeepsUnlessThrown

  shake_hands-KeepsUnlessThrown : (fuel : ℕ) → KeepsUnlessThrown (shake_hands (suc fuel))
  unfolding shake_hands
  shake_hands-KeepsUnlessThrown fuel ssl rest refs o h =
      let (nb, o₁) = on_handle is_non_blocking o in
      let o₂ = (setup_bio nb o₁).1 in
      let h₂ =
        setup_bio-KeepsHolds nb ssl rest refs o₁ (is_non_blocking-KeepsHolds ssl rest refs o h) in
      >>=?-KeepsUnlessThrown (handshake_loop (suc fuel)) (after_handshake (suc fuel))
        (handshake_loop-KeepsHolds (suc fuel)) (after_handshake-KeepsUnlessThrown fuel) ssl rest
        refs (record o₂ { opened = true }) h₂

  host_name_set-KeepsHolds :
      (fuel : ℕ) (hostname : List ℕ) → KeepsHolds (host_name_set (suc fuel) hostname)
  unfolding host_name_set
  host_name_set-KeepsHolds fuel [] ssl rest refs o h = h
  host_name_set-KeepsHolds fuel (c ∷ hostname) ssl rest refs o h =
      let set = plain (λ s. MbedCall.ssl_set_hostname s (c ∷ hostname)) o in
      let h₁ =
        plain-KeepsHolds (λ s. MbedCall.ssl_set_hostname s (c ∷ hostname)) (λ s ret rs. refl) ssl
          rest refs o h in
      let h₂ = check_mbed_setup-KeepsHolds refuses sets fuel set.0 ssl rest refs set.1 h₁ in
      elim (Option-cases (check_mbed_setup (suc fuel) set.0 set.1).0) [
        | inl out ↦ rw (out, ◌>>=?◌) h₂
        | inr (a, e) ↦ rw (e, ◌>>=?◌) h₂
      ]

  unless_named-KeepsUnlessThrown :
      (fuel : ℕ) (named : Bool) → KeepsUnlessThrown (unless_named (suc fuel) named)
  unfolding unless_named
  unless_named-KeepsUnlessThrown fuel true ssl rest refs o h = (h, λ t. cc)
  unless_named-KeepsUnlessThrown fuel false ssl rest refs o h =
      shake_hands-KeepsUnlessThrown fuel ssl rest refs o h

  unless_set-KeepsUnlessThrown :
      (fuel : ℕ) (hostname : List ℕ) (set : Result ℤ)
      → KeepsUnlessThrown (unless_set (suc fuel) hostname set)
  unfolding unless_set
  unless_set-KeepsUnlessThrown fuel hostname set ssl rest refs o h = elim (Bool-cases (is_ok set)) [
    | inl fine ↦ rw fine (h, λ t. cc)
    | inr failed ↦ rw failed (
        >>=?-KeepsUnlessThrown (host_name_set (suc fuel) hostname) (unless_named (suc fuel))
          (host_name_set-KeepsHolds fuel hostname) (unless_named-KeepsUnlessThrown fuel) ssl rest
          refs o h)
  ]

  pub set_up-KeepsUnlessThrown :
      (fuel : ℕ) (config : ℤ) (hostname : List ℕ)
      → KeepsUnlessThrown (set_up (suc fuel) config hostname)
  unfolding set_up
  set_up-KeepsUnlessThrown fuel config hostname ssl rest refs o h =
      let set = plain (λ s. MbedCall.ssl_setup s config) o in
      let h₁ =
        plain-KeepsHolds (λ s. MbedCall.ssl_setup s config) (λ s ret rs. refl) ssl rest refs o h in
      >>=?-KeepsUnlessThrown (check_mbed_setup (suc fuel) set.0) (unless_set (suc fuel) hostname)
        (check_mbed_setup-KeepsHolds refuses sets fuel set.0)
        (unless_set-KeepsUnlessThrown fuel hostname) ssl rest refs set.1 h₁
