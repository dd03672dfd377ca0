-- ===== src/Tls/Mbed/Context/Owner.antt =====
-- Which certificates and keys a context of Mbed TLS owns, and that its operations keep the account.
use sockpp.Prelude.{
  ℤ, pos, ℕ, ◌+◌, List, [], ◌∷◌, ◌++◌, ◌≡◌, refl, ap, Bool, true, false, not, ◌&&◌, ◌||◌, ltb_ℤ,
  eqb_ℤ, Option, none, some, arith, inl, inr, ◌⊎◌,
}
use sockpp.Error.{ErrorCode}
use sockpp.Result.{Outcome, returns, throws}
use sockpp.Library.{LibraryCall, MbedCall}
use sockpp.System.{Os, World, Call, Action, perform}
use sockpp.System.Held.{objects}
use sockpp.System.Bag.{one, IsBag, IsBag-eq, add_ref-IsBag, drop_ref-IsBag}
use sockpp.Tls.Mbed.Context.{
  Cert, Context, ◌>>=!◌, mbed, in_world, free_cert?, free_key?, parse_cert, end_parse,
  set_root_certs, roots_once, place_root_certs, place_system_roots, get_system_root_certs,
  parse_roots,
}
use sockpp.Tls.Mbed.Context.Peer.{allow_only_certificate, place_pinned}

abbrev pub own_cert : Option Cert → ℤ → ℕ
own_cert none p = 0
own_cert (some c) p = one c.at p

abbrev pub own_key : Option ℤ → ℤ → ℕ
own_key none p = 0
own_key (some k) p = one k p

-- What the members own, and the static variable of the system's roots
abbrev pub own : Context → ℤ → ℕ
own s p =
    own_cert s.root_certs p
    + (own_cert s.pinned p
        + (own_cert s.identity_cert p + (own_key s.identity_key p + own_cert s.system_roots p)))

-- The references held are those of the context, and `rest`; and there are no roots of the system
-- before they are ready.
abbrev pub Balanced : (ℤ → ℕ) → Context → Type 0
Balanced rest s =
    IsBag (λ p. own s p + rest p) (objects s.world.history)
    × (s.roots_ready ≡ false → s.system_roots ≡ none)

abbrev pub KeepsBalance {ℓ} : {A : Type ℓ} → Action Context A → Type 0
KeepsBalance m = (rest : ℤ → ℕ) (s : Context) → Balanced rest s → Balanced rest (m s).1

pub Outcome-cases {ℓ} :
    {A : Type ℓ} (r : Outcome A) → ((a : A) × (r ≡ returns a)) ⊎ ((e : ErrorCode) × (r ≡ throws e))
Outcome-cases (returns a) = inl (a, refl)
Outcome-cases (throws e) = inr (e, refl)

-- What the result of a parser holds
abbrev pub own_outcome : Outcome Cert → ℤ → ℕ
own_outcome (returns c) p = one c.at p
own_outcome (throws e) p = 0

module _ ⦃os : Os⦄ where
  pub free_cert?-IsBag :
      {f : ℤ → ℕ} (c : Option Cert) (w : World)
      → IsBag (λ p. own_cert c p + f p) (objects w.history)
      → IsBag f (objects (free_cert? c w).1.history)
  unfolding perform objects
  free_cert?-IsBag none w b = IsBag-eq (λ p. omega arith) b
  free_cert?-IsBag (some c) w b = drop_ref-IsBag c.at b

  pub free_key?-IsBag :
      {f : ℤ → ℕ} (k : Option ℤ) (w : World)
      → IsBag (λ p. own_key k p + f p) (objects w.history)
      → IsBag f (objects (free_key? k w).1.history)
  unfolding perform objects
  free_key?-IsBag none w b = IsBag-eq (λ p. omega arith) b
  free_key?-IsBag (some k) w b = drop_ref-IsBag k b

  -- Parsing ends with one more reference, the result's, or with none and an exception.
  end_parse-IsBag :
      (f : ℤ → ℕ) (c : Cert) (failed : Bool) (w : World)
      → IsBag (λ p. one c.at p + f p) (objects w.history)
      → let (r, w') = end_parse c failed w in
        IsBag (λ p. own_outcome r p + f p) (objects w'.history)
  unfolding end_parse objects
  end_parse-IsBag f c true w b = IsBag-eq (λ p. omega arith) (drop_ref-IsBag c.at b)
  end_parse-IsBag f c false w b = b

  pub parse_cert-IsBag :
      (f : ℤ → ℕ) (text : List ℕ) (partial_ok : Bool) (w : World)
      → IsBag f (objects w.history)
      → let (r, w') = parse_cert text partial_ok w in
        IsBag (λ p. own_outcome r p + f p) (objects w'.history)
  unfolding parse_cert objects perform
  parse_cert-IsBag f text partial_ok w b =
      let (c, w₁) = mbed MbedCall.new_cert w in
      let w₃ = (mbed (MbedCall.x509_crt_init c) (mbed (MbedCall.x509_crt_init c) w₁).1).1 in
      let (r, w₄) =
        perform (Call.library (LibraryCall.mbed (MbedCall.x509_crt_parse c (text ++ 0 ∷ [])))) w₃ in
      end_parse-IsBag f (record { at = c; raw = r.bytes })
        (not (eqb_ℤ r.ret (pos 0)) && (ltb_ℤ r.ret (pos 0) || not partial_ok)) w₄
        (add_ref-IsBag c b)

  -- What follows the parsing of a certificate need only place the reference.
  pub parsed-Balanced {ℓ} :
      {A : Type ℓ} (text : List ℕ) (partial_ok : Bool) (f : Cert → Action Context (Outcome A))
      (rest : ℤ → ℕ) (s : Context)
      → ((c : Cert) (w : World)
          → IsBag (λ p. one c.at p + (own s p + rest p)) (objects w.history)
          → Balanced rest (f c (record s { world = w })).1)
      → Balanced rest s
      → Balanced rest ((in_world (parse_cert text partial_ok) >>=! f) s).1
  parsed-Balanced text partial_ok f rest s place b =
      let (r, w₁) = parse_cert text partial_ok s.world in
      let parsed = parse_cert-IsBag (λ p. own s p + rest p) text partial_ok s.world b.0 in
      elim (Outcome-cases r) [
        | inl (c, e) ↦
            rw (e, ◌>>=!◌)
              (place c w₁ (
                IsBag-eq (λ p. omega (arith, ap (λ (x : Outcome Cert). own_outcome x p) e)) parsed))
        | inr (x, e) ↦
            rw (e, ◌>>=!◌)
              (
                IsBag-eq (λ p. omega (arith, ap (λ (x : Outcome Cert). own_outcome x p) e)) parsed,
                b.1,
              )
      ]

  pub set_root_certs-KeepsBalance : (text : List ℕ) → KeepsBalance (set_root_certs text)
  unfolding set_root_certs place_root_certs objects perform
  set_root_certs-KeepsBalance text rest s b =
      parsed-Balanced text true place_root_certs rest s
        (λ c w h. (free_cert?-IsBag s.root_certs w (IsBag-eq (λ p. omega arith) h), b.1)) b

  place_pinned-Balanced :
      (c : Option Cert) (rest : ℤ → ℕ) (s : Context)
      → IsBag (λ p. own_cert c p + (own s p + rest p)) (objects s.world.history)
      → (s.roots_ready ≡ false → s.system_roots ≡ none)
      → Balanced rest (place_pinned c s).1
  unfolding place_pinned
  place_pinned-Balanced c rest s h fresh =
      (free_cert?-IsBag s.pinned s.world (IsBag-eq (λ p. omega arith) h), fresh)

  pub allow_only_certificate-KeepsBalance :
      (text : List ℕ) → KeepsBalance (allow_only_certificate text)
  unfolding allow_only_certificate
  allow_only_certificate-KeepsBalance [] rest s b =
      place_pinned-Balanced none rest s (IsBag-eq (λ p. omega arith) b.0) b.1
  allow_only_certificate-KeepsBalance (x ∷ text) rest s b =
      parsed-Balanced (x ∷ text) false (λ c. place_pinned (some c)) rest s
        (λ c w h. place_pinned-Balanced (some c) rest (record s { world = w }) h b.1) b

  parse_roots-Balanced :
      (text : List ℕ) (rest : ℤ → ℕ) (s : Context)
      → s.roots_ready ≡ false
      → Balanced rest s
      → Balanced rest (parse_roots text s).1
  unfolding parse_roots place_system_roots
  parse_roots-Balanced [] rest s early b = (b.0, λ ready. cc)
  parse_roots-Balanced (x ∷ text) rest s early b =
      let none_yet = b.1 early in
      parsed-Balanced (x ∷ text) true place_system_roots rest s
        (λ c w h. (
          IsBag-eq (λ p. omega (arith, ap (λ (r : Option Cert). own_cert r p) none_yet)) h,
          λ ready. cc,
        ))
        b

  roots_once-Balanced :
      (read : Action World (List ℕ))
      → ((w : World) → objects (read w).1.history ≡ objects w.history)
      → (ready : Bool) (rest : ℤ → ℕ) (s : Context) → s.roots_ready ≡ ready
      → Balanced rest s
      → Balanced rest (roots_once read ready s).1
  unfolding roots_once
  roots_once-Balanced read quiet true rest s e b = b
  roots_once-Balanced read quiet false rest s early b =
      let (text, w₁) = read s.world in
      parse_roots-Balanced text rest (record s { world = w₁ }) early (rw (quiet s.world) (b.0), b.1)

  -- Reading the files must not change the references.
  pub get_system_root_certs-KeepsBalance :
      (read : Action World (List ℕ))
      → ((w : World) → objects (read w).1.history ≡ objects w.history)
      → KeepsBalance (get_system_root_certs read)
  unfolding get_system_root_certs
  get_system_root_certs-KeepsBalance read quiet rest s b =
      roots_once-Balanced read quiet s.roots_ready rest s refl b
