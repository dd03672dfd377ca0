-- ===== src/Tls/Mbed/Context/Dangling.antt =====
-- After a second `set_identity`, the configuration of a context still names the first certificate.
use sockpp.Prelude.{
  ℤ, pos, ℕ, ◌+◌, ◌<◌, List, [], ◌∷◌, ◌++◌, ◌≡◌, refl, ap, sym, ◌∙◌, Bool, true, false, not, ◌&&◌,
  ◌||◌, eqb_ℤ, ltb_ℤ, if◌then◌else◌, Option, none, some, arith, inl, inr, eqb_ℤ-refl,
}
use sockpp.Result.{Outcome, returns, None}
use sockpp.Library.{LibraryCall, MbedCall}
use sockpp.System.{Os, World, Event, Call, Action, perform}
use sockpp.System.Held.{objects}
use sockpp.System.Bag.{one, count}
use sockpp.Tls.Mbed.Context.{
  Cert, Context, ◌>>=!◌, mbed, in_world, parse_cert, end_parse, free_cert?, free_key?,
}
use sockpp.Tls.Mbed.Context.Identity.{
  read_key, end_key, take_identity, key_for, set_identity, set_identity_parsed,
}
use sockpp.Tls.Mbed.Context.Assigned.{set_identity-KeepsBalance}
use sockpp.Tls.Mbed.Context.Owner.{own_cert, own_key, own, Balanced, Outcome-cases}

-- What the library says of `mbedtls_ssl_conf_own_cert`: the configuration keeps the address of each
-- certificate that it is given, beside those from before. The latest is the first.
abbrev pub after_own : ℤ → Call → List ℤ → List ℤ
after_own config (Call.library (LibraryCall.mbed (MbedCall.conf_own_cert c p k))) certs =
    if eqb_ℤ c config then p ∷ certs else certs
after_own config c certs = certs

unfoldable pub own_certs : ℤ → List Event → List ℤ
own_certs config [] = []
own_certs config (e ∷ es) = after_own config e.call (own_certs config es)

-- What a successful `set_identity` does to the members
pub record Identified (s s' : Context) : Type 0 where
  pub cert : Cert
  pub key : ℤ
  pub has_cert : s'.identity_cert ≡ some cert
  pub has_key : s'.identity_key ≡ some key
  pub roots : s'.root_certs ≡ s.root_certs
  pub pin : s'.pinned ≡ s.pinned
  pub system : s'.system_roots ≡ s.system_roots
  pub config : s'.config ≡ s.config
  pub names : own_certs s'.config s'.world.history ≡ cert.at ∷ own_certs s.config s.world.history

-- What went before may have changed the world, but not the configuration's list.
moved-Identified :
    (s t : Context) (w : World)
    → own_certs s.config w.history ≡ own_certs s.config s.world.history
    → Identified (record s { world = w }) t
    → Identified s t
moved-Identified s t w same i = record {
  cert = i.cert;
  key = i.key;
  has_cert = i.has_cert;
  has_key = i.has_key;
  roots = i.roots;
  pin = i.pin;
  system = i.system;
  config = i.config;
  names = i.names ∙ ap (λ (l : List ℤ). i.cert.at ∷ l) same;
}

-- If a chain returned, its first part did, and it ended with the second.
>>=!-returns {ℓ κ μ} :
    {S : Type ℓ} {A : Type κ} {B : Type μ} (x : Action S (Outcome A)) (f : A → Action S (Outcome B))
    (s : S) {b : B}
    → ((x >>=! f) s).0 ≡ returns b
    → (a : A) × ((x s).0 ≡ returns a) × ((x >>=! f) s ≡ f a (x s).1)
>>=!-returns x f s h = elim (Outcome-cases (x s).0) [
  | inl (a, e) ↦ (a, e, rw (e, ◌>>=!◌) refl)
  | inr (u, e) ↦ absurd (ground (arith, e, h))
]

module _ ⦃os : Os⦄ where
  end_parse-own_certs :
      (config : ℤ) (c : Cert) (failed : Bool) (w : World)
      → own_certs config (end_parse c failed w).1.history ≡ own_certs config w.history
  unfolding end_parse own_certs
  end_parse-own_certs config c true w = refl
  end_parse-own_certs config c false w = refl

  parse_cert-own_certs :
      (config : ℤ) (text : List ℕ) (partial_ok : Bool) (w : World)
      → own_certs config (parse_cert text partial_ok w).1.history ≡ own_certs config w.history
  unfolding parse_cert own_certs perform
  parse_cert-own_certs config text partial_ok w =
      let (c, w₁) = mbed MbedCall.new_cert w in
      let w₃ = (mbed (MbedCall.x509_crt_init c) (mbed (MbedCall.x509_crt_init c) w₁).1).1 in
      let (r, w₄) =
        perform (Call.library (LibraryCall.mbed (MbedCall.x509_crt_parse c (text ++ 0 ∷ [])))) w₃ in
      end_parse-own_certs config (record { at = c; raw = r.bytes })
        (not (eqb_ℤ r.ret (pos 0)) && (ltb_ℤ r.ret (pos 0) || not partial_ok)) w₄

  end_key-own_certs :
      (config : ℤ) (c : Cert) (k : ℤ) (read : Bool) (w : World)
      → own_certs config (end_key c k read w).1.history ≡ own_certs config w.history
  unfolding end_key own_certs
  end_key-own_certs config c k true w = refl
  end_key-own_certs config c k false w = refl

  read_key-own_certs :
      (config : ℤ) (c : Cert) (text : List ℕ) (w : World)
      → own_certs config (read_key c text w).1.history ≡ own_certs config w.history
  unfolding read_key own_certs perform
  read_key-own_certs config c text w =
      let (k, w₁) = mbed MbedCall.new_key w in
      let (err, w₃) = mbed (MbedCall.pk_parse_key k text) (mbed (MbedCall.pk_init k) w₁).1 in
      end_key-own_certs config c k (eqb_ℤ err (pos 0)) w₃

  free-own_certs :
      (config : ℤ) (c : Option Cert) (k : Option ℤ) (w : World)
      → own_certs config (free_key? k (free_cert? c w).1).1.history ≡ own_certs config w.history
  unfolding own_certs perform
  free-own_certs config none none w = refl
  free-own_certs config none (some k) w = refl
  free-own_certs config (some c) none w = refl
  free-own_certs config (some c) (some k) w = refl

  take_identity-Identified : (c : Cert) (k : ℤ) (s : Context) → Identified s (take_identity c k s).1
  unfolding take_identity own_certs perform
  take_identity-Identified c k s = record {
    cert = c;
    key = k;
    has_cert = refl;
    has_key = refl;
    roots = refl;
    pin = refl;
    system = refl;
    config = refl;
    names =
        free-own_certs s.config s.identity_cert s.identity_key
          (set_identity_parsed (c.at) k s).1.world
        ∙ ground (arith, eqb_ℤ-refl s.config);
  }

  key_for-Identified :
      (text : List ℕ) (c : Cert) (s : Context)
      → (key_for text c s).0 ≡ returns tt
      → Identified s (key_for text c s).1
  unfolding key_for
  key_for-Identified text c s done =
      let w₁ = (read_key c text s.world).1 in
      let (k, e, same) = >>=!-returns (in_world (read_key c text)) (take_identity c) s done in
      rw same (
        moved-Identified s (take_identity c k (record s { world = w₁ })).1 w₁
          (read_key-own_certs s.config c text s.world)
          (take_identity-Identified c k (record s { world = w₁ })))

  set_identity-Identified :
      (cert key : List ℕ) (s : Context)
      → (set_identity cert key s).0 ≡ returns tt
      → Identified s (set_identity cert key s).1
  unfolding set_identity
  set_identity-Identified cert key s done =
      let w₁ = (parse_cert cert false s.world).1 in
      let (c, e, same) = >>=!-returns (in_world (parse_cert cert false)) (key_for key) s done in
      let s₁ : Context = record s { world = w₁ } in
      let ended : (key_for key c s₁).0 ≡ returns tt =
        ap (λ (r : Outcome None × Context). r.0) (sym same) ∙ done in
      rw same (
        moved-Identified s (key_for key c s₁).1 w₁
          (parse_cert-own_certs s.config cert false s.world) (key_for-Identified key c s₁ ended))

  -- If a context has an identity, and nothing else holds its certificate, a `set_identity` that
  -- succeeds, with a new certificate and key at other addresses, frees the old certificate, which
  -- the configuration named, and still names.
  pub set_identity-dangles :
      (cert key : List ℕ) (old : Cert) (rest : ℤ → ℕ) (s : Context)
      → s.identity_cert ≡ some old
      → 0 < count old.at (own_certs s.config s.world.history)
      → Balanced rest s
      → own s old.at + rest old.at ≡ one old.at old.at
      → let (r, s') = set_identity cert key s in
        r ≡ returns tt
        → own_cert s'.identity_cert old.at + own_key s'.identity_key old.at ≡ 0
        → (0 < count old.at (own_certs s'.config s'.world.history))
          × (refs : List ℤ) × (objects s'.world.history ≡ some refs)
          × (count old.at refs ≡ 0)
  set_identity-dangles cert key old rest s has named b alone done other =
      let i = set_identity-Identified cert key s done in
      let after = set_identity-KeepsBalance cert key rest s b in
      let bag = after.0 in
      let by = λ (c : Option Cert). own_cert c old.at in
      let counted : count old.at bag.held ≡ 0 = omega (
        arith,
        bag.counted old.at,
        ap by has,
        ap by i.roots,
        ap by i.pin,
        ap by i.system,
        alone,
        other,
      ) in
      (ground (arith, i.names, named), bag.held, bag.known, counted)
