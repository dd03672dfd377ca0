-- ===== src/Tls/Mbed/Context/Lifetime.antt =====
-- A context of Mbed TLS from its constructor to its destructor.
use sockpp.Prelude.{
  ℤ, pos, ℕ, ◌+◌, List, [], ◌≡◌, Bool, true, false, not, eqb_ℤ, if◌then◌else◌, Option, none, some,
  arith, inl, inr,
}
use sockpp.Result.{Outcome, None}
use sockpp.Library.{MbedCall}
use sockpp.System.{Os, World, Action, perform}
use sockpp.System.Held.{objects}
use sockpp.System.Bag.{IsBag, IsBag-eq}
use sockpp.Tls.Mbed.Context.{
  Cert, Context, Locator, ◌>>=!◌, conf, free_cert?, free_key?, set_root_certs, get_drbg_context,
  drbg_once, get_system_root_certs, use_roots,
}
use sockpp.Tls.Mbed.Context.Build.{
  trust_roots, after_status, defaults, construct_context, destroy_context,
}
use sockpp.Tls.Mbed.Context.Peer.{
  require_for, reset_roots, set_root_cert_locator, require_peer_cert, allow_only_certificate,
  allow_only_parsed,
}
use sockpp.Tls.Mbed.Context.Identity.{set_identity_parsed, set_identity}
use sockpp.Tls.Mbed.Context.Assigned.{set_identity-KeepsBalance}
use sockpp.Tls.Mbed.Context.Owner.{
  own_cert, own, Balanced, KeepsBalance, Outcome-cases, free_cert?-IsBag, free_key?-IsBag,
  set_root_certs-KeepsBalance, allow_only_certificate-KeepsBalance,
  get_system_root_certs-KeepsBalance,
}

-- Reading files changes no reference.
abbrev pub IsQuiet : Action World (List ℕ) → Type 0
IsQuiet read = (w : World) → objects (read w).1.history ≡ objects w.history

-- The operations on a context
pub data Step ⦃os : Os⦄ (read : Action World (List ℕ)) : Context → Context → Type 0 where
  roots : (s : Context) (text : List ℕ) → Step read s (set_root_certs text s).1
  system : (s : Context) → Step read s (get_system_root_certs read s).1
  locate : (s : Context) (loc : Option Locator) → Step read s (set_root_cert_locator read loc s).1
  require :
      (s : Context) (for_client required send_list : Bool)
      → Step read s (require_peer_cert for_client required send_list s).1
  pin : (s : Context) (text : List ℕ) → Step read s (allow_only_certificate text s).1
  pin_parsed : (s : Context) (c : Option Cert) → Step read s (allow_only_parsed c s).1
  identity : (s : Context) (cert key : List ℕ) → Step read s (set_identity cert key s).1
  identity_parsed : (s : Context) (cert key : ℤ) → Step read s (set_identity_parsed cert key s).1

pub data Run ⦃os : Os⦄ (read : Action World (List ℕ)) (s : Context) : Context → Type 0 where
  here : Run read s s
  next : {t u : Context} → Run read s t → Step read t u → Run read s u

module _ ⦃os : Os⦄ where
  use_roots-KeepsBalance : (c : Option Cert) → KeepsBalance (use_roots c)
  unfolding use_roots objects perform
  use_roots-KeepsBalance none rest s b = b
  use_roots-KeepsBalance (some c) rest s b = b

  >>=!-KeepsBalance {ℓ κ} :
      {A : Type ℓ} {B : Type κ} (x : Action Context (Outcome A))
      (f : A → Action Context (Outcome B))
      → KeepsBalance x
      → ((a : A) → KeepsBalance (f a))
      → KeepsBalance (x >>=! f)
  >>=!-KeepsBalance x f first then_f rest s b = elim (Outcome-cases (x s).0) [
    | inl (a, e) ↦ rw (e, ◌>>=!◌) (then_f a rest (x s).1 (first rest s b))
    | inr (u, e) ↦ rw (e, ◌>>=!◌) (first rest s b)
  ]

  require_for-KeepsBalance :
      (same client required send_list : Bool)
      → KeepsBalance (require_for same client required send_list)
  unfolding require_for objects perform
  require_for-KeepsBalance false client required send_list rest s b = b
  require_for-KeepsBalance true true required send_list rest s b = b
  require_for-KeepsBalance true false required send_list rest s b = b

  require_peer_cert-KeepsBalance :
      (for_client required send_list : Bool)
      → KeepsBalance (require_peer_cert for_client required send_list)
  unfolding require_peer_cert
  require_peer_cert-KeepsBalance for_client required send_list rest s b =
      require_for-KeepsBalance (if for_client then s.client else not (s.client)) s.client required
        send_list rest s b

  reset_roots-KeepsBalance : (c : Option Cert) → KeepsBalance (reset_roots c)
  unfolding reset_roots
  reset_roots-KeepsBalance c = use_roots-KeepsBalance c

  set_root_cert_locator-KeepsBalance :
      (read : Action World (List ℕ))
      → IsQuiet read
      → (loc : Option Locator) → KeepsBalance (set_root_cert_locator read loc)
  unfolding set_root_cert_locator objects perform
  set_root_cert_locator-KeepsBalance read quiet (some loc) rest s b = b
  set_root_cert_locator-KeepsBalance read quiet none rest s b =
      >>=!-KeepsBalance (get_system_root_certs read) reset_roots
        (get_system_root_certs-KeepsBalance read quiet) reset_roots-KeepsBalance rest
        (record s { locator = none }) b

  allow_only_parsed-KeepsBalance : (c : Option Cert) → KeepsBalance (allow_only_parsed c)
  unfolding allow_only_parsed
  allow_only_parsed-KeepsBalance none = allow_only_certificate-KeepsBalance []
  allow_only_parsed-KeepsBalance (some c) = allow_only_certificate-KeepsBalance c.raw

  Step-Balanced :
      {read : Action World (List ℕ)} {s t : Context} (rest : ℤ → ℕ)
      → IsQuiet read
      → Step read s t
      → Balanced rest s
      → Balanced rest t
  unfolding set_identity_parsed objects perform
  Step-Balanced rest quiet (roots s text) b = set_root_certs-KeepsBalance text rest s b
  Step-Balanced {read} rest quiet (system s) b =
      get_system_root_certs-KeepsBalance read quiet rest s b
  Step-Balanced {read} rest quiet (locate s loc) b =
      set_root_cert_locator-KeepsBalance read quiet loc rest s b
  Step-Balanced rest quiet (require s for_client required send_list) b =
      require_peer_cert-KeepsBalance for_client required send_list rest s b
  Step-Balanced rest quiet (pin s text) b = allow_only_certificate-KeepsBalance text rest s b
  Step-Balanced rest quiet (pin_parsed s c) b = allow_only_parsed-KeepsBalance c rest s b
  Step-Balanced rest quiet (identity s cert key) b = set_identity-KeepsBalance cert key rest s b
  Step-Balanced rest quiet (identity_parsed s cert key) b = b

  Run-Balanced :
      {read : Action World (List ℕ)} {s t : Context} (rest : ℤ → ℕ)
      → IsQuiet read
      → Run read s t
      → Balanced rest s
      → Balanced rest t
  Run-Balanced rest quiet here b = b
  Run-Balanced rest quiet (next r st) b = Step-Balanced rest quiet st (Run-Balanced rest quiet r b)

  destroy_context-IsBag :
      (rest : ℤ → ℕ) (s : Context)
      → Balanced rest s
      → IsBag
          (λ p. own_cert s.system_roots p + rest p)
          (objects (destroy_context s).1.world.history)
  unfolding destroy_context objects perform
  destroy_context-IsBag rest s b =
      let w₁ = (conf MbedCall.config_free s).1.world in
      let w₂ = (free_key? s.identity_key w₁).1 in
      let w₃ = (free_cert? s.identity_cert w₂).1 in
      let w₄ = (free_cert? s.pinned w₃).1 in
      let left = λ (p : ℤ). own_cert s.system_roots p + rest p in
      let g₄ = λ (p : ℤ). own_cert s.root_certs p + left p in
      let g₃ = λ (p : ℤ). own_cert s.pinned p + g₄ p in
      let g₂ = λ (p : ℤ). own_cert s.identity_cert p + g₃ p in
      let b₂ = free_key?-IsBag {f = g₂} s.identity_key w₁ (IsBag-eq (λ p. omega arith) b.0) in
      let b₃ = free_cert?-IsBag {f = g₃} s.identity_cert w₂ b₂ in
      free_cert?-IsBag {f = left} s.root_certs w₄ (free_cert?-IsBag {f = g₄} s.pinned w₃ b₃)

module _ ⦃os : Os⦄ where
  drbg_once-KeepsBalance : (ready : Bool) → KeepsBalance (drbg_once ready)
  unfolding drbg_once objects perform
  drbg_once-KeepsBalance true rest s b = b
  drbg_once-KeepsBalance false rest s b = ground (arith, b)

  get_drbg_context-KeepsBalance : KeepsBalance get_drbg_context
  unfolding get_drbg_context
  get_drbg_context-KeepsBalance rest s b = drbg_once-KeepsBalance s.rng_ready rest s b

  trust_roots-KeepsBalance : (c : Option Cert) → KeepsBalance (trust_roots c)
  unfolding trust_roots objects perform
  trust_roots-KeepsBalance c rest s b = use_roots-KeepsBalance c rest s b

  after_status-KeepsBalance :
      (read : Action World (List ℕ))
      → IsQuiet read
      → (fine : Bool) → KeepsBalance (after_status read fine)
  unfolding after_status
  after_status-KeepsBalance read quiet false rest s b = b
  after_status-KeepsBalance read quiet true rest s b =
      >>=!-KeepsBalance (get_system_root_certs read) trust_roots
        (get_system_root_certs-KeepsBalance read quiet) trust_roots-KeepsBalance rest s b

  defaults-KeepsBalance :
      (read : Action World (List ℕ)) → IsQuiet read → (x : None) → KeepsBalance (defaults read x)
  unfolding defaults objects perform
  defaults-KeepsBalance read quiet x rest s b =
      let s₁ = (conf MbedCall.conf_rng s).1 in
      let (status, s₂) =
        conf (λ config. MbedCall.config_defaults config (if s.client then 0 else 1)) s₁ in
      after_status-KeepsBalance read quiet (eqb_ℤ status (pos 0)) rest
        (record s₂ { status = status }) b

  construct_context-KeepsBalance :
      (read : Action World (List ℕ))
      → IsQuiet read
      → (client : Bool) → KeepsBalance (construct_context read client)
  unfolding construct_context objects perform
  construct_context-KeepsBalance read quiet client rest s b =
      >>=!-KeepsBalance get_drbg_context (defaults read) get_drbg_context-KeepsBalance
        (defaults-KeepsBalance read quiet) rest
        (conf MbedCall.config_init (record s { client = client })).1 b

  -- Through the life of a context, whatever its operations are given and whether they throw or not,
  -- the certificates and keys held are those of its members; and after the destructor only the roots
  -- of the system are left, which are static. No reference is lost, and none is given up twice.
  pub Run-destroy :
      (read : Action World (List ℕ)) (quiet : IsQuiet read) (client : Bool) (rest : ℤ → ℕ)
      (s t : Context)
      → Balanced rest s
      → Run read (construct_context read client s).1 t
      → IsBag (λ p. own t p + rest p) (objects t.world.history)
        × IsBag
            (λ p. own_cert t.system_roots p + rest p)
            (objects (destroy_context t).1.world.history)
  Run-destroy read quiet client rest s t b run =
      let kept =
        Run-Balanced rest quiet run (construct_context-KeepsBalance read quiet client rest s b) in
      (kept.0, destroy_context-IsBag rest t kept)
