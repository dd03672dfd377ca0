-- ===== src/Tls/Mbed/Context/Assigned.antt =====
-- Setting the identity keeps the account of a context of Mbed TLS.
use sockpp.Prelude.{ℤ, pos, ℕ, ◌+◌, List, ◌≡◌, ap, Bool, true, false, eqb_ℤ, none, arith, inl, inr}
use sockpp.Result.{Outcome, returns, throws}
use sockpp.Library.{MbedCall}
use sockpp.System.{Os, World, perform}
use sockpp.System.Held.{objects}
use sockpp.System.Bag.{one, IsBag, IsBag-eq, add_ref-IsBag, drop_ref-IsBag}
use sockpp.Tls.Mbed.Context.{Cert, Context, ◌>>=!◌, mbed, free_cert?}
use sockpp.Tls.Mbed.Context.Identity.{
  end_key, read_key, take_identity, set_identity, key_for, set_identity_parsed,
}
use sockpp.Tls.Mbed.Context.Owner.{
  own, Balanced, KeepsBalance, Outcome-cases, free_cert?-IsBag, free_key?-IsBag, parsed-Balanced,
}

-- A certificate and the key that was read for it
abbrev own_pair : Cert → Outcome ℤ → ℤ → ℕ
own_pair c (returns k) p = one c.at p + one k p
own_pair c (throws e) p = 0

module _ ⦃os : Os⦄ where
  end_key-IsBag :
      (f : ℤ → ℕ) (c : Cert) (k : ℤ) (read : Bool) (w : World)
      → IsBag (λ p. one k p + (one c.at p + f p)) (objects w.history)
      → let (r, w') = end_key c k read w in IsBag (λ p. own_pair c r p + f p) (objects w'.history)
  unfolding end_key objects
  end_key-IsBag f c k true w b = IsBag-eq (λ p. omega arith) b
  end_key-IsBag f c k false w b =
      IsBag-eq (λ p. omega arith) (drop_ref-IsBag c.at (drop_ref-IsBag k b))

  read_key-IsBag :
      (f : ℤ → ℕ) (c : Cert) (text : List ℕ) (w : World)
      → IsBag (λ p. one c.at p + f p) (objects w.history)
      → let (r, w') = read_key c text w in IsBag (λ p. own_pair c r p + f p) (objects w'.history)
  unfolding read_key objects perform
  read_key-IsBag f c text w b =
      let (k, w₁) = mbed MbedCall.new_key w in
      let (err, w₃) = mbed (MbedCall.pk_parse_key k text) (mbed (MbedCall.pk_init k) w₁).1 in
      end_key-IsBag f c k (eqb_ℤ err (pos 0)) w₃ (add_ref-IsBag k b)

  take_identity-Balanced :
      (c : Cert) (k : ℤ) (rest : ℤ → ℕ) (s : Context)
      → IsBag (λ p. one c.at p + one k p + (own s p + rest p)) (objects s.world.history)
      → (s.roots_ready ≡ false → s.system_roots ≡ none)
      → Balanced rest (take_identity c k s).1
  unfolding take_identity objects perform
  take_identity-Balanced c k rest s b fresh =
      let w₁ = (set_identity_parsed (c.at) k s).1.world in
      let w₂ = (free_cert? s.identity_cert w₁).1 in
      (
        free_key?-IsBag s.identity_key w₂ (
            IsBag-eq (λ p. omega arith)
              (free_cert?-IsBag
                {f = λ p.
                  one c.at p + one k p + (own (record s { identity_cert = none }) p + rest p)}
                s.identity_cert w₁ (IsBag-eq (λ p. omega arith) b))),
        fresh,
      )

  key_for-Balanced :
      (text : List ℕ) (c : Cert) (rest : ℤ → ℕ) (s : Context)
      → IsBag (λ p. one c.at p + (own s p + rest p)) (objects s.world.history)
      → (s.roots_ready ≡ false → s.system_roots ≡ none)
      → Balanced rest (key_for text c s).1
  unfolding key_for
  key_for-Balanced text c rest s b fresh =
      let (r, w₁) = read_key c text s.world in
      let keyed = read_key-IsBag (λ p. own s p + rest p) c text s.world b in
      elim (Outcome-cases r) [
        | inl (k, e) ↦
            rw (e, ◌>>=!◌)
              (take_identity-Balanced c k rest (record s { world = w₁ })
                (IsBag-eq (λ p. omega (arith, ap (λ (x : Outcome ℤ). own_pair c x p) e)) keyed)
                fresh)
        | inr (x, e) ↦
            rw (e, ◌>>=!◌)
              (IsBag-eq (λ p. omega (arith, ap (λ (x : Outcome ℤ). own_pair c x p) e)) keyed, fresh)
      ]

  pub set_identity-KeepsBalance : (cert key : List ℕ) → KeepsBalance (set_identity cert key)
  unfolding set_identity
  set_identity-KeepsBalance cert key rest s b =
      parsed-Balanced cert false (key_for key) rest s
        (λ c w h. key_for-Balanced key c rest (record s { world = w }) h b.1) b
