-- ===== src/System/Bag.antt =====
-- The references to objects of the libraries as a multiset: how often each address is held.
use sockpp.Prelude.{
  ℤ, pos, ℕ, ◌+◌, ◌<◌, List, [], ◌∷◌, ◌≡◌, refl, ap, ◌∙◌, eqb_ℤ, eqb_ℤ-eq, eqb_ℤ-refl,
  if◌then◌else◌, Option, some, arith, Bool-cases, inl, inr,
}
use sockpp.Library.{take_out, add_ref, drop_ref}

-- How often `p` is held by something with the address `c`; the null pointer holds nothing.
abbrev pub one : ℤ → ℤ → ℕ
one c p = if eqb_ℤ c (pos 0) then 0 else if eqb_ℤ c p then 1 else 0

abbrev pub count : ℤ → List ℤ → ℕ
count p [] = 0
count p (q ∷ refs) = (if eqb_ℤ q p then 1 else 0) + count p refs

-- The references held are those that `f` counts.
pub record IsBag (f : ℤ → ℕ) (refs : Option (List ℤ)) : Type 0 where
  pub held : List ℤ
  pub known : refs ≡ some held
  pub counted : (p : ℤ) → count p held ≡ f p

pub IsBag-eq :
    {f g : ℤ → ℕ} {refs : Option (List ℤ)} → ((p : ℤ) → f p ≡ g p) → IsBag f refs → IsBag g refs
IsBag-eq same b = record { held = b.held; known = b.known; counted = λ p. b.counted p ∙ same p }

pub add_ref-IsBag :
    {f : ℤ → ℕ} {refs : Option (List ℤ)} (c : ℤ)
    → IsBag f refs
    → IsBag (λ p. one c p + f p) (add_ref c refs)
add_ref-IsBag c b = elim (Bool-cases (eqb_ℤ c (pos 0))) [
  | inl null ↦ record {
    held = b.held;
    known = rw (b.known, null) refl;
    counted = λ p. ground (arith, b.counted p, null);
  }
  | inr live ↦ record {
    held = c ∷ b.held;
    known = rw (b.known, live) refl;
    counted = λ p. ground (arith, b.counted p, live);
  }
]

-- What is held can be given up.
take_out-count :
    (c : ℤ) (l : List ℤ)
    → 0 < count c l
    → (rest : List ℤ) × (take_out c l ≡ some rest)
      × ((p : ℤ) → count p l ≡ (if eqb_ℤ c p then 1 else 0) + count p rest)
take_out-count c [] h = absurd (omega arith)
take_out-count c (q ∷ l) h = elim (Bool-cases (eqb_ℤ q c)) [
  | inl same ↦ rw same (l, refl, λ p. rw (eqb_ℤ-eq q c same) refl)
  | inr other ↦
      let (rest, e, counted) = take_out-count c l (ground (arith, h, other)) in
      rw (other, e) (q ∷ rest, refl, λ p. omega (arith, counted p))
]

pub drop_ref-IsBag :
    {f : ℤ → ℕ} {refs : Option (List ℤ)} (c : ℤ)
    → IsBag (λ p. one c p + f p) refs
    → IsBag f (drop_ref c refs)
drop_ref-IsBag c b = elim (Bool-cases (eqb_ℤ c (pos 0))) [
  | inl null ↦ record {
    held = b.held;
    known = rw (b.known, null) refl;
    counted = λ p. ground (arith, b.counted p, null);
  }
  | inr live ↦
      let (rest, t, left) =
        take_out-count c b.held (ground (arith, b.counted c, live, eqb_ℤ-refl c)) in
      record {
        held = rest;
        known = ap (drop_ref c) b.known ∙ rw live t;
        counted = λ p. ground (arith, b.counted p, left p, live);
      }
]
