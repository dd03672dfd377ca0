-- ===== src/Tls/Pin/Chain.antt =====
-- What the callback leaves of a whole chain.
use Prim.Native.Nat.{bit_and, bit_or}
use sockpp.Prelude.{
  ◌-◌, ◌^◌, ℕ, ◌==◌, List, [], ◌∷◌, ◌++◌, length, replicate, ◌≡◌, refl, Bool, true, false, ◌||◌,
  some, arith, Bool-cases, inl, inr,
}
use sockpp.Address.{eq_bytes}
use sockpp.Tls.Pin.{PinState, Callback, leaf_flags, verify_callback}

-- The calls of one handshake: each certificate, from the root on, with the flags that the library has
-- for it. The result is the flags that are left.
abbrev pub walk : Callback → List (List ℕ × ℕ) → PinState → List ℕ × PinState
walk callback [] s = ([], s)
walk callback ((crt, flags) ∷ rest) s =
    let (left, s₁) = verify_callback callback crt (length rest) flags s in
    let (more, s₂) = walk callback rest s₁ in (left ∷ more, s₂)

abbrev pub one_is : List ℕ → List (List ℕ × ℕ) → Bool
one_is p [] = false
one_is p ((crt, flags) ∷ rest) = eq_bytes crt p || one_is p rest

not_leaf : (xs : List (List ℕ × ℕ)) (y : List ℕ × ℕ) → (length (xs ++ (y ∷ [])) == 0) ≡ false
not_leaf [] y = refl
not_leaf (x ∷ xs) y = ground arith

abbrev pub pinned_state : List ℕ → Bool → List ℕ → PinState
pinned_state p validated received = record {
  pinned = some p;
  validated = validated;
  received = received;
}

-- A leaf that is trusted loses the flags for a root that is not trusted and for a wrong name; one that is
-- not gets the flag for any other fault. The rest stays.
abbrev pub judged : Bool → ℕ → ℕ
judged true flags = bit_and flags (2 ^ 32 - 1 - 12)
judged false flags = bit_or flags 256

-- With a pinned certificate: of all but the leaf no flag is left, and the leaf is trusted, without the flags
-- 4 and 8, or marked as bad, with the flag 256, by whether the pinned certificate is in the chain or
-- was in that of a handshake before; which is remembered for the handshakes to come.
pub walk-pinned :
    (callback : Callback) (p : List ℕ) (xs : List (List ℕ × ℕ)) (leaf : List ℕ) (flags : ℕ)
    → (validated : Bool) (received : List ℕ)
    → let chain = xs ++ ((leaf, flags) ∷ []) in
      let found = validated || one_is p chain in
      walk callback chain (pinned_state p validated received)
      ≡ (replicate (length xs) 0 ++ (judged found flags ∷ []), pinned_state p found leaf)
unfolding verify_callback leaf_flags
walk-pinned callback p [] leaf flags true received = refl
walk-pinned callback p [] leaf flags false received = elim (Bool-cases (eq_bytes leaf p)) [
  | inl same ↦ rw same
  | inr other ↦ rw other
]
walk-pinned callback p ((crt, f) ∷ xs) leaf flags true received =
    rw (not_leaf xs (leaf, flags), walk-pinned callback p xs leaf flags true received)
walk-pinned callback p ((crt, f) ∷ xs) leaf flags false received =
    let ih = walk-pinned callback p xs leaf flags (eq_bytes crt p) received in
    rw (not_leaf xs (leaf, flags), ih)
