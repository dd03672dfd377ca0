-- ===== src/Prelude/Bits.antt =====
-- `&` and `|` on words that are cut into a high and a low part, which is how flags and masks are read.
use Prim.Native.Nat.{
  ℕ, zero, suc, ◌+◌, ◌-◌, ◌*◌, ◌/◌, ◌%◌, ◌^◌, ◌≤◌, ◌<◌, min, max, bit_and, bit_or, digits, bitwise,
  bit_and-bitwise, bit_or-bitwise,
}
use mathlib.Core.Path.{◌≡◌, refl, ap, ◌∙◌}
use native.Mathlib.Decide.{dec_le}
use native.Mathlib.Nat.{pow-suc, one-le-pow}
use native.Mathlib.Omega.{arith}

-- The fuel of `digits` does not matter once it covers the first number.
module _ (z : ℕ → ℕ) (f : ℕ → ℕ → ℕ) where
  digits-suc : (n a b : ℕ) → a ≤ n → digits z f (suc n) a b ≡ digits z f n a b
  digits-suc zero zero b h = refl
  digits-suc zero (suc a) b h = absurd (omega arith)
  digits-suc (suc n) zero b h = refl
  digits-suc (suc n) (suc a) b h = rw (digits-suc n (suc a / 2) (b / 2) (omega arith))

  digits-eq-bitwise : (n a b : ℕ) → a ≤ n → digits z f n a b ≡ bitwise z f a b
  digits-eq-bitwise zero zero b h = refl
  digits-eq-bitwise zero (suc a) b h = absurd (omega arith)
  digits-eq-bitwise (suc n) a b h = elim (dec_le a n) [
    | yes p ↦ digits-suc n a b p ∙ digits-eq-bitwise n a b p
    | no q ↦ let e : a ≡ suc n = omega arith in rw e
  ]

-- The lowest digit of each operation.
pub bit_and_low : (a b : ℕ) → bit_and a b ≡ bit_and (a / 2) (b / 2) * 2 + min (a % 2) (b % 2)
bit_and_low zero b = simp bit_and-bitwise (omega arith)
bit_and_low (suc a) b =
    simp bit_and-bitwise
      (omega (arith, digits-eq-bitwise (λ _. 0) min a (suc a / 2) (b / 2) (omega arith)))

pub bit_or_low : (a b : ℕ) → bit_or a b ≡ bit_or (a / 2) (b / 2) * 2 + max (a % 2) (b % 2)
bit_or_low zero b = simp bit_or-bitwise (omega arith)
bit_or_low (suc a) b =
    simp bit_or-bitwise
      (omega (arith, digits-eq-bitwise (λ y. y) max a (suc a / 2) (b / 2) (omega arith)))

double : (q k : ℕ) → q * 2 ^ suc k ≡ 2 * (q * 2 ^ k)
double q k = omega (arith, ap (λ (t : ℕ). q * t) (pow-suc 2 k))

-- Below bit `k` and from bit `k` on, each operation works by itself.
pub bit_and_split :
    (k q r p s : ℕ)
    → r < 2 ^ k
    → s < 2 ^ k
    → bit_and (q * 2 ^ k + r) (p * 2 ^ k + s) ≡ bit_and q p * 2 ^ k + bit_and r s
bit_and_split zero q r p s hr hs = ground (arith, bit_and-bitwise 0 0)
bit_and_split (suc k) q r p s hr hs = ground (
  arith,
  double q k,
  double p k,
  double (bit_and q p) k,
  pow-suc 2 k,
  bit_and_low (q * 2 ^ suc k + r) (p * 2 ^ suc k + s),
  bit_and_low r s,
  bit_and_split k q (r / 2) p (s / 2) (omega (arith, pow-suc 2 k)) (omega (arith, pow-suc 2 k)),
)

pub bit_or_split :
    (k q r p s : ℕ)
    → r < 2 ^ k
    → s < 2 ^ k
    → bit_or (q * 2 ^ k + r) (p * 2 ^ k + s) ≡ bit_or q p * 2 ^ k + bit_or r s
bit_or_split zero q r p s hr hs = ground (arith, bit_or-bitwise 0 0)
bit_or_split (suc k) q r p s hr hs = ground (
  arith,
  double q k,
  double p k,
  double (bit_or q p) k,
  pow-suc 2 k,
  bit_or_low (q * 2 ^ suc k + r) (p * 2 ^ suc k + s),
  bit_or_low r s,
  bit_or_split k q (r / 2) p (s / 2) (omega (arith, pow-suc 2 k)) (omega (arith, pow-suc 2 k)),
)

-- No digits on one side
zero-bit_and : (b : ℕ) → bit_and 0 b ≡ 0
zero-bit_and b = bit_and-bitwise 0 b

pub zero-bit_or : (b : ℕ) → bit_or 0 b ≡ b
zero-bit_or b = bit_or-bitwise 0 b

and_zero_upto : (n a : ℕ) → a ≤ n → bit_and a 0 ≡ 0
and_zero_upto n zero h = refl
and_zero_upto zero (suc a) h = absurd (omega arith)
and_zero_upto (suc n) (suc a) h =
    omega (arith, bit_and_low (suc a) 0, and_zero_upto n (suc a / 2) (omega arith))

pub bit_and-zero : (a : ℕ) → bit_and a 0 ≡ 0
bit_and-zero a = and_zero_upto a a (omega arith)

or_zero_upto : (n a : ℕ) → a ≤ n → bit_or a 0 ≡ a
or_zero_upto n zero h = refl
or_zero_upto zero (suc a) h = absurd (omega arith)
or_zero_upto (suc n) (suc a) h =
    omega (arith, bit_or_low (suc a) 0, or_zero_upto n (suc a / 2) (omega arith))

pub bit_or-zero : (a : ℕ) → bit_or a 0 ≡ a
bit_or-zero a = or_zero_upto a a (omega arith)

-- All digits on the other side
full_mask : (k r : ℕ) → r < 2 ^ k → bit_and r (2 ^ k - 1) ≡ r
full_mask zero r h = ground (arith, bit_and-zero r)
full_mask (suc k) r h = ground (
  arith,
  pow-suc 2 k,
  one-le-pow k 2,
  bit_and_low r (2 ^ suc k - 1),
  full_mask k (r / 2) (omega (arith, pow-suc 2 k)),
)

-- `a & (2^k - 1)`
pub bit_and_mask : (k a : ℕ) → bit_and a (2 ^ k - 1) ≡ a % 2 ^ k
bit_and_mask k a =
    let pos : 1 ≤ 2 ^ k = one-le-pow k 2 (omega arith) in
    let q = a / 2 ^ k in
    let r = a % 2 ^ k in
    let r_fits : r < 2 ^ k = omega arith in
    ground (
      arith,
      bit_and_split k q r 0 (2 ^ k - 1) r_fits (omega arith),
      full_mask k r r_fits,
      bit_and-zero q,
    )

-- One bit, tested, set and cleared; `q` is what stands from that bit on.
pub bit_and_one : (q : ℕ) → bit_and q 1 ≡ q % 2
bit_and_one q = bit_and_mask 1 q

pub bit_or_one : (q : ℕ) → bit_or q 1 ≡ q / 2 * 2 + 1
bit_or_one q = omega (arith, bit_or_low q 1, bit_or-zero (q / 2))

pub bit_and_bit : (k a : ℕ) → bit_and a (2 ^ k) ≡ a / 2 ^ k % 2 * 2 ^ k
bit_and_bit k a =
    let pos : 1 ≤ 2 ^ k = one-le-pow k 2 (omega arith) in
    let q = a / 2 ^ k in
    let r = a % 2 ^ k in
    let r_fits : r < 2 ^ k = omega arith in
    ground (arith, bit_and_split k q r 1 0 r_fits pos, bit_and_one q, bit_and-zero r)

pub bit_or_bit : (k a : ℕ) → bit_or a (2 ^ k) ≡ (a / 2 ^ k / 2 * 2 + 1) * 2 ^ k + a % 2 ^ k
bit_or_bit k a =
    let pos : 1 ≤ 2 ^ k = one-le-pow k 2 (omega arith) in
    let q = a / 2 ^ k in
    let r = a % 2 ^ k in
    let r_fits : r < 2 ^ k = omega arith in
    ground (arith, bit_or_split k q r 1 0 r_fits pos, bit_or_one q, bit_or-zero r)

-- `a | b` where `b` fits below bit `k` and `a` has no digits there
pub bit_or_disjoint : (k q s : ℕ) → s < 2 ^ k → bit_or (q * 2 ^ k) s ≡ q * 2 ^ k + s
bit_or_disjoint k q s h =
    let pos : 1 ≤ 2 ^ k = one-le-pow k 2 (omega arith) in
    ground (arith, bit_or_split k q 0 0 s pos h, bit_or-zero q, zero-bit_or s)
