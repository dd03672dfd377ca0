-- ===== src/Canbus/Frame/Ident.antt =====
-- The identifier bits of a CAN frame: the word as three flags, and 29 bits of identifier.
use sockpp.Prelude.{
  ℕ, ◌+◌, ◌-◌, ◌*◌, ◌/◌, ◌%◌, ◌^◌, ◌<◌, ◌≡◌, true, false, not, ◌==◌, if◌then◌else◌, arith,
}
use sockpp.Prelude.Bits.{
  bit_and_mask, bit_and_bit, bit_and_split, bit_or_disjoint, bit_or_bit, bit_or_split, zero-bit_or,
  bit_and-zero,
}
use sockpp.Canbus.Frame.{
  has_extended_id, is_remote, is_error, id_value, set_standard_id, set_extended_id,
}

-- What setting a standard identifier leaves: the remote and error flags and bits 11 to 28.
set_standard_id_sum :
    (f n : ℕ)
    → f < 2 ^ 32
    → set_standard_id f n ≡ (f / 2 ^ 29 % 4 * 2 ^ 18 + f / 2 ^ 11 % 2 ^ 18) * 2 ^ 11 + n % 2 ^ 11
unfolding set_standard_id
set_standard_id_sum f n h =
    let mid = f / 2 ^ 11 in
    let kept = (f / 2 ^ 29 % 4 * 2 ^ 18 + mid % 2 ^ 18) in
    ground (
      arith,
      bit_and_split 11 mid (f % 2 ^ 11) (3 * 2 ^ 18 + (2 ^ 18 - 1)) 0 (omega arith) (omega arith),
      bit_and_split 18 (f / 2 ^ 29) (mid % 2 ^ 18) 3 (2 ^ 18 - 1) (omega arith) (omega arith),
      bit_and-zero (f % 2 ^ 11),
      bit_and_mask 18 (mid % 2 ^ 18),
      bit_and_mask 2 (f / 2 ^ 29),
      bit_and_mask 11 n,
      bit_or_disjoint 11 kept (n % 2 ^ 11) (omega arith),
    )

set_extended_id_sum :
    (f n : ℕ) → f < 2 ^ 32 → set_extended_id f n ≡ (f / 2 ^ 29 % 4 + 4) * 2 ^ 29 + n % 2 ^ 29
unfolding set_extended_id
set_extended_id_sum f n h =
    let flags = f / 2 ^ 29 in
    let id = n % 2 ^ 29 in
    ground (
      arith,
      bit_and_split 29 flags (f % 2 ^ 29) 7 0 (omega arith) (omega arith),
      bit_and-zero (f % 2 ^ 29),
      bit_and_mask 3 flags,
      bit_and_mask 29 n,
      bit_or_disjoint 29 4 id (omega arith),
      bit_or_split 29 flags 0 4 id (omega arith) (omega arith),
      bit_or_bit 2 flags,
      zero-bit_or id,
    )

-- Each flag is one bit of the word, and the identifier is read by the first of them.
has_extended_id_bit : (f : ℕ) → has_extended_id f ≡ not (f / 2 ^ 31 % 2 == 0)
unfolding has_extended_id
has_extended_id_bit f = ground (arith, bit_and_bit 31 f)

is_remote_bit : (f : ℕ) → is_remote f ≡ not (f / 2 ^ 30 % 2 == 0)
unfolding is_remote
is_remote_bit f = ground (arith, bit_and_bit 30 f)

is_error_bit : (f : ℕ) → is_error f ≡ not (f / 2 ^ 29 % 2 == 0)
unfolding is_error
is_error_bit f = ground (arith, bit_and_bit 29 f)

id_value_bits : (f : ℕ) → id_value f ≡ (if f / 2 ^ 31 % 2 == 0 then f % 2 ^ 11 else f % 2 ^ 29)
unfolding id_value
id_value_bits f = ground (arith, has_extended_id_bit f, bit_and_mask 11 f, bit_and_mask 29 f)

-- After a standard identifier is set, the frame is a standard one with the low 11 bits of the number
-- given, the remote and error flags are as before, and so are bits 11 to 28 of the word, which an
-- extended identifier may have left there.
pub set_standard_id_lem :
    (f n : ℕ)
    → f < 2 ^ 32
    → (has_extended_id (set_standard_id f n) ≡ false)
      × (id_value (set_standard_id f n) ≡ n % 2 ^ 11)
      × (is_remote (set_standard_id f n) ≡ is_remote f)
      × (is_error (set_standard_id f n) ≡ is_error f)
      × (set_standard_id f n / 2 ^ 11 % 2 ^ 18 ≡ f / 2 ^ 11 % 2 ^ 18)
      × (set_standard_id f n < 2 ^ 32)
set_standard_id_lem f n h =
    let g = set_standard_id f n in
    let sum = set_standard_id_sum f n h in
    (
      ground (arith, sum, has_extended_id_bit g),
      ground (arith, sum, id_value_bits g),
      ground (arith, sum, is_remote_bit g, is_remote_bit f),
      ground (arith, sum, is_error_bit g, is_error_bit f),
      omega (arith, sum),
      omega (arith, sum),
    )

-- After an extended identifier is set, the frame is an extended one with the low 29 bits of the number
-- given, and the remote and error flags are as before.
set_extended_id_lem :
    (f n : ℕ)
    → f < 2 ^ 32
    → (has_extended_id (set_extended_id f n) ≡ true)
      × (id_value (set_extended_id f n) ≡ n % 2 ^ 29)
      × (is_remote (set_extended_id f n) ≡ is_remote f)
      × (is_error (set_extended_id f n) ≡ is_error f)
      × (set_extended_id f n < 2 ^ 32)
set_extended_id_lem f n h =
    let g = set_extended_id f n in
    let sum = set_extended_id_sum f n h in
    (
      ground (arith, sum, has_extended_id_bit g),
      ground (arith, sum, id_value_bits g),
      ground (arith, sum, is_remote_bit g, is_remote_bit f),
      ground (arith, sum, is_error_bit g, is_error_bit f),
      omega (arith, sum),
    )
