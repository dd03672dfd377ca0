-- ===== src/Address/Copies.antt =====
-- Copying and comparing addresses.
use sockpp.Prelude.{
  copy_front, ℕ, ◌≤◌, ◌<◌, List, [], ◌∷◌, ◌++◌, ◌≡◌, refl, ◌≢◌, ◌↔◌, ◌⊎◌, true, none, some, take,
  drop, length, replicate, arith, take-append_left, take_all, length-take,
}
use sockpp.Error.{Errc, make_error_code, no_error}
use sockpp.Result.{returns, throws}
use sockpp.Address.{
  family, af_unspec, copy_checked, copy_checked_ec, SockAddress, eq_address, eq_bytes, any_of,
  any_of_ec, any_copy, max_sz,
}

eq_bytes_iff : (xs ys : List ℕ) → (eq_bytes xs ys ≡ true) ↔ (xs ≡ ys)
eq_bytes_iff [] [] = grind arith
eq_bytes_iff [] (y ∷ ys) = grind arith
eq_bytes_iff (x ∷ xs) [] = grind arith
eq_bytes_iff (x ∷ xs) (y ∷ ys) = grind (arith, eq_bytes_iff xs ys)

-- Two addresses are equal exactly when they have the same size and the same bytes up to there; what
-- lies beyond in the storage does not count.
eq_address_iff :
    (a b : SockAddress)
    → (eq_address a b ≡ true)
      ↔ ((a.size ≡ b.size) × (take a.size a.storage ≡ take b.size b.storage))
unfolding eq_address
eq_address_iff a b = ground (arith, eq_bytes_iff (take a.size a.storage) (take a.size b.storage))

family-append : (bytes beyond : List ℕ) → 2 ≤ length bytes → family (bytes ++ beyond) ≡ family bytes
unfolding family
family-append [] beyond h = absurd (omega arith)
family-append (b ∷ []) beyond h = absurd (omega arith)
family-append (lo ∷ hi ∷ rest) beyond h = refl

-- The constructor of an address class of this family takes over, from memory that holds at least its
-- structure, exactly the bytes of that if their family is this one or unspecified, and fails with
-- `invalid_argument` otherwise; the form with an error code does the same, and leaves zeros.
copy_checked_lem :
    (fam sz : ℕ) (bytes beyond : List ℕ)
    → length bytes ≡ sz
    → 2 ≤ sz
    → ((family bytes ≡ af_unspec) ⊎ (family bytes ≡ fam)
        → (copy_checked fam sz (bytes ++ beyond) ≡ returns bytes)
          × (copy_checked_ec fam sz (bytes ++ beyond) ≡ (bytes, no_error)))
      × (family bytes ≢ af_unspec
          → family bytes ≢ fam
          → (copy_checked fam sz (bytes ++ beyond) ≡ throws (make_error_code Errc.invalid_argument))
            × (copy_checked_ec fam sz (bytes ++ beyond)
                ≡ (replicate sz 0, make_error_code Errc.invalid_argument)))
unfolding copy_checked copy_checked_ec
copy_checked_lem fam sz bytes beyond e h =
    let front : take sz (bytes ++ beyond) ≡ bytes =
      ground (arith, take-append_left sz bytes beyond, take_all sz bytes) in
    let same = family-append bytes beyond (omega arith) in ground (arith, front, same)

-- A copy of an address that fits the storage, and has as many bytes as its size says, exists and is
-- equal to it; a longer one is refused, by an exception or by `invalid_argument`.
any_copy_lem :
    (a : SockAddress)
    → (a.size ≤ max_sz
        → a.size ≤ length a.storage
        → (c : SockAddress) × (any_copy a ≡ some c) × (eq_address c a ≡ true))
      × (max_sz < a.size
          → (any_copy a ≡ none)
            × ((any_of_ec a.storage a.size).1 ≡ make_error_code Errc.invalid_argument))
unfolding any_copy any_of any_of_ec
any_copy_lem a =
    let n = a.size in
    let zeros : List ℕ = replicate max_sz 0 in
    let c : SockAddress = record { storage = copy_front n a.storage zeros; size = n } in
    (
      λ fits held. (
        c,
        ground arith,
        (eq_address_iff c a).1 (
          refl,
          take-append_left n (take n a.storage) (drop n zeros)
              (ground (arith, length-take n a.storage)),
        ),
      ),
      λ long. ground arith,
    )
