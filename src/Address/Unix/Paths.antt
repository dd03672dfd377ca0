-- ===== src/Address/Unix/Paths.antt =====
-- The path of a unix address.
use mathlib.Core.List.{append_assoc}
use sockpp.Prelude.{
  ℕ, zero, suc, ◌+◌, ◌≤◌, ◌<◌, ◌==◌, ltb, min, List, [], ◌∷◌, ◌++◌, ◌≡◌, refl, true, Bool, not,
  ◌&&◌, take, drop, length, replicate, arith, take_all, take-append_left, length-append,
  length-take, length-drop, Bool-cases, inl, inr,
}
use sockpp.Error.{Errc, make_error_code, no_error}
use sockpp.Result.{returns, throws, ok, from_errc, list_default}
use sockpp.Address.Unix.{
  make, make_ec, create, path, up_to_nul, max_path_name, unix_sz, sockaddr_un,
}

-- No character is NUL.
abbrev pub is_text : List ℕ → Bool
is_text [] = true
is_text (c ∷ cs) = not (c == 0) && is_text cs

up_to_nul-full :
    (n : ℕ) (p rest : List ℕ) → is_text p ≡ true → length p ≡ n → up_to_nul n (p ++ rest) ≡ p
up_to_nul-full zero [] rest t e = refl
up_to_nul-full zero (c ∷ cs) rest t e = absurd (omega arith)
up_to_nul-full (suc n) [] rest t e = absurd (omega arith)
up_to_nul-full (suc n) (c ∷ cs) rest t e =
    ground (arith, up_to_nul-full n cs rest (ground arith) (omega arith))

up_to_nul-nul :
    (n : ℕ) (p rest : List ℕ) → is_text p ≡ true → length p < n → up_to_nul n (p ++ 0 ∷ rest) ≡ p
up_to_nul-nul zero p rest t h = absurd (omega arith)
up_to_nul-nul (suc n) [] rest t h = refl
up_to_nul-nul (suc n) (c ∷ cs) rest t h =
    ground (arith, up_to_nul-nul n cs rest (ground arith) (omega arith))

-- The path of the bytes, whether the terminating NUL fits or not
path-sockaddr_un :
    (p : List ℕ) → is_text p ≡ true → length p ≤ max_path_name → path (sockaddr_un p) ≡ p
unfolding path
path-sockaddr_un p t h =
    let zeros : List ℕ = replicate max_path_name 0 in
    elim (Bool-cases (ltb (length p) max_path_name)) [
      | inl k ↦
          let whole : take (length p + 1) (p ++ 0 ∷ []) ≡ p ++ 0 ∷ [] =
            take_all (length p + 1) (p ++ 0 ∷ []) (omega (arith, length-append p (0 ∷ []))) in
          let m : min (length p + 1) max_path_name ≡ length p + 1 = ground arith in
          rw (
            m,
            whole,
            append_assoc p (0 ∷ []) (drop (length p + 1) zeros),
            up_to_nul-nul max_path_name p (drop (length p + 1) zeros) t (ground arith),
          )
      | inr k ↦
          let full : length p ≡ max_path_name = ground arith in
          ground (
            arith,
            take-append_left max_path_name p (0 ∷ []) full,
            up_to_nul-full max_path_name p (drop max_path_name zeros) t full,
          )
    ]

-- A path without NUL of at most 108 characters makes an address, by each of the three forms, that has
-- the size of its structure and gives the path back, even when no room is left for the NUL; a longer
-- one is refused with `invalid_argument` by all three.
pub path-make :
    (p : List ℕ)
    → (is_text p ≡ true
        → length p ≤ max_path_name
        → (b : List ℕ) × (make p ≡ returns b)
          × (make_ec p ≡ (b, no_error))
          × (create p ≡ ok b)
          × (path b ≡ p)
          × (length b ≡ unix_sz))
      × (max_path_name < length p
          → (make p ≡ throws (make_error_code Errc.invalid_argument))
            × (make_ec p ≡ (replicate unix_sz 0, make_error_code Errc.invalid_argument))
            × (create p ≡ from_errc Errc.invalid_argument))
unfolding make make_ec create
path-make p =
    let n = min (length p + 1) max_path_name in
    let zeros : List ℕ = replicate max_path_name 0 in
    let zeros_long : length zeros ≡ max_path_name = refl in
    (
      λ t h. (
        sockaddr_un p,
        ground arith,
        ground arith,
        ground arith,
        path-sockaddr_un p t h,
        ground (
          arith,
          length-append (take n (p ++ 0 ∷ [])) (drop n zeros),
          length-take n (p ++ 0 ∷ []),
          length-drop n zeros,
          length-append p (0 ∷ []),
          zeros_long,
        ),
      ),
      λ long. (ground arith, ground arith, ground arith),
    )
