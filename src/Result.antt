-- ===== src/Result.antt =====
-- `result<T>` of include/sockpp/result.h: a value and an error code, both always there. What is
-- made from an error has the default value.
use sockpp.Prelude.{ℤ, pos, ℕ, Bool, false, not, ◌&&◌, ◌||◌, List, [], if◌then◌else◌, eqb_ℤ, ◌==◌}
use sockpp.Error.{
  ErrorCode, Category, Errc, no_error, is_set, make_error_code, matches, same_category,
}

-- `T{}`
pub record Default {ℓ} (A : Type ℓ) : Type ℓ where
  pub default : A

instance abbrev pub unit_default : Default (Unit {0})
unit_default = record { default = tt }

instance abbrev pub int_default : Default ℤ
int_default = record { default = pos 0 }

instance abbrev pub size_default : Default ℕ
size_default = record { default = 0 }

instance abbrev pub bool_default : Default Bool
bool_default = record { default = false }

instance abbrev pub list_default {ℓ} : {A : Type ℓ} → Default (List A)
list_default = record { default = [] }

pub record Result {ℓ} (A : Type ℓ) : Type ℓ where
  pub val : A
  pub err : ErrorCode

-- `result<>`
abbrev pub None : Type 0
None = Unit {0}

-- A call that may throw: `std::system_error` carries the code.
pub data Outcome {ℓ} (A : Type ℓ) : Type ℓ where
  returns : A → Outcome A
  throws : ErrorCode → Outcome A

module _ {ℓ} {A : Type ℓ} where
  -- `result(const T& val)`, and `success`
  abbrev pub ok : A → Result A
  ok a = record { val = a; err = no_error }

  -- `result(const error_code& err)`, and `error`
  abbrev pub from_error : ⦃d : Default A⦄ → ErrorCode → Result A
  from_error ⦃d⦄ e = record { val = d.default; err = e }

  -- `result(errc err)`
  abbrev pub from_errc : ⦃d : Default A⦄ → Errc → Result A
  from_errc e = from_error (make_error_code e)

  abbrev pub is_error : Result A → Bool
  is_error r = is_set r.err

  abbrev pub is_ok : Result A → Bool
  is_ok r = not (is_set r.err)

  unfoldable pub value_or_throw : Result A → Outcome A
  value_or_throw r = if is_set r.err then throws r.err else returns r.val

  -- `release` hands the value out by a move; the moved-from value stays.
  unfoldable pub release : Result A → A
  release r = r.val

  unfoldable pub release_or_throw : Result A → Outcome A
  release_or_throw r = if is_set r.err then throws r.err else returns r.val

  -- `res == errc`, which does not ask whether the result is an error
  abbrev pub eq_errc : Result A → Errc → Bool
  eq_errc r e = matches r.err e

  unfoldable pub ne_errc : Result A → Errc → Bool
  ne_errc r e = not (matches r.err e)

  -- `res == error_code`: value and category
  unfoldable pub eq_code : Result A → ErrorCode → Bool
  eq_code r e = same_category r.err.category e.category && eqb_ℤ r.err.value e.value

  unfoldable pub ne_code : Result A → ErrorCode → Bool
  unfolding eq_code
  ne_code r e = not (same_category r.err.category e.category && eqb_ℤ r.err.value e.value)

-- `res == val` and `res != val`, at the sizes that the stream calls return
unfoldable pub eq_value : Result ℕ → ℕ → Bool
eq_value r v = is_ok r && r.val == v

unfoldable pub ne_value : Result ℕ → ℕ → Bool
ne_value r v = not (is_ok r) || not (r.val == v)

-- `result::from_error(int ec, const error_category&)`, by default of the system's category
abbrev pub from_system {ℓ} : {A : Type ℓ} ⦃d : Default A⦄ → ℤ → Result A
from_system e = from_error (record { value = e; category = Category.system })

-- `result::last_error`, given the `errno` of the moment
abbrev pub last_error : ℤ → ErrorCode
last_error errno = record { value = errno; category = Category.system }
