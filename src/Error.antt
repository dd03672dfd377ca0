-- ===== src/Error.antt =====
-- `std::error_code` as include/sockpp/error.h uses it: a value in a category. The numbers are those
-- of Linux, where `std::errc` is `errno` under another name.
use sockpp.Prelude.{ℤ, pos, negsuc, eqb_ℤ, Bool, true, false, not, ◌&&◌, if◌then◌else◌}

-- `generic` is `std::generic_category`, which `std::make_error_code(errc)` names; `gai` is
-- `gai_errc_category`, and `openssl` and `mbedtls` are the `tls_errc_category` of either back end.
pub data Category : Type 0 where
  system generic gai openssl mbedtls : Category

pub record ErrorCode : Type 0 where
  pub value : ℤ
  pub category : Category

-- `error_code{}`
abbrev pub no_error : ErrorCode
no_error = record { value = pos 0; category = Category.system }

-- `error_code::operator bool`
abbrev pub is_set : ErrorCode → Bool
is_set e = not (eqb_ℤ e.value (pos 0))

-- The `std::errc` values that the sources name.
pub data Errc : Type 0 where
  interrupted operation_would_block invalid_argument function_not_supported message_size : Errc
  already_connected timed_out operation_in_progress : Errc
  broken_pipe connection_reset io_error resource_unavailable_try_again : Errc

abbrev pub errno_of : Errc → ℤ
errno_of Errc.interrupted = pos 4
errno_of Errc.operation_would_block = pos 11
errno_of Errc.invalid_argument = pos 22
errno_of Errc.function_not_supported = pos 38
errno_of Errc.message_size = pos 90
errno_of Errc.already_connected = pos 106
errno_of Errc.timed_out = pos 110
errno_of Errc.operation_in_progress = pos 115
errno_of Errc.broken_pipe = pos 32
errno_of Errc.connection_reset = pos 104
errno_of Errc.io_error = pos 5
errno_of Errc.resource_unavailable_try_again = pos 11

-- `std::make_error_code(errc)`
abbrev pub make_error_code : Errc → ErrorCode
make_error_code e = record { value = errno_of e; category = Category.generic }

-- The categories whose codes the standard library compares with an `errc` by their number.
abbrev pub is_errno_category : Category → Bool
is_errno_category Category.system = true
is_errno_category Category.generic = true
is_errno_category Category.gai = false
is_errno_category Category.openssl = false
is_errno_category Category.mbedtls = false

abbrev pub same_category : Category → Category → Bool
same_category Category.system Category.system = true
same_category Category.generic Category.generic = true
same_category Category.gai Category.gai = true
same_category Category.openssl Category.openssl = true
same_category Category.mbedtls Category.mbedtls = true
same_category a b = false

-- `error_code == errc`: the code's default condition is compared, so both categories match.
abbrev pub matches : ErrorCode → Errc → Bool
matches e c = is_errno_category e.category && eqb_ℤ e.value (errno_of c)

-- `gai_errc`: the values of `getaddrinfo` that are errors of the resolver itself.
abbrev pub eai_system : ℤ
eai_system = negsuc 10

-- `make_error_code(gai_errc)`, at the value of `errno` when it is called.
unfoldable pub make_gai_error : ℤ → ℤ → ErrorCode
make_gai_error errno e =
    if eqb_ℤ e eai_system
    then record { value = errno; category = Category.system }
    else record { value = e; category = Category.gai }
