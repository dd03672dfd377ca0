-- ===== src/Address.antt =====
-- Socket addresses by their bytes: `class sock_address` and `sock_address_any` of
-- include/sockpp/sock_address.h, and what the classes of addresses have in common.
pub mod Copies
pub mod Inet
pub mod Inet6
pub mod Unix
pub mod Can
use sockpp.Prelude.{
  copy_front, ℕ, ◌+◌, ◌*◌, ◌/◌, ◌%◌, ◌^◌, ◌==◌, ltb, List, [], ◌∷◌, ◌++◌, Bool, true, false, not,
  ◌&&◌, ◌||◌, if◌then◌else◌, Option, none, some, take, drop, length, replicate,
}
use sockpp.Error.{Errc, ErrorCode, make_error_code, no_error}
use sockpp.Result.{Outcome, returns, throws}

-- The address families, as Linux numbers them.
abbrev pub af_unspec : ℕ
af_unspec = 0

abbrev pub af_unix : ℕ
af_unix = 1

abbrev pub af_inet : ℕ
af_inet = 2

abbrev pub af_inet6 : ℕ
af_inet6 = 10

abbrev pub af_can : ℕ
af_can = 29

-- `sock_address::family`: the two bytes of `sa_family`, least significant first
unfoldable pub family : List ℕ → ℕ
family (lo ∷ hi ∷ rest) = lo + 256 * hi
family bytes = af_unspec

-- `sock_address::is_set`
unfoldable pub is_set : List ℕ → Bool
is_set bytes = not (family bytes == af_unspec)

-- An address object: the storage that `sockaddr_ptr()` points to, and `size()`
pub record SockAddress : Type 0 where
  pub storage : List ℕ
  pub size : ℕ

-- `sizeof(sockaddr_storage)`
abbrev pub max_sz : ℕ
max_sz = 128

-- `sock_address_any()`
abbrev pub empty_any : SockAddress
empty_any = record { storage = replicate max_sz 0; size = max_sz }

-- `sock_address_any(addr, n)`, for either type of `addr`; `none` is `std::length_error`. The address
-- is given by the memory from the pointer on.
unfoldable pub any_of : List ℕ → ℕ → Option SockAddress
any_of memory n =
    if ltb max_sz n
    then none
    else some (record { storage = copy_front n memory (replicate max_sz 0); size = n })

-- `sock_address_any(addr, n, ec)`
unfoldable pub any_of_ec : List ℕ → ℕ → SockAddress × ErrorCode
any_of_ec memory n =
    if ltb max_sz n
    then (empty_any, make_error_code Errc.invalid_argument)
    else (record { storage = copy_front n memory (replicate max_sz 0); size = n }, no_error)

-- `sock_address_any(const sock_address&)`; the exception ends the program here, as this constructor
-- is `noexcept`
unfoldable pub any_copy : SockAddress → Option SockAddress
unfolding any_of
any_copy addr = any_of addr.storage addr.size

abbrev pub eq_bytes : List ℕ → List ℕ → Bool
eq_bytes [] [] = true
eq_bytes (x ∷ xs) (y ∷ ys) = x == y && eq_bytes xs ys
eq_bytes xs ys = false

-- `operator==(const sock_address&, const sock_address&)`
unfoldable pub eq_address : SockAddress → SockAddress → Bool
eq_address lhs rhs =
    lhs.size == rhs.size && eq_bytes (take lhs.size lhs.storage) (take lhs.size rhs.storage)

-- `operator!=`
unfoldable pub ne_address : SockAddress → SockAddress → Bool
unfolding eq_address
ne_address lhs rhs = not (eq_address lhs rhs)

-- The test that the constructors of every class make on the family of another address
abbrev pub is_family : ℕ → List ℕ → Bool
is_family fam memory = family memory == af_unspec || family memory == fam

-- A constructor from `const sockaddr&` or `const sock_address&`, of the class of this family and
-- size: it copies the size of its own structure from the memory that starts there.
unfoldable pub copy_checked : ℕ → ℕ → List ℕ → Outcome (List ℕ)
copy_checked fam sz memory =
    if not (family memory == af_unspec) && not (family memory == fam)
    then throws (make_error_code Errc.invalid_argument)
    else returns (take sz memory)

-- The same with an error code; the new object's bytes are zero if nothing is copied.
unfoldable pub copy_checked_ec : ℕ → ℕ → List ℕ → List ℕ × ErrorCode
copy_checked_ec fam sz memory =
    if is_family fam memory
    then (take sz memory, no_error)
    else (replicate sz 0, make_error_code Errc.invalid_argument)

-- Numbers in network byte order
abbrev pub htons : ℕ → List ℕ
htons n = n / 256 % 256 ∷ n % 256 ∷ []

abbrev pub htonl : ℕ → List ℕ
htonl n = n / 2 ^ 24 % 256 ∷ n / 2 ^ 16 % 256 ∷ n / 256 % 256 ∷ n % 256 ∷ []

abbrev pub ntohs : List ℕ → ℕ
ntohs (b₁ ∷ b₀ ∷ rest) = 256 * b₁ + b₀
ntohs bytes = 0

abbrev pub ntohl : List ℕ → ℕ
ntohl (b₃ ∷ b₂ ∷ b₁ ∷ b₀ ∷ rest) = 2 ^ 24 * b₃ + 2 ^ 16 * b₂ + 256 * b₁ + b₀
ntohl bytes = 0
