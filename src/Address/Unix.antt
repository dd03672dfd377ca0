-- ===== src/Address/Unix.antt =====
-- `class unix_address`: src/unix/unix_address.cpp and include/sockpp/unix_address.h. An object is the
-- bytes of its `sockaddr_un`, and a string the bytes of its characters.
pub mod Paths
use sockpp.Prelude.{
  copy_front, ℕ, zero, suc, ◌+◌, ◌==◌, ltb, min, List, [], ◌∷◌, ◌++◌, Bool, false, not, ◌&&◌,
  if◌then◌else◌, take, drop, length, replicate,
}
use sockpp.Error.{Errc, ErrorCode, make_error_code, no_error}
use sockpp.Result.{Result, Outcome, returns, throws, ok, from_errc, list_default}
use sockpp.Address.{af_unix, family, copy_checked, copy_checked_ec}

-- `MAX_PATH_NAME`, the size of `sun_path`
abbrev pub max_path_name : ℕ
max_path_name = 108

-- `sizeof(sockaddr_un)`
abbrev pub unix_sz : ℕ
unix_sz = 110

-- The object with `min(length + 1, MAX_PATH_NAME)` bytes copied from `path.c_str()`
abbrev pub sockaddr_un : List ℕ → List ℕ
sockaddr_un path =
    af_unix
    ∷ 0
    ∷ copy_front (min (length path + 1) max_path_name) (path ++ 0 ∷ []) (replicate max_path_name 0)

-- `unix_address(const string&)`
unfoldable pub make : List ℕ → Outcome (List ℕ)
make path =
    if ltb max_path_name (length path)
    then throws (make_error_code Errc.invalid_argument)
    else returns (sockaddr_un path)

-- `unix_address(const string&, error_code&)`
pub make_ec : List ℕ → List ℕ × ErrorCode
make_ec path =
    if ltb max_path_name (length path)
    then (replicate unix_sz 0, make_error_code Errc.invalid_argument)
    else (sockaddr_un path, no_error)

-- `unix_address::create`
pub create : List ℕ → Result (List ℕ)
create path =
    if ltb max_path_name (length path)
    then from_errc Errc.invalid_argument
    else ok (sockaddr_un path)

-- `unix_address(const sockaddr&)`, and `unix_address(const sock_address&)`
unfoldable pub of_sockaddr : List ℕ → Outcome (List ℕ)
unfolding copy_checked
of_sockaddr memory = copy_checked af_unix unix_sz memory

unfoldable pub of_sockaddr_ec : List ℕ → List ℕ × ErrorCode
unfolding copy_checked_ec
of_sockaddr_ec memory = copy_checked_ec af_unix unix_sz memory

-- `sun_path[0] != '\0'`
abbrev pub has_first : List ℕ → Bool
has_first [] = false
has_first (c ∷ cs) = not (c == 0)

-- `unix_address::is_set`
unfoldable pub is_set : List ℕ → Bool
is_set bytes = family bytes == af_unix && has_first (drop 2 bytes)

-- `string(p, strnlen(p, n))`
abbrev pub up_to_nul : ℕ → List ℕ → List ℕ
up_to_nul zero bytes = []
up_to_nul (suc n) [] = []
up_to_nul (suc n) (c ∷ cs) = if c == 0 then [] else c ∷ up_to_nul n cs

-- `unix_address::path`
unfoldable pub path : List ℕ → List ℕ
path bytes = up_to_nul max_path_name (drop 2 bytes)

-- `unix_address::to_string`: "unix:" and the path
unfoldable pub to_string : List ℕ → List ℕ
unfolding path
to_string bytes = 117 ∷ 110 ∷ 105 ∷ 120 ∷ 58 ∷ path bytes
