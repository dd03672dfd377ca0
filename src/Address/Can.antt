-- ===== src/Address/Can.antt =====
-- `class canbus_address`: src/linux/canbus_address.cpp and include/sockpp/canbus_address.h. An object
-- is the bytes of its `sockaddr_can`, which has the index of an interface. Names are bytes.
pub mod Names
use sockpp.Prelude.{
  ℤ, pos, eqb_ℤ, pos_part, ℕ, ◌+◌, ◌*◌, ◌/◌, ◌%◌, ◌^◌, ◌==◌, List, [], ◌∷◌, ◌++◌, Bool,
  if◌then◌else◌, take, drop, replicate,
}
use sockpp.Error.{ErrorCode, no_error}
use sockpp.Result.{Result, Outcome, returns, throws, ok, from_error, last_error, list_default}
use sockpp.System.{Os, World, Call, Action, perform, pure, ◌>>=◌, from_last_error}
use sockpp.Address.{af_can, af_unspec, family, copy_checked, copy_checked_ec}

-- `sizeof(sockaddr_can)`
abbrev pub can_sz : ℕ
can_sz = 24

-- `canbus_address(unsigned)`: the index is stored least byte first.
unfoldable pub make : ℕ → List ℕ
make idx =
    af_can
    ∷ 0
    ∷ 0
    ∷ 0
    ∷ idx % 256
    ∷ idx / 256 % 256
    ∷ idx / 2 ^ 16 % 256
    ∷ idx / 2 ^ 24 % 256
    ∷ replicate 16 0

-- The index as the bits that are stored
abbrev pub word_at : List ℕ → ℕ
word_at (b₀ ∷ b₁ ∷ b₂ ∷ b₃ ∷ rest) = b₀ + 256 * b₁ + 2 ^ 16 * b₂ + 2 ^ 24 * b₃
word_at bytes = 0

-- `canbus_address::index`, but for the sign
unfoldable pub index : List ℕ → ℕ
index bytes = word_at (drop 4 bytes)

module _ ⦃os : Os⦄ where
  -- `canbus_address(const string&)`
  unfoldable pub of_iface : List ℕ → Action World (Outcome (List ℕ))
  unfolding perform make
  of_iface iface = do
    r ← perform (Call.if_nametoindex iface)
    pure (
        if eqb_ℤ r.ret (pos 0)
        then throws (last_error r.errno)
        else returns (make (pos_part r.ret)))

  -- `canbus_address(const string&, error_code&)`
  unfoldable pub of_iface_ec : List ℕ → Action World (List ℕ × ErrorCode)
  unfolding perform make
  of_iface_ec iface = do
    r ← perform (Call.if_nametoindex iface)
    pure (
        if eqb_ℤ r.ret (pos 0)
        then (replicate can_sz 0, last_error r.errno)
        else (make (pos_part r.ret), no_error))

  -- `canbus_address::create`
  unfoldable pub create : List ℕ → Action World (Result (List ℕ))
  unfolding perform make
  create iface = do
    r ← perform (Call.if_nametoindex iface)
    if eqb_ℤ r.ret (pos 0) then from_last_error else pure (ok (make (pos_part r.ret)))

  -- `canbus_address::get_iface`; the index 0 is "any"
  pub get_iface : List ℕ → Action World (Result (List ℕ))
  unfolding perform index
  get_iface bytes =
      if family bytes == af_unspec
      then pure (ok [])
      else if index bytes == 0
      then pure (ok (97 ∷ 110 ∷ 121 ∷ []))
      else do
        r ← perform (Call.if_indextoname (index bytes))
        if eqb_ℤ r.ret (pos 0) then from_last_error else pure (ok r.bytes)

  -- `canbus_address::iface`, with "unknown" for an error
  pub iface : List ℕ → Action World (List ℕ)
  unfolding perform index
  iface bytes =
      if family bytes == af_unspec
      then pure []
      else if index bytes == 0
      then pure (97 ∷ 110 ∷ 121 ∷ [])
      else do
        r ← perform (Call.if_indextoname (index bytes))
        pure (if eqb_ℤ r.ret (pos 0) then 117 ∷ 110 ∷ 107 ∷ 110 ∷ 111 ∷ 119 ∷ 110 ∷ [] else r.bytes)

-- `canbus_address(const sockaddr&)`, and `canbus_address(const sock_address&)`
unfoldable pub of_sockaddr : List ℕ → Outcome (List ℕ)
unfolding copy_checked
of_sockaddr memory = copy_checked af_can can_sz memory

unfoldable pub of_sockaddr_ec : List ℕ → List ℕ × ErrorCode
unfolding copy_checked_ec
of_sockaddr_ec memory = copy_checked_ec af_can can_sz memory

-- `canbus_address::is_set`
unfoldable pub is_set : List ℕ → Bool
is_set bytes = family bytes == af_can
