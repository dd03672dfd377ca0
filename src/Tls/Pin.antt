-- ===== src/Tls/Pin.antt =====
-- Pinned certificates in the Mbed TLS back end: `verify_callback` of src/tls/mbedtls_context.cpp. A
-- certificate is its raw bytes. The library calls the callback for each certificate of a chain, from
-- the root, which has the greatest depth, to the leaf, of depth 0, and uses the flags that it leaves.
pub mod Chain
use Prim.Native.Nat.{bit_and, bit_or}
use sockpp.Prelude.{
  ℕ, ◌+◌, ◌-◌, ◌^◌, ◌==◌, List, [], ◌∷◌, Bool, true, false, not, ◌&&◌, if◌then◌else◌, Option, none,
  some,
}
use sockpp.Address.{eq_bytes}

-- The members of the context that the callback reads and writes: `pinned_cert_`,
-- `pinned_cert_validation_result_` and `received_cert_data_`
pub record PinState : Type 0 where
  pub pinned : Option (List ℕ)
  pub validated : Bool
  pub received : List ℕ

-- `MBEDTLS_X509_BADCERT_CN_MISMATCH`, `_NOT_TRUSTED` and `_OTHER`
abbrev pub badcert_cn_mismatch : ℕ
badcert_cn_mismatch = 4

abbrev pub badcert_not_trusted : ℕ
badcert_not_trusted = 8

abbrev pub badcert_other : ℕ
badcert_other = 0x100

-- `*flags &= ~(NOT_TRUSTED | CN_MISMATCH)`, of 32 bits
abbrev pub forgive : ℕ → ℕ
forgive flags = bit_and flags (2 ^ 32 - 1 - (badcert_not_trusted + badcert_cn_mismatch))

-- What the user's callback answers for a certificate, if one was set
abbrev pub Callback : Type 0
Callback = Option (List ℕ → Bool)

-- `pinned_cert_ && !pinned_cert_validation_result_`, and then the comparison
unfoldable pub compare_pinned : List ℕ → PinState → PinState
compare_pinned crt s = elim (s.pinned) [
  | none ↦ s
  | some p ↦ if s.validated then s else record s { validated = eq_bytes crt p }
]

-- `status` of the leaf; `none` is -1
unfoldable pub leaf_status : Callback → List ℕ → PinState → Option Bool
leaf_status callback crt s = elim (s.pinned) [
  | some p ↦ some s.validated
  | none ↦ elim callback [ none ↦ none | some f ↦ some (f crt) ]
]

unfoldable pub leaf_flags : Option Bool → ℕ → ℕ
leaf_flags none flags = flags
leaf_flags (some true) flags = forgive flags
leaf_flags (some false) flags = bit_or flags badcert_other

-- `verify_callback`: the state after it, and the flags
unfoldable pub verify_callback : Callback → List ℕ → ℕ → ℕ → PinState → ℕ × PinState
unfolding compare_pinned leaf_status leaf_flags
verify_callback callback crt depth flags s =
    let s₁ = compare_pinned crt s in
    if depth == 0
    then (
      leaf_flags (leaf_status callback crt (record s₁ { received = crt })) flags,
      record s₁ { received = crt },
    )
    else (elim (s₁.pinned) [ none ↦ flags | some p ↦ 0 ], s₁)
