-- ===== src/Tls/Builder/FirstError.antt =====
-- The builder stops at the first setting that fails.
use sockpp.Prelude.{ℤ, ℕ, List, [], ◌∷◌, Bool}
use sockpp.Result.{Result, None}
use sockpp.System.{Os, World, Action}
use sockpp.Tls.Context.{
  set_default_trust_locations, set_trust_file, set_trust_path, set_verify, set_auto_retry,
  set_cert_file, set_key_file,
}
use sockpp.Tls.Builder.{
  Builder, always_ok, default_trust_locations, trust_file, trust_path, verify, auto_retry,
  cert_file, key_file,
}

-- The calls that a user of the builder chains
pub data Setting : Type 0 where
  trusts_default : Setting
  trusts_file trusts_path uses_cert uses_key : List ℕ → Setting
  verifies retries : Bool → Setting

module _ ⦃os : Os⦄ where
  -- A setting made by the builder
  abbrev pub apply : Setting → Action Builder None
  apply Setting.trusts_default = default_trust_locations
  apply (Setting.trusts_file f) = trust_file f
  apply (Setting.trusts_path f) = trust_path f
  apply (Setting.uses_cert f) = cert_file f
  apply (Setting.uses_key f) = key_file f
  apply (Setting.verifies peer) = verify peer
  apply (Setting.retries on) = auto_retry on

  abbrev pub run : List Setting → Builder → Builder
  run [] b = b
  run (s ∷ ss) b = run ss (apply s b).1

  -- The same setting made on a context
  abbrev pub direct : Setting → ℤ → Action World (Result None)
  direct Setting.trusts_default ctx = set_default_trust_locations ctx
  direct (Setting.trusts_file f) ctx = set_trust_file ctx f
  direct (Setting.trusts_path f) ctx = set_trust_path ctx f
  direct (Setting.uses_cert f) ctx = set_cert_file ctx f
  direct (Setting.uses_key f) ctx = set_key_file ctx f
  direct (Setting.verifies peer) ctx = always_ok (λ c. set_verify c peer) ctx
  direct (Setting.retries on) ctx = always_ok (λ c. set_auto_retry c on) ctx

  abbrev pub direct_all : List Setting → ℤ → World → World
  direct_all [] ctx w = w
  direct_all (s ∷ ss) ctx w = direct_all ss ctx (direct s ctx w).1
