-- ===== src/Tls/Mbed/Socket/Handshake.antt =====
-- The constructor of the Mbed TLS socket comes to its end: its loops do.
use sockpp.Prelude.{ℕ, ◌≤◌, ◌≡◌, Option, some}
use sockpp.Result.{Result, int_default}
use sockpp.System.{Os, Action}
use sockpp.Tls.Mbed.Socket.{Mbed, MbedObject}
use sockpp.Tls.Mbed.Socket.Calm.{Answers, left}
use sockpp.Tls.Mbed.Socket.Refused.{AsksFaithfully}
use sockpp.Tls.Mbed.Socket.Ending.{RefusesInvalid}

-- The fuel is enough, from any state.
abbrev Ends : {A : Type 0} → Action MbedObject (Option A) → Type 0
Ends {A} x = (o : MbedObject) → (a : A) × ((x o).0 ≡ some a)

module _ ⦃os : Os⦄ ⦃m : Mbed⦄ (refuses : RefusesInvalid os) (answers : Answers os)
    (faithful : AsksFaithfully m) where
  -- What needs fuel for no more than the refusals that are left
  abbrev EndsWithin : {A : Type 0} → ℕ → Action MbedObject (Option A) → Type 0
  EndsWithin {A} fuel x =
      (o : MbedObject) → left answers o.base.world ≤ fuel → (a : A) × ((x o).0 ≡ some a)
