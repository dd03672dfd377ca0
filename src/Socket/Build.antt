-- ===== src/Socket/Build.antt =====
-- The constructors of the classes that derive from `socket`: an opening call on a new, closed object.
-- Where its body throws, the destructor of the base class runs, which closes the socket.
use sockpp.Prelude.{ℤ, List, ◌≡◌, true, false, if◌then◌else◌, arith, Bool-cases, inl, inr}
use sockpp.Error.{ErrorCode}
use sockpp.Result.{Result, Outcome, returns, throws, None, is_error, is_ok, unit_default}
use sockpp.System.{Os, World, Object, Action, pure, ◌>>=◌, ◌>>◌, invalid_socket}
use sockpp.System.Held.{Owns}
use sockpp.Socket.{is_open, close}
use sockpp.Socket.Owner.{close-Accounts, close-closes}

abbrev pub new_object : World → Object
new_object w = record { handle = invalid_socket; world = w }

-- A constructor that throws has closed the object; one that returns has left it open if the call
-- that it makes does so where it succeeds.
abbrev pub Builds : List ℤ → Outcome None × Object → Type 0
Builds rest (r, o) =
    Owns rest o
    × (r ≡ returns tt → is_open o ≡ true)
    × ((e : ErrorCode) → r ≡ throws e → is_open o ≡ false)

module _ ⦃os : Os⦄ where
  -- `if (auto res = m; !res) throw system_error{res.error()};`, as the body of a constructor
  abbrev pub or_throw : Action Object (Result None) → Action Object (Outcome None)
  or_throw m = do
    res ← m
    if is_error res then close >> pure (throws res.err) else pure (returns tt)

  -- `ec = m.error();`, as the body of a constructor
  abbrev pub or_code : Action Object (Result None) → Action Object ErrorCode
  or_code m = do res ← m; pure res.err

  pub or_throw-Builds :
      (m : Action Object (Result None)) (rest : List ℤ) (o : Object)
      → Owns rest (m o).1
      → (is_ok (m o).0 ≡ true → is_open (m o).1 ≡ true)
      → Builds rest (or_throw m o)
  or_throw-Builds m rest o owns opens = elim (Bool-cases (is_error (m o).0)) [
    | inl failed ↦
        let shut = close-closes (m o).1 in
        rw failed
          (close-Accounts rest (m o).1 owns, λ e. ground (arith, e), λ c e. ground (arith, shut))
    | inr fine ↦ rw fine (owns, λ e. opens (ground (arith, fine)), λ c e. ground (arith, e))
  ]
