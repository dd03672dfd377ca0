-- ===== src/Tls/Socket/Moved.antt =====
-- Moving TLS sockets.
use sockpp.Prelude.{ℤ, pos, negsuc, List, ◌++◌, ◌≡◌, false, eqb_ℤ-refl, some, arith}
use sockpp.System.{Os, World}
use sockpp.System.Held.{held, objects, own}
use sockpp.Tls.Certificate.Counts.{own_ref}
use sockpp.Tls.Socket.{move_from, move_assign, destroy}

module _ ⦃os : Os⦄ where
  -- The destructor, on the two members
  abbrev pub destroy_at : ℤ × ℤ → World → World
  destroy_at (handle, ssl) w =
      (destroy (record { ssl = ssl; base = record { handle = handle; world = w } })).1.base.world

  destroy_at-gives_up :
      (handle ssl : ℤ) (rest refs : List ℤ) (w : World)
      → held w.history ≡ own handle ++ rest
      → objects w.history ≡ some (own_ref ssl ++ refs)
      → let w' = destroy_at (handle, ssl) w in
        (held w'.history ≡ rest) × (objects w'.history ≡ some refs)
  unfolding destroy held objects
  destroy_at-gives_up handle ssl rest refs w owns has = ground (arith, eqb_ℤ-refl ssl)

  -- Two TLS sockets, of which the second is moved to the first, and both are then destroyed, the first
  -- one first: both descriptors are closed and the second's connection is freed, but the connection
  -- that the first one had is still held. A socket that is made from the second by the move
  -- constructor gives up everything with it.
  pub move_assign-keeps_ssl :
      (handle ssl rhs_handle rhs_ssl : ℤ) (rest refs : List ℤ) (w : World)
      → held w.history ≡ own rhs_handle ++ (own handle ++ rest)
      → objects w.history ≡ some (own_ref rhs_ssl ++ (own_ref ssl ++ refs))
      → (let (this, rhs) = move_assign false (handle, ssl) (rhs_handle, rhs_ssl) in
          let w' = destroy_at rhs (destroy_at this w) in
          (held w'.history ≡ rest) × (objects w'.history ≡ some (own_ref ssl ++ refs)))
        × (let (made, rhs) = move_from (rhs_handle, rhs_ssl) in
            let w' = destroy_at rhs (destroy_at made w) in
            (held w'.history ≡ own handle ++ rest)
            × (objects w'.history ≡ some (own_ref ssl ++ refs)))
  unfolding move_assign move_from
  move_assign-keeps_ssl handle ssl rhs_handle rhs_ssl rest refs w owns has =
      let (a, b) =
        destroy_at-gives_up rhs_handle rhs_ssl (own handle ++ rest) (own_ref ssl ++ refs) w owns
          has in
      let w₁ = destroy_at (rhs_handle, rhs_ssl) w in
      (
        destroy_at-gives_up handle (pos 0) rest (own_ref ssl ++ refs) w₁ a b,
        destroy_at-gives_up (negsuc 0) (pos 0) (own handle ++ rest) (own_ref ssl ++ refs) w₁ a b,
      )
