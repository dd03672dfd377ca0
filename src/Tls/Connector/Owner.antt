-- ===== src/Tls/Connector/Owner.antt =====
-- Which descriptors and which references a TLS connector owns.
pub mod Connects
pub mod Built
use sockpp.Prelude.{
  ℤ, pos, ℕ, List, [], ◌∷◌, ◌++◌, ◌≡◌, refl, ◌∙◌, Bool, true, false, eqb_ℤ, eqb_ℤ-eq, eqb_ℤ-refl,
  if◌then◌else◌, Option, none, some, arith, Bool-cases, inl, inr, ◌⊎◌,
}
use sockpp.Result.{Result, None, is_error, is_ok, unit_default}
use sockpp.System.{Os, SetsErrno, World, Object, Call, Action, invalid_socket}
use sockpp.System.Held.{held, objects, own, Owns}
use sockpp.Socket.{is_open, close}
use sockpp.Socket.Build.{new_object}
use sockpp.Socket.Owner.{Settles, close-Accounts, close-closes}
use sockpp.Datagram.Open.{GivesFresh}
use sockpp.Connector.{connect, connect_timed, is_positive}
use sockpp.Tls.{is_null}
use sockpp.Tls.Certificate.Counts.{own_ref}
use sockpp.Tls.Socket.{TlsObject, attach, destroy}
use sockpp.Tls.Connector.{tls_connect_on, connect_with, connect_tls, connect_tls_timed, leave}
use sockpp.Tls.Connector.Objects.{KeepsObjects, close-KeepsObjects}

-- The process holds the object's descriptor and `rest`, and the object's connection and `refs`.
abbrev pub OwnsBoth : List ℤ → List ℤ → TlsObject → Type 0
OwnsBoth rest refs o =
    Owns rest o.base × (objects o.base.world.history ≡ some (own_ref o.ssl ++ refs))

-- An opening call on a new object: what it leaves, whatever else is held.
abbrev pub Opens : Action Object (Result None) → Type 0
Opens opening =
    (w : World) (handle : ℤ) (rest : List ℤ)
    → held w.history ≡ own handle ++ rest
    → let (r, o) = opening (new_object w) in
      Owns (own handle ++ rest) o × (is_ok r ≡ true → eqb_ℤ o.handle handle ≡ false)

module _ ⦃os : Os⦄ where
  -- A handle goes over to the object, and the one it had is closed.
  handed_over :
      (handle : ℤ) (rest refs : List ℤ) (o : TlsObject)
      → eqb_ℤ handle o.base.handle ≡ false
      → held o.base.world.history ≡ own handle ++ (own o.base.handle ++ rest)
      → objects o.base.world.history ≡ some (own_ref o.ssl ++ refs)
      → let ((r, old), o') = tls_connect_on handle o in
        (o'.base.handle ≡ handle)
        × (old ≡ o.base.handle)
        × (o'.ssl ≡ o.ssl)
        × (held o'.base.world.history ≡ own handle ++ (own o.base.handle ++ rest))
        × (objects o'.base.world.history ≡ some (own_ref o.ssl ++ refs))
  unfolding tls_connect_on held objects
  handed_over handle rest refs o ne owns has = ground arith

  leave-held :
      (handle old : ℤ) (rest : List ℤ) (w : World)
      → eqb_ℤ handle old ≡ false
      → held w.history ≡ own handle ++ (own old ++ rest)
      → held (leave old w).1.history ≡ own handle ++ rest
  unfolding close held
  leave-held handle old rest w ne owns = ground arith

  leave-own :
      (handle : ℤ) (rest : List ℤ) (w : World)
      → held w.history ≡ own handle ++ rest
      → held (leave handle w).1.history ≡ rest
  unfolding close held
  leave-own handle rest w owns = ground arith

  leave-objects : (handle : ℤ) (w : World) → objects (leave handle w).1.history ≡ objects w.history
  leave-objects handle w = close-KeepsObjects (record { handle = handle; world = w })

  pub connect_with-OwnsBoth :
      (opening : Action Object (Result None)) (rest refs : List ℤ) (o : TlsObject)
      → Opens opening
      → KeepsObjects opening
      → OwnsBoth rest refs o
      → let (r, o') = connect_with opening o in OwnsBoth rest refs o' × (o'.ssl ≡ o.ssl)
  connect_with-OwnsBoth opening rest refs o opens keeps (owns, has) =
      let conn = opening (new_object o.base.world) in
      let (owns₁, fresh) = opens o.base.world o.base.handle rest owns in
      let same = keeps (new_object o.base.world) in
      let o₁ : TlsObject = record o {
        base = record { handle = o.base.handle; world = conn.1.world };
      } in
      elim (Bool-cases (is_error conn.0)) [
        | inl failed ↦ rw failed (
          (
            leave-own conn.1.handle (own o.base.handle ++ rest) conn.1.world owns₁,
            leave-objects conn.1.handle conn.1.world ∙ same ∙ has,
          ),
          refl,
        )
        | inr fine ↦
            let ne = fresh (ground (arith, fine)) in
            let (h, old, s, owns₂, has₂) =
              handed_over conn.1.handle rest refs o₁ ne owns₁ (same ∙ has) in
            let w₂ = (tls_connect_on conn.1.handle o₁).1.base.world in
            rw fine (
              ground (
                arith,
                h,
                old,
                s,
                owns₂,
                has₂,
                leave-held conn.1.handle o.base.handle rest w₂ ne owns₂,
                leave-objects o.base.handle w₂,
              ),
              s,
            )
      ]
