-- ===== src/Tls/Context/Wrap/Owned.antt =====
-- What `wrap_socket` owns, on every path.
use sockpp.Prelude.{
  ℤ, pos, ℕ, List, [], ◌∷◌, ◌++◌, ◌≡◌, refl, true, eqb_ℤ, eqb_ℤ-refl, some, arith, Bool-cases, inl,
  inr,
}
use sockpp.Error.{ErrorCode, is_set, no_error}
use sockpp.Result.{Result, is_error}
use sockpp.Library.{LibraryCall}
use sockpp.System.{Os, World, Call, perform, invalid_socket}
use sockpp.System.Held.{held, objects, own, Owns}
use sockpp.Tls.{library, tls_last_error}
use sockpp.Tls.Certificate.{null}
use sockpp.Tls.Certificate.Counts.{own_ref}
use sockpp.Tls.Context.{Role}
use sockpp.Tls.Context.Wrap.{handshake, fail_with, fail_last, shake, name_peer, wrap_socket}
use sockpp.Tls.Socket.{TlsObject, wrap_ec, over, on_world, on_ssl, set_host_name}

-- What is returned is what is owned, and an error returns nothing.
abbrev pub Returns : List ℤ → List ℤ → Result (ℤ × ℤ) → World → Type 0
Returns rest refs res w =
    (held w.history ≡ own res.val.0 ++ rest)
    × (objects w.history ≡ some (own_ref res.val.1 ++ refs))
    × (is_error res ≡ true → res.val ≡ (invalid_socket, null))

abbrev Has : List ℤ → List ℤ → TlsObject → Type 0
Has rest refs o = Owns rest o.base × (objects o.base.world.history ≡ some (own_ref o.ssl ++ refs))

module _ ⦃os : Os⦄ where
  fail_with-Returns :
      (e : ErrorCode) (rest refs : List ℤ) (o : TlsObject)
      → Has rest refs o
      → Returns rest refs (fail_with e o).0 (fail_with e o).1.base.world
  unfolding fail_with held objects
  fail_with-Returns e rest refs o (owns, has) =
      let same = eqb_ℤ-refl o.ssl in (ground (arith, same), ground (arith, same), λ bad. refl)

  -- A call of the library that neither makes nor frees an object
  last_error-Has :
      (rest refs : List ℤ) (o : TlsObject)
      → Has rest refs o
      → Has rest refs (on_world tls_last_error o).1
  unfolding tls_last_error held objects
  last_error-Has rest refs o h = h

  fail_last-Returns :
      (rest refs : List ℤ) (o : TlsObject)
      → Has rest refs o
      → Returns rest refs (fail_last o).0 (fail_last o).1.base.world
  unfolding fail_last
  fail_last-Returns rest refs o h =
      let (e, o') = on_world tls_last_error o in
      fail_with-Returns e rest refs o' (last_error-Has rest refs o h)

  handshake-Has :
      (role : Role) (rest refs : List ℤ) (o : TlsObject)
      → Has rest refs o
      → Has rest refs (on_ssl (λ ssl. library (handshake role ssl)) o).1
  unfolding held objects perform
  handshake-Has Role.default rest refs o h = h
  handshake-Has Role.client rest refs o h = h
  handshake-Has Role.server rest refs o h = h
  handshake-Has Role.both rest refs o h = h

  shake-Returns :
      (role : Role) (rest refs : List ℤ) (o : TlsObject)
      → Has rest refs o
      → Returns rest refs (shake role o).0 (shake role o).1.base.world
  unfolding shake
  shake-Returns role rest refs o h =
      let (ret, o') = on_ssl (λ ssl. library (handshake role ssl)) o in
      let h' = handshake-Has role rest refs o h in
      elim (Bool-cases (eqb_ℤ ret (pos 1))) [
        | inl done ↦ rw done (h'.0, h'.1, λ bad. absurd (ground (arith, bad)))
        | inr not_done ↦ rw not_done (fail_last-Returns rest refs o' h')
      ]

  host_name-Has :
      (name : List ℕ) (rest refs : List ℤ) (o : TlsObject)
      → Has rest refs o
      → Has rest refs (on_ssl (set_host_name name) o).1
  unfolding set_host_name held objects
  host_name-Has name rest refs o (owns, has) = ground arith

  name_peer-Returns :
      (role : Role) (name : List ℕ) (rest refs : List ℤ) (o : TlsObject)
      → Has rest refs o
      → Returns rest refs (name_peer role name o).0 (name_peer role name o).1.base.world
  unfolding name_peer held objects
  name_peer-Returns role [] rest refs o h = shake-Returns role rest refs o h
  name_peer-Returns role (c ∷ cs) rest refs o h =
      let (res, o₁) = on_ssl (set_host_name (c ∷ cs)) o in
      let h₁ = host_name-Has (c ∷ cs) rest refs o h in
      let (set, o₂) = on_ssl (λ ssl. library (LibraryCall.ssl_set1_host ssl (c ∷ cs))) o₁ in
      elim (Bool-cases (is_error res)) [
        | inl failed ↦ rw failed (fail_with-Returns res.err rest refs o₁ h₁)
        | inr fine ↦ elim (Bool-cases (eqb_ℤ set (pos 1))) [
          | inl done ↦ rw (fine, done) (shake-Returns role rest refs o₂ h₁)
          | inr not_done ↦ rw (fine, not_done) (fail_last-Returns rest refs o₂ h₁)
        ]
      ]

  wrap_ec-Has :
      (ctx handle : ℤ) (ec : ErrorCode) (rest refs : List ℤ) (w : World)
      → held w.history ≡ own handle ++ rest
      → objects w.history ≡ some refs
      → Has rest refs (wrap_ec ctx ec (over (record { handle = handle; world = w }))).1
  unfolding wrap_ec held objects
  wrap_ec-Has ctx handle ec rest refs w owns has =
      let ssl = (os.reply w.history (Call.library (LibraryCall.ssl_new ctx))).ret in
      ground (arith, eqb_ℤ-refl ssl)

  -- Wrapping a socket in TLS, in any role, with or without the name of the peer: the descriptor of the
  -- result and its connection are exactly what is held afterwards beyond what was held before. A result
  -- that is an error has neither, so that the socket that was passed in is closed and the connection,
  -- if one was made, is freed.
  pub wrap_socket-Returns :
      (role : Role) (ctx handle : ℤ) (peer_name : List ℕ) (rest refs : List ℤ) (w : World)
      → held w.history ≡ own handle ++ rest
      → objects w.history ≡ some refs
      → let (res, w') = wrap_socket role ctx handle peer_name w in Returns rest refs res w'
  unfolding wrap_socket
  wrap_socket-Returns role ctx handle peer_name rest refs w owns has =
      let (ec, o) = wrap_ec ctx no_error (over (record { handle = handle; world = w })) in
      let h = wrap_ec-Has ctx handle no_error rest refs w owns has in
      elim (Bool-cases (is_set ec)) [
        | inl failed ↦ rw failed (fail_with-Returns ec rest refs o h)
        | inr fine ↦ rw fine (name_peer-Returns role peer_name rest refs o h)
      ]
