-- ===== src/Socket/Several/Owned.antt =====
-- No operation on several sockets loses a descriptor or closes one that no object owns.
use sockpp.Prelude.{
  ℤ, pos, ℕ, ◌+◌, ◌<◌, List, [], ◌∷◌, ◌++◌, ◌≡◌, refl, sym, false, eqb_ℤ, eqb_ℤ-eq, eqb_ℤ-refl,
  if◌then◌else◌, arith, Bool-cases, inl, inr,
}
use sockpp.System.{Os, SetsErrno, World, Call, invalid_socket}
use sockpp.System.Held.{held, drop_fd}
use sockpp.System.Bag.{count}
use sockpp.Socket.{create, clone, pair, close, release, reset}
use sockpp.Socket.Ends.{move_from, move_assign}
use sockpp.Socket.Several.{
  spawn, spawn_pair, Process, process, object, owned, owner, destroy_all, StoresPair, Step, creates,
  clones, pairs, closes, destroys, releases, adopts, resets, moves, move_assigns, Run, here, next,
}

-- The descriptors that the process holds are those that `f` counts.
abbrev Counted : (ℤ → ℕ) → World → Type 0
Counted f w = (p : ℤ) → count p (held w.history) ≡ f p

-- They are those of the objects, those that were released, and `rest`.
abbrev pub Accounted : (ℤ → ℕ) → Process → Type 0
Accounted rest s = Counted (λ p. owned s.sockets p + owned s.released p + rest p) s.world

owned-append : (xs ys : List ℤ) (p : ℤ) → owned (xs ++ ys) p ≡ owned xs p + owned ys p
owned-append [] ys p = omega arith
owned-append (x ∷ xs) ys p = omega (arith, owned-append xs ys p)

owned-exchange :
    (xs : List ℤ) (a : ℤ) (ys : List ℤ) (b : ℤ) (zs : List ℤ) (p : ℤ)
    → owned (xs ++ a ∷ ys ++ b ∷ zs) p ≡ owned (xs ++ b ∷ ys ++ a ∷ zs) p
owned-exchange xs a ys b zs p = omega (
  arith,
  owned-append (xs ++ a ∷ ys) (b ∷ zs) p,
  owned-append xs (a ∷ ys) p,
  owned-append (xs ++ b ∷ ys) (a ∷ zs) p,
  owned-append xs (b ∷ ys) p,
)

count-drop_fd :
    (h : ℤ) (l : List ℤ)
    → 0 < count h l
    → (p : ℤ) → count p l ≡ (if eqb_ℤ h p then 1 else 0) + count p (drop_fd h l)
count-drop_fd h [] up p = absurd (omega arith)
count-drop_fd h (q ∷ l) up p = elim (Bool-cases (eqb_ℤ q h)) [
  | inl same ↦ rw (same, eqb_ℤ-eq q h same) refl
  | inr other ↦
      let left = count-drop_fd h l (ground (arith, up, other)) p in rw other (omega (arith, left))
]

module _ ⦃os : Os⦄ where
  close-Counted :
      (f : ℤ → ℕ) (h : ℤ) (w : World)
      → Counted (λ p. owner h p + f p) w
      → Counted f (close (object h w)).1.world
  unfolding close held
  close-Counted f h w c p = elim (Bool-cases (eqb_ℤ h invalid_socket)) [
    | inl down ↦ ground (arith, c p, down)
    | inr up ↦
        let some_held : 0 < count h (held w.history) = ground (arith, c h, up, eqb_ℤ-refl h) in
        ground (arith, c p, up, count-drop_fd h (held w.history) some_held p)
  ]

  close_all-Counted :
      (f : ℤ → ℕ) (hs : List ℤ) (w : World)
      → Counted (λ p. owned hs p + f p) w
      → Counted f (destroy_all hs w)
  unfolding destroy_all
  close_all-Counted f [] w c p = omega (arith, c p)
  close_all-Counted f (h ∷ hs) w c p =
      close_all-Counted f hs _ (close-Counted (λ p. owned hs p + f p) h w λ p. omega (arith, c p)) p

  create-Counted :
      (f : ℤ → ℕ) (d t p : ℤ) (w : World)
      → SetsErrno os
      → (xs : List ℤ) → Counted (λ q. owned xs q + f q) w
      → Counted (λ q. owned (spawn (create d t p w).0 xs) q + f q) (create d t p w).1
  unfolding create held
  create-Counted f d t p w sets xs c q = ground (arith, c q, sets w.history (Call.socket d t p))

  clone-Counted :
      (f : ℤ → ℕ) (h : ℤ) (w : World)
      → SetsErrno os
      → (xs : List ℤ) → Counted (λ q. owned xs q + f q) w
      → Counted (λ q. owned (spawn (clone h w).0 xs) q + f q) (clone h w).1
  unfolding clone held
  clone-Counted f h w sets xs c q = ground (arith, c q, sets w.history (Call.dup h))

  pair-Counted :
      (f : ℤ → ℕ) (d t p : ℤ) (w : World)
      → SetsErrno os
      → StoresPair os
      → (xs : List ℤ) → Counted (λ q. owned xs q + f q) w
      → Counted (λ q. owned (spawn_pair (pair d t p w).0 xs) q + f q) (pair d t p w).1
  unfolding pair held
  pair-Counted f d t p w sets stores xs c q =
      let r = os.reply w.history (Call.socketpair d t p) in
      elim (Bool-cases (eqb_ℤ r.ret (pos 0))) [
        | inl fine ↦
            let (a, b, e, va, vb) = stores w.history d t p fine in
            rw (fine, e) (ground (arith, c q, va, vb))
        | inr failed ↦ ground (arith, c q, failed, sets w.history (Call.socketpair d t p))
      ]

  reset-Counted :
      (f : ℤ → ℕ) (h k : ℤ) (w : World)
      → eqb_ℤ k h ≡ false
      → Counted (λ p. owner h p + owner k p + f p) w
      → Counted (λ p. owner (reset k (object h w)).1.handle p + f p) (reset k (object h w)).1.world
  unfolding reset close
  reset-Counted f h k w other c p =
      let closed = close-Counted (λ p. owner k p + f p) h w (λ p. omega (arith, c p)) p in
      elim (Bool-cases (eqb_ℤ h invalid_socket)) [
        | inl down ↦ ground (arith, c p, other, down)
        | inr up ↦ ground (arith, closed, other, up)
      ]

  close-handle : (h : ℤ) (w : World) → (close (object h w)).1.handle ≡ invalid_socket
  unfolding close
  close-handle h w = ground arith

  Step-Accounted :
      {s t : Process} (rest : ℤ → ℕ)
      → SetsErrno os
      → StoresPair os
      → Step s t
      → Accounted rest s
      → Accounted rest t
  unfolding release move_from move_assign
  Step-Accounted rest sets stores (creates d t p xs raw w) c q =
      let f = λ (q : ℤ). owned raw q + rest q in
      omega (arith, create-Counted f d t p w sets xs (λ q. omega (arith, c q)) q)
  Step-Accounted rest sets stores (clones h xs raw w) c q =
      let f = λ (q : ℤ). owned raw q + rest q in
      omega (arith, clone-Counted f h w sets xs (λ q. omega (arith, c q)) q)
  Step-Accounted rest sets stores (pairs d t p xs raw w) c q =
      let f = λ (q : ℤ). owned raw q + rest q in
      omega (arith, pair-Counted f d t p w sets stores xs (λ q. omega (arith, c q)) q)
  Step-Accounted rest sets stores (closes xs h ys raw w) c q =
      let f = λ (q : ℤ). owned xs q + owned ys q + owned raw q + rest q in
      let closed = close-Counted f h w (λ q. omega (arith, c q, owned-append xs (h ∷ ys) q)) q in
      let o = (close (object h w)).1 in
      ground (arith, closed, owned-append xs (o.handle ∷ ys) q, close-handle h w)
  Step-Accounted rest sets stores (destroys xs h ys raw w) c q =
      let f = λ (q : ℤ). owned xs q + owned ys q + owned raw q + rest q in
      let closed = close-Counted f h w (λ q. omega (arith, c q, owned-append xs (h ∷ ys) q)) q in
      omega (arith, closed, owned-append xs ys q)
  Step-Accounted rest sets stores (releases xs h ys raw w) c q =
      ground (arith, c q, owned-append xs (h ∷ ys) q, owned-append xs (invalid_socket ∷ ys) q)
  Step-Accounted rest sets stores (adopts xs before k after w) c q =
      omega (arith, c q, owned-append before (k ∷ after) q, owned-append before after q)
  Step-Accounted rest sets stores (resets xs h ys before k after w other) c q =
      let f = λ (q : ℤ). owned xs q + owned ys q + owned before q + owned after q + rest q in
      let done =
        reset-Counted f h k w other
          (λ q. omega (arith, c q, owned-append xs (h ∷ ys) q, owned-append before (k ∷ after) q))
          q in
      let o = (reset k (object h w)).1 in
      omega (arith, done, owned-append xs (o.handle ∷ ys) q, owned-append before after q)
  Step-Accounted rest sets stores (moves xs h ys raw w) c q =
      ground (arith, c q, owned-append xs (h ∷ ys) q, owned-append xs (invalid_socket ∷ ys) q)
  Step-Accounted rest sets stores (move_assigns xs a ys b zs raw w) c q =
      let same = owned-exchange xs a ys b zs q in rw (sym same) (c q)

  Run-Accounted :
      {s t : Process} (rest : ℤ → ℕ)
      → SetsErrno os
      → StoresPair os
      → Run s t
      → Accounted rest s
      → Accounted rest t
  Run-Accounted rest sets stores here c = c
  Run-Accounted rest sets stores (next r st) c =
      Step-Accounted rest sets stores st (Run-Accounted rest sets stores r c)

  -- However the sockets of a process are made, cloned, paired, closed, destroyed, released, taken over,
  -- reset and moved, in any order and with any outcome, the descriptors that it holds are those of
  -- the live objects, those that were released and those held before; and when the objects that are
  -- left are destroyed, their descriptors are closed and no others. So nothing is lost or closed
  -- twice. It relies on calls that fail setting `errno`, and on socketpair storing two descriptors.
  pub Run-destroy_all :
      (w : World) (s : Process)
      → SetsErrno os
      → StoresPair os
      → Run (process [] [] w) s
      → (p : ℤ)
      → (count p (held s.world.history)
          ≡ owned s.sockets p + owned s.released p + count p (held w.history))
        × (count p (held (destroy_all s.sockets s.world).history)
            ≡ owned s.released p + count p (held w.history))
  Run-destroy_all w s sets stores run p =
      let before = λ (q : ℤ). count q (held w.history) in
      let kept = Run-Accounted before sets stores run λ q. omega arith in
      let left = λ (q : ℤ). owned s.released q + before q in
      (kept p, close_all-Counted left s.sockets s.world (λ q. omega (arith, kept q)) p)
