-- ===== src/Socket/Several.antt =====
-- Several sockets of one process: src/socket.cpp and include/sockpp/socket.h, with the objects that
-- live at the same time, and the handles that `release` gave to the program.
pub mod Owned
use sockpp.Prelude.{ℤ, pos, ℕ, ◌+◌, List, [], ◌∷◌, ◌++◌, ◌≡◌, true, false, eqb_ℤ, if◌then◌else◌}
use sockpp.Result.{Result, is_error}
use sockpp.System.{Os, World, Object, Call, Event, invalid_socket}
use sockpp.Socket.{create, clone, pair, close, release, reset}
use sockpp.Socket.Ends.{move_from, move_assign}

-- The handles of the objects, and those that were released, in no particular order
pub record Process : Type 0 where
  pub sockets : List ℤ
  pub released : List ℤ
  pub world : World

abbrev pub process : List ℤ → List ℤ → World → Process
process xs raw w = record { sockets = xs; released = raw; world = w }

abbrev pub object : ℤ → World → Object
object h w = record { handle = h; world = w }

-- The new object is there only if the call succeeded.
abbrev spawn : Result ℤ → List ℤ → List ℤ
spawn r xs = if is_error r then xs else r.val ∷ xs

abbrev spawn_pair : Result (ℤ × ℤ) → List ℤ → List ℤ
spawn_pair r xs = if is_error r then xs else r.val.0 ∷ r.val.1 ∷ xs

-- How often the descriptor `p` belongs to a handle, and to one of several
abbrev pub owner : ℤ → ℤ → ℕ
owner h p = if eqb_ℤ h invalid_socket then 0 else if eqb_ℤ h p then 1 else 0

abbrev pub owned : List ℤ → ℤ → ℕ
owned [] p = 0
owned (h ∷ hs) p = owner h p + owned hs p

-- What socketpair(2) says: a call that returns zero has stored two descriptors.
abbrev pub StoresPair : Os → Type 0
StoresPair os =
    (hist : List Event) (d t p : ℤ)
    → eqb_ℤ (os.reply hist (Call.socketpair d t p)).ret (pos 0) ≡ true
    → (a : ℤ) × (b : ℤ) × ((os.reply hist (Call.socketpair d t p)).ints ≡ a ∷ b ∷ [])
      × (eqb_ℤ a invalid_socket ≡ false)
      × (eqb_ℤ b invalid_socket ≡ false)

-- What is there after a call that makes an object, and after one on the object between `xs` and `ys`
abbrev pub after_result : List ℤ → List ℤ → Result ℤ × World → Process
after_result xs raw (r, w) = process (spawn r xs) raw w

abbrev pub after_pair : List ℤ → List ℤ → Result (ℤ × ℤ) × World → Process
after_pair xs raw (r, w) = process (spawn_pair r xs) raw w

abbrev pub after_method : List ℤ → List ℤ → List ℤ → Object → Process
after_method xs ys raw o = process (xs ++ o.handle ∷ ys) raw o.world

-- The operations, each on any of the objects; a clone may be of any handle. A socket is reset to a
-- released handle other than its own.
pub data Step ⦃os : Os⦄ : Process → Process → Type 0 where
  creates :
      (d t p : ℤ) (xs raw : List ℤ) (w : World)
      → Step (process xs raw w) (after_result xs raw (create d t p w))
  clones :
      (h : ℤ) (xs raw : List ℤ) (w : World)
      → Step (process xs raw w) (after_result xs raw (clone h w))
  pairs :
      (d t p : ℤ) (xs raw : List ℤ) (w : World)
      → Step (process xs raw w) (after_pair xs raw (pair d t p w))
  closes :
      (xs : List ℤ) (h : ℤ) (ys raw : List ℤ) (w : World)
      → Step (process (xs ++ h ∷ ys) raw w) (after_method xs ys raw (close (object h w)).1)
  destroys :
      (xs : List ℤ) (h : ℤ) (ys raw : List ℤ) (w : World)
      → Step (process (xs ++ h ∷ ys) raw w) (process (xs ++ ys) raw (close (object h w)).1.world)
  releases :
      (xs : List ℤ) (h : ℤ) (ys raw : List ℤ) (w : World)
      → Step
          (process (xs ++ h ∷ ys) raw w)
          (after_method xs ys ((release (object h w)).0 ∷ raw) (release (object h w)).1)
  adopts :
      (xs before : List ℤ) (k : ℤ) (after : List ℤ) (w : World)
      → Step (process xs (before ++ k ∷ after) w) (process (k ∷ xs) (before ++ after) w)
  resets :
      (xs : List ℤ) (h : ℤ) (ys before : List ℤ) (k : ℤ) (after : List ℤ) (w : World)
      → eqb_ℤ k h ≡ false
      → Step
          (process (xs ++ h ∷ ys) (before ++ k ∷ after) w)
          (after_method xs ys (before ++ after) (reset k (object h w)).1)
  moves :
      (xs : List ℤ) (h : ℤ) (ys raw : List ℤ) (w : World)
      → Step
          (process (xs ++ h ∷ ys) raw w)
          (process ((move_from h).0 ∷ xs ++ (move_from h).1 ∷ ys) raw w)
  move_assigns :
      (xs : List ℤ) (a : ℤ) (ys : List ℤ) (b : ℤ) (zs raw : List ℤ) (w : World)
      → Step
          (process (xs ++ a ∷ ys ++ b ∷ zs) raw w)
          (process (xs ++ (move_assign a b).0 ∷ ys ++ (move_assign a b).1 ∷ zs) raw w)

pub data Run ⦃os : Os⦄ (s : Process) : Process → Type 0 where
  here : Run s s
  next : {t u : Process} → Run s t → Step t u → Run s u

-- The destructors of all objects
module _ ⦃os : Os⦄ where
  unfoldable pub destroy_all : List ℤ → World → World
  unfolding close
  destroy_all [] w = w
  destroy_all (h ∷ hs) w = destroy_all hs (close (object h w)).1.world
