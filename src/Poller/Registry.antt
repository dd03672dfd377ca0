-- ===== src/Poller/Registry.antt =====
-- The two vectors of a poller as one list of registrations, in the order they were added.
use sockpp.Prelude.{
  sym, ◌∙◌, ℤ, pos, ℕ, zero, suc, List, [], ◌∷◌, ◌++◌, ◌≡◌, refl, ap, ◌==◌, ltb_ℤ, if◌then◌else◌,
  ◌≢◌, min, ◌-◌, ◌^◌, negsuc, none, some, arith, get_elem?, drop, length, length-append, inl, inr,
  Option-cases,
}
use sockpp.Result.{ok, from_error, last_error, list_default}
use sockpp.System.{Os, World, Call, PollFd}
use sockpp.Poller.{
  Poller, PollEvent, add, remove, wait, collect, store_revents, find_index, erase_at, poll_ms,
}

-- Every entry of `pfds_` has its socket.
abbrev pub IsParallel : Poller → Type 0
IsParallel p = length p.socks ≡ length p.pfds

abbrev pub pairs : List ℕ → List PollFd → List (ℕ × PollFd)
pairs [] fs = []
pairs (s ∷ ss) [] = []
pairs (s ∷ ss) (f ∷ fs) = (s, f) ∷ pairs ss fs

abbrev pub registrations : Poller → List (ℕ × PollFd)
registrations p = pairs p.socks p.pfds

abbrev pub remove_first : ℕ → List (ℕ × PollFd) → List (ℕ × PollFd)
remove_first s [] = []
remove_first s ((x, f) ∷ rs) = if x == s then rs else (x, f) ∷ remove_first s rs

-- The events of the registrations that are ready, each with its own socket.
abbrev pub ready : List (ℕ × PollFd) → List PollEvent
ready [] = []
ready ((s, f) ∷ rs) =
    let rest = ready rs in
    if f.revents == 0 then rest else record { sock = some s; events = f.revents } ∷ rest

pairs-append :
    (ss : List ℕ) (fs : List PollFd) (s : ℕ) (f : PollFd)
    → length ss ≡ length fs
    → pairs (ss ++ s ∷ []) (fs ++ f ∷ []) ≡ pairs ss fs ++ (s, f) ∷ []
pairs-append [] [] s f h = refl
pairs-append [] (g ∷ fs) s f h = absurd (omega arith)
pairs-append (x ∷ ss) [] s f h = absurd (omega arith)
pairs-append (x ∷ ss) (g ∷ fs) s f h = ap (◌∷◌ (x, g)) (pairs-append ss fs s f (omega arith))

-- Adding a socket appends one registration, with no event on it yet, and keeps the vectors parallel.
registrations-add :
    (p : Poller) (sock : ℕ) (handle : ℤ) (events : ℕ)
    → IsParallel p
    → (registrations (add p sock handle events)
        ≡ registrations p ++ (sock, record { fd = handle; events = events; revents = 0 }) ∷ [])
      × IsParallel (add p sock handle events)
unfolding add
registrations-add p sock handle events h = (
  pairs-append p.socks p.pfds sock _ h,
  omega (
    arith,
    length-append p.socks (sock ∷ []),
    length-append p.pfds (record { fd = handle; events = events; revents = 0 } ∷ []),
  ),
)

-- Where `find_index` finds the socket, both vectors lose the same entry.
erase-both :
    (sock : ℕ) (ss : List ℕ) (fs : List PollFd) {i : ℕ}
    → length ss ≡ length fs
    → find_index sock ss ≡ some i
    → (pairs (erase_at i ss) (erase_at i fs) ≡ remove_first sock (pairs ss fs))
      × (length (erase_at i ss) ≡ length (erase_at i fs))
unfolding find_index erase_at
erase-both sock [] fs h e = cc
erase-both sock (x ∷ ss) [] h e = absurd (omega arith)
erase-both sock (x ∷ ss) (f ∷ fs) {i} h e = elim (Option-cases (find_index sock ss)) [
  | inl missing ↦ ground arith
  | inr (j, found) ↦ ground (arith, erase-both sock ss fs {i = j} (omega arith) found)
]

remove_first_missing :
    (sock : ℕ) (ss : List ℕ) (fs : List PollFd)
    → find_index sock ss ≡ none
    → remove_first sock (pairs ss fs) ≡ pairs ss fs
unfolding find_index
remove_first_missing sock [] fs e = refl
remove_first_missing sock (x ∷ ss) [] e = refl
remove_first_missing sock (x ∷ ss) (f ∷ fs) e = ground (arith, remove_first_missing sock ss fs)

-- Removing a socket drops its first registration from both vectors, and a socket that is not
-- registered changes nothing.
registrations-remove :
    (p : Poller) (sock : ℕ)
    → IsParallel p
    → (registrations (remove p sock) ≡ remove_first sock (registrations p))
      × IsParallel (remove p sock)
unfolding remove
registrations-remove p sock h = elim (Option-cases (find_index sock p.socks)) [
  | inl missing ↦ ground (arith, remove_first_missing sock p.socks p.pfds missing)
  | inr (i, found) ↦ ground (arith, erase-both sock p.socks p.pfds {i = i} h found)
]

drop-get :
    (i : ℕ) (xs : List ℕ) {y : ℕ} {ys : List ℕ}
    → drop i xs ≡ y ∷ ys
    → (get_elem? xs i ≡ some y) × (drop (suc i) xs ≡ ys)
drop-get zero [] e = cc
drop-get zero (x ∷ xs) e = ground arith
drop-get (suc i) [] e = cc
drop-get (suc i) (x ∷ xs) e = drop-get i xs e

collect-ready :
    (i : ℕ) (socks ss : List ℕ) (fs : List PollFd)
    → drop i socks ≡ ss
    → length ss ≡ length fs
    → collect i socks fs ≡ ready (pairs ss fs)
unfolding collect
collect-ready i socks [] [] e h = refl
collect-ready i socks [] (f ∷ fs) e h = absurd (omega arith)
collect-ready i socks (s ∷ ss) [] e h = absurd (omega arith)
collect-ready i socks (s ∷ ss) (f ∷ fs) e h =
    let at = drop-get i socks e in
    let rest = collect-ready (suc i) socks ss fs at.1 (omega arith) in rw (rest, at.0)

length-store_revents : (fs : List PollFd) (rs : List ℕ) → length (store_revents fs rs) ≡ length fs
unfolding store_revents
length-store_revents [] rs = refl
length-store_revents (f ∷ fs) [] = refl
length-store_revents (f ∷ fs) (r ∷ rs) = ap suc (length-store_revents fs rs)

-- The timeout that `poll` is to get: any negative one means to wait for ever, and any other is passed
-- on as it is, or as the largest `int`.
abbrev pub clamped : ℤ → ℤ
clamped (pos n) = pos (min n (2 ^ 31 - 1))
clamped (negsuc n) = negsuc 0

-- What `wait` does with the poller `p`, in the world `w`.
abbrev pub Waits : ⦃os : Os⦄ → ℤ → Poller → World → Type 0
Waits ⦃os⦄ timeout p w =
    let ((res, p'), w') = wait timeout p w in
    let c = Call.poll p.pfds (clamped timeout) in
    let r = os.reply w.history c in
    (p.pfds ≡ [] → (res ≡ ok []) × (w'.history ≡ w.history))
    × (p.pfds ≢ []
        → (w'.history ≡ record { call = c; reply = r } ∷ w.history)
          × (p'.pfds ≡ store_revents p.pfds r.bytes)
          × (res ≡ (
              if ltb_ℤ r.ret (pos 0)
              then from_error (last_error r.errno)
              else ok (ready (registrations p')))))
    × (p'.socks ≡ p.socks)
    × IsParallel p'

poll_ms-clamped : (timeout : ℤ) → poll_ms timeout ≡ clamped timeout
unfolding poll_ms
poll_ms-clamped (pos n) = ground arith
poll_ms-clamped (negsuc n) = refl

wait_parts :
    ⦃os : Os⦄ (timeout : ℤ) (ss : List ℕ) (fs : List PollFd) (w : World)
    → length ss ≡ length fs
    → Waits timeout (record { socks = ss; pfds = fs }) w
unfolding wait
wait_parts timeout ss [] w h = ground arith
wait_parts ⦃os⦄ timeout ss (f ∷ fs) w h =
    let r = os.reply w.history (Call.poll (f ∷ fs) (clamped timeout)) in
    let same = length-store_revents (f ∷ fs) r.bytes in
    let events = collect-ready 0 ss ss (store_revents (f ∷ fs) r.bytes) refl (h ∙ sym same) in
    rw (poll_ms-clamped timeout) (ground (arith, same, events))

-- `wait` asks the system nothing when no socket is registered. Otherwise it makes one call of `poll`,
-- with the timeout clamped to an `int`, any negative one being -1, and returns the system's error, or exactly the registrations that got
-- an event, each with its own socket and in order; the registered sockets stay.
pub wait-Waits : ⦃os : Os⦄ (timeout : ℤ) (p : Poller) (w : World) → IsParallel p → Waits timeout p w
wait-Waits timeout p w h = wait_parts timeout p.socks p.pfds w h
