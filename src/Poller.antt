-- ===== src/Poller.antt =====
-- `class poller`: src/poller.cpp and include/sockpp/poller.h. A registered socket is named by its
-- address in memory, a number; the two vectors stay apart, as in the class.
pub mod Registry
pub mod Single
use sockpp.Prelude.{
  ℤ, pos, negsuc, negate, ℕ, zero, suc, ◌+◌, ◌-◌, ◌/◌, ◌^◌, List, [], ◌∷◌, ◌++◌, Bool, true, false,
  ◌==◌, ltb, ltb_ℤ, if◌then◌else◌, Option, none, some, get_elem?, length,
}
use sockpp.Result.{Result, ok, list_default}
use sockpp.System.{Os, World, Call, PollFd, Action, perform, from_last_error}

pub record Poller : Type 0 where
  pub socks : List ℕ
  pub pfds : List PollFd

-- `poller::event`; `none` stands for a read past the end of `socks_`.
pub record PollEvent : Type 0 where
  pub sock : Option ℕ
  pub events : ℕ

abbrev pub poll_read : ℕ
poll_read = 1

abbrev pub poll_read_write : ℕ
poll_read_write = 5

unfoldable pub new_poller : Poller
new_poller = record { socks = []; pfds = [] }

unfoldable pub add : Poller → ℕ → ℤ → ℕ → Poller
add p sock handle events = record {
  socks = p.socks ++ sock ∷ [];
  pfds = p.pfds ++ record { fd = handle; events = events; revents = 0 } ∷ [];
}

-- `poller(socket& sock, short events)`
unfoldable pub poller_of : ℕ → ℤ → ℕ → Poller
unfolding add new_poller
poller_of = add new_poller

-- `std::find`, as a distance from the begin
pub find_index : ℕ → List ℕ → Option ℕ
find_index sock [] = none
find_index sock (x ∷ xs) =
    if x == sock then some 0 else elim (find_index sock xs) [ none ↦ none | some i ↦ some (suc i) ]

-- `vector::erase` at an index
pub erase_at {ℓ} : {A : Type ℓ} → ℕ → List A → List A
erase_at i [] = []
erase_at zero (x ∷ xs) = xs
erase_at (suc i) (x ∷ xs) = x ∷ erase_at i xs

pub remove : Poller → ℕ → Poller
unfolding find_index erase_at
remove p sock = elim (find_index sock p.socks) [
  | none ↦ p
  | some idx ↦ record { socks = erase_at idx p.socks; pfds = erase_at idx p.pfds }
]

unfoldable pub size : Poller → ℕ
size p = length p.socks

unfoldable pub is_empty : Poller → Bool
is_empty p = size p == 0

abbrev pub int_max : ℕ
int_max = 2 ^ 31 - 1

-- The timeout that is passed on, in milliseconds: `std::clamp(timeout, 0, INT_MAX)`, or -1
unfoldable pub poll_ms : ℤ → ℤ
poll_ms (pos n) = pos (if ltb int_max n then int_max else n)
poll_ms (negsuc n) = negsuc 0

-- What `::poll` wrote to the array: `revents` of each entry.
unfoldable pub store_revents : List PollFd → List ℕ → List PollFd
store_revents [] rs = []
store_revents (f ∷ fs) [] = f ∷ fs
store_revents (f ∷ fs) (r ∷ rs) = record f { revents = r } ∷ store_revents fs rs

-- The loop over `pfds_`, at index `i`.
unfoldable pub collect : ℕ → List ℕ → List PollFd → List PollEvent
collect i socks [] = []
collect i socks (f ∷ fs) =
    let rest = collect (suc i) socks fs in
    if f.revents == 0 then rest else record { sock = get_elem? socks i; events = f.revents } ∷ rest

-- `poller::wait`, on the poller and the world
module _ ⦃os : Os⦄ where
  unfoldable pub wait : ℤ → Poller → Action World (Result (List PollEvent) × Poller)
  unfolding perform
  wait timeout p w = elim p.pfds [
    | [] ↦ ((ok [], p), w)
    | f ∷ fs ↦
        let (r, w') = perform (Call.poll p.pfds (poll_ms timeout)) w in
        let p' = record p { pfds = store_revents p.pfds r.bytes } in
        if ltb_ℤ r.ret (pos 0)
        then (let (e, w'') = from_last_error w' in ((e, p'), w''))
        else ((ok (collect 0 p'.socks p'.pfds), p'), w')
  ]

-- `ceil<milliseconds>` of a count of microseconds
abbrev pub ceil_ms : ℤ → ℤ
ceil_ms (pos n) = pos ((n + 999) / 1000)
ceil_ms (negsuc n) = negate (suc n / 1000)
