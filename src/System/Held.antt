-- ===== src/System/Held.antt =====
-- Which descriptors the process holds, read off the record of its calls.
use sockpp.Prelude.{ℤ, pos, List, [], ◌∷◌, ◌++◌, map, ◌≡◌, eqb_ℤ, if◌then◌else◌, Option, some}
use sockpp.Library.{after_library}
use sockpp.System.{Call, Reply, Event, invalid_socket, Object}

-- A call that yields a descriptor yields `invalid_socket` when it fails.
abbrev pub gain : ℤ → List ℤ → List ℤ
gain h fds = if eqb_ℤ h invalid_socket then fds else h ∷ fds

abbrev pub drop_fd : ℤ → List ℤ → List ℤ
drop_fd h [] = []
drop_fd h (x ∷ xs) = if eqb_ℤ x h then xs else x ∷ drop_fd h xs

-- `close` gives the descriptor up whatever it returns.
abbrev pub after_call : Call → Reply → List ℤ → List ℤ
after_call (Call.socket d t p) r fds = gain r.ret fds
after_call (Call.dup h) r fds = gain r.ret fds
after_call (Call.accept h n) r fds = gain r.ret fds
after_call (Call.close h) r fds = drop_fd h fds
after_call (Call.socketpair d t p) r fds = if eqb_ℤ r.ret (pos 0) then r.ints ++ fds else fds
after_call c r fds = fds

-- What was obtained and not closed since, the latest first.
unfoldable pub held : List Event → List ℤ
held [] = []
held (e ∷ es) = after_call e.call e.reply (held es)

-- What an object with this handle owns.
abbrev pub own : ℤ → List ℤ
own h = gain h []

-- The process holds what the object owns, and `rest`.
abbrev pub Owns : List ℤ → Object → Type 0
Owns rest o = held o.world.history ≡ own o.handle ++ rest

-- The calls of a history, the latest first.
abbrev pub calls : List Event → List Call
calls = map (λ (e : Event). e.call)

abbrev pub after_event : Call → ℤ → Option (List ℤ) → Option (List ℤ)
after_event (Call.library c) ret refs = after_library c ret refs
after_event c ret refs = refs

-- The references to objects of the library that are held.
unfoldable pub objects : List Event → Option (List ℤ)
objects [] = some []
objects (e ∷ es) = after_event e.call e.reply.ret (objects es)
