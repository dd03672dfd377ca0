-- ===== src/Tests/MbedContexts.antt =====
-- The theorems on the Mbed TLS context at concrete inputs, and runs of its operations.
use sockpp.Prelude.{
  ℤ, pos, negsuc, ℕ, ◌+◌, ◌<◌, List, [], ◌∷◌, ◌++◌, ◌≡◌, refl, true, false, none, some, arith,
}
use sockpp.Prelude.Text.{codes}
use sockpp.Result.{returns}
use sockpp.Library.{LibraryCall, MbedCall}
use sockpp.System.{Os, World, Event, Call, Action, invalid_socket}
use sockpp.System.Held.{objects, calls}
use sockpp.System.Bag.{IsBag, count}
use sockpp.Tls.Mbed.Context.{Cert, Context, set_root_certs}
use sockpp.Tls.Mbed.Context.Build.{construct_context, destroy_context, wrap_socket}
use sockpp.Tls.Mbed.Context.Peer.{
  allow_only_certificate, allow_only_parsed, set_root_cert_locator, require_peer_cert,
  trusted_cert_callback,
}
use sockpp.Tls.Mbed.Context.Identity.{set_identity, set_identity_parsed}
use sockpp.Tls.Mbed.Context.Owner.{own, own_cert, Balanced}
use sockpp.Tls.Mbed.Context.Lifetime.{Step, here, next, Run-destroy}
use sockpp.Tls.Mbed.Context.Dangling.{own_certs, set_identity-dangles}
use sockpp.Tls.Mbed.Roots.{read_text, read_system_root_certs}
use sockpp.Tls.Mbed.Roots.Lines.{IfSome, EndsLine, read_system_root_certs-EndsLine}
use sockpp.Tls.Mbed.Roots.Quiet.{read_text-IsQuiet}
use sockpp.Tls.Mbed.Roots.Ends.{read_system_root_certs-Ends}
use sockpp.Tests.Systems.{start}
use sockpp.Tests.MbedSystems.{mbed_os, library, finite, few_left, five}

abbrev working : Os
working = mbed_os (pos 0)

abbrev read : Action World (List ℕ)
read = read_text ⦃os = working⦄ 3

-- An object before its constructor
abbrev blank : Context
blank = record {
  config = pos 40;
  client = true;
  status = pos 0;
  locator = none;
  root_certs = none;
  pinned = none;
  identity_cert = none;
  identity_key = none;
  rng_ready = false;
  roots_ready = false;
  system_roots = none;
  world = start;
}

abbrev made : Context
made = (construct_context ⦃os = working⦄ read true blank).1

abbrev named : Context
named = (set_identity ⦃os = working⦄ (1 ∷ []) (2 ∷ []) made).1

blank-Balanced : Balanced (λ p. 0) blank
unfolding objects
blank-Balanced = (record { held = []; known = refl; counted = λ p. refl }, λ e. refl)

Run-destroy_example :
    IsBag (λ p. own named p + 0) (objects named.world.history)
    × IsBag
        (λ p. own_cert named.system_roots p + 0)
        (objects (destroy_context ⦃os = working⦄ named).1.world.history)
Run-destroy_example =
    Run-destroy ⦃os = working⦄ read (read_text-IsQuiet ⦃os = working⦄ 3) true (λ p. 0) blank named
      blank-Balanced (next here (Step.identity made (1 ∷ []) (2 ∷ [])))

read_system_root_certs-Ends_example :
    (text : List ℕ) × ((read_system_root_certs ⦃os = working⦄ 4 start).0 ≡ some text)
read_system_root_certs-Ends_example =
    read_system_root_certs-Ends ⦃os = working⦄ (finite (pos 0)) 4 start (few_left (pos 0))

read_system_root_certs-EndsLine_example :
    IfSome EndsLine (read_system_root_certs ⦃os = working⦄ 3 start).0
read_system_root_certs-EndsLine_example = read_system_root_certs-EndsLine ⦃os = working⦄ 3 start

the_text : (read start).0 ≡ codes "AB" ++ 10 ∷ []
unfolding read_text
the_text = refl

-- A context that has an identity
abbrev old : Cert
old = record { at = pos 700; raw = [] }

abbrev event : MbedCall → ℤ → Event
event c ret = record {
  call = Call.library (LibraryCall.mbed c);
  reply = record { ret = ret; errno = pos 0; bytes = []; ints = [] };
}

abbrev known : Context
known = record blank {
  identity_cert = some old;
  identity_key = some (pos 701);
  world = record {
    history =
        event (MbedCall.conf_own_cert (pos 40) (pos 700) (pos 701)) (pos 0)
        ∷ event MbedCall.new_key (pos 701)
        ∷ event MbedCall.new_cert (pos 700)
        ∷ [];
    errno = pos 0;
  };
}

known-Balanced : Balanced (λ p. 0) known
unfolding objects
known-Balanced =
    (record { held = pos 701 ∷ pos 700 ∷ []; known = refl; counted = λ p. ground arith }, λ e. refl)

set_identity-dangles_example :
    let s' = (set_identity ⦃os = working⦄ (1 ∷ []) (2 ∷ []) known).1 in
    (0 < count (pos 700) (own_certs s'.config s'.world.history))
    × (refs : List ℤ) × (objects s'.world.history ≡ some refs)
    × (count (pos 700) refs ≡ 0)
unfolding own_certs set_identity
set_identity-dangles_example =
    set_identity-dangles ⦃os = working⦄ (1 ∷ []) (2 ∷ []) old (λ p. 0) known refl (omega arith)
      known-Balanced refl refl refl

-- The operations, on the context that the constructor made
after_runs :
    (made.status ≡ pos 0)
    × (made.rng_ready ≡ true)
    × ((set_root_certs ⦃os = working⦄ (1 ∷ []) made).0 ≡ returns tt)
    × ((allow_only_certificate ⦃os = working⦄ [] made).1.pinned ≡ none)
    × ((allow_only_parsed ⦃os = working⦄ none made).1.pinned ≡ none)
    × ((set_root_cert_locator ⦃os = working⦄ read none made).0 ≡ returns tt)
    × ((require_peer_cert ⦃os = working⦄ false true true known).1 ≡ known)
    × (calls (require_peer_cert ⦃os = working⦄ true true true known).1.world.history
        ≡ Call.library (LibraryCall.mbed (MbedCall.conf_authmode (pos 40) 2))
          ∷ calls known.world.history)
    × ((trusted_cert_callback ⦃os = working⦄ (1 ∷ []) known).0 ≡ (negsuc 0, none))
    × ((trusted_cert_callback ⦃os = working⦄
          (1 ∷ [])
          (record known { locator = some (λ child. (true, child)) })).0
        ≡ (pos 0, some (some (pos 703))))
    × ((trusted_cert_callback ⦃os = working⦄
          (1 ∷ [])
          (record known { locator = some (λ child. (true, [])) })).0
        ≡ (pos 0, some none))
    × (own_certs (pos 40) (set_identity_parsed ⦃os = working⦄ (pos 8) (pos 9) known).1.world.history
        ≡ pos 8 ∷ pos 700 ∷ [])
    × ((wrap_socket ⦃os = working⦄ ⦃m = library⦄ 2 [] (pos 90) made five).1.handle ≡ invalid_socket)
unfolding construct_context set_root_certs allow_only_certificate allow_only_parsed
    set_root_cert_locator require_peer_cert trusted_cert_callback set_identity_parsed own_certs
    wrap_socket read_text
after_runs = (refl, refl, refl, refl, refl, refl, refl, refl, refl, refl, refl, refl, refl)
