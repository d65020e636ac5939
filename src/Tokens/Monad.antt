-- ===== src/Tokens/Monad.antt =====
-- Sequencing of fallible, state-changing calls: Rust's `?` on `Result` with storage passed along.
use open_runtime_module_libr.Prelude.{Bool, true, false, Option, none, some, ◌∷◌}
use open_runtime_module_libr.Tokens.Types.{DispatchError, Result, ok, err, State, Action, Event}

module _ {Sys A : Type 0} where
  abbrev pub pure : A → Action Sys A
  pure a s = (ok a, s)

  -- A step that only reads storage.
  abbrev pub reading : (State Sys → Result A) → Action Sys A
  reading f s = (f s, s)

  abbrev pub gets : (State Sys → A) → Action Sys A
  gets f s = (ok (f s), s)

  abbrev pub or_fail : Option A → DispatchError → Action Sys A
  or_fail none e s = (err e, s)
  or_fail (some a) e s = (ok a, s)

infixl 5 ◌>>=◌ ◌>>◌
abbrev pub ◌>>=◌ : {Sys A B : Type 0} → Action Sys A → (A → Action Sys B) → Action Sys B
◌>>=◌ m f s = let (r, s') = m s in elim r [ ok a ↦ f a s' | err e ↦ (err e, s') ]

abbrev pub ◌>>◌ : {Sys A B : Type 0} → Action Sys A → Action Sys B → Action Sys B
m >> k = m >>= λ _. k

module _ {Sys : Type 0} where
  abbrev pub modify : (State Sys → State Sys) → Action Sys (Unit {0})
  modify f s = (ok tt, f s)

  -- `ensure!`
  abbrev pub ensure : Bool → DispatchError → Action Sys (Unit {0})
  ensure true e s = (ok tt, s)
  ensure false e s = (err e, s)

  abbrev pub deposit_event : Event → State Sys → State Sys
  deposit_event e s = record s { events = e ∷ s.events }

-- The same on results alone, for checks that only read storage.
abbrev pub and_then : {A B : Type 0} → Result A → (A → Result B) → Result B
and_then (ok a) f = f a
and_then (err e) f = err e

abbrev pub ok_or : {A : Type 0} → Option A → DispatchError → Result A
ok_or none e = err e
ok_or (some a) e = ok a

abbrev pub require : Bool → DispatchError → Result (Unit {0})
require true e = ok tt
require false e = err e
