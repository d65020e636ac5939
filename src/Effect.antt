-- ===== src/Effect.antt =====
-- Fallible calls that change a state: Rust's `?` on `Result` with the state passed along, for a state
-- and an error type of the caller's own.
use open_runtime_module_libr.Prelude.{
  Bool, true, false, Option, none, some, ◌≡◌, refl, ◌⊎◌, inl, inr,
}

pub data Result (E A : Type 0) : Type 0 where
  ok : A → Result E A
  err : E → Result E A

-- A call returns its result and the state it leaves; what was written before an error stays.
abbrev pub Action : Type 0 → Type 0 → Type 0 → Type 0
Action S E A = S → Result E A × S

module _ {S E A : Type 0} where
  abbrev pub pure : A → Action S E A
  pure a s = (ok a, s)

  -- A step that only reads.
  abbrev pub reading : (S → Result E A) → Action S E A
  reading f s = (f s, s)

  abbrev pub gets : (S → A) → Action S E A
  gets f s = (ok (f s), s)

  abbrev pub or_fail : Option A → E → Action S E A
  or_fail none e s = (err e, s)
  or_fail (some a) e s = (ok a, s)

  -- A call that is rolled back on an error: a dispatched call, or a transactional one.
  abbrev pub dispatched : Action S E A → Action S E A
  dispatched m s = let (r, s') = m s in elim r [ ok a ↦ (ok a, s') | err e ↦ (err e, s) ]

infixl 5 ◌>>=◌ ◌>>◌
abbrev pub ◌>>=◌ : {S E A B : Type 0} → Action S E A → (A → Action S E B) → Action S E B
◌>>=◌ m f s = let (r, s') = m s in elim r [ ok a ↦ f a s' | err e ↦ (err e, s') ]

abbrev pub ◌>>◌ : {S E A B : Type 0} → Action S E A → Action S E B → Action S E B
m >> k = m >>= λ _. k

module _ {S E : Type 0} where
  abbrev pub modify : (S → S) → Action S E (Unit {0})
  modify f s = (ok tt, f s)

  -- `ensure!`
  abbrev pub ensure : Bool → E → Action S E (Unit {0})
  ensure true e s = (ok tt, s)
  ensure false e s = (err e, s)

-- The same on results alone.
abbrev pub and_then : {E A B : Type 0} → Result E A → (A → Result E B) → Result E B
and_then (ok a) f = f a
and_then (err e) f = err e

abbrev pub ok_or : {E A : Type 0} → Option A → E → Result E A
ok_or none e = err e
ok_or (some a) e = ok a

abbrev pub require : {E : Type 0} → Bool → E → Result E (Unit {0})
require true e = ok tt
require false e = err e

-- A dispatched call left the state as it was, or as its steps did when they succeeded.
pub dispatched-cases :
    {S E A : Type 0} (m : Action S E A) (s : S)
    → ((dispatched m s).1 ≡ s) ⊎ ((a : A) × ((m s).0 ≡ ok a) × (dispatched m s ≡ (ok a, (m s).1)))
dispatched-cases {S} {E} {A} m s = go (m s)
  where
    go :
        (r : Result E A × S)
        → ((dispatched (λ _. r) s).1 ≡ s)
          ⊎ ((a : A) × (r.0 ≡ ok a) × (dispatched (λ _. r) s ≡ (ok a, r.1)))
    go (ok a, t) = inr (a, refl, refl)
    go (err e, t) = inl refl
