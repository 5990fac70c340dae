-- ===== src/Prelude/Outcome.antt =====
-- A handler of a service: it reads and writes a state, and returns or throws. What a handler has
-- written before it throws stays written, unless a transaction rolls it back.
use mathlib.Core.Bool.{Bool, true, false}
use mathlib.Core.Option.{Option, none, some}
use mathlib.Core.Path.{◌≡◌, refl}
use mathlib.Core.Logic.{◌⊎◌, inl, inr}

pub data Outcome (E S A : Type 0) : Type 0 where
  ok : A → S → Outcome E S A
  err : E → S → Outcome E S A

module _ {E S A : Type 0} where
  -- The state after the call, whether it returned or threw.
  abbrev pub final : Outcome E S A → S
  final (ok a s) = s
  final (err e s) = s

  -- `$transaction`: the writes of a call that throws are undone.
  abbrev pub rollback : S → Outcome E S A → Outcome E S A
  rollback s (ok a t) = ok a t
  rollback s (err e t) = err e s

  abbrev pub transaction : (S → Outcome E S A) → S → Outcome E S A
  transaction m s = rollback s (m s)

  abbrev pub or_throw : Option A → E → S → Outcome E S A
  or_throw none e s = err e s
  or_throw (some a) e s = ok a s

  abbrev pub throw : E → S → Outcome E S A
  throw e s = err e s

  abbrev pub pure : A → S → Outcome E S A
  pure a s = ok a s

abbrev pub get : {E S : Type 0} → S → Outcome E S S
get s = ok s s

-- `if (b) throw e`.
abbrev pub throw_if : {E S : Type 0} → Bool → E → S → Outcome E S (Unit {0})
throw_if true e s = err e s
throw_if false e s = ok tt s

abbrev pub modify : {E S : Type 0} → (S → S) → S → Outcome E S (Unit {0})
modify f s = ok tt (f s)

infixl 5 ◌>>=◌ ◌>>◌
abbrev pub ◌>>=◌ :
    {E S A B : Type 0} → (S → Outcome E S A) → (A → S → Outcome E S B) → S → Outcome E S B
◌>>=◌ m f s = elim (m s) [ ok a t ↦ f a t | err e t ↦ err e t ]

abbrev pub ◌>>◌ :
    {E S B : Type 0} → (S → Outcome E S (Unit {0})) → (S → Outcome E S B) → S → Outcome E S B
◌>>◌ m k = m >>= λ _. k

pub outcome_cases :
    {E S A : Type 0} (r : Outcome E S A)
    → ((a : A) × (s : S) × (r ≡ ok a s)) ⊎ ((e : E) × (s : S) × (r ≡ err e s))
outcome_cases (ok a s) = inl (a, s, refl)
outcome_cases (err e s) = inr (e, s, refl)
