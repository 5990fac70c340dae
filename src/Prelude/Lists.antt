-- ===== src/Prelude/Lists.antt =====
-- Lists measured by native numbers, Boolean list functions and a predicate on all entries.
use Prim.Native.Nat.{ℕ, zero, suc, ◌+◌}
use mathlib.Core.Path.{◌≡◌}
use mathlib.Core.Bool.{Bool, true, false, not, ◌&&◌, ◌||◌}
use mathlib.Core.Option.{Option, none, some}
use mathlib.Core.List.{List, [], ◌∷◌, ◌++◌}
use native.Mathlib.Omega.{arith}
use mathlib.Core.Path.{refl}
use mathlib.Core.Logic.{inl, inr}
use event_now.Prelude.Tests.{◌==◌, if◌then◌else◌, Bool-cases}

module _ {ℓ} {A : Type ℓ} where
  abbrev pub length : List A → ℕ
  length [] = 0
  length (x ∷ xs) = suc (length xs)

  pub length-append : (xs ys : List A) → length (xs ++ ys) ≡ length xs + length ys
  length-append [] ys = omega arith
  length-append (x ∷ xs) ys = omega (arith, length-append xs ys)

  abbrev pub head? : List A → Option A
  head? [] = none
  head? (x ∷ xs) = some x

  abbrev pub take : ℕ → List A → List A
  take zero xs = []
  take (suc n) [] = []
  take (suc n) (x ∷ xs) = x ∷ take n xs

  -- The sum of a number over the entries.
  abbrev pub total : (A → ℕ) → List A → ℕ
  total f [] = 0
  total f (x ∷ xs) = f x + total f xs

  pub total-one : (xs : List A) → total (λ x. 1) xs ≡ length xs
  total-one [] = omega arith
  total-one (x ∷ xs) = omega (arith, total-one xs)

  abbrev pub drop : ℕ → List A → List A
  drop zero xs = xs
  drop (suc n) [] = []
  drop (suc n) (x ∷ xs) = drop n xs

  -- `Array.prototype.filter`, `some` and `every`.
  abbrev pub filterb : (A → Bool) → List A → List A
  filterb p [] = []
  filterb p (x ∷ xs) = if p x then x ∷ filterb p xs else filterb p xs

  abbrev pub any : (A → Bool) → List A → Bool
  any p [] = false
  any p (x ∷ xs) = p x || any p xs

  abbrev pub all : (A → Bool) → List A → Bool
  all p [] = true
  all p (x ∷ xs) = p x && all p xs

  abbrev pub All {κ} : (A → Type κ) → List A → Type κ
  All P [] = Unit
  All P (x ∷ xs) = P x × All P xs

module _ {A : Type 0} where
  -- `Array.prototype.sort`, which is stable: `after a b` says that `a` goes behind `b`.
  abbrev pub insert_by : (A → A → Bool) → A → List A → List A
  insert_by after x [] = x ∷ []
  insert_by after x (y ∷ ys) =
      let rest = insert_by after x ys in if after x y then y ∷ rest else x ∷ y ∷ ys

  abbrev pub sort_by : (A → A → Bool) → List A → List A
  sort_by after [] = []
  sort_by after (x ∷ xs) = insert_by after x (sort_by after xs)

  any-insert_by :
      (f : A → Bool) (after : A → A → Bool) (x : A) (xs : List A)
      → any f (insert_by after x xs) ≡ (f x || any f xs)
  any-insert_by f after x [] = refl
  any-insert_by f after x (y ∷ ys) = elim (Bool-cases (after x y)) [
    | inl e ↦ ground (arith, any-insert_by f after x ys)
    | inr e ↦ ground arith
  ]

  -- Sorting keeps the entries.
  pub any-sort_by :
      (f : A → Bool) (after : A → A → Bool) (xs : List A) → any f (sort_by after xs) ≡ any f xs
  any-sort_by f after [] = refl
  any-sort_by f after (x ∷ xs) =
      ground (arith, any-insert_by f after x (sort_by after xs), any-sort_by f after xs)

module _ {ℓ} {A : Type ℓ} where
  -- No two entries have the same key.
  abbrev pub Distinct : List (ℕ × A) → Type 0
  Distinct [] = Unit
  Distinct ((k, a) ∷ xs) = (any (λ e. e.0 == k) xs ≡ false) × Distinct xs

-- `[...new Set(ids)]`: each once, where it stands first.
abbrev pub without : ℕ → List ℕ → List ℕ
without x ys = filterb (λ y. not (y == x)) ys

abbrev pub distinct_ids : List ℕ → List ℕ
distinct_ids [] = []
distinct_ids (x ∷ xs) = x ∷ without x (distinct_ids xs)
