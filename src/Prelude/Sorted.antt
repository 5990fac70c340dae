-- ===== src/Prelude/Sorted.antt =====
-- Lists in the order of a key, and what holds of the entries of a list that is sorted or cut
-- (`orderBy`, `skip` and `take` of Prisma).
use event_now.Prelude.Lists.{All, length, take, drop, insert_by, sort_by}
use event_now.Prelude.Tests.{ltb, Bool-cases}
use Prim.Native.Nat.{ℕ, zero, suc, ◌≤◌}
use mathlib.Core.Path.{◌≡◌}
use mathlib.Core.Bool.{Bool, true, false}
use mathlib.Core.List.{List, [], ◌∷◌}
use mathlib.Core.Logic.{inl, inr}
use native.Mathlib.Omega.{arith}

module _ {A : Type 0} (P : A → Type 0) where
  pub insert_by-All :
      (after : A → A → Bool) (x : A) (xs : List A) → P x → All P xs → All P (insert_by after x xs)
  insert_by-All after x [] h hs = (h, tt)
  insert_by-All after x (y ∷ ys) h (g, gs) = elim (Bool-cases (after x y)) [
    | inl e ↦ rw e (g, insert_by-All after x ys h gs)
    | inr e ↦ rw e (h, (g, gs))
  ]

  pub sort_by-All : (after : A → A → Bool) (xs : List A) → All P xs → All P (sort_by after xs)
  sort_by-All after [] h = tt
  sort_by-All after (x ∷ xs) (h, hs) =
      insert_by-All after x (sort_by after xs) h (sort_by-All after xs hs)

  pub take-All : (n : ℕ) (xs : List A) → All P xs → All P (take n xs)
  take-All zero xs h = tt
  take-All (suc n) [] h = tt
  take-All (suc n) (x ∷ xs) (h, hs) = (h, take-All n xs hs)

  pub drop-All : (n : ℕ) (xs : List A) → All P xs → All P (drop n xs)
  drop-All zero xs h = h
  drop-All (suc n) [] h = tt
  drop-All (suc n) (x ∷ xs) (h, hs) = drop-All n xs hs

All-map :
    {A : Type 0} (P Q : A → Type 0) → ((a : A) → P a → Q a) → (xs : List A) → All P xs → All Q xs
All-map P Q f [] h = tt
All-map P Q f (x ∷ xs) (h, hs) = (f x h, All-map P Q f xs hs)

module _ {A : Type 0} where
  -- Every entry and every later one are in the relation.
  abbrev pub Pairwise : (A → A → Type 0) → List A → Type 0
  Pairwise R [] = Unit
  Pairwise R (x ∷ xs) = All (R x) xs × Pairwise R xs

  pub take-Pairwise :
      (R : A → A → Type 0) (n : ℕ) (xs : List A) → Pairwise R xs → Pairwise R (take n xs)
  take-Pairwise R zero xs h = tt
  take-Pairwise R (suc n) [] h = tt
  take-Pairwise R (suc n) (x ∷ xs) (h, hs) = (take-All (R x) n xs h, take-Pairwise R n xs hs)

  pub drop-Pairwise :
      (R : A → A → Type 0) (n : ℕ) (xs : List A) → Pairwise R xs → Pairwise R (drop n xs)
  drop-Pairwise R zero xs h = h
  drop-Pairwise R (suc n) [] h = tt
  drop-Pairwise R (suc n) (x ∷ xs) (h, hs) = drop-Pairwise R n xs hs

  pub length-take : (n : ℕ) (xs : List A) → length (take n xs) ≤ n
  length-take zero xs = omega arith
  length-take (suc n) [] = omega arith
  length-take (suc n) (x ∷ xs) = omega (arith, length-take n xs)

-- Two keys in ascending or descending order.
abbrev pub InDirection : Bool → ℕ → ℕ → Type 0
InDirection false a b = a ≤ b
InDirection true a b = b ≤ a

-- The first goes behind the second.
abbrev pub goes_behind : Bool → ℕ → ℕ → Bool
goes_behind false a b = ltb b a
goes_behind true a b = ltb a b

module _ {A : Type 0} (key : A → ℕ) where
  abbrev pub InKeyOrder : Bool → A → A → Type 0
  InKeyOrder descending x y = InDirection descending (key x) (key y)

  -- `ORDER BY` a column, one of the orders that the database may choose.
  abbrev pub sort_by_key : Bool → List A → List A
  sort_by_key descending xs = sort_by (λ x y. goes_behind descending (key x) (key y)) xs

  behind-InKeyOrder :
      (descending : Bool) (x y : A)
      → goes_behind descending (key x) (key y) ≡ true
      → InKeyOrder descending y x
  behind-InKeyOrder false x y h = ground arith
  behind-InKeyOrder true x y h = ground arith

  ahead-InKeyOrder :
      (descending : Bool) (x y : A)
      → goes_behind descending (key x) (key y) ≡ false
      → InKeyOrder descending x y
  ahead-InKeyOrder false x y h = ground arith
  ahead-InKeyOrder true x y h = ground arith

  InKeyOrder-trans :
      (descending : Bool) (x y z : A)
      → InKeyOrder descending x y
      → InKeyOrder descending y z
      → InKeyOrder descending x z
  InKeyOrder-trans false x y z h k = omega arith
  InKeyOrder-trans true x y z h k = omega arith

  insert_by-Pairwise :
      (descending : Bool) (x : A) (xs : List A)
      → Pairwise (InKeyOrder descending) xs
      → Pairwise
          (InKeyOrder descending)
          (insert_by (λ x y. goes_behind descending (key x) (key y)) x xs)
  insert_by-Pairwise descending x [] h = (tt, tt)
  insert_by-Pairwise descending x (y ∷ ys) (h, hs) =
      elim (Bool-cases (goes_behind descending (key x) (key y))) [
        | inl e ↦ rw e (
          insert_by-All (InKeyOrder descending y) (λ x y. goes_behind descending (key x) (key y)) x
              ys (behind-InKeyOrder descending x y e) h,
          insert_by-Pairwise descending x ys hs,
        )
        | inr e ↦
            let ahead = ahead-InKeyOrder descending x y e in
            rw e (
              (
                ahead,
                All-map (InKeyOrder descending y) (InKeyOrder descending x)
                    (λ z k. InKeyOrder-trans descending x y z ahead k) ys h,
              ),
              (h, hs),
            )
      ]

  pub sort_by_key-Pairwise :
      (descending : Bool) (xs : List A)
      → Pairwise (InKeyOrder descending) (sort_by_key descending xs)
  sort_by_key-Pairwise descending [] = tt
  sort_by_key-Pairwise descending (x ∷ xs) =
      insert_by-Pairwise descending x (sort_by_key descending xs)
        (sort_by_key-Pairwise descending xs)
