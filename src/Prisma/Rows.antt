-- ===== src/Prisma/Rows.antt =====
-- A table in memory that behaves as the services expect of Prisma. The newest record stands first,
-- `none` marks a deleted one, and the primary key of a record is the number of older ones.
use mathlib.Core.Option
use event_now.Prelude.{
  ℕ, suc, ◌+◌, ◌<◌, ◌≡◌, refl, Bool, true, false, Option, none, some, List, [], ◌∷◌, arith, ◌==◌,
  if◌then◌else◌, sym, ◌≤◌, any, All, length, Bool-cases, inl, inr, Distinct, ap, total, take, drop,
  Pairwise, take-All, drop-All, sort_by-All, take-Pairwise, drop-Pairwise, sort_by_key-Pairwise,
  sort_by_key, length-take, InKeyOrder,
}
use event_now.Prisma.{Prisma, unless}

module _ {R : Type 0} where
  abbrev pub find_unique : ℕ → List (Option R) → Option R
  find_unique k [] = none
  find_unique k (o ∷ t) = if length t == k then o else find_unique k t

  abbrev pub pick : (R → Bool) → ℕ → Option R → List (ℕ × R) → List (ℕ × R)
  pick p k none rest = rest
  pick p k (some r) rest = if p r then (k, r) ∷ rest else rest

  abbrev pub find_many : (R → Bool) → List (Option R) → List (ℕ × R)
  find_many p [] = []
  find_many p (o ∷ t) = pick p (length t) o (find_many p t)

  abbrev pub first : List (ℕ × R) → Option (ℕ × R)
  first [] = none
  first (e ∷ es) = some e

  abbrev pub amount : (R → ℕ) → Option R → ℕ
  amount g none = 0
  amount g (some r) = g r

  abbrev pub sum : (R → ℕ) → List (Option R) → ℕ
  sum g [] = 0
  sum g (o ∷ t) = sum g t + amount g o

  abbrev pub modify : ℕ → (R → R) → List (Option R) → List (Option R)
  modify k f [] = []
  modify k f (o ∷ t) = (if length t == k then Option.map f o else o) ∷ modify k f t

  abbrev pub map_rows : (Option R → Option R) → List (Option R) → List (Option R)
  map_rows f [] = []
  map_rows f (o ∷ t) = f o ∷ map_rows f t

  abbrev pub modify_many : (R → Bool) → (R → R) → List (Option R) → List (Option R)
  modify_many p f = map_rows (Option.map (λ r. if p r then f r else r))

  abbrev pub delete_many : (R → Bool) → List (Option R) → List (Option R)
  delete_many p = map_rows (unless p)

  abbrev pub delete : ℕ → List (Option R) → List (Option R)
  delete k [] = []
  delete k (o ∷ t) = (if length t == k then none else o) ∷ delete k t

  length-modify : (k : ℕ) (f : R → R) (t : List (Option R)) → length (modify k f t) ≡ length t
  length-modify k f [] = refl
  length-modify k f (o ∷ t) = ap suc (length-modify k f t)

  length-map_rows :
      (f : Option R → Option R) (t : List (Option R)) → length (map_rows f t) ≡ length t
  length-map_rows f [] = refl
  length-map_rows f (o ∷ t) = ap suc (length-map_rows f t)

  length-delete : (k : ℕ) (t : List (Option R)) → length (delete k t) ≡ length t
  length-delete k [] = refl
  length-delete k (o ∷ t) = ap suc (length-delete k t)

  find_unique-lt : (k : ℕ) (t : List (Option R)) (r : R) → find_unique k t ≡ some r → k < length t
  find_unique-lt k [] r h = cc
  find_unique-lt k (o ∷ t) r h = ground (arith, find_unique-lt k t r)

  pub find_unique-above : (k : ℕ) (t : List (Option R)) → length t ≤ k → find_unique k t ≡ none
  find_unique-above k [] h = refl
  find_unique-above k (o ∷ t) h = ground (arith, find_unique-above k t)

  pub find_unique-modify_rows :
      (j k : ℕ) (f : R → R) (t : List (Option R))
      → find_unique j (modify k f t)
        ≡ (if k == j then Option.map f (find_unique j t) else find_unique j t)
  find_unique-modify_rows j k f [] = ground arith
  find_unique-modify_rows j k f (o ∷ t) =
      rw (length-modify k f t) (ground (arith, find_unique-modify_rows j k f t))

  pub find_unique-map_rows :
      (j : ℕ) (f : Option R → Option R) (t : List (Option R))
      → f none ≡ none
      → find_unique j (map_rows f t) ≡ f (find_unique j t)
  find_unique-map_rows j f [] h = sym h
  find_unique-map_rows j f (o ∷ t) h =
      rw (length-map_rows f t) (ground (arith, find_unique-map_rows j f t h))

  pub find_unique-delete_rows :
      (j k : ℕ) (t : List (Option R))
      → find_unique j (delete k t) ≡ (if k == j then none else find_unique j t)
  find_unique-delete_rows j k [] = ground arith
  find_unique-delete_rows j k (o ∷ t) =
      rw (length-delete k t) (ground (arith, find_unique-delete_rows j k t))

  pub find_unique-first :
      (p : R → Bool) (t : List (Option R)) (k : ℕ) (r : R)
      → first (find_many p t) ≡ some (k, r)
      → (find_unique k t ≡ some r) × (p r ≡ true)
  find_unique-first p [] k r h = cc
  find_unique-first p (none ∷ t) k r h =
      let (found, holds) = find_unique-first p t k r h in
      (ground (arith, find_unique-lt k t r), holds)
  find_unique-first p (some s ∷ t) k r h = elim (Bool-cases (p s)) [
    | inl e ↦ (ground arith, ground arith)
    | inr e ↦
        let (found, holds) = find_unique-first p t k r (rw e at h) in
        (ground (arith, find_unique-lt k t r), holds)
  ]

  pub first-none :
      (p : R → Bool) (t : List (Option R)) (k : ℕ) (r : R)
      → first (find_many p t) ≡ none
      → find_unique k t ≡ some r
      → p r ≡ false
  first-none p [] k r e h = cc
  first-none p (none ∷ t) k r e h = first-none p t k r e (ground arith)
  first-none p (some s ∷ t) k r e h = ground (arith, first-none p t k r)

  abbrev pub Found : (R → Bool) → List (Option R) → ℕ × R → Type 0
  Found p t e = (find_unique e.0 t ≡ some e.1) × (p e.1 ≡ true)

  Found-cons :
      (p : R → Bool) (t : List (Option R)) (o : Option R) (es : List (ℕ × R))
      → All (Found p t) es
      → All (Found p (o ∷ t)) es
  Found-cons p t o [] h = tt
  Found-cons p t o ((k, r) ∷ es) ((found, holds), rest) =
      ((ground (arith, find_unique-lt k t r), holds), Found-cons p t o es rest)

  pub find_many-Found : (p : R → Bool) (t : List (Option R)) → All (Found p t) (find_many p t)
  find_many-Found p [] = tt
  find_many-Found p (none ∷ t) = Found-cons p t none (find_many p t) (find_many-Found p t)
  find_many-Found p (some s ∷ t) =
      let rest = Found-cons p t (some s) (find_many p t) (find_many-Found p t) in
      elim (Bool-cases (p s)) [ inl e ↦ rw e ((ground arith, e), rest) | inr e ↦ rw e rest ]

  pub find_many-any :
      (p : R → Bool) (t : List (Option R)) (k : ℕ) (r : R)
      → find_unique k t ≡ some r
      → p r ≡ true
      → any (λ e. e.0 == k) (find_many p t) ≡ true
  find_many-any p [] k r h holds = cc
  find_many-any p (none ∷ t) k r h holds = ground (arith, find_many-any p t k r)
  find_many-any p (some s ∷ t) k r h holds = ground (arith, find_many-any p t k r)

  find_many-below :
      (p : R → Bool) (t : List (Option R)) (k : ℕ)
      → length t ≤ k
      → any (λ e. e.0 == k) (find_many p t) ≡ false
  find_many-below p [] k h = refl
  find_many-below p (none ∷ t) k h = find_many-below p t k (omega arith)
  find_many-below p (some s ∷ t) k h = ground (arith, find_many-below p t k)

  pub find_many-Distinct : (p : R → Bool) (t : List (Option R)) → Distinct (find_many p t)
  find_many-Distinct p [] = tt
  find_many-Distinct p (none ∷ t) = find_many-Distinct p t
  find_many-Distinct p (some s ∷ t) =
      ground (arith, find_many-Distinct p t, find_many-below p t (length t))

  pub sum-find_many_rows :
      (q : R → Bool) (g : R → ℕ) (t : List (Option R))
      → sum (λ r. if q r then g r else 0) t ≡ total (λ e. g e.1) (find_many q t)
  sum-find_many_rows q g [] = refl
  sum-find_many_rows q g (none ∷ t) = omega (arith, sum-find_many_rows q g t)
  sum-find_many_rows q g (some r ∷ t) = ground (arith, sum-find_many_rows q g t)

  sum-modify_above :
      (g : R → ℕ) (k : ℕ) (f : R → R) (t : List (Option R))
      → length t ≤ k
      → sum g (modify k f t) ≡ sum g t
  sum-modify_above g k f [] h = refl
  sum-modify_above g k f (o ∷ t) h = ground (arith, sum-modify_above g k f t)

  pub sum-modify_rows :
      (g : R → ℕ) (k : ℕ) (f : R → R) (r : R) (t : List (Option R))
      → find_unique k t ≡ some r
      → sum g (modify k f t) + g r ≡ sum g t + g (f r)
  sum-modify_rows g k f r [] h = cc
  sum-modify_rows g k f r (o ∷ t) h =
      ground (arith, sum-modify_rows g k f r t, sum-modify_above g k f t)

  pub sum-modify_many_rows :
      (g : R → ℕ) (p : R → Bool) (f : R → R) (t : List (Option R))
      → ((r : R) → p r ≡ true → g (f r) ≡ g r)
      → sum g (modify_many p f t) ≡ sum g t
  sum-modify_many_rows g p f [] h = refl
  sum-modify_many_rows g p f (none ∷ t) h = ground (arith, sum-modify_many_rows g p f t h)
  sum-modify_many_rows g p f (some r ∷ t) h = ground (arith, sum-modify_many_rows g p f t h, h r)

  sum-delete_above :
      (g : R → ℕ) (k : ℕ) (t : List (Option R)) → length t ≤ k → sum g (delete k t) ≡ sum g t
  sum-delete_above g k [] h = refl
  sum-delete_above g k (o ∷ t) h = ground (arith, sum-delete_above g k t)

  pub sum-delete_rows :
      (g : R → ℕ) (k : ℕ) (r : R) (t : List (Option R))
      → find_unique k t ≡ some r
      → sum g (delete k t) + g r ≡ sum g t
  sum-delete_rows g k r [] h = cc
  sum-delete_rows g k r (o ∷ t) h = ground (arith, sum-delete_rows g k r t, sum-delete_above g k t)

  pub find_unique-create_rows :
      (j : ℕ) (r : R) (t : List (Option R))
      → find_unique j (some r ∷ t) ≡ (if length t == j then some r else find_unique j t)
  find_unique-create_rows j r t = refl

  abbrev pub find_page : (R → Bool) → (R → ℕ) → Bool → ℕ → ℕ → List (Option R) → List (ℕ × R)
  find_page p key descending skip n t =
      take n (drop skip (sort_by_key (λ (e : ℕ × R). key e.1) descending (find_many p t)))

  pub find_page-Found :
      (p : R → Bool) (key : R → ℕ) (descending : Bool) (skip n : ℕ) (t : List (Option R))
      → All (Found p t) (find_page p key descending skip n t)
  find_page-Found p key descending skip n t = take-All (Found p t) n _ (
      drop-All (Found p t) skip _ (sort_by-All (Found p t) _ (find_many p t) (find_many-Found p t)))

  pub find_page-Pairwise :
      (p : R → Bool) (key : R → ℕ) (descending : Bool) (skip n : ℕ) (t : List (Option R))
      → Pairwise
          (InKeyOrder (λ (e : ℕ × R). key e.1) descending)
          (find_page p key descending skip n t)
  find_page-Pairwise p key descending skip n t =
      let order = InKeyOrder (λ (e : ℕ × R). key e.1) descending in
      take-Pairwise order n _ (
        drop-Pairwise order skip _
          (sort_by_key-Pairwise (λ (e : ℕ × R). key e.1) descending (find_many p t)))

-- The instance that the tests and examples run on.
abbrev pub in_memory : Prisma
in_memory = record {
  Table = λ R. List (Option R);
  find_unique = find_unique;
  find_first = λ p t. first (find_many p t);
  find_many = find_many;
  sum = sum;
  new_id = length;
  create = λ r t. some r ∷ t;
  modify = modify;
  modify_many = modify_many;
  delete = delete;
  delete_many = delete_many;
  find_unique-new_id = λ t. find_unique-above (length t) t (omega arith);
  find_unique-create = find_unique-create_rows;
  find_unique-modify = find_unique-modify_rows;
  find_unique-modify_many = λ j p f t. find_unique-map_rows j _ t refl;
  find_unique-delete = find_unique-delete_rows;
  find_unique-delete_many = λ j p t. find_unique-map_rows j _ t refl;
  find_first-some = find_unique-first;
  find_first-none = first-none;
  find_many-sound = find_many-Found;
  find_many-complete = find_many-any;
  find_many-distinct = find_many-Distinct;
  find_page = find_page;
  find_page-sound = find_page-Found;
  find_page-sorted = find_page-Pairwise;
  find_page-length = λ p key descending skip n t. length-take n _;
  sum-find_many = sum-find_many_rows;
  sum-create = λ g r t. refl;
  sum-modify = sum-modify_rows;
  sum-modify_many = sum-modify_many_rows;
  sum-delete = sum-delete_rows;
}
