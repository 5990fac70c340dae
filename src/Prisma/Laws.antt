-- ===== src/Prisma/Laws.antt =====
-- What follows from Prisma's laws for a record that is known to be there.
use event_now.Prelude.{
  ℕ, ◌≤◌, ◌≡◌, ◌≢◌, ◌↔◌, Bool, true, some, List, [], ◌∷◌, ◌==◌, any, All, Bool-cases, inl, inr,
  arith, subst, refl, length, total-one, ◌∙◌, if◌then◌else◌, false,
}
use event_now.Prisma.{Prisma}

-- The key is among the entries.
abbrev pub lists : {R : Type 0} → ℕ → List (ℕ × R) → Bool
lists k es = any (λ e. e.0 == k) es

lists_All :
    {R : Type 0} (P : ℕ × R → Type 0) (k : ℕ) (es : List (ℕ × R))
    → All P es
    → lists k es ≡ true
    → (r : R) × P (k, r)
lists_All P k [] h l = absurd (ground (arith, l))
lists_All P k ((j, r) ∷ es) (h, hs) l = elim (Bool-cases (j == k)) [
  | inl same ↦ (r, subst (λ x. P (x, r)) (ground arith) h)
  | inr other ↦ lists_All P k es hs (ground arith)
]

module _ (p : Prisma) {R : Type 0} where
  pub find_unique-modify_self :
      (k : ℕ) (f : R → R) (t : p.Table R) (r : R)
      → p.find_unique k t ≡ some r
      → p.find_unique k (p.modify k f t) ≡ some (f r)
  find_unique-modify_self k f t r h = ground (arith, p.find_unique-modify k k f t)

  pub find_unique-modify_ne :
      (j k : ℕ) (f : R → R) (t : p.Table R)
      → k ≢ j
      → p.find_unique j (p.modify k f t) ≡ p.find_unique j t
  find_unique-modify_ne j k f t h = ground (arith, p.find_unique-modify j k f t)

  pub find_unique-create_self :
      (r : R) (t : p.Table R) → p.find_unique (p.new_id t) (p.create r t) ≡ some r
  find_unique-create_self r t = ground (arith, p.find_unique-create (p.new_id t) r t)

  -- A record that is there keeps its place when another is created.
  pub find_unique-create_old :
      (j : ℕ) (r s : R) (t : p.Table R)
      → p.find_unique j t ≡ some s
      → p.find_unique j (p.create r t) ≡ some s
  find_unique-create_old j r s t h =
      ground (arith, p.find_unique-create j r t, p.find_unique-new_id t)

  pub le-sum :
      (g : R → ℕ) (k : ℕ) (r : R) (t : p.Table R) → p.find_unique k t ≡ some r → g r ≤ p.sum g t
  le-sum g k r t h = omega (arith, p.sum-delete g k r t h)

  -- The keys that `findMany` lists are those of the records that meet the condition.
  pub find_many_iff :
      (q : R → Bool) (t : p.Table R) (k : ℕ)
      → (lists k (p.find_many q t) ≡ true) ↔ ((r : R) × (p.find_unique k t ≡ some r) × (q r ≡ true))
  find_many_iff q t k = (
    λ l.
        let (r, (found, holds)) =
          lists_All (λ e. (p.find_unique e.0 t ≡ some e.1) × (q e.1 ≡ true)) k (p.find_many q t)
            (p.find_many-sound q t) l in
        (r, found, holds),
    λ (r, found, holds). p.find_many-complete q t k r found holds,
  )

  -- `count` is the number of records that `findMany` lists.
  pub count-find_many :
      (q : R → Bool) (t : p.Table R)
      → p.sum (λ r. if q r then 1 else 0) t ≡ length (p.find_many q t)
  count-find_many q t = p.sum-find_many q (λ r. 1) t ∙ total-one (p.find_many q t)

  -- `count` is 0 if no record meets the condition.
  pub sum-none :
      (q : R → Bool) (t : p.Table R)
      → ((k : ℕ) (r : R) → p.find_unique k t ≡ some r → q r ≡ false)
      → p.sum (λ r. if q r then 1 else 0) t ≡ 0
  sum-none q t h = count-find_many q t ∙ length-none (p.find_many q t) (p.find_many-sound q t)
    where
      length-none :
          (es : List (ℕ × R))
          → All (λ e. (p.find_unique e.0 t ≡ some e.1) × (q e.1 ≡ true)) es
          → length es ≡ 0
      length-none [] all = refl
      length-none ((k, r) ∷ es) ((found, holds), rest) = absurd (ground (arith, h k r found))
