-- ===== src/Prisma.antt =====
-- The Prisma client over PostgreSQL, which the services only call (backend/src/prisma). It is a
-- parameter of the development: the operations that the services use, with the documented
-- behaviour that the code relies on. A record is filed under its primary key, a number here.
-- No law speaks of an order of the records but for `orderBy`.
pub mod Rows
pub mod Laws
use mathlib.Core.Option
use event_now.Prelude.{
  ℕ, ◌+◌, ◌≡◌, Bool, true, false, not, Option, none, some, List, ◌==◌, if◌then◌else◌, any, All,
  Distinct, total, Pairwise, InKeyOrder, length, ◌≤◌,
}

-- The record, if the condition does not hold of it.
abbrev pub unless : {R : Type 0} → (R → Bool) → Option R → Option R
unless p none = none
unless p (some r) = if p r then none else some r

pub record Prisma : Type 1 where
  pub Table : Type 0 → Type 0
  -- `findUnique` by the primary key.
  pub find_unique : {R : Type 0} → ℕ → Table R → Option R
  -- `findFirst`, and `findUnique` by a compound key: a record with its primary key.
  pub find_first : {R : Type 0} → (R → Bool) → Table R → Option (ℕ × R)
  -- `findMany`.
  pub find_many : {R : Type 0} → (R → Bool) → Table R → List (ℕ × R)
  -- `findMany` with `orderBy` one column (ascending, or descending if `true`), `skip` and `take`; of
  -- records with the same value the database may put any first, in every query anew.
  pub find_page : {R : Type 0} → (R → Bool) → (R → ℕ) → Bool → ℕ → ℕ → Table R → List (ℕ × R)
  -- `aggregate` with `_sum`; `count` is the sum of ones.
  pub sum : {R : Type 0} → (R → ℕ) → Table R → ℕ
  -- The key that `@default(uuid())` gives to the next record.
  pub new_id : {R : Type 0} → Table R → ℕ
  pub create : {R : Type 0} → R → Table R → Table R
  -- What `update` by the primary key, `updateMany`, `delete` and `deleteMany` leave behind.
  pub modify : {R : Type 0} → ℕ → (R → R) → Table R → Table R
  pub modify_many : {R : Type 0} → (R → Bool) → (R → R) → Table R → Table R
  pub delete : {R : Type 0} → ℕ → Table R → Table R
  pub delete_many : {R : Type 0} → (R → Bool) → Table R → Table R
  pub find_unique-new_id : {R : Type 0} (t : Table R) → find_unique (new_id t) t ≡ none
  pub find_unique-create :
      {R : Type 0} (j : ℕ) (r : R) (t : Table R)
      → find_unique j (create r t) ≡ (if new_id t == j then some r else find_unique j t)
  pub find_unique-modify :
      {R : Type 0} (j k : ℕ) (f : R → R) (t : Table R)
      → find_unique j (modify k f t)
        ≡ (if k == j then Option.map f (find_unique j t) else find_unique j t)
  pub find_unique-modify_many :
      {R : Type 0} (j : ℕ) (p : R → Bool) (f : R → R) (t : Table R)
      → find_unique j (modify_many p f t)
        ≡ Option.map (λ r. if p r then f r else r) (find_unique j t)
  pub find_unique-delete :
      {R : Type 0} (j k : ℕ) (t : Table R)
      → find_unique j (delete k t) ≡ (if k == j then none else find_unique j t)
  pub find_unique-delete_many :
      {R : Type 0} (j : ℕ) (p : R → Bool) (t : Table R)
      → find_unique j (delete_many p t) ≡ unless p (find_unique j t)
  pub find_first-some :
      {R : Type 0} (p : R → Bool) (t : Table R) (k : ℕ) (r : R)
      → find_first p t ≡ some (k, r)
      → (find_unique k t ≡ some r) × (p r ≡ true)
  pub find_first-none :
      {R : Type 0} (p : R → Bool) (t : Table R) (k : ℕ) (r : R)
      → find_first p t ≡ none
      → find_unique k t ≡ some r
      → p r ≡ false
  pub find_many-sound :
      {R : Type 0} (p : R → Bool) (t : Table R)
      → All (λ e. (find_unique e.0 t ≡ some e.1) × (p e.1 ≡ true)) (find_many p t)
  pub find_many-complete :
      {R : Type 0} (p : R → Bool) (t : Table R) (k : ℕ) (r : R)
      → find_unique k t ≡ some r
      → p r ≡ true
      → any (λ e. e.0 == k) (find_many p t) ≡ true
  pub find_many-distinct : {R : Type 0} (p : R → Bool) (t : Table R) → Distinct (find_many p t)
  pub find_page-sound :
      {R : Type 0} (p : R → Bool) (key : R → ℕ) (descending : Bool) (skip n : ℕ) (t : Table R)
      → All
          (λ e. (find_unique e.0 t ≡ some e.1) × (p e.1 ≡ true))
          (find_page p key descending skip n t)
  pub find_page-sorted :
      {R : Type 0} (p : R → Bool) (key : R → ℕ) (descending : Bool) (skip n : ℕ) (t : Table R)
      → Pairwise (InKeyOrder (λ e. key e.1) descending) (find_page p key descending skip n t)
  pub find_page-length :
      {R : Type 0} (p : R → Bool) (key : R → ℕ) (descending : Bool) (skip n : ℕ) (t : Table R)
      → length (find_page p key descending skip n t) ≤ n
  -- `aggregate` and `count` with a condition speak of what `findMany` lists.
  pub sum-find_many :
      {R : Type 0} (q : R → Bool) (g : R → ℕ) (t : Table R)
      → sum (λ r. if q r then g r else 0) t ≡ total (λ e. g e.1) (find_many q t)
  pub sum-create :
      {R : Type 0} (g : R → ℕ) (r : R) (t : Table R) → sum g (create r t) ≡ sum g t + g r
  pub sum-modify :
      {R : Type 0} (g : R → ℕ) (k : ℕ) (f : R → R) (r : R) (t : Table R)
      → find_unique k t ≡ some r
      → sum g (modify k f t) + g r ≡ sum g t + g (f r)
  pub sum-modify_many :
      {R : Type 0} (g : R → ℕ) (p : R → Bool) (f : R → R) (t : Table R)
      → ((r : R) → p r ≡ true → g (f r) ≡ g r)
      → sum g (modify_many p f t) ≡ sum g t
  pub sum-delete :
      {R : Type 0} (g : R → ℕ) (k : ℕ) (r : R) (t : Table R)
      → find_unique k t ≡ some r
      → sum g (delete k t) + g r ≡ sum g t
