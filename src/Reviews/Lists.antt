-- ===== src/Reviews/Lists.antt =====
-- The pages of reviews, the average rating and the masked e-mail
-- (backend/src/reviews/reviews.service.ts).
use event_now.Prelude.{
  ℕ, ◌+◌, ◌*◌, ◌/◌, ◌≤◌, ◌<◌, min, ◌≡◌, refl, Bool, true, false, some, List, [], ◌∷◌, ◌++◌, ◌==◌,
  if◌then◌else◌, length, total, All, Bool-cases, inl, inr, arith, any,
}
use native.Mathlib.Nat.{le-div_iff_mul-le}
use event_now.Prelude.Outcome.{ok}
use event_now.Prisma.{Prisma}
use event_now.Prisma.Laws.{count-find_many}
use event_now.Database.{Db, Review}
use event_now.Reviews.{
  ReviewPage, SortBy, recent, highest, lowest, is_of_event, average, before_at, after_at,
  mask_email, find_all_by_event,
}

-- What the order of a page promises.
abbrev pub IsShownBefore : SortBy → Review → Review → Type 0
IsShownBefore recent a b = b.created_at ≤ a.created_at
IsShownBefore highest a b = b.rating ≤ a.rating
IsShownBefore lowest a b = a.rating ≤ b.rating

-- Every rating is from 1 to 5.
abbrev pub HasRating : Review → Type 0
HasRating r = (1 ≤ r.rating) × (r.rating ≤ 5)

total-rating :
    (es : List (ℕ × Review))
    → All (λ e. HasRating e.1) es
    → (length es ≤ total (λ e. e.1.rating) es) × (total (λ e. e.1.rating) es ≤ 5 * length es)
total-rating [] h = (omega arith, omega arith)
total-rating ((k, r) ∷ es) ((low, high), rest) =
    let (a, b) = total-rating es rest in (omega arith, omega arith)

average-within :
    (sum count t : ℕ)
    → average sum count ≡ some t
    → count ≤ sum
    → sum ≤ 5 * count
    → (10 ≤ t) × (t ≤ 50)
unfolding average
average-within sum count t h low high = elim (Bool-cases (sum == 0)) [
  | inl e ↦ absurd (ground (arith, h, e))
  | inr e ↦
      let value : t ≡ (20 * sum + count) / (2 * count) = ground (arith, h, e) in
      let pos : 0 < 2 * count = ground (arith, e) in
      (
        ground
            (arith, value, (le-div_iff_mul-le {x = 10} {y = 20 * sum + count} pos).1 (omega arith)),
        ground (arith, value, (le-div_iff_mul-le {x = 51} {y = 20 * sum + count} pos).0),
      )
]

ratings :
    (p : Prisma) (t : p.Table Review) (q : Review → Bool) (es : List (ℕ × Review))
    → ((k : ℕ) (r : Review) → p.find_unique k t ≡ some r → HasRating r)
    → All (λ e. (p.find_unique e.0 t ≡ some e.1) × (q e.1 ≡ true)) es
    → All (λ e. HasRating e.1) es
ratings p t q [] all h = tt
ratings p t q ((k, r) ∷ es) all ((found, holds), rest) = (all k r found, ratings p t q es all rest)

module _ {p : Prisma} where
  -- When every rating is from 1 to 5, the average that an answer shows is too.
  pub find_all_by_event-average :
      (event_id page limit : ℕ) (sort : SortBy) (answer : ReviewPage) (t : ℕ) (d : Db p)
      → ((k : ℕ) (r : Review) → p.find_unique k d.social.review ≡ some r → HasRating r)
      → find_all_by_event event_id page limit sort d ≡ ok answer d
      → answer.average_rating ≡ some t
      → (10 ≤ t) × (t ≤ 50)
  unfolding find_all_by_event
  find_all_by_event-average event_id page limit sort answer t d all h shown_average =
      let q = is_of_event event_id in
      let rows = d.social.review in
      let (low, high) =
        total-rating (p.find_many q rows)
          (ratings p rows q (p.find_many q rows) all (p.find_many-sound q rows)) in
      let count = p.sum (λ r. if q r then 1 else 0) rows in
      let sum = p.sum (λ r. if q r then r.rating else 0) rows in
      let counted = count-find_many p q rows in
      let summed = p.sum-find_many q (λ r. r.rating) rows in
      average-within sum count t (ground (arith, h, shown_average)) (omega (arith, counted, summed))
        (omega (arith, counted, summed))

before_at-name :
    (name s : List ℕ) → any (λ c. c == b'@') name ≡ false → before_at (name ++ (b'@' ∷ s)) ≡ name
before_at-name [] s h = refl
before_at-name (c ∷ name) s h = ground (arith, before_at-name name s)

after_at-name :
    (name s : List ℕ)
    → any (λ c. c == b'@') name ≡ false
    → after_at (name ++ (b'@' ∷ s)) ≡ some (before_at s)
after_at-name [] s h = refl
after_at-name (c ∷ name) s h = ground (arith, after_at-name name s)

-- Of a name of four letters or more the mask shows the first and nothing else, not even how many
-- there are: with the same first letter and the same domain, two addresses look the same.
pub mask_email_hides :
    (c : ℕ) (name other s : List ℕ)
    → any (λ x. x == b'@') (c ∷ name) ≡ false
    → any (λ x. x == b'@') (c ∷ other) ≡ false
    → 3 ≤ length name
    → 3 ≤ length other
    → mask_email ((c ∷ name) ++ (b'@' ∷ s)) ≡ mask_email ((c ∷ other) ++ (b'@' ∷ s))
unfolding mask_email
mask_email_hides c name other s h h' long long' =
    let same : min (length name) 3 ≡ min (length other) 3 = omega arith in
    ground (
      arith,
      before_at-name (c ∷ name) s h,
      after_at-name (c ∷ name) s h,
      before_at-name (c ∷ other) s h',
      after_at-name (c ∷ other) s h',
      same,
    )
