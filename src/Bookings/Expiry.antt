-- ===== src/Bookings/Expiry.antt =====
-- The expiry of overdue bookings (backend/src/bookings/bookings.service.ts).
use event_now.Prelude.{
  ℕ, ◌≡◌, ◌≢◌, refl, true, false, none, some, List, [], ◌∷◌, arith, ◌==◌, Option-cases, inl, inr,
  length, All, Distinct, any,
}
use event_now.Prelude.Outcome.{ok}
use event_now.Prisma.{Prisma}
use event_now.Database.{Db, Booking, BookingStatus, for_each}
use event_now.Bookings.{expire_booking, expire_old_bookings, is_overdue}
use event_now.Bookings.Stock.{Live, more, given_back-Live, overdue-Live}
use event_now.Bookings.Calls.{given_back}

module _ {p : Prisma} where
  -- Every booking refers to a category that is there: a foreign key of the schema.
  abbrev pub Linked : Db p → Type 0
  Linked d =
      (k : ℕ) (b : Booking)
      → p.find_unique k d.booking ≡ some b
      → p.find_unique b.ticket_category_id d.ticket_category ≢ none

  given_back-Linked :
      (id : ℕ) (b : Booking) (s : BookingStatus) (d : Db p)
      → Linked d
      → Linked (given_back id b s d)
  given_back-Linked id b s d linked k x found = elim (Option-cases (p.find_unique k d.booking)) [
    | inl e ↦ ground (arith, p.find_unique-modify k id (λ b. record b { status = s }) d.booking)
    | inr (y, e) ↦ ground (
      arith,
      linked k y,
      p.find_unique-modify k id (λ b. record b { status = s }) d.booking,
      p.find_unique-modify y.ticket_category_id b.ticket_category_id (more b.quantity)
          d.ticket_category,
    )
  ]

  expire_booking-returns :
      (id : ℕ) (b : Booking) (d : Db p)
      → Linked d
      → p.find_unique id d.booking ≡ some b
      → expire_booking (id, b) d ≡ ok tt (given_back id b BookingStatus.expired d)
  unfolding expire_booking
  expire_booking-returns id b d linked found = ground (arith, linked id b found)

  -- The entries still to come include every overdue booking.
  abbrev Covers : ℕ → Db p → List (ℕ × Booking) → Type 0
  Covers now d es =
      (k : ℕ) (b : Booking)
      → p.find_unique k d.booking ≡ some b
      → is_overdue now b ≡ true
      → any (λ e. e.0 == k) es ≡ true

  given_back-Covers :
      (now id : ℕ) (b : Booking) (d : Db p) (es : List (ℕ × Booking))
      → Covers now d ((id, b) ∷ es)
      → Covers now (given_back id b BookingStatus.expired d) es
  given_back-Covers now id b d es cover k x found overdue = ground (
    arith,
    cover k x,
    p.find_unique-modify k id (λ b. record b { status = BookingStatus.expired }) d.booking,
  )

  expire_loop-Covers :
      (now : ℕ) (es : List (ℕ × Booking)) (d : Db p)
      → Distinct es
      → All (Live d) es
      → Linked d
      → Covers now d es
      → (d' : Db p) × (for_each expire_booking es d ≡ ok tt d') × Covers now d' []
  unfolding for_each
  expire_loop-Covers now [] d distinct live linked cover = (d, refl, cover)
  expire_loop-Covers now ((id, b) ∷ es) d (fresh, distinct) ((found, holding), live) linked cover =
      let (d', run, none_left) =
        expire_loop-Covers now es (given_back id b BookingStatus.expired d) distinct
          (given_back-Live id b BookingStatus.expired d es fresh live)
          (given_back-Linked id b BookingStatus.expired d linked)
          (given_back-Covers now id b d es cover) in
      (d', rw (expire_booking-returns id b d linked found, for_each) run, none_left)

  -- When every booking refers to a category, the expiry returns the number of overdue bookings that
  -- it found, and no pending booking is overdue afterwards.
  pub expire_old_bookings_clears :
      (now : ℕ) (d : Db p)
      → Linked d
      → (d' : Db p) × (expire_old_bookings now d
          ≡ ok (length (p.find_many (is_overdue now) d.booking)) d')
        × ((k : ℕ) (b : Booking) → p.find_unique k d'.booking ≡ some b → is_overdue now b ≡ false)
  unfolding expire_old_bookings
  expire_old_bookings_clears now d linked =
      let es = p.find_many (is_overdue now) d.booking in
      let (d', run, none_left) =
        expire_loop-Covers now es d (p.find_many-distinct (is_overdue now) d.booking)
          (overdue-Live now d es (p.find_many-sound (is_overdue now) d.booking)) linked
          (p.find_many-complete (is_overdue now) d.booking) in
      (d', ground arith, λ k b found. ground (arith, none_left k b))
