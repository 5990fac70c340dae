-- ===== src/Bookings/Stock.antt =====
-- Stock that bookings hold (backend/src/bookings/bookings.service.ts).
use event_now.Prelude.{
  subst, sym, ap, ◌∙◌, true, Bool-cases, inl, inr, ℕ, ◌+◌, ◌-◌, ◌/◌, ◌≤◌, ◌≡◌, refl, Bool, true,
  false, some, List, [], ◌∷◌, arith, ◌==◌, if◌then◌else◌, Option-cases, inl, inr, ◌<◌, All,
  Distinct, any,
}
use event_now.Prelude.Outcome.{Outcome, final, outcome_cases}
use event_now.Http.{HttpException}
use event_now.Prisma.{Prisma}
use event_now.Database.{Db, Handler, Booking, BookingStatus, TicketCategory, for_each}
use event_now.Redis.{Redis, Locked, with_lock_held, with_lock_free}
use event_now.Bookings.{
  amid, lock_ttl, create_booking_in_lock, CreateBookingDto, create_booking, confirm_booking,
  cancel_booking, expire_booking, expire_old_bookings, is_overdue,
}
use event_now.Bookings.Calls.{
  new_booking, booked, create_booking_cases, confirm_booking_cases, given_back,
  cancel_booking_cases, expire_booking_cases,
}

abbrev pub holds : BookingStatus → Bool
holds BookingStatus.pending = true
holds BookingStatus.confirmed = true
holds _ = false

-- What a booking takes from the stock of a category.
abbrev pub held_in : ℕ → Booking → ℕ
held_in k b = if b.ticket_category_id == k then (if holds b.status then b.quantity else 0) else 0

abbrev pub more : ℕ → TicketCategory → TicketCategory
more q c = record c { current_stock = c.current_stock + q }

module _ {p : Prisma} where
  abbrev pub held : ℕ → Db p → ℕ
  held k d = p.sum (held_in k) d.booking

  -- What is left and what live bookings hold make up the initial stock, in each category.
  abbrev pub Balanced : Db p → Type 0
  Balanced d =
      (k : ℕ) (c : TicketCategory)
      → p.find_unique k d.ticket_category ≡ some c
      → c.current_stock + held k d ≡ c.initial_stock

  booked-Balanced :
      (user_id : ℕ) (dto : CreateBookingDto) (now : ℕ) (d : Db p) (c : TicketCategory)
      → p.find_unique dto.ticket_category_id d.ticket_category ≡ some c
      → dto.quantity ≤ c.current_stock
      → Balanced d
      → Balanced (booked user_id dto now d)
  booked-Balanced user_id dto now d c found enough b k c' h = ground (
    arith,
    b k c',
    b dto.ticket_category_id c,
    p.sum-create (held_in k) (new_booking user_id dto now) d.booking,
    p.find_unique-modify k dto.ticket_category_id
        (λ (c : TicketCategory). record c { current_stock = c.current_stock - dto.quantity })
        d.ticket_category,
  )

  -- Whatever `createBooking` answers, stock and holds still balance.
  pub create_booking-Balanced :
      (user_id : ℕ) (dto : CreateBookingDto) (now : ℕ) (d : Db p)
      → Balanced d
      → Balanced (final (create_booking user_id dto now d))
  create_booking-Balanced user_id dto now d b =
      create_booking_cases Balanced user_id dto now d b
        λ c found enough. booked-Balanced user_id dto now d c found enough b

  -- Whatever `confirmBooking` answers, stock and holds still balance.
  pub confirm_booking-Balanced :
      (id user_id now : ℕ) (d : Db p)
      → Balanced d
      → Balanced (final (confirm_booking id user_id now d))
  confirm_booking-Balanced id user_id now d bal =
      confirm_booking_cases Balanced id user_id now d bal λ b found _ pending _ k c h. ground (
        arith,
        bal k c,
        p.sum-modify (held_in k) id (λ b. record b { status = BookingStatus.confirmed }) b
            d.booking,
      )

  pub given_back-Balanced :
      (id : ℕ) (b : Booking) (s : BookingStatus) (d : Db p)
      → p.find_unique id d.booking ≡ some b
      → holds b.status ≡ true
      → holds s ≡ false
      → Balanced d
      → Balanced (given_back id b s d)
  given_back-Balanced id b s d found live dead bal k c' h =
      elim (Option-cases (p.find_unique k d.ticket_category)) [
        | inl e ↦
            ground (
              arith,
              p.find_unique-modify k b.ticket_category_id (more b.quantity) d.ticket_category,
            )
        | inr (c, e) ↦ ground (
          arith,
          bal k c,
          p.find_unique-modify k b.ticket_category_id (more b.quantity) d.ticket_category,
          p.sum-modify (held_in k) id (λ b. record b { status = s }) b d.booking,
        )
      ]

  -- When the booking, if there is one, holds places, `cancelBooking` keeps the balance.
  pub cancel_booking-Balanced :
      (id user_id : ℕ) (d : Db p)
      → ((b : Booking) → p.find_unique id d.booking ≡ some b → holds b.status ≡ true)
      → Balanced d
      → Balanced (final (cancel_booking id user_id d))
  cancel_booking-Balanced id user_id d live bal =
      cancel_booking_cases Balanced id user_id d bal λ b found _ _.
        given_back-Balanced id b BookingStatus.cancelled d found (live b found) refl bal

  -- The defect: the cancellation by its owner of a booking of some places that is cancelled or
  -- expired already breaks the balance.
  pub cancel_booking_dead :
      (id user_id : ℕ) (b : Booking) (c : TicketCategory) (d : Db p)
      → p.find_unique id d.booking ≡ some b
      → p.find_unique b.ticket_category_id d.ticket_category ≡ some c
      → b.user_id ≡ user_id
      → holds b.status ≡ false
      → 0 < b.quantity
      → Balanced d
      → ¬ Balanced (final (cancel_booking id user_id d))
  unfolding cancel_booking
  cancel_booking_dead id user_id b c d found category owner dead some_places bal bal' = ground (
    arith,
    bal b.ticket_category_id c category,
    bal' b.ticket_category_id (more b.quantity c),
    p.find_unique-modify b.ticket_category_id b.ticket_category_id (more b.quantity)
        d.ticket_category,
    p.sum-modify (held_in b.ticket_category_id) id
        (λ b. record b { status = BookingStatus.cancelled }) b d.booking,
  )

  -- The entries of the loop are bookings of the database that still hold stock.
  abbrev pub Live : Db p → ℕ × Booking → Type 0
  Live d e = (p.find_unique e.0 d.booking ≡ some e.1) × (holds e.1.status ≡ true)

  pub given_back-Live :
      (id : ℕ) (b : Booking) (s : BookingStatus) (d : Db p) (es : List (ℕ × Booking))
      → any (λ e. e.0 == id) es ≡ false
      → All (Live d) es
      → All (Live (given_back id b s d)) es
  given_back-Live id b s d [] fresh live = tt
  given_back-Live id b s d ((k, x) ∷ es) fresh ((found, holding), live) = (
    (ground (arith, p.find_unique-modify k id (λ b. record b { status = s }) d.booking), holding),
    given_back-Live id b s d es (ground arith) live,
  )

  amid-state :
      {r : Redis} {A : Type 0} (others : r.Keys → r.Keys) (m : Handler p A) (w : Locked r (Db p))
      → (final (amid others m w)).state ≡ final (m w.state)
  amid-state others m w = elim (outcome_cases (m w.state)) [
    | inl (a, d, e) ↦ ground (arith, e)
    | inr (x, d, e) ↦ ground (arith, e)
  ]

  -- `createBooking` under the lock of the category keeps the balance, whether the lock was free or
  -- held, and whatever becomes of the locks meanwhile.
  pub create_booking_in_lock-Balanced :
      {r : Redis} (others : r.Keys → r.Keys) (user_id : ℕ) (dto : CreateBookingDto) (now : ℕ)
      (w : Locked r (Db p))
      → Balanced w.state
      → Balanced (final (create_booking_in_lock others user_id dto now w)).state
  unfolding create_booking_in_lock
  create_booking_in_lock-Balanced {r} others user_id dto now w bal =
      let run = amid {r = r} others (create_booking user_id dto now) in
      let key = dto.ticket_category_id in
      elim (Bool-cases (r.exists key (now / 1000) w.keys)) [
        | inl taken ↦
            subst Balanced
              (sym (
                ap (λ (x : Outcome HttpException (Locked r (Db p)) ℕ). (final x).state)
                  (with_lock_held key run lock_ttl (now / 1000) w taken)))
              bal
        | inr free ↦
            subst Balanced
              (sym (
                ap (λ (x : Locked r (Db p)). x.state)
                  (with_lock_free key run lock_ttl (now / 1000) w free)
                ∙ amid-state others (create_booking user_id dto now)
                    (record w { keys = r.set key lock_ttl (now / 1000) w.keys })))
              (create_booking-Balanced user_id dto now w.state bal)
      ]

  expire_loop-Balanced :
      (es : List (ℕ × Booking)) (d : Db p)
      → Distinct es
      → All (Live d) es
      → Balanced d
      → Balanced (final (for_each expire_booking es d))
  unfolding for_each
  expire_loop-Balanced [] d distinct live bal = bal
  expire_loop-Balanced ((id, b) ∷ es) d (fresh, distinct) ((found, holding), live) bal =
      elim (expire_booking_cases id b d found) [
        | inl e ↦
            rw (e, for_each)
              (expire_loop-Balanced es (given_back id b BookingStatus.expired d) distinct
                (given_back-Live id b BookingStatus.expired d es fresh live)
                (given_back-Balanced id b BookingStatus.expired d found holding refl bal))
        | inr e ↦ rw (e, for_each) bal
      ]

  pub overdue-Live :
      (now : ℕ) (d : Db p) (es : List (ℕ × Booking))
      → All (λ e. (p.find_unique e.0 d.booking ≡ some e.1) × (is_overdue now e.1 ≡ true)) es
      → All (Live d) es
  overdue-Live now d [] h = tt
  overdue-Live now d ((k, b) ∷ es) ((found, overdue), h) =
      ((found, ground arith), overdue-Live now d es h)

  -- The expiry of overdue bookings, however far it gets, keeps the balance.
  pub expire_old_bookings-Balanced :
      (now : ℕ) (d : Db p) → Balanced d → Balanced (final (expire_old_bookings now d))
  unfolding expire_old_bookings
  expire_old_bookings-Balanced now d bal =
      let es = p.find_many (is_overdue now) d.booking in
      ground (
        arith,
        expire_loop-Balanced es d (p.find_many-distinct (is_overdue now) d.booking)
            (overdue-Live now d es (p.find_many-sound (is_overdue now) d.booking)) bal,
      )
