-- ===== src/Bookings/Calls.antt =====
-- What each call of backend/src/bookings/bookings.service.ts does to the database.
use event_now.Prelude.{
  ℕ, ◌+◌, ◌-◌, ◌≤◌, ◌≡◌, false, none, some, arith, Option-cases, inl, inr, ◌⊎◌, ◌↔◌,
}
use event_now.Prelude.Outcome.{ok, err, final}
use event_now.Prisma.{Prisma}
use event_now.Http.{HttpException, record_not_found}
use event_now.Database.{Event, Db, Booking, BookingStatus, TicketCategory}
use event_now.Bookings.{
  CreateBookingDto, create_booking, confirm_booking, cancel_booking, expire_booking, ten_minutes,
  is_confirmed,
}

abbrev pub new_booking : ℕ → CreateBookingDto → ℕ → Booking
new_booking user_id dto now = record {
  user_id = user_id;
  ticket_category_id = dto.ticket_category_id;
  quantity = dto.quantity;
  status = BookingStatus.pending;
  expires_at = now + ten_minutes;
  order_id = none;
}

module _ {p : Prisma} where
  -- The state after a booking is made.
  abbrev pub booked : ℕ → CreateBookingDto → ℕ → Db p → Db p
  booked user_id dto now d = record d {
    ticket_category =
        p.modify dto.ticket_category_id
          (λ c. record c { current_stock = c.current_stock - dto.quantity }) d.ticket_category;
    booking = p.create (new_booking user_id dto now) d.booking;
  }

  pub create_booking_cases :
      (P : Db p → Type 0) (user_id : ℕ) (dto : CreateBookingDto) (now : ℕ) (d : Db p)
      → P d
      → ((c : TicketCategory)
          → p.find_unique dto.ticket_category_id d.ticket_category ≡ some c
          → dto.quantity ≤ c.current_stock
          → P (booked user_id dto now d))
      → P (final (create_booking user_id dto now d))
  unfolding create_booking
  create_booking_cases P user_id dto now d kept done =
      elim (Option-cases (p.find_unique dto.ticket_category_id d.ticket_category)) [
        | inl e ↦ ground arith
        | inr (c, e) ↦ ground (arith, done c)
      ]

  pub confirm_booking_cases :
      (P : Db p → Type 0) (id user_id now : ℕ) (d : Db p)
      → P d
      → ((b : Booking)
          → p.find_unique id d.booking ≡ some b
          → b.user_id ≡ user_id
          → b.status ≡ BookingStatus.pending
          → now ≤ b.expires_at
          → P (record d {
            booking = p.modify id (λ b. record b { status = BookingStatus.confirmed }) d.booking;
          }))
      → P (final (confirm_booking id user_id now d))
  unfolding confirm_booking
  confirm_booking_cases P id user_id now d kept done =
      elim (Option-cases (p.find_unique id d.booking)) [
        | inl e ↦ ground arith
        | inr (b, e) ↦ ground (arith, done b)
      ]

  -- A booking's quantity goes back to the stock, and the booking ends with the status `s`.
  abbrev pub given_back : ℕ → Booking → BookingStatus → Db p → Db p
  given_back id b s d = record d {
    ticket_category =
        p.modify b.ticket_category_id
          (λ c. record c { current_stock = c.current_stock + b.quantity }) d.ticket_category;
    booking = p.modify id (λ b. record b { status = s }) d.booking;
  }

  pub cancel_booking_cases :
      (P : Db p → Type 0) (id user_id : ℕ) (d : Db p)
      → P d
      → ((b : Booking)
          → p.find_unique id d.booking ≡ some b
          → b.user_id ≡ user_id
          → is_confirmed b.status ≡ false
          → P (given_back id b BookingStatus.cancelled d))
      → P (final (cancel_booking id user_id d))
  unfolding cancel_booking
  cancel_booking_cases P id user_id d kept done = elim (Option-cases (p.find_unique id d.booking)) [
    | inl e ↦ ground arith
    | inr (b, e) ↦ ground (arith, done b)
  ]

  pub cancel_booking-ok :
      (id user_id : ℕ) (b : Booking) (c : TicketCategory) (d : Db p)
      → p.find_unique id d.booking ≡ some b
      → b.user_id ≡ user_id
      → is_confirmed b.status ≡ false
      → p.find_unique b.ticket_category_id d.ticket_category ≡ some c
      → cancel_booking id user_id d ≡ ok tt (given_back id b BookingStatus.cancelled d)
  unfolding cancel_booking
  cancel_booking-ok id user_id b c d found owner alive category = ground arith

  -- A round of the expiry either gives the quantity back or stops with an exception.
  pub expire_booking_cases :
      (id : ℕ) (b : Booking) (d : Db p)
      → p.find_unique id d.booking ≡ some b
      → (expire_booking (id, b) d ≡ ok tt (given_back id b BookingStatus.expired d))
        ⊎ (expire_booking (id, b) d ≡ err record_not_found d)
  unfolding expire_booking
  expire_booking_cases id b d found =
      elim (Option-cases (p.find_unique b.ticket_category_id d.ticket_category)) [
        | inl e ↦ inr (ground arith)
        | inr (c, e) ↦ inl (ground arith)
      ]

  -- `createBooking` returns exactly when the category and its event are there, the event is not
  -- cancelled and the stock suffices; it then returns the key of the new booking in the state
  -- `booked`.
  pub create_booking_ok_iff :
      (user_id : ℕ) (dto : CreateBookingDto) (now id : ℕ) (d d' : Db p)
      → (create_booking user_id dto now d ≡ ok id d') ↔ (
          (c : TicketCategory) × (e : Event) × (p.find_unique dto.ticket_category_id
              d.ticket_category
            ≡ some c)
          × (p.find_unique c.event_id d.event ≡ some e)
          × (e.cancelled_at ≡ none)
          × (dto.quantity ≤ c.current_stock)
          × (id ≡ p.new_id d.booking)
          × (d' ≡ booked user_id dto now d))
  unfolding create_booking
  create_booking_ok_iff user_id dto now id d d' =
      (forward, λ (c, e, fc, fe, active, enough, same, state). ground arith)
    where
      forward :
          create_booking user_id dto now d ≡ ok id d'
          → (c : TicketCategory) × (e : Event) × (p.find_unique dto.ticket_category_id
                d.ticket_category
              ≡ some c)
            × (p.find_unique c.event_id d.event ≡ some e)
            × (e.cancelled_at ≡ none)
            × (dto.quantity ≤ c.current_stock)
            × (id ≡ p.new_id d.booking)
            × (d' ≡ booked user_id dto now d)
      forward h = elim (Option-cases (p.find_unique dto.ticket_category_id d.ticket_category)) [
        | inl fc ↦ absurd (ground arith)
        | inr (c, fc) ↦ elim (Option-cases (p.find_unique c.event_id d.event)) [
          | inl fe ↦ absurd (ground arith)
          | inr (e, fe) ↦ (c, e, fc, fe, ground arith, ground arith, ground arith, ground arith)
        ]
      ]

  -- Whatever makes `createBooking` throw, the database is as before.
  pub create_booking-err :
      (user_id : ℕ) (dto : CreateBookingDto) (now : ℕ) (d d' : Db p) {e : HttpException}
      → create_booking user_id dto now d ≡ err e d'
      → d' ≡ d
  unfolding create_booking
  create_booking-err user_id dto now d d' h = ground arith

  -- `confirmBooking` returns exactly for the owner of a pending booking that is in time, and then
  -- only changes the status of the booking.
  pub confirm_booking_ok_iff :
      (id user_id now : ℕ) (d d' : Db p)
      → (confirm_booking id user_id now d ≡ ok tt d') ↔ (
          (b : Booking) × (p.find_unique id d.booking ≡ some b)
          × (b.user_id ≡ user_id)
          × (b.status ≡ BookingStatus.pending)
          × (now ≤ b.expires_at)
          × (d' ≡ record d {
            booking = p.modify id (λ b. record b { status = BookingStatus.confirmed }) d.booking;
          }))
  unfolding confirm_booking
  confirm_booking_ok_iff id user_id now d d' =
      (forward, λ (b, found, owner, pending, in_time, state). ground arith)
    where
      forward :
          confirm_booking id user_id now d ≡ ok tt d'
          → (b : Booking) × (p.find_unique id d.booking ≡ some b)
            × (b.user_id ≡ user_id)
            × (b.status ≡ BookingStatus.pending)
            × (now ≤ b.expires_at)
            × (d' ≡ record d {
              booking = p.modify id (λ b. record b { status = BookingStatus.confirmed }) d.booking;
            })
      forward h = elim (Option-cases (p.find_unique id d.booking)) [
        | inl e ↦ absurd (ground arith)
        | inr (b, e) ↦ (b, e, ground arith, ground arith, ground arith, ground arith)
      ]
