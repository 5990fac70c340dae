-- ===== src/Bookings.antt =====
-- backend/src/bookings/bookings.service.ts: the holds on the stock of a ticket category. The time
-- is an argument of each call.
pub mod Calls
mod Tests
pub mod Stock
pub mod Expiry
use event_now.Prelude.{
  ℕ, ◌+◌, ◌-◌, ◌/◌, Bool, true, false, not, Option, none, some, List, [], ◌∷◌, ltb, leb, ◌==◌,
  is_some, length, ◌&&◌, if◌then◌else◌,
}
use event_now.Prelude.Outcome.{
  Outcome, ok, err, transaction, throw_if, or_throw, pure, get, ◌>>=◌, ◌>>◌,
}
use event_now.Prisma.{Prisma}
use event_now.Http.{HttpException, bad_request, not_found}
use event_now.Http
use event_now.Database.{
  Db, Handler, Booking, BookingStatus, TicketCategory, Event, bookings, ticket_categories, events,
  find_or_throw, create, update, update_where, for_each,
}
use event_now.Database
use event_now.Redis.{Redis, Locked, Callback, with_lock}

abbrev pub ten_minutes : ℕ
ten_minutes = 600000

pub record CreateBookingDto : Type 0 where
  pub ticket_category_id : ℕ
  pub quantity : ℕ

-- The default of `ttl`, in seconds.
abbrev pub lock_ttl : ℕ
lock_ttl = 10

abbrev pub is_pending : BookingStatus → Bool
is_pending BookingStatus.pending = true
is_pending _ = false

abbrev pub is_confirmed : BookingStatus → Bool
is_confirmed BookingStatus.confirmed = true
is_confirmed _ = false

-- `!booking || booking.userId !== userId`.
abbrev pub owned_by : ℕ → Option Booking → Option Booking
owned_by user_id none = none
owned_by user_id (some b) = if b.user_id == user_id then some b else none

abbrev pub is_shown : ℕ → Booking → BookingStatus → Bool
is_shown now b BookingStatus.pending = ltb now b.expires_at
is_shown now b BookingStatus.expired = false
is_shown now b _ = true

-- The `where` of `getUserBookings`.
abbrev pub is_listed : ℕ → ℕ → Booking → Bool
is_listed user_id now b = b.user_id == user_id && is_shown now b b.status

-- The `where` of `expireOldBookings`.
abbrev pub is_overdue : ℕ → Booking → Bool
is_overdue now b = is_pending b.status && ltb b.expires_at now

module _ {p : Prisma} where
  -- The transaction of `createBooking`.
  unfoldable pub create_booking : ℕ → CreateBookingDto → ℕ → Handler p ℕ
  create_booking user_id dto now = transaction do
    category ←
        find_or_throw ticket_categories dto.ticket_category_id (not_found Http.category_missing)
    event ← find_or_throw events category.event_id Http.record_not_found
    throw_if (is_some event.cancelled_at) (bad_request Http.event_cancelled)
    throw_if (ltb category.current_stock dto.quantity)
        (bad_request (Http.insufficient_stock category.current_stock dto.quantity))
    update_where ticket_categories dto.ticket_category_id (λ c. leb dto.quantity c.current_stock)
        (λ c. record c { current_stock = c.current_stock - dto.quantity })
    create bookings (record {
      user_id = user_id;
      ticket_category_id = dto.ticket_category_id;
      quantity = dto.quantity;
      status = BookingStatus.pending;
      expires_at = now + ten_minutes;
      order_id = none;
    })

  -- A step on the state alone, during which other calls may do to the locks what they like.
  abbrev pub amid : {r : Redis} {A : Type 0} → (r.Keys → r.Keys) → Handler p A → Callback r (Db p) A
  amid others m w = elim (m w.state) [
    | ok a d ↦ ok a (record { keys = others w.keys; state = d })
    | err e d ↦ err e (record { keys = others w.keys; state = d })
  ]

  -- `createBooking`: the transaction under the lock `booking:category:<id>`.
  pub create_booking_in_lock :
      {r : Redis}
      → (r.Keys → r.Keys)
      → ℕ
      → CreateBookingDto
      → ℕ
      → Locked r (Db p)
      → Outcome HttpException (Locked r (Db p)) ℕ
  create_booking_in_lock others user_id dto now =
      with_lock dto.ticket_category_id (amid others (create_booking user_id dto now)) lock_ttl
        (now / 1000)

  pub confirm_booking : ℕ → ℕ → ℕ → Handler p (Unit {0})
  confirm_booking booking_id user_id now = do
    db ← get
    booking ←
        or_throw (owned_by user_id (p.find_unique booking_id db.booking))
          (not_found Http.booking_missing)
    throw_if (not (is_pending booking.status)) (bad_request Http.booking_processed)
    throw_if (ltb booking.expires_at now) (bad_request Http.booking_expired)
    update bookings booking_id (λ b. record b { status = BookingStatus.confirmed })

  pub cancel_booking : ℕ → ℕ → Handler p (Unit {0})
  cancel_booking booking_id user_id = transaction do
    db ← get
    booking ←
        or_throw (owned_by user_id (p.find_unique booking_id db.booking))
          (not_found Http.booking_missing)
    throw_if (is_confirmed booking.status) (bad_request Http.confirmed_not_cancellable)
    update ticket_categories booking.ticket_category_id
        (λ c. record c { current_stock = c.current_stock + booking.quantity })
    update bookings booking_id (λ b. record b { status = BookingStatus.cancelled })

  pub get_user_bookings : ℕ → ℕ → Handler p (List (ℕ × Booking))
  get_user_bookings user_id now d = ok (p.find_many (is_listed user_id now) d.booking) d

  -- One round of the loop of `expireOldBookings`.
  pub expire_booking : ℕ × Booking → Handler p (Unit {0})
  expire_booking (id, booking) = transaction do
    update ticket_categories booking.ticket_category_id
        (λ c. record c { current_stock = c.current_stock + booking.quantity })
    update bookings id (λ b. record b { status = BookingStatus.expired })

  pub expire_old_bookings : ℕ → Handler p ℕ
  unfolding expire_booking
  expire_old_bookings now = do
    db ← get
    let overdue = p.find_many (is_overdue now) db.booking
    for_each expire_booking overdue
    pure (length overdue)
