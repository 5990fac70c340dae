-- ===== src/Sales.antt =====
-- The sale of places as a whole: the calls of backend/src/bookings/bookings.service.ts, of
-- `confirmPayment` and of Stripe's webhook in backend/src/orders/orders.service.ts, and of
-- `cancelEvent` in backend/src/events/events.service.ts, in any order.
mod Tests
use Prim.Native.String.{String}
use event_now.Prelude.{
  ℕ, ◌+◌, ◌≤◌, ◌≡◌, refl, Bool, true, false, Option, none, some, is_some, ◌&&◌, if◌then◌else◌,
  arith, Option-cases, Bool-cases, inl, inr,
}
use event_now.Prelude.Outcome.{Outcome, ok, err, final}
use event_now.Prisma.{Prisma}
use event_now.Database.{Db, Booking, TicketCategory}
use event_now.Bookings.{
  CreateBookingDto, is_confirmed, create_booking, confirm_booking, cancel_booking,
  expire_old_bookings,
}
use event_now.Bookings.Stock.{
  holds, held, Balanced, create_booking-Balanced, confirm_booking-Balanced, cancel_booking-Balanced,
  expire_old_bookings-Balanced,
}
use event_now.Payment.{Stripe}
use event_now.Events.{cancel_event}
use event_now.Events.Stock.{cancel_event-Balanced}
use event_now.QrCode.{Crypto}
use event_now.Orders.{confirm_payment}
use event_now.Orders.Confirm.Effects.{confirm_payment-Balanced}
use event_now.Orders.Webhook.{StripeEvent, handle_stripe_webhook}
use event_now.Orders.Webhook.Balance.{handle_stripe_webhook-Balanced}

-- One call, from the database that it finds to the one that it leaves, whether it returns or throws.
-- A booking is cancelled while it holds its places: `cancelBooking` itself does not ask for that.
pub data Step {p : Prisma} (crypto : Crypto) (s : Stripe) : Db p → Db p → Type 0 where
  books :
      (user_id : ℕ) (dto : CreateBookingDto) (now : ℕ) (d : Db p)
      → Step crypto s d (final (create_booking user_id dto now d))
  confirms :
      (id user_id now : ℕ) (d : Db p) → Step crypto s d (final (confirm_booking id user_id now d))
  cancels :
      (id user_id : ℕ) (d : Db p)
      → ((b : Booking) → p.find_unique id d.booking ≡ some b → holds b.status ≡ true)
      → Step crypto s d (final (cancel_booking id user_id d))
  expires : (now : ℕ) (d : Db p) → Step crypto s d (final (expire_old_bookings now d))
  pays :
      (booking_id : ℕ) (payment_id : String) (user_id : ℕ) (promo_code_id : Option ℕ) (now : ℕ)
      (d : Db p)
      → Step crypto s d
          (final (confirm_payment crypto booking_id payment_id user_id promo_code_id now d))
  hears :
      (event : Option StripeEvent) (now : ℕ) (d : Db p)
      → Step crypto s d (final (handle_stripe_webhook crypto event now d))
  calls_off :
      (user_id event_id : ℕ) (reason : Option String) (now : ℕ) (d : Db p) (x : s.State)
      → Step crypto s d
          (final
            (cancel_event {s = s} user_id event_id reason now (record { db = d; stripe = x }))).db

-- Any number of calls one after the other.
pub data Run {p : Prisma} (crypto : Crypto) (s : Stripe) : Db p → Db p → Type 0 where
  stop : (d : Db p) → Run crypto s d d
  step : (d d' d'' : Db p) → Step crypto s d d' → Run crypto s d' d'' → Run crypto s d d''

module _ {p : Prisma} (crypto : Crypto) (s : Stripe) where
  Step-Balanced : (d d' : Db p) → Step crypto s d d' → Balanced d → Balanced d'
  Step-Balanced _ _ (books user dto now d) b = create_booking-Balanced user dto now d b
  Step-Balanced _ _ (confirms id user now d) b = confirm_booking-Balanced id user now d b
  Step-Balanced _ _ (cancels id user d live) b = cancel_booking-Balanced id user d live b
  Step-Balanced _ _ (expires now d) b = expire_old_bookings-Balanced now d b
  Step-Balanced _ _ (pays booking payment user promo now d) b =
      confirm_payment-Balanced crypto booking payment user promo now d b
  Step-Balanced _ _ (hears event now d) b = handle_stripe_webhook-Balanced crypto event now d b
  Step-Balanced _ _ (calls_off user event reason now d x) b =
      cancel_event-Balanced {s = s} user event reason now (record { db = d; stripe = x }) b

  -- However bookings, confirmations, expiries, payments, Stripe's events and cancellations of events
  -- follow one another, and cancellations of bookings that hold places, and whichever of them fail:
  -- the places that are left of a category and those that its pending and confirmed bookings hold are
  -- together its initial stock, if they are so at the start.
  pub Run-Balanced : (d d' : Db p) → Run crypto s d d' → Balanced d → Balanced d'
  Run-Balanced _ _ (stop d) b = b
  Run-Balanced _ _ (step d d' d'' c r) b = Run-Balanced d' d'' r (Step-Balanced d d' c b)

  -- So no category is ever sold beyond its initial stock.
  pub Run-held :
      (d d' : Db p) (k : ℕ) (c : TicketCategory)
      → Run crypto s d d'
      → Balanced d
      → p.find_unique k d'.ticket_category ≡ some c
      → held k d' ≤ c.initial_stock
  Run-held d d' k c r b found = omega (arith, Run-Balanced d d' r b k c found)
