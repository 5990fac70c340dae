-- ===== src/Orders.antt =====
-- backend/src/orders/orders.service.ts: from a booking to a paid order with its tickets. Sending
-- mail and socket messages is left out; times are arguments.
pub mod Refunds
pub mod Webhook
pub mod Confirm
mod Tests
use Prim.Native.String.{String}
use event_now.Prelude.{
  ℕ, zero, suc, ◌+◌, ◌*◌, Bool, true, false, not, Option, none, some, List, [], ◌∷◌, ltb, ◌==◌,
  is_id, if◌then◌else◌,
}
use event_now.Prelude.Int.{ℤ, pos, ltbℤ}
use event_now.Prelude.Double.{of_cents, multiply_by}
use event_now.Prelude.Outcome.{
  Outcome, ok, err, final, transaction, throw_if, throw, or_throw, pure, get, ◌>>=◌, ◌>>◌,
}
use event_now.Prisma.{Prisma}
use event_now.Http.{HttpException, bad_request, not_found, unique_violation}
use event_now.Http
use event_now.Database.{
  Db, Handler, Booking, BookingStatus, Order, OrderStatus, Ticket, TicketCategory, Notification,
  NotificationType, bookings, orders, tickets, ticket_categories, events, notifications,
  find_or_throw, create, update,
}
use event_now.Database
use event_now.Bookings.{owned_by, is_pending, is_confirmed}
use event_now.PromoCodes.{validate_promo_code_by_id, apply_promo_code}
use event_now.QrCode.{Crypto, generate_qr_code, same_code}
use event_now.Payment.{Stripe, World, PaymentStart, free, on_db, create_payment_intent}

pub record Confirmation : Type 0 where
  pub order_id : ℕ
  pub already_confirmed : Bool

-- A new ticket, without its code.
abbrev pub ticket_for : ℕ → ℕ → List ℕ → Ticket
ticket_for order_id category_id qr_code = record {
  order_id = order_id;
  ticket_category_id = category_id;
  qr_code = qr_code;
  validated_at = none;
}

abbrev pub has_qr_code : List ℕ → Ticket → Bool
has_qr_code code t = same_code t.qr_code code

abbrev pub paid_order : ℕ → ℤ → String → Order
paid_order user_id total payment_id = record {
  user_id = user_id;
  total_amount = total;
  status = OrderStatus.paid;
  payment_intent_id = some payment_id;
}

abbrev pub confirm_of : Booking → Booking
confirm_of b = record b { status = BookingStatus.confirmed }

abbrev pub attach_order : ℕ → Booking → Booking
attach_order order_id b = record b { order_id = some order_id }

-- `!order || order.userId !== userId`.
abbrev pub own_order : ℕ → Option Order → Option Order
own_order user_id none = none
own_order user_id (some o) = if o.user_id == user_id then some o else none

module _ {p : Prisma} where
  -- `.catch(log)`: an exception is dropped, what was written stays.
  abbrev pub catching : {A : Type 0} → Handler p A → Handler p (Unit {0})
  catching m d = ok tt (final (m d))

  -- The `map` over `Array(booking.quantity)`, from an index on; a code is unique in the table.
  pub create_tickets : Crypto → ℕ → ℕ → ℕ → ℕ → ℕ → Handler p (Unit {0})
  create_tickets crypto order_id category_id now zero index d = ok tt d
  create_tickets crypto order_id category_id now (suc n) index d =
      elim (p.find_first (has_qr_code (generate_qr_code crypto order_id index now)) d.ticket) [
        | some e ↦ err unique_violation d
        | none ↦ create_tickets crypto order_id category_id now n (index + 1) (record d {
          ticket =
              p.create
                (ticket_for order_id category_id (generate_qr_code crypto order_id index now))
                d.ticket;
        })
      ]

  -- The amount of the order: the price times the quantity, of which a product of doubles is stored
  -- rounded to cents, or what the promo code leaves of it.
  pub order_amount : Option ℕ → ℕ → ℕ → ℕ → Handler p ℤ
  unfolding validate_promo_code_by_id
  order_amount none price quantity now = pure (pos (price * quantity))
  order_amount (some promo_code_id) price quantity now = do
    v ← validate_promo_code_by_id promo_code_id (multiply_by (of_cents (pos price)) quantity) now
    pure v.amounts.final_amount

  -- A booking that is no longer pending: its order, if it was confirmed with one.
  pub replay : Bool → Option ℕ → Handler p Confirmation
  replay false o = throw (bad_request Http.booking_processed)
  replay true none = throw (bad_request Http.booking_processed)
  replay true (some id) = do
    order ← find_or_throw orders id (not_found Http.order_missing)
    pure (record { order_id = id; already_confirmed = true })

  module _ (crypto : Crypto) where
    pub confirm_pending : ℕ → Booking → ℕ → String → ℕ → Option ℕ → ℕ → Handler p Confirmation
    unfolding create_tickets order_amount
    confirm_pending booking_id booking price payment_id user_id promo_code_id now = do
      throw_if (ltb booking.expires_at now) (bad_request Http.booking_expired)
      total ← order_amount promo_code_id price booking.quantity now
      update bookings booking_id confirm_of
      order_id ← create orders (paid_order user_id total payment_id)
      update bookings booking_id (attach_order order_id)
      create_tickets crypto order_id booking.ticket_category_id now booking.quantity 0
      pure (record { order_id = order_id; already_confirmed = false })

    -- The transaction of `confirmPayment`.
    pub confirm_in_transaction : ℕ → String → ℕ → Option ℕ → ℕ → Handler p Confirmation
    unfolding replay confirm_pending
    confirm_in_transaction booking_id payment_id user_id promo_code_id now = transaction do
      db ← get
      booking ←
          or_throw (owned_by user_id (p.find_unique booking_id db.booking))
            (not_found Http.booking_missing)
      category ← find_or_throw ticket_categories booking.ticket_category_id Http.record_not_found
      event ← find_or_throw events category.event_id Http.record_not_found
      if is_pending booking.status
          then confirm_pending booking_id booking category.price payment_id user_id promo_code_id
              now
          else replay (is_confirmed booking.status) booking.order_id

    count_use : Option ℕ → Handler p (Unit {0})
    unfolding apply_promo_code
    count_use none d = ok tt d
    count_use (some id) d = catching (apply_promo_code id) d

    -- What follows the transaction.
    pub after_confirmation : ℕ → Option ℕ → Confirmation → Handler p Confirmation
    unfolding count_use
    after_confirmation user_id promo_code_id result =
        if result.already_confirmed then pure result else do
          count_use promo_code_id
          _ ← create notifications (record {
            user_id = user_id;
            type = NotificationType.order_confirmed;
            related_id = some result.order_id;
            read = false;
          })
          pure result

    pub confirm_payment : ℕ → String → ℕ → Option ℕ → ℕ → Handler p Confirmation
    confirm_payment booking_id payment_id user_id promo_code_id now = do
      result ← confirm_in_transaction booking_id payment_id user_id promo_code_id now
      after_confirmation user_id promo_code_id result

    module _ {s : Stripe} where
      pub initiate_payment :
          ℕ → ℕ → Option ℕ → ℕ → World p s → Outcome HttpException (World p s) PaymentStart
      unfolding confirm_payment create_payment_intent order_amount
      initiate_payment booking_id user_id promo_code_id now = do
        w ← get
        booking ←
            or_throw (owned_by user_id (p.find_unique booking_id w.db.booking))
              (not_found Http.booking_missing)
        category ←
            or_throw (p.find_unique booking.ticket_category_id w.db.ticket_category)
              Http.record_not_found
        amount ← on_db (order_amount promo_code_id category.price booking.quantity now)
        if ltbℤ amount (pos 50)
            then (do
              c ← on_db (confirm_payment booking_id "FREE_ORDER" user_id promo_code_id now)
              pure (free c.order_id amount))
            else create_payment_intent booking_id user_id (some amount) now

  pub get_user_orders : ℕ → Handler p (List (ℕ × Order))
  get_user_orders user_id d = ok (p.find_many (λ o. o.user_id == user_id) d.order) d

  pub get_order_by_id : ℕ → ℕ → Handler p Order
  get_order_by_id order_id user_id = do
    db ← get
    or_throw (own_order user_id (p.find_unique order_id db.order)) (not_found Http.order_missing)
