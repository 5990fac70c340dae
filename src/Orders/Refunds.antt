-- ===== src/Orders/Refunds.antt =====
-- backend/src/orders/orders.service.ts: a buyer asks for a refund, the organizer of the event
-- approves or rejects it.
pub mod Lifecycle
mod Tests
use Prim.Native.String.{String}
use text.Mathlib.Text.{◌==◌ as str_eq}
use event_now.Prelude.{
  ℕ, zero, suc, ◌+◌, Bool, true, false, not, ◌&&◌, Option, none, some, List, [], ◌∷◌, ltb, ◌==◌,
  is_id, is_some, if◌then◌else◌, length, any, filterb,
}
use event_now.Prelude.Outcome.{
  Outcome, ok, err, transaction, throw_if, throw, or_throw, pure, get, ◌>>=◌, ◌>>◌,
}
use event_now.Prisma.{Prisma}
use event_now.Http.{HttpException, bad_request, not_found}
use event_now.Http
use event_now.Database.{
  Db, Handler, Booking, BookingStatus, Order, OrderStatus, Ticket, Event, Notification,
  NotificationType, bookings, orders, tickets, ticket_categories, events, notifications,
  find_or_throw, create, update, update_many,
}
use event_now.Bookings.{is_confirmed}
use event_now.Payment.{Stripe, World, Refund, on_db, refund_payment}
use event_now.Orders.{own_order}

abbrev pub is_paid : OrderStatus → Bool
is_paid OrderStatus.paid = true
is_paid _ = false

abbrev pub is_refund_requested : OrderStatus → Bool
is_refund_requested OrderStatus.refund_requested = true
is_refund_requested _ = false

abbrev pub set_status : OrderStatus → Order → Order
set_status s o = record o { status = s }

abbrev pub cancel_of : Booking → Booking
cancel_of b = record b { status = BookingStatus.cancelled }

abbrev pub of_order : ℕ → Booking → Bool
of_order order_id b = is_id b.order_id order_id

-- The confirmed booking of an order from before bookings named their order.
abbrev pub is_legacy : ℕ → ℕ → ℕ → Booking → Bool
is_legacy user_id category_id quantity b =
    not (is_some b.order_id)
    && b.user_id == user_id
    && b.ticket_category_id == category_id
    && b.quantity == quantity
    && is_confirmed b.status

-- The event of an order that waits for a refund, if the caller organizes it.
abbrev pub organized_by : ℕ → Option Event → Option Event
organized_by organizer_id none = none
organized_by organizer_id (some e) = if e.organizer_id == organizer_id then some e else none

-- `!order.paymentIntentId` also refuses the empty text.
abbrev pub non_empty : Option String → Option String
non_empty none = none
non_empty (some id) = if str_eq id "" then none else some id

module _ {p : Prisma} where
  -- The tickets of an order.
  abbrev pub tickets_of : ℕ → Db p → List (ℕ × Ticket)
  tickets_of order_id d = p.find_many (λ t. t.order_id == order_id) d.ticket

  -- `order.tickets[0]?.ticketCategory?.event`.
  abbrev pub event_of_category : ℕ → Db p → Option Event
  event_of_category category_id d = elim (p.find_unique category_id d.ticket_category) [
    | none ↦ none
    | some c ↦ p.find_unique c.event_id d.event
  ]

  abbrev pub event_of_tickets : List (ℕ × Ticket) → Db p → Option Event
  event_of_tickets [] d = none
  event_of_tickets ((id, t) ∷ ts) d = event_of_category t.ticket_category_id d

  unfoldable pub notify : ℕ → NotificationType → ℕ → Handler p (Unit {0})
  notify user_id type order_id = do
    _ ←
        create notifications
          (record { user_id = user_id; type = type; related_id = some order_id; read = false })
    pure tt

  unfoldable pub cancel_found : Option (ℕ × Booking) → Handler p (Unit {0})
  cancel_found none = pure tt
  cancel_found (some (id, b)) = update bookings id cancel_of

  unfoldable pub cancel_legacy_booking : ℕ → List (ℕ × Ticket) → Handler p (Unit {0})
  unfolding cancel_found
  cancel_legacy_booking user_id [] = pure tt
  cancel_legacy_booking user_id ((id, t) ∷ ts) = do
    db ← get
    cancel_found
        (p.find_first (is_legacy user_id t.ticket_category_id (length ((id, t) ∷ ts))) db.booking)

  unfoldable pub notify_organizer : Option Event → ℕ → Handler p (Unit {0})
  unfolding notify
  notify_organizer none order_id = pure tt
  notify_organizer (some e) order_id =
      notify e.organizer_id NotificationType.refund_requested order_id

  unfoldable pub request_refund : ℕ → ℕ → Handler p (Unit {0})
  request_refund order_id user_id = do
    db ← get
    order ←
        or_throw (own_order user_id (p.find_unique order_id db.order))
          (not_found Http.order_missing)
    throw_if (not (is_paid order.status)) (bad_request Http.only_paid_refundable)
    let order_tickets = tickets_of order_id db
    let count = p.sum (λ b. if of_order order_id b then 1 else 0) db.booking
    update_many bookings (of_order order_id) cancel_of
    if count == 0 then cancel_legacy_booking order.user_id order_tickets else pure tt
    update orders order_id (set_status OrderStatus.refund_requested)
    notify_organizer (event_of_tickets order_tickets db) order_id

  -- `some` over the tickets: one of them is for an event of the organizer.
  pub has_event_of : ℕ → List (ℕ × Ticket) → Db p → Bool
  has_event_of organizer_id ts d =
      any (λ e. is_some (organized_by organizer_id (event_of_category e.1.ticket_category_id d))) ts

  pub get_refund_requests : ℕ → Handler p (List (ℕ × Order))
  unfolding has_event_of
  get_refund_requests organizer_id d =
      ok
        (filterb (λ e. has_event_of organizer_id (tickets_of e.0 d) d)
          (p.find_many (λ o. is_refund_requested o.status) d.order))
        d

  -- The transaction of `approveRefund`. Without tickets `order.tickets[0]` throws; the caller has
  -- ruled that out.
  pub settle_refund : ℕ → Order → List (ℕ × Ticket) → Handler p (Unit {0})
  unfolding notify
  settle_refund order_id order [] = throw Http.record_not_found
  settle_refund order_id order ((id, t) ∷ ts) = transaction do
    update ticket_categories t.ticket_category_id
        (λ c. record c { current_stock = c.current_stock + length ((id, t) ∷ ts) })
    update_many bookings (of_order order_id) cancel_of
    update orders order_id (set_status OrderStatus.refunded)
    notify order.user_id NotificationType.refund_approved order_id

  -- The transaction of `rejectRefund`.
  pub reopen_order : ℕ → Order → Handler p (Unit {0})
  unfolding notify
  reopen_order order_id order = transaction do
    update orders order_id (set_status OrderStatus.paid)
    notify order.user_id NotificationType.refund_rejected order_id

  pub reject_refund : ℕ → ℕ → Handler p (Unit {0})
  unfolding reopen_order
  reject_refund order_id organizer_id = do
    order ← find_or_throw orders order_id (not_found Http.order_missing)
    throw_if (not (is_refund_requested order.status)) (bad_request Http.order_not_requested)
    db ← get
    event ←
        or_throw (organized_by organizer_id (event_of_tickets (tickets_of order_id db) db))
          (not_found Http.order_not_authorized)
    reopen_order order_id order

  module _ {s : Stripe} where
    -- The `catch` around `refundPayment`.
    pub refund_or_throw : String → World p s → Outcome HttpException (World p s) Refund
    unfolding refund_payment
    refund_or_throw id w = elim (refund_payment id none w) [
      | ok r w' ↦ ok r w'
      | err e w' ↦ err (bad_request (Http.stripe_refund_failed (Http.message_of e))) w'
    ]

    pub approve_refund : ℕ → ℕ → World p s → Outcome HttpException (World p s) (Unit {0})
    unfolding refund_or_throw
    approve_refund order_id organizer_id = do
      w ← get
      order ← or_throw (p.find_unique order_id w.db.order) (not_found Http.order_missing)
      throw_if (not (is_refund_requested order.status)) (bad_request Http.order_not_requested)
      let order_tickets = tickets_of order_id w.db
      event ←
          or_throw (organized_by organizer_id (event_of_tickets order_tickets w.db))
            (not_found Http.order_not_authorized)
      payment_id ← or_throw (non_empty order.payment_intent_id) (bad_request Http.no_payment_id)
      _ ← refund_or_throw payment_id
      on_db (settle_refund order_id order order_tickets)
