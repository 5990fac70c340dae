-- ===== src/Events.antt =====
-- backend/src/events/events.service.ts: an event is made, suspended or cancelled by its organizer.
-- The searches, `update`, `remove`, mail and the columns for display are left out. One call reads
-- one time.
pub mod Cancel
pub mod Closed
pub mod Creation
pub mod Stock
mod Tests
use Prim.Native.String.{String}
use event_now.Prelude.{
  ℕ, ◌+◌, Bool, true, false, not, ◌&&◌, ◌||◌, Option, none, some, List, [], ◌∷◌, ◌++◌, leb, ◌==◌,
  is_some, if◌then◌else◌, map, length, any, total, filterb, distinct_ids,
}
use event_now.Prelude.Outcome.{
  Outcome, ok, err, transaction, throw_if, throw, or_throw, pure, get, ◌>>=◌, ◌>>◌,
}
use event_now.Prisma.{Prisma}
use event_now.Http.{HttpException, bad_request, not_found, forbidden}
use event_now.Http
use event_now.Database.{
  Db, Handler, Event, EventType, EventStatus, Role, TicketCategory, Order, OrderStatus, Ticket,
  Booking, BookingStatus, NotificationType, ParticipationRequest, StaffInvitation, events,
  ticket_categories, orders, tickets, bookings, find_or_throw, create, update, update_many,
  for_each,
}
use event_now.Database
use event_now.Bookings.{is_pending}
use event_now.Participants.{is_community, is_accepted, is_request_of}
use event_now.Notifications.{create_for_many_users, delete_by_type_and_related_ids}
use event_now.Follows.{has, get_follower_ids, get_friend_ids}
use event_now.Payment.{Stripe, World, Refund, on_db, refund_payment}
use event_now.Orders.Refunds.{is_paid, is_refund_requested, set_status, tickets_of, non_empty}

pub record CreateTicketCategoryDto : Type 0 where
  pub name : String
  pub price : ℕ
  pub initial_stock : ℕ

pub record CreateEventDto : Type 0 where
  pub title : String
  pub event_date : ℕ
  pub end_date : Option ℕ
  pub type : Option EventType
  pub categories : List CreateTicketCategoryDto

-- What became of the refund of one order.
pub record RefundResult : Type 0 where
  pub order_id : ℕ
  pub user_id : ℕ
  pub success : Bool
  pub refund_amount : ℕ

-- The answer of `cancelEvent`.
pub record Cancellation : Type 0 where
  pub cancelled_orders : ℕ
  pub failed_refunds : ℕ
  pub total_refunded : ℕ
  pub notified_users : ℕ
  pub failed_order_ids : List ℕ

abbrev pub is_user : Option Role → Bool
is_user (some Role.user) = true
is_user _ = false

-- `requestedType`.
abbrev pub requested_type : Option EventType → EventType
requested_type (some EventType.community) = EventType.community
requested_type _ = EventType.professional

-- `endDate && endDate <= eventDate`.
abbrev pub ends_before : Option ℕ → ℕ → Bool
ends_before none event_date = false
ends_before (some end_date) event_date = leb end_date event_date

abbrev pub new_event : ℕ → CreateEventDto → Event
new_event user_id dto = record {
  title = dto.title;
  organizer_id = user_id;
  event_date = dto.event_date;
  end_date = dto.end_date;
  cancelled_at = none;
  cancel_reason = none;
  type = requested_type dto.type;
  status = EventStatus.active;
}

abbrev pub new_category : ℕ → CreateTicketCategoryDto → TicketCategory
new_category event_id dto = record {
  event_id = event_id;
  name = dto.name;
  price = dto.price;
  initial_stock = dto.initial_stock;
  current_stock = dto.initial_stock;
}

-- `newStatus` of `suspendEvent`.
abbrev pub toggled : EventStatus → EventStatus
toggled EventStatus.suspended = EventStatus.active
toggled EventStatus.active = EventStatus.suspended

abbrev pub is_refundable : OrderStatus → Bool
is_refundable s = is_paid s || is_refund_requested s

abbrev pub refunded_ids : List RefundResult → List ℕ
refunded_ids rs = map (λ (r : RefundResult). r.order_id) (filterb (λ r. r.success) rs)

abbrev pub failed_ids : List RefundResult → List ℕ
failed_ids rs = map (λ (r : RefundResult). r.order_id) (filterb (λ r. not r.success) rs)

abbrev pub answer_of : List RefundResult → List ℕ → Cancellation
answer_of results told = record {
  cancelled_orders = length (refunded_ids results);
  failed_refunds = length (failed_ids results);
  total_refunded = total (λ r. if r.success then r.refund_amount else 0) results;
  notified_users = length told;
  failed_order_ids = failed_ids results;
}

abbrev pub unvalidated : Ticket → Ticket
unvalidated t = record t { validated_at = none }

abbrev pub cancelled_on : ℕ → Option String → Event → Event
cancelled_on now reason e = record e { cancelled_at = some now; cancel_reason = reason }

module _ {p : Prisma} where
  pub notify_all : List ℕ → NotificationType → ℕ → Handler p (Unit {0})
  unfolding create_for_many_users
  notify_all ids type event_id =
      if length ids == 0 then pure tt else create_for_many_users ids type (some event_id)

  -- Who may see the address of an event; `none` is a visitor without an account.
  pub can_see_address : ℕ → Event → Option ℕ → Db p → Bool
  can_see_address event_id event none d = not (is_community event.type)
  can_see_address event_id event (some user_id) d =
      not (is_community event.type)
      || user_id == event.organizer_id
      || is_some (
          p.find_first (λ r. is_request_of event_id user_id r && is_accepted r.status)
            d.participation_request)

  pub suspend_event : ℕ → Handler p (Unit {0})
  suspend_event event_id = do
    event ← find_or_throw events event_id (not_found Http.event_missing)
    update events event_id (λ e. record e { status = toggled event.status })

  -- `ticketCategory: { eventId }`.
  abbrev pub is_category_of : ℕ → Db p → ℕ → Bool
  is_category_of event_id d category_id = elim (p.find_unique category_id d.ticket_category) [
    | none ↦ false
    | some c ↦ c.event_id == event_id
  ]

  abbrev pub confirmed_orders : ℕ → Db p → List (ℕ × Order)
  confirmed_orders event_id d =
      filterb
        (λ (o : ℕ × Order).
          any (λ (t : ℕ × Ticket). is_category_of event_id d t.1.ticket_category_id)
            (tickets_of o.0 d))
        (p.find_many (λ o. is_refundable o.status) d.order)

  -- One round of the loop over the refunds that went through.
  pub settle_order : ℕ → Handler p (Unit {0})
  settle_order order_id = do
    update orders order_id (set_status OrderStatus.refunded)
    update_many tickets (λ t. t.order_id == order_id) unvalidated

  abbrev pub pending_bookings : ℕ → Db p → List (ℕ × Booking)
  pending_bookings event_id d =
      p.find_many (λ b. is_pending b.status && is_category_of event_id d b.ticket_category_id)
        d.booking

  -- One round of the loop over the pending bookings.
  pub release_booking : ℕ × Booking → Handler p (Unit {0})
  release_booking (id, booking) = do
    update bookings id (λ b. record b { status = BookingStatus.cancelled })
    update ticket_categories booking.ticket_category_id
        (λ c. record c { current_stock = c.current_stock + booking.quantity })

  pub release_bookings : ℕ → Handler p (Unit {0})
  unfolding for_each release_booking
  release_bookings event_id d = for_each release_booking (pending_bookings event_id d) d

  -- The transaction of `cancelEvent`.
  pub close_event : ℕ → List ℕ → ℕ → Option String → Handler p (Unit {0})
  unfolding for_each settle_order release_bookings
  close_event event_id refunded now reason = transaction do
    for_each settle_order refunded
    release_bookings event_id
    update events event_id (cancelled_on now reason)

  -- The buyers, then the accepted participants, each once.
  abbrev pub affected_users : ℕ → List (ℕ × Order) → Db p → List ℕ
  affected_users event_id confirmed d = distinct_ids (
      map (λ (o : ℕ × Order). o.1.user_id) confirmed
      ++ map (λ (r : ℕ × ParticipationRequest). r.1.user_id)
          (p.find_many (λ r. r.event_id == event_id && is_accepted r.status)
            d.participation_request))

  -- The notifications of the invitations to the staff of the event.
  pub forget_invitations : ℕ → Handler p (Unit {0})
  unfolding delete_by_type_and_related_ids
  forget_invitations event_id = do
    db ← get
    let tokens =
        map (λ (i : ℕ × StaffInvitation). i.1.token)
          (p.find_many (λ i. i.event_id == event_id) db.social.staff_invitation)
    if length tokens == 0 then pure tt else (do
      _ ← delete_by_type_and_related_ids NotificationType.staff_invitation tokens
      pure tt)

  -- What follows the transaction; it returns the users who are told.
  pub after_closing : ℕ → List (ℕ × Order) → Handler p (List ℕ)
  unfolding notify_all forget_invitations
  after_closing event_id confirmed = do
    db ← get
    notify_all (affected_users event_id confirmed db) NotificationType.event_cancelled event_id
    forget_invitations event_id
    pure (affected_users event_id confirmed db)

  -- The checks of `cancelEvent`.
  pub check_cancellable : ℕ → ℕ → ℕ → Handler p (Unit {0})
  check_cancellable user_id event_id now = do
    event ← find_or_throw events event_id (not_found Http.event_missing)
    throw_if (not (event.organizer_id == user_id)) (forbidden Http.not_event_owner)
    throw_if (is_some event.cancelled_at) (bad_request Http.event_already_cancelled)
    throw_if (leb event.event_date now) (bad_request Http.event_started)

  module _ {s : Stripe} where
    -- The `try` and the `catch` around `refundPayment`: a refund that fails is noted.
    abbrev pub noted :
        ℕ
        → Order
        → Outcome HttpException (World p s) Refund
        → Outcome HttpException (World p s) RefundResult
    noted id o (ok r w) =
        ok (record { order_id = id; user_id = o.user_id; success = true; refund_amount = r.amount })
          w
    noted id o (err e w) =
        ok (record { order_id = id; user_id = o.user_id; success = false; refund_amount = 0 }) w

    -- An order without a payment has nothing to give back.
    pub refund_order : ℕ × Order → World p s → Outcome HttpException (World p s) RefundResult
    unfolding refund_payment
    refund_order (id, o) w = elim (non_empty o.payment_intent_id) [
      | none ↦
          ok (record { order_id = id; user_id = o.user_id; success = true; refund_amount = 0 }) w
      | some intent ↦ noted id o (refund_payment intent none w)
    ]

    -- The calls of `Promise.all`, one after the other.
    pub refund_orders :
        List (ℕ × Order) → World p s → Outcome HttpException (World p s) (List RefundResult)
    unfolding refund_order
    refund_orders [] = pure []
    refund_orders (o ∷ os) = do r ← refund_order o; rs ← refund_orders os; pure (r ∷ rs)

    pub cancel_event :
        ℕ → ℕ → Option String → ℕ → World p s → Outcome HttpException (World p s) Cancellation
    unfolding check_cancellable refund_orders close_event after_closing
    cancel_event user_id event_id reason now = do
      w ← get
      on_db (check_cancellable user_id event_id now)
      results ← refund_orders (confirmed_orders event_id w.db)
      on_db (close_event event_id (refunded_ids results) now reason)
      told ← on_db (after_closing event_id (confirmed_orders event_id w.db))
      pure (answer_of results told)
