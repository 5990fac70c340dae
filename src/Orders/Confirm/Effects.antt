-- ===== src/Orders/Confirm/Effects.antt =====
-- The effect of `confirmPayment` on stock, bookings, orders and tickets
-- (backend/src/orders/orders.service.ts).
use Prim.Native.String.{String}
use event_now.Prelude.{
  ℕ, ◌+◌, ◌≤◌, ◌≡◌, true, false, Option, none, some, arith, ◌==◌, if◌then◌else◌,
}
use event_now.Prelude.Int.{ℤ}
use event_now.Prelude.Outcome.{Outcome, ok, err, final}
use event_now.Prisma.{Prisma}
use event_now.Http.{HttpException}
use event_now.Database.{
  PromoCode, Notification, Db, Booking, BookingStatus, Order, Ticket, TicketCategory, Event,
}
use event_now.Bookings.Stock.{Balanced, held_in}
use event_now.QrCode.{Crypto}
use event_now.Orders.{
  Confirmation, paid_order, confirm_of, attach_order, order_amount, confirm_in_transaction,
  after_confirmation, confirm_payment,
}
use event_now.Orders.Confirm.{
  with_tickets-same, sum-with_tickets, placed, ordered, confirm_in_transaction_cases,
}

-- The same database with other promo codes and notifications.
abbrev pub settled : (p : Prisma) → p.Table PromoCode → p.Table Notification → Db p → Db p
settled p codes notes d = record d { promo_code = codes; notification = notes }

abbrev pub of_order_id : ℕ → Ticket → ℕ
of_order_id order_id t = if t.order_id == order_id then 1 else 0

-- What the first confirmation of a booking finds and leaves behind; `o` is the new order.
pub record IsFirst (p : Prisma) (booking_id : ℕ) (payment_id : String) (user_id : ℕ)
    (promo_code_id : Option ℕ) (now o : ℕ) (d d' : Db p) : Type 0 where
  pub booking : Booking
  pub category : TicketCategory
  pub total : ℤ
  pub found : p.find_unique booking_id d.booking ≡ some booking
  pub found_category : p.find_unique booking.ticket_category_id d.ticket_category ≡ some category
  pub event : Event
  pub found_event : p.find_unique category.event_id d.event ≡ some event
  pub amount : order_amount promo_code_id category.price booking.quantity now d ≡ ok total d
  pub pending : booking.status ≡ BookingStatus.pending
  pub owner : booking.user_id ≡ user_id
  pub in_time : now ≤ booking.expires_at
  pub fresh : p.find_unique o d.order ≡ none
  pub paid : p.find_unique o d'.order ≡ some (paid_order user_id total payment_id)
  pub confirmed : p.find_unique booking_id d'.booking ≡ some (attach_order o (confirm_of booking))
  pub tickets : p.sum (of_order_id o) d'.ticket ≡ p.sum (of_order_id o) d.ticket + booking.quantity
  pub stock : d'.ticket_category ≡ d.ticket_category
  pub events : d'.event ≡ d.event

module _ {p : Prisma} (crypto : Crypto) where
  -- What follows the transaction returns, and touches promo codes and notifications only.
  pub after_confirmation-ok :
      (user_id : ℕ) (promo_code_id : Option ℕ) (r : Confirmation) (d : Db p)
      → after_confirmation crypto user_id promo_code_id r d
        ≡ ok r (
            settled p
              (final (after_confirmation crypto user_id promo_code_id r d)).promo_code
              (final (after_confirmation crypto user_id promo_code_id r d)).notification
              d)
  unfolding after_confirmation
  after_confirmation-ok user_id none r d = ground arith
  after_confirmation-ok user_id (some id) r d = ground arith

  -- `confirmPayment` throws and changes nothing, or answers again for a booking that has its order,
  -- or makes an order of a pending booking.
  pub confirm_payment_cases :
      (C : Outcome HttpException (Db p) Confirmation → Type 0) (booking_id : ℕ)
      (payment_id : String) (user_id : ℕ) (promo_code_id : Option ℕ) (now : ℕ) (d : Db p)
      → ((e : HttpException) → C (err e d))
      → ((b : Booking) (o : ℕ) (order : Order)
          → p.find_unique booking_id d.booking ≡ some b
          → b.user_id ≡ user_id
          → b.status ≡ BookingStatus.confirmed
          → b.order_id ≡ some o
          → p.find_unique o d.order ≡ some order
          → C (ok (record { order_id = o; already_confirmed = true }) d))
      → ((b : Booking) (c : TicketCategory) (ev : Event) (total : ℤ) (codes : p.Table PromoCode)
            (notes : p.Table Notification)
          → p.find_unique booking_id d.booking ≡ some b
          → p.find_unique b.ticket_category_id d.ticket_category ≡ some c
          → p.find_unique c.event_id d.event ≡ some ev
          → b.user_id ≡ user_id
          → b.status ≡ BookingStatus.pending
          → now ≤ b.expires_at
          → order_amount promo_code_id c.price b.quantity now d ≡ ok total d
          → C (
              ok
                (record { order_id = p.new_id d.order; already_confirmed = false })
                (settled p codes notes
                  (ordered crypto booking_id b total payment_id user_id now d))))
      → C (confirm_payment crypto booking_id payment_id user_id promo_code_id now d)
  unfolding confirm_payment
  confirm_payment_cases C booking_id payment_id user_id promo_code_id now d throws again first =
      confirm_in_transaction_cases crypto (λ r. C (followed r)) booking_id payment_id user_id
        promo_code_id now d throws
        (λ b o order found owner done has here.
          unfold after_confirmation in again b o order found owner done has here)
        (λ b c ev total found fc fe owner pending in_time amount.
          rw
            (after_confirmation-ok user_id promo_code_id
              (record { order_id = p.new_id d.order; already_confirmed = false })
              (ordered crypto booking_id b total payment_id user_id now d))
            (first b c ev total _ _ found fc fe owner pending in_time amount))
    where
      followed :
          Outcome HttpException (Db p) Confirmation → Outcome HttpException (Db p) Confirmation
      followed (ok r t) = after_confirmation crypto user_id promo_code_id r t
      followed (err e t) = err e t

  ordered-Balanced :
      (booking_id : ℕ) (b : Booking) (total : ℤ) (payment_id : String) (user_id now : ℕ) (d : Db p)
      → p.find_unique booking_id d.booking ≡ some b
      → b.status ≡ BookingStatus.pending
      → Balanced d
      → Balanced (ordered crypto booking_id b total payment_id user_id now d)
  ordered-Balanced booking_id b total payment_id user_id now d found pending bal k c h = ground (
    arith,
    bal k c,
    with_tickets-same crypto (p.new_id d.order) b.ticket_category_id now b.quantity 0
        (placed booking_id total payment_id user_id d),
    p.find_unique-modify booking_id booking_id confirm_of d.booking,
    p.sum-modify (held_in k) booking_id confirm_of b d.booking,
    p.sum-modify (held_in k) booking_id (attach_order (p.new_id d.order)) (confirm_of b)
        (p.modify booking_id confirm_of d.booking),
  )

  -- Whatever `confirmPayment` answers, stock and holds still balance.
  pub confirm_payment-Balanced :
      (booking_id : ℕ) (payment_id : String) (user_id : ℕ) (promo_code_id : Option ℕ) (now : ℕ)
      (d : Db p)
      → Balanced d
      → Balanced (final (confirm_payment crypto booking_id payment_id user_id promo_code_id now d))
  unfolding confirm_payment
  confirm_payment-Balanced booking_id payment_id user_id promo_code_id now d bal =
      confirm_payment_cases (λ r. Balanced (final r)) booking_id payment_id user_id promo_code_id
        now d (λ e. bal) (λ b o order _ _ _ _ _. bal)
        (λ b c ev total codes notes found _ _ _ pending _ _.
          ordered-Balanced booking_id b total payment_id user_id now d found pending bal)

  ordered-IsFirst :
      (booking_id : ℕ) (b : Booking) (c : TicketCategory) (ev : Event) (total : ℤ)
      (payment_id : String) (user_id : ℕ) (promo_code_id : Option ℕ) (now : ℕ) (d d' : Db p)
      (codes : p.Table PromoCode) (notes : p.Table Notification)
      → p.find_unique booking_id d.booking ≡ some b
      → p.find_unique b.ticket_category_id d.ticket_category ≡ some c
      → p.find_unique c.event_id d.event ≡ some ev
      → b.user_id ≡ user_id
      → b.status ≡ BookingStatus.pending
      → now ≤ b.expires_at
      → order_amount promo_code_id c.price b.quantity now d ≡ ok total d
      → settled p codes notes (ordered crypto booking_id b total payment_id user_id now d) ≡ d'
      → IsFirst p booking_id payment_id user_id promo_code_id now (p.new_id d.order) d d'
  ordered-IsFirst booking_id b c ev total payment_id user_id promo_code_id now d d' codes notes
        found fc fe owner pending in_time amount e =
      let made =
        with_tickets-same crypto (p.new_id d.order) b.ticket_category_id now b.quantity 0
          (placed booking_id total payment_id user_id d) in
      record {
        booking = b;
        category = c;
        total = total;
        found = found;
        found_category = fc;
        event = ev;
        found_event = fe;
        amount = amount;
        pending = pending;
        owner = owner;
        in_time = in_time;
        fresh = p.find_unique-new_id d.order;
        paid = ground (
          arith,
          made,
          p.find_unique-create (p.new_id d.order) (paid_order user_id total payment_id) d.order,
        );
        confirmed = ground (
          arith,
          made,
          p.find_unique-modify booking_id booking_id confirm_of d.booking,
          p.find_unique-modify booking_id booking_id (attach_order (p.new_id d.order))
              (p.modify booking_id confirm_of d.booking),
        );
        tickets = ground (
          arith,
          made,
          sum-with_tickets crypto (of_order_id (p.new_id d.order)) (p.new_id d.order)
              b.ticket_category_id now b.quantity 0 1 (placed booking_id total payment_id user_id d)
              (λ code. ground arith),
        );
        stock = ground (arith, made);
        events = ground (arith, made);
      }

  -- A first success has found a pending booking of the caller in time, and makes a paid order with
  -- the amount due, as many tickets of it as were booked, and a confirmed booking that names the
  -- order; the ticket categories stay as they are.
  pub confirm_payment-IsFirst :
      (booking_id : ℕ) (payment_id : String) (user_id : ℕ) (promo_code_id : Option ℕ) (now : ℕ)
      (o : ℕ) (d d' : Db p)
      → confirm_payment crypto booking_id payment_id user_id promo_code_id now d
        ≡ ok (record { order_id = o; already_confirmed = false }) d'
      → IsFirst p booking_id payment_id user_id promo_code_id now o d d'
  confirm_payment-IsFirst booking_id payment_id user_id promo_code_id now o d d' =
      confirm_payment_cases
        (λ r.
          r ≡ ok (record { order_id = o; already_confirmed = false }) d'
          → IsFirst p booking_id payment_id user_id promo_code_id now o d d')
        booking_id payment_id user_id promo_code_id now d (λ e h. absurd (ground arith))
        (λ b k order _ _ _ _ _ h. absurd (ground arith))
        (λ b c ev total codes notes found fc fe owner pending in_time amount h.
          let same : p.new_id d.order ≡ o = ground arith in
          rw (← same) (
            ordered-IsFirst booking_id b c ev total payment_id user_id promo_code_id now d d' codes
              notes found fc fe owner pending in_time amount (ground arith)))

  again_after :
      (booking_id : ℕ) (payment_id payment_id' : String) (user_id : ℕ)
      (promo_code_id promo_code_id' : Option ℕ) (now now' : ℕ) (o : ℕ) (d d' : Db p)
      → IsFirst p booking_id payment_id user_id promo_code_id now o d d'
      → confirm_in_transaction crypto booking_id payment_id' user_id promo_code_id' now' d'
        ≡ ok (record { order_id = o; already_confirmed = true }) d'
  unfolding confirm_in_transaction
  again_after booking_id payment_id payment_id' user_id promo_code_id promo_code_id' now now' o d d'
        f =
      ground arith

  -- Confirming twice is confirming once: after a first success every further call for the booking
  -- by its owner, with any payment, promo code and time, answers with the same order and changes
  -- nothing.
  pub confirm_payment_idempotent :
      (booking_id : ℕ) (payment_id payment_id' : String) (user_id : ℕ)
      (promo_code_id promo_code_id' : Option ℕ) (now now' : ℕ) (o : ℕ) (d d' : Db p)
      → confirm_payment crypto booking_id payment_id user_id promo_code_id now d
        ≡ ok (record { order_id = o; already_confirmed = false }) d'
      → confirm_payment crypto booking_id payment_id' user_id promo_code_id' now' d'
        ≡ ok (record { order_id = o; already_confirmed = true }) d'
  unfolding confirm_payment after_confirmation
  confirm_payment_idempotent booking_id payment_id payment_id' user_id promo_code_id promo_code_id'
        now now' o d d' h =
      ground (
        arith,
        again_after booking_id payment_id payment_id' user_id promo_code_id promo_code_id' now now'
            o d d'
            (confirm_payment-IsFirst booking_id payment_id user_id promo_code_id now o d d' h),
      )
