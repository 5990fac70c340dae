-- ===== src/Orders/Refunds/Lifecycle.antt =====
-- The states of an order under refunds, and the stock that they move
-- (backend/src/orders/orders.service.ts).
pub mod Request
pub mod Double
pub mod States
use Prim.Native.String.{String}
use event_now.Prelude.{
  ℕ, ◌+◌, ◌≤◌, ◌<◌, ◌≡◌, ◌≢◌, ◌⊎◌, refl, Bool, true, false, Option, none, some, List, [], ◌∷◌,
  arith, ◌==◌, if◌then◌else◌, Option-cases, Bool-cases, inl, inr, length,
}
use event_now.Prelude.Outcome.{Outcome, ok, err, final, ◌>>=◌}
use event_now.Prisma.{Prisma}
use event_now.Http.{HttpException, bad_request}
use event_now.Http
use event_now.Database.{
  Db, Booking, Order, OrderStatus, Ticket, Event, Notification, NotificationType, TicketCategory,
}
use event_now.Payment.{Stripe, World, Refund, refund_payment, on_db}
use event_now.Payment.Refunds.{refund_payment_result, IsRefundable}
use event_now.Orders.Refunds.{
  is_refund_requested, set_status, cancel_of, of_order, tickets_of, event_of_category,
  event_of_tickets, organized_by, non_empty, notify, settle_refund, reopen_order, reject_refund,
  refund_or_throw, approve_refund,
}

module _ {p : Prisma} where
  abbrev pub with_notice : ℕ → NotificationType → ℕ → Db p → Db p
  with_notice user_id type order_id d = record d {
    notification =
        p.create
          (record { user_id = user_id; type = type; related_id = some order_id; read = false })
          d.notification;
  }

  -- The database after a refund is approved: the tickets of the order go back to the category of
  -- the first of them.
  abbrev pub refunded : ℕ → Order → ℕ → ℕ → Db p → Db p
  refunded order_id order category_id places d =
      with_notice order.user_id NotificationType.refund_approved order_id (record d {
        ticket_category =
            p.modify category_id (λ c. record c { current_stock = c.current_stock + places })
              d.ticket_category;
        booking = p.modify_many (of_order order_id) cancel_of d.booking;
        order = p.modify order_id (set_status OrderStatus.refunded) d.order;
      })

  settle_refund_cases :
      (order_id : ℕ) (order : Order) (id : ℕ) (t : Ticket) (ts : List (ℕ × Ticket)) (d : Db p)
      → p.find_unique order_id d.order ≡ some order
      → (settle_refund order_id order ((id, t) ∷ ts) d ≡ err Http.record_not_found d)
        ⊎ (settle_refund order_id order ((id, t) ∷ ts) d
            ≡ ok tt (refunded order_id order t.ticket_category_id (length ((id, t) ∷ ts)) d))
  unfolding settle_refund
  settle_refund_cases order_id order id t ts d found =
      elim (Option-cases (p.find_unique t.ticket_category_id d.ticket_category)) [
        | inl e ↦ inl (ground arith)
        | inr (c, e) ↦ inr (ground arith)
      ]

  -- `rejectRefund` returns only for the organizer and an order that waits for a refund, which is
  -- paid again afterwards; whether it returns or throws, stock, bookings and tickets stay.
  pub reject_refund_cases :
      (C : Outcome HttpException (Db p) (Unit {0}) → Type 0) (order_id organizer_id : ℕ) (d : Db p)
      → ((e : HttpException) → C (err e d))
      → ((order : Order) (ev : Event)
          → p.find_unique order_id d.order ≡ some order
          → order.status ≡ OrderStatus.refund_requested
          → event_of_tickets (tickets_of order_id d) d ≡ some ev
          → ev.organizer_id ≡ organizer_id
          → C (
              ok tt (
                with_notice order.user_id NotificationType.refund_rejected order_id
                  (record d { order = p.modify order_id (set_status OrderStatus.paid) d.order }))))
      → C (reject_refund order_id organizer_id d)
  unfolding reject_refund
  reject_refund_cases C order_id organizer_id d throws done =
      elim (Option-cases (p.find_unique order_id d.order)) [
        | inl e ↦ ground (arith, throws (Http.not_found Http.order_missing))
        | inr (order, e) ↦ elim (Option-cases (event_of_tickets (tickets_of order_id d) d)) [
          | inl none_there ↦ ground (
            arith,
            throws (bad_request Http.order_not_requested),
            throws (Http.not_found Http.order_not_authorized),
          )
          | inr (ev, there) ↦ ground (
            arith,
            throws (bad_request Http.order_not_requested),
            throws (Http.not_found Http.order_not_authorized),
            done order ev,
          )
        ]
      ]

  first_event :
      (organizer_id : ℕ) (all : List (ℕ × Ticket)) (d : Db p)
      → (organized_by organizer_id (event_of_tickets all d) ≡ none)
        ⊎ ((id : ℕ) × (t : Ticket) × (ts : List (ℕ × Ticket)) × (ev : Event) × (all ≡ (id, t) ∷ ts)
            × (event_of_category t.ticket_category_id d ≡ some ev)
            × (ev.organizer_id ≡ organizer_id)
            × (organized_by organizer_id (event_of_tickets all d) ≡ some ev))
  first_event organizer_id [] d = inl refl
  first_event organizer_id ((id, t) ∷ ts) d =
      elim (Option-cases (event_of_category t.ticket_category_id d)) [
        | inl e ↦ inl (ground arith)
        | inr (ev, e) ↦ elim (Bool-cases (ev.organizer_id == organizer_id)) [
          | inl same ↦ inr (id, t, ts, ev, refl, e, ground arith, ground arith)
          | inr other ↦ inl (ground arith)
        ]
      ]

non_empty-some : (o : Option String) (id : String) → non_empty o ≡ some id → o ≡ some id
non_empty-some none id h = cc
non_empty-some (some x) id h = ground arith

module _ {p : Prisma} {s : Stripe} where
  pay_back_cases :
      (C : Outcome HttpException (World p s) (Unit {0}) → Type 0) (order_id : ℕ) (order : Order)
      (payment_id : String) (all : List (ℕ × Ticket)) (id : ℕ) (t : Ticket) (ts : List (ℕ × Ticket))
      (w : World p s)
      → p.find_unique order_id w.db.order ≡ some order
      → all ≡ (id, t) ∷ ts
      → ((e : HttpException) (x : s.State) → C (err e (record w { stripe = x })))
      → ((x : s.State)
          → IsRefundable s payment_id w.stripe
          → C (
              ok tt (record {
                db = refunded order_id order t.ticket_category_id (length ((id, t) ∷ ts)) w.db;
                stripe = x;
              })))
      → C ((refund_or_throw payment_id >>= λ _. on_db (settle_refund order_id order all)) w)
  unfolding refund_or_throw
  pay_back_cases C order_id order payment_id all id t ts w found same throws done =
      elim (refund_payment_result payment_id none w) [
        | inl (e, run) ↦
            ground
              (arith, throws (bad_request (Http.stripe_refund_failed (Http.message_of e))) w.stripe)
        | inr (r, x, can, run) ↦ elim (settle_refund_cases order_id order id t ts w.db found) [
          | inl failed ↦ ground (arith, throws Http.record_not_found x)
          | inr settled ↦ ground (arith, done x can)
        ]
      ]

  pub approve_refund_cases :
      (C : Outcome HttpException (World p s) (Unit {0}) → Type 0) (order_id organizer_id : ℕ)
      (w : World p s)
      → ((e : HttpException) (x : s.State) → C (err e (record w { stripe = x })))
      → ((order : Order) (id : ℕ) (t : Ticket) (ts : List (ℕ × Ticket)) (ev : Event)
            (payment_id : String) (x : s.State)
          → p.find_unique order_id w.db.order ≡ some order
          → order.status ≡ OrderStatus.refund_requested
          → tickets_of order_id w.db ≡ (id, t) ∷ ts
          → event_of_category t.ticket_category_id w.db ≡ some ev
          → ev.organizer_id ≡ organizer_id
          → order.payment_intent_id ≡ some payment_id
          → IsRefundable s payment_id w.stripe
          → C (
              ok tt (record {
                db = refunded order_id order t.ticket_category_id (length ((id, t) ∷ ts)) w.db;
                stripe = x;
              })))
      → C (approve_refund order_id organizer_id w)
  unfolding approve_refund
  approve_refund_cases C order_id organizer_id w throws done =
      elim (Option-cases (p.find_unique order_id w.db.order)) [
        | inl e ↦ ground (arith, throws (Http.not_found Http.order_missing) w.stripe)
        | inr (order, e) ↦ elim (Bool-cases (is_refund_requested order.status)) [
          | inr other ↦ ground (arith, throws (bad_request Http.order_not_requested) w.stripe)
          | inl waiting ↦ elim (first_event organizer_id (tickets_of order_id w.db) w.db) [
            | inl none_there ↦
                ground (arith, throws (Http.not_found Http.order_not_authorized) w.stripe)
            | inr (id, t, ts, ev, same, there, owner, found) ↦
                elim (Option-cases (non_empty order.payment_intent_id)) [
                  | inl no_id ↦ ground (arith, throws (bad_request Http.no_payment_id) w.stripe)
                  | inr (payment_id, has) ↦
                      let pay : C (
                          (refund_or_throw payment_id >>= λ _.
                          on_db (settle_refund order_id order (tickets_of order_id w.db)))
                            w) =
                        pay_back_cases C order_id order payment_id (tickets_of order_id w.db) id t
                          ts w e same throws
                          (λ x can.
                            done order id t ts ev payment_id x e (ground arith) same there owner
                              (non_empty-some order.payment_intent_id payment_id has) can) in
                      ground (arith, pay)
                ]
          ]
        ]
      ]
