-- ===== src/Orders/Refunds/Lifecycle/Request.antt =====
-- What `requestRefund` does (backend/src/orders/orders.service.ts).
use event_now.Prelude.{
  ℕ, ◌≡◌, refl, Option, none, some, List, [], ◌∷◌, arith, ◌==◌, if◌then◌else◌, Option-cases,
  Bool-cases, inl, inr, length,
}
use event_now.Prelude.Outcome.{Outcome, ok, err}
use event_now.Prisma.{Prisma}
use event_now.Prisma.Laws.{le-sum}
use event_now.Http.{HttpException, bad_request}
use event_now.Http
use event_now.Database.{Db, Booking, Order, OrderStatus, Ticket, Event, Notification}
use event_now.Orders.Refunds.{
  set_status, cancel_of, of_order, is_legacy, tickets_of, event_of_tickets, notify_organizer,
  cancel_legacy_booking, request_refund,
}

abbrev pub one_of : ℕ → Booking → ℕ
one_of order_id b = if of_order order_id b then 1 else 0

module _ {p : Prisma} where
  cancel_legacy_booking-ok :
      (user_id : ℕ) (ts : List (ℕ × Ticket)) (d : Db p)
      → (bk : p.Table Booking) × (cancel_legacy_booking user_id ts d
          ≡ ok tt (record d { booking = bk }))
  unfolding cancel_legacy_booking
  cancel_legacy_booking-ok user_id [] d = (d.booking, refl)
  cancel_legacy_booking-ok user_id ((id, t) ∷ ts) d =
      let old = is_legacy user_id t.ticket_category_id (length ((id, t) ∷ ts)) in
      elim (Option-cases (p.find_first old d.booking)) [
        | inl e ↦ (d.booking, ground arith)
        | inr ((k, b), e) ↦
            (p.modify k cancel_of d.booking, ground (arith, p.find_first-some old d.booking k b))
      ]

  notify_organizer-ok :
      (o : Option Event) (order_id : ℕ) (d : Db p)
      → (notes : p.Table Notification) × (notify_organizer o order_id d
          ≡ ok tt (record d { notification = notes }))
  unfolding notify_organizer
  notify_organizer-ok none order_id d = (d.notification, refl)
  notify_organizer-ok (some e) order_id d = (_, refl)

  -- Every booking of the order is cancelled.
  abbrev pub Cancels : ℕ → Db p → p.Table Booking → Type 0
  Cancels order_id d bk =
      (k : ℕ) (b : Booking)
      → p.find_unique k d.booking ≡ some b
      → b.order_id ≡ some order_id
      → p.find_unique k bk ≡ some (cancel_of b)

  Cancels-many :
      (order_id : ℕ) (d : Db p)
      → Cancels order_id d (p.modify_many (of_order order_id) cancel_of d.booking)
  Cancels-many order_id d k b found has =
      ground (arith, p.find_unique-modify_many k (of_order order_id) cancel_of d.booking)

  Cancels-none :
      (order_id : ℕ) (d : Db p) (bk : p.Table Booking)
      → p.sum (one_of order_id) d.booking ≡ 0
      → Cancels order_id d bk
  Cancels-none order_id d bk h k b found has =
      absurd (ground (arith, le-sum p (one_of order_id) k b d.booking found))

  abbrev marked : ℕ → p.Table Booking → Db p → Db p
  marked order_id bk d = record d {
    booking = bk;
    order = p.modify order_id (set_status OrderStatus.refund_requested) d.order;
  }

  abbrev pub requested : ℕ → p.Table Booking → p.Table Notification → Db p → Db p
  requested order_id bk notes d = record d {
    booking = bk;
    order = p.modify order_id (set_status OrderStatus.refund_requested) d.order;
    notification = notes;
  }

  -- `requestRefund` returns only for the buyer and a paid order; it then cancels the bookings of the
  -- order and marks the order, and leaves stock and tickets alone.
  pub request_refund_cases :
      (C : Outcome HttpException (Db p) (Unit {0}) → Type 0) (order_id user_id : ℕ) (d : Db p)
      → ((e : HttpException) → C (err e d))
      → ((order : Order) (bk : p.Table Booking) (notes : p.Table Notification)
          → p.find_unique order_id d.order ≡ some order
          → order.user_id ≡ user_id
          → order.status ≡ OrderStatus.paid
          → Cancels order_id d bk
          → C (ok tt (requested order_id bk notes d)))
      → C (request_refund order_id user_id d)
  unfolding request_refund
  request_refund_cases C order_id user_id d throws done =
      elim (Option-cases (p.find_unique order_id d.order)) [
        | inl e ↦ ground (arith, throws (Http.not_found Http.order_missing))
        | inr (order, e) ↦ elim (Bool-cases (p.sum (one_of order_id) d.booking == 0)) [
          | inl legacy ↦
              let cancelled = p.modify_many (of_order order_id) cancel_of d.booking in
              let (bk, run) =
                cancel_legacy_booking-ok order.user_id (tickets_of order_id d)
                  (record d { booking = cancelled }) in
              let (notes, told) =
                notify_organizer-ok (event_of_tickets (tickets_of order_id d) d) order_id
                  (marked order_id bk d) in
              ground (
                arith,
                run,
                told,
                throws (Http.not_found Http.order_missing),
                throws (bad_request Http.only_paid_refundable),
                λ (h : order.user_id ≡ user_id) (k : order.status ≡ OrderStatus.paid).
                    done order bk notes e h k (Cancels-none order_id d bk (ground arith)),
              )
          | inr direct ↦
              let cancelled = p.modify_many (of_order order_id) cancel_of d.booking in
              let (notes, told) =
                notify_organizer-ok (event_of_tickets (tickets_of order_id d) d) order_id
                  (marked order_id cancelled d) in
              ground (
                arith,
                told,
                throws (Http.not_found Http.order_missing),
                throws (bad_request Http.only_paid_refundable),
                λ (h : order.user_id ≡ user_id) (k : order.status ≡ OrderStatus.paid).
                    done order cancelled notes e h k (Cancels-many order_id d),
              )
        ]
      ]
