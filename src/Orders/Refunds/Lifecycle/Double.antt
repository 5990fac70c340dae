-- ===== src/Orders/Refunds/Lifecycle/Double.antt =====
-- A refund that is asked for and the booking of the order
-- (backend/src/orders/orders.service.ts, backend/src/bookings/bookings.service.ts).
use event_now.Prelude.{ℕ, ◌+◌, ◌≡◌, refl, some, arith, ap, subst}
use event_now.Prelude.Outcome.{ok, final}
use event_now.Prisma.{Prisma}
use event_now.Prisma.Laws.{find_unique-modify_self}
use event_now.Database.{Db, Booking, Order, OrderStatus, TicketCategory}
use event_now.Bookings.{cancel_booking}
use event_now.Bookings.Calls.{cancel_booking-ok}
use event_now.Orders.Refunds.{set_status, cancel_of, request_refund}
use event_now.Orders.Refunds.Lifecycle.Request.{request_refund_cases, requested}

module _ {p : Prisma} where
  -- Once the refund of a paid order has been asked for, the buyer may cancel a booking of the order
  -- again: the call returns, the places are added to the stock of their category although the order
  -- waits for the organizer, and every ticket of the order stays.
  pub request_refund-cancel_booking :
      (order_id k user_id : ℕ) (b : Booking) (c : TicketCategory) (d d1 : Db p)
      → request_refund order_id user_id d ≡ ok tt d1
      → p.find_unique k d.booking ≡ some b
      → b.order_id ≡ some order_id
      → b.user_id ≡ user_id
      → p.find_unique b.ticket_category_id d.ticket_category ≡ some c
      → (o : Order) × (d2 : Db p) × (cancel_booking k user_id d1 ≡ ok tt d2)
        × (p.find_unique b.ticket_category_id d2.ticket_category
            ≡ some (record c { current_stock = c.current_stock + b.quantity }))
        × (p.find_unique order_id d2.order ≡ some (set_status OrderStatus.refund_requested o))
        × (d2.ticket ≡ d.ticket)
  request_refund-cancel_booking order_id k user_id b c d d1 run found of owner category =
      request_refund_cases
        (λ r.
          r ≡ ok tt d1
          → (o : Order) × (d2 : Db p) × (cancel_booking k user_id d1 ≡ ok tt d2)
            × (p.find_unique b.ticket_category_id d2.ticket_category
                ≡ some (record c { current_stock = c.current_stock + b.quantity }))
            × (p.find_unique order_id d2.order ≡ some (set_status OrderStatus.refund_requested o))
            × (d2.ticket ≡ d.ticket))
        order_id user_id d (λ e h. absurd (ground arith))
        (λ order bk notes fo _ _ cancels h.
          subst
            (λ x.
              (o : Order) × (d2 : Db p) × (cancel_booking k user_id x ≡ ok tt d2)
              × (p.find_unique b.ticket_category_id d2.ticket_category
                  ≡ some (record c { current_stock = c.current_stock + b.quantity }))
              × (p.find_unique order_id d2.order ≡ some (set_status OrderStatus.refund_requested o))
              × (d2.ticket ≡ d.ticket))
            (ap final h)
            (
              order,
              _,
              cancel_booking-ok k user_id (cancel_of b) c (requested order_id bk notes d)
                  (cancels k b found of) owner refl category,
              find_unique-modify_self p b.ticket_category_id
                  (λ c. record c { current_stock = c.current_stock + b.quantity }) d.ticket_category
                  c category,
              find_unique-modify_self p order_id (set_status OrderStatus.refund_requested) d.order
                  order fo,
              refl,
            ))
        run
