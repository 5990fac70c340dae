-- ===== src/Orders/Refunds/Tests.antt =====
-- The theorems on refunds applied to a small database (backend/src/orders/orders.service.ts).
use event_now.Prelude.{refl, [], ◌∷◌, some, ◌≡◌}
use event_now.Prelude.Outcome.{ok, final}
use event_now.Orders.Refunds.{
  set_status, request_refund, notify, notify_organizer, cancel_legacy_booking, cancel_found,
}
use event_now.Orders.Refunds.Lifecycle.Double.{request_refund-cancel_booking}
use event_now.Orders.Refunds.Lifecycle.States.{asks, approves, rejects, run, run-refunded}
use event_now.Bookings.{cancel_booking}
use event_now.Prisma.Rows.{in_memory}
use event_now.Database.{Db, Order, OrderStatus}
use event_now.Payment.{World}
use event_now.Tests.{sold, account, in_order, standing, given_back_order}

asked : request_refund 0 7 sold ≡ ok tt (final (request_refund 0 7 sold))
unfolding request_refund notify notify_organizer cancel_legacy_booking cancel_found
asked = refl

request_refund-cancel_booking_example :
    (o : Order) × (d2 : Db in_memory) × (cancel_booking 0 7 (final (request_refund 0 7 sold))
      ≡ ok tt d2)
    × (in_memory.find_unique 0 d2.ticket_category ≡ some (record standing { current_stock = 9 }))
    × (in_memory.find_unique 0 d2.order ≡ some (set_status OrderStatus.refund_requested o))
    × (d2.ticket ≡ sold.ticket)
request_refund-cancel_booking_example =
    request_refund-cancel_booking 0 0 7 in_order standing sold (final (request_refund 0 7 sold))
      asked refl refl refl refl

abbrev shop : World in_memory account
shop = record { db = sold; stripe = [] }

run-refunded_example :
    in_memory.find_unique 1 (run (asks 1 7 ∷ approves 1 9 ∷ rejects 1 9 ∷ []) shop).db.order
    ≡ some given_back_order
run-refunded_example =
    run-refunded (asks 1 7 ∷ approves 1 9 ∷ rejects 1 9 ∷ []) shop 1 given_back_order refl refl
