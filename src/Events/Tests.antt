-- ===== src/Events/Tests.antt =====
-- The theorems on events applied to a small database (backend/src/events/events.service.ts).
use event_now.Prelude.{◌≡◌, refl, some, []}
use event_now.Prelude.Outcome.{ok, err, final}
use event_now.Prisma.Rows.{in_memory}
use event_now.Http.{bad_request}
use event_now.Http
use event_now.Payment.{World, total_refunded}
use event_now.Bookings.{create_booking}
use event_now.Events.{Cancellation, cancel_event, cancelled_on}
use event_now.Events.Cancel.{IsCancellable}
use event_now.Events.Closed.{cancel_event-returns, cancel_event-create_booking}
use event_now.Tests.{sold, standing, account, two_places}

abbrev on_sale : World in_memory account
on_sale = record { db = sold; stripe = [] }

abbrev called_off : World in_memory account
called_off = final (cancel_event 9 0 (some "Orage") 1000 on_sale)

abbrev refunds : Cancellation
refunds = record {
  cancelled_orders = 1;
  failed_refunds = 0;
  total_refunded = 5000;
  notified_users = 1;
  failed_order_ids = [];
}

run : cancel_event 9 0 (some "Orage") 1000 on_sale ≡ ok refunds called_off
unfolding cancel_event total_refunded
run = refl

cancel_event-returns_example :
    (may : IsCancellable {p = in_memory} 9 0 1000 sold) × (in_memory.find_unique 0
        called_off.db.event
      ≡ some (cancelled_on 1000 (some "Orage") may.event))
cancel_event-returns_example =
    cancel_event-returns 9 0 (some "Orage") 1000 on_sale called_off refunds run

cancel_event-create_booking_example :
    create_booking 7 two_places 2000 called_off.db
    ≡ err (bad_request Http.event_cancelled) called_off.db
unfolding cancel_event total_refunded
cancel_event-create_booking_example =
    cancel_event-create_booking 9 0 (some "Orage") 1000 on_sale called_off refunds 7 two_places 2000
      standing run refl refl
