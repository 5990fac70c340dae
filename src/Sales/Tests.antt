-- ===== src/Sales/Tests.antt =====
-- The theorems on the sale as a whole applied to a small database (backend/src/bookings,
-- backend/src/orders).
use event_now.Prelude.{none, [], arith}
use event_now.Prelude.Outcome.{final}
use event_now.Prisma.Rows.{in_memory}
use event_now.Database.{Db}
use event_now.Bookings.{create_booking, expire_old_bookings}
use event_now.Bookings.Stock.{Balanced}
use event_now.Events.{cancel_event}
use event_now.Orders.{confirm_payment}
use event_now.Sales.{books, expires, pays, calls_off, Run, stop, step, Run-Balanced}
use event_now.Tests.{sample, account, crypto, two_places}

-- User 7 books two more places, pays for the booking that was there, the rest expires, and
-- the event is cancelled.
abbrev booked : Db in_memory
booked = final (create_booking 7 two_places 100 sample)

abbrev paid : Db in_memory
paid = final (confirm_payment crypto 1 "pi_2" 7 none 1000 booked)

abbrev over : Db in_memory
over = final (expire_old_bookings 9999999 paid)

abbrev off : Db in_memory
off = (final (cancel_event {s = account} 9 0 none 10000000 (record { db = over; stripe = [] }))).db

run : Run crypto account sample off
run = step sample booked off (books 7 two_places 100 sample) (
    step booked paid off (pays 1 "pi_2" 7 none 1000 booked) (
      step paid over off (expires 9999999 paid)
        (step over off off (calls_off 9 0 none 10000000 over []) (stop off))))

Run-Balanced_example : Balanced off
Run-Balanced_example = Run-Balanced crypto account sample off run (λ k c h. ground arith)
