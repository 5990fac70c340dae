-- ===== src/Bookings/Tests.antt =====
-- The theorems on bookings applied to a small database (backend/src/bookings/bookings.service.ts).
use event_now.Prelude.{ℕ, ◌≡◌, ◌≤◌, ◌↔◌, false, none, some, refl, arith}
use event_now.Prelude.Outcome.{ok, err, final}
use event_now.Prisma.Rows.{in_memory}
use event_now.Http.{bad_request, insufficient_stock}
use event_now.Database.{Db, Booking, BookingStatus, Event, TicketCategory}
use event_now.Bookings.Calls.{booked, create_booking_ok_iff}
use event_now.Bookings.Expiry.{Linked, expire_old_bookings_clears}
use event_now.Bookings.{
  CreateBookingDto, create_booking, cancel_booking, expire_old_bookings, is_overdue,
}
use event_now.Bookings.Stock.{Balanced, cancel_booking_dead}
use event_now.Tests.{sample, two_places, dropped, standing}

sample-Balanced : Balanced sample
sample-Balanced k c h = ground arith

cancel_booking_dead_example : ¬ Balanced (final (cancel_booking 0 7 sample))
cancel_booking_dead_example =
    cancel_booking_dead 0 7 dropped standing sample refl refl refl refl (omega arith)
      sample-Balanced

sample-Linked : Linked sample
sample-Linked k b h = ground arith

expire_old_bookings_clears_example :
    (d' : Db in_memory) × (expire_old_bookings 9000 sample ≡ ok 1 d')
    × ((k : ℕ) (b : Booking)
        → in_memory.find_unique k d'.booking ≡ some b
        → is_overdue 9000 b ≡ false)
expire_old_bookings_clears_example = expire_old_bookings_clears 9000 sample sample-Linked

create_booking_ok_iff_example :
    (create_booking 4 two_places 1000 sample ≡ ok 2 (booked 4 two_places 1000 sample)) ↔ (
      (c : TicketCategory) × (e : Event) × (in_memory.find_unique 0 sample.ticket_category ≡ some c)
      × (in_memory.find_unique c.event_id sample.event ≡ some e)
      × (e.cancelled_at ≡ none)
      × (2 ≤ c.current_stock)
      × (2 ≡ in_memory.new_id sample.booking)
      × (booked 4 two_places 1000 sample ≡ booked 4 two_places 1000 sample))
create_booking_ok_iff_example =
    create_booking_ok_iff 4 two_places 1000 2 sample (booked 4 two_places 1000 sample)

abbrev too_many : CreateBookingDto
too_many = record { ticket_category_id = 0; quantity = 8 }

sold_out :
    create_booking 4 too_many 1000 sample
    ≡ err (bad_request (insufficient_stock 7 8)) (final (create_booking 4 too_many 1000 sample))
unfolding create_booking
sold_out = refl

abbrev paid_hold : Db in_memory
paid_hold = record sample {
  booking = in_memory.modify 1 (λ b. record b { status = BookingStatus.confirmed }) sample.booking;
}
