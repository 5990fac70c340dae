-- ===== src/Events/Stock.antt =====
-- The stock of the categories of an event that is cancelled (`cancelEvent` of
-- backend/src/events/events.service.ts).
use event_now.Prelude.{
  ℕ, ◌≡◌, ◌⊎◌, refl, sym, ap, subst, Option, Bool, true, ◌&&◌, some, List, [], ◌∷◌, All, Distinct,
  Option-cases, inl, inr, arith,
}
use event_now.Prelude.Outcome.{Outcome, ok, err, final}
use Prim.Native.String.{String}
use event_now.Prisma.{Prisma}
use event_now.Http.{HttpException, record_not_found}
use event_now.Database.{Db, Booking, BookingStatus, for_each}
use event_now.Bookings.{is_pending}
use event_now.Bookings.Calls.{given_back}
use event_now.Bookings.Stock.{Balanced, Live, given_back-Live, given_back-Balanced}
use event_now.Payment.{Stripe, World}
use event_now.Events.{
  Cancellation, settle_order, release_booking, release_bookings, pending_bookings, is_category_of,
  cancel_event,
}
use event_now.Events.Closed.{cancel_event_cases}

module _ {p : Prisma} where
  settle_order-Balanced : (id : ℕ) (x : Db p) → Balanced x → Balanced (final (settle_order id x))
  unfolding settle_order
  settle_order-Balanced id x bal = elim (Option-cases (p.find_unique id x.order)) [
    | inl e ↦ rw (e, settle_order, final) bal
    | inr (o, e) ↦ rw (e, settle_order, final) bal
  ]

  -- A round gives the places of the booking back or stops.
  release_booking_cases :
      (id : ℕ) (b : Booking) (x : Db p)
      → p.find_unique id x.booking ≡ some b
      → (release_booking (id, b) x ≡ ok tt (given_back id b BookingStatus.cancelled x))
        ⊎ ((y : Db p) × (release_booking (id, b) x ≡ err record_not_found y))
  unfolding release_booking
  release_booking_cases id b x found =
      elim (Option-cases (p.find_unique b.ticket_category_id x.ticket_category)) [
        | inl e ↦ inr (
          record x {
            booking = p.modify id (λ b. record b { status = BookingStatus.cancelled }) x.booking;
          },
          ground (arith, found, e),
        )
        | inr (c, e) ↦ inl (ground (arith, found, e))
      ]

  release_loop-Balanced :
      (es : List (ℕ × Booking)) (x y : Db p)
      → Distinct es
      → All (Live x) es
      → Balanced x
      → for_each release_booking es x ≡ ok tt y
      → Balanced y
  unfolding for_each
  release_loop-Balanced [] x y distinct live bal h = subst Balanced (ap final h) bal
  release_loop-Balanced ((id, b) ∷ es) x y (fresh, distinct) ((found, holding), live) bal h =
      elim (release_booking_cases id b x found) [
        | inl e ↦
            release_loop-Balanced es (given_back id b BookingStatus.cancelled x) y distinct
              (given_back-Live id b BookingStatus.cancelled x es fresh live)
              (given_back-Balanced id b BookingStatus.cancelled x found holding refl bal)
              (rw (e, for_each) at h)
        | inr (z, e) ↦ absurd (ground (arith, e, h))
      ]

  pending-Live :
      (event_id : ℕ) (x : Db p) (es : List (ℕ × Booking))
      → All
          (λ e.
            (p.find_unique e.0 x.booking ≡ some e.1)
            × ((is_pending e.1.status && is_category_of event_id x e.1.ticket_category_id) ≡ true))
          es
      → All (Live x) es
  pending-Live event_id x [] h = tt
  pending-Live event_id x ((k, b) ∷ es) ((found, pending), h) =
      ((found, ground arith), pending-Live event_id x es h)

  release_bookings-Balanced :
      (event_id : ℕ) (x y : Db p) → Balanced x → release_bookings event_id x ≡ ok tt y → Balanced y
  unfolding release_bookings
  release_bookings-Balanced event_id x y bal h =
      let t = x.booking in
      let wanted : Booking → Bool =
        λ b. is_pending b.status && is_category_of event_id x b.ticket_category_id in
      release_loop-Balanced (pending_bookings event_id x) x y (p.find_many-distinct wanted t)
        (pending-Live event_id x (pending_bookings event_id x) (p.find_many-sound wanted t)) bal h

  -- Whatever `cancelEvent` answers, what is left of each category and what its bookings hold are
  -- together its initial stock, if they were before.
  pub cancel_event-Balanced :
      {s : Stripe} (user_id event_id : ℕ) (reason : Option String) (now : ℕ) (w : World p s)
      → Balanced w.db
      → Balanced (final (cancel_event user_id event_id reason now w)).db
  cancel_event-Balanced {s} user_id event_id reason now w bal =
      elim (cancel_event_cases Balanced user_id event_id reason now w settle_order-Balanced
        (release_bookings-Balanced event_id) bal) [
          | inl (x, st, e) ↦
              subst (λ (o : Outcome HttpException (World p s) Cancellation). Balanced (final o).db)
                (sym e) bal
          | inr (may, closes) ↦
              subst (λ (o : Outcome HttpException (World p s) Cancellation). Balanced (final o).db)
                (sym closes.returns) closes.keeps
        ]
