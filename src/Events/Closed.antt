-- ===== src/Events/Closed.antt =====
-- The transaction of `cancelEvent` (backend/src/events/events.service.ts) and the call as a whole.
use event_now.Prelude.{
  ℕ, ◌≡◌, ◌⊎◌, Option, refl, sym, ap, ◌∙◌, subst, some, List, Option-cases, inl, inr, arith,
}
use event_now.Prelude.Outcome.{Outcome, ok, err, final, outcome_cases}
use Prim.Native.String.{String}
use event_now.Prisma.{Prisma}
use event_now.Http.{HttpException, bad_request, record_not_found}
use event_now.Http
use event_now.Database.{Db, Event, Booking, TicketCategory, for_each, for_each-keeps}
use event_now.Bookings.{CreateBookingDto, create_booking}
use event_now.Payment.{Stripe, World}
use event_now.Events.{
  Cancellation, RefundResult, check_cancellable, refund_orders, after_closing, cancelled_on,
  settle_order, release_booking, release_bookings, pending_bookings, close_event, cancel_event,
  refunded_ids, confirmed_orders, answer_of,
}
use event_now.Events.Cancel.{
  IsCancellable, check_cancellable_cases, refund_orders-ok, after_closing-ok,
}

module _ {p : Prisma} {s : Stripe} (user_id event_id : ℕ) (reason : Option String) (now : ℕ)
    (w : World p s) where
  cancel_event-refused :
      (x : HttpException)
      → check_cancellable user_id event_id now w.db ≡ err x w.db
      → cancel_event user_id event_id reason now w ≡ err x w
  unfolding cancel_event
  cancel_event-refused x e = ground (arith, e)

  module _ (rs : List RefundResult) (st : s.State) where
    cancel_event-failed :
        (x : HttpException)
        → check_cancellable user_id event_id now w.db ≡ ok tt w.db
        → refund_orders (confirmed_orders event_id w.db) w ≡ ok rs (record w { stripe = st })
        → close_event event_id (refunded_ids rs) now reason w.db ≡ err x w.db
        → cancel_event user_id event_id reason now w ≡ err x (record w { stripe = st })
    unfolding cancel_event
    cancel_event-failed x e f g = ground (arith, e, f, g)

    cancel_event-goes_through :
        (told : List ℕ) (d1 d2 : Db p)
        → check_cancellable user_id event_id now w.db ≡ ok tt w.db
        → refund_orders (confirmed_orders event_id w.db) w ≡ ok rs (record w { stripe = st })
        → close_event event_id (refunded_ids rs) now reason w.db ≡ ok tt d1
        → after_closing event_id (confirmed_orders event_id w.db) d1 ≡ ok told d2
        → cancel_event user_id event_id reason now w
          ≡ ok (answer_of rs told) (record { db = d2; stripe = st })
    unfolding cancel_event
    cancel_event-goes_through told d1 d2 e f g a = ground (arith, e, f, g, a)

module _ {p : Prisma} (P : Db p → Type 0) where
  -- The transaction fails and leaves everything as it was, or marks the event as cancelled in a
  -- database of which what its loops keep holds.
  abbrev ClosesWith : ℕ → List ℕ → ℕ → Option String → Db p → Type 0
  ClosesWith event_id ids now reason d =
      ((e : HttpException) × (close_event event_id ids now reason d ≡ err e d))
      ⊎ ((d' : Db p) × P d'
          × (close_event event_id ids now reason d
              ≡ ok tt (record d' { event = p.modify event_id (cancelled_on now reason) d'.event })))

  close_event_cases :
      (event_id : ℕ) (ids : List ℕ) (now : ℕ) (reason : Option String) (d : Db p)
      → ((id : ℕ) (x : Db p) → P x → P (final (settle_order id x)))
      → ((x y : Db p) → P x → release_bookings event_id x ≡ ok tt y → P y)
      → P d
      → ClosesWith event_id ids now reason d
  unfolding close_event
  close_event_cases event_id ids now reason d settles releases h =
      elim (outcome_cases (for_each settle_order ids d)) [
        | inr (x, d1, e) ↦ inl (x, ground (arith, e))
        | inl (tt, d1, e) ↦
            let h1 : P d1 = subst P (ap final e) (for_each-keeps P settle_order settles ids d h) in
            elim (outcome_cases (release_bookings event_id d1)) [
              | inr (x, d2, f) ↦ inl (x, ground (arith, e, f))
              | inl (tt, d2, f) ↦ elim (Option-cases (p.find_unique event_id d2.event)) [
                | inl g ↦ inl (record_not_found, ground (arith, e, f, g))
                | inr (ev, g) ↦ inr (d2, releases d1 d2 h1 f, ground (arith, e, f, g))
              ]
            ]
      ]

  module _ {s : Stripe} where
    -- What a cancellation that goes through leaves: the database of the transaction, with more or
    -- fewer notifications.
    pub record Closes (event_id now : ℕ) (reason : Option String) (w : World p s)
        (r : Outcome HttpException (World p s) Cancellation) : Type 0 where
      pub answer : Cancellation
      pub db : Db p
      pub keeps : P db
      pub notification : p.Table _
      pub stripe : s.State
      pub returns :
          r
          ≡ ok answer (record {
            db = record db {
              event = p.modify event_id (cancelled_on now reason) db.event;
              notification = notification;
            };
            stripe = stripe;
          })

    pub cancel_event_cases :
        (user_id event_id : ℕ) (reason : Option String) (now : ℕ) (w : World p s)
        → ((id : ℕ) (x : Db p) → P x → P (final (settle_order id x)))
        → ((x y : Db p) → P x → release_bookings event_id x ≡ ok tt y → P y)
        → P w.db
        → ((e : HttpException) × (x : s.State) × (cancel_event user_id event_id reason now w
              ≡ err e (record w { stripe = x })))
          ⊎ (IsCancellable user_id event_id now w.db
              × Closes event_id now reason w (cancel_event user_id event_id reason now w))
    cancel_event_cases user_id event_id reason now w settles releases h =
        elim (check_cancellable_cases user_id event_id now w.db) [
          | inl (x, e) ↦ inl (x, w.stripe, cancel_event-refused user_id event_id reason now w x e)
          | inr (may, e) ↦
              let confirmed = confirmed_orders event_id w.db in
              let (rs, st, f) = refund_orders-ok confirmed w in
              elim (close_event_cases event_id (refunded_ids rs) now reason w.db settles releases
                h) [
                  | inl (x, g) ↦
                      inl (x, st, cancel_event-failed user_id event_id reason now w rs st x e f g)
                  | inr (d', kept, g) ↦
                      let (told, t, a) = after_closing-ok event_id confirmed (record d' {
                        event = p.modify event_id (cancelled_on now reason) d'.event;
                      }) in
                      inr (
                        may,
                        record {
                          answer = answer_of rs told;
                          db = d';
                          keeps = kept;
                          notification = t;
                          stripe = st;
                          returns =
                              cancel_event-goes_through user_id event_id reason now w rs st told _ _
                                e f g a;
                        },
                      )
                ]
        ]

module _ {p : Prisma} where
  settle_order-event :
      (t : p.Table Event) (id : ℕ) (x : Db p) → x.event ≡ t → (final (settle_order id x)).event ≡ t
  unfolding settle_order
  settle_order-event t id x h = elim (Option-cases (p.find_unique id x.order)) [
    | inl e ↦ ground (arith, e, h)
    | inr (o, e) ↦ ground (arith, e, h)
  ]

  release_booking-event :
      (t : p.Table Event) (b : ℕ × Booking) (x : Db p)
      → x.event ≡ t
      → (final (release_booking b x)).event ≡ t
  unfolding release_booking
  release_booking-event t (id, b) x h = elim (Option-cases (p.find_unique id x.booking)) [
    | inl e ↦ ground (arith, e, h)
    | inr (o, e) ↦ elim (Option-cases (p.find_unique b.ticket_category_id x.ticket_category)) [
      | inl f ↦ ground (arith, e, f, h)
      | inr (c, f) ↦ ground (arith, e, f, h)
    ]
  ]

  release_bookings-event :
      (t : p.Table Event) (event_id : ℕ) (x y : Db p)
      → x.event ≡ t
      → release_bookings event_id x ≡ ok tt y
      → y.event ≡ t
  unfolding release_bookings
  release_bookings-event t event_id x y h e =
      subst (λ d. d.event ≡ t) (ap final e)
        (for_each-keeps (λ d. d.event ≡ t) release_booking (release_booking-event t)
          (pending_bookings event_id x) x h)

  module _ {s : Stripe} where
    -- A cancellation that returns was by the organizer of an event to come that was not cancelled, and
    -- this event is cancelled now, and otherwise as it was.
    pub cancel_event-returns :
        (user_id event_id : ℕ) (reason : Option String) (now : ℕ) (w w' : World p s)
        (a : Cancellation)
        → cancel_event user_id event_id reason now w ≡ ok a w'
        → (may : IsCancellable user_id event_id now w.db) × (p.find_unique event_id w'.db.event
            ≡ some (cancelled_on now reason may.event))
    cancel_event-returns user_id event_id reason now w w' a h =
        elim (cancel_event_cases (λ d. d.event ≡ w.db.event) user_id event_id reason now w
          (settle_order-event w.db.event) (release_bookings-event w.db.event event_id) refl) [
            | inl (x, st, e) ↦ absurd (ground (arith, e, h))
            | inr (may, closes) ↦
                let same = ap final (sym closes.returns ∙ h) in
                (
                  may,
                  subst
                      (λ (x : World p s).
                        p.find_unique event_id x.db.event
                        ≡ some (cancelled_on now reason may.event))
                      same
                      (ground (
                        arith,
                        closes.keeps,
                        may.found,
                        p.find_unique-modify event_id event_id (cancelled_on now reason)
                            closes.db.event,
                      )),
                )
          ]

    -- After a cancellation that returns no place of the event is booked: `createBooking` throws for each
    -- of its categories and changes nothing.
    pub cancel_event-create_booking :
        (user_id event_id : ℕ) (reason : Option String) (now : ℕ) (w w' : World p s)
        (a : Cancellation) (buyer : ℕ) (dto : CreateBookingDto) (later : ℕ) (c : TicketCategory)
        → cancel_event user_id event_id reason now w ≡ ok a w'
        → p.find_unique dto.ticket_category_id w'.db.ticket_category ≡ some c
        → c.event_id ≡ event_id
        → create_booking buyer dto later w'.db ≡ err (bad_request Http.event_cancelled) w'.db
    unfolding create_booking
    cancel_event-create_booking user_id event_id reason now w w' a buyer dto later c h found here =
        let (may, over) = cancel_event-returns user_id event_id reason now w w' a h in
        ground (arith, found, here, over)
