-- ===== src/Orders/Confirm.antt =====
-- What `confirmPayment` does (backend/src/orders/orders.service.ts).
pub mod Effects
use Prim.Native.String.{String}
use event_now.Prelude.{
  ℕ, zero, suc, ◌+◌, ◌*◌, ◌≤◌, ◌≡◌, ◌≢◌, ◌⊎◌, refl, Bool, true, false, Option, none, some, List,
  arith, ltb, ◌==◌, if◌then◌else◌, Option-cases, Bool-cases, inl, inr,
}
use event_now.Prelude.Int.{ℤ, pos}
use event_now.Prelude.Double.{of_cents, multiply_by}
use event_now.Prelude.Outcome.{Outcome, ok, err, final}
use event_now.Prisma.{Prisma}
use event_now.Http.{HttpException, bad_request, unique_violation}
use event_now.Http
use event_now.Database.{
  Db, Booking, BookingStatus, Order, OrderStatus, Ticket, TicketCategory, Event, PromoCode,
}
use event_now.PromoCodes.{is_past, is_exhausted, calculate_discount}
use event_now.Bookings.{is_pending, is_confirmed}
use event_now.QrCode.{Crypto, generate_qr_code}
use event_now.Orders.{
  Confirmation, has_qr_code, ticket_for, paid_order, confirm_of, attach_order, create_tickets,
  order_amount, confirm_pending, replay, confirm_in_transaction, confirm_payment,
}

abbrev missing : HttpException
missing = Http.not_found Http.booking_missing

abbrev processed : HttpException
processed = bad_request Http.booking_processed

module _ {p : Prisma} (crypto : Crypto) where
  -- The database with the tickets of an order, from an index on.
  pub with_tickets : ℕ → ℕ → ℕ → ℕ → ℕ → Db p → Db p
  with_tickets order_id category_id now zero index d = d
  with_tickets order_id category_id now (suc n) index d =
      with_tickets order_id category_id now n (index + 1) (record d {
        ticket =
            p.create (ticket_for order_id category_id (generate_qr_code crypto order_id index now))
              d.ticket;
      })

  -- All tickets are made, or one of their codes is there already.
  pub create_tickets_cases :
      (order_id category_id now n index : ℕ) (d : Db p)
      → ((t : Db p) × (create_tickets crypto order_id category_id now n index d
            ≡ err unique_violation t))
        ⊎ (create_tickets crypto order_id category_id now n index d
            ≡ ok tt (with_tickets order_id category_id now n index d))
  unfolding create_tickets with_tickets
  create_tickets_cases order_id category_id now zero index d = inr refl
  create_tickets_cases order_id category_id now (suc n) index d =
      let code = generate_qr_code crypto order_id index now in
      elim (Option-cases (p.find_first (has_qr_code code) d.ticket)) [
        | inr (e, here) ↦ inl (d, ground (arith, here))
        | inl new ↦
            let d' : Db p = record d {
              ticket = p.create (ticket_for order_id category_id code) d.ticket;
            } in
            elim (create_tickets_cases order_id category_id now n (index + 1) d') [
              | inl (t, run) ↦ inl (t, rw (new, create_tickets) run)
              | inr run ↦ inr (rw (new, create_tickets) run)
            ]
      ]

  -- Nothing but the tickets changes.
  pub with_tickets-same :
      (order_id category_id now n index : ℕ) (d : Db p)
      → with_tickets order_id category_id now n index d
        ≡ record d { ticket = (with_tickets order_id category_id now n index d).ticket }
  unfolding with_tickets
  with_tickets-same order_id category_id now zero index d = refl
  with_tickets-same order_id category_id now (suc n) index d =
      with_tickets-same order_id category_id now n (index + 1) _

  -- A measure of tickets that does not look at the code grows by its value on each new one.
  pub sum-with_tickets :
      (g : Ticket → ℕ) (order_id category_id now n index v : ℕ) (d : Db p)
      → ((code : List ℕ) → g (ticket_for order_id category_id code) ≡ v)
      → p.sum g (with_tickets order_id category_id now n index d).ticket ≡ p.sum g d.ticket + n * v
  unfolding with_tickets
  sum-with_tickets g order_id category_id now zero index v d h = omega arith
  sum-with_tickets g order_id category_id now (suc n) index v d h = omega (
    arith,
    sum-with_tickets g order_id category_id now n (index + 1) v _ h,
    h (generate_qr_code crypto order_id index now),
    p.sum-create g (ticket_for order_id category_id (generate_qr_code crypto order_id index now))
        d.ticket,
  )

module _ {p : Prisma} where
  -- The amount is worked out without a write.
  pub order_amount-keeps :
      (promo_code_id : Option ℕ) (price quantity now : ℕ) (d : Db p)
      → ((total : ℤ) × (order_amount promo_code_id price quantity now d ≡ ok total d))
        ⊎ ((e : HttpException) × (order_amount promo_code_id price quantity now d ≡ err e d))
  unfolding order_amount
  order_amount-keeps none price quantity now d = inl (pos (price * quantity), refl)
  order_amount-keeps (some id) price quantity now d =
      elim (Option-cases (p.find_unique id d.promo_code)) [
        | inl e ↦ inr (Http.not_found Http.promo_missing, ground arith)
        | inr (c, e) ↦ elim (Bool-cases c.is_active) [
          | inr off ↦ inr (bad_request Http.promo_inactive, ground arith)
          | inl on ↦ elim (Bool-cases (is_past c.expires_at now)) [
            | inl late ↦ inr (bad_request Http.promo_expired, ground arith)
            | inr current ↦ elim (Bool-cases (is_exhausted c.max_uses c.current_uses)) [
              | inl used ↦ inr (bad_request Http.promo_exhausted, ground arith)
              | inr left ↦ inl (
                (calculate_discount (multiply_by (of_cents (pos price)) quantity) c.discount_type
                    (of_cents c.discount_value)).final_amount,
                ground arith,
              )
            ]
          ]
        ]
      ]

module _ {p : Prisma} where
  -- The state in which the tickets are made.
  abbrev pub placed : ℕ → ℤ → String → ℕ → Db p → Db p
  placed booking_id total payment_id user_id d = record d {
    booking =
        p.modify booking_id (attach_order (p.new_id d.order))
          (p.modify booking_id confirm_of d.booking);
    order = p.create (paid_order user_id total payment_id) d.order;
  }

module _ {p : Prisma} (crypto : Crypto) where
  -- The state after the transaction has made an order of a pending booking.
  abbrev pub ordered : ℕ → Booking → ℤ → String → ℕ → ℕ → Db p → Db p
  ordered booking_id b total payment_id user_id now d =
      with_tickets crypto (p.new_id d.order) b.ticket_category_id now b.quantity 0
        (placed booking_id total payment_id user_id d)

  confirm_pending_cases :
      (booking_id : ℕ) (b : Booking) (price : ℕ) (payment_id : String) (user_id : ℕ)
      (promo_code_id : Option ℕ) (now : ℕ) (d : Db p)
      → p.find_unique booking_id d.booking ≡ some b
      → ((e : HttpException) × (t : Db p) × (confirm_pending crypto booking_id b price payment_id
              user_id promo_code_id now d
            ≡ err e t))
        ⊎ ((total : ℤ) × (now ≤ b.expires_at)
            × (order_amount promo_code_id price b.quantity now d ≡ ok total d)
            × (confirm_pending crypto booking_id b price payment_id user_id promo_code_id now d
                ≡ ok
                    (record { order_id = p.new_id d.order; already_confirmed = false })
                    (ordered booking_id b total payment_id user_id now d)))
  unfolding confirm_pending
  confirm_pending_cases booking_id b price payment_id user_id promo_code_id now d found =
      elim (Bool-cases (ltb b.expires_at now)) [
        | inl late ↦ inl (bad_request Http.booking_expired, d, ground arith)
        | inr early ↦ elim (order_amount-keeps promo_code_id price b.quantity now d) [
          | inl (total, e) ↦
              let placed_order = placed booking_id total payment_id user_id d in
              elim (create_tickets_cases crypto (p.new_id d.order) b.ticket_category_id now
                b.quantity 0 placed_order) [
                  | inl (t, run) ↦ inl (
                    unique_violation,
                    t,
                    ground (
                      arith,
                      e,
                      run,
                      p.find_unique-modify booking_id booking_id confirm_of d.booking,
                    ),
                  )
                  | inr run ↦ inr (
                    total,
                    ground arith,
                    e,
                    ground (
                      arith,
                      e,
                      run,
                      p.find_unique-modify booking_id booking_id confirm_of d.booking,
                    ),
                  )
                ]
          | inr (x, e) ↦ inl (x, d, ground arith)
        ]
      ]

  -- The transaction throws and changes nothing, answers again for a booking that has its order, or
  -- makes an order of a pending booking in time.
  pub confirm_in_transaction_cases :
      (C : Outcome HttpException (Db p) Confirmation → Type 0) (booking_id : ℕ)
      (payment_id : String) (user_id : ℕ) (promo_code_id : Option ℕ) (now : ℕ) (d : Db p)
      → ((e : HttpException) → C (err e d))
      → ((b : Booking) (o : ℕ) (order : Order)
          → p.find_unique booking_id d.booking ≡ some b
          → b.user_id ≡ user_id
          → b.status ≡ BookingStatus.confirmed
          → b.order_id ≡ some o
          → p.find_unique o d.order ≡ some order
          → C (ok (record { order_id = o; already_confirmed = true }) d))
      → ((b : Booking) (c : TicketCategory) (ev : Event) (total : ℤ)
          → p.find_unique booking_id d.booking ≡ some b
          → p.find_unique b.ticket_category_id d.ticket_category ≡ some c
          → p.find_unique c.event_id d.event ≡ some ev
          → b.user_id ≡ user_id
          → b.status ≡ BookingStatus.pending
          → now ≤ b.expires_at
          → order_amount promo_code_id c.price b.quantity now d ≡ ok total d
          → C (
              ok
                (record { order_id = p.new_id d.order; already_confirmed = false })
                (ordered booking_id b total payment_id user_id now d)))
      → C (confirm_in_transaction crypto booking_id payment_id user_id promo_code_id now d)
  unfolding confirm_in_transaction
  confirm_in_transaction_cases C booking_id payment_id user_id promo_code_id now d throws again
        first =
      elim (Option-cases (p.find_unique booking_id d.booking)) [
        | inl e ↦ ground (arith, throws missing)
        | inr (b, found) ↦
            elim (Option-cases (p.find_unique b.ticket_category_id d.ticket_category)) [
              | inl e ↦ ground (arith, throws missing, throws Http.record_not_found)
              | inr (c, fc) ↦ elim (Option-cases (p.find_unique c.event_id d.event)) [
                | inl e ↦ ground (arith, throws missing, throws Http.record_not_found)
                | inr (ev, fe) ↦ elim (Bool-cases (is_pending b.status)) [
                  | inl pending ↦
                      elim (confirm_pending_cases booking_id b c.price payment_id user_id
                        promo_code_id now d found) [
                          | inl (x, t, run) ↦ ground (arith, throws missing, throws x)
                          | inr (total, in_time, amount, run) ↦
                              ground (arith, throws missing, first b c ev total)
                        ]
                  | inr other ↦ elim (Option-cases b.order_id) [
                    | inl none_yet ↦ ground (arith, throws missing, throws processed)
                    | inr (o, has) ↦ elim (Option-cases (p.find_unique o d.order)) [
                      | inl gone ↦ ground (
                        arith,
                        throws missing,
                        throws processed,
                        throws (Http.not_found Http.order_missing),
                      )
                      | inr (order, here) ↦
                          ground (arith, throws missing, throws processed, again b o order)
                    ]
                  ]
                ]
              ]
            ]
      ]
