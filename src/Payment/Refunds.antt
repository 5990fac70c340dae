-- ===== src/Payment/Refunds.antt =====
-- When money goes back (`refundPayment` of backend/src/payment/payment.service.ts).
use Prim.Native.String.{String}
use event_now.Prelude.{ℕ, ◌<◌, ◌≡◌, refl, Option, some, List, arith, ◌⊎◌, Option-cases, inl, inr}
use event_now.Prelude.Outcome.{Outcome, ok, err}
use event_now.Prisma.{Prisma}
use event_now.Http.{HttpException, bad_request}
use event_now.Http
use event_now.Payment.{
  Stripe, World, PaymentIntent, succeeded, Refund, total_refunded, refund_payment,
}

-- What a refund that went through has met at Stripe.
pub record IsRefundable (s : Stripe) (id : String) (x : s.State) : Type 0 where
  pub intent : PaymentIntent
  pub refunds : List Refund
  pub retrieved : s.retrieve id x ≡ some intent
  pub paid : intent.status ≡ succeeded
  pub listed : s.list_refunds id x ≡ some refunds
  pub left : total_refunded refunds < intent.amount

module _ {p : Prisma} {s : Stripe} where
  -- Money goes back only for an intent that was paid and of which the refunds so far, of the first
  -- ten that Stripe lists, leave something; the database is not touched.
  pub refund_payment_cases :
      (C : Outcome HttpException (World p s) Refund → Type 0) (id : String) (amount : Option ℕ)
      (w : World p s)
      → ((e : HttpException) → C (err e w))
      → ((r : Refund) (x : s.State)
          → IsRefundable s id w.stripe
          → s.create_refund id amount w.stripe ≡ some (r, x)
          → C (ok r (record w { stripe = x })))
      → C (refund_payment id amount w)
  unfolding refund_payment
  refund_payment_cases C id amount w throws refunded =
      elim (Option-cases (s.retrieve id w.stripe)) [
        | inl fi ↦ ground (arith, no_id, unavailable)
        | inr (intent, fi) ↦ elim (Option-cases (s.list_refunds id w.stripe)) [
          | inl fl ↦ ground (arith, no_id, unavailable, not_paid)
          | inr (refunds, fl) ↦ elim (Option-cases (s.create_refund id amount w.stripe)) [
            | inl fc ↦ ground (arith, no_id, unavailable, not_paid, all_back)
            | inr ((r, x), fc) ↦ ground (
              arith,
              no_id,
              unavailable,
              not_paid,
              all_back,
              λ (paid : intent.status ≡ succeeded) (left : total_refunded refunds < intent.amount).
                  refunded r x
                    (record {
                      intent = intent;
                      refunds = refunds;
                      retrieved = fi;
                      paid = paid;
                      listed = fl;
                      left = left;
                    })
                    fc,
            )
          ]
        ]
      ]
    where
      no_id : C (err (bad_request Http.no_payment_id) w)
      no_id = throws _

      unavailable : C (err (bad_request Http.refund_unavailable) w)
      unavailable = throws _

      not_paid : C (err (bad_request Http.payment_not_refundable) w)
      not_paid = throws _

      all_back : C (err (bad_request Http.payment_already_refunded) w)
      all_back = throws _

  -- `refundPayment` leaves the database alone, and asks Stripe for a refund only of an intent that
  -- was paid and of which the refunds listed so far leave something.
  pub refund_payment-ok :
      (id : String) (amount : Option ℕ) (r : Refund) (w w' : World p s)
      → refund_payment id amount w ≡ ok r w'
      → IsRefundable s id w.stripe
        × (s.create_refund id amount w.stripe ≡ some (r, w'.stripe))
        × (w'.db ≡ w.db)
  refund_payment-ok id amount r w w' =
      refund_payment_cases
        (λ o.
          o ≡ ok r w'
          → IsRefundable s id w.stripe
            × (s.create_refund id amount w.stripe ≡ some (r, w'.stripe))
            × (w'.db ≡ w.db))
        id amount w (λ e h. absurd (ground arith))
        (λ r' x can made h. (can, ground arith, ground arith))

  -- The same as an equation.
  pub refund_payment_result :
      (id : String) (amount : Option ℕ) (w : World p s)
      → ((e : HttpException) × (refund_payment id amount w ≡ err e w))
        ⊎ ((r : Refund) × (x : s.State) × IsRefundable s id w.stripe
            × (refund_payment id amount w ≡ ok r (record w { stripe = x })))
  refund_payment_result id amount w =
      refund_payment_cases
        (λ o.
          ((e : HttpException) × (o ≡ err e w))
          ⊎ ((r : Refund) × (x : s.State) × IsRefundable s id w.stripe
              × (o ≡ ok r (record w { stripe = x }))))
        id amount w (λ e. inl (e, refl)) (λ r x can made. inr (r, x, can, refl))
