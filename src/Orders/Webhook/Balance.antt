-- ===== src/Orders/Webhook/Balance.antt =====
-- Stripe's notifications and the stock (backend/src/orders/orders.service.ts).
use Prim.Native.String.{String}
use event_now.Prelude.{
  ℕ, Option, none, some, ◌&&◌, is_some, arith, Option-cases, Bool-cases, inl, inr,
}
use event_now.Prelude.Outcome.{final}
use event_now.Prisma.{Prisma}
use event_now.Database.{Db}
use event_now.Bookings.{is_confirmed}
use event_now.Bookings.Stock.{Balanced}
use event_now.QrCode.{Crypto}
use event_now.Orders.Confirm.Effects.{confirm_payment-Balanced}
use event_now.Orders.Webhook.{
  StripeEvent, payment_intent_succeeded, payment_intent_failed, requires_action, unhandled,
  order_of, succeeded_for, failed_for, handle_payment_intent_succeeded,
  handle_payment_intent_failed, handle_stripe_webhook,
}

module _ {p : Prisma} (crypto : Crypto) where
  succeeded_for-Balanced :
      (booking_id user_id : ℕ) (payment_id : String) (now : ℕ) (d : Db p)
      → Balanced d
      → Balanced (final (succeeded_for crypto booking_id user_id payment_id now d))
  unfolding succeeded_for
  succeeded_for-Balanced booking user payment now d b =
      elim (Option-cases (p.find_unique booking d.booking)) [
        | inl e ↦ ground (arith, e, b)
        | inr (x, e) ↦ elim (Bool-cases (is_confirmed x.status && is_some (order_of x d))) [
          | inl done ↦ ground (arith, e, done, b)
          | inr fresh ↦
              ground
                (arith, e, fresh, confirm_payment-Balanced crypto booking payment user none now d b)
        ]
      ]

  -- Whatever Stripe's event says and whatever comes of it, stock and holds still balance.
  pub handle_stripe_webhook-Balanced :
      (event : Option StripeEvent) (now : ℕ) (d : Db p)
      → Balanced d
      → Balanced (final (handle_stripe_webhook crypto event now d))
  unfolding handle_stripe_webhook handle_payment_intent_succeeded handle_payment_intent_failed
      failed_for
  handle_stripe_webhook-Balanced none now d b = b
  handle_stripe_webhook-Balanced (some (payment_intent_succeeded i)) now d b =
      elim (Option-cases i.booking_id) [
        | inl e ↦ ground (arith, e, b)
        | inr (u, e) ↦ elim (Option-cases i.user_id) [
          | inl e2 ↦ ground (arith, e, e2, b)
          | inr (v, e2) ↦ ground (arith, e, e2, succeeded_for-Balanced u v i.id now d b)
        ]
      ]
  handle_stripe_webhook-Balanced (some (payment_intent_failed i)) now d b =
      elim (Option-cases i.booking_id) [
        | inl e ↦ ground (arith, e, b)
        | inr (u, e) ↦ elim (Option-cases i.user_id) [
          | inl e2 ↦ ground (arith, e, e2, b)
          | inr (v, e2) ↦ ground (arith, e, e2, b)
        ]
      ]
  handle_stripe_webhook-Balanced (some (requires_action i)) now d b = b
  handle_stripe_webhook-Balanced (some unhandled) now d b = b
