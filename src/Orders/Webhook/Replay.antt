-- ===== src/Orders/Webhook/Replay.antt =====
-- Stripe's event for a payment that the client has confirmed already
-- (backend/src/orders/orders.service.ts).
use Prim.Native.String.{String}
use event_now.Prelude.{ℕ, ◌≡◌, Option, some, false, arith}
use event_now.Prelude.Outcome.{ok}
use event_now.Prisma.{Prisma}
use event_now.Database.{Db}
use event_now.QrCode.{Crypto}
use event_now.Orders.{confirm_payment}
use event_now.Orders.Confirm.Effects.{confirm_payment-IsFirst}
use event_now.Orders.Webhook.{
  payment_intent_succeeded, handle_stripe_webhook, handle_payment_intent_succeeded, succeeded_for,
}

module _ {p : Prisma} (crypto : Crypto) where
  -- Once the client has confirmed the payment of a booking, Stripe's event for this booking, whoever
  -- its metadata name and whenever it comes, changes nothing.
  pub confirm_payment-handle_stripe_webhook :
      (booking_id : ℕ) (payment_id : String) (user_id : ℕ) (promo_code_id : Option ℕ) (now : ℕ)
      (o : ℕ) (d d' : Db p) (id : String) (payer later : ℕ)
      → confirm_payment crypto booking_id payment_id user_id promo_code_id now d
        ≡ ok (record { order_id = o; already_confirmed = false }) d'
      → handle_stripe_webhook crypto
          (some (
            payment_intent_succeeded
              (record { id = id; booking_id = some booking_id; user_id = some payer })))
          later
          d'
        ≡ ok tt d'
  unfolding handle_stripe_webhook handle_payment_intent_succeeded succeeded_for
  confirm_payment-handle_stripe_webhook booking_id payment_id user_id promo_code_id now o d d' id
        payer later run =
      let first =
        confirm_payment-IsFirst crypto booking_id payment_id user_id promo_code_id now o d d' run in
      ground (arith, first.confirmed, first.paid)
