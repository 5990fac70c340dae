-- ===== src/Orders/Webhook.antt =====
-- backend/src/orders/orders.service.ts: what Stripe's notifications do.
pub mod Replay
pub mod Balance
use Prim.Native.String.{String}
use event_now.Prelude.{ℕ, false, ◌&&◌, Option, none, some, is_some, if◌then◌else◌}
use event_now.Prelude.Outcome.{ok, throw, pure, ◌>>=◌}
use event_now.Prisma.{Prisma}
use event_now.Http.{bad_request}
use event_now.Http
use event_now.Database.{Db, Handler, Booking, Order, NotificationType, notifications, create}
use event_now.Bookings.{is_confirmed}
use event_now.QrCode.{Crypto}
use event_now.Orders.{catching, confirm_payment}

-- A payment intent with the two entries of its metadata that the code reads.
pub record Intent : Type 0 where
  pub id : String
  pub booking_id : Option ℕ
  pub user_id : Option ℕ

pub data StripeEvent : Type 0 where
  payment_intent_succeeded payment_intent_failed requires_action : Intent → StripeEvent
  unhandled : StripeEvent

module _ {p : Prisma} where
  -- `booking.order`, included by its foreign key.
  abbrev pub order_of : Booking → Db p → Option Order
  order_of b d = elim b.order_id [ none ↦ none | some k ↦ p.find_unique k d.order ]

  module _ (crypto : Crypto) where
    succeeded_for : ℕ → ℕ → String → ℕ → Handler p (Unit {0})
    unfolding confirm_payment
    succeeded_for booking_id user_id payment_id now d = elim (p.find_unique booking_id d.booking) [
      | none ↦ ok tt d
      | some b ↦
          if is_confirmed b.status && is_some (order_of b d)
          then ok tt d
          else catching (confirm_payment crypto booking_id payment_id user_id none now) d
    ]

    pub handle_payment_intent_succeeded : Intent → ℕ → Handler p (Unit {0})
    unfolding succeeded_for
    handle_payment_intent_succeeded i now = elim i.booking_id [
      | none ↦ pure tt
      | some b ↦ elim i.user_id [ none ↦ pure tt | some u ↦ succeeded_for b u i.id now ]
    ]

  failed_for : ℕ → ℕ → Handler p (Unit {0})
  failed_for booking_id user_id = do
    _ ← create notifications (record {
      user_id = user_id;
      type = NotificationType.payment_failed;
      related_id = some booking_id;
      read = false;
    })
    pure tt

  pub handle_payment_intent_failed : Intent → Handler p (Unit {0})
  unfolding failed_for
  handle_payment_intent_failed i = elim i.booking_id [
    | none ↦ pure tt
    | some b ↦ elim i.user_id [ none ↦ pure tt | some u ↦ failed_for b u ]
  ]

  -- `handleStripeWebhook`. The event is what `constructEvent`, or `JSON.parse` without a secret,
  -- makes of the body; `none` is an exception of theirs.
  pub handle_stripe_webhook : Crypto → Option StripeEvent → ℕ → Handler p (Unit {0})
  unfolding handle_payment_intent_succeeded handle_payment_intent_failed
  handle_stripe_webhook crypto none now = throw (bad_request Http.webhook_invalid)
  handle_stripe_webhook crypto (some (payment_intent_succeeded i)) now =
      handle_payment_intent_succeeded crypto i now
  handle_stripe_webhook crypto (some (payment_intent_failed i)) now = handle_payment_intent_failed i
  handle_stripe_webhook crypto (some (requires_action i)) now = pure tt
  handle_stripe_webhook crypto (some unhandled) now = pure tt
