-- ===== src/Payment.antt =====
-- backend/src/payment/payment.service.ts. Stripe is a parameter: what its calls answer and do to its
-- own records; `none` is a call that fails.
pub mod Refunds
mod Tests
use Prim.Native.String.{String}
use text.Mathlib.Text.{◌==◌ as str_eq}
use event_now.Prelude.{
  ℕ, ◌+◌, ◌*◌, Bool, true, false, not, Option, none, some, List, [], ◌∷◌, ltb, leb, if◌then◌else◌,
}
use event_now.Prelude.Int.{ℤ, pos, negsuc, ltbℤ, pos_part}
use event_now.Prelude.Outcome.{Outcome, ok, err, throw_if, or_throw, pure, get, ◌>>=◌, ◌>>◌}
use event_now.Prisma.{Prisma}
use event_now.Http.{HttpException, bad_request, record_not_found}
use event_now.Http
use event_now.Database.{Db, Booking, TicketCategory}
use event_now.Bookings.{owned_by, is_pending}

pub data PaymentStatus : Type 0 where
  succeeded not_succeeded : PaymentStatus

pub record PaymentIntent : Type 0 where
  pub status : PaymentStatus
  pub amount : ℕ

pub record Refund : Type 0 where
  pub status : PaymentStatus
  pub amount : ℕ

pub record Stripe : Type 1 where
  pub State : Type 0
  -- `paymentIntents.create` for an amount in cents: the new intent's id.
  pub create_intent : ℕ → State → Option (String × State)
  -- `paymentIntents.retrieve`.
  pub retrieve : String → State → Option PaymentIntent
  -- `refunds.list` for a payment intent, the first ten.
  pub list_refunds : String → State → Option (List Refund)
  -- `refunds.create`, of an amount or of all that is left.
  pub create_refund : String → Option ℕ → State → Option (Refund × State)

-- What a service works on that calls Stripe too.
pub record World (p : Prisma) (s : Stripe) : Type 0 where
  pub db : Db p
  pub stripe : s.State

pub data PaymentStart : Type 0 where
  free : (order_id : ℕ) (amount : ℤ) → PaymentStart
  started : (payment_id : String) (amount : ℤ) → PaymentStart

abbrev pub is_succeeded : PaymentStatus → Bool
is_succeeded succeeded = true
is_succeeded not_succeeded = false

-- The `reduce` of `refundPayment`.
unfoldable pub total_refunded : List Refund → ℕ
total_refunded [] = 0
total_refunded (r ∷ rs) = (if is_succeeded r.status then r.amount else 0) + total_refunded rs

module _ {p : Prisma} {s : Stripe} where
  -- A step on the database alone.
  abbrev pub on_db :
      {A : Type 0}
      → (Db p → Outcome HttpException (Db p) A)
      → World p s
      → Outcome HttpException (World p s) A
  on_db m w = elim (m w.db) [
    | ok a d ↦ ok a (record w { db = d })
    | err e d ↦ err e (record w { db = d })
  ]

  start_intent : ℤ → World p s → Outcome HttpException (World p s) PaymentStart
  start_intent amount w = elim (s.create_intent (pos_part amount) w.stripe) [
    | none ↦ err (bad_request Http.stripe_unavailable) w
    | some (id, stripe) ↦ ok (started id amount) (record w { stripe = stripe })
  ]

  unfoldable pub create_payment_intent :
      ℕ → ℕ → Option ℤ → ℕ → World p s → Outcome HttpException (World p s) PaymentStart
  unfolding start_intent
  create_payment_intent booking_id user_id override_amount now = do
    w ← get
    booking ←
        or_throw (owned_by user_id (p.find_unique booking_id w.db.booking))
          (bad_request Http.booking_missing)
    category ←
        or_throw (p.find_unique booking.ticket_category_id w.db.ticket_category) record_not_found
    throw_if (not (is_pending booking.status)) (bad_request Http.booking_processed)
    throw_if (ltb booking.expires_at now) (bad_request Http.booking_expired)
    let amount = chosen override_amount (pos (category.price * booking.quantity))
    throw_if (ltbℤ amount (pos 50)) (bad_request Http.amount_too_small)
    start_intent amount
    where
      chosen : Option ℤ → ℤ → ℤ
      chosen none price = price
      chosen (some a) price = a

  finish_refund : String → Option ℕ → World p s → Outcome HttpException (World p s) Refund
  finish_refund id amount w = elim (s.create_refund id amount w.stripe) [
    | none ↦ err (bad_request Http.refund_unavailable) w
    | some (r, stripe) ↦ ok r (record w { stripe = stripe })
  ]

  -- `refundPayment`; an amount is in cents.
  unfoldable pub refund_payment :
      String → Option ℕ → World p s → Outcome HttpException (World p s) Refund
  unfolding finish_refund
  refund_payment id amount = do
    throw_if (str_eq id "") (bad_request Http.no_payment_id)
    w ← get
    intent ← or_throw (s.retrieve id w.stripe) (bad_request Http.refund_unavailable)
    throw_if (not (is_succeeded intent.status)) (bad_request Http.payment_not_refundable)
    refunds ← or_throw (s.list_refunds id w.stripe) (bad_request Http.refund_unavailable)
    throw_if (leb intent.amount (total_refunded refunds))
        (bad_request Http.payment_already_refunded)
    finish_refund id amount
