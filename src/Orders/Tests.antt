-- ===== src/Orders/Tests.antt =====
-- The theorems on orders applied to a small database (backend/src/orders/orders.service.ts).
use event_now.Prelude.{refl, true, false, none, some, ◌≡◌}
use event_now.Prelude.Outcome.{ok, final}
use event_now.Orders.{
  confirm_payment, confirm_in_transaction, after_confirmation, create_tickets, order_amount, replay,
  count_use, confirm_pending,
}
use event_now.Orders.Confirm.Effects.{IsFirst, confirm_payment-IsFirst, confirm_payment_idempotent}
use event_now.Prisma.Rows.{in_memory}
use event_now.QrCode.{generate_qr_code}
use event_now.Orders.Webhook.{payment_intent_succeeded, handle_stripe_webhook}
use event_now.Orders.Webhook.Replay.{confirm_payment-handle_stripe_webhook}
use event_now.Tests.{sample, crypto}

first_run :
    confirm_payment crypto 1 "pi_2" 7 none 1000 sample
    ≡ ok
        (record { order_id = 0; already_confirmed = false })
        (final (confirm_payment crypto 1 "pi_2" 7 none 1000 sample))
unfolding confirm_payment confirm_in_transaction after_confirmation create_tickets order_amount
    count_use confirm_pending replay generate_qr_code
first_run = refl

confirm_payment-IsFirst_example :
    IsFirst in_memory 1 "pi_2" 7 none 1000 0 sample
      (final (confirm_payment crypto 1 "pi_2" 7 none 1000 sample))
confirm_payment-IsFirst_example =
    confirm_payment-IsFirst crypto 1 "pi_2" 7 none 1000 0 sample
      (final (confirm_payment crypto 1 "pi_2" 7 none 1000 sample)) first_run

confirm_payment_idempotent_example :
    confirm_payment crypto 1 "pi_9" 7
      (some 4)
      9000
      (final (confirm_payment crypto 1 "pi_2" 7 none 1000 sample))
    ≡ ok
        (record { order_id = 0; already_confirmed = true })
        (final (confirm_payment crypto 1 "pi_2" 7 none 1000 sample))
confirm_payment_idempotent_example =
    confirm_payment_idempotent crypto 1 "pi_2" "pi_9" 7 none (some 4) 1000 9000 0 sample
      (final (confirm_payment crypto 1 "pi_2" 7 none 1000 sample)) first_run

confirm_payment-handle_stripe_webhook_example :
    handle_stripe_webhook crypto
      (some
        (payment_intent_succeeded (record { id = "pi_2"; booking_id = some 1; user_id = some 7 })))
      2000
      (final (confirm_payment crypto 1 "pi_2" 7 none 1000 sample))
    ≡ ok tt (final (confirm_payment crypto 1 "pi_2" 7 none 1000 sample))
confirm_payment-handle_stripe_webhook_example =
    confirm_payment-handle_stripe_webhook crypto 1 "pi_2" 7 none 1000 0 sample
      (final (confirm_payment crypto 1 "pi_2" 7 none 1000 sample)) "pi_2" 7 2000 first_run
