-- ===== src/Payment/Tests.antt =====
-- The theorem on refunds applied to a small account (backend/src/payment/payment.service.ts).
use event_now.Prelude.{◌≡◌, refl, none, [], ◌∷◌}
use event_now.Prelude.Outcome.{ok}
use event_now.Prisma.Rows.{in_memory}
use event_now.Payment.{World, Refund, succeeded, refund_payment, finish_refund, total_refunded}
use event_now.Tests.{sample, account}

abbrev shop : World in_memory account
shop = record { db = sample; stripe = [] }

abbrev all_back : Refund
all_back = record { amount = 5000; status = succeeded }

paid_back :
    refund_payment "pi_1" none shop ≡ ok all_back (record { db = sample; stripe = all_back ∷ [] })
unfolding refund_payment finish_refund total_refunded
paid_back = refl
