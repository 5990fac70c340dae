-- ===== src/PromoCodes/Tests.antt =====
-- The theorems on promo codes applied to a small database
-- (backend/src/promo-codes/promo-codes.service.ts).
use event_now.Prelude.{◌≡◌, ◌↔◌, some, none, refl, arith}
use event_now.Prelude.Int.{pos, neg_part}
use event_now.Prelude.Double.{of_cents}
use event_now.Prelude.Outcome.{ok, final}
use event_now.Prisma.Rows.{in_memory}
use event_now.Database.{PromoCode, fixed_amount}
use event_now.PromoCodes.{
  CreatePromoCodeDto, Validated, create_promo_code, calculate_discount, delete_promo_code,
  validate_promo_code_by_id,
}
use event_now.PromoCodes.Amounts.{calculate_discount_fixed}
use event_now.PromoCodes.Uses.{
  IsUsable, validate_promo_code_by_id_ok_iff, create_promo_code-validate,
}
use event_now.Tests.{sample, spring}

calculate_discount_fixed_example :
    neg_part
      (calculate_discount (of_cents (pos 250)) fixed_amount (of_cents (pos 300))).final_amount
    ≡ 0
calculate_discount_fixed_example =
    calculate_discount_fixed (of_cents (pos 250)) (of_cents (pos 300))

abbrev spring_offer : Validated
spring_offer = record {
  promo_code_id = 0;
  promo_code = spring;
  amounts = record { discount_amount = pos 500; final_amount = pos 2000 };
}

validate_promo_code_by_id_ok_iff_example :
    (validate_promo_code_by_id 0 (of_cents (pos 2500)) 1000 sample ≡ ok spring_offer sample) ↔ (
      (c : PromoCode) × (in_memory.find_unique 0 sample.promo_code ≡ some c)
      × IsUsable c 1000
      × (spring_offer ≡ record {
        promo_code_id = 0;
        promo_code = c;
        amounts =
            calculate_discount (of_cents (pos 2500)) c.discount_type (of_cents c.discount_value);
      })
      × (sample ≡ sample))
validate_promo_code_by_id_ok_iff_example =
    validate_promo_code_by_id_ok_iff 0 (of_cents (pos 2500)) 1000 spring_offer sample sample

withdrawn : delete_promo_code 9 0 sample ≡ ok tt (final (delete_promo_code 9 0 sample))
unfolding delete_promo_code
withdrawn = refl

abbrev summer : CreatePromoCodeDto
summer = record {
  code = "SUMMER";
  event_id = 0;
  discount_type = fixed_amount;
  discount_value = pos 300;
  max_uses = none;
  expires_at = none;
}

made : create_promo_code 9 summer sample ≡ ok 1 (final (create_promo_code 9 summer sample))
unfolding create_promo_code
made = refl

create_promo_code-validate_example :
    (v : Validated) × (validate_promo_code_by_id 1
        (of_cents (pos 2500))
        1000
        (final (create_promo_code 9 summer sample))
      ≡ ok v (final (create_promo_code 9 summer sample)))
    × (v.promo_code.discount_value ≡ pos 300)
    × (v.amounts ≡ calculate_discount (of_cents (pos 2500)) fixed_amount (of_cents (pos 300)))
create_promo_code-validate_example =
    create_promo_code-validate 9 1 summer (of_cents (pos 2500)) 1000 sample
      (final (create_promo_code 9 summer sample)) made (λ t e. absurd (ground (arith, e)))
      (λ t e. absurd (ground (arith, e)))
