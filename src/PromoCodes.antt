-- ===== src/PromoCodes.antt =====
-- backend/src/promo-codes/promo-codes.service.ts. Stored amounts are in cents, a percentage in
-- hundredths of a percent; the discount is computed in doubles, as the source does.
pub mod Amounts
pub mod Uses
mod Tests
use Prim.Native.String.{String}
use text.Mathlib.Text.{◌==◌ as str_eq}
use event_now.Prelude.{
  ℕ, ◌+◌, ◌-◌, ◌*◌, ◌/◌, min, Bool, true, false, not, ◌&&◌, Option, none, some, List, ltb, leb,
  ◌==◌, is_some, if◌then◌else◌,
}
use event_now.Prelude.Int.{ℤ}
use event_now.Prelude.Double.{
  Double, of_cents, multiply, divide_by, subtract, math_min, max_zero, cents_of,
}
use event_now.Prelude.Outcome.{ok, transaction, throw_if, or_throw, pure, get, ◌>>=◌, ◌>>◌}
use event_now.Prisma.{Prisma}
use event_now.Http.{bad_request, not_found, forbidden}
use event_now.Http
use event_now.Database.{
  Handler, PromoCode, DiscountType, percentage, fixed_amount, Event, promo_codes, events,
  find_or_throw, create, update,
}

pub record CreatePromoCodeDto : Type 0 where
  pub code : String
  pub event_id : ℕ
  pub discount_type : DiscountType
  pub discount_value : ℤ
  pub max_uses : Option ℕ
  pub expires_at : Option ℕ

pub record ValidatePromoCodeDto : Type 0 where
  pub code : String
  pub event_id : ℕ
  pub order_amount : Double

pub record Discount : Type 0 where
  pub discount_amount : ℤ
  pub final_amount : ℤ

-- `calculateDiscount`.
pub calculate_discount : Double → DiscountType → Double → Discount
calculate_discount amount percentage value =
    let discount = multiply amount (divide_by value 100) in
    record {
      discount_amount = cents_of discount;
      final_amount = cents_of (subtract amount discount);
    }
calculate_discount amount fixed_amount value = record {
  discount_amount = cents_of (math_min value amount);
  final_amount = cents_of (max_zero (subtract amount value));
}

-- `promoCode.expiresAt && new Date() > promoCode.expiresAt`.
abbrev pub is_past : Option ℕ → ℕ → Bool
is_past none now = false
is_past (some t) now = ltb t now

-- `promoCode.maxUses !== null && promoCode.currentUses >= promoCode.maxUses`.
abbrev pub is_exhausted : Option ℕ → ℕ → Bool
is_exhausted none uses = false
is_exhausted (some most) uses = leb most uses

-- The unique key `code_eventId`.
abbrev pub has_code : String → ℕ → PromoCode → Bool
has_code code event_id c = str_eq c.code code && c.event_id == event_id

-- A promo code with its key, and the amounts.
pub record Validated : Type 0 where
  pub promo_code_id : ℕ
  pub promo_code : PromoCode
  pub amounts : Discount

module _ {p : Prisma} where
  pub create_promo_code : ℕ → CreatePromoCodeDto → Handler p ℕ
  create_promo_code user_id dto = do
    event ← find_or_throw events dto.event_id (not_found Http.event_missing)
    throw_if (not (event.organizer_id == user_id)) (forbidden Http.not_promo_organizer)
    db ← get
    throw_if (is_some (p.find_first (has_code dto.code dto.event_id) db.promo_code))
        (bad_request Http.promo_exists)
    create promo_codes (record {
      code = dto.code;
      event_id = dto.event_id;
      created_by_id = user_id;
      discount_type = dto.discount_type;
      discount_value = dto.discount_value;
      max_uses = dto.max_uses;
      current_uses = 0;
      expires_at = dto.expires_at;
      is_active = true;
    })

  -- The checks that `validatePromoCode` and `validatePromoCodeById` share, and their answer.
  pub check_promo_code : ℕ → PromoCode → Double → ℕ → Handler p Validated
  check_promo_code id code order_amount now = do
    throw_if (not code.is_active) (bad_request Http.promo_inactive)
    throw_if (is_past code.expires_at now) (bad_request Http.promo_expired)
    throw_if (is_exhausted code.max_uses code.current_uses) (bad_request Http.promo_exhausted)
    pure (record {
      promo_code_id = id;
      promo_code = code;
      amounts = calculate_discount order_amount code.discount_type (of_cents code.discount_value);
    })

  pub validate_promo_code : ValidatePromoCodeDto → ℕ → Handler p Validated
  unfolding check_promo_code
  validate_promo_code dto now = do
    db ← get
    (id, code) ←
        or_throw (p.find_first (has_code dto.code dto.event_id) db.promo_code)
          (not_found Http.promo_missing)
    check_promo_code id code dto.order_amount now

  unfoldable pub validate_promo_code_by_id : ℕ → Double → ℕ → Handler p Validated
  unfolding check_promo_code
  validate_promo_code_by_id id order_amount now = do
    code ← find_or_throw promo_codes id (not_found Http.promo_missing)
    check_promo_code id code order_amount now

  unfoldable pub apply_promo_code : ℕ → Handler p (Unit {0})
  apply_promo_code id = update promo_codes id (λ c. record c { current_uses = c.current_uses + 1 })

  pub get_event_promo_codes : ℕ → ℕ → Handler p (List (ℕ × PromoCode))
  get_event_promo_codes user_id event_id = do
    event ← find_or_throw events event_id (not_found Http.event_missing)
    throw_if (not (event.organizer_id == user_id)) (forbidden Http.not_promo_organizer)
    db ← get
    pure (p.find_many (λ c. c.event_id == event_id) db.promo_code)

  pub delete_promo_code : ℕ → ℕ → Handler p (Unit {0})
  delete_promo_code user_id id = do
    code ← find_or_throw promo_codes id (not_found Http.promo_missing)
    throw_if (not (code.created_by_id == user_id)) (forbidden Http.not_promo_creator)
    update promo_codes id (λ c. record c { is_active = false })
