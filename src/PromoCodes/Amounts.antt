-- ===== src/PromoCodes/Amounts.antt =====
-- The amounts of `calculateDiscount` (backend/src/promo-codes/promo-codes.service.ts).
use Prim.Native.Nat.{◌^◌}
use event_now.Prelude.{ℕ, zero, suc, ◌*◌, ◌≡◌, ap, ◌∙◌, refl, arith}
use event_now.Prelude.Int.{ℤ, pos, negsuc, neg_part}
use event_now.Prelude.Double.{
  Double, multiply, divide_by, scale_of, math_round, nearest, of_cents, multiply_by, subtract,
  max_zero, cents_of, zero_double,
}
use event_now.Database.{percentage, fixed_amount}
use event_now.PromoCodes.{calculate_discount}

-- The doubles: 0.29 and 1.15 at 50 % lose a cent, and 25.25 at 20 % loses none.
lost_cent :
    (calculate_discount (of_cents (pos 29)) percentage (of_cents (pos 5000))
      ≡ record { discount_amount = pos 14; final_amount = pos 14 })
    × (calculate_discount (of_cents (pos 115)) percentage (of_cents (pos 5000))
        ≡ record { discount_amount = pos 57; final_amount = pos 57 })
    × (calculate_discount (of_cents (pos 2525)) percentage (of_cents (pos 2000))
        ≡ record { discount_amount = pos 505; final_amount = pos 2020 })
unfolding calculate_discount of_cents multiply multiply_by divide_by subtract cents_of nearest
    scale_of
lost_cent = (refl, refl, refl)

nearest-pos : (n d : ℕ) → neg_part (math_round (nearest (pos n) d)) ≡ 0
unfolding nearest
nearest-pos zero d = refl
nearest-pos (suc n) d = refl

cents_of-pos : (m k : ℕ) → neg_part (cents_of (record { mantissa = pos m; scale = k })) ≡ 0
unfolding cents_of multiply_by
cents_of-pos m k = nearest-pos (m * 100) (2 ^ k)

max_zero-cents : (a : Double) → neg_part (cents_of (max_zero a)) ≡ 0
max_zero-cents a = sign a.mantissa a.scale
  where
    sign : (m : ℤ) (k : ℕ) → neg_part (cents_of (max_zero (record { mantissa = m; scale = k }))) ≡ 0
    sign (pos m) k =
        let same : max_zero (record { mantissa = pos m; scale = k })
            ≡ record { mantissa = pos m; scale = k } =
          ground arith in
        ap (λ (x : Double). neg_part (cents_of x)) same ∙ cents_of-pos m k
    sign (negsuc m) k =
        let same : max_zero (record { mantissa = negsuc m; scale = k }) ≡ zero_double =
          ground arith in
        ap (λ (x : Double). neg_part (cents_of x)) same ∙ cents_of-pos 0 0

-- Whatever the amount and the value of a fixed discount, what is left to pay is not negative.
pub calculate_discount_fixed :
    (amount value : Double)
    → neg_part (calculate_discount amount fixed_amount value).final_amount ≡ 0
unfolding calculate_discount
calculate_discount_fixed amount value = max_zero-cents (subtract amount value)
