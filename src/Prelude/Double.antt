-- ===== src/Prelude/Double.antt =====
-- The numbers of JavaScript, as far as the services compute with them: doubles with 53 bits, of a
-- size below 2^53. `nearest` rounds as IEEE 754 does, halves to even.
use Prim.Native.Nat.{ℕ, zero, suc, ◌+◌, ◌-◌, ◌*◌, ◌/◌, ◌%◌, ◌^◌}
use mathlib.Core.Bool.{Bool, true, false, ◌&&◌, ◌||◌}
use event_now.Prelude.Tests.{ltb, leb, ◌==◌, if◌then◌else◌}
use event_now.Prelude.Int.{ℤ, pos, negsuc, neg, pos_part, neg_part, minus, ltbℤ}

-- The number `mantissa / 2 ^ scale`.
pub record Double : Type 0 where
  pub mantissa : ℤ
  pub scale : ℕ

-- The first scale at which n / d has 53 bits. A product of two doubles is above 2^-2100, for which the
-- fuel is enough; a quotient that is 0 is left at any scale.
unfoldable pub scale_of : ℕ → ℕ → ℕ → ℕ → ℕ
scale_of zero k n d = k
scale_of (suc fuel) k n d = elim (leb (2 ^ 52 * d) (n * 2 ^ k)) [
  | true ↦ k
  | false ↦ scale_of fuel (suc k) n d
]

-- The integer nearest to n / d, of two the even one.
abbrev pub half_to_even : ℕ → ℕ → ℕ
half_to_even n d =
    if ltb d (2 * (n % d)) || (2 * (n % d) == d && n / d % 2 == 1) then n / d + 1 else n / d

abbrev pub nearest_at : ℕ → ℕ → ℕ → ℕ
nearest_at k n d = half_to_even (n * 2 ^ k) d

-- The double nearest to a fraction.
unfoldable pub nearest : ℤ → ℕ → Double
unfolding scale_of
nearest (pos zero) d = record { mantissa = pos 0; scale = 0 }
nearest (pos (suc n)) d =
    let k = scale_of 2200 0 (suc n) d in
    record { mantissa = pos (nearest_at k (suc n) d); scale = k }
nearest (negsuc n) d =
    let k = scale_of 2200 0 (suc n) d in
    record { mantissa = neg (nearest_at k (suc n) d); scale = k }

-- The product of an integer and a number.
abbrev pub times : ℤ → ℕ → ℤ
times (pos m) n = pos (m * n)
times (negsuc m) n = neg (suc m * n)

abbrev pub product : ℤ → ℤ → ℤ
product a (pos n) = times a n
product a (negsuc n) = minus (neg_part a * suc n) (pos_part a * suc n)

-- A Decimal column of two places read by `Number`, or such a number of a JSON body.
unfoldable pub of_cents : ℤ → Double
unfolding nearest
of_cents n = nearest n 100

unfoldable pub multiply : Double → Double → Double
unfolding nearest
multiply a b = nearest (product a.mantissa b.mantissa) (2 ^ (a.scale + b.scale))

-- The product and the quotient with a small integer.
unfoldable pub multiply_by : Double → ℕ → Double
unfolding nearest
multiply_by a n = nearest (times a.mantissa n) (2 ^ a.scale)

unfoldable pub divide_by : Double → ℕ → Double
unfolding nearest
divide_by a n = nearest a.mantissa (2 ^ a.scale * n)

unfoldable pub subtract : Double → Double → Double
unfolding nearest
subtract a b =
    nearest
      (minus (pos_part a.mantissa * 2 ^ b.scale + neg_part b.mantissa * 2 ^ a.scale)
        (pos_part b.mantissa * 2 ^ a.scale + neg_part a.mantissa * 2 ^ b.scale))
      (2 ^ (a.scale + b.scale))

abbrev pub is_less : Double → Double → Bool
is_less a b = ltbℤ (times a.mantissa (2 ^ b.scale)) (times b.mantissa (2 ^ a.scale))

-- `Math.min(a, b)` and `Math.max(0, a)`.
abbrev pub math_min : Double → Double → Double
math_min a b = if is_less b a then b else a

abbrev pub zero_double : Double
zero_double = record { mantissa = pos 0; scale = 0 }

abbrev pub max_zero : Double → Double
max_zero a = if ltbℤ a.mantissa (pos 0) then zero_double else a

-- `Math.round`: the nearest integer, halves up.
abbrev pub math_round : Double → ℤ
math_round a = elim a.mantissa [
  | pos m ↦ pos ((2 * m + 2 ^ a.scale) / 2 ^ suc a.scale)
  | negsuc m ↦ neg ((2 * suc m + 2 ^ a.scale - 1) / 2 ^ suc a.scale)
]

-- The cents of `Math.round(x * 100) / 100`.
unfoldable pub cents_of : Double → ℤ
unfolding multiply_by
cents_of x = math_round (multiply_by x 100)
