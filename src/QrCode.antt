-- ===== src/QrCode.antt =====
-- The codes on tickets: `generateQRCode` of backend/src/orders/orders.service.ts and
-- `normalizeQrCodeInput` of backend/src/tickets/tickets.service.ts. A text is the list of its code
-- points.
pub mod RoundTrip
use Prim.Native.Char.{code}
use Prim.Native.String
use Prim.Native.String.{String}
use event_now.Prelude.{
  ℕ, zero, suc, ◌+◌, ◌-◌, ◌/◌, ◌%◌, ◌≤◌, ◌≡◌, Bool, true, false, not, ◌&&◌, ◌||◌, List, [], ◌∷◌,
  ◌++◌, map, ltb, leb, ◌==◌, if◌then◌else◌, filterb, all,
}
use mathlib.Core.List.{reverse}

abbrev pub codes : String → List ℕ
codes String.[] = []
codes (String.◌∷◌ c s) = code c ∷ codes s

abbrev pub is_digit : ℕ → Bool
is_digit c = leb b'0' c && leb c b'9'

-- A hexadecimal digit as `digest('hex')` writes it.
abbrev pub is_hex : ℕ → Bool
is_hex c = is_digit c || (leb b'a' c && leb c b'f')

-- White space as `trim` and `\s` take it.
abbrev pub is_space : ℕ → Bool
is_space c =
    (leb 9 c && leb c 13)
    || c == 32
    || c == 160
    || c == 0x1680
    || (leb 0x2000 c && leb c 0x200a)
    || c == 0x2028
    || c == 0x2029
    || c == 0x202f
    || c == 0x205f
    || c == 0x3000
    || c == 0xfeff

-- The class [\u2010-\u2015\u2212\uFE58\uFE63\uFF0D].
abbrev pub is_dash : ℕ → Bool
is_dash c =
    (leb 0x2010 c && leb c 0x2015) || c == 0x2212 || c == 0xfe58 || c == 0xfe63 || c == 0xff0d

unfoldable pub to_dash : ℕ → ℕ
to_dash c = if is_dash c then b'-' else c

-- `toUpperCase` on ASCII, which a ticket code is made of.
unfoldable pub to_upper : ℕ → ℕ
to_upper c = if leb b'a' c && leb c b'z' then c - 32 else c

unfoldable pub trim_start : List ℕ → List ℕ
trim_start [] = []
trim_start (c ∷ s) = if is_space c then trim_start s else c ∷ s

unfoldable pub trim : List ℕ → List ℕ
unfolding trim_start
trim s = reverse (trim_start (reverse (trim_start s)))

unfoldable pub remove_spaces : List ℕ → List ℕ
remove_spaces s = filterb (λ c. not (is_space c)) s

unfoldable pub normalize_qr_code_input : List ℕ → List ℕ
unfolding trim to_dash remove_spaces to_upper
normalize_qr_code_input raw = map to_upper (remove_spaces (map to_dash (trim raw)))

-- The decimal digits of a number, on fuel; a number has at most as many digits as its value plus 1.
decimal_from : ℕ → ℕ → List ℕ → List ℕ
decimal_from zero n acc = acc
decimal_from (suc fuel) n acc =
    let digits = (b'0' + n % 10) ∷ acc in
    let rest = decimal_from fuel (n / 10) digits in if n / 10 == 0 then digits else rest

pub decimal : ℕ → List ℕ
unfolding decimal_from
decimal n = decimal_from (n + 1) n []

-- Equality of texts.
abbrev pub same_code : List ℕ → List ℕ → Bool
same_code [] [] = true
same_code [] (d ∷ t) = false
same_code (c ∷ s) [] = false
same_code (c ∷ s) (d ∷ t) = c == d && same_code s t

-- What `crypto` and the random bytes give for an order, an index and a time: the first 16 digits of
-- a SHA-256 digest in hexadecimal.
pub record Crypto : Type 0 where
  pub digest : (order_id index timestamp : ℕ) → List ℕ
  pub digest-hex :
      (order_id index timestamp : ℕ) → all is_hex (digest order_id index timestamp) ≡ true

unfoldable pub generate_qr_code : Crypto → ℕ → ℕ → ℕ → List ℕ
unfolding decimal to_upper
generate_qr_code crypto order_id index timestamp =
    codes "TICKET-"
    ++ (map to_upper (crypto.digest order_id index timestamp) ++ codes "-" ++ decimal timestamp)
