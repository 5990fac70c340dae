-- ===== src/QrCode/RoundTrip.antt =====
-- The codes that orders print and the codes that the staff's scanners send
-- (backend/src/orders/orders.service.ts, backend/src/tickets/tickets.service.ts).
use event_now.Prelude.{
  ℕ, zero, suc, ◌+◌, ◌-◌, ◌*◌, ◌<◌, ◌/◌, ◌%◌, ◌≡◌, refl, Bool, true, false, ◌&&◌, ◌||◌, List, [],
  ◌∷◌, ◌++◌, map, leb, ◌==◌, all, arith, ap, ◌∙◌, Bool-cases, inl, inr,
}
use event_now.QrCode.{
  codes, is_hex, is_digit, is_space, is_dash, to_dash, to_upper, trim_start, trim, remove_spaces,
  normalize_qr_code_input, decimal, decimal_from, Crypto, generate_qr_code,
}
use mathlib.Core.List.{reverse, reverse_aux}

-- A code point that normalising leaves alone: a capital letter, a digit or the hyphen.
abbrev pub plain : ℕ → Bool
plain c = is_digit c || (leb b'A' c && leb c b'Z') || c == b'-'

plain-to_upper : (c : ℕ) → is_hex c ≡ true → plain (to_upper c) ≡ true
unfolding to_upper
plain-to_upper c h = ground arith

plain-is_space : (c : ℕ) → plain c ≡ true → is_space c ≡ false
plain-is_space c h = ground arith

plain_fixed : (c : ℕ) → plain c ≡ true → to_upper (to_dash c) ≡ c
unfolding to_upper to_dash
plain_fixed c h = ground arith

-- What normalising does beside trimming.
abbrev clean : List ℕ → List ℕ
clean s = map to_upper (remove_spaces (map to_dash s))

is_space-to_dash : (c : ℕ) → is_space (to_dash c) ≡ is_space c
unfolding to_dash
is_space-to_dash c = ground arith

clean_space : (c : ℕ) (s : List ℕ) → is_space c ≡ true → clean (c ∷ s) ≡ clean s
unfolding remove_spaces
clean_space c s h = ground (arith, is_space-to_dash c)

clean_other :
    (c : ℕ) (s : List ℕ) → is_space c ≡ false → clean (c ∷ s) ≡ to_upper (to_dash c) ∷ clean s
unfolding remove_spaces
clean_other c s h = ground (arith, is_space-to_dash c)

clean-trim_start : (s : List ℕ) → clean (trim_start s) ≡ clean s
unfolding trim_start
clean-trim_start [] = refl
clean-trim_start (c ∷ s) = elim (Bool-cases (is_space c)) [
  | inl space ↦ ground (arith, clean-trim_start s, clean_space c s space)
  | inr other ↦ ground (arith)
]

clean-reverse_aux : (s t : List ℕ) → clean (reverse_aux s t) ≡ reverse_aux (clean s) (clean t)
unfolding remove_spaces
clean-reverse_aux [] t = refl
clean-reverse_aux (c ∷ s) t = elim (Bool-cases (is_space c)) [
  | inl space ↦
      clean-reverse_aux s (c ∷ t) ∙ ground (arith, clean_space c s space, clean_space c t space)
  | inr other ↦
      clean-reverse_aux s (c ∷ t) ∙ ground (arith, clean_other c s other, clean_other c t other)
]

reverse_aux_twice : (s t : List ℕ) → reverse_aux (reverse_aux s t) [] ≡ reverse_aux t s
reverse_aux_twice [] t = refl
reverse_aux_twice (c ∷ s) t = reverse_aux_twice s (c ∷ t)

clean-trim : (s : List ℕ) → clean (trim s) ≡ clean s
unfolding trim remove_spaces
clean-trim s =
    let start = trim_start s in
    let end = trim_start (reverse start) in
    clean-reverse_aux end []
    ∙ ap reverse (
        clean-trim_start (reverse start)
        ∙ clean-reverse_aux start []
        ∙ ap reverse (clean-trim_start s))
    ∙ reverse_aux_twice (clean s) []

-- A scanner or a keyboard may write a code with spaces in it, with a letter in lower case and with
-- another dash for the hyphen.
pub data Typed : List ℕ → List ℕ → Type 0 where
  nothing : Typed [] []
  space : {c : ℕ} {s t : List ℕ} → is_space c ≡ true → Typed s t → Typed (c ∷ s) t
  same : {c : ℕ} {s t : List ℕ} → plain c ≡ true → Typed s t → Typed (c ∷ s) (c ∷ t)
  lower :
      {c : ℕ} {s t : List ℕ}
      → (leb b'A' c && leb c b'Z') ≡ true
      → Typed s t
      → Typed ((c + 32) ∷ s) (c ∷ t)
  dash : {c : ℕ} {s t : List ℕ} → is_dash c ≡ true → Typed s t → Typed (c ∷ s) (b'-' ∷ t)

raised : (c : ℕ) → (leb b'A' c && leb c b'Z') ≡ true → to_upper (to_dash (c + 32)) ≡ c
unfolding to_upper to_dash
raised c h = ground arith

hyphen : (c : ℕ) → is_dash c ≡ true → to_upper (to_dash c) ≡ b'-'
unfolding to_upper to_dash
hyphen c h = ground arith

clean-Typed : {s t : List ℕ} → Typed s t → clean s ≡ t
unfolding remove_spaces
clean-Typed nothing = refl
clean-Typed (space {c} {s} {t} h r) = clean_space c s h ∙ clean-Typed r
clean-Typed (same {c} {s} {t} h r) =
    clean_other c s (plain-is_space c h)
    ∙ ap (λ x. x ∷ clean s) (plain_fixed c h)
    ∙ ap (λ x. c ∷ x) (clean-Typed r)
clean-Typed (lower {c} {s} {t} h r) =
    clean_other (c + 32) s (ground arith)
    ∙ ap (λ x. x ∷ clean s) (raised c h)
    ∙ ap (λ x. c ∷ x) (clean-Typed r)
clean-Typed (dash {c} {s} {t} h r) =
    clean_other c s (ground arith)
    ∙ ap (λ x. x ∷ clean s) (hyphen c h)
    ∙ ap (λ x. b'-' ∷ x) (clean-Typed r)

-- Whatever spaces, letters in lower case and Unicode dashes a code is typed with, normalising gives
-- the code back.
pub normalize_qr_code_input-Typed :
    (raw code : List ℕ) → Typed raw code → normalize_qr_code_input raw ≡ code
unfolding normalize_qr_code_input
normalize_qr_code_input-Typed raw code typed = clean-trim raw ∙ clean-Typed typed

all-append : (q : ℕ → Bool) (s t : List ℕ) → all q s ≡ true → all q t ≡ true → all q (s ++ t) ≡ true
all-append q [] t hs ht = ht
all-append q (c ∷ s) t hs ht = ground (arith, all-append q s t)

plain_digest : (s : List ℕ) → all is_hex s ≡ true → all plain (map to_upper s) ≡ true
plain_digest [] h = refl
plain_digest (c ∷ s) h = ground (arith, plain-to_upper c, plain_digest s)

plain-decimal_from :
    (fuel n : ℕ) (acc : List ℕ) → all plain acc ≡ true → all plain (decimal_from fuel n acc) ≡ true
unfolding decimal_from
plain-decimal_from zero n acc h = h
plain-decimal_from (suc fuel) n acc h =
    let digits : all plain ((b'0' + n % 10) ∷ acc) ≡ true = ground arith in
    ground (arith, digits, plain-decimal_from fuel (n / 10) ((b'0' + n % 10) ∷ acc))

Typed-plain : (s : List ℕ) → all plain s ≡ true → Typed s s
Typed-plain [] h = nothing
Typed-plain (c ∷ s) h = same (ground arith) (Typed-plain s (ground arith))

plain_generated :
    (crypto : Crypto) (order_id index timestamp : ℕ)
    → all plain (generate_qr_code crypto order_id index timestamp) ≡ true
unfolding generate_qr_code decimal
plain_generated crypto order_id index timestamp =
    let digest = crypto.digest order_id index timestamp in
    let head = map to_upper digest ++ codes "-" in
    all-append plain (codes "TICKET-") (head ++ decimal timestamp) refl (
      all-append plain head (decimal timestamp)
        (all-append plain (map to_upper digest) (codes "-")
          (plain_digest digest (crypto.digest-hex order_id index timestamp)) refl)
        (plain-decimal_from (timestamp + 1) timestamp [] refl))

-- The digits of a number, read in base ten.
abbrev pub value : List ℕ → ℕ → ℕ
value [] acc = acc
value (c ∷ s) acc = value s (acc * 10 + (c - b'0'))

value-decimal_from :
    (fuel n : ℕ) (s : List ℕ) → n < fuel → value (decimal_from fuel n s) 0 ≡ value s n
unfolding decimal_from
value-decimal_from zero n s h = absurd (omega (arith, h))
value-decimal_from (suc fuel) n s h = elim (Bool-cases (n / 10 == 0)) [
  | inl last ↦
      let small : 0 * 10 + (b'0' + n % 10 - b'0') ≡ n = ground arith in
      ground (arith, ap (value s) small)
  | inr more ↦
      let whole : n / 10 * 10 + (b'0' + n % 10 - b'0') ≡ n = ground arith in
      let rest = value-decimal_from fuel (n / 10) ((b'0' + n % 10) ∷ s) (ground arith) in
      ground (arith, ap (value s) whole, rest)
]

-- The digits of a time stamp stand for it; no digit is missing for want of fuel.
pub value-decimal : (n : ℕ) → value (decimal n) 0 ≡ n
unfolding decimal
value-decimal n = value-decimal_from (n + 1) n [] (omega arith)

-- The code that an order prints on a ticket is its own normal form.
pub normalize_qr_code_input-generate_qr_code :
    (crypto : Crypto) (order_id index timestamp : ℕ)
    → normalize_qr_code_input (generate_qr_code crypto order_id index timestamp)
      ≡ generate_qr_code crypto order_id index timestamp
normalize_qr_code_input-generate_qr_code crypto order_id index timestamp =
    let code = generate_qr_code crypto order_id index timestamp in
    normalize_qr_code_input-Typed code code
      (Typed-plain code (plain_generated crypto order_id index timestamp))
