-- ===== src/PromoCodes/Uses.antt =====
-- Who may use a promo code, and how often
-- (backend/src/promo-codes/promo-codes.service.ts).
use text.Mathlib.TextEquality.{eq_iff}
use event_now.Prelude.{
  ℕ, ◌+◌, ◌≤◌, ◌<◌, Option, none, refl, ◌≡◌, ◌↔◌, true, false, some, arith, Option-cases, inl, inr,
}
use event_now.Prelude.Double.{Double, of_cents}
use event_now.Prelude.Outcome.{ok, err, final}
use event_now.Prisma.{Prisma}
use event_now.Http.{bad_request, promo_inactive}
use event_now.Database.{Db, PromoCode}
use event_now.PromoCodes.{
  CreatePromoCodeDto, Validated, calculate_discount, is_past, is_exhausted, has_code,
  create_promo_code, check_promo_code, validate_promo_code_by_id, apply_promo_code,
  delete_promo_code,
}

-- A code that may be used now.
pub record IsUsable (c : PromoCode) (now : ℕ) : Type 0 where
  pub active : c.is_active ≡ true
  pub current : (t : ℕ) → c.expires_at ≡ some t → now ≤ t
  pub left : (most : ℕ) → c.max_uses ≡ some most → c.current_uses < most

is_past_iff :
    (expires_at : Option ℕ) (now : ℕ)
    → (is_past expires_at now ≡ false) ↔ ((t : ℕ) → expires_at ≡ some t → now ≤ t)
is_past_iff none now = (λ h t e. absurd (ground (arith, e)), λ h. refl)
is_past_iff (some x) now = (λ h t e. ground (arith, h, e), λ h. ground (arith, h x refl))

is_exhausted_iff :
    (max_uses : Option ℕ) (uses : ℕ)
    → (is_exhausted max_uses uses ≡ false) ↔ ((most : ℕ) → max_uses ≡ some most → uses < most)
is_exhausted_iff none uses = (λ h t e. absurd (ground (arith, e)), λ h. refl)
is_exhausted_iff (some x) uses = (λ h t e. ground (arith, h, e), λ h. ground (arith, h x refl))

abbrev new_code : ℕ → CreatePromoCodeDto → PromoCode
new_code user_id dto = record {
  code = dto.code;
  event_id = dto.event_id;
  created_by_id = user_id;
  discount_type = dto.discount_type;
  discount_value = dto.discount_value;
  max_uses = dto.max_uses;
  current_uses = 0;
  expires_at = dto.expires_at;
  is_active = true;
}

abbrev one_more : PromoCode → PromoCode
one_more c = record c { current_uses = c.current_uses + 1 }

module _ {p : Prisma} where
  -- `validatePromoCodeById` accepts exactly the usable codes, writes nothing, and answers with the
  -- amounts of `calculateDiscount`.
  pub validate_promo_code_by_id_ok_iff :
      (id : ℕ) (order_amount : Double) (now : ℕ) (v : Validated) (d d' : Db p)
      → (validate_promo_code_by_id id order_amount now d ≡ ok v d') ↔ (
          (c : PromoCode) × (p.find_unique id d.promo_code ≡ some c)
          × IsUsable c now
          × (v ≡ record {
            promo_code_id = id;
            promo_code = c;
            amounts = calculate_discount order_amount c.discount_type (of_cents c.discount_value);
          })
          × (d' ≡ d))
  unfolding validate_promo_code_by_id check_promo_code
  validate_promo_code_by_id_ok_iff id order_amount now v d d' = (
    forward,
    λ (c, found, usable, same, state).
        let current = (is_past_iff c.expires_at now).1 usable.current in
        let left = (is_exhausted_iff c.max_uses c.current_uses).1 usable.left in
        ground (arith, found, usable.active, current, left, same, state),
  )
    where
      forward :
          validate_promo_code_by_id id order_amount now d ≡ ok v d'
          → (c : PromoCode) × (p.find_unique id d.promo_code ≡ some c)
            × IsUsable c now
            × (v ≡ record {
              promo_code_id = id;
              promo_code = c;
              amounts = calculate_discount order_amount c.discount_type (of_cents c.discount_value);
            })
            × (d' ≡ d)
      forward h = elim (Option-cases (p.find_unique id d.promo_code)) [
        | inl e ↦ absurd (ground arith)
        | inr (c, e) ↦
            let current : is_past c.expires_at now ≡ false = ground arith in
            let left : is_exhausted c.max_uses c.current_uses ≡ false = ground arith in
            (
              c,
              e,
              record {
                active = ground arith;
                current = (is_past_iff c.expires_at now).0 current;
                left = (is_exhausted_iff c.max_uses c.current_uses).0 left;
              },
              ground arith,
              ground arith,
            )
      ]

  created_code :
      (user_id id : ℕ) (dto : CreatePromoCodeDto) (d d' : Db p)
      → create_promo_code user_id dto d ≡ ok id d'
      → p.find_unique id d'.promo_code ≡ some (new_code user_id dto)
  unfolding create_promo_code
  created_code user_id id dto d d' h = elim (Option-cases (p.find_unique dto.event_id d.event)) [
    | inl e ↦ absurd (ground (arith, e, h))
    | inr (ev, e) ↦
        elim (Option-cases (p.find_first (has_code dto.code dto.event_id) d.promo_code)) [
          | inr (c, f) ↦ absurd (ground (arith, e, f, h))
          | inl f ↦ ground (
            arith,
            e,
            f,
            h,
            p.find_unique-create (p.new_id d.promo_code) (new_code user_id dto) d.promo_code,
          )
        ]
  ]

  -- A code that was just made, with some uses and not over, is accepted at once for any amount, with
  -- the discount that the organizer wrote.
  pub create_promo_code-validate :
      (user_id id : ℕ) (dto : CreatePromoCodeDto) (order_amount : Double) (now : ℕ) (d d' : Db p)
      → create_promo_code user_id dto d ≡ ok id d'
      → ((t : ℕ) → dto.expires_at ≡ some t → now ≤ t)
      → ((most : ℕ) → dto.max_uses ≡ some most → 0 < most)
      → (v : Validated) × (validate_promo_code_by_id id order_amount now d' ≡ ok v d')
        × (v.promo_code.discount_value ≡ dto.discount_value)
        × (v.amounts
            ≡ calculate_discount order_amount dto.discount_type (of_cents dto.discount_value))
  create_promo_code-validate user_id id dto order_amount now d d' h current left =
      let v : Validated = record {
        promo_code_id = id;
        promo_code = new_code user_id dto;
        amounts = calculate_discount order_amount dto.discount_type (of_cents dto.discount_value);
      } in
      (
        v,
        (validate_promo_code_by_id_ok_iff id order_amount now v d' d').1 (
          new_code user_id dto,
          created_code user_id id dto d d' h,
          record { active = refl; current = current; left = left },
          refl,
          refl,
        ),
        refl,
        refl,
      )

  -- `currentUses` exceeds no `maxUses`.
  abbrev pub IsWithinLimit : Db p → Type 0
  IsWithinLimit d =
      (k : ℕ) (c : PromoCode) (most : ℕ)
      → p.find_unique k d.promo_code ≡ some c
      → c.max_uses ≡ some most
      → c.current_uses ≤ most

  -- Counting a use of a code that is not exhausted keeps every code within its limit.
  pub apply_promo_code-IsWithinLimit :
      (id : ℕ) (c : PromoCode) (d : Db p)
      → p.find_unique id d.promo_code ≡ some c
      → is_exhausted c.max_uses c.current_uses ≡ false
      → IsWithinLimit d
      → IsWithinLimit (final (apply_promo_code id d))
  unfolding apply_promo_code
  apply_promo_code-IsWithinLimit id c d found left limit k x most h e =
      elim (Option-cases (p.find_unique k d.promo_code)) [
        | inl absent ↦ ground (arith, p.find_unique-modify k id one_more d.promo_code)
        | inr (y, here) ↦
            ground (arith, limit k y most, p.find_unique-modify k id one_more d.promo_code)
      ]

  -- A code that was deleted is refused as inactive when it is validated afterwards.
  pub delete-validate :
      (user_id id : ℕ) (order_amount : Double) (now : ℕ) (d d' : Db p)
      → delete_promo_code user_id id d ≡ ok tt d'
      → validate_promo_code_by_id id order_amount now d' ≡ err (bad_request promo_inactive) d'
  unfolding delete_promo_code validate_promo_code_by_id check_promo_code
  delete-validate user_id id order_amount now d d' h =
      ground (arith, p.find_unique-modify id id (λ c. record c { is_active = false }) d.promo_code)

  -- No two codes of an event have the same text: the unique key of the schema.
  abbrev pub UniqueCodes : Db p → Type 0
  UniqueCodes d =
      (j k : ℕ) (a b : PromoCode)
      → p.find_unique j d.promo_code ≡ some a
      → p.find_unique k d.promo_code ≡ some b
      → a.code ≡ b.code
      → a.event_id ≡ b.event_id
      → j ≡ k

  -- The codes stay unique whatever `createPromoCode` answers.
  pub create_promo_code-UniqueCodes :
      (user_id : ℕ) (dto : CreatePromoCodeDto) (d : Db p)
      → UniqueCodes d
      → UniqueCodes (final (create_promo_code user_id dto d))
  unfolding create_promo_code
  create_promo_code-UniqueCodes user_id dto d unique j k a b fa fb same_code same_event =
      elim (Option-cases (p.find_unique dto.event_id d.event)) [
        | inl e ↦ ground (arith, unique j k a b)
        | inr (ev, e) ↦
            elim (Option-cases (p.find_first (has_code dto.code dto.event_id) d.promo_code)) [
              | inl absent ↦ ground (
                arith,
                unique j k a b,
                p.find_unique-create j (new_code user_id dto) d.promo_code,
                p.find_unique-create k (new_code user_id dto) d.promo_code,
                p.find_first-none (has_code dto.code dto.event_id) d.promo_code j a absent,
                p.find_first-none (has_code dto.code dto.event_id) d.promo_code k b absent,
                eq_iff a.code dto.code,
                eq_iff b.code dto.code,
              )
              | inr (found, here) ↦ ground (arith, unique j k a b)
            ]
      ]
