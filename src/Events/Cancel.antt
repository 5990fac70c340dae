-- ===== src/Events/Cancel.antt =====
-- The cancellation of an event (`cancelEvent` of backend/src/events/events.service.ts): what it does
-- to the stock and to later bookings.

use event_now.Prelude.{
  ℕ, ◌<◌, ◌≡◌, ◌⊎◌, refl, true, Option, none, some, List, [], ◌∷◌, ◌==◌, length, map, leb,
  Option-cases, Bool-cases, inl, inr, arith,
}
use event_now.Prelude.Outcome.{ok, err}
use event_now.Prisma.{Prisma}
use event_now.Http.{HttpException, bad_request, not_found, forbidden, record_not_found}
use event_now.Http
use event_now.Database.{Db, Event, Order, StaffInvitation, NotificationType, for_each}
use event_now.Payment.{Stripe, World}
use event_now.Payment.Refunds.{refund_payment_cases}
use event_now.Notifications.{create_for_many_users, delete_by_type_and_related_ids, is_about_any}
use event_now.Orders.Refunds.{non_empty}
use event_now.Events.{
  RefundResult, notify_all, after_closing, check_cancellable, forget_invitations, refund_order,
  refund_orders, noted, affected_users,
}

-- The event may be cancelled by the user.
pub record IsCancellable {p : Prisma} (user_id event_id now : ℕ) (d : Db p) : Type 0 where
  pub event : Event
  pub found : p.find_unique event_id d.event ≡ some event
  pub own : event.organizer_id ≡ user_id
  pub on : event.cancelled_at ≡ none
  pub to_come : now < event.event_date

module _ {p : Prisma} where
  create_for_many_users-ok :
      (ids : List ℕ) (type : NotificationType) (related_id : Option ℕ) (d : Db p)
      → (t : p.Table _) × (create_for_many_users ids type related_id d
          ≡ ok tt (record d { notification = t }))
  unfolding create_for_many_users for_each
  create_for_many_users-ok [] type related_id d = (d.notification, refl)
  create_for_many_users-ok (id ∷ ids) type related_id d =
      create_for_many_users-ok ids type related_id _

  notify_all-ok :
      (ids : List ℕ) (type : NotificationType) (event_id : ℕ) (d : Db p)
      → (t : p.Table _) × (notify_all ids type event_id d ≡ ok tt (record d { notification = t }))
  unfolding notify_all
  notify_all-ok ids type event_id d = elim (Bool-cases (length ids == 0)) [
    | inl e ↦ (d.notification, ground (arith, e))
    | inr e ↦
        let (t, run) = create_for_many_users-ok ids type (some event_id) d in
        (t, ground (arith, e, run))
  ]

  forget_invitations-ok :
      (event_id : ℕ) (d : Db p)
      → (t : p.Table _) × (forget_invitations event_id d ≡ ok tt (record d { notification = t }))
  unfolding forget_invitations delete_by_type_and_related_ids
  forget_invitations-ok event_id d =
      let tokens =
        map (λ (i : ℕ × StaffInvitation). i.1.token)
          (p.find_many (λ i. i.event_id == event_id) d.social.staff_invitation) in
      elim (Bool-cases (length tokens == 0)) [
        | inl e ↦ (d.notification, ground (arith, e))
        | inr e ↦ (
          p.delete_many (is_about_any NotificationType.staff_invitation tokens) d.notification,
          ground (arith, e),
        )
      ]

  -- What follows the transaction never fails and only touches notifications.
  pub after_closing-ok :
      (event_id : ℕ) (confirmed : List (ℕ × Order)) (d : Db p)
      → (told : List ℕ) × (t : p.Table _) × (after_closing event_id confirmed d
          ≡ ok told (record d { notification = t }))
  unfolding after_closing
  after_closing-ok event_id confirmed d =
      let told = affected_users event_id confirmed d in
      let (t, e) = notify_all-ok told NotificationType.event_cancelled event_id d in
      let (u, f) = forget_invitations-ok event_id (record d { notification = t }) in
      (told, u, ground (arith, e, f))

  pub check_cancellable_cases :
      (user_id event_id now : ℕ) (d : Db p)
      → ((e : HttpException) × (check_cancellable user_id event_id now d ≡ err e d))
        ⊎ (IsCancellable user_id event_id now d
            × (check_cancellable user_id event_id now d ≡ ok tt d))
  unfolding check_cancellable
  check_cancellable_cases user_id event_id now d =
      elim (Option-cases (p.find_unique event_id d.event)) [
        | inl e ↦ inl (not_found Http.event_missing, ground (arith, e))
        | inr (ev, e) ↦ elim (Bool-cases (ev.organizer_id == user_id)) [
          | inr other ↦ inl (forbidden Http.not_event_owner, ground (arith, e, other))
          | inl own ↦ elim (Option-cases ev.cancelled_at) [
            | inr (at, over) ↦
                inl (bad_request Http.event_already_cancelled, ground (arith, e, own, over))
            | inl on ↦ elim (Bool-cases (leb ev.event_date now)) [
              | inl late ↦ inl (bad_request Http.event_started, ground (arith, e, own, on, late))
              | inr soon ↦ inr (
                record {
                  event = ev;
                  found = e;
                  own = ground (arith, own);
                  on = on;
                  to_come = ground (arith, soon);
                },
                ground (arith, e, own, on, soon),
              )
            ]
          ]
        ]
      ]

  module _ {s : Stripe} where
    -- A refund never fails as a call and does not touch the database.
    refund_order-ok :
        (o : ℕ × Order) (w : World p s)
        → (r : RefundResult) × (x : s.State) × (refund_order o w ≡ ok r (record w { stripe = x }))
    unfolding refund_order
    refund_order-ok (id, o) w = elim (Option-cases (non_empty o.payment_intent_id)) [
      | inl e ↦ (
        record { order_id = id; user_id = o.user_id; success = true; refund_amount = 0 },
        w.stripe,
        ground (arith, e),
      )
      | inr (intent, e) ↦
          rw (e, refund_order)
            (refund_payment_cases
              (λ q.
                (r : RefundResult) × (x : s.State) × (noted id o q
                  ≡ ok r (record w { stripe = x })))
              intent none w (λ x. (_, w.stripe, refl)) (λ r x _ _. (_, x, refl)))
    ]

    pub refund_orders-ok :
        (os : List (ℕ × Order)) (w : World p s)
        → (rs : List RefundResult) × (x : s.State) × (refund_orders os w
            ≡ ok rs (record w { stripe = x }))
    unfolding refund_orders
    refund_orders-ok [] w = ([], w.stripe, refl)
    refund_orders-ok (o ∷ os) w =
        let (r, x, e) = refund_order-ok o w in
        let (rs, y, f) = refund_orders-ok os (record w { stripe = x }) in
        (r ∷ rs, y, ground (arith, e, f))
