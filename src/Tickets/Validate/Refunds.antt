-- ===== src/Tickets/Validate/Refunds.antt =====
-- `requestRefund` of backend/src/orders/orders.service.ts and `validateTicket` of
-- backend/src/tickets/tickets.service.ts one after the other.
use event_now.Prelude.{ℕ, ◌≡◌, refl, ap, subst, Bool, some, List, arith}
use event_now.Prelude.Outcome.{ok, final}
use event_now.Prisma.{Prisma}
use event_now.Prisma.Laws.{find_unique-modify_self}
use event_now.Database.{Db, Order, OrderStatus, Ticket}
use event_now.Orders.Refunds.{set_status, request_refund}
use event_now.Orders.Refunds.Lifecycle.Request.{request_refund_cases}
use event_now.Tickets.{ValidatedTicket, valid, find_ticket, validate_ticket}
use event_now.Tickets.Validate.Once.{validate_ticket-IsValidatable}

module _ {p : Prisma} where
  -- The order of a refund that was asked for.
  abbrev IsRequested : ℕ → Db p → Type 0
  IsRequested order_id d =
      (o : Order) × (p.find_unique order_id d.order ≡ some o)
      × (o.status ≡ OrderStatus.refund_requested)

  request_refund-IsRequested :
      (order_id user_id : ℕ) (d d' : Db p)
      → request_refund order_id user_id d ≡ ok tt d'
      → IsRequested order_id d'
  request_refund-IsRequested order_id user_id d d' =
      request_refund_cases (λ r. r ≡ ok tt d' → IsRequested order_id d') order_id user_id d
        (λ e h. absurd (ground (arith, h)))
        (λ o bk notes found _ _ _ h. subst (IsRequested order_id) (ap final h) (
          set_status OrderStatus.refund_requested o,
          find_unique-modify_self p order_id (set_status OrderStatus.refund_requested) d.order o
              found,
          refl,
        ))

  -- Once the refund of an order has been asked for, none of its tickets is let in: no call answers that
  -- the code of one is valid.
  pub request_refund-validate_ticket :
      (order_id user_id : ℕ) (is_production : Bool) (raw : List ℕ) (staff_user_id now id : ℕ)
      (t : Ticket) (v : ValidatedTicket) (d d' d2 : Db p)
      → request_refund order_id user_id d ≡ ok tt d'
      → find_ticket raw d' ≡ some (id, t)
      → t.order_id ≡ order_id
      → ¬ (validate_ticket is_production raw staff_user_id now d' ≡ ok (valid v) d2)
  request_refund-validate_ticket order_id user_id is_production raw staff_user_id now id t v d d' d2
        asked found mine run =
      let (o, here, waits) = request_refund-IsRequested order_id user_id d d' asked in
      let (t', found', can, _) =
        validate_ticket-IsValidatable is_production raw staff_user_id now v d' d2 run in
      ground (arith, here, waits, found, found', mine, can.has_order, can.paid)
