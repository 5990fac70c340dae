-- ===== src/Orders/Refunds/Lifecycle/States.antt =====
-- The status of an order under any sequence of refund calls
-- (backend/src/orders/orders.service.ts).
use event_now.Prelude.{
  ℕ, ◌≡◌, ◌⊎◌, refl, some, List, [], ◌∷◌, arith, ◌==◌, Bool-cases, inl, inr, sym, subst, ap, ◌∙◌,
}
use event_now.Prelude.Outcome.{final, outcome_cases}
use event_now.Prisma.{Prisma}
use event_now.Database.{Handler, Order, OrderStatus}
use event_now.Payment.{Stripe, World, on_db}
use event_now.Orders.Refunds.{set_status, request_refund, approve_refund, reject_refund}
use event_now.Orders.Refunds.Lifecycle.{reject_refund_cases, approve_refund_cases}
use event_now.Orders.Refunds.Lifecycle.Request.{request_refund_cases}

-- The changes of status that the refund calls make.
abbrev pub Move : OrderStatus → OrderStatus → Type 0
Move s t =
    (s ≡ t)
    ⊎ ((s ≡ OrderStatus.paid) × (t ≡ OrderStatus.refund_requested))
    ⊎ ((s ≡ OrderStatus.refund_requested) × (t ≡ OrderStatus.paid))
    ⊎ ((s ≡ OrderStatus.refund_requested) × (t ≡ OrderStatus.refunded))

-- The calls, each with an order and its caller.
pub data RefundCall : Type 0 where
  asks approves rejects : (order_id caller : ℕ) → RefundCall

module _ (p : Prisma) where
  -- Order `k` is still there, with nothing changed but the status, by a move.
  abbrev pub Moves : ℕ → Order → p.Table Order → Type 0
  Moves k o orders =
      (t : OrderStatus) × (p.find_unique k orders ≡ some (set_status t o)) × Move o.status t

  modify-Moves :
      (id k : ℕ) (t : OrderStatus) (o : Order) (orders : p.Table Order)
      → p.find_unique k orders ≡ some o
      → ((x : Order) → p.find_unique id orders ≡ some x → Move x.status t)
      → Moves k o (p.modify id (set_status t) orders)
  modify-Moves id k t o orders found legal = elim (Bool-cases (id == k)) [
    | inl same ↦
        (t, ground (arith, p.find_unique-modify k id (set_status t) orders), legal o (ground arith))
    | inr other ↦
        (o.status, ground (arith, p.find_unique-modify k id (set_status t) orders), inl refl)
  ]

module _ {p : Prisma} {s : Stripe} where
  -- The world after a call, whether it returned or threw.
  pub step : RefundCall → World p s → World p s
  step (asks order_id caller) w = final (on_db (request_refund order_id caller) w)
  step (approves order_id caller) w = final (approve_refund order_id caller w)
  step (rejects order_id caller) w = final (on_db (reject_refund order_id caller) w)

  pub run : List RefundCall → World p s → World p s
  run [] w = w
  run (c ∷ cs) w = run cs (step c w)

  on_db-final :
      {A : Type 0} (m : Handler p A) (w : World p s) → (final (on_db m w)).db ≡ final (m w.db)
  on_db-final m w = elim (outcome_cases (m w.db)) [
    | inl (a, d, e) ↦ ground (arith, e)
    | inr (x, d, e) ↦ ground (arith, e)
  ]

  -- A refund call changes nothing of an order but its status, and that only from paid to refund
  -- requested, and from there to paid or refunded.
  pub step-Moves :
      (c : RefundCall) (w : World p s) (k : ℕ) (o : Order)
      → p.find_unique k w.db.order ≡ some o
      → Moves p k o (step c w).db.order
  unfolding step
  step-Moves (asks order_id caller) w k o found =
      subst (λ d. Moves p k o d.order) (sym (on_db-final (request_refund order_id caller) w))
        (request_refund_cases (λ r. Moves p k o (final r).order) order_id caller w.db
          (λ e. (o.status, found, inl refl))
          (λ order bk notes fo _ paid _.
            modify-Moves p order_id k OrderStatus.refund_requested o w.db.order found
              (λ y fy. ground arith)))
  step-Moves (approves order_id caller) w k o found =
      approve_refund_cases (λ r. Moves p k o (final r).db.order) order_id caller w
        (λ e x. (o.status, found, inl refl))
        (λ order id t ts ev payment_id x fo waiting _ _ _ _ _.
          modify-Moves p order_id k OrderStatus.refunded o w.db.order found (λ y fy. ground arith))
  step-Moves (rejects order_id caller) w k o found =
      subst (λ d. Moves p k o d.order) (sym (on_db-final (reject_refund order_id caller) w))
        (reject_refund_cases (λ r. Moves p k o (final r).order) order_id caller w.db
          (λ e. (o.status, found, inl refl))
          (λ order ev fo waiting _ _.
            modify-Moves p order_id k OrderStatus.paid o w.db.order found (λ y fy. ground arith)))

  -- An order that was refunded stays refunded under every later sequence of refund calls, and
  -- nothing else of it changes either.
  pub run-refunded :
      (cs : List RefundCall) (w : World p s) (k : ℕ) (o : Order)
      → p.find_unique k w.db.order ≡ some o
      → o.status ≡ OrderStatus.refunded
      → p.find_unique k (run cs w).db.order ≡ some o
  unfolding run
  run-refunded [] w k o found is = found
  run-refunded (c ∷ cs) w k o found is =
      let (t, there, move) = step-Moves c w k o found in
      let stays : t ≡ o.status = elim move [
        | inl same ↦ sym same
        | inr other ↦ absurd (ground (arith, other))
      ] in
      run-refunded cs (step c w) k o (there ∙ ap (λ x. some (set_status x o)) stays) is
