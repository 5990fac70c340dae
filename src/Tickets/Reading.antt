-- ===== src/Tickets/Reading.antt =====
-- The lists of tickets and of staff events (backend/src/tickets/tickets.service.ts).
use event_now.Prelude.{
  ℕ, ◌≡◌, ◌↔◌, refl, true, none, some, List, [], ◌∷◌, ltb, if◌then◌else◌, Option-cases, Bool-cases,
  inl, inr, arith, sym, ap, ◌∙◌,
}
use event_now.Prelude.Outcome.{ok}
use event_now.Prisma.{Prisma}
use event_now.Prisma.Laws.{lists, find_many_iff}
use event_now.Database.{Db, Event, EventStaff, Order, Ticket}
use event_now.Orders.Refunds.{is_paid}
use event_now.Tickets.{
  get_event_end_date, has_ended, is_ended_id, is_upcoming, remove_staff_for_ended_events, event_of,
  is_shown_ticket, get_user_tickets, get_ticket_by_id,
}

has_ended_end : (now : ℕ) (e : Event) → has_ended now e ≡ ltb (get_event_end_date e) now
unfolding has_ended get_event_end_date
has_ended_end now e = elim (Option-cases e.end_date) [
  | inl h ↦ ground (arith, h)
  | inr (x, h) ↦ ground (arith, h)
]

module _ {p : Prisma} where
  is_ended_id_iff :
      (now : ℕ) (a : EventStaff) (e : Event) (d : Db p)
      → p.find_unique a.event_id d.event ≡ some e
      → is_ended_id (p.find_many (has_ended now) d.event) a ≡ ltb (get_event_end_date e) now
  is_ended_id_iff now a e d there =
      let listed = find_many_iff p (has_ended now) d.event a.event_id in
      elim (Bool-cases (has_ended now e)) [
        | inl over ↦ listed.1 (e, there, over) ∙ sym over ∙ has_ended_end now e
        | inr on ↦ elim (Bool-cases (is_ended_id (p.find_many (has_ended now) d.event) a)) [
          | inl l ↦
              let (r, found, over) = listed.0 l in absurd (ground (arith, there, found, on, over))
          | inr l ↦ l ∙ sym on ∙ has_ended_end now e
        ]
      ]

  removed :
      (es : List (ℕ × Event)) (now k : ℕ) (a : EventStaff) (d : Db p)
      → p.find_many (has_ended now) d.event ≡ es
      → p.find_unique k d.event_staff ≡ some a
      → (staff : p.Table EventStaff) × (remove_staff_for_ended_events now d
          ≡ ok tt (record d { event_staff = staff }))
        × (p.find_unique k staff ≡ (if is_ended_id es a then none else some a))
  unfolding remove_staff_for_ended_events
  removed [] now k a d same found = (d.event_staff, rw same refl, found)
  removed (e ∷ es) now k a d same found = (
    p.delete_many (is_ended_id (e ∷ es)) d.event_staff,
    rw same refl,
    ground (arith, found, p.find_unique-delete_many k (is_ended_id (e ∷ es)) d.event_staff),
  )

  -- The clean-up removes an assignment to an event that is over and keeps one to an event that is
  -- not, and touches no other table.
  pub remove_staff_for_ended_events_iff :
      (now k : ℕ) (a : EventStaff) (e : Event) (d : Db p)
      → p.find_unique k d.event_staff ≡ some a
      → p.find_unique a.event_id d.event ≡ some e
      → (staff : p.Table EventStaff) × (remove_staff_for_ended_events now d
          ≡ ok tt (record d { event_staff = staff }))
        × (p.find_unique k staff ≡ (if ltb (get_event_end_date e) now then none else some a))
  remove_staff_for_ended_events_iff now k a e d found there =
      let (staff, run, kept) = removed (p.find_many (has_ended now) d.event) now k a d refl found in
      (staff, run, kept ∙ ap (λ b. if b then none else some a) (is_ended_id_iff now a e d there))

  shown-paid :
      (user_id now : ℕ) (d : Db p) (t : Ticket)
      → is_shown_ticket user_id now d t ≡ true
      → (o : Order) × (p.find_unique t.order_id d.order ≡ some o)
        × (o.user_id ≡ user_id)
        × (is_paid o.status ≡ true)
        × (t.validated_at ≡ none)
        × (is_upcoming now (event_of d t) ≡ true)
  shown-paid user_id now d t h = elim (Option-cases (p.find_unique t.order_id d.order)) [
    | inl e ↦ absurd (ground (arith, h, e))
    | inr (o, e) ↦ (
      o,
      e,
      ground (arith, h, e),
      ground (arith, h, e),
      ground (arith, h, e),
      ground (arith, h, e),
    )
  ]

  get_ticket_by_id-found :
      (k user_id : ℕ) (d : Db p) (t : Ticket)
      → get_ticket_by_id k user_id d ≡ ok t d
      → (o : Order) × (p.find_unique k d.ticket ≡ some t)
        × (p.find_unique t.order_id d.order ≡ some o)
        × (o.user_id ≡ user_id)
        × (is_paid o.status ≡ true)
  unfolding get_ticket_by_id
  get_ticket_by_id-found k user_id d t run = elim (Option-cases (p.find_unique k d.ticket)) [
    | inl e ↦ absurd (ground (arith, run, e))
    | inr (t', e) ↦ elim (Option-cases (p.find_unique t'.order_id d.order)) [
      | inl e2 ↦ absurd (ground (arith, run, e, e2))
      | inr (o, e2) ↦ (
        o,
        ground (arith, run, e, e2),
        ground (arith, run, e, e2),
        ground (arith, run, e, e2),
        ground (arith, run, e, e2),
      )
    ]
  ]

  found-get_ticket_by_id :
      (k user_id : ℕ) (d : Db p) (t : Ticket) (o : Order)
      → p.find_unique k d.ticket ≡ some t
      → p.find_unique t.order_id d.order ≡ some o
      → o.user_id ≡ user_id
      → is_paid o.status ≡ true
      → get_ticket_by_id k user_id d ≡ ok t d
  unfolding get_ticket_by_id
  found-get_ticket_by_id k user_id d t o found has owner paid = ground arith

  -- A buyer is shown a ticket exactly when asking for it by its key returns it, it was not used and
  -- its event is not over.
  pub get_user_tickets_iff :
      (user_id now k : ℕ) (d : Db p)
      → (ts : List (ℕ × Ticket)) × (get_user_tickets user_id now d ≡ ok ts d)
        × ((lists k ts ≡ true) ↔ (
            (t : Ticket) × (get_ticket_by_id k user_id d ≡ ok t d)
            × (t.validated_at ≡ none)
            × (is_upcoming now (event_of d t) ≡ true)))
  unfolding get_user_tickets
  get_user_tickets_iff user_id now k d =
      let listed = find_many_iff p (is_shown_ticket user_id now d) d.ticket k in
      (
        p.find_many (is_shown_ticket user_id now d) d.ticket,
        refl,
        (
          λ l.
              let (t, found, shown) = listed.0 l in
              let (o, has, owner, paid, unused, on) = shown-paid user_id now d t shown in
              (t, found-get_ticket_by_id k user_id d t o found has owner paid, unused, on),
          λ (t, run, unused, on).
              let (o, found, has, owner, paid) = get_ticket_by_id-found k user_id d t run in
              listed.1 (t, found, ground (arith, has, owner, paid, unused, on)),
        ),
      )
