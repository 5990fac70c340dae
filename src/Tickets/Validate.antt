-- ===== src/Tickets/Validate.antt =====
-- What `validateTicket` does to the tickets (backend/src/tickets/tickets.service.ts).
pub mod Once
pub mod Refunds
use Prim.Native.String.{String}
use event_now.Prelude.{
  ℕ, ◌+◌, ◌≤◌, ◌<◌, ◌≡◌, ◌≢◌, ◌⊎◌, refl, Bool, true, false, not, ◌&&◌, Option, none, some, List, [],
  ◌∷◌, ◌==◌, ltb, if◌then◌else◌, Option-cases, Bool-cases, inl, inr, is_some, arith, ◌∙◌, ap, sym,
}
use event_now.Prelude.Outcome.{Outcome, ok, err, final, ◌>>=◌}
use event_now.Prisma.{Prisma}
use event_now.Prisma.Laws.{find_unique-modify_self, find_unique-modify_ne}
use event_now.Http.{HttpException, forbidden, record_not_found}
use event_now.Http
use event_now.Database.{Db, Event, EventStaff, Order, OrderStatus, Ticket, TicketCategory, User}
use event_now.QrCode.{normalize_qr_code_input, trim}
use event_now.QrCode.{same_code}
use event_now.Tickets.{
  hour, ValidatedTicket, Reason, Validation, valid, invalid, get_event_end_date, is_staff, stamp,
  with_code, find_ticket, check_ticket, validate_ticket, qr_code_invalid, event_ended,
  event_not_started, order_not_paid, already_validated,
}
use event_now.Orders.Refunds.{is_paid}

same_code_both :
    (s t code : List ℕ) → same_code s code ≡ true → same_code t code ≡ true → same_code s t ≡ true
same_code_both [] [] code h k = refl
same_code_both [] (d ∷ t) [] h k = k
same_code_both [] (d ∷ t) (c ∷ code) h k = h
same_code_both (c ∷ s) [] [] h k = h
same_code_both (c ∷ s) [] (e ∷ code) h k = k
same_code_both (c ∷ s) (d ∷ t) [] h k = absurd (ground arith)
same_code_both (c ∷ s) (d ∷ t) (e ∷ code) h k = ground (arith, same_code_both s t code)

module _ {p : Prisma} where
  -- A ticket that may be validated: its order is paid, the caller is of the staff of its event, and
  -- the event has at most one hour to its start and, in production, is not over.
  pub record IsValidatable (is_production : Bool) (staff_user_id now : ℕ) (t : Ticket) (d : Db p)
      : Type 0 where
    pub category : TicketCategory
    pub event : Event
    pub order : Order
    pub holder : User
    pub has_category : p.find_unique t.ticket_category_id d.ticket_category ≡ some category
    pub has_event : p.find_unique category.event_id d.event ≡ some event
    pub has_order : p.find_unique t.order_id d.order ≡ some order
    pub has_holder : p.find_unique order.user_id d.user ≡ some holder
    pub staffs :
        is_some (p.find_first (is_staff category.event_id staff_user_id) d.event_staff) ≡ true
    pub unused : t.validated_at ≡ none
    pub paid : order.status ≡ OrderStatus.paid
    pub begun : event.event_date ≤ now + hour
    pub on_time : is_production ≡ true → now ≤ get_event_end_date event

  abbrev pub stamped : ℕ → ℕ → Db p → Db p
  stamped id now d = record d { ticket = p.modify id (stamp now) d.ticket }

  may_be_stamped :
      (is_production : Bool) (staff_user_id now : ℕ) (t : Ticket) (d : Db p) (c : TicketCategory)
      (ev : Event) (o : Order) (u : User) (a : ℕ × EventStaff)
      → p.find_unique t.ticket_category_id d.ticket_category ≡ some c
      → p.find_unique c.event_id d.event ≡ some ev
      → p.find_unique t.order_id d.order ≡ some o
      → p.find_unique o.user_id d.user ≡ some u
      → p.find_first (is_staff c.event_id staff_user_id) d.event_staff ≡ some a
      → t.validated_at ≡ none
      → o.status ≡ OrderStatus.paid
      → (is_production && ltb (get_event_end_date ev) now) ≡ false
      → ltb (now + hour) ev.event_date ≡ false
      → IsValidatable is_production staff_user_id now t d
  may_be_stamped is_production staff_user_id now t d c ev o u a e1 e2 e3 e4 e5 un pd ended early =
      record {
        category = c;
        event = ev;
        order = o;
        holder = u;
        has_category = e1;
        has_event = e2;
        has_order = e3;
        has_holder = e4;
        staffs = ground arith;
        unused = un;
        paid = pd;
        begun = ground arith;
        on_time = λ h. ground arith;
      }

  check_ticket_cases :
      (C : Outcome HttpException (Db p) Validation → Type 0) (is_production : Bool)
      (staff_user_id now id : ℕ) (t : Ticket) (d : Db p)
      → p.find_unique id d.ticket ≡ some t
      → ((e : HttpException) → C (err e d))
      → ((r : Reason) → C (ok (invalid r) d))
      → (IsValidatable is_production staff_user_id now t d
          → (v : ValidatedTicket) → v.id ≡ id
          → C (ok (valid v) (stamped id now d)))
      → C (check_ticket is_production staff_user_id now id t d)
  unfolding check_ticket
  check_ticket_cases C is_production staff_user_id now id t d found throws refuses done =
      elim (Option-cases (p.find_unique t.ticket_category_id d.ticket_category)) [
        | inl e1 ↦ ground (arith, throws record_not_found)
        | inr (c, e1) ↦ elim (Option-cases (p.find_unique c.event_id d.event)) [
          | inl e2 ↦ ground (arith, throws record_not_found)
          | inr (ev, e2) ↦ elim (Option-cases (p.find_unique t.order_id d.order)) [
            | inl e3 ↦ ground (arith, throws record_not_found)
            | inr (o, e3) ↦ elim (Option-cases (p.find_unique o.user_id d.user)) [
              | inl e4 ↦ ground (arith, throws record_not_found)
              | inr (u, e4) ↦
                  elim (Option-cases
                    (p.find_first (is_staff c.event_id staff_user_id) d.event_staff)) [
                      | inl e5 ↦ ground (arith, throws (forbidden Http.not_event_staff))
                      | inr (a, e5) ↦ elim (Option-cases t.validated_at) [
                        | inr (at, used) ↦
                            ground (arith, refuses (already_validated ev.title c.name at))
                        | inl un ↦ elim (Bool-cases (is_paid o.status)) [
                          | inr unpaid ↦ ground (arith, refuses (order_not_paid o.status))
                          | inl pd ↦
                              elim (Bool-cases (is_production && ltb (get_event_end_date ev) now)) [
                                | inl over ↦ ground (arith, refuses event_ended)
                                | inr ended ↦ elim (Bool-cases (ltb (now + hour) ev.event_date)) [
                                  | inl early ↦ ground (arith, refuses event_not_started)
                                  | inr begun ↦ ground (
                                    arith,
                                    done
                                        (may_be_stamped is_production staff_user_id now t d c ev o u
                                          a e1 e2 e3 e4 e5 un (ground arith) ended begun)
                                        (record {
                                          id = id;
                                          event = ev.title;
                                          category = c.name;
                                          holder_email = u.email;
                                          event_date = ev.event_date;
                                          validated_at = now;
                                        })
                                        refl,
                                  )
                                ]
                              ]
                        ]
                      ]
                    ]
            ]
          ]
        ]
      ]

  -- Two tickets never have the same code (`@unique` of the schema).
  abbrev pub UniqueCodes : Db p → Type 0
  UniqueCodes d =
      (j k : ℕ) (s t : Ticket)
      → p.find_unique j d.ticket ≡ some s
      → p.find_unique k d.ticket ≡ some t
      → same_code s.qr_code t.qr_code ≡ true
      → j ≡ k

  before_stamp :
      (j k now : ℕ) (s : Ticket) (d : Db p)
      → p.find_unique j (stamped k now d).ticket ≡ some s
      → (s0 : Ticket) × (p.find_unique j d.ticket ≡ some s0) × (s.qr_code ≡ s0.qr_code)
  before_stamp j k now s d found = elim (Option-cases (p.find_unique j d.ticket)) [
    | inl e ↦ absurd (ground (arith, p.find_unique-modify j k (stamp now) d.ticket))
    | inr (s0, e) ↦ (s0, e, ground (arith, p.find_unique-modify j k (stamp now) d.ticket))
  ]

  with_code-stamped :
      (code : List ℕ) (k now : ℕ) (t : Ticket) (d : Db p)
      → UniqueCodes d
      → with_code code d ≡ some (k, t)
      → with_code code (stamped k now d) ≡ some (k, stamp now t)
  unfolding with_code
  with_code-stamped code k now t d unique found =
      let q = λ (t : Ticket). same_code t.qr_code code in
      let (there, matches) = p.find_first-some q d.ticket k t found in
      let after = find_unique-modify_self p k (stamp now) d.ticket t there in
      elim (Option-cases (with_code code (stamped k now d))) [
        | inl e ↦
            absurd
              (ground (arith, p.find_first-none q (stamped k now d).ticket k (stamp now t) e after))
        | inr ((j, s), e) ↦
            let (found', matches') = p.find_first-some q (stamped k now d).ticket j s e in
            let (s0, there0, code0) = before_stamp j k now s d found' in
            let same : j ≡ k = unique j k s0 t there0 there (
              same_code_both s0.qr_code t.qr_code code (ground (arith, code0, matches')) matches) in
            ground (arith, e, same, found', after)
      ]

  with_code_absent :
      (code : List ℕ) (k now : ℕ) (d : Db p)
      → with_code code d ≡ none
      → with_code code (stamped k now d) ≡ none
  unfolding with_code
  with_code_absent code k now d absent =
      let q = λ (t : Ticket). same_code t.qr_code code in
      elim (Option-cases (with_code code (stamped k now d))) [
        | inl e ↦ e
        | inr ((j, s), e) ↦
            let (found', matches') = p.find_first-some q (stamped k now d).ticket j s e in
            let (s0, there0, code0) = before_stamp j k now s d found' in
            absurd (
              ground (
                arith,
                p.find_first-none q d.ticket j s0 absent there0,
                ap (λ c. same_code c code) code0,
                matches',
              ))
      ]

  find_ticket-stamped :
      (raw : List ℕ) (k now : ℕ) (t : Ticket) (d : Db p)
      → UniqueCodes d
      → find_ticket raw d ≡ some (k, t)
      → find_ticket raw (stamped k now d) ≡ some (k, stamp now t)
  unfolding find_ticket
  find_ticket-stamped raw k now t d unique found =
      elim (Option-cases (with_code (normalize_qr_code_input raw) d)) [
        | inl e ↦ ground (
          arith,
          with_code_absent (normalize_qr_code_input raw) k now d e,
          with_code-stamped (trim raw) k now t d unique,
        )
        | inr (x, e) ↦
            ground (arith, with_code-stamped (normalize_qr_code_input raw) k now t d unique)
      ]

  find_ticket-found :
      (raw : List ℕ) (k : ℕ) (t : Ticket) (d : Db p)
      → find_ticket raw d ≡ some (k, t)
      → p.find_unique k d.ticket ≡ some t
  unfolding find_ticket with_code
  find_ticket-found raw k t d found =
      elim (Option-cases (with_code (normalize_qr_code_input raw) d)) [
        | inl e ↦
            ground (arith, p.find_first-some (λ t. same_code t.qr_code (trim raw)) d.ticket k t)
        | inr (x, e) ↦ ground (
          arith,
          p.find_first-some (λ t. same_code t.qr_code (normalize_qr_code_input raw)) d.ticket k t,
        )
      ]
