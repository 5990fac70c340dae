-- ===== src/Tickets/Validate/Once.antt =====
-- What an answer of `validateTicket` means for the ticket and for later calls
-- (backend/src/tickets/tickets.service.ts).
use event_now.Prelude.{
  ℕ, ◌+◌, ◌≤◌, ◌≡◌, refl, Bool, true, false, ◌&&◌, Option, none, some, List, ltb, Option-cases, inl,
  inr, is_some, arith, ◌∙◌, ap, sym,
}
use event_now.Prelude.Outcome.{Outcome, ok, err, final}
use event_now.Prisma.{Prisma}
use event_now.Http.{HttpException}
use event_now.Database.{Db, EventStaff, Ticket}
use event_now.Tickets.{
  hour, ValidatedTicket, Reason, Validation, valid, invalid, get_event_end_date, is_staff, stamp,
  find_ticket, check_ticket, validate_ticket, qr_code_invalid,
}
use event_now.Tickets.Validate.{
  IsValidatable, stamped, UniqueCodes, check_ticket_cases, find_ticket-stamped, find_ticket-found,
}

on_time_test :
    (is_production : Bool) (end now : ℕ)
    → (is_production ≡ true → now ≤ end)
    → (is_production && ltb end now) ≡ false
on_time_test true end now h = let le = h refl in ground (arith, le)
on_time_test false end now h = refl

is_some-some : {A : Type 0} (o : Option A) → is_some o ≡ true → (a : A) × (o ≡ some a)
is_some-some none h = absurd (ground arith)
is_some-some (some a) h = (a, refl)

module _ {p : Prisma} where
  validate_ticket_cases :
      (C : Outcome HttpException (Db p) Validation → Type 0) (is_production : Bool) (raw : List ℕ)
      (staff_user_id now : ℕ) (d : Db p)
      → ((e : HttpException) → C (err e d))
      → ((r : Reason) → C (ok (invalid r) d))
      → ((id : ℕ) (t : Ticket)
          → find_ticket raw d ≡ some (id, t)
          → IsValidatable is_production staff_user_id now t d
          → (v : ValidatedTicket) → v.id ≡ id
          → C (ok (valid v) (stamped id now d)))
      → C (validate_ticket is_production raw staff_user_id now d)
  unfolding validate_ticket
  validate_ticket_cases C is_production raw staff_user_id now d throws refuses done =
      elim (Option-cases (find_ticket raw d)) [
        | inl e ↦ ground (arith, e, refuses qr_code_invalid)
        | inr ((id, t), e) ↦
            let checked : C (check_ticket is_production staff_user_id now id t d) =
              check_ticket_cases C is_production staff_user_id now id t d
                (find_ticket-found raw id t d e) throws refuses (done id t e) in
            ground (arith, e, checked)
      ]

  -- When `validateTicket` answers that a ticket is valid, the code names a ticket whose order is
  -- paid, that was not used, of an event that the caller is staff of and that starts within an hour or
  -- has started and, in production, is not over; and the call has changed nothing but the time on this
  -- ticket.
  pub validate_ticket-IsValidatable :
      (is_production : Bool) (raw : List ℕ) (staff_user_id now : ℕ) (v : ValidatedTicket)
      (d d' : Db p)
      → validate_ticket is_production raw staff_user_id now d ≡ ok (valid v) d'
      → (t : Ticket) × (find_ticket raw d ≡ some (v.id, t))
        × IsValidatable is_production staff_user_id now t d
        × (d' ≡ stamped v.id now d)
  validate_ticket-IsValidatable is_production raw staff_user_id now v d d' run =
      validate_ticket_cases
        (λ r.
          r ≡ ok (valid v) d'
          → (t : Ticket) × (find_ticket raw d ≡ some (v.id, t))
            × IsValidatable is_production staff_user_id now t d
            × (d' ≡ stamped v.id now d))
        is_production raw staff_user_id now d (λ e h. absurd (ground arith))
        (λ r h. absurd (ground arith))
        (λ id t found can w same h.
          let at : v.id ≡ id = ground (arith, h, same) in
          (
            t,
            ground (arith, at, found),
            can,
            sym (ap final h) ∙ ap (λ k. stamped k now d) (sym at),
          ))
        run

  -- A ticket that may be validated is validated: the call answers so and writes the time on it.
  pub IsValidatable-validate_ticket :
      (is_production : Bool) (raw : List ℕ) (staff_user_id now id : ℕ) (t : Ticket) (d : Db p)
      → find_ticket raw d ≡ some (id, t)
      → IsValidatable is_production staff_user_id now t d
      → (v : ValidatedTicket) × (validate_ticket is_production raw staff_user_id now d
          ≡ ok (valid v) (stamped id now d))
  unfolding validate_ticket check_ticket
  IsValidatable-validate_ticket is_production raw staff_user_id now id t d found can =
      let there = find_ticket-found raw id t d found in
      let answer : ValidatedTicket = record {
        id = id;
        event = can.event.title;
        category = can.category.name;
        holder_email = can.holder.email;
        event_date = can.event.event_date;
        validated_at = now;
      } in
      let on : (is_production && ltb (get_event_end_date can.event) now) ≡ false =
        on_time_test is_production (get_event_end_date can.event) now can.on_time in
      let begun : ltb (now + hour) can.event.event_date ≡ false = ground (arith, can.begun) in
      let staff : (a : ℕ × EventStaff) × (p.find_first
              (is_staff can.category.event_id staff_user_id) d.event_staff
            ≡ some a) =
        is_some-some _ can.staffs in
      let (a, e5) = staff in
      (
        answer,
        ground (
          arith, found, there, can.has_category, can.has_event, can.has_order, can.has_holder, e5,
          can.unused, can.paid, on, begun,
        ),
      )

  -- A ticket lets in once: when no two tickets have one code, after a call has answered that a code
  -- is valid, no later call with this code does so again, whoever scans it and whenever.
  pub validate_ticket_once :
      (is_production : Bool) (raw : List ℕ) (staff_user_id now : ℕ) (v : ValidatedTicket)
      (later_production : Bool) (later_staff later : ℕ) (w : ValidatedTicket) (d d' d2 : Db p)
      → UniqueCodes d
      → validate_ticket is_production raw staff_user_id now d ≡ ok (valid v) d'
      → ¬ (validate_ticket later_production raw later_staff later d' ≡ ok (valid w) d2)
  validate_ticket_once is_production raw staff_user_id now v later_production later_staff later w d
        d' d2 unique run again =
      let (t, found, can, state) =
        validate_ticket-IsValidatable is_production raw staff_user_id now v d d' run in
      let (t2, found2, can2, _) =
        validate_ticket-IsValidatable later_production raw later_staff later w d' d2 again in
      let stays = find_ticket-stamped raw v.id now t d unique found in
      let same : find_ticket raw d' ≡ some (v.id, stamp now t) =
        ap (find_ticket raw) state ∙ stays in
      ground (arith, same, found2, can2.unused)
