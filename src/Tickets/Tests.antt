-- ===== src/Tickets/Tests.antt =====
-- The theorems on tickets and their codes applied to a small database
-- (backend/src/tickets/tickets.service.ts).
use event_now.Prelude.{ℕ, refl, arith, none, some, [], ◌∷◌, ◌≡◌, ◌↔◌, false, true, List}
use event_now.Prelude.Outcome.{final, ok}
use event_now.Prisma.Laws.{lists}
use event_now.Database.{Ticket}
use event_now.QrCode.{trim, trim_start, to_dash, to_upper, remove_spaces, normalize_qr_code_input}
use event_now.QrCode.RoundTrip.{nothing, space, same, lower, dash, normalize_qr_code_input-Typed}
use event_now.Tickets.{
  ValidatedTicket, valid, with_code, find_ticket, validate_ticket, get_user_tickets,
  get_ticket_by_id, event_of, is_upcoming, get_event_end_date,
}
use event_now.Tickets.Validate.{IsValidatable, stamped, UniqueCodes}
use event_now.Orders.Refunds.{
  request_refund, notify, notify_organizer, cancel_legacy_booking, cancel_found,
}
use event_now.Tickets.Validate.Refunds.{request_refund-validate_ticket}
use event_now.Tickets.Validate.Once.{
  validate_ticket-IsValidatable, IsValidatable-validate_ticket, validate_ticket_once,
}
use event_now.Tickets.Reading.{get_user_tickets_iff}
use event_now.Tests.{sold, entry, concert, standing, bought, reader}

-- " a-1" with a hyphen of Unicode.
abbrev typed : List ℕ
typed = 32 ∷ b'a' ∷ 0x2010 ∷ b'1' ∷ []

normalize_qr_code_input-Typed_example : normalize_qr_code_input typed ≡ entry.qr_code
normalize_qr_code_input-Typed_example =
    normalize_qr_code_input-Typed typed entry.qr_code
      (space refl (lower refl (dash refl (same refl nothing))))

-- The entry may be validated at its event by its staff.
may_enter : IsValidatable true 8 100000000 entry sold
unfolding get_event_end_date
may_enter = record {
  category = standing;
  event = concert;
  order = bought;
  holder = reader;
  has_category = refl;
  has_event = refl;
  has_order = refl;
  has_holder = refl;
  staffs = refl;
  unused = refl;
  paid = refl;
  begun = omega arith;
  on_time = λ h. omega arith;
}

found_entry : find_ticket typed sold ≡ some (0, entry)
unfolding find_ticket with_code normalize_qr_code_input trim trim_start to_dash to_upper
    remove_spaces
found_entry = refl

entry_let_in :
    (v : ValidatedTicket) × (validate_ticket true typed 8 100000000 sold
      ≡ ok (valid v) (stamped 0 100000000 sold))
entry_let_in =
    IsValidatable-validate_ticket true typed 8 100000000 0 entry sold found_entry may_enter

sold-UniqueCodes : UniqueCodes sold
sold-UniqueCodes j k s t fs ft same_codes = ground arith

validate_ticket-IsValidatable_example :
    (t : Ticket) × (find_ticket typed sold ≡ some (entry_let_in.0.id, t))
    × IsValidatable true 8 100000000 t sold
    × (stamped 0 100000000 sold ≡ stamped entry_let_in.0.id 100000000 sold)
validate_ticket-IsValidatable_example =
    validate_ticket-IsValidatable true typed 8 100000000 entry_let_in.0 sold
      (stamped 0 100000000 sold) entry_let_in.1

validate_ticket_once_example : ¬ (
    validate_ticket false typed 3 200000000 (stamped 0 100000000 sold)
    ≡ ok (valid entry_let_in.0) sold)
validate_ticket_once_example =
    validate_ticket_once true typed 8 100000000 entry_let_in.0 false 3 200000000 entry_let_in.0 sold
      (stamped 0 100000000 sold) sold sold-UniqueCodes entry_let_in.1

get_user_tickets_iff_example :
    (ts : List (ℕ × Ticket)) × (get_user_tickets 7 3000 sold ≡ ok ts sold)
    × ((lists 0 ts ≡ true) ↔ (
        (t : Ticket) × (get_ticket_by_id 0 7 sold ≡ ok t sold)
        × (t.validated_at ≡ none)
        × (is_upcoming 3000 (event_of sold t) ≡ true)))
get_user_tickets_iff_example = get_user_tickets_iff 7 3000 0 sold

asked_back : request_refund 0 7 sold ≡ ok tt (final (request_refund 0 7 sold))
unfolding request_refund notify notify_organizer cancel_legacy_booking cancel_found
asked_back = refl

found_later : find_ticket typed (final (request_refund 0 7 sold)) ≡ some (0, entry)
unfolding find_ticket with_code normalize_qr_code_input trim trim_start to_dash to_upper
    remove_spaces request_refund notify notify_organizer cancel_legacy_booking cancel_found
found_later = refl

request_refund-validate_ticket_example : ¬ (
    validate_ticket true typed 8 100000000 (final (request_refund 0 7 sold))
    ≡ ok (valid entry_let_in.0) sold)
request_refund-validate_ticket_example =
    request_refund-validate_ticket 0 7 true typed 8 100000000 0 entry entry_let_in.0 sold
      (final (request_refund 0 7 sold)) sold asked_back found_later refl
