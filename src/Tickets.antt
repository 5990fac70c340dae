-- ===== src/Tickets.antt =====
-- backend/src/tickets/tickets.service.ts: staff validate tickets, buyers read theirs. Times are
-- arguments. A record comes back with its key in place of the row for display; the drawing of the
-- PDF is left out.
pub mod Validate
pub mod Reading
mod Tests
use Prim.Native.String.{String}
use event_now.Prelude.{
  ℕ, ◌+◌, ◌-◌, ◌*◌, ◌/◌, Bool, true, false, not, ◌&&◌, ◌||◌, Option, none, some, List, [], ◌∷◌, ltb,
  leb, ◌==◌, is_some, if◌then◌else◌, any, filterb, take,
}
use event_now.Prelude.Int.{ℤ, minus}
use event_now.Prelude.Outcome.{Outcome, ok, err, throw_if, throw, or_throw, pure, get, ◌>>=◌, ◌>>◌}
use event_now.Prisma.{Prisma}
use event_now.Http.{HttpException, forbidden, not_found, record_not_found}
use event_now.Http
use event_now.Database.{
  Db, Handler, Ticket, TicketCategory, Event, EventStaff, Order, OrderStatus, User, tickets,
  ticket_categories, events, orders, users, staff_assignments, find_or_throw, update, delete_many,
}
use event_now.QrCode.{same_code, normalize_qr_code_input, trim}
use event_now.Orders.Refunds.{is_paid}

abbrev pub hour : ℕ
hour = 3600000

pub record ValidatedTicket : Type 0 where
  pub id : ℕ
  pub event : String
  pub category : String
  pub holder_email : String
  pub event_date : ℕ
  pub validated_at : ℕ

-- Why a code is refused; an order that is not paid comes with its status, on which the message
-- depends.
pub data Reason : Type 0 where
  qr_code_invalid event_ended event_not_started : Reason
  already_validated : (event category : String) → (validated_at : ℕ) → Reason
  order_not_paid : OrderStatus → Reason

pub data Validation : Type 0 where
  valid : ValidatedTicket → Validation
  invalid : Reason → Validation

-- `getEventEndDate`.
pub get_event_end_date : Event → ℕ
get_event_end_date e = elim e.end_date [ none ↦ e.event_date + 6 * hour | some d ↦ d ]

abbrev pub is_staff : ℕ → ℕ → EventStaff → Bool
is_staff event_id user_id a = a.event_id == event_id && a.user_id == user_id

-- The `where` of `removeStaffForEndedEvents`.
pub has_ended : ℕ → Event → Bool
has_ended now e = elim e.end_date [ some d ↦ ltb d now | none ↦ ltb (e.event_date + 6 * hour) now ]

-- `Math.round((a / b) * 100)`.
abbrev pub rate : ℕ → ℕ → ℕ
rate a b = (200 * a + b) / (2 * b)

abbrev pub stamp : ℕ → Ticket → Ticket
stamp now t = record t { validated_at = some now }

-- The first entries of a list by decreasing key.
abbrev pub insert_by : {A : Type 0} → (A → ℕ) → A → List A → List A
insert_by key x [] = x ∷ []
insert_by key x (y ∷ ys) =
    let rest = insert_by key x ys in if ltb (key x) (key y) then y ∷ rest else x ∷ y ∷ ys

abbrev pub sort_by : {A : Type 0} → (A → ℕ) → List A → List A
sort_by key [] = []
sort_by key (x ∷ xs) = insert_by key x (sort_by key xs)

abbrev pub time_of : Option ℕ → ℕ
time_of none = 0
time_of (some n) = n

pub record Stats : Type 0 where
  pub total_sold : ℤ
  pub validated : ℕ
  pub pending : ℤ
  pub validation_rate : ℕ

abbrev pub is_for : List (ℕ × EventStaff) → Option ℕ → Bool
is_for allowed none = false
is_for allowed (some event_id) = any (λ e. e.1.event_id == event_id) allowed

abbrev pub is_for_event : Option ℕ → List (ℕ × EventStaff) → Option ℕ → Bool
is_for_event none allowed of_ticket = is_for allowed of_ticket
is_for_event (some event_id) allowed none = false
is_for_event (some event_id) allowed (some k) = k == event_id

abbrev pub ofs : ℕ → (TicketCategory → ℕ) → TicketCategory → ℕ
ofs event_id g c = if c.event_id == event_id then g c else 0

abbrev pub is_ended_id : List (ℕ × Event) → EventStaff → Bool
is_ended_id ended a = any (λ e. e.0 == a.event_id) ended

-- An assignment whose event is still to come or going on.
abbrev pub is_upcoming : ℕ → Option Event → Bool
is_upcoming now none = false
is_upcoming now (some e) = ltb now (get_event_end_date e)

-- An order that the user has paid.
abbrev pub is_paid_by : ℕ → Option Order → Bool
is_paid_by user_id none = false
is_paid_by user_id (some o) = o.user_id == user_id && is_paid o.status

module _ {p : Prisma} where
  pub with_code : List ℕ → Db p → Option (ℕ × Ticket)
  with_code code d = p.find_first (λ t. same_code t.qr_code code) d.ticket

  -- The two look-ups of `validateTicket`.
  pub find_ticket : List ℕ → Db p → Option (ℕ × Ticket)
  unfolding with_code
  find_ticket raw d = elim (with_code (normalize_qr_code_input raw) d) [
    | some e ↦ some e
    | none ↦
        if same_code (normalize_qr_code_input raw) (trim raw) then none else with_code (trim raw) d
  ]

  -- `validateTicket` once the ticket is found.
  pub check_ticket :
      (is_production : Bool) → (staff_user_id now id : ℕ) → Ticket → Handler p Validation
  check_ticket is_production staff_user_id now id ticket = do
    category ← find_or_throw ticket_categories ticket.ticket_category_id record_not_found
    event ← find_or_throw events category.event_id record_not_found
    order ← find_or_throw orders ticket.order_id record_not_found
    holder ← find_or_throw users order.user_id record_not_found
    db ← get
    _ ←
        or_throw (p.find_first (is_staff category.event_id staff_user_id) db.event_staff)
          (forbidden Http.not_event_staff)
    elim ticket.validated_at [
      | some at ↦ pure (invalid (already_validated event.title category.name at))
      | none ↦
          if not (is_paid order.status)
          then pure (invalid (order_not_paid order.status))
          else if is_production && ltb (get_event_end_date event) now
          then pure (invalid event_ended)
          else if ltb (now + hour) event.event_date
          then pure (invalid event_not_started)
          else do
            update tickets id (stamp now)
            pure (
                valid (record {
                  id = id;
                  event = event.title;
                  category = category.name;
                  holder_email = holder.email;
                  event_date = event.event_date;
                  validated_at = now;
                }))
    ]

  pub validate_ticket :
      (is_production : Bool) → (qr_code : List ℕ) → (staff_user_id now : ℕ) → Handler p Validation
  unfolding find_ticket check_ticket
  validate_ticket is_production qr_code staff_user_id now d = elim (find_ticket qr_code d) [
    | none ↦ ok (invalid qr_code_invalid) d
    | some (id, ticket) ↦ check_ticket is_production staff_user_id now id ticket d
  ]

  -- The event of a ticket.
  abbrev pub event_id_of : Db p → Ticket → Option ℕ
  event_id_of d t = elim (p.find_unique t.ticket_category_id d.ticket_category) [
    | none ↦ none
    | some c ↦ some c.event_id
  ]

  pub get_staff_validations : ℕ → Option ℕ → Handler p (List (ℕ × Ticket))
  get_staff_validations staff_user_id event_id = do
    db ← get
    let allowed = p.find_many (λ a. a.user_id == staff_user_id) db.event_staff
    let validated =
        p.find_many
          (λ t. is_some t.validated_at && is_for_event event_id allowed (event_id_of db t))
          db.ticket
    elim allowed [
      | [] ↦ pure []
      | a ∷ others ↦ do
        throw_if (is_some event_id && not (is_for (a ∷ others) event_id))
            (forbidden Http.not_event_staff)
        pure (take 100 (sort_by (λ e. time_of e.1.validated_at) validated))
    ]

  pub get_validation_stats : ℕ → ℕ → Handler p Stats
  get_validation_stats event_id staff_user_id = do
    db ← get
    _ ←
        or_throw (p.find_first (is_staff event_id staff_user_id) db.event_staff)
          (forbidden Http.not_event_staff)
    _ ← find_or_throw events event_id (not_found Http.event_missing)
    let initial = p.sum (ofs event_id (λ c. c.initial_stock)) db.ticket_category
    let left = p.sum (ofs event_id (λ c. c.current_stock)) db.ticket_category
    let validated =
        p.sum
          (λ t.
            if is_some t.validated_at && is_for_event (some event_id) [] (event_id_of db t)
            then 1
            else 0)
          db.ticket
    pure (record {
      total_sold = minus initial left;
      validated = validated;
      pending = minus initial (left + validated);
      validation_rate = if ltb left initial then rate validated (initial - left) else 0;
    })

  pub remove_staff_for_ended_events : ℕ → Handler p (Unit {0})
  unfolding has_ended
  remove_staff_for_ended_events now = do
    db ← get
    let ended = p.find_many (has_ended now) db.event
    elim ended [ [] ↦ pure tt | e ∷ es ↦ delete_many staff_assignments (is_ended_id (e ∷ es)) ]

  -- `getStaffEvents`, with `lastStaffCleanupAt` before and after.
  pub get_staff_events : ℕ → ℕ → ℕ → Handler p (List (ℕ × EventStaff) × ℕ)
  unfolding remove_staff_for_ended_events
  get_staff_events staff_user_id now last_staff_cleanup_at = do
    let is_due = ltb (last_staff_cleanup_at + 60000) now
    if is_due then remove_staff_for_ended_events now else pure tt
    db ← get
    let assignments = p.find_many (λ a. a.user_id == staff_user_id) db.event_staff
    pure (
      filterb (λ a. is_upcoming now (p.find_unique a.1.event_id db.event)) assignments,
      if is_due then now else last_staff_cleanup_at,
    )

  abbrev pub event_of : Db p → Ticket → Option Event
  event_of d t = elim (event_id_of d t) [ none ↦ none | some k ↦ p.find_unique k d.event ]

  -- The `where` of `getUserTickets`.
  abbrev pub is_shown_ticket : ℕ → ℕ → Db p → Ticket → Bool
  is_shown_ticket user_id now d t =
      is_paid_by user_id (p.find_unique t.order_id d.order)
      && not (is_some t.validated_at)
      && is_upcoming now (event_of d t)

  pub get_user_tickets : ℕ → ℕ → Handler p (List (ℕ × Ticket))
  get_user_tickets user_id now d = ok (p.find_many (is_shown_ticket user_id now d) d.ticket) d

  pub get_ticket_by_qr_code : List ℕ → Handler p (ℕ × Ticket)
  unfolding with_code
  get_ticket_by_qr_code qr_code d =
      or_throw (with_code (normalize_qr_code_input qr_code) d) (not_found Http.ticket_missing) d

  pub get_ticket_by_id : ℕ → ℕ → Handler p Ticket
  get_ticket_by_id ticket_id user_id = do
    ticket ← find_or_throw tickets ticket_id (not_found Http.ticket_missing)
    order ← find_or_throw orders ticket.order_id record_not_found
    throw_if (not (order.user_id == user_id)) (not_found Http.ticket_missing)
    throw_if (not (is_paid order.status)) (not_found Http.ticket_missing)
    pure ticket
