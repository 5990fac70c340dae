-- ===== src/ParticipationRequests.antt =====
-- backend/src/participation-requests/participation-requests.service.ts: users ask for a place at a
-- community event, its organizer accepts or refuses. The time is an argument.
pub mod Places
mod Tests
use text.Mathlib.Text.{◌==◌ as str_eq}
use event_now.Prelude.{
  ℕ, ◌+◌, ◌-◌, Bool, true, false, not, ◌&&◌, Option, none, some, List, [], ◌∷◌, ltb, leb, ◌==◌,
  is_some, if◌then◌else◌, any,
}
use event_now.Prelude.Outcome.{
  Outcome, ok, err, transaction, throw_if, throw, or_throw, pure, get, ◌>>=◌, ◌>>◌,
}
use event_now.Prisma.{Prisma}
use event_now.Http.{HttpException, bad_request, not_found, forbidden, record_not_found}
use event_now.Http
use event_now.Database.{
  Db, Handler, Event, EventType, TicketCategory, ParticipationRequest, RequestStatus,
  NotificationType, events, ticket_categories, participation_requests, notifications, find_or_throw,
  create, update,
}
use event_now.Participants.{is_community, is_accepted, is_request_of}

-- The `action` of the answer.
pub data Action : Type 0 where
  accept refuse : Action

abbrev pub status_of : Action → RequestStatus
status_of accept = RequestStatus.accepted
status_of refuse = RequestStatus.refused

abbrev pub notice_of : Action → NotificationType
notice_of accept = NotificationType.participation_accepted
notice_of refuse = NotificationType.participation_refused

abbrev pub is_waiting : RequestStatus → Bool
is_waiting RequestStatus.pending = true
is_waiting _ = false

abbrev pub already : RequestStatus → Http.Message
already RequestStatus.pending = Http.request_pending
already RequestStatus.accepted = Http.request_accepted
already RequestStatus.refused = Http.request_refused

-- The ticket category that counts the places of a community event.
abbrev pub is_participation : ℕ → TicketCategory → Bool
is_participation event_id c = c.event_id == event_id && str_eq c.name "Participation"

abbrev pub places_of : Option (ℕ × TicketCategory) → ℕ
places_of none = 0
places_of (some (id, c)) = c.current_stock

-- One for an accepted request to the event.
abbrev pub one_accepted : ℕ → ParticipationRequest → ℕ
one_accepted event_id r = if r.event_id == event_id && is_accepted r.status then 1 else 0

abbrev pub one_category : ℕ → TicketCategory → ℕ
one_category event_id c = if c.event_id == event_id then 1 else 0

abbrev pub answer : Action → ℕ → ParticipationRequest → ParticipationRequest
answer action now r = record r { status = status_of action; responded_at = some now }

abbrev pub organizes : ℕ → Option Event → Bool
organizes user_id none = false
organizes user_id (some e) = e.organizer_id == user_id

abbrev pub is_open_for : ℕ → Option Event → Bool
is_open_for user_id none = false
is_open_for user_id (some e) = e.organizer_id == user_id && is_community e.type

module _ {p : Prisma} where
  pub create_request : ℕ → ℕ → Handler p ℕ
  create_request user_id event_id = do
    event ← find_or_throw events event_id (not_found Http.event_missing)
    throw_if (not (is_community event.type)) (bad_request Http.community_requests_only)
    throw_if (is_some event.cancelled_at) (bad_request Http.event_cancelled)
    throw_if (event.organizer_id == user_id) (bad_request Http.own_event)
    db ← get
    refuse_second (p.find_first (is_request_of event_id user_id) db.participation_request)
    let total_places = places_of (p.find_first (is_participation event_id) db.ticket_category)
    let accepted_count = p.sum (one_accepted event_id) db.participation_request
    throw_if
        (ltb 0 (p.sum (one_category event_id) db.ticket_category)
          && ltb 0 total_places
          && leb total_places accepted_count)
        (bad_request Http.no_places_left)
    id ← create participation_requests (record {
      event_id = event_id;
      user_id = user_id;
      status = RequestStatus.pending;
      responded_at = none;
    })
    _ ← create notifications (record {
      user_id = event.organizer_id;
      type = NotificationType.participation_request;
      related_id = some event_id;
      read = false;
    })
    pure id
    where
      refuse_second : Option (ℕ × ParticipationRequest) → Handler p (Unit {0})
      refuse_second none = pure tt
      refuse_second (some (id, r)) = throw (bad_request (already r.status))

  pub get_by_event : ℕ → ℕ → Handler p (List (ℕ × ParticipationRequest))
  get_by_event event_id user_id = do
    event ← find_or_throw events event_id (not_found Http.event_missing)
    throw_if (not (event.organizer_id == user_id)) (forbidden Http.not_request_organizer)
    db ← get
    pure (p.find_many (λ r. r.event_id == event_id) db.participation_request)

  -- The event of a notification, which names the event or the request.
  pub resolve_event_id_for_notification : ℕ → ℕ → Handler p ℕ
  resolve_event_id_for_notification related_id user_id d =
      if organizes user_id (p.find_unique related_id d.event)
      then ok related_id d
      else elim (p.find_unique related_id d.participation_request) [
        | none ↦ err (not_found Http.event_or_request_missing) d
        | some r ↦
            if organizes user_id (p.find_unique r.event_id d.event)
            then ok r.event_id d
            else err (not_found Http.event_or_request_missing) d
      ]

  pub get_my_requests : ℕ → Handler p (List (ℕ × ParticipationRequest))
  get_my_requests user_id d = ok (p.find_many (λ r. r.user_id == user_id) d.participation_request) d

  pub get_my_request_for_event : ℕ → ℕ → Handler p (Option (ℕ × ParticipationRequest))
  get_my_request_for_event event_id user_id d =
      ok (p.find_first (is_request_of event_id user_id) d.participation_request) d

  pub get_pending_requests_for_organizer : ℕ → Handler p (List (ℕ × ParticipationRequest))
  get_pending_requests_for_organizer user_id d =
      ok
        (p.find_many
          (λ r. is_open_for user_id (p.find_unique r.event_id d.event) && is_waiting r.status)
          d.participation_request)
        d

  -- The first step of the transaction of `respond`.
  pub take_place : Action → Option (ℕ × TicketCategory) → Handler p (Unit {0})
  take_place refuse category = pure tt
  take_place accept none = pure tt
  take_place accept (some (id, c)) = do
    throw_if (ltb c.current_stock 1) (bad_request Http.no_places_left)
    update ticket_categories id (λ c. record c { current_stock = c.current_stock - 1 })

  -- The transaction of `respond`.
  pub settle_request : ℕ → ParticipationRequest → Action → ℕ → Handler p (Unit {0})
  unfolding take_place
  settle_request request_id request action now = transaction do
    db ← get
    take_place action (p.find_first (is_participation request.event_id) db.ticket_category)
    update participation_requests request_id (answer action now)
    _ ← create notifications (record {
      user_id = request.user_id;
      type = notice_of action;
      related_id = some request.event_id;
      read = false;
    })
    pure tt

  pub respond : ℕ → ℕ → Action → ℕ → Handler p (Unit {0})
  unfolding settle_request
  respond request_id user_id action now = do
    request ← find_or_throw participation_requests request_id (not_found Http.request_missing)
    event ← find_or_throw events request.event_id record_not_found
    throw_if (not (event.organizer_id == user_id)) (forbidden Http.not_request_organizer)
    throw_if (not (is_waiting request.status)) (bad_request Http.request_processed)
    settle_request request_id request action now
