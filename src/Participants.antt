-- ===== src/Participants.antt =====
-- Who takes part in a community event: the access check that backend/src/event-items and
-- backend/src/polls have in common, each with its own message.
use event_now.Prelude.{
  ℕ, ◌≡◌, ◌⊎◌, Bool, true, false, not, ◌&&◌, ◌||◌, Option, none, some, ◌==◌, Option-cases,
  Bool-cases, inl, inr, arith,
}
use event_now.Prelude.Outcome.{ok, err, throw_if, pure, get, ◌>>=◌, ◌>>◌}
use event_now.Prisma.{Prisma}
use event_now.Http.{HttpException, Message, bad_request, not_found, forbidden}
use event_now.Http
use event_now.Database.{
  Db, Handler, Event, EventType, ParticipationRequest, RequestStatus, events, find_or_throw,
}

abbrev pub is_community : EventType → Bool
is_community EventType.community = true
is_community EventType.professional = false

abbrev pub is_accepted : RequestStatus → Bool
is_accepted RequestStatus.accepted = true
is_accepted _ = false

abbrev pub is_request_of : ℕ → ℕ → ParticipationRequest → Bool
is_request_of event_id user_id r = r.event_id == event_id && r.user_id == user_id

abbrev pub is_accepted_request : Option (ℕ × ParticipationRequest) → Bool
is_accepted_request none = false
is_accepted_request (some (id, r)) = is_accepted r.status

module _ {p : Prisma} where
  unfoldable pub check_participant : Message → ℕ → ℕ → Handler p Event
  check_participant refusal user_id event_id = do
    event ← find_or_throw events event_id (not_found Http.event_missing)
    throw_if (not (is_community event.type)) (bad_request Http.community_only)
    db ← get
    throw_if
        (not (event.organizer_id == user_id)
          && not (
              is_accepted_request
                (p.find_first (is_request_of event_id user_id) db.participation_request)))
        (forbidden refusal)
    pure event

  abbrev may_see : ℕ → ℕ → Event → Db p → Bool
  may_see user_id event_id ev d =
      ev.organizer_id == user_id
      || is_accepted_request (p.find_first (is_request_of event_id user_id) d.participation_request)

  -- The check changes nothing.
  pub check_participant_cases :
      (m : Message) (user_id event_id : ℕ) (d : Db p)
      → ((ev : Event) × (check_participant m user_id event_id d ≡ ok ev d))
        ⊎ ((e : HttpException) × (check_participant m user_id event_id d ≡ err e d))
  unfolding check_participant
  check_participant_cases m user_id event_id d =
      elim (Option-cases (p.find_unique event_id d.event)) [
        | inl e ↦ inr (not_found Http.event_missing, ground (arith, e))
        | inr (ev, e) ↦ elim (Bool-cases (is_community ev.type)) [
          | inr closed ↦ inr (bad_request Http.community_only, ground (arith, e))
          | inl shared ↦ elim (Bool-cases (may_see user_id event_id ev d)) [
            | inl may ↦ inl (ev, ground (arith, e, may))
            | inr barred ↦ inr (forbidden m, ground (arith, e, barred))
          ]
        ]
      ]
