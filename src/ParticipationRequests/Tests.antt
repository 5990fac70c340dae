-- ===== src/ParticipationRequests/Tests.antt =====
-- The theorems on participation requests applied to a small database
-- (backend/src/participation-requests/participation-requests.service.ts).
use event_now.Prelude.{◌≡◌, [], ◌∷◌, some, none, refl, arith}
use event_now.Prelude.Outcome.{ok, err, final}
use event_now.Prisma.Rows.{in_memory}
use event_now.Http.{HttpException}
use event_now.Database.{Db, TicketCategory, ParticipationRequest, RequestStatus}
use event_now.ParticipationRequests.{
  accept, refuse, respond, settle_request, take_place, create_request,
}
use event_now.ParticipationRequests.Places.{
  Places, respond-Places, respond-respond, create_request_half_full,
}
use event_now.Tests.{shared, standing}

-- One of two places is taken.
abbrev seats : TicketCategory
seats = record standing { name = "Participation"; initial_stock = 2; current_stock = 1 }

abbrev taken : ParticipationRequest
taken = record { event_id = 0; user_id = 4; status = RequestStatus.accepted; responded_at = some 5 }

abbrev waiting : ParticipationRequest
waiting = record { event_id = 0; user_id = 5; status = RequestStatus.pending; responded_at = none }

abbrev invited : Db in_memory
invited = record shared {
  ticket_category = some seats ∷ [];
  participation_request = some waiting ∷ some taken ∷ [];
}

respond-Places_example : Places 0 0 2 (final (respond 1 9 accept 10 invited))
respond-Places_example =
    respond-Places 1 9 accept 10 0 2 waiting seats invited refl refl (seats, refl, refl)

welcomed : respond 1 9 accept 10 invited ≡ ok tt (final (respond 1 9 accept 10 invited))
unfolding respond settle_request take_place
welcomed = refl

respond-respond_example :
    ¬ (respond 1 9 refuse 20 (final (respond 1 9 accept 10 invited)) ≡ ok tt invited)
respond-respond_example =
    respond-respond 1 9 accept 10 9 refuse 20 invited (final (respond 1 9 accept 10 invited))
      invited welcomed

create_request_half_full_example :
    (x : HttpException) × (create_request 6 0 invited ≡ err x invited)
create_request_half_full_example =
    create_request_half_full 6 0 0 2 seats invited refl (seats, refl, refl) (omega arith)
      (omega arith)
