-- ===== src/ParticipantReviews.antt =====
-- backend/src/participant-reviews/participant-reviews.service.ts: what the organizer of a community
-- event thinks of its participants. The time is an argument; the columns of users that the answers
-- show are left out.
pub mod Access
use Prim.Native.String.{String}
use event_now.Prelude.{
  ℕ, ◌*◌, ◌/◌, ◌+◌, Bool, true, false, not, ◌&&◌, Option, none, some, List, [], ◌∷◌, leb, ◌==◌,
  is_some, if◌then◌else◌, map,
}
use event_now.Prelude.Outcome.{Outcome, ok, err, throw_if, or_throw, pure, get, ◌>>=◌, ◌>>◌}
use event_now.Prisma.{Prisma}
use event_now.Http.{HttpException, Message, bad_request, not_found, forbidden, record_not_found}
use event_now.Http
use event_now.Participants.{is_community, is_accepted, is_accepted_request, is_request_of}
use event_now.Database.{
  Db, Handler, Event, ParticipantReview, ParticipationRequest, events, participant_reviews,
  find_or_throw, create, update, delete,
}
use event_now.Database
use event_now.Reviews.{UpdateReviewDto, average}

pub record CreateParticipantReviewDto : Type 0 where
  pub event_id : ℕ
  pub participant_id : ℕ
  pub rating : ℕ
  pub comment : Option String

pub record ShownReviews : Type 0 where
  pub reviews : List (ℕ × ParticipantReview)
  pub average_rating : Option ℕ
  pub total_reviews : ℕ

-- A participant of the organizer's list, with the organizer's review of this user.
pub record ShownParticipant : Type 0 where
  pub user_id : ℕ
  pub has_review : Bool
  pub review : Option (ℕ × ParticipantReview)

abbrev pub is_review_of : ℕ → ℕ → ℕ → ParticipantReview → Bool
is_review_of event_id reviewer_id participant_id r =
    r.event_id == event_id && r.reviewer_id == reviewer_id && r.participant_id == participant_id

-- Unlike for the reviews of an event, its start counts.
abbrev pub is_event_past : ℕ → ℕ → Bool
is_event_past event_date now = leb event_date now

abbrev pub is_about : ℕ → ParticipantReview → Bool
is_about participant_id r = r.participant_id == participant_id

abbrev pub new_review : ℕ → CreateParticipantReviewDto → ParticipantReview
new_review reviewer_id dto = record {
  event_id = dto.event_id;
  reviewer_id = reviewer_id;
  participant_id = dto.participant_id;
  rating = dto.rating;
  comment = dto.comment;
}

abbrev pub edited : UpdateReviewDto → ParticipantReview → ParticipantReview
edited dto r = record r {
  rating = elim dto.rating [ none ↦ r.rating | some n ↦ n ];
  comment = elim dto.comment [ none ↦ r.comment | some c ↦ some c ];
}

module _ {p : Prisma} where
  pub create_participant_review : ℕ → CreateParticipantReviewDto → ℕ → Handler p ℕ
  create_participant_review reviewer_id dto now = do
    event ← find_or_throw events dto.event_id (not_found Http.event_missing)
    throw_if (not (is_community event.type)) (bad_request Http.community_reviews_only)
    throw_if (not (is_event_past event.event_date now)) (bad_request Http.event_not_begun)
    throw_if (not (event.organizer_id == reviewer_id)) (forbidden Http.reviews_organizer_only)
    throw_if (reviewer_id == dto.participant_id) (bad_request Http.reviews_self)
    db ← get
    throw_if
        (not (
          is_accepted_request (
            p.find_first (is_request_of dto.event_id dto.participant_id) db.participation_request)))
        (bad_request Http.participant_not_accepted)
    throw_if
        (is_some (
          p.find_first (is_review_of dto.event_id reviewer_id dto.participant_id)
            db.social.participant_review))
        (bad_request Http.review_exists)
    create participant_reviews (new_review reviewer_id dto)

  pub find_all_by_participant : ℕ → Handler p ShownReviews
  find_all_by_participant participant_id = do
    db ← get
    pure (record {
      reviews = p.find_many (is_about participant_id) db.social.participant_review;
      average_rating =
          average
            (p.sum (λ r. if is_about participant_id r then r.rating else 0)
              db.social.participant_review)
            (p.sum (λ r. if is_about participant_id r then 1 else 0) db.social.participant_review);
      total_reviews =
          p.sum (λ r. if is_about participant_id r then 1 else 0) db.social.participant_review;
    })

  -- The event, of which the user is the organizer; `refusal` is what anyone else is told.
  pub own_event : Message → ℕ → ℕ → Handler p Event
  own_event refusal event_id organizer_id = do
    event ← find_or_throw events event_id (not_found Http.event_missing)
    throw_if (not (event.organizer_id == organizer_id)) (forbidden refusal)
    pure event

  pub find_all_by_event : ℕ → ℕ → Handler p (List (ℕ × ParticipantReview))
  unfolding own_event
  find_all_by_event event_id organizer_id = do
    _ ← own_event Http.list_organizer_only event_id organizer_id
    db ← get
    pure (p.find_many (λ r. r.event_id == event_id) db.social.participant_review)

  -- The review, which is the user's; `refusal` is what anyone else is told.
  pub own_review : Message → ℕ → ℕ → Handler p ParticipantReview
  own_review refusal review_id reviewer_id = do
    review ← find_or_throw participant_reviews review_id (not_found Http.review_missing)
    throw_if (not (review.reviewer_id == reviewer_id)) (forbidden refusal)
    pure review

  pub update_participant_review : ℕ → ℕ → UpdateReviewDto → Handler p (Unit {0})
  unfolding own_review
  update_participant_review review_id reviewer_id dto = do
    _ ← own_review Http.review_edit_forbidden review_id reviewer_id
    update participant_reviews review_id (edited dto)

  pub delete_participant_review : ℕ → ℕ → Handler p (Unit {0})
  unfolding own_review
  delete_participant_review review_id reviewer_id = do
    _ ← own_review Http.review_delete_forbidden review_id reviewer_id
    delete participant_reviews review_id

  show_participant : ℕ → ℕ → Db p → ℕ × ParticipationRequest → ShownParticipant
  show_participant event_id organizer_id d r =
      let review =
        p.find_first (is_review_of event_id organizer_id r.1.user_id) d.social.participant_review in
      record { user_id = r.1.user_id; has_review = is_some review; review = review }

  pub get_participants_for_event : ℕ → ℕ → Handler p (List ShownParticipant)
  unfolding own_event show_participant
  get_participants_for_event event_id organizer_id = do
    _ ← own_event Http.participants_organizer_only event_id organizer_id
    db ← get
    pure (
        map (show_participant event_id organizer_id db) (
          p.find_many (λ r. r.event_id == event_id && is_accepted r.status)
            db.participation_request))
