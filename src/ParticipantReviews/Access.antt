-- ===== src/ParticipantReviews/Access.antt =====
-- Who reviews which participant
-- (backend/src/participant-reviews/participant-reviews.service.ts).
use event_now.Prelude.{
  ℕ, ◌≡◌, ◌≢◌, ◌⊎◌, true, none, some, ◌==◌, Option-cases, Bool-cases, inl, inr, arith,
}
use event_now.Prelude.Outcome.{ok, err}
use event_now.Prisma.{Prisma}
use event_now.Http.{HttpException, bad_request, not_found, forbidden}
use event_now.Http
use event_now.Participants.{is_community, is_accepted_request, is_request_of}
use event_now.Database.{Db, Event, ParticipantReview}
use event_now.ParticipantReviews.{
  CreateParticipantReviewDto, is_review_of, is_event_past, new_review, create_participant_review,
}

module _ {p : Prisma} where
  abbrev pub with_reviews : Db p → p.Table ParticipantReview → Db p
  with_reviews d t = record d { social = record d.social { participant_review = t } }

  -- What `create` asks for.
  abbrev pub IsAllowed : ℕ → CreateParticipantReviewDto → ℕ → Db p → Event → Type 0
  IsAllowed reviewer_id dto now d ev =
      (p.find_unique dto.event_id d.event ≡ some ev)
      × (is_community ev.type ≡ true)
      × (is_event_past ev.event_date now ≡ true)
      × (ev.organizer_id ≡ reviewer_id)
      × (reviewer_id ≢ dto.participant_id)
      × (is_accepted_request
            (p.find_first (is_request_of dto.event_id dto.participant_id) d.participation_request)
          ≡ true)
      × (p.find_first (is_review_of dto.event_id reviewer_id dto.participant_id)
            d.social.participant_review
          ≡ none)

  -- A review of a participant is written exactly by the organizer of a community event that has
  -- begun, about another user whose participation was accepted, and once: otherwise the call throws
  -- and nothing changes.
  pub create_participant_review_cases :
      (reviewer_id : ℕ) (dto : CreateParticipantReviewDto) (now : ℕ) (d : Db p)
      → ((ev : Event) × IsAllowed reviewer_id dto now d ev
          × (create_participant_review reviewer_id dto now d
              ≡ ok (p.new_id d.social.participant_review) (
                  with_reviews d
                    (p.create (new_review reviewer_id dto) d.social.participant_review))))
        ⊎ (((ev : Event) → ¬ (IsAllowed reviewer_id dto now d ev))
            × (e : HttpException) × (create_participant_review reviewer_id dto now d ≡ err e d))
  unfolding create_participant_review
  create_participant_review_cases by dto now d =
      elim (Option-cases (p.find_unique dto.event_id d.event)) [
        | inl e ↦ inr (
          (λ ev' (found, a, b, c, f, g, h). absurd (ground arith)),
          not_found Http.event_missing,
          ground (arith, e),
        )
        | inr (ev, e) ↦ elim (Bool-cases (is_community ev.type)) [
          | inr wrong ↦ inr (
            (λ ev' (found, a, b, c, f, g, h). absurd (ground arith)),
            bad_request Http.community_reviews_only,
            ground (arith, e, wrong),
          )
          | inl shared ↦ elim (Bool-cases (is_event_past ev.event_date now)) [
            | inr wrong ↦ inr (
              (λ ev' (found, a, b, c, f, g, h). absurd (ground arith)),
              bad_request Http.event_not_begun,
              ground (arith, e, shared, wrong),
            )
            | inl past ↦ elim (Bool-cases (ev.organizer_id == by)) [
              | inr wrong ↦ inr (
                (λ ev' (found, a, b, c, f, g, h). absurd (ground arith)),
                forbidden Http.reviews_organizer_only,
                ground (arith, e, shared, past, wrong),
              )
              | inl own ↦ elim (Bool-cases (by == dto.participant_id)) [
                | inl wrong ↦ inr (
                  (λ ev' (found, a, b, c, f, g, h). absurd (ground arith)),
                  bad_request Http.reviews_self,
                  ground (arith, e, shared, past, own, wrong),
                )
                | inr differ ↦
                    elim (Bool-cases (
                      is_accepted_request (
                        p.find_first (is_request_of dto.event_id dto.participant_id)
                          d.participation_request))) [
                            | inr wrong ↦ inr (
                              (λ ev' (found, a, b, c, f, g, h). absurd (ground arith)),
                              bad_request Http.participant_not_accepted,
                              ground (arith, e, shared, past, own, differ, wrong),
                            )
                            | inl accepted ↦
                                elim (Option-cases (
                                  p.find_first (is_review_of dto.event_id by dto.participant_id)
                                    d.social.participant_review)) [
                                      | inr (r, wrong) ↦ inr (
                                        (λ ev' (found, a, b, c, f, g, h). absurd (ground arith)),
                                        bad_request Http.review_exists,
                                        ground
                                            (arith, e, shared, past, own, differ, accepted, wrong),
                                      )
                                      | inl free ↦ inl (
                                        ev,
                                        (
                                          e,
                                          shared,
                                          past,
                                          ground arith,
                                          ground arith,
                                          accepted,
                                          free,
                                        ),
                                        ground
                                            (arith, e, shared, past, own, differ, accepted, free),
                                      )
                                    ]
                          ]
              ]
            ]
          ]
        ]
      ]
