-- ===== src/Reviews/Tests.antt =====
-- The theorems on reviews applied to a small database (backend/src/reviews/reviews.service.ts).
use event_now.Prelude.{ℕ, ◌≡◌, ◌↔◌, some, none, [], ◌∷◌, arith}
use event_now.Prelude.Outcome.{ok}
use event_now.Prisma.Rows.{in_memory}
use event_now.Database.{Db, Review}
use event_now.Reviews.{CreateReviewDto, ReviewPage, create_review, can_user_review}
use event_now.Reviews.Access.{HaveOneEach, create_review-can_user_review}
use event_now.Tests.{sold}

abbrev good : CreateReviewDto
good = record { rating = 4; comment = none }

abbrev opinion : ℕ → ℕ → Review
opinion user_id rating = record {
  event_id = 0;
  user_id = user_id;
  rating = rating;
  comment = none;
  created_at = 0;
}

-- User 7, whose second ticket was used, has not yet said anything.
abbrev reviewed : Db in_memory
reviewed = record sold {
  social = record sold.social { review = some (opinion 5 2) ∷ some (opinion 4 5) ∷ [] };
}

create_review-can_user_review_example :
    ((id : ℕ) × (d' : Db in_memory) × (create_review 0 7 good 200000000 reviewed ≡ ok id d'))
    ↔ (can_user_review 0 7 200000000 reviewed ≡ none)
create_review-can_user_review_example = create_review-can_user_review 0 7 good 200000000 reviewed

one_each : HaveOneEach reviewed
one_each j k r s fj fk same same' = ground arith

abbrev first_page : ReviewPage
first_page = record {
  reviews = (0, opinion 4 5) ∷ [];
  total = 2;
  total_pages = 2;
  average_rating = some 35;
}
