-- ===== src/Reviews/Access.antt =====
-- Who may review an event (backend/src/reviews/reviews.service.ts).
use event_now.Prelude.{
  ℕ, ◌≡◌, ◌↔◌, ◌⊎◌, sym, subst, false, none, some, ◌==◌, Option-cases, Bool-cases, inl, inr, arith,
}
use event_now.Prelude.Outcome.{ok, err, final}
use event_now.Prisma.{Prisma}
use event_now.Http.{HttpException, Message, bad_request, not_found, forbidden}
use event_now.Http
use event_now.Database.{Db, Review}
use event_now.Reviews.{
  CreateReviewDto, UpdateReviewDto, is_review_of, new_review, is_event_past, has_attended, edited,
  create_review, can_user_review, own_review, update_review, delete_review,
}

module _ {p : Prisma} where
  abbrev with_reviews : Db p → p.Table Review → Db p
  with_reviews d t = record d { social = record d.social { review = t } }

  create_review_cases :
      (event_id user_id : ℕ) (dto : CreateReviewDto) (now : ℕ) (d : Db p)
      → ((can_user_review event_id user_id now d ≡ none)
          × (p.find_first (is_review_of event_id user_id) d.social.review ≡ none)
          × (create_review event_id user_id dto now d
              ≡ ok (p.new_id d.social.review) (
                  with_reviews d (p.create (new_review event_id user_id dto now) d.social.review))))
        ⊎ ((m : Message) × (e : HttpException) × (can_user_review event_id user_id now d ≡ some m)
            × (create_review event_id user_id dto now d ≡ err e d))
  unfolding can_user_review create_review
  create_review_cases event_id user_id dto now d =
      elim (Option-cases (p.find_unique event_id d.event)) [
        | inl e ↦
            inr (
              Http.event_missing,
              not_found Http.event_missing,
              ground (arith, e),
              ground (arith, e),
            )
        | inr (ev, e) ↦ elim (Bool-cases (is_event_past ev now)) [
          | inr early ↦ inr (
            Http.event_not_over,
            bad_request Http.event_not_over,
            ground (arith, e, early),
            ground (arith, e, early),
          )
          | inl past ↦ elim (Bool-cases (has_attended event_id user_id ev.type d)) [
            | inr absent ↦ inr (
              Http.not_attended,
              forbidden Http.not_attended,
              ground (arith, e, past, absent),
              ground (arith, e, past, absent),
            )
            | inl was_there ↦
                elim (Option-cases (p.find_first (is_review_of event_id user_id) d.social.review)) [
                  | inr (r, e2) ↦ inr (
                    Http.review_exists,
                    bad_request Http.review_exists,
                    ground (arith, e, past, was_there, e2),
                    ground (arith, e, past, was_there, e2),
                  )
                  | inl e2 ↦ inl (
                    ground (arith, e, past, was_there, e2),
                    e2,
                    ground (arith, e, past, was_there, e2),
                  )
                ]
          ]
        ]
      ]

  -- `create` returns exactly for the users whom `canUserReview` tells that they may review the event.
  pub create_review-can_user_review :
      (event_id user_id : ℕ) (dto : CreateReviewDto) (now : ℕ) (d : Db p)
      → ((id : ℕ) × (d' : Db p) × (create_review event_id user_id dto now d ≡ ok id d'))
        ↔ (can_user_review event_id user_id now d ≡ none)
  create_review-can_user_review event_id user_id dto now d =
      elim (create_review_cases event_id user_id dto now d) [
        | inl (may, free, run) ↦ (
          λ h. may,
          λ h. (
            p.new_id d.social.review,
            with_reviews d (p.create (new_review event_id user_id dto now) d.social.review),
            run,
          ),
        )
        | inr (m, e, barred, run) ↦ (
          λ (id, d', h). absurd (ground (arith, h, run)),
          λ h. absurd (ground (arith, h, barred)),
        )
      ]

  -- No user has two reviews of one event (`@@unique([eventId, userId])`).
  abbrev pub HaveOneEach : Db p → Type 0
  HaveOneEach d =
      (j k : ℕ) (r s : Review)
      → p.find_unique j d.social.review ≡ some r
      → p.find_unique k d.social.review ≡ some s
      → r.event_id ≡ s.event_id
      → r.user_id ≡ s.user_id
      → j ≡ k

  -- Whatever `create` answers, no user has two reviews of one event.
  pub create_review-HaveOneEach :
      (event_id user_id : ℕ) (dto : CreateReviewDto) (now : ℕ) (d : Db p)
      → HaveOneEach d
      → HaveOneEach (final (create_review event_id user_id dto now d))
  create_review-HaveOneEach event_id user_id dto now d one =
      elim (create_review_cases event_id user_id dto now d) [
        | inr (m, e, barred, run) ↦ subst (λ r. HaveOneEach (final r)) (sym run) one
        | inl (may, free, run) ↦
            subst (λ r. HaveOneEach (final r)) (sym run)
              (λ j k r s fj fk same_event same_user.
                let t = d.social.review in
                let q = is_review_of event_id user_id in
                ground (
                  arith,
                  p.find_unique-create j (new_review event_id user_id dto now) t,
                  p.find_unique-create k (new_review event_id user_id dto now) t,
                  p.find_first-none q t j r free,
                  p.find_first-none q t k s free,
                  one j k r s,
                ))
      ]

  own_review_cases :
      (m : Message) (review_id user_id : ℕ) (d : Db p)
      → ((r : Review) × (own_review m review_id user_id d ≡ ok r d)
          × (p.find_unique review_id d.social.review ≡ some r)
          × (r.user_id ≡ user_id))
        ⊎ ((e : HttpException) × (own_review m review_id user_id d ≡ err e d))
  unfolding own_review
  own_review_cases m review_id user_id d =
      elim (Option-cases (p.find_unique review_id d.social.review)) [
        | inl e ↦ inr (not_found Http.review_missing, ground (arith, e))
        | inr (r, e) ↦ elim (Bool-cases (r.user_id == user_id)) [
          | inl mine ↦ inl (r, ground (arith, e, mine), e, ground arith)
          | inr other ↦ inr (forbidden m, ground (arith, e, other))
        ]
      ]

  -- A review is changed or deleted by its author only: after a call of anyone else every review of
  -- another user is what it was.
  pub update_delete-keep :
      (review_id user_id k : ℕ) (dto : UpdateReviewDto) (r : Review) (d : Db p)
      → p.find_unique k d.social.review ≡ some r
      → (r.user_id == user_id) ≡ false
      → (p.find_unique k (final (update_review review_id user_id dto d)).social.review ≡ some r)
        × (p.find_unique k (final (delete_review review_id user_id d)).social.review ≡ some r)
  unfolding update_review delete_review
  update_delete-keep review_id user_id k dto r d found other = (
    elim (own_review_cases Http.review_edit_forbidden review_id user_id d) [
      | inr (x, e) ↦ ground (arith, e)
      | inl (s, e, fs, mine) ↦
          ground (arith, e, fs, p.find_unique-modify k review_id (edited dto) d.social.review)
    ],
    elim (own_review_cases Http.review_delete_forbidden review_id user_id d) [
      | inr (x, e) ↦ ground (arith, e)
      | inl (s, e, fs, mine) ↦
          ground (arith, e, fs, p.find_unique-delete k review_id d.social.review)
    ],
  )
