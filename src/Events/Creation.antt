-- ===== src/Events/Creation.antt =====
-- How an event is made (`create` of backend/src/events/events.service.ts).
use event_now.Prelude.{ℕ, not, ◌&&◌, Option, is_some, filterb}
use event_now.Prelude.Outcome.{transaction, throw_if, pure, get, ◌>>=◌, ◌>>◌}
use event_now.Prisma.{Prisma}
use event_now.Http.{HttpException, bad_request, not_found, forbidden}
use event_now.Http
use event_now.Database.{
  Handler, Role, NotificationType, events, ticket_categories, create, for_each,
}
use event_now.Participants.{is_community}
use event_now.Follows.{has, get_follower_ids, get_friend_ids}
use event_now.Events.{
  CreateEventDto, is_user, requested_type, ends_before, new_event, new_category, notify_all,
}

module _ {p : Prisma} where
  -- `create` of the event with its categories, in one transaction.
  create_with_categories : ℕ → CreateEventDto → Handler p ℕ
  unfolding for_each
  create_with_categories user_id dto = transaction do
    id ← create events (new_event user_id dto)
    for_each (λ c. do _ ← create ticket_categories (new_category id c); pure tt) dto.categories
    pure id

  pub create_event : ℕ → CreateEventDto → Option Role → Handler p ℕ
  unfolding create_with_categories notify_all
  create_event user_id dto user_role = do
    throw_if (is_user user_role && not (is_community (requested_type dto.type)))
        (forbidden Http.professional_by_organizers)
    throw_if (not (is_community (requested_type dto.type)) && not (is_some dto.end_date))
        (bad_request Http.end_needed)
    throw_if (ends_before dto.end_date dto.event_date) (bad_request Http.end_before_start)
    id ← create_with_categories user_id dto
    db ← get
    notify_all
        (filterb (λ u. not (has (get_friend_ids user_id db) u)) (get_follower_ids user_id db))
        NotificationType.new_event_from_followed id
    notify_all (filterb (has (get_follower_ids user_id db)) (get_friend_ids user_id db))
        NotificationType.new_event_from_friend id
    pure id
