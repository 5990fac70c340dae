-- ===== src/Notifications.antt =====
-- backend/src/notifications/notifications.service.ts: the notifications of a user. The messages to
-- the gateway and the texts of the notifications are left out.
pub mod Counts
mod Tests
use event_now.Prelude.{
  ℕ, Bool, true, false, not, ◌&&◌, ◌||◌, Option, none, some, List, [], ◌∷◌, ◌==◌, is_id,
  if◌then◌else◌, any, take, length,
}
use event_now.Prelude.Outcome.{Outcome, ok, err, throw_if, or_throw, pure, get, ◌>>=◌, ◌>>◌}
use event_now.Prisma.{Prisma}
use event_now.Http.{HttpException, not_found, forbidden, record_not_found}
use event_now.Http
use event_now.Database.{
  Db, Handler, Notification, NotificationType, notifications, find_or_throw, create, update, delete,
  delete_many, update_many, for_each,
}
use event_now.Database

-- The name of a type as a number, to compare it.
abbrev pub code_of : NotificationType → ℕ
code_of NotificationType.order_confirmed = 0
code_of NotificationType.refund_requested = 1
code_of NotificationType.refund_approved = 2
code_of NotificationType.refund_rejected = 3
code_of NotificationType.payment_failed = 4
code_of NotificationType.participation_request = 5
code_of NotificationType.participation_accepted = 6
code_of NotificationType.participation_refused = 7
code_of NotificationType.new_follower = 8
code_of NotificationType.staff_invitation = 9
code_of NotificationType.new_message = 10
code_of NotificationType.added_to_conversation = 11
code_of NotificationType.event_cancelled = 12
code_of NotificationType.new_event_from_followed = 13
code_of NotificationType.new_event_from_friend = 14

abbrev pub is_type : NotificationType → NotificationType → Bool
is_type a b = code_of a == code_of b

-- `notIn: ['NEW_MESSAGE', 'ADDED_TO_CONVERSATION']`: the others show in the conversations.
abbrev pub is_listed : NotificationType → Bool
is_listed NotificationType.new_message = false
is_listed NotificationType.added_to_conversation = false
is_listed _ = true

abbrev pub is_for : ℕ → Bool → Notification → Bool
is_for user_id unread_only n =
    n.user_id == user_id && (not unread_only || not n.read) && is_listed n.type

abbrev pub is_unread_for : ℕ → Notification → Bool
is_unread_for user_id n = n.user_id == user_id && not n.read && is_listed n.type

abbrev pub reads : Notification → Notification
reads n = record n { read = true }

-- The `data` of a new notification.
abbrev pub notice : ℕ → NotificationType → Option ℕ → Notification
notice user_id type related_id = record {
  user_id = user_id;
  type = type;
  related_id = related_id;
  read = false;
}

abbrev pub is_about : ℕ → NotificationType → ℕ → Notification → Bool
is_about user_id type related_id n =
    n.user_id == user_id && is_type n.type type && is_id n.related_id related_id

-- `relatedId: { in: relatedIds }`.
abbrev pub is_about_any : NotificationType → List ℕ → Notification → Bool
is_about_any type related_ids n =
    is_type n.type type && any (λ id. is_id n.related_id id) related_ids

module _ {p : Prisma} where
  pub get_for_user : ℕ → Bool → Handler p (List (ℕ × Notification))
  get_for_user user_id unread_only = do
    db ← get
    pure (take 100 (p.find_many (is_for user_id unread_only) db.notification))

  -- The notification of the user, who is its owner.
  pub own_notification : ℕ → ℕ → Handler p Notification
  own_notification notification_id user_id = do
    n ← find_or_throw notifications notification_id (not_found Http.notification_missing)
    throw_if (not (n.user_id == user_id)) (forbidden Http.notification_of_other)
    pure n

  pub mark_as_read : ℕ → ℕ → Handler p (Unit {0})
  unfolding own_notification
  mark_as_read notification_id user_id = do
    _ ← own_notification notification_id user_id
    update notifications notification_id reads

  pub delete_notification : ℕ → ℕ → Handler p (Unit {0})
  unfolding own_notification
  delete_notification notification_id user_id = do
    _ ← own_notification notification_id user_id
    delete notifications notification_id

  pub mark_all_as_read : ℕ → Handler p (Unit {0})
  mark_all_as_read user_id = update_many notifications (λ n. n.user_id == user_id) reads

  pub get_unread_count : ℕ → Handler p ℕ
  get_unread_count user_id = do
    db ← get
    pure (p.sum (λ n. if is_unread_for user_id n then 1 else 0) db.notification)

  abbrev pub create_notification : ℕ → NotificationType → Option ℕ → Handler p ℕ
  create_notification user_id type related_id =
      create notifications (notice user_id type related_id)

  unfoldable pub create_for_many_users : List ℕ → NotificationType → Option ℕ → Handler p (Unit {0})
  unfolding for_each
  create_for_many_users user_ids type related_id =
      for_each (λ user_id. do _ ← create_notification user_id type related_id; pure tt) user_ids

  unfoldable pub delete_by_type_and_related_id : ℕ → NotificationType → ℕ → Handler p ℕ
  delete_by_type_and_related_id user_id type related_id = do
    db ← get
    delete_many notifications (is_about user_id type related_id)
    pure (p.sum (λ n. if is_about user_id type related_id n then 1 else 0) db.notification)

  unfoldable pub delete_by_type_and_related_ids : NotificationType → List ℕ → Handler p ℕ
  delete_by_type_and_related_ids type related_ids = do
    db ← get
    delete_many notifications (is_about_any type related_ids)
    pure (p.sum (λ n. if is_about_any type related_ids n then 1 else 0) db.notification)
