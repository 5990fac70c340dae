-- ===== src/Follows.antt =====
-- backend/src/follows/follows.service.ts: who follows whom. Friends are users who follow each other.
-- Of the users that the lists show only the key is modelled; the messages to the gateway and the
-- look-up of the follower's name for the text of the notification are left out.
pub mod Friends
pub mod Pairs
pub mod Calls
mod Tests
use event_now.Prelude.{
  ℕ, Bool, true, false, not, ◌&&◌, Option, none, some, List, [], ◌∷◌, ◌==◌, is_some, if◌then◌else◌,
  any, take, length, map, filterb,
}
use event_now.Prelude.Outcome.{Outcome, ok, err, throw_if, or_throw, pure, get, ◌>>=◌, ◌>>◌}
use event_now.Prisma.{Prisma}
use event_now.Http.{HttpException, bad_request, not_found, record_not_found}
use event_now.Http
use event_now.Database.{
  Db, Handler, Follow, NotificationType, follows, users, find_or_throw, create, update, delete,
}
use event_now.Notifications.{create_notification}

abbrev pub is_pair : ℕ → ℕ → Follow → Bool
is_pair follower_id following_id f = f.follower_id == follower_id && f.following_id == following_id

-- `new Set(ids).has(id)`.
abbrev pub has : List ℕ → ℕ → Bool
has ids id = any (λ x. x == id) ids

-- `notificationsEnabled` is true by default.
abbrev pub new_follow : ℕ → ℕ → Follow
new_follow follower_id following_id = record {
  follower_id = follower_id;
  following_id = following_id;
  notifications_enabled = true;
}

abbrev pub with_notifications : Bool → Follow → Follow
with_notifications enabled f = record f { notifications_enabled = enabled }

-- A user of a list, with the flags for the user who asks.
pub record ShownUser : Type 0 where
  pub id : ℕ
  pub is_following_by_current_user : Bool
  pub is_friend_with_current_user : Bool

-- `currentUserId` may be absent: then the list has no flags.
pub data ShownUsers : Type 0 where
  plain : List ℕ → ShownUsers
  flagged : List ShownUser → ShownUsers

module _ {p : Prisma} where
  abbrev pub find_follow : ℕ → ℕ → Db p → Option (ℕ × Follow)
  find_follow follower_id following_id d =
      p.find_first (is_pair follower_id following_id) d.social.follow

  -- The answer is the key of the follow.
  pub follow : ℕ → ℕ → Handler p ℕ
  follow follower_id following_id = do
    throw_if (follower_id == following_id) (bad_request Http.follows_self)
    _ ← find_or_throw users following_id (not_found Http.user_missing)
    db ← get
    elim (find_follow follower_id following_id db) [
      | some (id, f) ↦ pure id
      | none ↦ do
        id ← create follows (new_follow follower_id following_id)
        _ ← create_notification following_id NotificationType.new_follower (some follower_id)
        pure id
    ]

  pub unfollow : ℕ → ℕ → Handler p (Unit {0})
  unfollow follower_id following_id d = elim (find_follow follower_id following_id d) [
    | none ↦ ok tt d
    | some (id, f) ↦ delete follows id d
  ]

  pub is_following : ℕ → ℕ → Db p → Bool
  is_following follower_id following_id d = is_some (find_follow follower_id following_id d)

  pub get_followers_count : ℕ → Db p → ℕ
  get_followers_count user_id d =
      p.sum (λ f. if f.following_id == user_id then 1 else 0) d.social.follow

  pub get_following_count : ℕ → Db p → ℕ
  get_following_count user_id d =
      p.sum (λ f. if f.follower_id == user_id then 1 else 0) d.social.follow

  -- The users whom a user follows, and those who follow the user.
  pub get_following_ids : ℕ → Db p → List ℕ
  get_following_ids user_id d =
      map (λ (e : ℕ × Follow). e.1.following_id)
        (p.find_many (λ f. f.follower_id == user_id) d.social.follow)

  abbrev pub follower_ids : ℕ → Db p → List ℕ
  follower_ids user_id d =
      map (λ (e : ℕ × Follow). e.1.follower_id)
        (p.find_many (λ f. f.following_id == user_id) d.social.follow)

  pub get_friend_ids : ℕ → Db p → List ℕ
  unfolding get_following_ids
  get_friend_ids user_id d = filterb (has (get_following_ids user_id d)) (follower_ids user_id d)

  pub get_friends_count : ℕ → Db p → ℕ
  unfolding get_friend_ids
  get_friends_count user_id d = length (get_friend_ids user_id d)

  pub flag_user : ℕ → List ℕ → Db p → ℕ → ShownUser
  unfolding get_friend_ids
  flag_user current_user_id ids d id = record {
    id = id;
    is_following_by_current_user =
        has
          (map (λ (e : ℕ × Follow). e.1.following_id)
            (p.find_many (λ f. f.follower_id == current_user_id && has ids f.following_id)
              d.social.follow))
          id;
    is_friend_with_current_user = has (get_friend_ids current_user_id d) id;
  }

  pub add_follow_flags_to_users : List ℕ → ℕ → Db p → List ShownUser
  unfolding flag_user
  add_follow_flags_to_users ids current_user_id d = map (flag_user current_user_id ids d) ids

  pub show_users : List ℕ → Option ℕ → Db p → ShownUsers
  unfolding add_follow_flags_to_users
  show_users ids none d = plain ids
  show_users ids (some current_user_id) d =
      flagged (add_follow_flags_to_users ids current_user_id d)

  pub get_followers : ℕ → ℕ → Option ℕ → Db p → ShownUsers
  unfolding show_users
  get_followers user_id limit current_user_id d =
      show_users
        (map (λ (e : ℕ × Follow). e.1.follower_id)
          (take limit (p.find_many (λ f. f.following_id == user_id) d.social.follow)))
        current_user_id d

  pub get_following : ℕ → ℕ → Option ℕ → Db p → ShownUsers
  unfolding show_users
  get_following user_id limit current_user_id d =
      show_users
        (map (λ (e : ℕ × Follow). e.1.following_id)
          (take limit (p.find_many (λ f. f.follower_id == user_id) d.social.follow)))
        current_user_id d

  pub get_friends : ℕ → ℕ → Option ℕ → Db p → ShownUsers
  unfolding show_users get_friend_ids
  get_friends user_id limit current_user_id d =
      let friend_ids = get_friend_ids user_id d in
      if length friend_ids == 0
      then plain []
      else show_users
          (map (λ (e : ℕ × Follow). e.1.following_id)
            (take limit (
              p.find_many (λ f. f.follower_id == user_id && has friend_ids f.following_id)
                d.social.follow)))
          current_user_id d

  pub is_friend : ℕ → ℕ → Db p → Bool
  unfolding is_following
  is_friend user_id_a user_id_b d =
      if user_id_a == user_id_b
      then false
      else is_following user_id_a user_id_b d && is_following user_id_b user_id_a d

  -- The followers who asked for notifications.
  pub get_follower_ids : ℕ → Db p → List ℕ
  get_follower_ids following_id d =
      map (λ (e : ℕ × Follow). e.1.follower_id)
        (p.find_many (λ f. f.following_id == following_id && f.notifications_enabled)
          d.social.follow)

  pub set_notifications_enabled : ℕ → ℕ → Bool → Handler p (Unit {0})
  set_notifications_enabled follower_id following_id enabled d =
      elim (find_follow follower_id following_id d) [
        | none ↦ err (not_found Http.follow_missing) d
        | some (id, f) ↦ update follows id (with_notifications enabled) d
      ]
