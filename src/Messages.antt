-- ===== src/Messages.antt =====
-- backend/src/messages/messages.service.ts: the conversations of users. The messages to the gateway,
-- the texts of the notifications and the columns of users that the answers show are left out. The
-- time is an argument: one call reads one time.
pub mod Creation
pub mod Members
pub mod Unread
mod Tests
use Prim.Native.String.{String, ◌++◌ as append}
use text.Mathlib.Text.{◌==◌ as str_eq}
use event_now.Prelude.{
  ℕ, Bool, true, false, not, ◌&&◌, ◌||◌, Option, none, some, List, [], ◌∷◌, ◌++◌, ltb, ◌==◌, is_id,
  is_some, if◌then◌else◌, map, length, any, all, take, head?, filterb, sort_by, distinct_ids,
}
use event_now.Prelude.Outcome.{
  Outcome, ok, err, transaction, throw_if, throw, or_throw, pure, get, ◌>>=◌, ◌>>◌,
}
use event_now.Prisma.{Prisma}
use event_now.Http.{
  HttpException, bad_request, not_found, forbidden, record_not_found, unique_violation,
}
use event_now.Http
use event_now.Participants.{is_accepted, is_request_of}
use event_now.Notifications.{create_notification}
use event_now.Database.{
  Db, Handler, Event, Conversation, ConversationMember, ConversationType, Message, NotificationType,
  ParticipationRequest, events, conversations, conversation_members, messages, find_or_throw,
  create, update, delete, delete_many, update_many, for_each,
}
use event_now.Database
use mathlib.Core.List.{reverse}

pub record CreateConversationDto : Type 0 where
  pub type : ConversationType
  pub member_ids : List ℕ
  pub name : Option String
  pub event_id : Option ℕ

-- A conversation of a user's list, with its last message and the number of unread ones.
pub record ShownConversation : Type 0 where
  pub id : ℕ
  pub conversation : Conversation
  pub last_message : Option (ℕ × Message)
  pub unread_count : ℕ

abbrev pub is_direct : ConversationType → Bool
is_direct ConversationType.direct = true
is_direct _ = false

abbrev pub is_group : ConversationType → Bool
is_group ConversationType.group = true
is_group _ = false

abbrev pub is_event : ConversationType → Bool
is_event ConversationType.event = true
is_event _ = false

-- A text that is there and not empty.
abbrev pub has_text : Option String → Bool
has_text none = false
has_text (some s) = not (str_eq s "")

abbrev pub is_member_of : ℕ → ℕ → ConversationMember → Bool
is_member_of conversation_id user_id m =
    m.conversation_id == conversation_id && m.user_id == user_id

abbrev pub has_member : ℕ → List (ℕ × ConversationMember) → Bool
has_member user_id ms = any (λ (m : ℕ × ConversationMember). m.1.user_id == user_id) ms

abbrev pub new_conversation : ℕ → CreateConversationDto → ℕ → Conversation
new_conversation user_id dto now = record {
  type = dto.type;
  name = dto.name;
  event_id = dto.event_id;
  created_by = some user_id;
  updated_at = now;
}

abbrev pub new_member : ℕ → ℕ → ℕ → ConversationMember
new_member conversation_id now user_id = record {
  conversation_id = conversation_id;
  user_id = user_id;
  last_read_at = now;
}

-- The `data` of `updateConversation` and of `markAsRead`; `@updatedAt` is set with every update.
abbrev pub renamed : Option String → ℕ → Conversation → Conversation
renamed name now c = record c {
  name = elim name [ none ↦ c.name | some s ↦ some s ];
  updated_at = now;
}

abbrev pub read_at : ℕ → ConversationMember → ConversationMember
read_at now m = record m { last_read_at = now }

-- The newest messages first.
abbrev pub newest_first : List (ℕ × Message) → List (ℕ × Message)
newest_first xs = sort_by (λ (a b : ℕ × Message). ltb a.1.created_at b.1.created_at) xs

-- `createdAt: { lt: before }`, if there is a `before`.
abbrev pub is_before : Option ℕ → Message → Bool
is_before none m = true
is_before (some t) m = ltb m.created_at t

-- The messages of the answer that the member has not read and has not sent.
abbrev pub count_unread : ℕ → Option (ℕ × ConversationMember) → List (ℕ × Message) → ℕ
count_unread user_id none shown = 0
count_unread user_id (some (id, member)) shown = length (
    filterb
      (λ (m : ℕ × Message).
        ltb member.last_read_at m.1.created_at && not (m.1.sender_id == user_id))
      shown)

-- `members.find(…)`.
abbrev pub member_in : ℕ → List (ℕ × ConversationMember) → Option (ℕ × ConversationMember)
member_in user_id ms = head? (filterb (λ (m : ℕ × ConversationMember). m.1.user_id == user_id) ms)

module _ {p : Prisma} where
  abbrev pub members_of : ℕ → Db p → List (ℕ × ConversationMember)
  members_of id d = p.find_many (λ m. m.conversation_id == id) d.chat.conversation_member

  abbrev pub messages_of : ℕ → Db p → List (ℕ × Message)
  messages_of id d = p.find_many (λ m. m.conversation_id == id) d.chat.message

  -- `members: { create: … }` and `createMany`: a member is unique in a conversation.
  pub create_member : ℕ → ℕ → ℕ → Handler p (Unit {0})
  create_member conversation_id now user_id d =
      elim (p.find_first (is_member_of conversation_id user_id) d.chat.conversation_member) [
        | some e ↦ err unique_violation d
        | none ↦
            (create conversation_members (new_member conversation_id now user_id) >>= λ _. pure tt)
              d
      ]

  pub create_members : ℕ → ℕ → List ℕ → Handler p (Unit {0})
  unfolding for_each create_member
  create_members conversation_id now ids =
      transaction (for_each (create_member conversation_id now) ids)

  -- A conversation with its members, in one transaction.
  pub create_with_members : Conversation → List ℕ → ℕ → Handler p ℕ
  unfolding create_members
  create_with_members c ids now =
      transaction (do id ← create conversations c; create_members id now ids; pure id)

  pub show_conversation : ℕ → Db p → ℕ × Conversation → ShownConversation
  show_conversation user_id d c =
      let shown = take 1 (newest_first (messages_of c.0 d)) in
      record {
        id = c.0;
        conversation = c.1;
        last_message = head? shown;
        unread_count = count_unread user_id (member_in user_id (members_of c.0 d)) shown;
      }

  -- The conversations, the last changed first.
  pub get_user_conversations : ℕ → Db p → List ShownConversation
  unfolding show_conversation
  get_user_conversations user_id d = map (show_conversation user_id d) (
      sort_by (λ (a b : ℕ × Conversation). ltb a.1.updated_at b.1.updated_at)
        (filterb (λ (c : ℕ × Conversation). has_member user_id (members_of c.0 d))
          (p.find_many (λ c. true) d.chat.conversation)))

  -- The conversation, of which the user is a member.
  unfoldable pub get_conversation : ℕ → ℕ → Handler p Conversation
  get_conversation conversation_id user_id = do
    conversation ← find_or_throw conversations conversation_id (not_found Http.conversation_missing)
    db ← get
    throw_if (not (has_member user_id (members_of conversation_id db)))
        (forbidden Http.not_a_member)
    pure conversation

  pub get_messages : ℕ → ℕ → ℕ → Option ℕ → Handler p (List (ℕ × Message))
  unfolding get_conversation
  get_messages conversation_id user_id limit before = do
    _ ← get_conversation conversation_id user_id
    db ← get
    pure (
        reverse (
          take limit (
            newest_first (
              p.find_many (λ m. m.conversation_id == conversation_id && is_before before m)
                db.chat.message))))

  notify_members : NotificationType → ℕ → List ℕ → Handler p (Unit {0})
  unfolding for_each
  notify_members type conversation_id ids =
      for_each (λ user_id. do _ ← create_notification user_id type (some conversation_id); pure tt)
        ids

  -- The members of a conversation but one.
  abbrev pub others_of : ℕ → ℕ → Db p → List ℕ
  others_of conversation_id user_id d =
      map (λ (m : ℕ × ConversationMember). m.1.user_id)
        (filterb (λ (m : ℕ × ConversationMember). not (m.1.user_id == user_id))
          (members_of conversation_id d))

  pub send_message : ℕ → ℕ → String → ℕ → Handler p ℕ
  unfolding get_conversation notify_members
  send_message conversation_id user_id content now = do
    _ ← get_conversation conversation_id user_id
    before ← get
    id ← create messages (record {
      conversation_id = conversation_id;
      sender_id = user_id;
      content = content;
      created_at = now;
    })
    update conversations conversation_id (λ c. record c { updated_at = now })
    notify_members NotificationType.new_message conversation_id
        (others_of conversation_id user_id before)
    pure id

  pub add_members : ℕ → ℕ → List ℕ → ℕ → Handler p Conversation
  unfolding get_conversation create_members notify_members
  add_members conversation_id user_id member_ids now = do
    conversation ← get_conversation conversation_id user_id
    throw_if (is_direct conversation.type) (bad_request Http.direct_is_closed)
    db ← get
    throw_if
        (length (filterb (λ id. not (has_member id (members_of conversation_id db))) member_ids)
          == 0)
        (bad_request Http.all_are_members)
    create_members conversation_id now
        (filterb (λ id. not (has_member id (members_of conversation_id db))) member_ids)
    notify_members NotificationType.added_to_conversation conversation_id
        (filterb (λ id. not (has_member id (members_of conversation_id db))) member_ids)
    get_conversation conversation_id user_id

  -- The schema deletes the members and the messages of a conversation with it (`onDelete: Cascade`).
  delete_with_all : ℕ → Handler p (Unit {0})
  delete_with_all conversation_id = do
    delete conversations conversation_id
    delete_many conversation_members (λ m. m.conversation_id == conversation_id)
    delete_many messages (λ m. m.conversation_id == conversation_id)

  pub remove_member : ℕ → ℕ → ℕ → Handler p (Unit {0})
  unfolding get_conversation delete_with_all
  remove_member conversation_id user_id member_id_to_remove = do
    conversation ← get_conversation conversation_id user_id
    throw_if (is_direct conversation.type) (bad_request Http.direct_members_stay)
    throw_if (not (is_id conversation.created_by user_id) && not (user_id == member_id_to_remove))
        (forbidden Http.creator_removes)
    delete_many conversation_members (is_member_of conversation_id member_id_to_remove)
    db ← get
    (if p.sum (λ m. if m.conversation_id == conversation_id then 1 else 0)
            db.chat.conversation_member
          == 0
        then delete_with_all conversation_id
        else pure tt)

  pub update_conversation : ℕ → ℕ → Option String → ℕ → Handler p (Unit {0})
  unfolding get_conversation
  update_conversation conversation_id user_id name now = do
    conversation ← get_conversation conversation_id user_id
    throw_if (is_direct conversation.type) (bad_request Http.direct_is_fixed)
    throw_if (not (is_id conversation.created_by user_id)) (forbidden Http.creator_updates)
    update conversations conversation_id (renamed name now)

  pub mark_as_read : ℕ → ℕ → ℕ → Handler p (Unit {0})
  unfolding get_conversation
  mark_as_read conversation_id user_id now = do
    _ ← get_conversation conversation_id user_id
    update_many conversation_members (is_member_of conversation_id user_id) (read_at now)

  pub delete_conversation : ℕ → ℕ → Handler p (Unit {0})
  unfolding get_conversation delete_with_all
  delete_conversation conversation_id user_id = do
    conversation ← get_conversation conversation_id user_id
    throw_if (not (is_group conversation.type)) (bad_request Http.groups_only)
    throw_if (not (is_id conversation.created_by user_id)) (forbidden Http.creator_deletes)
    delete_with_all conversation_id
