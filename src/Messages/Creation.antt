-- ===== src/Messages/Creation.antt =====
-- How conversations come about (`createConversation` and `getEventConversation` of
-- backend/src/messages/messages.service.ts).
use Prim.Native.String.{◌++◌ as append}
use event_now.Prelude.{
  ℕ, Bool, not, ◌&&◌, ◌||◌, Option, none, some, List, ◌∷◌, ◌==◌, is_id, is_some, if◌then◌else◌, map,
  length, all, head?, filterb, distinct_ids,
}
use event_now.Prelude.Outcome.{ok, throw_if, pure, get, ◌>>=◌, ◌>>◌}
use event_now.Prisma.{Prisma}
use event_now.Http.{
  HttpException, bad_request, not_found, forbidden, record_not_found, unique_violation,
}
use event_now.Http
use event_now.Participants.{is_accepted, is_request_of}
use event_now.Database.{
  Db, Handler, Event, Conversation, ConversationMember, ConversationType, ParticipationRequest,
  events, find_or_throw,
}
use event_now.Messages.{
  CreateConversationDto, is_direct, is_group, is_event, has_text, has_member, new_conversation,
  members_of, create_member, create_with_members, get_conversation,
}

module _ {p : Prisma} where
  -- The `where` of `findDirectConversation` and the condition of its `find`.
  abbrev pub is_between : ℕ → ℕ → Db p → ℕ × Conversation → Bool
  is_between a b d c =
      is_direct c.1.type
      && all (λ (m : ℕ × ConversationMember). m.1.user_id == a || m.1.user_id == b)
          (members_of c.0 d)
      && length (members_of c.0 d) == 2
      && has_member a (members_of c.0 d)
      && has_member b (members_of c.0 d)

  pub find_direct_conversation : ℕ → ℕ → Db p → Option (ℕ × Conversation)
  find_direct_conversation a b d =
      head? (filterb (is_between a b d) (p.find_many (λ c. is_direct c.type) d.chat.conversation))

  -- `dto.memberIds[0]`, for a direct conversation.
  existing_direct : ℕ → CreateConversationDto → Db p → Option (ℕ × Conversation)
  unfolding find_direct_conversation
  existing_direct user_id dto d =
      if is_direct dto.type
      then (elim (head? dto.member_ids) [
        | none ↦ none
        | some other ↦ find_direct_conversation user_id other d
      ])
      else none

  -- An event that the conversation is for is there.
  check_event : CreateConversationDto → Handler p (Unit {0})
  check_event dto d =
      if is_event dto.type
      then (elim dto.event_id [
        | none ↦ ok tt d
        | some id ↦ (find_or_throw events id (not_found Http.event_missing) >>= λ e. pure tt) d
      ])
      else ok tt d

  pub create_conversation : ℕ → CreateConversationDto → ℕ → Handler p ℕ
  unfolding check_event existing_direct create_with_members
  create_conversation user_id dto now = do
    throw_if (is_direct dto.type && not (length dto.member_ids == 1))
        (bad_request Http.one_other_member)
    throw_if (is_group dto.type && not (has_text dto.name)) (bad_request Http.group_name_needed)
    throw_if (is_event dto.type && not (is_some dto.event_id)) (bad_request Http.event_id_needed)
    check_event dto
    db ← get
    elim (existing_direct user_id dto db) [
      | some (id, c) ↦ pure id
      | none ↦
          create_with_members (new_conversation user_id dto now)
            (distinct_ids (user_id ∷ dto.member_ids)) now
    ]

  -- The accepted participants of an event.
  abbrev pub participants_of : ℕ → Db p → List ℕ
  participants_of event_id d =
      map (λ (r : ℕ × ParticipationRequest). r.1.user_id)
        (p.find_many (λ r. r.event_id == event_id && is_accepted r.status) d.participation_request)

  -- The conversation of the event, which the first visit makes.
  event_conversation : ℕ → Event → ℕ → Handler p ℕ
  unfolding create_with_members
  event_conversation event_id event now d =
      elim (p.find_first (λ c. is_event c.type && is_id c.event_id event_id) d.chat.conversation) [
        | some (id, c) ↦ ok id d
        | none ↦
            create_with_members
              (record {
                type = ConversationType.event;
                name = some (append "Groupe " event.title);
                event_id = some event_id;
                created_by = some event.organizer_id;
                updated_at = now;
              })
              (event.organizer_id ∷ participants_of event_id d) now d
      ]

  unfoldable pub get_event_conversation : ℕ → ℕ → ℕ → Handler p ℕ
  unfolding event_conversation create_member get_conversation
  get_event_conversation event_id user_id now = do
    event ← find_or_throw events event_id (not_found Http.event_missing)
    db ← get
    throw_if
        (not (event.organizer_id == user_id)
          && not (
              is_some (
                p.find_first (λ r. is_request_of event_id user_id r && is_accepted r.status)
                  db.participation_request)))
        (forbidden Http.not_event_participant)
    id ← event_conversation event_id event now
    db' ← get
    (if has_member user_id (members_of id db')
        then pure id
        else (do create_member id now user_id; _ ← get_conversation id user_id; pure id))
