-- ===== src/Messages/Members.antt =====
-- What a conversation is to those who are no members of it
-- (backend/src/messages/messages.service.ts).
use Prim.Native.String.{String}
use event_now.Prelude.{
  some, none, ◌==◌, ◌&&◌, ℕ, ◌≡◌, false, Option, List, Option-cases, inl, inr, arith,
}
use event_now.Prelude.Outcome.{err}
use event_now.Prisma.{Prisma}
use event_now.Http.{HttpException, not_found, forbidden}
use event_now.Http
use event_now.Database.{Event, Db, Handler}
use event_now.Messages.Creation.{get_event_conversation}
use event_now.Participants.{is_request_of, is_accepted}
use event_now.Messages.{
  has_member, members_of, get_conversation, get_messages, send_message, add_members, remove_member,
  update_conversation, mark_as_read, delete_conversation,
}

-- A call of the service on a conversation; `enter` is `getEventConversation`, which takes an event.
pub data ConversationCall : Type 0 where
  read : ℕ → Option ℕ → ConversationCall
  send : String → ConversationCall
  add : List ℕ → ConversationCall
  remove : ℕ → ConversationCall
  rename : Option String → ConversationCall
  mark delete : ConversationCall
  enter : ℕ → ConversationCall

module _ {p : Prisma} where
  -- A call that throws and leaves everything as it is.
  abbrev pub Refuses : {A : Type 0} → Handler p A → Db p → Type 0
  Refuses m d = (e : HttpException) × (m d ≡ err e d)

  get_conversation-Refuses :
      (id user_id : ℕ) (d : Db p)
      → has_member user_id (members_of id d) ≡ false
      → Refuses (get_conversation id user_id) d
  unfolding get_conversation
  get_conversation-Refuses id user_id d outside =
      elim (Option-cases (p.find_unique id d.chat.conversation)) [
        | inl e ↦ (not_found Http.conversation_missing, ground (arith, e))
        | inr (c, e) ↦ (forbidden Http.not_a_member, ground (arith, e, outside))
      ]

  -- The call throws and changes nothing.
  abbrev pub IsRefused : ConversationCall → ℕ → ℕ → ℕ → Db p → Type 0
  IsRefused (read limit before) id user_id now d = Refuses (get_messages id user_id limit before) d
  IsRefused (send content) id user_id now d = Refuses (send_message id user_id content now) d
  IsRefused (add ids) id user_id now d = Refuses (add_members id user_id ids now) d
  IsRefused (remove other) id user_id now d = Refuses (remove_member id user_id other) d
  IsRefused (rename name) id user_id now d = Refuses (update_conversation id user_id name now) d
  IsRefused mark id user_id now d = Refuses (mark_as_read id user_id now) d
  IsRefused delete id user_id now d = Refuses (delete_conversation id user_id) d
  IsRefused (enter event_id) id user_id now d =
      Refuses (get_event_conversation event_id user_id now) d

  -- Whom a call must keep out: for the conversation of an event everyone but its organizer and its
  -- accepted participants, else whoever is no member.
  abbrev pub IsOutsider : ConversationCall → ℕ → ℕ → Db p → Type 0
  IsOutsider (enter event_id) id user_id d =
      ((ev : Event)
        → p.find_unique event_id d.event ≡ some ev
        → (ev.organizer_id == user_id) ≡ false)
      × (p.find_first (λ r. is_request_of event_id user_id r && is_accepted r.status)
            d.participation_request
          ≡ none)
  IsOutsider _ id user_id d = has_member user_id (members_of id d) ≡ false

  get_event_conversation-Refuses :
      (event_id user_id now : ℕ) (d : Db p)
      → ((ev : Event)
          → p.find_unique event_id d.event ≡ some ev
          → (ev.organizer_id == user_id) ≡ false)
      → p.find_first
          (λ r. is_request_of event_id user_id r && is_accepted r.status)
          d.participation_request
        ≡ none
      → Refuses (get_event_conversation event_id user_id now) d
  unfolding get_event_conversation
  get_event_conversation-Refuses event_id user_id now d other none_accepted =
      elim (Option-cases (p.find_unique event_id d.event)) [
        | inl e ↦ (not_found Http.event_missing, ground (arith, e))
        | inr (ev, e) ↦
            (forbidden Http.not_event_participant, ground (arith, e, other ev e, none_accepted))
      ]

  -- Who is no member of a conversation can neither read nor write in it, nor change it or its members,
  -- and who neither organizes an event nor takes part in it is not let into its conversation: each of
  -- the calls throws and changes nothing.
  pub outsider-IsRefused :
      (call : ConversationCall) (id user_id now : ℕ) (d : Db p)
      → IsOutsider call id user_id d
      → IsRefused call id user_id now d
  unfolding get_messages send_message add_members remove_member update_conversation mark_as_read
      delete_conversation
  outsider-IsRefused (enter event_id) id user_id now d (other, none_accepted) =
      get_event_conversation-Refuses event_id user_id now d other none_accepted
  outsider-IsRefused (read limit before) id user_id now d outside =
      let (x, e) = get_conversation-Refuses id user_id d outside in (x, ground (arith, e))
  outsider-IsRefused (send content) id user_id now d outside =
      let (x, e) = get_conversation-Refuses id user_id d outside in (x, ground (arith, e))
  outsider-IsRefused (add ids) id user_id now d outside =
      let (x, e) = get_conversation-Refuses id user_id d outside in (x, ground (arith, e))
  outsider-IsRefused (remove other) id user_id now d outside =
      let (x, e) = get_conversation-Refuses id user_id d outside in (x, ground (arith, e))
  outsider-IsRefused (rename name) id user_id now d outside =
      let (x, e) = get_conversation-Refuses id user_id d outside in (x, ground (arith, e))
  outsider-IsRefused mark id user_id now d outside =
      let (x, e) = get_conversation-Refuses id user_id d outside in (x, ground (arith, e))
  outsider-IsRefused delete id user_id now d outside =
      let (x, e) = get_conversation-Refuses id user_id d outside in (x, ground (arith, e))
