-- ===== src/Messages/Tests.antt =====
-- The theorems on conversations applied to a small database
-- (backend/src/messages/messages.service.ts).
use event_now.Prelude.{ℕ, ◌≤◌, ◌≡◌, some, none, [], ◌∷◌, refl, arith}
use event_now.Prelude.Outcome.{ok, final}
use event_now.Prisma.Rows.{in_memory}
use event_now.Database.{Db, Conversation, ConversationType, Message}
use event_now.Messages.{new_member, mark_as_read, show_conversation}
use event_now.Messages.Members.{send, IsRefused, outsider-IsRefused}
use event_now.Messages.Unread.{show_conversation_one, mark_as_read-show_conversation}
use event_now.Tests.{sold}

abbrev friends : Conversation
friends = record {
  type = ConversationType.group;
  name = some "Amis";
  event_id = none;
  created_by = some 8;
  updated_at = 200;
}

abbrev said : ℕ → Message
said now = record { conversation_id = 0; sender_id = 8; content = "Salut"; created_at = now }

-- User 8 has written to user 7 twice.
abbrev chatting : Db in_memory
chatting = record sold {
  chat = record {
    conversation = some friends ∷ [];
    conversation_member = some (new_member 0 50 7) ∷ some (new_member 0 50 8) ∷ [];
    message = some (said 200) ∷ some (said 100) ∷ [];
  };
}

outsider-IsRefused_example : IsRefused (send "Bonjour") 0 5 300 chatting
outsider-IsRefused_example = outsider-IsRefused (send "Bonjour") 0 5 300 chatting refl

show_conversation_one_example : (show_conversation 7 chatting (0, friends)).unread_count ≤ 1
show_conversation_one_example = show_conversation_one 7 chatting (0, friends)

marked : mark_as_read 0 7 300 chatting ≡ ok tt (final (mark_as_read 0 7 300 chatting))
unfolding mark_as_read
marked = refl

mark_as_read-show_conversation_example :
    (show_conversation 7 (final (mark_as_read 0 7 300 chatting)) (0, friends)).unread_count ≡ 0
mark_as_read-show_conversation_example =
    mark_as_read-show_conversation 0 7 300 chatting (final (mark_as_read 0 7 300 chatting)) friends
      (λ k x h. ground arith) marked
