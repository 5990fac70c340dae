-- ===== src/Messages/Unread.antt =====
-- The number of unread messages in a user's list (backend/src/messages/messages.service.ts).
use event_now.Prelude.{
  ℕ, ◌≤◌, ◌≡◌, refl, sym, subst, ap, ◌∙◌, Bool, true, not, ◌&&◌, some, List, [], ◌∷◌, ltb, ◌==◌,
  length, All, take, head?, filterb, sort_by-All, take-All, Option-cases, Bool-cases, inl, inr,
  arith,
}
use event_now.Prelude.Outcome.{ok, final}
use event_now.Prisma.{Prisma}
use event_now.Database.{Db, Conversation, ConversationMember, Message}
use event_now.Messages.{
  has_member, count_unread, member_in, members_of, messages_of, newest_first, is_member_of, read_at,
  show_conversation, get_conversation, mark_as_read,
}

length-filterb : {A : Type 0} (f : A → Bool) (xs : List A) → length (filterb f xs) ≤ length xs
length-filterb f [] = omega arith
length-filterb f (x ∷ xs) = ground (arith, length-filterb f xs)

length-take_one : {A : Type 0} (xs : List A) → length (take 1 xs) ≤ 1
length-take_one [] = omega arith
length-take_one (x ∷ xs) = omega arith

module _ {A : Type 0} (P : A → Type 0) where
  head?-All :
      (f : A → Bool) (xs : List A) (x : A)
      → All P xs
      → head? (filterb f xs) ≡ some x
      → P x × (f x ≡ true)
  head?-All f [] x h e = absurd (ground (arith, e))
  head?-All f (y ∷ ys) x (h, hs) e = elim (Bool-cases (f y)) [
    | inl holds ↦
        let same : y ≡ x = ground (arith, e, holds) in
        (subst P same h, subst (λ z. f z ≡ true) same holds)
    | inr fails ↦ head?-All f ys x hs (rw fails at e)
  ]

-- Messages that were there when the member last looked do not count.
count_unread-zero :
    (user_id now : ℕ) (k : ℕ) (m : ConversationMember) (xs : List (ℕ × Message))
    → m.last_read_at ≡ now
    → All (λ (e : ℕ × Message). e.1.created_at ≤ now) xs
    → count_unread user_id (some (k, m)) xs ≡ 0
count_unread-zero user_id now k m [] same h = refl
count_unread-zero user_id now k m ((j, x) ∷ xs) same (h, hs) =
    ground (arith, count_unread-zero user_id now k m xs same hs)

module _ {p : Prisma} where
  -- The list takes one message of each conversation and counts the unread ones among these: it shows
  -- at most 1, however many messages a user has not read.
  pub show_conversation_one :
      (user_id : ℕ) (d : Db p) (c : ℕ × Conversation)
      → (show_conversation user_id d c).unread_count ≤ 1
  unfolding show_conversation
  show_conversation_one user_id d c = elim (Option-cases (member_in user_id (members_of c.0 d))) [
    | inl e ↦ ground (arith, e)
    | inr ((k, m), e) ↦ ground (
      arith,
      e,
      length-take_one (newest_first (messages_of c.0 d)),
      length-filterb
          (λ (x : ℕ × Message). ltb m.last_read_at x.1.created_at && not (x.1.sender_id == user_id))
          (take 1 (newest_first (messages_of c.0 d))),
    )
  ]

  -- The member that the list looks at has just read.
  member_in-read :
      (id user_id now : ℕ) (d : Db p) (k : ℕ) (m : ConversationMember)
      → member_in user_id (
          p.find_many
            (λ x. x.conversation_id == id)
            (p.modify_many (is_member_of id user_id) (read_at now) d.chat.conversation_member))
        ≡ some (k, m)
      → m.last_read_at ≡ now
  member_in-read id user_id now d k m h =
      let t = d.chat.conversation_member in
      let here : ConversationMember → Bool = λ x. x.conversation_id == id in
      let t' = p.modify_many (is_member_of id user_id) (read_at now) t in
      let ((found, inside), mine) =
        head?-All (λ e. (p.find_unique e.0 t' ≡ some e.1) × (here e.1 ≡ true))
          (λ (e : ℕ × ConversationMember). e.1.user_id == user_id) (p.find_many here t') (k, m)
          (p.find_many-sound here t') h in
      elim (Option-cases (p.find_unique k t)) [
        | inl e ↦ absurd (
            ground
              (arith, e, p.find_unique-modify_many k (is_member_of id user_id) (read_at now) t))
        | inr (x, e) ↦
            ground (arith, e, p.find_unique-modify_many k (is_member_of id user_id) (read_at now) t)
      ]

  old_messages :
      (id now : ℕ) (d : Db p)
      → ((k : ℕ) (x : Message) → p.find_unique k d.chat.message ≡ some x → x.created_at ≤ now)
      → (es : List (ℕ × Message))
      → All
          (λ e.
            (p.find_unique e.0 d.chat.message ≡ some e.1) × ((e.1.conversation_id == id) ≡ true))
          es
      → All (λ (e : ℕ × Message). e.1.created_at ≤ now) es
  old_messages id now d old [] h = tt
  old_messages id now d old ((k, x) ∷ es) ((found, here), rest) =
      (old k x found, old_messages id now d old es rest)

  abbrev read_by : ℕ → ℕ → ℕ → Db p → Db p
  read_by id user_id now d = record d {
    chat = record d.chat {
      conversation_member =
          p.modify_many (is_member_of id user_id) (read_at now) d.chat.conversation_member;
    };
  }

  mark_as_read-read_by :
      (id user_id now : ℕ) (d d' : Db p)
      → mark_as_read id user_id now d ≡ ok tt d'
      → read_by id user_id now d ≡ d'
  unfolding mark_as_read get_conversation
  mark_as_read-read_by id user_id now d d' h =
      elim (Option-cases (p.find_unique id d.chat.conversation)) [
        | inl e ↦ absurd (ground (arith, e, h))
        | inr (c, e) ↦ elim (Bool-cases (has_member user_id (members_of id d))) [
          | inr outside ↦ absurd (ground (arith, e, outside, h))
          | inl inside ↦
              let run : mark_as_read id user_id now d ≡ ok tt (read_by id user_id now d) =
                ground (arith, e, inside) in
              ap final (sym run ∙ h)
        ]
      ]

  -- Once a conversation is marked as read, and no message is from a later time, the user's list shows
  -- no unread message in it.
  pub mark_as_read-show_conversation :
      (id user_id now : ℕ) (d d' : Db p) (c : Conversation)
      → ((k : ℕ) (x : Message) → p.find_unique k d.chat.message ≡ some x → x.created_at ≤ now)
      → mark_as_read id user_id now d ≡ ok tt d'
      → (show_conversation user_id d' (id, c)).unread_count ≡ 0
  unfolding show_conversation
  mark_as_read-show_conversation id user_id now d d' c old h =
      let d1 = read_by id user_id now d in
      let here = mark_as_read-read_by id user_id now d d' h in
      subst (λ x. (show_conversation user_id x (id, c)).unread_count ≡ 0) here
        (elim (Option-cases (member_in user_id (members_of id d1))) [
          | inl e ↦ ground (arith, e)
          | inr ((k, m), e) ↦ rw e (
              count_unread-zero user_id now k m (take 1 (newest_first (messages_of id d)))
                (member_in-read id user_id now d k m e)
                (take-All (λ (x : ℕ × Message). x.1.created_at ≤ now) 1
                  (newest_first (messages_of id d))
                  (sort_by-All (λ (x : ℕ × Message). x.1.created_at ≤ now) _ (messages_of id d)
                    (old_messages id now d old (messages_of id d)
                      (p.find_many-sound (λ x. x.conversation_id == id) d.chat.message)))))
        ])
