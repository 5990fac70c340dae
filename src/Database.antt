-- ===== src/Database.antt =====
-- The tables of backend/prisma/schema.prisma that the services read and write, and the operations
-- on one table as steps of a handler. Identifiers are numbers, times are milliseconds, money is in
-- cents. Columns for display only (descriptions, images, addresses) are left out.
use Prim.Native.String.{String}
use event_now.Prelude.{
  subst, ap, inl, inr, ℕ, Bool, Option, none, some, List, [], ◌∷◌, if◌then◌else◌,
}
use event_now.Prelude.Int.{ℤ}
use event_now.Prelude.Outcome.{Outcome, ok, err, or_throw, final, outcome_cases}
use event_now.Prisma.{Prisma}
use event_now.Http.{HttpException, record_not_found}

pub data Role : Type 0 where
  user organizer admin : Role

pub data BookingStatus : Type 0 where
  pending confirmed expired cancelled : BookingStatus

pub data OrderStatus : Type 0 where
  pending paid cancelled refunded refund_requested : OrderStatus

pub data EventType : Type 0 where
  professional community : EventType

pub data EventStatus : Type 0 where
  active suspended : EventStatus

pub data DiscountType : Type 0 where
  percentage fixed_amount : DiscountType

pub data RequestStatus : Type 0 where
  pending accepted refused : RequestStatus

pub data ItemStatus : Type 0 where
  unclaimed claimed : ItemStatus

pub data NotificationType : Type 0 where
  order_confirmed refund_requested refund_approved refund_rejected payment_failed : NotificationType
  participation_request participation_accepted participation_refused : NotificationType
  new_follower staff_invitation new_message added_to_conversation : NotificationType
  event_cancelled new_event_from_followed new_event_from_friend : NotificationType

pub data InvitationStatus : Type 0 where
  pending accepted declined expired : InvitationStatus

pub data PollStatus : Type 0 where
  is_open closed : PollStatus

pub data ReportType : Type 0 where
  event user : ReportType

pub data ReportReason : Type 0 where
  inappropriate_content spam fake_event harassment scam other : ReportReason

pub data ReportStatus : Type 0 where
  pending reviewed resolved dismissed : ReportStatus

pub record User : Type 0 where
  pub username : Option String
  pub email : String
  pub role : Role
  pub is_banned : Bool
  pub banned_at : Option ℕ

pub record Event : Type 0 where
  pub title : String
  pub organizer_id : ℕ
  pub event_date : ℕ
  pub end_date : Option ℕ
  pub cancelled_at : Option ℕ
  pub cancel_reason : Option String
  pub type : EventType
  pub status : EventStatus

pub record TicketCategory : Type 0 where
  pub event_id : ℕ
  pub name : String
  pub price : ℕ
  pub initial_stock : ℕ
  pub current_stock : ℕ

pub record Booking : Type 0 where
  pub user_id : ℕ
  pub ticket_category_id : ℕ
  pub quantity : ℕ
  pub status : BookingStatus
  pub expires_at : ℕ
  pub order_id : Option ℕ

pub record Order : Type 0 where
  pub user_id : ℕ
  pub total_amount : ℤ
  pub status : OrderStatus
  pub payment_intent_id : Option String

-- `qr_code` is a text by its code points.
pub record Ticket : Type 0 where
  pub order_id : ℕ
  pub ticket_category_id : ℕ
  pub qr_code : List ℕ
  pub validated_at : Option ℕ

-- `discount_value` is in cents, or in hundredths of a percent.
pub record PromoCode : Type 0 where
  pub code : String
  pub event_id : ℕ
  pub created_by_id : ℕ
  pub discount_type : DiscountType
  pub discount_value : ℤ
  pub max_uses : Option ℕ
  pub current_uses : ℕ
  pub expires_at : Option ℕ
  pub is_active : Bool

pub record Notification : Type 0 where
  pub user_id : ℕ
  pub type : NotificationType
  pub related_id : Option ℕ
  pub read : Bool

pub record EventStaff : Type 0 where
  pub event_id : ℕ
  pub user_id : ℕ

pub record ParticipationRequest : Type 0 where
  pub event_id : ℕ
  pub user_id : ℕ
  pub status : RequestStatus
  pub responded_at : Option ℕ

pub record EventItemList : Type 0 where
  pub event_id : ℕ

pub record EventItem : Type 0 where
  pub list_id : ℕ
  pub name : String
  pub quantity : ℕ
  pub unit : Option String
  pub note : Option String
  pub status : ItemStatus
  pub claimed_by_id : Option ℕ
  pub added_by_id : ℕ

pub record Follow : Type 0 where
  pub follower_id : ℕ
  pub following_id : ℕ
  pub notifications_enabled : Bool

pub record StaffInvitation : Type 0 where
  pub email : String
  pub token : ℕ
  pub event_id : ℕ
  pub invited_by_id : ℕ
  pub accepted_by_id : Option ℕ
  pub status : InvitationStatus
  pub expires_at : ℕ

pub record Review : Type 0 where
  pub event_id : ℕ
  pub user_id : ℕ
  pub rating : ℕ
  pub comment : Option String
  pub created_at : ℕ

pub record ParticipantReview : Type 0 where
  pub event_id : ℕ
  pub reviewer_id : ℕ
  pub participant_id : ℕ
  pub rating : ℕ
  pub comment : Option String

pub record Report : Type 0 where
  pub reporter_id : ℕ
  pub type : ReportType
  pub reason : ReportReason
  pub status : ReportStatus
  pub target_user_id : Option ℕ
  pub target_event_id : Option ℕ

pub record Poll : Type 0 where
  pub event_id : ℕ
  pub created_by_id : ℕ
  pub question : String
  pub status : PollStatus
  pub multiple_choice : Bool
  pub closes_at : Option ℕ
  pub created_at : ℕ

pub record PollOption : Type 0 where
  pub poll_id : ℕ
  pub text : String
  pub order : ℕ

pub record PollVote : Type 0 where
  pub poll_id : ℕ
  pub option_id : ℕ
  pub user_id : ℕ

pub data ConversationType : Type 0 where
  direct group event : ConversationType

pub record Conversation : Type 0 where
  pub type : ConversationType
  pub name : Option String
  pub event_id : Option ℕ
  pub created_by : Option ℕ
  pub updated_at : ℕ

pub record ConversationMember : Type 0 where
  pub conversation_id : ℕ
  pub user_id : ℕ
  pub last_read_at : ℕ

pub record Message : Type 0 where
  pub conversation_id : ℕ
  pub sender_id : ℕ
  pub content : String
  pub created_at : ℕ

-- The tables of the conversations.
pub record Chat (p : Prisma) : Type 0 where
  pub conversation : p.Table Conversation
  pub conversation_member : p.Table ConversationMember
  pub message : p.Table Message

-- The tables of the relations between users: follows, invitations, reviews, reports.
pub record Social (p : Prisma) : Type 0 where
  pub follow : p.Table Follow
  pub staff_invitation : p.Table StaffInvitation
  pub review : p.Table Review
  pub participant_review : p.Table ParticipantReview
  pub report : p.Table Report

-- The tables of the polls.
pub record Ballots (p : Prisma) : Type 0 where
  pub poll : p.Table Poll
  pub poll_option : p.Table PollOption
  pub poll_vote : p.Table PollVote

pub record Db (p : Prisma) : Type 0 where
  pub user : p.Table User
  pub event : p.Table Event
  pub ticket_category : p.Table TicketCategory
  pub booking : p.Table Booking
  pub order : p.Table Order
  pub ticket : p.Table Ticket
  pub promo_code : p.Table PromoCode
  pub notification : p.Table Notification
  pub event_staff : p.Table EventStaff
  pub participation_request : p.Table ParticipationRequest
  pub event_item_list : p.Table EventItemList
  pub event_item : p.Table EventItem
  pub social : Social p
  pub ballots : Ballots p
  pub chat : Chat p

abbrev pub Handler : Prisma → Type 0 → Type 0
Handler p A = Db p → Outcome HttpException (Db p) A

-- One table as a part of the database.
pub record Delegate (p : Prisma) (R : Type 0) : Type 0 where
  pub table : Db p → p.Table R
  pub put : p.Table R → Db p → Db p

module _ {p : Prisma} where
  abbrev pub users : Delegate p User
  users = record { table = λ d. d.user; put = λ t d. record d { user = t } }

  abbrev pub events : Delegate p Event
  events = record { table = λ d. d.event; put = λ t d. record d { event = t } }

  abbrev pub ticket_categories : Delegate p TicketCategory
  ticket_categories = record {
    table = λ d. d.ticket_category;
    put = λ t d. record d { ticket_category = t };
  }

  abbrev pub bookings : Delegate p Booking
  bookings = record { table = λ d. d.booking; put = λ t d. record d { booking = t } }

  abbrev pub orders : Delegate p Order
  orders = record { table = λ d. d.order; put = λ t d. record d { order = t } }

  abbrev pub tickets : Delegate p Ticket
  tickets = record { table = λ d. d.ticket; put = λ t d. record d { ticket = t } }

  abbrev pub promo_codes : Delegate p PromoCode
  promo_codes = record { table = λ d. d.promo_code; put = λ t d. record d { promo_code = t } }

  abbrev pub notifications : Delegate p Notification
  notifications = record { table = λ d. d.notification; put = λ t d. record d { notification = t } }

  abbrev pub staff_assignments : Delegate p EventStaff
  staff_assignments = record {
    table = λ d. d.event_staff;
    put = λ t d. record d { event_staff = t };
  }

  abbrev pub participation_requests : Delegate p ParticipationRequest
  participation_requests = record {
    table = λ d. d.participation_request;
    put = λ t d. record d { participation_request = t };
  }

  abbrev pub item_lists : Delegate p EventItemList
  item_lists = record {
    table = λ d. d.event_item_list;
    put = λ t d. record d { event_item_list = t };
  }

  abbrev pub items : Delegate p EventItem
  items = record { table = λ d. d.event_item; put = λ t d. record d { event_item = t } }

  abbrev pub follows : Delegate p Follow
  follows = record {
    table = λ d. d.social.follow;
    put = λ t d. record d { social = record d.social { follow = t } };
  }

  abbrev pub staff_invitations : Delegate p StaffInvitation
  staff_invitations = record {
    table = λ d. d.social.staff_invitation;
    put = λ t d. record d { social = record d.social { staff_invitation = t } };
  }

  abbrev pub reviews : Delegate p Review
  reviews = record {
    table = λ d. d.social.review;
    put = λ t d. record d { social = record d.social { review = t } };
  }

  abbrev pub participant_reviews : Delegate p ParticipantReview
  participant_reviews = record {
    table = λ d. d.social.participant_review;
    put = λ t d. record d { social = record d.social { participant_review = t } };
  }

  abbrev pub reports : Delegate p Report
  reports = record {
    table = λ d. d.social.report;
    put = λ t d. record d { social = record d.social { report = t } };
  }

  abbrev pub polls : Delegate p Poll
  polls = record {
    table = λ d. d.ballots.poll;
    put = λ t d. record d { ballots = record d.ballots { poll = t } };
  }

  abbrev pub poll_options : Delegate p PollOption
  poll_options = record {
    table = λ d. d.ballots.poll_option;
    put = λ t d. record d { ballots = record d.ballots { poll_option = t } };
  }

  abbrev pub poll_votes : Delegate p PollVote
  poll_votes = record {
    table = λ d. d.ballots.poll_vote;
    put = λ t d. record d { ballots = record d.ballots { poll_vote = t } };
  }

  abbrev pub conversations : Delegate p Conversation
  conversations = record {
    table = λ d. d.chat.conversation;
    put = λ t d. record d { chat = record d.chat { conversation = t } };
  }

  abbrev pub conversation_members : Delegate p ConversationMember
  conversation_members = record {
    table = λ d. d.chat.conversation_member;
    put = λ t d. record d { chat = record d.chat { conversation_member = t } };
  }

  abbrev pub messages : Delegate p Message
  messages = record {
    table = λ d. d.chat.message;
    put = λ t d. record d { chat = record d.chat { message = t } };
  }

  module _ {R : Type 0} (c : Delegate p R) where
    -- `create`; it returns the key of the new record.
    abbrev pub create : R → Handler p ℕ
    create r d = ok (p.new_id (c.table d)) (c.put (p.create r (c.table d)) d)

    -- `update` by the primary key; P2025 if there is no such record.
    abbrev pub update : ℕ → (R → R) → Handler p (Unit {0})
    update k f d = elim (p.find_unique k (c.table d)) [
      | none ↦ err record_not_found d
      | some r ↦ ok tt (c.put (p.modify k f (c.table d)) d)
    ]

    -- `update` with a condition beside the primary key; P2025 if the record does not meet it.
    abbrev pub update_where : ℕ → (R → Bool) → (R → R) → Handler p (Unit {0})
    update_where k cond f d = elim (p.find_unique k (c.table d)) [
      | none ↦ err record_not_found d
      | some r ↦
          if cond r then ok tt (c.put (p.modify k f (c.table d)) d) else err record_not_found d
    ]

    -- `delete` by the primary key.
    abbrev pub delete : ℕ → Handler p (Unit {0})
    delete k d = elim (p.find_unique k (c.table d)) [
      | none ↦ err record_not_found d
      | some r ↦ ok tt (c.put (p.delete k (c.table d)) d)
    ]

    -- `updateMany`.
    abbrev pub update_many : (R → Bool) → (R → R) → Handler p (Unit {0})
    update_many cond f d = ok tt (c.put (p.modify_many cond f (c.table d)) d)

    -- `deleteMany`.
    abbrev pub delete_many : (R → Bool) → Handler p (Unit {0})
    delete_many cond d = ok tt (c.put (p.delete_many cond (c.table d)) d)

    -- A record of the table, or an exception.
    abbrev pub find_or_throw : ℕ → HttpException → Handler p R
    find_or_throw k e d = or_throw (p.find_unique k (c.table d)) e d

-- `for (const x of xs) await f(x)`.
unfoldable pub for_each :
    {p : Prisma} {X : Type 0} → (X → Handler p (Unit {0})) → List X → Handler p (Unit {0})
for_each f [] d = ok tt d
for_each f (x ∷ xs) d = elim (f x d) [ ok a d' ↦ for_each f xs d' | err e d' ↦ err e d' ]

-- What every round keeps, the loop keeps, however far it gets.
pub for_each-keeps :
    {p : Prisma} {X : Type 0} (P : Db p → Type 0) (f : X → Handler p (Unit {0}))
    → ((x : X) (d : Db p) → P d → P (final (f x d)))
    → (xs : List X) (d : Db p) → P d
    → P (final (for_each f xs d))
unfolding for_each
for_each-keeps P f keeps [] d h = h
for_each-keeps P f keeps (x ∷ xs) d h = elim (outcome_cases (f x d)) [
  | inl (a, d', e) ↦
      rw (e, for_each) (for_each-keeps P f keeps xs d' (subst P (ap final e) (keeps x d h)))
  | inr (x', d', e) ↦ rw (e, for_each) (subst P (ap final e) (keeps x d h))
]
