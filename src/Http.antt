-- ===== src/Http.antt =====
-- The exceptions that the services throw (`@nestjs/common`), each with its message as a value that
-- is named for what the message says; two services may word the same message differently.
use event_now.Prelude.{ℕ}

pub data Message : Type 0 where
  -- bookings/bookings.service.ts
  category_missing event_cancelled stock_exhausted booking_missing booking_processed : Message
  booking_expired confirmed_not_cancellable : Message
  insufficient_stock : (available asked : ℕ) → Message
  -- promo-codes/promo-codes.service.ts
  event_missing not_promo_organizer promo_exists promo_missing promo_inactive promo_expired :
      Message
  promo_exhausted not_promo_creator : Message
  -- payment/payment.service.ts
  amount_too_small stripe_unavailable no_payment_id payment_not_refundable : Message
  payment_already_refunded refund_unavailable : Message
  -- orders/orders.service.ts
  order_missing only_paid_refundable order_not_requested order_not_authorized : Message
  -- The message of the exception that it passes on.
  stripe_refund_failed : Message → Message
  webhook_invalid unexpected : Message
  -- tickets/tickets.service.ts
  not_event_staff ticket_missing : Message
  -- event-items, polls
  community_only not_accepted_participant item_missing not_item_owner item_held_by_other : Message
  item_claimed_by_other : Message
  -- participation-requests/participation-requests.service.ts
  community_requests_only own_event no_places_left not_request_organizer : Message
  request_missing request_processed event_or_request_missing : Message
  request_pending request_accepted request_refused : Message
  -- polls/polls.service.ts
  not_poll_participant too_few_options closes_in_past poll_missing poll_closed : Message
  invalid_option single_vote_only already_voted poll_already_closed poll_close_forbidden : Message
  poll_delete_forbidden : Message
  -- follows/follows.service.ts, notifications/notifications.service.ts
  follows_self user_missing follow_missing notification_missing notification_of_other : Message
  -- staff-invitations/staff-invitations.service.ts
  organizers_only not_event_organizer professional_only no_account already_staff : Message
  invitation_pending invitation_missing invitation_used invitation_expired : Message
  invitation_for_other not_inviter only_pending_cancellable invitation_exists : Message
  invitations_unavailable : Message
  -- reviews, participant-reviews
  event_not_over not_attended review_exists review_missing review_edit_forbidden : Message
  review_delete_forbidden community_reviews_only event_not_begun reviews_organizer_only : Message
  reviews_self participant_not_accepted list_organizer_only participants_organizer_only : Message
  -- reports/reports.service.ts
  no_target two_targets no_target_event no_target_user reports_self already_reported : Message
  report_missing : Message
  -- messages/messages.service.ts
  one_other_member group_name_needed event_id_needed conversation_missing not_a_member : Message
  direct_is_closed all_are_members direct_members_stay creator_removes direct_is_fixed : Message
  creator_updates groups_only creator_deletes not_event_participant : Message
  -- events/events.service.ts
  professional_by_organizers end_needed end_before_start not_event_owner : Message
  event_already_cancelled event_started : Message
  -- users/users.service.ts
  bans_self admin_not_bannable : Message

pub data HttpException : Type 0 where
  bad_request not_found forbidden conflict : Message → HttpException
  -- Prisma's P2025: the record to update or delete is not there.
  record_not_found : HttpException
  -- Prisma's P2002: the record to create meets another one under a unique key.
  unique_violation : HttpException
  -- `withLock` could not take the lock.
  lock_unavailable : HttpException

-- `err.message`, with a fixed text for an exception that has none of the services' messages.
abbrev pub message_of : HttpException → Message
message_of (bad_request m) = m
message_of (not_found m) = m
message_of (forbidden m) = m
message_of (conflict m) = m
message_of record_not_found = unexpected
message_of unique_violation = unexpected
message_of lock_unavailable = unexpected
