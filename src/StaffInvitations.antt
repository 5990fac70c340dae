-- ===== src/StaffInvitations.antt =====
-- backend/src/staff-invitations/staff-invitations.service.ts: an organizer invites a user by e-mail
-- to the staff of a professional event. The random token and the time are arguments; the tokens of
-- the session that `acceptInvitation` answers with, the messages to the gateway, and what an answer
-- shows of the event and the inviter are left out. Seven days are of 24 hours each.
pub mod Cases
pub mod Lifecycle
mod Tests
use Prim.Native.String.{String}
use text.Mathlib.Text.{◌==◌ as str_eq}
use event_now.Prelude.{
  ℕ, ◌+◌, ◌*◌, Bool, true, false, not, ◌&&◌, Option, none, some, List, [], ◌∷◌, ltb, ◌==◌, is_some,
  if◌then◌else◌,
}
use event_now.Prelude.Outcome.{
  Outcome, ok, err, throw_if, throw, transaction, or_throw, pure, get, ◌>>=◌, ◌>>◌,
}
use event_now.Prisma.{Prisma}
use event_now.Http.{
  HttpException, bad_request, not_found, conflict, forbidden, record_not_found, unique_violation,
  lock_unavailable,
}
use event_now.Http
use event_now.Database.{
  Db, Handler, User, Role, Event, EventType, EventStaff, StaffInvitation, InvitationStatus,
  NotificationType, users, events, staff_assignments, staff_invitations, find_or_throw, create,
  update, delete,
}
use event_now.Database
use event_now.Participants.{is_community}
use event_now.Notifications.{create_notification, delete_by_type_and_related_id}

pub record CreateStaffInvitationDto : Type 0 where
  pub email : String
  pub event_id : ℕ

abbrev pub is_organizer : Role → Bool
is_organizer Role.organizer = true
is_organizer _ = false

abbrev pub is_waiting : InvitationStatus → Bool
is_waiting InvitationStatus.pending = true
is_waiting _ = false

abbrev pub is_staff_of : ℕ → ℕ → EventStaff → Bool
is_staff_of event_id user_id a = a.event_id == event_id && a.user_id == user_id

abbrev pub has_email : String → User → Bool
has_email email u = str_eq u.email email

abbrev pub has_token : ℕ → StaffInvitation → Bool
has_token token i = i.token == token

-- `status: 'PENDING', expiresAt: { gt: new Date() }` for an e-mail.
abbrev pub is_waiting_for : String → ℕ → StaffInvitation → Bool
is_waiting_for email now i = str_eq i.email email && is_waiting i.status && ltb now i.expires_at

abbrev pub seven_days : ℕ
seven_days = 7 * 86400000

abbrev pub new_invitation : ℕ → CreateStaffInvitationDto → ℕ → ℕ → StaffInvitation
new_invitation invited_by_id dto token now = record {
  email = dto.email;
  token = token;
  event_id = dto.event_id;
  invited_by_id = invited_by_id;
  accepted_by_id = none;
  status = InvitationStatus.pending;
  expires_at = now + seven_days;
}

abbrev pub accepted_by : ℕ → StaffInvitation → StaffInvitation
accepted_by user_id i = record i {
  status = InvitationStatus.accepted;
  accepted_by_id = some user_id;
}

abbrev pub with_status : InvitationStatus → StaffInvitation → StaffInvitation
with_status status i = record i { status = status }

-- `handlePrismaError`: what is thrown in the place of an exception.
abbrev pub handle_prisma_error : HttpException → HttpException
handle_prisma_error (bad_request m) = bad_request m
handle_prisma_error (conflict m) = conflict m
handle_prisma_error (not_found m) = not_found m
handle_prisma_error unique_violation = conflict Http.invitation_exists
handle_prisma_error (forbidden m) = bad_request Http.invitations_unavailable
handle_prisma_error record_not_found = bad_request Http.invitations_unavailable
handle_prisma_error lock_unavailable = bad_request Http.invitations_unavailable

module _ {p : Prisma} where
  -- `try { … } catch (err) { this.handlePrismaError(err, …) }`.
  abbrev pub handled : {A : Type 0} → Handler p A → Handler p A
  handled m d = elim (m d) [ ok a d' ↦ ok a d' | err e d' ↦ err (handle_prisma_error e) d' ]

  -- The token is unique.
  pub create_row : StaffInvitation → Handler p ℕ
  create_row i d = elim (p.find_first (has_token i.token) d.social.staff_invitation) [
    | some e ↦ err unique_violation d
    | none ↦ create staff_invitations i d
  ]

  pub do_create_invitation : ℕ → CreateStaffInvitationDto → ℕ → ℕ → Handler p ℕ
  unfolding create_row
  do_create_invitation invited_by_id dto token now = do
    inviter ← find_or_throw users invited_by_id (bad_request Http.organizers_only)
    throw_if (not (is_organizer inviter.role)) (bad_request Http.organizers_only)
    event ← find_or_throw events dto.event_id (bad_request Http.not_event_organizer)
    throw_if (not (event.organizer_id == invited_by_id)) (bad_request Http.not_event_organizer)
    throw_if (is_community event.type) (bad_request Http.professional_only)
    db ← get
    existing_user ←
        or_throw (p.find_first (has_email dto.email) db.user) (bad_request Http.no_account)
    throw_if (is_some (p.find_first (is_staff_of dto.event_id existing_user.0) db.event_staff))
        (conflict Http.already_staff)
    throw_if
        (is_some (
          p.find_first (λ i. is_waiting_for dto.email now i && i.event_id == dto.event_id)
            db.social.staff_invitation))
        (conflict Http.invitation_pending)
    id ← create_row (new_invitation invited_by_id dto token now)
    _ ← create_notification existing_user.0 NotificationType.staff_invitation (some token)
    pure id

  pub create_invitation : ℕ → CreateStaffInvitationDto → ℕ → ℕ → Handler p ℕ
  unfolding do_create_invitation
  create_invitation invited_by_id dto token now =
      handled (do_create_invitation invited_by_id dto token now)

  -- An invitation that is over is marked as expired, and the call throws.
  pub get_invitation_by_token : ℕ → ℕ → Handler p (ℕ × StaffInvitation)
  get_invitation_by_token token now = handled (do
    db ← get
    found ←
        or_throw (p.find_first (has_token token) db.social.staff_invitation)
          (not_found Http.invitation_missing)
    throw_if (not (is_waiting found.1.status)) (bad_request Http.invitation_used)
    (if ltb found.1.expires_at now
        then (do
          update staff_invitations found.0 (with_status InvitationStatus.expired)
          throw (bad_request Http.invitation_expired))
        else pure found))

  -- The invitation of the token, which is for the user.
  pub own_invitation : ℕ → ℕ → ℕ → Handler p (ℕ × StaffInvitation)
  unfolding get_invitation_by_token
  own_invitation user_id token now = do
    invitation ← get_invitation_by_token token now
    user ← find_or_throw users user_id (not_found Http.user_missing)
    throw_if (not (str_eq user.email invitation.1.email)) (bad_request Http.invitation_for_other)
    pure invitation

  pub accept_invitation : ℕ → ℕ → ℕ → Handler p (Unit {0})
  unfolding own_invitation delete_by_type_and_related_id
  accept_invitation user_id token now = handled (do
    invitation ← own_invitation user_id token now
    db ← get
    throw_if (is_some (p.find_first (is_staff_of invitation.1.event_id user_id) db.event_staff))
        (bad_request Http.already_staff)
    transaction (do
      _ ← create staff_assignments (record { event_id = invitation.1.event_id; user_id = user_id })
      update staff_invitations invitation.0 (accepted_by user_id))
    _ ← delete_by_type_and_related_id user_id NotificationType.staff_invitation token
    pure tt)

  pub decline_invitation : ℕ → ℕ → ℕ → Handler p (Unit {0})
  unfolding own_invitation delete_by_type_and_related_id
  decline_invitation user_id token now = handled (do
    invitation ← own_invitation user_id token now
    update staff_invitations invitation.0 (with_status InvitationStatus.declined)
    _ ← delete_by_type_and_related_id user_id NotificationType.staff_invitation invitation.1.token
    pure tt)

  pub get_my_invitations : ℕ → Handler p (List (ℕ × StaffInvitation))
  get_my_invitations organizer_id = do
    db ← get
    pure (p.find_many (λ i. i.invited_by_id == organizer_id) db.social.staff_invitation)

  pub get_pending_invitations_for_email : String → ℕ → Handler p (List (ℕ × StaffInvitation))
  get_pending_invitations_for_email email now = do
    db ← get
    pure (p.find_many (is_waiting_for email now) db.social.staff_invitation)

  -- The notification goes with the invitation, if its user is still there.
  forget_notification : Option (ℕ × User) → ℕ → Handler p (Unit {0})
  unfolding delete_by_type_and_related_id
  forget_notification none token = pure tt
  forget_notification (some (id, u)) token = do
    _ ← delete_by_type_and_related_id id NotificationType.staff_invitation token
    pure tt

  pub cancel_invitation : ℕ → ℕ → Handler p (Unit {0})
  unfolding forget_notification
  cancel_invitation organizer_id invitation_id = handled (do
    invitation ← find_or_throw staff_invitations invitation_id (not_found Http.invitation_missing)
    throw_if (not (invitation.invited_by_id == organizer_id)) (bad_request Http.not_inviter)
    throw_if (not (is_waiting invitation.status)) (bad_request Http.only_pending_cancellable)
    db ← get
    delete staff_invitations invitation_id
    forget_notification (p.find_first (has_email invitation.email) db.user) invitation.token)
