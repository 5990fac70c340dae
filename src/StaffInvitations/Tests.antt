-- ===== src/StaffInvitations/Tests.antt =====
-- The theorems on staff invitations applied to a small database
-- (backend/src/staff-invitations/staff-invitations.service.ts).
use text.Mathlib.Text.{◌==◌ as str_eq}
use event_now.Prelude.{
  ℕ, ◌≡◌, true, false, refl, some, none, List, [], ◌∷◌, ltb, is_some, ◌⊎◌, ◌++◌,
}
use event_now.Prelude.Outcome.{ok}
use event_now.Prisma.Rows.{in_memory}
use event_now.Database.{EventStaff, Db, User, Role, StaffInvitation, InvitationStatus}
use event_now.Notifications.{delete_by_type_and_related_id}
use event_now.StaffInvitations.{
  CreateStaffInvitationDto, is_staff_of, accepted_by, accept_invitation,
}
use event_now.StaffInvitations.Cases.{IsWaitingAt}
use event_now.StaffInvitations.Lifecycle.{
  Appoints, serve, serve_all-Appoints, InvitationCall, create_call, read_call, accept_call,
  decline_call, cancel_call, serve_all, serve_all-settled, accept_invitation-returns,
}
use event_now.Tests.{sample, reader}

abbrev host : User
host = record reader { email = "host@b"; role = Role.organizer }

-- User 0 is to validate the tickets of event 0; user 2 has declined to do so.
abbrev asked : StaffInvitation
asked = record {
  email = "a@b";
  token = 77;
  event_id = 0;
  invited_by_id = 1;
  accepted_by_id = none;
  status = InvitationStatus.pending;
  expires_at = 1000;
}

abbrev declined : StaffInvitation
declined = record asked { email = "c@b"; token = 78; status = InvitationStatus.declined }

abbrev staffing : Db in_memory
staffing = record sample {
  user = some host ∷ some reader ∷ [];
  social = record sample.social { staff_invitation = some declined ∷ some asked ∷ [] };
}

abbrev second : CreateStaffInvitationDto
second = record { email = "a@b"; event_id = 0 }

abbrev calls : List InvitationCall
calls =
    create_call 1 second 79 10
    ∷ accept_call 0 77 20
    ∷ accept_call 0 77 30
    ∷ decline_call 0 78 40
    ∷ read_call 79 5000
    ∷ cancel_call 1 0
    ∷ []

serve_all-settled_example :
    in_memory.find_unique 1 (serve_all calls staffing).social.staff_invitation ≡ some declined
serve_all-settled_example = serve_all-settled calls staffing 1 declined refl refl

abbrev joined : Db in_memory
joined = record staffing {
  event_staff = some (record { event_id = 0; user_id = 0 }) ∷ [];
  social = record staffing.social {
    staff_invitation = some declined ∷ some (accepted_by 0 asked) ∷ [];
  };
}

returns : accept_invitation 0 77 20 staffing ≡ ok tt joined
unfolding accept_invitation delete_by_type_and_related_id
returns = refl

abbrev accepting : List InvitationCall
accepting = accept_call 0 77 20 ∷ []

abbrev new_member : EventStaff
new_member = record { event_id = 0; user_id = 0 }

made_staff : in_memory.find_unique 0 (serve_all accepting staffing).event_staff ≡ some new_member
unfolding serve_all serve accept_invitation delete_by_type_and_related_id
made_staff = refl

serve_all-Appoints_example :
    (in_memory.find_unique 0 staffing.event_staff ≡ some new_member)
    ⊎ ((before : List InvitationCall) × (c : InvitationCall) × (after : List InvitationCall)
        × (accepting ≡ before ++ (c ∷ after))
        × Appoints c (serve_all before staffing) new_member)
serve_all-Appoints_example = serve_all-Appoints accepting staffing 0 new_member made_staff

accept_invitation-returns_example :
    (k : ℕ) × (i : StaffInvitation) × (u : User) × IsWaitingAt 77 k i staffing
    × (in_memory.find_unique 0 staffing.user ≡ some u)
    × (str_eq u.email i.email ≡ true)
    × (ltb i.expires_at 20 ≡ false)
    × (in_memory.find_unique k joined.social.staff_invitation ≡ some (accepted_by 0 i))
    × (is_some (in_memory.find_first (is_staff_of i.event_id 0) joined.event_staff) ≡ true)
accept_invitation-returns_example = accept_invitation-returns 0 77 20 staffing joined returns
