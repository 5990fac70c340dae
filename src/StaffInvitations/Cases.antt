-- ===== src/StaffInvitations/Cases.antt =====
-- What each call makes of the invitations and of the staff
-- (backend/src/staff-invitations/staff-invitations.service.ts).
use text.Mathlib.Text.{◌==◌ as str_eq}
use event_now.Prelude.{
  ℕ, ◌≡◌, ◌⊎◌, refl, Bool, true, false, not, ◌&&◌, some, ltb, ◌==◌, is_some, Option-cases,
  Bool-cases, inl, inr, arith,
}
use event_now.Prelude.Outcome.{ok, err, final}
use event_now.Prisma.{Prisma}
use event_now.Http.{
  HttpException, bad_request, not_found, conflict, record_not_found, unique_violation,
}
use event_now.Http
use event_now.Database.{Db, User, EventStaff, StaffInvitation, InvitationStatus}
use event_now.Participants.{is_community}
use event_now.Notifications.{delete_by_type_and_related_id}
use event_now.StaffInvitations.{
  CreateStaffInvitationDto, is_organizer, is_waiting, is_staff_of, has_email, has_token,
  is_waiting_for, new_invitation, accepted_by, with_status, create_row, do_create_invitation,
  create_invitation, get_invitation_by_token, own_invitation, accept_invitation, decline_invitation,
  cancel_invitation, forget_notification, handle_prisma_error,
}

-- What a call does to the staff and to the invitations.
pub data Effect (p : Prisma)
    : p.Table EventStaff
      → p.Table StaffInvitation
      → p.Table EventStaff
      → p.Table StaffInvitation
      → Type 0 where
  nothing : (s : p.Table EventStaff) (t : p.Table StaffInvitation) → Effect p s t s t
  marks :
      (s : p.Table EventStaff) (t : p.Table StaffInvitation) (k : ℕ) (i : StaffInvitation)
      (status : InvitationStatus)
      → p.find_unique k t ≡ some i
      → is_waiting i.status ≡ true
      → Effect p s t s (p.modify k (with_status status) t)
  accepts :
      (s : p.Table EventStaff) (t : p.Table StaffInvitation) (k : ℕ) (i : StaffInvitation)
      (user_id : ℕ)
      → p.find_unique k t ≡ some i
      → is_waiting i.status ≡ true
      → Effect p s t
          (p.create (record { event_id = i.event_id; user_id = user_id }) s)
          (p.modify k (accepted_by user_id) t)
  removes :
      (s : p.Table EventStaff) (t : p.Table StaffInvitation) (k : ℕ) (i : StaffInvitation)
      → p.find_unique k t ≡ some i
      → is_waiting i.status ≡ true
      → Effect p s t s (p.delete k t)
  adds :
      (s : p.Table EventStaff) (t : p.Table StaffInvitation) (i : StaffInvitation)
      → is_waiting i.status ≡ true
      → Effect p s t s (p.create i t)

module _ {p : Prisma} where
  -- The effect of a call that leaves the database `d'`.
  abbrev pub Affects : Db p → Db p → Type 0
  Affects d d' =
      Effect p d.event_staff d.social.staff_invitation d'.event_staff d'.social.staff_invitation

  -- An invitation that a call finds by its token, and that waits for an answer.
  abbrev pub IsWaitingAt : ℕ → ℕ → StaffInvitation → Db p → Type 0
  IsWaitingAt token k i d =
      (p.find_unique k d.social.staff_invitation ≡ some i)
      × (has_token token i ≡ true)
      × (is_waiting i.status ≡ true)

  abbrev pub with_invitations : Db p → p.Table StaffInvitation → Db p
  with_invitations d t = record d { social = record d.social { staff_invitation = t } }

  abbrev pub marked : ℕ → InvitationStatus → Db p → p.Table StaffInvitation
  marked k status d = p.modify k (with_status status) d.social.staff_invitation

  get_invitation_by_token_cases :
      (token now : ℕ) (d : Db p)
      → ((k : ℕ) × (i : StaffInvitation) × (get_invitation_by_token token now d ≡ ok (k, i) d)
          × IsWaitingAt token k i d
          × (ltb i.expires_at now ≡ false))
        ⊎ (((e : HttpException) × (get_invitation_by_token token now d ≡ err e d))
            ⊎ ((k : ℕ) × (i : StaffInvitation) × (get_invitation_by_token token now d
                  ≡ err
                      (bad_request Http.invitation_expired)
                      (with_invitations d (marked k InvitationStatus.expired d)))
                × IsWaitingAt token k i d))
  unfolding get_invitation_by_token
  get_invitation_by_token_cases token now d =
      elim (Option-cases (p.find_first (has_token token) d.social.staff_invitation)) [
        | inl e ↦ inr (inl (not_found Http.invitation_missing, ground (arith, e)))
        | inr ((k, i), e) ↦
            let (found, mine) =
              p.find_first-some (has_token token) d.social.staff_invitation k i e in
            elim (Bool-cases (is_waiting i.status)) [
              | inr used ↦ inr (inl (bad_request Http.invitation_used, ground (arith, e, used)))
              | inl waits ↦ elim (Bool-cases (ltb i.expires_at now)) [
                | inr early ↦
                    inl (k, i, ground (arith, e, waits, early), (found, mine, waits), early)
                | inl late ↦
                    inr (inr (k, i, ground (arith, e, waits, late, found), (found, mine, waits)))
              ]
            ]
      ]

  own_invitation_cases :
      (user_id token now : ℕ) (d : Db p)
      → ((k : ℕ) × (i : StaffInvitation) × (u : User) × (own_invitation user_id token now d
            ≡ ok (k, i) d)
          × IsWaitingAt token k i d
          × (p.find_unique user_id d.user ≡ some u)
          × (str_eq u.email i.email ≡ true)
          × (ltb i.expires_at now ≡ false))
        ⊎ (((e : HttpException) × (own_invitation user_id token now d ≡ err e d))
            ⊎ ((k : ℕ) × (i : StaffInvitation) × (own_invitation user_id token now d
                  ≡ err
                      (bad_request Http.invitation_expired)
                      (with_invitations d (marked k InvitationStatus.expired d)))
                × IsWaitingAt token k i d))
  unfolding own_invitation
  own_invitation_cases user_id token now d = elim (get_invitation_by_token_cases token now d) [
    | inr (inl (x, e)) ↦ inr (inl (x, ground (arith, e)))
    | inr (inr (k, i, e, waits)) ↦ inr (inr (k, i, ground (arith, e), waits))
    | inl (k, i, e, waits, early) ↦ elim (Option-cases (p.find_unique user_id d.user)) [
      | inl e2 ↦ inr (inl (not_found Http.user_missing, ground (arith, e, e2)))
      | inr (u, e2) ↦ elim (Bool-cases (str_eq u.email i.email)) [
        | inl same ↦ inl (k, i, u, ground (arith, e, e2, same), waits, e2, same, early)
        | inr other ↦
            inr (inl (bad_request Http.invitation_for_other, ground (arith, e, e2, other)))
      ]
    ]
  ]

  abbrev unchanged : (d : Db p) → Affects d d
  unchanged d = nothing d.event_staff d.social.staff_invitation

  marked-Affects :
      (k : ℕ) (i : StaffInvitation) (status : InvitationStatus) (d : Db p)
      → p.find_unique k d.social.staff_invitation ≡ some i
      → is_waiting i.status ≡ true
      → Affects d (with_invitations d (marked k status d))
  marked-Affects k i status d found waits =
      marks d.event_staff d.social.staff_invitation k i status found waits

  removed-Affects :
      (k : ℕ) (i : StaffInvitation) (d : Db p)
      → p.find_unique k d.social.staff_invitation ≡ some i
      → is_waiting i.status ≡ true
      → Affects d (with_invitations d (p.delete k d.social.staff_invitation))
  removed-Affects k i d found waits =
      removes d.event_staff d.social.staff_invitation k i found waits

  added-Affects :
      (i : StaffInvitation) (d : Db p)
      → is_waiting i.status ≡ true
      → Affects d (with_invitations d (p.create i d.social.staff_invitation))
  added-Affects i d waits = adds d.event_staff d.social.staff_invitation i waits

  -- `accept_invitation` by what it found: it threw, or it has made the user a member of the staff.
  pub accept_invitation_cases :
      (user_id token now : ℕ) (d : Db p)
      → ((k : ℕ) × (i : StaffInvitation) × (u : User) × (d' : Db p) × (accept_invitation user_id
              token now d
            ≡ ok tt d')
          × IsWaitingAt token k i d
          × (p.find_unique user_id d.user ≡ some u)
          × (str_eq u.email i.email ≡ true)
          × (ltb i.expires_at now ≡ false)
          × (d'.event_staff
              ≡ p.create (record { event_id = i.event_id; user_id = user_id }) d.event_staff)
          × (d'.social.staff_invitation
              ≡ p.modify k (accepted_by user_id) d.social.staff_invitation))
        ⊎ ((e : HttpException) × (d' : Db p) × (accept_invitation user_id token now d ≡ err e d')
            × Affects d d')
  unfolding accept_invitation delete_by_type_and_related_id
  accept_invitation_cases user_id token now d = elim (own_invitation_cases user_id token now d) [
    | inr (inl (x, e)) ↦ inr (handle_prisma_error x, d, ground (arith, e), unchanged d)
    | inr (inr (k, i, e, (found, mine, waits))) ↦ inr (
      bad_request Http.invitation_expired,
      with_invitations d (marked k InvitationStatus.expired d),
      ground (arith, e),
      marked-Affects k i InvitationStatus.expired d found waits,
    )
    | inl (k, i, u, e, (found, mine, waits), known, same, early) ↦
        elim (Bool-cases (is_some (p.find_first (is_staff_of i.event_id user_id) d.event_staff))) [
          | inl already ↦
              inr (bad_request Http.already_staff, d, ground (arith, e, already), unchanged d)
          | inr free ↦ inl (
            k,
            i,
            u,
            final (accept_invitation user_id token now d),
            ground (arith, e, free, found),
            (found, mine, waits),
            known,
            same,
            early,
            ground (arith, e, free, found),
            ground (arith, e, free, found),
          )
        ]
  ]

  pub decline_invitation-Affects :
      (user_id token now : ℕ) (d : Db p)
      → Affects d (final (decline_invitation user_id token now d))
  unfolding decline_invitation delete_by_type_and_related_id
  decline_invitation-Affects user_id token now d = elim (own_invitation_cases user_id token now d) [
    | inr (inl (x, e)) ↦ ground (arith, e, unchanged d)
    | inr (inr (k, i, e, (found, mine, waits))) ↦
        ground (arith, e, marked-Affects k i InvitationStatus.expired d found waits)
    | inl (k, i, u, e, (found, mine, waits), known, same, early) ↦
        ground (arith, e, found, marked-Affects k i InvitationStatus.declined d found waits)
  ]

  pub cancel_invitation-Affects :
      (organizer_id k : ℕ) (d : Db p) → Affects d (final (cancel_invitation organizer_id k d))
  unfolding cancel_invitation forget_notification delete_by_type_and_related_id
  cancel_invitation-Affects organizer_id k d =
      elim (Option-cases (p.find_unique k d.social.staff_invitation)) [
        | inl e ↦ ground (arith, e, unchanged d)
        | inr (i, e) ↦ elim (Bool-cases (i.invited_by_id == organizer_id)) [
          | inr other ↦ ground (arith, e, other, unchanged d)
          | inl mine ↦ elim (Bool-cases (is_waiting i.status)) [
            | inr used ↦ ground (arith, e, mine, used, unchanged d)
            | inl waits ↦ elim (Option-cases (p.find_first (has_email i.email) d.user)) [
              | inl e2 ↦ ground (arith, e, mine, waits, e2, removed-Affects k i d e waits)
              | inr (u, e2) ↦ ground (arith, e, mine, waits, e2, removed-Affects k i d e waits)
            ]
          ]
        ]
      ]

  pub get_invitation_by_token-Affects :
      (token now : ℕ) (d : Db p) → Affects d (final (get_invitation_by_token token now d))
  get_invitation_by_token-Affects token now d = elim (get_invitation_by_token_cases token now d) [
    | inl (k, i, e, found, early) ↦ ground (arith, e, unchanged d)
    | inr (inl (x, e)) ↦ ground (arith, e, unchanged d)
    | inr (inr (k, i, e, (found, mine, waits))) ↦
        ground (arith, e, marked-Affects k i InvitationStatus.expired d found waits)
  ]

  pub create_invitation-Affects :
      (invited_by_id : ℕ) (dto : CreateStaffInvitationDto) (token now : ℕ) (d : Db p)
      → Affects d (final (create_invitation invited_by_id dto token now d))
  unfolding create_invitation do_create_invitation create_row
  create_invitation-Affects by dto token now d =
      let t = d.social.staff_invitation in
      let waiting : StaffInvitation → Bool =
        λ i. is_waiting_for dto.email now i && i.event_id == dto.event_id in
      elim (Option-cases (p.find_unique by d.user)) [
        | inl e ↦ ground (arith, e, unchanged d)
        | inr (v, e) ↦ elim (Bool-cases (is_organizer v.role)) [
          | inr not_org ↦ ground (arith, e, not_org, unchanged d)
          | inl org ↦ elim (Option-cases (p.find_unique dto.event_id d.event)) [
            | inl e2 ↦ ground (arith, e, org, e2, unchanged d)
            | inr (ev, e2) ↦
                elim (Bool-cases (ev.organizer_id == by && not (is_community ev.type))) [
                  | inr other ↦ elim (Bool-cases (ev.organizer_id == by)) [
                    | inr not_mine ↦ ground (arith, e, org, e2, not_mine, unchanged d)
                    | inl mine ↦ ground (arith, e, org, e2, mine, other, unchanged d)
                  ]
                  | inl own ↦ elim (Option-cases (p.find_first (has_email dto.email) d.user)) [
                    | inl e3 ↦ ground (arith, e, org, e2, own, e3, unchanged d)
                    | inr ((u, w), e3) ↦
                        elim (Bool-cases
                          (is_some (p.find_first (is_staff_of dto.event_id u) d.event_staff))) [
                            | inl staff ↦ ground (arith, e, org, e2, own, e3, staff, unchanged d)
                            | inr free ↦ elim (Bool-cases (is_some (p.find_first waiting t))) [
                              | inl again ↦
                                  ground (arith, e, org, e2, own, e3, free, again, unchanged d)
                              | inr first ↦ elim (Option-cases (p.find_first (has_token token) t)) [
                                | inr (i, e4) ↦
                                    ground
                                      (arith, e, org, e2, own, e3, free, first, e4, unchanged d)
                                | inl e4 ↦ ground (
                                  arith,
                                  e,
                                  org,
                                  e2,
                                  own,
                                  e3,
                                  free,
                                  first,
                                  e4,
                                  added-Affects (new_invitation by dto token now) d refl,
                                )
                              ]
                            ]
                          ]
                  ]
                ]
          ]
        ]
      ]
