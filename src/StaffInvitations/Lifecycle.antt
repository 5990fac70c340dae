-- ===== src/StaffInvitations/Lifecycle.antt =====
-- The states of an invitation, and who is of the staff
-- (backend/src/staff-invitations/staff-invitations.service.ts).
use text.Mathlib.Text.{◌==◌ as str_eq}
use event_now.Prelude.{
  ℕ, ◌≡◌, ◌⊎◌, ◌++◌, refl, sym, ◌∙◌, ap, subst, true, false, some, List, [], ◌∷◌, ltb, ◌==◌,
  is_some, Option-cases, Bool-cases, inl, inr, arith,
}
use event_now.Prelude.Outcome.{ok, final}
use event_now.Prisma.{Prisma}
use event_now.Prisma.Laws.{find_unique-create_self, find_unique-create_old, find_unique-modify_self}
use event_now.Database.{Db, User, EventStaff, StaffInvitation, InvitationStatus}
use event_now.StaffInvitations.{
  CreateStaffInvitationDto, is_waiting, is_staff_of, accepted_by, with_status, create_invitation,
  get_invitation_by_token, accept_invitation, decline_invitation, cancel_invitation,
}
use event_now.StaffInvitations.Cases.{
  Effect, nothing, marks, accepts, removes, adds, Affects, IsWaitingAt, accept_invitation_cases,
  create_invitation-Affects, get_invitation_by_token-Affects, decline_invitation-Affects,
  cancel_invitation-Affects,
}

-- A call of the service that writes.
pub data InvitationCall : Type 0 where
  create_call : ℕ → CreateStaffInvitationDto → ℕ → ℕ → InvitationCall
  read_call : ℕ → ℕ → InvitationCall
  accept_call decline_call : ℕ → ℕ → ℕ → InvitationCall
  cancel_call : ℕ → ℕ → InvitationCall

module _ {p : Prisma} where
  -- The database after a call, whether it returned or threw.
  unfoldable pub serve : InvitationCall → Db p → Db p
  unfolding create_invitation get_invitation_by_token accept_invitation decline_invitation
      cancel_invitation
  serve (create_call by dto token now) d = final (create_invitation by dto token now d)
  serve (read_call token now) d = final (get_invitation_by_token token now d)
  serve (accept_call user token now) d = final (accept_invitation user token now d)
  serve (decline_call user token now) d = final (decline_invitation user token now d)
  serve (cancel_call organizer k) d = final (cancel_invitation organizer k d)

  unfoldable pub serve_all : List InvitationCall → Db p → Db p
  unfolding serve
  serve_all [] d = d
  serve_all (c ∷ cs) d = serve_all cs (serve c d)

  accepted-Affects :
      (d d' : Db p) (k : ℕ) (i : StaffInvitation) (user_id : ℕ)
      → p.find_unique k d.social.staff_invitation ≡ some i
      → is_waiting i.status ≡ true
      → d'.event_staff
        ≡ p.create (record { event_id = i.event_id; user_id = user_id }) d.event_staff
      → d'.social.staff_invitation ≡ p.modify k (accepted_by user_id) d.social.staff_invitation
      → Affects d d'
  accepted-Affects d d' k i user_id found waits staff rows =
      let s = d.event_staff in
      let t = d.social.staff_invitation in
      subst (λ x. Effect p s t x d'.social.staff_invitation) (sym staff)
        (subst
          (λ x. Effect p s t (p.create (record { event_id = i.event_id; user_id = user_id }) s) x)
          (sym rows) (accepts s t k i user_id found waits))

  accept_invitation-Affects :
      (user_id token now : ℕ) (d : Db p) → Affects d (final (accept_invitation user_id token now d))
  accept_invitation-Affects user_id token now d =
      elim (accept_invitation_cases user_id token now d) [
        | inr (x, d', e, affects) ↦ ground (arith, e, affects)
        | inl (k, i, u, d', e, (found, mine, waits), known, same, early, staff, rows) ↦
            subst (λ x. Affects d x) (sym (ap final e))
              (accepted-Affects d d' k i user_id found waits staff rows)
      ]

  serve-Affects : (c : InvitationCall) (d : Db p) → Affects d (serve c d)
  unfolding serve
  serve-Affects (create_call by dto token now) d = create_invitation-Affects by dto token now d
  serve-Affects (read_call token now) d = get_invitation_by_token-Affects token now d
  serve-Affects (accept_call user token now) d = accept_invitation-Affects user token now d
  serve-Affects (decline_call user token now) d = decline_invitation-Affects user token now d
  serve-Affects (cancel_call organizer k) d = cancel_invitation-Affects organizer k d

module _ (p : Prisma) where
  -- An invitation that waits no more is not touched.
  effect-settled :
      (s s' : p.Table EventStaff) (t t' : p.Table StaffInvitation) (k : ℕ) (i : StaffInvitation)
      → Effect p s t s' t'
      → p.find_unique k t ≡ some i
      → is_waiting i.status ≡ false
      → p.find_unique k t' ≡ some i
  effect-settled _ _ _ _ k i (nothing s t) found settled = found
  effect-settled _ _ _ _ k i (marks s t j h status at waits) found settled =
      ground (arith, p.find_unique-modify k j (with_status status) t)
  effect-settled _ _ _ _ k i (accepts s t j h user at waits) found settled =
      ground (arith, p.find_unique-modify k j (accepted_by user) t)
  effect-settled _ _ _ _ k i (removes s t j h at waits) found settled =
      ground (arith, p.find_unique-delete k j t)
  effect-settled _ _ _ _ k i (adds s t h waits) found settled =
      find_unique-create_old p k h i t found

  pending_status : (s : InvitationStatus) → is_waiting s ≡ true → s ≡ InvitationStatus.pending
  pending_status InvitationStatus.pending h = refl
  pending_status InvitationStatus.accepted h = absurd (ground (arith, h))
  pending_status InvitationStatus.declined h = absurd (ground (arith, h))
  pending_status InvitationStatus.expired h = absurd (ground (arith, h))

  -- A new member of the staff comes with an invitation that is accepted.
  effect-new :
      (s s' : p.Table EventStaff) (t t' : p.Table StaffInvitation) (k : ℕ) (a : EventStaff)
      → Effect p s t s' t'
      → p.find_unique k s' ≡ some a
      → (p.find_unique k s ≡ some a)
        ⊎ ((j : ℕ) × (i : StaffInvitation) × (p.find_unique j t ≡ some i)
            × (i.status ≡ InvitationStatus.pending)
            × (i.event_id ≡ a.event_id)
            × (p.find_unique j t' ≡ some (accepted_by a.user_id i)))
  effect-new _ _ _ _ k a (nothing s t) found = inl found
  effect-new _ _ _ _ k a (marks s t j h status at waits) found = inl found
  effect-new _ _ _ _ k a (removes s t j h at waits) found = inl found
  effect-new _ _ _ _ k a (adds s t h waits) found = inl found
  effect-new _ _ _ _ k a (accepts s t j h user at waits) found =
      let member : EventStaff = record { event_id = h.event_id; user_id = user } in
      elim (Bool-cases (p.new_id s == k)) [
        | inr old ↦ inl (ground (arith, old, found, p.find_unique-create k member s))
        | inl new ↦
            let same : member ≡ a = ground (arith, new, found, p.find_unique-create k member s) in
            inr (
              j,
              h,
              at,
              pending_status h.status waits,
              ap (λ (x : EventStaff). x.event_id) same,
              subst
                  (λ (x : EventStaff).
                    p.find_unique j (p.modify j (accepted_by user) t)
                    ≡ some (accepted_by x.user_id h))
                  same (find_unique-modify_self p j (accepted_by user) t h at),
            )
      ]

module _ {p : Prisma} where
  -- An invitation that was accepted, declined or has expired stays as it is, whatever calls follow.
  pub serve_all-settled :
      (cs : List InvitationCall) (d : Db p) (k : ℕ) (i : StaffInvitation)
      → p.find_unique k d.social.staff_invitation ≡ some i
      → is_waiting i.status ≡ false
      → p.find_unique k (serve_all cs d).social.staff_invitation ≡ some i
  unfolding serve_all
  serve_all-settled [] d k i found settled = found
  serve_all-settled (c ∷ cs) d k i found settled =
      let d' = serve c d in
      serve_all-settled cs d' k i
        (effect-settled p d.event_staff d'.event_staff d.social.staff_invitation
          d'.social.staff_invitation k i (serve-Affects c d) found settled)
        settled

  -- A call has made a member of the staff: by an invitation to the event that waited and that the
  -- member has accepted with the call.
  abbrev pub Appoints : InvitationCall → Db p → EventStaff → Type 0
  Appoints c d a =
      (j : ℕ) × (i : StaffInvitation) × (p.find_unique j d.social.staff_invitation ≡ some i)
      × (i.status ≡ InvitationStatus.pending)
      × (i.event_id ≡ a.event_id)
      × (p.find_unique j (serve c d).social.staff_invitation ≡ some (accepted_by a.user_id i))

  serve-Appoints :
      (c : InvitationCall) (d : Db p) (k : ℕ) (a : EventStaff)
      → p.find_unique k (serve c d).event_staff ≡ some a
      → (p.find_unique k d.event_staff ≡ some a) ⊎ Appoints c d a
  serve-Appoints c d k a found =
      effect-new p d.event_staff (serve c d).event_staff d.social.staff_invitation
        (serve c d).social.staff_invitation k a (serve-Affects c d) found

  -- Whoever is of the staff after some calls was so before, or one of the calls has made it so, by an
  -- invitation to the event that was still pending when the call began and that the call marks as
  -- accepted by this user.
  pub serve_all-Appoints :
      (cs : List InvitationCall) (d : Db p) (k : ℕ) (a : EventStaff)
      → p.find_unique k (serve_all cs d).event_staff ≡ some a
      → (p.find_unique k d.event_staff ≡ some a)
        ⊎ ((before : List InvitationCall) × (c : InvitationCall) × (after : List InvitationCall)
            × (cs ≡ before ++ (c ∷ after))
            × Appoints c (serve_all before d) a)
  unfolding serve_all
  serve_all-Appoints [] d k a found = inl found
  serve_all-Appoints (c ∷ cs) d k a found = elim (serve_all-Appoints cs (serve c d) k a found) [
    | inr (before, c', after, e, appoints) ↦
        inr (c ∷ before, c', after, ap (λ x. c ∷ x) e, appoints)
    | inl here ↦ elim (serve-Appoints c d k a here) [
      | inl old ↦ inl old
      | inr appoints ↦ inr ([], c, cs, refl, appoints)
    ]
  ]

  -- An acceptance that returns was by the user with the e-mail of the invitation, which waited and
  -- was not over, and it makes this user a member of the staff of the event and the invitation
  -- accepted.
  pub accept_invitation-returns :
      (user_id token now : ℕ) (d d' : Db p)
      → accept_invitation user_id token now d ≡ ok tt d'
      → (k : ℕ) × (i : StaffInvitation) × (u : User) × IsWaitingAt token k i d
        × (p.find_unique user_id d.user ≡ some u)
        × (str_eq u.email i.email ≡ true)
        × (ltb i.expires_at now ≡ false)
        × (p.find_unique k d'.social.staff_invitation ≡ some (accepted_by user_id i))
        × (is_some (p.find_first (is_staff_of i.event_id user_id) d'.event_staff) ≡ true)
  accept_invitation-returns user_id token now d d' h =
      elim (accept_invitation_cases user_id token now d) [
        | inr (x, d2, e, affects) ↦ absurd (ground (arith, h, e))
        | inl (k, i, u, d2, e, (found, mine, waits), known, same, early, staff, rows) ↦
            let here : d2 ≡ d' = ap final (sym e ∙ h) in
            let member : EventStaff = record { event_id = i.event_id; user_id = user_id } in
            let t = d.social.staff_invitation in
            let accepted = find_unique-modify_self p k (accepted_by user_id) t i found in
            let created = find_unique-create_self p member d.event_staff in
            (
              k,
              i,
              u,
              (found, mine, waits),
              known,
              same,
              early,
              subst (λ x. p.find_unique k x ≡ some (accepted_by user_id i))
                  (sym rows ∙ ap (λ x. x.social.staff_invitation) here) accepted,
              elim (Option-cases (p.find_first (is_staff_of i.event_id user_id) d'.event_staff)) [
                | inr (a, e2) ↦ ground (arith, e2)
                | inl e2 ↦ absurd (
                    ground (
                      arith,
                      p.find_first-none (is_staff_of i.event_id user_id) d'.event_staff
                          (p.new_id d.event_staff) member e2,
                      subst (λ x. p.find_unique (p.new_id d.event_staff) x ≡ some member)
                          (sym staff ∙ ap (λ x. x.event_staff) here) created,
                    ))
              ],
            )
      ]
