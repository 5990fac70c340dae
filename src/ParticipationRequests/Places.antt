-- ===== src/ParticipationRequests/Places.antt =====
-- The places of a community event and the requests for them
-- (backend/src/participation-requests/participation-requests.service.ts).
use event_now.Prelude.{
  ℕ, ◌+◌, ◌-◌, ◌*◌, is_some, ◌≤◌, ◌<◌, ◌≡◌, refl, true, false, none, some, ltb, ◌==◌, Option-cases,
  Bool-cases, inl, inr, arith,
}
use event_now.Prelude.Outcome.{Outcome, ok, err, final}
use event_now.Prisma.{Prisma}
use event_now.Prisma.Laws.{find_unique-modify_self, le-sum}
use event_now.Http.{HttpException, bad_request, not_found, forbidden, record_not_found}
use event_now.Http
use event_now.Database.{Db, Notification, ParticipationRequest, TicketCategory}
use event_now.Participants.{is_community, is_request_of}
use event_now.ParticipationRequests.{
  Action, accept, refuse, answer, is_participation, is_waiting, notice_of, one_accepted,
  one_category, take_place, settle_request, respond, create_request, already,
}

abbrev one_less : TicketCategory → TicketCategory
one_less c = record c { current_stock = c.current_stock - 1 }

module _ {p : Prisma} where
  -- The database after an answer, with the categories that it leaves.
  abbrev answered : ℕ → Action → ℕ → p.Table TicketCategory → p.Table Notification → Db p → Db p
  answered request_id action now categories notes d = record d {
    ticket_category = categories;
    participation_request = p.modify request_id (answer action now) d.participation_request;
    notification = notes;
  }

  abbrev noted : ParticipationRequest → Action → Db p → p.Table Notification
  noted r action d =
      p.create
        (record {
          user_id = r.user_id;
          type = notice_of action;
          related_id = some r.event_id;
          read = false;
        })
        d.notification

  settle_request_cases :
      (C : Outcome HttpException (Db p) (Unit {0}) → Type 0) (request_id : ℕ)
      (r : ParticipationRequest) (action : Action) (now : ℕ) (d : Db p)
      → p.find_unique request_id d.participation_request ≡ some r
      → ((e : HttpException) → C (err e d))
      → ((notes : p.Table Notification)
          → action ≡ refuse
          → C (ok tt (answered request_id action now d.ticket_category notes d)))
      → ((notes : p.Table Notification)
          → action ≡ accept
          → p.find_first (is_participation r.event_id) d.ticket_category ≡ none
          → C (ok tt (answered request_id action now d.ticket_category notes d)))
      → ((notes : p.Table Notification) (k : ℕ) (c : TicketCategory)
          → action ≡ accept
          → p.find_first (is_participation r.event_id) d.ticket_category ≡ some (k, c)
          → 1 ≤ c.current_stock
          → C (
              ok tt
                (answered request_id action now (p.modify k one_less d.ticket_category) notes d)))
      → C (settle_request request_id r action now d)
  unfolding settle_request take_place
  settle_request_cases C request_id r refuse now d found throws refused free taken =
      ground (arith, found, refused (noted r refuse d) refl)
  settle_request_cases C request_id r accept now d found throws refused free taken =
      elim (Option-cases (p.find_first (is_participation r.event_id) d.ticket_category)) [
        | inl e ↦ ground (arith, found, e, free (noted r accept d) refl e)
        | inr ((k, c), e) ↦
            let (there, named) =
              p.find_first-some (is_participation r.event_id) d.ticket_category k c e in
            elim (Bool-cases (ltb c.current_stock 1)) [
              | inl full ↦ ground (arith, e, full, throws (bad_request Http.no_places_left))
              | inr left ↦
                  ground (
                    arith,
                    found,
                    e,
                    there,
                    left,
                    taken (noted r accept d) k c refl e (ground arith),
                  )
            ]
      ]

  respond_cases :
      (C : Outcome HttpException (Db p) (Unit {0}) → Type 0) (request_id user_id : ℕ)
      (action : Action) (now : ℕ) (d : Db p)
      → ((e : HttpException) → C (err e d))
      → ((r : ParticipationRequest)
          → p.find_unique request_id d.participation_request ≡ some r
          → is_waiting r.status ≡ true
          → C (settle_request request_id r action now d))
      → C (respond request_id user_id action now d)
  unfolding respond
  respond_cases C request_id user_id action now d throws settles =
      elim (Option-cases (p.find_unique request_id d.participation_request)) [
        | inl e ↦ ground (arith, e, throws (not_found Http.request_missing))
        | inr (r, e) ↦ elim (Option-cases (p.find_unique r.event_id d.event)) [
          | inl e2 ↦ ground (arith, e, e2, throws record_not_found)
          | inr (ev, e2) ↦ ground (
            arith,
            e,
            e2,
            throws (forbidden Http.not_request_organizer),
            throws (bad_request Http.request_processed),
            settles r,
          )
        ]
      ]

  -- The free places of the category `k` of an event and the accepted requests to it.
  abbrev pub Places : ℕ → ℕ → ℕ → Db p → Type 0
  Places event_id k n d =
      (c : TicketCategory) × (p.find_unique k d.ticket_category ≡ some c)
      × (c.current_stock + p.sum (one_accepted event_id) d.participation_request ≡ n)

  -- Accepting a request takes exactly one place: whatever `respond` answers, the free places of the
  -- event of the request and the accepted requests to it add up as before.
  pub respond-Places :
      (request_id user_id : ℕ) (action : Action) (now k n : ℕ) (r : ParticipationRequest)
      (c : TicketCategory) (d : Db p)
      → p.find_unique request_id d.participation_request ≡ some r
      → p.find_first (is_participation r.event_id) d.ticket_category ≡ some (k, c)
      → Places r.event_id k n d
      → Places r.event_id k n (final (respond request_id user_id action now d))
  respond-Places request_id user_id action now k n r c d found places (c', there, total) =
      respond_cases (λ x. Places r.event_id k n (final x)) request_id user_id action now d
        (λ e. (c', there, total))
        (λ s found' waiting.
          settle_request_cases (λ x. Places r.event_id k n (final x)) request_id s action now d
            found' (λ e. (c', there, total))
            (λ notes refused. (
              c',
              there,
              ground (
                arith,
                p.sum-modify (one_accepted r.event_id) request_id (answer action now) r
                    d.participation_request,
              ),
            ))
            (λ notes accepted none_there. absurd (ground arith))
            (λ notes j x accepted first left. (
              one_less c',
              ground (arith, find_unique-modify_self p k one_less d.ticket_category c' there),
              ground (
                arith,
                p.find_first-some (is_participation s.event_id) d.ticket_category j x first,
                p.sum-modify (one_accepted r.event_id) request_id (answer action now) r
                    d.participation_request,
              ),
            )))

  respond-answered :
      (request_id user_id : ℕ) (action : Action) (now : ℕ) (d d' : Db p)
      → respond request_id user_id action now d ≡ ok tt d'
      → (r : ParticipationRequest) → p.find_unique request_id d'.participation_request ≡ some r
      → is_waiting r.status ≡ false
  respond-answered request_id user_id action now d d' run r found' =
      respond_cases (λ x. x ≡ ok tt d' → is_waiting r.status ≡ false) request_id user_id action now
        d (λ e h. absurd (ground arith))
        (λ s found waiting.
          let after =
            find_unique-modify_self p request_id (answer action now) d.participation_request s
              found in
          settle_request_cases (λ x. x ≡ ok tt d' → is_waiting r.status ≡ false) request_id s action
            now d found (λ e h. absurd (ground arith))
            (λ notes how h. ground (arith, h, how, after, found'))
            (λ notes how none_there h. ground (arith, h, how, after, found'))
            (λ notes j x how first left h. ground (arith, h, how, after, found')))
        run

  -- An answer is final: after `respond` has returned, no later call returns for the same request.
  pub respond-respond :
      (request_id user_id : ℕ) (action : Action) (now later_user : ℕ) (later_action : Action)
      (later : ℕ) (d d' d2 : Db p)
      → respond request_id user_id action now d ≡ ok tt d'
      → ¬ (respond request_id later_user later_action later d' ≡ ok tt d2)
  respond-respond request_id user_id action now later_user later_action later d d' d2 run again =
      let done = respond-answered request_id user_id action now d d' run in
      respond_cases (λ x. x ≡ ok tt d2 → ⊥) request_id later_user later_action later d'
        (λ e h. ground arith) (λ r found waiting h. ground (arith, done r found, waiting)) again

  -- The defect: `create` compares the accepted requests with the places that are left, which acceptance
  -- has lowered already. Once half of the places of an event are taken (and one is left), every request,
  -- whoever makes it, throws and changes nothing.
  pub create_request_half_full :
      (user_id event_id k n : ℕ) (c : TicketCategory) (d : Db p)
      → p.find_first (is_participation event_id) d.ticket_category ≡ some (k, c)
      → Places event_id k n d
      → 0 < c.current_stock
      → n ≤ 2 * p.sum (one_accepted event_id) d.participation_request
      → (x : HttpException) × (create_request user_id event_id d ≡ err x d)
  unfolding create_request
  create_request_half_full user_id event_id k n c d first (c', there, total) free half =
      let (found, named) =
        p.find_first-some (is_participation event_id) d.ticket_category k c first in
      let counted = le-sum p (one_category event_id) k c d.ticket_category found in
      let many : c.current_stock ≤ p.sum (one_accepted event_id) d.participation_request =
        ground (arith, there, found, total, half) in
      elim (Option-cases (p.find_unique event_id d.event)) [
        | inl e ↦ (not_found Http.event_missing, ground (arith, e))
        | inr (ev, e) ↦ elim (Bool-cases (is_community ev.type)) [
          | inr closed ↦ (bad_request Http.community_requests_only, ground (arith, e, closed))
          | inl shared ↦ elim (Bool-cases (is_some ev.cancelled_at)) [
            | inl off ↦ (bad_request Http.event_cancelled, ground (arith, e, shared, off))
            | inr on ↦ elim (Bool-cases (ev.organizer_id == user_id)) [
              | inl own ↦ (bad_request Http.own_event, ground (arith, e, shared, on, own))
              | inr other ↦
                  elim (Option-cases
                    (p.find_first (is_request_of event_id user_id) d.participation_request)) [
                      | inr ((j, r), f) ↦
                          (bad_request (already r.status), ground (arith, e, shared, on, other, f))
                      | inl f ↦ (
                        bad_request Http.no_places_left,
                        ground (arith, e, shared, on, other, f, first, named, counted, free, many),
                      )
                    ]
            ]
          ]
        ]
      ]
