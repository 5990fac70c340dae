-- ===== src/Polls/Cases.antt =====
-- What each call makes of the tables of the polls (backend/src/polls/polls.service.ts).
use Prim.Native.String.{String}
use event_now.Prelude.{
  ℕ, suc, ◌≡◌, ◌⊎◌, refl, sym, subst, false, not, ◌&&◌, ◌||◌, some, List, [], ◌∷◌, ltb, ◌==◌,
  length, any, Option-cases, Bool-cases, inl, inr, arith,
}
use event_now.Prelude.Outcome.{Outcome, ok, err, final}
use event_now.Prisma.{Prisma}
use event_now.Prisma.Laws.{lists}
use event_now.Http.{HttpException, bad_request, not_found, conflict, unique_violation}
use event_now.Http
use event_now.Participants.{check_participant_cases}
use event_now.Database.{Db, Ballots, Poll, PollVote}
use event_now.Polls.{
  is_vote_of, votes_of, votes_by, options_of, is_over, close, poll_of, CreatePollDto, ShownPoll,
  check_access, poll_of_event, check_ballot, create_options, fetch_formatted_poll, vote,
  change_vote, close_poll, delete_poll, create_poll,
}
use event_now.Polls.Votes.{
  with_votes, with_options, added, clashes, create_votes_lem, HasNone, votes_by-HasNone,
}

module _ {p : Prisma} where
  -- What a ballot that `check_ballot` lets through is known to be.
  abbrev pub IsBallot : ℕ → ℕ → List ℕ → ℕ → Db p → Poll → Type 0
  IsBallot event_id poll_id os now d q =
      (p.find_unique poll_id d.ballots.poll ≡ some q)
      × (q.event_id ≡ event_id)
      × (is_over q now ≡ false)
      × (any (λ id. not (lists id (options_of poll_id d))) os ≡ false)
      × ((not q.multiple_choice && not (length os == 1)) ≡ false)

  pub poll_of_event_cases :
      (event_id poll_id : ℕ) (d : Db p)
      → ((q : Poll) × (poll_of_event event_id poll_id d ≡ ok q d)
          × (p.find_unique poll_id d.ballots.poll ≡ some q)
          × (q.event_id ≡ event_id))
        ⊎ ((e : HttpException) × (poll_of_event event_id poll_id d ≡ err e d))
  unfolding poll_of_event
  poll_of_event_cases event_id poll_id d =
      elim (Option-cases (p.find_unique poll_id d.ballots.poll)) [
        | inl e ↦ inr (not_found Http.poll_missing, ground (arith, e))
        | inr (q, e) ↦ elim (Bool-cases (q.event_id == event_id)) [
          | inl same ↦ inl (q, ground (arith, e, same), e, ground arith)
          | inr other ↦ inr (not_found Http.poll_missing, ground (arith, e, other))
        ]
      ]

  pub check_ballot_cases :
      (event_id poll_id : ℕ) (os : List ℕ) (now : ℕ) (d : Db p)
      → ((q : Poll) × (check_ballot event_id poll_id os now d ≡ ok tt d)
          × IsBallot event_id poll_id os now d q)
        ⊎ ((e : HttpException) × (check_ballot event_id poll_id os now d ≡ err e d))
  unfolding check_ballot
  check_ballot_cases event_id poll_id os now d = elim (poll_of_event_cases event_id poll_id d) [
    | inr (x, e) ↦ inr (x, ground (arith, e))
    | inl (q, e, found, here) ↦ elim (Bool-cases (is_over q now)) [
      | inl over ↦ inr (bad_request Http.poll_closed, ground (arith, e, over))
      | inr o ↦ elim (Bool-cases (any (λ id. not (lists id (options_of poll_id d))) os)) [
        | inl bad ↦ inr (bad_request Http.invalid_option, ground (arith, e, o, bad))
        | inr good ↦ elim (Bool-cases (not q.multiple_choice && not (length os == 1))) [
          | inl many ↦ inr (bad_request Http.single_vote_only, ground (arith, e, o, good, many))
          | inr one ↦ inl (q, ground (arith, e, o, good, one), (found, here, o, good, one))
        ]
      ]
    ]
  ]

  pub fetch_formatted_poll-keeps :
      (poll_id user_id now : ℕ) (d : Db p) → final (fetch_formatted_poll poll_id user_id now d) ≡ d
  unfolding fetch_formatted_poll
  fetch_formatted_poll-keeps poll_id user_id now d =
      elim (Option-cases (p.find_unique poll_id d.ballots.poll)) [
        | inl e ↦ ground (arith, e)
        | inr (q, e) ↦ ground (arith, e)
      ]

  -- What holds of the tables holds of them after the poll is read for the answer.
  pub fetched :
      (C : Ballots p → Type 0) (poll_id user_id now : ℕ) (d : Db p)
      → C d.ballots
      → C (final (fetch_formatted_poll poll_id user_id now d)).ballots
  fetched C poll_id user_id now d c =
      subst (λ x. C x.ballots) (sym (fetch_formatted_poll-keeps poll_id user_id now d)) c

  pub vote_cases :
      (C : Outcome HttpException (Db p) ShownPoll → Type 0) (user_id event_id poll_id : ℕ)
      (os : List ℕ) (now : ℕ) (d : Db p)
      → ((e : HttpException) → C (err e d))
      → ((q : Poll)
          → IsBallot event_id poll_id os now d q
          → HasNone p poll_id user_id d.ballots.poll_vote
          → C (
              fetch_formatted_poll poll_id user_id now
                (with_votes d (added p poll_id user_id os d.ballots.poll_vote))))
      → C (vote user_id event_id poll_id os now d)
  unfolding vote check_access
  vote_cases C user_id event_id poll_id os now d refused done =
      elim (check_participant_cases Http.not_poll_participant user_id event_id d) [
        | inr (x, e) ↦ ground (arith, e, refused x)
        | inl (ev, e) ↦ elim (check_ballot_cases event_id poll_id os now d) [
          | inr (x, e2) ↦ ground (arith, e, e2, refused x)
          | inl (q, e2, ballot) ↦
              elim (Bool-cases (ltb 0 (length (votes_by user_id (votes_of poll_id d))))) [
                | inl again ↦ ground (arith, e, e2, again, refused (conflict Http.already_voted))
                | inr first ↦
                    let written = create_votes_lem p poll_id user_id os d in
                    elim (Bool-cases (clashes p poll_id user_id os d.ballots.poll_vote)) [
                      | inl c ↦ ground (arith, e, e2, first, written, c, refused unique_violation)
                      | inr c ↦
                          let new = done q ballot (votes_by-HasNone p poll_id user_id d first) in
                          ground (arith, e, e2, first, written, c, new)
                    ]
              ]
        ]
      ]

  -- The votes without those of the user on the poll.
  abbrev pub cleared : ℕ → ℕ → Db p → p.Table PollVote
  cleared poll_id user_id d = p.delete_many (is_vote_of poll_id user_id) d.ballots.poll_vote

  pub change_vote_cases :
      (C : Outcome HttpException (Db p) ShownPoll → Type 0) (user_id event_id poll_id : ℕ)
      (os : List ℕ) (now : ℕ) (d : Db p)
      → ((e : HttpException) → C (err e d))
      → ((q : Poll)
          → IsBallot event_id poll_id os now d q
          → C (err unique_violation (with_votes d (cleared poll_id user_id d))))
      → ((q : Poll)
          → IsBallot event_id poll_id os now d q
          → C (
              fetch_formatted_poll poll_id user_id now
                (with_votes d (added p poll_id user_id os (cleared poll_id user_id d)))))
      → C (change_vote user_id event_id poll_id os now d)
  unfolding change_vote check_access
  change_vote_cases C user_id event_id poll_id os now d refused lost done =
      elim (check_participant_cases Http.not_poll_participant user_id event_id d) [
        | inr (x, e) ↦ ground (arith, e, refused x)
        | inl (ev, e) ↦ elim (check_ballot_cases event_id poll_id os now d) [
          | inr (x, e2) ↦ ground (arith, e, e2, refused x)
          | inl (q, e2, ballot) ↦
              let written =
                create_votes_lem p poll_id user_id os (with_votes d (cleared poll_id user_id d)) in
              elim (Bool-cases (clashes p poll_id user_id os (cleared poll_id user_id d))) [
                | inl c ↦ ground (arith, e, e2, written, c, lost q ballot)
                | inr c ↦ ground (arith, e, e2, written, c, done q ballot)
              ]
        ]
      ]

  pub close_poll_cases :
      (C : Ballots p → Type 0) (user_id event_id poll_id now : ℕ) (d : Db p)
      → C d.ballots
      → C (record d.ballots { poll = p.modify poll_id close d.ballots.poll })
      → C (final (close_poll user_id event_id poll_id now d)).ballots
  unfolding close_poll check_access
  close_poll_cases C user_id event_id poll_id now d kept done =
      elim (check_participant_cases Http.not_poll_participant user_id event_id d) [
        | inr (x, e) ↦ ground (arith, e, kept)
        | inl (ev, e) ↦ elim (poll_of_event_cases event_id poll_id d) [
          | inr (x, e2) ↦ ground (arith, e, e2, kept)
          | inl (q, e2, found, here) ↦ ground (
            arith,
            e,
            e2,
            found,
            kept,
            done,
            fetch_formatted_poll-keeps poll_id user_id now (record d {
              ballots = record d.ballots { poll = p.modify poll_id close d.ballots.poll };
            }),
          )
        ]
      ]

  -- The tables without a poll.
  abbrev pub without_poll : ℕ → Db p → Ballots p
  without_poll poll_id d = record {
    poll = p.delete poll_id d.ballots.poll;
    poll_option = p.delete_many (λ o. o.poll_id == poll_id) d.ballots.poll_option;
    poll_vote =
        p.delete_many (λ v. v.poll_id == poll_id || lists v.option_id (options_of poll_id d))
          d.ballots.poll_vote;
  }

  pub delete_poll_cases :
      (C : Ballots p → Type 0) (user_id event_id poll_id : ℕ) (d : Db p)
      → C d.ballots
      → C (without_poll poll_id d)
      → C (final (delete_poll user_id event_id poll_id d)).ballots
  unfolding delete_poll check_access
  delete_poll_cases C user_id event_id poll_id d kept done =
      elim (check_participant_cases Http.not_poll_participant user_id event_id d) [
        | inr (x, e) ↦ ground (arith, e, kept)
        | inl (ev, e) ↦ elim (poll_of_event_cases event_id poll_id d) [
          | inr (x, e2) ↦ ground (arith, e, e2, kept)
          | inl (q, e2, found, here) ↦ ground (arith, e, e2, found, kept, done)
        ]
      ]

  create_options_lem :
      (poll_id index : ℕ) (texts : List String) (d : Db p)
      → create_options poll_id index texts d
        ≡ ok tt (record d {
          ballots = record d.ballots {
            poll_option = with_options p poll_id index texts d.ballots.poll_option;
          };
        })
  unfolding create_options
  create_options_lem poll_id index [] d = refl
  create_options_lem poll_id index (text ∷ texts) d =
      create_options_lem poll_id (suc index) texts (record d {
        ballots = record d.ballots {
          poll_option =
              p.create (record { poll_id = poll_id; text = text; order = index })
                d.ballots.poll_option;
        };
      })

  abbrev pub with_poll : Poll → List String → Ballots p → Ballots p
  with_poll q texts b = record b {
    poll = p.create q b.poll;
    poll_option = with_options p (p.new_id b.poll) 0 texts b.poll_option;
  }

  pub create_poll_cases :
      (C : Ballots p → Type 0) (user_id event_id : ℕ) (dto : CreatePollDto) (now : ℕ) (d : Db p)
      → C d.ballots
      → C (with_poll (poll_of user_id event_id dto now) dto.options d.ballots)
      → C (final (create_poll user_id event_id dto now d)).ballots
  unfolding create_poll check_access
  create_poll_cases C user_id event_id dto now d kept done =
      elim (check_participant_cases Http.not_poll_participant user_id event_id d) [
        | inr (x, e) ↦ ground (arith, e, kept)
        | inl (ev, e) ↦ ground (
          arith,
          e,
          kept,
          done,
          create_options_lem (p.new_id d.ballots.poll) 0 dto.options (record d {
            ballots = record d.ballots {
              poll = p.create (poll_of user_id event_id dto now) d.ballots.poll;
            };
          }),
        )
      ]
