-- ===== src/Polls/Calls.antt =====
-- The calls of backend/src/polls/polls.service.ts one after the other, and what one call promises
-- its user.
use event_now.Prelude.{
  ℕ, ◌≡◌, refl, true, false, not, some, List, [], ◌∷◌, ◌==◌, any, inl, inr, arith, ap, sym, subst,
  ◌∙◌, ◌↔◌,
}
use event_now.Prelude.Outcome.{ok, err, final}
use event_now.Prisma.{Prisma}
use event_now.Http.{HttpException, unique_violation}
use event_now.Database.{Db, Poll, PollVote, Event}
use event_now.Prisma.Laws.{lists}
use event_now.Polls.{
  ShownPoll, CreatePollDto, poll_of, is_over, options_of, vote_of, check_access, check_ballot, vote,
  change_vote, close_poll, fetch_formatted_poll, delete_poll, create_poll,
}
use event_now.Polls.Votes.{
  HasNone, added, names_twice, clashes_twice, added_cases, added-has, delete_many-HasNone,
  create_votes_lem, with_votes,
}
use event_now.Polls.Cases.{
  vote_cases, fetched, change_vote_cases, close_poll_cases, delete_poll_cases, create_poll_cases,
  cleared, fetch_formatted_poll-keeps,
}
use event_now.Polls.Sound.{
  IsSound, added-IsSound, cleared-IsSound, closed-IsSound, with_poll-IsSound, without_poll-IsSound,
}

-- A call of the service that writes, with its user, its event and the time.
pub data PollCall : Type 0 where
  create_poll_call : ℕ → ℕ → CreatePollDto → ℕ → PollCall
  vote_call change_vote_call : ℕ → ℕ → ℕ → List ℕ → ℕ → PollCall
  close_poll_call : ℕ → ℕ → ℕ → ℕ → PollCall
  delete_poll_call : ℕ → ℕ → ℕ → PollCall

module _ {p : Prisma} where
  -- The database after a call, whether it returned or threw.
  pub serve : PollCall → Db p → Db p
  unfolding create_poll vote change_vote close_poll delete_poll
  serve (create_poll_call user event dto now) d = final (create_poll user event dto now d)
  serve (vote_call user event poll os now) d = final (vote user event poll os now d)
  serve (change_vote_call user event poll os now) d = final (change_vote user event poll os now d)
  serve (close_poll_call user event poll now) d = final (close_poll user event poll now d)
  serve (delete_poll_call user event poll) d = final (delete_poll user event poll d)

  pub serve_all : List PollCall → Db p → Db p
  unfolding serve
  serve_all [] d = d
  serve_all (c ∷ cs) d = serve_all cs (serve c d)

  serve-IsSound : (c : PollCall) (d : Db p) → IsSound d.ballots → IsSound (serve c d).ballots
  unfolding serve
  serve-IsSound (create_poll_call user event dto now) d s =
      create_poll_cases IsSound user event dto now d s
        (with_poll-IsSound (poll_of user event dto now) dto.options d.ballots s)
  serve-IsSound (vote_call user event poll os now) d s =
      vote_cases (λ r. IsSound (final r).ballots) user event poll os now d (λ e. s)
        (λ q b fresh.
          let t = d.ballots.poll_vote in
          fetched IsSound poll user now (with_votes d (added p poll user os t))
            (added-IsSound poll user event os now d t q s b fresh))
  serve-IsSound (change_vote_call user event poll os now) d s =
      let s' = cleared-IsSound poll user d s in
      change_vote_cases (λ r. IsSound (final r).ballots) user event poll os now d (λ e. s)
        (λ q b. s')
        (λ q b.
          let t = cleared poll user d in
          fetched IsSound poll user now (with_votes d (added p poll user os t)) (
            added-IsSound poll user event os now d t q s' b
              (delete_many-HasNone p poll user d.ballots.poll_vote)))
  serve-IsSound (close_poll_call user event poll now) d s =
      close_poll_cases IsSound user event poll now d s (closed-IsSound poll d.ballots s)
  serve-IsSound (delete_poll_call user event poll) d s =
      delete_poll_cases IsSound user event poll d s (without_poll-IsSound poll d s)

  -- However the calls follow one another, and whichever of them fail: every vote stays a vote for an
  -- option of its own poll, and no user has two votes on a poll with a single choice.
  pub serve_all-IsSound :
      (cs : List PollCall) (d : Db p) → IsSound d.ballots → IsSound (serve_all cs d).ballots
  unfolding serve_all
  serve_all-IsSound [] d s = s
  serve_all-IsSound (c ∷ cs) d s = serve_all-IsSound cs (serve c d) (serve-IsSound c d s)

  -- The user has a vote for the option.
  abbrev pub HasVote : ℕ → ℕ → ℕ → Db p → Type 0
  HasVote poll_id user_id option_id d =
      (k : ℕ) × (p.find_unique k d.ballots.poll_vote ≡ some (vote_of poll_id user_id option_id))

  added-HasVote :
      (poll_id user_id : ℕ) (os : List ℕ) (d : Db p) (t : p.Table PollVote) (o : ℕ)
      → HasNone p poll_id user_id t
      → HasVote poll_id user_id o (with_votes d (added p poll_id user_id os t))
        ↔ (any (λ x. x == o) os ≡ true)
  added-HasVote poll_id user_id os d t o fresh = (
    λ (k, found). elim (added_cases p poll_id user_id os t k (vote_of poll_id user_id o) found) [
      | inl old ↦ absurd (ground (arith, fresh k (vote_of poll_id user_id o) old))
      | inr (o', e, m) ↦ subst (λ x. any (λ y. y == x) os ≡ true) (ap (λ v. v.option_id) (sym e)) m
    ],
    λ m. added-has p poll_id user_id os t o m,
  )

  -- What a call leaves is read off the state in which it returns.
  returned :
      (poll_id user_id now : ℕ) (d d' : Db p) (s : ShownPoll)
      → fetch_formatted_poll poll_id user_id now d ≡ ok s d'
      → d' ≡ d
  returned poll_id user_id now d d' s h =
      sym (ap final h) ∙ fetch_formatted_poll-keeps poll_id user_id now d

  -- A vote that returns has recorded one vote for each option that it names, and no other of this
  -- user on this poll.
  pub vote-HasVote :
      (user_id event_id poll_id : ℕ) (os : List ℕ) (now o : ℕ) (s : ShownPoll) (d d' : Db p)
      → vote user_id event_id poll_id os now d ≡ ok s d'
      → HasVote poll_id user_id o d' ↔ (any (λ x. x == o) os ≡ true)
  vote-HasVote user_id event_id poll_id os now o s d d' =
      vote_cases (λ r. r ≡ ok s d' → HasVote poll_id user_id o d' ↔ (any (λ x. x == o) os ≡ true))
        user_id event_id poll_id os now d (λ e h. absurd (ground (arith, h)))
        (λ q b fresh h.
          let t = d.ballots.poll_vote in
          subst (λ x. HasVote poll_id user_id o x ↔ (any (λ y. y == o) os ≡ true))
            (sym
              (returned poll_id user_id now (with_votes d (added p poll_id user_id os t)) d' s h))
            (added-HasVote poll_id user_id os d t o fresh))

  -- A change of vote that returns replaces the user's votes on the poll by one for each option that
  -- it names, whatever they were before.
  pub change_vote-HasVote :
      (user_id event_id poll_id : ℕ) (os : List ℕ) (now o : ℕ) (s : ShownPoll) (d d' : Db p)
      → change_vote user_id event_id poll_id os now d ≡ ok s d'
      → HasVote poll_id user_id o d' ↔ (any (λ x. x == o) os ≡ true)
  change_vote-HasVote user_id event_id poll_id os now o s d d' =
      change_vote_cases
        (λ r. r ≡ ok s d' → HasVote poll_id user_id o d' ↔ (any (λ x. x == o) os ≡ true)) user_id
        event_id poll_id os now d (λ e h. absurd (ground (arith, h)))
        (λ q b h. absurd (ground (arith, h)))
        (λ q b h.
          let t = cleared poll_id user_id d in
          subst (λ x. HasVote poll_id user_id o x ↔ (any (λ y. y == o) os ≡ true))
            (sym
              (returned poll_id user_id now (with_votes d (added p poll_id user_id os t)) d' s h))
            (added-HasVote poll_id user_id os d t o
              (delete_many-HasNone p poll_id user_id d.ballots.poll_vote)))

  -- Who has a vote on the poll cannot vote on it again: the call throws and nothing changes.
  pub vote-refuses :
      (user_id event_id poll_id : ℕ) (os : List ℕ) (now o : ℕ) (d : Db p)
      → HasVote poll_id user_id o d
      → (e : HttpException) × (vote user_id event_id poll_id os now d ≡ err e d)
  vote-refuses user_id event_id poll_id os now o d (k, found) =
      vote_cases (λ r. (e : HttpException) × (r ≡ err e d)) user_id event_id poll_id os now d
        (λ e. (e, refl))
        (λ q b fresh. absurd (ground (arith, fresh k (vote_of poll_id user_id o) found)))

  -- The defect: the user's votes are deleted in a statement of their own. On an open poll with several
  -- choices, when all options that the user names are the poll's and one is named twice, wherever it
  -- stands, the call throws Prisma's P2002 and leaves the user, who may vote, with no vote on the poll.
  pub change_vote_loses_votes :
      (user_id event_id poll_id : ℕ) (os : List ℕ) (now : ℕ) (ev : Event) (q : Poll) (d : Db p)
      → check_access user_id event_id d ≡ ok ev d
      → p.find_unique poll_id d.ballots.poll ≡ some q
      → q.event_id ≡ event_id
      → is_over q now ≡ false
      → q.multiple_choice ≡ true
      → any (λ id. not (lists id (options_of poll_id d))) os ≡ false
      → names_twice os ≡ true
      → (d' : Db p) × (change_vote user_id event_id poll_id os now d ≡ err unique_violation d')
        × HasNone p poll_id user_id d'.ballots.poll_vote
  unfolding change_vote check_ballot
  change_vote_loses_votes user_id event_id poll_id os now ev q d may found here on several listed
        twice =
      let t = cleared poll_id user_id d in
      let valid : check_ballot event_id poll_id os now d ≡ ok tt d =
        ground (arith, found, here, on, several, listed) in
      (
        with_votes d t,
        ground (
          arith,
          may,
          valid,
          create_votes_lem p poll_id user_id os (with_votes d t),
          clashes_twice p poll_id user_id os t twice,
        ),
        delete_many-HasNone p poll_id user_id d.ballots.poll_vote,
      )
