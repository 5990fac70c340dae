-- ===== src/Polls.antt =====
-- backend/src/polls/polls.service.ts: the polls of a community event. The messages to the gateway
-- are left out: each is the answer of the call as `neutralize_poll` writes it. The time is an
-- argument.
mod Tests
pub mod Votes
pub mod Cases
pub mod Sound
pub mod Calls
use Prim.Native.String.{String}
use event_now.Prelude.{
  ℕ, suc, Bool, true, false, not, ◌&&◌, ◌||◌, Option, none, some, List, [], ◌∷◌, ltb, leb, ◌==◌,
  if◌then◌else◌, map, length, any, all, filterb, sort_by,
}
use event_now.Prelude.Outcome.{
  Outcome, ok, err, transaction, throw_if, throw, or_throw, pure, get, ◌>>=◌, ◌>>◌,
}
use event_now.Prisma.{Prisma}
use event_now.Prisma.Laws.{lists}
use event_now.Http.{
  HttpException, bad_request, not_found, forbidden, conflict, record_not_found, unique_violation,
}
use event_now.Http
use event_now.Participants.{check_participant}
use event_now.Database.{
  Db, Handler, Event, Poll, PollOption, PollVote, PollStatus, polls, poll_options, poll_votes,
  find_or_throw, create, update, delete, delete_many, for_each,
}
use event_now.Database

pub record CreatePollDto : Type 0 where
  pub question : String
  pub options : List String
  pub multiple_choice : Option Bool
  pub closes_at : Option ℕ

-- An option and a poll of the answer.
pub record ShownOption : Type 0 where
  pub id : ℕ
  pub text : String
  pub order : ℕ
  pub vote_count : ℕ

pub record ShownPoll : Type 0 where
  pub id : ℕ
  pub poll : Poll
  pub has_voted : Bool
  pub my_votes : List ℕ
  pub total_votes : ℕ
  pub is_created_by_me : Bool
  pub is_closed : Bool
  pub options : List ShownOption

abbrev pub is_closed_status : PollStatus → Bool
is_closed_status PollStatus.closed = true
is_closed_status PollStatus.is_open = false

-- `closesAt !== null && closesAt < now`.
abbrev pub is_past : Option ℕ → ℕ → Bool
is_past none now = false
is_past (some t) now = ltb t now

-- `dto.closesAt && new Date(dto.closesAt) <= new Date()`.
abbrev pub is_not_ahead : Option ℕ → ℕ → Bool
is_not_ahead none now = false
is_not_ahead (some t) now = leb t now

abbrev pub is_over : Poll → ℕ → Bool
is_over poll now = is_closed_status poll.status || is_past poll.closes_at now

-- `new Set(xs)`.
abbrev pub set_of : List ℕ → List ℕ
set_of [] = []
set_of (x ∷ xs) = let rest = set_of xs in if any (λ y. y == x) rest then rest else x ∷ rest

abbrev pub or_false : Option Bool → Bool
or_false none = false
or_false (some b) = b

abbrev pub comes_after : ShownPoll → ShownPoll → Bool
comes_after a b =
    if a.is_closed
    then (if b.is_closed then ltb a.poll.created_at b.poll.created_at else true)
    else (if b.is_closed then false else ltb a.poll.created_at b.poll.created_at)

abbrev pub neutralize_poll : ShownPoll → ShownPoll
neutralize_poll s = record s { has_voted = false; my_votes = []; is_created_by_me = false }

abbrev pub poll_of : ℕ → ℕ → CreatePollDto → ℕ → Poll
poll_of user_id event_id dto now = record {
  event_id = event_id;
  created_by_id = user_id;
  question = dto.question;
  status = PollStatus.is_open;
  multiple_choice = or_false dto.multiple_choice;
  closes_at = dto.closes_at;
  created_at = now;
}

abbrev pub vote_of : ℕ → ℕ → ℕ → PollVote
vote_of poll_id user_id option_id = record {
  poll_id = poll_id;
  option_id = option_id;
  user_id = user_id;
}

abbrev pub is_vote_of : ℕ → ℕ → PollVote → Bool
is_vote_of poll_id user_id v = v.poll_id == poll_id && v.user_id == user_id

abbrev pub close : Poll → Poll
close poll = record poll { status = PollStatus.closed }

abbrev pub votes_by : ℕ → List (ℕ × PollVote) → List (ℕ × PollVote)
votes_by user_id vs = filterb (λ (v : ℕ × PollVote). v.1.user_id == user_id) vs

module _ {p : Prisma} where
  pub check_access : ℕ → ℕ → Handler p Event
  check_access = check_participant Http.not_poll_participant

  -- The votes of a poll, and its options in their order.
  abbrev pub votes_of : ℕ → Db p → List (ℕ × PollVote)
  votes_of poll_id d = p.find_many (λ v. v.poll_id == poll_id) d.ballots.poll_vote

  abbrev pub options_of : ℕ → Db p → List (ℕ × PollOption)
  options_of poll_id d =
      sort_by (λ (a b : ℕ × PollOption). ltb b.1.order a.1.order)
        (p.find_many (λ o. o.poll_id == poll_id) d.ballots.poll_option)

  abbrev show_option : Db p → ℕ × PollOption → ShownOption
  show_option d o = record {
    id = o.0;
    text = o.1.text;
    order = o.1.order;
    vote_count = length (p.find_many (λ v. v.option_id == o.0) d.ballots.poll_vote);
  }

  pub format_poll : ℕ → Poll → ℕ → ℕ → Db p → ShownPoll
  format_poll id poll user_id now d = record {
    id = id;
    poll = poll;
    has_voted =
        ltb 0
          (length (map (λ (v : ℕ × PollVote). v.1.option_id) (votes_by user_id (votes_of id d))));
    my_votes = map (λ (v : ℕ × PollVote). v.1.option_id) (votes_by user_id (votes_of id d));
    total_votes = length (set_of (map (λ (v : ℕ × PollVote). v.1.user_id) (votes_of id d)));
    is_created_by_me = poll.created_by_id == user_id;
    is_closed = is_over poll now;
    options = map (show_option d) (options_of id d);
  }

  pub fetch_formatted_poll : ℕ → ℕ → ℕ → Handler p ShownPoll
  unfolding format_poll
  fetch_formatted_poll poll_id user_id now = do
    poll ← find_or_throw polls poll_id (not_found Http.poll_missing)
    db ← get
    pure (format_poll poll_id poll user_id now db)

  pub get_event_polls : ℕ → ℕ → ℕ → Handler p (List ShownPoll)
  unfolding check_access format_poll
  get_event_polls user_id event_id now = do
    _ ← check_access user_id event_id
    db ← get
    pure (
        sort_by comes_after (
          map (λ (e : ℕ × Poll). format_poll e.0 e.1 user_id now db)
            (p.find_many (λ q. q.event_id == event_id) db.ballots.poll)))

  -- The nested `create` of the options, `order` being the index.
  pub create_options : ℕ → ℕ → List String → Handler p (Unit {0})
  create_options poll_id index [] = pure tt
  create_options poll_id index (text ∷ texts) =
      create poll_options (record { poll_id = poll_id; text = text; order = index }) >>= λ _.
      create_options poll_id (suc index) texts

  pub create_poll : ℕ → ℕ → CreatePollDto → ℕ → Handler p ShownPoll
  unfolding check_access format_poll create_options
  create_poll user_id event_id dto now = do
    _ ← check_access user_id event_id
    throw_if (ltb (length dto.options) 2) (bad_request Http.too_few_options)
    throw_if (is_not_ahead dto.closes_at now) (bad_request Http.closes_in_past)
    id ← create polls (poll_of user_id event_id dto now)
    create_options id 0 dto.options
    db ← get
    pure (format_poll id (poll_of user_id event_id dto now) user_id now db)

  -- `!poll || poll.eventId !== eventId`.
  pub poll_of_event : ℕ → ℕ → Handler p Poll
  poll_of_event event_id poll_id = do
    poll ← find_or_throw polls poll_id (not_found Http.poll_missing)
    throw_if (not (poll.event_id == event_id)) (not_found Http.poll_missing)
    pure poll

  -- What `vote` and `changeVote` ask of the poll and of the options.
  pub check_ballot : ℕ → ℕ → List ℕ → ℕ → Handler p (Unit {0})
  unfolding poll_of_event
  check_ballot event_id poll_id option_ids now = do
    poll ← poll_of_event event_id poll_id
    throw_if (is_over poll now) (bad_request Http.poll_closed)
    db ← get
    throw_if (any (λ id. not (lists id (options_of poll_id db))) option_ids)
        (bad_request Http.invalid_option)
    throw_if (not poll.multiple_choice && not (length option_ids == 1))
        (bad_request Http.single_vote_only)

  -- One row of `createMany`: a vote is unique to its poll, option and user.
  pub create_vote : ℕ → ℕ → ℕ → Handler p (Unit {0})
  create_vote poll_id user_id option_id d =
      elim (p.find_first (λ v. is_vote_of poll_id user_id v && v.option_id == option_id)
        d.ballots.poll_vote) [
          | some e ↦ err unique_violation d
          | none ↦ (create poll_votes (vote_of poll_id user_id option_id) >>= λ _. pure tt) d
        ]

  -- `createMany` of the votes, in one statement: all of them or none.
  pub create_votes : ℕ → ℕ → List ℕ → Handler p (Unit {0})
  unfolding for_each create_vote
  create_votes poll_id user_id option_ids =
      transaction (for_each (create_vote poll_id user_id) option_ids)

  pub vote : ℕ → ℕ → ℕ → List ℕ → ℕ → Handler p ShownPoll
  unfolding check_access check_ballot create_votes fetch_formatted_poll
  vote user_id event_id poll_id option_ids now = do
    _ ← check_access user_id event_id
    check_ballot event_id poll_id option_ids now
    db ← get
    throw_if (ltb 0 (length (votes_by user_id (votes_of poll_id db)))) (conflict Http.already_voted)
    create_votes poll_id user_id option_ids
    fetch_formatted_poll poll_id user_id now

  pub change_vote : ℕ → ℕ → ℕ → List ℕ → ℕ → Handler p ShownPoll
  unfolding check_access check_ballot create_votes fetch_formatted_poll
  change_vote user_id event_id poll_id option_ids now = do
    _ ← check_access user_id event_id
    check_ballot event_id poll_id option_ids now
    delete_many poll_votes (is_vote_of poll_id user_id)
    create_votes poll_id user_id option_ids
    fetch_formatted_poll poll_id user_id now

  pub close_poll : ℕ → ℕ → ℕ → ℕ → Handler p ShownPoll
  unfolding check_access poll_of_event fetch_formatted_poll
  close_poll user_id event_id poll_id now = do
    event ← check_access user_id event_id
    poll ← poll_of_event event_id poll_id
    throw_if (is_closed_status poll.status) (bad_request Http.poll_already_closed)
    throw_if (not (poll.created_by_id == user_id) && not (event.organizer_id == user_id))
        (forbidden Http.poll_close_forbidden)
    update polls poll_id close
    fetch_formatted_poll poll_id user_id now

  -- The schema deletes the options and the votes of a poll with it (`onDelete: Cascade`).
  pub delete_poll : ℕ → ℕ → ℕ → Handler p (Unit {0})
  unfolding check_access poll_of_event
  delete_poll user_id event_id poll_id = do
    event ← check_access user_id event_id
    poll ← poll_of_event event_id poll_id
    throw_if (not (poll.created_by_id == user_id) && not (event.organizer_id == user_id))
        (forbidden Http.poll_delete_forbidden)
    delete polls poll_id
    db ← get
    delete_many poll_votes (λ v. v.poll_id == poll_id || lists v.option_id (options_of poll_id db))
    delete_many poll_options (λ o. o.poll_id == poll_id)
