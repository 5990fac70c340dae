-- ===== src/Polls/Tests.antt =====
-- The theorems on polls applied to a small database (backend/src/polls/polls.service.ts).
use event_now.Prelude.{◌≡◌, ◌↔◌, true, false, refl, none, some, List, [], ◌∷◌, any, ◌==◌, arith}
use event_now.Prelude.Outcome.{ok, err}
use event_now.Prisma.Rows.{in_memory}
use event_now.Http.{HttpException, unique_violation}
use event_now.Database.{Db}
use event_now.Participants.{check_participant}
use event_now.Polls.{ShownPoll, CreatePollDto, check_access, vote, change_vote, vote_of}
use event_now.Polls.Votes.{HasNone}
use event_now.Polls.Sound.{IsSound}
use event_now.Polls.Calls.{
  PollCall, create_poll_call, vote_call, change_vote_call, close_poll_call, delete_poll_call,
  serve_all, serve_all-IsSound, HasVote, change_vote-HasVote, vote-refuses, change_vote_loses_votes,
}
use event_now.Tests.{picnic, which_day, polled, shared}

when : CreatePollDto
when = record {
  question = "Quel lieu ?";
  options = "Parc" ∷ "Lac" ∷ [];
  multiple_choice = none;
  closes_at = some 50;
}

abbrev calls : List PollCall
calls =
    create_poll_call 9 0 when 10
    ∷ vote_call 9 0 0 (1 ∷ []) 20
    ∷ vote_call 9 0 0 (1 ∷ []) 21
    ∷ change_vote_call 9 0 0 (0 ∷ []) 30
    ∷ close_poll_call 9 0 0 40
    ∷ delete_poll_call 9 0 0
    ∷ []

shared-IsSound : IsSound shared.ballots
shared-IsSound = record {
  have_options = λ k v h. absurd (ground arith);
  single_votes = λ j k v w q h. absurd (ground arith);
}

serve_all-IsSound_example : IsSound (serve_all calls shared).ballots
serve_all-IsSound_example = serve_all-IsSound calls shared shared-IsSound

-- The answers to user 9, who changes to the second option, and then names both.
abbrev changed : ShownPoll
changed = record {
  id = 0;
  poll = which_day;
  has_voted = true;
  my_votes = 1 ∷ [];
  total_votes = 1;
  is_created_by_me = true;
  is_closed = false;
  options =
      (record { id = 0; text = "Samedi"; order = 0; vote_count = 0 })
      ∷ (record { id = 1; text = "Dimanche"; order = 1; vote_count = 1 })
      ∷ [];
}

abbrev after_change : Db in_memory
after_change = record polled {
  ballots = record polled.ballots { poll_vote = some (vote_of 0 9 1) ∷ none ∷ [] };
}

runs : change_vote 9 0 0 (1 ∷ []) 5 polled ≡ ok changed after_change
unfolding change_vote check_participant
runs = refl

change_vote-HasVote_example : HasVote 0 9 1 after_change ↔ (any (λ x. x == 1) (1 ∷ []) ≡ true)
change_vote-HasVote_example =
    change_vote-HasVote 9 0 0 (1 ∷ []) 5 1 changed polled after_change runs

vote-refuses_example : (e : HttpException) × (vote 9 0 0 (1 ∷ []) 5 polled ≡ err e polled)
vote-refuses_example = vote-refuses 9 0 0 (1 ∷ []) 5 0 polled (0, refl)

allowed : check_access 9 0 polled ≡ ok picnic polled
unfolding check_access check_participant
allowed = refl

change_vote_loses_votes_example :
    (d' : Db in_memory) × (change_vote 9 0 0 (1 ∷ 0 ∷ 1 ∷ []) 5 polled ≡ err unique_violation d')
    × HasNone in_memory 0 9 d'.ballots.poll_vote
change_vote_loses_votes_example =
    change_vote_loses_votes 9 0 0 (1 ∷ 0 ∷ 1 ∷ []) 5 picnic which_day polled allowed refl refl refl
      refl refl refl

-- With one vote cleared user 9 may vote again.
abbrev unvoted : Db in_memory
unvoted = record polled { ballots = record polled.ballots { poll_vote = [] } }

abbrev after_vote : Db in_memory
after_vote = record polled {
  ballots = record polled.ballots { poll_vote = some (vote_of 0 9 1) ∷ [] };
}

votes : vote 9 0 0 (1 ∷ []) 5 unvoted ≡ ok changed after_vote
unfolding vote check_participant
votes = refl
