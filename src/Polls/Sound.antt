-- ===== src/Polls/Sound.antt =====
-- What holds of the votes of every poll (backend/src/polls/polls.service.ts): they are for options
-- of their own poll, and a poll with a single choice has at most one vote of each user.
use Prim.Native.String.{String}
use event_now.Prelude.{
  ℕ, ◌≡◌, sym, Bool, false, not, ◌&&◌, ◌||◌, some, List, ◌==◌, length, any, Option-cases,
  Bool-cases, inl, inr, arith, ◌∙◌,
}
use event_now.Prisma.{Prisma}
use event_now.Prisma.Laws.{lists, find_unique-create_old}
use event_now.Database.{Db, Ballots, Poll, PollOption, PollVote}
use event_now.Polls.{is_vote_of, options_of, close}
use event_now.Polls.Votes.{
  HasNone, added_one, added, added_cases, delete_many-old, options_of-poll, with_options-keeps,
}
use event_now.Polls.Cases.{IsBallot, cleared, without_poll, with_poll}

one_option :
    (os : List ℕ) (q r : Poll)
    → (not q.multiple_choice && not (length os == 1)) ≡ false
    → q ≡ r
    → r.multiple_choice ≡ false
    → length os ≡ 1
one_option os q r one same only = ground arith

module _ {p : Prisma} where
  -- The vote's poll is there, and its option is one of that poll.
  abbrev pub IsValidVote : Ballots p → PollVote → Type 0
  IsValidVote b v =
      ((q : Poll) × (p.find_unique v.poll_id b.poll ≡ some q))
      × (o : PollOption) × (p.find_unique v.option_id b.poll_option ≡ some o)
      × (o.poll_id ≡ v.poll_id)

  abbrev pub HaveOptions : Ballots p → Type 0
  HaveOptions b = (k : ℕ) (v : PollVote) → p.find_unique k b.poll_vote ≡ some v → IsValidVote b v

  abbrev pub HaveSingleVotes : Ballots p → Type 0
  HaveSingleVotes b =
      (j k : ℕ) (v w : PollVote) (q : Poll)
      → p.find_unique j b.poll_vote ≡ some v
      → p.find_unique k b.poll_vote ≡ some w
      → v.poll_id ≡ w.poll_id
      → v.user_id ≡ w.user_id
      → p.find_unique v.poll_id b.poll ≡ some q
      → q.multiple_choice ≡ false
      → j ≡ k

  pub record IsSound (b : Ballots p) : Type 0 where
    pub have_options : HaveOptions b
    pub single_votes : HaveSingleVotes b

  -- Fewer votes are sound if all of them were.
  fewer-IsSound :
      (b : Ballots p) (q : PollVote → Bool)
      → IsSound b
      → IsSound (record b { poll_vote = p.delete_many q b.poll_vote })
  fewer-IsSound b q s = record {
    have_options = λ k v found. s.have_options k v (delete_many-old p q b.poll_vote k v found).0;
    single_votes = λ j k v w r found found'.
        s.single_votes j k v w r (delete_many-old p q b.poll_vote j v found).0
          (delete_many-old p q b.poll_vote k w found').0;
  }

  added-HaveSingleVotes :
      (poll_id user_id : ℕ) (os : List ℕ) (b : Ballots p) (q : Poll)
      → HaveSingleVotes b
      → HasNone p poll_id user_id b.poll_vote
      → p.find_unique poll_id b.poll ≡ some q
      → (not q.multiple_choice && not (length os == 1)) ≡ false
      → HaveSingleVotes (record b { poll_vote = added p poll_id user_id os b.poll_vote })
  added-HaveSingleVotes poll_id user_id os b q single fresh found one j k v w r fj fk same_poll
        same_user fr only =
      let t = b.poll_vote in
      elim (Bool-cases (is_vote_of poll_id user_id v)) [
        | inl mine ↦
            let length_one = one_option os q r one (ground arith) only in
            added_one p poll_id user_id os t j v length_one fresh fj mine
            ∙ sym (added_one p poll_id user_id os t k w length_one fresh fk (ground arith))
        | inr other ↦ elim (added_cases p poll_id user_id os t j v fj) [
          | inr (o, e, m) ↦ absurd (ground arith)
          | inl old ↦ elim (added_cases p poll_id user_id os t k w fk) [
            | inr (o, e, m) ↦ absurd (ground arith)
            | inl old' ↦ single j k v w r old old' same_poll same_user fr only
          ]
        ]
      ]

  added-HaveOptions :
      (poll_id user_id : ℕ) (os : List ℕ) (d : Db p) (t : p.Table PollVote) (q : Poll)
      → HaveOptions (record d.ballots { poll_vote = t })
      → p.find_unique poll_id d.ballots.poll ≡ some q
      → any (λ id. not (lists id (options_of poll_id d))) os ≡ false
      → HaveOptions (record d.ballots { poll_vote = added p poll_id user_id os t })
  added-HaveOptions poll_id user_id os d t q all found valid k v fv =
      elim (added_cases p poll_id user_id os t k v fv) [
        | inl old ↦ all k v old
        | inr (o, e, m) ↦
            let (r, fr, mine) = options_of-poll p poll_id os d o valid m in
            ((q, ground arith), r, ground arith, ground arith)
      ]

  pub added-IsSound :
      (poll_id user_id event_id : ℕ) (os : List ℕ) (now : ℕ) (d : Db p) (t : p.Table PollVote)
      (q : Poll)
      → IsSound (record d.ballots { poll_vote = t })
      → IsBallot event_id poll_id os now d q
      → HasNone p poll_id user_id t
      → IsSound (record d.ballots { poll_vote = added p poll_id user_id os t })
  added-IsSound poll_id user_id event_id os now d t q s (found, here, ahead, valid, one) fresh =
      record {
        have_options = added-HaveOptions poll_id user_id os d t q s.have_options found valid;
        single_votes =
            added-HaveSingleVotes poll_id user_id os (record d.ballots { poll_vote = t }) q
              s.single_votes fresh found one;
      }

  pub cleared-IsSound :
      (poll_id user_id : ℕ) (d : Db p)
      → IsSound d.ballots
      → IsSound (record d.ballots { poll_vote = cleared poll_id user_id d })
  cleared-IsSound poll_id user_id d s = fewer-IsSound d.ballots (is_vote_of poll_id user_id) s

  modified :
      (poll_id k : ℕ) (b : Ballots p) (r : Poll)
      → p.find_unique k (p.modify poll_id close b.poll) ≡ some r
      → (q : Poll) × (p.find_unique k b.poll ≡ some q) × (q.multiple_choice ≡ r.multiple_choice)
  modified poll_id k b r h = elim (Option-cases (p.find_unique k b.poll)) [
    | inl e ↦ absurd (ground (arith, e, p.find_unique-modify k poll_id close b.poll))
    | inr (q, e) ↦ (q, e, ground (arith, e, p.find_unique-modify k poll_id close b.poll))
  ]

  still :
      (poll_id k : ℕ) (b : Ballots p) (q : Poll)
      → p.find_unique k b.poll ≡ some q
      → (r : Poll) × (p.find_unique k (p.modify poll_id close b.poll) ≡ some r)
  still poll_id k b q h = elim (Bool-cases (poll_id == k)) [
    | inl e ↦ (close q, ground (arith, h, p.find_unique-modify k poll_id close b.poll))
    | inr e ↦ (q, ground (arith, h, p.find_unique-modify k poll_id close b.poll))
  ]

  pub closed-IsSound :
      (poll_id : ℕ) (b : Ballots p)
      → IsSound b
      → IsSound (record b { poll = p.modify poll_id close b.poll })
  closed-IsSound poll_id b s = record {
    have_options = λ k v fv.
        let ((q, fq), o, fo, mine) = s.have_options k v fv in
        (still poll_id v.poll_id b q fq, o, fo, mine);
    single_votes = λ j k v w r fj fk same_poll same_user fr only.
        let (q, fq, same) = modified poll_id v.poll_id b r fr in
        s.single_votes j k v w q fj fk same_poll same_user fq (same ∙ only);
  }

  pub with_poll-IsSound :
      (q : Poll) (texts : List String) (b : Ballots p) → IsSound b → IsSound (with_poll q texts b)
  with_poll-IsSound q texts b s = record {
    have_options = λ k v fv.
        let ((r, fr), o, fo, mine) = s.have_options k v fv in
        (
          (r, find_unique-create_old p v.poll_id q r b.poll fr),
          o,
          with_options-keeps p (p.new_id b.poll) 0 texts b.poll_option v.option_id o fo,
          mine,
        );
    single_votes = λ j k v w r fj fk same_poll same_user fr only.
        let ((r', fr'), o, fo, mine) = s.have_options j v fj in
        s.single_votes j k v w r' fj fk same_poll same_user fr'
          (ground (arith, find_unique-create_old p v.poll_id q r' b.poll fr'));
  }

  pub without_poll-IsSound :
      (poll_id : ℕ) (d : Db p) → IsSound d.ballots → IsSound (without_poll poll_id d)
  without_poll-IsSound poll_id d s =
      let gone : PollVote → Bool =
        λ v. v.poll_id == poll_id || lists v.option_id (options_of poll_id d) in
      record {
        have_options = λ k v fv.
            let (found, kept) = delete_many-old p gone d.ballots.poll_vote k v fv in
            let ((q, fq), o, fo, mine) = s.have_options k v found in
            (
              (q, ground (arith, fq, p.find_unique-delete v.poll_id poll_id d.ballots.poll)),
              o,
              ground (
                arith,
                fo,
                p.find_unique-delete_many v.option_id (λ r. r.poll_id == poll_id)
                    d.ballots.poll_option,
              ),
              mine,
            );
        single_votes = λ j k v w r fj fk same_poll same_user fr only.
            s.single_votes j k v w r (delete_many-old p gone d.ballots.poll_vote j v fj).0
              (delete_many-old p gone d.ballots.poll_vote k w fk).0 same_poll same_user
              (ground (arith, fr, p.find_unique-delete v.poll_id poll_id d.ballots.poll)) only;
      }
