-- ===== src/Polls/Votes.antt =====
-- The votes that one call adds (backend/src/polls/polls.service.ts).
use Prim.Native.String.{String}
use event_now.Prelude.{
  ℕ, suc, ◌≡◌, ◌⊎◌, refl, Bool, true, false, not, ◌&&◌, ◌||◌, some, List, [], ◌∷◌, ltb, ◌==◌,
  is_some, if◌then◌else◌, length, any, All, Option-cases, Bool-cases, inl, inr, arith, any-sort_by,
}
use event_now.Prelude.Outcome.{ok, err}
use event_now.Prisma.{Prisma}
use event_now.Prisma.Laws.{lists, find_many_iff, find_unique-create_old, find_unique-create_self}
use event_now.Http.{unique_violation}
use event_now.Database.{Db, PollOption, PollVote, for_each}
use event_now.Polls.{vote_of, is_vote_of, votes_of, votes_by, options_of, create_vote, create_votes}

module _ {p : Prisma} where
  abbrev pub with_votes : Db p → p.Table PollVote → Db p
  with_votes d t = record d { ballots = record d.ballots { poll_vote = t } }

-- An option stands in the list more than once.
abbrev pub names_twice : List ℕ → Bool
names_twice [] = false
names_twice (o ∷ os) = any (λ x. x == o) os || names_twice os

module _ (p : Prisma) where
  -- The table after `create_votes`, and whether a row meets another one on the way.
  abbrev pub added : ℕ → ℕ → List ℕ → p.Table PollVote → p.Table PollVote
  added poll_id user_id [] t = t
  added poll_id user_id (o ∷ os) t =
      added poll_id user_id os (p.create (vote_of poll_id user_id o) t)

  abbrev pub clashes : ℕ → ℕ → List ℕ → p.Table PollVote → Bool
  clashes poll_id user_id [] t = false
  clashes poll_id user_id (o ∷ os) t =
      is_some (p.find_first (λ v. is_vote_of poll_id user_id v && v.option_id == o) t)
      || clashes poll_id user_id os (p.create (vote_of poll_id user_id o) t)

  for_each_votes :
      (poll_id user_id : ℕ) (os : List ℕ) (d : Db p)
      → ((clashes poll_id user_id os d.ballots.poll_vote ≡ false)
          × (for_each (create_vote poll_id user_id) os d
              ≡ ok tt (with_votes d (added poll_id user_id os d.ballots.poll_vote))))
        ⊎ ((clashes poll_id user_id os d.ballots.poll_vote ≡ true)
            × (t : p.Table PollVote) × (for_each (create_vote poll_id user_id) os d
                ≡ err unique_violation (with_votes d t)))
  unfolding for_each create_vote
  for_each_votes poll_id user_id [] d = inl (refl, refl)
  for_each_votes poll_id user_id (o ∷ os) d =
      elim (Option-cases (
        p.find_first (λ v. is_vote_of poll_id user_id v && v.option_id == o) d.ballots.poll_vote)) [
          | inr (e, h) ↦ inr (ground (arith, h), d.ballots.poll_vote, ground (arith, h))
          | inl h ↦
              elim (for_each_votes poll_id user_id os
                (with_votes d (p.create (vote_of poll_id user_id o) d.ballots.poll_vote))) [
                  | inl (c, run) ↦ inl (ground (arith, h, c), ground (arith, h, run))
                  | inr (c, t, run) ↦ inr (ground (arith, h, c), t, ground (arith, h, run))
                ]
        ]

  -- `createMany` writes all of the votes, or none if one of them is there already.
  pub create_votes_lem :
      (poll_id user_id : ℕ) (os : List ℕ) (d : Db p)
      → create_votes poll_id user_id os d ≡ (
          if clashes poll_id user_id os d.ballots.poll_vote
          then err unique_violation d
          else ok tt (with_votes d (added poll_id user_id os d.ballots.poll_vote)))
  unfolding create_votes
  create_votes_lem poll_id user_id os d = elim (for_each_votes poll_id user_id os d) [
    | inl (c, run) ↦ ground (arith, c, run)
    | inr (c, t, run) ↦ ground (arith, c, run)
  ]

  -- A vote of the table is an old one or one of the call's.
  pub added_cases :
      (poll_id user_id : ℕ) (os : List ℕ) (t : p.Table PollVote) (k : ℕ) (v : PollVote)
      → p.find_unique k (added poll_id user_id os t) ≡ some v
      → (p.find_unique k t ≡ some v)
        ⊎ ((o : ℕ) × (v ≡ vote_of poll_id user_id o) × (any (λ x. x == o) os ≡ true))
  added_cases poll_id user_id [] t k v h = inl h
  added_cases poll_id user_id (o ∷ os) t k v h =
      elim (added_cases poll_id user_id os (p.create (vote_of poll_id user_id o) t) k v h) [
        | inr (o', e, member) ↦ inr (o', e, ground (arith, member))
        | inl found ↦ elim (Bool-cases (p.new_id t == k)) [
          | inl new ↦ inr (
            o,
            ground (arith, p.find_unique-create k (vote_of poll_id user_id o) t),
            ground arith,
          )
          | inr old ↦ inl (ground (arith, p.find_unique-create k (vote_of poll_id user_id o) t))
        ]
      ]

  pub added-keeps :
      (poll_id user_id : ℕ) (os : List ℕ) (t : p.Table PollVote) (k : ℕ) (v : PollVote)
      → p.find_unique k t ≡ some v
      → p.find_unique k (added poll_id user_id os t) ≡ some v
  added-keeps poll_id user_id [] t k v h = h
  added-keeps poll_id user_id (o ∷ os) t k v h =
      added-keeps poll_id user_id os (p.create (vote_of poll_id user_id o) t) k v
        (find_unique-create_old p k (vote_of poll_id user_id o) v t h)

  -- Every option of the call has its vote.
  pub added-has :
      (poll_id user_id : ℕ) (os : List ℕ) (t : p.Table PollVote) (o : ℕ)
      → any (λ x. x == o) os ≡ true
      → (k : ℕ) × (p.find_unique k (added poll_id user_id os t) ≡ some (vote_of poll_id user_id o))
  added-has poll_id user_id [] t o h = absurd (ground arith)
  added-has poll_id user_id (x ∷ os) t o h = elim (Bool-cases (x == o)) [
    | inl same ↦ (
      p.new_id t,
      added-keeps poll_id user_id os (p.create (vote_of poll_id user_id x) t) (p.new_id t)
          (vote_of poll_id user_id o)
          (ground (arith, find_unique-create_self p (vote_of poll_id user_id x) t)),
    )
    | inr other ↦
        added-has poll_id user_id os (p.create (vote_of poll_id user_id x) t) o (ground arith)
  ]

  -- The options that a ballot may name are the poll's.
  pub options_of-poll :
      (poll_id : ℕ) (os : List ℕ) (d : Db p) (o : ℕ)
      → any (λ id. not (lists id (options_of poll_id d))) os ≡ false
      → any (λ x. x == o) os ≡ true
      → (r : PollOption) × (p.find_unique o d.ballots.poll_option ≡ some r) × (r.poll_id ≡ poll_id)
  options_of-poll poll_id [] d o valid member = absurd (ground arith)
  options_of-poll poll_id (x ∷ os) d o valid member = elim (Bool-cases (x == o)) [
    | inr other ↦ options_of-poll poll_id os d o (ground arith) (ground arith)
    | inl same ↦
        let (r, found, holds) =
          (find_many_iff p (λ q. q.poll_id == poll_id) d.ballots.poll_option o).0 (
            ground (
              arith,
              any-sort_by (λ (e : ℕ × PollOption). e.0 == o)
                  (λ (a b : ℕ × PollOption). ltb b.1.order a.1.order)
                  (p.find_many (λ q. q.poll_id == poll_id) d.ballots.poll_option),
            )) in
        (r, found, ground arith)
  ]

  votes_by-pos :
      (user_id : ℕ) (t : p.Table PollVote) (es : List (ℕ × PollVote)) (k : ℕ) (v : PollVote)
      → All (λ e. (p.find_unique e.0 t ≡ some e.1)) es
      → p.find_unique k t ≡ some v
      → v.user_id ≡ user_id
      → lists k es ≡ true
      → ltb 0 (length (votes_by user_id es)) ≡ true
  votes_by-pos user_id t [] k v all found by listed = absurd (ground arith)
  votes_by-pos user_id t ((j, w) ∷ es) k v (first, rest) found by listed =
      elim (Bool-cases (w.user_id == user_id)) [
        | inl e ↦ ground arith
        | inr e ↦ elim (Bool-cases (j == k)) [
          | inl same ↦ absurd (ground arith)
          | inr other ↦ ground (arith, votes_by-pos user_id t es k v rest found by (ground arith))
        ]
      ]

  -- No vote of the user on the poll.
  abbrev pub HasNone : ℕ → ℕ → p.Table PollVote → Type 0
  HasNone poll_id user_id t =
      (k : ℕ) (v : PollVote) → p.find_unique k t ≡ some v → is_vote_of poll_id user_id v ≡ false

  founds :
      (t : p.Table PollVote) (q : PollVote → Bool) (es : List (ℕ × PollVote))
      → All (λ e. (p.find_unique e.0 t ≡ some e.1) × (q e.1 ≡ true)) es
      → All (λ e. (p.find_unique e.0 t ≡ some e.1)) es
  founds t q [] all = tt
  founds t q (e ∷ es) ((found, holds), rest) = (found, founds t q es rest)

  -- What `vote` reads as "nothing yet" is so.
  pub votes_by-HasNone :
      (poll_id user_id : ℕ) (d : Db p)
      → ltb 0 (length (votes_by user_id (votes_of poll_id d))) ≡ false
      → HasNone poll_id user_id d.ballots.poll_vote
  votes_by-HasNone poll_id user_id d empty k v found =
      let t = d.ballots.poll_vote in
      elim (Bool-cases (is_vote_of poll_id user_id v)) [
        | inr e ↦ e
        | inl e ↦ absurd (
            ground (
              arith,
              votes_by-pos user_id t (votes_of poll_id d) k v
                  (founds t (λ w. w.poll_id == poll_id) (votes_of poll_id d)
                    (p.find_many-sound (λ w. w.poll_id == poll_id) t))
                  found (ground arith)
                  (p.find_many-complete (λ w. w.poll_id == poll_id) t k v found (ground arith)),
            ))
      ]

  pub delete_many-HasNone :
      (poll_id user_id : ℕ) (t : p.Table PollVote)
      → HasNone poll_id user_id (p.delete_many (is_vote_of poll_id user_id) t)
  delete_many-HasNone poll_id user_id t k v found = elim (Option-cases (p.find_unique k t)) [
    | inl e ↦ absurd (ground (arith, e, p.find_unique-delete_many k (is_vote_of poll_id user_id) t))
    | inr (w, e) ↦ ground (arith, e, p.find_unique-delete_many k (is_vote_of poll_id user_id) t)
  ]

  -- What is left of the votes when those of one user are deleted was there before.
  pub delete_many-old :
      (q : PollVote → Bool) (t : p.Table PollVote) (k : ℕ) (v : PollVote)
      → p.find_unique k (p.delete_many q t) ≡ some v
      → (p.find_unique k t ≡ some v) × (q v ≡ false)
  delete_many-old q t k v found = elim (Option-cases (p.find_unique k t)) [
    | inl e ↦ absurd (ground (arith, e, p.find_unique-delete_many k q t))
    | inr (w, e) ↦ (
      ground (arith, e, p.find_unique-delete_many k q t),
      ground (arith, e, p.find_unique-delete_many k q t),
    )
  ]

  -- The options that a new poll brings.
  abbrev pub with_options : ℕ → ℕ → List String → p.Table PollOption → p.Table PollOption
  with_options poll_id index [] t = t
  with_options poll_id index (text ∷ texts) t =
      with_options poll_id (suc index) texts
        (p.create (record { poll_id = poll_id; text = text; order = index }) t)

  -- Options that were there stay.
  pub with_options-keeps :
      (poll_id index : ℕ) (texts : List String) (t : p.Table PollOption) (k : ℕ) (o : PollOption)
      → p.find_unique k t ≡ some o
      → p.find_unique k (with_options poll_id index texts t) ≡ some o
  with_options-keeps poll_id index [] t k o h = h
  with_options-keeps poll_id index (text ∷ texts) t k o h =
      with_options-keeps poll_id (suc index) texts
        (p.create (record { poll_id = poll_id; text = text; order = index }) t) k o
        (find_unique-create_old p k (record { poll_id = poll_id; text = text; order = index }) o t
          h)

  -- A call with one option adds one vote.
  pub added_one :
      (poll_id user_id : ℕ) (os : List ℕ) (t : p.Table PollVote) (k : ℕ) (v : PollVote)
      → length os ≡ 1
      → HasNone poll_id user_id t
      → p.find_unique k (added poll_id user_id os t) ≡ some v
      → is_vote_of poll_id user_id v ≡ true
      → k ≡ p.new_id t
  added_one poll_id user_id [] t k v one fresh found mine = absurd (omega arith)
  added_one poll_id user_id (o ∷ []) t k v one fresh found mine =
      elim (Bool-cases (p.new_id t == k)) [
        | inl new ↦ ground arith
        | inr old ↦
            absurd (ground (arith, fresh k v, p.find_unique-create k (vote_of poll_id user_id o) t))
      ]
  added_one poll_id user_id (o ∷ o' ∷ os) t k v one fresh found mine = absurd (omega arith)

  -- A vote for an option that is there already clashes.
  clashes_old :
      (poll_id user_id o k : ℕ) (os : List ℕ) (t : p.Table PollVote)
      → p.find_unique k t ≡ some (vote_of poll_id user_id o)
      → any (λ x. x == o) os ≡ true
      → clashes poll_id user_id os t ≡ true
  clashes_old poll_id user_id o k [] t found among = absurd (ground (arith, among))
  clashes_old poll_id user_id o k (x ∷ xs) t found among =
      let again : PollVote → Bool = λ v. is_vote_of poll_id user_id v && v.option_id == x in
      elim (Bool-cases (x == o)) [
        | inl same ↦ elim (Option-cases (p.find_first again t)) [
          | inr (e, h) ↦ ground (arith, h)
          | inl h ↦ absurd (
              ground (arith, same, p.find_first-none again t k (vote_of poll_id user_id o) h found))
        ]
        | inr other ↦ ground (
          arith,
          other,
          clashes_old poll_id user_id o k xs (p.create (vote_of poll_id user_id x) t) (
              find_unique-create_old p k (vote_of poll_id user_id x) (vote_of poll_id user_id o) t
                found),
        )
      ]

  -- So do two votes for one option, wherever they stand in the list.
  pub clashes_twice :
      (poll_id user_id : ℕ) (os : List ℕ) (t : p.Table PollVote)
      → names_twice os ≡ true
      → clashes poll_id user_id os t ≡ true
  clashes_twice poll_id user_id [] t h = absurd (ground (arith, h))
  clashes_twice poll_id user_id (o ∷ os) t h =
      let t' = p.create (vote_of poll_id user_id o) t in
      elim (Bool-cases (any (λ x. x == o) os)) [
        | inl again ↦ ground (
          arith,
          clashes_old poll_id user_id o (p.new_id t) os t'
              (find_unique-create_self p (vote_of poll_id user_id o) t) again,
        )
        | inr once ↦ ground (arith, once, h, clashes_twice poll_id user_id os t')
      ]
