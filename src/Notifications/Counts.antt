-- ===== src/Notifications/Counts.antt =====
-- The number of unread notifications (backend/src/notifications/notifications.service.ts).
use event_now.Prelude.{
  ℕ, zero, suc, ◌+◌, ◌≡◌, ◌≢◌, ap, Bool, true, ◌&&◌, some, List, [], ◌∷◌, ◌==◌, if◌then◌else◌, take,
  length, min, Option-cases, Bool-cases, inl, inr, arith,
}
use event_now.Prelude.Outcome.{ok, final}
use event_now.Prisma.{Prisma}
use event_now.Prisma.Laws.{sum-none, count-find_many}
use event_now.Database.{Db, Notification}
use event_now.Notifications.{
  is_unread_for, reads, own_notification, get_for_user, mark_as_read, mark_all_as_read,
  get_unread_count,
}

length-take : {A : Type 0} (n : ℕ) (xs : List A) → length (take n xs) ≡ min n (length xs)
length-take zero xs = ground arith
length-take (suc n) [] = ground arith
length-take (suc n) (x ∷ xs) = ground (arith, length-take n xs)

module _ {p : Prisma} where
  abbrev pub unread : ℕ → Db p → ℕ
  unread user_id d = p.sum (λ n. if is_unread_for user_id n then 1 else 0) d.notification

  -- After everything is marked as read the count of unread notifications is 0.
  pub mark_all_as_read-get_unread_count :
      (user_id : ℕ) (d : Db p)
      → get_unread_count user_id (final (mark_all_as_read user_id d))
        ≡ ok 0 (final (mark_all_as_read user_id d))
  unfolding get_unread_count mark_all_as_read
  mark_all_as_read-get_unread_count user_id d =
      let mine : Notification → Bool = λ n. n.user_id == user_id in
      ap (λ c. ok c (final (mark_all_as_read user_id d)))
        (sum-none p (is_unread_for user_id) (p.modify_many mine reads d.notification) (λ k r found.
          elim (Option-cases (p.find_unique k d.notification)) [
            | inl e ↦
                absurd (ground (arith, e, p.find_unique-modify_many k mine reads d.notification))
            | inr (n, e) ↦ ground (arith, e, p.find_unique-modify_many k mine reads d.notification)
          ]))

  -- Nobody else's count changes.
  pub mark_all_as_read-other :
      (user_id other : ℕ) (d : Db p)
      → other ≢ user_id
      → unread other (final (mark_all_as_read user_id d)) ≡ unread other d
  unfolding mark_all_as_read
  mark_all_as_read-other user_id other d differ =
      p.sum-modify_many (λ n. if is_unread_for other n then 1 else 0) (λ n. n.user_id == user_id)
        reads d.notification (λ n mine. ground arith)

  -- The count is the number of notifications that the user is shown, which are at most a hundred.
  pub get_for_user-get_unread_count :
      (user_id : ℕ) (d : Db p) (shown : List (ℕ × Notification)) (count : ℕ)
      → get_for_user user_id true d ≡ ok shown d
      → get_unread_count user_id d ≡ ok count d
      → length shown ≡ min 100 count
  unfolding get_for_user get_unread_count
  get_for_user-get_unread_count user_id d shown count h h' = ground (
    arith,
    h,
    h',
    length-take 100 (p.find_many (is_unread_for user_id) d.notification),
    count-find_many p (is_unread_for user_id) d.notification,
  )

  -- Marking a notification lowers its owner's count by one if the owner asks, it was unread and it is
  -- of a type that counts; in every other case the owner's count stays.
  pub mark_as_read-unread :
      (id user_id : ℕ) (n : Notification) (d : Db p)
      → p.find_unique id d.notification ≡ some n
      → unread n.user_id (final (mark_as_read id user_id d))
          + (if n.user_id == user_id && is_unread_for user_id n then 1 else 0)
        ≡ unread n.user_id d
  unfolding mark_as_read own_notification
  mark_as_read-unread id user_id n d found = elim (Bool-cases (n.user_id == user_id)) [
    | inr other ↦ ground (arith, found)
    | inl mine ↦ ground (
      arith,
      found,
      p.sum-modify (λ m. if is_unread_for n.user_id m then 1 else 0) id reads n d.notification
          found,
    )
  ]
